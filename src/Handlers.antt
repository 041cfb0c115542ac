-- ===== src/Handlers.antt =====
-- The threads of cs352proxy.c that move packets: a packet from the tap device (`TAPHandle`) and one
-- result of `recv` from a peer (`TCPHandle`). A packet is what one `recv` gives, as the code has it.
pub mod Receive
pub mod Data
pub mod Answer
pub mod Single
pub mod Greeting
pub mod Packet
pub mod Delivery
pub mod Ignored
pub mod Fresh
pub mod Back
pub mod Broadcast
pub mod Dispatch
pub mod Moves
use cs352proxypart.Base.{
  ℕ, suc, ◌+◌, ◌-◌, ◌*◌, ◌%◌, ◌^◌, Bool, true, false, ◌&&◌, not, Option, none, some, List, [], ◌∷◌,
  ◌++◌, ◌==◌, ltb, if◌then◌else◌, take, drop, length, replicate,
}
use cs352proxypart.Memory.{Bytes, get, put, store, hton}
use cs352proxypart.Helper.{comp_mac_zero}
use cs352proxypart.Packets.{
  Ptr, null, Mac, PktHeader, ProxyInfo, Link, LinkstateNode, node, LinkstatePkt, pkt_data,
  pkt_leave, pkt_quit, pkt_linkstate, pkt_probereq, pkt_proberes, max_pkt_len,
}
use cs352proxypart.Heap.{Run, ok, fault, exited, and_then, checked}
use cs352proxypart.Codec.{read_uint}
use cs352proxypart.Linkstate.{ntoh_linkstate}
use cs352proxypart.State.{
  State, Cmd, pure, ◌>>=◌, ◌>>◌, lift, gets, modify, lock, unlock, gettimeid, load, save, set_next,
  set_head, set_size, send,
}
use cs352proxypart.State.UtHash.{ProxySocketfd, UtHash}
use cs352proxypart.Sockets.{addsockfd, find_socketfd}
use cs352proxypart.Members.{increment, add_members}
use cs352proxypart.Links.{serialize, new_node}

-- `bzero`
unfoldable pub zeros : ℕ → Bytes
zeros n = replicate n 0

-- What `read` gave: bytes, or -1 (`none`).
abbrev pub bytes_of : Option Bytes → Bytes
bytes_of none = []
bytes_of (some bytes) = bytes

-- `n` as a `uint16_t`, and `n + 4`
abbrev pub length_field : Option Bytes → ℕ
length_field none = 2 ^ 16 - 1
length_field (some bytes) = length bytes % 2 ^ 16

abbrev pub sent_length : Option Bytes → ℕ
sent_length none = 3
sent_length (some bytes) = length bytes + 4

-- The bytes that `TAPHandle` writes to every socket: the header, and what was read behind it. The
-- code goes on after a failed `read`.
unfoldable pub tap_packet : Bool → Option Bytes → Run Bytes
tap_packet big r = and_then (checked (put (zeros max_pkt_len) 4 (bytes_of r))) λ buf.
    and_then (checked (put buf 0 (store big 2 (hton big 2 pkt_data)))) λ buf.
      and_then (checked (put buf 2 (store big 2 (hton big 2 (length_field r)))))
        λ buf. checked (get buf 0 (sent_length r))

module _ {T : Type 0} where
  unfoldable pub write_all : Bytes → List ProxySocketfd → Cmd T (Unit {0})
  write_all bytes [] = pure tt
  write_all bytes (e ∷ es) = send e.sock_fd bytes >> write_all bytes es

module _ {T : Type 0} (u : UtHash T) where
  -- The body of the loop of `TAPHandle`.
  unfoldable pub tap_handle : Bool → (r : Option Bytes) → Cmd T (Unit {0})
  tap_handle big r = do
    bytes ← lift (tap_packet big r)
    sockets ← gets λ s. u.to_list s.socketfds
    write_all bytes sockets

module _ {T : Type 0} where
  -- `lock; temp = head; ptr->next = temp; head = ptr; size++; unlock`
  unfoldable pub push_front : Ptr → Cmd T (Unit {0})
  push_front ptr = do
    lock
    temp ← gets λ s. s.mem_list.head
    set_next ptr temp
    set_head ptr
    size ← gets λ s. s.mem_list.size
    set_size (increment size)
    unlock

  -- A fresh node for the link from this proxy to a peer, of weight 1 and heard of now.
  unfoldable pub peer_node : ProxyInfo → Cmd T Ptr
  peer_node remote_info = do
    time_id2 ← gettimeid
    me ← gets λ s. s.my_proxy_info
    new_node (record { local = me; remote = remote_info; linkweight = 1; id = time_id2 }) null

  -- `pkt->list->remote.macaddr[j] = …`
  unfoldable pub set_remote_mac : Ptr → Mac → Cmd T (Unit {0})
  set_remote_mac p m = do
    n ← load p
    save p (node (record n.link { remote = record n.link.remote { macaddr = m } }) n.next)

module _ {T : Type 0} (u : UtHash T) where
  -- The branch for a remote address of six zeros in the first node: `comp_mac_zero` is not 0.
  unfoldable pub got_back : ℕ → LinkstatePkt → (tcp_fd : ℕ) → Cmd T (Unit {0})
  got_back fuel pkt tcp_fd = do
    addsockfd u pkt.source.macaddr tcp_fd
    client_node2 ← peer_node pkt.source
    push_front client_node2
    add_members u fuel fuel pkt.list tcp_fd

  -- The branch for any other address, in a packet of one neighbour. `junk` is `buf2`.
  unfoldable pub got_original :
      Bool → ℕ → (junk : Bytes) → LinkstatePkt → (tcp_fd : ℕ) → Cmd T (Unit {0})
  got_original big fuel junk pkt tcp_fd = do
    addsockfd u pkt.source.macaddr tcp_fd
    me ← gets λ s. s.my_proxy_info
    set_remote_mac pkt.list me.macaddr
    first ← load pkt.list
    client_node2 ← peer_node (record pkt.source { macaddr = first.local.macaddr })
    push_front client_node2
    size ← gets λ s. s.mem_list.size
    head ← gets λ s. s.mem_list.head
    set_next head null
    buf2 ←
        serialize big fuel
          (record {
            head = record { type = pkt_linkstate; length = 50 };
            num_neighbors = size % 2 ^ 16;
            source = me;
            list = head;
          })
          (take 54 junk)
    send tcp_fd buf2

  -- A packet from a source that has no socket. The second test reads the node again.
  unfoldable pub from_stranger :
      Bool → ℕ → (junk : Bytes) → LinkstatePkt → (tcp_fd : ℕ) → Cmd T (Unit {0})
  from_stranger big fuel junk pkt tcp_fd = do
    first ← load pkt.list
    if comp_mac_zero first.remote.macaddr == 0 then pure tt else got_back fuel pkt tcp_fd
    again ← load pkt.list
    if (comp_mac_zero again.remote.macaddr == 0) && (pkt.num_neighbors == 1)
        then got_original big fuel junk pkt tcp_fd
        else pure tt

  -- The branch of `PKT_LINKSTATE`. The output on the terminal reads the first node.
  unfoldable pub on_linkstate :
      Bool → ℕ → (wild : Ptr) → (junk buf : Bytes) → (tcp_fd : ℕ) → Cmd T (Unit {0})
  on_linkstate big fuel wild junk buf tcp_fd = do
    h ← gets λ s. s.nodes
    (pkt, h) ← lift (ntoh_linkstate big wild buf h)
    modify λ s. record s { nodes = h }
    load pkt.list >>= λ _. pure tt
    pkt_sockfd ← find_socketfd u pkt.source.macaddr
    elim pkt_sockfd [
      | none ↦ from_stranger big fuel junk pkt tcp_fd
      | some _ ↦ add_members u fuel fuel pkt.list tcp_fd
    ]

  -- `write(tap_fd, buf+4, n-4)`; below 4 the count is a huge `size_t`.
  unfoldable pub on_data : Bytes → (n : ℕ) → Cmd T (Unit {0})
  on_data buf n =
      if ltb n 4
      then (λ s. fault)
      else do bytes ← lift (checked (get buf 4 (n - 4))); tap ← gets λ s. s.tap_fd; send tap bytes

  -- The tests on the type of a packet of `n` bytes in `buf`.
  unfoldable pub dispatch :
      Bool → ℕ → (wild : Ptr) → (junk buf : Bytes) → (n pkt_type tcp_fd : ℕ) → Cmd T (Unit {0})
  dispatch big fuel wild junk buf n pkt_type tcp_fd =
      if pkt_type == pkt_data
      then on_data buf n
      else if pkt_type == pkt_leave
      then pure tt
      else if pkt_type == pkt_quit
      then (λ s. exited)
      else if pkt_type == pkt_linkstate
      then on_linkstate big fuel wild junk buf tcp_fd
      else pure tt

  -- The body of the loop of `TCPHandle`: `recv` gave bytes, none at the end of the stream, or -1
  -- (`none`). They stand at the start of a buffer of zeros.
  unfoldable pub tcp_handle :
      Bool
      → ℕ
      → (wild : Ptr) → (junk : Bytes) → (tcp_fd : ℕ) → (r : Option Bytes) → Cmd T (Unit {0})
  tcp_handle big fuel wild junk tcp_fd r =
      let n = length (bytes_of r) in
      if n == 0 then pure tt else do
        buf ← lift (checked (put (zeros max_pkt_len) 0 (bytes_of r)))
        pkt_type ← lift (checked (read_uint big 2 buf 0))
        dispatch big fuel wild junk buf n pkt_type tcp_fd
