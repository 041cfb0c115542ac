-- ===== src/Links.antt =====
-- The packets that cs352proxy.c sends by itself: `create_link_packet`, a period of `sendPackets`,
-- `connecttohost` and a period of `checkLinkTimeOut`. `junk` is what a buffer on the stack holds
-- before it is written. The sleeps between the periods and the output on the terminal are left out.
pub mod Count
pub mod Flood
pub mod Greeting
pub mod Moves
use cs352proxypart.Base.{
  ℕ, ◌+◌, ◌-◌, ◌*◌, ◌%◌, ◌^◌, Bool, ◌||◌, leb, Option, none, some, List, [], ◌∷◌, ◌==◌, ltb,
  if◌then◌else◌, take,
}
use cs352proxypart.Memory.{Bytes, get}
use cs352proxypart.Helper.{minus_one}
use cs352proxypart.Packets.{
  Ptr, null, Mac, PktHeader, ProxyInfo, Link, LinkstateNode, node, LinkstatePkt, pkt_linkstate,
  max_pkt_len,
}
use cs352proxypart.Heap.{Run, ok, fault, and_then, checked, Nodes, malloc, write}
use cs352proxypart.Linkstate.{hton_linkstate}
use cs352proxypart.State.{State, Cmd, pure, ◌>>=◌, ◌>>◌, lift, gets, modify, gettimeid, save, send}
use cs352proxypart.State.UtHash.{ProxySocketfd, UtHash}
use cs352proxypart.Members.{remove_expired_members}

-- `sizeof(uint16_t) + sizeof(proxy_info) + (sizeof(linkstate_node) - sizeof(linkstate_node*)) * size`
-- with 8-byte pointers: a `linkstate_node` has 48 bytes, 4 of them padding before `ID`.
abbrev pub list_bytes : ℕ → ℕ
list_bytes size = 2 + 12 + (48 - 8) * size

-- `sizeof(linkstate_pkt)`
abbrev pub sizeof_linkstate_pkt : ℕ
sizeof_linkstate_pkt = 32

module _ {T : Type 0} where
  -- `NULL` is `none`. The fields are written behind the memory allocated if that is too small, and
  -- through `NULL` for a size below zero, which asks `malloc` for nearly 2 ^ 64 bytes.
  unfoldable pub create_link_packet : Cmd T (Option LinkstatePkt)
  create_link_packet s =
      if s.mem_list.head == null
      then ok (none, s)
      else if ltb (4 + list_bytes s.mem_list.size) sizeof_linkstate_pkt
          || leb (2 ^ 31) s.mem_list.size
      then fault
      else ok (
        some (record {
          head = record { type = pkt_linkstate; length = list_bytes s.mem_list.size % 2 ^ 16 };
          num_neighbors = s.mem_list.size % 2 ^ 16;
          source = s.my_proxy_info;
          list = s.mem_list.head;
        }),
        s,
      )

  -- `htonLinkstate(pkt, buf)` for a packet whose list is in the heap.
  unfoldable pub serialize : Bool → ℕ → LinkstatePkt → Bytes → Cmd T Bytes
  serialize big fuel pkt buf s = lift (hton_linkstate big s.nodes fuel pkt buf) s

  -- The loop over the hash table.
  unfoldable pub send_all :
      Bool → ℕ → (junk : Bytes) → LinkstatePkt → List ProxySocketfd → Cmd T (Unit {0})
  send_all big fuel junk lstate [] = pure tt
  send_all big fuel junk lstate (e ∷ es) = do
    buf ← serialize big fuel lstate junk
    bytes ← lift (checked (get buf 0 (lstate.head.length + 4)))
    send e.sock_fd bytes
    send_all big fuel junk lstate es

module _ {T : Type 0} (u : UtHash T) where
  -- The body of the loop of `sendPackets`, behind the `sleep`.
  unfoldable pub send_packets : Bool → ℕ → (junk : Bytes) → Cmd T (Unit {0})
  send_packets big fuel junk = do
    lstate ← create_link_packet
    elim lstate [
      | none ↦ pure tt
      | some pkt ↦ do sockets ← gets λ s. u.to_list s.socketfds; send_all big fuel junk pkt sockets
    ]

  -- The body of the loop of `checkLinkTimeOut`, behind the `sleep`.
  unfoldable pub check_link_time_out : ℕ → (link_timeout : ℕ) → Cmd T (Unit {0})
  check_link_time_out fuel link_timeout = remove_expired_members u fuel link_timeout

-- What the network answers to `connecttohost`: `socket`, `inet_addr` or `gethostbyname`, and
-- `connect`; and what `malloc` leaves in the memory for `remoteInfo`.
pub record Dial : Type 0 where
  pub socket_fd : Option ℕ
  pub s_addr : Option ℕ
  pub connects : Bool
  pub junk_mac : Mac

module _ {T : Type 0} where
  -- `malloc(sizeof(linkstate_node))` and the writes to all its fields.
  unfoldable pub new_node : Link → Ptr → Cmd T Ptr
  new_node l next s =
      let (p, h) = malloc s.nodes in (save p (node l next) >> pure p) (record s { nodes = h })

  unfoldable pub free : Ptr → Cmd T (Unit {0})
  free p = modify λ s. record s { nodes = record s.nodes { cell = write s.nodes.cell p none } }

  -- The packet of one node that a connection begins with, and its 54 bytes.
  unfoldable pub greet : Bool → ℕ → (junk : Bytes) → ProxyInfo → (fd : ℕ) → Cmd T (Unit {0})
  greet big fuel junk remote_info fd = do
    time_id ← gettimeid
    me ← gets λ s. s.my_proxy_info
    client_node ←
        new_node (record { local = me; remote = remote_info; linkweight = 1; id = time_id }) null
    buf ←
        serialize big fuel
          (record {
            head = record { type = pkt_linkstate; length = 50 };
            num_neighbors = 1;
            source = me;
            list = client_node;
          })
          (take 54 junk)
    send fd buf
    free client_node

  -- The result is a descriptor or -1.
  unfoldable pub connecttohost : Bool → ℕ → (junk : Bytes) → Dial → (remote_port : ℕ) → Cmd T ℕ
  connecttohost big fuel junk d remote_port = elim d.socket_fd [
    | none ↦ pure minus_one
    | some socket_fd ↦ elim d.s_addr [
      | none ↦ pure minus_one
      | some s_addr ↦
          if d.connects
          then (do
            greet big fuel junk
                (record { ip = s_addr; portno = remote_port % 2 ^ 16; macaddr = d.junk_mac })
                socket_fd
            pure socket_fd)
          else pure minus_one
    ]
  ]
