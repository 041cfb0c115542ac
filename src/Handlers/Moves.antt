-- ===== src/Handlers/Moves.antt =====
-- A round of `TAPHandle` and of `TCPHandle` of cs352proxy.c, with the mutex.
use cs352proxypart.Base.{
  ℕ, zero, suc, ◌-◌, ◌%◌, ◌^◌, Bool, ◌&&◌, Option, List, [], ◌∷◌, ◌==◌, ltb, take, length,
}
use cs352proxypart.Helper.{comp_mac_zero}
use cs352proxypart.Memory.{Bytes, get, put, store, hton}
use cs352proxypart.Packets.{
  Ptr, null, Mac, LinkstatePkt, ProxyInfo, pkt_data, pkt_leave, pkt_quit, pkt_linkstate,
  max_pkt_len,
}
use cs352proxypart.Heap.{Nodes, malloc}
use cs352proxypart.Codec.{read_uint, ntoh_header, ntoh_proxy_info}
use cs352proxypart.Linkstate.{
  set_next, ntoh_node, ntoh_round, ntoh_nodes, num_nodes, pkt_memory, source_end, ntoh_linkstate,
}
use cs352proxypart.State.UtHash.{ProxySocketfd, UtHash}
use cs352proxypart.Members.{increment}
use cs352proxypart.Handlers.{
  zeros, bytes_of, length_field, sent_length, tap_packet, write_all, tap_handle, push_front,
  peer_node, set_remote_mac, got_back, got_original, from_stranger, on_linkstate, on_data, dispatch,
  tcp_handle,
}
use cs352proxypart.State.NoWait.{
  NoWait, NoWait-ok, NoWait-fault, NoWait-and_then, NoWait-if, NoWait-deref, NoWait-assign,
  NoWait-checked,
}
use cs352proxypart.State.Moves.{
  Free, Moves, Moves-bind, Moves-if, Moves-option, Moves-lift, Moves-gets, Moves-pure, Moves-modify,
  Moves-fault, Moves-exited,
}
use cs352proxypart.State.Moves.Basic.{
  nodes-Later, load-Moves, save-Moves, set_next-Moves, set_head-Moves, set_size-Moves,
  gettimeid-Moves, send-Moves, lock-Moves, unlock-Moves,
}
use cs352proxypart.Members.Moves.{addsockfd-Moves, find_socketfd-Moves, add_members-Moves}
use cs352proxypart.Links.Moves.{serialize-Moves, new_node-Moves}

tap_packet-NoWait : (big : Bool) (r : Option Bytes) → NoWait (tap_packet big r)
unfolding tap_packet
tap_packet-NoWait big r =
    NoWait-and_then (NoWait-checked (put (zeros max_pkt_len) 4 (bytes_of r))) λ buf.
      NoWait-and_then (NoWait-checked (put buf 0 (store big 2 (hton big 2 pkt_data)))) λ buf.
        NoWait-and_then (NoWait-checked (put buf 2 (store big 2 (hton big 2 (length_field r)))))
          λ buf. NoWait-checked (get buf 0 (sent_length r))

set_next-NoWait : (h : Nodes) (p q : Ptr) → NoWait (set_next h p q)
unfolding set_next
set_next-NoWait h p q = NoWait-and_then (NoWait-deref h p) λ n. NoWait-assign h p _

ntoh_round-NoWait :
    (big : Bool) (buffer : Bytes) (i : ℕ) (lsptr list : Ptr) (h : Nodes)
    → NoWait (ntoh_round big buffer i lsptr list h)
unfolding ntoh_round malloc
ntoh_round-NoWait big buffer i lsptr list h =
    NoWait-and_then (NoWait-checked (ntoh_node big i buffer)) λ l.
      NoWait-and_then (NoWait-deref _ _) λ old.
        NoWait-if (i == 0) (NoWait-and_then (NoWait-assign _ _ _) λ _. NoWait-ok _) (
          NoWait-and_then (NoWait-assign _ _ _)
            λ h2. NoWait-and_then (set_next-NoWait h2 lsptr _) λ _. NoWait-ok _)

ntoh_nodes-NoWait :
    (big : Bool) (buffer : Bytes) (rounds i : ℕ) (lsptr list : Ptr) (h : Nodes)
    → NoWait (ntoh_nodes big buffer rounds i lsptr list h)
unfolding ntoh_nodes
ntoh_nodes-NoWait big buffer zero i lsptr list h = NoWait-ok _
ntoh_nodes-NoWait big buffer (suc rounds) i lsptr list h =
    NoWait-and_then (ntoh_round-NoWait big buffer i lsptr list h)
      λ (lsptr, list, h). ntoh_nodes-NoWait big buffer rounds (suc i) lsptr list h

ntoh_linkstate-NoWait :
    (big : Bool) (wild : Ptr) (buffer : Bytes) (h : Nodes)
    → NoWait (ntoh_linkstate big wild buffer h)
unfolding ntoh_linkstate
ntoh_linkstate-NoWait big wild buffer h =
    NoWait-and_then (NoWait-checked (read_uint big 2 buffer 2)) λ length.
      NoWait-and_then (NoWait-checked (ntoh_header big buffer 0)) λ head.
        NoWait-and_then (NoWait-checked (read_uint big 2 buffer 4)) λ n.
          NoWait-and_then (NoWait-checked (ntoh_proxy_info big buffer 6)) λ source.
            NoWait-if (ltb (pkt_memory length) source_end) NoWait-fault (
              NoWait-and_then (ntoh_nodes-NoWait big buffer (num_nodes length) 0 null wild h)
                λ _. NoWait-ok _)

module _ {T : Type 0} {P : Bool → Type 0} where
  write_all-Moves :
      (bytes : Bytes) (es : List ProxySocketfd) → Moves {T = T} P P (write_all bytes es)
  unfolding write_all
  write_all-Moves bytes [] = Moves-pure tt
  write_all-Moves bytes (e ∷ es) =
      Moves-bind (send-Moves e.sock_fd bytes) λ _. write_all-Moves bytes es

  pub tap_handle-Moves :
      (u : UtHash T) (big : Bool) (r : Option Bytes) → Moves P P (tap_handle u big r)
  unfolding tap_handle
  tap_handle-Moves u big r =
      Moves-bind (Moves-lift (tap_packet big r) (tap_packet-NoWait big r)) λ bytes.
        Moves-bind (Moves-gets λ s. u.to_list s.socketfds) λ sockets. write_all-Moves bytes sockets

  peer_node-Moves : (remote_info : ProxyInfo) → Moves {T = T} P P (peer_node remote_info)
  unfolding peer_node
  peer_node-Moves remote_info =
      Moves-bind gettimeid-Moves
        λ time. Moves-bind (Moves-gets λ s. s.my_proxy_info) λ me. new_node-Moves _ null

  set_remote_mac-Moves : (p : Ptr) (m : Mac) → Moves {T = T} P P (set_remote_mac p m)
  unfolding set_remote_mac
  set_remote_mac-Moves p m = Moves-bind (load-Moves p) λ n. save-Moves p _

push_front-Moves : {T : Type 0} (p : Ptr) → Moves {T = T} Free Free (push_front p)
unfolding push_front
push_front-Moves p = Moves-bind lock-Moves λ _. Moves-bind (Moves-gets λ s. s.mem_list.head) λ temp.
    Moves-bind (set_next-Moves p temp) λ _. Moves-bind (set_head-Moves p) λ _.
      Moves-bind (Moves-gets λ s. s.mem_list.size)
        λ size. Moves-bind (set_size-Moves (increment size)) λ _. unlock-Moves

-- The packet that `got_original` sends.
abbrev answer : ℕ → ProxyInfo → Ptr → LinkstatePkt
answer size me head = record {
  head = record { type = pkt_linkstate; length = 50 };
  num_neighbors = size % 2 ^ 16;
  source = me;
  list = head;
}

module _ {T : Type 0} (u : UtHash T) (big : Bool) (fuel : ℕ) (junk : Bytes) where
  got_back-Moves : (pkt : LinkstatePkt) (tcp_fd : ℕ) → Moves Free Free (got_back u fuel pkt tcp_fd)
  unfolding got_back
  got_back-Moves pkt tcp_fd = Moves-bind (addsockfd-Moves u pkt.source.macaddr tcp_fd) λ _.
      Moves-bind (peer_node-Moves pkt.source) λ client_node2.
        Moves-bind (push_front-Moves client_node2)
          λ _. add_members-Moves u fuel fuel pkt.list tcp_fd

  got_original-Moves :
      (pkt : LinkstatePkt) (tcp_fd : ℕ) → Moves Free Free (got_original u big fuel junk pkt tcp_fd)
  unfolding got_original
  got_original-Moves pkt tcp_fd = Moves-bind (addsockfd-Moves u pkt.source.macaddr tcp_fd) λ _.
      Moves-bind (Moves-gets λ s. s.my_proxy_info) λ me.
        Moves-bind (set_remote_mac-Moves pkt.list me.macaddr) λ _.
          Moves-bind (load-Moves pkt.list) λ first.
            Moves-bind (peer_node-Moves (record pkt.source { macaddr = first.local.macaddr })) λ p.
              Moves-bind (push_front-Moves p) λ _.
                Moves-bind (Moves-gets λ s. s.mem_list.size) λ size.
                  Moves-bind (Moves-gets λ s. s.mem_list.head) λ head.
                    Moves-bind (set_next-Moves head null) λ _.
                      Moves-bind (serialize-Moves big fuel (answer size me head) (take 54 junk))
                        λ buf2. send-Moves tcp_fd buf2

  from_stranger-Moves :
      (pkt : LinkstatePkt) (tcp_fd : ℕ) → Moves Free Free (from_stranger u big fuel junk pkt tcp_fd)
  unfolding from_stranger
  from_stranger-Moves pkt tcp_fd = Moves-bind (load-Moves pkt.list) λ first.
      Moves-bind
        (Moves-if (comp_mac_zero first.remote.macaddr == 0) (Moves-pure tt)
          (got_back-Moves pkt tcp_fd))
        λ _. Moves-bind (load-Moves pkt.list) λ again.
          Moves-if ((comp_mac_zero again.remote.macaddr == 0) && (pkt.num_neighbors == 1))
            (got_original-Moves pkt tcp_fd) (Moves-pure tt)

  on_linkstate-Moves :
      (wild : Ptr) (buf : Bytes) (tcp_fd : ℕ)
      → Moves Free Free (on_linkstate u big fuel wild junk buf tcp_fd)
  unfolding on_linkstate
  on_linkstate-Moves wild buf tcp_fd = Moves-bind (Moves-gets λ s. s.nodes) λ h.
      Moves-bind (Moves-lift _ (ntoh_linkstate-NoWait big wild buf h)) λ (pkt, h).
        Moves-bind (Moves-modify (λ s. record s { nodes = h }) (λ s p. p) λ s. nodes-Later s h) λ _.
          Moves-bind (Moves-bind (load-Moves pkt.list) λ _. Moves-pure tt) λ _.
            Moves-bind (find_socketfd-Moves u pkt.source.macaddr) λ o.
              Moves-option o (from_stranger-Moves pkt tcp_fd)
                λ _. add_members-Moves u fuel fuel pkt.list tcp_fd

  on_data-Moves : (buf : Bytes) (n : ℕ) → Moves Free Free (on_data u buf n)
  unfolding on_data
  on_data-Moves buf n = Moves-if (ltb n 4) Moves-fault (
      Moves-bind (Moves-lift _ (NoWait-checked (get buf 4 (n - 4))))
        λ bytes. Moves-bind (Moves-gets λ s. s.tap_fd) λ tap. send-Moves tap bytes)

  pub tcp_handle-Moves :
      (wild : Ptr) (tcp_fd : ℕ) (r : Option Bytes)
      → Moves Free Free (tcp_handle u big fuel wild junk tcp_fd r)
  unfolding tcp_handle dispatch
  tcp_handle-Moves wild tcp_fd r = Moves-if _ (Moves-pure tt) (
      Moves-bind (Moves-lift _ (NoWait-checked (put (zeros max_pkt_len) 0 (bytes_of r)))) λ buf.
        Moves-bind (Moves-lift _ (NoWait-checked (read_uint big 2 buf 0))) λ pkt_type.
          Moves-if (pkt_type == pkt_data) (on_data-Moves buf (length (bytes_of r))) (
            Moves-if (pkt_type == pkt_leave) (Moves-pure tt) (
              Moves-if (pkt_type == pkt_quit) Moves-exited (
                Moves-if (pkt_type == pkt_linkstate) (on_linkstate-Moves wild buf tcp_fd)
                  (Moves-pure tt)))))
