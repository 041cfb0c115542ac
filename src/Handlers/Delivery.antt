-- ===== src/Handlers/Delivery.antt =====
-- A link state packet of `sendPackets` in the `TCPHandle` of a host that has a socket for the sender.
use cs352proxypart.Base.{
  ℕ, suc, ◌+◌, ◌*◌, ◌≤◌, ◌<◌, ◌≡◌, ◌≢◌, refl, ap, ◌∙◌, Bool, some, ◌∷◌, ◌++◌, arith, length, drop,
  take, length-append, length-take, append_assoc,
}
use cs352proxypart.Memory.{Bytes}
use cs352proxypart.Packets.{Ptr, null, Link, max_pkt_len}
use cs352proxypart.Packets.Ranges.{IsPktHeader, IsProxyInfo}
use cs352proxypart.Heap.{ok, Nodes}
use cs352proxypart.Heap.Cells.{Entries}
use cs352proxypart.Linkstate.{num_nodes}
use cs352proxypart.Linkstate.Write.{
  wire_preamble, wire_links, AllLinks, length-wire_preamble, length-wire_links,
}
use cs352proxypart.Linkstate.RoundTrip.{links, wire_links-links, links-IsLink, length-links}
use cs352proxypart.State.{State}
use cs352proxypart.State.UtHash.{UtHash, ProxySocketfd}
use cs352proxypart.Sockets.{key_of}
use cs352proxypart.Members.{add_members}
use cs352proxypart.Members.Connect.{IsMemList}
use cs352proxypart.Links.{send_packets}
use cs352proxypart.Links.Count.{link_packet}
use cs352proxypart.Links.Flood.{to_all, send_packets-to_all}
use cs352proxypart.Handlers.{tcp_handle}
use cs352proxypart.Handlers.Packet.{packet, Received, served, tcp_handle-packet}

-- From the list of the sender to the list of the receiver.
module _ {S T : Type 0} (us : UtHash S) (ut : UtHash T) (bs bt : Bool) (fs ft : ℕ) (wild : Ptr)
    (js jt : Bytes) (s : State S) (t : State T) (p : Ptr) (l : Link) (xs : Entries)
    (v : IsMemList s ((p, l) ∷ xs)) (few : suc (length xs) ≤ 8) (ranges : AllLinks ((p, l) ∷ xs))
    (own : IsProxyInfo s.my_proxy_info) where
  head_ok : IsPktHeader (link_packet s).head
  head_ok = record { type = omega arith; length = omega arith }

  counted : num_nodes (link_packet s).head.length ≡ suc (length (links xs))
  counted = omega (arith, v.size, length-links xs)

  -- Whatever the receiver knows of the sender.
  pub tcp_handle-send_packets_any :
      (tcp_fd : ℕ)
      → suc (length xs) < fs
      → length js ≡ max_pkt_len
      → t.nodes.next_free ≢ null
      → (bytes : Bytes) × (h : Nodes) × (send_packets us bs fs js s
          ≡ ok (tt, record s { sent = s.sent ++ to_all bytes (us.to_list s.socketfds) }))
        × (tcp_handle ut bt ft wild jt tcp_fd (some bytes) t
            ≡ served ut bt ft jt tcp_fd
                (record (link_packet s) { list = t.nodes.next_free })
                (ut.find t.socketfds (key_of s.my_proxy_info.macaddr))
                (record t { nodes = h }))
        × Received t.nodes h (l ∷ links xs)
  tcp_handle-send_packets_any tcp_fd enough stack ne =
      let hd = (link_packet s).head in
      let n = (link_packet s).num_neighbors in
      let ls = links ((p, l) ∷ xs) in
      let tail = take (4 * suc (length xs)) (drop (18 + 36 * suc (length xs)) js) in
      let pre = wire_preamble hd n s.my_proxy_info in
      let bytes = packet hd n s.my_proxy_info ls tail in
      let same : (pre ++ wire_links ((p, l) ∷ xs)) ++ tail ≡ bytes =
        append_assoc pre (wire_links ((p, l) ∷ xs)) tail
        ∙ ap (λ (b : Bytes). pre ++ (b ++ tail)) (wire_links-links ((p, l) ∷ xs)) in
      let size : length bytes ≤ max_pkt_len = omega (
        arith,
        few,
        ap length same,
        length-append (pre ++ wire_links ((p, l) ∷ xs)) tail,
        length-append pre (wire_links ((p, l) ∷ xs)),
        length-wire_preamble hd n s.my_proxy_info,
        length-wire_links ((p, l) ∷ xs),
        length-take (4 * suc (length xs)) (drop (18 + 36 * suc (length xs)) js),
      ) in
      let (h, runs, got) =
        tcp_handle-packet ut bt ft wild jt tcp_fd t hd n s.my_proxy_info l (links xs) head_ok
          (omega arith) own (links-IsLink ((p, l) ∷ xs) ranges) counted ne tail refl size in
      (
        bytes,
        h,
        send_packets-to_all us bs fs js s p l xs v ranges enough stack (omega (arith, few))
            ∙ ap
                (λ (b : Bytes).
                  ok (tt, record s { sent = s.sent ++ to_all b (us.to_list s.socketfds) }))
                same,
        runs,
        got,
      )

  -- `sendPackets` of a host with 1 to 8 nodes in its list, whose fields fit their types, with its
  -- size right and the fuel for it, and `TCPHandle` of one that has a socket for it and receives the
  -- packet whole, whatever the byte order of each: the receiver hands `add_members` fresh nodes with
  -- the contents of the sender's, in their order. A single node is followed by `NULL`, and of more
  -- the last one by what the memory held before.
  pub tcp_handle-send_packets :
      (tcp_fd : ℕ) (e : ProxySocketfd)
      → suc (length xs) < fs
      → length js ≡ max_pkt_len
      → ut.find t.socketfds (key_of s.my_proxy_info.macaddr) ≡ some e
      → t.nodes.next_free ≢ null
      → (bytes : Bytes) × (h : Nodes) × (send_packets us bs fs js s
          ≡ ok (tt, record s { sent = s.sent ++ to_all bytes (us.to_list s.socketfds) }))
        × (tcp_handle ut bt ft wild jt tcp_fd (some bytes) t
            ≡ add_members ut ft ft t.nodes.next_free tcp_fd (record t { nodes = h }))
        × Received t.nodes h (l ∷ links xs)
  tcp_handle-send_packets tcp_fd e enough stack known ne =
      let (bytes, h, sends, receives, got) = tcp_handle-send_packets_any tcp_fd enough stack ne in
      let pkt = record (link_packet s) { list = t.nodes.next_free } in
      let found = ap (λ o. served ut bt ft jt tcp_fd pkt o (record t { nodes = h })) known in
      (bytes, h, sends, receives ∙ found, got)
