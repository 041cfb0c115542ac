-- ===== src/Network/Unheard.antt =====
-- The periodic packets of a proxy with several members, at one that has no socket for it.
use cs352proxypart.Base.{
  ℕ, suc, ◌≤◌, ◌<◌, ◌≡◌, ◌≢◌, refl, ap, ◌∙◌, Bool, none, some, ◌∷◌, ◌++◌, arith, length,
}
use cs352proxypart.Helper.MacCompare.{zero_mac}
use cs352proxypart.Memory.{Bytes}
use cs352proxypart.Packets.{Ptr, null, Link, node, LinkstatePkt, max_pkt_len}
use cs352proxypart.Packets.Ranges.{IsProxyInfo}
use cs352proxypart.Heap.{ok, Nodes}
use cs352proxypart.Heap.Cells.{Entries, first, deref-Cells}
use cs352proxypart.Linkstate.Write.{AllLinks}
use cs352proxypart.Linkstate.Read.{placed, end_of}
use cs352proxypart.Linkstate.RoundTrip.{links}
use cs352proxypart.State.{State}
use cs352proxypart.State.UtHash.{UtHash}
use cs352proxypart.Sockets.{key_of}
use cs352proxypart.Members.Connect.{IsMemList}
use cs352proxypart.Links.{send_packets}
use cs352proxypart.Links.Count.{link_packet}
use cs352proxypart.Links.Flood.{to_all}
use cs352proxypart.Handlers.{tcp_handle}
use cs352proxypart.Handlers.Delivery.{tcp_handle-send_packets_any}
use cs352proxypart.Handlers.Packet.{served}
use cs352proxypart.Handlers.Fresh.{Below, IsMemList-frame}
use cs352proxypart.Handlers.Ignored.{from_stranger-ignored}

module _ {S T : Type 0} (us : UtHash S) (ut : UtHash T) (bs bt : Bool) (fs ft : ℕ) (wild : Ptr)
    (js jt : Bytes) (s : State S) (t : State T) (p : Ptr) (l : Link) (xs : Entries)
    (v : IsMemList s ((p, l) ∷ xs)) (few : suc (length xs) ≤ 8) (several : 0 < length xs)
    (ranges : AllLinks ((p, l) ∷ xs)) (own : IsProxyInfo s.my_proxy_info)
    (nz : l.remote.macaddr ≢ zero_mac) (ys : Entries) (list_t : IsMemList t ys)
    (below : Below t.nodes.next_free ys) where
  -- With 2 to 8 nodes in the list of `s`, whose fields fit their types, its size right, the fuel for it,
  -- and an address that is not six zeros at the other end of the first, a period of `sendPackets`
  -- sends every socket of `s` the same packet. If `t` has no socket for `s` and receives it whole,
  -- it heeds it not: it takes memory for the packet, but no node that was there is changed, its list,
  -- which lies there, has the entries that it had, and all else at `t` is as it was.
  pub send_packets-ignored :
      (tcp_fd : ℕ)
      → suc (length xs) < fs
      → length js ≡ max_pkt_len
      → ut.find t.socketfds (key_of s.my_proxy_info.macaddr) ≡ none
      → t.nodes.next_free ≢ null
      → (bytes : Bytes) × (h : Nodes) × (send_packets us bs fs js s
          ≡ ok (tt, record s { sent = s.sent ++ to_all bytes (us.to_list s.socketfds) }))
        × (tcp_handle ut bt ft wild jt tcp_fd (some bytes) t ≡ ok (tt, record t { nodes = h }))
        × ((a : Ptr) → a < t.nodes.next_free → h.cell a ≡ t.nodes.cell a)
        × IsMemList (record t { nodes = h }) ys
        × (t.nodes.next_free < h.next_free)
  unfolding placed
  send_packets-ignored tcp_fd enough stack absent ne =
      let (bytes, h, sends, receives, got) =
        tcp_handle-send_packets_any us ut bs bt fs ft wild js jt s t p l xs v few ranges own tcp_fd
          enough stack ne in
      let pkt : LinkstatePkt = record (link_packet s) { list = t.nodes.next_free } in
      let stop = end_of t.nodes.junk (suc t.nodes.next_free) null (links xs) in
      let rest = placed (suc t.nodes.next_free) (links xs) in
      (
        bytes,
        h,
        sends,
        receives
            ∙ ap (λ o. served ut bt ft jt tcp_fd pkt o (record t { nodes = h })) absent
            ∙ from_stranger-ignored ut bt ft wild jt tcp_fd pkt (node l (first stop rest))
                (record t { nodes = h }) (deref-Cells h stop t.nodes.next_free l rest got.0) nz
                (omega (arith, v.size)),
        got.1,
        IsMemList-frame t (record t { nodes = h }) ys below got.1 refl list_t,
        omega (arith, got.2),
      )
