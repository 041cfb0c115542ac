-- ===== src/Handlers/Ignored.antt =====
-- A packet in `TCPHandle` of cs352proxy.c, from a source with no socket, that counts other than one
-- neighbour and whose first node names an address for its other end.
use cs352proxypart.Base.{
  ℕ, ◌^◌, ◌<◌, ◌≡◌, ◌≢◌, refl, ◌∙◌, Bool, true, none, some, arith, ◌==◌, ==-eq_false,
}
use cs352proxypart.Memory.{Bytes}
use cs352proxypart.Helper.{comp_mac_zero}
use cs352proxypart.Helper.MacCompare.{zero_mac, comp_mac_zero-decides}
use cs352proxypart.Packets.{Ptr, null, ProxyInfo, Link, LinkstateNode, node, LinkstatePkt}
use cs352proxypart.Packets.Ranges.{IsProxyInfo, IsLink}
use cs352proxypart.Heap.{ok, deref}
use cs352proxypart.Linkstate.Single.{started, single, single_pkt}
use cs352proxypart.State.{State}
use cs352proxypart.State.Laws.{load-ok}
use cs352proxypart.State.UtHash.{UtHash}
use cs352proxypart.Sockets.{key_of}
use cs352proxypart.Links.Greeting.{deref-started}
use cs352proxypart.Handlers.{from_stranger, tcp_handle}
use cs352proxypart.Handlers.Single.{stranger_runs}

module _ {T : Type 0} (u : UtHash T) (big : Bool) (fuel : ℕ) (wild : Ptr) (junk : Bytes)
    (tcp_fd : ℕ) where
  -- The branch of the source with no socket does nothing.
  pub from_stranger-ignored :
      (pkt : LinkstatePkt) (first : LinkstateNode) (t : State T)
      → deref t.nodes pkt.list ≡ ok first
      → first.remote.macaddr ≢ zero_mac
      → pkt.num_neighbors ≢ 1
      → from_stranger u big fuel junk pkt tcp_fd t ≡ ok (tt, t)
  unfolding from_stranger
  from_stranger-ignored pkt first t is nz more =
      let whole : (comp_mac_zero first.remote.macaddr == 0) ≡ true =
        ground (arith, comp_mac_zero-decides first.remote.macaddr) in
      rw
        (
          load-ok t pkt.list first is,
          whole,
          load-ok t pkt.list first is,
          whole,
          ==-eq_false pkt.num_neighbors 1 more,
        )
        refl

  -- Nothing changes but that the packet stands in memory: the source gets no socket, and the list no
  -- entry.
  pub tcp_handle-ignored :
      (s : State T) (n : ℕ) (source : ProxyInfo) (l : Link)
      → l.remote.macaddr ≢ zero_mac
      → n ≢ 1
      → IsProxyInfo source
      → IsLink l
      → n < 2 ^ 16
      → s.nodes.next_free ≢ null
      → u.find s.socketfds (key_of source.macaddr) ≡ none
      → tcp_handle u big fuel wild junk tcp_fd (some (single n source l)) s
        ≡ ok (tt, record s { nodes = started s.nodes l })
  tcp_handle-ignored s n source l nz more os ol small ne absent =
      stranger_runs u big fuel wild junk tcp_fd s n source l os ol small ne absent
      ∙ from_stranger-ignored (single_pkt n source s.nodes.next_free) (node l null)
          (record s { nodes = started s.nodes l }) (deref-started s.nodes l ne) nz more
