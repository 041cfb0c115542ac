-- ===== src/Handlers/Greeting.antt =====
-- The first packet of a peer, as `connecttohost` sends it, in `TCPHandle`.
use cs352proxypart.Base.{
  ℕ, suc, ◌^◌, ◌≤◌, ◌<◌, ◌≡◌, ◌≢◌, refl, ◌∙◌, Bool, true, false, none, some, arith, ◌==◌, length,
}
use cs352proxypart.Memory.{Bytes}
use cs352proxypart.Helper.{comp_mac_zero}
use cs352proxypart.Helper.MacCompare.{zero_mac, comp_mac_zero-decides}
use cs352proxypart.Packets.{Ptr, null, ProxyInfo, Link, node}
use cs352proxypart.Packets.Ranges.{IsProxyInfo, IsLink}
use cs352proxypart.Heap.{ok, deref, Nodes}
use cs352proxypart.Linkstate.Single.{started, single, single_pkt}
use cs352proxypart.State.{State}
use cs352proxypart.State.UtHash.{UtHash}
use cs352proxypart.State.Laws.{load-ok}
use cs352proxypart.Sockets.{key_of}
use cs352proxypart.Members.Connect.{time_of}
use cs352proxypart.Links.Greeting.{deref-started}
use cs352proxypart.Handlers.Single.{stranger_runs}
use cs352proxypart.Handlers.{got_original, from_stranger, tcp_handle}
use cs352proxypart.Handlers.Answer.{answer_link, answered, got_original-answered}

module _ {T : Type 0} (u : UtHash T) (big : Bool) (fuel : ℕ) (junk : Bytes) (tcp_fd : ℕ)
    (source : ProxyInfo) (l : Link) (f : 1 < fuel) (stack : 54 ≤ length junk) where
  from_stranger-answered :
      (s : State T) (q : Ptr)
      → l.remote.macaddr ≢ zero_mac
      → deref s.nodes q ≡ ok (node l null)
      → from_stranger u big fuel junk (single_pkt 1 source q) tcp_fd s
        ≡ got_original u big fuel junk (single_pkt 1 source q) tcp_fd s
  unfolding from_stranger
  from_stranger-answered s q nz is =
      let whole : (comp_mac_zero l.remote.macaddr == 0) ≡ true =
        ground (arith, comp_mac_zero-decides l.remote.macaddr) in
      rw (load-ok s q (node l null) is, whole, load-ok s q (node l null) is, whole) refl

-- The first packet of a peer whose address has no socket, of one node that names an address for
-- the other end: the peer gets a socket, a node for the link to the peer becomes the whole list,
-- whatever was in the list before, while the size counts one more than before, and a packet with
-- that node goes back. Two addresses of nodes are used up.
pub tcp_handle-single :
    {T : Type 0} (u : UtHash T) (big : Bool) (fuel : ℕ) (wild : Ptr) (junk : Bytes) (tcp_fd : ℕ)
    (source : ProxyInfo) (l : Link) (s : State T)
    → 1 < fuel
    → 54 ≤ length junk
    → IsProxyInfo source
    → IsLink l
    → l.remote.macaddr ≢ zero_mac
    → u.find s.socketfds (key_of source.macaddr) ≡ none
    → s.deleterlock ≡ false
    → s.nodes.next_free ≢ null
    → IsProxyInfo s.my_proxy_info
    → time_of s < 2 ^ 64
    → (h : Nodes) × (tcp_handle u big fuel wild junk tcp_fd (some (single 1 source l)) s
        ≡ ok (tt, answered u tcp_fd source l s (suc s.nodes.next_free) h))
      × (deref h (suc s.nodes.next_free) ≡ ok (node (answer_link source l s) null))
      × (h.next_free ≡ suc (suc s.nodes.next_free))
unfolding started
tcp_handle-single u big fuel wild junk tcp_fd source l s f stack os ol nz absent free ne me small =
    let q = s.nodes.next_free in
    let s0 = record s { nodes = started s.nodes l } in
    let is = deref-started s.nodes l ne in
    let (h, runs, there, next) =
      got_original-answered u big fuel junk tcp_fd source l f stack s0 q os is free (omega arith) me
        small in
    (
      h,
      stranger_runs u big fuel wild junk tcp_fd s 1 source l os ol (omega arith) ne absent
          ∙ from_stranger-answered u big fuel junk tcp_fd source l f stack s0 q nz is
          ∙ runs,
      there,
      next,
    )
