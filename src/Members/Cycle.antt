-- ===== src/Members/Cycle.antt =====
-- The walk of `add_members` of cs352proxy.c, which goes on in the membership list.
use cs352proxypart.Base.{
  ℕ, zero, suc, ◌<◌, ◌≡◌, ◌≢◌, refl, ◌∙◌, false, some, none, [], ◌∷◌, arith, ==-eq_false,
}
use cs352proxypart.Packets.{Ptr, null, Link, LinkstateNode, node}
use cs352proxypart.Heap.{ok, out_of_fuel, deref}
use cs352proxypart.State.{State}
use cs352proxypart.State.Laws.{load-ok}
use cs352proxypart.State.UtHash.{UtHash, ProxySocketfd, key_eq_refl}
use cs352proxypart.Sockets.{terminated, key_of}
use cs352proxypart.Members.{add_member_connect}
use cs352proxypart.Heap.Cells.{has, deref_not_null, deref-Cells}
use cs352proxypart.Helper.MacCompare.{zero_mac}
use cs352proxypart.Members.{add_members, increment}
use cs352proxypart.Members.Search.{IsReverse}
use cs352proxypart.Members.Connect.{
  IsMemList, weighed, fronted, with_socket, fronted-Cells, connect_new_runs,
}
use cs352proxypart.Members.Ring.{ring_hangs, found_add, closes-Ring}

module _ {T : Type 0} (u : UtHash T) (depth : ℕ) (p q : Ptr) (gateway : ℕ) (pn : p ≢ null)
    (qn : q ≢ null) where
  -- The rounds of the walk at the second node and, back again, at the first.
  last_rounds :
      (fuel : ℕ) (s1 s2 : State T) (lq : Link)
      → add_member_connect u depth q gateway s1 ≡ ok (tt, s2)
      → deref s2.nodes q ≡ ok (node lq p)
      → add_member_connect u depth p gateway s2 ≡ out_of_fuel
      → add_members u fuel depth q gateway s1 ≡ out_of_fuel
  unfolding add_members
  last_rounds zero s1 s2 lq runs at_q hangs = refl
  last_rounds (suc zero) s1 s2 lq runs at_q hangs =
      rw (==-eq_false q null qn, runs, load-ok s2 q (node lq p) at_q) refl
  last_rounds (suc (suc fuel)) s1 s2 lq runs at_q hangs =
      rw (==-eq_false q null qn, runs, load-ok s2 q (node lq p) at_q, ==-eq_false p null pn, hangs)
        refl

-- `add_members` on a node for another host that has no socket, in a proxy that has one other host
-- in its list, with a socket, where neither link is the reverse of the other and none leads from a
-- host to itself: the walk goes on from the node into the membership list, closes it to a ring and
-- then searches that for ever, with the lock held. No fuel is enough.
pub add_members-out_of_fuel :
    {T : Type 0} (u : UtHash T) (fuel depth : ℕ) (s : State T) (p q : Ptr) (n : LinkstateNode)
    (l : Link) (gateway : ℕ) (f : ProxySocketfd)
    → 2 < depth
    → deref s.nodes p ≡ ok n
    → s.deleterlock ≡ false
    → u.find s.socketfds (key_of n.remote.macaddr) ≡ none
    → n.remote.macaddr ≢ zero_mac
    → n.remote.macaddr ≢ s.my_proxy_info.macaddr
    → IsMemList s ((q, l) ∷ [])
    → p ≢ q
    → u.find s.socketfds (key_of l.remote.macaddr) ≡ some f
    → ¬ IsReverse n.local n.remote n.link
    → ¬ IsReverse n.local n.remote l
    → ¬ IsReverse l.local l.remote n.link
    → ¬ IsReverse l.local l.remote l
    → add_members u fuel depth p gateway s ≡ out_of_fuel
unfolding add_members
add_members-out_of_fuel u zero depth s p q n l gateway f deep is free absent nz other v apart has_q
      nn nl ln ll =
    refl
add_members-out_of_fuel u (suc fuel) depth s p q n l gateway f deep is free absent nz other v apart
      has_q nn nl ln ll =
    let z = with_socket u depth s p n gateway is free in
    let w = increment n.linkweight in
    let lp = weighed s n w in
    let s1 = fronted z p n w in
    let pn = deref_not_null s.nodes p n is in
    let out : has p ((q, l) ∷ []) ≡ false = ground (arith, apart) in
    let v1 : IsMemList s1 ((p, lp) ∷ (q, l) ∷ []) = record {
      head = refl;
      cells = fronted-Cells z p n is w ((q, l) ∷ []) v.head v.cells out;
      size = omega (arith, v.size);
    } in
    let runs1 = connect_new_runs u depth s p n gateway is free absent nz other in
    let there1 = deref-Cells s1.nodes null p lp ((q, l) ∷ []) v1.cells in
    let entry : ProxySocketfd = record {
      macaddr = terminated n.remote.macaddr;
      sock_fd = gateway;
    } in
    let own =
      u.find-add s.socketfds (key_of n.remote.macaddr) (key_of n.remote.macaddr) entry absent
      ∙ rw (key_eq_refl (key_of n.remote.macaddr)) refl in
    let (g, has_q1) =
      found_add u s.socketfds (key_of n.remote.macaddr) (key_of l.remote.macaddr) entry f absent
        has_q in
    let (s2, runs2, ring) =
      closes-Ring u depth s1 p q lp l gateway entry g v1 refl own has_q1 deep ln ll in
    let lq = weighed s1 (node l null) ring.weight in
    let (e2, has_p2) = ring.socket in
    let hangs =
      ring_hangs u depth s2 p q lp lq gateway e2 ring.at_p ring.at_q pn v.cells.0 ring.head
        ring.free has_p2 nn nl in
    rw (==-eq_false p null pn, runs1, load-ok s1 p (node lp q) there1)
      (last_rounds u depth p q gateway pn v.cells.0 fuel s1 s2 lq runs2 ring.at_q hangs)
