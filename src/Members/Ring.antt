-- ===== src/Members/Ring.antt =====
-- A membership list of two nodes that `add_member_connect` of cs352proxy.c has closed to a ring.
use cs352proxypart.Base.{
  ℕ, zero, suc, ◌+◌, ◌%◌, ◌^◌, ◌<◌, ◌≡◌, ◌≢◌, refl, ap, ◌∙◌, inl, inr, true, false, ◌&&◌, some,
  none, [], ◌∷◌, arith, ◌==◌, ltb, Bool-cases, ==-eq_false,
}
use cs352proxypart.Packets.{Ptr, null, ProxyInfo, Link, node}
use cs352proxypart.Heap.{ok, out_of_fuel, deref, Nodes}
use cs352proxypart.State.{State, lock}
use cs352proxypart.State.Laws.{load-ok}
use cs352proxypart.State.UtHash.{Key, UtHash, ProxySocketfd, key_eq}
use cs352proxypart.Sockets.{key_of, find_socketfd}
use cs352proxypart.Members.{in_member_list_from, in_member_list, connect_known, add_member_connect}
use cs352proxypart.Heap.{write}
use cs352proxypart.Heap.Cells.{deref-Cells}
use cs352proxypart.Helper.{minus_one}
use cs352proxypart.Members.{lowest_from}
use cs352proxypart.Members.Search.{IsReverse, lowest_from-Lowest}
use cs352proxypart.Members.Connect.{IsMemList, weighed, fronted}
use cs352proxypart.Members.Known.{freed, rerouted, connect_known_runs}

module _ (h : Nodes) (a b : ProxyInfo) (p q : Ptr) (lp lq : Link)
    (at_p : deref h p ≡ ok (node lp q)) (at_q : deref h q ≡ ok (node lq p)) (pn : p ≢ null)
    (qn : q ≢ null) (rp : ¬ IsReverse a b lp) (rq : ¬ IsReverse a b lq) where
  miss : (l : Link) → ¬ IsReverse a b l → ((l.local.ip == b.ip) && (l.remote.ip == a.ip)) ≡ false
  miss l r = elim (Bool-cases ((l.local.ip == b.ip) && (l.remote.ip == a.ip))) [
    | inl hit ↦ absurd (r (ground arith, ground arith))
    | inr no_hit ↦ no_hit
  ]

  -- In a ring of two nodes that are not what is looked for, the search never ends.
  in_ring :
      (fuel : ℕ)
      → (in_member_list_from h fuel p a b ≡ out_of_fuel)
        × (in_member_list_from h fuel q a b ≡ out_of_fuel)
  unfolding in_member_list_from
  in_ring zero = (refl, refl)
  in_ring (suc fuel) =
      let (from_p, from_q) = in_ring fuel in
      (
        rw (==-eq_false p null pn, at_p, miss lp rp, from_q) refl,
        rw (==-eq_false q null qn, at_q, miss lq rq, from_p) refl,
      )

module _ {T : Type 0} (u : UtHash T) (depth : ℕ) (s : State T) (p q : Ptr) (lp lq : Link)
    (gateway : ℕ) (e : ProxySocketfd) (at_p : deref s.nodes p ≡ ok (node lp q))
    (at_q : deref s.nodes q ≡ ok (node lq p)) (pn : p ≢ null) (qn : q ≢ null) where
  pub ring_hangs :
      s.mem_list.head ≡ q
      → s.deleterlock ≡ false
      → u.find s.socketfds (key_of lp.remote.macaddr) ≡ some e
      → ¬ IsReverse lp.local lp.remote lp
      → ¬ IsReverse lp.local lp.remote lq
      → add_member_connect u depth p gateway s ≡ out_of_fuel
  unfolding add_member_connect connect_known find_socketfd lock in_member_list
  ring_hangs head free found rp rq =
      rw
        (
          free,
          load-ok (record s { deleterlock = true }) p (node lp q) at_p,
          found,
          ap (λ (a : Ptr). in_member_list_from s.nodes depth a lp.local lp.remote) head
              ∙ (in_ring s.nodes lp.local lp.remote p q lp lq at_p at_q pn qn rp rq depth).1,
        )
        refl

module _ {T : Type 0} (u : UtHash T) where
  pub found_add :
      (t : T) (k j : Key) (e f : ProxySocketfd)
      → u.find t k ≡ none
      → u.find t j ≡ some f
      → (g : ProxySocketfd) × (u.find (u.add t k e) j ≡ some g)
  found_add t k j e f absent found = elim (Bool-cases (key_eq k j)) [
    | inl same ↦ (e, u.find-add t k j e absent ∙ rw same refl)
    | inr other ↦ (f, u.find-add t k j e absent ∙ rw other found)
  ]

  pub found_update :
      (t : T) (k j : Key) (e old f : ProxySocketfd)
      → u.find t k ≡ some old
      → u.find t j ≡ some f
      → (g : ProxySocketfd) × (u.find (u.update t k e) j ≡ some g)
  found_update t k j e old f there found = elim (Bool-cases (key_eq k j)) [
    | inl same ↦ (e, u.find-update t k j e old there ∙ rw same refl)
    | inr other ↦ (f, u.find-update t k j e old there ∙ rw other found)
  ]

-- Two nodes that lead to each other, with the second at the head of the list.
pub record Ring {T : Type 0} (u : UtHash T) (p q : Ptr) (lp lq : Link) (s s' : State T)
    : Type 0 where
  pub weight : ℕ
  pub at_p : deref s'.nodes p ≡ ok (node lp q)
  pub at_q : deref s'.nodes q ≡ ok (node (weighed s (node lq null) weight) p)
  pub head : s'.mem_list.head ≡ q
  pub free : s'.deleterlock ≡ false
  pub socket : (e : ProxySocketfd) × (u.find s'.socketfds (key_of lp.remote.macaddr) ≡ some e)

-- The two nodes after the second went to the front of a list of both.
module _ {T : Type 0} (s : State T) (p q : Ptr) (lp lq : Link) (w : ℕ)
    (v : IsMemList s ((p, lp) ∷ (q, lq) ∷ [])) where
  ring_at_p : deref (fronted s q (node lq null) w).nodes p ≡ ok (node lp q)
  unfolding deref write
  ring_at_p = ground (arith, v.cells.0, v.cells.1, v.cells.2)

  ring_at_q :
      deref (fronted s q (node lq null) w).nodes q ≡ ok (node (weighed s (node lq null) w) p)
  unfolding deref write
  ring_at_q = ground (arith, v.cells.3, v.head)

module _ {T : Type 0} (u : UtHash T) (depth : ℕ) (s : State T) (p q : Ptr) (lp lq : Link)
    (gateway : ℕ) (e f : ProxySocketfd) (v : IsMemList s ((p, lp) ∷ (q, lq) ∷ []))
    (free : s.deleterlock ≡ false) (has_p : u.find s.socketfds (key_of lp.remote.macaddr) ≡ some e)
    (has_q : u.find s.socketfds (key_of lq.remote.macaddr) ≡ some f) (deep : 2 < depth) where
  -- The second node of the list, connected again.
  pub closes-Ring :
      ¬ IsReverse lq.local lq.remote lp
      → ¬ IsReverse lq.local lq.remote lq
      → (s' : State T) × (add_member_connect u depth q gateway s ≡ ok (tt, s'))
        × Ring u p q lp lq s s'
  closes-Ring rp rq =
      let n = node lq null in
      let is = deref-Cells s.nodes null q lq [] v.cells.3 in
      let (dist, runs1, low1) =
        lowest_from-Lowest s.nodes lq.local.macaddr depth ((p, lp) ∷ (q, lq) ∷ []) minus_one v.cells
          deep in
      let (save, runs2, low2) =
        lowest_from-Lowest s.nodes lq.remote.macaddr depth ((p, lp) ∷ (q, lq) ∷ []) minus_one
          v.cells deep in
      let w = (lq.linkweight + dist) % 2 ^ 32 in
      let runs =
        connect_known_runs u depth s q n gateway ((p, lp) ∷ (q, lq) ∷ []) f is free has_q v deep
          dist save (rp, (rq, tt))
          (ap (λ (a : Ptr). lowest_from s.nodes depth a lq.local.macaddr minus_one) v.head ∙ runs1)
          (ap (λ (a : Ptr). lowest_from s.nodes depth a lq.remote.macaddr minus_one) v.head
            ∙ runs2) in
      let at_p = ring_at_p s p q lp lq w v in
      let at_q = ring_at_q s p q lp lq w v in
      elim (Bool-cases (ltb w save)) [
        | inl less ↦ (
          fronted (rerouted u (freed s) n f gateway) q n w,
          rw less at runs,
          record {
            weight = w;
            at_p = at_p;
            at_q = at_q;
            head = refl;
            free = refl;
            socket =
                found_update u s.socketfds (key_of lq.remote.macaddr) (key_of lp.remote.macaddr)
                  (record f { sock_fd = gateway }) f e has_q has_p;
          },
        )
        | inr more ↦ (
          fronted (freed s) q n w,
          rw more at runs,
          record {
            weight = w;
            at_p = at_p;
            at_q = at_q;
            head = refl;
            free = refl;
            socket = (e, has_p);
          },
        )
      ]
