-- ===== src/Members/Invariant.antt =====
-- Series of calls of `add_member_connect` of cs352proxy.c: what they keep of the membership list, the
-- table of sockets and the lock.
use cs352proxypart.Base.{
  ℕ, ◌+◌, ◌≤◌, ◌<◌, ◌≡◌, ◌≢◌, refl, ◌∙◌, false, List, [], ◌∷◌, arith, length, All,
}
use cs352proxypart.Packets.{Ptr, LinkstateNode}
use cs352proxypart.Heap.{Nodes, ok, deref}
use cs352proxypart.Heap.Cells.{Entries, has}
use cs352proxypart.State.{State, Cmd, pure, ◌>>◌}
use cs352proxypart.State.UtHash.{UtHash}
use cs352proxypart.Members.{add_member_connect}
use cs352proxypart.Members.Kept.{IsMembership, Kept}
use cs352proxypart.Members.Branches.{add_member_connect-IsMembership}

-- Calls for nodes that are allocated, and neither in the list nor the node of another call.
abbrev pub AreFresh : {T : Type 0} → State T → Entries → List (Ptr × ℕ) → Type 0
AreFresh s xs [] = Unit {0}
AreFresh s xs ((p, gateway) ∷ cs) =
    ((n : LinkstateNode) × (deref s.nodes p ≡ ok n))
    × (has p xs ≡ false)
    × All (λ (q, _). q ≢ p) cs
    × AreFresh s xs cs

pub deref_same : (h i : Nodes) (q : Ptr) → h.cell q ≡ i.cell q → deref h q ≡ deref i q
unfolding deref
deref_same h i q e = rw e refl

AreFresh-after :
    {T : Type 0} (u : UtHash T) (s s' : State T) (p : Ptr) (xs : Entries)
    (k : Kept u s.nodes.cell p xs s') (cs : List (Ptr × ℕ))
    → All (λ (q, _). q ≢ p) cs
    → AreFresh s xs cs
    → AreFresh s' k.after cs
AreFresh-after u s s' p xs k [] a f = tt
AreFresh-after u s s' p xs k ((q, gateway) ∷ cs) a f =
    let (same, out) = k.frame q f.1 a.0 in
    (
      (f.0.0, deref_same s'.nodes s.nodes q same ∙ f.0.1),
      out,
      f.2,
      AreFresh-after u s s' p xs k cs a.1 f.3,
    )

abbrev pub connect_all : {T : Type 0} → UtHash T → ℕ → List (Ptr × ℕ) → Cmd T (Unit {0})
connect_all u fuel [] = pure tt
connect_all u fuel ((p, gateway) ∷ cs) =
    add_member_connect u fuel p gateway >> connect_all u fuel cs

-- Any number of calls of `add_member_connect` for such nodes, with the fuel that the list needs
-- when they have all come to it: they end, and the list, its size, the table and the lock agree as
-- before, with at most as many more entries as there were calls.
pub connect_all-IsMembership :
    {T : Type 0} (u : UtHash T) (fuel : ℕ) (s : State T) (xs : Entries) (cs : List (Ptr × ℕ))
    → IsMembership u s xs
    → AreFresh s xs cs
    → length xs + length cs < fuel
    → (s' : State T) × (connect_all u fuel cs s ≡ ok (tt, s'))
      × (ys : Entries) × IsMembership u s' ys
      × (length ys ≤ length xs + length cs)
connect_all-IsMembership u fuel s xs [] v f enough = (s, refl, xs, v, omega arith)
connect_all-IsMembership u fuel s xs ((p, gateway) ∷ cs) v f enough =
    let (s1, runs, k) =
      add_member_connect-IsMembership u fuel s p f.0.0 gateway xs f.0.1 f.1 v (omega arith) in
    let (s', runs', ys, v', le) =
      connect_all-IsMembership u fuel s1 k.after cs k.membership
        (AreFresh-after u s s1 p xs k cs f.2 f.3) (omega (arith, k.grows)) in
    (s', rw runs runs', ys, v', omega (arith, le, k.grows))
