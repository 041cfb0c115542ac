-- ===== src/Members/Touch.antt =====
-- The entry of the membership list whose time `add_member_connect` of cs352proxy.c renews.
use mathlib.Core.Path.{subst}
use cs352proxypart.Base.{
  ℕ, ◌≡◌, ◌≢◌, refl, sym, ap, ◌∙◌, true, Option, some, [], ◌∷◌, arith, ◌==◌, if◌then◌else◌, length,
  Bool-cases, inl, inr, ◌⊎◌, ◌&&◌,
}
use cs352proxypart.Packets.{Ptr, null, ProxyInfo, Link, LinkstateNode, node}
use cs352proxypart.Heap.{write}
use cs352proxypart.Heap.Cells.{Entries, Cells, Cells-write, first, has, write-eq, write-ne}
use cs352proxypart.State.UtHash.{UtHash}
use cs352proxypart.Members.Search.{FirstReverse, absent, here, later, HasReverse, NoReverse}
use cs352proxypart.Members.Expire.{HasSockets}

abbrev pub touch : Ptr → (time : ℕ) → Entries → Entries
touch q time [] = []
touch q time ((p, l) ∷ xs) =
    let rest = touch q time xs in if p == q then (p, record l { id = time }) ∷ xs else (p, l) ∷ rest

pub length-touch : (q : Ptr) (time : ℕ) (xs : Entries) → length (touch q time xs) ≡ length xs
length-touch q time [] = refl
length-touch q time ((p, l) ∷ xs) = ground (arith, length-touch q time xs)

pub first-touch :
    (q : Ptr) (time : ℕ) (stop : Ptr) (xs : Entries) → first stop (touch q time xs) ≡ first stop xs
first-touch q time stop [] = refl
first-touch q time stop ((p, l) ∷ xs) = ground arith

pub has-touch : (q : Ptr) (time : ℕ) (a : Ptr) (xs : Entries) → has a (touch q time xs) ≡ has a xs
has-touch q time a [] = refl
has-touch q time a ((p, l) ∷ xs) = ground (arith, has-touch q time a xs)

pub touch-HasSockets :
    {T : Type 0} (u : UtHash T) (t : T) (q : Ptr) (time : ℕ) (xs : Entries)
    → HasSockets u t xs
    → HasSockets u t (touch q time xs)
touch-HasSockets u t q time [] h = tt
touch-HasSockets u t q time ((p, l) ∷ xs) h = elim (Bool-cases (p == q)) [
  | inl same ↦ rw same (h.0, h.1)
  | inr other ↦ rw other (h.0, touch-HasSockets u t q time xs h.1)
]

-- The entry that the search gave is one of the list.
pub FirstReverse-has :
    {a b : ProxyInfo} {xs : Entries} {q : Ptr} → FirstReverse a b xs q → q ≢ null → has q xs ≡ true
FirstReverse-has (absent e) ne = absurd (ne e)
FirstReverse-has (here r e) ne = ground arith
FirstReverse-has (later other r) ne = ground (arith, FirstReverse-has r ne)

module _ (c : Ptr → Option LinkstateNode) (time : ℕ) where
  touch_here :
      (p : Ptr) (l : Link) (xs : Entries)
      → Cells c null ((p, l) ∷ xs)
      → Cells
          (write c p (some (node (record l { id = time }) (first null xs))))
          null
          ((p, record l { id = time }) ∷ xs)
  touch_here p l xs s =
      let n = some (node (record l { id = time }) (first null xs)) in
      (s.0, write-eq c p n, s.2, Cells-write c p n null xs s.3 s.2)

  touch_later :
      (p : Ptr) (l : Link) (xs : Entries) (q : Ptr) (n : Option LinkstateNode)
      → Cells c null ((p, l) ∷ xs)
      → p ≢ q
      → Cells (write c q n) null (touch q time xs)
      → Cells (write c q n) null ((p, l) ∷ touch q time xs)
  touch_later p l xs q n s ne rest = (
    s.0,
    write-ne c q p n ne
        ∙ s.1
        ∙ ap (λ (a : Ptr). some (node l a)) (sym (first-touch q time null xs)),
    has-touch q time p xs ∙ s.2,
    rest,
  )

  -- A write of the time to an entry.
  pub touch-Cells :
      (q : Ptr) (m : LinkstateNode) (xs : Entries)
      → Cells c null xs
      → has q xs ≡ true
      → c q ≡ some m
      → Cells (write c q (some (node (record m.link { id = time }) m.next))) null (touch q time xs)
  touch-Cells q m [] s h e = absurd (ground (arith, h))
  touch-Cells q m ((p, l) ∷ xs) s h e = elim (Bool-cases (p == q)) [
    | inl same ↦
        let pq : p ≡ q = ground arith in
        let content : m ≡ node l (first null xs) = ground arith in
        let writes : write c p (some (node (record l { id = time }) (first null xs)))
            ≡ write c q (some (node (record m.link { id = time }) m.next)) =
          rw (pq, content) refl in
        rw same (
          subst (λ d. Cells d null ((p, record l { id = time }) ∷ xs)) writes (touch_here p l xs s))
    | inr other ↦
        rw other (touch_later p l xs q _ s (ground arith) (touch-Cells q m xs s.3 (ground arith) e))
  ]

-- The list has the same link in the other direction, or it has not.
pub reverse_or_none : (a b : ProxyInfo) (xs : Entries) → HasReverse a b xs ⊎ NoReverse a b xs
reverse_or_none a b [] = inr tt
reverse_or_none a b ((p, l) ∷ xs) =
    elim (Bool-cases ((l.local.ip == b.ip) && (l.remote.ip == a.ip))) [
      | inl hit ↦ inl (here (ground arith, ground arith))
      | inr miss ↦ elim (reverse_or_none a b xs) [
        | inl r ↦ inl (later r)
        | inr r ↦ inr ((λ (e, f). ground arith), r)
      ]
    ]
