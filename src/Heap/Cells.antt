-- ===== src/Heap/Cells.antt =====
-- Linked nodes in the heap: addresses and contents, in the order of the `next` pointers.
use cs352proxypart.Base.{
  ◌≡◌, ◌≢◌, refl, Bool, true, false, ◌||◌, Option, some, List, [], ◌∷◌, arith, ◌==◌, ==-eq_false,
}
use cs352proxypart.Packets.{Ptr, null, Link, LinkstateNode, node}
use cs352proxypart.Heap.{ok, Nodes, deref, write}

abbrev pub Entries : Type 0
Entries = List (Ptr × Link)

-- The address of the first node, and `stop` if there is none.
abbrev pub first : Ptr → Entries → Ptr
first stop [] = stop
first stop ((p, _) ∷ xs) = p

abbrev pub has : Ptr → Entries → Bool
has a [] = false
has a ((p, _) ∷ xs) = (a == p) || has a xs

-- Distinct nodes that hold the entries, each leading to the next, the last to `stop`.
abbrev pub Cells : (Ptr → Option LinkstateNode) → Ptr → Entries → Type 0
Cells c stop [] = Unit {0}
Cells c stop ((p, l) ∷ xs) =
    (p ≢ null) × (c p ≡ some (node l (first stop xs))) × (has p xs ≡ false) × Cells c stop xs

-- Nodes survive a change at other addresses.
pub Cells-frame :
    (c d : Ptr → Option LinkstateNode) (stop : Ptr) (xs : Entries)
    → Cells c stop xs
    → ((a : Ptr) → has a xs ≡ true → d a ≡ c a)
    → Cells d stop xs
Cells-frame c d stop [] s same = tt
Cells-frame c d stop ((p, l) ∷ xs) s same =
    (s.0, ground (arith, same p), s.2, Cells-frame c d stop xs s.3 (λ a i. same a (ground arith)))

pub Cells-write :
    (c : Ptr → Option LinkstateNode) (a : Ptr) (n : Option LinkstateNode) (stop : Ptr)
    (xs : Entries)
    → Cells c stop xs
    → has a xs ≡ false
    → Cells (write c a n) stop xs
unfolding write
Cells-write c a n stop xs s out = Cells-frame c (write c a n) stop xs s λ b i. ground arith

module _ (h : Nodes) (stop p : Ptr) (l : Link) (xs : Entries) where
  pub not_null : Cells h.cell stop ((p, l) ∷ xs) → (p == null) ≡ false
  not_null s = ==-eq_false p null s.0

  pub deref-Cells : Cells h.cell stop ((p, l) ∷ xs) → deref h p ≡ ok (node l (first stop xs))
  unfolding deref
  deref-Cells s = rw (==-eq_false p null s.0, s.1) refl

pub deref-write :
    (h : Nodes) (p : Ptr) (n : LinkstateNode)
    → p ≢ null
    → deref (record h { cell = write h.cell p (some n) }) p ≡ ok n
unfolding deref write
deref-write h p n ne = ground arith

pub deref_not_null : (h : Nodes) (p : Ptr) (n : LinkstateNode) → deref h p ≡ ok n → p ≢ null
unfolding deref
deref_not_null h p n e = ground arith

pub write-eq :
    (c : Ptr → Option LinkstateNode) (p : Ptr) (n : Option LinkstateNode) → write c p n p ≡ n
unfolding write
write-eq c p n = ground arith

pub write-ne :
    (c : Ptr → Option LinkstateNode) (p a : Ptr) (n : Option LinkstateNode)
    → a ≢ p
    → write c p n a ≡ c a
unfolding write
write-ne c p a n ne = ground arith
