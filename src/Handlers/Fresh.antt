-- ===== src/Handlers/Fresh.antt =====
-- The list and the nodes that are made for a packet.
use cs352proxypart.Base.{ℕ, suc, ◌≤◌, ◌<◌, ◌≡◌, refl, ap, ◌∙◌, true, false, [], ◌∷◌, arith, All}
use cs352proxypart.Packets.{Ptr, null, Link}
use cs352proxypart.Heap.{Nodes}
use cs352proxypart.Heap.Cells.{Entries, Cells, Cells-frame, has}
use cs352proxypart.State.{State}
use cs352proxypart.Members.Connect.{IsMemList}
use cs352proxypart.Linkstate.Single.{started, started_cells}

-- All the entries lie in memory that is taken.
abbrev pub Below : Ptr → Entries → Type 0
Below n = All λ (p, _). p < n

pub Below-has : (n a : Ptr) (xs : Entries) → Below n xs → n ≤ a → has a xs ≡ false
Below-has n a [] b le = refl
Below-has n a ((p, l) ∷ xs) b le = ground (arith, Below-has n a xs b.1 le, b.0)

Below-lt : (n a : Ptr) (xs : Entries) → Below n xs → has a xs ≡ true → a < n
Below-lt n a [] b h = absurd (ground (arith, h))
Below-lt n a ((p, l) ∷ xs) b h = ground (arith, Below-lt n a xs b.1, b.0)

pub Below-suc : (n : ℕ) (xs : Entries) → Below n xs → Below (suc n) xs
Below-suc n [] b = tt
Below-suc n ((p, l) ∷ xs) b = (omega (arith, b.0), Below-suc n xs b.1)

-- New nodes leave the list alone.
pub started-Cells :
    (h : Nodes) (l : Link) (xs : Entries)
    → Below h.next_free xs
    → Cells h.cell null xs
    → Cells (started h l).cell null xs
started-Cells h l xs b c =
    Cells-frame h.cell (started h l).cell null xs c
      λ a i. (started_cells h l).1 a (Below-lt h.next_free a xs b i)

-- The list in memory where no node that was there is changed.
pub IsMemList-frame :
    {T : Type 0} (s s' : State T) (xs : Entries)
    → Below s.nodes.next_free xs
    → ((a : Ptr) → a < s.nodes.next_free → s'.nodes.cell a ≡ s.nodes.cell a)
    → s'.mem_list ≡ s.mem_list
    → IsMemList s xs
    → IsMemList s' xs
IsMemList-frame s s' xs b same list v = record {
  head = ap (λ m. m.head) list ∙ v.head;
  cells =
      Cells-frame s.nodes.cell s'.nodes.cell null xs v.cells
        λ a i. same a (Below-lt s.nodes.next_free a xs b i);
  size = ap (λ m. m.size) list ∙ v.size;
}
