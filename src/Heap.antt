-- ===== src/Heap.antt =====
-- The memory that holds the `linkstate_node`s of cs352proxy.c and packets.c, and the outcome of
-- code that runs over it. `malloc` is taken to succeed, as the code takes it, and gives addresses
-- in turn; the memory it gives holds whatever `junk` says.
pub mod Cells
use cs352proxypart.Base.{ℕ, suc, ◌+◌, Option, none, some, ◌==◌, if◌then◌else◌}
use cs352proxypart.Packets.{Ptr, null, LinkstateNode}

-- `fault` is undefined behaviour: an access outside an object, the use of a wild or dangling
-- pointer, the unlock of a mutex that is not held. `blocked` waits for a mutex that the thread
-- itself holds. `exited` is the end of the process by `exit`.
pub data Run {ℓ} (A : Type ℓ) : Type ℓ where
  ok : A → Run A
  fault blocked exited out_of_fuel : Run A

abbrev pub and_then {ℓ κ} : {A : Type ℓ} {B : Type κ} → Run A → (A → Run B) → Run B
and_then (ok a) k = k a
and_then fault k = fault
and_then blocked k = blocked
and_then exited k = exited
and_then out_of_fuel k = out_of_fuel

-- An access past the end of a buffer.
abbrev pub checked {ℓ} : {A : Type ℓ} → Option A → Run A
checked none = fault
checked (some a) = ok a

pub record Nodes : Type 0 where
  pub next_free : Ptr
  pub cell : Ptr → Option LinkstateNode
  pub junk : Ptr → LinkstateNode

unfoldable pub write :
    (Ptr → Option LinkstateNode) → Ptr → Option LinkstateNode → Ptr → Option LinkstateNode
write c p n q = if q == p then n else c q

-- `*p`
unfoldable pub deref : Nodes → Ptr → Run LinkstateNode
deref h p = if p == null then fault else checked (h.cell p)

-- `*p = n`
unfoldable pub assign : Nodes → Ptr → LinkstateNode → Run Nodes
assign h p n = and_then (deref h p) λ _. ok (record h { cell = write h.cell p (some n) })

-- `malloc(sizeof(linkstate_node))`: the address, and the heap with junk at it.
unfoldable pub malloc : Nodes → Ptr × Nodes
malloc h = (
  h.next_free,
  record h {
    next_free = suc h.next_free;
    cell = write h.cell h.next_free (some (h.junk h.next_free));
  },
)
