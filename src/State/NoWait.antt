-- ===== src/State/NoWait.antt =====
-- Outcomes other than the wait for a mutex that the thread holds.
use cs352proxypart.Base.{Bool, true, false, Option, none, some, if◌then◌else◌}
use cs352proxypart.Packets.{Ptr, LinkstateNode}
use cs352proxypart.Heap.{
  Run, ok, fault, blocked, exited, out_of_fuel, and_then, checked, deref, assign, Nodes,
}

-- A run that does not wait.
abbrev Unblocked : {A : Type 0} → Run A → Type 0
Unblocked (ok a) = Unit {0}
Unblocked fault = Unit {0}
Unblocked blocked = ⊥
Unblocked exited = Unit {0}
Unblocked out_of_fuel = Unit {0}

pub record NoWait {A : Type 0} (r : Run A) : Type 0 where
  pub at : Unblocked r

module _ {A : Type 0} where
  pub NoWait-ok : (a : A) → NoWait (ok a)
  NoWait-ok a = record { at = tt }

  pub NoWait-fault : NoWait {A = A} fault
  NoWait-fault = record { at = tt }

  pub NoWait-out_of_fuel : NoWait {A = A} out_of_fuel
  NoWait-out_of_fuel = record { at = tt }

  pub NoWait-and_then :
      {B : Type 0} {r : Run A} {k : A → Run B}
      → NoWait r
      → ((a : A) → NoWait (k a))
      → NoWait (and_then r k)
  NoWait-and_then {r = ok a} h hk = hk a
  NoWait-and_then {r = fault} h hk = record { at = tt }
  NoWait-and_then {r = blocked} h hk = absurd h.at
  NoWait-and_then {r = exited} h hk = record { at = tt }
  NoWait-and_then {r = out_of_fuel} h hk = record { at = tt }

  pub NoWait-if : (b : Bool) {r t : Run A} → NoWait r → NoWait t → NoWait (if b then r else t)
  NoWait-if true h k = h
  NoWait-if false h k = k

  pub NoWait-checked : (o : Option A) → NoWait (checked o)
  NoWait-checked none = record { at = tt }
  NoWait-checked (some a) = record { at = tt }

pub NoWait-deref : (h : Nodes) (p : Ptr) → NoWait (deref h p)
unfolding deref
NoWait-deref h p = NoWait-if _ NoWait-fault (NoWait-checked (h.cell p))

pub NoWait-assign : (h : Nodes) (p : Ptr) (n : LinkstateNode) → NoWait (assign h p n)
unfolding assign
NoWait-assign h p n = NoWait-and_then (NoWait-deref h p) λ _. NoWait-ok _
