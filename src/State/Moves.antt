-- ===== src/State/Moves.antt =====
-- What the commands of cs352proxy.c do to `deleterlock`, and what they leave alone: one rule for each
-- way to build a command.
pub mod Basic
use cs352proxypart.Base.{
  ◌≤◌, ◌≡◌, refl, ap, sym, ◌∙◌, Bool, true, false, Option, none, some, List, [], ◌++◌, arith,
  if◌then◌else◌, append_assoc, append-nil,
}
use cs352proxypart.Heap.{Run, ok, fault, blocked, exited, out_of_fuel, and_then}
use cs352proxypart.State.{State, Output, Cmd, pure, ◌>>=◌, ◌>>◌, lift, gets, modify}
use cs352proxypart.State.NoWait.{NoWait}

-- `s'` comes after `s`: the configuration and the clock are the same, and what was sent and read of
-- the clock stays.
pub record Later {T : Type 0} (s s' : State T) : Type 0 where
  pub own : s'.my_proxy_info ≡ s.my_proxy_info
  pub tap : s'.tap_fd ≡ s.tap_fd
  pub clock : s'.clock ≡ s.clock
  pub readings : s.readings ≤ s'.readings
  pub sent : (more : List Output) × (s'.sent ≡ s.sent ++ more)

-- What the lock may be.
abbrev pub Whatever : Bool → Type 0
Whatever b = Unit {0}

abbrev pub Free : Bool → Type 0
Free b = b ≡ false

module _ {T : Type 0} where
  pub Later-refl : (s : State T) → Later s s
  Later-refl s = record {
    own = refl;
    tap = refl;
    clock = refl;
    readings = omega arith;
    sent = ([], sym (append-nil s.sent));
  }

  pub Later-trans : (s t v : State T) → Later s t → Later t v → Later s v
  Later-trans s t v a b =
      let (m, e) = a.sent in
      let (n, f) = b.sent in
      record {
        own = b.own ∙ a.own;
        tap = b.tap ∙ a.tap;
        clock = b.clock ∙ a.clock;
        readings = omega (arith, a.readings, b.readings);
        sent = (m ++ n, f ∙ ap (◌++ n) e ∙ append_assoc s.sent m n);
      }

  -- The run does not wait, and where it goes on the lock is as `Q` says, and the state a later one.
  abbrev pub Ends : {A : Type 0} → (Q : Bool → Type 0) → State T → Run (A × State T) → Type 0
  Ends Q s (ok (a, s')) = Q s'.deleterlock × Later s s'
  Ends Q s fault = Unit {0}
  Ends Q s blocked = ⊥
  Ends Q s exited = Unit {0}
  Ends Q s out_of_fuel = Unit {0}

  -- A run from a lock that is as `P` says.
  pub record Moves {A : Type 0} (P Q : Bool → Type 0) (m : Cmd T A) : Type 0 where
    pub at : (s : State T) → P s.deleterlock → Ends Q s (m s)

  pub Ends-later :
      {B : Type 0} (R : Bool → Type 0) (s s' : State T) (r : Run (B × State T))
      → Later s s'
      → Ends R s' r
      → Ends R s r
  Ends-later R s s' (ok (b, s2)) l e = (e.0, Later-trans s s' s2 l e.1)
  Ends-later R s s' fault l e = tt
  Ends-later R s s' blocked l e = e
  Ends-later R s s' exited l e = tt
  Ends-later R s s' out_of_fuel l e = tt

  Ends-and_then :
      {A B : Type 0} (Q R : Bool → Type 0) (s : State T) (r : Run (A × State T)) (f : A → Cmd T B)
      → Ends Q s r
      → ((a : A) → Moves Q R (f a))
      → Ends R s (and_then r λ (a, s'). f a s')
  Ends-and_then Q R s (ok (a, s')) f e k = Ends-later R s s' (f a s') e.1 ((k a).at s' e.0)
  Ends-and_then Q R s fault f e k = tt
  Ends-and_then Q R s blocked f e k = e
  Ends-and_then Q R s exited f e k = tt
  Ends-and_then Q R s out_of_fuel f e k = tt

  -- A run that starts with an outcome alone.
  pub Ends-after :
      {A B : Type 0} (Q : Bool → Type 0) (s : State T) (r : Run A) (k : A → Run (B × State T))
      → NoWait r
      → ((a : A) → Ends Q s (k a))
      → Ends Q s (and_then r k)
  Ends-after Q s (ok a) k h e = e a
  Ends-after Q s fault k h e = tt
  Ends-after Q s blocked k h e = absurd h.at
  Ends-after Q s exited k h e = tt
  Ends-after Q s out_of_fuel k h e = tt

  pub Moves-bind :
      {A B : Type 0} {P Q R : Bool → Type 0} {m : Cmd T A} {f : A → Cmd T B}
      → Moves P Q m
      → ((a : A) → Moves Q R (f a))
      → Moves P R (m >>= f)
  Moves-bind {Q = Q} {R = R} {m = m} {f = f} h k = record {
    at = λ s p. Ends-and_then Q R s (m s) f (h.at s p) k;
  }

  pub Moves-if :
      {A : Type 0} {P Q : Bool → Type 0} (b : Bool) {m n : Cmd T A}
      → Moves P Q m
      → Moves P Q n
      → Moves P Q (if b then m else n)
  Moves-if true h k = h
  Moves-if false h k = k

  pub Moves-option :
      {A X : Type 0} {P Q : Bool → Type 0} (o : Option X) {m : Cmd T A} {f : X → Cmd T A}
      → Moves P Q m
      → ((x : X) → Moves P Q (f x))
      → Moves P Q (elim o [ none ↦ m | some x ↦ f x ])
  Moves-option none h k = h
  Moves-option (some x) h k = k x

  Ends-forget :
      {A : Type 0} (Q : Bool → Type 0) (s : State T) (r : Run (A × State T))
      → Ends Q s r
      → Ends Whatever s r
  Ends-forget Q s (ok (a, s')) e = (tt, e.1)
  Ends-forget Q s fault e = tt
  Ends-forget Q s blocked e = e
  Ends-forget Q s exited e = tt
  Ends-forget Q s out_of_fuel e = tt

  pub Moves-forget :
      {A : Type 0} {P Q : Bool → Type 0} {m : Cmd T A} → Moves P Q m → Moves P Whatever m
  Moves-forget {Q = Q} {m = m} h = record { at = λ s p. Ends-forget Q s (m s) (h.at s p) }

  pub Moves-lift : {A : Type 0} {P : Bool → Type 0} (r : Run A) → NoWait r → Moves P P (lift r)
  Moves-lift (ok a) h = record { at = λ s p. (p, Later-refl s) }
  Moves-lift fault h = record { at = λ s p. tt }
  Moves-lift blocked h = absurd h.at
  Moves-lift exited h = record { at = λ s p. tt }
  Moves-lift out_of_fuel h = record { at = λ s p. tt }

  -- The outcome may depend on the state.
  pub Moves-reads :
      {A : Type 0} {P : Bool → Type 0} (r : State T → Run A)
      → ((s : State T) → NoWait (r s))
      → Moves P P (λ s. lift (r s) s)
  Moves-reads r h = record { at = λ s p. (Moves-lift (r s) (h s)).at s p }

  pub Moves-gets : {A : Type 0} {P : Bool → Type 0} (f : State T → A) → Moves P P (gets f)
  Moves-gets f = record { at = λ s p. (p, Later-refl s) }

  pub Moves-pure : {A : Type 0} {P : Bool → Type 0} (a : A) → Moves P P (pure a)
  Moves-pure a = record { at = λ s p. (p, Later-refl s) }

  pub Moves-fault : {A : Type 0} {P Q : Bool → Type 0} → Moves {A = A} P Q (λ s. fault)
  Moves-fault = record { at = λ s p. tt }

  pub Moves-exited : {A : Type 0} {P Q : Bool → Type 0} → Moves {A = A} P Q (λ s. exited)
  Moves-exited = record { at = λ s p. tt }

  pub Moves-out_of_fuel : {A : Type 0} {P Q : Bool → Type 0} → Moves {A = A} P Q (λ s. out_of_fuel)
  Moves-out_of_fuel = record { at = λ s p. tt }

  pub Moves-modify :
      {P Q : Bool → Type 0} (f : State T → State T)
      → ((s : State T) → P s.deleterlock → Q (f s).deleterlock)
      → ((s : State T) → Later s (f s))
      → Moves P Q (modify f)
  Moves-modify f l g = record { at = λ s p. (l s p, g s) }
