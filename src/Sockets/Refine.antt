-- ===== src/Sockets/Refine.antt =====
-- The functions on `socketfds` as the rest of cs352proxy.c calls them, against a map from addresses
-- to descriptors.
use cs352proxypart.Base.{
  ℕ, ◌≡◌, ◌≢◌, refl, ap, ◌∙◌, Bool, true, Option, none, some, List, [], ◌∷◌, if◌then◌else◌, All,
  Bool-cases, inl, inr, Option-cases,
}
use mathlib.Core.Option.{map}
use cs352proxypart.Packets.{Mac, mac_bytes}
use cs352proxypart.Heap.{Run, ok, fault, blocked, exited, out_of_fuel, and_then}
use cs352proxypart.State.{State, Cmd, ◌>>=◌, ◌>>◌, pure}
use cs352proxypart.State.UtHash.{UtHash, ProxySocketfd, key_eq, key_eq_iff}
use cs352proxypart.Sockets.{terminated, key_of, addsockfd, deletesockfd, find_socketfd, set_sock_fd}
use cs352proxypart.Sockets.Keys.{NoZero, key_of_full}

-- A call on the table; `assign` is a search and a write to what it gave.
pub data Call : Type 0 where
  add assign : Mac → (fd : ℕ) → Call
  delete search : Mac → Call

abbrev pub address_of : Call → Mac
address_of (add m fd) = m
address_of (assign m fd) = m
address_of (delete m) = m
address_of (search m) = m

-- The program's calls: a search gives the descriptor.
module _ {T : Type 0} (u : UtHash T) where
  abbrev perform : Call → Cmd T (Option ℕ)
  perform (add m fd) = addsockfd u m fd >> pure none
  perform (delete m) = deletesockfd u m >> pure none
  perform (assign m fd) = find_socketfd u m >>= λ found. elim found [
    | none ↦ pure none
    | some e ↦ set_sock_fd u m e fd >> pure (some e.sock_fd)
  ]
  perform (search m) = find_socketfd u m >>= λ found. pure (map (λ e. e.sock_fd) found)

  abbrev pub perform_all : List Call → Cmd T (List (Option ℕ))
  perform_all [] = pure []
  perform_all (c ∷ cs) = perform c >>= λ r. perform_all cs >>= λ rs. pure (r ∷ rs)

-- The map.
abbrev pub Spec : Type 0
Spec = Mac → Option ℕ

abbrev pub nothing : Spec
nothing m = none

abbrev mac_eq : Mac → Mac → Bool
mac_eq a b = key_eq (mac_bytes a) (mac_bytes b)

abbrev at : Spec → Mac → Option ℕ → Spec
at f m v j = if mac_eq m j then v else f j

abbrev result : Spec → Call → Option ℕ
result f (add m fd) = none
result f (delete m) = none
result f (assign m fd) = f m
result f (search m) = f m

abbrev changed : Spec → Call → Spec
changed f (add m fd) = at f m (some fd)
changed f (delete m) = at f m none
changed f (assign m fd) = elim (f m) [ none ↦ f | some _ ↦ at f m (some fd) ]
changed f (search m) = f

abbrev pub results : Spec → List Call → List (Option ℕ)
results f [] = []
results f (c ∷ cs) = result f c ∷ results (changed f c) cs

-- An addition is of an address with no entry, and a deletion of one with an entry.
abbrev MayRun : Spec → Call → Type 0
MayRun f (add m fd) = f m ≡ none
MayRun f (delete m) = f m ≢ none
MayRun f (assign m fd) = Unit {0}
MayRun f (search m) = Unit {0}

abbrev pub IsAllowed : Spec → List Call → Type 0
IsAllowed f [] = Unit {0}
IsAllowed f (c ∷ cs) = MayRun f c × IsAllowed (changed f c) cs

mac_eq-same : (a b : Mac) → mac_eq a b ≡ true → a ≡ b
mac_eq-same a b e =
    let same : mac_bytes a ≡ mac_bytes b = (key_eq_iff (mac_bytes a) (mac_bytes b)).0 e in cc

module _ {T : Type 0} (u : UtHash T) where
  abbrev entry : Mac → Option ℕ → Option ProxySocketfd
  entry m = map λ fd. record { macaddr = terminated m; sock_fd = fd }

  -- The table has the entries of the map, for addresses without a zero byte.
  abbrev Refines : T → Spec → Type 0
  Refines t f = (m : Mac) → NoZero m → u.find t (key_of m) ≡ entry m (f m)

  Refines-at :
      (t t' : T) (f : Spec) (m : Mac) (v : Option ℕ)
      → NoZero m
      → Refines t f
      → ((j : Mac)
          → u.find t' (key_of j)
            ≡ (if key_eq (key_of m) (key_of j) then entry m v else u.find t (key_of j)))
      → Refines t' (at f m v)
  Refines-at t t' f m v nz r h j nj =
      let keys : key_eq (key_of m) (key_of j) ≡ mac_eq m j =
        rw (key_of_full m nz, key_of_full j nj) refl in
      h j ∙ elim (Bool-cases (mac_eq m j)) [
        | inl e ↦ let same : m ≡ j = mac_eq-same m j e in rw (keys, e, same) refl
        | inr e ↦ rw (keys, e) (r j nj)
      ]

  -- A call goes through where the map allows it, gives what the map gives, and the table goes on
  -- refining the map.
  perform-Refines :
      (c : Call) (s : State T) (f : Spec)
      → NoZero (address_of c)
      → MayRun f c
      → Refines s.socketfds f
      → (s' : State T) × (perform u c s ≡ ok (result f c, s')) × Refines s'.socketfds (changed f c)
  unfolding addsockfd deletesockfd find_socketfd set_sock_fd
  perform-Refines (add m fd) s f nz can r =
      let absent : u.find s.socketfds (key_of m) ≡ none = r m nz ∙ ap (entry m) can in
      (
        _,
        refl,
        Refines-at s.socketfds _ f m (some fd) nz r
            (λ j. u.find-add s.socketfds (key_of m) (key_of j) _ absent),
      )
  perform-Refines (delete m) s f nz can r = elim (Option-cases (f m)) [
    | inl e ↦ absurd (can e)
    | inr (fd, e) ↦
        let found = r m nz ∙ ap (entry m) e in
        (
          record s { socketfds = u.delete s.socketfds (key_of m) },
          rw (found, deletesockfd) refl,
          Refines-at s.socketfds _ f m none nz r
              (λ j. u.find-delete s.socketfds (key_of m) (key_of j)),
        )
  ]
  perform-Refines (assign m fd) s f nz can r = elim (Option-cases (f m)) [
    | inl e ↦ let found = r m nz ∙ ap (entry m) e in (s, rw (found, e) refl, rw (e, changed) r)
    | inr (old, e) ↦
        let found = r m nz ∙ ap (entry m) e in
        (
          record s {
            socketfds =
                u.update s.socketfds (key_of m) (record { macaddr = terminated m; sock_fd = fd });
          },
          rw (found, e) refl,
          rw (e, changed)
              (Refines-at s.socketfds _ f m (some fd) nz r
                (λ j. u.find-update s.socketfds (key_of m) (key_of j) _ _ found)),
        )
  ]
  perform-Refines (search m) s f nz can r = elim (Option-cases (f m)) [
    | inl e ↦ (s, rw (r m nz, e) refl, r)
    | inr (old, e) ↦ (s, rw (r m nz, e) refl, r)
  ]

  outputs-cons :
      (r : Option ℕ) (m : Run (List (Option ℕ) × State T))
      → and_then {A = List (Option ℕ) × State T}
          (and_then m λ (rs, s). ok (r ∷ rs, s))
          (λ (rs, _). ok rs)
        ≡ and_then (and_then m λ (rs, _). ok rs) (λ rs. ok (r ∷ rs))
  outputs-cons r (ok _) = refl
  outputs-cons r fault = refl
  outputs-cons r blocked = refl
  outputs-cons r exited = refl
  outputs-cons r out_of_fuel = refl

  perform_all-Refines :
      (cs : List Call) (s : State T) (f : Spec)
      → All (λ c. NoZero (address_of c)) cs
      → IsAllowed f cs
      → Refines s.socketfds f
      → and_then (perform_all u cs s) (λ (rs, _). ok rs) ≡ ok (results f cs)
  perform_all-Refines [] s f nz can r = refl
  perform_all-Refines (c ∷ cs) s f nz can r =
      let (s', runs, r') = perform-Refines c s f nz.0 can.0 r in
      let rest = perform_all-Refines cs s' (changed f c) nz.1 can.1 r' in
      rw runs (outputs-cons (result f c) (perform_all u cs s') ∙ rw rest refl)

  -- Calls on an empty table, for addresses without a zero byte, each addition of an address that has
  -- no entry by then and each deletion of one that has: they all go through, and their searches
  -- give what a map from addresses to descriptors gives.
  pub perform_all-results :
      (cs : List Call) (s : State T)
      → s.socketfds ≡ u.empty
      → All (λ c. NoZero (address_of c)) cs
      → IsAllowed nothing cs
      → and_then (perform_all u cs s) (λ (rs, _). ok rs) ≡ ok (results nothing cs)
  perform_all-results cs s e nz can =
      perform_all-Refines cs s nothing nz can
        (λ m _. ap (λ t. u.find t (key_of m)) e ∙ u.find-empty (key_of m))
