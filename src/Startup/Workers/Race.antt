-- ===== src/Startup/Workers/Race.antt =====
-- What the threads of cs352proxy.c read of the descriptor that they are handed.
use cs352proxypart.Base.{
  ℕ, zero, suc, ◌^◌, ◌<◌, ◌≡◌, ◌⊎◌, inl, inr, refl, sym, ap, ◌∙◌, Option, none, some, List, [], ◌∷◌,
  ◌++◌, set, All, length, length-append, arith,
}
use cs352proxypart.Helper.{minus_one}
use cs352proxypart.Memory.Order.{All-append}
use cs352proxypart.Startup.Workers.{
  Listener, accept_conn, begin, worker, Step, accepts, fails, begins, noted, Reach, here, next,
}

abbrev pub Among : ℕ → List ℕ → Type 0
Among a [] = ⊥
Among a (x ∷ xs) = (a ≡ x) ⊎ Among a xs

-- A descriptor that was accepted, or -1.
abbrev pub IsServed : List ℕ → ℕ → Type 0
IsServed fds fd = (fd ≡ minus_one) ⊎ Among fd fds

-- What a thread may hold.
abbrev pub Holds : List ℕ → Option ℕ → Type 0
Holds fds none = Unit {0}
Holds fds (some fd) = IsServed fds fd

record Inv (fds : List ℕ) (l : Listener) : Type 0 where
  connected : (l.workers ≡ []) ⊎ IsServed fds l.connfd
  holds : All (Holds fds) l.workers
  counted : length l.workers ≡ length fds

Among-noted : (a fd : ℕ) (fds : List ℕ) → Among a fds → Among a (fds ++ fd ∷ [])
Among-noted a fd [] h = absurd h
Among-noted a fd (x ∷ xs) (inl e) = inl e
Among-noted a fd (x ∷ xs) (inr h) = inr (Among-noted a fd xs h)

Among-last : (fd : ℕ) (fds : List ℕ) → Among fd (fds ++ fd ∷ [])
Among-last fd [] = inl refl
Among-last fd (x ∷ xs) = inr (Among-last fd xs)

Holds-noted : (fd : ℕ) (fds : List ℕ) (o : Option ℕ) → Holds fds o → Holds (fds ++ fd ∷ []) o
Holds-noted fd fds none h = tt
Holds-noted fd fds (some a) (inl e) = inl e
Holds-noted fd fds (some a) (inr h) = inr (Among-noted a fd fds h)

All-noted :
    (fd : ℕ) (fds : List ℕ) (ws : List (Option ℕ))
    → All (Holds fds) ws
    → All (Holds (fds ++ fd ∷ [])) ws
All-noted fd fds [] h = tt
All-noted fd fds (w ∷ ws) h = (Holds-noted fd fds w h.0, All-noted fd fds ws h.1)

All-set :
    (fds : List ℕ) (ws : List (Option ℕ)) (i fd : ℕ)
    → All (Holds fds) ws
    → IsServed fds fd
    → All (Holds fds) (set ws i (some fd))
All-set fds [] i fd h s = tt
All-set fds (w ∷ ws) zero fd h s = (s, h.1)
All-set fds (w ∷ ws) (suc i) fd h s = (h.0, All-set fds ws i fd h.1 s)

length-set : (ws : List (Option ℕ)) (i : ℕ) (w : Option ℕ) → length (set ws i w) ≡ length ws
length-set [] i w = refl
length-set (x ∷ ws) zero w = refl
length-set (x ∷ ws) (suc i) w = ap suc (length-set ws i w)

-- A thread can begin only where there is one, and then a connection was accepted.
served_of_worker :
    (fds : List ℕ) (l : Listener) (i : ℕ)
    → Inv fds l
    → worker l.workers i ≡ some none
    → IsServed fds l.connfd
served_of_worker fds l i v e = elim v.connected [
  | inl empty ↦ no_worker (ap (λ ws. worker ws i) (sym empty) ∙ e)
  | inr s ↦ s
]
  where
    no_worker : {A : Type 0} → ◌≡◌ {A = Option (Option ℕ)} (worker [] i) (some none) → A
    no_worker f = absurd (cc)

Step-Inv :
    {l k : Listener} {o : Option ℕ} (fds : List ℕ) → Step l k o → Inv fds l → Inv (noted o fds) k
unfolding accept_conn begin
Step-Inv {l} fds (accepts fd small) v = record {
  connected = inr (inr (Among-last fd fds));
  holds =
      All-append (Holds (fds ++ fd ∷ [])) l.workers (none ∷ []) (All-noted fd fds l.workers v.holds)
        (tt, tt);
  counted =
      omega (arith, v.counted, length-append l.workers (none ∷ []), length-append fds (fd ∷ []));
}
Step-Inv fds fails v = record { connected = inr (inl refl); holds = v.holds; counted = v.counted }
Step-Inv {l} fds (begins i e) v =
    let served = served_of_worker fds l i v e in
    record {
      connected = inr served;
      holds = All-set fds l.workers i l.connfd v.holds served;
      counted = length-set l.workers i (some l.connfd) ∙ v.counted;
    }

abbrev pub idle : ℕ → Listener
idle junk = record { connfd = junk; workers = [] }

Reach-Inv : {junk : ℕ} {fds : List ℕ} {l : Listener} → Reach (idle junk) fds l → Inv fds l
Reach-Inv here = record { connected = inl refl; holds = tt; counted = refl }
Reach-Inv (next {fds} r st) = Step-Inv fds st (Reach-Inv r)

-- However the loop and the threads are interleaved, there are as many threads as connections were
-- accepted, and a thread that has begun holds one of their descriptors or -1, never what `connfd`
-- held at the start.
pub Reach-Holds :
    {junk : ℕ} {fds : List ℕ} {l : Listener}
    → Reach (idle junk) fds l
    → (length l.workers ≡ length fds) × All (Holds fds) l.workers
Reach-Holds r = let v = Reach-Inv r in (v.counted, v.holds)

-- Two connections may both get their own thread, but also both threads may get the second
-- descriptor, and then nobody serves the first; and where `accept` fails in between, the thread of
-- a connection may get -1.
pub Reach-race :
    (junk a b : ℕ)
    → a < 2 ^ 31
    → b < 2 ^ 31
    → Reach (idle junk) (a ∷ b ∷ []) (record { connfd = b; workers = some a ∷ some b ∷ [] })
      × Reach (idle junk) (a ∷ b ∷ []) (record { connfd = b; workers = some b ∷ some b ∷ [] })
      × Reach (idle junk) (a ∷ []) (record { connfd = minus_one; workers = some minus_one ∷ [] })
unfolding accept_conn begin
Reach-race junk a b ha hb = (
  next (next (next (next here (accepts a ha)) (begins 0 refl)) (accepts b hb)) (begins 1 refl),
  next (next (next (next here (accepts a ha)) (accepts b hb)) (begins 0 refl)) (begins 1 refl),
  next (next (next here (accepts a ha)) fails) (begins 0 refl),
)
