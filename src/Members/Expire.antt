-- ===== src/Members/Expire.antt =====
-- `removeExpiredMembers` of cs352proxy.c, on a list whose addresses have keys and sockets of their
-- own.
use cs352proxypart.Base.{
  ℕ, ◌+◌, ◌^◌, ◌≤◌, ◌<◌, ◌≡◌, refl, sym, ap, ◌⊎◌, true, false, Option, some, none, [], ◌∷◌, ◌++◌,
  arith, All,
}
use cs352proxypart.Packets.{Ptr, null, Link, LinkstateNode}
use cs352proxypart.Heap.Cells.{Entries, Cells}
use cs352proxypart.State.UtHash.{Key, UtHash, ProxySocketfd}
use cs352proxypart.Sockets.{key_of}
use cs352proxypart.Members.{is_expired}
use cs352proxypart.Members.Delete.{Erased, here, later}

abbrev pub KeyIs : Key → Ptr × Link → Type 0
KeyIs k (p, l) = key_of l.remote.macaddr ≡ k

abbrev pub OtherKey : Key → Entries → Type 0
OtherKey k = All (λ x. ¬ KeyIs k x)

-- No two entries have remote addresses with the same key.
abbrev pub Distinct : Entries → Type 0
Distinct [] = Unit {0}
Distinct ((p, l) ∷ xs) = OtherKey (key_of l.remote.macaddr) xs × Distinct xs

abbrev pub HasSockets : {T : Type 0} → UtHash T → T → Entries → Type 0
HasSockets u t = All (λ (p, l). (e : ProxySocketfd) × (u.find t (key_of l.remote.macaddr) ≡ some e))

-- `ys` is `xs` without the entries not heard of for more than `ms` milliseconds at `time`. From the
-- table `t` to the table `t'`, their addresses have lost their sockets, and the others have the
-- sockets that they had.
pub data Pruned {T : Type 0} (u : UtHash T) (t t' : T) (time ms : ℕ)
    : Entries → Entries → Type 0 where
  done : Pruned u t t' time ms [] []
  drop :
      {p : Ptr} {l : Link} {xs ys : Entries}
      → l.id + ms < time
      → u.find t' (key_of l.remote.macaddr) ≡ none
      → Pruned u t t' time ms xs ys
      → Pruned u t t' time ms ((p, l) ∷ xs) ys
  keep :
      {p : Ptr} {l : Link} {xs ys : Entries} (e : ProxySocketfd)
      → time ≤ l.id + ms
      → u.find t (key_of l.remote.macaddr) ≡ some e
      → u.find t' (key_of l.remote.macaddr) ≡ some e
      → Pruned u t t' time ms xs ys
      → Pruned u t t' time ms ((p, l) ∷ xs) ((p, l) ∷ ys)

-- Parts of a list in two pieces.
pub Cells-behind :
    (c : Ptr → Option LinkstateNode) (kept rest : Entries)
    → Cells c null (kept ++ rest)
    → Cells c null rest
Cells-behind c [] rest s = s
Cells-behind c ((p, l) ∷ kept) rest s = Cells-behind c kept rest s.3

pub Distinct-behind : (kept rest : Entries) → Distinct (kept ++ rest) → Distinct rest
Distinct-behind [] rest d = d
Distinct-behind ((p, l) ∷ kept) rest d = Distinct-behind kept rest d.1

pub OtherKey-split :
    (k : Key) (kept rest : Entries) → OtherKey k (kept ++ rest) → OtherKey k kept × OtherKey k rest
OtherKey-split k [] rest o = (tt, o)
OtherKey-split k (x ∷ kept) rest o = let (a, b) = OtherKey-split k kept rest o.1 in ((o.0, a), b)

OtherKey-append :
    (k : Key) (kept rest : Entries) → OtherKey k kept → OtherKey k rest → OtherKey k (kept ++ rest)
OtherKey-append k [] rest a b = b
OtherKey-append k (x ∷ kept) rest a b = (a.0, OtherKey-append k kept rest a.1 b)

module _ (p : Ptr) (l : Link) where
  pub Distinct-without :
      (kept rest : Entries) → Distinct (kept ++ (p, l) ∷ rest) → Distinct (kept ++ rest)
  Distinct-without [] rest d = d.1
  Distinct-without ((q, m) ∷ kept) rest d =
      let (a, b) = OtherKey-split (key_of m.remote.macaddr) kept ((p, l) ∷ rest) d.0 in
      (OtherKey-append (key_of m.remote.macaddr) kept rest a b.1, Distinct-without kept rest d.1)

  -- The first entry for the address is the one behind `kept`.
  pub Erased-behind :
      (kept rest : Entries)
      → Distinct (kept ++ (p, l) ∷ rest)
      → Erased l.remote.macaddr (kept ++ (p, l) ∷ rest) (kept ++ rest)
  Erased-behind [] rest d = here refl
  Erased-behind ((q, m) ∷ kept) rest d =
      let (a, b) = OtherKey-split (key_of m.remote.macaddr) kept ((p, l) ∷ rest) d.0 in
      later (λ e. b.0 (ap key_of (sym e))) (Erased-behind kept rest d.1)

pub is_expired_iff :
    (time ms id : ℕ)
    → ms < 2 ^ 31
    → ((is_expired time ms id ≡ true) × (id + ms < time))
      ⊎ ((is_expired time ms id ≡ false) × (time ≤ id + ms))
unfolding is_expired
is_expired_iff time ms id h = ground arith
