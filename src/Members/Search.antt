-- ===== src/Members/Search.antt =====
-- The read-only walks over the membership list: `in_member_list` and `get_lowest_saved_distance`.
use native.Mathlib.Decide.{dec_lt}
use cs352proxypart.Base.{
  ℕ, zero, suc, ◌≤◌, ◌<◌, ◌≡◌, ◌≢◌, refl, sym, ap, ◌∙◌, inl, inr, ◌⊎◌, ◌&&◌, Option, [], ◌∷◌, arith,
  ◌==◌, ltb, length, All, Bool-cases,
}
use cs352proxypart.Helper.{comp_mac_addrs}
use cs352proxypart.Helper.MacCompare.{comp_mac_addrs-decides}
use cs352proxypart.Packets.{Ptr, null, Mac, ProxyInfo, Link, LinkstateNode}
use cs352proxypart.Heap.{ok, Nodes}
use cs352proxypart.Heap.Cells.{Entries, Cells, first, not_null, deref-Cells}
use cs352proxypart.Members.{in_member_list_from, lowest_from}

-- The link of the same two hosts in the other direction.
abbrev pub IsReverse : (local_recv remote_recv : ProxyInfo) → Link → Type 0
IsReverse local_recv remote_recv l = (l.local.ip ≡ remote_recv.ip) × (l.remote.ip ≡ local_recv.ip)

-- What `in_member_list` gives: `NULL` if no entry is the reverse link, and else the address of the
-- first entry that is.
pub data FirstReverse (local_recv remote_recv : ProxyInfo) : Entries → Ptr → Type 0 where
  absent : {p : Ptr} → p ≡ null → FirstReverse local_recv remote_recv [] p
  here :
      {p q : Ptr} {l : Link} {xs : Entries}
      → IsReverse local_recv remote_recv l
      → p ≡ q
      → FirstReverse local_recv remote_recv ((p, l) ∷ xs) q
  later :
      {p q : Ptr} {l : Link} {xs : Entries}
      → ¬ IsReverse local_recv remote_recv l
      → FirstReverse local_recv remote_recv xs q
      → FirstReverse local_recv remote_recv ((p, l) ∷ xs) q

module _ (h : Nodes) (a b : ProxyInfo) where
  -- The search ends, and finds the first entry that is the reverse link of the two hosts.
  pub in_member_list-first :
      (fuel : ℕ) (xs : Entries)
      → Cells h.cell null xs
      → length xs < fuel
      → (q : Ptr) × (in_member_list_from h fuel (first null xs) a b ≡ ok q) × FirstReverse a b xs q
  unfolding in_member_list_from
  in_member_list-first zero xs s f = absurd (omega arith)
  in_member_list-first (suc fuel) [] s f = (null, refl, absent refl)
  in_member_list-first (suc fuel) ((p, l) ∷ xs) s f =
      elim (Bool-cases ((l.local.ip == b.ip) && (l.remote.ip == a.ip))) [
        | inl hit ↦ (
          p,
          rw (not_null h null p l xs s, deref-Cells h null p l xs s, hit) refl,
          here (ground arith, ground arith) refl,
        )
        | inr miss ↦
            let (q, runs, found) = in_member_list-first fuel xs s.3 (omega arith) in
            (
              q,
              rw (not_null h null p l xs s, deref-Cells h null p l xs s, miss) runs,
              later (λ (e, f). ground arith) found,
            )
      ]

abbrev pub NoReverse : (local_recv remote_recv : ProxyInfo) → Entries → Type 0
NoReverse a b = All (λ (_, l). ¬ IsReverse a b l)

pub data HasReverse (local_recv remote_recv : ProxyInfo) : Entries → Type 0 where
  here :
      {p : Ptr} {l : Link} {xs : Entries}
      → IsReverse local_recv remote_recv l
      → HasReverse local_recv remote_recv ((p, l) ∷ xs)
  later :
      {p : Ptr} {l : Link} {xs : Entries}
      → HasReverse local_recv remote_recv xs
      → HasReverse local_recv remote_recv ((p, l) ∷ xs)

module _ {a b : ProxyInfo} where
  FirstReverse-none : {xs : Entries} {q : Ptr} → FirstReverse a b xs q → NoReverse a b xs → q ≡ null
  FirstReverse-none (absent e) v = e
  FirstReverse-none (here r e) v = absurd (v.0 r)
  FirstReverse-none (later ne r) v = FirstReverse-none r v.1

  FirstReverse-some :
      (c : Ptr → Option LinkstateNode) {xs : Entries} {q : Ptr}
      → FirstReverse a b xs q
      → Cells c null xs
      → HasReverse a b xs
      → q ≢ null
  FirstReverse-some c (absent e) s v = elim v [ ]
  FirstReverse-some c (here r e) s v = λ f. s.0 (e ∙ f)
  FirstReverse-some c (later ne r) s (here v) = absurd (ne v)
  FirstReverse-some c (later ne r) s (later v) = FirstReverse-some c r s.3 v

module _ (h : Nodes) (a b : ProxyInfo) (fuel : ℕ) (xs : Entries) (s : Cells h.cell null xs)
    (f : length xs < fuel) where
  -- With no reverse link in the list the search gives `NULL`.
  pub in_member_list-null :
      NoReverse a b xs → in_member_list_from h fuel (first null xs) a b ≡ ok null
  in_member_list-null v =
      let (q, runs, found) = in_member_list-first h a b fuel xs s f in
      runs ∙ ap ok (FirstReverse-none found v)

  -- With one it gives an address.
  pub in_member_list-found :
      HasReverse a b xs
      → (q : Ptr) × (in_member_list_from h fuel (first null xs) a b ≡ ok q) × (q ≢ null)
  in_member_list-found v =
      let (q, runs, found) = in_member_list-first h a b fuel xs s f in
      (q, runs, FirstReverse-some h.cell found s v)

-- Some entry whose remote address is `mac` has the weight `d`.
pub data Weighs (mac : Mac) (d : ℕ) : Entries → Type 0 where
  here :
      {p : Ptr} {l : Link} {xs : Entries}
      → l.remote.macaddr ≡ mac
      → l.linkweight ≡ d
      → Weighs mac d ((p, l) ∷ xs)
  later : {p : Ptr} {l : Link} {xs : Entries} → Weighs mac d xs → Weighs mac d ((p, l) ∷ xs)

-- `d` is the least of `dist` and the weights of the entries whose remote address is `mac`.
pub record Lowest (mac : Mac) (dist : ℕ) (xs : Entries) (d : ℕ) : Type 0 where
  pub below : d ≤ dist
  pub least : All (λ (p, l). l.remote.macaddr ≡ mac → d ≤ l.linkweight) xs
  pub attained : (d ≡ dist) ⊎ Weighs mac d xs

module _ (mac : Mac) (dist : ℕ) (p : Ptr) (l : Link) (xs : Entries) (d : ℕ) where
  -- A step at an entry that does not count.
  Lowest-skip :
      ¬ ((l.remote.macaddr ≡ mac) × (l.linkweight < dist))
      → Lowest mac dist xs d
      → Lowest mac dist ((p, l) ∷ xs) d
  Lowest-skip not_less r = record {
    below = r.below;
    least = (
      λ e. elim (dec_lt l.linkweight dist) [
        | yes lt ↦ absurd (not_less (e, lt))
        | no ge ↦ omega (arith, r.below)
      ],
      r.least,
    );
    attained = elim r.attained [ inl e ↦ inl e | inr w ↦ inr (later w) ];
  }

  -- A step at an entry that lowers the distance.
  Lowest-take :
      l.remote.macaddr ≡ mac
      → l.linkweight < dist
      → Lowest mac l.linkweight xs d
      → Lowest mac dist ((p, l) ∷ xs) d
  Lowest-take e lt r = record {
    below = omega (arith, r.below);
    least = (λ _. r.below, r.least);
    attained = elim r.attained [ inl f ↦ inr (here e (sym f)) | inr w ↦ inr (later w) ];
  }

module _ (h : Nodes) (mac : Mac) where
  -- The walk ends with the least of the weights.
  pub lowest_from-Lowest :
      (fuel : ℕ) (xs : Entries) (dist : ℕ)
      → Cells h.cell null xs
      → length xs < fuel
      → (d : ℕ) × (lowest_from h fuel (first null xs) mac dist ≡ ok d) × Lowest mac dist xs d
  unfolding lowest_from
  lowest_from-Lowest zero xs dist s f = absurd (omega arith)
  lowest_from-Lowest (suc fuel) [] dist s f =
      (dist, refl, record { below = omega arith; least = tt; attained = inl refl })
  lowest_from-Lowest (suc fuel) ((p, l) ∷ xs) dist s f =
      elim (Bool-cases ((comp_mac_addrs l.remote.macaddr mac == 0) && ltb l.linkweight dist)) [
        | inl hit ↦
            let (d, runs, low) = lowest_from-Lowest fuel xs l.linkweight s.3 (omega arith) in
            (
              d,
              rw (not_null h null p l xs s, deref-Cells h null p l xs s, hit) runs,
              Lowest-take mac dist p l xs d
                  (ground (arith, comp_mac_addrs-decides l.remote.macaddr mac)) (ground arith) low,
            )
        | inr miss ↦
            let (d, runs, low) = lowest_from-Lowest fuel xs dist s.3 (omega arith) in
            (
              d,
              rw (not_null h null p l xs s, deref-Cells h null p l xs s, miss) runs,
              Lowest-skip mac dist p l xs d
                  (λ (e, lt). ground (arith, comp_mac_addrs-decides l.remote.macaddr mac)) low,
            )
      ]
