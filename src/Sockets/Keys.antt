-- ===== src/Sockets/Keys.antt =====
-- The keys under which cs352proxy.c files MAC addresses: uthash measures them with `strlen`.
use cs352proxypart.Base.{
  ℕ, ◌≡◌, ◌≢◌, refl, ap, sym, ◌∙◌, Bool, none, some, if◌then◌else◌, List, [], ◌∷◌, ◌++◌, arith, All,
}
use cs352proxypart.Packets.{Mac, mac_bytes}
use cs352proxypart.Heap.{ok}
use cs352proxypart.State.{State}
use cs352proxypart.State.UtHash.{UtHash, ProxySocketfd, key_eq_refl}
use cs352proxypart.Sockets.{cstring, terminated, key_of, addsockfd, find_socketfd, deletesockfd}

abbrev pub NoZero : Mac → Type 0
NoZero m = All (λ b. b ≢ 0) (mac_bytes m)

pub key_of_full : (m : Mac) → NoZero m → key_of m ≡ mac_bytes m
unfolding cstring terminated
key_of_full m h = ground (arith, h.0, h.1)

-- Addresses with no zero byte are told apart by their keys.
key_of_injective : (a b : Mac) → NoZero a → NoZero b → key_of a ≡ key_of b → a ≡ b
key_of_injective a b ha hb e =
    let same : mac_bytes a ≡ mac_bytes b = sym (key_of_full a ha) ∙ e ∙ key_of_full b hb in cc

-- The two lists have the same bytes up to and with a common zero.
pub data AgreeToZero : List ℕ → List ℕ → Type 0 where
  zero_here : {xs ys : List ℕ} → AgreeToZero (0 ∷ xs) (0 ∷ ys)
  same : {b : ℕ} {xs ys : List ℕ} → AgreeToZero xs ys → AgreeToZero (b ∷ xs) (b ∷ ys)

cstring_agree : {xs ys : List ℕ} → AgreeToZero xs ys → cstring xs ≡ cstring ys
unfolding cstring
cstring_agree zero_here = refl
cstring_agree (same {b} r) = rw (cstring_agree r)

key_of_collision : (a b : Mac) → AgreeToZero (mac_bytes a) (mac_bytes b) → key_of a ≡ key_of b
unfolding terminated
key_of_collision a b r = cstring_agree (agree_append r)
  where
    agree_append : {xs ys : List ℕ} → AgreeToZero xs ys → AgreeToZero (xs ++ 0 ∷ []) (ys ++ 0 ∷ [])
    agree_append zero_here = zero_here
    agree_append (same r) = same (agree_append r)

-- Two addresses that have the same bytes up to a common zero, whatever bytes follow, and a table with
-- no entry for the first: when the first has been added, a search for the second finds its entry,
-- with the six bytes of the first, and a deletion of the second deletes it.
pub addsockfd-shared :
    {T : Type 0} (u : UtHash T) (s : State T) (a b : Mac) (fd : ℕ)
    → AgreeToZero (mac_bytes a) (mac_bytes b)
    → u.find s.socketfds (key_of a) ≡ none
    → let e : ProxySocketfd = record { macaddr = mac_bytes a ++ 0 ∷ []; sock_fd = fd } in
      (s1 s2 : State T) × (addsockfd u a fd s ≡ ok (tt, s1))
      × (find_socketfd u b s1 ≡ ok (some e, s1))
      × (deletesockfd u b s1 ≡ ok (tt, s2))
      × (find_socketfd u a s2 ≡ ok (none, s2))
unfolding addsockfd find_socketfd deletesockfd terminated
addsockfd-shared u s a b fd r absent =
    let e : ProxySocketfd = record { macaddr = mac_bytes a ++ 0 ∷ []; sock_fd = fd } in
    let k = key_of a in
    let s1 = record s { socketfds = u.add s.socketfds k e } in
    let s2 = record s1 { socketfds = u.delete s1.socketfds (key_of b) } in
    let collide = key_of_collision a b r in
    let added : u.find s1.socketfds (key_of b) ≡ some e =
      ap (u.find s1.socketfds) (sym collide)
      ∙ u.find-add s.socketfds k k e absent
      ∙ ap (λ (x : Bool). if x then some e else u.find s.socketfds k) (key_eq_refl k) in
    let deleted : u.find s2.socketfds k ≡ none =
      ap (u.find s2.socketfds) collide
      ∙ u.find-delete s1.socketfds (key_of b) (key_of b)
      ∙ ap (λ (x : Bool). if x then none else u.find s1.socketfds (key_of b))
          (key_eq_refl (key_of b)) in
    (
      s1,
      s2,
      refl,
      ap (λ o. ok (o, s1)) added,
      rw (added, deletesockfd) refl,
      ap (λ o. ok (o, s2)) deleted,
    )
