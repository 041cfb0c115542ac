-- ===== src/State/UtHash.antt =====
-- The interface of uthash.h, as far as cs352proxy.c uses it, with the documented behaviour that the
-- theorems rest on. A table holds one structure for each key, a C string, and the program adds a
-- structure only where its key is absent.
use cs352proxypart.Base.{
  ℕ, ◌≡◌, ◌↔◌, Bool, true, false, ◌&&◌, Option, none, some, List, [], ◌∷◌, ◌++◌, refl, arith, ◌==◌,
  if◌then◌else◌,
}

abbrev pub Key : Type 0
Key = List ℕ

unfoldable pub key_eq : Key → Key → Bool
key_eq [] [] = true
key_eq (a ∷ as') (b ∷ bs) = (a == b) && key_eq as' bs
key_eq _ _ = false

pub key_eq_iff : (k j : Key) → (key_eq k j ≡ true) ↔ (k ≡ j)
unfolding key_eq
key_eq_iff [] [] = ground arith
key_eq_iff [] (b ∷ bs) = ground arith
key_eq_iff (a ∷ as') [] = ground arith
key_eq_iff (a ∷ as') (b ∷ bs) = ground (arith, key_eq_iff as' bs)

pub key_eq_refl : (k : Key) → key_eq k k ≡ true
key_eq_refl k = (key_eq_iff k k).1 refl

pub key_eq-false : (k j : Key) → ¬ (k ≡ j) → key_eq k j ≡ false
key_eq-false k j ne = ground (arith, key_eq_iff k j)

-- `struct proxy_socketfd`
pub record ProxySocketfd : Type 0 where
  pub macaddr : List ℕ
  pub sock_fd : ℕ

-- `find`, `add` and `delete` are HASH_FIND_STR, HASH_ADD_STR and HASH_DEL; `update` is a write to
-- the structure that HASH_FIND_STR gave, outside its key; `to_list` is the walk by `hh.next`.
pub record UtHash (T : Type 0) : Type 0 where
  pub empty : T
  pub find : T → Key → Option ProxySocketfd
  pub add : T → Key → ProxySocketfd → T
  pub delete : T → Key → T
  pub update : T → Key → ProxySocketfd → T
  pub to_list : T → List ProxySocketfd
  pub find-empty : (j : Key) → find empty j ≡ none
  pub find-add :
      (t : T) (k j : Key) (e : ProxySocketfd)
      → find t k ≡ none
      → find (add t k e) j ≡ (if key_eq k j then some e else find t j)
  pub find-delete :
      (t : T) (k j : Key) → find (delete t k) j ≡ (if key_eq k j then none else find t j)
  pub find-update :
      (t : T) (k j : Key) (e old : ProxySocketfd)
      → find t k ≡ some old
      → find (update t k e) j ≡ (if key_eq k j then some e else find t j)
  pub to_list-empty : to_list empty ≡ []
  pub to_list-add :
      (t : T) (k : Key) (e : ProxySocketfd)
      → find t k ≡ none
      → to_list (add t k e) ≡ to_list t ++ e ∷ []
