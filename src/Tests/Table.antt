-- ===== src/Tests/Table.antt =====
-- A hash table with the documented behaviour of uthash.h: an association list in the order of the
-- additions.
use cs352proxypart.Base.{
  ◌≡◌, refl, ap, Option, none, some, List, [], ◌∷◌, ◌++◌, arith, if◌then◌else◌,
}
use cs352proxypart.State.UtHash.{Key, key_eq, key_eq_iff, ProxySocketfd, UtHash}

abbrev pub Table : Type 0
Table = List (Key × ProxySocketfd)

abbrev find : Table → Key → Option ProxySocketfd
find [] j = none
find ((k, e) ∷ t) j = if key_eq k j then some e else find t j

abbrev delete : Table → Key → Table
delete [] j = []
delete ((k, e) ∷ t) j = if key_eq k j then delete t j else (k, e) ∷ delete t j

abbrev update : Table → Key → ProxySocketfd → Table
update [] j v = []
update ((k, e) ∷ t) j v = if key_eq k j then (k, v) ∷ update t j v else (k, e) ∷ update t j v

abbrev to_list : Table → List ProxySocketfd
to_list [] = []
to_list ((k, e) ∷ t) = e ∷ to_list t

pub find-add :
    (t : Table) (k j : Key) (e : ProxySocketfd)
    → find t k ≡ none
    → find (t ++ (k, e) ∷ []) j ≡ (if key_eq k j then some e else find t j)
find-add [] k j e absent = refl
find-add ((i, w) ∷ t) k j e absent =
    ground (arith, key_eq_iff i k, key_eq_iff i j, key_eq_iff k j, find-add t k j e)

pub find-delete :
    (t : Table) (k j : Key) → find (delete t k) j ≡ (if key_eq k j then none else find t j)
find-delete [] k j = ground arith
find-delete ((i, w) ∷ t) k j =
    ground (arith, key_eq_iff i k, key_eq_iff i j, key_eq_iff k j, find-delete t k j)

find-update_any :
    (t : Table) (k j : Key) (e : ProxySocketfd)
    → find (update t k e) j
      ≡ (if key_eq k j then (elim (find t k) [ none ↦ none | some _ ↦ some e ]) else find t j)
find-update_any [] k j e = ground arith
find-update_any ((i, w) ∷ t) k j e =
    ground (arith, key_eq_iff i k, key_eq_iff i j, key_eq_iff k j, find-update_any t k j e)

pub find-update :
    (t : Table) (k j : Key) (e old : ProxySocketfd)
    → find t k ≡ some old
    → find (update t k e) j ≡ (if key_eq k j then some e else find t j)
find-update t k j e old found = ground (arith, find-update_any t k j e)

pub to_list-append :
    (t : Table) (k : Key) (e : ProxySocketfd) → to_list (t ++ (k, e) ∷ []) ≡ to_list t ++ e ∷ []
to_list-append [] k e = refl
to_list-append (x ∷ t) k e = ap (◌∷◌ x.1) (to_list-append t k e)

abbrev pub table : UtHash Table
table = record {
  empty = [];
  find = find;
  add = λ t k e. t ++ (k, e) ∷ [];
  delete = delete;
  update = update;
  to_list = to_list;
  find-empty = λ j. refl;
  find-add = find-add;
  find-delete = find-delete;
  find-update = find-update;
  to_list-empty = refl;
  to_list-add = λ t k e absent. to_list-append t k e;
}
