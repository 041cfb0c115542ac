-- ===== src/Members/Timeout.antt =====
-- The loop of `removeExpiredMembers` of cs352proxy.c.
use cs352proxypart.Base.{
  ℕ, zero, suc, ◌*◌, ◌%◌, ◌^◌, ◌<◌, ◌≡◌, refl, sym, ap, ◌∙◌, inl, inr, Bool, true, false, some,
  none, [], ◌∷◌, ◌++◌, arith, if◌then◌else◌, length, append_assoc,
}
use cs352proxypart.Packets.{Ptr, null, Mac, node}
use cs352proxypart.Heap.{ok}
use cs352proxypart.Heap.Cells.{Entries, Cells, first, not_null, deref-Cells}
use cs352proxypart.State.{State, lock, unlock, gettimeid}
use cs352proxypart.State.Laws.{load-ok}
use cs352proxypart.State.UtHash.{Key, UtHash, ProxySocketfd, key_eq-false, key_eq_refl}
use cs352proxypart.Sockets.{key_of, deletesockfd}
use cs352proxypart.Members.{remove_expired_from, remove_expired_members}
use cs352proxypart.Members.Delete.{pruned, delete_members-Erased, length-Erased}
use cs352proxypart.Members.Connect.{IsMemList, time_of}
use cs352proxypart.Members.Expire.{
  OtherKey, Distinct, HasSockets, Pruned, done, drop, keep, Cells-behind, Distinct-behind,
  Distinct-without, Erased-behind, is_expired_iff,
}

module _ {T : Type 0} (u : UtHash T) where
  -- What a deletion does to the rest of the table.
  find_other : (t : T) (k j : Key) → ¬ (j ≡ k) → u.find (u.delete t k) j ≡ u.find t j
  find_other t k j ne =
      u.find-delete t k j
      ∙ ap (λ (b : Bool). if b then none else u.find t j) (key_eq-false k j (λ e. ne (sym e)))

  pub find_self : (t : T) (k : Key) → u.find (u.delete t k) k ≡ none
  find_self t k =
      u.find-delete t k k ∙ ap (λ (b : Bool). if b then none else u.find t k) (key_eq_refl k)

  HasSockets-delete :
      (t : T) (k : Key) (xs : Entries)
      → OtherKey k xs
      → HasSockets u t xs
      → HasSockets u (u.delete t k) xs
  HasSockets-delete t k [] o h = tt
  HasSockets-delete t k ((p, l) ∷ xs) o ((e, has), h) =
      ((e, find_other t k (key_of l.remote.macaddr) o.0 ∙ has), HasSockets-delete t k xs o.1 h)

  -- A table that differs at another key serves as well.
  Pruned-before :
      (t t' : T) (k : Key) (time ms : ℕ) (xs ys : Entries)
      → OtherKey k xs
      → Pruned u (u.delete t k) t' time ms xs ys
      → Pruned u t t' time ms xs ys
  Pruned-before t t' k time ms xs ys o done = done
  Pruned-before t t' k time ms ((p, l) ∷ xs) ys o (drop lt absent r) =
      drop lt absent (Pruned-before t t' k time ms xs ys o.1 r)
  Pruned-before t t' k time ms ((p, l) ∷ xs) ((_, _) ∷ ys) o (keep e le before after r) =
      keep e le (sym (find_other t k (key_of l.remote.macaddr) o.0) ∙ before) after
        (Pruned-before t t' k time ms xs ys o.1 r)

  pub deletesockfd-runs :
      (s : State T) (m : Mac) (e : ProxySocketfd)
      → u.find s.socketfds (key_of m) ≡ some e
      → deletesockfd u m s
        ≡ ok (
          tt,
          record s { socketfds = u.delete s.socketfds (key_of m); deleterlock = s.deleterlock },
        )
  unfolding deletesockfd
  deletesockfd-runs s m e found = rw (found, deletesockfd) refl

-- What the loop leaves when it starts at the entries `rest` behind `kept`.
record Swept {T : Type 0} (u : UtHash T) (time ms : ℕ) (kept rest : Entries) (s s' : State T)
    : Type 0 where
  left : Entries
  pruned_to : Pruned u s.socketfds s'.socketfds time ms rest left
  list : IsMemList s' (kept ++ left)
  table : (j : Key) → OtherKey j rest → u.find s'.socketfds j ≡ u.find s.socketfds j
  lock : s'.deleterlock ≡ s.deleterlock
  sent : s'.sent ≡ s.sent

module _ {T : Type 0} (u : UtHash T) (depth time ms : ℕ) (small : ms < 2 ^ 31) where
  sweep :
      (fuel : ℕ) (rest kept zs : Entries) (s : State T)
      → zs ≡ kept ++ rest
      → IsMemList s zs
      → Distinct zs
      → HasSockets u s.socketfds rest
      → length zs < depth
      → length rest < fuel
      → (s' : State T) × (remove_expired_from u fuel depth time ms (first null rest) s
          ≡ ok (tt, s'))
        × Swept u time ms kept rest s s'
  unfolding remove_expired_from
  sweep zero rest kept zs s e v d h deep f = absurd (omega arith)
  sweep (suc fuel) [] kept zs s e v d h deep f = (
    s,
    refl,
    record {
      left = [];
      pruned_to = done;
      list = rw (← e) v;
      table = λ j o. refl;
      lock = refl;
      sent = refl;
    },
  )
  sweep (suc fuel) ((p, l) ∷ rest) kept zs s e v d h deep f =
      let k = key_of l.remote.macaddr in
      let d' : Distinct (kept ++ (p, l) ∷ rest) = rw e at d in
      let cells : Cells s.nodes.cell null (kept ++ (p, l) ∷ rest) = rw e at (v.cells) in
      let head : s.mem_list.head ≡ first null (kept ++ (p, l) ∷ rest) = rw e at (v.head) in
      let c = Cells-behind s.nodes.cell kept ((p, l) ∷ rest) cells in
      let is = deref-Cells s.nodes null p l rest c in
      let apart = (Distinct-behind kept ((p, l) ∷ rest) d').0 in
      elim (is_expired_iff time ms l.id small) [
        | inl (old, lt) ↦
            let t = u.delete s.socketfds k in
            let erased = Erased-behind p l kept rest d' in
            let (c', runs, cells', _) =
              delete_members-Erased u s p (node l (first null rest)) t s.deleterlock is
                (deletesockfd-runs u s l.remote.macaddr h.0.0 h.0.1) depth erased head cells
                (rw e at deep) in
            let s1 = pruned s t s.deleterlock c' (first null (kept ++ rest)) in
            let (s', runs', swept) =
              sweep fuel rest kept (kept ++ rest) s1 refl
                (record {
                  head = refl;
                  cells = cells';
                  size = omega (arith, v.size, ap length e, length-Erased erased);
                })
                (Distinct-without p l kept rest d')
                (HasSockets-delete u s.socketfds k rest apart h.1)
                (omega (arith, ap length e, length-Erased erased)) (omega arith) in
            (
              s',
              rw
                  (
                    not_null s.nodes null p l rest c,
                    load-ok s p (node l (first null rest)) is,
                    old,
                    runs,
                  )
                  runs',
              record {
                left = swept.left;
                pruned_to = drop lt (swept.table k apart ∙ find_self u s.socketfds k) (
                    Pruned-before u s.socketfds s'.socketfds k time ms rest swept.left apart
                      swept.pruned_to);
                list = swept.list;
                table = λ j o. swept.table j o.1 ∙ find_other u s.socketfds k j (λ f. o.0 (sym f));
                lock = swept.lock;
                sent = swept.sent;
              },
            )
        | inr (young, le) ↦
            let regrouped = append_assoc kept ((p, l) ∷ []) rest in
            let (s', runs', swept) =
              sweep fuel rest (kept ++ (p, l) ∷ []) zs s (e ∙ sym regrouped) v d h.1 deep
                (omega arith) in
            (
              s',
              rw
                  (
                    not_null s.nodes null p l rest c,
                    load-ok s p (node l (first null rest)) is,
                    young,
                  )
                  runs',
              record {
                left = (p, l) ∷ swept.left;
                pruned_to = keep h.0.0 le h.0.1 (swept.table k apart ∙ h.0.1) swept.pruned_to;
                list = rw (append_assoc kept ((p, l) ∷ []) swept.left) at (swept.list);
                table = λ j o. swept.table j o.1;
                lock = swept.lock;
                sent = swept.sent;
              },
            )
      ]

module _ {T : Type 0} (u : UtHash T) (fuel link_timeout : ℕ) (s : State T) (xs : Entries) where
  -- A run of the timeout thread, on a list whose remote addresses have different keys and a socket
  -- each, takes out exactly the entries not heard of for longer than the timeout, and their
  -- sockets. The others stay in order, each with the socket that it had, the rest of the table is as
  -- it was, nothing is sent, and the lock is free at the end.
  pub remove_expired_members-Pruned :
      link_timeout * 1000 < 2 ^ 31
      → s.deleterlock ≡ false
      → IsMemList s xs
      → Distinct xs
      → HasSockets u s.socketfds xs
      → length xs < fuel
      → (s' : State T) × (ys : Entries) × (remove_expired_members u fuel link_timeout s
          ≡ ok (tt, s'))
        × Pruned u s.socketfds s'.socketfds (time_of s) (link_timeout * 1000) xs ys
        × IsMemList s' ys
        × (s'.deleterlock ≡ false)
        × ((j : Key) → OtherKey j xs → u.find s'.socketfds j ≡ u.find s.socketfds j)
        × (s'.sent ≡ s.sent)
  unfolding remove_expired_members lock unlock gettimeid
  remove_expired_members-Pruned small free v d h f =
      let ms = link_timeout * 1000 in
      let time = time_of s in
      let s1 = record s { deleterlock = true; readings = suc s.readings } in
      let list1 : IsMemList s1 xs = record { head = v.head; cells = v.cells; size = v.size } in
      let (s', runs, swept) = sweep u fuel time ms small fuel xs [] xs s1 refl list1 d h f f in
      let whole : ms % 2 ^ 32 ≡ ms = omega arith in
      let started = ap (λ (q : Ptr). remove_expired_from u fuel fuel time ms q s1) v.head ∙ runs in
      (
        record s' { deleterlock = false },
        swept.left,
        rw (free, whole, started, swept.lock) refl,
        swept.pruned_to,
        record { head = swept.list.head; cells = swept.list.cells; size = swept.list.size },
        refl,
        swept.table,
        swept.sent,
      )
