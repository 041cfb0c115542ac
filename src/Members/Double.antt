-- ===== src/Members/Double.antt =====
-- `removeExpiredMembers` of cs352proxy.c on two expired links to the same host.
use cs352proxypart.Base.{
  ℕ, zero, suc, ◌+◌, ◌*◌, ◌%◌, ◌^◌, ◌<◌, ◌≡◌, refl, ap, ◌∙◌, Bool, true, false, Option, some, none,
  [], ◌∷◌, arith, length,
}
use cs352proxypart.Packets.{Ptr, null, Link, LinkstateNode, node}
use cs352proxypart.Heap.{ok, fault}
use cs352proxypart.Heap.Cells.{Entries, Cells, first, not_null, deref-Cells}
use cs352proxypart.State.{State, lock, unlock, gettimeid}
use cs352proxypart.State.Laws.{load-ok}
use cs352proxypart.State.UtHash.{UtHash, ProxySocketfd}
use cs352proxypart.Sockets.{key_of, deletesockfd}
use cs352proxypart.Sockets.Laws.{deletesockfd_absent}
use cs352proxypart.Members.{is_expired, remove_expired_from, remove_expired_members}
use cs352proxypart.Members.Delete.{here, pruned, delete_members-Erased}
use cs352proxypart.Members.Connect.{IsMemList, time_of}
use cs352proxypart.Members.Expire.{is_expired_iff}
use cs352proxypart.Members.Timeout.{find_self, deletesockfd-runs}

is_expired-true : (time ms id : ℕ) → ms < 2 ^ 31 → id + ms < time → is_expired time ms id ≡ true
is_expired-true time ms id small late = ground (arith, is_expired_iff time ms id small)

module _ {T : Type 0} (u : UtHash T) (depth time ms : ℕ) (small : ms < 2 ^ 31) where
  -- A round of the loop at the first entry, which is expired.
  first_round :
      (fuel : ℕ) (s : State T) (p : Ptr) (l : Link) (xs : Entries) (t : T) (b : Bool)
      → Cells s.nodes.cell null ((p, l) ∷ xs)
      → s.mem_list.head ≡ p
      → l.id + ms < time
      → length xs + 1 < depth
      → deletesockfd u l.remote.macaddr s ≡ ok (tt, record s { socketfds = t; deleterlock = b })
      → (c' : Ptr → Option LinkstateNode) × (remove_expired_from u (suc fuel) depth time ms p s
          ≡ remove_expired_from u fuel depth time ms
              (first null xs)
              (pruned s t b c' (first null xs)))
        × Cells c' null xs
  unfolding remove_expired_from
  first_round fuel s p l xs t b c head late deep drops =
      let is = deref-Cells s.nodes null p l xs c in
      let (c', runs, cells, _) =
        delete_members-Erased u s p (node l (first null xs)) t b is drops depth (here refl) head c
          (omega arith) in
      (
        c',
        rw
            (
              not_null s.nodes null p l xs c,
              load-ok s p (node l (first null xs)) is,
              is_expired-true time ms l.id small late,
              runs,
            )
            refl,
        cells,
      )

  last_round :
      (fuel : ℕ) (s : State T) → remove_expired_from u (suc fuel) depth time ms null s ≡ ok (tt, s)
  unfolding remove_expired_from
  last_round fuel s = refl

-- A list of two expired links to addresses with the same key, which has a socket: the second
-- deletion finds no socket and unlocks the mutex, so the run ends with an unlock of a mutex that is
-- not held.
pub remove_expired_members-fault :
    {T : Type 0} (u : UtHash T) (fuel link_timeout : ℕ) (s : State T) (p q : Ptr) (l k : Link)
    (e : ProxySocketfd)
    → 2 < fuel
    → link_timeout * 1000 < 2 ^ 31
    → s.deleterlock ≡ false
    → IsMemList s ((p, l) ∷ (q, k) ∷ [])
    → key_of k.remote.macaddr ≡ key_of l.remote.macaddr
    → u.find s.socketfds (key_of l.remote.macaddr) ≡ some e
    → l.id + link_timeout * 1000 < time_of s
    → k.id + link_timeout * 1000 < time_of s
    → remove_expired_members u fuel link_timeout s ≡ fault
unfolding remove_expired_members lock unlock gettimeid
remove_expired_members-fault u zero link_timeout s p q l k e f small free v same found a b =
    absurd (omega arith)
remove_expired_members-fault u (suc zero) link_timeout s p q l k e f small free v same found a b =
    absurd (omega arith)
remove_expired_members-fault u (suc (suc zero)) link_timeout s p q l k e f small free v same found a
      b =
    absurd (omega arith)
remove_expired_members-fault u (suc (suc (suc fuel))) link_timeout s p q l k e f small free v same
      found a b =
    let depth = suc (suc (suc fuel)) in
    let ms = link_timeout * 1000 in
    let time = time_of s in
    let whole : ms % 2 ^ 32 ≡ ms = omega arith in
    let t = u.delete s.socketfds (key_of l.remote.macaddr) in
    let s1 = record s { deleterlock = true; readings = suc s.readings } in
    let (c1, runs1, cells1) =
      first_round u depth time ms small (suc (suc fuel)) s1 p l ((q, k) ∷ []) t true v.cells v.head
        a (omega arith) (deletesockfd-runs u s1 l.remote.macaddr e found) in
    let s2 = pruned s1 t true c1 q in
    let gone : u.find t (key_of k.remote.macaddr) ≡ none =
      ap (u.find t) same ∙ find_self u s.socketfds (key_of l.remote.macaddr) in
    let (c2, runs2, cells2) =
      first_round u depth time ms small (suc fuel) s2 q k [] t false cells1 refl b (omega arith)
        (deletesockfd_absent u s2 k.remote.macaddr gone) in
    let runs =
      ap (λ (a : Ptr). remove_expired_from u depth depth time ms a s1) v.head
      ∙ runs1
      ∙ runs2
      ∙ last_round u depth time ms small fuel (pruned s2 t false c2 null) in
    rw (free, whole, runs) refl
