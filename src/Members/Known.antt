-- ===== src/Members/Known.antt =====
-- `add_member_connect` of cs352proxy.c for an address that has a socket already.
use cs352proxypart.Base.{
  ℕ, ◌+◌, ◌%◌, ◌^◌, ◌<◌, ◌≡◌, refl, ap, ◌∙◌, inl, inr, true, false, some, ◌∷◌, arith, ==-eq_false,
  if◌then◌else◌, length, ltb, Bool-cases,
}
use cs352proxypart.Helper.{minus_one}
use cs352proxypart.Packets.{Ptr, null, LinkstateNode}
use cs352proxypart.Heap.{ok, deref}
use cs352proxypart.Heap.Cells.{Entries, has}
use cs352proxypart.State.{State, lock, unlock}
use cs352proxypart.State.Laws.{load-ok}
use cs352proxypart.State.UtHash.{UtHash, ProxySocketfd, key_eq_refl}
use cs352proxypart.Sockets.{key_of, find_socketfd, set_sock_fd}
use cs352proxypart.Members.{
  in_member_list, get_lowest_saved_distance, connect_known, add_member_connect, lowest_from,
  in_member_list_from,
}
use cs352proxypart.Members.Search.{
  NoReverse, HasReverse, in_member_list-null, in_member_list-found, Lowest, lowest_from-Lowest,
}
use cs352proxypart.Members.Connect.{
  weighed, fronted, link_in_front-fronted, fronted-Cells, IsMemList,
}

-- `s` with the lock free.
abbrev pub freed : {T : Type 0} → State T → State T
freed s = record s { deleterlock = false }

module _ {T : Type 0} (u : UtHash T) (s : State T) (n : LinkstateNode) (e : ProxySocketfd)
    (gateway : ℕ) where
  -- `s` with the socket of the node's remote address replaced.
  abbrev pub rerouted : State T
  rerouted = record s {
    socketfds = u.update s.socketfds (key_of n.remote.macaddr) (record e { sock_fd = gateway });
  }

module _ {T : Type 0} (u : UtHash T) (fuel : ℕ) (s : State T) (p : Ptr) (n : LinkstateNode)
    (gateway : ℕ) (xs : Entries) (e : ProxySocketfd) (is : deref s.nodes p ≡ ok n)
    (unlocked : s.deleterlock ≡ false)
    (found : u.find s.socketfds (key_of n.remote.macaddr) ≡ some e) (v : IsMemList s xs)
    (enough : length xs < fuel) where
  -- If the list has the same link in the other direction, nothing changes.
  pub add_member_connect-reverse :
      HasReverse n.local n.remote xs → add_member_connect u fuel p gateway s ≡ ok (tt, s)
  unfolding add_member_connect connect_known find_socketfd lock unlock in_member_list
  add_member_connect-reverse r =
      let (q, runs, ne) = in_member_list-found s.nodes n.local n.remote fuel xs v.cells enough r in
      rw
        (
          unlocked,
          load-ok (record s { deleterlock = true }) p n is,
          found,
          ap (λ (a : Ptr). in_member_list_from s.nodes fuel a n.local n.remote) v.head ∙ runs,
          ==-eq_false q null ne,
        )
        refl

  pub connect_known_runs :
      (dist save : ℕ)
      → NoReverse n.local n.remote xs
      → lowest_from s.nodes fuel s.mem_list.head n.local.macaddr minus_one ≡ ok dist
      → lowest_from s.nodes fuel s.mem_list.head n.remote.macaddr minus_one ≡ ok save
      → let w = (n.linkweight + dist) % 2 ^ 32 in
        add_member_connect u fuel p gateway s ≡ (
          if ltb w save
          then ok (tt, fronted (rerouted u (freed s) n e gateway) p n w)
          else ok (tt, fronted (freed s) p n w))
  unfolding add_member_connect connect_known find_socketfd set_sock_fd lock unlock in_member_list
      get_lowest_saved_distance
  connect_known_runs dist save r d1 d2 =
      let w = (n.linkweight + dist) % 2 ^ 32 in
      rw
        (
          unlocked,
          load-ok (record s { deleterlock = true }) p n is,
          found,
          ap (λ (a : Ptr). in_member_list_from s.nodes fuel a n.local n.remote) v.head
              ∙ in_member_list-null s.nodes n.local n.remote fuel xs v.cells enough r,
          d1,
          d2,
          link_in_front-fronted (record s { deleterlock = true }) p n is w,
        )
        (elim (Bool-cases (ltb w save)) [ inl less ↦ rw less refl | inr more ↦ rw more refl ])

  -- What becomes of a node whose remote address has a socket, if no entry is the same link in the
  -- other direction. It goes to the front, heard of now, with its weight plus the least weight at
  -- which the list knows the sending end (2 ^ 32 - 1 if it does not), modulo 2 ^ 32. The address
  -- gets the socket that the packet came by if that is less than every weight at which the list
  -- knows the address, and else keeps its own. The lock is free again.
  pub add_member_connect-known :
      NoReverse n.local n.remote xs
      → has p xs ≡ false
      → (dist save : ℕ) × (s' : State T) × Lowest n.local.macaddr minus_one xs dist
        × Lowest n.remote.macaddr minus_one xs save
        × (add_member_connect u fuel p gateway s ≡ ok (tt, s'))
        × IsMemList s' ((p, weighed s n ((n.linkweight + dist) % 2 ^ 32)) ∷ xs)
        × (u.find s'.socketfds (key_of n.remote.macaddr)
            ≡ some (
                if ltb ((n.linkweight + dist) % 2 ^ 32) save
                then record e { sock_fd = gateway }
                else e))
        × (s'.deleterlock ≡ false)
  add_member_connect-known r out =
      let (dist, runs1, low1) =
        lowest_from-Lowest s.nodes n.local.macaddr fuel xs minus_one v.cells enough in
      let (save, runs2, low2) =
        lowest_from-Lowest s.nodes n.remote.macaddr fuel xs minus_one v.cells enough in
      let w = (n.linkweight + dist) % 2 ^ 32 in
      let runs =
        connect_known_runs dist save r
          (ap (λ (a : Ptr). lowest_from s.nodes fuel a n.local.macaddr minus_one) v.head ∙ runs1)
          (ap (λ (a : Ptr). lowest_from s.nodes fuel a n.remote.macaddr minus_one) v.head
            ∙ runs2) in
      let list : IsMemList (fronted (freed s) p n w) ((p, weighed s n w) ∷ xs) = record {
        head = refl;
        cells = fronted-Cells (freed s) p n is w xs v.head v.cells out;
        size = omega (arith, v.size);
      } in
      elim (Bool-cases (ltb w save)) [
        | inl less ↦ (
          dist,
          save,
          fronted (rerouted u (freed s) n e gateway) p n w,
          low1,
          low2,
          rw less at runs,
          record { head = refl; cells = list.cells; size = list.size },
          rw
              (
                less,
                u.find-update s.socketfds (key_of n.remote.macaddr) (key_of n.remote.macaddr)
                    (record e { sock_fd = gateway }) e found,
                key_eq_refl (key_of n.remote.macaddr),
              )
              refl,
          refl,
        )
        | inr more ↦ (
          dist,
          save,
          fronted (freed s) p n w,
          low1,
          low2,
          rw more at runs,
          list,
          rw (more, found) refl,
          refl,
        )
      ]
