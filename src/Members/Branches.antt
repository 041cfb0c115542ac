-- ===== src/Members/Branches.antt =====
-- What calls of `add_member_connect` of cs352proxy.c keep of the membership list, the table of
-- sockets and the lock, on every branch.
use cs352proxypart.Base.{
  ℕ, suc, ◌+◌, ◌%◌, ◌^◌, ◌<◌, ◌≡◌, ◌≢◌, refl, ap, ◌∙◌, false, some, none, arith, inl, inr, ◌⊎◌,
  Bool-cases, Option-cases, length, ltb,
}
use cs352proxypart.Helper.{minus_one}
use cs352proxypart.Helper.MacCompare.{zero_mac, comp_mac_addrs-decides, comp_mac_zero-decides}
use cs352proxypart.Packets.{Ptr, Mac, LinkstateNode}
use cs352proxypart.Heap.{ok, deref}
use cs352proxypart.Heap.Cells.{Entries, has}
use cs352proxypart.State.{State}
use cs352proxypart.State.UtHash.{UtHash, ProxySocketfd, key_eq_refl}
use cs352proxypart.Sockets.{key_of, terminated}
use cs352proxypart.Members.{add_member_connect, increment, lowest_from}
use cs352proxypart.Members.Search.{NoReverse, lowest_from-Lowest}
use cs352proxypart.Members.Connect.{fronted, with_socket, connect_new_runs, time_of}
use cs352proxypart.Members.Known.{freed, rerouted, add_member_connect-reverse, connect_known_runs}
use cs352proxypart.Members.Mine.{add_member_connect-mine}
use cs352proxypart.Members.Ring.{found_add, found_update}
use cs352proxypart.Members.Touch.{FirstReverse-has, reverse_or_none}
use cs352proxypart.Members.Kept.{
  IsMembership, Kept, HasSockets-mono, fronted-Kept, same-Kept, touched-Kept,
}

pub deref_cell :
    {T : Type 0} (s : State T) (q : Ptr) (m : LinkstateNode)
    → deref s.nodes q ≡ ok m
    → s.nodes.cell q ≡ some m
unfolding deref
deref_cell s q m e = ground arith

own_or_other : (m me : Mac) → ((m ≡ zero_mac) ⊎ (m ≡ me)) ⊎ ((m ≢ zero_mac) × (m ≢ me))
own_or_other m me = elim (comp_mac_zero-decides m) [
  | inl (e, _) ↦ inl (inl e)
  | inr (nz, _) ↦ elim (comp_mac_addrs-decides m me) [
    | inl (e, _) ↦ inl (inr e)
    | inr (ne, _) ↦ inr (nz, ne)
  ]
]

module _ {T : Type 0} (u : UtHash T) (fuel : ℕ) (s : State T) (p : Ptr) (n : LinkstateNode)
    (gateway : ℕ) (xs : Entries) (is : deref s.nodes p ≡ ok n) (out : has p xs ≡ false)
    (v : IsMembership u s xs) (enough : length xs < fuel) where
  abbrev Goes : Type 0
  Goes =
      (s' : State T) × (add_member_connect u fuel p gateway s ≡ ok (tt, s'))
      × Kept u s.nodes.cell p xs s'

  goes_new : u.find s.socketfds (key_of n.remote.macaddr) ≡ none → Goes
  goes_new nothing = elim (own_or_other n.remote.macaddr s.my_proxy_info.macaddr) [
    | inl mine ↦
        let (q, found, which) =
          add_member_connect-mine u fuel s p n gateway xs is v.free nothing mine v.list enough in
        elim which [
          | inl (_, runs) ↦ (s, runs, same-Kept u s p n xs is out v)
          | inr (ne, m, at_q, runs) ↦ (
            _,
            runs,
            touched-Kept u s xs q m (time_of s) (suc s.readings) v (FirstReverse-has found ne)
                (deref_cell s q m at_q) p,
          )
        ]
    | inr (nz, ne) ↦
        let t = with_socket u fuel s p n gateway is v.free in
        let entry : ProxySocketfd = record {
          macaddr = terminated n.remote.macaddr;
          sock_fd = gateway;
        } in
        let k = key_of n.remote.macaddr in
        (
          _,
          connect_new_runs u fuel s p n gateway is v.free nothing nz ne,
          fronted-Kept u t p n xs is out (increment n.linkweight)
              (record {
                list = record { head = v.list.head; cells = v.list.cells; size = v.list.size };
                sockets =
                    HasSockets-mono u s.socketfds t.socketfds xs
                      (λ j f has_j. found_add u s.socketfds k j entry f nothing has_j) v.sockets;
                free = refl;
              })
              (entry, rw (u.find-add s.socketfds k k entry nothing, key_eq_refl k) refl),
        )
  ]

  fronted_either :
      (e : ProxySocketfd)
      → u.find s.socketfds (key_of n.remote.macaddr) ≡ some e
      → NoReverse n.local n.remote xs
      → let run = add_member_connect u fuel p gateway s in
        (w : ℕ) × ((run ≡ ok (tt, fronted (rerouted u (freed s) n e gateway) p n w))
          ⊎ (run ≡ ok (tt, fronted (freed s) p n w)))
  fronted_either e found r =
      let (dist, runs1, _) =
        lowest_from-Lowest s.nodes n.local.macaddr fuel xs minus_one v.list.cells enough in
      let (save, runs2, _) =
        lowest_from-Lowest s.nodes n.remote.macaddr fuel xs minus_one v.list.cells enough in
      let w = (n.linkweight + dist) % 2 ^ 32 in
      let runs =
        connect_known_runs u fuel s p n gateway xs e is v.free found v.list enough dist save r
          (ap (λ (a : Ptr). lowest_from s.nodes fuel a n.local.macaddr minus_one) v.list.head
            ∙ runs1)
          (ap (λ (a : Ptr). lowest_from s.nodes fuel a n.remote.macaddr minus_one) v.list.head
            ∙ runs2) in
      elim (Bool-cases (ltb w save)) [
        | inl less ↦ (w, inl (rw less at runs))
        | inr more ↦ (w, inr (rw more at runs))
      ]

  goes_known : (e : ProxySocketfd) → u.find s.socketfds (key_of n.remote.macaddr) ≡ some e → Goes
  goes_known e found = elim (reverse_or_none n.local n.remote xs) [
    | inl r ↦ (
      s,
      add_member_connect-reverse u fuel s p n gateway xs e is v.free found v.list enough r,
      same-Kept u s p n xs is out v,
    )
    | inr r ↦
        let k = key_of n.remote.macaddr in
        let (w, ends) = fronted_either e found r in
        elim ends [
          | inl rerouting ↦ (
            _,
            rerouting,
            fronted-Kept u (rerouted u (freed s) n e gateway) p n xs is out w
                (record {
                  list = record { head = v.list.head; cells = v.list.cells; size = v.list.size };
                  sockets =
                      HasSockets-mono u s.socketfds _ xs
                        (λ j f has_j.
                          found_update u s.socketfds k j (record e { sock_fd = gateway }) e f found
                            has_j)
                        v.sockets;
                  free = refl;
                })
                (
                  record e { sock_fd = gateway },
                  rw
                      (
                        u.find-update s.socketfds k k (record e { sock_fd = gateway }) e found,
                        key_eq_refl k,
                      )
                      refl,
                ),
          )
          | inr keeping ↦ (
            _,
            keeping,
            fronted-Kept u (freed s) p n xs is out w
                (record {
                  list = record { head = v.list.head; cells = v.list.cells; size = v.list.size };
                  sockets = v.sockets;
                  free = refl;
                })
                (e, found),
          )
        ]
  ]

  -- Where the lock is free, the list, its size and the table agree, and the node is allocated and
  -- not in the list, `add_member_connect` ends, and they agree again, whatever its branch: at most
  -- the node has come to the list, and no other memory has changed.
  pub add_member_connect-IsMembership : Goes
  add_member_connect-IsMembership =
      elim (Option-cases (u.find s.socketfds (key_of n.remote.macaddr))) [
        | inl nothing ↦ goes_new nothing
        | inr (e, found) ↦ goes_known e found
      ]
