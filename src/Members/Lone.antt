-- ===== src/Members/Lone.antt =====
-- `add_members` of cs352proxy.c on a single node for an address with no socket, this host's or six
-- zeros.
use cs352proxypart.Base.{
  ℕ, suc, ◌<◌, ◌≡◌, refl, ◌∙◌, ◌⊎◌, inl, inr, false, none, length, ==-eq_false, if◌then◌else◌, ◌==◌,
}
use cs352proxypart.Helper.MacCompare.{zero_mac}
use cs352proxypart.Packets.{Ptr, null, Link, node}
use cs352proxypart.Heap.{ok, deref}
use cs352proxypart.Heap.Cells.{Entries, has, deref_not_null, write-ne}
use cs352proxypart.State.{State}
use cs352proxypart.State.Laws.{put_node, load-ok}
use cs352proxypart.State.UtHash.{UtHash}
use cs352proxypart.Sockets.{key_of}
use cs352proxypart.Members.{add_members, add_member_connect}
use cs352proxypart.Members.Search.{FirstReverse}
use cs352proxypart.Members.Connect.{time_of}
use cs352proxypart.Members.Mine.{add_member_connect-mine}
use cs352proxypart.Members.Touch.{touch, FirstReverse-has}
use cs352proxypart.Members.Kept.{IsMembership, touched-IsMembership}
use cs352proxypart.Members.Invariant.{deref_same}
use cs352proxypart.Members.Branches.{deref_cell}

-- The list after the time of the entry `q`, if there is one, was renewed.
abbrev pub renewed : Ptr → (time : ℕ) → Entries → Entries
renewed q time xs = if q == null then xs else touch q time xs

module _ {T : Type 0} (u : UtHash T) (fuel depth : ℕ) (s : State T) (p : Ptr) (l : Link)
    (gateway : ℕ) (xs : Entries) where
  -- A node that leads nowhere is the last of the walk.
  add_members_last :
      (s' : State T)
      → deref s.nodes p ≡ ok (node l null)
      → add_member_connect u depth p gateway s ≡ ok (tt, s')
      → deref s'.nodes p ≡ ok (node l null)
      → add_members u (suc (suc fuel)) depth p gateway s ≡ ok (tt, s')
  unfolding add_members
  add_members_last s' is runs still =
      rw
        (
          ==-eq_false p null (deref_not_null s.nodes p (node l null) is),
          runs,
          load-ok s' p (node l null) still,
        )
        refl

  pub add_members-mine :
      deref s.nodes p ≡ ok (node l null)
      → has p xs ≡ false
      → u.find s.socketfds (key_of l.remote.macaddr) ≡ none
      → (l.remote.macaddr ≡ zero_mac) ⊎ (l.remote.macaddr ≡ s.my_proxy_info.macaddr)
      → IsMembership u s xs
      → length xs < depth
      → (q : Ptr) × FirstReverse l.local l.remote xs q
        × (s' : State T) × (add_members u (suc (suc fuel)) depth p gateway s ≡ ok (tt, s'))
        × IsMembership u s' (renewed q (time_of s) xs)
        × (s'.socketfds ≡ s.socketfds)
        × (s'.my_proxy_info ≡ s.my_proxy_info)
        × (s'.nodes.next_free ≡ s.nodes.next_free)
        × (s'.sent ≡ s.sent)
        × (deref s'.nodes p ≡ ok (node l null))
  add_members-mine is out nothing mine v deep =
      let (q, found, which) =
        add_member_connect-mine u depth s p (node l null) gateway xs is v.free nothing mine v.list
          deep in
      elim which [
        | inl (none_found, runs) ↦ (
          q,
          found,
          s,
          add_members_last s is runs is,
          rw none_found v,
          refl,
          refl,
          refl,
          refl,
          is,
        )
        | inr (ne, m, at_q, runs) ↦
            let in_list = FirstReverse-has found ne in
            let s' = record (put_node s q (node (record m.link { id = time_of s }) m.next)) {
              readings = suc s.readings;
            } in
            let still =
              deref_same s'.nodes s.nodes p (write-ne s.nodes.cell q p _ (λ e. cc)) ∙ is in
            (
              q,
              found,
              s',
              add_members_last s' is runs still,
              rw (==-eq_false q null ne) (
                  touched-IsMembership u s xs q m (time_of s) (suc s.readings) v in_list
                    (deref_cell s q m at_q)),
              refl,
              refl,
              refl,
              refl,
              still,
            )
      ]
