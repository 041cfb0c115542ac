-- ===== src/Members/Mine.antt =====
-- `add_member_connect` of cs352proxy.c for a node that leads to this host.
use cs352proxypart.Base.{
  ℕ, suc, ◌<◌, ◌≡◌, ◌≢◌, refl, sym, ap, ◌∙◌, inl, inr, ◌⊎◌, true, false, none, arith, length,
  ==-eq_false,
}
use cs352proxypart.Helper.MacCompare.{zero_mac, comp_mac_zero-decides, comp_mac_addrs-decides}
use cs352proxypart.Packets.{Ptr, null, Mac, ProxyInfo, LinkstateNode, node}
use cs352proxypart.Heap.{ok, deref, Nodes}
use cs352proxypart.Heap.Cells.{Entries, Cells, first, deref-Cells}
use cs352proxypart.State.{State, lock, unlock, gettimeid}
use cs352proxypart.State.Laws.{put_node, load-ok, set_id-ok}
use cs352proxypart.State.UtHash.{UtHash}
use cs352proxypart.Sockets.{key_of, find_socketfd}
use cs352proxypart.Members.{in_member_list, in_member_list_from, connect_new, add_member_connect}
use cs352proxypart.Members.Search.{FirstReverse, absent, here, later, in_member_list-first}
use cs352proxypart.Members.Connect.{IsMemList, time_of, is_mine}

FirstReverse-deref :
    {a b : ProxyInfo} (h : Nodes) {xs : Entries} {q : Ptr}
    → FirstReverse a b xs q
    → Cells h.cell null xs
    → (q ≡ null) ⊎ ((q ≢ null) × (m : LinkstateNode) × (deref h q ≡ ok m))
FirstReverse-deref h (absent e) c = inl e
FirstReverse-deref h (here {p} {q} {l} {xs} r e) c =
    inr (
      (λ f. c.0 (e ∙ f)),
      node l (first null xs),
      ap (deref h) (sym e) ∙ deref-Cells h null p l xs c,
    )
FirstReverse-deref h (later ne r) c = FirstReverse-deref h r c.3

is_mine-true : (m me : Mac) → (m ≡ zero_mac) ⊎ (m ≡ me) → is_mine m me ≡ true
unfolding is_mine
is_mine-true m me h = ground (arith, comp_mac_zero-decides m, comp_mac_addrs-decides m me)

-- A node for an address with no socket that is this host's or six zeros changes nothing but the
-- time of the first entry that is the same link in the other direction, which is heard of now.
pub add_member_connect-mine :
    {T : Type 0} (u : UtHash T) (fuel : ℕ) (s : State T) (p : Ptr) (n : LinkstateNode) (gateway : ℕ)
    (xs : Entries)
    → deref s.nodes p ≡ ok n
    → s.deleterlock ≡ false
    → u.find s.socketfds (key_of n.remote.macaddr) ≡ none
    → (n.remote.macaddr ≡ zero_mac) ⊎ (n.remote.macaddr ≡ s.my_proxy_info.macaddr)
    → IsMemList s xs
    → length xs < fuel
    → let run = add_member_connect u fuel p gateway s in
      (q : Ptr) × FirstReverse n.local n.remote xs q
      × (((q ≡ null) × (run ≡ ok (tt, s)))
          ⊎ ((q ≢ null)
              × (m : LinkstateNode) × (deref s.nodes q ≡ ok m)
              × (run
                  ≡ ok (
                    tt,
                    record (put_node s q (node (record m.link { id = time_of s }) m.next)) {
                      readings = suc s.readings;
                    },
                  ))))
unfolding add_member_connect connect_new find_socketfd lock unlock gettimeid in_member_list is_mine
add_member_connect-mine u fuel s p n gateway xs is free nothing mine v enough =
    let s1 = record s { deleterlock = true } in
    let (q, found, first_one) =
      in_member_list-first s.nodes n.local n.remote fuel xs v.cells enough in
    let runs =
      ap (λ (a : Ptr). in_member_list_from s.nodes fuel a n.local n.remote) v.head ∙ found in
    (
      q,
      first_one,
      elim (FirstReverse-deref s.nodes first_one v.cells) [
        | inl e ↦ inl (
          e,
          rw
              (
                free,
                load-ok s1 p n is,
                nothing,
                is_mine-true n.remote.macaddr s.my_proxy_info.macaddr mine,
                runs,
                e,
              )
              refl,
        )
        | inr (ne, m, at_q) ↦ inr (
          ne,
          m,
          at_q,
          rw
              (
                free,
                load-ok s1 p n is,
                nothing,
                is_mine-true n.remote.macaddr s.my_proxy_info.macaddr mine,
                runs,
                ==-eq_false q null ne,
                set_id-ok (record s1 { readings = suc s.readings }) q m at_q (time_of s),
              )
              refl,
        )
      ],
    )
