-- ===== src/Members/Connect.antt =====
-- `add_member_connect` of cs352proxy.c: the branches that put a node in front of the list.
use cs352proxypart.Base.{
  ℕ, suc, ◌%◌, ◌^◌, ◌≡◌, ◌≢◌, refl, ap, ◌∙◌, Bool, true, false, ◌||◌, not, some, none, ◌∷◌, arith,
  ◌==◌, length,
}
use cs352proxypart.Helper
use cs352proxypart.Helper.{comp_mac_addrs, comp_mac_zero}
use cs352proxypart.Helper.MacCompare.{comp_mac_addrs-decides, comp_mac_zero-decides, zero_mac}
use cs352proxypart.Packets.{Ptr, null, Mac, Link, LinkstateNode, node}
use cs352proxypart.Heap.{ok, deref, write}
use cs352proxypart.Heap.Cells.{
  Entries, Cells, Cells-write, first, has, deref-write, deref_not_null, write-eq,
}
use cs352proxypart.State.{State, lock, unlock, gettimeid, set_head, set_size, set_linkweight}
use cs352proxypart.State.Laws.{put_node, load-ok, set_next-ok, set_id-ok, set_linkweight-ok}
use cs352proxypart.State.UtHash.{UtHash, key_eq_refl}
use cs352proxypart.Sockets.{key_of, terminated, addsockfd, find_socketfd}
use cs352proxypart.Members.{increment, link_in_front, connect_new, add_member_connect}

-- The reading of the clock that comes next.
abbrev pub time_of : {T : Type 0} → State T → ℕ
time_of s = Helper.gettimeid (s.clock s.readings)

-- The node `p` of content `n` in front of the list, with the weight `w` and the time of now.
abbrev pub weighed : {T : Type 0} → State T → LinkstateNode → ℕ → Link
weighed s n w = record n.link { linkweight = w; id = time_of s }

abbrev pub fronted : {T : Type 0} → State T → Ptr → LinkstateNode → ℕ → State T
fronted s p n w = record s {
  nodes = record s.nodes {
    cell =
        write
          (write (write s.nodes.cell p (some (node n.link s.mem_list.head))) p
            (some (node (record n.link { linkweight = w }) s.mem_list.head)))
          p (some (node (weighed s n w) s.mem_list.head));
  };
  mem_list = record { head = p; size = increment s.mem_list.size };
  readings = suc s.readings;
}

module _ {T : Type 0} (s : State T) (p : Ptr) (n : LinkstateNode)
    (is : deref s.nodes p ≡ ok n) where
  pub link_in_front-fronted :
      (w : ℕ) → link_in_front p (set_linkweight p w) s ≡ ok (tt, fronted s p n w)
  unfolding link_in_front set_head gettimeid set_size
  link_in_front-fronted w =
      let ne = deref_not_null s.nodes p n is in
      let h = s.mem_list.head in
      let s1 = put_node s p (node n.link h) in
      let n2 = node (record n.link { linkweight = w }) h in
      let s2 = put_node s1 p n2 in
      rw
        (
          set_next-ok s p n is h,
          set_linkweight-ok s1 p (node n.link h) (deref-write s.nodes p (node n.link h) ne) w,
          set_id-ok
              (record s2 { mem_list = record s2.mem_list { head = p }; readings = suc s2.readings })
              p n2 (deref-write s1.nodes p n2 ne) (time_of s),
        )
        refl

  -- The list with the node in front.
  pub fronted-Cells :
      (w : ℕ) (xs : Entries)
      → s.mem_list.head ≡ first null xs
      → Cells s.nodes.cell null xs
      → has p xs ≡ false
      → Cells (fronted s p n w).nodes.cell null ((p, weighed s n w) ∷ xs)
  fronted-Cells w xs h c out =
      let n1 = some (node n.link s.mem_list.head) in
      let n2 = some (node (record n.link { linkweight = w }) s.mem_list.head) in
      let n3 = some (node (weighed s n w) s.mem_list.head) in
      let c1 = write s.nodes.cell p n1 in
      let c2 = write c1 p n2 in
      (
        deref_not_null s.nodes p n is,
        write-eq c2 p n3 ∙ ap (λ (q : Ptr). some (node (weighed s n w) q)) h,
        out,
        Cells-write c2 p n3 null xs
            (Cells-write c1 p n2 null xs (Cells-write s.nodes.cell p n1 null xs c out) out) out,
      )

-- The list holds the entries `xs`, and its size counts them, modulo the width of an `int`.
pub record IsMemList {T : Type 0} (s : State T) (xs : Entries) : Type 0 where
  pub head : s.mem_list.head ≡ first null xs
  pub cells : Cells s.nodes.cell null xs
  pub size : s.mem_list.size ≡ length xs % 2 ^ 32

unfoldable pub is_mine : (m me : Mac) → Bool
is_mine m me = not (comp_mac_zero m == 0) || (comp_mac_addrs m me == 0)

is_mine-false : (m me : Mac) → m ≢ zero_mac → m ≢ me → is_mine m me ≡ false
unfolding is_mine
is_mine-false m me nz ne = ground (arith, comp_mac_zero-decides m, comp_mac_addrs-decides m me)

module _ {T : Type 0} (u : UtHash T) (fuel : ℕ) (s : State T) (p : Ptr) (n : LinkstateNode)
    (gateway : ℕ) (is : deref s.nodes p ≡ ok n) (unlocked : s.deleterlock ≡ false) where
  -- `s` with an entry for the remote address of the node.
  abbrev pub with_socket : State T
  with_socket = record s {
    socketfds =
        u.add s.socketfds (key_of n.remote.macaddr)
          (record { macaddr = terminated n.remote.macaddr; sock_fd = gateway });
    deleterlock = false;
  }

  pub connect_new_runs :
      u.find s.socketfds (key_of n.remote.macaddr) ≡ none
      → n.remote.macaddr ≢ zero_mac
      → n.remote.macaddr ≢ s.my_proxy_info.macaddr
      → add_member_connect u fuel p gateway s
        ≡ ok (tt, fronted with_socket p n (increment n.linkweight))
  unfolding add_member_connect connect_new find_socketfd addsockfd lock unlock is_mine
  connect_new_runs absent nz ne =
      let s1 = record s { deleterlock = true } in
      rw
        (
          unlocked,
          load-ok s1 p n is,
          absent,
          is_mine-false n.remote.macaddr s.my_proxy_info.macaddr nz ne,
          link_in_front-fronted (record with_socket { deleterlock = true }) p n is
              (increment n.linkweight),
        )
        refl

  -- A node for an address of another host that has no socket yet: the address gets the socket that
  -- the packet came by, and the node goes to the front of the list, one further away than the
  -- packet said and heard of now. The lock is free again.
  pub add_member_connect-new :
      (xs : Entries)
      → u.find s.socketfds (key_of n.remote.macaddr) ≡ none
      → n.remote.macaddr ≢ zero_mac
      → n.remote.macaddr ≢ s.my_proxy_info.macaddr
      → IsMemList s xs
      → has p xs ≡ false
      → (s' : State T) × (add_member_connect u fuel p gateway s ≡ ok (tt, s'))
        × IsMemList s' ((p, weighed s n (increment n.linkweight)) ∷ xs)
        × (u.find s'.socketfds (key_of n.remote.macaddr)
            ≡ some (record { macaddr = terminated n.remote.macaddr; sock_fd = gateway }))
        × (s'.deleterlock ≡ false)
  add_member_connect-new xs absent nz ne v out = (
    fronted with_socket p n (increment n.linkweight),
    connect_new_runs absent nz ne,
    record {
      head = refl;
      cells = fronted-Cells with_socket p n is (increment n.linkweight) xs v.head v.cells out;
      size = omega (arith, v.size);
    },
    rw
        (
          u.find-add s.socketfds (key_of n.remote.macaddr) (key_of n.remote.macaddr) _ absent,
          key_eq_refl (key_of n.remote.macaddr),
        )
        refl,
    refl,
  )
