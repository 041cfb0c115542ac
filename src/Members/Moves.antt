-- ===== src/Members/Moves.antt =====
-- The functions on the membership list of cs352proxy.c, with the mutex.
use cs352proxypart.Base.{ℕ, zero, suc, ◌*◌, ◌%◌, ◌^◌, Bool, Option, none, some, ◌==◌}
use cs352proxypart.Packets.{Ptr, null, Mac, ProxyInfo, LinkstateNode}
use cs352proxypart.Heap.{Run, ok, Nodes}
use cs352proxypart.State.{State, Cmd, unlock}
use cs352proxypart.State.UtHash.{UtHash, ProxySocketfd}
use cs352proxypart.Sockets.{key_of, addsockfd, deletesockfd, find_socketfd, set_sock_fd}
use cs352proxypart.Members.{
  increment, decrement, in_member_list_from, lowest_from, in_member_list, get_lowest_saved_distance,
  link_in_front, delete_from, delete_members, connect_new, connect_known, add_member_connect,
  add_members, remove_expired_from, remove_expired_members,
}
use cs352proxypart.State.NoWait.{
  NoWait, NoWait-ok, NoWait-out_of_fuel, NoWait-and_then, NoWait-if, NoWait-deref,
}
use cs352proxypart.State.Moves.{
  Whatever, Free, Ends, Moves, Moves-bind, Moves-if, Moves-option, Moves-forget, Moves-reads,
  Moves-gets, Moves-pure, Moves-out_of_fuel, Moves-modify,
}
use cs352proxypart.State.Moves.Basic.{
  shared-Later, load-Moves, set_id-Moves, set_linkweight-Moves, set_next-Moves, set_head-Moves,
  set_size-Moves, gettimeid-Moves, lock-Moves, unlock-Moves,
}

in_member_list_from-NoWait :
    (h : Nodes) (fuel : ℕ) (p : Ptr) (a b : ProxyInfo) → NoWait (in_member_list_from h fuel p a b)
unfolding in_member_list_from
in_member_list_from-NoWait h zero p a b = NoWait-out_of_fuel
in_member_list_from-NoWait h (suc fuel) p a b = NoWait-if (p == null) (NoWait-ok null) (
    NoWait-and_then (NoWait-deref h p)
      λ n. NoWait-if _ (NoWait-ok p) (in_member_list_from-NoWait h fuel n.next a b))

lowest_from-NoWait :
    (h : Nodes) (fuel : ℕ) (p : Ptr) (mac : Mac) (dist : ℕ) → NoWait (lowest_from h fuel p mac dist)
unfolding lowest_from
lowest_from-NoWait h zero p mac dist = NoWait-out_of_fuel
lowest_from-NoWait h (suc fuel) p mac dist =
    NoWait-if (p == null) (NoWait-ok dist)
      (NoWait-and_then (NoWait-deref h p) λ n. lowest_from-NoWait h fuel n.next mac _)

module _ {T : Type 0} {P : Bool → Type 0} where
  in_member_list-Moves : (fuel : ℕ) (a b : ProxyInfo) → Moves {T = T} P P (in_member_list fuel a b)
  unfolding in_member_list
  in_member_list-Moves fuel a b =
      Moves-reads _ λ s. in_member_list_from-NoWait s.nodes fuel s.mem_list.head a b

  get_lowest_saved_distance-Moves :
      (fuel : ℕ) (mac : Mac) → Moves {T = T} P P (get_lowest_saved_distance fuel mac)
  unfolding get_lowest_saved_distance
  get_lowest_saved_distance-Moves fuel mac =
      Moves-reads _ λ s. lowest_from-NoWait s.nodes fuel s.mem_list.head mac _

  link_in_front-Moves :
      (ptr : Ptr) (weigh : Cmd T (Unit {0})) → Moves P P weigh → Moves P P (link_in_front ptr weigh)
  unfolding link_in_front
  link_in_front-Moves ptr weigh w = Moves-bind (Moves-gets _) λ temp.
      Moves-bind (set_next-Moves ptr temp) λ _. Moves-bind w λ _.
        Moves-bind (set_head-Moves ptr) λ _. Moves-bind gettimeid-Moves λ time.
          Moves-bind (set_id-Moves ptr time) λ _.
            Moves-bind (Moves-gets λ s. s.mem_list.size) λ size. set_size-Moves (increment size)

module _ {T : Type 0} (u : UtHash T) where
  -- A deletion, by what the search for the address gave.
  abbrev deleted : State T → Mac → Option ProxySocketfd → Run (Unit {0} × State T)
  deleted s mac none = unlock s
  deleted s mac (some e) = ok (tt, record s { socketfds = u.delete s.socketfds (key_of mac) })

module _ {T : Type 0} (u : UtHash T) {P : Bool → Type 0} where
  pub addsockfd-Moves : (mac : Mac) (fd : ℕ) → Moves P P (addsockfd u mac fd)
  unfolding addsockfd
  addsockfd-Moves mac fd = Moves-modify _ (λ s h. h) λ s. shared-Later s s.mem_list _ s.deleterlock

  pub find_socketfd-Moves : (mac : Mac) → Moves P P (find_socketfd u mac)
  unfolding find_socketfd
  find_socketfd-Moves mac = Moves-gets _

  set_sock_fd-Moves : (mac : Mac) (e : ProxySocketfd) (fd : ℕ) → Moves P P (set_sock_fd u mac e fd)
  unfolding set_sock_fd
  set_sock_fd-Moves mac e fd =
      Moves-modify _ (λ s h. h) λ s. shared-Later s s.mem_list _ s.deleterlock

  -- It may free the lock.
  deletesockfd-Moves : (mac : Mac) → Moves P Whatever (deletesockfd u mac)
  unfolding deletesockfd
  deletesockfd-Moves mac = record {
    at = λ s h.
        elim (u.find s.socketfds (key_of mac)) as (λ o. Ends Whatever s (deleted u s mac o)) [
          | none ↦ (Moves-forget (unlock-Moves {P = P})).at s h
          | some e ↦ (tt, shared-Later s s.mem_list _ s.deleterlock)
        ];
  }

module _ {T : Type 0} (u : UtHash T) where
  delete_from-Moves :
      {P : Bool → Type 0} (fuel : ℕ) (link prev curr : Ptr)
      → Moves P Whatever (delete_from u fuel link prev curr)
  unfolding delete_from
  delete_from-Moves zero link prev curr = Moves-out_of_fuel
  delete_from-Moves (suc fuel) link prev curr =
      Moves-if (curr == null) (Moves-forget (Moves-pure tt)) (
        Moves-bind (load-Moves curr) λ c. Moves-bind (load-Moves link) λ l.
          Moves-if _
            (Moves-bind (deletesockfd-Moves u c.remote.macaddr) λ _.
              Moves-bind (Moves-if _ (set_head-Moves c.next) (set_next-Moves prev c.next)) λ _.
                Moves-bind (Moves-gets λ s. s.mem_list.size)
                  λ size. set_size-Moves (decrement size))
            (delete_from-Moves fuel link curr c.next))

  delete_members-Moves :
      {P : Bool → Type 0} (fuel : ℕ) (link : Ptr) → Moves P Whatever (delete_members u fuel link)
  unfolding delete_members
  delete_members-Moves fuel link =
      Moves-bind (Moves-gets _) λ head. delete_from-Moves fuel link null head

  connect_new-Moves :
      {P : Bool → Type 0} (fuel : ℕ) (p : Ptr) (n : LinkstateNode) (gateway : ℕ)
      → Moves P Free (connect_new u fuel p n gateway)
  unfolding connect_new
  connect_new-Moves fuel p n gateway = Moves-bind (Moves-gets λ s. s.my_proxy_info) λ me.
      Moves-if _
        (Moves-bind (in_member_list-Moves fuel n.local n.remote) λ finder.
          Moves-bind
            (Moves-if _ (Moves-pure tt)
              (Moves-bind gettimeid-Moves λ time. set_id-Moves finder time))
            λ _. unlock-Moves)
        (Moves-bind (addsockfd-Moves u n.remote.macaddr gateway) λ _.
          Moves-bind (link_in_front-Moves p _ (set_linkweight-Moves p (increment n.linkweight)))
            λ _. unlock-Moves)

  connect_known-Moves :
      {P : Bool → Type 0} (fuel : ℕ) (p : Ptr) (n : LinkstateNode) (e : ProxySocketfd) (gateway : ℕ)
      → Moves P Free (connect_known u fuel p n e gateway)
  unfolding connect_known
  connect_known-Moves fuel p n e gateway =
      Moves-bind (in_member_list-Moves fuel n.local n.remote) λ finder.
        Moves-if _
          (Moves-bind (get_lowest_saved_distance-Moves fuel n.local.macaddr) λ dist.
            Moves-bind (get_lowest_saved_distance-Moves fuel n.remote.macaddr) λ save_dist.
              Moves-bind (link_in_front-Moves p _ (set_linkweight-Moves p _)) λ _.
                Moves-bind
                  (Moves-if _ (set_sock_fd-Moves u n.remote.macaddr e gateway) (Moves-pure tt))
                  λ _. unlock-Moves)
          unlock-Moves

  add_member_connect-Moves :
      (fuel : ℕ) (p : Ptr) (gateway : ℕ) → Moves Free Free (add_member_connect u fuel p gateway)
  unfolding add_member_connect
  add_member_connect-Moves fuel p gateway = Moves-bind lock-Moves λ _.
      Moves-bind (load-Moves p) λ n. Moves-bind (find_socketfd-Moves u n.remote.macaddr) λ o.
        Moves-option o (connect_new-Moves fuel p n gateway)
          (λ e. connect_known-Moves fuel p n e gateway)

  pub add_members-Moves :
      (fuel depth : ℕ) (p : Ptr) (gateway : ℕ)
      → Moves Free Free (add_members u fuel depth p gateway)
  unfolding add_members
  add_members-Moves zero depth p gateway = Moves-out_of_fuel
  add_members-Moves (suc fuel) depth p gateway = Moves-if (p == null) (Moves-pure tt) (
      Moves-bind (add_member_connect-Moves depth p gateway)
        λ _. Moves-bind (load-Moves p) λ n. add_members-Moves fuel depth n.next gateway)

  remove_expired_from-Moves :
      {P : Bool → Type 0} (fuel depth time ms : ℕ) (p : Ptr)
      → Moves P Whatever (remove_expired_from u fuel depth time ms p)
  unfolding remove_expired_from
  remove_expired_from-Moves zero depth time ms p = Moves-out_of_fuel
  remove_expired_from-Moves (suc fuel) depth time ms p =
      Moves-if (p == null) (Moves-forget (Moves-pure tt)) (
        Moves-bind (load-Moves p) λ n.
          Moves-bind (Moves-if _ (delete_members-Moves depth p) (Moves-forget (Moves-pure tt)))
            λ _. remove_expired_from-Moves fuel depth time ms n.next)

  pub remove_expired_members-Moves :
      (fuel link_timeout : ℕ) → Moves Free Free (remove_expired_members u fuel link_timeout)
  unfolding remove_expired_members
  remove_expired_members-Moves fuel link_timeout = Moves-bind lock-Moves λ _.
      Moves-bind (Moves-gets λ s. s.mem_list.head) λ head. Moves-bind gettimeid-Moves λ time.
        Moves-bind (remove_expired_from-Moves fuel fuel time (link_timeout * 1000 % 2 ^ 32) head)
          λ _. unlock-Moves
