-- ===== src/Members.antt =====
-- The membership list of cs352proxy.c: `mem_list` and the functions that search, extend and prune
-- it. `fuel` bounds the nodes that a walk visits; a list of n nodes needs n + 1.
pub mod Search
pub mod Delete
pub mod Connect
pub mod Known
pub mod Mine
pub mod Expire
pub mod Timeout
pub mod Double
pub mod Ring
pub mod Cycle
pub mod Touch
pub mod Kept
pub mod Branches
pub mod Invariant
pub mod Lone
pub mod Moves
use cs352proxypart.Base.{
  ℕ, zero, suc, ◌+◌, ◌-◌, ◌*◌, ◌/◌, ◌%◌, ◌^◌, Bool, true, false, ◌&&◌, ◌||◌, not, Option, none,
  some, List, [], ◌∷◌, ◌==◌, ltb, if◌then◌else◌,
}
use cs352proxypart.Helper.{minus_one, comp_mac_addrs, comp_mac_zero}
use cs352proxypart.Packets.{Ptr, null, Mac, ProxyInfo, Link, LinkstateNode}
use cs352proxypart.Heap.{Run, ok, out_of_fuel, and_then, Nodes, deref}
use cs352proxypart.State.{
  State, Cmd, pure, ◌>>=◌, ◌>>◌, lift, gets, lock, unlock, gettimeid, load, set_id, set_linkweight,
  set_next, set_head, set_size,
}
use cs352proxypart.State.UtHash.{ProxySocketfd, UtHash}
use cs352proxypart.Sockets.{addsockfd, deletesockfd, find_socketfd, set_sock_fd}

-- `x++` and `x--` of a 32-bit `x`
abbrev pub increment : ℕ → ℕ
increment x = (x + 1) % 2 ^ 32

abbrev pub decrement : ℕ → ℕ
decrement x = (x + (2 ^ 32 - 1)) % 2 ^ 32

unfoldable pub in_member_list_from :
    Nodes → ℕ → Ptr → (local_recv remote_recv : ProxyInfo) → Run Ptr
in_member_list_from h zero p local_recv remote_recv = out_of_fuel
in_member_list_from h (suc fuel) p local_recv remote_recv =
    if p == null
    then ok null
    else and_then (deref h p) λ n.
      let rest = in_member_list_from h fuel n.next local_recv remote_recv in
      if (n.local.ip == remote_recv.ip) && (n.remote.ip == local_recv.ip) then ok p else rest

-- The walk compares `dist`, an `int`, with the unsigned `linkweight`: its pattern counts.
unfoldable pub lowest_from : Nodes → ℕ → Ptr → Mac → (dist : ℕ) → Run ℕ
lowest_from h zero p mac dist = out_of_fuel
lowest_from h (suc fuel) p mac dist =
    if p == null
    then ok dist
    else and_then (deref h p) λ n. lowest_from h fuel n.next mac (
        if (comp_mac_addrs n.remote.macaddr mac == 0) && ltb n.linkweight dist
        then n.linkweight
        else dist)

module _ {T : Type 0} where
  unfoldable pub in_member_list : ℕ → (local_recv remote_recv : ProxyInfo) → Cmd T Ptr
  in_member_list fuel local_recv remote_recv s =
      lift (in_member_list_from s.nodes fuel s.mem_list.head local_recv remote_recv) s

  unfoldable pub get_lowest_saved_distance : ℕ → Mac → Cmd T ℕ
  get_lowest_saved_distance fuel mac s =
      lift (lowest_from s.nodes fuel s.mem_list.head mac minus_one) s

  -- `ptr->next = temp; …; mem_list->head = ptr; mem_list->head->ID = gettimeid();
  -- mem_list->size++;` with the line in between as `weigh`
  unfoldable pub link_in_front : Ptr → Cmd T (Unit {0}) → Cmd T (Unit {0})
  link_in_front ptr weigh = do
    temp ← gets λ s. s.mem_list.head
    set_next ptr temp
    weigh
    set_head ptr
    time ← gettimeid
    set_id ptr time
    size ← gets λ s. s.mem_list.size
    set_size (increment size)

module _ {T : Type 0} (u : UtHash T) where
  -- The `while` loop, at `curr` with `prev` behind it. The body of the `if` ends with `break`.
  unfoldable pub delete_from : ℕ → Ptr → (prev curr : Ptr) → Cmd T (Unit {0})
  delete_from zero link prev curr = λ s. out_of_fuel
  delete_from (suc fuel) link prev curr = if curr == null then pure tt else do
    c ← load curr
    l ← load link
    if comp_mac_addrs c.remote.macaddr l.remote.macaddr == 0
        then (do
          deletesockfd u c.remote.macaddr
          if prev == null then set_head c.next else set_next prev c.next
          size ← gets λ s. s.mem_list.size
          set_size (decrement size))
        else delete_from fuel link curr c.next

  unfoldable pub delete_members : ℕ → Ptr → Cmd T (Unit {0})
  delete_members fuel link = do head ← gets λ s. s.mem_list.head; delete_from fuel link null head

  -- The branch of `add_member_connect` for an address that has no socket.
  unfoldable pub connect_new : ℕ → Ptr → LinkstateNode → ℕ → Cmd T (Unit {0})
  connect_new fuel recv_node n gateway = do
    me ← gets λ s. s.my_proxy_info
    if not (comp_mac_zero n.remote.macaddr == 0)
          || (comp_mac_addrs n.remote.macaddr me.macaddr == 0)
        then (do
          finder ← in_member_list fuel n.local n.remote
          if finder == null then pure tt else (do time ← gettimeid; set_id finder time)
          unlock)
        else (do
          addsockfd u n.remote.macaddr gateway
          link_in_front recv_node (set_linkweight recv_node (increment n.linkweight))
          unlock)

  -- The branch for an address that has the socket `e`.
  unfoldable pub connect_known : ℕ → Ptr → LinkstateNode → ProxySocketfd → ℕ → Cmd T (Unit {0})
  connect_known fuel recv_node n e gateway = do
    finder ← in_member_list fuel n.local n.remote
    if finder == null
        then (do
          dist ← get_lowest_saved_distance fuel n.local.macaddr
          save_dist ← get_lowest_saved_distance fuel n.remote.macaddr
          link_in_front recv_node (set_linkweight recv_node ((n.linkweight + dist) % 2 ^ 32))
          if ltb ((n.linkweight + dist) % 2 ^ 32) save_dist
              then set_sock_fd u n.remote.macaddr e gateway
              else pure tt
          unlock)
        else unlock

  unfoldable pub add_member_connect : ℕ → Ptr → ℕ → Cmd T (Unit {0})
  add_member_connect fuel recv_node gateway = do
    lock
    n ← load recv_node
    pkt_sockfd ← find_socketfd u n.remote.macaddr
    elim pkt_sockfd [
      | none ↦ connect_new fuel recv_node n gateway
      | some e ↦ connect_known fuel recv_node n e gateway
    ]

  -- The walk of `add_members` takes one unit of fuel for each node, and the walks in
  -- `add_member_connect` take `depth`.
  unfoldable pub add_members : ℕ → (depth : ℕ) → Ptr → ℕ → Cmd T (Unit {0})
  add_members zero depth ptr gateway = λ s. out_of_fuel
  add_members (suc fuel) depth ptr gateway = if ptr == null then pure tt else do
    add_member_connect depth ptr gateway
    n ← load ptr
    add_members fuel depth n.next gateway

-- `(time - id) > micro_timeout`, in `double`s that hold all these numbers exactly (times in
-- milliseconds stay below 2 ^ 53). `micro_timeout` is an `int`.
unfoldable pub is_expired : (time micro_timeout id : ℕ) → Bool
is_expired time micro_timeout id =
    if ltb micro_timeout (2 ^ 31)
    then ltb (id + micro_timeout) time
    else ltb id (time + (2 ^ 32 - micro_timeout))

module _ {T : Type 0} (u : UtHash T) where
  unfoldable pub remove_expired_from :
      ℕ → (depth : ℕ) → (time micro_timeout : ℕ) → Ptr → Cmd T (Unit {0})
  remove_expired_from zero depth time micro_timeout ptr = λ s. out_of_fuel
  remove_expired_from (suc fuel) depth time micro_timeout ptr = if ptr == null then pure tt else do
    n ← load ptr
    if is_expired time micro_timeout n.id then delete_members u depth ptr else pure tt
    remove_expired_from fuel depth time micro_timeout n.next

  -- `int micro_timeout = link_timeout*1000`
  unfoldable pub remove_expired_members : ℕ → (link_timeout : ℕ) → Cmd T (Unit {0})
  remove_expired_members fuel link_timeout = do
    lock
    head ← gets λ s. s.mem_list.head
    time ← gettimeid
    remove_expired_from fuel fuel time (link_timeout * 1000 % 2 ^ 32) head
    unlock
