-- ===== src/Tests/Growth.antt =====
-- Nodes that come to the membership list of the example.
use cs352proxypart.Base.{
  ◌⊎◌, ◌≢◌, inr, ℕ, ◌+◌, ◌≡◌, ◌==◌, refl, false, none, some, List, [], ◌∷◌, arith, if◌then◌else◌,
  ltb, ◌%◌, ◌^◌,
}
use cs352proxypart.Helper.{minus_one}
use cs352proxypart.Packets.{Ptr, null, LinkstateNode, node}
use cs352proxypart.Heap.{ok, deref}
use cs352proxypart.State.{State}
use cs352proxypart.State.UtHash.{key_eq}
use cs352proxypart.Sockets.{cstring, terminated, key_of}
use cs352proxypart.Members.{increment, add_member_connect}
use cs352proxypart.Members.Search.{FirstReverse, NoReverse, here, Lowest}
use cs352proxypart.Members.Connect.{IsMemList, time_of, weighed, add_member_connect-new}
use cs352proxypart.Members.Known.{add_member_connect-known, add_member_connect-reverse}
use cs352proxypart.Members.Delete.{here}
use cs352proxypart.Members.{add_members}
use cs352proxypart.Heap.{out_of_fuel}
use cs352proxypart.Members.Cycle.{add_members-out_of_fuel}
use cs352proxypart.Members.Mine.{add_member_connect-mine}
use cs352proxypart.State.Laws.{put_node}
use cs352proxypart.Tests.Table.{Table, table}
use cs352proxypart.Tests.Example.{
  mac, info, old_link, far_link, other_link, link_to, entries, cell, nodes, socket, start,
  start_list,
}
use cs352proxypart.Tests.Example.{sockets_known, no_socket_of_4, socket_of_2}
use cs352proxypart.Base.{◌≤◌, length}
use cs352proxypart.Heap.Cells.{Entries}
use cs352proxypart.Members.Kept.{IsMembership}
use cs352proxypart.Members.Invariant.{AreFresh, connect_all, connect_all-IsMembership}

node_at_3 : deref start.nodes 3 ≡ ok (node far_link null)
unfolding deref
node_at_3 = refl

node_at_4 : deref start.nodes 4 ≡ ok (node other_link null)
unfolding deref
node_at_4 = refl

other-NoReverse : NoReverse (info 3) (info 2) entries
other-NoReverse = ((λ (e, f). ground (arith, f)), ((λ (e, f). ground (arith, f)), tt))

-- A list that has the reverse of what host 3 tells.
abbrev mirrored : State Table
mirrored = record start {
  nodes = record nodes {
    cell = λ p. if p == 1 then some (node (link_to 2 3 1 20000) null) else cell p;
  };
  mem_list = record { head = 1; size = 1 };
}

mirrored_list : IsMemList mirrored ((1, link_to 2 3 1 20000) ∷ [])
mirrored_list = record { head = refl; cells = (omega arith, refl, refl, tt); size = refl }

node_of_mirrored : deref mirrored.nodes 4 ≡ ok (node other_link null)
unfolding deref
node_of_mirrored = refl

add_member_connect-new_example :
    (s' : State Table) × (add_member_connect table 9 3 13 start ≡ ok (tt, s'))
    × IsMemList s' ((3, weighed start (node far_link null) (increment 1)) ∷ entries)
    × (table.find s'.socketfds (key_of (mac 4))
        ≡ some (record { macaddr = terminated (mac 4); sock_fd = 13 }))
    × (s'.deleterlock ≡ false)
add_member_connect-new_example =
    add_member_connect-new table 9 start 3 (node far_link null) 13 node_at_3 refl entries
      no_socket_of_4 (λ e. ground (arith, e)) (λ e. ground (arith, e)) start_list refl

-- What host 3 tells of its way to host 2: another way to an address with a socket.
add_member_connect-known_example :
    (dist save : ℕ) × (s' : State Table) × Lowest (mac 3) minus_one entries dist
    × Lowest (mac 2) minus_one entries save
    × (add_member_connect table 9 4 13 start ≡ ok (tt, s'))
    × IsMemList s' ((4, weighed start (node other_link null) ((1 + dist) % 2 ^ 32)) ∷ entries)
    × (table.find s'.socketfds (key_of (mac 2))
        ≡ some (
            if ltb ((1 + dist) % 2 ^ 32) save
            then record (socket 2) { sock_fd = 13 }
            else socket 2))
    × (s'.deleterlock ≡ false)
add_member_connect-known_example =
    add_member_connect-known table 9 start 4 (node other_link null) 13 entries (socket 2) node_at_4
      refl socket_of_2 start_list (omega arith) other-NoReverse refl

add_member_connect-reverse_example : add_member_connect table 9 4 13 mirrored ≡ ok (tt, mirrored)
add_member_connect-reverse_example =
    add_member_connect-reverse table 9 mirrored 4 (node other_link null) 13
      ((1, link_to 2 3 1 20000) ∷ []) (socket 2) node_of_mirrored refl socket_of_2 mirrored_list
      (omega arith) (here (refl, refl))

-- The proxy has heard of host 2 only.
abbrev lone : State Table
lone = record start {
  nodes = record nodes { cell = λ p. if p == 1 then some (node old_link null) else cell p };
  mem_list = record { head = 1; size = 1 };
}

lone_list : IsMemList lone ((1, old_link) ∷ [])
lone_list = record { head = refl; cells = (omega arith, refl, refl, tt); size = refl }

far_in_lone : deref lone.nodes 3 ≡ ok (node far_link null)
unfolding deref
far_in_lone = refl

add_members-out_of_fuel_example : add_members table 1000 9 3 13 lone ≡ out_of_fuel
add_members-out_of_fuel_example =
    add_members-out_of_fuel table 1000 9 lone 3 1 (node far_link null) old_link 13 (socket 2)
      (omega arith) far_in_lone refl no_socket_of_4 (λ e. ground (arith, e))
      (λ e. ground (arith, e)) lone_list (omega arith) socket_of_2 (λ (e, f). ground (arith, e))
      (λ (e, f). ground (arith, e)) (λ (e, f). ground (arith, e)) (λ (e, f). ground (arith, e))

-- What host 2 tells of its way to this host.
abbrev way_back : LinkstateNode
way_back = node (link_to 2 1 1 7) null

abbrev told : State Table
told = record start {
  nodes = record nodes { cell = λ p. if p == 5 then some way_back else cell p };
}

told_list : IsMemList told entries
told_list = record {
  head = refl;
  cells = (omega arith, refl, refl, (omega arith, refl, refl, tt));
  size = refl;
}

no_socket_of_1 : table.find told.socketfds (key_of (mac 1)) ≡ none
unfolding cstring terminated key_eq
no_socket_of_1 = refl

way_back_in_told : deref told.nodes 5 ≡ ok way_back
unfolding deref
way_back_in_told = refl

add_member_connect-mine_example :
    let run = add_member_connect table 9 5 12 told in
    (q : Ptr) × FirstReverse (info 2) (info 1) entries q
    × (((q ≡ null) × (run ≡ ok (tt, told)))
        ⊎ ((q ≢ null)
            × (m : LinkstateNode) × (deref told.nodes q ≡ ok m)
            × (run
                ≡ ok (
                  tt,
                  record (put_node told q (node (record m.link { id = time_of told }) m.next)) {
                    readings = 1;
                  },
                ))))
add_member_connect-mine_example =
    add_member_connect-mine table 9 told 5 way_back 12 entries way_back_in_told refl no_socket_of_1
      (inr refl) told_list (omega arith)

abbrev new_nodes : List (Ptr × ℕ)
new_nodes = (3, 13) ∷ (4, 13) ∷ []

new_nodes-AreFresh : AreFresh start entries new_nodes
unfolding deref
new_nodes-AreFresh = (
  (node far_link null, refl),
  refl,
  (λ e. ground (arith, e), tt),
  ((node other_link null, refl), refl, tt, tt),
)

connect_all-IsMembership_example :
    (s' : State Table) × (connect_all table 9 new_nodes start ≡ ok (tt, s'))
    × (ys : Entries) × IsMembership table s' ys
    × (length ys ≤ length entries + length new_nodes)
connect_all-IsMembership_example =
    connect_all-IsMembership table 9 start entries new_nodes
      (record { list = start_list; sockets = sockets_known; free = refl }) new_nodes-AreFresh
      (omega arith)
