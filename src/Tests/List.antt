-- ===== src/Tests/List.antt =====
-- The membership list on the example.
use cs352proxypart.Base.{
  ◌≡◌, ◌==◌, refl, true, false, Option, some, List, [], ◌∷◌, arith, if◌then◌else◌,
}
use cs352proxypart.Packets.{Ptr, null, Link, LinkstateNode, node}
use cs352proxypart.Heap.{ok, fault, deref}
use cs352proxypart.Heap.Cells.{has, Cells}
use cs352proxypart.State.{State, unlock}
use cs352proxypart.State.UtHash.{Key, key_eq}
use cs352proxypart.Sockets.{cstring, terminated, key_of, deletesockfd}
use cs352proxypart.Members.{delete_members, remove_expired_members}
use cs352proxypart.Members.Search.{here}
use cs352proxypart.Members.Connect.{IsMemList, time_of}
use cs352proxypart.Members.Delete.{Erased, later, here, pruned, delete_members-Erased}
use cs352proxypart.Members.Expire.{Distinct, OtherKey, Pruned}
use cs352proxypart.Members.Timeout.{remove_expired_members-Pruned}
use cs352proxypart.Members.Double.{remove_expired_members-fault}
use cs352proxypart.Tests.Table.{Table, table}
use cs352proxypart.Tests.Example.{
  mac, start_time, old_link, young_link, link_to, entries, cell, nodes, socket, start, start-Cells,
  start_list,
}
use cs352proxypart.Tests.Example.{sockets_known, socket_of_2}

keys_differ : Distinct entries
unfolding cstring terminated
keys_differ = ((λ e. ground (arith, e), tt), (tt, tt))

abbrev held : State Table
held = record start { deleterlock = true }

node_at_2 : deref held.nodes 2 ≡ ok (node young_link null)
unfolding deref
node_at_2 = refl

young-Erased : Erased (mac 3) entries ((1, old_link) ∷ [])
young-Erased = later (λ e. ground (arith, e)) (here refl)

held_drops :
    deletesockfd table (mac 3) held
    ≡ ok (
      tt,
      record held { socketfds = table.delete held.socketfds (key_of (mac 3)); deleterlock = true },
    )
unfolding deletesockfd cstring terminated key_eq unlock
held_drops = refl

remove_expired_members-Pruned_example :
    (s' : State Table) × (ys : List (Ptr × Link)) × (remove_expired_members table 9 20 start
      ≡ ok (tt, s'))
    × Pruned table start.socketfds s'.socketfds (time_of start) 20000 entries ys
    × IsMemList s' ys
    × (s'.deleterlock ≡ false)
    × ((j : Key) → OtherKey j entries → table.find s'.socketfds j ≡ table.find start.socketfds j)
    × (s'.sent ≡ [])
remove_expired_members-Pruned_example =
    remove_expired_members-Pruned table 9 20 start entries (omega arith) refl start_list keys_differ
      sockets_known (omega arith)

delete_members-Erased_example :
    (c' : Ptr → Option LinkstateNode) × (delete_members table 9 2 held
      ≡ ok (tt, pruned held (table.delete held.socketfds (key_of (mac 3))) true c' 1))
    × Cells c' null ((1, old_link) ∷ [])
    × ((a : Ptr) → has a entries ≡ false → c' a ≡ cell a)
delete_members-Erased_example =
    delete_members-Erased table held 2 (node young_link null)
      (table.delete held.socketfds (key_of (mac 3))) true node_at_2 held_drops 9 young-Erased refl
      start-Cells (omega arith)

-- A second way to host 2, by host 3, also expired.
abbrev second_way : Link
second_way = link_to 3 2 2 21000

abbrev doubled : State Table
doubled = record start {
  nodes = record nodes {
    cell = λ p. if p == 1 then some (node old_link 2) else some (node second_way null);
  };
}

doubled_list : IsMemList doubled ((1, old_link) ∷ (2, second_way) ∷ [])
doubled_list = record {
  head = refl;
  cells = (omega arith, refl, refl, (omega arith, refl, refl, tt));
  size = refl;
}

remove_expired_members-fault_example : remove_expired_members table 9 20 doubled ≡ fault
remove_expired_members-fault_example =
    remove_expired_members-fault table 9 20 doubled 1 2 old_link second_way (socket 2) (omega arith)
      (omega arith) refl doubled_list refl socket_of_2 (omega (arith, start_time))
      (omega (arith, start_time))
