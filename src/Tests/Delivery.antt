-- ===== src/Tests/Delivery.antt =====
-- The list of the example on its way to another host.
use cs352proxypart.Base.{◌≡◌, ◌<◌, refl, true, false, some, [], ◌∷◌, ◌++◌, arith}
use cs352proxypart.Memory.{Bytes}
use cs352proxypart.Packets.{Ptr}
use cs352proxypart.Heap.{ok, Nodes}
use cs352proxypart.Members.Connect.{IsMemList}
use cs352proxypart.State.{State}
use cs352proxypart.State.UtHash.{key_eq}
use cs352proxypart.Linkstate.Write.{AllLinks}
use cs352proxypart.Sockets.{cstring, terminated, key_of}
use cs352proxypart.Members.{add_members}
use cs352proxypart.Links.{send_packets}
use cs352proxypart.Links.Flood.{to_all}
use cs352proxypart.Handlers.{tcp_handle}
use cs352proxypart.Handlers.Delivery.{tcp_handle-send_packets}
use cs352proxypart.Handlers.Packet.{Received}
use cs352proxypart.Network.Unheard.{send_packets-ignored}
use cs352proxypart.Tests.Table.{Table, table}
use cs352proxypart.Tests.Example.{
  mac, info, info-IsProxyInfo, old_link, young_link, entries, socket, start, start-Cells,
  start_list, link_to-IsLink, filler, length-filler,
}

-- A host with a socket for the host of the example.
abbrev neighbour : State Table
neighbour = record start {
  socketfds = (2 ∷ 3 ∷ 4 ∷ 5 ∷ 6 ∷ 1 ∷ [], socket 1) ∷ [];
  my_proxy_info = info 2;
}

socket_of_1 : table.find neighbour.socketfds (key_of (mac 1)) ≡ some (socket 1)
unfolding cstring terminated key_eq
socket_of_1 = refl

in_range : AllLinks entries
in_range = (
  link_to-IsLink 1 2 1 20000 (omega arith) (omega arith) (omega arith) (omega arith),
  (link_to-IsLink 1 3 1 95000 (omega arith) (omega arith) (omega arith) (omega arith), tt),
)

tcp_handle-send_packets_example :
    (bytes : Bytes) × (h : Nodes) × (send_packets table true 9 (filler 2052) start
      ≡ ok (tt, record start { sent = start.sent ++ to_all bytes (socket 2 ∷ socket 3 ∷ []) }))
    × (tcp_handle table false 9 99 (filler 2052) 11 (some bytes) neighbour
        ≡ add_members table 9 9 5 11 (record neighbour { nodes = h }))
    × Received neighbour.nodes h (old_link ∷ young_link ∷ [])
tcp_handle-send_packets_example =
    tcp_handle-send_packets table table true false 9 9 99 (filler 2052) (filler 2052) start
      neighbour 1 old_link ((2, young_link) ∷ []) start_list (omega arith) in_range
      (info-IsProxyInfo 1 (omega arith)) 11 (socket 1) (omega arith) (length-filler 2052)
      socket_of_1 (omega arith)

-- A host with no sockets.
abbrev stranger : State Table
stranger = record start { socketfds = []; my_proxy_info = info 7 }

stranger_list : IsMemList stranger entries
stranger_list = record { head = refl; cells = start-Cells; size = refl }

send_packets-ignored_example :
    (bytes : Bytes) × (h : Nodes) × (send_packets table true 9 (filler 2052) start
      ≡ ok (tt, record start { sent = start.sent ++ to_all bytes (socket 2 ∷ socket 3 ∷ []) }))
    × (tcp_handle table false 9 99 (filler 2052) 11 (some bytes) stranger
        ≡ ok (tt, record stranger { nodes = h }))
    × ((a : Ptr) → a < 5 → h.cell a ≡ stranger.nodes.cell a)
    × IsMemList (record stranger { nodes = h }) entries
    × (5 < h.next_free)
send_packets-ignored_example =
    send_packets-ignored table table true false 9 9 99 (filler 2052) (filler 2052) start stranger 1
      old_link ((2, young_link) ∷ []) start_list (omega arith) (omega arith) in_range
      (info-IsProxyInfo 1 (omega arith)) (λ e. ground (arith, e)) entries stranger_list
      (omega arith, (omega arith, tt)) 11 (omega arith) (length-filler 2052) refl (omega arith)
