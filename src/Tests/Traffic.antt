-- ===== src/Tests/Traffic.antt =====
-- The threads of the proxy on the example.
use cs352proxypart.Base.{
  ◌≢◌, none, ℕ, ◌+◌, ◌/◌, ◌<◌, ◌≡◌, ◌≢◌, refl, ap, ◌==◌, if◌then◌else◌, true, false, Option, none,
  some, [], ◌∷◌, ◌++◌, arith, length, drop, take, suc, zero,
}
use cs352proxypart.Memory.{Bytes}
use cs352proxypart.Packets.{Ptr, null, LinkstateNode, node, LinkstatePkt}
use cs352proxypart.Heap.{ok, fault, and_then}
use cs352proxypart.Heap.Cells.{Entries, has, Cells}
use cs352proxypart.Linkstate.{num_nodes}
use cs352proxypart.Linkstate.Write.{AllLinks, wire_links, wire_preamble}
use cs352proxypart.Links.{create_link_packet, send_packets}
use cs352proxypart.Links.Count.{link_packet, num_nodes-create_link_packet}
use cs352proxypart.Links.Flood.{to_all, send_packets-to_all, send_packets-fault}
use cs352proxypart.State.{State}
use cs352proxypart.Handlers.{tap_packet, tap_handle, tcp_handle}
use cs352proxypart.Handlers.Broadcast.{tap_handle-to_all, tap_handle-failed}
use cs352proxypart.Handlers.Data.{wire_data, tcp_handle-tap_packet}
use cs352proxypart.Members.Connect.{IsMemList}
use cs352proxypart.Packets.{ProxyInfo}
use cs352proxypart.Heap.{deref, Nodes, exited}
use cs352proxypart.Linkstate.Single.{single}
use cs352proxypart.Links.{connecttohost}
use cs352proxypart.Links.Greeting.{peer_link, connecttohost-single}
use cs352proxypart.Handlers.Answer.{answer_link, answered}
use cs352proxypart.Handlers.Greeting.{tcp_handle-single}
use cs352proxypart.Handlers.Dispatch.{tcp_handle-farewell}
use cs352proxypart.Codec.{hton_leave, hton_quit}
use cs352proxypart.Tests.Bytes.{leave_pkt, quit_pkt}
use cs352proxypart.Sockets.{cstring, terminated, key_of}
use cs352proxypart.State.UtHash.{key_eq}
use cs352proxypart.Tests.Table.{Table, table}
use cs352proxypart.Tests.Example.{
  mac, link_to, info-IsProxyInfo, start_time, old_link, young_link, entries, nodes, socket, filler,
  length-filler, start, start_list, info, link_to-IsLink,
}

-- A frame from the tap device.
abbrev frame : Bytes
frame = 69 ∷ 0 ∷ 255 ∷ []

tcp_handle-tap_packet_example :
    and_then
      (tap_packet false (some frame))
      (λ packet. tcp_handle table true 9 99 [] 12 (some packet) start)
    ≡ ok (tt, record start { sent = start.sent ++ record { fd = 5; bytes = frame } ∷ [] })
tcp_handle-tap_packet_example =
    tcp_handle-tap_packet table false true 9 99 [] 12 start frame (omega arith)

tap_handle-failed_example :
    (three : Bytes) × (length three ≡ 3)
    × (tap_handle table false none start
        ≡ ok (tt, record start { sent = start.sent ++ to_all three (socket 2 ∷ socket 3 ∷ []) }))
    × (tcp_handle table true 9 99 [] 12 (some three) start ≡ fault)
tap_handle-failed_example = tap_handle-failed table table false true 9 99 [] 12 start start

num_nodes-create_link_packet_example :
    (pkt : LinkstatePkt) × (create_link_packet start ≡ ok (some pkt, start))
    × (pkt.num_neighbors ≡ 2)
    × (num_nodes pkt.head.length ≡ 2 + 2 / 9)
num_nodes-create_link_packet_example =
    num_nodes-create_link_packet start (omega arith) (omega arith) (omega arith)

links_in_range : AllLinks entries
links_in_range = (
  link_to-IsLink 1 2 1 20000 (omega arith) (omega arith) (omega arith) (omega arith),
  (link_to-IsLink 1 3 1 95000 (omega arith) (omega arith) (omega arith) (omega arith), tt),
)

send_packets-to_all_example :
    send_packets table true 9 (filler 2052) start
    ≡ ok (
      tt,
      record start {
        sent =
            start.sent
            ++ to_all
                ((wire_preamble (link_packet start).head 2 (info 1) ++ wire_links entries)
                  ++ take 8 (drop 90 (filler 2052)))
                (socket 2 ∷ socket 3 ∷ []);
      },
    )
send_packets-to_all_example =
    send_packets-to_all table true 9 (filler 2052) start 1 old_link ((2, young_link) ∷ [])
      start_list links_in_range (omega arith) (length-filler 2052) (omega arith)

-- A list of `k` nodes at the addresses from `p` on.
abbrev row : (k p : ℕ) → Entries
row zero p = []
row (suc k) p = (p, young_link) ∷ row k (suc p)

length-row : (k p : ℕ) → length (row k p) ≡ k
length-row zero p = refl
length-row (suc k) p = ap suc (length-row k (suc p))

row_fresh : (k p a : ℕ) → a < p → has a (row k p) ≡ false
row_fresh zero p a lt = refl
row_fresh (suc k) p a lt = ground (arith, row_fresh k (suc p) a)

-- 51 nodes in a row.
abbrev crowd_cell : Ptr → Option LinkstateNode
crowd_cell p = if p == 51 then some (node young_link null) else some (node young_link (suc p))

row-Cells : (k p : ℕ) → p ≢ null → p + k ≡ 52 → Cells crowd_cell null (row k p)
row-Cells zero p ne e = tt
row-Cells (suc zero) p ne e = (ne, ground arith, refl, tt)
row-Cells (suc (suc k)) p ne e = (
  ne,
  ground arith,
  row_fresh (suc k) (suc p) p (omega arith),
  row-Cells (suc k) (suc p) (omega arith) (omega arith),
)

row_links : (k p : ℕ) → AllLinks (row k p)
row_links zero p = tt
row_links (suc k) p = (
  link_to-IsLink 1 3 1 95000 (omega arith) (omega arith) (omega arith) (omega arith),
  row_links k (suc p),
)

abbrev crowded : State Table
crowded = record start {
  nodes = record nodes { cell = crowd_cell };
  mem_list = record { head = 1; size = 51 };
}

crowded_list : IsMemList crowded ((1, young_link) ∷ row 50 2)
crowded_list = record {
  head = refl;
  cells = row-Cells 51 1 (omega arith) refl;
  size = omega (arith, length-row 50 2);
}

send_packets-fault_example : send_packets table true 60 (filler 2052) crowded ≡ fault
send_packets-fault_example =
    send_packets-fault table true 60 (filler 2052) crowded 1 young_link (row 50 2) crowded_list
      (row_links 51 1) (omega (arith, length-row 50 2)) (length-filler 2052) (socket 2)
      (socket 3 ∷ []) (omega (arith, length-row 50 2)) (omega (arith, length-row 50 2)) refl

-- The peer as `connecttohost` knows it.
abbrev dialed : ProxyInfo
dialed = record { ip = 3232235524; portno = 40000; macaddr = mac 99 }

connecttohost-single_example :
    (h : Nodes) × (connecttohost true 9
        (filler 2052)
        (record {
          socket_fd = some 14;
          s_addr = some 3232235524;
          connects = true;
          junk_mac = mac 99;
        })
        40000
        start
      ≡ ok (
        14,
        record start {
          nodes = h;
          readings = 1;
          sent =
              start.sent
              ++ record { fd = 14; bytes = single 1 start.my_proxy_info (peer_link start dialed) }
                ∷ [];
        },
      ))
    × ((b : Ptr) → b < 5 → h.cell b ≡ start.nodes.cell b)
    × (h.next_free ≡ 6)
    × (h.cell 5 ≡ none)
connecttohost-single_example =
    connecttohost-single true 9 (filler 2052) start (info-IsProxyInfo 1 (omega arith))
      (omega (arith, start_time)) (omega arith) (omega arith) (omega (arith, length-filler 2052)) 14
      3232235524 40000 (mac 99) (omega arith)

absent_stranger : table.find start.socketfds (key_of (mac 4)) ≡ none
unfolding cstring terminated key_eq
absent_stranger = refl

tcp_handle-single_example :
    (h : Nodes) × (tcp_handle table false 9 99
        (filler 2052)
        13
        (some (single 1 (info 4) (link_to 4 1 1 7)))
        start
      ≡ ok (tt, answered table 13 (info 4) (link_to 4 1 1 7) start 6 h))
    × (deref h 6 ≡ ok (node (answer_link (info 4) (link_to 4 1 1 7) start) null))
    × (h.next_free ≡ 7)
tcp_handle-single_example =
    tcp_handle-single table false 9 99 (filler 2052) 13 (info 4) (link_to 4 1 1 7) start
      (omega arith) (omega (arith, length-filler 2052)) (info-IsProxyInfo 4 (omega arith))
      (link_to-IsLink 4 1 1 7 (omega arith) (omega arith) (omega arith) (omega arith))
      (λ e. ground (arith, e)) absent_stranger refl (omega arith) (info-IsProxyInfo 1 (omega arith))
      (omega (arith, start_time))

tcp_handle-farewell_example :
    (b c : Bytes) × (hton_leave true leave_pkt (filler 2052) ≡ some b)
    × (tcp_handle table false 9 99 [] 13 (some (take 24 b)) start ≡ ok (tt, start))
    × (hton_quit true quit_pkt (filler 2052) ≡ some c)
    × (tcp_handle table false 9 99 [] 13 (some (take 24 c)) start ≡ exited)
tcp_handle-farewell_example =
    tcp_handle-farewell table true false 9 99 [] 13 start leave_pkt quit_pkt (filler 2052) refl refl
      (omega arith) (omega arith) (omega (arith, length-filler 2052))

tap_handle-to_all_example :
    tap_handle table true (some frame) start
    ≡ ok (
      tt,
      record start { sent = start.sent ++ to_all (wire_data 3 frame) (socket 2 ∷ socket 3 ∷ []) },
    )
tap_handle-to_all_example = tap_handle-to_all table true start frame (omega arith)
