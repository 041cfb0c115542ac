-- ===== src/Tests/Bytes.antt =====
-- Packets, addresses and integers, on concrete values.
use cs352proxypart.Base.{
  ℕ, ◌<◌, ◌≡◌, refl, true, false, none, some, [], ◌∷◌, ◌++◌, arith, length, drop,
}
use cs352proxypart.Memory.{Bytes, hton}
use cs352proxypart.Packets.{Ptr, null, Mac, LeavePkt, QuitPkt, LinkstatePkt, PktHeader}
use cs352proxypart.Packets.Ranges.{IsPktHeader}
use cs352proxypart.Helper.{htonll}
use cs352proxypart.Helper.Swap.{htonll-hton}
use cs352proxypart.Codec.{hton_leave, ntoh_leave}
use cs352proxypart.Codec.RoundTrip.{ntoh_leave-hton_leave}
use cs352proxypart.Heap.{ok, Nodes}
use cs352proxypart.Heap.Cells.{Cells}
use cs352proxypart.Linkstate.{hton_linkstate, ntoh_linkstate, num_nodes}
use cs352proxypart.Linkstate.Write.{wire_preamble, wire_links, AllLinks, hton_linkstate-wire}
use cs352proxypart.Linkstate.Read.{placed, end_of}
use cs352proxypart.Linkstate.RoundTrip.{IsSendable, ntoh_linkstate-hton_linkstate}
use cs352proxypart.State.UtHash.{ProxySocketfd, key_eq}
use cs352proxypart.Sockets.{key_of, cstring, terminated, addsockfd, find_socketfd, deletesockfd}
use cs352proxypart.Sockets.Keys.{zero_here, same, addsockfd-shared}
use cs352proxypart.Tests.Table.{Table, table}
use cs352proxypart.State.{State}
use cs352proxypart.Tests.Example.{
  mac, info, old_link, young_link, entries, nodes, socket, filler, length-filler, start,
  start-Cells, info-IsProxyInfo, link_to-IsLink,
}

abbrev header : ℕ → ℕ → PktHeader
header t n = record { type = t; length = n }

header-IsPktHeader : (t n : ℕ) → t < 65536 → n < 65536 → IsPktHeader (header t n)
header-IsPktHeader t n a b = omega (arith, a, b)

abbrev pub leave_pkt : LeavePkt
leave_pkt = record { head = header 0xAB01 20; local = info 2; id = 95000 }

abbrev pub quit_pkt : QuitPkt
quit_pkt = record { head = header 0xAB12 20; local = info 2; id = 95000 }

ntoh_leave-hton_leave_example :
    (b : Bytes) × (hton_leave false leave_pkt (filler 2052) ≡ some b)
    × (ntoh_leave false b ≡ some leave_pkt)
    × (length b ≡ length (filler 2052))
    × (drop 24 b ≡ drop 24 (filler 2052))
ntoh_leave-hton_leave_example =
    ntoh_leave-hton_leave false leave_pkt (filler 2052)
      (header-IsPktHeader 0xAB01 20 (omega arith) (omega arith)) (info-IsProxyInfo 2 (omega arith))
      (omega arith) (omega (arith, length-filler 2052))

htonll-hton_example : htonll false 95000 ≡ hton false 8 95000
htonll-hton_example = htonll-hton false 95000 (omega arith)

-- Two addresses that differ behind a zero byte.
abbrev zeroed : ℕ → Mac
zeroed n = record { m0 = 2; m1 = 3; m2 = 0; m3 = 4; m4 = 5; m5 = n }

no_zeroed : table.find start.socketfds (key_of (zeroed 1)) ≡ none
unfolding cstring terminated key_eq
no_zeroed = refl

addsockfd-shared_example :
    let e : ProxySocketfd = record { macaddr = 2 ∷ 3 ∷ 0 ∷ 4 ∷ 5 ∷ 1 ∷ 0 ∷ []; sock_fd = 9 } in
    (s1 s2 : State Table) × (addsockfd table (zeroed 1) 9 start ≡ ok (tt, s1))
    × (find_socketfd table (zeroed 2) s1 ≡ ok (some e, s1))
    × (deletesockfd table (zeroed 2) s1 ≡ ok (tt, s2))
    × (find_socketfd table (zeroed 1) s2 ≡ ok (none, s2))
addsockfd-shared_example =
    addsockfd-shared table start (zeroed 1) (zeroed 2) 9 (same (same zero_here)) no_zeroed

absent_4 : table.find start.socketfds (key_of (mac 4)) ≡ none
unfolding cstring terminated key_eq
absent_4 = refl

present_3 : table.find start.socketfds (key_of (mac 3)) ≡ some (socket 3)
unfolding cstring terminated key_eq
present_3 = refl

abbrev link_pkt : LinkstatePkt
link_pkt = record { head = header 0xABAC 94; num_neighbors = 2; source = info 1; list = 1 }

all_links : AllLinks entries
all_links = (
  link_to-IsLink 1 2 1 20000 (omega arith) (omega arith) (omega arith) (omega arith),
  (link_to-IsLink 1 3 1 95000 (omega arith) (omega arith) (omega arith) (omega arith), tt),
)

two_nodes : num_nodes 94 ≡ 2
two_nodes = omega arith

link_pkt-IsSendable : IsSendable nodes link_pkt entries
link_pkt-IsSendable = record {
  head = header-IsPktHeader 0xABAC 94 (omega arith) (omega arith);
  num_neighbors = omega arith;
  source = info-IsProxyInfo 1 (omega arith);
  list = refl;
  cells = start-Cells;
  ranges = all_links;
  count = two_nodes;
}

ntoh_linkstate-hton_linkstate_example :
    (b : Bytes) × (k' : Nodes) × (hton_linkstate false nodes 9 link_pkt (filler 2052) ≡ ok b)
    × (ntoh_linkstate true 99 b nodes ≡ ok (record link_pkt { list = 5 }, k'))
    × Cells k'.cell
        (end_of nodes.junk 6 null (young_link ∷ []))
        (placed 5 (old_link ∷ young_link ∷ []))
    × ((a : Ptr) → a < 5 → k'.cell a ≡ nodes.cell a)
ntoh_linkstate-hton_linkstate_example =
    ntoh_linkstate-hton_linkstate false true nodes nodes link_pkt 1 old_link ((2, young_link) ∷ [])
      (filler 2052) 9 99 link_pkt-IsSendable (omega arith) (omega (arith, length-filler 2052))
      (omega arith)

hton_linkstate-wire_example :
    hton_linkstate false nodes 9 link_pkt (filler 2052)
    ≡ ok (
        (wire_preamble (header 0xABAC 94) 2 (info 1) ++ wire_links entries)
        ++ drop 90 (filler 2052))
hton_linkstate-wire_example =
    hton_linkstate-wire false nodes 9 link_pkt entries (filler 2052) refl start-Cells all_links
      (omega arith) (omega (arith, length-filler 2052))
