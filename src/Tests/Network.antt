-- ===== src/Tests/Network.antt =====
-- Two proxies that meet, and a proxy that meets one of several members.
use cs352proxypart.Base.{ℕ, ◌<◌, ◌≡◌, ◌≢◌, refl, true, false, none, some, [], ◌∷◌, ◌++◌, arith}
use cs352proxypart.Memory.{Bytes}
use cs352proxypart.Packets.{Ptr, null}
use cs352proxypart.Members.Connect.{IsMemList}
use cs352proxypart.Heap.{ok}
use cs352proxypart.State.{State}
use cs352proxypart.State.UtHash.{key_eq}
use cs352proxypart.Sockets.{cstring, terminated, key_of}
use cs352proxypart.Links.{connecttohost}
use cs352proxypart.Handlers.{tcp_handle}
use cs352proxypart.Startup.Peers.{CanGreet}
use cs352proxypart.Network.{Paired}
use cs352proxypart.Network.Handshake.{IsAlone, handshake-Paired}
use cs352proxypart.Network.Late.{answer_ignored}
use cs352proxypart.Tests.Table.{Table, table}
use cs352proxypart.Tests.Example.{
  mac, info, entries, start, start-Cells, start_time, info-IsProxyInfo, filler, length-filler,
}

-- A host that has met no other.
abbrev alone : ℕ → State Table
alone n = record start {
  mem_list = record { head = null; size = 0 };
  socketfds = [];
  my_proxy_info = info n;
}

alone-CanGreet : (n : ℕ) → n < 100 → CanGreet (alone n)
alone-CanGreet n h = record {
  own = info-IsProxyInfo n h;
  times = λ k. omega (arith, start_time);
  fresh = omega arith;
}

alone-IsAlone : (n : ℕ) → n < 100 → IsAlone table (alone n)
alone-IsAlone n h = record { greet = alone-CanGreet n h; size = refl; table = refl; free = refl }

keys_differ : key_of (mac 8) ≢ key_of (mac 9)
unfolding cstring terminated
keys_differ = λ e. ground (arith, e)

handshake-Paired_example :
    (s1 s2 t1 t2 : State Table) × (first answer second : Bytes) × (connecttohost true 9
        (filler 2052)
        (record {
          socket_fd = some 14;
          s_addr = some 3232235529;
          connects = true;
          junk_mac = mac 99;
        })
        40000
        (alone 8)
      ≡ ok (14, s1))
    × (s1.sent ≡ record { fd = 14; bytes = first } ∷ [])
    × (tcp_handle table false 9 99 (filler 2052) 15 (some first) (alone 9) ≡ ok (tt, t1))
    × (t1.sent ≡ record { fd = 15; bytes = answer } ∷ [])
    × (tcp_handle table true 9 99 (filler 2052) 14 (some answer) s1 ≡ ok (tt, s2))
    × (s2.sent ≡ s1.sent ++ record { fd = 14; bytes = second } ∷ [])
    × (tcp_handle table false 9 99 (filler 2052) 15 (some second) t1 ≡ ok (tt, t2))
    × (t2.sent ≡ t1.sent)
    × Paired table s2 (info 9) 14
    × Paired table t2 (info 8) 15
handshake-Paired_example =
    handshake-Paired table table true false 9 9 99 99 (filler 2052) (filler 2052) 14 15 (alone 8)
      (alone 9) (omega arith) (omega arith) (omega (arith, length-filler 2052))
      (omega (arith, length-filler 2052)) (alone-IsAlone 8 (omega arith))
      (alone-IsAlone 9 (omega arith)) keys_differ (λ e. ground (arith, e)) 3232235529 40000 (mac 99)
      (omega arith) (λ e. ground (arith, e))

-- The proxy with two members, met by the host 8.
start-CanGreet : CanGreet start
start-CanGreet = record {
  own = info-IsProxyInfo 1 (omega arith);
  times = λ k. omega (arith, start_time);
  fresh = omega arith;
}

no_socket_of_8 : table.find start.socketfds (key_of (mac 8)) ≡ none
unfolding cstring terminated key_eq
no_socket_of_8 = refl

-- Host 8, which knows two others and not host 1.
abbrev joiner : State Table
joiner = record start { my_proxy_info = info 8 }

joiner-CanGreet : CanGreet joiner
joiner-CanGreet = record {
  own = info-IsProxyInfo 8 (omega arith);
  times = λ k. omega (arith, start_time);
  fresh = omega arith;
}

joiner_list : IsMemList joiner entries
joiner_list = record { head = refl; cells = start-Cells; size = refl }

no_socket_of_1 : table.find joiner.socketfds (key_of (mac 1)) ≡ none
unfolding cstring terminated key_eq
no_socket_of_1 = refl

answer_ignored_example :
    (s1 s2 : State Table) × (t1 : State Table) × (first answer : Bytes) × (connecttohost true 9
        (filler 2052)
        (record {
          socket_fd = some 14;
          s_addr = some 3232235521;
          connects = true;
          junk_mac = mac 99;
        })
        40000
        joiner
      ≡ ok (14, s1))
    × (s1.sent ≡ record { fd = 14; bytes = first } ∷ [])
    × (tcp_handle table false 9 99 (filler 2052) 15 (some first) start ≡ ok (tt, t1))
    × (t1.sent ≡ record { fd = 15; bytes = answer } ∷ [])
    × (tcp_handle table true 9 99 (filler 2052) 14 (some answer) s1 ≡ ok (tt, s2))
    × (s2.sent ≡ s1.sent)
    × ((a : Ptr) → a < 5 → s2.nodes.cell a ≡ joiner.nodes.cell a)
    × (s2.mem_list ≡ record { head = 1; size = 2 })
    × IsMemList s2 entries
    × (s2.socketfds ≡ joiner.socketfds)
    × (table.find s2.socketfds (key_of (mac 1)) ≡ none)
answer_ignored_example =
    answer_ignored table table true false 9 9 99 99 (filler 2052) (filler 2052) 14 15 joiner start
      (omega arith) (omega arith) (omega (arith, length-filler 2052))
      (omega (arith, length-filler 2052)) joiner-CanGreet start-CanGreet refl no_socket_of_1
      no_socket_of_8 (λ e. ground (arith, e)) (omega arith) (omega arith) entries joiner_list
      (omega arith, (omega arith, tt)) 3232235521 40000 (mac 99) (omega arith)
      (λ e. ground (arith, e))
