-- ===== src/Tests/Startup.antt =====
-- The start of the proxy, and its worker threads.
use cs352proxypart.Base.{
  ℕ, ◌≡◌, refl, true, some, Option, List, ◌<◌, [], ◌∷◌, ◌++◌, arith, length, drop, All,
}
use cs352proxypart.Helper.{minus_one}
use cs352proxypart.Packets.{mac_bytes}
use cs352proxypart.Packets.Ranges.{IsMac}
use cs352proxypart.Heap.{ok, fault}
use cs352proxypart.Text.{codes}
use cs352proxypart.Tunnel.{allocate_tunnel}
use cs352proxypart.Tunnel.Address.{address_line, allocate_tunnel-address}
use cs352proxypart.Startup.{Host, InetAton, main}
use cs352proxypart.Startup.Overrun.{main-fault}
use cs352proxypart.Config.Directives.{Directive, tap_device, body, render}
use cs352proxypart.Startup.Workers.{Reach}
use cs352proxypart.Startup.Workers.Race.{idle, Holds, Reach-Holds, Reach-race}
use cs352proxypart.Tests.Example.{mac, info, filler, length-filler}
use cs352proxypart.Tests.Config.{peers, unset, tap0-IsWord}

mac_9-IsMac : IsMac (mac 9)
mac_9-IsMac = omega arith

allocate_tunnel-address_example :
    allocate_tunnel
      (record {
        fd = some 5;
        configured = true;
        ifr_name = codes "tap0";
        address = some (address_line (mac_bytes (mac 9)));
      })
      (codes "tap0" ++ 0 ∷ [])
      (mac 1)
    ≡ ok (5, (codes "tap0" ++ 0 ∷ []) ++ drop 5 (codes "tap0" ++ 0 ∷ []), mac 9)
allocate_tunnel-address_example =
    allocate_tunnel-address 5 (codes "tap0") (codes "tap0" ++ 0 ∷ []) (mac 9) (mac 1) mac_9-IsMac
      (omega arith)

abbrev tap_line : List Directive
tap_line = tap_device (codes "tap0") ∷ []

abbrev host : Host
host = record {
  mutex_made = true;
  file = some (render tap_line);
  tun = record {
    fd = some 5;
    configured = true;
    ifr_name = codes "tap0";
    address = some (address_line (mac_bytes (mac 9)));
  };
  address = some (codes "10.0.0.1");
  server_fd = some 6;
}

-- An `inet_aton` that knows one address.
abbrev one_address : InetAton
one_address text = some 16777226

tap_line_short : length (body (tap_device (codes "tap0"))) < 2047
unfolding body
tap_line_short = omega arith

main-fault_example :
    main peers one_address host (info 1) (filler 4) 99 unset (codes "conf" ∷ []) ≡ fault
main-fault_example =
    main-fault peers one_address host (info 1) (filler 4) (codes "10.0.0.1") (length-filler 4) refl
      (omega arith) 99 unset (codes "conf") tap_line (codes "tap0") (codes "tap0") 5 (mac 9) refl
      refl (tap0-IsWord, tt) (tap_line_short, tt) (omega arith) refl refl mac_9-IsMac (omega arith)
      (omega arith)

-- One connection, whose thread begins after `accept` failed.
late_thread : Reach (idle 0) (8 ∷ []) (record { connfd = minus_one; workers = some minus_one ∷ [] })
late_thread = (Reach-race 0 8 9 (omega arith) (omega arith)).2

Reach-Holds_example :
    (length {A = Option ℕ} (some minus_one ∷ []) ≡ length {A = ℕ} (8 ∷ []))
    × All (Holds (8 ∷ [])) (some minus_one ∷ [])
Reach-Holds_example = Reach-Holds late_thread

Reach-race_example :
    Reach (idle 0) (8 ∷ 9 ∷ []) (record { connfd = 9; workers = some 8 ∷ some 9 ∷ [] })
    × Reach (idle 0) (8 ∷ 9 ∷ []) (record { connfd = 9; workers = some 9 ∷ some 9 ∷ [] })
    × Reach (idle 0) (8 ∷ []) (record { connfd = minus_one; workers = some minus_one ∷ [] })
Reach-race_example = Reach-race 0 8 9 (omega arith) (omega arith)
