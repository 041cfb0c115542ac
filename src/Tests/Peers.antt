-- ===== src/Tests/Peers.antt =====
-- The loop over two peers, of which one answers.
use cs352proxypart.Base.{ℕ, ◌≡◌, true, false, some, [], ◌∷◌, arith}
use cs352proxypart.Heap.{ok}
use cs352proxypart.State.{State}
use cs352proxypart.Links.{Dial}
use cs352proxypart.Config.{Peer}
use cs352proxypart.Startup.{connect_peers}
use cs352proxypart.Startup.Peers.{IsDial, CanGreet, Greeted, connect_peers-Greeted}
use cs352proxypart.Tests.Table.{Table}
use cs352proxypart.Tests.Example.{mac, start, start_time, info-IsProxyInfo, filler, length-filler}

abbrev peer_at : ℕ → Peer
peer_at n = record { port = 40000; ip = n ∷ [] }

abbrev answers : Dial
answers = record {
  socket_fd = some 14;
  s_addr = some 3232235524;
  connects = true;
  junk_mac = mac 99;
}

abbrev refuses : Dial
refuses = record {
  socket_fd = some 13;
  s_addr = some 3232235523;
  connects = false;
  junk_mac = mac 99;
}

answers-IsDial : IsDial answers
answers-IsDial = ((λ fd e. ground (arith, e)), (λ a e. ground (arith, e)))

refuses-IsDial : IsDial refuses
refuses-IsDial = ((λ fd e. ground (arith, e)), (λ a e. ground (arith, e)))

start-CanGreet : CanGreet start
start-CanGreet = record {
  own = info-IsProxyInfo 1 (omega arith);
  times = λ k. omega (arith, start_time);
  fresh = omega arith;
}

connect_peers-Greeted_example :
    (s' : State Table) × (connect_peers true 9
        (filler 2052)
        ((peer_at 49, refuses) ∷ (peer_at 50, answers) ∷ [])
        start
      ≡ ok (14 ∷ [], s'))
    × Greeted start s' (14 ∷ [])
connect_peers-Greeted_example =
    connect_peers-Greeted true 9 (filler 2052) (omega arith) (omega (arith, length-filler 2052))
      ((peer_at 49, refuses) ∷ (peer_at 50, answers) ∷ []) start start-CanGreet
      (refuses-IsDial, (answers-IsDial, tt))
