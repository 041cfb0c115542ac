-- ===== src/Tests/Heartbeat.antt =====
-- Hosts 8 and 9, which know each other.
use cs352proxypart.Base.{ℕ, ◌≡◌, ◌<◌, ◌*◌, refl, true, false, none, some, [], ◌∷◌, arith}
use cs352proxypart.Memory.{Bytes}
use cs352proxypart.Packets.{null, node}
use cs352proxypart.Heap.{ok}
use cs352proxypart.State.{State}
use cs352proxypart.State.UtHash.{key_eq}
use cs352proxypart.Sockets.{cstring, terminated, key_of}
use cs352proxypart.Members.Connect.{time_of}
use cs352proxypart.Links.{send_packets, check_link_time_out}
use cs352proxypart.Handlers.{tcp_handle}
use cs352proxypart.Startup.Peers.{CanGreet}
use cs352proxypart.Network.{Linked, Paired, link_between}
use cs352proxypart.Network.Heartbeat.{Checked, heartbeat-Paired}
use cs352proxypart.Tests.Table.{Table, table}
use cs352proxypart.Tests.Example.{
  mac, info, nodes, socket, start, start_time, info-IsProxyInfo, filler, length-filler,
}

-- Host `n`, which heard of host `m` at second 95.
abbrev paired : (n m : ℕ) → State Table
paired n m = record start {
  nodes = record nodes { cell = λ p. some (node (link_between (info n) (info m) 95000) null) };
  mem_list = record { head = 1; size = 1 };
  socketfds = (2 ∷ 3 ∷ 4 ∷ 5 ∷ 6 ∷ m ∷ [], socket m) ∷ [];
  my_proxy_info = info n;
}

paired-CanGreet : (n m : ℕ) → n < 100 → CanGreet (paired n m)
paired-CanGreet n m h = record {
  own = info-IsProxyInfo n h;
  times = λ k. omega (arith, start_time);
  fresh = omega arith;
}

socket_of_8 :
    table.find (paired 9 8).socketfds (key_of (mac 8))
    ≡ some (record { macaddr = terminated (mac 8); sock_fd = 18 })
unfolding cstring terminated key_eq
socket_of_8 = refl

socket_of_9 :
    table.find (paired 8 9).socketfds (key_of (mac 9))
    ≡ some (record { macaddr = terminated (mac 9); sock_fd = 19 })
unfolding cstring terminated key_eq
socket_of_9 = refl

no_socket_of_8 : table.find (paired 8 9).socketfds (key_of (mac 8)) ≡ none
unfolding cstring terminated key_eq
no_socket_of_8 = refl

no_socket_of_9 : table.find (paired 9 8).socketfds (key_of (mac 9)) ≡ none
unfolding cstring terminated key_eq
no_socket_of_9 = refl

abbrev host_8 : Linked table (paired 8 9) (info 9) 19
host_8 = record {
  entry = 1;
  time = 95000;
  below = omega arith;
  membership = record {
    list = record { head = refl; cells = (omega arith, refl, refl, tt); size = refl };
    sockets = ((_, socket_of_9), tt);
    free = refl;
  };
  socket = socket_of_9;
}

abbrev host_9 : Linked table (paired 9 8) (info 8) 18
host_9 = record {
  entry = 1;
  time = 95000;
  below = omega arith;
  membership = record {
    list = record { head = refl; cells = (omega arith, refl, refl, tt); size = refl };
    sockets = ((_, socket_of_8), tt);
    free = refl;
  };
  socket = socket_of_8;
}

host_8-Paired : Paired table (paired 8 9) (info 9) 19
host_8-Paired = record {
  greet = paired-CanGreet 8 9 (omega arith);
  linked = host_8;
  recent = omega arith;
  own_absent = no_socket_of_8;
}

host_9-Paired : Paired table (paired 9 8) (info 8) 18
host_9-Paired = record {
  greet = paired-CanGreet 9 8 (omega arith);
  linked = host_9;
  recent = omega arith;
  own_absent = no_socket_of_9;
}

heartbeat-Paired_example :
    (bytes : Bytes) × (s1 t1 t2 : State Table) × (send_packets table true 9
        (filler 2052)
        (paired 8 9)
      ≡ ok (tt, s1))
    × (s1.sent ≡ record { fd = 19; bytes = bytes } ∷ [])
    × (tcp_handle table false 9 99 (filler 2052) 18 (some bytes) (paired 9 8) ≡ ok (tt, t1))
    × (t1.sent ≡ [])
    × Paired table s1 t1.my_proxy_info 19
    × (k : Paired table t1 s1.my_proxy_info 18) × (k.linked.time ≡ time_of (paired 9 8))
    × (check_link_time_out table 9 10 t1 ≡ ok (tt, t2))
    × Checked table t1 t2 s1.my_proxy_info k.linked.entry k.linked.time (10 * 1000)
heartbeat-Paired_example =
    heartbeat-Paired table table true false 9 9 99 (filler 2052) (filler 2052) (paired 8 9)
      (paired 9 8) 19 18 (omega arith) (omega arith) (length-filler 2052) host_8-Paired
      host_9-Paired 18 10 (omega arith)
