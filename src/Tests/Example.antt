-- ===== src/Tests/Example.antt =====
-- A proxy with two peers, and a node received from the second.
use cs352proxypart.Base.{
  ℕ, ◌+◌, ◌<◌, ◌≡◌, refl, false, Option, none, some, [], ◌∷◌, arith, ◌==◌, if◌then◌else◌, replicate,
  length, length-replicate,
}
use cs352proxypart.Memory.{Bytes}
use cs352proxypart.Packets.{Ptr, null, Mac, ProxyInfo, Link, LinkstateNode, node}
use cs352proxypart.Packets.Ranges.{IsLink, IsProxyInfo}
use cs352proxypart.Heap.{Nodes}
use cs352proxypart.Heap.Cells.{Entries, Cells}
use cs352proxypart.State.{State}
use cs352proxypart.State.UtHash.{ProxySocketfd}
use cs352proxypart.Helper
use cs352proxypart.Members.Connect.{IsMemList, time_of}
use cs352proxypart.Tests.Table.{Table}
use cs352proxypart.State.UtHash.{key_eq}
use cs352proxypart.Sockets.{cstring, terminated, key_of}
use cs352proxypart.Members.Expire.{HasSockets}
use cs352proxypart.Tests.Table.{table}

abbrev pub mac : ℕ → Mac
mac n = record { m0 = 2; m1 = 3; m2 = 4; m3 = 5; m4 = 6; m5 = n }

abbrev pub info : ℕ → ProxyInfo
info n = record { ip = 3232235520 + n; portno = 40000; macaddr = mac n }

abbrev pub link_to : (from to weight id : ℕ) → Link
link_to from to weight id = record {
  local = info from;
  remote = info to;
  linkweight = weight;
  id = id;
}

-- The proxy is host 1. It heard of host 2 at second 20 and of host 3 at second 95.
abbrev pub old_link : Link
old_link = link_to 1 2 1 20000

abbrev pub young_link : Link
young_link = link_to 1 3 1 95000

-- Host 3 tells of host 4, and of host 2.
abbrev pub far_link : Link
far_link = link_to 3 4 1 7

abbrev pub other_link : Link
other_link = link_to 3 2 1 7

abbrev pub entries : Entries
entries = (1, old_link) ∷ (2, young_link) ∷ []

abbrev pub cell : Ptr → Option LinkstateNode
cell p =
    if p == 1
    then some (node old_link 2)
    else if p == 2
    then some (node young_link null)
    else if p == 3
    then some (node far_link null)
    else if p == 4
    then some (node other_link null)
    else none

abbrev pub nodes : Nodes
nodes = record { next_free = 5; cell = cell; junk = λ p. node far_link 77 }

abbrev pub socket : ℕ → ProxySocketfd
socket n = record { macaddr = 2 ∷ 3 ∷ 4 ∷ 5 ∷ 6 ∷ n ∷ 0 ∷ []; sock_fd = 10 + n }

-- It is second 100.
abbrev pub start : State Table
start = record {
  nodes = nodes;
  mem_list = record { head = 1; size = 2 };
  socketfds = (2 ∷ 3 ∷ 4 ∷ 5 ∷ 6 ∷ 2 ∷ [], socket 2) ∷ (2 ∷ 3 ∷ 4 ∷ 5 ∷ 6 ∷ 3 ∷ [], socket 3) ∷ [];
  my_proxy_info = info 1;
  deleterlock = false;
  tap_fd = 5;
  clock = λ n. record { tv_sec = 100; tv_usec = 0 };
  readings = 0;
  sent = [];
}

pub start_time : time_of start ≡ 100000
unfolding Helper.gettimeid
start_time = refl

pub start-Cells : Cells cell null entries
start-Cells = (omega arith, refl, refl, (omega arith, refl, refl, tt))

pub start_list : IsMemList start entries
start_list = record { head = refl; cells = start-Cells; size = refl }

pub info-IsProxyInfo : (n : ℕ) → n < 100 → IsProxyInfo (info n)
info-IsProxyInfo n h = omega arith

pub link_to-IsLink :
    (from to weight id : ℕ)
    → from < 100
    → to < 100
    → weight < 100
    → id < 100000
    → IsLink (link_to from to weight id)
link_to-IsLink from to weight id a b c d = record {
  local = info-IsProxyInfo from a;
  remote = info-IsProxyInfo to b;
  linkweight = omega arith;
  id = omega arith;
}

-- What a buffer on the stack holds before it is written.
abbrev pub filler : ℕ → Bytes
filler n = replicate n 7

pub length-filler : (n : ℕ) → length (filler n) ≡ n
length-filler n = length-replicate n 7

pub sockets_known : HasSockets table start.socketfds entries
unfolding cstring terminated key_eq
sockets_known = ((socket 2, refl), ((socket 3, refl), tt))

pub no_socket_of_4 : table.find start.socketfds (key_of (mac 4)) ≡ none
unfolding cstring terminated key_eq
no_socket_of_4 = refl

pub socket_of_2 : table.find start.socketfds (key_of (mac 2)) ≡ some (socket 2)
unfolding cstring terminated key_eq
socket_of_2 = refl
