-- ===== src/Tests/Back.antt =====
-- A packet from host 4, which left the address of the other end six zeros.
use cs352proxypart.Base.{◌≡◌, ◌≢◌, refl, false, none, some, [], ◌∷◌, arith}
use cs352proxypart.Packets.{Ptr, Link}
use cs352proxypart.Packets.Ranges.{IsLink}
use cs352proxypart.Helper.MacCompare.{zero_mac}
use cs352proxypart.Heap.{ok}
use cs352proxypart.Helper
use cs352proxypart.Heap.Cells.{Entries}
use cs352proxypart.Linkstate.Single.{single}
use cs352proxypart.State.{State}
use cs352proxypart.State.UtHash.{key_eq}
use cs352proxypart.Sockets.{cstring, terminated, key_of}
use cs352proxypart.Members.Search.{FirstReverse}
use cs352proxypart.Members.Kept.{IsMembership}
use cs352proxypart.Members.Lone.{renewed}
use cs352proxypart.Handlers.{tcp_handle}
use cs352proxypart.Links.Greeting.{peer_link}
use cs352proxypart.Handlers.Back.{tcp_handle-back}
use cs352proxypart.Tests.Table.{Table, table}
use cs352proxypart.Tests.Example.{
  mac, info, entries, start, start_list, sockets_known, no_socket_of_4, info-IsProxyInfo, filler,
}

-- Host 4 knows where this host is, but not its address.
abbrev nameless : Link
nameless = record {
  local = info 4;
  remote = record { ip = 3232235521; portno = 40000; macaddr = zero_mac };
  linkweight = 1;
  id = 7;
}

nameless-IsLink : IsLink nameless
nameless-IsLink = record {
  local = info-IsProxyInfo 4 (omega arith);
  remote = omega arith;
  linkweight = omega arith;
  id = omega arith;
}

start-IsMembership : IsMembership table start entries
start-IsMembership = record { list = start_list; sockets = sockets_known; free = refl }

no_socket_of_zeros : table.find start.socketfds (key_of zero_mac) ≡ none
unfolding cstring terminated key_eq
no_socket_of_zeros = refl

not_zeros : key_of (mac 4) ≢ key_of zero_mac
unfolding cstring terminated
not_zeros = λ e. ground (arith, e)

-- The list with the link to host 4 in front.
abbrev longer : Entries
longer = (6, peer_link start (info 4)) ∷ entries

tcp_handle-back_example :
    (a : Ptr) × FirstReverse (info 4) nameless.remote longer a
    × (s' : State Table) × (tcp_handle table false 9 99
          (filler 2052)
          13
          (some (single 1 (info 4) nameless))
          start
        ≡ ok (tt, s'))
    × IsMembership table s' (renewed a 100000 longer)
    × (table.find s'.socketfds (key_of (mac 4))
        ≡ some (record { macaddr = terminated (mac 4); sock_fd = 13 }))
    × (s'.sent ≡ [])
unfolding Helper.gettimeid
tcp_handle-back_example =
    tcp_handle-back table false 9 (filler 2052) 13 start 1 (info 4) nameless entries
      start-IsMembership no_socket_of_4 (omega arith) (omega arith, (omega arith, tt)) 99
      (info-IsProxyInfo 4 (omega arith)) nameless-IsLink (omega arith) refl no_socket_of_zeros
      not_zeros (omega arith)
