-- ===== src/Network/Answer.antt =====
-- The first packet of a peer, in a proxy with an empty list.
use cs352proxypart.Base.{
  ℕ, suc, ◌≤◌, ◌<◌, ◌≡◌, ◌≢◌, refl, ◌∙◌, Bool, false, none, some, [], ◌∷◌, ◌++◌, arith, length,
}
use cs352proxypart.Helper.MacCompare.{zero_mac}
use cs352proxypart.Memory.{Bytes}
use cs352proxypart.Packets.{Ptr, null, ProxyInfo, node}
use cs352proxypart.Packets.Ranges.{IsProxyInfo, IsLink}
use cs352proxypart.Heap.{ok, Nodes}
use cs352proxypart.Linkstate.Single.{single}
use cs352proxypart.State.{State}
use cs352proxypart.State.UtHash.{UtHash, ProxySocketfd, key_eq_refl}
use cs352proxypart.Sockets.{key_of, terminated}
use cs352proxypart.Members.Connect.{time_of}
use cs352proxypart.Members.Branches.{deref_cell}
use cs352proxypart.Links.Greeting.{peer_link}
use cs352proxypart.Handlers.{tcp_handle}
use cs352proxypart.Handlers.Answer.{answered}
use cs352proxypart.Handlers.Greeting.{tcp_handle-single}
use cs352proxypart.Startup.Peers.{CanGreet}
use cs352proxypart.Network.{Paired, link_between}
use cs352proxypart.Sockets.Laws.{find-add_other}

module _ {T : Type 0} (u : UtHash T) (big : Bool) (fuel : ℕ) (wild : Ptr) (junk : Bytes)
    (tcp_fd : ℕ) (s : State T) (peer to : ProxyInfo) (time : ℕ) (f : 1 < fuel)
    (stack : 54 ≤ length junk) (g : CanGreet s) (free : s.deleterlock ≡ false)
    (op : IsProxyInfo peer) (ol : IsLink (link_between peer to time)) (nz : to.macaddr ≢ zero_mac)
    (absent : u.find s.socketfds (key_of peer.macaddr) ≡ none)
    (own_absent : u.find s.socketfds (key_of s.my_proxy_info.macaddr) ≡ none)
    (apart : key_of peer.macaddr ≢ key_of s.my_proxy_info.macaddr)
    (empty : s.mem_list.size ≡ 0) where
  -- The state behind it, with the nodes `h`.
  abbrev met : Nodes → State T
  met h = answered u tcp_fd peer (link_between peer to time) s (suc s.nodes.next_free) h

  -- The peer is known, and gets a packet of one node, the link to it.
  pub tcp_handle-Paired :
      (h : Nodes) × (tcp_handle u big fuel wild junk tcp_fd
          (some (single 1 peer (link_between peer to time)))
          s
        ≡ ok (tt, met h))
      × ((met h).sent
          ≡ s.sent
            ++ record { fd = tcp_fd; bytes = single 1 s.my_proxy_info (peer_link s peer) } ∷ [])
      × Paired u (met h) peer tcp_fd
  tcp_handle-Paired =
      let l = link_between peer to time in
      let (h, runs, there, next) =
        tcp_handle-single u big fuel wild junk tcp_fd peer l s f stack op ol nz absent free g.fresh
          g.own (g.times s.readings) in
      let p = suc s.nodes.next_free in
      let e : ProxySocketfd = record { macaddr = terminated peer.macaddr; sock_fd = tcp_fd } in
      let k = key_of peer.macaddr in
      let socket : u.find (u.add s.socketfds k e) k ≡ some e =
        rw (u.find-add s.socketfds k k e absent, key_eq_refl k) refl in
      (
        h,
        runs,
        rw empty refl,
        record {
          greet = record { own = g.own; times = g.times; fresh = omega (arith, next) };
          linked = record {
            entry = p;
            time = time_of s;
            below = omega (arith, next);
            membership = record {
              list = record {
                head = refl;
                cells = (
                  omega arith,
                  deref_cell (met h) p (node (peer_link s peer) null) there,
                  refl,
                  tt,
                );
                size = omega (arith, empty);
              };
              sockets = ((e, socket), tt);
              free = refl;
            };
            socket = socket;
          };
          recent = g.times s.readings;
          own_absent =
              find-add_other u s.socketfds k (key_of s.my_proxy_info.macaddr) e absent apart
              ∙ own_absent;
        },
      )
