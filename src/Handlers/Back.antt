-- ===== src/Handlers/Back.antt =====
-- The branch of `TCPHandle` of cs352proxy.c for a packet of one node that names six zeros as the
-- address of its other end, from a source with no socket.
use cs352proxypart.Base.{
  ℕ, suc, ◌-◌, ◌^◌, ◌<◌, ◌≡◌, ◌≢◌, refl, ap, ◌∙◌, inl, Bool, false, none, some, ◌∷◌, arith, length,
  ◌==◌,
}
use cs352proxypart.Memory.{Bytes}
use cs352proxypart.Helper.{comp_mac_zero}
use cs352proxypart.Helper.MacCompare.{zero_mac, comp_mac_zero-decides}
use cs352proxypart.Packets.{Ptr, null, ProxyInfo, Link, node}
use cs352proxypart.Packets.Ranges.{IsProxyInfo, IsLink}
use cs352proxypart.Heap.{ok, deref}
use cs352proxypart.Heap.Cells.{Entries, Cells-write, has, write-eq, write-ne}
use cs352proxypart.Linkstate.Single.{started, started_cells, started_next, single, single_pkt}
use cs352proxypart.State.{State}
use cs352proxypart.State.Laws.{load-ok}
use cs352proxypart.State.UtHash.{UtHash, ProxySocketfd, key_eq_refl}
use cs352proxypart.Sockets.{key_of, terminated, addsockfd}
use cs352proxypart.Members.{add_members}
use cs352proxypart.Members.Invariant.{deref_same}
use cs352proxypart.Sockets.Laws.{find-add_other}
use cs352proxypart.Members.Connect.{time_of}
use cs352proxypart.Members.Search.{FirstReverse}
use cs352proxypart.Members.Ring.{found_add}
use cs352proxypart.Members.Kept.{IsMembership, HasSockets-mono}
use cs352proxypart.Members.Lone.{renewed, add_members-mine}
use cs352proxypart.Links.Greeting.{peer_link, deref-started}
use cs352proxypart.Handlers.{got_back, from_stranger, tcp_handle}
use cs352proxypart.Handlers.Answer.{pushed, push_front-pushed, peer_node-started}
use cs352proxypart.Handlers.Single.{stranger_runs}
use cs352proxypart.Handlers.Fresh.{Below, Below-has, Below-suc, started-Cells}

module _ {T : Type 0} (u : UtHash T) (big : Bool) (fuel : ℕ) (junk : Bytes) (tcp_fd : ℕ)
    (s : State T) (n : ℕ) (source : ProxyInfo) (l : Link) (xs : Entries) (v : IsMembership u s xs)
    (absent : u.find s.socketfds (key_of source.macaddr) ≡ none) (ne : s.nodes.next_free ≢ null)
    (below : Below s.nodes.next_free xs) where
  abbrev entry : ProxySocketfd
  entry = record { macaddr = terminated source.macaddr; sock_fd = tcp_fd }

  -- The list with the link to the peer in front, and the second reading of the clock.
  abbrev fronted_list : Entries
  fronted_list = (suc s.nodes.next_free, peer_link s source) ∷ xs

  abbrev later_time : ℕ
  later_time = time_of (record s { readings = suc s.readings })

  -- The state when the received list is walked.
  abbrev walked : State T
  walked =
      let s1 = record s {
        socketfds = u.add s.socketfds (key_of source.macaddr) entry;
        nodes = started s.nodes l;
      } in
      let s2 = record s1 {
        nodes = started s1.nodes (peer_link s source);
        readings = suc s.readings;
      } in
      pushed s2 (suc s.nodes.next_free) (node (peer_link s source) null)

  walked-IsMembership : IsMembership u walked fronted_list
  unfolding started
  walked-IsMembership =
      let p = suc s.nodes.next_free in
      let k = key_of source.macaddr in
      let h1 = started s.nodes l in
      let h2 = started h1 (peer_link s source) in
      let out = Below-has s.nodes.next_free p xs below (omega arith) in
      let content = some (node (peer_link s source) s.mem_list.head) in
      let cells =
        started-Cells h1 (peer_link s source) xs (Below-suc s.nodes.next_free xs below)
          (started-Cells s.nodes l xs below v.list.cells) in
      let find_self : u.find walked.socketfds k ≡ some entry =
        rw (u.find-add s.socketfds k k entry absent, key_eq_refl k) refl in
      record {
        list = record {
          head = refl;
          cells = (
            omega arith,
            write-eq h2.cell p content
                ∙ ap (λ (a : Ptr). some (node (peer_link s source) a)) v.list.head,
            out,
            Cells-write h2.cell p content null xs cells out,
          );
          size = omega (arith, v.list.size);
        };
        sockets = (
          (entry, find_self),
          HasSockets-mono u s.socketfds walked.socketfds xs
              (λ j f has_j. found_add u s.socketfds k j entry f absent has_j) v.sockets,
        );
        free = refl;
      }

  -- The branch runs to the walk.
  got_back_runs :
      got_back u fuel
        (single_pkt n source s.nodes.next_free)
        tcp_fd
        (record s { nodes = started s.nodes l })
      ≡ add_members u fuel fuel s.nodes.next_free tcp_fd walked
  unfolding got_back addsockfd started
  got_back_runs =
      let s1 = record s {
        socketfds = u.add s.socketfds (key_of source.macaddr) entry;
        nodes = started s.nodes l;
      } in
      let s2 = record s1 {
        nodes = started s1.nodes (peer_link s source);
        readings = suc s.readings;
      } in
      rw
        (
          peer_node-started s1 source (omega arith),
          push_front-pushed s2 (suc s.nodes.next_free) (node (peer_link s source) null)
              (deref-started s1.nodes (peer_link s source) (omega arith)) v.free,
        )
        refl

  module _ (zero : l.remote.macaddr ≡ zero_mac)
      (no_zero : u.find s.socketfds (key_of zero_mac) ≡ none)
      (other : key_of source.macaddr ≢ key_of zero_mac) (deep : suc (length xs) < fuel) where
    abbrev q : Ptr
    q = s.nodes.next_free

    -- It gets back to the second test with the node as it was.
    got_back-IsMembership :
        (a : Ptr) × FirstReverse l.local l.remote fronted_list a
        × (s' : State T) × (got_back u fuel
              (single_pkt n source q)
              tcp_fd
              (record s { nodes = started s.nodes l })
            ≡ ok (tt, s'))
        × IsMembership u s' (renewed a later_time fronted_list)
        × (u.find s'.socketfds (key_of source.macaddr) ≡ some entry)
        × (s'.sent ≡ s.sent)
        × (deref s'.nodes q ≡ ok (node l null))
    got_back-IsMembership =
        let p = suc s.nodes.next_free in
        let k = peer_link s source in
        let h1 = started s.nodes l in
        let h2 = started h1 k in
        let content = some (node k s.mem_list.head) in
        let list : Entries = (p, k) ∷ xs in
        let next = started_next s.nodes l in
        let there : deref walked.nodes q ≡ ok (node l null) =
          deref_same walked.nodes h1 q (
            write-ne h2.cell p q content (λ e. omega (arith, e))
            ∙ (started_cells h1 k).1 q (omega (arith, next)))
          ∙ deref-started s.nodes l ne in
        let nothing : u.find walked.socketfds (key_of l.remote.macaddr) ≡ none = rw zero (
          find-add_other u s.socketfds (key_of source.macaddr) (key_of zero_mac) entry absent other
          ∙ no_zero) in
        let out : has q list ≡ false = ground (arith, Below-has q q xs below) in
        let (a, found, s', runs, after, table, own, nf, sent, still) =
          add_members-mine u (fuel - 2) fuel walked q l tcp_fd list there out nothing (inl zero)
            walked-IsMembership deep in
        let enough : suc (suc (fuel - 2)) ≡ fuel = omega (arith, deep) in
        (
          a,
          found,
          s',
          got_back_runs ∙ (rw enough at runs),
          after,
          ap (λ t. u.find t (key_of source.macaddr)) table
              ∙ rw
                  (
                    u.find-add s.socketfds (key_of source.macaddr) (key_of source.macaddr) entry
                        absent,
                    key_eq_refl (key_of source.macaddr),
                  )
                  refl,
          sent,
          still,
        )

  module _ (wild : Ptr) (os : IsProxyInfo source) (ol : IsLink l) (small : n < 2 ^ 16) where
    -- A packet of one node that leaves the address of its other end six zeros, from a source that has no
    -- socket and has another key than six zeros. Where the list, its size, the table and the lock agree,
    -- the list lies in memory that is taken, and the table has no entry for six zeros: the source gets a
    -- socket, the link to it goes to the front of the list, and the time of the first entry that is the
    -- link received in the other direction is renewed; they agree again, and nothing is sent.
    pub tcp_handle-back :
        l.remote.macaddr ≡ zero_mac
        → u.find s.socketfds (key_of zero_mac) ≡ none
        → key_of source.macaddr ≢ key_of zero_mac
        → suc (length xs) < fuel
        → (a : Ptr) × FirstReverse l.local l.remote fronted_list a
          × (s' : State T) × (tcp_handle u big fuel wild junk tcp_fd (some (single n source l)) s
              ≡ ok (tt, s'))
          × IsMembership u s' (renewed a later_time fronted_list)
          × (u.find s'.socketfds (key_of source.macaddr) ≡ some entry)
          × (s'.sent ≡ s.sent)
    unfolding from_stranger
    tcp_handle-back zero no_zero other deep =
        let (a, found, s', runs, after, socket, sent, still) =
          got_back-IsMembership zero no_zero other deep in
        let zeros : (comp_mac_zero l.remote.macaddr == 0) ≡ false =
          ground (arith, comp_mac_zero-decides l.remote.macaddr) in
        let s0 = record s { nodes = started s.nodes l } in
        (
          a,
          found,
          s',
          stranger_runs u big fuel wild junk tcp_fd s n source l os ol small ne absent
              ∙ rw
                  (
                    load-ok s0 s.nodes.next_free (node l null) (deref-started s.nodes l ne),
                    zeros,
                    runs,
                    load-ok s' s.nodes.next_free (node l null) still,
                    zeros,
                  )
                  refl,
          after,
          socket,
          sent,
        )
