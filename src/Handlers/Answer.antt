-- ===== src/Handlers/Answer.antt =====
-- What `TCPHandle` of cs352proxy.c does on the first packet of a peer.
use cs352proxypart.Base.{
  ℕ, suc, ◌%◌, ◌^◌, ◌≤◌, ◌<◌, ◌≡◌, ◌≢◌, refl, Bool, true, false, [], ◌∷◌, ◌++◌, arith, length, take,
  length-take,
}
use cs352proxypart.Memory.{Bytes}
use cs352proxypart.Packets.{Ptr, null, Mac, ProxyInfo, Link, LinkstateNode, node}
use cs352proxypart.Packets.Ranges.{IsProxyInfo}
use cs352proxypart.Heap.{ok, deref, Nodes}
use cs352proxypart.Heap.Cells.{deref-write, deref_not_null}
use cs352proxypart.Linkstate.Single.{
  started, started_next, single, single_pkt, hton_linkstate-single,
}
use cs352proxypart.State.{State, gettimeid, lock, unlock, set_head, set_size, send}
use cs352proxypart.State.UtHash.{UtHash}
use cs352proxypart.State.Laws.{put_node, load-ok, save-ok, set_next-ok}
use cs352proxypart.Sockets.{terminated, key_of, addsockfd}
use cs352proxypart.Members.{increment}
use cs352proxypart.Members.Connect.{time_of}
use cs352proxypart.Links.{serialize}
use cs352proxypart.Links.Greeting.{peer_link, peer_link-IsLink, new_node-started, deref-started}
use cs352proxypart.Handlers.{push_front, peer_node, set_remote_mac, got_original}

-- `s` with the node `p` of content `n` pushed in front of the list.
abbrev pub pushed : {T : Type 0} → State T → Ptr → LinkstateNode → State T
pushed s p n = record (put_node s p (node n.link s.mem_list.head)) {
  mem_list = record { head = p; size = increment s.mem_list.size };
  deleterlock = false;
}

module _ {T : Type 0} (s : State T) (p : Ptr) (n : LinkstateNode)
    (is : deref s.nodes p ≡ ok n) where
  pub push_front-pushed : s.deleterlock ≡ false → push_front p s ≡ ok (tt, pushed s p n)
  unfolding push_front lock unlock set_head set_size
  push_front-pushed free =
      rw (free, set_next-ok (record s { deleterlock = true }) p n is s.mem_list.head) refl

  set_remote_mac-put_node :
      (m : Mac)
      → set_remote_mac p m s
        ≡ ok (
          tt,
          put_node s p
              (node (record n.link { remote = record n.link.remote { macaddr = m } }) n.next),
        )
  unfolding set_remote_mac
  set_remote_mac-put_node m = rw (load-ok s p n is, save-ok s p n is _) refl

pub peer_node-started :
    {T : Type 0} (s : State T) (to : ProxyInfo)
    → s.nodes.next_free ≢ null
    → peer_node to s
      ≡ ok (
        s.nodes.next_free,
        record s { nodes = started s.nodes (peer_link s to); readings = suc s.readings },
      )
unfolding peer_node gettimeid
peer_node-started s to ne =
    rw (new_node-started (record s { readings = suc s.readings }) (peer_link s to) ne) refl

-- The answer is the link to the peer, whose address is the one of the node sent.
abbrev pub answer_link : {T : Type 0} → ProxyInfo → Link → State T → Link
answer_link source l s = peer_link s (record source { macaddr = l.local.macaddr })

module _ {T : Type 0} (u : UtHash T) (tcp_fd : ℕ) (source : ProxyInfo) (l : Link) where
  -- The socket and the node are there, the list is the node alone, and the answer is sent.
  abbrev pub answered : State T → Ptr → Nodes → State T
  answered s p h = record s {
    nodes = h;
    mem_list = record { head = p; size = increment s.mem_list.size };
    socketfds =
        u.add s.socketfds (key_of source.macaddr)
          (record { macaddr = terminated source.macaddr; sock_fd = tcp_fd });
    deleterlock = false;
    readings = suc s.readings;
    sent =
        s.sent
        ++ record {
          fd = tcp_fd;
          bytes =
              single (increment s.mem_list.size % 2 ^ 16) s.my_proxy_info (answer_link source l s);
        }
          ∷ [];
  }

module _ {T : Type 0} (u : UtHash T) (big : Bool) (fuel : ℕ) (junk : Bytes) (tcp_fd : ℕ)
    (source : ProxyInfo) (l : Link) (f : 1 < fuel) (stack : 54 ≤ length junk) where
  pub got_original-answered :
      (s : State T) (q : Ptr)
      → IsProxyInfo source
      → deref s.nodes q ≡ ok (node l null)
      → s.deleterlock ≡ false
      → s.nodes.next_free ≢ null
      → IsProxyInfo s.my_proxy_info
      → time_of s < 2 ^ 64
      → (h : Nodes) × (got_original u big fuel junk (single_pkt 1 source q) tcp_fd s
          ≡ ok (tt, answered u tcp_fd source l s s.nodes.next_free h))
        × (deref h s.nodes.next_free ≡ ok (node (answer_link source l s) null))
        × (h.next_free ≡ suc s.nodes.next_free)
  unfolding got_original addsockfd serialize send
  got_original-answered s q os is free ne me small =
      let k = answer_link source l s in
      let p = s.nodes.next_free in
      let m = s.my_proxy_info.macaddr in
      let l2 = record l { remote = record l.remote { macaddr = m } } in
      let s1 = record s {
        socketfds =
            u.add s.socketfds (key_of source.macaddr)
              (record { macaddr = terminated source.macaddr; sock_fd = tcp_fd });
      } in
      let qe : q ≢ null = deref_not_null s.nodes q (node l null) is in
      let s2 = put_node s1 q (node l2 null) in
      let s3 = record s2 { nodes = started s2.nodes k; readings = suc s.readings } in
      let pushed_node = node k s.mem_list.head in
      let s4 = pushed s3 p (node k null) in
      let s5 = put_node s4 p (node k null) in
      let there = deref-write s4.nodes p (node k null) ne in
      (
        s5.nodes,
        rw
            (
              set_remote_mac-put_node s1 q (node l null) is m,
              load-ok s2 q (node l2 null) (deref-write s1.nodes q (node l2 null) qe),
              peer_node-started s2 (record source { macaddr = l.local.macaddr }) ne,
              push_front-pushed s3 p (node k null) (deref-started s2.nodes k ne) free,
              set_next-ok s4 p pushed_node (deref-write s3.nodes p pushed_node ne) null,
              hton_linkstate-single big (increment s.mem_list.size % 2 ^ 16) s.my_proxy_info k
                  (peer_link-IsLink s (record source { macaddr = l.local.macaddr }) me
                    (record { ip = os.ip; portno = os.portno }) small)
                  s5.nodes fuel p (take 54 junk) there f (omega (arith, length-take 54 junk)),
            )
            refl,
        there,
        started_next s2.nodes k,
      )
