-- ===== src/Links/Greeting.antt =====
-- What `connecttohost` of cs352proxy.c sends.
use cs352proxypart.Base.{
  ℕ, suc, ◌%◌, ◌^◌, ◌≤◌, ◌<◌, ◌≡◌, ◌≢◌, refl, Bool, true, none, some, [], ◌∷◌, ◌++◌, arith, length,
  take, length-take,
}
use cs352proxypart.Memory.{Bytes}
use cs352proxypart.Packets.{Ptr, null, Mac, ProxyInfo, Link, node}
use cs352proxypart.Packets.Ranges.{IsProxyInfo, IsLink}
use cs352proxypart.Heap.{ok, deref, malloc, write, Nodes}
use cs352proxypart.Heap.Cells.{deref-write}
use cs352proxypart.Linkstate.Single.{
  started, started_next, started_cells, single, hton_linkstate-single,
}
use cs352proxypart.State.{State, gettimeid, send}
use cs352proxypart.State.Laws.{save-ok}
use cs352proxypart.Members.Connect.{time_of}
use cs352proxypart.Links.{new_node, serialize, free, greet, connecttohost}

-- The link from this host to a peer, as it is made when they connect.
abbrev pub peer_link : {T : Type 0} → State T → ProxyInfo → Link
peer_link s remote_info = record {
  local = s.my_proxy_info;
  remote = remote_info;
  linkweight = 1;
  id = time_of s;
}

pub peer_link-IsLink :
    {T : Type 0} (s : State T) (remote_info : ProxyInfo)
    → IsProxyInfo s.my_proxy_info
    → IsProxyInfo remote_info
    → time_of s < 2 ^ 64
    → IsLink (peer_link s remote_info)
peer_link-IsLink s remote_info me other small = record {
  local = me;
  remote = other;
  linkweight = omega arith;
  id = small;
}

module _ {T : Type 0} (s : State T) (l : Link) (ne : s.nodes.next_free ≢ null) where
  pub new_node-started :
      new_node l null s ≡ ok (s.nodes.next_free, record s { nodes = started s.nodes l })
  unfolding new_node malloc started
  new_node-started =
      let p = s.nodes.next_free in
      let old = s.nodes.junk p in
      let h : Nodes = record s.nodes { next_free = suc p } in
      rw
        (save-ok
          (record s {
            nodes = record s.nodes { next_free = suc p; cell = write s.nodes.cell p (some old) };
          })
          p old (deref-write h p old ne) (node l null))
        refl

pub deref-started :
    (h : Nodes) (l : Link) → h.next_free ≢ null → deref (started h l) h.next_free ≡ ok (node l null)
unfolding deref
deref-started h l ne = ground (arith, (started_cells h l).0)

module _ {T : Type 0} (big : Bool) (fuel : ℕ) (junk : Bytes) (s : State T)
    (me : IsProxyInfo s.my_proxy_info) (small : time_of s < 2 ^ 64) (ne : s.nodes.next_free ≢ null)
    (f : 1 < fuel) (stack : 54 ≤ length junk) where
  -- A connection that succeeds begins with a packet of 54 bytes: one node, the link from this host
  -- to the peer, of weight 1 and heard of now. The address of the peer that it names is whatever
  -- `malloc` left in the memory. No node that was there is changed, and the new one is freed: its
  -- address is used up, and there is no node at it.
  pub connecttohost-single :
      (socket_fd s_addr remote_port : ℕ) (junk_mac : Mac)
      → s_addr < 2 ^ 32
      → let to : ProxyInfo = record {
        ip = s_addr;
        portno = remote_port % 2 ^ 16;
        macaddr = junk_mac;
      } in
        (h : Nodes) × (connecttohost big fuel junk
            (record {
              socket_fd = some socket_fd;
              s_addr = some s_addr;
              connects = true;
              junk_mac = junk_mac;
            })
            remote_port
            s
          ≡ ok (
            socket_fd,
            record s {
              nodes = h;
              readings = suc s.readings;
              sent =
                  s.sent
                  ++ record { fd = socket_fd; bytes = single 1 s.my_proxy_info (peer_link s to) }
                    ∷ [];
            },
          ))
        × ((b : Ptr) → b < s.nodes.next_free → h.cell b ≡ s.nodes.cell b)
        × (h.next_free ≡ suc s.nodes.next_free)
        × (h.cell s.nodes.next_free ≡ none)
  unfolding connecttohost greet gettimeid serialize send free write
  connecttohost-single socket_fd s_addr remote_port junk_mac fits =
      let to : ProxyInfo = record {
        ip = s_addr;
        portno = remote_port % 2 ^ 16;
        macaddr = junk_mac;
      } in
      let l = peer_link s to in
      let s1 = record s { readings = suc s.readings } in
      let p = s.nodes.next_free in
      let other : IsProxyInfo to = record { ip = fits; portno = omega arith } in
      (
        record (started s.nodes l) { cell = write (started s.nodes l).cell p none },
        rw
            (
              new_node-started s1 l ne,
              hton_linkstate-single big 1 s.my_proxy_info l (peer_link-IsLink s to me other small)
                  (started s.nodes l) fuel p (take 54 junk) (deref-started s.nodes l ne) f
                  (omega (arith, length-take 54 junk)),
            )
            refl,
        (λ b lt. ground (arith, (started_cells s.nodes l).1 b lt)),
        started_next s.nodes l,
        ground arith,
      )
