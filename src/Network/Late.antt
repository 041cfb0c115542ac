-- ===== src/Network/Late.antt =====
-- A proxy connects to another that has met others before.
use cs352proxypart.Base.{
  ℕ, suc, ◌-◌, ◌%◌, ◌^◌, ◌≤◌, ◌<◌, ◌≡◌, ◌≢◌, refl, ◌∙◌, Bool, true, false, none, some, [], ◌∷◌,
  ◌++◌, arith, length,
}
use cs352proxypart.Helper.MacCompare.{zero_mac}
use cs352proxypart.Memory.{Bytes}
use cs352proxypart.Packets.{Ptr, Mac, ProxyInfo}
use cs352proxypart.Heap.{ok}
use cs352proxypart.Heap.Cells.{Entries}
use cs352proxypart.Members.Connect.{IsMemList}
use cs352proxypart.Handlers.Fresh.{Below, IsMemList-frame}
use cs352proxypart.Linkstate.Single.{started, started_cells, single}
use cs352proxypart.State.{State}
use cs352proxypart.State.UtHash.{UtHash}
use cs352proxypart.Sockets.{key_of}
use cs352proxypart.Members.{increment}
use cs352proxypart.Links.{Dial, connecttohost}
use cs352proxypart.Links.Greeting.{peer_link, peer_link-IsLink, connecttohost-single}
use cs352proxypart.Handlers.{tcp_handle}
use cs352proxypart.Handlers.Answer.{answered}
use cs352proxypart.Handlers.Greeting.{tcp_handle-single}
use cs352proxypart.Handlers.Ignored.{tcp_handle-ignored}
use cs352proxypart.Startup.Peers.{CanGreet}

module _ {S T : Type 0} (us : UtHash S) (ut : UtHash T) (bs bt : Bool) (fs ft : ℕ) (ws wt : Ptr)
    (js jt : Bytes) (fd_s fd_t : ℕ) (s : State S) (t : State T) (fuel_s : 1 < fs) (fuel_t : 1 < ft)
    (stack_s : 54 ≤ length js) (stack_t : 54 ≤ length jt) (gs : CanGreet s) (gt : CanGreet t)
    (free_t : t.deleterlock ≡ false)
    (new_s : us.find s.socketfds (key_of t.my_proxy_info.macaddr) ≡ none)
    (new_t : ut.find t.socketfds (key_of s.my_proxy_info.macaddr) ≡ none)
    (nz : s.my_proxy_info.macaddr ≢ zero_mac) (some_members : 0 < t.mem_list.size)
    (few_members : t.mem_list.size < 2 ^ 16 - 1) (xs : Entries) (list_s : IsMemList s xs)
    (below : Below s.nodes.next_free xs) where
  -- The proxy `s` connects to the proxy `t`, which has members, where neither has a socket for the
  -- other, and what `malloc` left for the address of `t` is not six zeros. Then `t` answers, and `s`,
  -- which receives the answer whole, heeds it not: `s` sends nothing, no node that was in its memory
  -- is changed, its list, which lies there, has the entries that it had, its table is as it was, and
  -- it has no socket for `t`.
  pub answer_ignored :
      (s_addr remote_port : ℕ) (junk_mac : Mac)
      → s_addr < 2 ^ 32
      → junk_mac ≢ zero_mac
      → let d : Dial = record {
        socket_fd = some fd_s;
        s_addr = some s_addr;
        connects = true;
        junk_mac = junk_mac;
      } in
        (s1 s2 : State S) × (t1 : State T) × (first answer : Bytes) × (connecttohost bs fs js d
            remote_port s
          ≡ ok (fd_s, s1))
        × (s1.sent ≡ s.sent ++ record { fd = fd_s; bytes = first } ∷ [])
        × (tcp_handle ut bt ft wt jt fd_t (some first) t ≡ ok (tt, t1))
        × (t1.sent ≡ t.sent ++ record { fd = fd_t; bytes = answer } ∷ [])
        × (tcp_handle us bs fs ws js fd_s (some answer) s1 ≡ ok (tt, s2))
        × (s2.sent ≡ s1.sent)
        × ((a : Ptr) → a < s.nodes.next_free → s2.nodes.cell a ≡ s.nodes.cell a)
        × (s2.mem_list ≡ s.mem_list)
        × IsMemList s2 xs
        × (s2.socketfds ≡ s.socketfds)
        × (us.find s2.socketfds (key_of t.my_proxy_info.macaddr) ≡ none)
  answer_ignored s_addr remote_port junk_mac fits jz =
      let me = s.my_proxy_info in
      let you = t.my_proxy_info in
      let to : ProxyInfo = record {
        ip = s_addr;
        portno = remote_port % 2 ^ 16;
        macaddr = junk_mac;
      } in
      let (h0, runs1, kept, next, _) =
        connecttohost-single bs fs js s gs.own (gs.times s.readings) gs.fresh fuel_s stack_s fd_s
          s_addr remote_port junk_mac fits in
      let first = single 1 me (peer_link s to) in
      let s1 : State S = record s {
        nodes = h0;
        readings = suc s.readings;
        sent = s.sent ++ record { fd = fd_s; bytes = first } ∷ [];
      } in
      let (h1, runs2, there, next_t) =
        tcp_handle-single ut bt ft wt jt fd_t me (peer_link s to) t fuel_t stack_t gs.own
          (peer_link-IsLink s to gs.own (record { ip = fits; portno = omega arith })
            (gs.times s.readings))
          jz new_t free_t gt.fresh gt.own (gt.times t.readings) in
      let count = increment t.mem_list.size % 2 ^ 16 in
      let runs3 =
        tcp_handle-ignored us bs fs ws js fd_s s1 count you (peer_link t me) nz (omega arith) gt.own
          (peer_link-IsLink t me gt.own gs.own (gt.times t.readings)) (omega arith)
          (omega (arith, next)) new_s in
      let l = peer_link t me in
      let s2 : State S = record s1 { nodes = started h0 l } in
      let same : (a : Ptr) → a < s.nodes.next_free → s2.nodes.cell a ≡ s.nodes.cell a =
        λ a lt. (started_cells h0 l).1 a (omega (arith, lt, next)) ∙ kept a lt in
      (
        s1,
        s2,
        answered ut fd_t me (peer_link s to) t (suc t.nodes.next_free) h1,
        first,
        single count you (peer_link t me),
        runs1,
        refl,
        runs2,
        refl,
        runs3,
        refl,
        same,
        refl,
        IsMemList-frame s s2 xs below same refl list_s,
        refl,
        new_s,
      )
