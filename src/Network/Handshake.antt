-- ===== src/Network/Handshake.antt =====
-- A proxy connects to another, both with empty lists and tables.
use cs352proxypart.Base.{
  ℕ, suc, ◌%◌, ◌^◌, ◌≤◌, ◌<◌, ◌≡◌, ◌≢◌, refl, sym, ap, ◌∙◌, Bool, true, false, none, some, [], ◌∷◌,
  ◌++◌, arith, length,
}
use cs352proxypart.Helper.MacCompare.{zero_mac}
use cs352proxypart.Memory.{Bytes}
use cs352proxypart.Packets.{Ptr, Mac, ProxyInfo}
use cs352proxypart.Heap.{ok}
use cs352proxypart.Linkstate.Single.{single}
use cs352proxypart.State.{State}
use cs352proxypart.State.UtHash.{UtHash, Key}
use cs352proxypart.Sockets.{key_of}
use cs352proxypart.Members.Connect.{time_of}
use cs352proxypart.Links.{Dial, connecttohost}
use cs352proxypart.Links.Greeting.{peer_link, peer_link-IsLink, connecttohost-single}
use cs352proxypart.Handlers.{tcp_handle}
use cs352proxypart.Startup.Peers.{CanGreet}
use cs352proxypart.Network.{Paired, link_between}
use cs352proxypart.Handlers.Answer.{answered}
use cs352proxypart.Network.Answer.{tcp_handle-Paired}
use cs352proxypart.Network.Confirm.{tcp_handle-confirmed}

-- A proxy that has met no other, with its own address, clock and memory as they may be.
pub record IsAlone {T : Type 0} (u : UtHash T) (s : State T) : Type 0 where
  pub greet : CanGreet s
  pub size : s.mem_list.size ≡ 0
  pub table : s.socketfds ≡ u.empty
  pub free : s.deleterlock ≡ false

find-alone :
    {T : Type 0} (u : UtHash T) (s : State T) (j : Key) → IsAlone u s → u.find s.socketfds j ≡ none
find-alone u s j v = ap (λ t. u.find t j) v.table ∙ u.find-empty j

module _ {S T : Type 0} (us : UtHash S) (ut : UtHash T) (bs bt : Bool) (fs ft : ℕ) (ws wt : Ptr)
    (js jt : Bytes) (fd_s fd_t : ℕ) (s : State S) (t : State T) (fuel_s : 1 < fs) (fuel_t : 1 < ft)
    (stack_s : 54 ≤ length js) (stack_t : 54 ≤ length jt) (vs : IsAlone us s) (vt : IsAlone ut t)
    (apart : key_of s.my_proxy_info.macaddr ≢ key_of t.my_proxy_info.macaddr)
    (nz : s.my_proxy_info.macaddr ≢ zero_mac) where
  -- The proxy `s` connects to the proxy `t`, where what `malloc` left for the address of `t` is not
  -- six zeros. Of the two packets of `s` and the one of `t` that follow, each is received whole, and
  -- then each proxy has one entry, the link to the other, a socket for it and none for itself.
  pub handshake-Paired :
      (s_addr remote_port : ℕ) (junk_mac : Mac)
      → s_addr < 2 ^ 32
      → junk_mac ≢ zero_mac
      → let d : Dial = record {
        socket_fd = some fd_s;
        s_addr = some s_addr;
        connects = true;
        junk_mac = junk_mac;
      } in
        (s1 s2 : State S) × (t1 t2 : State T) × (first answer second : Bytes) × (connecttohost bs fs
            js d remote_port s
          ≡ ok (fd_s, s1))
        × (s1.sent ≡ s.sent ++ record { fd = fd_s; bytes = first } ∷ [])
        × (tcp_handle ut bt ft wt jt fd_t (some first) t ≡ ok (tt, t1))
        × (t1.sent ≡ t.sent ++ record { fd = fd_t; bytes = answer } ∷ [])
        × (tcp_handle us bs fs ws js fd_s (some answer) s1 ≡ ok (tt, s2))
        × (s2.sent ≡ s1.sent ++ record { fd = fd_s; bytes = second } ∷ [])
        × (tcp_handle ut bt ft wt jt fd_t (some second) t1 ≡ ok (tt, t2))
        × (t2.sent ≡ t1.sent)
        × Paired us s2 t.my_proxy_info fd_s
        × Paired ut t2 s.my_proxy_info fd_t
  handshake-Paired s_addr remote_port junk_mac fits jz =
      let me = s.my_proxy_info in
      let you = t.my_proxy_info in
      let to : ProxyInfo = record {
        ip = s_addr;
        portno = remote_port % 2 ^ 16;
        macaddr = junk_mac;
      } in
      let own_s = vs.greet.own in
      let own_t = vt.greet.own in
      let (h0, runs1, kept, next, _) =
        connecttohost-single bs fs js s own_s (vs.greet.times s.readings) vs.greet.fresh fuel_s
          stack_s fd_s s_addr remote_port junk_mac fits in
      let first = single 1 me (peer_link s to) in
      let s1 : State S = record s {
        nodes = h0;
        readings = suc s.readings;
        sent = s.sent ++ record { fd = fd_s; bytes = first } ∷ [];
      } in
      let greet1 : CanGreet s1 = record {
        own = own_s;
        times = vs.greet.times;
        fresh = omega (arith, next);
      } in
      let (h1, runs2, sent2, paired_t) =
        tcp_handle-Paired ut bt ft wt jt fd_t t me to (time_of s) fuel_t stack_t vt.greet vt.free
          own_s
          (peer_link-IsLink s to own_s (record { ip = fits; portno = omega arith })
            (vs.greet.times s.readings))
          jz (find-alone ut t (key_of me.macaddr) vt) (find-alone ut t (key_of you.macaddr) vt)
          apart vt.size in
      let t1 : State T =
        answered ut fd_t me (link_between me to (time_of s)) t (suc t.nodes.next_free) h1 in
      let (h2, runs3, sent3, paired_s) =
        tcp_handle-Paired us bs fs ws js fd_s s1 you me (time_of t) fuel_s stack_s greet1 vs.free
          own_t (peer_link-IsLink t me own_t own_s (vt.greet.times t.readings)) nz
          (find-alone us s (key_of you.macaddr) vs) (find-alone us s (key_of me.macaddr) vs)
          (λ e. apart (sym e)) vs.size in
      let s2 : State S =
        answered us fd_s you (link_between you me (time_of t)) s1 (suc s1.nodes.next_free) h2 in
      let (t2, runs4, sent4, paired_t2) =
        tcp_handle-confirmed ut bt ft wt jt fd_t t1 me (time_of s1) fd_t fuel_t own_s
          (peer_link-IsLink s1 you own_s own_t (vs.greet.times s1.readings)) paired_t in
      (
        s1,
        s2,
        t1,
        t2,
        first,
        single 1 you (peer_link t me),
        single 1 me (peer_link s1 you),
        runs1,
        refl,
        runs2,
        sent2,
        runs3,
        sent3,
        runs4,
        sent4,
        paired_s,
        paired_t2,
      )
