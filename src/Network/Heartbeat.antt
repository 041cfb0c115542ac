-- ===== src/Network/Heartbeat.antt =====
-- Two proxies that know each other: a period of `sendPackets` on one, and `TCPHandle` and
-- `checkLinkTimeOut` on the other.
use cs352proxypart.Base.{
  ℕ, refl, sym, List, ◌+◌, ◌*◌, ◌^◌, ◌<◌, ◌≤◌, ◌≡◌, ◌∙◌, Bool, false, none, some, [], ◌∷◌, ◌++◌,
  arith, length,
}
use cs352proxypart.Memory.{Bytes}
use cs352proxypart.Packets.{Ptr, null, ProxyInfo, max_pkt_len}
use cs352proxypart.Packets.Ranges.{IsLink}
use cs352proxypart.Heap.{ok}
use cs352proxypart.Heap.Cells.{Entries, deref-Cells}
use cs352proxypart.Linkstate.Read.{placed, end_of}
use mathlib.Core.Path.{subst}
use cs352proxypart.State.{State, Output}
use cs352proxypart.State.UtHash.{UtHash}
use cs352proxypart.Sockets.{key_of}
use cs352proxypart.Members.Connect.{IsMemList, time_of}
use cs352proxypart.Members.Expire.{Pruned, done, drop, keep}
use cs352proxypart.Members.Timeout.{remove_expired_members-Pruned}
use cs352proxypart.Members.Kept.{IsMembership}
use cs352proxypart.Links.{send_packets, check_link_time_out}
use cs352proxypart.Links.Flood.{to_all}
use cs352proxypart.Handlers.{tcp_handle}
use cs352proxypart.Handlers.Delivery.{tcp_handle-send_packets}
use cs352proxypart.Network.{Linked, Paired, link_between}
use cs352proxypart.Network.Confirm.{add_members-confirmed}

-- What a check of the time leaves of the link to a peer: all, or neither entry nor socket.
pub data Checked {T : Type 0} (u : UtHash T) (s s' : State T) (peer : ProxyInfo) (entry : Ptr)
    (time ms : ℕ) : Type 0 where
  alive :
      time_of s ≤ time + ms
      → IsMembership u s' ((entry, link_between s.my_proxy_info peer time) ∷ [])
      → Checked u s s' peer entry time ms
  lost :
      time + ms < time_of s
      → IsMemList s' []
      → u.find s'.socketfds (key_of peer.macaddr) ≡ none
      → Checked u s s' peer entry time ms

Pruned-Checked :
    {T : Type 0} (u : UtHash T) (s s' : State T) (peer : ProxyInfo) (entry : Ptr) (time ms : ℕ)
    (ys : Entries)
    → Pruned u s.socketfds s'.socketfds
        (time_of s)
        ms
        ((entry, link_between s.my_proxy_info peer time) ∷ [])
        ys
    → IsMemList s' ys
    → s'.deleterlock ≡ false
    → Checked u s s' peer entry time ms
Pruned-Checked u s s' peer entry time ms ys (drop lt absent done) v free = lost lt v absent
Pruned-Checked u s s' peer entry time ms ys (keep e le before found done) v free =
    alive le (record { list = v; sockets = ((e, found), tt); free = free })

check_link_time_out-Checked :
    {T : Type 0} (u : UtHash T) (fuel link_timeout : ℕ) (s : State T) (peer : ProxyInfo) (fd : ℕ)
    → 1 < fuel
    → link_timeout * 1000 < 2 ^ 31
    → (k : Linked u s peer fd)
    → (s' : State T) × (check_link_time_out u fuel link_timeout s ≡ ok (tt, s'))
      × Checked u s s' peer k.entry k.time (link_timeout * 1000)
unfolding check_link_time_out
check_link_time_out-Checked u fuel link_timeout s peer fd f small k =
    let xs = (k.entry, link_between s.my_proxy_info peer k.time) ∷ [] in
    let (s', ys, runs, pruned, list, free, _, _) =
      remove_expired_members-Pruned u fuel link_timeout s xs small k.membership.free
        k.membership.list (tt, tt) k.membership.sockets f in
    (s', runs, Pruned-Checked u s s' peer k.entry k.time (link_timeout * 1000) ys pruned list free)

module _ {S T : Type 0} (us : UtHash S) (ut : UtHash T) (bs bt : Bool) (fs ft : ℕ) (wild : Ptr)
    (js jt : Bytes) (s : State S) (t : State T) (fd_s fd_t : ℕ) (fuel_s : 1 < fs) (fuel_t : 1 < ft)
    (stack : length js ≡ max_pkt_len) (ks : Paired us s t.my_proxy_info fd_s)
    (kt : Paired ut t s.my_proxy_info fd_t) where
  -- Sending leaves the list, the table and the memory alone.
  sent-Paired : (out : List Output) → Paired us (record s { sent = out }) t.my_proxy_info fd_s
  sent-Paired out =
      let k = ks.linked in
      let v = k.membership in
      record {
        greet = record { own = ks.greet.own; times = ks.greet.times; fresh = ks.greet.fresh };
        linked = record {
          entry = k.entry;
          time = k.time;
          below = k.below;
          membership = record {
            list = record { head = v.list.head; cells = v.list.cells; size = v.list.size };
            sockets = v.sockets;
            free = v.free;
          };
          socket = k.socket;
        };
        recent = ks.recent;
        own_absent = ks.own_absent;
      }

  -- Two proxies whose only entry is the link to the other, each with a socket for the other and none
  -- for itself, and a period of `sendPackets` at `s`: every socket of `s` gets the same packet. With
  -- `t`, which receives it whole, they are two such proxies again, the time of the entry of `t` is
  -- that of the reception, and `t` sends nothing. If `t` then checks for links that timed out, and
  -- its clock is no further than the timeout, the entry and a socket stay; if it is further, neither
  -- is left.
  pub heartbeat-Paired :
      (tcp_fd link_timeout : ℕ)
      → link_timeout * 1000 < 2 ^ 31
      → (bytes : Bytes) × (s1 : State S) × (t1 t2 : State T) × (send_packets us bs fs js s
          ≡ ok (tt, s1))
        × (s1.sent ≡ s.sent ++ to_all bytes (us.to_list s.socketfds))
        × (tcp_handle ut bt ft wild jt tcp_fd (some bytes) t ≡ ok (tt, t1))
        × (t1.sent ≡ t.sent)
        × Paired us s1 t1.my_proxy_info fd_s
        × (k : Paired ut t1 s1.my_proxy_info fd_t) × (k.linked.time ≡ time_of t)
        × (check_link_time_out ut ft link_timeout t1 ≡ ok (tt, t2))
        × Checked ut t1 t2 s1.my_proxy_info k.linked.entry k.linked.time (link_timeout * 1000)
  unfolding placed end_of
  heartbeat-Paired tcp_fd link_timeout small =
      let k = ks.linked in
      let l = link_between s.my_proxy_info t.my_proxy_info k.time in
      let ol : IsLink l = record {
        local = ks.greet.own;
        remote = kt.greet.own;
        linkweight = omega arith;
        id = ks.recent;
      } in
      let (bytes, h, sends, receives, got) =
        tcp_handle-send_packets us ut bs bt fs ft wild js jt s t k.entry l [] k.membership.list
          (omega arith) (ol, tt) ks.greet.own tcp_fd _ fuel_s stack kt.linked.socket
          kt.greet.fresh in
      let (t1, runs, sent, own, paired, renewed_at) =
        add_members-confirmed ut ft tcp_fd t h s.my_proxy_info k.time fd_t fuel_t
          (deref-Cells h null t.nodes.next_free l [] got.0) got.1 (omega (arith, got.2)) kt in
      let (t2, checks, left) =
        check_link_time_out-Checked ut ft link_timeout t1 s.my_proxy_info fd_t fuel_t small
          paired.linked in
      let out = s.sent ++ to_all bytes (us.to_list s.socketfds) in
      (
        bytes,
        record s { sent = out },
        t1,
        t2,
        sends,
        refl,
        receives ∙ runs,
        sent,
        subst (λ o. Paired us (record s { sent = out }) o fd_s) (sym own) (sent-Paired out),
        paired,
        renewed_at,
        checks,
        left,
      )
