-- ===== src/Threads.antt =====
-- The threads of cs352proxy.c together: what each does between two calls that wait for the network or
-- the clock. A round is run whole: rounds follow one another in any order, and do not overlap.
use cs352proxypart.Base.{ℕ, ◌≡◌, ◌≢◌, Bool, false, Option}
use mathlib.Core.Path.{subst}
use cs352proxypart.Memory.{Bytes}
use cs352proxypart.Packets.{Ptr}
use cs352proxypart.Heap.{ok, blocked}
use cs352proxypart.State.{State, Cmd, pure, ◌>>=◌}
use cs352proxypart.State.UtHash.{UtHash}
use cs352proxypart.State.Moves.{
  Free, Later, Later-refl, Later-trans, Ends, Moves, Moves-bind, Moves-pure,
}
use cs352proxypart.Links.{Dial, send_packets, check_link_time_out, connecttohost}
use cs352proxypart.Links.Moves.{send_packets-Moves, check_link_time_out-Moves, connecttohost-Moves}
use cs352proxypart.Handlers.{tap_handle, tcp_handle}
use cs352proxypart.Handlers.Moves.{tap_handle-Moves, tcp_handle-Moves}

-- A round of a thread, with what the host and the network answer.
pub data Round : Type 0 where
  tap_round : (r : Option Bytes) → Round
  tcp_round : (wild : Ptr) (junk : Bytes) (tcp_fd : ℕ) (r : Option Bytes) → Round
  send_round : (junk : Bytes) → Round
  check_round : (link_timeout : ℕ) → Round
  connect_round : (junk : Bytes) (d : Dial) (remote_port : ℕ) → Round

module _ {T : Type 0} (u : UtHash T) (big : Bool) where
  abbrev pub perform : (fuel : ℕ) → Round → Cmd T (Unit {0})
  perform fuel (tap_round r) = tap_handle u big r
  perform fuel (tcp_round wild junk tcp_fd r) = tcp_handle u big fuel wild junk tcp_fd r
  perform fuel (send_round junk) = send_packets u big fuel junk
  perform fuel (check_round link_timeout) = check_link_time_out u fuel link_timeout
  perform fuel (connect_round junk d remote_port) =
      connecttohost big fuel junk d remote_port >>= λ _. pure tt

  -- Rounds that end, from one state to another.
  pub data Schedule : State T → State T → Type 0 where
    start : {s : State T} → Schedule s s
    next :
        {s t v : State T} (fuel : ℕ) (a : Round)
        → Schedule s t
        → perform fuel a t ≡ ok (tt, v)
        → Schedule s v

  perform-Moves : (fuel : ℕ) (a : Round) → Moves Free Free (perform fuel a)
  perform-Moves fuel (tap_round r) = tap_handle-Moves u big r
  perform-Moves fuel (tcp_round wild junk tcp_fd r) = tcp_handle-Moves u big fuel junk wild tcp_fd r
  perform-Moves fuel (send_round junk) = send_packets-Moves u big fuel junk
  perform-Moves fuel (check_round link_timeout) = check_link_time_out-Moves u fuel link_timeout
  perform-Moves fuel (connect_round junk d remote_port) =
      Moves-bind (connecttohost-Moves big fuel junk d remote_port) λ _. Moves-pure tt

  Schedule-Later :
      (s t : State T) → s.deleterlock ≡ false → Schedule s t → (t.deleterlock ≡ false) × Later s t
  Schedule-Later s t free start = (free, Later-refl s)
  Schedule-Later s v free (next {t = t} fuel a before runs) =
      let (at_t, later) = Schedule-Later s t free before in
      let e : Ends Free t (ok (tt {0}, v)) =
        subst (Ends Free t) runs ((perform-Moves fuel a).at t at_t) in
      (e.0, Later-trans s t v later e.1)

  -- Whatever rounds the threads have run from a state where `deleterlock` is free, in whatever order:
  -- it is free again, no round waits for a mutex that its own thread holds, this host's address, its
  -- tap device and the clock are the same, and what was sent before was sent first.
  pub Schedule-free :
      (s t : State T)
      → s.deleterlock ≡ false
      → Schedule s t
      → (t.deleterlock ≡ false) × ((fuel : ℕ) (a : Round) → perform fuel a t ≢ blocked) × Later s t
  Schedule-free s t free run =
      let (at_t, later) = Schedule-Later s t free run in
      (at_t, λ fuel a e. subst (Ends Free t) e ((perform-Moves fuel a).at t at_t), later)
