-- ===== src/Handlers/Dispatch.antt =====
-- The packets that `TCPHandle` of cs352proxy.c does not read on.
use cs352proxypart.Base.{
  ℕ, ◌+◌, ◌^◌, ◌≤◌, ◌<◌, ◌≡◌, ◌≢◌, ◌⊎◌, inl, inr, ap, sym, ◌∙◌, Bool, some, ◌++◌, arith, length,
  take, drop, take-append_length, length-append, append_assoc, ==-eq_false,
}
use cs352proxypart.Memory.{Bytes, be_bytes}
use cs352proxypart.Packets.{
  Ptr, PktHeader, ProxyInfo, LeavePkt, QuitPkt, pkt_data, pkt_leave, pkt_quit, pkt_linkstate,
  max_pkt_len,
}
use cs352proxypart.Memory.Order.{length-be_bytes}
use cs352proxypart.Codec.{hton_leave, hton_quit}
use cs352proxypart.Codec.Access.{WritesAt-start}
use cs352proxypart.Codec.Wire.{
  wire_header, wire_proxy_info, wire_farewell, length-wire_farewell, hton_leave-wire,
  hton_quit-wire,
}
use cs352proxypart.Heap.{ok, exited}
use cs352proxypart.State.{State}
use cs352proxypart.State.UtHash.{UtHash}
use cs352proxypart.Handlers.Receive.{tcp_handle-dispatch}
use cs352proxypart.Handlers.{dispatch, tcp_handle}

-- Of the packets that are neither data nor link states, a quit packet ends the program, and any
-- other, leave packets, probes and unknown types, changes nothing.
tcp_handle-type :
    {T : Type 0} (u : UtHash T) (big : Bool) (fuel : ℕ) (wild : Ptr) (junk : Bytes) (tcp_fd : ℕ)
    (s : State T) (bytes : Bytes) (type : ℕ)
    → type < 2 ^ 16
    → length bytes + 2 ≤ max_pkt_len
    → type ≢ pkt_data
    → type ≢ pkt_linkstate
    → let run = tcp_handle u big fuel wild junk tcp_fd (some (be_bytes 2 type ++ bytes)) s in
      ((type ≡ pkt_quit) × (run ≡ exited)) ⊎ ((type ≢ pkt_quit) × (run ≡ ok (tt, s)))
unfolding dispatch
tcp_handle-type u big fuel wild junk tcp_fd s bytes type small fits nd nl =
    rw
      (
        tcp_handle-dispatch u big fuel wild junk tcp_fd s bytes type small fits,
        ==-eq_false type pkt_data nd,
        ==-eq_false type pkt_linkstate nl,
      )
      (ground arith)

-- The bytes of a leave or quit packet begin with its type.
farewell_type :
    (hd : PktHeader) (p : ProxyInfo) (id : ℕ)
    → wire_farewell hd p id
      ≡ be_bytes 2 hd.type ++ (be_bytes 2 hd.length ++ (wire_proxy_info p ++ be_bytes 8 id))
unfolding wire_farewell wire_header
farewell_type hd p id =
    append_assoc (be_bytes 2 hd.type) (be_bytes 2 hd.length) (wire_proxy_info p ++ be_bytes 8 id)

module _ {T : Type 0} (u : UtHash T) (sender receiver : Bool) (fuel : ℕ) (wild : Ptr) (junk : Bytes)
    (tcp_fd : ℕ) (s : State T) where
  -- The 24 bytes of such a packet, received.
  farewell_runs :
      (hd : PktHeader) (p : ProxyInfo) (id : ℕ) (rest : Bytes)
      → hd.type < 2 ^ 16
      → hd.type ≢ pkt_data
      → hd.type ≢ pkt_linkstate
      → let run =
          tcp_handle u receiver fuel wild junk tcp_fd
            (some (take 24 (wire_farewell hd p id ++ rest)))
            s in
        ((hd.type ≡ pkt_quit) × (run ≡ exited)) ⊎ ((hd.type ≢ pkt_quit) × (run ≡ ok (tt, s)))
  farewell_runs hd p id rest small nd nl =
      let wire = wire_farewell hd p id in
      let tail = be_bytes 2 hd.length ++ (wire_proxy_info p ++ be_bytes 8 id) in
      let cut : take 24 (wire ++ rest) ≡ be_bytes 2 hd.type ++ tail =
        ap (λ (n : ℕ). take n (wire ++ rest)) (sym (length-wire_farewell hd p id))
        ∙ take-append_length wire rest
        ∙ farewell_type hd p id in
      rw cut (
        tcp_handle-type u receiver fuel wild junk tcp_fd s tail hd.type small
          (omega (
            arith,
            length-wire_farewell hd p id,
            ap length (farewell_type hd p id),
            length-append (be_bytes 2 hd.type) tail,
            length-be_bytes 2 hd.type,
          ))
          nd nl)

  -- Of two packets that `htonLeave` and `htonQuit` write, on a host of either byte order and into
  -- buffers that have room, the leave packet, received, changes nothing: the list and the table stay
  -- as they are. The quit packet ends the program of the receiver.
  pub tcp_handle-farewell :
      (leave : LeavePkt) (quit : QuitPkt) (buffer : Bytes)
      → leave.head.type ≡ pkt_leave
      → quit.head.type ≡ pkt_quit
      → leave.id < 2 ^ 64
      → quit.id < 2 ^ 64
      → 24 ≤ length buffer
      → (b c : Bytes) × (hton_leave sender leave buffer ≡ some b)
        × (tcp_handle u receiver fuel wild junk tcp_fd (some (take 24 b)) s ≡ ok (tt, s))
        × (hton_quit sender quit buffer ≡ some c)
        × (tcp_handle u receiver fuel wild junk tcp_fd (some (take 24 c)) s ≡ exited)
  tcp_handle-farewell leave quit buffer kind_l kind_q small_l small_q room =
      let wire_l = wire_farewell leave.head leave.local leave.id in
      let wire_q = wire_farewell quit.head quit.local quit.id in
      let rest = drop 24 buffer in
      let (written_l, _, _) =
        WritesAt-start (hton_leave sender leave) 24 wire_l buffer
          (hton_leave-wire sender leave small_l)
          (length-wire_farewell leave.head leave.local leave.id) room in
      let (written_q, _, _) =
        WritesAt-start (hton_quit sender quit) 24 wire_q buffer (hton_quit-wire sender quit small_q)
          (length-wire_farewell quit.head quit.local quit.id) room in
      (
        wire_l ++ rest,
        wire_q ++ rest,
        written_l,
        elim (farewell_runs leave.head leave.local leave.id rest (omega (arith, kind_l))
            (omega (arith, kind_l)) (omega (arith, kind_l))) [
              | inl (is, runs) ↦ absurd (omega (arith, is, kind_l))
              | inr (is, runs) ↦ runs
            ],
        written_q,
        elim (farewell_runs quit.head quit.local quit.id rest (omega (arith, kind_q))
            (omega (arith, kind_q)) (omega (arith, kind_q))) [
              | inl (is, runs) ↦ runs
              | inr (not_quit, runs) ↦ absurd (not_quit kind_q)
            ],
      )
