-- ===== src/Handlers/Receive.antt =====
-- How `TCPHandle` of cs352proxy.c comes to the tests on the type of a packet.
use cs352proxypart.Base.{
  ℕ, ◌+◌, ◌^◌, ◌≤◌, ◌<◌, ◌≡◌, refl, Bool, some, [], ◌++◌, arith, length, drop, append_assoc,
  length-append, length-replicate, ==-eq_false,
}
use cs352proxypart.Memory.{Bytes, be_bytes}
use cs352proxypart.Memory.Buffer.{put-append}
use cs352proxypart.Memory.Order.{length-be_bytes}
use cs352proxypart.Packets.{Ptr, max_pkt_len}
use cs352proxypart.Codec.RoundTrip.{read_uint-be}
use cs352proxypart.State.{State}
use cs352proxypart.State.UtHash.{UtHash}
use cs352proxypart.Handlers.{zeros, dispatch, tcp_handle}

pub length-zeros : (n : ℕ) → length (zeros n) ≡ n
unfolding zeros
length-zeros n = length-replicate n 0

module _ {T : Type 0} (u : UtHash T) (big : Bool) (fuel : ℕ) (wild : Ptr) (junk : Bytes)
    (tcp_fd : ℕ) (s : State T) where
  -- The buffer of `TCPHandle` that holds a packet of at least a byte.
  pub tcp_handle-dispatch :
      (bytes : Bytes) (type : ℕ)
      → type < 2 ^ 16
      → length bytes + 2 ≤ max_pkt_len
      → let packet = be_bytes 2 type ++ bytes in
        tcp_handle u big fuel wild junk tcp_fd (some packet) s
        ≡ dispatch u big fuel wild junk
            (be_bytes 2 type ++ (bytes ++ drop (length packet) (zeros max_pkt_len)))
            (length packet)
            type
            tcp_fd
            s
  unfolding tcp_handle
  tcp_handle-dispatch bytes type small fits =
      let t = be_bytes 2 type in
      let packet = t ++ bytes in
      let rest = drop (length packet) (zeros max_pkt_len) in
      rw
        (
          ==-eq_false (length packet) 0
              (omega (arith, length-append t bytes, length-be_bytes 2 type)),
          put-append [] (zeros max_pkt_len) packet 0 refl (
              omega
                (arith, length-append t bytes, length-be_bytes 2 type, length-zeros max_pkt_len)),
          append_assoc t bytes rest,
          read_uint-be big 2 0 type small [] (bytes ++ rest) refl,
        )
        refl
