-- ===== src/Handlers/Data.antt =====
-- Data packets, from the tap device of one host to that of another.
use cs352proxypart.Base.{
  ℕ, ◌+◌, ◌-◌, ◌%◌, ◌^◌, ◌≤◌, ◌≡◌, refl, sym, ap, ◌∙◌, Bool, Option, some, none, [], ◌∷◌, ◌++◌,
  arith, length, take, drop, append_assoc, length-append, ltb-eq_false, take_length,
}
use cs352proxypart.Memory.{Bytes, be_bytes, store, hton, put}
use cs352proxypart.Memory.Buffer.{put-append, get-append, get-start}
use cs352proxypart.Memory.Order.{length-be_bytes}
use cs352proxypart.Packets.{Ptr, pkt_data, max_pkt_len, max_data_len}
use cs352proxypart.Heap.{ok, fault, and_then}
use cs352proxypart.Codec.Wire.{uint-WritesAt}
use cs352proxypart.State.{State, send}
use cs352proxypart.State.UtHash.{UtHash}
use cs352proxypart.Handlers.Receive.{length-zeros, tcp_handle-dispatch}
use cs352proxypart.Handlers.{
  zeros, bytes_of, length_field, sent_length, tap_packet, on_data, dispatch, tcp_handle,
}

zeros_split : zeros max_pkt_len ≡ (0 ∷ 0 ∷ 0 ∷ 0 ∷ []) ++ zeros max_data_len
unfolding zeros
zeros_split = refl

-- The data packet of a payload.
unfoldable pub wire_data : ℕ → Bytes → Bytes
wire_data n bytes = be_bytes 2 pkt_data ++ (be_bytes 2 n ++ bytes)

length-wire_data : (n : ℕ) (bytes : Bytes) → length (wire_data n bytes) ≡ 4 + length bytes
unfolding wire_data
length-wire_data n bytes = omega (
  arith,
  length-append (be_bytes 2 pkt_data) (be_bytes 2 n ++ bytes),
  length-append (be_bytes 2 n) bytes,
  length-be_bytes 2 pkt_data,
  length-be_bytes 2 n,
)

module _ (big : Bool) where
  -- An integer of two bytes written over two bytes.
  put_two :
      (xs : Bytes) (x at a b : ℕ) (ys : Bytes)
      → at ≡ length xs
      → put (xs ++ a ∷ b ∷ ys) at (store big 2 (hton big 2 x)) ≡ some (xs ++ (be_bytes 2 x ++ ys))
  put_two xs x at a b ys e =
      uint-WritesAt big at 2 x xs (a ∷ b ∷ ys) e (omega (arith, length-be_bytes 2 x))
      ∙ rw (length-be_bytes 2 x) (ap some (append_assoc xs (be_bytes 2 x) ys))

  -- What is sent is a beginning of the data packet of what was read.
  tap_packet-take :
      (r : Option Bytes)
      → length (bytes_of r) ≤ max_data_len
      → sent_length r ≤ 4 + length (bytes_of r)
      → tap_packet big r ≡ ok (take (sent_length r) (wire_data (length_field r) (bytes_of r)))
  unfolding tap_packet wire_data
  tap_packet-take r fits short =
      let b = bytes_of r in
      let rest = drop (length b) (zeros max_data_len) in
      let t = be_bytes 2 pkt_data in
      let n = be_bytes 2 (length_field r) in
      rw
        (
          zeros_split,
          put-append (0 ∷ 0 ∷ 0 ∷ 0 ∷ []) (zeros max_data_len) b 4 refl
              (omega (arith, length-zeros max_data_len)),
          put_two [] pkt_data 0 0 0 (0 ∷ 0 ∷ (b ++ rest)) refl,
          put_two t (length_field r) 2 0 0 (b ++ rest) (sym (length-be_bytes 2 pkt_data)),
          ← append_assoc n b rest,
          ← append_assoc t (n ++ b) rest,
          get-start (t ++ (n ++ b)) rest (sent_length r)
              (omega (arith, length-wire_data (length_field r) b)),
        )
        refl

  -- What `TAPHandle` makes of up to 2048 bytes from the tap device: the type, the count, the bytes.
  pub tap_packet-some :
      (bytes : Bytes)
      → length bytes ≤ max_data_len
      → tap_packet big (some bytes) ≡ ok (wire_data (length bytes) bytes)
  tap_packet-some bytes fits =
      let n = length bytes in
      let whole : n % 2 ^ 16 ≡ n = omega arith in
      let size : n + 4 ≡ length (wire_data n bytes) = omega (arith, length-wire_data n bytes) in
      tap_packet-take (some bytes) fits (omega arith)
      ∙ ap (λ (k : ℕ). ok (take (n + 4) (wire_data k bytes))) whole
      ∙ ap (λ (k : ℕ). ok (take k (wire_data n bytes))) size
      ∙ ap ok (take_length (wire_data n bytes))

  -- What it makes of a failed `read`: three bytes, the type and half of the count.
  pub tap_packet-none : tap_packet big none ≡ ok (0xAB ∷ 0xCD ∷ 0xFF ∷ [])
  unfolding wire_data be_bytes
  tap_packet-none = tap_packet-take none (omega arith) (omega arith)

module _ {T : Type 0} (u : UtHash T) (big : Bool) (fuel : ℕ) (wild : Ptr) (junk : Bytes)
    (tcp_fd : ℕ) (s : State T) where
  -- `TCPHandle` writes the payload of a data packet to the tap device and does nothing else.
  deliver :
      (n : ℕ) (bytes : Bytes)
      → length bytes ≤ max_data_len
      → tcp_handle u big fuel wild junk tcp_fd (some (wire_data n bytes)) s
        ≡ ok (tt, record s { sent = s.sent ++ record { fd = s.tap_fd; bytes = bytes } ∷ [] })
  unfolding wire_data dispatch on_data send
  deliver n bytes fits =
      let t = be_bytes 2 pkt_data in
      let c = be_bytes 2 n in
      let packet = t ++ (c ++ bytes) in
      let rest = drop (length packet) (zeros max_pkt_len) in
      let size : length packet ≡ 4 + length bytes = length-wire_data n bytes in
      let regroup : t ++ ((c ++ bytes) ++ rest) ≡ (t ++ c) ++ (bytes ++ rest) = simp append_assoc in
      rw
        (
          tcp_handle-dispatch u big fuel wild junk tcp_fd s (c ++ bytes) pkt_data (omega arith)
              (omega (arith, length-append c bytes, length-be_bytes 2 n)),
          ltb-eq_false (length packet) 4 (omega arith),
          regroup,
          get-append (t ++ c) bytes rest 4 (length packet - 4)
              (omega (arith, length-append t c, length-be_bytes 2 n, length-be_bytes 2 pkt_data))
              (omega arith),
        )
        refl

-- What one proxy reads from its tap device, up to 2048 bytes, another one that receives the packet
-- writes to its own tap device, byte for byte, whatever the byte order of each.
pub tcp_handle-tap_packet :
    {T : Type 0} (u : UtHash T) (sender receiver : Bool) (fuel : ℕ) (wild : Ptr) (junk : Bytes)
    (tcp_fd : ℕ) (s : State T) (bytes : Bytes)
    → length bytes ≤ max_data_len
    → and_then
        (tap_packet sender (some bytes))
        (λ packet. tcp_handle u receiver fuel wild junk tcp_fd (some packet) s)
      ≡ ok (tt, record s { sent = s.sent ++ record { fd = s.tap_fd; bytes = bytes } ∷ [] })
tcp_handle-tap_packet u sender receiver fuel wild junk tcp_fd s bytes fits =
    rw (tap_packet-some sender bytes fits)
      (deliver u receiver fuel wild junk tcp_fd s (length bytes) bytes fits)

-- A data packet of three bytes makes `TCPHandle` pass a count below zero to `write`.
pub tcp_handle-short :
    {T : Type 0} (u : UtHash T) (big : Bool) (fuel : ℕ) (wild : Ptr) (junk : Bytes) (tcp_fd : ℕ)
    (s : State T)
    → tcp_handle u big fuel wild junk tcp_fd (some (0xAB ∷ 0xCD ∷ 0xFF ∷ [])) s ≡ fault
unfolding dispatch on_data be_bytes
tcp_handle-short u big fuel wild junk tcp_fd s =
    tcp_handle-dispatch u big fuel wild junk tcp_fd s (0xFF ∷ []) pkt_data (omega arith)
      (omega arith)
