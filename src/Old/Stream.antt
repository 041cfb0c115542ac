-- ===== src/Old/Stream.antt =====
-- What the two threads of cs352proxy_old.c make of the connection, which keeps no packet borders.
use cs352proxypart.Base.{
  ℕ, ◌+◌, ◌^◌, ◌%◌, ◌≤◌, ◌<◌, ◌≡◌, refl, ap, ◌∙◌, Bool, some, [], ◌++◌, arith, length, take, drop,
  append_assoc, append-nil, length-append, length-take, length-drop, drop-append_length,
  take-append_length, drop_all, take_all, take_length, sym, drop-drop,
}
use cs352proxypart.Memory.{Bytes, be_bytes, put, get}
use cs352proxypart.Memory.Order.{length-be_bytes, store-hton, ntoh-load}
use cs352proxypart.Memory.Buffer.{put-append, put-none, get-start}
use cs352proxypart.Handlers.{zeros}
use cs352proxypart.Handlers.Receive.{length-zeros}
use cs352proxypart.Heap.{Run, ok, fault, and_then, checked}
use cs352proxypart.Old.{bufsize, msglen, pk_type, tap_handle, read_short, tcp_handle, tcp_round}

-- The packet of a payload.
abbrev pub packet : Bytes → Bytes
packet bs = be_bytes 2 pk_type ++ (be_bytes 2 (length bs % 2 ^ 16) ++ bs)

pub tap_handle-packet : (big : Bool) (bs : Bytes) → tap_handle big (some bs) ≡ ok (packet bs)
unfolding tap_handle
tap_handle-packet big bs = rw (store-hton big 2 pk_type, store-hton big 2 (length bs % 2 ^ 16)) refl

put-all :
    (junk got : Bytes)
    → length got ≤ length junk
    → put junk 0 got ≡ some (got ++ drop (length got) junk)
put-all junk got h = put-append [] junk got 0 refl h

read_short-be :
    (big : Bool) (junk : Bytes) (x : ℕ)
    → length junk ≡ 2
    → x < 2 ^ 16
    → read_short big junk (be_bytes 2 x) ≡ ok x
unfolding read_short
read_short-be big junk x two small =
    rw
      (
        put-all junk (be_bytes 2 x) (omega (arith, length-be_bytes 2 x)),
        drop_all junk (length (be_bytes 2 x)) (omega (arith, length-be_bytes 2 x)),
        append-nil (be_bytes 2 x),
      )
      (ap ok (ntoh-load big 2 x small))

take_exactly : (n : ℕ) (xs ys : Bytes) → length xs ≡ n → take n (xs ++ ys) ≡ xs
take_exactly n xs ys e = ap (λ (k : ℕ). take k (xs ++ ys)) (sym e) ∙ take-append_length xs ys

drop_exactly : (n : ℕ) (xs ys : Bytes) → length xs ≡ n → drop n (xs ++ ys) ≡ ys
drop_exactly n xs ys e = ap (λ (k : ℕ). drop k (xs ++ ys)) (sym e) ∙ drop-append_length xs ys

-- A round of `TCPHandle` on a packet, with others behind it, is one on the first 1500 bytes behind
-- the header.
module _ (big : Bool) (bs behind : Bytes) (junk_type junk_length buf : Bytes)
    (jt : length junk_type ≡ 2) (jl : length junk_length ≡ 2) (room : length buf ≡ msglen)
    (fits : length bs ≤ msglen) where
  after_payload : Bytes → Run (Bytes × Bytes)
  after_payload b =
      and_then (checked (get b 0 (length bs))) λ frame. ok (frame, drop bufsize (bs ++ behind))

  tcp_handle-packet :
      (got : Bytes)
      → tcp_handle big junk_type junk_length buf
          (be_bytes 2 pk_type)
          (be_bytes 2 (length bs % 2 ^ 16))
          got
        ≡ and_then
            (checked (put (zeros (length bs) ++ drop (length bs) buf) 0 got))
            λ b. checked (get b 0 (length bs))
  unfolding tcp_handle
  tcp_handle-packet got =
      let small : length bs % 2 ^ 16 ≡ length bs = omega arith in
      rw
        (
          read_short-be big junk_type pk_type jt (omega arith),
          small,
          read_short-be big junk_length (length bs) jl (omega arith),
          put-all buf (zeros (length bs)) (omega (arith, length-zeros (length bs))),
          length-zeros (length bs),
        )
        refl

  tcp_round-packet :
      tcp_round big junk_type junk_length buf (packet bs ++ behind)
      ≡ and_then
          (and_then
            (checked
              (put (zeros (length bs) ++ drop (length bs) buf) 0 (take bufsize (bs ++ behind))))
            λ b. checked (get b 0 (length bs)))
          λ frame. ok (frame, drop bufsize (bs ++ behind))
  unfolding tcp_round
  tcp_round-packet =
      let t = be_bytes 2 pk_type in
      let l = be_bytes 2 (length bs % 2 ^ 16) in
      let t2 = length-be_bytes 2 pk_type in
      let l2 = length-be_bytes 2 (length bs % 2 ^ 16) in
      let r = bs ++ behind in
      let split : packet bs ++ behind ≡ t ++ (l ++ r) =
        append_assoc t (l ++ bs) behind ∙ ap (t ++◌) (append_assoc l bs behind) in
      rw
        (
          split,
          drop_exactly 2 t (l ++ r) t2,
          take_exactly 2 t (l ++ r) t2,
          take_exactly 2 l r l2,
          sym (drop-drop 2 2 (t ++ (l ++ r))),
          drop_exactly 2 t (l ++ r) t2,
          drop_exactly 2 l r l2,
          tcp_handle-packet (take bufsize r),
        )
        refl

  cleared_length : length (zeros (length bs) ++ drop (length bs) buf) ≡ msglen
  cleared_length = omega (
    arith,
    length-append (zeros (length bs)) (drop (length bs) buf),
    length-zeros (length bs),
    length-drop (length bs) buf,
  )

  -- A round of `TAPHandle` and one of `TCPHandle`, with junk in the variables of the latter: a frame
  -- of at most 1496 bytes read from the tap device of one host is written to that of the other. The
  -- bytes that had arrived `behind` its packet, up to 1496 with the frame, are taken from the
  -- connection and lost.
  pub tcp_round-tap_handle :
      length bs + length behind ≤ msglen
      → and_then
          (tap_handle big (some bs))
          (λ sent. tcp_round big junk_type junk_length buf (sent ++ behind))
        ≡ ok (bs, [])
  tcp_round-tap_handle few =
      let r = bs ++ behind in
      let cleared = zeros (length bs) ++ drop (length bs) buf in
      let size = length-append bs behind in
      rw
        (
          tap_handle-packet big bs,
          tcp_round-packet,
          take_all bufsize r (omega (arith, size)),
          drop_all r bufsize (omega (arith, size)),
          put-all cleared r (omega (arith, size, cleared_length)),
          append_assoc bs behind (drop (length r) cleared),
          get-start bs (behind ++ drop (length r) cleared) (length bs) (omega arith),
          take_length bs,
        )
        refl

  -- The same round where more than 1496 bytes have arrived behind the header, as when the packet of
  -- a next frame follows: `TCPHandle` writes past the end of its buffer.
  pub tcp_round-fault :
      msglen < length bs + length behind
      → and_then
          (tap_handle big (some bs))
          (λ sent. tcp_round big junk_type junk_length buf (sent ++ behind))
        ≡ fault
  tcp_round-fault many =
      let r = bs ++ behind in
      let cleared = zeros (length bs) ++ drop (length bs) buf in
      rw
        (
          tap_handle-packet big bs,
          tcp_round-packet,
          put-none cleared (take bufsize r) 0
              (omega (arith, length-append bs behind, length-take bufsize r, cleared_length)),
        )
        refl
