-- ===== src/Codec/RoundTrip.antt =====
-- The `ntoh` functions of packets.c read back what the `hton` functions wrote.
use cs352proxypart.Base.{
  ℕ, ◌+◌, ◌^◌, ◌≤◌, ◌<◌, ◌≡◌, refl, ap, sym, Bool, some, [], ◌++◌, arith, length, drop,
}
use cs352proxypart.Memory.{Bytes, be_bytes, get}
use cs352proxypart.Memory.Buffer.{get-append}
use cs352proxypart.Memory.Order.{length-be_bytes, ntoh-load}
use cs352proxypart.Helper.Swap.{htonll-load}
use cs352proxypart.Packets.{mac_bytes, PktHeader, ProxyInfo, LeavePkt, QuitPkt}
use cs352proxypart.Packets.Ranges.{IsPktHeader, IsProxyInfo}
use cs352proxypart.Codec.{
  read_uint, read_id, hton_leave, hton_quit, ntoh_header, ntoh_proxy_info, ntoh_leave, ntoh_quit,
}
use cs352proxypart.Codec.Access.{ReadsAt, ReadsAt-left, ReadsAt-right, WritesAt-start}
use cs352proxypart.Codec.Wire.{
  wire_header, wire_proxy_info, wire_farewell, length-wire_header, length-wire_proxy_info,
  length-wire_farewell, hton_leave-wire, hton_quit-wire,
}

module _ (big : Bool) where
  pub read_uint-be :
      (n at x : ℕ) → x < 256 ^ n → ReadsAt (λ buffer. read_uint big n buffer at) at (be_bytes n x) x
  unfolding read_uint
  read_uint-be n at x h xs ys e =
      rw (get-append xs (be_bytes n x) ys at n e (sym (length-be_bytes n x)))
        (ap some (ntoh-load big n x h))

  pub read_id-be :
      (at x : ℕ) → x < 2 ^ 64 → ReadsAt (λ buffer. read_id big buffer at) at (be_bytes 8 x) x
  unfolding read_id
  read_id-be at x h xs ys e =
      rw (get-append xs (be_bytes 8 x) ys at 8 e (sym (length-be_bytes 8 x)))
        (ap some (htonll-load big x h))

  -- The second field of a header alone.
  pub length_field-wire :
      (h : PktHeader) (at : ℕ)
      → IsPktHeader h
      → ReadsAt (λ buffer. read_uint big 2 buffer (at + 2)) at (wire_header h) h.length
  unfolding wire_header
  length_field-wire h at ok =
      ReadsAt-right (λ buffer. read_uint big 2 buffer (at + 2)) at (at + 2) (be_bytes 2 h.type)
        (be_bytes 2 h.length) h.length (read_uint-be 2 (at + 2) h.length ok.length)
        (omega (arith, length-be_bytes 2 h.type))

  pub ntoh_header-wire :
      (h : PktHeader) (at : ℕ)
      → IsPktHeader h
      → ReadsAt (λ buffer. ntoh_header big buffer at) at (wire_header h) h
  unfolding ntoh_header wire_header
  ntoh_header-wire h at ok xs ys e =
      let t = be_bytes 2 h.type in
      let l = be_bytes 2 h.length in
      rw
        (
          ReadsAt-left (λ buffer. read_uint big 2 buffer at) at t l h.type
              (read_uint-be 2 at h.type ok.type) xs ys e,
          ReadsAt-right (λ buffer. read_uint big 2 buffer (at + 2)) at (at + 2) t l h.length
              (read_uint-be 2 (at + 2) h.length ok.length) (omega (arith, length-be_bytes 2 h.type))
              xs ys e,
        )
        refl

  pub ntoh_proxy_info-wire :
      (p : ProxyInfo) (at : ℕ)
      → IsProxyInfo p
      → ReadsAt (λ buffer. ntoh_proxy_info big buffer at) at (wire_proxy_info p) p
  unfolding ntoh_proxy_info wire_proxy_info
  ntoh_proxy_info-wire p at ok xs ys e =
      let i = be_bytes 4 p.ip in
      let q = be_bytes 2 p.portno in
      let m = mac_bytes p.macaddr in
      rw
        (
          ReadsAt-left (λ buffer. read_uint big 4 buffer at) at i (q ++ m) p.ip
              (read_uint-be 4 at p.ip ok.ip) xs ys e,
          ReadsAt-right (λ buffer. read_uint big 2 buffer (at + 4)) at (at + 4) i (q ++ m) p.portno
              (ReadsAt-left (λ buffer. read_uint big 2 buffer (at + 4)) (at + 4) q m p.portno
                (read_uint-be 2 (at + 4) p.portno ok.portno))
              (omega (arith, length-be_bytes 4 p.ip)) xs ys e,
          ReadsAt-right (λ buffer. get buffer (at + 6) 6) at (at + 4) i (q ++ m) m
              (ReadsAt-right (λ buffer. get buffer (at + 6) 6) (at + 4) (at + 6) q m m
                (λ us vs f. get-append us m vs (at + 6) 6 f refl)
                (omega (arith, length-be_bytes 2 p.portno)))
              (omega (arith, length-be_bytes 4 p.ip)) xs ys e,
        )
        refl

  farewell_read :
      (h : PktHeader) (p : ProxyInfo) (id : ℕ) (ys : Bytes)
      → IsPktHeader h
      → IsProxyInfo p
      → id < 2 ^ 64
      → let buffer = wire_farewell h p id ++ ys in
        (ntoh_header big buffer 0 ≡ some h)
        × (ntoh_proxy_info big buffer 4 ≡ some p)
        × (read_id big buffer 16 ≡ some id)
  unfolding wire_farewell
  farewell_read h p id ys oh op small =
      let w = wire_proxy_info p in
      let i = be_bytes 8 id in
      (
        ReadsAt-left (λ b. ntoh_header big b 0) 0 (wire_header h) (w ++ i) h
            (ntoh_header-wire h 0 oh) [] ys refl,
        ReadsAt-right (λ b. ntoh_proxy_info big b 4) 0 4 (wire_header h) (w ++ i) p
            (ReadsAt-left (λ b. ntoh_proxy_info big b 4) 4 w i p (ntoh_proxy_info-wire p 4 op))
            (omega (arith, length-wire_header h)) [] ys refl,
        ReadsAt-right (λ b. read_id big b 16) 0 4 (wire_header h) (w ++ i) id
            (ReadsAt-right (λ b. read_id big b 16) 4 16 w i id (read_id-be 16 id small)
              (omega (arith, length-wire_proxy_info p)))
            (omega (arith, length-wire_header h)) [] ys refl,
      )

  -- A leave packet written into any buffer of at least 24 bytes is read back as it was, and the
  -- bytes of the buffer behind it are kept.
  pub ntoh_leave-hton_leave :
      (pkt : LeavePkt) (buffer : Bytes)
      → IsPktHeader pkt.head
      → IsProxyInfo pkt.local
      → pkt.id < 2 ^ 64
      → 24 ≤ length buffer
      → (b : Bytes) × (hton_leave big pkt buffer ≡ some b)
        × (ntoh_leave big b ≡ some pkt)
        × (length b ≡ length buffer)
        × (drop 24 b ≡ drop 24 buffer)
  unfolding ntoh_leave
  ntoh_leave-hton_leave pkt buffer oh op small room =
      let wire = wire_farewell pkt.head pkt.local pkt.id in
      let rest = drop 24 buffer in
      let read = farewell_read pkt.head pkt.local pkt.id rest oh op small in
      let (written, size, kept) =
        WritesAt-start (hton_leave big pkt) 24 wire buffer (hton_leave-wire big pkt small)
          (length-wire_farewell pkt.head pkt.local pkt.id) room in
      (wire ++ rest, written, rw (read.0, read.1, read.2) refl, size, kept)

  -- The same for a quit packet.
  ntoh_quit-hton_quit :
      (pkt : QuitPkt) (buffer : Bytes)
      → IsPktHeader pkt.head
      → IsProxyInfo pkt.local
      → pkt.id < 2 ^ 64
      → 24 ≤ length buffer
      → (b : Bytes) × (hton_quit big pkt buffer ≡ some b)
        × (ntoh_quit big b ≡ some pkt)
        × (length b ≡ length buffer)
        × (drop 24 b ≡ drop 24 buffer)
  unfolding ntoh_quit
  ntoh_quit-hton_quit pkt buffer oh op small room =
      let wire = wire_farewell pkt.head pkt.local pkt.id in
      let rest = drop 24 buffer in
      let read = farewell_read pkt.head pkt.local pkt.id rest oh op small in
      let (written, size, kept) =
        WritesAt-start (hton_quit big pkt) 24 wire buffer (hton_quit-wire big pkt small)
          (length-wire_farewell pkt.head pkt.local pkt.id) room in
      (wire ++ rest, written, rw (read.0, read.1, read.2) refl, size, kept)
