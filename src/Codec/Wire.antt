-- ===== src/Codec/Wire.antt =====
-- The wire format of the structures of packets.h, all integers in network order, and that the
-- `hton` functions of packets.c produce it on a host of either byte order.
use cs352proxypart.Base.{
  ℕ, ◌+◌, ◌^◌, ◌<◌, ◌≡◌, Bool, Option, ◌++◌, arith, length, length-append, ◌>>=◌,
}
use cs352proxypart.Memory.{Bytes, be_bytes, store, hton, put}
use cs352proxypart.Memory.Order.{length-be_bytes, store-hton}
use cs352proxypart.Helper.{htonll}
use cs352proxypart.Helper.Swap.{htonll-hton}
use cs352proxypart.Packets.{mac_bytes, PktHeader, ProxyInfo, LeavePkt, QuitPkt}
use cs352proxypart.Codec.{hton_header, hton_proxy_info, hton_leave, hton_quit}
use cs352proxypart.Codec.Access.{WritesAt, put-WritesAt, WritesAt-then}

unfoldable pub wire_header : PktHeader → Bytes
wire_header h = be_bytes 2 h.type ++ be_bytes 2 h.length

unfoldable pub wire_proxy_info : ProxyInfo → Bytes
wire_proxy_info p = be_bytes 4 p.ip ++ (be_bytes 2 p.portno ++ mac_bytes p.macaddr)

-- Leave and quit packets have the same layout.
unfoldable pub wire_farewell : PktHeader → ProxyInfo → ℕ → Bytes
wire_farewell h p id = wire_header h ++ (wire_proxy_info p ++ be_bytes 8 id)

pub length-wire_header : (h : PktHeader) → length (wire_header h) ≡ 4
unfolding wire_header
length-wire_header h = omega (
  arith,
  length-append (be_bytes 2 h.type) (be_bytes 2 h.length),
  length-be_bytes 2 h.type,
  length-be_bytes 2 h.length,
)

pub length-wire_proxy_info : (p : ProxyInfo) → length (wire_proxy_info p) ≡ 12
unfolding wire_proxy_info
length-wire_proxy_info p = omega (
  arith,
  length-append (be_bytes 4 p.ip) (be_bytes 2 p.portno ++ mac_bytes p.macaddr),
  length-append (be_bytes 2 p.portno) (mac_bytes p.macaddr),
  length-be_bytes 4 p.ip,
  length-be_bytes 2 p.portno,
)

pub length-wire_farewell :
    (h : PktHeader) (p : ProxyInfo) (id : ℕ) → length (wire_farewell h p id) ≡ 24
unfolding wire_farewell
length-wire_farewell h p id = omega (
  arith,
  length-append (wire_header h) (wire_proxy_info p ++ be_bytes 8 id),
  length-append (wire_proxy_info p) (be_bytes 8 id),
  length-wire_header h,
  length-wire_proxy_info p,
  length-be_bytes 8 id,
)

module _ (big : Bool) where
  -- `memcpy(buffer + at, &x, n)` of an integer in network order.
  abbrev pub uint : ℕ → ℕ → ℕ → Bytes → Option Bytes
  uint at n x buffer = put buffer at (store big n (hton big n x))

  abbrev pub id_uint : ℕ → ℕ → Bytes → Option Bytes
  id_uint at x buffer = put buffer at (store big 8 (htonll big x))

  abbrev pub mac : ℕ → ProxyInfo → Bytes → Option Bytes
  mac at p buffer = put buffer at (mac_bytes p.macaddr)

  abbrev pub header : ℕ → PktHeader → Bytes → Option Bytes
  header at h buffer = hton_header big h buffer at

  abbrev pub proxy_info : ℕ → ProxyInfo → Bytes → Option Bytes
  proxy_info at p buffer = hton_proxy_info big p buffer at

module _ (big : Bool) where
  pub uint-WritesAt : (at n x : ℕ) → WritesAt (uint big at n x) at (be_bytes n x)
  uint-WritesAt at n x = rw (store-hton big n x) (put-WritesAt at (be_bytes n x))

  pub id_uint-WritesAt : (at x : ℕ) → x < 2 ^ 64 → WritesAt (id_uint big at x) at (be_bytes 8 x)
  id_uint-WritesAt at x h = rw (htonll-hton big x h) (uint-WritesAt at 8 x)

  pub hton_header-wire : (h : PktHeader) (at : ℕ) → WritesAt (header big at h) at (wire_header h)
  unfolding hton_header wire_header
  hton_header-wire h at =
      WritesAt-then (uint big at 2 h.type) (uint big (at + 2) 2 h.length) at (at + 2)
        (be_bytes 2 h.type) (be_bytes 2 h.length) (uint-WritesAt at 2 h.type)
        (uint-WritesAt (at + 2) 2 h.length) (omega (arith, length-be_bytes 2 h.type))

  pub hton_proxy_info-wire :
      (p : ProxyInfo) (at : ℕ) → WritesAt (proxy_info big at p) at (wire_proxy_info p)
  unfolding hton_proxy_info wire_proxy_info
  hton_proxy_info-wire p at =
      WritesAt-then (uint big at 4 p.ip)
        (λ buffer. uint big (at + 4) 2 p.portno buffer >>= mac big (at + 6) p) at (at + 4)
        (be_bytes 4 p.ip) (be_bytes 2 p.portno ++ mac_bytes p.macaddr) (uint-WritesAt at 4 p.ip)
        (WritesAt-then (uint big (at + 4) 2 p.portno) (mac big (at + 6) p) (at + 4) (at + 6)
          (be_bytes 2 p.portno) (mac_bytes p.macaddr) (uint-WritesAt (at + 4) 2 p.portno)
          (put-WritesAt (at + 6) (mac_bytes p.macaddr)) (omega (arith, length-be_bytes 2 p.portno)))
        (omega (arith, length-be_bytes 4 p.ip))

  farewell-wire :
      (h : PktHeader) (p : ProxyInfo) (id : ℕ)
      → id < 2 ^ 64
      → WritesAt
          (λ buffer. header big 0 h buffer >>= λ b. proxy_info big 4 p b >>= id_uint big 16 id)
          0
          (wire_farewell h p id)
  unfolding wire_farewell
  farewell-wire h p id small =
      WritesAt-then (header big 0 h) (λ b. proxy_info big 4 p b >>= id_uint big 16 id) 0 4
        (wire_header h) (wire_proxy_info p ++ be_bytes 8 id) (hton_header-wire h 0)
        (WritesAt-then (proxy_info big 4 p) (id_uint big 16 id) 4 16 (wire_proxy_info p)
          (be_bytes 8 id) (hton_proxy_info-wire p 4) (id_uint-WritesAt 16 id small)
          (omega (arith, length-wire_proxy_info p)))
        (omega (arith, length-wire_header h))

  pub hton_leave-wire :
      (pkt : LeavePkt)
      → pkt.id < 2 ^ 64
      → WritesAt (hton_leave big pkt) 0 (wire_farewell pkt.head pkt.local pkt.id)
  unfolding hton_leave
  hton_leave-wire pkt h = farewell-wire pkt.head pkt.local pkt.id h

  pub hton_quit-wire :
      (pkt : QuitPkt)
      → pkt.id < 2 ^ 64
      → WritesAt (hton_quit big pkt) 0 (wire_farewell pkt.head pkt.local pkt.id)
  unfolding hton_quit
  hton_quit-wire pkt h = farewell-wire pkt.head pkt.local pkt.id h
