-- ===== src/Codec.antt =====
-- packets.c without the link state packets: each `hton` function writes the structure into the
-- buffer from the offset `at` on, each `ntoh` function reads one. `none` is an access past the end
-- of the buffer. The structures that the `ntoh` functions allocate, and free again or return, are
-- the values that they return.
pub mod Access
pub mod Wire
pub mod RoundTrip
use cs352proxypart.Base.{ℕ, ◌+◌, Bool, Option, none, some, List, [], ◌∷◌, get_or, ◌>>=◌}
use cs352proxypart.Memory.{Bytes, store, load, hton, ntoh, put, get}
use cs352proxypart.Helper.{htonll}
use cs352proxypart.Packets.{
  Ptr, Mac, mac_bytes, PktHeader, ProxyInfo, DataPkt, LeavePkt, QuitPkt, max_data_len,
}

-- `ntohs(*(uint16_t*)(buffer + at))` for n = 2, and `ntohl` for n = 4
unfoldable pub read_uint : Bool → ℕ → Bytes → ℕ → Option ℕ
read_uint big n buffer at = do bytes ← get buffer at n; some (ntoh big n (load big bytes))

-- `htonll(*(uint64_t*)(buffer + at))`
unfoldable pub read_id : Bool → Bytes → ℕ → Option ℕ
read_id big buffer at = do bytes ← get buffer at 8; some (htonll big (load big bytes))

unfoldable pub hton_header : Bool → PktHeader → Bytes → ℕ → Option Bytes
hton_header big head buffer at = do
  buffer ← put buffer at (store big 2 (hton big 2 head.type))
  put buffer (at + 2) (store big 2 (hton big 2 head.length))

unfoldable pub ntoh_header : Bool → Bytes → ℕ → Option PktHeader
ntoh_header big buffer at = do
  type ← read_uint big 2 buffer at
  length ← read_uint big 2 buffer (at + 2)
  some (record { type = type; length = length })

unfoldable pub hton_proxy_info : Bool → ProxyInfo → Bytes → ℕ → Option Bytes
hton_proxy_info big proxy buffer at = do
  buffer ← put buffer at (store big 4 (hton big 4 proxy.ip))
  buffer ← put buffer (at + 4) (store big 2 (hton big 2 proxy.portno))
  put buffer (at + 6) (mac_bytes proxy.macaddr)

-- `for (j = 0; j < 6; j++) proxy->macaddr[j] = macaddr[j]`
abbrev pub mac_of : Bytes → Mac
mac_of b = record {
  m0 = get_or b 0 0;
  m1 = get_or b 1 0;
  m2 = get_or b 2 0;
  m3 = get_or b 3 0;
  m4 = get_or b 4 0;
  m5 = get_or b 5 0;
}

unfoldable pub ntoh_proxy_info : Bool → Bytes → ℕ → Option ProxyInfo
ntoh_proxy_info big buffer at = do
  ip ← read_uint big 4 buffer at
  portno ← read_uint big 2 buffer (at + 4)
  macaddr ← get buffer (at + 6) 6
  some (record { ip = ip; portno = portno; macaddr = mac_of macaddr })

-- The copy starts at the pointer `pkt->data` itself, which is an object of eight bytes.
unfoldable pub hton_data : Bool → DataPkt → Bytes → Option Bytes
hton_data big pkt buffer = do
  buffer ← hton_header big pkt.head buffer 0
  bytes ← get (store big 8 pkt.payload) 0 max_data_len
  put buffer 4 bytes

-- `address` is that of the buffer; the data is not copied.
unfoldable pub ntoh_data : Bool → Ptr → Bytes → Option DataPkt
ntoh_data big address buffer = do
  head ← ntoh_header big buffer 0
  some (record { head = head; payload = address + 4 })

unfoldable pub hton_leave : Bool → LeavePkt → Bytes → Option Bytes
hton_leave big pkt buffer = do
  buffer ← hton_header big pkt.head buffer 0
  buffer ← hton_proxy_info big pkt.local buffer 4
  put buffer 16 (store big 8 (htonll big pkt.id))

unfoldable pub ntoh_leave : Bool → Bytes → Option LeavePkt
ntoh_leave big buffer = do
  head ← ntoh_header big buffer 0
  local ← ntoh_proxy_info big buffer 4
  id ← read_id big buffer 16
  some (record { head = head; local = local; id = id })

unfoldable pub hton_quit : Bool → QuitPkt → Bytes → Option Bytes
hton_quit big pkt buffer = do
  buffer ← hton_header big pkt.head buffer 0
  buffer ← hton_proxy_info big pkt.local buffer 4
  put buffer 16 (store big 8 (htonll big pkt.id))

unfoldable pub ntoh_quit : Bool → Bytes → Option QuitPkt
ntoh_quit big buffer = do
  head ← ntoh_header big buffer 0
  local ← ntoh_proxy_info big buffer 4
  id ← read_id big buffer 16
  some (record { head = head; local = local; id = id })
