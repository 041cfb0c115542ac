-- ===== src/Linkstate/Write.antt =====
-- `htonLinkstate` of packets.c: the bytes that it writes for a list of nodes.
use cs352proxypart.Base.{
  ℕ, zero, suc, ◌+◌, ◌*◌, ◌^◌, ◌≤◌, ◌<◌, ◌≡◌, refl, ap, Bool, [], ◌∷◌, ◌++◌, arith, length, drop,
  All, length-append, length-drop, drop-drop, append_assoc, append-nil, ◌>>=◌,
}
use cs352proxypart.Memory.{Bytes, be_bytes}
use cs352proxypart.Memory.Order.{length-be_bytes}
use cs352proxypart.Packets.{null, PktHeader, ProxyInfo, Link, LinkstatePkt}
use cs352proxypart.Packets.Ranges.{IsLink}
use cs352proxypart.Heap.{ok, Nodes}
use cs352proxypart.Heap.Cells.{Entries, Cells, first, not_null, deref-Cells}
use cs352proxypart.Codec.Access.{WritesAt, WritesAt-then, WritesAt-start}
use cs352proxypart.Codec.Wire.{
  wire_header, wire_proxy_info, length-wire_header, length-wire_proxy_info, uint, id_uint, header,
  proxy_info, uint-WritesAt, id_uint-WritesAt, hton_header-wire, hton_proxy_info-wire,
}
use cs352proxypart.Linkstate.{hton_node, hton_nodes, hton_preamble, hton_linkstate}

unfoldable pub wire_link : Link → Bytes
wire_link l =
    wire_proxy_info l.local
    ++ (wire_proxy_info l.remote ++ (be_bytes 4 l.linkweight ++ be_bytes 8 l.id))

unfoldable pub wire_links : Entries → Bytes
wire_links [] = []
wire_links ((_, l) ∷ xs) = wire_link l ++ wire_links xs

unfoldable pub wire_preamble : PktHeader → ℕ → ProxyInfo → Bytes
wire_preamble h n source = wire_header h ++ (be_bytes 2 n ++ wire_proxy_info source)

abbrev pub AllLinks : Entries → Type 0
AllLinks = All (λ (_, l). IsLink l)

pub length-wire_link : (l : Link) → length (wire_link l) ≡ 36
unfolding wire_link
length-wire_link l = omega (
  arith,
  length-append (wire_proxy_info l.local)
      (wire_proxy_info l.remote ++ (be_bytes 4 l.linkweight ++ be_bytes 8 l.id)),
  length-append (wire_proxy_info l.remote) (be_bytes 4 l.linkweight ++ be_bytes 8 l.id),
  length-append (be_bytes 4 l.linkweight) (be_bytes 8 l.id),
  length-wire_proxy_info l.local,
  length-wire_proxy_info l.remote,
  length-be_bytes 4 l.linkweight,
  length-be_bytes 8 l.id,
)

pub length-wire_links : (xs : Entries) → length (wire_links xs) ≡ 36 * length xs
unfolding wire_links
length-wire_links [] = refl
length-wire_links ((_, l) ∷ xs) =
    omega
      (arith, length-append (wire_link l) (wire_links xs), length-wire_link l, length-wire_links xs)

pub length-wire_preamble :
    (h : PktHeader) (n : ℕ) (source : ProxyInfo) → length (wire_preamble h n source) ≡ 18
unfolding wire_preamble
length-wire_preamble h n source = omega (
  arith,
  length-append (wire_header h) (be_bytes 2 n ++ wire_proxy_info source),
  length-append (be_bytes 2 n) (wire_proxy_info source),
  length-wire_header h,
  length-be_bytes 2 n,
  length-wire_proxy_info source,
)

module _ (big : Bool) where
  hton_node-wire :
      (l : Link) (i : ℕ) → l.id < 2 ^ 64 → WritesAt (hton_node big l i) (18 + 36 * i) (wire_link l)
  unfolding hton_node wire_link
  hton_node-wire l i small =
      let a = 18 + 36 * i in
      let b = 30 + 36 * i in
      let c = 42 + 36 * i in
      let d = 46 + 36 * i in
      let tail = be_bytes 4 l.linkweight ++ be_bytes 8 l.id in
      WritesAt-then (proxy_info big a l.local)
        (λ m.
          proxy_info big b l.remote m >>= λ n. uint big c 4 l.linkweight n >>= id_uint big d l.id)
        a b (wire_proxy_info l.local) (wire_proxy_info l.remote ++ tail)
        (hton_proxy_info-wire big l.local a)
        (WritesAt-then (proxy_info big b l.remote)
          (λ n. uint big c 4 l.linkweight n >>= id_uint big d l.id) b c (wire_proxy_info l.remote)
          tail (hton_proxy_info-wire big l.remote b)
          (WritesAt-then (uint big c 4 l.linkweight) (id_uint big d l.id) c d
            (be_bytes 4 l.linkweight) (be_bytes 8 l.id) (uint-WritesAt big c 4 l.linkweight)
            (id_uint-WritesAt big d l.id small) (omega (arith, length-be_bytes 4 l.linkweight)))
          (omega (arith, length-wire_proxy_info l.remote)))
        (omega (arith, length-wire_proxy_info l.local))

  hton_preamble-wire :
      (pkt : LinkstatePkt)
      → WritesAt (hton_preamble big pkt) 0 (wire_preamble pkt.head pkt.num_neighbors pkt.source)
  unfolding hton_preamble wire_preamble
  hton_preamble-wire pkt =
      let n = be_bytes 2 pkt.num_neighbors in
      WritesAt-then (header big 0 pkt.head)
        (λ b. uint big 4 2 pkt.num_neighbors b >>= proxy_info big 6 pkt.source) 0 4
        (wire_header pkt.head) (n ++ wire_proxy_info pkt.source) (hton_header-wire big pkt.head 0)
        (WritesAt-then (uint big 4 2 pkt.num_neighbors) (proxy_info big 6 pkt.source) 4 6 n
          (wire_proxy_info pkt.source) (uint-WritesAt big 4 2 pkt.num_neighbors)
          (hton_proxy_info-wire big pkt.source 6)
          (omega (arith, length-be_bytes 2 pkt.num_neighbors)))
        (omega (arith, length-wire_header pkt.head))

  hton_nodes-wire :
      (h : Nodes) (fuel i : ℕ) (xs : Entries) (before after : Bytes)
      → Cells h.cell null xs
      → AllLinks xs
      → length xs < fuel
      → 18 + 36 * i ≡ length before
      → 36 * length xs ≤ length after
      → hton_nodes big h fuel (first null xs) i (before ++ after)
        ≡ ok ((before ++ wire_links xs) ++ drop (36 * length xs) after)
  unfolding hton_nodes wire_links
  hton_nodes-wire h zero i xs before after s ranges f e room = absurd (omega arith)
  hton_nodes-wire h (suc fuel) i [] before after s ranges f e room =
      ap ok (rw (append-nil before) refl)
  hton_nodes-wire h (suc fuel) i ((p, l) ∷ xs) before after s ranges f e room =
      let w = wire_link l in
      let size : length w ≡ 36 = length-wire_link l in
      rw
        (
          not_null h null p l xs s,
          deref-Cells h null p l xs s,
          hton_node-wire l i ranges.0.id before after e (omega arith),
          hton_nodes-wire h fuel (suc i) xs (before ++ w) (drop (length w) after) s.3 ranges.1
              (omega arith) (omega (arith, length-append before w))
              (omega (arith, length-drop (length w) after)),
          append_assoc before w (wire_links xs),
          drop-drop (36 * length xs) (length w) after,
        )
        (ap (λ (k : ℕ). ok ((before ++ (w ++ wire_links xs)) ++ drop k after)) (omega arith))

  -- What `htonLinkstate` makes of a packet and its list, in a buffer that has room: the header,
  -- the neighbour count, the source and each node in network order, on a host of either byte
  -- order. The bytes behind are kept.
  pub hton_linkstate-wire :
      (h : Nodes) (fuel : ℕ) (pkt : LinkstatePkt) (xs : Entries) (buffer : Bytes)
      → pkt.list ≡ first null xs
      → Cells h.cell null xs
      → AllLinks xs
      → length xs < fuel
      → 18 + 36 * length xs ≤ length buffer
      → hton_linkstate big h fuel pkt buffer
        ≡ ok (
            (wire_preamble pkt.head pkt.num_neighbors pkt.source ++ wire_links xs)
            ++ drop (18 + 36 * length xs) buffer)
  unfolding hton_linkstate
  hton_linkstate-wire h fuel pkt xs buffer e s ranges f room =
      let w = wire_preamble pkt.head pkt.num_neighbors pkt.source in
      let size : length w ≡ 18 = length-wire_preamble pkt.head pkt.num_neighbors pkt.source in
      rw
        (
          (WritesAt-start (hton_preamble big pkt) 18 w buffer (hton_preamble-wire pkt) size
              (omega arith)).0,
          e,
          hton_nodes-wire h fuel 0 xs w (drop 18 buffer) s ranges f (omega arith)
              (omega (arith, length-drop 18 buffer)),
          drop-drop (36 * length xs) 18 buffer,
        )
        refl
