-- ===== src/Linkstate/Single.antt =====
-- Link state packets of one node, which a connection begins with.
use cs352proxypart.Base.{
  append-nil, drop_all, ℕ, suc, ◌+◌, ◌^◌, ◌<◌, ◌≡◌, ◌≢◌, refl, ap, sym, ◌∙◌, Bool, some, [], ◌∷◌,
  ◌++◌, arith, length, drop, length-append, append_assoc,
}
use cs352proxypart.Memory.{Bytes, be_bytes}
use cs352proxypart.Memory.Order.{length-be_bytes}
use cs352proxypart.Packets.{
  Ptr, null, PktHeader, ProxyInfo, Link, node, LinkstatePkt, pkt_linkstate,
}
use cs352proxypart.Packets.Ranges.{IsLink, IsPktHeader, IsProxyInfo}
use cs352proxypart.Heap.{ok, Nodes, deref, assign, malloc, write}
use cs352proxypart.Heap.Cells.{deref_not_null}
use cs352proxypart.Codec.{read_uint, ntoh_header, ntoh_proxy_info}
use cs352proxypart.Codec.Access.{ReadsAt-left, ReadsAt-right}
use cs352proxypart.Codec.Wire.{wire_header, wire_proxy_info, length-wire_header}
use cs352proxypart.Codec.RoundTrip.{
  read_uint-be, length_field-wire, ntoh_header-wire, ntoh_proxy_info-wire,
}
use cs352proxypart.Linkstate.{ntoh_node, ntoh_round, ntoh_nodes, hton_linkstate, ntoh_linkstate}
use cs352proxypart.Linkstate.Write.{
  wire_link, wire_links, wire_preamble, length-wire_link, length-wire_preamble, hton_linkstate-wire,
}
use cs352proxypart.Linkstate.Read.{node_read}

-- The heap after the first round.
unfoldable pub started : Nodes → Link → Nodes
started h l = record h {
  next_free = suc h.next_free;
  cell =
      write (write h.cell h.next_free (some (h.junk h.next_free))) h.next_free (some (node l null));
}

pub started_next : (h : Nodes) (l : Link) → (started h l).next_free ≡ suc h.next_free
unfolding started
started_next h l = refl

pub started_round :
    (big : Bool) (buffer : Bytes) (wild : Ptr) (h : Nodes) (l : Link)
    → h.next_free ≢ null
    → ntoh_node big 0 buffer ≡ some l
    → ntoh_round big buffer 0 null wild h ≡ ok (h.next_free, h.next_free, started h l)
unfolding ntoh_round malloc deref assign write started
started_round big buffer wild h l ne r = ground arith

pub started_cells :
    (h : Nodes) (l : Link)
    → ((started h l).cell h.next_free ≡ some (node l null))
      × ((b : Ptr) → b < h.next_free → (started h l).cell b ≡ h.cell b)
unfolding started write
started_cells h l = (ground arith, λ b lt. ground arith)

-- The preamble is read back.
pub preamble_read :
    (big : Bool) (hd : PktHeader) (n : ℕ) (source : ProxyInfo) (ys : Bytes)
    → IsPktHeader hd
    → n < 2 ^ 16
    → IsProxyInfo source
    → let buffer = wire_preamble hd n source ++ ys in
      (read_uint big 2 buffer 2 ≡ some hd.length)
      × (ntoh_header big buffer 0 ≡ some hd)
      × (read_uint big 2 buffer 4 ≡ some n)
      × (ntoh_proxy_info big buffer 6 ≡ some source)
unfolding wire_preamble
preamble_read big hd n source ys oh small os =
    let w = wire_header hd in
    let c = be_bytes 2 n in
    let p = wire_proxy_info source in
    let past_w : 4 ≡ 0 + length w = omega (arith, length-wire_header hd) in
    let past_c : 6 ≡ 4 + length c = omega (arith, length-be_bytes 2 n) in
    (
      ReadsAt-left (λ b. read_uint big 2 b 2) 0 w (c ++ p) hd.length (length_field-wire big hd 0 oh)
          [] ys refl,
      ReadsAt-left (λ b. ntoh_header big b 0) 0 w (c ++ p) hd (ntoh_header-wire big hd 0 oh) [] ys
          refl,
      ReadsAt-right (λ b. read_uint big 2 b 4) 0 4 w (c ++ p) n
          (ReadsAt-left (λ b. read_uint big 2 b 4) 4 c p n (read_uint-be big 2 4 n small)) past_w []
          ys refl,
      ReadsAt-right (λ b. ntoh_proxy_info big b 6) 0 4 w (c ++ p) source
          (ReadsAt-right (λ b. ntoh_proxy_info big b 6) 4 6 c p source
            (ntoh_proxy_info-wire big source 6 os) past_c)
          past_w [] ys refl,
    )

-- The 54 bytes of a packet of one node.
unfoldable pub single : ℕ → ProxyInfo → Link → Bytes
single n source l =
    wire_preamble (record { type = pkt_linkstate; length = 50 }) n source ++ wire_link l

pub length-single : (n : ℕ) (source : ProxyInfo) (l : Link) → length (single n source l) ≡ 54
unfolding single
length-single n source l = omega (
  arith,
  length-append (wire_preamble (record { type = pkt_linkstate; length = 50 }) n source)
      (wire_link l),
  length-wire_preamble (record { type = pkt_linkstate; length = 50 }) n source,
  length-wire_link l,
)

-- It begins with the type.
pub single_type :
    (n : ℕ) (source : ProxyInfo) (l : Link)
    → (tail : Bytes) × (single n source l ≡ be_bytes 2 pkt_linkstate ++ tail)
unfolding single wire_preamble wire_header
single_type n source l =
    (be_bytes 2 50 ++ ((be_bytes 2 n ++ wire_proxy_info source) ++ wire_link l), simp append_assoc)

abbrev pub single_pkt : ℕ → ProxyInfo → Ptr → LinkstatePkt
single_pkt n source p = record {
  head = record { type = pkt_linkstate; length = 50 };
  num_neighbors = n;
  source = source;
  list = p;
}

module _ (big : Bool) (n : ℕ) (source : ProxyInfo) (l : Link) (ranges : IsLink l) where
  pub hton_linkstate-single :
      (h : Nodes) (fuel : ℕ) (p : Ptr) (buffer : Bytes)
      → deref h p ≡ ok (node l null)
      → 1 < fuel
      → length buffer ≡ 54
      → hton_linkstate big h fuel (single_pkt n source p) buffer ≡ ok (single n source l)
  unfolding single wire_links deref
  hton_linkstate-single h fuel p buffer is f size =
      let ne = deref_not_null h p (node l null) is in
      let at : h.cell p ≡ some (node l null) = ground (arith, is) in
      let w = wire_preamble (record { type = pkt_linkstate; length = 50 }) n source in
      hton_linkstate-wire big h fuel (single_pkt n source p) ((p, l) ∷ []) buffer refl
        (ne, at, refl, tt) (ranges, tt) f (omega arith)
      ∙ ap ok (
          ap (λ (b : Bytes). b ++ drop 54 buffer) (ap (◌++◌ w) (append-nil (wire_link l)))
          ∙ ap (◌++◌ (w ++ wire_link l)) (drop_all buffer 54 (omega arith))
          ∙ append-nil (w ++ wire_link l))

  pub ntoh_linkstate-single :
      (wild : Ptr) (rest : Bytes) (h : Nodes)
      → IsProxyInfo source
      → n < 2 ^ 16
      → h.next_free ≢ null
      → ntoh_linkstate big wild (single n source l ++ rest) h
        ≡ ok (single_pkt n source h.next_free, started h l)
  unfolding ntoh_linkstate ntoh_nodes single
  ntoh_linkstate-single wild rest h os small ne =
      let hd : PktHeader = record { type = pkt_linkstate; length = 50 } in
      let w = wire_preamble hd n source in
      let oh : IsPktHeader hd = record { type = omega arith; length = omega arith } in
      let (r0, r1, r2, r3) = preamble_read big hd n source (wire_link l ++ rest) oh small os in
      let split = append_assoc w (wire_link l) rest in
      let read =
        ap (ntoh_node big 0) (sym split)
        ∙ node_read big l 0 w rest ranges (omega (arith, length-wire_preamble hd n source)) in
      rw (split, r0, r1, r2, r3, started_round big (w ++ (wire_link l ++ rest)) wild h l ne read)
        refl
