-- ===== src/Linkstate/RoundTrip.antt =====
-- A link state packet from the sender's list to the receiver's.
use cs352proxypart.Base.{
  ℕ, suc, ◌+◌, ◌*◌, ◌^◌, ◌≤◌, ◌<◌, ◌≡◌, ◌≢◌, refl, ap, sym, ◌∙◌, Bool, List, [], ◌∷◌, ◌++◌, arith,
  length, drop, All, length-append, append_assoc, ltb-eq_false,
}
use cs352proxypart.Memory.{Bytes}
use cs352proxypart.Packets.{Ptr, null, PktHeader, ProxyInfo, Link, LinkstatePkt}
use cs352proxypart.Packets.Ranges.{IsLink, IsPktHeader, IsProxyInfo}
use cs352proxypart.Heap.{ok, Nodes}
use cs352proxypart.Heap.Cells.{Entries, Cells, first}
use cs352proxypart.Linkstate.{
  ntoh_node, ntoh_nodes, num_nodes, pkt_memory, hton_linkstate, ntoh_linkstate,
}
use cs352proxypart.Linkstate.Single.{started, started_round, started_cells, preamble_read}
use cs352proxypart.Linkstate.Write.{
  wire_link, wire_links, wire_preamble, AllLinks, length-wire_link, length-wire_preamble,
  hton_linkstate-wire,
}
use cs352proxypart.Linkstate.Read.{placed, wire_all, end_of, node_read, ntoh_nodes-Linked, regroup}

module _ (big : Bool) (wild : Ptr) (hd : PktHeader) (n : ℕ) (source : ProxyInfo) where
  abbrev received : Ptr → LinkstatePkt
  received p = record { head = hd; num_neighbors = n; source = source; list = p }

module _ (big : Bool) (wild : Ptr) (hd : PktHeader) (n : ℕ) (source : ProxyInfo) where
  -- `ntohLinkstate` on the bytes of a packet whose length field stands for as many nodes as follow:
  -- the fields, and fresh nodes with the fields sent. The last one leads to `NULL` if it is the
  -- only one, and else to where junk memory says.
  pub ntoh_linkstate-wire :
      (l : Link) (ls : List Link) (rest : Bytes) (h : Nodes)
      → IsPktHeader hd
      → n < 2 ^ 16
      → IsProxyInfo source
      → All IsLink (l ∷ ls)
      → num_nodes hd.length ≡ suc (length ls)
      → h.next_free ≢ null
      → (h' : Nodes) × (ntoh_linkstate big wild
            (wire_preamble hd n source ++ (wire_all (l ∷ ls) ++ rest))
            h
          ≡ ok (received big wild hd n source h.next_free, h'))
        × Cells h'.cell (end_of h.junk (suc h.next_free) null ls) (placed h.next_free (l ∷ ls))
        × ((b : Ptr) → b < h.next_free → h'.cell b ≡ h.cell b)
        × (h'.next_free ≡ h.next_free + suc (length ls))
  unfolding ntoh_linkstate ntoh_nodes placed wire_all started
  ntoh_linkstate-wire l ls rest h oh small os v count ne =
      let w = wire_preamble hd n source in
      let buffer = w ++ ((wire_link l ++ wire_all ls) ++ rest) in
      let (r0, r1, r2, r3) =
        preamble_read big hd n source ((wire_link l ++ wire_all ls) ++ rest) oh small os in
      let split = regroup w (wire_link l) (wire_all ls) rest in
      let size = length-wire_preamble hd n source in
      let read =
        ap (ntoh_node big 0) split ∙ node_read big l 0 w (wire_all ls ++ rest) v.0 (omega arith) in
      let (h', runs, linked) =
        ntoh_nodes-Linked big h.next_free buffer rest ls 0 (started h l) h.next_free l null
          (w ++ wire_link l) split v.1 ne (omega arith) (started_cells h l).0
          (omega (arith, length-append w (wire_link l), length-wire_link l)) in
      (
        h',
        rw
            (
              r0,
              r1,
              r2,
              r3,
              ltb-eq_false (pkt_memory hd.length) 20 (omega arith),
              count,
              started_round big buffer wild h l ne read,
              runs,
            )
            refl,
        linked.cells,
        λ b lt. linked.kept b (omega arith) (omega arith) ∙ (started_cells h l).1 b lt,
        omega (arith, linked.grew),
      )

abbrev pub links : Entries → List Link
links [] = []
links ((_, l) ∷ xs) = l ∷ links xs

pub wire_links-links : (xs : Entries) → wire_links xs ≡ wire_all (links xs)
unfolding wire_links wire_all
wire_links-links [] = refl
wire_links-links ((_, l) ∷ xs) = ap (◌++◌ (wire_link l)) (wire_links-links xs)

pub links-IsLink : (xs : Entries) → AllLinks xs → All IsLink (links xs)
links-IsLink [] v = tt
links-IsLink ((_, l) ∷ xs) v = (v.0, links-IsLink xs v.1)

pub length-links : (xs : Entries) → length (links xs) ≡ length xs
length-links [] = refl
length-links ((_, l) ∷ xs) = ap suc (length-links xs)

-- A packet that can be sent: its fields fit their types, its list is a chain of nodes, and the
-- length field stands for as many nodes as the chain has.
pub record IsSendable (h : Nodes) (pkt : LinkstatePkt) (xs : Entries) : Type 0 where
  pub head : IsPktHeader pkt.head
  pub num_neighbors : pkt.num_neighbors < 2 ^ 16
  pub source : IsProxyInfo pkt.source
  pub list : pkt.list ≡ first null xs
  pub cells : Cells h.cell null xs
  pub ranges : AllLinks xs
  pub count : num_nodes pkt.head.length ≡ length xs

-- What one host serializes another one reads back, whatever the byte order of each: the same
-- fields, and one fresh node for each node of the list, in order and with its contents. A single
-- node is followed by `NULL`; where there are more, the last one is followed by what the memory
-- held before.
pub ntoh_linkstate-hton_linkstate :
    (sender receiver : Bool) (h k : Nodes) (pkt : LinkstatePkt) (p : Ptr) (l : Link) (xs : Entries)
    (buffer : Bytes) (fuel : ℕ) (wild : Ptr)
    → IsSendable h pkt ((p, l) ∷ xs)
    → suc (length xs) < fuel
    → 18 + 36 * suc (length xs) ≤ length buffer
    → k.next_free ≢ null
    → (b : Bytes) × (k' : Nodes) × (hton_linkstate sender h fuel pkt buffer ≡ ok b)
      × (ntoh_linkstate receiver wild b k ≡ ok (record pkt { list = k.next_free }, k'))
      × Cells k'.cell
          (end_of k.junk (suc k.next_free) null (links xs))
          (placed k.next_free (l ∷ links xs))
      × ((a : Ptr) → a < k.next_free → k'.cell a ≡ k.cell a)
ntoh_linkstate-hton_linkstate sender receiver h k pkt p l xs buffer fuel wild s f room ne =
    let w = wire_preamble pkt.head pkt.num_neighbors pkt.source in
    let rest = drop (18 + 36 * suc (length xs)) buffer in
    let (k', read, cells, kept, _) =
      ntoh_linkstate-wire receiver wild pkt.head pkt.num_neighbors pkt.source l (links xs) rest k
        s.head s.num_neighbors s.source (links-IsLink ((p, l) ∷ xs) s.ranges)
        (s.count ∙ ap suc (sym (length-links xs))) ne in
    (
      w ++ (wire_all (l ∷ links xs) ++ rest),
      k',
      hton_linkstate-wire sender h fuel pkt ((p, l) ∷ xs) buffer s.list s.cells s.ranges f room
          ∙ ap ok (
              append_assoc w (wire_links ((p, l) ∷ xs)) rest
              ∙ ap (λ (b : Bytes). w ++ (b ++ rest)) (wire_links-links ((p, l) ∷ xs))),
      read,
      cells,
      kept,
    )
