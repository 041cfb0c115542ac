-- ===== src/Linkstate/Read.antt =====
-- `ntohLinkstate` of packets.c: the list that it builds from the bytes of a packet.
use cs352proxypart.Base.{
  ℕ, suc, ◌+◌, ◌*◌, ◌<◌, ◌≡◌, ◌≢◌, refl, ap, ◌∙◌, Bool, false, some, List, [], ◌∷◌, ◌++◌, arith,
  length, All, length-append, append_assoc,
}
use cs352proxypart.Memory.{Bytes, be_bytes}
use cs352proxypart.Memory.Order.{length-be_bytes}
use cs352proxypart.Packets.{Ptr, null, Link, LinkstateNode, node}
use cs352proxypart.Packets.Ranges.{IsLink}
use cs352proxypart.Heap.{ok, Nodes, deref, assign, malloc, write}
use cs352proxypart.Heap.Cells.{Entries, Cells, has}
use cs352proxypart.Codec.Access.{ReadsAt, ReadsAt-left, ReadsAt-right}
use cs352proxypart.Codec.Wire.{wire_proxy_info, length-wire_proxy_info}
use cs352proxypart.Codec.{read_uint, read_id, ntoh_proxy_info}
use cs352proxypart.Codec.RoundTrip.{read_uint-be, read_id-be, ntoh_proxy_info-wire}
use cs352proxypart.Linkstate.{ntoh_node, set_next, ntoh_round, ntoh_nodes}
use cs352proxypart.Linkstate.Write.{wire_link, length-wire_link}

-- The addresses that `malloc` gives in turn.
unfoldable pub placed : Ptr → List Link → Entries
placed p [] = []
placed p (l ∷ ls) = (p, l) ∷ placed (suc p) ls

unfoldable pub wire_all : List Link → Bytes
wire_all [] = []
wire_all (l ∷ ls) = wire_link l ++ wire_all ls

-- Where the `next` pointer of the last node leads: the code sets that of the first node only, and
-- the others keep what `malloc` left there.
unfoldable pub end_of : (Ptr → LinkstateNode) → (from stop : Ptr) → List Link → Ptr
end_of junk p stop [] = stop
end_of junk p stop (l ∷ ls) = end_of junk (suc p) ((junk p).next) ls

module _ (big : Bool) where
  -- `ntoh_node` reads the fields of the node number `i` where they stand.
  pub ntoh_node-wire :
      (l : Link) (i : ℕ) → IsLink l → ReadsAt (ntoh_node big i) (18 + 36 * i) (wire_link l) l
  unfolding ntoh_node wire_link
  ntoh_node-wire l i v xs ys e =
      let a = 18 + 36 * i in
      let b = 30 + 36 * i in
      let c = 42 + 36 * i in
      let d = 46 + 36 * i in
      let wl = wire_proxy_info l.local in
      let wr = wire_proxy_info l.remote in
      let ww = be_bytes 4 l.linkweight in
      let wi = be_bytes 8 l.id in
      let local = ntoh_proxy_info-wire big l.local a v.local in
      let remote = ntoh_proxy_info-wire big l.remote b v.remote in
      let weight = read_uint-be big 4 c l.linkweight v.linkweight in
      let id = read_id-be big d l.id v.id in
      let past_l : b ≡ a + length wl = omega (arith, length-wire_proxy_info l.local) in
      let past_r : c ≡ b + length wr = omega (arith, length-wire_proxy_info l.remote) in
      let past_w : d ≡ c + length ww = omega (arith, length-be_bytes 4 l.linkweight) in
      let fl = λ (m : Bytes). ntoh_proxy_info big m a in
      let fr = λ (m : Bytes). ntoh_proxy_info big m b in
      let fw = λ (m : Bytes). read_uint big 4 m c in
      let fi = λ (m : Bytes). read_id big m d in
      rw
        (
          ReadsAt-left fl a wl (wr ++ (ww ++ wi)) l.local local xs ys e,
          ReadsAt-right fr a b wl (wr ++ (ww ++ wi)) l.remote
              (ReadsAt-left fr b wr (ww ++ wi) l.remote remote) past_l xs ys e,
          ReadsAt-right fw a b wl (wr ++ (ww ++ wi)) l.linkweight
              (ReadsAt-right fw b c wr (ww ++ wi) l.linkweight
                (ReadsAt-left fw c ww wi l.linkweight weight) past_r)
              past_l xs ys e,
          ReadsAt-right fi a b wl (wr ++ (ww ++ wi)) l.id
              (ReadsAt-right fi b c wr (ww ++ wi) l.id (ReadsAt-right fi c d ww wi l.id id past_w)
                past_r)
              past_l xs ys e,
        )
        refl

  -- The same behind a known prefix, which the node then joins.
  pub node_read :
      (l : Link) (i : ℕ) (before ys : Bytes)
      → IsLink l
      → 18 + 36 * i ≡ length before
      → ntoh_node big i ((before ++ wire_link l) ++ ys) ≡ some l
  node_read l i before ys v e =
      rw (append_assoc before (wire_link l) ys) (ntoh_node-wire l i v before ys e)

pub regroup : (b w a r : Bytes) → b ++ ((w ++ a) ++ r) ≡ (b ++ w) ++ (a ++ r)
regroup b w a r = simp append_assoc

has-placed : (a p : Ptr) (ls : List Link) → a < p → has a (placed p ls) ≡ false
unfolding placed
has-placed a p [] h = refl
has-placed a p (l ∷ ls) h = ground (arith, has-placed a (suc p) ls)

-- The heap after a round that is not the first.
grown : Nodes → (a : Ptr) → (la l : Link) → Nodes
grown h a la l = record h {
  next_free = suc h.next_free;
  cell =
      write
        (write (write h.cell h.next_free (some (h.junk h.next_free))) h.next_free
          (some (node l ((h.junk h.next_free).next))))
        a (some (node la h.next_free));
}

module _ (h : Nodes) (a q : Ptr) (la l : Link) where
  grown_round :
      (big : Bool) (buffer : Bytes) (j : ℕ) (list : Ptr)
      → a ≢ null
      → a < h.next_free
      → h.cell a ≡ some (node la q)
      → ntoh_node big (suc j) buffer ≡ some l
      → ntoh_round big buffer (suc j) a list h ≡ ok (h.next_free, list, grown h a la l)
  unfolding ntoh_round malloc deref assign set_next write grown
  grown_round big buffer j list ne lt e r = ground arith

  grown_cells :
      a ≢ null
      → a < h.next_free
      → ((grown h a la l).cell h.next_free ≡ some (node l ((h.junk h.next_free).next)))
        × ((grown h a la l).cell a ≡ some (node la h.next_free))
  unfolding grown write
  grown_cells ne lt = ground arith

  grown_other : (b : Ptr) → b < h.next_free → b ≢ a → (grown h a la l).cell b ≡ h.cell b
  unfolding grown write
  grown_other b lt ne = ground arith

-- What the loop leaves: the nodes linked in order behind `a`, and all other nodes as they were.
pub record Linked (h : Nodes) (a : Ptr) (la : Link) (q : Ptr) (ls : List Link) (h' : Nodes)
    : Type 0 where
  pub cells : Cells h'.cell (end_of h.junk h.next_free q ls) ((a, la) ∷ placed h.next_free ls)
  pub kept : (b : Ptr) → b < h.next_free → b ≢ a → h'.cell b ≡ h.cell b
  pub grew : h'.next_free ≡ h.next_free + length ls

module _ (big : Bool) (list : Ptr) (buffer rest : Bytes) where
  pub ntoh_nodes-Linked :
      (ls : List Link) (j : ℕ) (h : Nodes) (a : Ptr) (la : Link) (q : Ptr) (before : Bytes)
      → buffer ≡ before ++ (wire_all ls ++ rest)
      → All IsLink ls
      → a ≢ null
      → a < h.next_free
      → h.cell a ≡ some (node la q)
      → 18 + 36 * suc j ≡ length before
      → (h' : Nodes) × (ntoh_nodes big buffer (length ls) (suc j) a list h ≡ ok (list, h'))
        × Linked h a la q ls h'
  unfolding ntoh_nodes wire_all end_of placed grown
  ntoh_nodes-Linked [] j h a la q before b v ne lt e at =
      (h, refl, record { cells = (ne, e, refl, tt); kept = λ b s n. refl; grew = omega arith })
  ntoh_nodes-Linked (l ∷ ls) j h a la q before b v ne lt e at =
      let nf = h.next_free in
      let w = wire_link l in
      let b' = b ∙ regroup before w (wire_all ls) rest in
      let (h', runs, linked) =
        ntoh_nodes-Linked ls (suc j) (grown h a la l) nf l ((h.junk nf).next) (before ++ w) b' v.1
          (omega arith) (omega arith) (grown_cells h a q la l ne lt).0
          (omega (arith, length-append before w, length-wire_link l)) in
      let read =
        ap (ntoh_node big (suc j)) b'
        ∙ node_read big l (suc j) before (wire_all ls ++ rest) v.0 at in
      (
        h',
        rw (grown_round h a q la l big buffer j list ne lt e read) runs,
        record {
          cells = (
            ne,
            linked.kept a (omega arith) (omega arith) ∙ (grown_cells h a q la l ne lt).1,
            has-placed a nf (l ∷ ls) lt,
            linked.cells,
          );
          kept = λ b s n. linked.kept b (omega arith) (omega arith) ∙ grown_other h a q la l b s n;
          grew = omega (arith, linked.grew);
        },
      )
