-- ===== src/Members/Delete.antt =====
-- `delete_members` of cs352proxy.c: which entry it takes out, and what becomes of the lock.
use cs352proxypart.Base.{
  ℕ, zero, suc, ◌<◌, ◌≡◌, ◌≢◌, refl, ap, ◌∙◌, Bool, false, Option, some, ◌∷◌, arith, ◌==◌, length,
}
use cs352proxypart.Helper.{comp_mac_addrs}
use cs352proxypart.Helper.MacCompare.{comp_mac_addrs-decides, comp_mac_addrs_self}
use cs352proxypart.Packets.{Ptr, null, Mac, Link, LinkstateNode, node}
use cs352proxypart.Heap.{ok, deref, write}
use cs352proxypart.Heap.Cells.{Entries, Cells, Cells-write, first, has, not_null, deref-Cells}
use cs352proxypart.State.{State, load, set_head, set_size}
use cs352proxypart.State.Laws.{set_next-ok}
use cs352proxypart.State.UtHash.{UtHash}
use cs352proxypart.Sockets.{deletesockfd}
use cs352proxypart.Members.{decrement, delete_from, delete_members}

-- `ys` is `xs` without its first entry for the remote address `m`.
pub data Erased (m : Mac) : Entries → Entries → Type 0 where
  here : {p : Ptr} {l : Link} {xs : Entries} → l.remote.macaddr ≡ m → Erased m ((p, l) ∷ xs) xs
  later :
      {p : Ptr} {l : Link} {xs ys : Entries}
      → l.remote.macaddr ≢ m
      → Erased m xs ys
      → Erased m ((p, l) ∷ xs) ((p, l) ∷ ys)

pub length-Erased : {m : Mac} {xs ys : Entries} → Erased m xs ys → length xs ≡ suc (length ys)
length-Erased (here e) = refl
length-Erased (later ne r) = ap suc (length-Erased r)

pub has-Erased :
    {m : Mac} {xs ys : Entries} (a : Ptr) → Erased m xs ys → has a xs ≡ false → has a ys ≡ false
has-Erased a (here e) h = ground arith
has-Erased a (later ne r) h = ground (arith, has-Erased a r)

differ : (a b : Mac) → a ≢ b → (comp_mac_addrs a b == 0) ≡ false
differ a b ne = ground (arith, comp_mac_addrs-decides a b)

-- `s` with one entry less, and the heap, the head of the list, the table and the lock given.
abbrev pub pruned : {T : Type 0} → State T → T → Bool → (Ptr → Option LinkstateNode) → Ptr → State T
pruned s t b c head = record s {
  nodes = record s.nodes { cell = c };
  mem_list = record s.mem_list { head = head; size = decrement s.mem_list.size };
  socketfds = t;
  deleterlock = b;
}

module _ {T : Type 0} (u : UtHash T) (s : State T) (link : Ptr) (n : LinkstateNode) (t : T)
    (b : Bool) (points : deref s.nodes link ≡ ok n)
    (drops : deletesockfd u n.remote.macaddr s
      ≡ ok (tt, record s { socketfds = t; deleterlock = b })) where
  -- The step at the entry that is taken out, behind the entry `(q, lq)`.
  cut_here :
      (fuel : ℕ) (q : Ptr) (lq : Link) (p : Ptr) (l : Link) (xs : Entries)
      → Cells s.nodes.cell null ((q, lq) ∷ (p, l) ∷ xs)
      → l.remote.macaddr ≡ n.remote.macaddr
      → delete_from u (suc fuel) link q p s
        ≡ ok (
          tt,
          pruned s t b (write s.nodes.cell q (some (node lq (first null xs)))) s.mem_list.head,
        )
  unfolding delete_from load set_head set_size
  cut_here fuel q lq p l xs c e =
      rw
        (
          not_null s.nodes null p l xs c.3,
          deref-Cells s.nodes null p l xs c.3,
          points,
          e,
          comp_mac_addrs_self n.remote.macaddr,
          drops,
          not_null s.nodes null q lq ((p, l) ∷ xs) c,
          set_next-ok (record s { socketfds = t; deleterlock = b }) q (node lq p)
              (deref-Cells s.nodes null q lq ((p, l) ∷ xs) c) (first null xs),
        )
        refl

  -- The same at the head of the list.
  cut_head :
      (fuel : ℕ) (p : Ptr) (l : Link) (xs : Entries)
      → Cells s.nodes.cell null ((p, l) ∷ xs)
      → l.remote.macaddr ≡ n.remote.macaddr
      → delete_from u (suc fuel) link null p s ≡ ok (tt, pruned s t b s.nodes.cell (first null xs))
  unfolding delete_from load set_head set_size
  cut_head fuel p l xs c e =
      rw
        (
          not_null s.nodes null p l xs c,
          deref-Cells s.nodes null p l xs c,
          points,
          e,
          comp_mac_addrs_self n.remote.macaddr,
          drops,
        )
        refl

  -- A step past an entry for another address.
  pass :
      (fuel : ℕ) (prev p : Ptr) (l : Link) (xs : Entries)
      → Cells s.nodes.cell null ((p, l) ∷ xs)
      → l.remote.macaddr ≢ n.remote.macaddr
      → delete_from u (suc fuel) link prev p s ≡ delete_from u fuel link p (first null xs) s
  unfolding delete_from load
  pass fuel prev p l xs c ne =
      rw
        (
          not_null s.nodes null p l xs c,
          deref-Cells s.nodes null p l xs c,
          points,
          differ l.remote.macaddr n.remote.macaddr ne,
        )
        refl

  -- The heap that the loop leaves, from the entry behind `(q, lq)` on.
  delete_from-Erased :
      (fuel : ℕ) (q : Ptr) (lq : Link) {xs ys : Entries}
      → Erased n.remote.macaddr xs ys
      → Cells s.nodes.cell null ((q, lq) ∷ xs)
      → length xs < fuel
      → (c' : Ptr → Option LinkstateNode) × (delete_from u fuel link q (first null xs) s
          ≡ ok (tt, pruned s t b c' s.mem_list.head))
        × Cells c' null ((q, lq) ∷ ys)
        × ((a : Ptr) → has a ((q, lq) ∷ xs) ≡ false → c' a ≡ s.nodes.cell a)
  unfolding write
  delete_from-Erased zero q lq r c f = absurd (omega arith)
  delete_from-Erased (suc fuel) q lq (here {p} {l} {xs} e) c f = (
    write s.nodes.cell q (some (node lq (first null xs))),
    cut_here fuel q lq p l xs c e,
    (c.0, ground arith, ground arith, Cells-write s.nodes.cell q _ null xs c.3.3 (ground arith)),
    λ a out. ground arith,
  )
  delete_from-Erased (suc fuel) q lq (later {p} {l} {xs} {ys} ne r) c f =
      let (c', runs, cells, kept) = delete_from-Erased fuel p l r c.3 (omega arith) in
      (
        c',
        pass fuel q p l xs c.3 ne ∙ runs,
        (c.0, kept q c.2 ∙ c.1, has-Erased q (later {p = p} {l = l} ne r) c.2, cells),
        λ a out. kept a (ground arith),
      )

  -- `delete_members` takes out the first entry for the remote address of the given node, which
  -- need not be the entry of that node. The rest of the list stays in order, the size falls by
  -- one, the socket goes from the table, and nodes outside the list stay as they are.
  pub delete_members-Erased :
      (fuel : ℕ) {xs ys : Entries}
      → Erased n.remote.macaddr xs ys
      → s.mem_list.head ≡ first null xs
      → Cells s.nodes.cell null xs
      → length xs < fuel
      → (c' : Ptr → Option LinkstateNode) × (delete_members u fuel link s
          ≡ ok (tt, pruned s t b c' (first null ys)))
        × Cells c' null ys
        × ((a : Ptr) → has a xs ≡ false → c' a ≡ s.nodes.cell a)
  unfolding delete_members
  delete_members-Erased zero r e c f = absurd (omega arith)
  delete_members-Erased (suc fuel) (here {p} {l} {xs} e) h c f = (
    s.nodes.cell,
    ap (λ (q : Ptr). delete_from u (suc fuel) link null q s) h ∙ cut_head fuel p l xs c e,
    c.3,
    λ a out. refl,
  )
  delete_members-Erased (suc fuel) (later {p} {l} {xs} {ys} ne r) h c f =
      let (c', runs, cells, kept) = delete_from-Erased fuel p l r c (omega arith) in
      (
        c',
        ap (λ (q : Ptr). delete_from u (suc fuel) link null q s) h
            ∙ pass fuel null p l xs c ne
            ∙ runs
            ∙ ap (λ (q : Ptr). ok (tt, pruned s t b c' q)) h,
        cells,
        kept,
      )
