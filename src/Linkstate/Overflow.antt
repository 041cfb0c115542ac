-- ===== src/Linkstate/Overflow.antt =====
-- `htonLinkstate` in a buffer that is too small: the code checks no bound, and writes past the end.
use cs352proxypart.Base.{
  ℕ, zero, suc, ◌+◌, ◌*◌, ◌≤◌, ◌<◌, ◌≡◌, inl, inr, sym, ◌∙◌, Bool, Option, [], ◌∷◌, arith, length,
  ◌>>=◌, Option-cases, none≢some,
}
use native.Mathlib.Decide.{dec_le}
use cs352proxypart.Memory.{Bytes, store, hton}
use cs352proxypart.Memory.Order.{length-store}
use cs352proxypart.Helper.{htonll}
use cs352proxypart.Packets.{null, mac_bytes, ProxyInfo, PktHeader, Link, LinkstatePkt}
use cs352proxypart.Heap.{fault, Nodes}
use cs352proxypart.Heap.Cells.{Entries, Cells, first, not_null, deref-Cells}
use cs352proxypart.Codec.{hton_header, hton_proxy_info}
use cs352proxypart.Codec.Access.{
  Keeps, FailsBelow, put-Keeps, put-FailsBelow, Keeps-then, FailsBelow-then,
}
use cs352proxypart.Codec.Wire.{uint, id_uint, mac, header, proxy_info}
use cs352proxypart.Linkstate.{hton_node, hton_nodes, hton_preamble, hton_linkstate}

module _ (big : Bool) where
  uint-Keeps : (at n x : ℕ) → Keeps (uint big at n x)
  uint-Keeps at n x = put-Keeps at (store big n (hton big n x))

  id-Keeps : (at x : ℕ) → Keeps (id_uint big at x)
  id-Keeps at x = put-Keeps at (store big 8 (htonll big x))

  header-Keeps : (at : ℕ) (h : PktHeader) → Keeps (header big at h)
  unfolding hton_header
  header-Keeps at h =
      Keeps-then (uint big at 2 h.type) (uint big (at + 2) 2 h.length) (uint-Keeps at 2 h.type)
        (uint-Keeps (at + 2) 2 h.length)

  info-Keeps : (at : ℕ) (p : ProxyInfo) → Keeps (proxy_info big at p)
  unfolding hton_proxy_info
  info-Keeps at p =
      Keeps-then (uint big at 4 p.ip) (λ b. uint big (at + 4) 2 p.portno b >>= mac big (at + 6) p)
        (uint-Keeps at 4 p.ip)
        (Keeps-then (uint big (at + 4) 2 p.portno) (mac big (at + 6) p)
          (uint-Keeps (at + 4) 2 p.portno) (put-Keeps (at + 6) (mac_bytes p.macaddr)))

  info-FailsBelow : (at : ℕ) (p : ProxyInfo) → FailsBelow (proxy_info big at p) (at + 6 + 6)
  unfolding hton_proxy_info
  info-FailsBelow at p =
      FailsBelow-then (uint big at 4 p.ip)
        (λ b. uint big (at + 4) 2 p.portno b >>= mac big (at + 6) p) (at + 6 + 6)
        (uint-Keeps at 4 p.ip)
        (FailsBelow-then (uint big (at + 4) 2 p.portno) (mac big (at + 6) p) (at + 6 + 6)
          (uint-Keeps (at + 4) 2 p.portno) (put-FailsBelow (at + 6) (mac_bytes p.macaddr)))

-- The last fields of the node number `i`, and all but the first.
module _ (big : Bool) (l : Link) (i : ℕ) where
  abbrev last_fields : Bytes → Option Bytes
  last_fields b = uint big (42 + 36 * i) 4 l.linkweight b >>= id_uint big (46 + 36 * i) l.id

  abbrev later_fields : Bytes → Option Bytes
  later_fields b = proxy_info big (30 + 36 * i) l.remote b >>= λ c.
      uint big (42 + 36 * i) 4 l.linkweight c >>= id_uint big (46 + 36 * i) l.id

module _ (big : Bool) (l : Link) (i : ℕ) where
  last-Keeps : Keeps (last_fields big l i)
  last-Keeps =
      Keeps-then (uint big (42 + 36 * i) 4 l.linkweight) (id_uint big (46 + 36 * i) l.id)
        (uint-Keeps big (42 + 36 * i) 4 l.linkweight) (id-Keeps big (46 + 36 * i) l.id)

  later-Keeps : Keeps (later_fields big l i)
  later-Keeps =
      Keeps-then (proxy_info big (30 + 36 * i) l.remote) (last_fields big l i)
        (info-Keeps big (30 + 36 * i) l.remote) last-Keeps

  node-Keeps : Keeps (hton_node big l i)
  unfolding hton_node
  node-Keeps =
      Keeps-then (proxy_info big (18 + 36 * i) l.local) (later_fields big l i)
        (info-Keeps big (18 + 36 * i) l.local) later-Keeps

  id-FailsBelow : FailsBelow (id_uint big (46 + 36 * i) l.id) (54 + 36 * i)
  id-FailsBelow b h =
      put-FailsBelow (46 + 36 * i) (store big 8 (htonll big l.id)) b
        (omega (arith, length-store big 8 (htonll big l.id)))

  node-FailsBelow : FailsBelow (hton_node big l i) (54 + 36 * i)
  unfolding hton_node
  node-FailsBelow =
      FailsBelow-then (proxy_info big (18 + 36 * i) l.local) (later_fields big l i) (54 + 36 * i)
        (info-Keeps big (18 + 36 * i) l.local)
        (FailsBelow-then (proxy_info big (30 + 36 * i) l.remote) (last_fields big l i) (54 + 36 * i)
          (info-Keeps big (30 + 36 * i) l.remote)
          (FailsBelow-then (uint big (42 + 36 * i) 4 l.linkweight) (id_uint big (46 + 36 * i) l.id)
            (54 + 36 * i) (uint-Keeps big (42 + 36 * i) 4 l.linkweight) id-FailsBelow))

module _ (big : Bool) where
  preamble-Keeps : (pkt : LinkstatePkt) → Keeps (hton_preamble big pkt)
  unfolding hton_preamble
  preamble-Keeps pkt =
      Keeps-then (header big 0 pkt.head)
        (λ b. uint big 4 2 pkt.num_neighbors b >>= proxy_info big 6 pkt.source)
        (header-Keeps big 0 pkt.head)
        (Keeps-then (uint big 4 2 pkt.num_neighbors) (proxy_info big 6 pkt.source)
          (uint-Keeps big 4 2 pkt.num_neighbors) (info-Keeps big 6 pkt.source))

  preamble-FailsBelow : (pkt : LinkstatePkt) → FailsBelow (hton_preamble big pkt) 18
  unfolding hton_preamble
  preamble-FailsBelow pkt =
      FailsBelow-then (header big 0 pkt.head)
        (λ b. uint big 4 2 pkt.num_neighbors b >>= proxy_info big 6 pkt.source) 18
        (header-Keeps big 0 pkt.head)
        (FailsBelow-then (uint big 4 2 pkt.num_neighbors) (proxy_info big 6 pkt.source) 18
          (uint-Keeps big 4 2 pkt.num_neighbors) (info-FailsBelow big 6 pkt.source))

  nodes_fault :
      (h : Nodes) (fuel i : ℕ) (xs : Entries) (buffer : Bytes)
      → Cells h.cell null xs
      → length xs < fuel
      → 18 + 36 * i ≤ length buffer
      → length buffer < 18 + 36 * i + 36 * length xs
      → hton_nodes big h fuel (first null xs) i buffer ≡ fault
  unfolding hton_nodes
  nodes_fault h zero i xs buffer s f at short = absurd (omega arith)
  nodes_fault h (suc fuel) i [] buffer s f at short = absurd (omega arith)
  nodes_fault h (suc fuel) i ((p, l) ∷ xs) buffer s f at short =
      rw (not_null h null p l xs s, deref-Cells h null p l xs s)
        (elim (Option-cases (hton_node big l i buffer)) [
          | inl failed ↦ rw failed
          | inr (b, written) ↦ rw written (elim (dec_le (54 + 36 * i) (length buffer)) [
            | yes fits ↦
                nodes_fault h fuel (suc i) xs b s.3 (omega arith)
                  (omega (arith, node-Keeps big l i buffer b written))
                  (omega (arith, node-Keeps big l i buffer b written))
            | no over ↦
                absurd (none≢some (sym (node-FailsBelow big l i buffer (omega arith)) ∙ written))
          ])
        ])

  -- With a list of more nodes than the buffer has room for, `htonLinkstate` writes past its end.
  pub hton_linkstate-fault :
      (h : Nodes) (fuel : ℕ) (pkt : LinkstatePkt) (xs : Entries) (buffer : Bytes)
      → pkt.list ≡ first null xs
      → Cells h.cell null xs
      → length xs < fuel
      → length buffer < 18 + 36 * length xs
      → hton_linkstate big h fuel pkt buffer ≡ fault
  unfolding hton_linkstate
  hton_linkstate-fault h fuel pkt xs buffer e s f short =
      elim (Option-cases (hton_preamble big pkt buffer)) [
        | inl failed ↦ rw failed
        | inr (b, written) ↦
            rw (written, e)
              (elim (dec_le 18 (length buffer)) [
                | yes fits ↦
                    nodes_fault h fuel 0 xs b s f
                      (omega (arith, preamble-Keeps pkt buffer b written))
                      (omega (arith, preamble-Keeps pkt buffer b written))
                | no over ↦
                    absurd
                      (none≢some (sym (preamble-FailsBelow pkt buffer (omega arith)) ∙ written))
              ])
      ]
