-- ===== src/Links/Flood.antt =====
-- A period of `sendPackets` of cs352proxy.c.
use cs352proxypart.Base.{
  ℕ, suc, ◌+◌, ◌*◌, ◌^◌, ◌≤◌, ◌<◌, ◌≡◌, refl, sym, ap, ◌∙◌, ◌⊎◌, inl, inr, Bool, some, none, List,
  [], ◌∷◌, ◌++◌, arith, length, take, drop, map, append_assoc, append-nil, length-append,
  length-drop,
}
use native.Mathlib.Decide.{dec_le}
use cs352proxypart.Memory.{Bytes, get}
use cs352proxypart.Memory.Buffer.{get-none, get-prefix}
use cs352proxypart.Packets.{Ptr, Link, LinkstatePkt, max_pkt_len}
use cs352proxypart.Heap.{ok, fault}
use cs352proxypart.Heap.Cells.{Entries}
use cs352proxypart.Linkstate.{hton_linkstate}
use cs352proxypart.Linkstate.Write.{
  wire_preamble, wire_links, AllLinks, length-wire_preamble, length-wire_links, hton_linkstate-wire,
}
use cs352proxypart.Linkstate.Overflow.{hton_linkstate-fault}
use cs352proxypart.State.{State, Output, send}
use cs352proxypart.State.UtHash.{UtHash, ProxySocketfd}
use cs352proxypart.Members.Connect.{IsMemList}
use cs352proxypart.Links.{serialize, send_all, send_packets}
use cs352proxypart.Links.Count.{link_packet, create_link_packet-some}

-- The same bytes to every socket, in the order of the table.
abbrev pub to_all : Bytes → List ProxySocketfd → List Output
to_all bytes = map λ e. record { fd = e.sock_fd; bytes = bytes }

module _ {T : Type 0} (big : Bool) (fuel : ℕ) (junk buf bytes : Bytes) (pkt : LinkstatePkt) where
  send_all-to_all :
      (es : List ProxySocketfd) (s : State T)
      → hton_linkstate big s.nodes fuel pkt junk ≡ ok buf
      → get buf 0 (pkt.head.length + 4) ≡ some bytes
      → send_all big fuel junk pkt es s ≡ ok (tt, record s { sent = s.sent ++ to_all bytes es })
  unfolding send_all serialize send
  send_all-to_all [] s w g = ap (λ l. ok (tt, record s { sent = l })) (sym (append-nil s.sent))
  send_all-to_all (e ∷ es) s w g =
      let out : Output = record { fd = e.sock_fd; bytes = bytes } in
      let s1 = record s { sent = s.sent ++ out ∷ [] } in
      rw (w, g)
        (send_all-to_all es s1 w g
          ∙ ap (λ l. ok (tt, record s { sent = l }))
              (append_assoc s.sent (out ∷ []) (to_all bytes es)))

  send_all-fault :
      (e : ProxySocketfd) (es : List ProxySocketfd) (s : State T)
      → (hton_linkstate big s.nodes fuel pkt junk ≡ fault)
        ⊎ ((hton_linkstate big s.nodes fuel pkt junk ≡ ok buf)
            × (get buf 0 (pkt.head.length + 4) ≡ none))
      → send_all big fuel junk pkt (e ∷ es) s ≡ fault
  unfolding send_all serialize
  send_all-fault e es s (inl w) = rw w refl
  send_all-fault e es s (inr (w, g)) = rw (w, g) refl

module _ {T : Type 0} (u : UtHash T) (big : Bool) (fuel : ℕ) (junk : Bytes) (s : State T) (p : Ptr)
    (l : Link) (xs : Entries) (v : IsMemList s ((p, l) ∷ xs)) (ranges : AllLinks ((p, l) ∷ xs))
    (enough : suc (length xs) < fuel) (stack : length junk ≡ max_pkt_len) where
  -- The bytes of the packet, as long as it takes: the fields in network order.
  abbrev wire : Bytes
  wire =
      wire_preamble (link_packet s).head (link_packet s).num_neighbors s.my_proxy_info
      ++ wire_links ((p, l) ∷ xs)

  wire_length : length wire ≡ 18 + 36 * suc (length xs)
  wire_length = omega (
    arith,
    length-append (wire_preamble (link_packet s).head (link_packet s).num_neighbors s.my_proxy_info)
        (wire_links ((p, l) ∷ xs)),
    length-wire_preamble (link_packet s).head (link_packet s).num_neighbors s.my_proxy_info,
    length-wire_links ((p, l) ∷ xs),
  )

  made : suc (length xs) < 2 ^ 31 → (0 < s.mem_list.size) × (s.mem_list.size ≡ suc (length xs))
  made small = (omega (arith, v.size), omega (arith, v.size))

  written :
      18 + 36 * suc (length xs) ≤ max_pkt_len
      → hton_linkstate big s.nodes fuel (link_packet s) junk
        ≡ ok (wire ++ drop (18 + 36 * suc (length xs)) junk)
  written room =
      hton_linkstate-wire big s.nodes fuel (link_packet s) ((p, l) ∷ xs) junk v.head v.cells ranges
        enough (omega (arith, stack))

  run_at :
      suc (length xs) < 2 ^ 31
      → send_packets u big fuel junk s
        ≡ send_all big fuel junk (link_packet s) (u.to_list s.socketfds) s
  unfolding send_packets
  run_at small =
      rw
        (create_link_packet-some s (λ e. v.cells.0 (sym v.head ∙ e)) (made small).0
          (omega (arith, made small)))
        refl

  -- With up to 50 nodes in the list, a period of `sendPackets` sends every socket of the table the
  -- same packet: the list in network order, and then four bytes for each node that are whatever
  -- the stack held.
  pub send_packets-to_all :
      suc (length xs) ≤ 50
      → send_packets u big fuel junk s
        ≡ ok (
          tt,
          record s {
            sent =
                s.sent
                ++ to_all
                    (wire ++ take (4 * suc (length xs)) (drop (18 + 36 * suc (length xs)) junk))
                    (u.to_list s.socketfds);
          },
        )
  send_packets-to_all few =
      let n = suc (length xs) in
      let rest = drop (18 + 36 * n) junk in
      run_at (omega arith)
      ∙ send_all-to_all big fuel junk (wire ++ rest) (wire ++ take (4 * n) rest) (link_packet s)
          (u.to_list s.socketfds) s (written (omega arith))
          (get-prefix wire rest ((link_packet s).head.length + 4) (4 * n)
            (omega (arith, wire_length, made (omega arith)))
            (omega (arith, length-drop (18 + 36 * n) junk)))

  -- The packet is too long to send, or already too long to write.
  too_long :
      50 < suc (length xs)
      → suc (length xs) ≤ 1638
      → (hton_linkstate big s.nodes fuel (link_packet s) junk ≡ fault)
        ⊎ ((hton_linkstate big s.nodes fuel (link_packet s) junk
              ≡ ok (wire ++ drop (18 + 36 * suc (length xs)) junk))
            × (get
                  (wire ++ drop (18 + 36 * suc (length xs)) junk)
                  0
                  ((link_packet s).head.length + 4)
                ≡ none))
  too_long many limit =
      let n = suc (length xs) in
      let rest = drop (18 + 36 * n) junk in
      elim (dec_le (18 + 36 * n) max_pkt_len) [
        | yes fits ↦ inr (
          written fits,
          get-none (wire ++ rest) 0 ((link_packet s).head.length + 4) (
              omega (
                arith,
                wire_length,
                made (omega arith),
                length-append wire rest,
                length-drop (18 + 36 * n) junk,
              )),
        )
        | no over ↦ inl (
            hton_linkstate-fault big s.nodes fuel (link_packet s) ((p, l) ∷ xs) junk v.head v.cells
              enough (omega arith))
      ]

  -- With more, and at least one socket, it reads or writes past the end of its buffer of 2052
  -- bytes (as long as the length field does not wrap, up to 1638 nodes).
  pub send_packets-fault :
      (e : ProxySocketfd) (es : List ProxySocketfd)
      → 50 < suc (length xs)
      → suc (length xs) ≤ 1638
      → u.to_list s.socketfds ≡ e ∷ es
      → send_packets u big fuel junk s ≡ fault
  send_packets-fault e es many limit sockets =
      run_at (omega arith)
      ∙ ap (λ l. send_all big fuel junk (link_packet s) l s) sockets
      ∙ send_all-fault big fuel junk (wire ++ drop (18 + 36 * suc (length xs)) junk) junk
          (link_packet s) e es s (too_long many limit)
