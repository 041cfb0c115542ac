-- ===== src/Handlers/Packet.antt =====
-- A link state packet of any number of nodes in `TCPHandle`, up to what is done with it.
use cs352proxypart.Base.{
  ℕ, suc, ◌+◌, ◌^◌, ◌≤◌, ◌<◌, ◌≡◌, ◌≢◌, refl, ap, sym, ◌∙◌, Bool, Option, none, some, List, [], ◌∷◌,
  ◌++◌, arith, length, drop, All, length-append, append_assoc,
}
use cs352proxypart.Memory.{Bytes, be_bytes}
use cs352proxypart.Memory.Order.{length-be_bytes}
use cs352proxypart.Packets.{
  Ptr, null, PktHeader, ProxyInfo, Link, node, LinkstatePkt, pkt_linkstate, max_pkt_len,
}
use cs352proxypart.Packets.Ranges.{IsLink, IsPktHeader, IsProxyInfo}
use cs352proxypart.Heap.{Nodes}
use cs352proxypart.Heap.Cells.{Cells, first, deref-Cells}
use cs352proxypart.Codec.Wire.{wire_header, wire_proxy_info}
use cs352proxypart.Linkstate.{num_nodes}
use cs352proxypart.Linkstate.Write.{wire_preamble}
use cs352proxypart.Linkstate.Read.{placed, wire_all, end_of}
use cs352proxypart.Linkstate.RoundTrip.{ntoh_linkstate-wire}
use cs352proxypart.State.{State, Cmd}
use cs352proxypart.State.UtHash.{UtHash, ProxySocketfd}
use cs352proxypart.State.Laws.{load-ok}
use cs352proxypart.Sockets.{key_of, find_socketfd}
use cs352proxypart.Members.{add_members}
use cs352proxypart.Handlers.{zeros, from_stranger, on_linkstate, dispatch, tcp_handle}
use cs352proxypart.Handlers.Receive.{tcp_handle-dispatch}

-- The bytes of a packet begin with its type.
preamble_type :
    (hd : PktHeader) (n : ℕ) (source : ProxyInfo) (rest : Bytes)
    → wire_preamble hd n source ++ rest
      ≡ be_bytes 2 hd.type
        ++ (be_bytes 2 hd.length ++ ((be_bytes 2 n ++ wire_proxy_info source) ++ rest))
unfolding wire_preamble wire_header
preamble_type hd n source rest = simp append_assoc

abbrev pub packet : PktHeader → ℕ → ProxyInfo → List Link → Bytes → Bytes
packet hd n source ls extra = wire_preamble hd n source ++ (wire_all ls ++ extra)

-- The list of a packet in the memory `h`, at the addresses that were free in `k`: a single node is
-- followed by `NULL`, and of more the last one by what the memory held before. The nodes that were
-- there are as they were, and as many addresses as there are nodes were taken.
abbrev pub Received : (k h : Nodes) → List Link → Type 0
Received k h [] = Unit {0}
Received k h (l ∷ ls) =
    Cells h.cell (end_of k.junk (suc k.next_free) null ls) (placed k.next_free (l ∷ ls))
    × ((a : Ptr) → a < k.next_free → h.cell a ≡ k.cell a)
    × (h.next_free ≡ k.next_free + suc (length ls))

-- What is done with a packet in memory, by what the search for its source gave.
abbrev pub served :
    {T : Type 0}
    → UtHash T
    → Bool
    → ℕ
    → (junk : Bytes) → (tcp_fd : ℕ) → LinkstatePkt
    → Option ProxySocketfd
    → Cmd T (Unit {0})
served u big fuel junk tcp_fd pkt none = from_stranger u big fuel junk pkt tcp_fd
served u big fuel junk tcp_fd pkt (some e) = add_members u fuel fuel pkt.list tcp_fd

module _ {T : Type 0} (u : UtHash T) (big : Bool) (fuel : ℕ) (wild : Ptr) (junk : Bytes)
    (tcp_fd : ℕ) (s : State T) (hd : PktHeader) (n : ℕ) (source : ProxyInfo) (l : Link)
    (ls : List Link) (oh : IsPktHeader hd) (small : n < 2 ^ 16) (os : IsProxyInfo source)
    (ranges : All IsLink (l ∷ ls)) (count : num_nodes hd.length ≡ suc (length ls))
    (ne : s.nodes.next_free ≢ null) where
  abbrev pkt : LinkstatePkt
  pkt = record { head = hd; num_neighbors = n; source = source; list = s.nodes.next_free }

  on_linkstate-packet :
      (extra : Bytes)
      → (h : Nodes) × (on_linkstate u big fuel wild junk
            (packet hd n source (l ∷ ls) extra)
            tcp_fd
            s
          ≡ served u big fuel junk tcp_fd pkt
              (u.find s.socketfds (key_of source.macaddr))
              (record s { nodes = h }))
        × Received s.nodes h (l ∷ ls)
  unfolding on_linkstate find_socketfd placed
  on_linkstate-packet extra =
      let (h, runs, cells, kept, grew) =
        ntoh_linkstate-wire big wild hd n source l ls extra s.nodes oh small os ranges count ne in
      let s' = record s { nodes = h } in
      let p = s.nodes.next_free in
      let stop = end_of s.nodes.junk (suc p) null ls in
      let rest = placed (suc p) ls in
      (
        h,
        rw (runs, load-ok s' p (node l (first stop rest)) (deref-Cells h stop p l rest cells)) refl,
        (cells, kept, grew),
      )

  pub tcp_handle-packet :
      (extra : Bytes)
      → hd.type ≡ pkt_linkstate
      → length (packet hd n source (l ∷ ls) extra) ≤ max_pkt_len
      → (h : Nodes) × (tcp_handle u big fuel wild junk tcp_fd
            (some (packet hd n source (l ∷ ls) extra))
            s
          ≡ served u big fuel junk tcp_fd pkt
              (u.find s.socketfds (key_of source.macaddr))
              (record s { nodes = h }))
        × Received s.nodes h (l ∷ ls)
  unfolding dispatch
  tcp_handle-packet extra kind fits =
      let bytes = packet hd n source (l ∷ ls) extra in
      let pad = drop (length bytes) (zeros max_pkt_len) in
      let t = be_bytes 2 hd.type in
      let body =
        be_bytes 2 hd.length
        ++ ((be_bytes 2 n ++ wire_proxy_info source) ++ (wire_all (l ∷ ls) ++ extra)) in
      let split : bytes ≡ t ++ body = preamble_type hd n source (wire_all (l ∷ ls) ++ extra) in
      let size : length bytes ≡ 2 + length body =
        omega (arith, ap length split, length-append t body, length-be_bytes 2 hd.type) in
      let first_step =
        ap (λ (b : Bytes). tcp_handle u big fuel wild junk tcp_fd (some b) s) split
        ∙ tcp_handle-dispatch u big fuel wild junk tcp_fd s body hd.type (omega (arith, kind))
            (omega arith) in
      let padded : t ++ (body ++ drop (length (t ++ body)) (zeros max_pkt_len))
          ≡ packet hd n source (l ∷ ls) (extra ++ pad) =
        sym (append_assoc t body (drop (length (t ++ body)) (zeros max_pkt_len)))
        ∙ ap (λ (b : Bytes). b ++ drop (length b) (zeros max_pkt_len)) (sym split)
        ∙ append_assoc (wire_preamble hd n source) (wire_all (l ∷ ls) ++ extra) pad
        ∙ ap (wire_preamble hd n source ++◌) (append_assoc (wire_all (l ∷ ls)) extra pad) in
      let (h, runs, got) = on_linkstate-packet (extra ++ pad) in
      (
        h,
        first_step
            ∙ ap
                (λ (k : ℕ).
                  dispatch u big fuel wild junk
                    (t ++ (body ++ drop (length (t ++ body)) (zeros max_pkt_len)))
                    (length (t ++ body)) k tcp_fd s)
                kind
            ∙ ap (λ (b : Bytes). on_linkstate u big fuel wild junk b tcp_fd s) padded
            ∙ runs,
        got,
      )
