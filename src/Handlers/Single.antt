-- ===== src/Handlers/Single.antt =====
-- A link state packet of one node in `TCPHandle` of cs352proxy.c, up to the search for its source.
use cs352proxypart.Base.{
  ℕ, ◌+◌, ◌^◌, ◌<◌, ◌≡◌, ◌≢◌, refl, ap, sym, ◌∙◌, Bool, none, some, ◌++◌, arith, length, drop,
  append_assoc, length-append,
}
use cs352proxypart.Memory.{Bytes, be_bytes}
use cs352proxypart.Memory.Order.{length-be_bytes}
use cs352proxypart.Packets.{Ptr, null, ProxyInfo, Link, node, pkt_linkstate, max_pkt_len}
use cs352proxypart.Packets.Ranges.{IsProxyInfo, IsLink}
use cs352proxypart.Linkstate.Single.{
  started, single_type, single, single_pkt, length-single, ntoh_linkstate-single,
}
use cs352proxypart.State.{State}
use cs352proxypart.State.UtHash.{UtHash, ProxySocketfd}
use cs352proxypart.State.Laws.{load-ok}
use cs352proxypart.Sockets.{key_of, find_socketfd}
use cs352proxypart.Members.{add_members}
use cs352proxypart.Links.Greeting.{deref-started}
use cs352proxypart.Handlers.Receive.{tcp_handle-dispatch}
use cs352proxypart.Handlers.{zeros, from_stranger, on_linkstate, dispatch, tcp_handle}

module _ {T : Type 0} (u : UtHash T) (big : Bool) (fuel : ℕ) (wild : Ptr) (junk : Bytes)
    (tcp_fd : ℕ) (s : State T) (n : ℕ) (source : ProxyInfo) (l : Link) where
  -- The packet begins the buffer.
  on_linkstate_runs :
      (rest : Bytes) × (tcp_handle u big fuel wild junk tcp_fd (some (single n source l)) s
        ≡ on_linkstate u big fuel wild junk (single n source l ++ rest) tcp_fd s)
  unfolding dispatch
  on_linkstate_runs =
      let bytes = single n source l in
      let (tail, split) = single_type n source l in
      let t = be_bytes 2 pkt_linkstate in
      let rest = drop (length (t ++ tail)) (zeros max_pkt_len) in
      let size : length bytes ≡ 2 + length tail =
        omega (arith, ap length split, length-append t tail, length-be_bytes 2 pkt_linkstate) in
      (
        rest,
        ap (λ (b : Bytes). tcp_handle u big fuel wild junk tcp_fd (some b) s) split
            ∙ tcp_handle-dispatch u big fuel wild junk tcp_fd s tail pkt_linkstate (omega arith)
                (omega (arith, length-single n source l))
            ∙ ap (λ (b : Bytes). on_linkstate u big fuel wild junk b tcp_fd s)
                (sym (append_assoc t tail rest) ∙ ap (λ (b : Bytes). b ++ rest) (sym split)),
      )

  module _ (os : IsProxyInfo source) (ol : IsLink l) (small : n < 2 ^ 16)
      (ne : s.nodes.next_free ≢ null) where
    -- The source has no socket.
    pub stranger_runs :
        u.find s.socketfds (key_of source.macaddr) ≡ none
        → tcp_handle u big fuel wild junk tcp_fd (some (single n source l)) s
          ≡ from_stranger u big fuel junk
              (single_pkt n source s.nodes.next_free)
              tcp_fd
              (record s { nodes = started s.nodes l })
    unfolding on_linkstate find_socketfd
    stranger_runs absent =
        let (rest, runs) = on_linkstate_runs in
        runs
        ∙ rw
            (
              ntoh_linkstate-single big n source l ol wild rest s.nodes os small ne,
              load-ok (record s { nodes = started s.nodes l }) s.nodes.next_free (node l null)
                  (deref-started s.nodes l ne),
              absent,
            )
            refl

    -- The source has one.
    pub known_runs :
        (e : ProxySocketfd)
        → u.find s.socketfds (key_of source.macaddr) ≡ some e
        → tcp_handle u big fuel wild junk tcp_fd (some (single n source l)) s
          ≡ add_members u fuel fuel s.nodes.next_free tcp_fd
              (record s { nodes = started s.nodes l })
    unfolding on_linkstate find_socketfd
    known_runs e known =
        let (rest, runs) = on_linkstate_runs in
        runs
        ∙ rw
            (
              ntoh_linkstate-single big n source l ol wild rest s.nodes os small ne,
              load-ok (record s { nodes = started s.nodes l }) s.nodes.next_free (node l null)
                  (deref-started s.nodes l ne),
              known,
            )
            refl
