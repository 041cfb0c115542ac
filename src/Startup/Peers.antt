-- ===== src/Startup/Peers.antt =====
-- The loop of `main` over the peers, in cs352proxy.c, and what the peers get.
use mathlib.Core.Path.{subst}
use cs352proxypart.Base.{
  ℕ, suc, ◌%◌, ◌^◌, ◌≤◌, ◌<◌, ◌≡◌, ◌≢◌, refl, ap, sym, ◌∙◌, inl, inr, ◌⊎◌, Bool, true, false,
  Option, some, none, List, [], ◌∷◌, ◌++◌, map, arith, length, All, append-nil, append_assoc,
  leb-eq_false, if◌then◌else◌,
}
use cs352proxypart.Helper
use cs352proxypart.Helper.{minus_one}
use cs352proxypart.Memory.{Bytes}
use cs352proxypart.Packets.{Ptr, null, Mac, ProxyInfo, Link}
use cs352proxypart.Packets.Ranges.{IsProxyInfo}
use cs352proxypart.Heap.{ok, Nodes}
use cs352proxypart.Linkstate.Single.{single}
use cs352proxypart.State.{State, Output}
use cs352proxypart.Links.{Dial, connecttohost}
use cs352proxypart.Links.Greeting.{peer_link, connecttohost-single}
use cs352proxypart.Config.{Peer}
use cs352proxypart.Startup.{connect_peers}

-- The connection to a peer, if there is one.
abbrev pub reached : Dial → Option ℕ
reached d = elim d.socket_fd [
  | none ↦ none
  | some fd ↦ elim d.s_addr [ none ↦ none | some _ ↦ if d.connects then some fd else none ]
]

abbrev with_fd : Option ℕ → List ℕ → List ℕ
with_fd none fds = fds
with_fd (some fd) fds = fd ∷ fds

abbrev pub reached_all : List (Peer × Dial) → List ℕ
reached_all [] = []
reached_all ((p, d) ∷ ps) = with_fd (reached d) (reached_all ps)

-- Descriptors and addresses in the range of their types.
abbrev pub IsDial : Dial → Type 0
IsDial d =
    ((fd : ℕ) → d.socket_fd ≡ some fd → fd < 2 ^ 31) × ((a : ℕ) → d.s_addr ≡ some a → a < 2 ^ 32)

module _ {T : Type 0} where
  -- The state of a host that can greet its peers.
  pub record CanGreet (s : State T) : Type 0 where
    pub own : IsProxyInfo s.my_proxy_info
    pub times : (k : ℕ) → Helper.gettimeid (s.clock k) < 2 ^ 64
    pub fresh : s.nodes.next_free ≢ null

  -- The packet of one node with the link from this host to a peer.
  abbrev pub IsGreeting : State T → Output → Type 0
  IsGreeting s o =
      (l : Link) × (o.bytes ≡ single 1 s.my_proxy_info l)
      × (l.local ≡ s.my_proxy_info)
      × (l.linkweight ≡ 1)

  -- `s'` comes of `s` by one greeting on each of the connections.
  pub record Greeted (s s' : State T) (fds : List ℕ) : Type 0 where
    pub outputs : List Output
    pub sent : s'.sent ≡ s.sent ++ outputs
    pub to : map (λ o. o.fd) outputs ≡ fds
    pub greetings : All (IsGreeting s) outputs
    pub cells : (a : Ptr) → a < s.nodes.next_free → s'.nodes.cell a ≡ s.nodes.cell a
    pub used : s.nodes.next_free ≤ s'.nodes.next_free
    pub mem_list : s'.mem_list ≡ s.mem_list
    pub socketfds : s'.socketfds ≡ s.socketfds
    pub my_proxy_info : s'.my_proxy_info ≡ s.my_proxy_info
    pub deleterlock : s'.deleterlock ≡ s.deleterlock

  none-Greeted : (s : State T) → Greeted s s []
  none-Greeted s = record {
    outputs = [];
    sent = sym (append-nil s.sent);
    to = refl;
    greetings = tt;
    cells = λ a lt. refl;
    used = omega arith;
    mem_list = refl;
    socketfds = refl;
    my_proxy_info = refl;
    deleterlock = refl;
  }

  -- A greeting, and then those of the other peers.
  next-Greeted :
      (s s' : State T) (h : Nodes) (o : Output) (fds : List ℕ)
      → IsGreeting s o
      → ((a : Ptr) → a < s.nodes.next_free → h.cell a ≡ s.nodes.cell a)
      → h.next_free ≡ suc s.nodes.next_free
      → Greeted (record s { nodes = h; readings = suc s.readings; sent = s.sent ++ o ∷ [] }) s' fds
      → Greeted s s' (o.fd ∷ fds)
  next-Greeted s s' h o fds greeting kept next r = record {
    outputs = o ∷ r.outputs;
    sent = r.sent ∙ append_assoc s.sent (o ∷ []) r.outputs;
    to = ap (o.fd ∷◌) r.to;
    greetings = (greeting, r.greetings);
    cells = λ a lt. r.cells a (omega (arith, next)) ∙ kept a lt;
    used = omega (arith, next, r.used);
    mem_list = r.mem_list;
    socketfds = r.socketfds;
    my_proxy_info = r.my_proxy_info;
    deleterlock = r.deleterlock;
  }

module _ {T : Type 0} (big : Bool) (fuel : ℕ) (junk : Bytes) (f : 1 < fuel)
    (stack : 54 ≤ length junk) where
  abbrev Ends : State T → (port : ℕ) → Dial → Type 0
  Ends s port d =
      ((reached d ≡ none) × (connecttohost big fuel junk d port s ≡ ok (minus_one, s)))
      ⊎ ((fd : ℕ) × (reached d ≡ some fd)
          × (fd < 2 ^ 31)
          × (o : Output) × (o.fd ≡ fd)
          × IsGreeting s o
          × (h : Nodes) × (connecttohost big fuel junk d port s
              ≡ ok (fd, record s { nodes = h; readings = suc s.readings; sent = s.sent ++ o ∷ [] }))
          × ((a : Ptr) → a < s.nodes.next_free → h.cell a ≡ s.nodes.cell a)
          × (h.next_free ≡ suc s.nodes.next_free))

  dial-Ends :
      (s : State T) (port : ℕ) (socket_fd s_addr : Option ℕ) (connects : Bool) (junk_mac : Mac)
      → CanGreet s
      → let d : Dial = record {
        socket_fd = socket_fd;
        s_addr = s_addr;
        connects = connects;
        junk_mac = junk_mac;
      } in
        IsDial d → Ends s port d
  unfolding connecttohost
  dial-Ends s port none s_addr connects junk_mac g v = inl (refl, refl)
  dial-Ends s port (some fd) none connects junk_mac g v = inl (refl, refl)
  dial-Ends s port (some fd) (some a) false junk_mac g v = inl (refl, refl)
  dial-Ends s port (some fd) (some a) true junk_mac g v =
      let (h, runs, kept, next, _) =
        connecttohost-single big fuel junk s g.own (g.times s.readings) g.fresh f stack fd a port
          junk_mac (v.1 a refl) in
      let to : ProxyInfo = record { ip = a; portno = port % 2 ^ 16; macaddr = junk_mac } in
      inr (
        fd,
        refl,
        v.0 fd refl,
        record { fd = fd; bytes = single 1 s.my_proxy_info (peer_link s to) },
        refl,
        (peer_link s to, refl, refl, refl),
        h,
        runs,
        kept,
        next,
      )

  -- With descriptors, addresses and times that fit their types and fuel for a packet of one node, the
  -- loop over the peers ends, and comes by a descriptor for each peer that can be reached, in order.
  -- Each of them gets one packet, of one node that is a link from this host, of weight 1; no node
  -- that was there, the list, the table or the lock changes.
  pub connect_peers-Greeted :
      (ps : List (Peer × Dial)) (s : State T)
      → CanGreet s
      → All (λ (_, d). IsDial d) ps
      → (s' : State T) × (connect_peers big fuel junk ps s ≡ ok (reached_all ps, s'))
        × Greeted s s' (reached_all ps)
  unfolding connect_peers
  connect_peers-Greeted [] s g v = (s, refl, none-Greeted s)
  connect_peers-Greeted ((p, d) ∷ ps) s g v =
      elim (dial-Ends s p.port d.socket_fd d.s_addr d.connects d.junk_mac g v.0) [
        | inl (no_way, runs) ↦
            let (s', rest, r) = connect_peers-Greeted ps s g v.1 in
            let skip : reached_all ((p, d) ∷ ps) ≡ reached_all ps =
              ap (λ o. with_fd o (reached_all ps)) no_way in
            let runs' : connecttohost big fuel junk d p.port s ≡ ok (minus_one, s) = runs in
            (
              s',
              rw (runs', rest) (ap (λ fds. ok (fds, s')) (sym skip)),
              subst (Greeted s s') (sym skip) r,
            )
        | inr (fd, way, small, o, e, greeting, h, runs, kept, next) ↦
            let s1 : State T = record s {
              nodes = h;
              readings = suc s.readings;
              sent = s.sent ++ o ∷ [];
            } in
            let (s', rest, r) =
              connect_peers-Greeted ps s1
                (record { own = g.own; times = g.times; fresh = omega (arith, next) }) v.1 in
            let took : reached_all ((p, d) ∷ ps) ≡ fd ∷ reached_all ps =
              ap (λ o. with_fd o (reached_all ps)) way in
            let runs' : connecttohost big fuel junk d p.port s ≡ ok (fd, s1) = runs in
            (
              s',
              rw (runs', rest, leb-eq_false (2 ^ 31) fd small)
                  (ap (λ fds. ok (fds, s')) (sym took)),
              subst (Greeted s s') (ap (λ (k : ℕ). k ∷ reached_all ps) e ∙ sym took)
                  (next-Greeted s s' h o (reached_all ps) greeting kept next r),
            )
      ]
