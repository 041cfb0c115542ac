-- ===== src/Network/Confirm.antt =====
-- A packet of a peer that the proxy knows, which names the link that is its only entry from the other
-- side.
use mathlib.Core.Path.{subst}
use cs352proxypart.Base.{
  ℕ, suc, ◌-◌, ◌<◌, ◌≡◌, ◌≢◌, refl, ap, sym, ◌∙◌, inr, Bool, some, [], ◌∷◌, arith,
}
use cs352proxypart.Memory.{Bytes}
use cs352proxypart.Packets.{Ptr, null, ProxyInfo, Link, node}
use cs352proxypart.Packets.Ranges.{IsProxyInfo, IsLink}
use cs352proxypart.Heap.{ok, deref, Nodes}
use cs352proxypart.Heap.Cells.{Entries}
use cs352proxypart.Linkstate.Single.{started, started_cells, started_next, single}
use cs352proxypart.State.{State}
use cs352proxypart.State.UtHash.{UtHash}
use cs352proxypart.Sockets.{key_of}
use cs352proxypart.Members.{add_members}
use cs352proxypart.Members.Connect.{time_of}
use cs352proxypart.Members.Search.{FirstReverse, IsReverse, here, later}
use cs352proxypart.Members.Kept.{IsMembership}
use cs352proxypart.Members.Lone.{renewed, add_members-mine}
use cs352proxypart.Links.Greeting.{deref-started}
use cs352proxypart.Handlers.{tcp_handle}
use cs352proxypart.Handlers.Single.{known_runs}
use cs352proxypart.Network.{Linked, Paired, link_between}
use cs352proxypart.Startup.Peers.{CanGreet}
use cs352proxypart.State.Moves.{Free, Ends}
use cs352proxypart.Members.Moves.{add_members-Moves}

one-FirstReverse :
    {a b : ProxyInfo} {p q : Ptr} {l : Link}
    → IsReverse a b l
    → FirstReverse a b ((p, l) ∷ []) q
    → p ≡ q
one-FirstReverse r (here s e) = e
one-FirstReverse r (later other s) = absurd (other r)

renewed_one :
    (p : Ptr) (l : Link) (time : ℕ)
    → p ≢ null
    → renewed p time ((p, l) ∷ []) ≡ (p, record l { id = time }) ∷ []
renewed_one p l time ne = ground (arith, ne)

-- A node for the link of the peer in the fresh memory `h`.
module _ {T : Type 0} (u : UtHash T) (fuel tcp_fd : ℕ) (s : State T) (h : Nodes) (peer : ProxyInfo)
    (time fd : ℕ) (f : 1 < fuel)
    (there : deref h s.nodes.next_free ≡ ok (node (link_between peer s.my_proxy_info time) null))
    (kept : (a : Ptr) → a < s.nodes.next_free → h.cell a ≡ s.nodes.cell a)
    (grew : s.nodes.next_free < h.next_free) (paired : Paired u s peer fd) where
  abbrev k : Linked u s peer fd
  k = paired.linked

  abbrev read : State T
  read = record s { nodes = h }

  -- The new node leaves the entry alone.
  read-IsMembership : IsMembership u read ((k.entry, link_between s.my_proxy_info peer k.time) ∷ [])
  read-IsMembership =
      let v = k.membership in
      let c = v.list.cells in
      record {
        list = record {
          head = v.list.head;
          cells = (c.0, kept k.entry k.below ∙ c.1, c.2, tt);
          size = v.list.size;
        };
        sockets = v.sockets;
        free = v.free;
      }

  -- The address and the clock stay.
  read-CanGreet :
      (s' : State T)
      → add_members u fuel fuel s.nodes.next_free tcp_fd read ≡ ok (tt, s')
      → s'.nodes.next_free ≡ h.next_free
      → CanGreet s'
  read-CanGreet s' runs next =
      let moves = add_members-Moves u fuel fuel s.nodes.next_free tcp_fd in
      let e : Ends Free read (ok (tt {0}, s')) =
        subst (Ends Free read) runs (moves.at read k.membership.free) in
      record {
        own = subst IsProxyInfo (sym e.1.own) paired.greet.own;
        times = λ j. rw (e.1.clock) (paired.greet.times j);
        fresh = omega (arith, next, grew);
      }

  -- The time of the entry is renewed, and nothing is sent.
  pub add_members-confirmed :
      (s' : State T) × (add_members u fuel fuel s.nodes.next_free tcp_fd read ≡ ok (tt, s'))
      × (s'.sent ≡ s.sent)
      × (s'.my_proxy_info ≡ s.my_proxy_info)
      × (c : Paired u s' peer fd) × (c.linked.time ≡ time_of s)
  add_members-confirmed =
      let l = link_between peer s.my_proxy_info time in
      let p = s.nodes.next_free in
      let xs : Entries = (k.entry, link_between s.my_proxy_info peer k.time) ∷ [] in
      let (q, found, s', runs, v, table, own, next, sent, _) =
        add_members-mine u (fuel - 2) fuel read p l tcp_fd xs there (ground (arith, k.below))
          paired.own_absent (inr refl) read-IsMembership f in
      let deep : suc (suc (fuel - 2)) ≡ fuel = omega arith in
      let runs_on = rw deep at runs in
      let entry = one-FirstReverse (refl, refl) found in
      let after : renewed q (time_of read) xs
          ≡ (k.entry, link_between s'.my_proxy_info peer (time_of read)) ∷ [] =
        ap (λ (a : Ptr). renewed a (time_of read) xs) (sym entry)
        ∙ renewed_one k.entry (link_between s.my_proxy_info peer k.time) (time_of read)
            k.membership.list.cells.0
        ∙ ap (λ (o : ProxyInfo). (k.entry, link_between o peer (time_of read)) ∷ []) (sym own) in
      (
        s',
        runs_on,
        sent,
        own,
        record {
          greet = read-CanGreet s' runs_on next;
          linked = record {
            entry = k.entry;
            time = time_of read;
            below = omega (arith, next, grew, k.below);
            membership = subst (IsMembership u s') after v;
            socket = ap (λ t. u.find t (key_of peer.macaddr)) table ∙ k.socket;
          };
          recent = paired.greet.times s.readings;
          own_absent = rw (table, own) (paired.own_absent);
        },
        refl,
      )

module _ {T : Type 0} (u : UtHash T) (big : Bool) (fuel : ℕ) (wild : Ptr) (junk : Bytes)
    (tcp_fd : ℕ) (s : State T) (peer : ProxyInfo) (time fd : ℕ) (f : 1 < fuel)
    (op : IsProxyInfo peer) (ol : IsLink (link_between peer s.my_proxy_info time))
    (k : Paired u s peer fd) where
  -- The peer stays known, and nothing is sent.
  pub tcp_handle-confirmed :
      (s' : State T) × (tcp_handle u big fuel wild junk tcp_fd
          (some (single 1 peer (link_between peer s.my_proxy_info time)))
          s
        ≡ ok (tt, s'))
      × (s'.sent ≡ s.sent)
      × Paired u s' peer fd
  tcp_handle-confirmed =
      let l = link_between peer s.my_proxy_info time in
      let ne = k.greet.fresh in
      let (s', runs, sent, _, c, _) =
        add_members-confirmed u fuel tcp_fd s (started s.nodes l) peer time fd f
          (deref-started s.nodes l ne) (started_cells s.nodes l).1
          (omega (arith, started_next s.nodes l)) k in
      (
        s',
        known_runs u big fuel wild junk tcp_fd s 1 peer l op ol (omega arith) ne _ k.linked.socket
            ∙ runs,
        sent,
        c,
      )
