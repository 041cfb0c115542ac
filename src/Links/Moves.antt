-- ===== src/Links/Moves.antt =====
-- What cs352proxy.c sends by itself, with the mutex: a period of `sendPackets` and of
-- `checkLinkTimeOut`, and `connecttohost`.
use cs352proxypart.Base.{
  ℕ, zero, suc, ◌+◌, ◌^◌, Bool, true, false, ◌||◌, leb, ltb, none, some, List, [], ◌∷◌, ◌==◌,
  if◌then◌else◌, take,
}
use cs352proxypart.Memory.{Bytes, get}
use cs352proxypart.Packets.{Ptr, null, Link, LinkstatePkt, ProxyInfo, pkt_linkstate}
use cs352proxypart.Heap.{ok, fault, Nodes, malloc}
use cs352proxypart.Linkstate.{hton_nodes, hton_preamble, hton_node, hton_linkstate}
use cs352proxypart.State.{State}
use cs352proxypart.State.UtHash.{ProxySocketfd, UtHash}
use cs352proxypart.Links.Count.{link_packet}
use cs352proxypart.Links.{
  list_bytes, sizeof_linkstate_pkt, create_link_packet, serialize, send_all, send_packets,
  check_link_time_out, Dial, new_node, free, greet, connecttohost,
}
use cs352proxypart.State.NoWait.{
  NoWait, NoWait-ok, NoWait-out_of_fuel, NoWait-and_then, NoWait-if, NoWait-deref, NoWait-checked,
}
use cs352proxypart.State.Moves.{
  Ends, Ends-later, Free, Moves, Moves-bind, Moves-if, Moves-option, Moves-lift, Moves-reads,
  Moves-gets, Moves-pure, Moves-modify, Later-refl,
}
use cs352proxypart.State.Moves.Basic.{nodes-Later, save-Moves, gettimeid-Moves, send-Moves}
use cs352proxypart.Members.Moves.{remove_expired_members-Moves}

hton_nodes-NoWait :
    (big : Bool) (h : Nodes) (fuel : ℕ) (list : Ptr) (i : ℕ) (buffer : Bytes)
    → NoWait (hton_nodes big h fuel list i buffer)
unfolding hton_nodes
hton_nodes-NoWait big h zero list i buffer = NoWait-out_of_fuel
hton_nodes-NoWait big h (suc fuel) list i buffer = NoWait-if (list == null) (NoWait-ok buffer) (
    NoWait-and_then (NoWait-deref h list) λ n.
      NoWait-and_then (NoWait-checked (hton_node big n.link i buffer))
        λ b. hton_nodes-NoWait big h fuel n.next (suc i) b)

module _ {T : Type 0} {P : Bool → Type 0} where
  pub serialize-Moves :
      (big : Bool) (fuel : ℕ) (pkt : LinkstatePkt) (buf : Bytes)
      → Moves {T = T} P P (serialize big fuel pkt buf)
  unfolding serialize hton_linkstate
  serialize-Moves big fuel pkt buf =
      Moves-reads (λ s. hton_linkstate big s.nodes fuel pkt buf)
        λ s.
          NoWait-and_then (NoWait-checked (hton_preamble big pkt buf))
            λ b. hton_nodes-NoWait big s.nodes fuel pkt.list 0 b

  create_link_packet-Moves : Moves {T = T} P P create_link_packet
  unfolding create_link_packet
  create_link_packet-Moves = record {
    at = λ s p.
        made s p (s.mem_list.head == null)
          (ltb (4 + list_bytes s.mem_list.size) sizeof_linkstate_pkt
            || leb (2 ^ 31) s.mem_list.size)
          none (some (link_packet s));
  }
    where
      made :
          {A : Type 0} (s : State T)
          → P s.deleterlock
          → (a b : Bool) (x y : A)
          → Ends P s (if a then ok (x, s) else if b then fault else ok (y, s))
      made s p true b x y = (p, Later-refl s)
      made s p false true x y = tt
      made s p false false x y = (p, Later-refl s)

  send_all-Moves :
      (big : Bool) (fuel : ℕ) (junk : Bytes) (pkt : LinkstatePkt) (es : List ProxySocketfd)
      → Moves {T = T} P P (send_all big fuel junk pkt es)
  unfolding send_all
  send_all-Moves big fuel junk pkt [] = Moves-pure tt
  send_all-Moves big fuel junk pkt (e ∷ es) = Moves-bind (serialize-Moves big fuel pkt junk) λ buf.
      Moves-bind (Moves-lift _ (NoWait-checked (get buf 0 (pkt.head.length + 4))))
        λ bytes. Moves-bind (send-Moves e.sock_fd bytes) λ _. send_all-Moves big fuel junk pkt es

  pub new_node-Moves : (l : Link) (next : Ptr) → Moves {T = T} P P (new_node l next)
  unfolding new_node
  new_node-Moves l next = record {
    at = λ s p.
        let (q, h) = malloc s.nodes in
        Ends-later P s (record s { nodes = h }) _ (nodes-Later s h)
          ((Moves-bind (save-Moves q _) λ _. Moves-pure q).at (record s { nodes = h }) p);
  }

  free-Moves : (p : Ptr) → Moves {T = T} P P (free p)
  unfolding free
  free-Moves p = Moves-modify _ (λ s h. h) λ s. nodes-Later s _

  greet-Moves :
      (big : Bool) (fuel : ℕ) (junk : Bytes) (remote_info : ProxyInfo) (fd : ℕ)
      → Moves {T = T} P P (greet big fuel junk remote_info fd)
  unfolding greet
  greet-Moves big fuel junk remote_info fd = Moves-bind gettimeid-Moves λ time_id.
      Moves-bind (Moves-gets λ s. s.my_proxy_info) λ me.
        Moves-bind
          (new_node-Moves
            (record { local = me; remote = remote_info; linkweight = 1; id = time_id }) null)
          λ client_node.
            Moves-bind
              (serialize-Moves big fuel
                (record {
                  head = record { type = pkt_linkstate; length = 50 };
                  num_neighbors = 1;
                  source = me;
                  list = client_node;
                })
                (take 54 junk))
              λ buf. Moves-bind (send-Moves fd buf) λ _. free-Moves client_node

  pub connecttohost-Moves :
      (big : Bool) (fuel : ℕ) (junk : Bytes) (d : Dial) (remote_port : ℕ)
      → Moves {T = T} P P (connecttohost big fuel junk d remote_port)
  unfolding connecttohost
  connecttohost-Moves big fuel junk d remote_port = Moves-option d.socket_fd (Moves-pure _) λ fd.
      Moves-option d.s_addr (Moves-pure _) λ s_addr.
        Moves-if d.connects (Moves-bind (greet-Moves big fuel junk _ fd) λ _. Moves-pure fd)
          (Moves-pure _)

module _ {T : Type 0} (u : UtHash T) where
  pub send_packets-Moves :
      {P : Bool → Type 0} (big : Bool) (fuel : ℕ) (junk : Bytes)
      → Moves P P (send_packets u big fuel junk)
  unfolding send_packets
  send_packets-Moves big fuel junk = Moves-bind create_link_packet-Moves λ o.
      Moves-option o (Moves-pure tt) λ pkt.
        Moves-bind (Moves-gets λ s. u.to_list s.socketfds)
          λ sockets. send_all-Moves big fuel junk pkt sockets

  pub check_link_time_out-Moves :
      (fuel link_timeout : ℕ) → Moves Free Free (check_link_time_out u fuel link_timeout)
  unfolding check_link_time_out
  check_link_time_out-Moves = remove_expired_members-Moves u
