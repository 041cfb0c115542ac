-- ===== src/Links/Count.antt =====
-- How many nodes a receiver finds in the packet that `create_link_packet` makes.
use cs352proxypart.Base.{
  ◌+◌, ◌*◌, ◌/◌, ◌%◌, ◌^◌, ◌<◌, ◌≡◌, ◌≢◌, refl, some, arith, ==-eq_false, ltb-eq_false,
  leb-eq_false,
}
use cs352proxypart.Packets.{null, LinkstatePkt, pkt_linkstate}
use cs352proxypart.Heap.{ok}
use cs352proxypart.Linkstate.{num_nodes}
use cs352proxypart.State.{State}
use cs352proxypart.Links.{list_bytes, sizeof_linkstate_pkt, create_link_packet}

-- The packet of a list that holds nodes.
abbrev pub link_packet : {T : Type 0} → State T → LinkstatePkt
link_packet s = record {
  head = record { type = pkt_linkstate; length = list_bytes s.mem_list.size % 2 ^ 16 };
  num_neighbors = s.mem_list.size % 2 ^ 16;
  source = s.my_proxy_info;
  list = s.mem_list.head;
}

module _ {T : Type 0} (s : State T) where
  pub create_link_packet-some :
      s.mem_list.head ≢ null
      → 0 < s.mem_list.size
      → s.mem_list.size < 2 ^ 31
      → create_link_packet s ≡ ok (some (link_packet s), s)
  unfolding create_link_packet
  create_link_packet-some ne pos small =
      rw
        (
          ==-eq_false s.mem_list.head null ne,
          ltb-eq_false (4 + list_bytes s.mem_list.size) sizeof_linkstate_pkt (omega arith),
          leb-eq_false (2 ^ 31) s.mem_list.size small,
        )
        refl

  -- The length field counts 40 bytes for a node, which the structure takes in memory without its
  -- pointer, and the receiver divides by the 36 that it takes in the packet. So the receiver of a
  -- list of n nodes, as long as the field does not wrap, reads one node too many for every nine.
  pub num_nodes-create_link_packet :
      s.mem_list.head ≢ null
      → 0 < s.mem_list.size
      → 14 + 40 * s.mem_list.size < 2 ^ 16
      → (pkt : LinkstatePkt) × (create_link_packet s ≡ ok (some pkt, s))
        × (pkt.num_neighbors ≡ s.mem_list.size)
        × (num_nodes pkt.head.length ≡ s.mem_list.size + s.mem_list.size / 9)
  num_nodes-create_link_packet ne pos small =
      (link_packet s, create_link_packet-some ne pos (omega arith), omega arith, omega arith)
