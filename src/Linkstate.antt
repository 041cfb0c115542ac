-- ===== src/Linkstate.antt =====
-- The link state packets of packets.c: the walk over a list of nodes that writes them, and the
-- loop that reads nodes from a buffer into fresh memory.
pub mod Write
pub mod Overflow
pub mod Read
pub mod Single
pub mod RoundTrip
use cs352proxypart.Base.{
  ℕ, zero, suc, ◌+◌, ◌-◌, ◌*◌, ◌/◌, ◌%◌, ◌^◌, Bool, Option, none, some, ◌==◌, ltb, if◌then◌else◌,
  ◌>>=◌,
}
use cs352proxypart.Memory.{Bytes, store, hton, put}
use cs352proxypart.Helper.{htonll}
use cs352proxypart.Packets.{Ptr, null, Link, LinkstateNode, node, LinkstatePkt}
use cs352proxypart.Heap.{
  Run, ok, fault, out_of_fuel, and_then, checked, Nodes, deref, assign, malloc,
}
use cs352proxypart.Codec.{
  read_uint, read_id, hton_header, ntoh_header, hton_proxy_info, ntoh_proxy_info,
}

-- The body of the loop of `htonLinkstate` at the node number `i`.
unfoldable pub hton_node : Bool → Link → ℕ → Bytes → Option Bytes
hton_node big list i buffer = do
  buffer ← hton_proxy_info big list.local buffer (18 + 36 * i)
  buffer ← hton_proxy_info big list.remote buffer (30 + 36 * i)
  buffer ← put buffer (42 + 36 * i) (store big 4 (hton big 4 list.linkweight))
  put buffer (46 + 36 * i) (store big 8 (htonll big list.id))

-- `while (list != NULL)`
unfoldable pub hton_nodes : Bool → Nodes → ℕ → Ptr → ℕ → Bytes → Run Bytes
hton_nodes big h zero list i buffer = out_of_fuel
hton_nodes big h (suc fuel) list i buffer =
    if list == null
    then ok buffer
    else and_then (deref h list) λ n.
      and_then (checked (hton_node big n.link i buffer))
        λ buffer. hton_nodes big h fuel n.next (suc i) buffer

-- What `htonLinkstate` writes in front of the nodes.
unfoldable pub hton_preamble : Bool → LinkstatePkt → Bytes → Option Bytes
hton_preamble big pkt buffer = do
  buffer ← hton_header big pkt.head buffer 0
  buffer ← put buffer 4 (store big 2 (hton big 2 pkt.num_neighbors))
  hton_proxy_info big pkt.source buffer 6

unfoldable pub hton_linkstate : Bool → Nodes → ℕ → LinkstatePkt → Bytes → Run Bytes
hton_linkstate big h fuel pkt buffer =
    and_then (checked (hton_preamble big pkt buffer))
      λ buffer. hton_nodes big h fuel pkt.list 0 buffer

-- The fields of the node number `i`, as the loop of `ntohLinkstate` reads them.
unfoldable pub ntoh_node : Bool → ℕ → Bytes → Option Link
ntoh_node big i buffer = do
  local ← ntoh_proxy_info big buffer (18 + 36 * i)
  remote ← ntoh_proxy_info big buffer (30 + 36 * i)
  linkweight ← read_uint big 4 buffer (42 + 36 * i)
  id ← read_id big buffer (46 + 36 * i)
  some (record { local = local; remote = remote; linkweight = linkweight; id = id })

-- `lsptr->next = curr`
unfoldable pub set_next : Nodes → Ptr → Ptr → Run Nodes
set_next h p q = and_then (deref h p) λ n. assign h p (node n.link q)

-- A round of `for (i = 0; i < numNodes; i++)`: it sets the four fields of a new node, and `next`
-- only if `i == 0`. It gives `lsptr` and `pkt->list`.
unfoldable pub ntoh_round : Bool → Bytes → ℕ → (lsptr list : Ptr) → Nodes → Run (Ptr × Ptr × Nodes)
ntoh_round big buffer i lsptr list h =
    let (curr, h') = malloc h in
    and_then (checked (ntoh_node big i buffer)) λ l. and_then (deref h' curr) λ old.
      if i == 0
      then (and_then (assign h' curr (node l null)) λ h'. ok (curr, curr, h'))
      else and_then (assign h' curr (node l old.next))
          λ h'. and_then (set_next h' lsptr curr) λ h'. ok (curr, list, h')

-- The rounds that are left.
unfoldable pub ntoh_nodes : Bool → Bytes → ℕ → ℕ → (lsptr list : Ptr) → Nodes → Run (Ptr × Nodes)
ntoh_nodes big buffer zero i lsptr list h = ok (list, h)
ntoh_nodes big buffer (suc rounds) i lsptr list h =
    and_then (ntoh_round big buffer i lsptr list h)
      λ (lsptr, list, h). ntoh_nodes big buffer rounds (suc i) lsptr list h

-- `(length-14)/36`, which C rounds to 0 below 14
abbrev pub num_nodes : ℕ → ℕ
num_nodes length = (length - 14) / 36

-- The memory that `ntohLinkstate` allocates for the packet.
abbrev pub pkt_memory : ℕ → ℕ
pkt_memory length = length + 4 + 8 * num_nodes length

-- The end of the member `source` in a `linkstate_pkt`: 4 bytes of header, 2 of `numNeighbors`,
-- 2 of padding and 12 of `source`. The member `list`, behind it, is written if there are nodes.
abbrev pub source_end : ℕ
source_end = 20

-- With no node the member `list` stays as `malloc` left it, `wild`.
unfoldable pub ntoh_linkstate : Bool → (wild : Ptr) → Bytes → Nodes → Run (LinkstatePkt × Nodes)
ntoh_linkstate big wild buffer h = and_then (checked (read_uint big 2 buffer 2)) λ length.
    and_then (checked (ntoh_header big buffer 0)) λ head.
      and_then (checked (read_uint big 2 buffer 4)) λ num_neighbors.
        and_then (checked (ntoh_proxy_info big buffer 6)) λ source.
          if ltb (pkt_memory length) source_end
          then fault
          else and_then (ntoh_nodes big buffer (num_nodes length) 0 null wild h) λ (list, h).
            ok (
              record { head = head; num_neighbors = num_neighbors; source = source; list = list },
              h,
            )
