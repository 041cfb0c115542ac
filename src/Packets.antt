-- ===== src/Packets.antt =====
-- packets.h: the constants, and the structures that packets are made of. An unsigned integer of
-- w bits is a natural number below 2 ^ w (`IsProxyInfo` and the other predicates of the child
-- `Packets.Ranges` say so), and an `int` is its
-- pattern of 32 bits. A `linkstate_node*` is an address, with 0 for
-- `NULL`. `TableEntry`, `ForwardingTable`, `ProbereqPkt` and `ProberesPkt` are declared there and
-- never used.
pub mod Ranges
use cs352proxypart.Base.{ℕ, List, [], ◌∷◌}

abbrev pub pkt_data : ℕ
pkt_data = 0xABCD

abbrev pub pkt_leave : ℕ
pkt_leave = 0xAB01

abbrev pub pkt_quit : ℕ
pkt_quit = 0xAB12

abbrev pub pkt_linkstate : ℕ
pkt_linkstate = 0xABAC

abbrev pub pkt_probereq : ℕ
pkt_probereq = 0xAB34

abbrev pub pkt_proberes : ℕ
pkt_proberes = 0xAB35

abbrev pub max_data_len : ℕ
max_data_len = 2048

abbrev pub max_pkt_len : ℕ
max_pkt_len = 2052

abbrev pub Ptr : Type 0
Ptr = ℕ

abbrev pub null : Ptr
null = 0

-- `uint8_t macaddr[6]`
pub record Mac : Type 0 where
  pub m0 : ℕ
  pub m1 : ℕ
  pub m2 : ℕ
  pub m3 : ℕ
  pub m4 : ℕ
  pub m5 : ℕ

abbrev pub mac_bytes : Mac → List ℕ
mac_bytes m = m.m0 ∷ m.m1 ∷ m.m2 ∷ m.m3 ∷ m.m4 ∷ m.m5 ∷ []

pub record PktHeader : Type 0 where
  pub type : ℕ
  pub length : ℕ

pub record ProxyInfo : Type 0 where
  pub ip : ℕ
  pub portno : ℕ
  pub macaddr : Mac

-- The fields of a `linkstate_node` that travel in packets.
pub record Link : Type 0 where
  pub local : ProxyInfo
  pub remote : ProxyInfo
  pub linkweight : ℕ
  pub id : ℕ

pub record LinkstateNode : Type 0 where
  pub link : Link
  pub open link use *
  pub next : Ptr

abbrev pub node : Link → Ptr → LinkstateNode
node l q = record { link = l; next = q }

pub record DataPkt : Type 0 where
  pub head : PktHeader
  pub payload : Ptr

pub record LeavePkt : Type 0 where
  pub head : PktHeader
  pub local : ProxyInfo
  pub id : ℕ

pub record QuitPkt : Type 0 where
  pub head : PktHeader
  pub local : ProxyInfo
  pub id : ℕ

pub record LinkstatePkt : Type 0 where
  pub head : PktHeader
  pub num_neighbors : ℕ
  pub source : ProxyInfo
  pub list : Ptr

pub record ProbereqPkt : Type 0 where
  pub head : PktHeader
  pub id : ℕ

pub record ProberesPkt : Type 0 where
  pub head : PktHeader
  pub id : ℕ

pub record MembershipList : Type 0 where
  pub head : Ptr
  pub size : ℕ

pub record TableEntry : Type 0 where
  pub sock_id : ℕ
  pub info : Ptr
  pub next : Ptr

pub record ForwardingTable : Type 0 where
  pub head : Ptr
