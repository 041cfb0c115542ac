-- ===== src/Packets/Ranges.antt =====
-- What the C types of the fields of packets.h allow.
use cs352proxypart.Base.{◌^◌, ◌<◌, All}
use cs352proxypart.Memory.Order.{IsByte}
use cs352proxypart.Packets.{Mac, mac_bytes, PktHeader, ProxyInfo, Link}

abbrev pub IsMac : Mac → Type 0
IsMac m = All IsByte (mac_bytes m)

pub record IsPktHeader (h : PktHeader) : Type 0 where
  pub type : h.type < 2 ^ 16
  pub length : h.length < 2 ^ 16

pub record IsProxyInfo (p : ProxyInfo) : Type 0 where
  pub ip : p.ip < 2 ^ 32
  pub portno : p.portno < 2 ^ 16

pub record IsLink (n : Link) : Type 0 where
  pub local : IsProxyInfo n.local
  pub remote : IsProxyInfo n.remote
  pub linkweight : n.linkweight < 2 ^ 32
  pub id : n.id < 2 ^ 64
