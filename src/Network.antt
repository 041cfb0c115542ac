-- ===== src/Network.antt =====
-- Two proxies, as cs352proxy.c runs on each: `connecttohost` on one and `TCPHandle` on both. A packet
-- is received whole.
pub mod Answer
pub mod Confirm
pub mod Handshake
pub mod Late
pub mod Heartbeat
pub mod Unheard
use cs352proxypart.Base.{ℕ, ◌^◌, ◌<◌, ◌≡◌, none, some, [], ◌∷◌}
use cs352proxypart.Packets.{Ptr, ProxyInfo, Link}
use cs352proxypart.State.{State}
use cs352proxypart.State.UtHash.{UtHash}
use cs352proxypart.Sockets.{key_of, terminated}
use cs352proxypart.Members.Kept.{IsMembership}
use cs352proxypart.Startup.Peers.{CanGreet}

abbrev pub link_between : (own peer : ProxyInfo) → (time : ℕ) → Link
link_between own peer time = record { local = own; remote = peer; linkweight = 1; id = time }

-- The list is one entry, the link to the peer, whose address has the socket `fd`.
pub record Linked {T : Type 0} (u : UtHash T) (s : State T) (peer : ProxyInfo) (fd : ℕ)
    : Type 0 where
  pub entry : Ptr
  pub time : ℕ
  pub below : entry < s.nodes.next_free
  pub membership : IsMembership u s ((entry, link_between s.my_proxy_info peer time) ∷ [])
  pub socket :
      u.find s.socketfds (key_of peer.macaddr)
      ≡ some (record { macaddr = terminated peer.macaddr; sock_fd = fd })

-- A proxy that met one other, and can go on: it has no socket for itself, and its address, its times
-- and its memory are as they should be.
pub record Paired {T : Type 0} (u : UtHash T) (s : State T) (peer : ProxyInfo) (fd : ℕ)
    : Type 0 where
  pub greet : CanGreet s
  pub linked : Linked u s peer fd
  pub recent : linked.time < 2 ^ 64
  pub own_absent : u.find s.socketfds (key_of s.my_proxy_info.macaddr) ≡ none
