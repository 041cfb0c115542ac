-- ===== src/Startup.antt =====
-- `main` of cs352proxy.c, up to the threads that it starts, over what the host answers. A `return`
-- from `main` ends the process, as `exit` does.
pub mod Address
pub mod Overrun
pub mod Workers
pub mod Peers
use cs352proxypart.Base.{
  map, ℕ, ◌^◌, Bool, true, false, Option, none, some, List, [], ◌∷◌, ◌++◌, leb, if◌then◌else◌,
}
use cs352proxypart.Memory.{Bytes, put}
use cs352proxypart.Packets.{null, Mac, ProxyInfo, MembershipList}
use cs352proxypart.Heap.{Run, ok, fault, exited, and_then, checked}
use cs352proxypart.Sockets.{cstring}
use cs352proxypart.Tunnel.{TunAnswers, allocate_tunnel}
use cs352proxypart.Config.{Peer, UtList, Config, read_lines}
use cs352proxypart.State.{Cmd, pure, ◌>>=◌, ◌>>◌}
use cs352proxypart.Links.{Dial, connecttohost}

-- Whether the mutex can be made, the contents of the file if it can be opened, what the kernel says
-- of the tap device, the text of the host's first address if its name is known, and the listening
-- socket if there is one.
pub record Host : Type 0 where
  pub mutex_made : Bool
  pub file : Option Bytes
  pub tun : TunAnswers
  pub address : Option Bytes
  pub server_fd : Option ℕ

-- `inet_aton`: the address that a text stands for.
abbrev pub InetAton : Type 0
InetAton = Bytes → Option ℕ

-- What is there when the first thread starts.
pub record Started (L : Type 0) : Type 0 where
  pub config : Config L
  pub tap_fd : ℕ
  pub my_proxy_info : ProxyInfo
  pub mem_list : MembershipList
  pub server_fd : ℕ

-- An `int` below zero
abbrev pub is_negative : ℕ → Bool
is_negative n = leb (2 ^ 31) n

-- `strcpy(ip, inet_ntoa(...)); inet_aton(ip, &my_proxy_info->ip);` with the `ip` of the stack.
unfoldable pub own_address : InetAton → (ip text : Bytes) → (old : ℕ) → Run ℕ
own_address inet_aton ip text old =
    and_then (checked (put ip 0 (text ++ 0 ∷ [])))
      λ ip. elim (inet_aton (cstring ip)) [ none ↦ ok old | some a ↦ ok a ]

module _ {L : Type 0} (u : UtList L) where
  -- The part behind the configuration. `info` is what `malloc` left in `my_proxy_info`, and `ip`
  -- the four bytes on the stack.
  unfoldable pub set_up :
      InetAton → Host → (info : ProxyInfo) → (ip : Bytes) → Config L → Run (Started L)
  set_up inet_aton h info ip c = and_then (checked c.tap_device) λ dev.
      and_then (allocate_tunnel h.tun (dev ++ 0 ∷ []) info.macaddr) λ (tap_fd, _, mac).
        if is_negative tap_fd then exited else elim h.address [
          | none ↦ exited
          | some text ↦ and_then (own_address inet_aton ip text info.ip) λ own. elim h.server_fd [
            | none ↦ exited
            | some server_fd ↦ ok (record {
              config = c;
              tap_fd = tap_fd;
              my_proxy_info = record { ip = own; portno = c.portno; macaddr = mac };
              mem_list = record { head = null; size = 0 };
              server_fd = server_fd;
            })
          ]
        ]

  -- From `fopen` on.
  unfoldable pub with_file :
      InetAton
      → Host
      → (info : ProxyInfo) → (ip : Bytes) → (fuel : ℕ) → (c : Config L) → Option Bytes
      → Run (Started L)
  with_file inet_aton h info ip fuel c none = exited
  with_file inet_aton h info ip fuel c (some file) =
      and_then (read_lines u fuel file c) (set_up inet_aton h info ip)

  -- `args` are the arguments without the name of the program, and `c` is what the variables hold
  -- before the file is read.
  unfoldable pub main :
      InetAton
      → Host
      → (info : ProxyInfo) → (ip : Bytes) → (fuel : ℕ) → (c : Config L) → (args : List Bytes)
      → Run (Started L)
  main inet_aton h info ip fuel c (path ∷ []) =
      if h.mutex_made then with_file inet_aton h info ip fuel c h.file else exited
  main inet_aton h info ip fuel c _ = exited

-- The loop over the peers, with what the network answers to each: the descriptors whose threads
-- are started, in order.
module _ {T : Type 0} where
  unfoldable pub connect_peers :
      Bool → (fuel : ℕ) → (junk : Bytes) → List (Peer × Dial) → Cmd T (List ℕ)
  connect_peers big fuel junk [] = pure []
  connect_peers big fuel junk ((p, d) ∷ rest) = do
    socket_fd ← connecttohost big fuel junk d p.port
    fds ← connect_peers big fuel junk rest
    pure (if is_negative socket_fd then fds else socket_fd ∷ fds)

-- The threads of the program: `acceptconn`, `TCPHandle` on a variable of the loop over the peers,
-- `TAPHandle`, `sendPackets` and `checkLinkTimeOut`.
pub data Thread : Type 0 where
  accepting : (server_fd : ℕ) → Thread
  receiving forwarding announcing expiring : Thread

-- Those that `main` creates, in order, where the loop over the peers gave `fds`. It waits for all of
-- them but the `receiving` ones.
unfoldable pub threads : {L : Type 0} → Started L → (fds : List ℕ) → List Thread
threads m fds =
    accepting m.server_fd ∷ (map (λ _. receiving) fds ++ forwarding ∷ announcing ∷ expiring ∷ [])
