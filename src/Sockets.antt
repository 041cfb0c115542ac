-- ===== src/Sockets.antt =====
-- The hash table `socketfds` of cs352proxy.c, from MAC addresses to socket descriptors.
pub mod Keys
pub mod Laws
pub mod Refine
use cs352proxypart.Base.{
  ℕ, ◌+◌, ◌<◌, Bool, true, false, Option, none, some, List, [], ◌∷◌, ◌++◌, ◌==◌, if◌then◌else◌,
}
use cs352proxypart.Packets.{Mac, mac_bytes}
use cs352proxypart.Heap.{Run, ok, fault, and_then}
use cs352proxypart.State.{State, Cmd, ◌>>=◌, ◌>>◌, pure, gets, modify, unlock}
use cs352proxypart.State.UtHash.{Key, ProxySocketfd, UtHash}

-- The characters of a C string: `strlen` stops at the first zero.
unfoldable pub cstring : List ℕ → Key
cstring [] = []
cstring (c ∷ cs) = if c == 0 then [] else c ∷ cstring cs

-- The six bytes and `'\0'`, which every operation copies before it hands them to uthash.
unfoldable pub terminated : Mac → List ℕ
terminated m = mac_bytes m ++ 0 ∷ []

abbrev pub key_of : Mac → Key
key_of m = cstring (terminated m)

module _ {T : Type 0} (u : UtHash T) where
  unfoldable pub addsockfd : Mac → ℕ → Cmd T (Unit {0})
  addsockfd new_macaddr fd = modify λ s. record s {
    socketfds =
        u.add s.socketfds (key_of new_macaddr)
          (record { macaddr = terminated new_macaddr; sock_fd = fd });
  }

  -- With no entry for the key the function unlocks `deleterlock`, which it has not locked.
  unfoldable pub deletesockfd : Mac → Cmd T (Unit {0})
  deletesockfd macaddr s = elim (u.find s.socketfds (key_of macaddr)) [
    | none ↦ unlock s
    | some e ↦ ok (tt, record s { socketfds = u.delete s.socketfds (key_of macaddr) })
  ]

  unfoldable pub find_socketfd : Mac → Cmd T (Option ProxySocketfd)
  find_socketfd macaddr = gets λ s. u.find s.socketfds (key_of macaddr)

  -- `s->sock_fd = fd` for the structure that `find_socketfd` gave for `macaddr`
  unfoldable pub set_sock_fd : Mac → ProxySocketfd → ℕ → Cmd T (Unit {0})
  set_sock_fd macaddr e fd = modify λ s. record s {
    socketfds = u.update s.socketfds (key_of macaddr) (record e { sock_fd = fd });
  }
