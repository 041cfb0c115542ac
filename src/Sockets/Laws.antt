-- ===== src/Sockets/Laws.antt =====
-- The operations on `socketfds` against each other, for any table that behaves as documented.
use cs352proxypart.Base.{ℕ, ◌≡◌, ◌≢◌, refl, none, some, if◌then◌else◌}
use cs352proxypart.Packets.{Mac}
use cs352proxypart.Heap.{ok, and_then}
use cs352proxypart.State.{State, unlock}
use cs352proxypart.State.UtHash.{UtHash, ProxySocketfd, Key, key_eq, key_eq-false}
use cs352proxypart.Sockets.{terminated, key_of, addsockfd, deletesockfd, find_socketfd}

-- An addition under another key.
pub find-add_other :
    {T : Type 0} (u : UtHash T) (t : T) (k j : Key) (e : ProxySocketfd)
    → u.find t k ≡ none
    → k ≢ j
    → u.find (u.add t k e) j ≡ u.find t j
find-add_other u t k j e absent ne = rw (u.find-add t k j e absent, key_eq-false k j ne) refl

module _ {T : Type 0} (u : UtHash T) (s : State T) (m : Mac) where
  -- After an address with no entry is added, a search for any address with the same key gives the
  -- entry, and a search for any other gives what it gave before.
  pub find_socketfd-addsockfd :
      (j : Mac) (fd : ℕ)
      → u.find s.socketfds (key_of m) ≡ none
      → and_then (addsockfd u m fd s) (λ (_, s'). find_socketfd u j s')
        ≡ and_then (addsockfd u m fd s) (λ (_, s'). ok (
          if key_eq (key_of m) (key_of j)
              then some (record { macaddr = terminated m; sock_fd = fd })
              else u.find s.socketfds (key_of j),
          s',
        ))
  unfolding addsockfd find_socketfd
  find_socketfd-addsockfd j fd absent =
      rw (u.find-add s.socketfds (key_of m) (key_of j) _ absent) refl

  -- A deletion removes the entry of the key and no other.
  pub find_socketfd-deletesockfd :
      (j : Mac) (e : ProxySocketfd)
      → u.find s.socketfds (key_of m) ≡ some e
      → and_then (deletesockfd u m s) (λ (_, s'). find_socketfd u j s')
        ≡ and_then (deletesockfd u m s) (λ (_, s').
          ok (if key_eq (key_of m) (key_of j) then none else u.find s.socketfds (key_of j), s'))
  unfolding deletesockfd find_socketfd
  find_socketfd-deletesockfd j e found =
      rw (found, deletesockfd) (rw (u.find-delete s.socketfds (key_of m) (key_of j)) refl)

  -- A deletion with no entry is an unlock and nothing else.
  pub deletesockfd_absent : u.find s.socketfds (key_of m) ≡ none → deletesockfd u m s ≡ unlock s
  unfolding deletesockfd
  deletesockfd_absent absent = rw (absent, deletesockfd) refl
