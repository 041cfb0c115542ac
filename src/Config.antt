-- ===== src/Config.antt =====
-- The configuration file, as `main` of cs352proxy.c reads it. The list of peers is one of utlist.h.
pub mod Lines
pub mod Directives
pub mod RoundTrip
pub mod Fuel
use cs352proxypart.Base.{
  ℕ, zero, suc, ◌-◌, ◌%◌, ◌^◌, Bool, Option, none, some, List, [], ◌∷◌, ◌++◌, ◌≡◌, if◌then◌else◌,
}
use cs352proxypart.Memory.{Bytes}
use cs352proxypart.Text.{codes, strtok, atoi, fgets}
use cs352proxypart.Heap.{Run, ok, fault, exited, out_of_fuel, and_then, checked}
use cs352proxypart.State.UtHash.{key_eq}
use cs352proxypart.Sockets.{cstring}

-- `struct PeerList`, but its pointer
pub record Peer : Type 0 where
  pub port : ℕ
  pub ip : Bytes

-- What `LL_APPEND` is documented to do.
pub record UtList (L : Type 0) : Type 0 where
  pub empty : L
  pub append : L → Peer → L
  pub to_list : L → List Peer
  pub to_list-empty : to_list empty ≡ []
  pub to_list-append : (l : L) (p : Peer) → to_list (append l p) ≡ to_list l ++ p ∷ []

-- The variables that the file sets: globals, `my_proxy_info->portno` and locals of `main`. A
-- pointer that is not set yet is `none`.
pub record Config (L : Type 0) : Type 0 where
  pub local_port : ℕ
  pub portno : ℕ
  pub link_period : ℕ
  pub link_timeout : ℕ
  pub peers : L
  pub quit_after : ℕ
  pub tap_device : Option Bytes
  pub global_secret_key : Option Bytes
  pub peer_key : Option (Bytes × Bytes)

-- `LINE_MAX`, of limits.h
abbrev pub line_max : ℕ
line_max = 2048

-- `strtok(NULL, " \n")` before a use that is undefined for `NULL`.
unfoldable pub next_word : Bytes → Run (Bytes × Bytes)
next_word rest = checked (strtok (b' ' ∷ b'\n' ∷ []) rest)

module _ {L : Type 0} (u : UtList L) where
  -- The chain of tests on the first word of a line. `rest` is what `strtok` has left.
  unfoldable pub read_directive : (pch rest : Bytes) → Config L → Run (Config L)
  unfolding next_word key_eq
  read_directive pch rest c =
      if key_eq pch (codes "listenPort")
      then (and_then (next_word rest)
          λ (pch, _). ok (record c { local_port = atoi pch; portno = atoi pch % 2 ^ 16 }))
      else if key_eq pch (codes "linkPeriod")
      then (and_then (next_word rest) λ (pch, _). ok (record c { link_period = atoi pch }))
      else if key_eq pch (codes "linkTimeout")
      then (and_then (next_word rest) λ (pch, _). ok (record c { link_timeout = atoi pch }))
      else if key_eq pch (codes "peer")
      then (and_then (next_word rest) λ (addr, rest). and_then (next_word rest) λ (pch, _).
          ok (record c { peers = u.append c.peers (record { port = atoi pch; ip = addr }) }))
      else if key_eq pch (codes "quitAfter")
      then (and_then (next_word rest) λ (pch, _). ok (record c { quit_after = atoi pch }))
      else if key_eq pch (codes "tapDevice")
      then (and_then (next_word rest) λ (pch, _). ok (record c { tap_device = some pch }))
      else if key_eq pch (codes "globalSecretKey")
      then ok (record c { global_secret_key = some pch })
      else if key_eq pch (codes "peerKey")
      then (and_then (next_word rest) λ (macaddr, rest).
          and_then (next_word rest) λ (pch, _). ok (record c { peer_key = some (macaddr, pch) }))
      else exited

  -- The body of the loop, on the C string `linep`. `strcmp` is undefined for `NULL`.
  unfoldable pub read_line : (linep : Bytes) → Config L → Run (Config L)
  unfolding read_directive
  read_line linep c =
      and_then (checked (strtok (b' ' ∷ []) linep)) λ (pch, rest). read_directive pch rest c

  -- The loop, on what is left of the file.
  unfoldable pub read_lines : ℕ → (file : Bytes) → Config L → Run (Config L)
  read_lines zero file c = out_of_fuel
  read_lines (suc fuel) [] c = ok c
  read_lines (suc fuel) (b ∷ file) c =
      let (linep, rest) = fgets (line_max - 1) (b ∷ file) in
      and_then (read_line (cstring linep) c) λ c. read_lines fuel rest c
