-- ===== src/Startup/Address.antt =====
-- `main` of cs352proxy.c copies the text of its address into four bytes.
use cs352proxypart.Base.{
  ℕ, ◌≤◌, ◌≡◌, ◌≢◌, refl, Bool, true, false, Option, none, some, List, [], ◌∷◌, ◌++◌, arith,
  if◌then◌else◌, length, length-append,
}
use cs352proxypart.Memory.{Bytes}
use cs352proxypart.Memory.Buffer.{put-none}
use cs352proxypart.Packets.{ProxyInfo}
use cs352proxypart.Heap.{Run, ok, fault, exited, blocked, out_of_fuel, and_then, checked}
use cs352proxypart.Tunnel.{allocate_tunnel}
use cs352proxypart.Config.{UtList, Config, read_lines}
use cs352proxypart.Startup.{
  Host, InetAton, Started, is_negative, own_address, set_up, with_file, main,
}

-- An outcome that does not go on.
abbrev Stops : {A : Type 0} → Run A → Type 0
Stops {A} r = (a : A) → r ≢ ok a

Stops-then :
    {A B : Type 0} (r : Run A) (k : A → Run B) → ((a : A) → Stops (k a)) → Stops (and_then r k)
Stops-then (ok a) k h = h a
Stops-then fault k h = λ b e. cc
Stops-then exited k h = λ b e. cc
Stops-then blocked k h = λ b e. cc
Stops-then out_of_fuel k h = λ b e. cc

Stops-exited : {A : Type 0} → Stops {A = A} exited
Stops-exited a e = cc

Stops-if : {A : Type 0} (b : Bool) (r : Run A) → Stops r → Stops (if b then exited else r)
Stops-if true r h = λ a e. cc
Stops-if false r h = h

Stops-unless : {A : Type 0} (b : Bool) (r : Run A) → Stops r → Stops (if b then r else exited)
Stops-unless true r h = h
Stops-unless false r h = λ a e. cc

pub own_address-fault :
    (inet_aton : InetAton) (ip text : Bytes) (old : ℕ)
    → length ip ≤ length text
    → own_address inet_aton ip text old ≡ fault
unfolding own_address
own_address-fault inet_aton ip text old h =
    rw (put-none ip (text ++ 0 ∷ []) 0 (omega (arith, length-append text (0 ∷ [])))) refl

module _ {L : Type 0} (u : UtList L) (inet_aton : InetAton) (h : Host) (info : ProxyInfo)
    (ip text : Bytes) (small : length ip ≡ 4) (named : h.address ≡ some text)
    (long : 4 ≤ length text) where
  set_up-Stops : (c : Config L) → Stops (set_up u inet_aton h info ip c)
  unfolding set_up
  set_up-Stops c = Stops-then (checked c.tap_device) _ (λ dev.
      Stops-then (allocate_tunnel h.tun (dev ++ 0 ∷ []) info.macaddr) _ (λ (tap_fd, _, mac).
        Stops-if (is_negative tap_fd) _
          (rw (named, own_address-fault inet_aton ip text info.ip (omega arith)) (λ m e. cc))))

  with_file-Stops :
      (fuel : ℕ) (c : Config L) (file : Option Bytes)
      → Stops (with_file u inet_aton h info ip fuel c file)
  unfolding with_file
  with_file-Stops fuel c none = Stops-exited
  with_file-Stops fuel c (some file) =
      Stops-then (read_lines u fuel file c) (set_up u inet_aton h info ip) set_up-Stops

  -- `main` does not get to its threads, whatever its arguments, the configuration and the tap device.
  main-ne-ok :
      (fuel : ℕ) (c : Config L) (args : List Bytes) (m : Started L)
      → main u inet_aton h info ip fuel c args ≢ ok m
  unfolding main
  main-ne-ok fuel c [] m = λ e. cc
  main-ne-ok fuel c (path ∷ []) m =
      Stops-unless h.mutex_made (with_file u inet_aton h info ip fuel c h.file)
        (with_file-Stops fuel c h.file) m
  main-ne-ok fuel c (path ∷ more ∷ rest) m = λ e. cc
