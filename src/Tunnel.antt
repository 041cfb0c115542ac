-- ===== src/Tunnel.antt =====
-- `allocate_tunnel` of helper.c, over what the kernel answers.
pub mod Address
use cs352proxypart.Base.{
  ℕ, ◌+◌, Bool, Option, none, some, List, [], ◌∷◌, ◌++◌, if◌then◌else◌, drop, length,
}
use cs352proxypart.Memory.{Bytes, put}
use cs352proxypart.Text.{codes, scan_hex_list}
use cs352proxypart.Helper.{minus_one}
use cs352proxypart.Packets.{Mac, mac_bytes}
use cs352proxypart.Codec.{mac_of}
use cs352proxypart.Heap.{Run, ok, fault, and_then, checked}
use cs352proxypart.Sockets.{cstring}

-- The descriptor that `open` gives, if it does; whether `ioctl` succeeds, the name that it gives to
-- the device, and the first 256 bytes of the file with the device's address, if it can be opened.
pub record TunAnswers : Type 0 where
  pub fd : Option ℕ
  pub configured : Bool
  pub ifr_name : Bytes
  pub address : Option Bytes

abbrev pub address_path : Bytes → Bytes
address_path dev = codes "/sys/class/net/" ++ (dev ++ codes "/address")

-- `fread` leaves the path in the buffer, behind what it reads.
unfoldable pub scanned : (dev contents : Bytes) → Bytes
unfolding cstring
scanned dev contents =
    scan_hex_list 6 (cstring (contents ++ drop (length contents) (address_path dev ++ 0 ∷ [])))

-- The descriptor or -1, the memory of `dev` and that of `local_mac`. `fopen` gives `NULL` for a
-- file that cannot be opened, and `fread` is called all the same.
unfoldable pub allocate_tunnel :
    TunAnswers → (dev : Bytes) → (local_mac : Mac) → Run (ℕ × Bytes × Mac)
allocate_tunnel a dev local_mac = elim a.fd [
  | none ↦ ok (minus_one, dev, local_mac)
  | some fd ↦
      if a.configured
      then (and_then (checked (put dev 0 (a.ifr_name ++ 0 ∷ []))) λ dev. elim a.address [
        | none ↦ fault
        | some contents ↦
            let bytes = scanned a.ifr_name contents in
            ok (fd, dev, mac_of (bytes ++ drop (length bytes) (mac_bytes local_mac)))
      ])
      else ok (minus_one, dev, local_mac)
]
