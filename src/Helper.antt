-- ===== src/Helper.antt =====
-- helper.c without the tap device: the byte swap of 64-bit integers, the comparisons of MAC
-- addresses and the clock. An `int` result is its pattern of 32 bits.
pub mod Swap
pub mod MacCompare
use cs352proxypart.Base.{
  ℕ, zero, suc, ◌+◌, ◌*◌, ◌/◌, ◌%◌, ◌^◌, ◌-◌, Bool, true, false, List, [], ◌∷◌, if◌then◌else◌, ◌==◌,
  get_or, set,
}
use cs352proxypart.Memory.{Bytes, store, load}
use cs352proxypart.Packets.{Mac, mac_bytes}

-- `TYP_INIT`, `TYP_SMLE`, `TYP_BIGE`
pub data Typ : Type 0 where
  typ_init typ_smle typ_bige : Typ

-- The test of the bytes of 1: `x.c[7] == 0x01` on a host that stores the top byte first.
unfoldable pub detect : Bool → Typ
unfolding store
detect big = if get_or (store big 8 1) 7 0 == 1 then typ_bige else typ_smle

-- `c = x.c[i]; x.c[i] = x.c[j]; x.c[j] = c;`
abbrev pub exchange : ℕ → ℕ → Bytes → Bytes
exchange i j c = set (set c i (get_or c j 0)) j (get_or c i 0)

unfoldable pub reverse_bytes : Bool → ℕ → ℕ
unfolding load store
reverse_bytes big src =
    load big (exchange 3 4 (exchange 2 5 (exchange 1 6 (exchange 0 7 (store big 8 src)))))

-- `typ` is the static variable; the result comes with its new value.
unfoldable pub htonll_from : Bool → Typ → ℕ → ℕ × Typ
unfolding detect reverse_bytes
htonll_from big typ_init src = elim (detect big) [
  | typ_bige ↦ (src, typ_bige)
  | t ↦ (reverse_bytes big src, t)
]
htonll_from big typ_smle src = (reverse_bytes big src, typ_smle)
htonll_from big typ_bige src = (src, typ_bige)

-- The first call in the program; every later call gives the same (`Helper.Swap`).
unfoldable pub htonll : Bool → ℕ → ℕ
unfolding htonll_from
htonll big src = (htonll_from big typ_init src).0

-- -1 as an `int`
abbrev pub minus_one : ℕ
minus_one = 2 ^ 32 - 1

-- `for (i = 0; i < 6; i++)`, with the rounds that are left.
unfoldable pub comp_mac_addrs_from : ℕ → ℕ → Mac → Mac → ℕ
comp_mac_addrs_from zero i mac1 mac2 = 0
comp_mac_addrs_from (suc rounds) i mac1 mac2 =
    let rest = comp_mac_addrs_from rounds (suc i) mac1 mac2 in
    if get_or (mac_bytes mac1) i 0 == get_or (mac_bytes mac2) i 0 then rest else minus_one

unfoldable pub comp_mac_addrs : Mac → Mac → ℕ
unfolding comp_mac_addrs_from
comp_mac_addrs mac1 mac2 = comp_mac_addrs_from 6 0 mac1 mac2

unfoldable pub comp_mac_zero_from : ℕ → ℕ → Mac → ℕ
comp_mac_zero_from zero i mac1 = minus_one
comp_mac_zero_from (suc rounds) i mac1 =
    let rest = comp_mac_zero_from rounds (suc i) mac1 in
    if get_or (mac_bytes mac1) i 0 == 0 then rest else 0

unfoldable pub comp_mac_zero : Mac → ℕ
unfolding comp_mac_zero_from
comp_mac_zero mac1 = comp_mac_zero_from 6 0 mac1

-- `struct timeval`
pub record Timeval : Type 0 where
  pub tv_sec : ℕ
  pub tv_usec : ℕ

-- Milliseconds since the epoch, as an `unsigned long`, from what `gettimeofday` gave.
unfoldable pub gettimeid : Timeval → ℕ
gettimeid tim = (tim.tv_sec * 1000 + tim.tv_usec / 1000) % 2 ^ 64
