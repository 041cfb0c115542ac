-- ===== src/Memory.antt =====
-- Memory as the code of packets.c and helper.c uses it: unsigned integers laid out as bytes in the
-- order of the host, the byte order functions of arpa/inet.h, and buffers that `memcpy` and the
-- casts `*(uint16_t*)(buffer + k)` access. `big` says that the host stores the most significant
-- byte first; the proxy runs on either kind of host.
pub mod Order
pub mod Buffer
use cs352proxypart.Base.{
  ℕ, zero, suc, ◌+◌, ◌-◌, ◌*◌, ◌/◌, ◌%◌, Bool, true, false, Option, none, some, List, [], ◌∷◌, ◌++◌,
  reverse, if◌then◌else◌, leb, length, take, drop,
}

-- The `n` low bytes of a value, the least significant first.
unfoldable pub le_bytes : ℕ → ℕ → List ℕ
le_bytes zero x = []
le_bytes (suc n) x = (x % 256) ∷ le_bytes n (x / 256)

unfoldable pub of_le : List ℕ → ℕ
of_le [] = 0
of_le (b ∷ bs) = b + 256 * of_le bs

-- Network order: the most significant byte first.
unfoldable pub be_bytes : ℕ → ℕ → List ℕ
unfolding le_bytes
be_bytes n x = reverse (le_bytes n x)

unfoldable pub of_be : List ℕ → ℕ
unfolding of_le
of_be bs = of_le (reverse bs)

-- The bytes that an unsigned integer of `n` bytes occupies in the memory of the host.
unfoldable pub store : Bool → ℕ → ℕ → List ℕ
unfolding be_bytes le_bytes
store big n x = if big then be_bytes n x else le_bytes n x

-- The integer that bytes in the memory of the host stand for.
unfoldable pub load : Bool → List ℕ → ℕ
unfolding of_be of_le
load big bs = if big then of_be bs else of_le bs

-- `htons`, `htonl`: the integer whose bytes in memory are those of `x` in network order.
unfoldable pub hton : Bool → ℕ → ℕ → ℕ
unfolding load be_bytes
hton big n x = load big (be_bytes n x)

-- `ntohs`, `ntohl`: the integer whose bytes in network order stand in memory as `x`.
unfoldable pub ntoh : Bool → ℕ → ℕ → ℕ
unfolding of_be store
ntoh big n x = of_be (store big n x)

abbrev pub Bytes : Type 0
Bytes = List ℕ

-- `memcpy(buffer + at, bytes, length)`; `none` is a write past the end of the buffer.
unfoldable pub put : Bytes → ℕ → Bytes → Option Bytes
put buffer at bytes =
    if leb (at + length bytes) (length buffer)
    then some (take at buffer ++ (bytes ++ drop (at + length bytes) buffer))
    else none

-- The `n` bytes from `buffer + at`; `none` is a read past the end of the buffer.
unfoldable pub get : Bytes → ℕ → ℕ → Option Bytes
get buffer at n = if leb (at + n) (length buffer) then some (take n (drop at buffer)) else none
