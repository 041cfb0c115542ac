-- ===== src/Tunnel/Address.antt =====
-- The address that `allocate_tunnel` of helper.c reads from the file of the device.
use cs352proxypart.Base.{
  ℕ, suc, ◌+◌, ◌≤◌, ◌≡◌, ◌≢◌, refl, ap, ◌∙◌, true, some, none, [], ◌∷◌, ◌++◌, arith, length, drop,
  All, if◌then◌else◌, ◌==◌, ==-eq_false, length-append, ◌/◌, ◌%◌, ==-eq_false, length-append, ◌/◌,
  ◌%◌,
}
use cs352proxypart.Memory.{Bytes}
use cs352proxypart.Memory.Order.{IsByte}
use cs352proxypart.Memory.Buffer.{put-append}
use cs352proxypart.Packets.{Mac, mac_bytes}
use cs352proxypart.Packets.Ranges.{IsMac}
use cs352proxypart.Heap.{ok}
use cs352proxypart.Text.{scan_hex, scan_hex_list, hex_digit}
use cs352proxypart.Text.Numbers.{hex_char, hex_byte, scan_hex-hex_byte}
use cs352proxypart.Sockets.{cstring}
use cs352proxypart.Tunnel.{address_path, scanned, allocate_tunnel}

-- Bytes as pairs of hexadecimal digits, with `:` between them and a newline behind.
unfoldable pub address_line : Bytes → Bytes
address_line [] = b'\n' ∷ []
address_line (b ∷ []) = hex_byte b ++ b'\n' ∷ []
address_line (b ∷ c ∷ bs) = hex_byte b ++ b':' ∷ address_line (c ∷ bs)

scan_hex_list-cons :
    (n v c : ℕ) (s rest : Bytes)
    → scan_hex s ≡ some (v, c ∷ rest)
    → scan_hex_list (suc n) s ≡ (if c == b':' then v ∷ scan_hex_list n rest else v ∷ [])
unfolding scan_hex_list
scan_hex_list-cons n v c s rest h = rw (h, scan_hex_list) refl

colon-stops : hex_digit b':' ≡ none
unfolding hex_digit
colon-stops = refl

newline-stops : hex_digit b'\n' ≡ none
unfolding hex_digit
newline-stops = refl

-- As many conversions as there are bytes read them back.
scan_hex_list-address_line :
    (bs : Bytes) (rest : Bytes)
    → All IsByte bs
    → bs ≢ []
    → scan_hex_list (length bs) (address_line bs ++ rest) ≡ bs
unfolding address_line hex_byte
scan_hex_list-address_line [] rest v ne = absurd (ne refl)
scan_hex_list-address_line (b ∷ []) rest v ne =
    scan_hex_list-cons 0 b b'\n' (address_line (b ∷ []) ++ rest) rest
      (scan_hex-hex_byte b b'\n' rest v.0 newline-stops)
scan_hex_list-address_line (b ∷ c ∷ bs) rest v ne =
    scan_hex_list-cons (suc (length bs)) b b':' (address_line (b ∷ c ∷ bs) ++ rest)
      (address_line (c ∷ bs) ++ rest)
      (scan_hex-hex_byte b b':' (address_line (c ∷ bs) ++ rest) v.0 colon-stops)
    ∙ ap (◌∷◌ b) (scan_hex_list-address_line (c ∷ bs) rest v.1 (λ e. cc))

hex_char-ne-zero : (d : ℕ) → hex_char d ≢ 0
unfolding hex_char
hex_char-ne-zero d = ground arith

address_line-ne-zero : (bs : Bytes) → All (λ c. c ≢ 0) (address_line bs)
unfolding address_line hex_byte
address_line-ne-zero [] = (omega arith, tt)
address_line-ne-zero (b ∷ []) =
    (hex_char-ne-zero (b / 16), (hex_char-ne-zero (b % 16), (omega arith, tt)))
address_line-ne-zero (b ∷ c ∷ bs) = (
  hex_char-ne-zero (b / 16),
  (hex_char-ne-zero (b % 16), (omega arith, address_line-ne-zero (c ∷ bs))),
)

pub cstring-append : (xs ys : Bytes) → All (λ c. c ≢ 0) xs → cstring (xs ++ ys) ≡ xs ++ cstring ys
unfolding cstring
cstring-append [] ys h = refl
cstring-append (x ∷ xs) ys h = rw (==-eq_false x 0 h.0, cstring-append xs ys h.1) refl

-- Where the kernel gives a device, in a buffer that holds its name, and the file of the device has
-- its address as pairs of hexadecimal digits with `:` between them, `allocate_tunnel` gives the
-- descriptor, leaves the name in the buffer, and sets the address.
pub allocate_tunnel-address :
    (fd : ℕ) (name dev : Bytes) (m old : Mac)
    → IsMac m
    → length name + 1 ≤ length dev
    → allocate_tunnel
        (record {
          fd = some fd;
          configured = true;
          ifr_name = name;
          address = some (address_line (mac_bytes m));
        })
        dev
        old
      ≡ ok (fd, (name ++ 0 ∷ []) ++ drop (length name + 1) dev, m)
unfolding allocate_tunnel scanned
allocate_tunnel-address fd name dev m old v room =
    let line = address_line (mac_bytes m) in
    let rest = drop (length line) (address_path name ++ 0 ∷ []) in
    let size : length (name ++ 0 ∷ []) ≡ length name + 1 =
      omega (arith, length-append name (0 ∷ [])) in
    let read =
      ap (scan_hex_list 6) (cstring-append line rest (address_line-ne-zero (mac_bytes m)))
      ∙ scan_hex_list-address_line (mac_bytes m) (cstring rest) v (λ e. cc) in
    rw (put-append [] dev (name ++ 0 ∷ []) 0 refl (omega arith), size, read) refl
