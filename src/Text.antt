-- ===== src/Text.antt =====
-- What the program uses of the C library on text: `strtok`, `atoi`, `fgets` and the conversion
-- `%hhX` of `sscanf`. Text is a list of bytes, a C string one without its zero.
pub mod Numbers
pub mod Words
use Prim.Native.Char.{code}
use Prim.Native.String.{String}
use cs352proxypart.Base.{
  ℕ, zero, suc, ◌+◌, ◌-◌, ◌*◌, ◌%◌, ◌^◌, Bool, true, false, ◌&&◌, ◌||◌, Option, none, some, List,
  [], ◌∷◌, ◌==◌, leb, if◌then◌else◌,
}
use cs352proxypart.Memory.{Bytes}

-- The bytes of a literal.
abbrev pub codes : String → Bytes
codes String.[] = []
codes (String.◌∷◌ c s) = code c ∷ codes s

unfoldable pub is_space : ℕ → Bool
is_space c = c == b' ' || (leb b'\t' c && leb c b'\r')

abbrev pub is_digit : ℕ → Bool
is_digit c = leb b'0' c && leb c b'9'

-- Whether a byte is one of the delimiters.
abbrev pub is_one_of : Bytes → ℕ → Bool
is_one_of [] c = false
is_one_of (d ∷ ds) c = c == d || is_one_of ds c

unfoldable pub skip : (ℕ → Bool) → Bytes → Bytes
skip p [] = []
skip p (c ∷ s) = let rest = skip p s in if p c then rest else c ∷ s

-- The bytes before the first delimiter, and those behind it.
unfoldable pub word : (ℕ → Bool) → Bytes → Bytes
word p [] = []
word p (c ∷ s) = if p c then [] else c ∷ word p s

unfoldable pub behind : (ℕ → Bool) → Bytes → Bytes
behind p [] = []
behind p (c ∷ s) = let rest = behind p s in if p c then s else rest

-- The token that begins a text, and what is left behind its delimiter.
unfoldable pub token : (delimiters : Bytes) → Bytes → Option (Bytes × Bytes)
unfolding word behind
token delimiters [] = none
token delimiters (c ∷ s) =
    some (word (is_one_of delimiters) (c ∷ s), behind (is_one_of delimiters) (c ∷ s))

-- A call of `strtok` on what is left of the string: the next token, and what is left behind it;
-- `none` is `NULL`.
unfoldable pub strtok : (delimiters : Bytes) → Bytes → Option (Bytes × Bytes)
unfolding skip token
strtok delimiters s = token delimiters (skip (is_one_of delimiters) s)

unfoldable pub digits_value : ℕ → Bytes → ℕ
digits_value acc [] = acc
digits_value acc (c ∷ s) =
    let rest = digits_value (acc * 10 + (c - b'0')) s in if is_digit c then rest else acc

unfoldable pub signed_value : Bytes → ℕ
unfolding digits_value
signed_value [] = 0
signed_value (c ∷ s) =
    if c == b'-'
    then (2 ^ 32 - digits_value 0 s % 2 ^ 32) % 2 ^ 32
    else if c == b'+'
    then digits_value 0 s % 2 ^ 32
    else digits_value 0 (c ∷ s) % 2 ^ 32

-- The `int` as its pattern of 32 bits, for a number that a `long` holds.
unfoldable pub atoi : Bytes → ℕ
unfolding skip signed_value
atoi s = signed_value (skip is_space s)

-- Up to `n` bytes of a file, and no more behind a newline; and what is left.
unfoldable pub fgets : ℕ → Bytes → Bytes × Bytes
fgets zero file = ([], file)
fgets (suc n) [] = ([], [])
fgets (suc n) (c ∷ file) =
    let (line, rest) = fgets n file in if c == b'\n' then (c ∷ [], file) else (c ∷ line, rest)

unfoldable pub hex_digit : ℕ → Option ℕ
hex_digit c =
    if is_digit c
    then some (c - b'0')
    else if leb b'A' c && leb c b'F'
    then some (c - b'A' + 10)
    else if leb b'a' c && leb c b'f'
    then some (c - b'a' + 10)
    else none

-- The value of the leading digits, and what is behind them.
unfoldable pub hex_value : ℕ → Bytes → ℕ × Bytes
hex_value acc [] = (acc, [])
hex_value acc (c ∷ s) = elim (hex_digit c) [
  | none ↦ (acc, c ∷ s)
  | some d ↦ hex_value (acc * 16 + d) s
]

-- At the first digit.
unfoldable pub scan_digits : Bytes → Option (ℕ × Bytes)
unfolding hex_value
scan_digits [] = none
scan_digits (c ∷ s) = elim (hex_digit c) [
  | none ↦ none
  | some d ↦ let (v, rest) = hex_value d s in some (v % 256, rest)
]

-- `%hhX`, without the sign and the prefix `0x` that it takes also.
unfoldable pub scan_hex : Bytes → Option (ℕ × Bytes)
unfolding skip scan_digits
scan_hex s = scan_digits (skip is_space s)

-- `conversions` times `%hhX`, with `:` between them: the values up to the first mismatch.
unfoldable pub scan_hex_list : (conversions : ℕ) → Bytes → Bytes
unfolding scan_hex
scan_hex_list zero s = []
scan_hex_list (suc n) s = elim (scan_hex s) [
  | none ↦ []
  | some (v, []) ↦ v ∷ []
  | some (v, c ∷ rest) ↦ let more = scan_hex_list n rest in if c == b':' then v ∷ more else v ∷ []
]
