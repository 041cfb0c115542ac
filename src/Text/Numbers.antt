-- ===== src/Text/Numbers.antt =====
-- Numbers as text, and what `atoi` and `%hhX` read of them.
use cs352proxypart.Base.{
  ℕ, zero, suc, ◌+◌, ◌-◌, ◌*◌, ◌/◌, ◌%◌, ◌^◌, ◌<◌, ◌≡◌, ◌≢◌, none, refl, ap, ◌∙◌, inl, inr, Bool,
  true, false, some, [], ◌∷◌, ◌++◌, arith, ltb, if◌then◌else◌, All, append_assoc, Bool-cases,
  ltb→lt,
}
use cs352proxypart.Memory.{Bytes}
use cs352proxypart.Text.{
  is_space, is_digit, skip, digits_value, signed_value, atoi, hex_digit, hex_value, scan_digits,
  scan_hex,
}

-- `%d` of a number below 10 ^ `digits`.
unfoldable pub decimal_of : (digits : ℕ) → ℕ → Bytes
decimal_of zero n = []
decimal_of (suc k) n =
    let front = decimal_of k (n / 10) in
    if ltb n 10 then (b'0' + n) ∷ [] else front ++ (b'0' + n % 10) ∷ []

-- `%d` of an `int` that is not negative.
abbrev pub decimal : ℕ → Bytes
decimal n = decimal_of 10 n

abbrev pub IsDigit : ℕ → Type 0
IsDigit c = is_digit c ≡ true

decimal_of-IsDigit : (k n : ℕ) → All IsDigit (decimal_of k n)
unfolding decimal_of
decimal_of-IsDigit zero n = tt
decimal_of-IsDigit (suc k) n = elim (Bool-cases (ltb n 10)) [
  | inl small ↦ rw small (ground arith)
  | inr large ↦ rw large (snoc (decimal_of k (n / 10)) (decimal_of-IsDigit k (n / 10)))
]
  where
    snoc : (s : Bytes) → All IsDigit s → All IsDigit (s ++ (b'0' + n % 10) ∷ [])
    snoc [] h = (ground arith, tt)
    snoc (c ∷ s) h = (h.0, snoc s h.1)

digits_value-cons :
    (acc d : ℕ) (rest : Bytes)
    → d < 10
    → digits_value acc ((b'0' + d) ∷ rest) ≡ digits_value (acc * 10 + d) rest
unfolding digits_value
digits_value-cons acc d rest h = ground arith

digits_value-decimal_of :
    (k n : ℕ) (rest : Bytes)
    → n < 10 ^ k
    → digits_value 0 (decimal_of k n ++ rest) ≡ digits_value n rest
unfolding decimal_of
digits_value-decimal_of zero n rest h = ap (λ (a : ℕ). digits_value a rest) (omega arith)
digits_value-decimal_of (suc k) n rest h = elim (Bool-cases (ltb n 10)) [
  | inl small ↦ rw small (
      digits_value-cons 0 n rest (ltb→lt n 10 small)
      ∙ ap (λ (a : ℕ). digits_value a rest) (omega arith))
  | inr large ↦ rw large (
      ap (digits_value 0) (append_assoc (decimal_of k (n / 10)) ((b'0' + n % 10) ∷ []) rest)
      ∙ digits_value-decimal_of k (n / 10) ((b'0' + n % 10) ∷ rest) (tenth k n h)
      ∙ digits_value-cons (n / 10) (n % 10) rest (omega arith)
      ∙ ap (λ (a : ℕ). digits_value a rest) (omega arith))
]
  where
    tenth : (k n : ℕ) → n < 10 ^ suc k → n / 10 < 10 ^ k
    tenth k n h = grind arith

-- What is left of a number at the first byte that is no digit, or at the end.
abbrev pub Stops : Bytes → Type 0
Stops [] = Unit {0}
Stops (c ∷ s) = is_digit c ≡ false

digits_value-Stops : (n : ℕ) (rest : Bytes) → Stops rest → digits_value n rest ≡ n
unfolding digits_value
digits_value-Stops n [] h = refl
digits_value-Stops n (c ∷ s) h = rw h refl

signed_value-digits :
    (s : Bytes)
    → All IsDigit s
    → s ≢ []
    → (rest : Bytes) → signed_value (s ++ rest) ≡ digits_value 0 (s ++ rest) % 2 ^ 32
unfolding signed_value
signed_value-digits [] h ne rest = absurd (ne refl)
signed_value-digits (c ∷ s) h ne rest = ground (arith, h.0)

skip-digits : (s rest : Bytes) → All IsDigit s → s ≢ [] → skip is_space (s ++ rest) ≡ s ++ rest
unfolding skip is_space
skip-digits [] rest h ne = absurd (ne refl)
skip-digits (c ∷ s) rest h ne = ground (arith, h.0)

decimal_of-ne-nil : (k n : ℕ) → decimal_of (suc k) n ≢ []
unfolding decimal_of
decimal_of-ne-nil k n e = elim (Bool-cases (ltb n 10)) [
  | inl small ↦ cc (rw small at e)
  | inr large ↦ no_snoc (decimal_of k (n / 10)) (rw large at e)
]
  where
    no_snoc : (s : Bytes) → ¬ (s ++ (b'0' + n % 10) ∷ [] ≡ [])
    no_snoc [] f = cc
    no_snoc (c ∷ s) f = cc

-- `atoi` reads back what `%d` prints of an `int` that is not negative.
pub atoi-decimal : (n : ℕ) (rest : Bytes) → n < 2 ^ 31 → Stops rest → atoi (decimal n ++ rest) ≡ n
unfolding atoi
atoi-decimal n rest small stops =
    let digits = decimal_of-IsDigit 10 n in
    let ne = decimal_of-ne-nil 9 n in
    ap signed_value (skip-digits (decimal n) rest digits ne)
    ∙ signed_value-digits (decimal n) digits ne rest
    ∙ ap (λ (a : ℕ). a % 2 ^ 32)
        (digits_value-decimal_of 10 n rest (omega arith) ∙ digits_value-Stops n rest stops)
    ∙ omega arith

pub decimal-IsDigit : (n : ℕ) → All IsDigit (decimal n)
decimal-IsDigit n = decimal_of-IsDigit 10 n

pub decimal-ne-nil : (n : ℕ) → decimal n ≢ []
decimal-ne-nil n = decimal_of-ne-nil 9 n

-- `%02x` of a byte.
unfoldable pub hex_char : ℕ → ℕ
hex_char d = if ltb d 10 then b'0' + d else b'a' - 10 + d

unfoldable pub hex_byte : ℕ → Bytes
unfolding hex_char
hex_byte b = hex_char (b / 16) ∷ hex_char (b % 16) ∷ []

hex_digit-hex_char : (d : ℕ) → d < 16 → hex_digit (hex_char d) ≡ some d
unfolding hex_char hex_digit
hex_digit-hex_char d h = ground arith

is_space-hex_char : (d : ℕ) → d < 16 → is_space (hex_char d) ≡ false
unfolding hex_char is_space
is_space-hex_char d h = ground arith

hex_value-Stops :
    (acc c : ℕ) (rest : Bytes) → hex_digit c ≡ none → hex_value acc (c ∷ rest) ≡ (acc, c ∷ rest)
unfolding hex_value
hex_value-Stops acc c rest h = rw (h, hex_value) refl

hex_value-cons :
    (acc d c : ℕ) (rest : Bytes)
    → hex_digit c ≡ some d
    → hex_value acc (c ∷ rest) ≡ hex_value (acc * 16 + d) rest
unfolding hex_value
hex_value-cons acc d c rest h = rw (h, hex_value) refl

skip-cons : (p : ℕ → Bool) (c : ℕ) (s : Bytes) → p c ≡ false → skip p (c ∷ s) ≡ c ∷ s
unfolding skip
skip-cons p c s h = rw h refl

scan_digits-cons :
    (c d : ℕ) (s : Bytes)
    → hex_digit c ≡ some d
    → scan_digits (c ∷ s) ≡ some ((hex_value d s).0 % 256, (hex_value d s).1)
unfolding scan_digits
scan_digits-cons c d s h = rw (h, scan_digits) refl

-- `%hhX` reads back what `%02x` prints, up to a byte that is no digit.
pub scan_hex-hex_byte :
    (b c : ℕ) (rest : Bytes)
    → b < 256
    → hex_digit c ≡ none
    → scan_hex (hex_byte b ++ c ∷ rest) ≡ some (b, c ∷ rest)
unfolding scan_hex hex_byte
scan_hex-hex_byte b c rest h stops =
    let high = hex_char (b / 16) in
    let low = hex_char (b % 16) in
    ap scan_digits
      (skip-cons is_space high (low ∷ c ∷ rest) (is_space-hex_char (b / 16) (omega arith)))
    ∙ scan_digits-cons high (b / 16) (low ∷ c ∷ rest) (hex_digit-hex_char (b / 16) (omega arith))
    ∙ ap (λ (r : ℕ × Bytes). some (r.0 % 256, r.1))
        (hex_value-cons (b / 16) (b % 16) low (c ∷ rest) (hex_digit-hex_char (b % 16) (omega arith))
          ∙ hex_value-Stops (b / 16 * 16 + b % 16) c rest stops)
    ∙ ap (λ (a : ℕ). some (a, c ∷ rest)) (omega arith)
