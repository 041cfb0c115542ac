-- ===== src/Memory/Order.antt =====
-- Bytes of an integer: storing, loading and the byte order functions undo one another.
use Prim.Native.Nat.{ℕ, zero, suc, ◌+◌, ◌*◌, ◌/◌, ◌%◌, ◌^◌, ◌<◌}
use native.Mathlib.Nat.{pow-suc}
use mathlib.Core.List.{reverse-cons, reverse-reverse}
use cs352proxypart.Base.{
  ◌≡◌, refl, ap, ◌∙◌, Bool, true, false, List, [], ◌∷◌, ◌++◌, reverse, arith, length, All,
  length-reverse,
}
use cs352proxypart.Memory.{le_bytes, of_le, be_bytes, of_be, store, load, hton, ntoh}

abbrev pub IsByte : ℕ → Type 0
IsByte b = b < 256

pub All-append {ℓ κ} :
    {A : Type ℓ} (P : A → Type κ) (xs ys : List A) → All P xs → All P ys → All P (xs ++ ys)
All-append P [] ys hx hy = hy
All-append P (x ∷ xs) ys hx hy = (hx.0, All-append P xs ys hx.1 hy)

pub All-reverse {ℓ κ} : {A : Type ℓ} (P : A → Type κ) (xs : List A) → All P xs → All P (reverse xs)
All-reverse P [] h = h
All-reverse P (x ∷ xs) h =
    rw (reverse-cons x xs) (All-append P (reverse xs) (x ∷ []) (All-reverse P xs h.1) (h.0, tt))

pub length-le_bytes : (n x : ℕ) → length (le_bytes n x) ≡ n
unfolding le_bytes
length-le_bytes zero x = refl
length-le_bytes (suc n) x = ap suc (length-le_bytes n (x / 256))

pub length-be_bytes : (n x : ℕ) → length (be_bytes n x) ≡ n
unfolding be_bytes
length-be_bytes n x = length-reverse (le_bytes n x) ∙ length-le_bytes n x

pub length-store : (big : Bool) (n x : ℕ) → length (store big n x) ≡ n
unfolding store
length-store true n x = length-be_bytes n x
length-store false n x = length-le_bytes n x

le_bytes-IsByte : (n x : ℕ) → All IsByte (le_bytes n x)
unfolding le_bytes
le_bytes-IsByte zero x = tt
le_bytes-IsByte (suc n) x = (omega arith, le_bytes-IsByte n (x / 256))

pub be_bytes-IsByte : (n x : ℕ) → All IsByte (be_bytes n x)
unfolding be_bytes
be_bytes-IsByte n x = All-reverse IsByte (le_bytes n x) (le_bytes-IsByte n x)

pub of_le-le_bytes : (n x : ℕ) → x < 256 ^ n → of_le (le_bytes n x) ≡ x
unfolding le_bytes of_le
of_le-le_bytes zero x h = omega arith
of_le-le_bytes (suc n) x h =
    let small : x < 256 ^ n * 256 = rw pow-suc at h in
    omega (arith, of_le-le_bytes n (x / 256) (omega arith))

pub le_bytes-of_le : (bs : List ℕ) → All IsByte bs → le_bytes (length bs) (of_le bs) ≡ bs
unfolding le_bytes of_le
le_bytes-of_le [] h = refl
le_bytes-of_le (b ∷ bs) h =
    let low : (b + 256 * of_le bs) % 256 ≡ b = omega arith in
    let high : (b + 256 * of_le bs) / 256 ≡ of_le bs = omega arith in
    rw (low, high, le_bytes-of_le bs h.1)

-- What is loaded from bytes is stored as those bytes.
pub store-load :
    (big : Bool) (n : ℕ) (bs : List ℕ)
    → length bs ≡ n
    → All IsByte bs
    → store big n (load big bs) ≡ bs
unfolding store load be_bytes of_be
store-load false n bs e h = rw (← e) (le_bytes-of_le bs h)
store-load true n bs e h =
    rw (← e, ← length-reverse bs, le_bytes-of_le (reverse bs) (All-reverse IsByte bs h))
      (reverse-reverse bs)

-- On every host the bytes of `htons(x)` in memory are those of `x` in network order.
pub store-hton : (big : Bool) (n x : ℕ) → store big n (hton big n x) ≡ be_bytes n x
unfolding hton
store-hton big n x = store-load big n (be_bytes n x) (length-be_bytes n x) (be_bytes-IsByte n x)

pub of_be-be_bytes : (n x : ℕ) → x < 256 ^ n → of_be (be_bytes n x) ≡ x
unfolding of_be be_bytes
of_be-be_bytes n x h = ap of_le (reverse-reverse (le_bytes n x)) ∙ of_le-le_bytes n x h

-- `ntohs` of the integer that network bytes form in memory is the value that they encode.
pub ntoh-load : (big : Bool) (n x : ℕ) → x < 256 ^ n → ntoh big n (load big (be_bytes n x)) ≡ x
unfolding ntoh
ntoh-load big n x h =
    ap of_be (store-load big n (be_bytes n x) (length-be_bytes n x) (be_bytes-IsByte n x))
    ∙ of_be-be_bytes n x h

of_le-lt : (bs : List ℕ) → All IsByte bs → of_le bs < 256 ^ length bs
unfolding of_le
of_le-lt [] h = omega arith
of_le-lt (b ∷ bs) h = rw pow-suc (omega (arith, of_le-lt bs h.1))

load-lt : (big : Bool) (n : ℕ) (bs : List ℕ) → length bs ≡ n → All IsByte bs → load big bs < 256 ^ n
unfolding load of_be
load-lt false n bs e h = rw (← e) (of_le-lt bs h)
load-lt true n bs e h =
    rw (← e, ← length-reverse bs) (of_le-lt (reverse bs) (All-reverse IsByte bs h))

pub hton-lt : (big : Bool) (n x : ℕ) → hton big n x < 256 ^ n
unfolding hton
hton-lt big n x = load-lt big n (be_bytes n x) (length-be_bytes n x) (be_bytes-IsByte n x)

turned_round : (n x : ℕ) → x < 256 ^ n → of_le (be_bytes n (of_le (be_bytes n x))) ≡ x
unfolding be_bytes
turned_round n x h =
    let same : le_bytes n (of_le (be_bytes n x)) ≡ be_bytes n x = stored in
    rw (same, reverse-reverse (le_bytes n x)) (of_le-le_bytes n x h)
  where
    stored : le_bytes n (of_le (be_bytes n x)) ≡ be_bytes n x
    stored = rw (length-be_bytes n x) at (le_bytes-of_le (be_bytes n x) (be_bytes-IsByte n x))

-- Swapping the byte order twice gives the value back.
pub hton_twice : (big : Bool) (n x : ℕ) → x < 256 ^ n → hton big n (hton big n x) ≡ x
unfolding hton load
hton_twice true n x h = rw (of_be-be_bytes n x h) (of_be-be_bytes n x h)
hton_twice false n x h = turned_round n x h
