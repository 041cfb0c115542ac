-- ===== src/Memory/Buffer.antt =====
-- Buffers: a write or a read at the end of a known prefix, and accesses out of bounds.
use cs352proxypart.Base.{
  ℕ, ◌+◌, ◌≤◌, ◌<◌, ◌≡◌, refl, ap, sym, none, some, ◌++◌, arith, length, take, drop, append_assoc,
  length-append, length-drop, length-take, take-append_add, take-append_le, take-append_length,
  drop-append_length, drop-append_add, leb-eq_true,
}
use cs352proxypart.Memory.{Bytes, put, get}

-- A write just behind the prefix `xs` replaces as many bytes of the rest.
pub put-append :
    (xs ys bytes : Bytes) (at : ℕ)
    → at ≡ length xs
    → length bytes ≤ length ys
    → put (xs ++ ys) at bytes ≡ some ((xs ++ bytes) ++ drop (length bytes) ys)
unfolding put
put-append xs ys bytes at e h =
    rw
      (
        e,
        leb-eq_true (length xs + length bytes) (length (xs ++ ys))
            (omega (arith, length-append xs ys)),
        take-append_length xs ys,
        drop-append_add (length bytes) xs ys,
      )
      (ap some (sym (append_assoc xs bytes (drop (length bytes) ys))))

-- A read just behind the prefix `xs` gives what stands there.
pub get-append :
    (xs bytes ys : Bytes) (at n : ℕ)
    → at ≡ length xs
    → n ≡ length bytes
    → get (xs ++ (bytes ++ ys)) at n ≡ some bytes
unfolding get
get-append xs bytes ys at n e f = rw (
  e,
  f,
  leb-eq_true (length xs + length bytes) (length (xs ++ (bytes ++ ys)))
      (omega (arith, length-append xs (bytes ++ ys), length-append bytes ys)),
  drop-append_length xs (bytes ++ ys),
  take-append_length bytes ys,
)

pub put-none :
    (buffer bytes : Bytes) (at : ℕ) → length buffer < at + length bytes → put buffer at bytes ≡ none
unfolding put
put-none buffer bytes at h = ground arith

pub get-none : (buffer : Bytes) (at n : ℕ) → length buffer < at + n → get buffer at n ≡ none
unfolding get
get-none buffer at n h = ground arith

pub put-length :
    (buffer bytes b : Bytes) (at : ℕ) → put buffer at bytes ≡ some b → length b ≡ length buffer
unfolding put
put-length buffer bytes b at e = ground (
  arith,
  length-append (take at buffer) (bytes ++ drop (at + length bytes) buffer),
  length-append bytes (drop (at + length bytes) buffer),
  length-take at buffer,
  length-drop (at + length bytes) buffer,
)

-- A read from the start, over a prefix and `m` bytes behind it.
pub get-prefix :
    (xs ys : Bytes) (n m : ℕ)
    → n ≡ length xs + m
    → m ≤ length ys
    → get (xs ++ ys) 0 n ≡ some (xs ++ take m ys)
unfolding get
get-prefix xs ys n m e h =
    rw
      (
        leb-eq_true (0 + n) (length (xs ++ ys)) (omega (arith, length-append xs ys)),
        e,
        take-append_add m xs ys,
      )
      refl

-- A read from the start, within a prefix.
pub get-start : (xs ys : Bytes) (n : ℕ) → n ≤ length xs → get (xs ++ ys) 0 n ≡ some (take n xs)
unfolding get
get-start xs ys n h =
    rw
      (
        leb-eq_true (0 + n) (length (xs ++ ys)) (omega (arith, length-append xs ys)),
        take-append_le n xs ys h,
      )
      refl
