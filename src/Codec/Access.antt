-- ===== src/Codec/Access.antt =====
-- Rules for code that writes or reads a buffer field by field.
use cs352proxypart.Base.{
  ℕ, ◌+◌, ◌≤◌, ◌<◌, ◌≡◌, inl, inr, none, Option-cases, refl, ap, sym, ◌∙◌, Option, some, [], ◌++◌,
  arith, length, drop, drop-append_length, append_assoc, length-append, length-drop, drop-drop,
  ◌>>=◌,
}
use cs352proxypart.Memory.{Bytes, put}
use cs352proxypart.Memory.Buffer.{put-append, put-length, put-none}

-- `f` puts `bytes` at the offset `at` of any buffer that has room for them, and changes no other
-- byte.
abbrev pub WritesAt : (Bytes → Option Bytes) → ℕ → Bytes → Type 0
WritesAt f at bytes =
    (xs ys : Bytes)
    → at ≡ length xs
    → length bytes ≤ length ys
    → f (xs ++ ys) ≡ some ((xs ++ bytes) ++ drop (length bytes) ys)

pub put-WritesAt : (at : ℕ) (bytes : Bytes) → WritesAt (λ buffer. put buffer at bytes) at bytes
put-WritesAt at bytes xs ys e h = put-append xs ys bytes at e h

-- A second write that starts where the first ends.
pub WritesAt-then :
    (f g : Bytes → Option Bytes) (at next : ℕ) (b c : Bytes)
    → WritesAt f at b
    → WritesAt g next c
    → next ≡ at + length b
    → WritesAt (λ buffer. f buffer >>= g) at (b ++ c)
WritesAt-then f g at next b c wf wg n xs ys e h =
    let room : length b + length c ≤ length ys = omega (arith, length-append b c) in
    rw
      (
        wf xs ys e (omega arith),
        wg (xs ++ b) (drop (length b) ys) (omega (arith, length-append xs b))
            (omega (arith, length-drop (length b) ys)),
        append_assoc xs b c,
        drop-drop (length c) (length b) ys,
        length-append b c,
      )
      refl

-- `f` reads the value `v` where `bytes` stand at the offset `at`.
abbrev pub ReadsAt {ℓ} : {A : Type ℓ} → (Bytes → Option A) → ℕ → Bytes → A → Type ℓ
ReadsAt f at bytes v = (xs ys : Bytes) → at ≡ length xs → f (xs ++ (bytes ++ ys)) ≡ some v

module _ {ℓ} {A : Type ℓ} where
  -- What stands behind does not matter.
  pub ReadsAt-left :
      (f : Bytes → Option A) (at : ℕ) (b c : Bytes) (v : A)
      → ReadsAt f at b v
      → ReadsAt f at (b ++ c) v
  ReadsAt-left f at b c v r xs ys e = rw (append_assoc b c ys) (r xs (c ++ ys) e)

  -- Nor what stands in front.
  pub ReadsAt-right :
      (f : Bytes → Option A) (at next : ℕ) (b c : Bytes) (v : A)
      → ReadsAt f next c v
      → next ≡ at + length b
      → ReadsAt f at (b ++ c) v
  ReadsAt-right f at next b c v r n xs ys e =
      rw (append_assoc b c ys, ← append_assoc xs b (c ++ ys))
        (r (xs ++ b) ys (omega (arith, length-append xs b)))

  pub ReadsAt-then {κ} :
      {B : Type κ} (f : Bytes → Option A) (g : A → Bytes → Option B) (at : ℕ) (b : Bytes) (v : A)
      (w : B)
      → ReadsAt f at b v
      → ReadsAt (g v) at b w
      → ReadsAt (λ buffer. f buffer >>= λ a. g a buffer) at b w
  ReadsAt-then f g at b v w rf rg xs ys e = rw (rf xs ys e) (rg xs ys e)

-- A write at the start of a buffer with enough room: the bytes, and then what stood there.
pub WritesAt-start :
    (f : Bytes → Option Bytes) (k : ℕ) (bytes buffer : Bytes)
    → WritesAt f 0 bytes
    → length bytes ≡ k
    → k ≤ length buffer
    → (f buffer ≡ some (bytes ++ drop k buffer))
      × (length (bytes ++ drop k buffer) ≡ length buffer)
      × (drop k (bytes ++ drop k buffer) ≡ drop k buffer)
WritesAt-start f k bytes buffer w e h = (
  rw (← e) (w [] buffer refl (omega arith)),
  omega (arith, length-append bytes (drop k buffer), length-drop k buffer),
  ap (λ (n : ℕ). drop n (bytes ++ drop k buffer)) (sym e)
      ∙ drop-append_length bytes (drop k buffer),
)

-- `f` leaves the size of the buffer alone.
abbrev pub Keeps : (Bytes → Option Bytes) → Type 0
Keeps f = (buffer b : Bytes) → f buffer ≡ some b → length b ≡ length buffer

-- `f` faults in any buffer of less than `k` bytes.
abbrev pub FailsBelow : (Bytes → Option Bytes) → ℕ → Type 0
FailsBelow f k = (buffer : Bytes) → length buffer < k → f buffer ≡ none

pub put-Keeps : (at : ℕ) (bytes : Bytes) → Keeps (λ buffer. put buffer at bytes)
put-Keeps at bytes buffer b e = put-length buffer bytes b at e

pub put-FailsBelow :
    (at : ℕ) (bytes : Bytes) → FailsBelow (λ buffer. put buffer at bytes) (at + length bytes)
put-FailsBelow at bytes buffer h = put-none buffer bytes at h

module _ (f g : Bytes → Option Bytes) where
  pub Keeps-then : Keeps f → Keeps g → Keeps (λ buffer. f buffer >>= g)
  Keeps-then kf kg buffer b e = elim (Option-cases (f buffer)) [
    | inl missing ↦ cc
    | inr (c, got) ↦ kg c b (rw got at e) ∙ kf buffer c got
  ]

  pub FailsBelow-then : (k : ℕ) → Keeps f → FailsBelow g k → FailsBelow (λ buffer. f buffer >>= g) k
  FailsBelow-then k kf fg buffer h = elim (Option-cases (f buffer)) [
    | inl missing ↦ rw missing
    | inr (c, got) ↦ rw got (fg c (omega (arith, kf buffer c got)))
  ]
