-- ===== src/Text/Words.antt =====
-- Words and lines, as `strtok` and `fgets` take them off a text.
use cs352proxypart.Base.{
  ℕ, zero, suc, ◌≤◌, ◌<◌, ◌≡◌, ◌≢◌, refl, ap, ◌∙◌, Bool, true, false, some, [], ◌∷◌, ◌++◌, arith,
  ==-eq_false, length, All,
}
use cs352proxypart.Memory.{Bytes}
use cs352proxypart.Text.{is_one_of, skip, word, behind, token, strtok, fgets}

module _ (p : ℕ → Bool) where
  skip_word : (w rest : Bytes) → All (λ c. p c ≡ false) w → w ≢ [] → skip p (w ++ rest) ≡ w ++ rest
  unfolding skip
  skip_word [] rest h ne = absurd (ne refl)
  skip_word (c ∷ w) rest h ne = rw h.0 refl

  word_delimiter :
      (w : Bytes) (d : ℕ) (rest : Bytes)
      → All (λ c. p c ≡ false) w
      → p d ≡ true
      → word p (w ++ d ∷ rest) ≡ w
  unfolding word
  word_delimiter [] d rest h e = rw e refl
  word_delimiter (c ∷ w) d rest h e = rw (h.0, word_delimiter w d rest h.1 e) refl

  behind_delimiter :
      (w : Bytes) (d : ℕ) (rest : Bytes)
      → All (λ c. p c ≡ false) w
      → p d ≡ true
      → behind p (w ++ d ∷ rest) ≡ rest
  unfolding behind
  behind_delimiter [] d rest h e = rw e refl
  behind_delimiter (c ∷ w) d rest h e = rw (h.0, behind_delimiter w d rest h.1 e) refl

-- A word and the delimiter behind it.
pub strtok_word :
    (delimiters w : Bytes) (d : ℕ) (rest : Bytes)
    → All (λ c. is_one_of delimiters c ≡ false) w
    → w ≢ []
    → is_one_of delimiters d ≡ true
    → strtok delimiters (w ++ d ∷ rest) ≡ some (w, rest)
unfolding strtok token
strtok_word delimiters [] d rest h ne e = absurd (ne refl)
strtok_word delimiters (c ∷ w) d rest h ne e =
    let p = is_one_of delimiters in
    ap (token delimiters) (skip_word p (c ∷ w) (d ∷ rest) h ne)
    ∙ ap some (pair (word_delimiter p (c ∷ w) d rest h e) (behind_delimiter p (c ∷ w) d rest h e))
  where
    pair : {a b s t : Bytes} → a ≡ b → s ≡ t → ◌≡◌ {A = Bytes × Bytes} (a, s) (b, t)
    pair e f = cc

-- A line that fits, with its newline.
pub fgets_line :
    (n : ℕ) (body rest : Bytes)
    → All (λ c. c ≢ b'\n') body
    → length body < n
    → fgets n (body ++ b'\n' ∷ rest) ≡ (body ++ b'\n' ∷ [], rest)
unfolding fgets
fgets_line zero body rest h lt = absurd (omega arith)
fgets_line (suc n) [] rest h lt = refl
fgets_line (suc n) (c ∷ body) rest h lt =
    rw (==-eq_false c b'\n' h.0, fgets_line n body rest h.1 (omega arith)) refl

-- Something is read of a file that is not at its end.
pub fgets-lt : (n b : ℕ) (file : Bytes) → length (fgets (suc n) (b ∷ file)).1 ≤ length file
unfolding fgets
fgets-lt zero b file = ground arith
fgets-lt (suc n) b [] = ground arith
fgets-lt (suc n) b (c ∷ file) = ground (arith, fgets-lt n c file)
