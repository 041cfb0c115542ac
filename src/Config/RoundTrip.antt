-- ===== src/Config/RoundTrip.antt =====
-- A whole configuration file is read as it is printed.
use cs352proxypart.Base.{
  ℕ, zero, suc, ◌-◌, ◌<◌, ◌≡◌, ◌≢◌, refl, List, [], ◌∷◌, ◌++◌, arith, All, length,
}
use cs352proxypart.Memory.{Bytes}
use cs352proxypart.Text.Words.{fgets_line}
use cs352proxypart.Heap.{ok, and_then}
use cs352proxypart.Sockets.{cstring}
use cs352proxypart.Tunnel.Address.{cstring-append}
use cs352proxypart.Config.{UtList, Config, read_line, read_lines, line_max}
use cs352proxypart.Config.Directives.{Directive, body, render, IsDirective, assigned, assigned_all}
use cs352proxypart.Config.Lines.{Inner, body-Inner, read_line-body}

no_newline : (s : Bytes) → Inner s → All (λ c. c ≢ b'\n') s
no_newline [] h = tt
no_newline (c ∷ s) h = (h.0.0, no_newline s h.1)

no_zero : (s : Bytes) → Inner s → All (λ c. c ≢ 0) s
no_zero [] h = tt
no_zero (c ∷ s) h = (h.0.1, no_zero s h.1)

-- A C string that ends with a newline and has no zero is whole.
cstring_line : (s : Bytes) → Inner s → cstring (s ++ b'\n' ∷ []) ≡ s ++ b'\n' ∷ []
unfolding cstring
cstring_line s h = cstring-append s (b'\n' ∷ []) (no_zero s h)

module _ {L : Type 0} (u : UtList L) where
  -- A round of the loop.
  read_lines-line :
      (fuel : ℕ) (s rest : Bytes) (c : Config L)
      → Inner s
      → length s < line_max - 1
      → read_lines u (suc fuel) (s ++ b'\n' ∷ rest) c
        ≡ and_then (read_line u (s ++ b'\n' ∷ []) c) (λ c. read_lines u fuel rest c)
  unfolding read_lines
  read_lines-line fuel [] rest c h fits =
      rw (fgets_line (line_max - 1) [] rest tt fits, cstring_line [] tt) refl
  read_lines-line fuel (b ∷ s) rest c h fits =
      rw
        (fgets_line (line_max - 1) (b ∷ s) rest (no_newline (b ∷ s) h) fits, cstring_line (b ∷ s) h)
        refl

  read_lines_end : (fuel : ℕ) (c : Config L) → read_lines u (suc fuel) [] c ≡ ok c
  unfolding read_lines
  read_lines_end fuel c = refl

  -- `main` reads a file of well-formed lines, each short enough for its buffer, as the settings
  -- that they stand for, in order, later ones over earlier ones.
  pub read_lines-render :
      (fuel : ℕ) (ds : List Directive) (c : Config L)
      → All IsDirective ds
      → All (λ d. length (body d) < line_max - 1) ds
      → length ds < fuel
      → read_lines u fuel (render ds) c ≡ ok (assigned_all u ds c)
  unfolding render
  read_lines-render zero ds c v fits f = absurd (omega arith)
  read_lines-render (suc fuel) [] c v fits f = read_lines_end fuel c
  read_lines-render (suc fuel) (d ∷ ds) c v fits f =
      rw
        (
          read_lines-line fuel (body d) (render ds) c (body-Inner d v.0) fits.0,
          read_line-body u c d v.0,
        )
        (read_lines-render fuel ds (assigned u d c) v.1 fits.1 (omega arith))
