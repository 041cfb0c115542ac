-- ===== src/Config/Fuel.antt =====
-- The loop of `main` over the configuration file ends.
use cs352proxypart.Base.{
  ℕ, ◌%◌, ◌^◌, zero, suc, ◌-◌, ◌<◌, ◌≢◌, refl, Bool, true, false, Option, none, some, [], ◌∷◌,
  arith, length, if◌then◌else◌,
}
use cs352proxypart.Memory.{Bytes}
use cs352proxypart.Text.{codes, strtok, atoi, fgets}
use cs352proxypart.Text.Words.{fgets-lt}
use cs352proxypart.Heap.{Run, ok, fault, exited, blocked, out_of_fuel, and_then, checked}
use cs352proxypart.State.UtHash.{key_eq}
use cs352proxypart.Sockets.{cstring}
use cs352proxypart.Config.{
  UtList, Config, next_word, read_directive, read_line, read_lines, line_max,
}

-- An outcome that needs no more fuel.
abbrev Ends : {A : Type 0} → Run A → Type 0
Ends r = r ≢ out_of_fuel

Ends-checked :
    {A B : Type 0} (o : Option A) (k : A → Run B)
    → ((a : A) → Ends (k a))
    → Ends (and_then (checked o) k)
Ends-checked none k h = λ e. cc
Ends-checked (some a) k h = h a

Ends-if : {A : Type 0} (b : Bool) {r s : Run A} → Ends r → Ends s → Ends (if b then r else s)
Ends-if true hr hs = hr
Ends-if false hr hs = hs

Ends-ok : {A : Type 0} {a : A} → Ends (ok a)
Ends-ok e = cc

Ends-exited : {A : Type 0} → Ends {A = A} exited
Ends-exited e = cc

module _ {L : Type 0} (u : UtList L) where
  Ends-word :
      (rest : Bytes) (k : Bytes × Bytes → Run (Config L))
      → ((a : Bytes × Bytes) → Ends (k a))
      → Ends (and_then (next_word rest) k)
  unfolding next_word
  Ends-word rest k h = Ends-checked (strtok (b' ' ∷ b'\n' ∷ []) rest) k h

  Ends-one :
      (rest : Bytes) (set : Bytes → Config L)
      → Ends (and_then (next_word rest) (λ (pch, _). ok (set pch)))
  Ends-one rest set = Ends-word rest (λ (pch, _). ok (set pch)) (λ a. Ends-ok)

  Ends-two :
      (rest : Bytes) (set : Bytes → Bytes → Config L)
      → Ends (
          and_then
            (next_word rest)
            (λ (a, rest). and_then (next_word rest) (λ (w, _). ok (set a w))))
  Ends-two rest set =
      Ends-word rest (λ (a, rest). and_then (next_word rest) (λ (w, _). ok (set a w)))
        (λ (a, rest). Ends-one rest (set a))

  read_directive-Ends : (pch rest : Bytes) (c : Config L) → Ends (read_directive u pch rest c)
  unfolding read_directive
  read_directive-Ends pch rest c =
      let is = λ (key : Bytes). key_eq pch key in
      Ends-if (is (codes "listenPort"))
        (Ends-one rest (λ w. record c { local_port = atoi w; portno = atoi w % 2 ^ 16 }))
        (Ends-if (is (codes "linkPeriod")) (Ends-one rest (λ w. record c { link_period = atoi w }))
          (Ends-if (is (codes "linkTimeout"))
            (Ends-one rest (λ w. record c { link_timeout = atoi w }))
            (Ends-if (is (codes "peer"))
              (Ends-two rest
                (λ a w. record c { peers = u.append c.peers (record { port = atoi w; ip = a }) }))
              (Ends-if (is (codes "quitAfter"))
                (Ends-one rest (λ w. record c { quit_after = atoi w }))
                (Ends-if (is (codes "tapDevice"))
                  (Ends-one rest (λ w. record c { tap_device = some w }))
                  (Ends-if (is (codes "globalSecretKey")) Ends-ok (
                    Ends-if (is (codes "peerKey"))
                      (Ends-two rest (λ a w. record c { peer_key = some (a, w) }))
                      Ends-exited)))))))

  read_line-Ends : (linep : Bytes) (c : Config L) → Ends (read_line u linep c)
  unfolding read_line
  read_line-Ends linep c =
      Ends-checked (strtok (b' ' ∷ []) linep) (λ (pch, rest). read_directive u pch rest c)
        (λ (pch, rest). read_directive-Ends pch rest c)

  Ends-then :
      {A B : Type 0} (r : Run A) (k : A → Run B)
      → Ends r
      → ((a : A) → Ends (k a))
      → Ends (and_then r k)
  Ends-then (ok a) k h hk = hk a
  Ends-then fault k h hk = λ e. cc
  Ends-then blocked k h hk = λ e. cc
  Ends-then exited k h hk = λ e. cc
  Ends-then out_of_fuel k h hk = absurd (h refl)

  -- The loop over the configuration file ends, whatever the file holds: one round for each of its
  -- bytes, and one more, are enough.
  pub read_lines-Ends :
      (fuel : ℕ) (file : Bytes) (c : Config L)
      → length file < fuel
      → read_lines u fuel file c ≢ out_of_fuel
  unfolding read_lines
  read_lines-Ends zero file c f = absurd (omega arith)
  read_lines-Ends (suc fuel) [] c f = λ e. cc
  read_lines-Ends (suc fuel) (b ∷ file) c f =
      Ends-then (read_line u (cstring (fgets (line_max - 1) (b ∷ file)).0) c)
        (λ c. read_lines u fuel (fgets (line_max - 1) (b ∷ file)).1 c)
        (read_line-Ends (cstring (fgets (line_max - 1) (b ∷ file)).0) c)
        (λ c.
          read_lines-Ends fuel (fgets (line_max - 1) (b ∷ file)).1 c
            (omega (arith, fgets-lt 2046 b file)))
