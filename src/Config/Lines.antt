-- ===== src/Config/Lines.antt =====
-- The lines of a configuration file are read as they are printed.
use cs352proxypart.Base.{
  ℕ, ◌<◌, ◌≡◌, ◌≢◌, ◌%◌, ◌^◌, refl, sym, ap, ◌∙◌, true, false, [], ◌∷◌, ◌++◌, arith, All,
  append_assoc, append-nil,
}
use cs352proxypart.Memory.{Bytes}
use cs352proxypart.Memory.Order.{All-append}
use cs352proxypart.Text.{codes, is_one_of, strtok, atoi}
use cs352proxypart.Text.Numbers.{decimal, IsDigit, decimal-IsDigit, decimal-ne-nil, atoi-decimal}
use cs352proxypart.Text.Words.{strtok_word}
use cs352proxypart.Heap.{ok, and_then, checked}
use cs352proxypart.State.UtHash.{key_eq}
use cs352proxypart.Config.{UtList, Config, next_word, read_directive, read_line}
use cs352proxypart.Config.Directives.{
  Directive, listen_port, link_period, link_timeout, quit_after, peer, tap_device,
  global_secret_key, peer_key, body, IsWord, IsDirective, assigned,
}

abbrev Plain : Bytes → Type 0
Plain = All (λ c. (c ≢ b' ') × (c ≢ b'\n') × (c ≢ 0))

digits-Plain : (s : Bytes) → All IsDigit s → Plain s
digits-Plain [] h = tt
digits-Plain (c ∷ s) h =
    ((ground (arith, h.0), ground (arith, h.0), ground (arith, h.0)), digits-Plain s h.1)

decimal-IsWord : (n : ℕ) → IsWord (decimal n)
decimal-IsWord n = record {
  some = decimal-ne-nil n;
  plain = digits-Plain (decimal n) (decimal-IsDigit n);
}

Plain-delimiter : (s : Bytes) → Plain s → All (λ c. is_one_of (b' ' ∷ b'\n' ∷ []) c ≡ false) s
Plain-delimiter [] h = tt
Plain-delimiter (c ∷ s) h = (ground (arith, h.0), Plain-delimiter s h.1)

-- The next word of a line.
next_word-IsWord :
    (w : Bytes) (d : ℕ) (rest : Bytes)
    → IsWord w
    → is_one_of (b' ' ∷ b'\n' ∷ []) d ≡ true
    → next_word (w ++ d ∷ rest) ≡ ok (w, rest)
unfolding next_word
next_word-IsWord w d rest h e =
    ap checked (strtok_word (b' ' ∷ b'\n' ∷ []) w d rest (Plain-delimiter w h.plain) h.some e)

atoi_line : (n : ℕ) → n < 2 ^ 31 → atoi (decimal n) ≡ n
atoi_line n small = ap atoi (sym (append-nil (decimal n))) ∙ atoi-decimal n [] small tt

number_read :
    {A : Type 0} (n : ℕ) (set : ℕ → A)
    → n < 2 ^ 31
    → and_then (next_word (decimal n ++ b'\n' ∷ [])) (λ (pch, _). ok (set (atoi pch))) ≡ ok (set n)
number_read n set small =
    rw (next_word-IsWord (decimal n) b'\n' [] (decimal-IsWord n) refl, atoi_line n small) refl

-- A line of one directive does what the directive says.
pub read_line-body :
    {L : Type 0} (u : UtList L) (c : Config L) (d : Directive)
    → IsDirective d
    → read_line u (body d ++ b'\n' ∷ []) c ≡ ok (assigned u d c)
unfolding read_line read_directive strtok key_eq body
read_line-body u c (listen_port n) v =
    number_read n (λ n. record c { local_port = n; portno = n % 2 ^ 16 }) v
read_line-body u c (link_period n) v = number_read n (λ n. record c { link_period = n }) v
read_line-body u c (link_timeout n) v = number_read n (λ n. record c { link_timeout = n }) v
read_line-body u c (quit_after n) v = number_read n (λ n. record c { quit_after = n }) v
read_line-body u c (peer ip port) v =
    rw
      (
        append_assoc ip (b' ' ∷ decimal port) (b'\n' ∷ []),
        next_word-IsWord ip b' ' (decimal port ++ b'\n' ∷ []) v.0 refl,
      )
      (number_read port (λ n. record c { peers = u.append c.peers (record { port = n; ip = ip }) })
        v.1)
read_line-body u c (tap_device name) v = rw (next_word-IsWord name b'\n' [] v refl) refl
read_line-body u c (global_secret_key key) v = refl
read_line-body u c (peer_key mac key) v =
    rw
      (
        append_assoc mac (b' ' ∷ key) (b'\n' ∷ []),
        next_word-IsWord mac b' ' (key ++ b'\n' ∷ []) v.0 refl,
        next_word-IsWord key b'\n' [] v.1 refl,
      )
      refl

-- The bytes of a line are no newlines and no zeros.
abbrev pub Inner : Bytes → Type 0
Inner = All (λ c. (c ≢ b'\n') × (c ≢ 0))

Plain-Inner : (s : Bytes) → Plain s → Inner s
Plain-Inner [] h = tt
Plain-Inner (c ∷ s) h = ((h.0.1, h.0.2), Plain-Inner s h.1)

spaced : (a b : Bytes) → Inner a → Inner b → Inner (a ++ b' ' ∷ b)
spaced a b ha hb =
    All-append (λ c. (c ≢ b'\n') × (c ≢ 0)) a (b' ' ∷ b) ha ((omega arith, omega arith), hb)

decimal-Inner : (n : ℕ) → Inner (decimal n)
decimal-Inner n = Plain-Inner (decimal n) (decimal-IsWord n).plain

pub body-Inner : (d : Directive) → IsDirective d → Inner (body d)
unfolding body
body-Inner (listen_port n) v =
    spaced (codes "listenPort") (decimal n) (omega arith) (decimal-Inner n)
body-Inner (link_period n) v =
    spaced (codes "linkPeriod") (decimal n) (omega arith) (decimal-Inner n)
body-Inner (link_timeout n) v =
    spaced (codes "linkTimeout") (decimal n) (omega arith) (decimal-Inner n)
body-Inner (quit_after n) v = spaced (codes "quitAfter") (decimal n) (omega arith) (decimal-Inner n)
body-Inner (peer ip port) v =
    spaced (codes "peer") (ip ++ b' ' ∷ decimal port) (omega arith)
      (spaced ip (decimal port) (Plain-Inner ip v.0.plain) (decimal-Inner port))
body-Inner (tap_device name) v =
    spaced (codes "tapDevice") name (omega arith) (Plain-Inner name v.plain)
body-Inner (global_secret_key key) v =
    spaced (codes "globalSecretKey") key (omega arith) (Plain-Inner key v.plain)
body-Inner (peer_key mac key) v =
    spaced (codes "peerKey") (mac ++ b' ' ∷ key) (omega arith)
      (spaced mac key (Plain-Inner mac v.0.plain) (Plain-Inner key v.1.plain))
