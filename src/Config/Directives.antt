-- ===== src/Config/Directives.antt =====
-- The lines of a configuration file, printed.
use cs352proxypart.Base.{ℕ, ◌<◌, ◌≢◌, ◌%◌, ◌^◌, some, List, [], ◌∷◌, ◌++◌, All}
use cs352proxypart.Memory.{Bytes}
use cs352proxypart.Text.{codes}
use cs352proxypart.Text.Numbers.{decimal}
use cs352proxypart.Config.{UtList, Config}

pub data Directive : Type 0 where
  listen_port link_period link_timeout quit_after : ℕ → Directive
  peer : Bytes → ℕ → Directive
  tap_device : Bytes → Directive
  global_secret_key : Bytes → Directive
  peer_key : Bytes → Bytes → Directive

-- The line of a directive, without its newline.
unfoldable pub body : Directive → Bytes
body (listen_port n) = codes "listenPort" ++ b' ' ∷ decimal n
body (link_period n) = codes "linkPeriod" ++ b' ' ∷ decimal n
body (link_timeout n) = codes "linkTimeout" ++ b' ' ∷ decimal n
body (quit_after n) = codes "quitAfter" ++ b' ' ∷ decimal n
body (peer ip port) = codes "peer" ++ b' ' ∷ (ip ++ b' ' ∷ decimal port)
body (tap_device name) = codes "tapDevice" ++ b' ' ∷ name
body (global_secret_key key) = codes "globalSecretKey" ++ b' ' ∷ key
body (peer_key mac key) = codes "peerKey" ++ b' ' ∷ (mac ++ b' ' ∷ key)

unfoldable pub render : List Directive → Bytes
render [] = []
render (d ∷ ds) = body d ++ b'\n' ∷ render ds

-- Text with no space, newline or zero.
pub record IsWord (w : Bytes) : Type 0 where
  pub some : w ≢ []
  pub plain : All (λ c. (c ≢ b' ') × (c ≢ b'\n') × (c ≢ 0)) w

-- Numbers are `int`s that are not negative, and texts are words.
abbrev pub IsDirective : Directive → Type 0
IsDirective (listen_port n) = n < 2 ^ 31
IsDirective (link_period n) = n < 2 ^ 31
IsDirective (link_timeout n) = n < 2 ^ 31
IsDirective (quit_after n) = n < 2 ^ 31
IsDirective (peer ip port) = IsWord ip × (port < 2 ^ 31)
IsDirective (tap_device name) = IsWord name
IsDirective (global_secret_key key) = IsWord key
IsDirective (peer_key mac key) = IsWord mac × IsWord key

module _ {L : Type 0} (u : UtList L) where
  -- What a line sets. The program keeps the word `globalSecretKey` for the key itself.
  abbrev pub assigned : Directive → Config L → Config L
  assigned (listen_port n) c = record c { local_port = n; portno = n % 2 ^ 16 }
  assigned (link_period n) c = record c { link_period = n }
  assigned (link_timeout n) c = record c { link_timeout = n }
  assigned (quit_after n) c = record c { quit_after = n }
  assigned (peer ip port) c = record c {
    peers = u.append c.peers (record { port = port; ip = ip });
  }
  assigned (tap_device name) c = record c { tap_device = some name }
  assigned (global_secret_key key) c = record c {
    global_secret_key = some (codes "globalSecretKey");
  }
  assigned (peer_key mac key) c = record c { peer_key = some (mac, key) }

  abbrev pub assigned_all : List Directive → Config L → Config L
  assigned_all [] c = c
  assigned_all (d ∷ ds) c = assigned_all ds (assigned d c)
