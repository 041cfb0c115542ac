-- ===== src/Tests/Config.antt =====
-- The configuration file, on concrete lines.
use cs352proxypart.Base.{◌≡◌, ◌≢◌, refl, ◌++◌, none, List, [], ◌∷◌, arith, length, ◌<◌, All}
use cs352proxypart.Heap.{ok, out_of_fuel}
use cs352proxypart.Text.{codes}
use cs352proxypart.Text.Numbers.{decimal_of}
use cs352proxypart.Config.{Peer, UtList, Config, read_lines}
use cs352proxypart.Config.Directives.{
  Directive, listen_port, link_period, peer, tap_device, global_secret_key, body, render, IsWord,
  assigned_all,
}
use cs352proxypart.Config.RoundTrip.{read_lines-render}
use cs352proxypart.Config.Fuel.{read_lines-Ends}

abbrev pub peers : UtList (List Peer)
peers = record {
  empty = [];
  append = λ l p. l ++ p ∷ [];
  to_list = λ l. l;
  to_list-empty = refl;
  to_list-append = λ l p. refl;
}

abbrev pub unset : Config (List Peer)
unset = record {
  local_port = 7;
  portno = 7;
  link_period = 0;
  link_timeout = 0;
  peers = [];
  quit_after = 0;
  tap_device = none;
  global_secret_key = none;
  peer_key = none;
}

abbrev directives : List Directive
directives =
    listen_port 40000
    ∷ peer (codes "h2") 40001
    ∷ tap_device (codes "tap0")
    ∷ global_secret_key (codes "k")
    ∷ link_period 12
    ∷ []

-- The bytes of a word that are neither blank, nor a newline, nor zero.
h2-IsWord : IsWord (codes "h2")
h2-IsWord = record { some = λ e. cc; plain = ground arith }

pub tap0-IsWord : IsWord (codes "tap0")
tap0-IsWord = record { some = λ e. cc; plain = ground arith }

k-IsWord : IsWord (codes "k")
k-IsWord = record { some = λ e. cc; plain = ground arith }

directives_short : All (λ d. length (body d) < 2047) directives
unfolding body decimal_of
directives_short = (omega arith, (omega arith, (omega arith, (omega arith, (omega arith, tt)))))

read_lines-render_example :
    read_lines peers 9 (render directives) unset ≡ ok (assigned_all peers directives unset)
read_lines-render_example =
    read_lines-render peers 9 directives unset
      (omega arith, ((h2-IsWord, omega arith), (tap0-IsWord, (k-IsWord, (omega arith, tt)))))
      directives_short (omega arith)

read_lines-Ends_example : read_lines peers 9 (codes "pee\nr") unset ≢ out_of_fuel
read_lines-Ends_example = read_lines-Ends peers 9 (codes "pee\nr") unset (omega arith)
