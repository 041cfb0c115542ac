-- ===== src/Startup/Overrun.antt =====
-- `main` of cs352proxy.c on a host where all goes well up to the text of its address.
use cs352proxypart.Base.{
  ℕ, ◌-◌, ◌^◌, ◌≤◌, ◌<◌, ◌≡◌, refl, ap, ◌∙◌, true, some, List, [], ◌∷◌, ◌++◌, arith, All, length,
  length-append, leb-eq_false,
}
use cs352proxypart.Memory.{Bytes}
use cs352proxypart.Packets.{Mac, mac_bytes, ProxyInfo}
use cs352proxypart.Packets.Ranges.{IsMac}
use cs352proxypart.Heap.{ok, fault}
use cs352proxypart.Tunnel.{allocate_tunnel}
use cs352proxypart.Tunnel.Address.{address_line, allocate_tunnel-address}
use cs352proxypart.Config.{UtList, Config, line_max}
use cs352proxypart.Config.Directives.{Directive, body, render, IsDirective, assigned_all}
use cs352proxypart.Config.RoundTrip.{read_lines-render}
use cs352proxypart.Startup.{Host, InetAton, set_up, with_file, main}
use cs352proxypart.Startup.Address.{own_address-fault}

module _ {L : Type 0} (u : UtList L) (inet_aton : InetAton) (h : Host) (info : ProxyInfo)
    (ip text : Bytes) (small : length ip ≡ 4) (named : h.address ≡ some text)
    (long : 4 ≤ length text) where
  set_up-fault :
      (c : Config L) (dev left : Bytes) (tap_fd : ℕ) (mac : Mac)
      → c.tap_device ≡ some dev
      → allocate_tunnel h.tun (dev ++ 0 ∷ []) info.macaddr ≡ ok (tap_fd, left, mac)
      → tap_fd < 2 ^ 31
      → set_up u inet_aton h info ip c ≡ fault
  unfolding set_up
  set_up-fault c dev left tap_fd mac device tunnel fits =
      rw
        (
          device,
          tunnel,
          leb-eq_false (2 ^ 31) tap_fd fits,
          named,
          own_address-fault inet_aton ip text info.ip (omega (arith, small)),
        )
        refl

  -- On a host whose name and addresses are known, with a configuration file of well-formed lines, each
  -- short enough for its buffer, that names a tap device, and a kernel that gives the device, in a
  -- buffer that holds its name, and its hardware address, `main` writes the text of the address of
  -- the host, of four characters at least, past the end of the four bytes `ip`.
  pub main-fault :
      (fuel : ℕ) (c : Config L) (path : Bytes) (ds : List Directive) (dev name : Bytes) (fd : ℕ)
      (mac : Mac)
      → h.mutex_made ≡ true
      → h.file ≡ some (render ds)
      → All IsDirective ds
      → All (λ d. length (body d) < line_max - 1) ds
      → length ds < fuel
      → (assigned_all u ds c).tap_device ≡ some dev
      → h.tun ≡ record {
        fd = some fd;
        configured = true;
        ifr_name = name;
        address = some (address_line (mac_bytes mac));
      }
      → IsMac mac
      → length name ≤ length dev
      → fd < 2 ^ 31
      → main u inet_aton h info ip fuel c (path ∷ []) ≡ fault
  unfolding main with_file set_up
  main-fault fuel c path ds dev name fd mac made file formed fits enough device tun own room
        small_fd =
      let tunnel =
        ap (λ t. allocate_tunnel t (dev ++ 0 ∷ []) info.macaddr) tun
        ∙ allocate_tunnel-address fd name (dev ++ 0 ∷ []) mac info.macaddr own
            (omega (arith, length-append dev (0 ∷ []))) in
      rw (made, file, read_lines-render u fuel ds c formed fits enough)
        (set_up-fault (assigned_all u ds c) dev _ fd mac device tunnel small_fd)
