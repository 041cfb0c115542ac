-- ===== src/Old.antt =====
-- cs352proxy_old.c, the first version of the proxy: a tunnel between two hosts over one connection.
-- A function on the network or the device takes what the host answers.
pub mod Stream
use cs352proxypart.Base.{
  ℕ, ◌+◌, ◌-◌, ◌*◌, ◌%◌, ◌^◌, ◌≤◌, Bool, true, false, ◌||◌, not, Option, none, some, List, [], ◌∷◌,
  ◌++◌, ltb, leb, if◌then◌else◌, length, take, drop, ◌==◌,
}
use cs352proxypart.Helper.{minus_one}
use cs352proxypart.Memory.{Bytes, store, load, hton, ntoh, put, get}
use cs352proxypart.Text.{atoi}
use cs352proxypart.Handlers.{zeros}
use cs352proxypart.Heap.{Run, ok, fault, exited, and_then, checked}

abbrev pub bufsize : ℕ
bufsize = 1500

abbrev pub headerlen : ℕ
headerlen = 4

abbrev pub msglen : ℕ
msglen = bufsize - headerlen

abbrev pub pk_type : ℕ
pk_type = 0xABCD

-- A round of the loop of `TAPHandle`, for what `read` gives of the tap device: what it writes to
-- the connection, by three calls. After a failed `read` the last one has the length -1, a huge
-- `size_t`.
unfoldable pub tap_handle : Bool → Option Bytes → Run Bytes
tap_handle big none = fault
tap_handle big (some buf) =
    ok (store big 2 (hton big 2 pk_type) ++ (store big 2 (hton big 2 (length buf % 2 ^ 16)) ++ buf))

-- `read(TCPSocketfd, &x, 2)` into two bytes that hold `junk`.
unfoldable pub read_short : Bool → (junk got : Bytes) → Run ℕ
read_short big junk got = and_then (checked (put junk 0 got)) λ b. ok (ntoh big 2 (load big b))

-- A round of the loop of `TCPHandle`: what it writes to the tap device. The three `read`s give
-- `type`, `length` and `got`. A wrong type is only reported. `junk` is what the stack holds: two
-- bytes in each of the two integers, and the 1496 of `buf`.
unfoldable pub tcp_handle :
    Bool → (junk_type junk_length buf : Bytes) → (type length got : Bytes) → Run Bytes
tcp_handle big junk_type junk_length buf type length got =
    and_then (read_short big junk_type type) λ _. and_then (read_short big junk_length length) λ n.
      and_then (checked (put buf 0 (zeros n)))
        λ buf. and_then (checked (put buf 0 got)) λ buf. checked (get buf 0 n)

-- The same round where the bytes `arrived` on the connection are there, and each `read` takes as
-- many as it may: the bytes for the tap device, and those still to be read.
unfoldable pub tcp_round :
    Bool → (junk_type junk_length buf : Bytes) → (arrived : Bytes) → Run (Bytes × Bytes)
tcp_round big junk_type junk_length buf arrived =
    let payload = drop headerlen arrived in
    and_then
      (tcp_handle big junk_type junk_length buf (take 2 arrived) (take 2 (drop 2 arrived))
        (take bufsize payload))
      λ frame. ok (frame, drop bufsize payload)

-- `allocate_tunnel`: the descriptor or -1, and the memory of `dev`.
unfoldable pub allocate_tunnel :
    (fd : Option ℕ) → (configured : Bool) → (ifr_name dev : Bytes) → Run (ℕ × Bytes)
allocate_tunnel none configured ifr_name dev = ok (minus_one, dev)
allocate_tunnel (some fd) configured ifr_name dev =
    if configured
    then (and_then (checked (put dev 0 (ifr_name ++ 0 ∷ []))) λ dev. ok (fd, dev))
    else ok (minus_one, dev)

-- `createServer`: `sin_port` as it is sent, and the connection.
unfoldable pub create_server :
    (port : ℕ) → (bound listening : Bool) → (newsockfd : Option ℕ) → Run (ℕ × ℕ)
create_server port bound listening newsockfd =
    if bound
    then (if listening
        then (elim newsockfd [ none ↦ exited | some fd ↦ ok (port % 2 ^ 16, fd) ])
        else exited)
    else exited

-- `createClient`: the same. `s_addr` is what `inet_addr` or `gethostbyname` gives.
unfoldable pub create_client :
    (socketfd remote_port : ℕ) → (s_addr : Option ℕ) → (connects : Bool) → Run (ℕ × ℕ)
create_client socketfd remote_port none connects = exited
create_client socketfd remote_port (some s_addr) connects =
    if connects then ok (remote_port % 2 ^ 16, socketfd) else exited

-- What `main` makes of its arguments.
pub data Role : Type 0 where
  usage out_of_range : Role
  server : (local_port : ℕ) → (local_interface : Bytes) → Role
  client : (remote_host : Bytes) → (remote_port : ℕ) → (local_interface : Bytes) → Role

-- `port < 1024 || port > 65536` for the `int` with this pattern
abbrev pub is_out_of_range : ℕ → Bool
is_out_of_range port = leb (2 ^ 31) port || (ltb port 1024 || ltb 65536 port)

-- `args` are the arguments without the name of the program.
unfoldable pub parse_args : List Bytes → Role
parse_args (port ∷ interface ∷ []) =
    if is_out_of_range (atoi port) then out_of_range else server (atoi port) interface
parse_args (host ∷ port ∷ interface ∷ []) =
    if is_out_of_range (atoi port) then out_of_range else client host (atoi port) interface
parse_args _ = usage

-- What the host and the network answer to `main`.
pub record Answers : Type 0 where
  pub tun_fd : Option ℕ
  pub configured : Bool
  pub ifr_name : Bytes
  pub socketfd : Option ℕ
  pub bound : Bool
  pub listening : Bool
  pub newsockfd : Option ℕ
  pub s_addr : Option ℕ
  pub connects : Bool

-- `tap_fd` and `TCPSocketfd`, and the port in network order.
unfoldable pub connected : Answers → Role → (socketfd : ℕ) → Run (ℕ × ℕ)
connected a (server port interface) socketfd = create_server port a.bound a.listening a.newsockfd
connected a (client host port interface) socketfd = create_client socketfd port a.s_addr a.connects
connected a _ socketfd = exited

abbrev pub interface_of : Role → Bytes
interface_of (server port interface) = interface
interface_of (client host port interface) = interface
interface_of _ = []

unfoldable pub set_up : Answers → Role → Run (ℕ × ℕ × ℕ)
set_up a role =
    and_then (allocate_tunnel a.tun_fd a.configured a.ifr_name (interface_of role ++ 0 ∷ []))
      λ (tap_fd, _). if leb (2 ^ 31) tap_fd then exited else elim a.socketfd [
        | none ↦ exited
        | some socketfd ↦
            and_then (connected a role socketfd) λ (sin_port, fd). ok (tap_fd, sin_port, fd)
      ]

-- `main`, up to the threads. A `return` ends the process as `exit` does.
unfoldable pub main : Answers → (args : List Bytes) → Run (ℕ × ℕ × ℕ)
unfolding parse_args
main a args = elim (parse_args args) [
  | usage ↦ exited
  | out_of_range ↦ exited
  | server port interface ↦ set_up a (server port interface)
  | client host port interface ↦ set_up a (client host port interface)
]
