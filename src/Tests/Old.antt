-- ===== src/Tests/Old.antt =====
-- The first version of the proxy, on a frame of three bytes.
use cs352proxypart.Base.{◌≡◌, refl, false, true, some, [], ◌∷◌, ◌++◌, arith}
use cs352proxypart.Heap.{ok, fault, and_then}
use cs352proxypart.Memory.{Bytes}
use cs352proxypart.Old.{tap_handle, tcp_round}
use cs352proxypart.Old.Stream.{tcp_round-tap_handle, tcp_round-fault}
use cs352proxypart.Tests.Example.{filler, length-filler}

abbrev frame : Bytes
frame = 1 ∷ 2 ∷ 3 ∷ []

tcp_round-tap_handle_example :
    and_then
      (tap_handle true (some frame))
      (λ sent. tcp_round true (7 ∷ 7 ∷ []) (7 ∷ 7 ∷ []) (filler 1496) (sent ++ 9 ∷ 9 ∷ []))
    ≡ ok (frame, [])
tcp_round-tap_handle_example =
    tcp_round-tap_handle true frame (9 ∷ 9 ∷ []) (7 ∷ 7 ∷ []) (7 ∷ 7 ∷ []) (filler 1496) refl refl
      (length-filler 1496) (omega arith) (omega arith)

tcp_round-fault_example :
    and_then
      (tap_handle false (some frame))
      (λ sent. tcp_round false (7 ∷ 7 ∷ []) (7 ∷ 7 ∷ []) (filler 1496) (sent ++ filler 1500))
    ≡ fault
tcp_round-fault_example =
    tcp_round-fault false frame (filler 1500) (7 ∷ 7 ∷ []) (7 ∷ 7 ∷ []) (filler 1496) refl refl
      (length-filler 1496) (omega arith) (omega (arith, length-filler 1500))
