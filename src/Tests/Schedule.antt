-- ===== src/Tests/Schedule.antt =====
-- A frame from the tap device, in the example.
use cs352proxypart.Base.{ℕ, ◌≡◌, ◌≢◌, refl, true, false, some, [], ◌∷◌, arith}
use cs352proxypart.Memory.{Bytes}
use cs352proxypart.Heap.{blocked}
use cs352proxypart.State.{State}
use cs352proxypart.State.Moves.{Later}
use cs352proxypart.Links.Flood.{to_all}
use cs352proxypart.Handlers.Data.{wire_data}
use cs352proxypart.Handlers.Broadcast.{tap_handle-to_all}
use cs352proxypart.Threads.{Round, tap_round, perform, next, Schedule-free}
use cs352proxypart.Threads
use cs352proxypart.Tests.Table.{Table, table}
use cs352proxypart.Tests.Example.{socket, start}

abbrev two_bytes : Bytes
two_bytes = 69 ∷ 255 ∷ []

abbrev after : State Table
after = record start { sent = to_all (wire_data 2 two_bytes) (socket 2 ∷ socket 3 ∷ []) }

Schedule-free_example :
    (after.deleterlock ≡ false)
    × ((fuel : ℕ) (a : Round) → perform table true fuel a after ≢ blocked)
    × Later start after
Schedule-free_example = Schedule-free table true start after refl (
    next 9 (tap_round (some two_bytes)) Threads.start
      (tap_handle-to_all table true start two_bytes (omega arith)))
