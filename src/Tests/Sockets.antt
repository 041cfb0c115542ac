-- ===== src/Tests/Sockets.antt =====
-- The table of sockets under a series of calls.
use cs352proxypart.Base.{◌≡◌, refl, List, [], ◌∷◌, arith}
use cs352proxypart.Heap.{ok, and_then}
use cs352proxypart.State.{State}
use cs352proxypart.State.UtHash.{key_eq}
use cs352proxypart.Sockets.Keys.{NoZero}
use cs352proxypart.Sockets.Refine.{
  Call, add, assign, delete, search, perform_all, results, nothing, IsAllowed, perform_all-results,
}
use cs352proxypart.Tests.Table.{Table, table}
use cs352proxypart.Tests.Example.{mac, start}

abbrev bare : State Table
bare = record start { socketfds = [] }

abbrev calls : List Call
calls = add (mac 9) 4 ∷ assign (mac 9) 6 ∷ search (mac 9) ∷ delete (mac 9) ∷ search (mac 9) ∷ []

mac_9-NoZero : NoZero (mac 9)
mac_9-NoZero = ground arith

calls-IsAllowed : IsAllowed nothing calls
unfolding key_eq
calls-IsAllowed = (refl, (tt, (tt, ((λ e. cc), (tt, tt)))))

perform_all-results_example :
    and_then (perform_all table calls bare) (λ (rs, _). ok rs) ≡ ok (results nothing calls)
perform_all-results_example =
    perform_all-results table calls bare refl
      (mac_9-NoZero, (mac_9-NoZero, (mac_9-NoZero, (mac_9-NoZero, (mac_9-NoZero, tt)))))
      calls-IsAllowed
