-- ===== src/Startup/Workers.antt =====
-- How cs352proxy.c hands descriptors to the threads that run `TCPHandle`. `acceptconn` and the loop
-- of `main` over the peers pass the address of one variable (`connfd`, `socket_fd`), which a thread
-- reads when it begins and the loop sets again for the next connection.
pub mod Race
use cs352proxypart.Base.{
  ℕ, zero, suc, ◌%◌, ◌^◌, ◌<◌, ◌≡◌, Bool, Option, none, some, List, [], ◌∷◌, ◌++◌, set,
  if◌then◌else◌, leb,
}
use cs352proxypart.Helper.{minus_one}
use cs352proxypart.Heap.{Run, ok, exited}

-- `workers` are the threads in the order of their creation, each with its `tcp_fd` once it has
-- begun.
pub record Listener : Type 0 where
  pub connfd : ℕ
  pub workers : List (Option ℕ)

-- `sin_port` as it is sent, and the loop with no connection yet, once `bind` and `listen` have
-- succeeded. `junk` is what `connfd` holds.
unfoldable pub set_up_listener :
    (local_port : ℕ) → (bound listening : Bool) → (junk : ℕ) → Run (ℕ × Listener)
set_up_listener local_port bound listening junk =
    if bound
    then (if listening
        then ok (local_port % 2 ^ 16, record { connfd = junk; workers = [] })
        else exited)
    else exited

-- A round of the loop of `acceptconn`, for the result of `accept`; `none` is -1.
unfoldable pub accept_conn : Option ℕ → Listener → Listener
accept_conn none l = record l { connfd = minus_one }
accept_conn (some fd) l = record { connfd = fd; workers = l.workers ++ none ∷ [] }

-- `int tcp_fd = *(int*)fd`, in the thread number `i`
unfoldable pub begin : ℕ → Listener → Listener
begin i l = record l { workers = set l.workers i (some l.connfd) }

abbrev pub worker : List (Option ℕ) → ℕ → Option (Option ℕ)
worker [] i = none
worker (w ∷ ws) zero = some w
worker (w ∷ ws) (suc i) = worker ws i

-- The loop goes round, or a thread begins that has not begun. The last index says which descriptor
-- `accept` gave, if any.
pub data Step (l : Listener) : Listener → Option ℕ → Type 0 where
  accepts : (fd : ℕ) → fd < 2 ^ 31 → Step l (accept_conn (some fd) l) (some fd)
  fails : Step l (accept_conn none l) none
  begins : (i : ℕ) → worker l.workers i ≡ some none → Step l (begin i l) none

abbrev pub noted : Option ℕ → List ℕ → List ℕ
noted none fds = fds
noted (some fd) fds = fds ++ fd ∷ []

-- The states that an interleaving reaches, with the descriptors accepted on the way.
pub data Reach (start : Listener) : List ℕ → Listener → Type 0 where
  here : Reach start [] start
  next :
      {fds : List ℕ} {l k : Listener} {o : Option ℕ}
      → Reach start fds l
      → Step l k o
      → Reach start (noted o fds) k
