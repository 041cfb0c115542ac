-- ===== src/State.antt =====
-- The globals of cs352proxy.c, and what a thread of the proxy does with them.
--
-- A command runs from one state to the next, and its outcome says whether it goes on (`Run` of
-- `Heap`). A thread's work between two blocking calls is one command: what the threads do under
-- `deleterlock` excludes one another, and a schedule of commands stands for their interleaving.
-- `T` is the hash table of uthash.h (`State.UtHash`).
pub mod UtHash
pub mod Laws
pub mod NoWait
pub mod Moves
use cs352proxypart.Base.{ℕ, suc, ◌+◌, Bool, true, false, List, [], ◌∷◌, ◌++◌, if◌then◌else◌}
use cs352proxypart.Memory.{Bytes}
use cs352proxypart.Helper.{Timeval}
use cs352proxypart.Helper
use cs352proxypart.Packets.{Ptr, Link, LinkstateNode, node, ProxyInfo, MembershipList}
use cs352proxypart.Heap.{Run, ok, fault, blocked, out_of_fuel, and_then, Nodes, deref, assign}

-- Bytes handed to `send` or `write`, and the descriptor that they went to.
pub record Output : Type 0 where
  pub fd : ℕ
  pub bytes : Bytes

-- `clock n` is what the call number `n` of `gettimeofday` gives, and `readings` counts the calls.
pub record State (T : Type 0) : Type 0 where
  pub nodes : Nodes
  pub mem_list : MembershipList
  pub socketfds : T
  pub my_proxy_info : ProxyInfo
  pub deleterlock : Bool
  pub tap_fd : ℕ
  pub clock : ℕ → Timeval
  pub readings : ℕ
  pub sent : List Output

abbrev pub Cmd : Type 0 → Type 0 → Type 0
Cmd T A = State T → Run (A × State T)

module _ {T : Type 0} where
  abbrev pub pure : {A : Type 0} → A → Cmd T A
  pure a s = ok (a, s)

  infixl 5 ◌>>=◌ ◌>>◌
  abbrev pub ◌>>=◌ : {A B : Type 0} → Cmd T A → (A → Cmd T B) → Cmd T B
  ◌>>=◌ m f s = and_then (m s) λ (a, s'). f a s'

  abbrev pub ◌>>◌ : {B : Type 0} → Cmd T (Unit {0}) → Cmd T B → Cmd T B
  m >> k = m >>= λ _. k

  -- An outcome that leaves the state alone.
  abbrev pub lift : {A : Type 0} → Run A → Cmd T A
  lift r s = and_then r λ a. ok (a, s)

  abbrev pub gets : {A : Type 0} → (State T → A) → Cmd T A
  gets f s = ok (f s, s)

  abbrev pub modify : (State T → State T) → Cmd T (Unit {0})
  modify f s = ok (tt, f s)

  -- `pthread_mutex_lock(&deleterlock)`: a thread that holds the mutex waits for itself.
  unfoldable pub lock : Cmd T (Unit {0})
  lock s = if s.deleterlock then blocked else ok (tt, record s { deleterlock = true })

  -- `pthread_mutex_unlock(&deleterlock)`: undefined where the mutex is not held.
  unfoldable pub unlock : Cmd T (Unit {0})
  unlock s = if s.deleterlock then ok (tt, record s { deleterlock = false }) else fault

  -- `gettimeid()`
  unfoldable pub gettimeid : Cmd T ℕ
  gettimeid s = ok (Helper.gettimeid (s.clock s.readings), record s { readings = suc s.readings })

  -- `*p`
  unfoldable pub load : Ptr → Cmd T LinkstateNode
  load p s = and_then (deref s.nodes p) λ n. ok (n, s)

  -- `*p = n`
  unfoldable pub save : Ptr → LinkstateNode → Cmd T (Unit {0})
  save p n s = and_then (assign s.nodes p n) λ h. ok (tt, record s { nodes = h })

  -- `p->ID = id`
  unfoldable pub set_id : Ptr → ℕ → Cmd T (Unit {0})
  set_id p id = load p >>= λ n. save p (node (record n.link { id = id }) n.next)

  -- `p->linkweight = w`
  unfoldable pub set_linkweight : Ptr → ℕ → Cmd T (Unit {0})
  set_linkweight p w = load p >>= λ n. save p (node (record n.link { linkweight = w }) n.next)

  -- `p->next = q`
  unfoldable pub set_next : Ptr → Ptr → Cmd T (Unit {0})
  set_next p q = load p >>= λ n. save p (node n.link q)

  unfoldable pub set_head : Ptr → Cmd T (Unit {0})
  set_head p = modify λ s. record s { mem_list = record s.mem_list { head = p } }

  unfoldable pub set_size : ℕ → Cmd T (Unit {0})
  set_size n = modify λ s. record s { mem_list = record s.mem_list { size = n } }

  unfoldable pub send : ℕ → Bytes → Cmd T (Unit {0})
  send fd bytes = modify λ s. record s { sent = s.sent ++ record { fd = fd; bytes = bytes } ∷ [] }
