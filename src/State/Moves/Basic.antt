-- ===== src/State/Moves/Basic.antt =====
-- The commands of the C code that are no calls: accesses to memory and to the globals, and the system
-- calls.
use cs352proxypart.Base.{ℕ, ◌≡◌, refl, sym, Bool, true, false, [], arith, append-nil, if◌then◌else◌}
use cs352proxypart.Memory.{Bytes}
use cs352proxypart.Packets.{Ptr, LinkstateNode, MembershipList}
use cs352proxypart.Heap.{ok, fault, blocked, deref, assign, Nodes}
use cs352proxypart.State.{
  State, lock, unlock, gettimeid, load, save, set_id, set_linkweight, set_next, set_head, set_size,
  send,
}
use cs352proxypart.State.NoWait.{NoWait-deref, NoWait-assign}
use cs352proxypart.State.Moves.{
  Later, Ends, Ends-after, Moves, Whatever, Moves-bind, Moves-modify, Moves-reads, Free,
}

module _ {T : Type 0} where
  -- A state with other nodes.
  pub nodes-Later : (s : State T) (h : Nodes) → Later s (record s { nodes = h })
  nodes-Later s h = record {
    own = refl;
    tap = refl;
    clock = refl;
    readings = omega arith;
    sent = ([], sym (append-nil s.sent));
  }

  -- A state with another lock, list and table.
  pub shared-Later :
      (s : State T) (list : MembershipList) (table : T) (held : Bool)
      → Later s (record s { mem_list = list; socketfds = table; deleterlock = held })
  shared-Later s list table held = record {
    own = refl;
    tap = refl;
    clock = refl;
    readings = omega arith;
    sent = ([], sym (append-nil s.sent));
  }

module _ {T : Type 0} {P : Bool → Type 0} where
  pub load-Moves : (p : Ptr) → Moves {T = T} P P (load p)
  unfolding load
  load-Moves p = Moves-reads (λ s. deref s.nodes p) λ s. NoWait-deref s.nodes p

  pub save-Moves : (p : Ptr) (n : LinkstateNode) → Moves {T = T} P P (save p n)
  unfolding save
  save-Moves p n = record {
    at = λ s free.
        Ends-after P s (assign s.nodes p n) _ (NoWait-assign s.nodes p n)
          λ h. (free, nodes-Later s h);
  }

  pub set_id-Moves : (p : Ptr) (id : ℕ) → Moves {T = T} P P (set_id p id)
  unfolding set_id
  set_id-Moves p id = Moves-bind (load-Moves p) λ n. save-Moves p _

  pub set_linkweight-Moves : (p : Ptr) (w : ℕ) → Moves {T = T} P P (set_linkweight p w)
  unfolding set_linkweight
  set_linkweight-Moves p w = Moves-bind (load-Moves p) λ n. save-Moves p _

  pub set_next-Moves : (p q : Ptr) → Moves {T = T} P P (set_next p q)
  unfolding set_next
  set_next-Moves p q = Moves-bind (load-Moves p) λ n. save-Moves p _

  pub set_head-Moves : (p : Ptr) → Moves {T = T} P P (set_head p)
  unfolding set_head
  set_head-Moves p = Moves-modify _ (λ s h. h) λ s. shared-Later s _ s.socketfds s.deleterlock

  pub set_size-Moves : (n : ℕ) → Moves {T = T} P P (set_size n)
  unfolding set_size
  set_size-Moves n = Moves-modify _ (λ s h. h) λ s. shared-Later s _ s.socketfds s.deleterlock

  pub gettimeid-Moves : Moves {T = T} P P gettimeid
  unfolding gettimeid
  gettimeid-Moves = record {
    at = λ s h. (
      h,
      record {
        own = refl;
        tap = refl;
        clock = refl;
        readings = omega arith;
        sent = ([], sym (append-nil s.sent));
      },
    );
  }

  pub send-Moves : (fd : ℕ) (bytes : Bytes) → Moves {T = T} P P (send fd bytes)
  unfolding send
  send-Moves fd bytes =
      Moves-modify _ (λ s h. h)
        λ s. record {
          own = refl;
          tap = refl;
          clock = refl;
          readings = omega arith;
          sent = (_, refl);
        }

module _ {T : Type 0} where
  -- From a free lock, the thread does not wait.
  pub lock-Moves : Moves {T = T} Free Whatever lock
  unfolding lock
  lock-Moves = record { at = λ s free. taken s s.deleterlock free }
    where
      taken :
          (s : State T) (b : Bool)
          → b ≡ false
          → Ends Whatever s (if b then blocked else ok (tt {0}, record s { deleterlock = true }))
      taken s true e = absurd (ground (arith, e))
      taken s false e = (tt, shared-Later s s.mem_list s.socketfds true)

  -- The lock is free, or the program has gone wrong.
  pub unlock-Moves : {P : Bool → Type 0} → Moves {T = T} P Free unlock
  unfolding unlock
  unlock-Moves = record { at = λ s h. released s s.deleterlock }
    where
      released :
          (s : State T) (b : Bool)
          → Ends Free s (if b then ok (tt {0}, record s { deleterlock = false }) else fault)
      released s true = (refl, shared-Later s s.mem_list s.socketfds false)
      released s false = tt
