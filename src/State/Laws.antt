-- ===== src/State/Laws.antt =====
-- The writes to a node that is there.
use cs352proxypart.Base.{ℕ, ◌≡◌, refl, some}
use cs352proxypart.Packets.{Ptr, LinkstateNode, node}
use cs352proxypart.Heap.{ok, deref, assign, write}
use cs352proxypart.State.{State, load, save, set_id, set_linkweight, set_next}

-- `s` with the content `n` at the address `p`.
abbrev pub put_node : {T : Type 0} → State T → Ptr → LinkstateNode → State T
put_node s p n = record s { nodes = record s.nodes { cell = write s.nodes.cell p (some n) } }

module _ {T : Type 0} (s : State T) (p : Ptr) (n : LinkstateNode)
    (is : deref s.nodes p ≡ ok n) where
  pub load-ok : load p s ≡ ok (n, s)
  unfolding load
  load-ok = rw is refl

  pub save-ok : (m : LinkstateNode) → save p m s ≡ ok (tt, put_node s p m)
  unfolding save assign
  save-ok m = rw is refl

  pub set_next-ok : (q : Ptr) → set_next p q s ≡ ok (tt, put_node s p (node n.link q))
  unfolding set_next
  set_next-ok q = rw (load-ok, save-ok (node n.link q)) refl

  pub set_id-ok :
      (id : ℕ) → set_id p id s ≡ ok (tt, put_node s p (node (record n.link { id = id }) n.next))
  unfolding set_id
  set_id-ok id = rw (load-ok, save-ok (node (record n.link { id = id }) n.next)) refl

  pub set_linkweight-ok :
      (w : ℕ)
      → set_linkweight p w s
        ≡ ok (tt, put_node s p (node (record n.link { linkweight = w }) n.next))
  unfolding set_linkweight
  set_linkweight-ok w = rw (load-ok, save-ok (node (record n.link { linkweight = w }) n.next)) refl
