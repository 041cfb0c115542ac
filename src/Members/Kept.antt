-- ===== src/Members/Kept.antt =====
-- What the membership list of cs352proxy.c is after a node came to it: the three ways in which
-- `add_member_connect` leaves it.
use cs352proxypart.Base.{
  ℕ, suc, ◌≤◌, ◌≡◌, ◌≢◌, refl, sym, ◌∙◌, true, false, Option, some, [], ◌∷◌, arith, length,
}
use cs352proxypart.Packets.{Ptr, null, LinkstateNode, node}
use cs352proxypart.Heap.{ok, deref}
use cs352proxypart.Heap.Cells.{Entries, has, write-ne}
use cs352proxypart.State.{State}
use cs352proxypart.State.Laws.{put_node}
use cs352proxypart.State.UtHash.{Key, UtHash, ProxySocketfd}
use cs352proxypart.Sockets.{key_of}
use cs352proxypart.Members.Connect.{IsMemList, weighed, fronted, fronted-Cells}
use cs352proxypart.Members.Expire.{HasSockets}
use cs352proxypart.Members.Touch.{
  touch, length-touch, first-touch, has-touch, touch-HasSockets, touch-Cells,
}

-- The list holds the entries, its size counts them modulo 2 ^ 32, each entry's remote address has a
-- socket, and the lock is free.
pub record IsMembership {T : Type 0} (u : UtHash T) (s : State T) (xs : Entries) : Type 0 where
  pub list : IsMemList s xs
  pub sockets : HasSockets u s.socketfds xs
  pub free : s.deleterlock ≡ false

-- A state after the node `p` came to the list `xs` in the memory `c`.
pub record Kept {T : Type 0} (u : UtHash T) (c : Ptr → Option LinkstateNode) (p : Ptr)
    (xs : Entries) (s' : State T) : Type 0 where
  pub after : Entries
  pub membership : IsMembership u s' after
  pub grows : length after ≤ suc (length xs)
  pub frame : (a : Ptr) → has a xs ≡ false → a ≢ p → (s'.nodes.cell a ≡ c a) × (has a after ≡ false)

module _ {T : Type 0} (u : UtHash T) where
  pub HasSockets-mono :
      (t t' : T) (xs : Entries)
      → ((j : Key) (f : ProxySocketfd)
          → u.find t j ≡ some f
          → (g : ProxySocketfd) × (u.find t' j ≡ some g))
      → HasSockets u t xs
      → HasSockets u t' xs
  HasSockets-mono t t' [] h v = tt
  HasSockets-mono t t' ((p, l) ∷ xs) h v = (h _ v.0.0 v.0.1, HasSockets-mono t t' xs h v.1)

  module _ (s : State T) (p : Ptr) (n : LinkstateNode) (xs : Entries) (is : deref s.nodes p ≡ ok n)
      (out : has p xs ≡ false) where
    pub fronted-Kept :
        (w : ℕ)
        → IsMembership u s xs
        → (e : ProxySocketfd) × (u.find s.socketfds (key_of n.remote.macaddr) ≡ some e)
        → Kept u s.nodes.cell p xs (fronted s p n w)
    fronted-Kept w v e = record {
      after = (p, weighed s n w) ∷ xs;
      membership = record {
        list = record {
          head = refl;
          cells = fronted-Cells s p n is w xs v.list.head v.list.cells out;
          size = omega (arith, v.list.size);
        };
        sockets = (e, v.sockets);
        free = v.free;
      };
      grows = omega arith;
      frame = λ a h ne. (
        write-ne _ p a _ ne ∙ write-ne _ p a _ ne ∙ write-ne s.nodes.cell p a _ ne,
        ground arith,
      );
    }

    pub same-Kept : IsMembership u s xs → Kept u s.nodes.cell p xs s
    same-Kept v = record {
      after = xs;
      membership = v;
      grows = omega arith;
      frame = λ a h ne. (refl, h);
    }

  module _ (s : State T) (xs : Entries) (q : Ptr) (m : LinkstateNode) (time readings : ℕ)
      (v : IsMembership u s xs) (h : has q xs ≡ true) (e : s.nodes.cell q ≡ some m) where
    -- `s` with the time of the node `q` renewed.
    abbrev pub touched : State T
    touched = record (put_node s q (node (record m.link { id = time }) m.next)) {
      readings = readings;
    }

    pub touched-IsMembership : IsMembership u touched (touch q time xs)
    touched-IsMembership = record {
      list = record {
        head = v.list.head ∙ sym (first-touch q time null xs);
        cells = touch-Cells s.nodes.cell time q m xs v.list.cells h e;
        size = omega (arith, v.list.size, length-touch q time xs);
      };
      sockets = touch-HasSockets u s.socketfds q time xs v.sockets;
      free = v.free;
    }

    pub touched-Kept : (p : Ptr) → Kept u s.nodes.cell p xs touched
    touched-Kept p = record {
      after = touch q time xs;
      membership = touched-IsMembership;
      grows = omega (arith, length-touch q time xs);
      frame = λ a o ne. (write-ne s.nodes.cell q a _ (λ f. cc), has-touch q time a xs ∙ o);
    }
