-- ===== src/Helper/Swap.antt =====
-- `htonll` of helper.c.
use cs352proxypart.Base.{ℕ, ◌^◌, ◌<◌, ◌≡◌, refl, ap, sym, ◌∙◌, Bool, true, false}
use cs352proxypart.Memory.{load, hton, be_bytes}
use cs352proxypart.Memory.Order.{of_be-be_bytes, hton-lt, hton_twice}
use cs352proxypart.Helper.{typ_init, detect, htonll_from, htonll}

-- `htonll` puts the most significant byte first in memory, on a host of either byte order.
pub htonll-hton : (big : Bool) (x : ℕ) → x < 2 ^ 64 → htonll big x ≡ hton big 8 x
unfolding htonll hton
htonll-hton true x h = sym (of_be-be_bytes 8 x h)
htonll-hton false x h = refl

-- The static variable only caches the byte order: a call from either value gives the same.
pub htonll_from-cached :
    (big : Bool) (x : ℕ)
    → htonll_from big (htonll_from big typ_init x).1 x ≡ (htonll big x, detect big)
unfolding htonll_from htonll
htonll_from-cached true x = refl
htonll_from-cached false x = refl

-- `htonll` also converts back: applied twice it gives the integer itself.
htonll_twice : (big : Bool) (x : ℕ) → x < 2 ^ 64 → htonll big (htonll big x) ≡ x
htonll_twice big x h =
    rw (htonll-hton big x h, htonll-hton big (hton big 8 x) (hton-lt big 8 x))
      (hton_twice big 8 x h)

-- Read from memory that holds network bytes, it gives the value that they encode.
pub htonll-load : (big : Bool) (x : ℕ) → x < 2 ^ 64 → htonll big (load big (be_bytes 8 x)) ≡ x
unfolding hton
htonll-load big x h = ap (htonll big) (sym (htonll-hton big x h)) ∙ htonll_twice big x h
