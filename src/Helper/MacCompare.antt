-- ===== src/Helper/MacCompare.antt =====
-- The comparisons of MAC addresses of helper.c.
use cs352proxypart.Base.{◌≡◌, ◌≢◌, ◌⊎◌, arith}
use cs352proxypart.Packets.{Mac}
use cs352proxypart.Helper.{minus_one, comp_mac_addrs, comp_mac_zero}

abbrev pub zero_mac : Mac
zero_mac = record { m0 = 0; m1 = 0; m2 = 0; m3 = 0; m4 = 0; m5 = 0 }

-- `comp_mac_addrs` gives 0 for equal addresses and -1 for any others.
pub comp_mac_addrs-decides :
    (a b : Mac)
    → ((a ≡ b) × (comp_mac_addrs a b ≡ 0)) ⊎ ((a ≢ b) × (comp_mac_addrs a b ≡ minus_one))
unfolding comp_mac_addrs
comp_mac_addrs-decides a b = ground arith

pub comp_mac_addrs_self : (a : Mac) → comp_mac_addrs a a ≡ 0
unfolding comp_mac_addrs
comp_mac_addrs_self a = ground arith

-- `comp_mac_zero` gives -1 for the address of six zeros and 0 for any other.
pub comp_mac_zero-decides :
    (a : Mac)
    → ((a ≡ zero_mac) × (comp_mac_zero a ≡ minus_one)) ⊎ ((a ≢ zero_mac) × (comp_mac_zero a ≡ 0))
unfolding comp_mac_zero
comp_mac_zero-decides a = ground arith
