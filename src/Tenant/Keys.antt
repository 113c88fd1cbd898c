-- ===== src/Tenant/Keys.antt =====
-- `configure_group` of lib/libkvm/tenant.cpp keeps a group fit for use, for every key.
use libvmod_tinykvm.Common.{Str, refl, arith}
use libvmod_tinykvm.Tenant.Group.{Settings, make_group}
use libvmod_tinykvm.Tenant.Json.{Json}
use libvmod_tinykvm.Tenant.After.{After}
use libvmod_tinykvm.Tenant.Sound.{IsConfigured}

-- The defaults of a group are valid.
pub make_group-IsConfigured :
    {F : Type 0} (s : Settings F) (n : Str) → IsConfigured (make_group s n) (make_group s n)
unfolding make_group
make_group-IsConfigured s n = (
  (refl, refl, refl, refl, omega arith, tt, tt),
  (omega arith, (refl, omega arith), (refl, omega arith)),
)
