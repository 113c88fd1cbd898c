-- ===== src/Api/Sealed.antt =====
-- What the guest may no longer change when its program has started: the system calls of
-- lib/libkvm/system_calls_api.cpp under `is_waiting_for_requests`.
use libvmod_tinykvm.Common.{ℕ, ◌≡◌, true, List, [], ◌∷◌}
use libvmod_tinykvm.Tenant.Group.{TenantGroup}
use libvmod_tinykvm.Timer
use libvmod_tinykvm.Api.{Api, Cpu}
use libvmod_tinykvm.Common.Act.{Act}

module _ {V P : Type 0} where
  -- The program is as it was, and still waits.
  abbrev pub SameProgram : Api V P → Api V P → Type 0
  SameProgram s s' =
      (s'.entry_address ≡ s.entry_address)
      × (s'.allow_list ≡ s.allow_list)
      × (s'.mi.is_ephemeral ≡ s.mi.is_ephemeral)
      × (s'.mi.waiting_for_requests ≡ true)

  abbrev pub IsSealed : Act (Api V P) (Unit {0}) → Type 0
  IsSealed h = (s : Api V P) → s.mi.waiting_for_requests ≡ true → SameProgram s (h s).0

  module _ {F : Type 0} (cpu : Cpu V) (group : TenantGroup F) where
    abbrev AreSealed : List (ℕ × Act (Api V P) (Unit {0})) → Type 0
    AreSealed [] = Unit {0}
    AreSealed ((n, h) ∷ hs) = IsSealed h × AreSealed hs
