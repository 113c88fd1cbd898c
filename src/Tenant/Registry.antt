-- ===== src/Tenant/Registry.antt =====
-- The tenants of a VCL: `load_tenant`, `kvm_tenant_find` and `kvm_tenant_find_key` of
-- lib/libkvm/tenant.cpp. The map goes from the checksum of a name to its tenant, here as a list;
-- `crc32c` is the checksum of a text. A null name is `none`.
use libvmod_tinykvm.Common.{
  ℕ, ◌==◌, Bool, true, false, not, Option, none, some, List, [], ◌∷◌, Str, str_eq, if◌then◌else◌,
}
use libvmod_tinykvm.Tenant.Group.{TenantConfig}
use libvmod_tinykvm.Tenant.Live.{Files, Programs, TenantInstance, begin_initialize}

abbrev pub Tenants : Type 0 → Type 0 → Type 0
Tenants P F = List (ℕ × TenantInstance P F)

abbrev pub find_hash : {P F : Type 0} → ℕ → Tenants P F → Option (TenantInstance P F)
find_hash h [] = none
find_hash h ((k, t) ∷ r) = if k == h then some t else find_hash h r

module _ {P F : Type 0} (crc32c : Str → ℕ) where
  unfoldable pub kvm_tenant_find : Tenants P F → Option Str → Option (TenantInstance P F)
  kvm_tenant_find tenants none = none
  kvm_tenant_find tenants (some name) = find_hash (crc32c name) tenants

  abbrev pub with_key : Str → Option (TenantInstance P F) → Option (TenantInstance P F)
  with_key key none = none
  with_key key (some t) = if str_eq t.config.key key then some t else none

  unfoldable pub kvm_tenant_find_key : Tenants P F → Option Str → Str → Option (TenantInstance P F)
  kvm_tenant_find_key tenants name key = with_key key (kvm_tenant_find tenants name)

-- A tenant that was only made.
abbrev pub make_tenant : {P F : Type 0} → TenantConfig F → TenantInstance P F
make_tenant c = record { config = c; program = none; debug_program = none; started_init = false }

module _ {P F : Type 0} (files : Files) (programs : Programs P) (crc32c : Str → ℕ) where
  abbrev pub started : TenantConfig F → Bool → TenantInstance P F × Bool
  started c true = begin_initialize files programs (make_tenant c) false
  started c false = (make_tenant c, false)

  abbrev pub emplaced :
      Tenants P F → ℕ → Option (TenantInstance P F) → TenantInstance P F × Bool → Tenants P F × Bool
  emplaced tenants h (some there) made = (tenants, false)
  emplaced tenants h none (t, threw) = ((h, t) ∷ tenants, not threw)

  -- An exception of the initialisation comes after the tenant is in the map. The result tells
  -- whether nothing was thrown.
  unfoldable pub load_tenant : Tenants P F → TenantConfig F → Bool → Tenants P F × Bool
  load_tenant tenants c initialize =
      emplaced tenants (crc32c c.name) (find_hash (crc32c c.name) tenants) (started c initialize)
