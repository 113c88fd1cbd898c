-- ===== src/Tenant/Remapping.antt =====
-- `add_remapping` of lib/libkvm/tenant.cpp.
use libvmod_tinykvm.Common.{
  ℕ, ◌-◌, ◌*◌, ◌/◌, ◌%◌, ◌^◌, ◌≤◌, ◌≡◌, Bool, true, not, ◌||◌, Option, none, some, [], ◌∷◌, ◌++◌,
  Str, codes, str_eq, ltb, ◌==◌, if◌then◌else◌, u64, Bool-cases, inl, inr, refl, arith, ◌⊎◌,
}
use libvmod_tinykvm.Tenant.Group.{TenantGroup, VirtualRemapping}
use libvmod_tinykvm.Tenant.Json.{Json, Environment}
use libvmod_tinykvm.Tenant.Outcome.{
  ConfigError, json_error, remapping_not_two, remapping_address, remapping_range, remapping_size,
  Out, done, fail, converted,
}

module _ {J F : Type 0} (json : Json J F) (env : Environment) where
  open json use {is_array, is_string, size, element, get_u64, get_string}
  open env use {strtoull16}

  -- `size` counts MiB here; the shift to bytes wraps.
  abbrev pub remapping : Str → ℕ → ℕ → VirtualRemapping
  remapping key address size = record {
    phys = 0;
    virt = address;
    size = u64 (size * 2 ^ 20);
    writable = true;
    executable = str_eq key (codes "executable_remapping");
    blackout = str_eq key (codes "blackout_area");
  }

  abbrev pub append_remapping : TenantGroup F → VirtualRemapping → Out F
  append_remapping g r = done (record g { vmem_remappings = g.vmem_remappings ++ (r ∷ []) })

  -- A text is the end address; the size is then cut to whole MiB.
  abbrev pub sized_by_end : TenantGroup F → Str → ℕ → ℕ × Bool → Out F
  sized_by_end g key address (end_address, out_of_range) =
      if ltb end_address address
      then fail g remapping_size
      else (if out_of_range
          then fail g remapping_range
          else append_remapping g (remapping key address ((end_address - address) / 2 ^ 20)))

  abbrev pub sized : TenantGroup F → Str → ℕ → J → Out F
  sized g key address v =
      if is_string v
      then converted g (get_string v) (λ s. sized_by_end g key address (strtoull16 s))
      else converted g (get_u64 v) (λ n. append_remapping g (remapping key address n))

  abbrev pub addressed : TenantGroup F → Str → J → ℕ × Bool → Out F
  addressed g key v (address, out_of_range) =
      if ltb address 0x20000
      then fail g remapping_address
      else (if out_of_range
          then fail g remapping_range
          else converted g (element v 1) (λ second. sized g key address second))

  pub add_remapping : TenantGroup F → Str → J → Out F
  add_remapping g key v =
      if not (is_array v) || not (size v == 2)
      then fail g remapping_not_two
      else converted g (element v 0)
          (λ first. converted g (get_string first) (λ s. addressed g key v (strtoull16 s)))

  -- What a group gets from a remapping that was accepted.
  pub record IsRemapped (key : Str) (r : VirtualRemapping) : Type 0 where
    pub above : 0x20000 ≤ r.virt
    pub whole : r.size % 2 ^ 20 ≡ 0
    pub from_zero : r.phys ≡ 0
    pub is_writable : r.writable ≡ true
    pub is_executable : r.executable ≡ str_eq key (codes "executable_remapping")
    pub is_blackout : r.blackout ≡ str_eq key (codes "blackout_area")

  -- A throw that left the group as it was, or one more remapping and no other change.
  abbrev pub IsAccepted : TenantGroup F → Str → Out F → Type 0
  IsAccepted g key out =
      ((e : ConfigError) × (out ≡ (g, some e)))
      ⊎ ((r : VirtualRemapping) × IsRemapped key r × (out ≡ append_remapping g r))

  append_remapping-IsAccepted :
      (g : TenantGroup F) (key : Str) (address n : ℕ)
      → 0x20000 ≤ address
      → IsAccepted g key (append_remapping g (remapping key address n))
  append_remapping-IsAccepted g key address n h = inr (
    remapping key address n,
    record {
      above = h;
      whole = omega arith;
      from_zero = refl;
      is_writable = refl;
      is_executable = refl;
      is_blackout = refl;
    },
    refl,
  )

  converted-IsAccepted :
      {A : Type 0} (g : TenantGroup F) (key : Str) (o : Option A) (next : A → Out F)
      → ((a : A) → IsAccepted g key (next a))
      → IsAccepted g key (converted g o next)
  converted-IsAccepted g key none next h = inl (json_error, refl)
  converted-IsAccepted g key (some a) next h = h a

  sized_by_end-IsAccepted :
      (g : TenantGroup F) (key : Str) (address : ℕ) (end : ℕ × Bool)
      → 0x20000 ≤ address
      → IsAccepted g key (sized_by_end g key address end)
  sized_by_end-IsAccepted g key address (e, out_of_range) h = elim (Bool-cases (ltb e address)) [
    | inl t ↦ rw t (inl (remapping_size, refl))
    | inr t ↦ rw t (elim (Bool-cases out_of_range) [
      | inl u ↦ rw u (inl (remapping_range, refl))
      | inr u ↦ rw u (append_remapping-IsAccepted g key address ((e - address) / 2 ^ 20) h)
    ])
  ]

  sized-IsAccepted :
      (g : TenantGroup F) (key : Str) (address : ℕ) (v : J)
      → 0x20000 ≤ address
      → IsAccepted g key (sized g key address v)
  sized-IsAccepted g key address v h = elim (Bool-cases (is_string v)) [
    | inl t ↦ rw t (
        converted-IsAccepted g key (get_string v) (λ s. sized_by_end g key address (strtoull16 s))
          (λ s. sized_by_end-IsAccepted g key address (strtoull16 s) h))
    | inr t ↦ rw t (
        converted-IsAccepted g key (get_u64 v) (λ n. append_remapping g (remapping key address n))
          (λ n. append_remapping-IsAccepted g key address n h))
  ]

  addressed-IsAccepted :
      (g : TenantGroup F) (key : Str) (v : J) (address : ℕ × Bool)
      → IsAccepted g key (addressed g key v address)
  addressed-IsAccepted g key v (address, out_of_range) = elim (Bool-cases (ltb address 0x20000)) [
    | inl t ↦ rw t (inl (remapping_address, refl))
    | inr t ↦ rw t (elim (Bool-cases out_of_range) [
      | inl u ↦ rw u (inl (remapping_range, refl))
      | inr u ↦ rw u (
          converted-IsAccepted g key (element v 1) (λ second. sized g key address second)
            (λ second. sized-IsAccepted g key address second (ground arith)))
    ])
  ]

  -- A remapping is all or nothing: either an exception is thrown and the group is unchanged, or
  -- one remapping of whole MiB, above the first 128 KiB, is appended and nothing else changes.
  pub add_remapping_lem :
      (g : TenantGroup F) (key : Str) (v : J) → IsAccepted g key (add_remapping g key v)
  unfolding add_remapping
  add_remapping_lem g key v = elim (Bool-cases (not (is_array v) || not (size v == 2))) [
    | inl t ↦ rw t (inl (remapping_not_two, refl))
    | inr t ↦ rw t (
        converted-IsAccepted g key (element v 0)
          (λ first. converted g (get_string first) (λ s. addressed g key v (strtoull16 s)))
          (λ first.
            converted-IsAccepted g key (get_string first) (λ s. addressed g key v (strtoull16 s))
              (λ s. addressed-IsAccepted g key v (strtoull16 s))))
  ]
