-- ===== src/Tenant/Outcome.antt =====
-- Steps that change a group of settings in place and may throw: what was assigned before the
-- exception stays assigned.
use libvmod_tinykvm.Common.{Option, none, some, List, [], ◌∷◌}
use libvmod_tinykvm.Tenant.Group.{TenantGroup}

-- The exceptions, by their messages; `json_error` stands for those of the JSON library.
pub data ConfigError : Type 0 where
  json_error : ConfigError
  remapping_not_two : ConfigError
  remapping_address : ConfigError
  remapping_range : ConfigError
  remapping_size : ConfigError
  remapping_shape : ConfigError
  concurrency_too_large : ConfigError
  arena_too_small : ConfigError
  arena_too_large : ConfigError
  arena_not_multiple : ConfigError
  paths_shape : ConfigError
  path_without_real : ConfigError
  path_real_empty : ConfigError
  symlink_without_virtual : ConfigError
  symlink_without_real : ConfigError
  symlink_same_paths : ConfigError
  download_shape : ConfigError
  download_item_shape : ConfigError
  server_without_port : ConfigError
  server_shape : ConfigError
  websocket_without_port : ConfigError
  websocket_shape : ConfigError
  warmup_shape : ConfigError
  missing_group : ConfigError
  unreachable_program : ConfigError

abbrev pub Out : Type 0 → Type 0
Out F = TenantGroup F × Option ConfigError

module _ {F : Type 0} where
  abbrev pub done : TenantGroup F → Out F
  done g = (g, none)

  abbrev pub fail : TenantGroup F → ConfigError → Out F
  fail g e = (g, some e)

  -- A conversion that may throw, before anything else is assigned.
  abbrev pub converted {ℓ} : {A : Type ℓ} → TenantGroup F → Option A → (A → Out F) → Out F
  converted g none next = fail g ConfigError.json_error
  converted g (some a) next = next a

  -- A step after another, unless that one threw.
  abbrev pub and_then : Out F → (TenantGroup F → Out F) → Out F
  and_then (g, none) next = next g
  and_then (g, some e) next = (g, some e)

  -- A loop that stops at the first exception.
  abbrev pub for_each {ℓ} :
      {A : Type ℓ} → List A → (TenantGroup F → A → Out F) → TenantGroup F → Out F
  for_each [] body g = done g
  for_each (a ∷ rest) body g = and_then (body g a) (for_each rest body)
