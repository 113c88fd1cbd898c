-- ===== src/Tenant/Sound.antt =====
-- What `configure_group` of lib/libkvm/tenant.cpp keeps of a group.
use libvmod_tinykvm.Common.{
  ℕ, ◌*◌, ◌%◌, ◌^◌, ◌≤◌, ◌≡◌, Bool, true, false, not, ◌&&◌, Str, codes, str_eq, is_nil, refl, arith,
}
use libvmod_tinykvm.Tenant.Group.{TenantGroup, VirtualPath, VirtualRemapping}
use libvmod_tinykvm.Tenant.Json.{Json, Environment}
use libvmod_tinykvm.Tenant.Outcome.{
  symlink_without_virtual, symlink_without_real, symlink_same_paths, path_without_real,
  path_real_empty,
}
use libvmod_tinykvm.Tenant.Values.{
  read, apply_dollar_vars, string_of, bool_of, string_or_empty, bool_or_false, symlink_path,
  writable_path, access_path, object_path, path_of,
}
use libvmod_tinykvm.Tenant.After.{All, Gives, Gives-bind, Gives-throw_unless, Gives-if}

-- A path is not both writable and a symlink, and a symlink leads to another path.
abbrev pub IsPath : VirtualPath → Type 0
IsPath p =
    ((p.writable && p.symlink) ≡ false)
    × (p.symlink ≡ true → str_eq p.real_path p.virtual_path ≡ false)

abbrev pub IsMapping : VirtualRemapping → Type 0
IsMapping r = (0x20000 ≤ r.virt) × (r.size % 2 ^ 20 ≡ 0)

-- No arena, or whole huge pages of 2 MiB up to 512 GiB.
abbrev pub IsArena : ℕ → Type 0
IsArena n = (n % 0x200000 ≡ 0) × (n ≤ 512 * 1024 * 1024 * 1024)

module _ {F : Type 0} where
  -- What holds of a group whatever was thrown: its paths and mappings are fit for use, and the
  -- settings that no key names are those of the group `g`.
  abbrev pub IsKept : TenantGroup F → TenantGroup F → Type 0
  IsKept g h =
      (h.name ≡ g.name)
      × (h.max_storage_time ≡ g.max_storage_time)
      × (h.max_queue_time ≡ g.max_queue_time)
      × (h.max_regex ≡ g.max_regex)
      × (h.max_smp ≤ 16)
      × All IsPath h.allowed_paths
      × All IsMapping h.vmem_remappings

  -- What holds besides where nothing was thrown.
  abbrev pub IsValid : TenantGroup F → Type 0
  IsValid h =
      (h.max_concurrency ≤ 255) × IsArena h.hugepage_arena_size × IsArena h.hugepage_requests_arena

  abbrev pub IsConfigured : TenantGroup F → TenantGroup F → Type 0
  IsConfigured g h = IsKept g h × IsValid h

module _ {J F : Type 0} (json : Json J F) (env : Environment) where
  open json use {is_string, is_object, contains, get_bool, get_string, member}

  symlink_path-IsPath :
      (v : J) (real virtual : Str) (prefix : Bool)
      → Gives IsPath (symlink_path json env v real virtual prefix)
  symlink_path-IsPath v real virtual prefix =
      Gives-throw_unless IsPath symlink_without_virtual (not (is_nil virtual)) _ (λ _.
        Gives-throw_unless IsPath symlink_without_real (not (is_nil real)) _ (λ _.
          Gives-throw_unless IsPath symlink_same_paths (not (str_eq real virtual)) _ (λ h.
            Gives-bind IsPath (bool_of json env v (codes "symlink")) _
              (λ symlink. (refl, λ _. ground (arith, h))))))

  writable_path-IsPath :
      (v : J) (real virtual : Str) (prefix : Bool)
      → Gives IsPath (writable_path json env v real virtual prefix)
  writable_path-IsPath v real virtual prefix =
      Gives-bind IsPath (bool_of json env v (codes "writable")) _
        (λ w. (ground arith, ground arith))

  access_path-IsPath :
      (v : J) (real virtual : Str) (prefix : Bool)
      → Gives IsPath (access_path json env v real virtual prefix)
  access_path-IsPath v real virtual prefix =
      Gives-if IsPath (contains v (codes "writable")) _ _
        (writable_path-IsPath v real virtual prefix)
        (Gives-if IsPath (contains v (codes "symlink")) _ _
          (symlink_path-IsPath v real virtual prefix) (refl, ground arith))

  object_path-IsPath : (v : J) → Gives IsPath (object_path json env v)
  object_path-IsPath v =
      Gives-throw_unless IsPath path_without_real (contains v (codes "real")) _ (λ _.
        Gives-bind IsPath (string_of json env v (codes "real")) _ (λ text.
          Gives-throw_unless IsPath path_real_empty (not (is_nil (apply_dollar_vars env text))) _
            (λ _. Gives-bind IsPath (string_or_empty json env v (codes "virtual")) _ (λ virtual.
              Gives-bind IsPath (bool_or_false json env v (codes "prefix")) _
                (λ prefix. access_path-IsPath v _ _ prefix)))))

  pub path_of-IsPath : (v : J) → Gives IsPath (path_of json env v)
  unfolding path_of
  path_of-IsPath v =
      Gives-if IsPath (is_string v) _ _
        (Gives-bind IsPath (read (get_string v)) _ (λ text. (refl, ground arith)))
        (Gives-if IsPath (is_object v) _ _ (object_path-IsPath v) tt)
