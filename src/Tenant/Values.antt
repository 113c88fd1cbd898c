-- ===== src/Tenant/Values.antt =====
-- The values that `configure_group` of lib/libkvm/tenant.cpp reads into records and lists:
-- `apply_dollar_vars`, the allowed paths, the downloads and the warmup.
use libvmod_tinykvm.Common.{
  Bool, true, false, not, Option, none, some, List, [], ◌∷◌, ◌++◌, length, drop, Str, codes, str_eq,
  starts_with, is_nil, if◌then◌else◌,
}
use libvmod_tinykvm.Tenant.Group.{TenantGroup, VirtualPath, DownloadItem}
use libvmod_tinykvm.Tenant.Json.{Json, Environment}
use libvmod_tinykvm.Tenant.Outcome.{
  ConfigError, json_error, paths_shape, path_without_real, path_real_empty, symlink_without_virtual,
  symlink_without_real, symlink_same_paths, download_item_shape, Out, done, fail, converted,
}

-- `find` and `replace` at the first occurrence of a text that is not empty.
abbrev pub replace_first : Str → Str → Str → Str
replace_first pattern text [] = []
replace_first pattern text (c ∷ s) =
    let rest = replace_first pattern text s in
    if starts_with pattern (c ∷ s) then text ++ drop (length pattern) (c ∷ s) else c ∷ rest

abbrev replace_known : Str → Option Str → Str → Str
replace_known pattern none s = s
replace_known pattern (some text) s = replace_first pattern text s

unfoldable pub apply_dollar_vars : Environment → Str → Str
apply_dollar_vars env s =
    replace_known (codes "$PWD") env.cwd (replace_known (codes "$HOME") env.home s)

-- A value that is built before it is stored: building it may throw.
pub data Built (A : Type 0) : Type 0 where
  threw : ConfigError → Built A
  built : A → Built A

infixl 5 ◌>>=◌ ◌>>◌
abbrev pub ◌>>=◌ : {A B : Type 0} → Built A → (A → Built B) → Built B
threw e >>= next = threw e
built a >>= next = next a

abbrev pub ◌>>◌ : {A B : Type 0} → Built A → Built B → Built B
m >> next = m >>= λ _. next

abbrev pub read : {A : Type 0} → Option A → Built A
read none = threw json_error
read (some a) = built a

abbrev pub throw_unless : ConfigError → Bool → Built (Unit {0})
throw_unless e true = built tt
throw_unless e false = threw e

abbrev pub stored : {F A : Type 0} → TenantGroup F → Built A → (A → Out F) → Out F
stored g (threw e) next = fail g e
stored g (built a) next = next a

module _ {J F : Type 0} (json : Json J F) (env : Environment) where
  open json use {is_object, is_string, elements, contains, member, get_bool, get_string, get_u16}

  abbrev pub string_of : J → Str → Built Str
  string_of v key = do m ← read (member v key); read (get_string m)

  abbrev pub bool_of : J → Str → Built Bool
  bool_of v key = do m ← read (member v key); read (get_bool m)

  -- A member that keeps its default when it is not there.
  abbrev pub string_or_empty : J → Str → Built Str
  string_or_empty v key = if contains v key then string_of v key else built []

  abbrev pub bool_or_false : J → Str → Built Bool
  bool_or_false v key = if contains v key then bool_of v key else built false

  abbrev pub make_path : Str → Str → Bool → Bool → Bool → VirtualPath
  make_path real virtual prefix writable symlink = record {
    real_path = real;
    virtual_path = virtual;
    writable = writable;
    symlink = symlink;
    usable_in_fork = false;
    prefix = prefix;
  }

  abbrev pub symlink_path : J → Str → Str → Bool → Built VirtualPath
  symlink_path v real virtual prefix = do
    throw_unless symlink_without_virtual (not (is_nil virtual))
    throw_unless symlink_without_real (not (is_nil real))
    throw_unless symlink_same_paths (not (str_eq real virtual))
    symlink ← bool_of v (codes "symlink")
    built (make_path real virtual prefix false symlink)

  abbrev pub writable_path : J → Str → Str → Bool → Built VirtualPath
  writable_path v real virtual prefix = do
    writable ← bool_of v (codes "writable")
    built (make_path real virtual prefix writable false)

  -- `symlink` is read only where there is no `writable`.
  abbrev pub access_path : J → Str → Str → Bool → Built VirtualPath
  access_path v real virtual prefix =
      if contains v (codes "writable")
      then writable_path v real virtual prefix
      else (if contains v (codes "symlink")
          then symlink_path v real virtual prefix
          else built (make_path real virtual prefix false false))

  abbrev pub object_path : J → Built VirtualPath
  object_path v = do
    throw_unless path_without_real (contains v (codes "real"))
    text ← string_of v (codes "real")
    let real = apply_dollar_vars env text
    throw_unless path_real_empty (not (is_nil real))
    virtual ← string_or_empty v (codes "virtual")
    prefix ← bool_or_false v (codes "prefix")
    access_path v real (if is_nil virtual then real else virtual) prefix

  abbrev pub string_path : J → Built VirtualPath
  string_path v = do
    text ← read (get_string v)
    let real = apply_dollar_vars env text
    built (make_path real real false false false)

  unfoldable pub path_of : J → Built VirtualPath
  path_of v =
      if is_string v
      then string_path v
      else (if is_object v then object_path v else threw paths_shape)

  abbrev pub add_path : TenantGroup F → J → Out F
  add_path g v =
      stored g (path_of v) (λ p. done (record g { allowed_paths = g.allowed_paths ++ (p ∷ []) }))

  unfoldable pub download_of : J → Built DownloadItem
  download_of v = do
    throw_unless download_item_shape (is_object v)
    uri ← string_or_empty v (codes "uri")
    filepath ← string_or_empty v (codes "filepath")
    sha256 ← string_or_empty v (codes "sha256")
    md5 ← string_or_empty v (codes "md5")
    built (record { uri = uri; filepath = filepath; sha256 = sha256; md5 = md5 })

  abbrev pub add_download : TenantGroup F → J → Out F
  add_download g v =
      stored g (download_of v) (λ d. done (record g { downloads = g.downloads ++ (d ∷ []) }))

  -- The list of an `environment`: one element that is no text makes the whole conversion throw.
  abbrev pub strings : List J → Built (List Str)
  strings [] = built []
  strings (v ∷ r) = do
    s ← read (get_string v)
    rest ← strings r
    built (apply_dollar_vars env s ∷ rest)

  abbrev pub arguments : Option (List Str) → List Str
  arguments none = []
  arguments (some l) = l

  abbrev pub add_argument : TenantGroup F → J → Out F
  add_argument g v = converted g (get_string v) (λ s. done (record g {
    main_arguments = some (arguments g.main_arguments ++ (apply_dollar_vars env s ∷ []));
  }))
