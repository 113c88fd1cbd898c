-- ===== src/Machine/Paths.antt =====
-- The callbacks of lib/libkvm/machine_instance.cpp that decide which files a guest may open. The
-- answer is the path on the host, or `none` for a refusal.
use mathlib.Core.List.{Memᴰ}
use libvmod_tinykvm.Common.{
  ◌≡◌, inl, inr, refl, sym, ◌∙◌, arith, Bool, true, false, not, ◌&&◌, Option, none, some, List, [],
  ◌∷◌, ◌++◌, length, drop, Str, codes, str_eq, str_eq_iff, starts_with, starts_with-drop, is_nil,
  if◌then◌else◌, Bool-cases, Option-cases, some-inj,
}
use libvmod_tinykvm.Tenant.Group.{VirtualPath, TenantConfig}

-- What an entry of the list of allowed paths makes of a path.
unfoldable pub rewrite : VirtualPath → Str → Option Str
rewrite t path =
    if not t.prefix && str_eq t.virtual_path path
    then some t.real_path
    else (if t.prefix && starts_with t.virtual_path path
        then some (t.real_path ++ drop (length t.virtual_path) path)
        else none)

-- The loops: the first entry that applies answers; `state` names the file of the tenant.
unfoldable pub open_readable_in : List VirtualPath → Str → Str → Option Str
unfolding rewrite
open_readable_in [] allowed_file path =
    if str_eq path (codes "state") then some allowed_file else none
open_readable_in (t ∷ ts) allowed_file path =
    let rest = open_readable_in ts allowed_file path in
    elim (rewrite t path) [ some p ↦ some p | none ↦ rest ]

unfoldable pub open_writable_in : List VirtualPath → Str → Str → Option Str
unfolding rewrite
open_writable_in [] allowed_file path =
    if str_eq path (codes "state") then some allowed_file else none
open_writable_in (t ∷ ts) allowed_file path =
    let rest = open_writable_in ts allowed_file path in
    if t.writable then elim (rewrite t path) [ some p ↦ some p | none ↦ rest ] else rest

unfoldable pub resolve_symlink_in : List VirtualPath → Str → Str → Option Str
resolve_symlink_in [] filename path =
    if str_eq path (codes "/proc/self/exe") && not (is_nil filename) then some filename else none
resolve_symlink_in (t ∷ ts) filename path =
    let rest = resolve_symlink_in ts filename path in
    if str_eq t.virtual_path path && t.symlink then some t.real_path else rest

module _ {F : Type 0} (config : TenantConfig F) where
  unfoldable pub open_readable : Str → Option Str
  open_readable = open_readable_in config.group.allowed_paths config.allowed_file

  unfoldable pub open_writable : Str → Option Str
  open_writable = open_writable_in config.group.allowed_paths config.allowed_file

  unfoldable pub resolve_symlink : Str → Option Str
  resolve_symlink = resolve_symlink_in config.group.allowed_paths config.filename

-- An entry grants a path: it names the path, or is a prefix of it and the rest is kept.
pub data Grants (t : VirtualPath) (path host : Str) : Type 0 where
  exact : t.prefix ≡ false → t.virtual_path ≡ path → t.real_path ≡ host → Grants t path host
  below :
      (rest : Str)
      → t.prefix ≡ true
      → t.virtual_path ++ rest ≡ path
      → t.real_path ++ rest ≡ host
      → Grants t path host

pub rewrite-Grants :
    (t : VirtualPath) (path : Str) {host : Str} → rewrite t path ≡ some host → Grants t path host
unfolding rewrite
rewrite-Grants t path {host = host} h =
    elim (Bool-cases (not t.prefix && str_eq t.virtual_path path)) [
      | inl e ↦
          exact (ground arith) ((str_eq_iff t.virtual_path path).0 (ground arith))
            (some-inj t.real_path host (rw e at h))
      | inr n ↦ elim (Bool-cases (t.prefix && starts_with t.virtual_path path)) [
        | inl e ↦
            below (drop (length t.virtual_path) path) (ground arith)
              (starts_with-drop t.virtual_path path (ground arith))
              (some-inj _ host (rw (n, e) at h))
        | inr m ↦ cc (rw (n, m) at h)
      ]
    ]

-- Who granted a path: an entry of the list, or the file of the tenant.
pub data Granted (ts : List VirtualPath) (ok : VirtualPath → Bool) (state path host : Str)
    : Type 0 where
  by_entry :
      (t : VirtualPath)
      → Memᴰ t ts
      → ok t ≡ true
      → Grants t path host
      → Granted ts ok state path host
  by_state : path ≡ codes "state" → host ≡ state → Granted ts ok state path host

Granted-cons :
    {t : VirtualPath} {ts : List VirtualPath} {ok : VirtualPath → Bool} {state path host : Str}
    → Granted ts ok state path host
    → Granted (t ∷ ts) ok state path host
Granted-cons (by_entry u m o g) = by_entry u (Memᴰ.tail m) o g
Granted-cons (by_state p h) = by_state p h

readable_in-Granted :
    (ts : List VirtualPath) (state path : Str) {host : Str}
    → open_readable_in ts state path ≡ some host
    → Granted ts (λ t. true) state path host
unfolding open_readable_in
readable_in-Granted [] state path {host = host} h =
    elim (Bool-cases (str_eq path (codes "state"))) [
      | inl e ↦
          by_state ((str_eq_iff path (codes "state")).0 e) (sym (some-inj state host (rw e at h)))
      | inr n ↦ cc (rw n at h)
    ]
readable_in-Granted (t ∷ ts) state path h = elim (Option-cases (rewrite t path)) [
  | inl e ↦ Granted-cons (readable_in-Granted ts state path (rw (e, open_readable_in) at h))
  | inr (p, e) ↦
      by_entry t (Memᴰ.head refl) refl (rewrite-Grants t path (e ∙ (rw (e, open_readable_in) at h)))
]

writable_in-Granted :
    (ts : List VirtualPath) (state path : Str) {host : Str}
    → open_writable_in ts state path ≡ some host
    → Granted ts (λ t. t.writable) state path host
unfolding open_writable_in
writable_in-Granted [] state path {host = host} h =
    elim (Bool-cases (str_eq path (codes "state"))) [
      | inl e ↦
          by_state ((str_eq_iff path (codes "state")).0 e) (sym (some-inj state host (rw e at h)))
      | inr n ↦ cc (rw n at h)
    ]
writable_in-Granted (t ∷ ts) state path h = elim (Bool-cases t.writable) [
  | inr w ↦ Granted-cons (writable_in-Granted ts state path (rw w at h))
  | inl w ↦ elim (Option-cases (rewrite t path)) [
    | inl e ↦ Granted-cons (writable_in-Granted ts state path (rw (w, e, open_writable_in) at h))
    | inr (p, e) ↦
        by_entry t (Memᴰ.head refl) w
          (rewrite-Grants t path (e ∙ (rw (w, e, open_writable_in) at h)))
  ]
]

writable_in-readable_in :
    (ts : List VirtualPath) (state path : Str) {host : Str}
    → open_writable_in ts state path ≡ some host
    → (seen : Str) × (open_readable_in ts state path ≡ some seen)
unfolding open_readable_in open_writable_in
writable_in-readable_in [] state path {host = host} h = (host, h)
writable_in-readable_in (t ∷ ts) state path {host = host} h = elim (Option-cases (rewrite t path)) [
  | inl e ↦
      let (seen, found) = writable_in-readable_in ts state path {host = host} (ground (arith, e)) in
      (seen, rw (e, open_readable_in) found)
  | inr (p, e) ↦ (p, rw (e, open_readable_in))
]

module _ {F : Type 0} (config : TenantConfig F) (path host : Str) where
  -- A path that a guest may read is granted by an entry of the list of allowed paths, as its name
  -- or below its prefix, or is `state`, the file of the tenant.
  pub open_readable-Granted :
      open_readable config path ≡ some host
      → Granted config.group.allowed_paths (λ t. true) config.allowed_file path host
  unfolding open_readable
  open_readable-Granted = readable_in-Granted config.group.allowed_paths config.allowed_file path

  -- A path that a guest may write is granted by an entry that is writable, or is `state`; and the
  -- guest may read a file by the same name.
  pub open_writable-Granted :
      open_writable config path ≡ some host
      → Granted config.group.allowed_paths (λ t. t.writable) config.allowed_file path host
        × ((seen : Str) × (open_readable config path ≡ some seen))
  unfolding open_readable open_writable
  open_writable-Granted h = (
    writable_in-Granted config.group.allowed_paths config.allowed_file path h,
    writable_in-readable_in config.group.allowed_paths config.allowed_file path h,
  )
