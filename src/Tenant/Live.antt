-- ===== src/Tenant/Live.antt =====
-- lib/libkvm/tenant_instance.cpp: the program of a tenant is loaded, referenced, replaced and
-- reloaded. `P` is the type of the programs. Locks, logs and times are left out: one call runs at
-- a time, as `mtx_running_init` has it for the initialisation. The scheduler's and the guest's
-- part, whether the start of a program ended well, comes with the call.
pub mod Start
pub mod Reload
pub mod Reserve
use libvmod_tinykvm.Common.{
  ℕ, ◌+◌, ◌==◌, Bool, true, false, not, ◌&&◌, Option, none, some, Str, str_eq, is_nil, u64,
  if◌then◌else◌,
}
use libvmod_tinykvm.Tenant.Group.{TenantConfig, request_program_filename, storage_program_filename}

-- The file system and OpenSSL: `access` for reading, and the checksum of a file in hexadecimal,
-- which throws when the file cannot be read.
pub record Files : Type 0 where
  pub access : Str → Bool
  pub create_sha256_from_file : Str → Option Str
  pub create_md5_from_file : Str → Option Str

-- What a tenant asks of a program (lib/libkvm/program_instance.cpp). The two constructors are `none`
-- when they throw; `live_update_call` is the number of bytes it moved and the new program after it.
pub record Programs (P : Type 0) : Type 0 where
  pub from_uri : Str → Bool → Option P
  pub from_files : Str → Option Str → Option P
  pub has_storage : P → Bool
  pub is_debug : P → Bool
  pub serialize_entry : P → ℕ
  pub deserialize_entry : P → ℕ
  pub live_update_call : P → ℕ → P → ℕ → ℕ × P
  pub live_updates : P → ℕ
  pub set_live_updates : P → ℕ → P
  pub set_transfer_bytes : P → ℕ → P

pub record TenantInstance (P F : Type 0) : Type 0 where
  pub config : TenantConfig F
  pub program : Option P
  pub debug_program : Option P
  pub started_init : Bool

-- What the file that is there is worth: `some true` when its checksum was compared and agrees,
-- `none` when computing the checksum threw.
abbrev pub agrees : Option Str → Str → Option Bool
agrees none expected = none
agrees (some hash) expected = some (str_eq hash expected)

module _ {P : Type 0} where
  -- `starts` tells that waiting for the start of the program throws nothing. The result is `none`
  -- for an exception, and otherwise the program, if there is one.
  abbrev pub waited : Option P → Bool → Option (Option P)
  waited none starts = some none
  waited (some p) starts = if starts then some (some p) else none

  -- `ready` is the result of `wait_for_main_vm`.
  abbrev pub ready_program : Bool → Option (Option P) → Option (Option P)
  ready_program ready none = none
  ready_program ready (some none) = some none
  ready_program ready (some (some p)) = some (if ready then some p else none)

module _ {P : Type 0} (programs : Programs P) where
  open programs use {
    serialize_entry, deserialize_entry, live_update_call, live_updates, set_live_updates,
    set_transfer_bytes,
  }

  -- The new program, after the state of the old one was moved to it.
  unfoldable pub serialize_storage_state : P → P → P
  serialize_storage_state old inst =
      if not (serialize_entry old == 0)
      then (if not (deserialize_entry inst == 0)
          then (let moved =
                live_update_call old (serialize_entry old) inst (deserialize_entry inst) in
              set_transfer_bytes moved.1 moved.0)
          else inst)
      else inst

  abbrev pub updated : Option P → P → P
  updated none new_prog = new_prog
  updated (some current) new_prog =
      set_live_updates (serialize_storage_state current new_prog) (u64 (live_updates current + 1))

module _ {P F : Type 0} (files : Files) (programs : Programs P) where
  open files use {access, create_sha256_from_file, create_md5_from_file}
  open programs use {from_uri, from_files, has_storage, is_debug}

  unfoldable pub verified : TenantConfig F → Option Bool
  verified c =
      if not (is_nil c.filename) && access c.filename
      then (if not (is_nil c.sha256)
          then agrees (create_sha256_from_file c.filename) c.sha256
          else (if not (is_nil c.md5)
              then agrees (create_md5_from_file c.filename) c.md5
              else some false))
      else some false

  -- `handle_exception` clears the program.
  abbrev pub store_program : TenantInstance P F → Option P → TenantInstance P F
  store_program t p = record t { program = p }

  unfoldable pub load_files : TenantConfig F → Option P
  load_files c =
      from_files (request_program_filename c)
        (if access (storage_program_filename c) then some (storage_program_filename c) else none)

  -- The second component tells whether an exception leaves the function.
  abbrev pub load_source : TenantInstance P F → Bool → Option Bool → TenantInstance P F × Bool
  load_source t debug none = (t, true)
  load_source t debug (some file_verified) =
      if not (is_nil t.config.uri) && not file_verified
      then (store_program t (from_uri t.config.uri debug), false)
      else (if is_nil t.config.filename
          then (t, false)
          else (if not (access t.config.filename)
              then (t, false)
              else (store_program t (load_files t.config), false)))

  unfoldable pub begin_initialize : TenantInstance P F → Bool → TenantInstance P F × Bool
  begin_initialize t debug =
      if t.started_init
      then (t, false)
      else load_source (record t { started_init = true }) debug (verified t.config)

  unfoldable pub begin_async_initialize : TenantInstance P F → Bool → TenantInstance P F × Bool
  begin_async_initialize t debug =
      if not t.started_init then begin_initialize t debug else (t, false)

  abbrev pub wait_for_initialization : TenantInstance P F → Bool → Option (Option P)
  wait_for_initialization t starts = waited t.program starts

  abbrev pub guarded : TenantInstance P F × Bool → Bool → TenantInstance P F × Option (Option P)
  guarded (t, true) starts = (t, none)
  guarded (t, false) starts = (t, wait_for_initialization t starts)

  unfoldable pub wait_guarded_initialize :
      TenantInstance P F → Bool → TenantInstance P F × Option (Option P)
  wait_guarded_initialize t starts = guarded (begin_async_initialize t false) starts

  abbrev pub program_of : TenantInstance P F → Bool → Option P
  program_of t true = t.debug_program
  program_of t false = t.program

  abbrev pub set_program_of : TenantInstance P F → Bool → Option P → TenantInstance P F
  set_program_of t true p = record t { debug_program = p }
  set_program_of t false p = record t { program = p }

  abbrev pub ref_from :
      TenantInstance P F → Bool → Option P → Bool → Bool → TenantInstance P F × Option (Option P)
  ref_from t debug (some p) starts ready = (t, ready_program ready (some (some p)))
  ref_from t true none starts ready = (t, some none)
  ref_from t false none starts ready =
      let waiting = wait_guarded_initialize t starts in (waiting.0, ready_program ready waiting.1)

  unfoldable pub ref :
      TenantInstance P F → Bool → Bool → Bool → TenantInstance P F × Option (Option P)
  ref t debug starts ready = ref_from t debug (program_of t debug) starts ready

  unfoldable pub commit_program_live : TenantInstance P F → P → TenantInstance P F
  commit_program_live t new_prog =
      set_program_of t (is_debug new_prog)
        (some (updated programs (program_of t (is_debug new_prog)) new_prog))

  unfoldable pub unload : TenantInstance P F → Bool → TenantInstance P F
  unload t debug = record (set_program_of t debug none) { started_init = false }

  -- The transfer changes the program that the tenant shares with this call.
  abbrev pub transferred :
      P → Bool → TenantInstance P F × Option (Option P) → TenantInstance P F × Bool
  transferred old debug (t, none) = (t, true)
  transferred old debug (t, some none) = (t, false)
  transferred old debug (t, some (some new_prog)) =
      (set_program_of t debug (some (serialize_storage_state programs old new_prog)), false)

  abbrev pub reload_from :
      TenantInstance P F → Bool → Option P → Bool → Bool → TenantInstance P F × Bool
  reload_from t debug none starts ready = (t, false)
  reload_from t debug (some old) starts ready =
      if not (has_storage old) then (t, false) else transferred old debug (ref t debug starts ready)

  unfoldable pub reload_program_live :
      TenantInstance P F → Bool → Bool → Bool → TenantInstance P F × Bool
  reload_program_live t debug starts ready =
      reload_from (unload t debug) debug (program_of t debug) starts ready
