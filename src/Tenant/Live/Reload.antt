-- ===== src/Tenant/Live/Reload.antt =====
-- How lib/libkvm/tenant_instance.cpp replaces and reloads a program.
use libvmod_tinykvm.Common.{ℕ, ◌+◌, ◌≡◌, refl, Bool, true, false, none, some, u64}
use libvmod_tinykvm.Tenant.Live.{
  Files, Programs, TenantInstance, begin_initialize, begin_async_initialize, guarded,
  wait_guarded_initialize, program_of, set_program_of, ref, serialize_storage_state,
  commit_program_live, unload, reload_program_live,
}

module _ {P F : Type 0} (files : Files) (programs : Programs P) where
  open programs use {has_storage, is_debug, live_updates, set_live_updates}

  -- Where the counter of a program reads back what was set: a program that replaces another takes over its storage state and counts one more live update;
  -- the program of the other kind (the live one or the one for debugging) and whether an
  -- initialisation was tried are left alone.
  pub commit_program_live_lem :
      (t : TenantInstance P F) (old new_prog : P)
      → ((p : P) (n : ℕ) → live_updates (set_live_updates p n) ≡ n)
      → program_of files programs t (is_debug new_prog) ≡ some old
      → (p : P) × (commit_program_live files programs t new_prog
          ≡ set_program_of files programs t (is_debug new_prog) (some p))
        × (live_updates p ≡ u64 (live_updates old + 1))
        × (p ≡ set_live_updates (serialize_storage_state programs old new_prog) (live_updates p))
  unfolding commit_program_live
  commit_program_live_lem t old new_prog counts e =
      let state = serialize_storage_state programs old new_prog in
      let n = u64 (live_updates old + 1) in
      (set_live_updates state n, rw e refl, counts state n, rw (counts state n) refl)

  guarded_0 :
      (r : TenantInstance P F × Bool) (starts : Bool) → (guarded files programs r starts).0 ≡ r.0
  guarded_0 (t, true) starts = refl
  guarded_0 (t, false) starts = refl

  reload_program_live-unload :
      (t : TenantInstance P F) (old : P) (starts ready : Bool)
      → t.program ≡ some old
      → has_storage old ≡ false
      → reload_program_live files programs t false starts ready
        ≡ (unload files programs t false, false)
  unfolding reload_program_live
  reload_program_live-unload t old starts ready e h = rw (e, h) refl

  -- Reloading a program that has no storage leaves the tenant without a program, and the next
  -- reference tries the initialisation again.
  pub reload_program_live_again :
      (t : TenantInstance P F) (old : P) (starts ready : Bool)
      → t.program ≡ some old
      → has_storage old ≡ false
      → ((reload_program_live files programs t false starts ready).0.program ≡ none)
        × ((ref files programs
              (reload_program_live files programs t false starts ready).0
              false
              starts
              ready).0
            ≡ (begin_initialize files programs
                (record t { program = none; started_init = false })
                false).0)
  unfolding ref wait_guarded_initialize begin_async_initialize unload
  reload_program_live_again t old starts ready e h =
      rw (reload_program_live-unload t old starts ready e h) (refl, guarded_0 _ _)
