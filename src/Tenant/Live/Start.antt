-- ===== src/Tenant/Live/Start.antt =====
-- When a tenant of lib/libkvm/tenant_instance.cpp has a program, and which one.
use libvmod_tinykvm.Common.{
  ◌≡◌, inl, inr, refl, arith, Bool, true, false, Option, none, some, is_nil, Bool-cases,
  Option-cases, some-inj, ◌∙◌,
}
use libvmod_tinykvm.Tenant.Group.{TenantConfig}
use libvmod_tinykvm.Tenant.Live.{
  Files, Programs, TenantInstance, verified, load_files, load_source, begin_initialize,
  begin_async_initialize, guarded, wait_guarded_initialize, program_of, ready_program, ref_from,
  ref,
}

ready_program-some :
    {P : Type 0} (ready : Bool) (o : Option (Option P)) (p : P)
    → ready_program ready o ≡ some (some p)
    → (o ≡ some (some p)) × (ready ≡ true)
ready_program-some ready none p h = ground arith
ready_program-some ready (some none) p h = ground arith
ready_program-some true (some (some q)) p h = (h, refl)
ready_program-some false (some (some q)) p h = ground arith

module _ {P F : Type 0} (files : Files) (programs : Programs P) where
  open files use {access, create_sha256_from_file, create_md5_from_file}
  open programs use {from_uri, from_files, has_storage, is_debug, live_updates, set_live_updates}

  load_source-started :
      (t : TenantInstance P F) (debug : Bool) (v : Option Bool)
      → (load_source files programs t debug v).0.started_init ≡ t.started_init
  load_source-started t debug none = refl
  load_source-started t debug (some v) = ground arith

  pub begin_initialize-started :
      (t : TenantInstance P F) (debug : Bool)
      → (begin_initialize files programs t debug).0.started_init ≡ true
  unfolding begin_initialize
  begin_initialize-started t debug = elim (Bool-cases t.started_init) [
    | inl e ↦ rw e refl
    | inr e ↦ rw e (
        load_source-started (record t { started_init = true }) debug
          (verified files programs t.config))
  ]

  load_source-config :
      (t : TenantInstance P F) (debug : Bool) (v : Option Bool)
      → (load_source files programs t debug v).0.config ≡ t.config
  load_source-config t debug none = refl
  load_source-config t debug (some v) = ground arith

  pub begin_initialize-config :
      (t : TenantInstance P F) (debug : Bool)
      → (begin_initialize files programs t debug).0.config ≡ t.config
  unfolding begin_initialize
  begin_initialize-config t debug = elim (Bool-cases t.started_init) [
    | inl e ↦ rw e refl
    | inr e ↦ rw e (
        load_source-config (record t { started_init = true }) debug
          (verified files programs t.config))
  ]

  started_again :
      (t : TenantInstance P F) (debug : Bool)
      → t.started_init ≡ true
      → begin_initialize files programs t debug ≡ (t, false)
  unfolding begin_initialize
  started_again t debug h = rw h refl

  -- The initialisation is attempted once: after it, whatever it found and whether or not it threw,
  -- another attempt changes nothing.
  pub begin_initialize_twice :
      (t : TenantInstance P F) (debug again : Bool)
      → begin_initialize files programs (begin_initialize files programs t debug).0 again
        ≡ ((begin_initialize files programs t debug).0, false)
  begin_initialize_twice t debug again =
      started_again (begin_initialize files programs t debug).0 again
        (begin_initialize-started t debug)

  verified-accessible :
      (c : TenantConfig F)
      → verified files programs c ≡ some true
      → (is_nil c.filename ≡ false) × (access c.filename ≡ true)
  unfolding verified
  verified-accessible c v = ground arith

  -- Where no initialisation was tried, a local file whose checksum agrees is loaded, and the URI
  -- is not used.
  pub begin_initialize-verified :
      (t : TenantInstance P F) (debug : Bool)
      → t.started_init ≡ false
      → verified files programs t.config ≡ some true
      → begin_initialize files programs t debug
        ≡ (record t { started_init = true; program = load_files files programs t.config }, false)
  unfolding begin_initialize
  begin_initialize-verified t debug h v =
      let there = verified-accessible t.config v in ground (arith, h, v, there)

  guarded-program :
      (r : TenantInstance P F × Bool) (starts : Bool) (p : P)
      → (guarded files programs r starts).1 ≡ some (some p)
      → (guarded files programs r starts).0.program ≡ some p
  guarded-program (t, true) starts p h = ground arith
  guarded-program (t, false) starts p h = elim (Option-cases t.program) [
    | inl e ↦ cc (rw e at h)
    | inr (q, e) ↦ elim (Bool-cases starts) [
      | inl u ↦ e ∙ some-inj _ _ (rw (e, u) at h)
      | inr u ↦ cc (rw (e, u) at h)
    ]
  ]

  ref_from-program_of :
      (t : TenantInstance P F) (debug : Bool) (o : Option P) (starts ready : Bool) (p : P)
      → program_of files programs t debug ≡ o
      → (ref_from files programs t debug o starts ready).1 ≡ some (some p)
      → (program_of files programs (ref_from files programs t debug o starts ready).0 debug
          ≡ some p)
        × (ready ≡ true)
  unfolding wait_guarded_initialize
  ref_from-program_of t debug (some q) starts ready p e h =
      let found = ready_program-some ready (some (some q)) p h in
      (e ∙ some-inj _ _ found.0, found.1)
  ref_from-program_of t true none starts ready p e h = ground arith
  ref_from-program_of t false none starts ready p e h =
      let found =
        ready_program-some ready
          (guarded files programs (begin_async_initialize files programs t false) starts).1 p h in
      (guarded-program (begin_async_initialize files programs t false) starts p found.0, found.1)

  -- A program that `ref` returns is the one that the tenant holds afterwards, and it was ready.
  pub ref-program_of :
      (t : TenantInstance P F) (debug starts ready : Bool) (p : P)
      → (ref files programs t debug starts ready).1 ≡ some (some p)
      → (program_of files programs (ref files programs t debug starts ready).0 debug ≡ some p)
        × (ready ≡ true)
  unfolding ref
  ref-program_of t debug starts ready p h =
      ref_from-program_of t debug (program_of files programs t debug) starts ready p refl h
