-- ===== src/Backend/Warmup/Ends.antt =====
-- The warmup of lib/libkvm/backend.cpp comes to an end.
use native.Mathlib.Nat.{mul-le-mul_right}
use libvmod_tinykvm.Common.{
  ℕ, zero, suc, ◌+◌, ◌-◌, ◌*◌, ◌^◌, ◌<◌, ◌≤◌, ◌≡◌, inl, inr, refl, arith, Bool, true, false, not,
  Option, some, ltb, leb, ◌==◌, if◌then◌else◌, Bool-cases,
}
use libvmod_tinykvm.Tenant.Group.{Warmup}
use libvmod_tinykvm.Machine.{set_ctx}
use libvmod_tinykvm.Backend.{Serving, VmodKvmInputs}
use libvmod_tinykvm.Backend.Serve.{Guest}
use libvmod_tinykvm.Backend.Warmup.{
  perform_warmup_request, decremented, warmup_loop, backend_warmup_pause_resume,
}

module _ {V P : Type 0} (g : Guest V P) (invoc : VmodKvmInputs) (warmup : Warmup)
    (samples : ℕ → ℕ) where
  decremented_lem :
      (bailout : ℕ)
      → 0 < bailout
      → bailout < 2 ^ 31
      → decremented g invoc warmup samples bailout ≡ bailout - 1
  decremented_lem bailout pos small =
      let (k, e) : (k : ℕ) × (bailout ≡ suc k) = (bailout - 1, omega arith) in omega arith

  -- What is left of the loop.
  abbrev measure : ℕ → ℕ → ℕ → ℕ
  measure i best bailout =
      if warmup.exact then suc (warmup.num_requests - i) else best * warmup.num_requests + bailout

  measure_pos : (i best bailout : ℕ) → 0 < bailout → 0 < measure i best bailout
  measure_pos i best bailout pos = elim (Bool-cases warmup.exact) [
    | inl exact ↦ simp exact (omega arith)
    | inr heuristic ↦ simp heuristic (omega arith)
  ]

  -- A better time is worth a full counter.
  better_measure :
      (best sample bailout fuel : ℕ)
      → sample < best
      → 0 < bailout
      → best * warmup.num_requests + bailout ≤ suc fuel
      → sample * warmup.num_requests + warmup.num_requests ≤ fuel
  better_measure best sample bailout fuel better pos enough =
      let m : suc sample * warmup.num_requests ≤ best * warmup.num_requests =
        mul-le-mul_right warmup.num_requests better in
      omega (arith, enough, m)

  abbrev HasEnded : Option (Serving V P) → Type 0
  HasEnded r = (s : Serving V P) × (r ≡ some s)

  exact_measure :
      (i fuel : ℕ)
      → i + 1 < warmup.num_requests
      → suc (warmup.num_requests - i) ≤ suc fuel
      → suc (warmup.num_requests - (i + 1)) ≤ fuel
  exact_measure i fuel more enough = omega arith

  worse_measure :
      (best bailout next fuel : ℕ)
      → next ≡ bailout - 1
      → 0 < bailout
      → best * warmup.num_requests + bailout ≤ suc fuel
      → best * warmup.num_requests + next ≤ fuel
  worse_measure best bailout next fuel e pos enough = omega arith

  -- The five ways out of a round.
  round_HasEnded :
      (failed exact complete better last : Bool) (s : Serving V P)
      (after_exact after_better after_worse : Option (Serving V P))
      → (exact ≡ true → complete ≡ false → HasEnded after_exact)
      → (exact ≡ false → better ≡ true → HasEnded after_better)
      → (exact ≡ false → better ≡ false → last ≡ false → HasEnded after_worse)
      → HasEnded (
          if failed
          then some s
          else (if exact
              then (if complete then some s else after_exact)
              else (if better then after_better else (if last then some s else after_worse))))
  round_HasEnded true exact complete better last s a b w x y z = (s, refl)
  round_HasEnded false true true better last s a b w x y z = (s, refl)
  round_HasEnded false true false better last s a b w x y z = x refl refl
  round_HasEnded false false complete true last s a b w x y z = y refl refl
  round_HasEnded false false complete false true s a b w x y z = (s, refl)
  round_HasEnded false false complete false false s a b w x y z = z refl refl refl

  warmup_loop-HasEnded :
      (fuel i best bailout : ℕ) (s : Serving V P)
      → 0 < bailout
      → bailout ≤ warmup.num_requests
      → warmup.num_requests < 2 ^ 31
      → measure i best bailout ≤ fuel
      → HasEnded (warmup_loop g invoc warmup samples fuel i best bailout s)
  unfolding warmup_loop
  warmup_loop-HasEnded zero i best bailout s pos le small enough =
      absurd (omega (arith, measure_pos i best bailout pos))
  warmup_loop-HasEnded (suc fuel) i best bailout s pos le small enough =
      let s' = (perform_warmup_request g invoc warmup.headers s).0 in
      round_HasEnded (not (perform_warmup_request g invoc warmup.headers s).1) warmup.exact
        (leb warmup.num_requests (i + 1)) (ltb (samples i) best)
        (decremented g invoc warmup samples bailout == 0) s'
        (warmup_loop g invoc warmup samples fuel (i + 1) best bailout s')
        (warmup_loop g invoc warmup samples fuel (i + 1) (samples i) warmup.num_requests s')
        (warmup_loop g invoc warmup samples fuel (i + 1) best
          (decremented g invoc warmup samples bailout) s')
        (λ exact more.
          warmup_loop-HasEnded fuel (i + 1) best bailout s' pos le small
            (simp exact (exact_measure i fuel (ground arith) (simp exact at enough))))
        (λ heuristic better.
          warmup_loop-HasEnded fuel (i + 1) (samples i) warmup.num_requests s' (omega arith)
            (omega arith) small
            (simp heuristic (
              better_measure best (samples i) bailout fuel (ground arith) pos
                (simp heuristic at enough))))
        (λ heuristic worse more.
          let e : decremented g invoc warmup samples bailout ≡ bailout - 1 =
            decremented_lem bailout pos (omega arith) in
          warmup_loop-HasEnded fuel (i + 1) best (decremented g invoc warmup samples bailout) s'
            (ground arith) (omega (arith, e)) small
            (simp heuristic (
              worse_measure best bailout (decremented g invoc warmup samples bailout) fuel e pos
                (simp heuristic at enough))))

  -- The warmup ends when at least one request is configured, whatever the guest does and
  -- whatever times are measured, as an exact number and by the heuristic; the machine then has
  -- the context that it had before.
  pub backend_warmup_pause_resume_ends :
      (ctx : ℕ) (s : Serving V P)
      → 0 < warmup.num_requests
      → warmup.num_requests < 2 ^ 31
      → (s' : Serving V P) × (backend_warmup_pause_resume g invoc warmup samples
            (2 ^ 64 * warmup.num_requests + 1)
            ctx
            s
          ≡ some s')
        × (s'.mi.ctx ≡ s.mi.ctx)
  unfolding backend_warmup_pause_resume
  backend_warmup_pause_resume_ends ctx s pos small =
      let (end, e) =
        warmup_loop-HasEnded (2 ^ 64 * warmup.num_requests + 1) 0 (2 ^ 64 - 1) warmup.num_requests
          (record s { mi = set_ctx (some ctx) s.mi }) pos (omega arith) small enough_fuel in
      (record end { mi = set_ctx s.mi.ctx end.mi }, rw e, refl)
    where
      enough_fuel : measure 0 (2 ^ 64 - 1) warmup.num_requests ≤ 2 ^ 64 * warmup.num_requests + 1
      enough_fuel = elim (Bool-cases warmup.exact) [
        | inl exact ↦ simp exact (omega arith)
        | inr heuristic ↦ simp heuristic (omega arith)
      ]
