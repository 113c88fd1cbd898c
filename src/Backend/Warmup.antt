-- ===== src/Backend/Warmup.antt =====
-- `perform_warmup_request` and `backend_warmup_pause_resume` of lib/libkvm/backend.cpp: requests
-- that warm a machine up before it is forked. The profiler is on during the warmup; `samples` are
-- the times that it measures.
pub mod Ends
use native.Mathlib.Nat.{mul-le-mul_right}
use libvmod_tinykvm.Common.{
  ℕ, zero, suc, ◌+◌, ◌-◌, ◌*◌, ◌^◌, ◌<◌, ◌≤◌, ◌≡◌, inl, inr, refl, arith, Bool, true, false, not,
  ◌||◌, Option, none, some, List, [], ◌∷◌, Str, length, ltb, leb, ◌==◌, if◌then◌else◌, u16, u32,
  Bool-cases,
}
use libvmod_tinykvm.Tenant.Group.{Warmup}
use libvmod_tinykvm.Machine.{set_ctx, begin_call}
use libvmod_tinykvm.Backend.{Serving, VmodKvmInputs}
use libvmod_tinykvm.Backend.Inputs.{
  BackendHeader, BackendInputs, no_inputs, on_vm, find_colon, fill_backend_inputs,
}
use libvmod_tinykvm.Backend.Serve.{Guest, change_mi, run_guest, allocate_inputs, resume, until_halt}
use libvmod_tinykvm.Common.Act.{
  other, Outcome, done, threw, Act, ◌>>=◌, ◌>>◌, give, state, throw_unless,
}

abbrev pub has_colon : Str → Bool
has_colon [] = false
has_colon (c ∷ s) = (c == b':') || has_colon s

module _ {V P : Type 0} (g : Guest V P) where
  -- The loop over the headers of the configuration.
  unfoldable pub push_warmup_headers : ℕ → List Str → Act (Serving V P) (ℕ × List BackendHeader)
  push_warmup_headers stack [] = give (stack, [])
  push_warmup_headers stack (header ∷ headers) = do
    throw_unless other (has_colon header)
    pushed ← on_vm (g.stack.stack_push stack header)
    rest ← push_warmup_headers pushed.0 headers
    give (
      rest.0,
      record {
        field_ptr = pushed.1;
        field_colon = find_colon header 0;
        field_len = u32 (length header);
      }
          ∷ rest.1,
    )

  -- The guest resumes with the inputs, must respond, and is run until it waits again.
  unfoldable pub resume_warmup : BackendInputs → Act (Serving V P) (Unit {0})
  resume_warmup inputs = do
    f ← state
    on_vm (g.copy_to_guest (g.registers f.mi.machine).rdi inputs)
    run_guest g resume
    s ← state
    throw_unless other ((s.mi.response_called == 1) || (s.mi.response_called == 10))
    change_mi g (λ m. record m { waiting_for_requests = false })
    run_guest g until_halt
    halted ← state
    throw_unless other halted.mi.waiting_for_requests
    change_mi g (λ m. record m { machine = g.skip_instruction m.machine })

  unfoldable pub warm_up : VmodKvmInputs → List Str → Act (Serving V P) (Unit {0})
  warm_up invoc headers = do
    change_mi g begin_call
    allocate_inputs g invoc headers none
    s ← state
    filled ← fill_backend_inputs g.stack s.mi.inputs_allocation invoc none no_inputs
    fields ← push_warmup_headers filled.0 headers
    array ← on_vm (g.stack.stack_push_headers fields.0 fields.1)
    resume_warmup (record (filled.1) { g_headers = array.1; num_headers = u16 (length headers) })

  abbrev pub succeeded : Serving V P × Outcome (Unit {0}) → Serving V P × Bool
  succeeded (s, done u) = (s, true)
  succeeded (s, threw e) = (s, false)

  unfoldable pub perform_warmup_request :
      VmodKvmInputs → List Str → Serving V P → Serving V P × Bool
  unfolding warm_up
  perform_warmup_request invoc headers s = succeeded (warm_up invoc headers s)

  module _ (invoc : VmodKvmInputs) (warmup : Warmup) (samples : ℕ → ℕ) where
    -- `--improvement_bailout`, with the 32 bits of an `int`.
    abbrev pub decremented : ℕ → ℕ
    decremented bailout = u32 (bailout + (2 ^ 32 - 1))

    -- The loop with fuel, and `none` where it runs out: the number of requests, the best time and
    -- the counter.
    unfoldable pub warmup_loop : ℕ → ℕ → ℕ → ℕ → Serving V P → Option (Serving V P)
    warmup_loop zero i best bailout s = none
    warmup_loop (suc fuel) i best bailout s =
        let (s', ok) = perform_warmup_request invoc warmup.headers s in
        let exactly = warmup_loop fuel (i + 1) best bailout s' in
        let better = warmup_loop fuel (i + 1) (samples i) warmup.num_requests s' in
        let worse = warmup_loop fuel (i + 1) best (decremented bailout) s' in
        if not ok
        then some s'
        else (if warmup.exact
            then (if leb warmup.num_requests (i + 1) then some s' else exactly)
            else (if ltb (samples i) best
                then better
                else (if decremented bailout == 0 then some s' else worse)))

    abbrev pub restored : Option ℕ → Option (Serving V P) → Option (Serving V P)
    restored ctx none = none
    restored ctx (some s) = some (record s { mi = set_ctx ctx s.mi })

    -- `ctx` is the context that is made for the warmup.
    unfoldable pub backend_warmup_pause_resume : ℕ → ℕ → Serving V P → Option (Serving V P)
    backend_warmup_pause_resume fuel ctx s = restored s.mi.ctx (
        warmup_loop fuel 0 (2 ^ 64 - 1) warmup.num_requests
          (record s { mi = set_ctx (some ctx) s.mi }))
