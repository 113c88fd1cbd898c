-- ===== src/Backend/Serve.antt =====
-- `kvm_backend_call` and `error_handling` of lib/libkvm/backend.cpp: one request on its machine,
-- and the error page that the guest may give after an exception.
use libvmod_tinykvm.Common.{
  ℕ, ◌+◌, ◌≡◌, Bool, true, false, not, ◌&&◌, ◌||◌, Option, none, some, List, Str, ◌==◌,
  if◌then◌else◌, u64,
}
use libvmod_tinykvm.Tenant.Group.{TenantGroup}
use libvmod_tinykvm.Machine.{MachineInstance, Tinykvm, set_ctx, begin_call, reset_needed_now}
use libvmod_tinykvm.Machine.Stats.{MachineStats}
use libvmod_tinykvm.Backend.{
  Regs, BackendResult, Serving, VmodKvmInputs, BackendPost, ProgramEntryIndex, backend_get,
  backend_post, backend_method, backend_error,
}
use libvmod_tinykvm.Backend.Result.{Answers, Gathers, change_stats, fetch_result}
use libvmod_tinykvm.Backend.Inputs.{
  BackendInputs, no_inputs, Stack, on_vm, fill_backend_inputs, fill_backend_headers,
}
use libvmod_tinykvm.Common.Act.{
  Fault, timeout, memory, machine, other, Outcome, done, threw, Act, ◌>>=◌, ◌>>◌, give, change,
  state, throw_unless,
}

-- The ways in which a guest is run, with their arguments.
pub data GuestCall : Type 0 where
  call_method : ℕ → ℕ → ℕ → GuestCall
  call_get : ℕ → Str → Str → GuestCall
  call_post : ℕ → Str → Str → Str → ℕ → ℕ → GuestCall
  call_error : ℕ → Str → Str → GuestCall
  until_halt : GuestCall
  resume : GuestCall

-- What the code uses of the program, its guest and `tinykvm::Machine`. `answers` is what a run of
-- `fetch_result` reads, in the request or in the error callback.
pub record Guest (V P : Type 0) : Type 0 where
  pub kvm : Tinykvm V
  pub stack : Stack V
  pub entry_at : ProgramEntryIndex → ℕ
  pub run : GuestCall → MachineInstance V P → MachineInstance V P × Outcome (Unit {0})
  pub registers : V → Regs
  pub answers : Bool → V → Answers
  pub stack_address : V → ℕ
  pub mmap_relax : ℕ → ℕ → ℕ → V → V × Outcome (Unit {0})
  pub smp_wait : V → V × Outcome (Unit {0})
  pub copy_to_guest : ℕ → BackendInputs → V → V × Outcome (Unit {0})
  pub skip_instruction : V → V
  pub open_debugger : V → V × Outcome (Unit {0})

-- A guest has no system call that clears the mark, and what is copied out of it is as `Gathers`
-- says.
pub record GuestLaws {V P : Type 0} (g : Guest V P) : Type 0 where
  pub run_reset_needed :
      (c : GuestCall) (m : MachineInstance V P)
      → m.reset_needed ≡ true
      → (g.run c m).0.reset_needed ≡ true
  pub gathers : (late : Bool) (v : V) → Gathers (g.answers late v)

-- The counters of the handlers.
unfoldable pub count_fault : Fault → MachineStats → MachineStats
count_fault timeout st = record st { timeouts = u64 (st.timeouts + 1) }
count_fault (memory true) st = record st { exception_oom = u64 (st.exception_oom + 1) }
count_fault (memory false) st = record st { exception_mem = u64 (st.exception_mem + 1) }
count_fault machine st = record st { exceptions = u64 (st.exceptions + 1) }
count_fault other st = record st { exceptions = u64 (st.exceptions + 1) }

module _ {V P : Type 0} (g : Guest V P) where
  abbrev pub change_mi : (MachineInstance V P → MachineInstance V P) → Act (Serving V P) (Unit {0})
  change_mi f = change (λ s. record s { mi = f s.mi })

  abbrev pub run_guest : GuestCall → Act (Serving V P) (Unit {0})
  run_guest c s = let (m, o) = g.run c s.mi in (record s { mi = m }, o)

  abbrev pub fetch : Bool → Act (Serving V P) (Unit {0})
  fetch late s = fetch_result (g.answers late s.mi.machine) (g.registers s.mi.machine) s

  abbrev pub has_entry : ProgramEntryIndex → Bool
  has_entry i = not (g.entry_at i == 0)

  abbrev pub has_post : Option BackendPost → Bool
  has_post none = false
  has_post (some post) = true

  abbrev pub relax : Option BackendPost → Act (Serving V P) (Unit {0})
  relax none = give tt
  relax (some post) = on_vm (g.mmap_relax post.address post.capacity post.length)

  -- After a call of a function of the guest.
  abbrev pub finish : Act (Serving V P) (Unit {0})
  finish = on_vm g.smp_wait >> fetch false

  -- A machine that is not reset is left where its system call returns.
  abbrev pub leave_paused : Bool → Act (Serving V P) (Unit {0})
  leave_paused ephemeral =
      if ephemeral
      then give tt
      else change_mi
          (λ m. record m { machine = g.skip_instruction m.machine; waiting_for_requests = false })

  module _ (invoc : VmodKvmInputs) (headers : List Str) (post : Option BackendPost) where
    -- Both fills, from the top of a stack.
    abbrev pub fill : ℕ → Act (Serving V P) (ℕ × BackendInputs)
    fill stack = do
      filled ← fill_backend_inputs g.stack stack invoc post no_inputs
      s ← state
      elim s.mi.ctx [
        | none ↦ give filled
        | some ctx ↦ fill_backend_headers g.stack filled.0 headers filled.1
      ]

    unfoldable pub serve_method : Act (Serving V P) (Unit {0})
    serve_method = do
      s ← state
      filled ← fill (g.stack_address s.mi.machine)
      struct_addr ← on_vm (g.stack.stack_push_inputs filled.0 filled.1)
      run_guest (call_method (g.entry_at backend_method) struct_addr.0 struct_addr.1)

    unfoldable pub serve_get : Act (Serving V P) (Unit {0})
    serve_get = run_guest (call_get (g.entry_at backend_get) invoc.url invoc.argument)

    unfoldable pub serve_post : BackendPost → Act (Serving V P) (Unit {0})
    serve_post p = do
      change_stats (λ st. record st { input_bytes = u64 (st.input_bytes + p.length) })
      run_guest (
          call_post (g.entry_at backend_post) invoc.url invoc.argument invoc.content_type p.address
            p.length)

    -- The guest stands in a system call that waits for requests; where it does not, it is run
    -- until it does.
    unfoldable pub ensure_waiting : Bool → Act (Serving V P) (Unit {0})
    ensure_waiting ephemeral = do
      s ← state
      if ephemeral || s.mi.waiting_for_requests then give tt else (do
        run_guest until_halt
        halted ← state
        throw_unless other halted.mi.waiting_for_requests)

    unfoldable pub allocate_inputs : Act (Serving V P) (Unit {0})
    allocate_inputs = change_mi (λ m.
        if m.inputs_allocation == 0
        then (let (v, a) = g.kvm.mmap_allocate 0x10000 m.machine in
            record m { machine = v; inputs_allocation = u64 (a + 0x10000) })
        else m)

    unfoldable pub resume_paused : Bool → Act (Serving V P) (Unit {0})
    resume_paused ephemeral = do
      ensure_waiting ephemeral
      allocate_inputs
      s ← state
      filled ← fill s.mi.inputs_allocation
      f ← state
      on_vm (g.copy_to_guest (g.registers f.mi.machine).rdi filled.1)
      run_guest resume

    unfoldable pub serve_paused : Bool → Act (Serving V P) (Unit {0})
    serve_paused ephemeral = resume_paused ephemeral >> (fetch false >> leave_paused ephemeral)

    abbrev pub serve_posted : Bool → Act (Serving V P) (Unit {0})
    serve_posted ephemeral = elim post [
      | none ↦ serve_paused ephemeral
      | some p ↦ if has_entry backend_post then serve_post p >> finish else serve_paused ephemeral
    ]

    abbrev pub begin_request : Act (Serving V P) (Unit {0})
    begin_request = do
      change_mi begin_call
      change_stats (λ st. record st { invocations = u64 (st.invocations + 1) })
      relax post

    abbrev pub serve_by : Bool → Act (Serving V P) (Unit {0})
    serve_by ephemeral =
        if has_entry backend_method
        then serve_method >> finish
        else (if not (has_post post) && has_entry backend_get
            then serve_get >> finish
            else serve_posted ephemeral)

    unfoldable pub serve_request : Bool → Act (Serving V P) (Unit {0})
    serve_request ephemeral = begin_request >> serve_by ephemeral

  abbrev pub internal_error : BackendResult
  internal_error = record {
    type_ = none;
    tsize = 0;
    status = 500;
    content_length = 0;
    bufcount = 0;
    stream = none;
  }

  abbrev pub open_remote : Bool → Act (Serving V P) (Unit {0})
  open_remote remote_debug = if remote_debug then on_vm g.open_debugger else give tt

  abbrev pub run_on_error : VmodKvmInputs → Act (Serving V P) (Unit {0})
  run_on_error invoc = do
    change_mi begin_call
    run_guest (call_error (g.entry_at backend_error) invoc.url invoc.argument)
    on_vm g.smp_wait

  -- The first `try` of `error_handling`: the answer tells whether the callback has responded.
  abbrev pub try_on_error : VmodKvmInputs → Act (Serving V P) Bool
  try_on_error invoc =
      if has_entry backend_error
      then run_on_error invoc >> (fetch true >> give true)
      else give false

  unfoldable pub call_on_error : Bool → VmodKvmInputs → Act (Serving V P) Bool
  call_on_error remote_debug invoc = open_remote remote_debug >> try_on_error invoc

  -- What was thrown is caught, also from the second `try`.
  unfoldable pub give_up : Serving V P → Serving V P
  give_up s = record (on_vm g.smp_wait s).0 { result = internal_error }

  abbrev pub unless_handled : Serving V P × Outcome Bool → Serving V P
  unless_handled (s, done true) = s
  unless_handled (s, done false) = give_up s
  unless_handled (s, threw e) = give_up s

  unfoldable pub error_handling : Bool → VmodKvmInputs → Serving V P → Serving V P
  unfolding call_on_error
  error_handling remote_debug invoc s =
      unless_handled (call_on_error remote_debug invoc (record s { mi = reset_needed_now s.mi }))

  abbrev pub handled : Bool → VmodKvmInputs → Serving V P × Outcome (Unit {0}) → Serving V P
  handled remote_debug invoc (s, done u) = s
  handled remote_debug invoc (s, threw e) =
      error_handling remote_debug invoc (change_stats (count_fault e) s).0

  unfoldable pub kvm_backend_call :
      {F : Type 0}
      → TenantGroup F
      → ℕ
      → VmodKvmInputs
      → List Str
      → Option BackendPost
      → Serving V P
      → Serving V P
  unfolding serve_request error_handling
  kvm_backend_call group ctx invoc headers post s =
      handled group.remote_debug_on_exception invoc (
        serve_request invoc headers post group.ephemeral
          (record s { mi = set_ctx (some ctx) s.mi }))
