-- ===== src/Backend/Tests.antt =====
-- Runs of the requests of lib/libkvm/backend.cpp at concrete inputs.
use libvmod_tinykvm.Common.{
  ℕ, zero, suc, ◌+◌, ◌*◌, ◌-◌, ◌^◌, ◌<◌, ◌≤◌, ◌≡◌, refl, arith, true, false, Option, none, some, [],
  ◌∷◌, length, codes, replicate, length-replicate, some-inj, ap, sym, ◌∙◌,
}
use libvmod_tinykvm.Tenant.Group.{Warmup}
use libvmod_tinykvm.Machine.{MachineInstance, set_ctx}
use libvmod_tinykvm.Machine.Tests.{kvm, group, machine, no_regex}
use libvmod_tinykvm.Backend.{
  Regs, BackendResult, Serving, VmodKvmInputs, ProgramEntryIndex, backend_get, backend_error,
}
use libvmod_tinykvm.Common.Act.{timeout, done, threw, Outcome}
use libvmod_tinykvm.Backend.Result.{Answers, Gathers}
use libvmod_tinykvm.Backend.Response.{IsDeliverable}
use libvmod_tinykvm.Backend.Inputs.{Stack}
use libvmod_tinykvm.Backend.Serve.{Guest, GuestLaws, GuestCall, call_get, kvm_backend_call}
use libvmod_tinykvm.Backend.Faults.{kvm_backend_call-IsDeliverable}
use libvmod_tinykvm.Backend.Fetch.{vfp_end, pull_all, pull_all-concat}
use libvmod_tinykvm.Backend.Release.{Response, early_release, IsSafe, early_release-IsSafe}
use libvmod_tinykvm.Backend.Warmup.{backend_warmup_pause_resume}
use libvmod_tinykvm.Backend.Warmup.Ends.{backend_warmup_pause_resume_ends}
use libvmod_tinykvm.Backend.Delivery.{
  Sender, SenderLaws, kvm_backend_streaming_delivery, deliver, kvm_backend_streaming_delivery-fits,
}

abbrev regs : Regs
regs = record { rdi = 200; rsi = 0x2000; rdx = 10; rcx = 0x3000; r8 = 5; r9 = 0 }

-- One buffer for each range that is not empty.
abbrev gather : ℕ → ℕ → ℕ → Option ℕ
gather zero address len = none
gather (suc room) address zero = some 0
gather (suc room) address (suc len) = some 1

abbrev answers : Answers
answers = record {
  type_room = true;
  type_text = some (codes "text/plain");
  gathered = gather;
  extra = none;
  headers_room = true;
  header = λ i. some tt;
}

gather-some : (room address len n : ℕ) → gather room address len ≡ some n → 0 < len → 0 < n
gather-some zero address len n h = cc
gather-some (suc room) address zero n h = ground arith
gather-some (suc room) address (suc len) n h = ground arith

gather-room : (room address len n : ℕ) → gather room address len ≡ some n → n ≤ room
gather-room zero address len n h = cc
gather-room (suc room) address zero n h = ground arith
gather-room (suc room) address (suc len) n h = ground arith

answers_gather : Gathers answers
answers_gather = record { some_buffers = gather-some; in_room = gather-room }

abbrev stack : Stack ℕ
stack = record {
  stack_push = λ sp s v. (v, done (sp - length s, sp - length s));
  stack_push_headers = λ sp hs v. (v, done (sp, sp));
  stack_push_inputs = λ sp i v. (v, done (sp, sp));
}

abbrev entry : ProgramEntryIndex → ℕ
entry backend_get = 0x4000
entry backend_error = 0x5000
entry other = 0

-- A guest whose GET times out, and whose error callback responds.
abbrev slow_run : GuestCall → MachineInstance ℕ ℕ → MachineInstance ℕ ℕ × Outcome (Unit {0})
slow_run (call_get address url argument) m = (m, threw timeout)
slow_run c m = (record m { response_called = 1 }, done tt)

abbrev slow : Guest ℕ ℕ
slow = record {
  kvm = kvm;
  stack = stack;
  entry_at = entry;
  run = slow_run;
  registers = λ v. regs;
  answers = λ late v. answers;
  stack_address = λ v. 0x8000;
  mmap_relax = λ a c n v. (v, done tt);
  smp_wait = λ v. (v, done tt);
  copy_to_guest = λ a i v. (v, done tt);
  skip_instruction = λ v. v;
  open_debugger = λ v. (v, done tt);
}

slow_keeps :
    (c : GuestCall) (m : MachineInstance ℕ ℕ)
    → m.reset_needed ≡ true
    → (slow_run c m).0.reset_needed ≡ true
slow_keeps (call_get address url argument) m h = h
slow_keeps c m h = h

slow_laws : GuestLaws slow
slow_laws = record { run_reset_needed = slow_keeps; gathers = λ late v. answers_gather }

abbrev invoc : VmodKvmInputs
invoc = record { method = codes "GET"; url = codes "/"; argument = []; content_type = [] }

abbrev empty_result : BackendResult
empty_result = record {
  type_ = none;
  tsize = 0;
  status = 0;
  content_length = 0;
  bufcount = 512;
  stream = none;
}

abbrev serving : Serving ℕ ℕ
serving = record {
  mi = machine false no_regex;
  prng = record { generator = record { state0 = 1; state1 = 2 }; random_integer = 0; counter = 0 };
  result = empty_result;
}

kvm_backend_call-IsDeliverable_example :
    IsDeliverable (kvm_backend_call slow group 7 invoc [] none serving).result
kvm_backend_call-IsDeliverable_example =
    kvm_backend_call-IsDeliverable slow slow_laws group 7 invoc [] none serving

abbrev three_requests : Warmup
three_requests = record {
  num_requests = 3;
  exact = false;
  url = codes "/";
  method = codes "GET";
  headers = codes "Host: a" ∷ [];
}

backend_warmup_pause_resume_ends_example :
    (s' : Serving ℕ ℕ) × (backend_warmup_pause_resume slow invoc three_requests
        (λ i. 100 - i)
        (2 ^ 64 * 3 + 1)
        9
        serving
      ≡ some s')
    × (s'.mi.ctx ≡ some 1)
backend_warmup_pause_resume_ends_example =
    backend_warmup_pause_resume_ends slow invoc three_requests (λ i. 100 - i) 9 serving
      (omega arith) (omega arith)

-- A guest that claims more bytes than there is room for.
abbrev sender : Sender ℕ ℕ
sender = record {
  run_callback = λ c a room w n m. (m, done tt);
  registers = λ v. record regs { rdx = 5 };
  copy_from_guest = λ v a n. some (replicate n v);
}

sender_laws : SenderLaws sender
sender_laws = record {
  copied_length =
      λ v a n bytes h. ap length (sym (some-inj (replicate n v) bytes h)) ∙ length-replicate n v;
}

kvm_backend_streaming_delivery-fits_example : 3 ≤ 3
unfolding kvm_backend_streaming_delivery deliver
kvm_backend_streaming_delivery-fits_example =
    kvm_backend_streaming_delivery-fits sender sender_laws 0x4000 0 empty_result 3 0
      (machine false no_regex) (set_ctx none (machine false no_regex)) (5 ∷ 5 ∷ 5 ∷ []) refl

pull_all-concat_example :
    pull_all 5 (2 ∷ 2 ∷ 2 ∷ 2 ∷ 2 ∷ 2 ∷ []) ((1 ∷ 2 ∷ 3 ∷ []) ∷ [] ∷ (4 ∷ 5 ∷ []) ∷ [])
    ≡ (1 ∷ 2 ∷ 3 ∷ 4 ∷ 5 ∷ [], vfp_end)
pull_all-concat_example =
    pull_all-concat ((1 ∷ 2 ∷ 3 ∷ []) ∷ [] ∷ (4 ∷ 5 ∷ []) ∷ []) (2 ∷ 2 ∷ 2 ∷ 2 ∷ 2 ∷ 2 ∷ [])
      (omega arith, (omega arith, (omega arith, (omega arith, (omega arith, (omega arith, tt))))))
      (omega arith)

abbrev short_response : Response
short_response = record {
  content_length = 3;
  buffers = (1 ∷ 2 ∷ []) ∷ (3 ∷ []) ∷ [];
  in_guest = true;
}

early_release-IsSafe_example : IsSafe short_response (early_release 4096 true true short_response)
early_release-IsSafe_example = early_release-IsSafe 4096 true short_response refl

abbrev streamed_result : BackendResult
streamed_result = record empty_result { content_length = 8; bufcount = 0 }
