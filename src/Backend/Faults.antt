-- ===== src/Backend/Faults.antt =====
-- What a request leaves behind, whatever its guest does: `kvm_backend_call` of
-- lib/libkvm/backend.cpp.
use libvmod_tinykvm.Common.{
  ℕ, ◌≡◌, inl, inr, refl, arith, Bool, true, false, not, ◌&&◌, Option, none, some, List, Str, ◌==◌,
  Bool-cases,
}
use libvmod_tinykvm.Tenant.Group.{TenantGroup}
use libvmod_tinykvm.Machine.{MachineInstance, set_ctx}
use libvmod_tinykvm.Backend.{
  Serving, VmodKvmInputs, BackendPost, backend_get, backend_post, backend_method, backend_error,
}
use libvmod_tinykvm.Backend.Response.{IsDeliverable, Fetched, fetch_result_lem}
use libvmod_tinykvm.Backend.Inputs.{on_vm}
use libvmod_tinykvm.Backend.Serve.{
  Guest, GuestLaws, fetch, finish, serve_method, serve_get, serve_post, serve_paused, leave_paused,
  serve_posted, serve_by, has_entry, has_post, begin_request, resume_paused, serve_request,
  internal_error, run_on_error, try_on_error, call_on_error, open_remote, give_up, unless_handled,
  error_handling, handled, kvm_backend_call,
}
use libvmod_tinykvm.Common.Act.{Outcome, done, threw, Act, ◌>>◌, give, Post, Post-bind, Post-after}

module _ {V P : Type 0} (g : Guest V P) (laws : GuestLaws g) where
  -- What is true of a result that was fetched.
  abbrev Delivered : {A : Type 0} → Serving V P × Outcome A → Type 0
  Delivered = Post (λ s _. IsDeliverable s.result) (λ _ _. Unit {0})

  fetched :
      (m : MachineInstance V P) (streamed : Bool) (r : Serving V P × Outcome (Unit {0}))
      → Fetched m streamed r
      → Delivered r
  fetched m streamed (s, done a) h = h.1
  fetched m streamed (s, threw e) h = tt

  fetch-Delivered : (late : Bool) (s : Serving V P) → Delivered (fetch g late s)
  fetch-Delivered late s = fetched s.mi (not (s.mi.response_called == 1)) (fetch g late s) (
      fetch_result_lem s.mi (g.answers late s.mi.machine) (laws.gathers late s.mi.machine)
        (g.registers s.mi.machine) s refl)

  finish-Delivered : (s : Serving V P) → Delivered (finish g s)
  finish-Delivered s =
      Post-after (λ t _. IsDeliverable t.result) (on_vm g.smp_wait) (λ _. fetch g false) s
        (λ s' a. fetch-Delivered false s')

  leave_paused-Delivered :
      (ephemeral : Bool) (s : Serving V P)
      → IsDeliverable s.result
      → Delivered (leave_paused g ephemeral s)
  leave_paused-Delivered true s h = h
  leave_paused-Delivered false s h = h

  after_call :
      (call : Act (Serving V P) (Unit {0})) (s : Serving V P) → Delivered ((call >> finish g) s)
  after_call call s =
      Post-after (λ t _. IsDeliverable t.result) call (λ _. finish g) s
        (λ s' a. finish-Delivered s')

  module _ (invoc : VmodKvmInputs) (headers : List Str) where
    serve_paused-Delivered :
        (post : Option BackendPost) (ephemeral : Bool) (s : Serving V P)
        → Delivered (serve_paused g invoc headers post ephemeral s)
    unfolding serve_paused
    serve_paused-Delivered post ephemeral s =
        Post-after (λ t _. IsDeliverable t.result) (resume_paused g invoc headers post ephemeral)
          (λ _. fetch g false >> leave_paused g ephemeral) s
          (λ s' a.
            Post-bind (λ t _. IsDeliverable t.result) (λ t _. IsDeliverable t.result)
              (λ _ _. Unit {0}) (fetch g false) (λ _. leave_paused g ephemeral) s'
              (fetch-Delivered false s') (λ s'' b h. leave_paused-Delivered ephemeral s'' h))

    serve_posted-Delivered :
        (p : Option BackendPost) (ephemeral : Bool) (s : Serving V P)
        → Delivered (serve_posted g invoc headers p ephemeral s)
    serve_posted-Delivered none ephemeral s = serve_paused-Delivered none ephemeral s
    serve_posted-Delivered (some p) ephemeral s = elim (Bool-cases (has_entry g backend_post)) [
      | inl entry ↦ rw entry (after_call (serve_post g invoc headers (some p) p) s)
      | inr absent ↦ rw absent (serve_paused-Delivered (some p) ephemeral s)
    ]

    serve_by-Delivered :
        (post : Option BackendPost) (ephemeral : Bool) (s : Serving V P)
        → Delivered (serve_by g invoc headers post ephemeral s)
    serve_by-Delivered post ephemeral s = elim (Bool-cases (has_entry g backend_method)) [
      | inl method ↦ rw method (after_call (serve_method g invoc headers post) s)
      | inr no_method ↦
          rw no_method (elim (Bool-cases (not (has_post g post) && has_entry g backend_get)) [
            | inl get ↦ rw get (after_call (serve_get g invoc headers post) s)
            | inr no_get ↦ rw no_get (serve_posted-Delivered post ephemeral s)
          ])
    ]

    serve_request-Delivered :
        (post : Option BackendPost) (ephemeral : Bool) (s : Serving V P)
        → Delivered (serve_request g invoc headers post ephemeral s)
    unfolding serve_request
    serve_request-Delivered post ephemeral s =
        Post-after (λ t _. IsDeliverable t.result) (begin_request g invoc headers post)
          (λ _. serve_by g invoc headers post ephemeral) s
          (λ s' a. serve_by-Delivered post ephemeral s')

  -- After the error callback: it has responded, or it was not there.
  abbrev Responded : Serving V P → Bool → Type 0
  Responded s b = b ≡ true → IsDeliverable s.result

  try_on_error-Responded :
      (invoc : VmodKvmInputs) (s : Serving V P)
      → Post Responded (λ _ _. Unit {0}) (try_on_error g invoc s)
  try_on_error-Responded invoc s = elim (Bool-cases (has_entry g backend_error)) [
    | inr absent ↦ rw absent (λ e. cc)
    | inl entry ↦ rw entry (
        Post-after Responded (run_on_error g invoc) (λ _. fetch g true >> give true) s
          (λ s' a.
            Post-bind (λ t _. IsDeliverable t.result) Responded (λ _ _. Unit {0}) (fetch g true)
              (λ _. give true) s' (fetch-Delivered true s') (λ s'' b h e. h)))
  ]

  call_on_error-Responded :
      (remote_debug : Bool) (invoc : VmodKvmInputs) (s : Serving V P)
      → Post Responded (λ _ _. Unit {0}) (call_on_error g remote_debug invoc s)
  unfolding call_on_error
  call_on_error-Responded remote_debug invoc s =
      Post-after Responded (open_remote g remote_debug) (λ _. try_on_error g invoc) s
        (λ s' a. try_on_error-Responded invoc s')

  internal_error-IsDeliverable : IsDeliverable (internal_error g)
  internal_error-IsDeliverable = ((omega arith, omega arith, omega arith), λ e. cc)

  unless_handled-IsDeliverable :
      (r : Serving V P × Outcome Bool)
      → Post Responded (λ _ _. Unit {0}) r
      → IsDeliverable (unless_handled g r).result
  unfolding give_up
  unless_handled-IsDeliverable (s, done true) h = h refl
  unless_handled-IsDeliverable (s, done false) h = internal_error-IsDeliverable
  unless_handled-IsDeliverable (s, threw e) h = internal_error-IsDeliverable

  handled-IsDeliverable :
      (remote_debug : Bool) (invoc : VmodKvmInputs) (r : Serving V P × Outcome (Unit {0}))
      → Delivered r
      → IsDeliverable (handled g remote_debug invoc r).result
  unfolding error_handling
  handled-IsDeliverable remote_debug invoc (s, done u) h = h
  handled-IsDeliverable remote_debug invoc (s, threw e) h =
      unless_handled-IsDeliverable _ (call_on_error-Responded remote_debug invoc _)

module _ {V P F : Type 0} (g : Guest V P) (laws : GuestLaws g) (group : TenantGroup F) (ctx : ℕ)
    (invoc : VmodKvmInputs) (headers : List Str) (post : Option BackendPost) (s : Serving V P) where
  -- Whatever the guest does, the result of a request has a status from 200 to 599 and a content
  -- type that is shorter than 4096 bytes; and where Varnish takes it for a streamed response, its
  -- callback is set, as `kvm_backend_streaming_delivery` asserts.
  pub kvm_backend_call-IsDeliverable :
      IsDeliverable (kvm_backend_call g group ctx invoc headers post s).result
  unfolding kvm_backend_call
  kvm_backend_call-IsDeliverable =
      handled-IsDeliverable g laws group.remote_debug_on_exception invoc _ (
        serve_request-Delivered g laws invoc headers post group.ephemeral
          (record s { mi = set_ctx (some ctx) s.mi }))
