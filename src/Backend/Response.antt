-- ===== src/Backend/Response.antt =====
-- What a result is that `fetch_result` of lib/libkvm/backend.cpp has accepted.
use libvmod_tinykvm.Common.{
  ℕ, zero, suc, ◌+◌, ◌<◌, ◌≤◌, ◌≡◌, ◌≢◌, inl, inr, refl, arith, Bool, true, false, not, ◌&&◌, ◌||◌,
  Option, none, some, Str, ltb, leb, ◌==◌, if◌then◌else◌, u16, u64, Bool-cases, Option-cases, ap,
  subst,
}
use libvmod_tinykvm.Machine.{MachineInstance}
use libvmod_tinykvm.Machine.Stats.{MachineStats}
use libvmod_tinykvm.Backend.{Regs, BackendResult, Serving}
use libvmod_tinykvm.Common.Act.{
  Fault, memory, Outcome, ◌>>◌, give, Post, Post-bind, Post-Still, Still, Still-throw_unless,
  Still-answered,
}
use libvmod_tinykvm.Backend.Result.{
  Answers, Gathers, count_status, change_stats, sanitize_status_code, fetch_regular,
  fetch_streaming, fetch_headers, fetch_extra, fetch_response, fetch_result,
}

-- How the rest of the backend tells the two kinds of results apart (kvm_backend.h).
abbrev pub is_streamed : BackendResult → Bool
is_streamed r = ltb 0 r.content_length && (r.bufcount == 0)

abbrev pub HasStatus : BackendResult → Type 0
HasStatus r = (200 ≤ r.status) × (r.status < 600) × (r.tsize < 0x1000)

-- The callback of a streamed response is set: `kvm_backend_streaming_delivery` asserts it.
abbrev pub HasCallback : Option (ℕ × ℕ) → Type 0
HasCallback none = ⊥
HasCallback (some (callback, argument)) = callback ≢ 0

-- A result that the delivery can work on.
abbrev pub IsDeliverable : BackendResult → Type 0
IsDeliverable r = HasStatus r × (is_streamed r ≡ true → HasCallback r.stream)

module _ {V P : Type 0} where
  -- The machine is what it was, but for its counters.
  abbrev pub SameMachine : MachineInstance V P → Serving V P → Type 0
  SameMachine m s = s.mi ≡ record m { stats = s.mi.stats }

  abbrev pub Accepted : MachineInstance V P → Bool → Serving V P → Unit {0} → Type 0
  Accepted m streamed s u =
      SameMachine m s × IsDeliverable s.result × (is_streamed s.result ≡ streamed)

  abbrev pub Refused : MachineInstance V P → Serving V P → Fault → Type 0
  Refused m s e = SameMachine m s

  abbrev pub Fetched : MachineInstance V P → Bool → Serving V P × Outcome (Unit {0}) → Type 0
  Fetched m streamed = Post (Accepted m streamed) (Refused m)

  module _ (m : MachineInstance V P) (a : Answers) (g : Gathers a) (regs : Regs) where
    fetch_regular-Fetched :
        (type_ : Str) (room : ℕ) (s : Serving V P)
        → SameMachine m s
        → u16 regs.rdx < 0x1000
        → Fetched m false (fetch_regular a regs type_ room s)
    unfolding fetch_regular sanitize_status_code
    fetch_regular-Fetched type_ room s same small =
        elim (Bool-cases (leb 200 (u16 regs.rdi) && ltb (u16 regs.rdi) 600)) [
          | inr bad ↦ rw bad same
          | inl ok ↦ rw ok (elim (Option-cases (a.gathered room regs.rcx regs.r8)) [
            | inl e ↦ rw e same
            | inr (n, e) ↦
                let plain : is_streamed
                      (record (s.result) { content_length = regs.r8; bufcount = n })
                    ≡ false =
                  ground (arith, g.some_buffers room regs.rcx regs.r8 n e) in
                rw e (
                  same,
                  (
                    (ground (arith, ok), ground (arith, ok), small),
                    λ streamed. cc (plain, streamed),
                  ),
                  plain,
                )
          ])
        ]

    fetch_streaming-Fetched :
        (type_ : Str) (s : Serving V P)
        → SameMachine m s
        → u16 regs.rdx < 0x1000
        → Fetched m true (fetch_streaming regs type_ s)
    unfolding fetch_streaming sanitize_status_code
    fetch_streaming-Fetched type_ s same small = elim (Bool-cases (regs.rcx == 0)) [
      | inl empty ↦ rw empty same
      | inr some_bytes ↦ rw some_bytes (elim (Bool-cases (regs.r8 == 0)) [
        | inl no_callback ↦ rw no_callback same
        | inr callback ↦
            rw callback (elim (Bool-cases (leb 200 (u16 regs.rdi) && ltb (u16 regs.rdi) 600)) [
              | inr bad ↦ rw bad same
              | inl ok ↦ rw ok (
                same,
                (
                  (ground (arith, ok), ground (arith, ok), small),
                  λ streamed zero_callback. ground (arith, callback),
                ),
                ground arith,
              )
            ])
      ])
    ]

  change_stats-Same :
      (m : MachineInstance V P) (f : MachineStats → MachineStats) (s : Serving V P)
      → SameMachine m s
      → SameMachine m (change_stats f s).0
  change_stats-Same m f s same =
      ap (λ (k : MachineInstance V P). record k { stats = f s.mi.stats }) same

  abbrev count_output : Serving V P → MachineStats → MachineStats
  count_output r st = record st { output_bytes = u64 (st.output_bytes + r.result.content_length) }

  fetch_headers-Still : (a : Answers) (i n : ℕ) (s : Serving V P) → Still s (fetch_headers a i n s)
  fetch_headers-Still a i zero s = refl
  fetch_headers-Still a i (suc n) s =
      Still-answered (memory false) (a.header i) _ s (λ u. fetch_headers-Still a (suc i) n s)

  fetch_extra-Still : (a : Answers) (regs : Regs) (s : Serving V P) → Still s (fetch_extra a regs s)
  unfolding fetch_extra
  fetch_extra-Still a regs s = elim (Bool-cases (regs.r9 == 0)) [
    | inl absent ↦ rw absent
    | inr present ↦
        rw present (search (Still-throw_unless, Still-answered, fetch_headers-Still) depth 12)
  ]

  module _ (m : MachineInstance V P) (a : Answers) (g : Gathers a) (regs : Regs) where
    fetch_response-Fetched :
        (regular : Bool) (type_ : Str) (s : Serving V P)
        → SameMachine m s
        → u16 regs.rdx < 0x1000
        → Fetched m (not regular) (fetch_response a regs regular type_ s)
    unfolding fetch_response
    fetch_response-Fetched true type_ s same small =
        Post-bind (Accepted m false) (Accepted m false) (Refused m)
          (fetch_regular a regs type_ s.result.bufcount) _ s
          (fetch_regular-Fetched m a g regs type_ s.result.bufcount s same small)
          (λ s' u h. (change_stats-Same m (count_output s') s' h.0, h.1, h.2))
    fetch_response-Fetched false type_ s same small =
        Post-bind (Accepted m true) (Accepted m true) (Refused m) (fetch_streaming regs type_) _ s
          (fetch_streaming-Fetched m a g regs type_ s same small)
          (λ s' u h. (change_stats-Same m (count_output s') s' h.0, h.1, h.2))

    fetch_tail-Fetched :
        (regular : Bool) (type_ : Str) (s : Serving V P)
        → SameMachine m s
        → u16 regs.rdx < 0x1000
        → Fetched m (not regular) (
            (fetch_response a regs regular type_
                >> (if regular then fetch_extra a regs else give tt))
              s)
    fetch_tail-Fetched true type_ s same small =
        Post-bind (Accepted m false) (Accepted m false) (Refused m)
          (fetch_response a regs true type_) _ s (fetch_response-Fetched true type_ s same small)
          (λ s' u h.
            Post-Still (Accepted m false) (Refused m) s' (fetch_extra a regs s')
              (fetch_extra-Still a regs s') (λ v. h) (λ e. h.0))
    fetch_tail-Fetched false type_ s same small =
        Post-bind (Accepted m true) (Accepted m true) (Refused m)
          (fetch_response a regs false type_) _ s (fetch_response-Fetched false type_ s same small)
          (λ s' u h. h)

    fetch_result-Fetched :
        (s : Serving V P)
        → SameMachine m s
        → Fetched m (not (s.mi.response_called == 1)) (fetch_result a regs s)
    unfolding fetch_result
    fetch_result-Fetched s same =
        elim (Bool-cases ((s.mi.response_called == 1) || (s.mi.response_called == 10))) [
          | inr unset ↦ rw unset same
          | inl set ↦ rw set (elim (Bool-cases (ltb (u16 regs.rdx) 0x1000)) [
            | inr long ↦ rw long (change_stats-Same m (count_status (u16 regs.rdi)) s same)
            | inl small ↦ rw small (elim (Bool-cases a.type_room) [
              | inr full ↦ simp full (change_stats-Same m (count_status (u16 regs.rdi)) s same)
              | inl room ↦ simp room (elim (Option-cases a.type_text) [
                | inl unread ↦
                    simp unread (change_stats-Same m (count_status (u16 regs.rdi)) s same)
                | inr (text, e) ↦ simp e (
                    fetch_tail-Fetched (s.mi.response_called == 1) text _
                      (change_stats-Same m (count_status (u16 regs.rdi)) s same) (ground arith))
              ])
            ])
          ])
        ]

    pub fetch_result_lem :
        (s : Serving V P)
        → SameMachine m s
        → Fetched m (not (m.response_called == 1)) (fetch_result a regs s)
    fetch_result_lem s same =
        subst (λ k. Fetched m (not (k == 1)) (fetch_result a regs s))
          (ap (λ (k : MachineInstance V P). k.response_called) same) (fetch_result-Fetched s same)
