-- ===== src/Backend/Delivery.antt =====
-- `kvm_backend_streaming_delivery` of lib/libkvm/backend.cpp: Varnish asks the guest for the next
-- part of a streamed response.
use libvmod_tinykvm.Common.{
  ℕ, ◌≤◌, ◌≡◌, inl, inr, arith, false, Option, none, some, List, length, min, Option-cases,
  some-inj, ap,
}
use libvmod_tinykvm.Machine.{MachineInstance, set_ctx}
use libvmod_tinykvm.Backend.{Regs, BackendResult}
use libvmod_tinykvm.Backend.Serve.{count_fault}
use libvmod_tinykvm.Common.Act.{
  memory, Outcome, done, threw, Act, then_do, ◌>>=◌, ◌>>◌, state, answered,
}

-- What the code uses of the guest. `run_callback` calls the callback with its argument, `max_len`,
-- the number of bytes written and the length of the content.
pub record Sender (V P : Type 0) : Type 0 where
  pub run_callback :
      ℕ → ℕ → ℕ → ℕ → ℕ → MachineInstance V P → MachineInstance V P × Outcome (Unit {0})
  pub registers : V → Regs
  pub copy_from_guest : V → ℕ → ℕ → Option (List ℕ)

-- A copy has the length that was asked for.
pub record SenderLaws {V P : Type 0} (g : Sender V P) : Type 0 where
  pub copied_length :
      (v : V) (a n : ℕ) (bytes : List ℕ) → g.copy_from_guest v a n ≡ some bytes → length bytes ≡ n

module _ {V P : Type 0} (g : Sender V P) where
  abbrev pub call_back : ℕ → ℕ → BackendResult → ℕ → ℕ → Act (MachineInstance V P) (Unit {0})
  call_back callback argument result max_len written =
      g.run_callback callback argument max_len written result.content_length

  unfoldable pub deliver : ℕ → ℕ → BackendResult → ℕ → ℕ → Act (MachineInstance V P) (List ℕ)
  deliver callback argument result max_len written = do
    call_back callback argument result max_len written
    m ← state
    answered (memory false) (
        g.copy_from_guest m.machine (g.registers m.machine).rdi
          (min max_len (g.registers m.machine).rdx))

  abbrev pub delivered :
      MachineInstance V P × Outcome (List ℕ) → MachineInstance V P × Option (List ℕ)
  delivered (m, done bytes) = (m, some bytes)
  delivered (m, threw e) = (record m { stats = count_fault e m.stats }, none)

  -- The bytes that were put at `dst`, and `none` for -1. The callback and its argument are those
  -- of the result.
  unfoldable pub kvm_backend_streaming_delivery :
      ℕ → ℕ → BackendResult → ℕ → ℕ → MachineInstance V P → MachineInstance V P × Option (List ℕ)
  unfolding deliver
  kvm_backend_streaming_delivery callback argument result max_len written m =
      delivered (deliver callback argument result max_len written (set_ctx none m))

  deliver-fits :
      SenderLaws g
      → (callback argument : ℕ) (result : BackendResult) (max_len written : ℕ)
        (m : MachineInstance V P) (bytes : List ℕ)
      → (delivered (deliver callback argument result max_len written m)).1 ≡ some bytes
      → length bytes ≤ max_len
  unfolding deliver
  deliver-fits laws callback argument result max_len written m bytes =
      called (call_back callback argument result max_len written m)
    where
      called :
          (r : MachineInstance V P × Outcome (Unit {0}))
          → (delivered (
              then_do r (λ _. state >>= λ m. answered (memory false) (
                g.copy_from_guest m.machine
                  (g.registers m.machine).rdi
                  (min max_len (g.registers m.machine).rdx))))).1
            ≡ some bytes
          → length bytes ≤ max_len
      called (m', threw e) h = cc
      called (m', done u) h =
          elim (Option-cases (
            g.copy_from_guest m'.machine (g.registers m'.machine).rdi
              (min max_len (g.registers m'.machine).rdx))) [
                | inl unread ↦ cc (rw unread at h)
                | inr (copy, e) ↦
                    let same : copy ≡ bytes = some-inj copy bytes (rw e at h) in
                    omega (arith, laws.copied_length _ _ _ copy e, ap length same)
              ]

  -- What is delivered never exceeds the room that Varnish gives, however many bytes the guest
  -- claims; an exception delivers nothing.
  pub kvm_backend_streaming_delivery-fits :
      SenderLaws g
      → (callback argument : ℕ) (result : BackendResult) (max_len written : ℕ)
        (m m' : MachineInstance V P) (bytes : List ℕ)
      → kvm_backend_streaming_delivery callback argument result max_len written m ≡ (m', some bytes)
      → length bytes ≤ max_len
  unfolding kvm_backend_streaming_delivery
  kvm_backend_streaming_delivery-fits laws callback argument result max_len written m m' bytes h =
      deliver-fits laws callback argument result max_len written (set_ctx none m) bytes
        (ap (λ (r : MachineInstance V P × Option (List ℕ)). r.1) h)
