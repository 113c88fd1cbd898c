-- ===== src/Program/Storage/Access.antt =====
-- What a call into the storage machine may write in its caller (lib/libkvm/program_instance.cpp).
use libvmod_tinykvm.Common.{
  ℕ, ◌+◌, ◌^◌, ◌≤◌, ◌<◌, ◌≡◌, ◌⊎◌, inl, inr, refl, Bool, true, false, not, ◌&&◌, ◌||◌, Option, none,
  some, List, arith, u64, minus_one, ltb, ◌==◌, if◌then◌else◌, Bool-cases,
}
use libvmod_tinykvm.Program.Storage.{
  VirtBuffer, Frame, StorageRun, Called, failed, answer, run_storage, storage_call, is_allowed,
  make_frame, Registers, Transfer, restore, live_update_call,
}

-- Nothing is written but a part of the result buffer.
abbrev pub Within : ℕ → ℕ → Option VirtBuffer → Type 0
Within res_addr res_size none = Unit
Within res_addr res_size (some w) = (w.addr ≡ res_addr) × (w.len ≤ res_size)

-- A result for a caller with a buffer is a failure or fits the buffer.
abbrev pub Fits : ℕ → ℕ → Option ℕ → Type 0
Fits res_addr res_size none = Unit
Fits res_addr res_size (some n) = (res_addr ≡ 0) ⊎ ((n ≡ minus_one) ⊎ (n ≤ res_size))

abbrev pub IsBounded : ℕ → ℕ → Called → Type 0
IsBounded res_addr res_size c = Within res_addr res_size c.written × Fits res_addr res_size c.result

IsBounded-if :
    (res_addr res_size : ℕ) (b : Bool) (c d : Called)
    → IsBounded res_addr res_size c
    → IsBounded res_addr res_size d
    → IsBounded res_addr res_size (if b then c else d)
IsBounded-if res_addr res_size true c d x y = x
IsBounded-if res_addr res_size false c d x y = y

capped : (rsi res_size : ℕ) → (if ltb rsi res_size then rsi else res_size) ≤ res_size
capped rsi res_size = ground arith

retval-Fits :
    (res_addr res_size rsi : ℕ)
    → Fits res_addr res_size
        (some (if not (res_addr == 0) then (if ltb rsi res_size then rsi else res_size) else rsi))
retval-Fits res_addr res_size rsi = elim (Bool-cases (res_addr == 0)) [
  | inl e ↦ inl (ground arith)
  | inr e ↦ rw e (inr (inr (capped rsi res_size)))
]

answer-IsBounded :
    (r : StorageRun) (res_addr res_size : ℕ)
    → IsBounded res_addr res_size (answer r res_addr res_size)
unfolding answer
answer-IsBounded r res_addr res_size =
    let fits = retval-Fits res_addr res_size r.rsi in
    let part : Within res_addr res_size
        (some (record { addr = res_addr; len = if ltb r.rsi res_size then r.rsi else res_size })) =
      (refl, capped r.rsi res_size) in
    IsBounded-if res_addr res_size (not (res_addr == 0) && not (r.rdi == 0)) _ _
      (IsBounded-if res_addr res_size r.copied _ _
        (IsBounded-if res_addr res_size ((r.response == 2) && not r.cleaned) _ _
          (part, inr (inl refl)) (part, fits))
        (part, inr (inl refl)))
      (IsBounded-if res_addr res_size ((r.response == 2) && not r.cleaned) _ _ (tt, inr (inl refl))
        (tt, fits))

run_storage-IsBounded :
    (r : StorageRun) (res_addr res_size : ℕ)
    → IsBounded res_addr res_size (run_storage r res_addr res_size)
unfolding run_storage
run_storage-IsBounded r res_addr res_size =
    IsBounded-if res_addr res_size (not r.prepared) (record { result = none; written = none }) _
      (tt, tt)
      (IsBounded-if res_addr res_size (not r.ran) (failed none) _ (tt, inr (inl refl))
        (IsBounded-if res_addr res_size
          (not r.stopped || not ((r.response == 2) || (r.response == 3))) (failed none)
          (answer r res_addr res_size) (tt, inr (inl refl)) (answer-IsBounded r res_addr res_size)))

-- Whatever the storage program does, a call writes at most the caller's result buffer, from its
-- start, and the result that a caller with a buffer gets is -1 or at most the buffer's size.
pub storage_call-IsBounded :
    (allow_list : List ℕ) (top : ℕ) (run : ℕ → Frame → StorageRun) (func : ℕ)
    (buffers : List VirtBuffer) (res_addr res_size : ℕ)
    → IsBounded res_addr res_size (storage_call allow_list top run func buffers res_addr res_size)
unfolding storage_call
storage_call-IsBounded allow_list top run func buffers res_addr res_size =
    IsBounded-if res_addr res_size (ltb (u64 (res_addr + res_size)) res_addr) (failed none) _
      (tt, inr (inl refl))
      (IsBounded-if res_addr res_size (not (is_allowed allow_list func))
        (record { result = none; written = none })
        (run_storage (run func (make_frame top buffers)) res_addr res_size) (tt, tt)
        (run_storage-IsBounded (run func (make_frame top buffers)) res_addr res_size))

-- A transfer from inside the old program's data.
abbrev pub IsInside : Registers → Option Transfer → Type 0
IsInside state none = Unit
IsInside state (some t) =
    (t.from ≡ state.rdi) × (t.size ≤ state.rsi) × (state.rdi + state.rsi < 2 ^ 64)

restore-IsInside :
    (moved : Bool) (state : Registers) (o : Option Registers)
    → state.rdi + state.rsi < 2 ^ 64
    → IsInside state (restore moved state o).1
restore-IsInside moved state none h = tt
restore-IsInside moved state (some regs) h = elim (Bool-cases (not (regs.rdi == 0))) [
  | inl e ↦ rw e (refl, omega arith, h)
  | inr e ↦ rw e tt
]

-- Whatever the new program asks for, a live update copies from the start of the old program's data
-- and not past its end, and that data does not wrap around.
pub live_update_call-IsInside :
    (state : Registers) (deserialize : ℕ → Option Registers) (moved : Bool)
    → state.rdi < 2 ^ 64
    → state.rsi < 2 ^ 64
    → IsInside state (live_update_call (some state) deserialize moved).1
unfolding live_update_call
live_update_call-IsInside state deserialize moved h k =
    elim (Bool-cases (ltb (u64 (state.rdi + state.rsi)) state.rdi)) [
      | inl e ↦ rw e tt
      | inr e ↦
          let whole : state.rdi + state.rsi < 2 ^ 64 = ground (arith, e, h, k) in
          rw e (elim (Bool-cases (state.rdi == 0)) [
            | inl z ↦ rw z tt
            | inr z ↦ rw z (restore-IsInside moved state (deserialize state.rsi) whole)
          ])
    ]
