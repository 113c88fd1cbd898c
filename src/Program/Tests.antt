-- ===== src/Program/Tests.antt =====
-- Runs of the pool and the storage calls of lib/libkvm/program_instance.cpp at concrete inputs.
use libvmod_tinykvm.Common.{
  ℕ, ◌+◌, ◌%◌, ◌≤◌, ◌≡◌, refl, arith, ap, Bool, true, false, Option, none, some, some-inj, List, [],
  ◌∷◌, count,
}
use libvmod_tinykvm.Program.Pool
use libvmod_tinykvm.Program.Pool.{
  ConcurrentQueue, Pool, Call, reserves, frees, resets, slot, queue_timeout, reserve_vm,
  started_from, start, run,
}
use libvmod_tinykvm.Program.Pool.Invariant.{Inv}
use libvmod_tinykvm.Program.Pool.Laws.{
  IsReserved, run_start-Inv, reserve_vm-IsReserved, reserve_other_node,
}
use libvmod_tinykvm.Machine.Tests.{kvm, group, machine, no_regex}
use libvmod_tinykvm.Program.Storage.{
  VirtBuffer, Frame, StorageRun, storage_call, make_frame, Registers, live_update_call,
}
use libvmod_tinykvm.Program.Storage.Layout.{Stacked, make_frame_lem}
use libvmod_tinykvm.Program.Storage.Access.{
  IsBounded, IsInside, storage_call-IsBounded, live_update_call-IsInside,
}

-- The queue as a list, its oldest item first.
abbrev enqueued : List ℕ → ℕ → List ℕ
enqueued [] a = a ∷ []
enqueued (b ∷ q) a = b ∷ enqueued q a

abbrev first_of : List ℕ → Option (ℕ × List ℕ)
first_of [] = none
first_of (a ∷ q) = some (a, q)

pub count-enqueued : (q : List ℕ) (a i : ℕ) → count i (enqueued q a) ≡ count i (a ∷ q)
count-enqueued [] a i = refl
count-enqueued (b ∷ q) a i = ground (arith, count-enqueued q a i)

pub first_of-count :
    (q : List ℕ) (a : ℕ) (r : List ℕ)
    → first_of q ≡ some (a, r)
    → (i : ℕ) → count i q ≡ count i (a ∷ r)
first_of-count [] a r e i = ground arith
first_of-count (b ∷ q) a r e i =
    ap (λ (p : ℕ × List ℕ). count i (p.0 ∷ p.1)) (some-inj (b, q) (a, r) e)

pub first_of-none : (q : List ℕ) → first_of q ≡ none → q ≡ []
first_of-none [] e = refl
first_of-none (b ∷ q) e = ground arith

abbrev pub queue : ConcurrentQueue
queue = record {
  enqueue = enqueued;
  wait_dequeue_timed = first_of;
  enqueue_count = count-enqueued;
  dequeue_count = first_of-count;
  dequeue_none = first_of-none;
}

-- Three machines, of which the second did not come up.
abbrev pub oks : List Bool
oks = true ∷ false ∷ true ∷ []

abbrev calls : List (Call ℕ ℕ)
calls = reserves 0 9 false ∷ reserves 0 8 true ∷ frees 0 0 ∷ resets 0 0 ∷ []

run_start-Inv_example :
    Inv
      (started_from 0 oks)
      []
      (Pool.run queue kvm group 0 (start kvm group (machine true no_regex) oks) calls)
run_start-Inv_example =
    run_start-Inv queue kvm group 0 (machine true no_regex) oks calls
      (tt, (tt, (omega arith, (omega arith, tt))))

reserve_vm-IsReserved_example :
    let p = Pool.run queue kvm group 0 (start kvm group (machine true no_regex) oks) [] in
    IsReserved p (reserve_vm queue p 0 9 false).0 0 9 false
unfolding reserve_vm Pool.run start
reserve_vm-IsReserved_example =
    reserve_vm-IsReserved queue kvm group 0 (machine true no_regex) oks [] 0 9 0 false tt refl

reserve_other_node_example :
    (reserve_vm queue (start kvm group (machine true no_regex) oks) 1 9 false).1 ≡ queue_timeout
reserve_other_node_example =
    reserve_other_node queue kvm group 0 (machine true no_regex) oks 1 9 false (omega arith)
      (omega arith)

abbrev buffers : List VirtBuffer
buffers = record { addr = 100; len = 13 } ∷ record { addr = 300; len = 8 } ∷ []

make_frame_lem_example :
    Stacked 65536 (make_frame 65536 buffers).buffers ((make_frame 65536 buffers).array + 32)
    × ((make_frame 65536 buffers).stack ≤ (make_frame 65536 buffers).array)
    × ((make_frame 65536 buffers).stack % 16 ≡ 0)
    × (65536 ≤ (make_frame 65536 buffers).stack + 35 + 32 + 15)
make_frame_lem_example = make_frame_lem 65536 buffers (omega arith) (omega arith)

abbrev long_answer : ℕ → Frame → StorageRun
long_answer func frame = record {
  prepared = true;
  ran = true;
  stopped = true;
  response = 2;
  rdi = 4096;
  rsi = 5000;
  copied = true;
  cleaned = true;
}

storage_call-IsBounded_example :
    IsBounded 8192 100 (storage_call (77 ∷ []) 65536 long_answer 77 buffers 8192 100)
storage_call-IsBounded_example =
    storage_call-IsBounded (77 ∷ []) 65536 long_answer 77 buffers 8192 100

abbrev asks_more : ℕ → Option Registers
asks_more n = some (record { rdi = 4096; rsi = n + 100 })

live_update_call-IsInside_example :
    IsInside
      (record { rdi = 1000; rsi = 50 })
      (live_update_call (some (record { rdi = 1000; rsi = 50 })) asks_more true).1
live_update_call-IsInside_example =
    live_update_call-IsInside (record { rdi = 1000; rsi = 50 }) asks_more true (omega arith)
      (omega arith)
