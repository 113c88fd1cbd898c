-- ===== src/Api/Tests.antt =====
-- System calls of lib/libkvm/system_calls_api.cpp at concrete inputs.
use libvmod_tinykvm.Common.{
  ℕ, ◌≡◌, arith, true, false, none, some, List, [], ◌∷◌, replicate, minus_one,
}
use libvmod_tinykvm.Timer.{Event}
use libvmod_tinykvm.Machine.Tests.{machine, no_regex}
use libvmod_tinykvm.Api.{Api, Cpu, Task, add_timer}
use libvmod_tinykvm.Api.Tasks.{stop_all, add_timer_exhausted}

abbrev cpu : Cpu ℕ
cpu = record {
  kernel_end_address = λ v. 0x200000;
  max_address = λ v. 0x40000000;
  buffer_to_string = λ v a n limit. some (replicate n 0);
  smp_active = λ v. false;
  smpcall = λ c r n v. (v, true);
  smp_wait = λ v. (v, true);
  banked_memory_capacity_bytes = λ v. 4096;
  banked_memory_bytes = λ v. 0;
  copy_to_guest = λ a bytes v. (v, true);
}

-- A program that used one place for a timer.
abbrev used : Event Task
used = record { id = 0; start = 0; period = 0; handler = none; valid = false }

abbrev api : List (Event Task) → List ℕ → Api ℕ ℕ
api events free = record {
  mi = machine false no_regex;
  entry_address = replicate 13 0;
  allow_list = 0x300000 ∷ [];
  has_storage = true;
  timer_system = record { events = events; time_events = []; free_ids = free; running = none };
  async_tasks = [];
  rax = 0;
  regs = record { rdi = 0x300000; rsi = 0x5000; rdx = 4; rcx = 100; r8 = 0; r9 = 0 };
  stopped = false;
}

add_timer_exhausted_example :
    let after : Api ℕ ℕ = stop_all (0 ∷ 1 ∷ []) (api (replicate 15 used) []) in
    ((add_timer (λ d. d) (0x300000, []) after).0.rax ≡ minus_one)
    × ((add_timer (λ d. d) (0x300000, []) after).0.timer_system ≡ after.timer_system)
add_timer_exhausted_example =
    add_timer_exhausted (0 ∷ 1 ∷ []) (λ d. d) (0x300000, []) (api (replicate 15 used) [])
      (omega arith)
