-- ===== src/Api/Tasks.antt =====
-- The timers and tasks that guests start: `syscall_storage_task` and `syscall_stop_storage_task` of
-- lib/libkvm/system_calls_api.cpp; and the entries that they register.
use libvmod_tinykvm.Common.{
  ℕ, ◌≡◌, ◌≤◌, refl, ◌∙◌, arith, false, List, [], ◌∷◌, length, ltb, minus_one,
}
use libvmod_tinykvm.Timer
use libvmod_tinykvm.Timer.Sizes.{length-remove}
use libvmod_tinykvm.Api.{Api, Cpu, Task, add_timer, stop_storage_task, storage_task_max_timers}

module _ {V P : Type 0} (cpu : Cpu V) where
  -- The memory that guests can make the timers and tasks of a program hold is limited.
  abbrev pub IsLimited : Api V P → Type 0
  IsLimited s =
      (length s.timer_system.events ≤ storage_task_max_timers) × (length s.async_tasks ≤ 2)

module _ {V P : Type 0} where
  -- Stopping a list of timers.
  abbrev pub stop_all : List ℕ → Api V P → Api V P
  stop_all [] s = s
  stop_all (id ∷ ids) s =
      stop_all ids (stop_storage_task (record s { regs = record (s.regs) { rdi = id } })).0

  places_kept :
      (ids : List ℕ) (s : Api V P)
      → length (stop_all ids s).timer_system.events ≡ length s.timer_system.events
  unfolding stop_storage_task
  places_kept [] s = refl
  places_kept (id ∷ ids) s =
      places_kept ids (stop_storage_task (record s { regs = record (s.regs) { rdi = id } })).0
      ∙ length-remove s.timer_system id

  -- A program that has used 15 places for timers gets -1 for every further timer, also when all
  -- its timers were stopped.
  pub add_timer_exhausted :
      (ids : List ℕ) (due : ℕ → ℕ) (task : Task) (s : Api V P)
      → 15 ≤ length s.timer_system.events
      → let after = stop_all ids s in
        ((add_timer due task after).0.rax ≡ minus_one)
        × ((add_timer due task after).0.timer_system ≡ after.timer_system)
  add_timer_exhausted ids due task s used =
      let full : ltb (Timer.racy_count (stop_all ids s).timer_system) storage_task_max_timers
          ≡ false =
        ground (arith, places_kept ids s) in
      rw full (refl, refl)
