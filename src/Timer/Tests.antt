-- ===== src/Timer/Tests.antt =====
-- Runs of the timers of lib/libkvm/utils/cpptime.hpp at concrete inputs.
use libvmod_tinykvm.Common.{ℕ, ◌≤◌, refl, List, [], ◌∷◌, get_elem?}
use libvmod_tinykvm.Timer
use libvmod_tinykvm.Timer.{
  TimeEvent, TimerSystem, Op, adds, removes, fires, finishes, new, make_event, add, fire, run,
}
use libvmod_tinykvm.Timer.Places.{IsArmed}
use libvmod_tinykvm.Timer.Invariant.{Inv, run-new-Inv}
use libvmod_tinykvm.Timer.Laws.{NoneEarlier, fire_due}

-- Two timers, the second one due first; handlers are numbers.
abbrev two_timers : List (Op ℕ)
two_timers = adds 20 1 0 ∷ adds 10 2 5 ∷ []

abbrev a_whole_run : List (Op ℕ)
a_whole_run = adds 20 1 0 ∷ adds 10 2 5 ∷ fires 12 ∷ removes 0 ∷ finishes ∷ []

run-new-Inv_example : Inv (Timer.run new a_whole_run)
run-new-Inv_example = run-new-Inv a_whole_run

fire_due_example :
    let s = Timer.run new two_timers in
    (10 ≤ 12) × NoneEarlier 10 s.time_events × IsArmed (get_elem? s.events 1)
unfolding Timer.run Timer.step Timer.new add Timer.insert fire
fire_due_example = fire_due two_timers 12 (record { next = 10; ref = 1 }) refl refl
