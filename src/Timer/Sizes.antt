-- ===== src/Timer/Sizes.antt =====
-- How many places for timers the operations of lib/libkvm/utils/cpptime.hpp use.
use libvmod_tinykvm.Common.{
  ℕ, zero, suc, ◌+◌, ◌≡◌, ◌≤◌, inl, inr, refl, ap, arith, ◌||◌, none, some, Option, List, [], ◌∷◌,
  length, length-set, length-append, ◌==◌, leb, Bool-cases, ◌∙◌,
}
use libvmod_tinykvm.Timer.{
  TimerSystem, TimeEvent, Event, add, add_with, remove, disarm, unschedule, take_ref, make_event,
}

module _ {H : Type 0} where
  length-add_with :
      (free : List ℕ) (t : TimerSystem H) (when : ℕ) (handler : H) (period : ℕ)
      → length (add_with free t when handler period).0.events ≤ length t.events + 1
  length-add_with [] t when handler period =
      omega (arith, length-append t.events (make_event (length t.events) when period handler ∷ []))
  length-add_with (id ∷ free) t when handler period =
      omega (arith, length-set t.events id (make_event id when period handler))

  pub length-add :
      (t : TimerSystem H) (when : ℕ) (handler : H) (period : ℕ)
      → length (add t when handler period).0.events ≤ length t.events + 1
  unfolding add
  length-add t when handler period = length-add_with t.free_ids t when handler period

  length-disarm : (es : List (Event H)) (id : ℕ) → length (disarm es id) ≡ length es
  length-disarm [] id = refl
  length-disarm (e ∷ es) zero = refl
  length-disarm (e ∷ es) (suc id) = ap suc (length-disarm es id)

  length-unschedule :
      (t : TimerSystem H) (id : ℕ) (o : Option (List TimeEvent))
      → length (unschedule t id o).events ≡ length t.events
  length-unschedule t id none = refl
  length-unschedule t id (some rest) = refl

  pub length-remove : (t : TimerSystem H) (id : ℕ) → length (remove t id).0.events ≡ length t.events
  unfolding remove
  length-remove t id = elim (Bool-cases ((length t.events == 0) || leb (length t.events) id)) [
    | inl absent ↦ rw absent
    | inr present ↦ rw present (
        length-unschedule (record t { events = disarm t.events id }) id (take_ref id t.time_events)
        ∙ length-disarm t.events id)
  ]
