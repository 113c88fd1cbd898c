-- ===== src/Timer/Laws.antt =====
-- What a caller of lib/libkvm/utils/cpptime.hpp relies on.
use libvmod_tinykvm.Common.{
  count, ℕ, ◌+◌, ◌≤◌, ◌≡◌, none, some, List, [], ◌∷◌, length, get_elem?, leb, refl, arith,
  Bool-cases, inl, inr, ap, subst_some, get_elem?-append_last, get_elem?-set_self,
}
use libvmod_tinykvm.Timer.{
  TimeEvent, TimerSystem, Op, new, make_event, add, add_with, fire, fire_first, run,
}
use libvmod_tinykvm.Timer.Places.{count_refs, count_running, count_refs-insert, IsArmed}
use libvmod_tinykvm.Timer.Order.{IsSorted, run-new-IsSorted}
use libvmod_tinykvm.Timer.Invariant.{Inv, placed-lt, run-new-Inv}

abbrev pub NoneEarlier : ℕ → List TimeEvent → Type 0
NoneEarlier t [] = Unit
NoneEarlier t (x ∷ xs) = (t ≤ x.next) × NoneEarlier t xs

sorted-NoneEarlier : (t lo : ℕ) (xs : List TimeEvent) → t ≤ lo → IsSorted lo xs → NoneEarlier t xs
sorted-NoneEarlier t lo [] h s = tt
sorted-NoneEarlier t lo (x ∷ xs) h s =
    (omega arith, sorted-NoneEarlier t x.next xs (omega arith) s.1)

module _ {H : Type 0} where
  fire_first-due :
      (now : ℕ) (tes : List TimeEvent) (s : TimerSystem H) (te : TimeEvent)
      → Inv s
      → s.running ≡ none
      → s.time_events ≡ tes
      → IsSorted 0 tes
      → (fire_first now tes s).running ≡ some te
      → (te.next ≤ now) × NoneEarlier te.next s.time_events × IsArmed (get_elem? s.events te.ref)
  fire_first-due now [] s te v r f o h = cc
  fire_first-due now (x ∷ rest) s te v r f o h = elim (Bool-cases (leb x.next now)) [
    | inr early ↦ cc (rw early at h)
    | inl due ↦
        subst_some
          (λ (y : TimeEvent).
            (y.next ≤ now) × NoneEarlier y.next s.time_events × IsArmed (get_elem? s.events y.ref))
          (rw due at h)
          (
            ground arith,
            rw f (omega arith, sorted-NoneEarlier x.next x.next rest (omega arith) o.1),
            v.armed x.ref (rw f (ground arith)),
          )
  ]

  -- When the worker, in any history, takes an event to call its handler, the event is due, no
  -- waiting event is earlier, and the timer is valid and has its handler.
  pub fire_due :
      (os : List (Op H)) (now : ℕ) (te : TimeEvent)
      → let s = run new os in
        s.running ≡ none
        → (fire s now).running ≡ some te
        → (te.next ≤ now) × NoneEarlier te.next s.time_events × IsArmed (get_elem? s.events te.ref)
  unfolding fire
  fire_due os now te idle h =
      fire_first-due now (run new os).time_events (run new os) te (run-new-Inv os) idle refl
        (run-new-IsSorted os) (rw (idle, fire) at h)

  add_with-fresh :
      (free : List ℕ) (s : TimerSystem H) (when period : ℕ) (h : H)
      → s.free_ids ≡ free
      → Inv s
      → let (s', id) = add_with free s when h period in
        (count_refs id s.time_events + count_running id s.running ≡ 0)
        × (count_refs id s'.time_events ≡ 1)
        × (get_elem? s'.events id ≡ some (make_event id when period h))
  add_with-fresh [] s when period h e v = (
    ground (arith, v.placed (length s.events)),
    ground (
      arith,
      v.placed (length s.events),
      count_refs-insert (length s.events) (record { next = when; ref = length s.events })
          s.time_events,
    ),
    get_elem?-append_last s.events (make_event (length s.events) when period h),
  )
  add_with-fresh (id ∷ free) s when period h e v = (
    ground (arith, v.placed id, ap (count id) e),
    ground (
      arith,
      v.placed id,
      ap (count id) e,
      count_refs-insert id (record { next = when; ref = id }) s.time_events,
    ),
    get_elem?-set_self s.events id (make_event id when period h)
        (placed-lt s id v (rw e (ground arith))),
  )

  -- In any history, a new timer gets an id that neither waits nor runs; then the id waits once,
  -- and the table has the new event at it.
  pub add_fresh :
      (os : List (Op H)) (when period : ℕ) (h : H)
      → let s = run new os in
        let (s', id) = add s when h period in
        (count_refs id s.time_events + count_running id s.running ≡ 0)
        × (count_refs id s'.time_events ≡ 1)
        × (get_elem? s'.events id ≡ some (make_event id when period h))
  unfolding add
  add_fresh os when period h =
      add_with-fresh (run new os).free_ids (run new os) when period h refl (run-new-Inv os)
