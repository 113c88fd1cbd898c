-- ===== src/Timer/Order.antt =====
-- The queue of lib/libkvm/utils/cpptime.hpp is in the order of the times.
use libvmod_tinykvm.Common.{
  ℕ, ◌≤◌, ◌≡◌, Option, none, some, List, [], ◌∷◌, ◌==◌, leb, arith, Option-cases, Bool-cases, inl,
  inr, get_elem?, ltb, ◌&&◌, ◌||◌, length,
}
use libvmod_tinykvm.Timer.{
  TimeEvent, TimerSystem, Op, adds, removes, fires, finishes, new, insert, take_ref, add, add_with,
  remove, fire, fire_first, finish, finish_event, finish_running, step, run, Event,
}

abbrev pub IsSorted : ℕ → List TimeEvent → Type 0
IsSorted lo [] = Unit {0}
IsSorted lo (x ∷ xs) = (lo ≤ x.next) × IsSorted x.next xs

IsSorted-weaken : (lo lo' : ℕ) (xs : List TimeEvent) → lo ≤ lo' → IsSorted lo' xs → IsSorted lo xs
IsSorted-weaken lo lo' [] h s = tt
IsSorted-weaken lo lo' (x ∷ xs) h s = (omega arith, s.1)

IsSorted-insert :
    (lo : ℕ) (te : TimeEvent) (xs : List TimeEvent)
    → lo ≤ te.next
    → IsSorted lo xs
    → IsSorted lo (insert te xs)
unfolding insert
IsSorted-insert lo te [] h s = (h, tt)
IsSorted-insert lo te (x ∷ xs) h s = ground (arith, IsSorted-insert x.next te xs)

IsSorted-take_ref :
    (lo id : ℕ) (xs ys : List TimeEvent)
    → take_ref id xs ≡ some ys
    → IsSorted lo xs
    → IsSorted lo ys
unfolding take_ref
IsSorted-take_ref lo id [] ys e s = cc
IsSorted-take_ref lo id (x ∷ xs) ys e s = elim (Option-cases (take_ref id xs)) [
  | inl f ↦ ground (arith, IsSorted-weaken lo x.next xs)
  | inr (zs, f) ↦ ground (arith, IsSorted-weaken lo x.next xs, IsSorted-take_ref x.next id xs zs f)
]

module _ {H : Type 0} where
  add-IsSorted :
      (free : List ℕ) (s : TimerSystem H) (when period : ℕ) (h : H)
      → IsSorted 0 s.time_events
      → IsSorted 0 (add_with free s when h period).0.time_events
  add-IsSorted [] s when period h v = IsSorted-insert 0 _ s.time_events (omega arith) v
  add-IsSorted (id ∷ free) s when period h v = IsSorted-insert 0 _ s.time_events (omega arith) v

  remove-IsSorted :
      (s : TimerSystem H) (id : ℕ)
      → IsSorted 0 s.time_events
      → IsSorted 0 (remove s id).0.time_events
  unfolding remove
  remove-IsSorted s id v = elim (Bool-cases ((length s.events == 0) || leb (length s.events) id)) [
    | inl out ↦ rw out v
    | inr inside ↦ elim (Option-cases (take_ref id s.time_events)) [
      | inl e ↦ rw (inside, e) v
      | inr (rest, e) ↦ rw (inside, e) (IsSorted-take_ref 0 id s.time_events rest e v)
    ]
  ]

  fire_first-IsSorted :
      (now : ℕ) (tes : List TimeEvent) (s : TimerSystem H)
      → IsSorted 0 tes
      → IsSorted 0 s.time_events
      → IsSorted 0 (fire_first now tes s).time_events
  fire_first-IsSorted now [] s t v = v
  fire_first-IsSorted now (te ∷ rest) s t v = elim (Bool-cases (leb te.next now)) [
    | inl due ↦ rw due (IsSorted-weaken 0 te.next rest (omega arith) t.1)
    | inr early ↦ rw early v
  ]

  fire-IsSorted :
      (s : TimerSystem H) (now : ℕ) → IsSorted 0 s.time_events → IsSorted 0 (fire s now).time_events
  unfolding fire
  fire-IsSorted s now v = elim (Option-cases s.running) [
    | inl e ↦ rw (e, fire) (fire_first-IsSorted now s.time_events s v v)
    | inr (te, e) ↦ rw (e, fire) v
  ]

  finish_event-IsSorted :
      (te : TimeEvent) (e : Option (Event H)) (s : TimerSystem H)
      → IsSorted 0 s.time_events
      → IsSorted 0 (finish_event te e s).time_events
  finish_event-IsSorted te none s v = v
  finish_event-IsSorted te (some e) s v = elim (Bool-cases (e.valid && ltb 0 e.period)) [
    | inl again ↦ rw again (IsSorted-insert 0 _ s.time_events (omega arith) v)
    | inr over ↦ rw over v
  ]

  finish-IsSorted :
      (r : Option TimeEvent) (s : TimerSystem H)
      → IsSorted 0 s.time_events
      → IsSorted 0 (finish_running r s).time_events
  finish-IsSorted none s v = v
  finish-IsSorted (some te) s v = finish_event-IsSorted te (get_elem? s.events te.ref) s v

  step-IsSorted :
      (s : TimerSystem H) (o : Op H) → IsSorted 0 s.time_events → IsSorted 0 (step s o).time_events
  unfolding step add finish
  step-IsSorted s (adds when h period) v = add-IsSorted s.free_ids s when period h v
  step-IsSorted s (removes id) v = remove-IsSorted s id v
  step-IsSorted s (fires now) v = fire-IsSorted s now v
  step-IsSorted s finishes v = finish-IsSorted s.running s v

  run-IsSorted :
      (s : TimerSystem H) (os : List (Op H))
      → IsSorted 0 s.time_events
      → IsSorted 0 (run s os).time_events
  unfolding run
  run-IsSorted s [] v = v
  run-IsSorted s (o ∷ os) v = run-IsSorted (step s o) os (step-IsSorted s o v)

  -- After any interleaving of calls and of the worker, the waiting events are in the order of their
  -- times.
  pub run-new-IsSorted : (os : List (Op H)) → IsSorted 0 (run {H = H} new os).time_events
  unfolding new
  run-new-IsSorted os = run-IsSorted new os tt
