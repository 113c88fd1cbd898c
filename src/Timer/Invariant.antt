-- ===== src/Timer/Invariant.antt =====
-- Every timer id of lib/libkvm/utils/cpptime.hpp is in one place: free, waiting or running.
use libvmod_tinykvm.Common.{
  count, ℕ_discrete, ℕ, ◌+◌, ◌<◌, ◌≡◌, ◌≢◌, Bool, true, false, ◌&&◌, ◌||◌, Option, none, some, List,
  [], ◌∷◌, length, get_elem?, ◌==◌, ltb, leb, refl, arith, length-append, length-set,
  get_elem?-append_left, get_elem?-append_last, get_elem?-set_self, get_elem?-set_ne, Bool-cases,
  Option-cases, inl, inr, ap, sym,
}
use libvmod_tinykvm.Timer.{
  Event, TimeEvent, TimerSystem, Op, adds, removes, fires, finishes, new, insert, take_ref,
  make_event, add_with, add, disarm, unschedule, remove, fire_first, fire, finish_event,
  finish_running, finish, step, run,
}
use libvmod_tinykvm.Timer.Places.{
  count_refs, count_running, count_refs-insert, count_refs-take_ref, count_refs-take_ref-none,
  length-disarm, get_elem?-disarm_ne, disarm-IsDisarmed, IsArmed, IsDisarmed, AllWhole,
  AllWhole-append, AllWhole-set, AllWhole-disarm, AllWhole-IsArmed,
}

abbrev pub one_if : Bool → ℕ
one_if true = 1
one_if false = 0

waited_before :
    (te : TimeEvent) (i : ℕ) (xs : List TimeEvent)
    → i ≢ te.ref
    → 0 < count_refs i (insert te xs)
    → 0 < count_refs i xs
waited_before te i xs ne h = ground (arith, count_refs-insert i te xs)

module _ {H : Type 0} where
  -- Each id of the table of events is in exactly one place; the event of a waiting timer is valid
  -- and has its handler, and that of a free id has neither.
  pub record Inv (s : TimerSystem H) : Type 0 where
    pub placed :
        (i : ℕ)
        → count i s.free_ids + count_refs i s.time_events + count_running i s.running
          ≡ one_if (ltb i (length s.events))
    pub armed : (i : ℕ) → 0 < count_refs i s.time_events → IsArmed (get_elem? s.events i)
    pub whole : AllWhole s.events
    pub idle : (i : ℕ) → 0 < count i s.free_ids → IsDisarmed (get_elem? s.events i)

  pub new-Inv : Inv (new {H = H})
  unfolding new
  new-Inv = record {
    placed = λ i. ground arith;
    armed = λ i h. elim h [ ];
    whole = tt;
    idle = λ i h. elim h [ ];
  }

  pub placed-lt :
      (s : TimerSystem H) (i : ℕ)
      → Inv s
      → 0 < count i s.free_ids + count_refs i s.time_events + count_running i s.running
      → i < length s.events
  placed-lt s i v h = ground (arith, v.placed i)

  added_new-Inv :
      (s : TimerSystem H) (when period : ℕ) (h : H)
      → s.free_ids ≡ []
      → Inv s
      → Inv (add_with [] s when h period).0
  added_new-Inv s when period h none_free v = record {
    placed = λ i. ground (
      arith,
      v.placed i,
      count_refs-insert i (record { next = when; ref = length s.events }) s.time_events,
      length-append s.events (make_event (length s.events) when period h ∷ []),
    );
    armed = λ i waits. elim (ℕ_discrete i (length s.events)) [
      | yes e ↦
          rw (e, get_elem?-append_last s.events (make_event (length s.events) when period h))
            (refl, h, refl)
      | no ne ↦
          let before : 0 < count_refs i s.time_events =
            waited_before (record { next = when; ref = length s.events }) i s.time_events ne
              waits in
          rw
            (get_elem?-append_left s.events (make_event (length s.events) when period h ∷ []) i
              (placed-lt s i v (omega arith)))
            (v.armed i before)
    ];
    whole =
        AllWhole-append s.events (make_event (length s.events) when period h) v.whole
          (λ f. (h, refl));
    idle = λ i h. elim h [ ];
  }

  added_reused-Inv :
      (s : TimerSystem H) (id : ℕ) (free : List ℕ) (when period : ℕ) (h : H)
      → s.free_ids ≡ id ∷ free
      → Inv s
      → Inv (add_with (id ∷ free) s when h period).0
  added_reused-Inv s id free when period h e v =
      let inside : id < length s.events = placed-lt s id v (rw e (ground arith)) in
      let ev = make_event id when period h in
      record {
        placed = λ i. ground (
          arith,
          v.placed i,
          ap (count i) e,
          count_refs-insert i (record { next = when; ref = id }) s.time_events,
          length-set s.events id ev,
        );
        armed = λ i waits. elim (ℕ_discrete i id) [
          | yes same ↦ rw (same, get_elem?-set_self s.events id ev inside) (refl, h, refl)
          | no ne ↦ rw (get_elem?-set_ne s.events ev (λ e. ne (sym e))) (
              v.armed i (waited_before (record { next = when; ref = id }) i s.time_events ne waits))
        ];
        whole = AllWhole-set s.events id ev v.whole (λ f. (h, refl));
        idle = λ i free_now. elim (ℕ_discrete i id) [
          | yes same ↦ absurd (ground (arith, v.placed i, ap (count i) e))
          | no ne ↦
              rw (get_elem?-set_ne s.events ev (λ e. ne (sym e))) (v.idle i (rw e (ground arith)))
        ];
      }

  add-Inv : (s : TimerSystem H) (when period : ℕ) (h : H) → Inv s → Inv (add s when h period).0
  unfolding add
  add-Inv s when period h v = go s.free_ids refl
    where
      go : (free : List ℕ) → s.free_ids ≡ free → Inv (add_with free s when h period).0
      go [] e = added_new-Inv s when period h e v
      go (id ∷ free) e = added_reused-Inv s id free when period h e v

  -- An id that is not free keeps a timer's event; clearing the event of `id` leaves the others.
  removed-Inv :
      (s : TimerSystem H) (id : ℕ) (rest : List TimeEvent)
      → id < length s.events
      → take_ref id s.time_events ≡ some rest
      → Inv s
      → Inv (unschedule (record s { events = disarm s.events id }) id (some rest))
  removed-Inv s id rest inside e v = record {
    placed = λ i. ground (
      arith,
      v.placed i,
      count_refs-take_ref i id s.time_events rest e,
      length-disarm s.events id,
    );
    armed = λ i waits. elim (ℕ_discrete i id) [
      | yes same ↦
          absurd (ground (arith, v.placed i, count_refs-take_ref i id s.time_events rest e))
      | no ne ↦
          rw (get_elem?-disarm_ne s.events id i (λ e. ne (sym e)))
            (v.armed i (ground (arith, count_refs-take_ref i id s.time_events rest e)))
    ];
    whole = AllWhole-disarm s.events id v.whole;
    idle = λ i free_now. elim (ℕ_discrete i id) [
      | yes same ↦ rw same (disarm-IsDisarmed s.events id inside)
      | no ne ↦ rw (get_elem?-disarm_ne s.events id i (λ e. ne (sym e))) (v.idle i (ground arith))
    ];
  }

  -- Clearing the event of an id that does not wait keeps the invariant.
  disarmed-Inv :
      (s : TimerSystem H) (id : ℕ)
      → id < length s.events
      → count_refs id s.time_events ≡ 0
      → Inv s
      → Inv (record s { events = disarm s.events id })
  disarmed-Inv s id inside quiet v = record {
    placed = λ i. ground (arith, v.placed i, length-disarm s.events id);
    armed = λ i waits. elim (ℕ_discrete i id) [
      | yes same ↦ absurd (omega (arith, rw same at waits))
      | no ne ↦ rw (get_elem?-disarm_ne s.events id i (λ e. ne (sym e))) (v.armed i waits)
    ];
    whole = AllWhole-disarm s.events id v.whole;
    idle = λ i free_now. elim (ℕ_discrete i id) [
      | yes same ↦ rw same (disarm-IsDisarmed s.events id inside)
      | no ne ↦ rw (get_elem?-disarm_ne s.events id i (λ e. ne (sym e))) (v.idle i free_now)
    ];
  }

  remove-Inv : (s : TimerSystem H) (id : ℕ) → Inv s → Inv (remove s id).0
  unfolding remove
  remove-Inv s id v = elim (Bool-cases ((length s.events == 0) || leb (length s.events) id)) [
    | inl out ↦ rw out v
    | inr inside ↦ elim (Option-cases (take_ref id s.time_events)) [
      | inl e ↦
          rw (inside, e)
            (disarmed-Inv s id (ground arith) (count_refs-take_ref-none id s.time_events e) v)
      | inr (rest, e) ↦ rw (inside, e) (removed-Inv s id rest (ground arith) e v)
    ]
  ]

  fire-Inv : (s : TimerSystem H) (now : ℕ) → Inv s → Inv (fire s now)
  unfolding fire
  fire-Inv s now v = go s.running s.time_events refl refl
    where
      go :
          (r : Option TimeEvent) (tes : List TimeEvent)
          → s.running ≡ r
          → s.time_events ≡ tes
          → Inv (elim r [ none ↦ fire_first now tes s | some te ↦ s ])
      go (some te) tes e f = v
      go none [] e f = v
      go none (te ∷ rest) e f = elim (Bool-cases (leb te.next now)) [
        | inr early ↦ rw early v
        | inl due ↦ rw due (record {
          placed = λ i. ground (arith, v.placed i, ap (count_running i) e, ap (count_refs i) f);
          armed = λ i waits. v.armed i (ground (arith, ap (count_refs i) f));
          whole = v.whole;
          idle = v.idle;
        })
      ]

  finish_event-Inv :
      (s : TimerSystem H) (te : TimeEvent) (e : Event H)
      → s.running ≡ some te
      → get_elem? s.events te.ref ≡ some e
      → Inv s
      → Inv (finish_event te (some e) s)
  finish_event-Inv s te e r g v =
      let inside : te.ref < length s.events =
        placed-lt s te.ref v (ground (arith, ap (count_running te.ref) r)) in
      elim (Bool-cases (e.valid && ltb 0 e.period)) [
        | inl again ↦ rw again (record {
          placed = λ i. ground (
            arith,
            v.placed i,
            ap (count_running i) r,
            count_refs-insert i (record { next = te.next + e.period; ref = te.ref }) s.time_events,
          );
          armed = λ i waits. elim (ℕ_discrete i te.ref) [
            | yes same ↦ rw same (AllWhole-IsArmed s.events te.ref e v.whole g (ground arith))
            | no ne ↦ v.armed i (
                waited_before (record { next = te.next + e.period; ref = te.ref }) i s.time_events
                  ne waits)
          ];
          whole = v.whole;
          idle = v.idle;
        })
        | inr over ↦ rw over (record {
          placed = λ i.
              ground (arith, v.placed i, ap (count_running i) r, length-disarm s.events te.ref);
          armed = λ i waits. elim (ℕ_discrete i te.ref) [
            | yes same ↦ absurd (ground (arith, v.placed i, ap (count_running i) r))
            | no ne ↦ rw (get_elem?-disarm_ne s.events te.ref i (λ e. ne (sym e))) (v.armed i waits)
          ];
          whole = AllWhole-disarm s.events te.ref v.whole;
          idle = λ i free_now. elim (ℕ_discrete i te.ref) [
            | yes same ↦ rw same (disarm-IsDisarmed s.events te.ref inside)
            | no ne ↦
                rw (get_elem?-disarm_ne s.events te.ref i (λ e. ne (sym e)))
                  (v.idle i (ground arith))
          ];
        })
      ]

  finish-Inv : (s : TimerSystem H) → Inv s → Inv (finish s)
  unfolding finish
  finish-Inv s v = go s.running refl
    where
      go : (r : Option TimeEvent) → s.running ≡ r → Inv (finish_running r s)
      go none e = v
      go (some te) e = elim (Option-cases (get_elem? s.events te.ref)) [
        | inl missing ↦ rw missing v
        | inr (ev, found) ↦ rw found (finish_event-Inv s te ev e found v)
      ]

  pub step-Inv : (s : TimerSystem H) (o : Op H) → Inv s → Inv (step s o)
  unfolding step
  step-Inv s (adds when h period) v = add-Inv s when period h v
  step-Inv s (removes id) v = remove-Inv s id v
  step-Inv s (fires now) v = fire-Inv s now v
  step-Inv s finishes v = finish-Inv s v

  run-Inv : (s : TimerSystem H) (os : List (Op H)) → Inv s → Inv (run s os)
  unfolding run
  run-Inv s [] v = v
  run-Inv s (o ∷ os) v = run-Inv (step s o) os (step-Inv s o v)

  -- After any interleaving of calls and of the worker, each timer id of the table is in exactly one
  -- place, free, waiting or running; a timer that waits is valid and has its handler, a valid event
  -- has one, and the event of a free id is not valid and has none.
  pub run-new-Inv : (os : List (Op H)) → Inv (run new os)
  run-new-Inv os = run-Inv new os new-Inv
