-- ===== src/Timer.antt =====
-- lib/libkvm/utils/cpptime.hpp: the timers of a program.
-- Times and periods are numbers, and `H` is the type of a handler. `time_events` is the multiset,
-- in its order. `running` is the variable `te` of the worker while the worker is inside a handler
-- without the lock, so that other threads may add and remove timers in between: every method
-- below is one stretch under the lock. Waiting for the condition variable changes nothing.
use libvmod_tinykvm.Common.{
  ℕ, zero, suc, ◌+◌, ◌≤◌, Bool, true, false, ◌&&◌, ◌||◌, Option, none, some, List, [], ◌∷◌, ◌++◌,
  map, length, get_elem?, set, ltb, leb, ◌==◌, if◌then◌else◌,
}
pub mod Places
pub mod Order
pub mod Invariant
pub mod Laws
pub mod Sizes
mod Tests

pub record Event (H : Type 0) : Type 0 where
  pub id : ℕ
  pub start : ℕ
  pub period : ℕ
  pub handler : Option H
  pub valid : Bool

pub record TimeEvent : Type 0 where
  pub next : ℕ
  pub ref : ℕ

pub record TimerSystem (H : Type 0) : Type 0 where
  pub events : List (Event H)
  pub time_events : List TimeEvent
  -- The stack, its top first.
  pub free_ids : List ℕ
  pub running : Option TimeEvent

-- `multiset::insert` puts an element behind those that are not greater.
unfoldable pub insert : TimeEvent → List TimeEvent → List TimeEvent
insert te [] = te ∷ []
insert te (x ∷ xs) = if leb x.next te.next then x ∷ insert te xs else te ∷ x ∷ xs

-- `find_if` and `erase`: the events without the first one of this timer, if there is one.
unfoldable pub take_ref : ℕ → List TimeEvent → Option (List TimeEvent)
take_ref id [] = none
take_ref id (x ∷ xs) =
    let rest = take_ref id xs in
    if x.ref == id then some xs else elim rest [ none ↦ none | some ys ↦ some (x ∷ ys) ]

module _ {H : Type 0} where
  pub new : TimerSystem H
  new = record { events = []; time_events = []; free_ids = []; running = none }

  abbrev pub make_event : ℕ → ℕ → ℕ → H → Event H
  make_event id when period handler = record {
    id = id;
    start = when;
    period = period;
    handler = some handler;
    valid = true;
  }

  abbrev pub racy_count : TimerSystem H → ℕ
  racy_count s = length s.events

  abbrev pub schedule : TimerSystem H → List (Event H) → List ℕ → ℕ → ℕ → TimerSystem H × ℕ
  schedule s events free when id = (
    record s {
      events = events;
      free_ids = free;
      time_events = insert (record { next = when; ref = id }) s.time_events;
    },
    id,
  )

  -- An id of the stack of free ids, if it has one; else a new id.
  abbrev pub add_with : List ℕ → TimerSystem H → ℕ → H → ℕ → TimerSystem H × ℕ
  add_with [] s when handler period =
      let id = length s.events in
      schedule s (s.events ++ (make_event id when period handler ∷ [])) [] when id
  add_with (id ∷ free) s when handler period =
      schedule s (set s.events id (make_event id when period handler)) free when id

  pub add : TimerSystem H → ℕ → H → ℕ → TimerSystem H × ℕ
  add s when handler period = add_with s.free_ids s when handler period

  abbrev pub disarmed : Event H → Event H
  disarmed e = record e { valid = false; handler = none }

  -- `events[id].valid = false; events[id].handler = nullptr;`
  abbrev pub disarm : List (Event H) → ℕ → List (Event H)
  disarm [] id = []
  disarm (e ∷ es) zero = disarmed e ∷ es
  disarm (e ∷ es) (suc id) = e ∷ disarm es id

  abbrev pub unschedule : TimerSystem H → ℕ → Option (List TimeEvent) → TimerSystem H
  unschedule s id none = s
  unschedule s id (some rest) = record s { time_events = rest; free_ids = id ∷ s.free_ids }

  pub remove : TimerSystem H → ℕ → TimerSystem H × Bool
  remove s id = if (length s.events == 0) || leb (length s.events) id then (s, false) else (
    unschedule (record s { events = disarm s.events id }) id (take_ref id s.time_events),
    true,
  )

  abbrev pub fire_first : ℕ → List TimeEvent → TimerSystem H → TimerSystem H
  fire_first now [] s = s
  fire_first now (te ∷ rest) s =
      if leb te.next now then record s { time_events = rest; running = some te } else s

  -- The worker takes the first event that is due, and calls its handler.
  pub fire : TimerSystem H → ℕ → TimerSystem H
  fire s now = elim s.running [ none ↦ fire_first now s.time_events s | some te ↦ s ]

  abbrev pub finish_event : TimeEvent → Option (Event H) → TimerSystem H → TimerSystem H
  finish_event te none s = s
  finish_event te (some e) s =
      if e.valid && ltb 0 e.period
      then record s {
        time_events = insert (record { next = te.next + e.period; ref = te.ref }) s.time_events;
        running = none;
      }
      else record s {
        events = disarm s.events te.ref;
        free_ids = te.ref ∷ s.free_ids;
        running = none;
      }

  abbrev pub finish_running : Option TimeEvent → TimerSystem H → TimerSystem H
  finish_running none s = s
  finish_running (some te) s = finish_event te (get_elem? s.events te.ref) s

  -- The handler returned, and the worker has the lock again.
  pub finish : TimerSystem H → TimerSystem H
  finish s = finish_running s.running s

pub data Op (H : Type 0) : Type 0 where
  adds : ℕ → H → ℕ → Op H
  removes : ℕ → Op H
  fires : ℕ → Op H
  finishes : Op H

module _ {H : Type 0} where
  pub step : TimerSystem H → Op H → TimerSystem H
  step s (adds when handler period) = (add s when handler period).0
  step s (removes id) = (remove s id).0
  step s (fires now) = fire s now
  step s finishes = finish s

  pub run : TimerSystem H → List (Op H) → TimerSystem H
  run s [] = s
  run s (o ∷ os) = run (step s o) os
