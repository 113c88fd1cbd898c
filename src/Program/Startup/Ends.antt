-- ===== src/Program/Startup/Ends.antt =====
-- How the start of a program ends in lib/libkvm/program_instance.cpp.
use mathlib.Core.List.{Memᴰ}
use libvmod_tinykvm.Common.{
  ℕ, zero, suc, ◌+◌, ◌-◌, ◌≡◌, ◌<◌, inl, inr, refl, arith, Bool, true, false, Option, none, some,
  Bool-cases, Option-cases,
}
use libvmod_tinykvm.Machine.{MachineInstance, set_ctx}
use libvmod_tinykvm.Common.Act.{Fault, Outcome, done, threw, ◌>>◌, Post, Post-bind, Post-after}
use libvmod_tinykvm.Program.Startup.{
  ready, failed, Future, invalid, running, returned, broken, Startup, Surroundings,
  unlock_and_initialized, wait_for_main_vm, start_storage, start_main, start_first, create_rest,
  queue_one, queue_rest, start_rest, check, start_all, or_none, begin_initialization, settled,
  file_task, give_up, reported, fetched, uri_task,
}

-- What `wait_for_main_vm` answers when the task has ended, with no wait.
abbrev pub answer : Future → Bool
answer (returned code) = code
answer f = false

module _ {V P : Type 0} where
  -- The main machine is there and has no context.
  abbrev pub HasMain : Startup V P → Type 0
  HasMain s = (m : MachineInstance V P) × (s.main_vm ≡ some m) × (m.ctx ≡ none)

  abbrev pub IsReady : Startup V P → Type 0
  IsReady s =
      HasMain s × Memᴰ 0 s.vmqueue × (s.initialization_complete ≡ ready) × (s.locked ≡ false)

  abbrev pub IsFailed : Startup V P → Type 0
  IsFailed s = (s.main_vm ≡ none) × (s.initialization_complete ≡ failed) × (s.locked ≡ false)

  -- By the end of the task.
  abbrev pub IsSettled : Future → Startup V P → Type 0
  IsSettled invalid s = ⊥
  IsSettled running s = ⊥
  IsSettled (returned true) s = IsReady s
  IsSettled (returned false) s = IsFailed s
  IsSettled (broken e) s = IsFailed s

  module _ (env : Surroundings V P) where
    abbrev Ends : (Startup V P → Type 0) → Startup V P × Outcome (Unit {0}) → Type 0
    Ends Q = Post (λ s _. Q s) (λ _ _. Unit {0})

    start_main-HasMain : (s : Startup V P) → Ends HasMain (start_main env s)
    unfolding start_main
    start_main-HasMain s = elim (Option-cases env.make_main) [
      | inl unmade ↦ simp unmade tt
      | inr (made, e) ↦ simp e (elim (Option-cases (env.initialize made)) [
        | inl stopped ↦ simp stopped tt
        | inr (ran, f) ↦ simp f (elim (Bool-cases env.start_servers) [
          | inl started ↦ simp started (set_ctx none ran, refl, refl)
          | inr refused ↦ simp refused tt
        ])
      ])
    ]

    abbrev IsQueued : Startup V P → Type 0
    IsQueued s = HasMain s × Memᴰ 0 s.vmqueue

    start_first-IsQueued : (s : Startup V P) → HasMain s → Ends IsQueued (start_first env s)
    unfolding start_first
    start_first-IsQueued s h = elim (Bool-cases (env.create 0)) [
      | inr uncreated ↦ rw uncreated tt
      | inl created ↦ rw created (elim (Bool-cases (env.task_future 0)) [
        | inr stopped ↦ rw stopped tt
        | inl started ↦ rw started (h, Memᴰ.head refl)
      ])
    ]

    create_rest-IsReady :
        (i n : ℕ) (s : Startup V P) → IsReady s → Ends IsReady (create_rest env i n s)
    create_rest-IsReady i zero s h = h
    create_rest-IsReady i (suc n) s h = elim (Bool-cases (env.create i)) [
      | inr uncreated ↦ rw uncreated tt
      | inl created ↦ rw created (create_rest-IsReady (i + 1) n _ h)
    ]

    queue_one-IsReady : (i : ℕ) (s : Startup V P) → IsReady s → IsReady (queue_one env i s).0
    queue_one-IsReady i s h = elim (Bool-cases (env.task_future i)) [
      | inr stopped ↦ rw stopped h
      | inl started ↦ rw started (h.0, Memᴰ.tail h.1, h.2, h.3)
    ]

    queue_rest-IsReady :
        (i n : ℕ) (s : Startup V P) → IsReady s → Ends IsReady (queue_rest env i n s)
    queue_rest-IsReady i zero s h = h
    queue_rest-IsReady i (suc n) s h =
        queue_rest-IsReady (i + 1) n (queue_one env i s).0 (queue_one-IsReady i s h)

    unlock-IsReady : (s : Startup V P) → IsQueued s → IsReady (unlock_and_initialized true s)
    unfolding unlock_and_initialized
    unlock-IsReady s h = elim (Bool-cases s.locked) [
      | inl held ↦ simp held (h.0, h.1, refl, refl)
      | inr free ↦ simp free (h.0, h.1, refl, refl)
    ]

    start_rest-IsReady : (s : Startup V P) → IsQueued s → Ends IsReady (start_rest env s)
    unfolding start_rest
    start_rest-IsReady s h =
        Post-bind (λ t _. IsReady t) (λ t _. IsReady t) (λ _ _. Unit {0})
          (create_rest env 1 (env.max_concurrency - 1))
          (λ _. queue_rest env 1 (env.max_concurrency - 1)) (unlock_and_initialized true s)
          (create_rest-IsReady 1 (env.max_concurrency - 1) _ (unlock-IsReady s h))
          (λ s' u. queue_rest-IsReady 1 (env.max_concurrency - 1) s')

    start_all-IsReady : (s : Startup V P) → Ends IsReady (start_all env s)
    unfolding start_all
    start_all-IsReady s =
        Post-after (λ t _. IsReady t) (check env)
          (λ _. start_storage env >> (start_main env >> (start_first env >> start_rest env))) s
          (λ s1 a.
            Post-after (λ t _. IsReady t) (start_storage env)
              (λ _. start_main env >> (start_first env >> start_rest env)) s1
              (λ s2 b.
                Post-bind (λ t _. HasMain t) (λ t _. IsReady t) (λ _ _. Unit {0}) (start_main env)
                  (λ _. start_first env >> start_rest env) s2 (start_main-HasMain s2)
                  (λ s3 c h.
                    Post-bind (λ t _. IsQueued t) (λ t _. IsReady t) (λ _ _. Unit {0})
                      (start_first env) (λ _. start_rest env) s3 (start_first-IsQueued s3 h)
                      (λ s4 d. start_rest-IsReady s4))))

    unlock-IsFailed :
        (s : Startup V P) → s.main_vm ≡ none → IsFailed (unlock_and_initialized false s)
    unfolding unlock_and_initialized
    unlock-IsFailed s h = elim (Bool-cases s.locked) [
      | inl held ↦ simp held (h, refl, refl)
      | inr free ↦ simp free (h, refl, refl)
    ]

    or_none-Ends :
        (r : Startup V P × Outcome (Unit {0}))
        → Ends IsReady r
        → Post (λ s _. IsReady s) (λ s _. IsFailed s) (or_none env r)
    or_none-Ends (s, done u) h = h
    or_none-Ends (s, threw e) h = unlock-IsFailed _ refl

    settled-IsSettled :
        (r : Startup V P × Outcome (Unit {0}))
        → Post (λ s _. IsReady s) (λ s _. IsFailed s) r
        → IsSettled (settled env r).future (settled env r)
    settled-IsSettled (s, done u) h = h
    settled-IsSettled (s, threw e) h = h

    give_up-IsSettled : (s : Startup V P) → IsSettled (give_up env s).future (give_up env s)
    unfolding unlock_and_initialized
    give_up-IsSettled s = elim (Bool-cases s.locked) [
      | inl held ↦ rw held (refl, refl, refl)
      | inr free ↦ rw free (refl, refl, refl)
    ]

    wait_settled :
        (f : Future) (s : Startup V P) → IsSettled f s → wait_for_main_vm s ≡ some (answer f)
    unfolding wait_for_main_vm
    wait_settled invalid s h = absurd h
    wait_settled running s h = absurd h
    wait_settled (returned true) s h = rw h.2
    wait_settled (returned false) s h = rw h.1
    wait_settled (broken e) s h = rw h.1

    begin-Ends :
        (s : Startup V P) → Post (λ t _. IsReady t) (λ t _. IsFailed t) (begin_initialization env s)
    unfolding begin_initialization
    begin-Ends s = or_none-Ends (start_all env s) (start_all-IsReady s)

    -- Whatever fails on the way, the task of a program from binaries ends with the mutex free and
    -- the progress set: a task that returns leaves a main machine without context and a queued
    -- first machine, an exception leaves no main machine, and `wait_for_main_vm` answers which of
    -- them it was without waiting.
    pub file_task-IsSettled :
        (s : Startup V P)
        → let s' = file_task env s in
          IsSettled s'.future s' × (wait_for_main_vm s' ≡ some (answer s'.future))
    unfolding file_task
    file_task-IsSettled s =
        let h = settled-IsSettled (begin_initialization env s) (begin-Ends s) in
        (h, wait_settled _ _ h)

    reported-IsSettled :
        (r : Startup V P × Outcome (Unit {0}))
        → Post (λ t _. IsReady t) (λ t _. IsFailed t) r
        → IsSettled (reported env r).future (reported env r)
    reported-IsSettled (s, done u) h = h
    reported-IsSettled (s, threw e) h = give_up-IsSettled s

    fetched-IsSettled :
        (o : Option Bool) (s : Startup V P) → IsSettled (fetched env o s).future (fetched env o s)
    fetched-IsSettled none s = give_up-IsSettled s
    fetched-IsSettled (some false) s = give_up-IsSettled s
    fetched-IsSettled (some true) s =
        reported-IsSettled (begin_initialization env (record s { request_binary = true }))
          (begin-Ends (record s { request_binary = true }))

    -- The task of a program from a URI ends likewise, also when the download fails: with code 0 it
    -- leaves a main machine without context and a queued first machine, with code -1 no main
    -- machine; the mutex is free, and `wait_for_main_vm` answers which it was without waiting.
    pub uri_task-IsSettled :
        (s : Startup V P)
        → let s' = uri_task env s in
          IsSettled s'.future s' × (wait_for_main_vm s' ≡ some (answer s'.future))
    unfolding uri_task
    uri_task-IsSettled s = let h = fetched-IsSettled env.fetch s in (h, wait_settled _ _ h)

    again_unlocked :
        (r : Startup V P × Outcome (Unit {0})) (e : Fault)
        → Post (λ t _. IsReady t) (λ t _. IsFailed t) r
        → r.1 ≡ threw e
        → 0 < (reported env r).unlock_errors
    unfolding unlock_and_initialized
    again_unlocked (s, done u) e h thrown = cc thrown
    again_unlocked (s, threw f) e h thrown = rw h.2 (omega arith)

    -- When the program was fetched and its initialisation throws, the task of the constructor from
    -- a URI unlocks the mutex a second time, while nobody holds it.
    pub uri_task_unlocks_twice :
        (s : Startup V P) (e : Fault)
        → env.fetch ≡ some true
        → (begin_initialization env (record s { request_binary = true })).1 ≡ threw e
        → 0 < (uri_task env s).unlock_errors
    unfolding uri_task
    uri_task_unlocks_twice s e got thrown = simp got (
        again_unlocked (begin_initialization env (record s { request_binary = true })) e
          (begin-Ends (record s { request_binary = true })) thrown)
