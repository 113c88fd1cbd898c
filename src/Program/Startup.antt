-- ===== src/Program/Startup.antt =====
-- The start of a program in lib/libkvm/program_instance.cpp and program_instance.hpp: the tasks of
-- the two constructors, `begin_initialization`, and the functions that wait for it. Builds without
-- VARNISH_PLUS have one queue; the machines of a slot are its index here.
pub mod Ends
pub mod Tests
use libvmod_tinykvm.Common.{
  ℕ, zero, suc, ◌+◌, ◌-◌, ◌≡◌, Bool, true, false, not, ◌&&◌, Option, none, some, List, [], ◌∷◌, ltb,
  leb, ◌==◌, if◌then◌else◌,
}
use libvmod_tinykvm.Machine.{MachineInstance, set_ctx}
use libvmod_tinykvm.Common.Act.{
  Fault, other, Outcome, done, threw, Act, ◌>>=◌, ◌>>◌, give, change, state, throw_unless, answered,
}

-- `m_initialization_complete` at 0, 1 and -1.
pub data Progress : Type 0 where
  pending ready failed : Progress

-- `m_future`: without a task, with a task that runs, that returned, or that threw.
pub data Future : Type 0 where
  invalid running : Future
  returned : Bool → Future
  broken : Fault → Future

-- The fields of `ProgramInstance` that the start works on, and how often a mutex was unlocked that
-- nobody held. `vmqueue` lists the queued slots, the newest first.
pub record Startup (V P : Type 0) : Type 0 where
  pub initialization_complete : Progress
  pub future : Future
  pub locked : Bool
  pub unlock_errors : ℕ
  pub request_binary : Bool
  pub storage_vm : Option (MachineInstance V P)
  pub main_vm : Option (MachineInstance V P)
  pub vms : ℕ
  pub vmqueue : List ℕ

-- What the code around the start answers, where `none` and `false` are exceptions. `fetch` is
-- whether the download returned 0, and an exception for a refused URI or status.
pub record Surroundings (V P : Type 0) : Type 0 where
  pub max_concurrency : ℕ
  pub has_storage : Bool
  pub fetch : Option Bool
  pub download_dependencies : Bool
  pub make_storage : Option (MachineInstance V P)
  pub make_main : Option (MachineInstance V P)
  pub initialize : MachineInstance V P → Option (MachineInstance V P)
  pub start_servers : Bool
  pub create : ℕ → Bool
  pub task_future : ℕ → Bool

module _ {V P : Type 0} where
  -- A second `unlock` is undefined in C++; here it is counted.
  unfoldable pub unlock_and_initialized : Bool → Startup V P → Startup V P
  unlock_and_initialized success s =
      let announced = record s {
        initialization_complete = if success then ready else failed;
        locked = false;
      } in
      if s.locked then announced else record announced { unlock_errors = s.unlock_errors + 1 }

  -- `none` is a thread that waits for the mutex.
  unfoldable pub wait_for_main_vm : Startup V P → Option Bool
  wait_for_main_vm s = elim s.initialization_complete [
    | ready ↦ some true
    | failed ↦ some false
    | pending ↦ if s.locked then none else some false
  ]

  -- The exceptions of `wait_for_initialization`, and the code of the task.
  abbrev pub check_main : Bool → Option (MachineInstance V P) → Outcome Bool
  check_main code none = threw other
  check_main code (some main) = if main.waiting_for_requests then done code else threw other

  abbrev pub get_future : Future → Option (MachineInstance V P) → Option (Outcome Bool)
  get_future invalid main = some (done true)
  get_future running main = none
  get_future (returned code) main = some (check_main code main)
  get_future (broken e) main = some (threw e)

  -- The future can be read once. `true` is the code 0.
  unfoldable pub wait_for_initialization : Startup V P → Startup V P × Option (Outcome Bool)
  wait_for_initialization s = if s.locked then (s, none) else (
    elim s.future [ running ↦ s | _ ↦ record s { future = invalid } ],
    get_future s.future s.main_vm,
  )

  module _ (env : Surroundings V P) where
    open env use {create, task_future, initialize}

    unfoldable pub start_storage : Act (Startup V P) (Unit {0})
    start_storage =
        if env.has_storage
        then (do
          made ← answered other env.make_storage
          ran ← answered other (initialize made)
          change (λ s. record s { storage_vm = some (set_ctx none ran) }))
        else give tt

    unfoldable pub start_main : Act (Startup V P) (Unit {0})
    start_main = do
      made ← answered other env.make_main
      change (λ s. record s { main_vm = some made })
      ran ← answered other (initialize made)
      change (λ s. record s { main_vm = some (set_ctx none ran) })
      throw_unless other env.start_servers

    -- The first machine is queued before requests are accepted.
    unfoldable pub start_first : Act (Startup V P) (Unit {0})
    start_first = do
      throw_unless other (create 0)
      change (λ s. record s { vms = 1 })
      throw_unless other (task_future 0)
      change (λ s. record s { vmqueue = 0 ∷ s.vmqueue })

    abbrev pub create_rest : ℕ → ℕ → Act (Startup V P) (Unit {0})
    create_rest i zero = give tt
    create_rest i (suc n) =
        (throw_unless other (create i) >> change (λ s. record s { vms = s.vms + 1 }))
        >> create_rest (i + 1) n

    -- A machine that did not start is reported and passed over.
    abbrev pub queue_one : ℕ → Act (Startup V P) (Unit {0})
    queue_one i = change (λ s. if task_future i then record s { vmqueue = i ∷ s.vmqueue } else s)

    abbrev pub queue_rest : ℕ → ℕ → Act (Startup V P) (Unit {0})
    queue_rest i zero = give tt
    queue_rest i (suc n) = queue_one i >> queue_rest (i + 1) n

    unfoldable pub start_rest : Act (Startup V P) (Unit {0})
    start_rest =
        change (unlock_and_initialized true)
        >> (create_rest 1 (env.max_concurrency - 1) >> queue_rest 1 (env.max_concurrency - 1))

    abbrev pub check : Act (Startup V P) (Unit {0})
    check =
        throw_unless other (leb 1 env.max_concurrency)
        >> throw_unless other env.download_dependencies

    unfoldable pub start_all : Act (Startup V P) (Unit {0})
    start_all = check >> (start_storage >> (start_main >> (start_first >> start_rest)))

    -- The handler, which throws again.
    abbrev pub or_none : Startup V P × Outcome (Unit {0}) → Startup V P × Outcome (Unit {0})
    or_none (s, done u) = (s, done u)
    or_none (s, threw e) =
        (unlock_and_initialized false (record s { main_vm = none; storage_vm = none }), threw e)

    unfoldable pub begin_initialization : Act (Startup V P) (Unit {0})
    unfolding start_all
    begin_initialization s = or_none (start_all s)

    -- The task of the constructor from binaries.
    abbrev pub settled : Startup V P × Outcome (Unit {0}) → Startup V P
    settled (s, done u) = record s { future = returned true }
    settled (s, threw e) = record s { future = broken e }

    unfoldable pub file_task : Startup V P → Startup V P
    unfolding begin_initialization
    file_task s = settled (begin_initialization s)

    abbrev pub give_up : Startup V P → Startup V P
    give_up s = unlock_and_initialized false (record s {
      request_binary = false;
      main_vm = none;
      storage_vm = none;
      future = returned false;
    })

    -- The task of the constructor from a URI, which returns -1 for an exception.
    abbrev pub reported : Startup V P × Outcome (Unit {0}) → Startup V P
    reported (s, done u) = record s { future = returned true }
    reported (s, threw e) = give_up s

    abbrev pub fetched : Option Bool → Startup V P → Startup V P
    fetched none s = give_up s
    fetched (some false) s = give_up s
    fetched (some true) s = reported (begin_initialization (record s { request_binary = true }))

    unfoldable pub uri_task : Startup V P → Startup V P
    unfolding begin_initialization
    uri_task s = fetched env.fetch s
