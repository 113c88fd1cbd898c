-- ===== src/Program/Startup/Tests.antt =====
-- Starts of a program of lib/libkvm/program_instance.cpp at concrete inputs.
use libvmod_tinykvm.Common.{ℕ, ◌<◌, ◌≡◌, refl, true, false, none, some, [], ltb}
use libvmod_tinykvm.Common.Act.{other}
use libvmod_tinykvm.Machine.Tests.{machine, no_regex}
use libvmod_tinykvm.Program.Startup.{
  Startup, Surroundings, pending, running, file_task, uri_task, wait_for_main_vm,
  begin_initialization, start_all, start_storage, start_main, start_first, start_rest,
  unlock_and_initialized,
}
use libvmod_tinykvm.Program.Startup.Ends.{
  IsSettled, answer, file_task-IsSettled, uri_task-IsSettled, uri_task_unlocks_twice,
}

-- Four machines, of which the last cannot be created.
abbrev env : Surroundings ℕ ℕ
env = record {
  max_concurrency = 4;
  has_storage = false;
  fetch = some true;
  download_dependencies = true;
  make_storage = none;
  make_main = some (machine false no_regex);
  initialize = λ m. some m;
  start_servers = true;
  create = λ i. ltb i 3;
  task_future = λ i. true;
}

abbrev locked : Startup ℕ ℕ
locked = record {
  initialization_complete = pending;
  future = running;
  locked = true;
  unlock_errors = 0;
  request_binary = false;
  storage_vm = none;
  main_vm = none;
  vms = 0;
  vmqueue = [];
}

file_task-IsSettled_example :
    IsSettled (file_task env locked).future (file_task env locked)
    × (wait_for_main_vm (file_task env locked) ≡ some (answer (file_task env locked).future))
file_task-IsSettled_example = file_task-IsSettled env locked

uri_task-IsSettled_example :
    IsSettled (uri_task env locked).future (uri_task env locked)
    × (wait_for_main_vm (uri_task env locked) ≡ some (answer (uri_task env locked).future))
uri_task-IsSettled_example = uri_task-IsSettled env locked

uri_task_unlocks_twice_example : 0 < (uri_task env locked).unlock_errors
unfolding begin_initialization start_all start_storage start_main start_first start_rest
    unlock_and_initialized
uri_task_unlocks_twice_example = uri_task_unlocks_twice env locked other refl refl
