-- ===== src/Machine.antt =====
-- lib/libkvm/machine_instance.hpp and machine_instance.cpp: one virtual machine of a program.
-- `V` is the state of `tinykvm::Machine` and `P` a pointer to a compiled regex. The settings that
-- a method reads from its tenant are an argument. The CPU-time counters are left out.
pub mod Stats
pub mod Regex
pub mod Reset
pub mod Paths
pub mod Tests
use libvmod_tinykvm.Common.{
  ℕ, ◌+◌, ◌-◌, ◌<◌, Bool, true, false, not, ◌&&◌, ◌||◌, Option, none, some, List, ltb,
  if◌then◌else◌, u64, sub64,
}
use libvmod_tinykvm.Cache.{Entry, Cache, make, foreach_owned, reset_and_loan}
use libvmod_tinykvm.Tenant.Group.{TenantGroup}
use Stats.{MachineStats}

pub data BinaryType : Type 0 where
  static static_pie dynamic : BinaryType

pub record MachineInstance (V P : Type 0) : Type 0 where
  pub ctx : Option ℕ
  pub machine : V
  pub is_debug : Bool
  pub is_storage : Bool
  pub is_ephemeral : Bool
  pub waiting_for_requests : Bool
  pub is_warming_up : Bool
  pub response_called : ℕ
  pub reset_needed : Bool
  pub soft_reset_needed : Bool
  pub binary_type : BinaryType
  pub sighandler : ℕ
  pub post_data : ℕ
  pub post_size : ℕ
  pub inputs_allocation : ℕ
  pub stats : MachineStats
  pub regex : Cache P

-- The options that `reset_to` and the forking constructor hand to `tinykvm::Machine`.
pub record MachineOptions : Type 0 where
  pub max_mem : ℕ
  pub max_cow_mem : ℕ
  pub reset_free_work_mem : ℕ
  pub reset_keep_all_work_memory : Bool

-- What is used of `tinykvm::Machine`: `reset_to` answers whether the reset was a full one, and
-- `none` when it throws; the machine is then what is left of it.
pub record Tinykvm (V : Type 0) : Type 0 where
  pub fork : MachineOptions → V → V
  pub reset_to : MachineOptions → V → V → V × Option Bool
  pub mmap_allocate : ℕ → V → V × ℕ
  pub mmap_unmap : ℕ → ℕ → V → V

module _ {V P : Type 0} where
  unfoldable pub is_reset_needed : MachineInstance V P → Bool
  is_reset_needed m = m.reset_needed || (m.soft_reset_needed || m.is_ephemeral)

  abbrev pub set_ctx : Option ℕ → MachineInstance V P → MachineInstance V P
  set_ctx ctx m = record m { ctx = ctx }

  abbrev pub set_soft_reset : Bool → MachineInstance V P → MachineInstance V P
  set_soft_reset needed m = record m { soft_reset_needed = needed }

  abbrev pub begin_call : MachineInstance V P → MachineInstance V P
  begin_call m = record m { response_called = 0 }

  abbrev pub finish_call : ℕ → MachineInstance V P → MachineInstance V P
  finish_call n m = record m { response_called = n }

  abbrev pub reset_needed_now : MachineInstance V P → MachineInstance V P
  reset_needed_now m = record m { reset_needed = true }

  -- `VRE_free` takes the address of the item, and leaves `cleared` in it. The second part lists
  -- the pointers that were freed, in order.
  unfoldable pub tail_reset : P → MachineInstance V P → MachineInstance V P × List P
  unfolding foreach_owned
  tail_reset cleared m =
      let (es, freed) = foreach_owned (λ e. record e { item = cleared }) m.regex.cache in
      (record m { regex = record (m.regex) { cache = es } }, freed)

abbrev pub count_full : Option Bool → MachineStats → MachineStats
count_full (some true) s = record s { full_resets = u64 (s.full_resets + 1) }
count_full (some false) s = s
count_full none s = s

module _ {F : Type 0} (g : TenantGroup F) where
  abbrev pub shared_memory_size : ℕ
  shared_memory_size = g.shared_memory

  unfoldable pub shared_memory_boundary : ℕ
  shared_memory_boundary =
      if ltb 0 shared_memory_size
      then sub64 g.max_address_space shared_memory_size
      else 0xffff_ffff_ffff_ffff

module _ {V P : Type 0} {F : Type 0} (kvm : Tinykvm V) (g : TenantGroup F) where
  open kvm use {fork, mmap_allocate, mmap_unmap}

  abbrev pub reset_options : MachineInstance V P → MachineOptions
  reset_options m = record {
    max_mem = g.max_main_memory;
    max_cow_mem = g.max_req_mem;
    reset_free_work_mem = g.limit_req_mem;
    reset_keep_all_work_memory = not m.reset_needed && g.ephemeral_keep_working_memory;
  }

  -- The branch of `reset_to` that resets. A reset that throws is reported and passed over.
  pub reset_now : MachineInstance V P → MachineInstance V P → MachineInstance V P
  unfolding reset_and_loan
  reset_now m source =
      let (vm, full) = kvm.reset_to (reset_options m) m.machine source.machine in
      record m {
        machine = vm;
        stats = count_full full (record (m.stats) { resets = u64 (m.stats.resets + 1) });
        waiting_for_requests = source.waiting_for_requests;
        post_size = 0;
        inputs_allocation = 0;
        sighandler = source.sighandler;
        regex = reset_and_loan m.regex source.regex;
        reset_needed = false;
        soft_reset_needed = false;
      }

  unfoldable pub reset_to :
      Option ℕ → MachineInstance V P → MachineInstance V P → MachineInstance V P
  unfolding is_reset_needed reset_now
  reset_to ctx m source =
      let here = set_ctx ctx m in if is_reset_needed here then reset_now here source else here

  -- The constructor of a request machine, a fork of the main machine.
  unfoldable pub fork_machine : MachineInstance V P → MachineInstance V P
  unfolding reset_and_loan make
  fork_machine source = record {
    ctx = none;
    machine =
        fork
          (record {
            max_mem = g.max_main_memory;
            max_cow_mem = g.max_req_mem;
            reset_free_work_mem = g.limit_req_mem;
            reset_keep_all_work_memory = false;
          })
          source.machine;
    is_debug = source.is_debug;
    is_storage = false;
    is_ephemeral = source.is_ephemeral;
    waiting_for_requests = true;
    is_warming_up = false;
    response_called = 0;
    reset_needed = false;
    soft_reset_needed = false;
    binary_type = source.binary_type;
    sighandler = source.sighandler;
    post_data = 0;
    post_size = 0;
    inputs_allocation = 0;
    stats = Stats.zeroed;
    regex = reset_and_loan (make g.max_regex) source.regex;
  }

  abbrev pub unmap_post : MachineInstance V P → V
  unmap_post m =
      if ltb 0 m.post_size then mmap_unmap m.post_data m.post_size m.machine else m.machine

  unfoldable pub allocate_post_data : ℕ → MachineInstance V P → MachineInstance V P × ℕ
  allocate_post_data bytes m =
      if ltb m.post_size bytes
      then (let (vm, address) = mmap_allocate bytes (unmap_post m) in
          (record m { machine = vm; post_data = address; post_size = bytes }, address))
      else (m, m.post_data)
