-- ===== src/Api.antt =====
-- lib/libkvm/system_calls_api.cpp: the system calls of a guest that work on its machine and its
-- program, with the entry table and the queue of storage tasks of lib/libkvm/program_instance.cpp.
-- `V` is the state of `tinykvm::Machine`, `P` a pointer to a compiled regex.
pub mod Sealed
pub mod Tasks
pub mod Tests
use libvmod_tinykvm.Common.{
  ℕ, zero, suc, ◌+◌, ◌-◌, ◌*◌, ◌^◌, ◌≡◌, Bool, true, false, not, ◌&&◌, ◌||◌, Option, none, some,
  List, [], ◌∷◌, ◌++◌, Str, length, get_elem?, set, drop, ltb, leb, ◌==◌, if◌then◌else◌, u16, u32,
  u64, sub64, minus_one,
}
use libvmod_tinykvm.Tenant.Group.{TenantGroup}
use libvmod_tinykvm.Timer
use libvmod_tinykvm.Timer.{TimerSystem}
use libvmod_tinykvm.Machine.{
  MachineInstance, finish_call, shared_memory_boundary, shared_memory_size,
}
use libvmod_tinykvm.Program.Storage.{is_allowed, storage_allow}
use libvmod_tinykvm.Backend.{Regs}
use libvmod_tinykvm.Common.Act.{
  Fault, memory, machine, other, Outcome, done, threw, Act, ◌>>=◌, ◌>>◌, give, raise, change, state,
  throw_unless, answered,
}

-- A storage task: the function and its argument.
abbrev pub Task : Type 0
Task = ℕ × Str

-- What the system calls work on: the machine, the entry table, allow list, timers and storage
-- tasks of its program, and the registers. `stopped` tells that the virtual CPU was stopped.
pub record Api (V P : Type 0) : Type 0 where
  pub mi : MachineInstance V P
  pub entry_address : List ℕ
  pub allow_list : List ℕ
  pub has_storage : Bool
  pub timer_system : TimerSystem Task
  pub async_tasks : List Task
  pub rax : ℕ
  pub regs : Regs
  pub stopped : Bool

-- What is used of `tinykvm::Machine`; `false` and `none` are exceptions.
pub record Cpu (V : Type 0) : Type 0 where
  pub kernel_end_address : V → ℕ
  pub max_address : V → ℕ
  pub buffer_to_string : V → ℕ → ℕ → ℕ → Option Str
  pub smp_active : V → Bool
  pub smpcall : ℕ → Regs → ℕ → V → V × Bool
  pub smp_wait : V → V × Bool
  pub banked_memory_capacity_bytes : V → ℕ
  pub banked_memory_bytes : V → ℕ
  pub copy_to_guest : ℕ → List ℕ → V → V × Bool

abbrev pub storage_task_max_argument : ℕ
storage_task_max_argument = 2 * 2 ^ 20

abbrev pub storage_task_max_timers : ℕ
storage_task_max_timers = 15

-- The entries have 32 bits; `std::array::at` throws for an index out of range.
unfoldable pub set_entry_at : List ℕ → ℕ → ℕ → Option (List ℕ)
set_entry_at entries idx addr =
    if ltb idx (length entries) then some (set entries idx (u32 addr)) else none

unfoldable pub entry_at : List ℕ → ℕ → Option ℕ
entry_at entries idx = get_elem? entries idx

-- All but the last task.
abbrev pub last_task : List Task → List Task
last_task tasks = drop (length tasks - 1) tasks

module _ {V P : Type 0} where
  abbrev pub set_rax : ℕ → Act (Api V P) (Unit {0})
  set_rax n = change (λ s. record s { rax = n })

  abbrev pub stop : Act (Api V P) (Unit {0})
  stop = change (λ s. record s { stopped = true })

  abbrev pub finish : ℕ → Act (Api V P) (Unit {0})
  finish n = change (λ s. record s { mi = finish_call n s.mi }) >> stop

  unfoldable pub wait_for_requests : Act (Api V P) (Unit {0})
  wait_for_requests = do
    s ← state
    throw_unless other (not s.mi.waiting_for_requests)
    change (λ s. record s { mi = record (s.mi) { waiting_for_requests = true } })
    stop

  unfoldable pub is_storage : Act (Api V P) (Unit {0})
  is_storage = change (λ s. record s { rax = if s.mi.is_storage then 1 else 0 })

  unfoldable pub is_debug : Act (Api V P) (Unit {0})
  is_debug = change (λ s. record s { rax = if s.mi.is_debug then 1 else 0 })

  unfoldable pub storage_allow_call : Act (Api V P) (Unit {0})
  storage_allow_call = change (λ s.
      let (l, r) =
        storage_allow s.mi.is_storage s.mi.waiting_for_requests s.regs.rdi s.allow_list in
      record s { allow_list = l; rax = r })

  -- `ProgramInstance::storage_task`: older tasks than the last are waited for.
  unfoldable pub storage_task : Task → Act (Api V P) ℕ
  storage_task task = do
    s ← state
    throw_unless other s.has_storage
    throw_unless other (is_allowed s.allow_list task.0)
    change (λ s. record s { async_tasks = last_task s.async_tasks ++ (task ∷ []) })
    give 0

  -- `due` is the time point of a delay.
  abbrev pub add_timer : (ℕ → ℕ) → Task → Act (Api V P) (Unit {0})
  add_timer due task = change (λ s.
      if ltb (Timer.racy_count s.timer_system) storage_task_max_timers
      then (let (t, id) = Timer.add s.timer_system (due s.regs.rcx) task s.regs.r8 in
          record s { timer_system = t; rax = id })
      else record s { rax = minus_one })

  unfoldable pub stop_storage_task : Act (Api V P) (Unit {0})
  stop_storage_task = change (λ s.
      let (t, found) = Timer.remove s.timer_system s.regs.rdi in
      record s { timer_system = t; rax = if found then 1 else 0 })

  module _ (cpu : Cpu V) where
    unfoldable pub storage_task_call : (ℕ → ℕ) → Act (Api V P) (Unit {0})
    storage_task_call due = do
      s ← state
      argument ←
          answered (memory false)
            (cpu.buffer_to_string s.mi.machine s.regs.rsi s.regs.rdx storage_task_max_argument)
      if (s.regs.rcx == 0) && (s.regs.r8 == 0)
          then (do r ← storage_task (s.regs.rdi, argument); set_rax r)
          else add_timer due (s.regs.rdi, argument)

    unfoldable pub register_func : Act (Api V P) (Unit {0})
    register_func = do
      s ← state
      throw_unless other (not s.mi.waiting_for_requests)
      throw_unless other (
          leb (cpu.kernel_end_address s.mi.machine) s.regs.rsi
          && ltb s.regs.rsi (cpu.max_address s.mi.machine))
      entries ← answered other (set_entry_at s.entry_address s.regs.rdi s.regs.rsi)
      change (λ s. record s { entry_address = entries })

    abbrev pub on_cpu : (V → V × Bool) → Api V P → Api V P
    on_cpu f s =
        let (v, ok) = f s.mi.machine in
        record s { mi = record (s.mi) { machine = v }; rax = if ok then 0 else minus_one }

    unfoldable pub multiprocess_wait : Act (Api V P) (Unit {0})
    multiprocess_wait = change (on_cpu cpu.smp_wait)

  module _ {F : Type 0} (cpu : Cpu V) (group : TenantGroup F) where
    unfoldable pub shared_memory : Act (Api V P) (Unit {0})
    shared_memory = change (λ s. record s {
      rax = shared_memory_boundary group;
      regs = record (s.regs) {
        rdx = u64 (shared_memory_boundary group + shared_memory_size group);
      };
    })

    unfoldable pub make_ephemeral : Act (Api V P) (Unit {0})
    make_ephemeral = do
      s ← state
      throw_unless other (not s.mi.waiting_for_requests)
      change (λ s.
          if group.control_ephemeral
          then record s { mi = record (s.mi) { is_ephemeral = not (s.regs.rdi == 0) }; rax = 0 }
          else record s { rax = minus_one })

    -- The three system calls that start other virtual CPUs, by their numbers; an exception gives
    -- -1. `smpcall` has the registers and how many CPUs are started.
    unfoldable pub multiprocess : ℕ → Act (Api V P) (Unit {0})
    multiprocess scall = change (λ s.
        if cpu.smp_active s.mi.machine || (ltb s.regs.rdi 2 || ltb group.max_smp s.regs.rdi)
        then record s { rax = minus_one }
        else on_cpu cpu (cpu.smpcall scall s.regs (s.regs.rdi - 1)) s)

    unfoldable pub memory_info : Act (Api V P) (Unit {0})
    memory_info s =
        let (v, ok) =
          cpu.copy_to_guest s.regs.rdi
            (group.max_main_memory
              ∷ u32 group.max_req_mem
              ∷ cpu.banked_memory_capacity_bytes s.mi.machine
              ∷ cpu.banked_memory_bytes s.mi.machine
              ∷ [])
            s.mi.machine in
        (
          record s { mi = record (s.mi) { machine = v } },
          if ok then done tt else threw (memory false),
        )

    -- The system calls of this file, by their numbers.
    unfoldable pub handlers : (ℕ → ℕ) → List (ℕ × Act (Api V P) (Unit {0}))
    handlers due =
        (0x10000, register_func cpu)
        ∷ (0x10001, wait_for_requests)
        ∷ (0x10002, wait_for_requests)
        ∷ (0x10010, finish 1)
        ∷ (0x10012, finish 10)
        ∷ (0x10011, finish 2)
        ∷ (0x10013, finish 3)
        ∷ (0x10700, shared_memory)
        ∷ (0x10703, make_ephemeral)
        ∷ (0x10706, is_storage)
        ∷ (0x10707, storage_allow_call)
        ∷ (0x10709, storage_task_call cpu due)
        ∷ (0x1070A, stop_storage_task)
        ∷ (0x10710, multiprocess 0x10710)
        ∷ (0x10711, multiprocess 0x10711)
        ∷ (0x10712, multiprocess 0x10712)
        ∷ (0x10713, multiprocess_wait cpu)
        ∷ (0x10A00, memory_info)
        ∷ (0x7FDEB, is_debug)
        ∷ []

    -- `setup_syscall_interface` of lib/libkvm/system_calls.cpp. `others` are the system calls of
    -- the other files; an unknown number gives -ENOSYS.
    abbrev pub dispatch :
        List (ℕ × Act (Api V P) (Unit {0}))
        → (ℕ → Option (Act (Api V P) (Unit {0})))
        → ℕ
        → Act (Api V P) (Unit {0})
    dispatch [] others scall = elim (others scall) [ none ↦ set_rax (2 ^ 64 - 38) | some h ↦ h ]
    dispatch ((n, h) ∷ hs) others scall =
        let rest = dispatch hs others scall in if scall == n then h else rest

    unfoldable pub syscall :
        (ℕ → ℕ) → (ℕ → Option (Act (Api V P) (Unit {0}))) → ℕ → Act (Api V P) (Unit {0})
    syscall due others scall = dispatch (handlers due) others scall
