-- ===== src/Program/Pool.antt =====
-- The pool of request machines of lib/libkvm/program_instance.cpp: `reserve_vm` takes a slot from
-- the queue of a NUMA node and `vm_free_function` gives it back, at once or after a reset on the
-- slot's thread. A slot is its index in `vms`. `reserved` are the slots that requests hold and
-- `resetting` those whose thread has a reset to do. `prog_ref` says whether a slot keeps the
-- program alive. The blocking queues are third-party code: `ConcurrentQueue` says only which
-- items they hold. Times are left out.
pub mod Invariant
pub mod Steps
pub mod Laws
use libvmod_tinykvm.Common.{
  ℕ, zero, suc, ◌+◌, ◌<◌, ◌≡◌, Bool, true, false, Option, none, some, List, [], ◌∷◌, map, length,
  get_elem?, set, count, take_first, if◌then◌else◌, u64, refl, arith,
}
use libvmod_tinykvm.Tenant.Group.{TenantGroup}
use libvmod_tinykvm.Machine.{
  MachineInstance, Tinykvm, is_reset_needed, set_ctx, set_soft_reset, fork_machine,
}
use libvmod_tinykvm.Machine.Reset.{give_back}

pub record ConcurrentQueue : Type 0 where
  pub enqueue : List ℕ → ℕ → List ℕ
  -- `none` when nothing came before the time ran out.
  pub wait_dequeue_timed : List ℕ → Option (ℕ × List ℕ)
  pub enqueue_count : (q : List ℕ) (a i : ℕ) → count i (enqueue q a) ≡ count i (a ∷ q)
  pub dequeue_count :
      (q : List ℕ) (a : ℕ) (r : List ℕ)
      → wait_dequeue_timed q ≡ some (a, r)
      → (i : ℕ) → count i q ≡ count i (a ∷ r)
  pub dequeue_none : (q : List ℕ) → wait_dequeue_timed q ≡ none → q ≡ []

pub record VmPoolItem (V P : Type 0) : Type 0 where
  pub mi : MachineInstance V P
  pub prog_ref : Bool

pub record Pool (V P : Type 0) : Type 0 where
  pub main_vm : MachineInstance V P
  pub vms : List (VmPoolItem V P)
  pub vmqueue : List (List ℕ)
  pub reserved : List ℕ
  pub resetting : List ℕ
  pub reservation_timeouts : ℕ

-- The outcomes of `reserve_vm`: a slot, the exception, or an index outside of the array of queues.
pub data Reserved : Type 0 where
  slot : ℕ → Reserved
  queue_timeout : Reserved
  bad_node : Reserved

-- What may happen, with the NUMA node that the thread runs on.
pub data Call (V P : Type 0) : Type 0 where
  reserves : ℕ → ℕ → Bool → Call V P
  frees : ℕ → ℕ → Call V P
  resets : ℕ → ℕ → Call V P
  runs : ℕ → (MachineInstance V P → MachineInstance V P) → Call V P

module _ {V P : Type 0} where
  abbrev pub set_machine : Pool V P → ℕ → MachineInstance V P → Bool → Pool V P
  set_machine p s m ref = record p { vms = set p.vms s (record { mi = m; prog_ref = ref }) }

  abbrev pub taken : Pool V P → Option (VmPoolItem V P) → ℕ → Bool → ℕ → Pool V P
  taken p none ctx soft_reset s = p
  taken p (some item) ctx soft_reset s =
      set_machine p s (set_soft_reset soft_reset (set_ctx (some ctx) item.mi)) true

  abbrev pub reserve_from : Pool V P → ℕ → Option (ℕ × List ℕ) → ℕ → Bool → Pool V P × Reserved
  reserve_from p node none ctx soft_reset =
      (record p { reservation_timeouts = u64 (p.reservation_timeouts + 1) }, queue_timeout)
  reserve_from p node (some (s, rest)) ctx soft_reset = (
    record (taken p (get_elem? p.vms s) ctx soft_reset s) {
      vmqueue = set p.vmqueue node rest;
      reserved = s ∷ p.reserved;
    },
    slot s,
  )

-- The loops of `begin_initialization` that fork the request machines: every slot gets a fork of the
-- main machine, and those whose thread came up (`ok`) are queued on node 0.
abbrev pub started_from : ℕ → List Bool → List ℕ
started_from s [] = []
started_from s (true ∷ oks) = s ∷ started_from (suc s) oks
started_from s (false ∷ oks) = started_from (suc s) oks

module _ {V P : Type 0} {F : Type 0} (kvm : Tinykvm V) (g : TenantGroup F) where
  unfoldable pub start : MachineInstance V P → List Bool → Pool V P
  start main oks = record {
    main_vm = main;
    vms = map (λ ok. record { mi = fork_machine kvm g main; prog_ref = false }) oks;
    vmqueue = started_from 0 oks ∷ [] ∷ [] ∷ [] ∷ [];
    reserved = [];
    resetting = [];
    reservation_timeouts = 0;
  }

module _ (lib : ConcurrentQueue) {V P : Type 0} where
  open lib use {enqueue, wait_dequeue_timed}

  abbrev pub reserve_at : Pool V P → ℕ → Option (List ℕ) → ℕ → Bool → Pool V P × Reserved
  reserve_at p node none ctx soft_reset = (p, bad_node)
  reserve_at p node (some q) ctx soft_reset =
      reserve_from p node (wait_dequeue_timed q) ctx soft_reset

  -- `node` is the NUMA node that the thread runs on.
  unfoldable pub reserve_vm : Pool V P → ℕ → ℕ → Bool → Pool V P × Reserved
  reserve_vm p node ctx soft_reset = reserve_at p node (get_elem? p.vmqueue node) ctx soft_reset

  abbrev pub enqueue_at : Pool V P → ℕ → Option (List ℕ) → ℕ → Pool V P
  enqueue_at p node none s = p
  enqueue_at p node (some q) s = record p { vmqueue = set p.vmqueue node (enqueue q s) }

  module _ {F : Type 0} (kvm : Tinykvm V) (g : TenantGroup F) (cleared : P) where
    -- The part that both ways share: the slot's machine is cleaned and the slot is queued.
    abbrev pub clean : Pool V P → ℕ → Option (VmPoolItem V P) → ℕ → Pool V P
    clean p s none node = p
    clean p s (some item) node =
        enqueue_at (set_machine p s (give_back kvm g cleared item.mi p.main_vm).0 false) node
          (get_elem? p.vmqueue node) s

    abbrev pub free_item : Pool V P → ℕ → Option (VmPoolItem V P) → ℕ → Pool V P
    free_item p s none node = p
    free_item p s (some item) node =
        if is_reset_needed item.mi
        then record p { resetting = s ∷ p.resetting }
        else clean p s (some item) node

    abbrev pub free_held : Pool V P → ℕ → Option (List ℕ) → ℕ → Pool V P
    free_held p s none node = p
    free_held p s (some rest) node =
        free_item (record p { reserved = rest }) s (get_elem? p.vms s) node

    -- Only the request that holds a slot frees it.
    unfoldable pub vm_free_function : Pool V P → ℕ → ℕ → Pool V P
    vm_free_function p s node = free_held p s (take_first s p.reserved) node

    abbrev pub reset_held : Pool V P → ℕ → Option (List ℕ) → ℕ → Pool V P
    reset_held p s none node = p
    reset_held p s (some rest) node =
        clean (record p { resetting = rest }) s (get_elem? p.vms s) node

    -- The deferred task, on a thread of that node.
    unfoldable pub reset_task : Pool V P → ℕ → ℕ → Pool V P
    reset_task p s node = reset_held p s (take_first s p.resetting) node

    abbrev pub run_item :
        Pool V P
        → ℕ
        → (MachineInstance V P → MachineInstance V P)
        → Option (VmPoolItem V P)
        → Pool V P
    run_item p s f none = p
    run_item p s f (some item) = record p { vms = set p.vms s (record item { mi = f item.mi }) }

    -- A request changes the machine that it holds.
    abbrev pub run_held :
        Pool V P → ℕ → (MachineInstance V P → MachineInstance V P) → Option (List ℕ) → Pool V P
    run_held p s f none = p
    run_held p s f (some rest) = run_item p s f (get_elem? p.vms s)

    unfoldable pub step : Pool V P → Call V P → Pool V P
    step p (reserves node ctx soft_reset) = (reserve_vm p node ctx soft_reset).0
    step p (frees s node) = vm_free_function p s node
    step p (resets s node) = reset_task p s node
    step p (runs s f) = run_held p s f (take_first s p.reserved)

    unfoldable pub run : Pool V P → List (Call V P) → Pool V P
    run p [] = p
    run p (c ∷ cs) = run (step p c) cs
