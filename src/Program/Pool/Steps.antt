-- ===== src/Program/Pool/Steps.antt =====
-- The invariant of the pool of lib/libkvm/program_instance.cpp through each of its calls.
use libvmod_tinykvm.Common.{
  get_elem?-some, ℕ, ◌<◌, ◌≡◌, Bool, false, some, List, [], ◌∷◌, length, get_elem?, length-set,
  get_elem?-set_self, get_elem?-set_ne, count, count_all-set, take_first, count-take_first,
  ℕ_discrete, Bool-cases, Option-cases, inl, inr, sym, refl, arith,
}
use libvmod_tinykvm.Tenant.Group.{TenantGroup}
use libvmod_tinykvm.Machine.{MachineInstance, Tinykvm, is_reset_needed}
use libvmod_tinykvm.Machine.Reset.{give_back, give_back_idle}
use libvmod_tinykvm.Program.Pool.{
  ConcurrentQueue, VmPoolItem, Pool, Call, reserves, frees, resets, runs, reserve_vm, clean,
  free_item, vm_free_function, reset_task, run_held, step, run,
}
use libvmod_tinykvm.Program.Pool.Invariant.{
  Inv, HoldsProgram-lt, IsIdle-elsewhere, taken-Inv, unreserve-Inv, unreset-Inv, defer-Inv,
  run_item-Inv,
}

module _ {V P : Type 0} where
  -- The node of a thread that frees or resets is one that has a queue.
  abbrev pub OnNode : Call V P → Type 0
  OnNode (reserves node ctx soft) = Unit {0}
  OnNode (frees s node) = node < 4
  OnNode (resets s node) = node < 4
  OnNode (runs s f) = Unit {0}

  abbrev pub OnNodes : List (Call V P) → Type 0
  OnNodes [] = Unit {0}
  OnNodes (c ∷ cs) = OnNode c × OnNodes cs

module _ (lib : ConcurrentQueue) {V P F : Type 0} (kvm : Tinykvm V) (g : TenantGroup F)
    (cleared : P) (started : List ℕ) where
  open lib use {enqueue, enqueue_count, dequeue_count}

  clean-Inv :
      (p : Pool V P) (s node : ℕ) (q : List ℕ) (item : VmPoolItem V P)
      → get_elem? p.vmqueue node ≡ some q
      → get_elem? p.vms s ≡ some item
      → Inv started (s ∷ []) p
      → Inv started [] (clean lib kvm g cleared p s (some item) node)
  clean-Inv p s node q item eq found v =
      let new : VmPoolItem V P = record {
        mi = (give_back kvm g cleared item.mi p.main_vm).0;
        prog_ref = false;
      } in
      let moved = λ (i : ℕ). count_all-set i node p.vmqueue q (enqueue q s) eq in
      let inside : s < length p.vms = HoldsProgram-lt p.vms s (v.busy s (ground arith)) in
      rw eq (record {
        distinct = v.distinct;
        four = omega (arith, v.four, length-set p.vmqueue node (enqueue q s));
        placed = λ i. ground (arith, v.placed i, moved i, enqueue_count q s i);
        idle = λ i h. elim (ℕ_discrete i s) [
          | yes same ↦
              rw (same, get_elem?-set_self p.vms s new inside)
                (refl, give_back_idle kvm g cleared item.mi p.main_vm)
          | no ne ↦
              IsIdle-elsewhere started p.vms s i new ne
                (v.idle i (ground (arith, moved i, enqueue_count q s i)))
        ];
        busy = λ i h. elim (ℕ_discrete i s) [
          | yes same ↦ absurd (ground (arith, v.placed s, v.distinct s, rw same at h))
          | no ne ↦ rw (get_elem?-set_ne p.vms new (λ e. ne (sym e))) (v.busy i (ground arith))
        ];
      })

  freed-Inv :
      (p : Pool V P) (s node : ℕ) (q : List ℕ) (item : VmPoolItem V P)
      → get_elem? p.vmqueue node ≡ some q
      → get_elem? p.vms s ≡ some item
      → Inv started (s ∷ []) p
      → Inv started [] (free_item lib kvm g cleared p s (some item) node)
  freed-Inv p s node q item eq found v = elim (Bool-cases (is_reset_needed item.mi)) [
    | inl needed ↦ rw needed (defer-Inv started p s v)
    | inr calm ↦ rw calm (clean-Inv p s node q item eq found v)
  ]

  -- A slot that a function holds has an item, and a node in range has a queue.
  held_item :
      (p : Pool V P) (s : ℕ)
      → Inv started (s ∷ []) p
      → (item : VmPoolItem V P) × (get_elem? p.vms s ≡ some item)
  held_item p s v = elim (Option-cases (get_elem? p.vms s)) [
    | inl e ↦ absurd (rw e at (v.busy s (ground arith)))
    | inr found ↦ found
  ]

  reserve_vm-Inv :
      (p : Pool V P) (node ctx : ℕ) (soft : Bool)
      → Inv started [] p
      → Inv started [] (reserve_vm lib p node ctx soft).0
  unfolding reserve_vm
  reserve_vm-Inv p node ctx soft v = elim (Option-cases (get_elem? p.vmqueue node)) [
    | inl e ↦ rw e v
    | inr (q, e) ↦ elim (Option-cases (lib.wait_dequeue_timed q)) [
      | inl late ↦
          rw (e, late)
            (record {
              distinct = v.distinct;
              four = v.four;
              placed = v.placed;
              idle = v.idle;
              busy = v.busy;
            })
      | inr (sr, got) ↦
          let split = dequeue_count q sr.0 sr.1 got in
          let moved = count_all-set sr.0 node p.vmqueue q sr.1 e in
          elim (Option-cases (get_elem? p.vms sr.0)) [
            | inl missing ↦ absurd (rw missing at (v.idle sr.0 (ground (arith, moved, split sr.0))))
            | inr (item, found) ↦
                rw (e, got) (taken-Inv started p node sr.0 q sr.1 item ctx soft e split found v)
          ]
    ]
  ]

  vm_free-Inv :
      (p : Pool V P) (s node : ℕ)
      → node < 4
      → Inv started [] p
      → Inv started [] (vm_free_function lib kvm g cleared p s node)
  unfolding vm_free_function
  vm_free-Inv p s node small v = elim (Option-cases (take_first s p.reserved)) [
    | inl e ↦ rw e v
    | inr (rest, e) ↦
        let w = unreserve-Inv started p s rest e v in
        let (item, found) = held_item (record p { reserved = rest }) s w in
        let (q, eq) = get_elem?-some p.vmqueue node (omega (arith, v.four)) in
        rw (e, found) (freed-Inv (record p { reserved = rest }) s node q item eq found w)
  ]

  reset_task-Inv :
      (p : Pool V P) (s node : ℕ)
      → node < 4
      → Inv started [] p
      → Inv started [] (reset_task lib kvm g cleared p s node)
  unfolding reset_task
  reset_task-Inv p s node small v = elim (Option-cases (take_first s p.resetting)) [
    | inl e ↦ rw e v
    | inr (rest, e) ↦
        let w = unreset-Inv started p s rest e v in
        let (item, found) = held_item (record p { resetting = rest }) s w in
        let (q, eq) = get_elem?-some p.vmqueue node (omega (arith, v.four)) in
        rw (e, found) (clean-Inv (record p { resetting = rest }) s node q item eq found w)
  ]

  runs-Inv :
      (p : Pool V P) (s : ℕ) (f : MachineInstance V P → MachineInstance V P)
      → Inv started [] p
      → Inv started [] (run_held lib kvm g cleared p s f (take_first s p.reserved))
  runs-Inv p s f v = elim (Option-cases (take_first s p.reserved)) [
    | inl e ↦ rw e v
    | inr (rest, e) ↦
        let held : 0 < count s p.reserved = ground (arith, count-take_first s s p.reserved e) in
        elim (Option-cases (get_elem? p.vms s)) [
          | inl missing ↦ rw (e, missing) v
          | inr (item, found) ↦ rw (e, found) (run_item-Inv started p s f item held found v)
        ]
  ]

  step-Inv :
      (p : Pool V P) (c : Call V P)
      → OnNode c
      → Inv started [] p
      → Inv started [] (step lib kvm g cleared p c)
  unfolding step
  step-Inv p (reserves node ctx soft) n v = reserve_vm-Inv p node ctx soft v
  step-Inv p (frees s node) n v = vm_free-Inv p s node n v
  step-Inv p (resets s node) n v = reset_task-Inv p s node n v
  step-Inv p (runs s f) n v = runs-Inv p s f v

  pub run-Inv :
      (p : Pool V P) (cs : List (Call V P))
      → OnNodes cs
      → Inv started [] p
      → Inv started [] (run lib kvm g cleared p cs)
  unfolding run
  run-Inv p [] n v = v
  run-Inv p (c ∷ cs) n v = run-Inv (step lib kvm g cleared p c) cs n.1 (step-Inv p c n.0 v)
