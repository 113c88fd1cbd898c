-- ===== src/Program/Pool/Laws.antt =====
-- What holds of the pool of lib/libkvm/program_instance.cpp after any history since its start.
use libvmod_tinykvm.Common.{
  ℕ, zero, suc, ◌+◌, ◌≤◌, ◌<◌, ◌≡◌, Bool, true, false, none, some, List, [], ◌∷◌, map, get_elem?,
  get_elem?-set_self, count, count_all, count_all-set, Option-cases, inl, inr, refl, arith, ap,
  subst,
}
use libvmod_tinykvm.Tenant.Group.{TenantGroup}
use libvmod_tinykvm.Machine.{MachineInstance, Tinykvm, set_ctx, set_soft_reset, fork_machine}
use libvmod_tinykvm.Machine.Reset.{IsQuiet}
use libvmod_tinykvm.Program.Pool.{
  ConcurrentQueue, VmPoolItem, Pool, Call, Reserved, slot, queue_timeout, bad_node, reserve_from,
  reserve_vm, started_from, start, run,
}
use libvmod_tinykvm.Program.Pool.Invariant.{Inv, IsIdle, IsIdle-lt}
use libvmod_tinykvm.Program.Pool.Steps.{OnNodes, run-Inv}

-- The slots that came up are distinct and in range.
started_below : (s i : ℕ) (oks : List Bool) → i < s → count i (started_from s oks) ≡ 0
started_below s i [] h = refl
started_below s i (true ∷ oks) h = ground (arith, started_below (suc s) i oks)
started_below s i (false ∷ oks) h = ground (arith, started_below (suc s) i oks)

started_distinct : (s i : ℕ) (oks : List Bool) → count i (started_from s oks) ≤ 1
started_distinct s i [] = omega arith
started_distinct s i (true ∷ oks) =
    ground (arith, started_distinct (suc s) i oks, started_below (suc s) i oks)
started_distinct s i (false ∷ oks) = started_distinct (suc s) i oks

module _ {V P : Type 0} where
  started-IsIdle :
      (item : VmPoolItem V P) (s i k : ℕ) (oks : List Bool)
      → (item.prog_ref ≡ false) × IsQuiet item.mi
      → k ≡ s + i
      → 0 < count k (started_from s oks)
      → IsIdle (get_elem? (map (λ ok. item) oks) i)
  started-IsIdle item s i k [] q e h = elim h [ ]
  started-IsIdle item s zero k (ok ∷ oks) q e h = q
  started-IsIdle item s (suc i) k (true ∷ oks) q e h =
      started-IsIdle item (suc s) i k oks q (omega arith) (ground arith)
  started-IsIdle item s (suc i) k (false ∷ oks) q e h =
      started-IsIdle item (suc s) i k oks q (omega arith) h

abbrev slot_of : Reserved → ℕ
slot_of (slot s) = s
slot_of queue_timeout = 0
slot_of bad_node = 0

module _ {V P : Type 0} where
  -- What a reservation changes: a slot that nobody held is held once, keeps the program alive, and
  -- its machine serves the given context.
  pub record IsReserved (p p' : Pool V P) (s ctx : ℕ) (soft_reset : Bool) : Type 0 where
    pub was_free : count s p.reserved + count s p.resetting ≡ 0
    pub held_once : count s p'.reserved + count s p'.resetting ≡ 1
    pub item : VmPoolItem V P
    pub found : get_elem? p'.vms s ≡ some item
    pub keeps_program : item.prog_ref ≡ true
    pub serves : item.mi.ctx ≡ some ctx
    pub soft : item.mi.soft_reset_needed ≡ soft_reset
    pub no_reset : item.mi.reset_needed ≡ false

  taken-IsReserved :
      (started : List ℕ) (p : Pool V P) (node s : ℕ) (q rest : List ℕ) (item : VmPoolItem V P)
      (ctx : ℕ) (soft : Bool)
      → get_elem? p.vmqueue node ≡ some q
      → ((i : ℕ) → count i q ≡ count i (s ∷ rest))
      → get_elem? p.vms s ≡ some item
      → Inv started [] p
      → IsReserved p (reserve_from p node (some (s, rest)) ctx soft).0 s ctx soft
  taken-IsReserved started p node s q rest item ctx soft eq split got v =
      let moved = count_all-set s node p.vmqueue q rest eq in
      let queued : 0 < count_all s p.vmqueue = ground (arith, moved, split s) in
      let is_idle : IsIdle (some item) = rw got at (v.idle s queued) in
      let new : VmPoolItem V P = record {
        mi = set_soft_reset soft (set_ctx (some ctx) item.mi);
        prog_ref = true;
      } in
      rw got (record {
        was_free = omega (arith, v.placed s, v.distinct s);
        held_once = ground (arith, v.placed s, v.distinct s);
        item = new;
        found = get_elem?-set_self p.vms s new (IsIdle-lt p.vms s (v.idle s queued));
        keeps_program = refl;
        serves = refl;
        soft = refl;
        no_reset = is_idle.1.no_reset;
      })

module _ (lib : ConcurrentQueue) {V P F : Type 0} (kvm : Tinykvm V) (g : TenantGroup F)
    (cleared : P) (main : MachineInstance V P) (oks : List Bool) where
  open lib use {wait_dequeue_timed, dequeue_count, dequeue_none}

  start-Inv : Inv (started_from 0 oks) [] (start kvm g main oks)
  unfolding start fork_machine
  start-Inv = record {
    distinct = λ i. started_distinct 0 i oks;
    four = refl;
    placed = λ i. omega arith;
    idle = λ i h.
        started-IsIdle (record { mi = fork_machine kvm g main; prog_ref = false }) 0 i i oks
          (refl, record { no_ctx = refl; no_reset = refl; no_soft_reset = refl }) (omega arith)
          (omega (arith, h));
    busy = λ i h. elim h [ ];
  }

  -- After any history of reservations, requests, frees and deferred resets, each slot that came up
  -- is in one place: in one queue, with one request or in one deferred reset, and no other slot is
  -- in any. A queued slot has no context and no mark for a reset and keeps no program alive; a
  -- slot that is out keeps it alive.
  pub run_start-Inv :
      (cs : List (Call V P))
      → OnNodes cs
      → Inv (started_from 0 oks) [] (run lib kvm g cleared (start kvm g main oks) cs)
  run_start-Inv cs on_nodes =
      run-Inv lib kvm g cleared (started_from 0 oks) (start kvm g main oks) cs on_nodes start-Inv

  -- After any history, a reservation that succeeds gives a slot that no request and no deferred
  -- reset holds.
  pub reserve_vm-IsReserved :
      (cs : List (Call V P)) (node ctx s : ℕ) (soft : Bool)
      → OnNodes cs
      → let p = run lib kvm g cleared (start kvm g main oks) cs in
        (reserve_vm lib p node ctx soft).1 ≡ slot s
        → IsReserved p (reserve_vm lib p node ctx soft).0 s ctx soft
  unfolding reserve_vm
  reserve_vm-IsReserved cs node ctx s soft on_nodes h =
      let p = run lib kvm g cleared (start kvm g main oks) cs in
      let v = run_start-Inv cs on_nodes in
      elim (Option-cases (get_elem? p.vmqueue node)) [
        | inl e ↦ cc (rw e at h)
        | inr (q, e) ↦ elim (Option-cases (wait_dequeue_timed q)) [
          | inl late ↦ cc (rw (e, late) at h)
          | inr (sr, got) ↦
              let split = dequeue_count q sr.0 sr.1 got in
              let moved = count_all-set sr.0 node p.vmqueue q sr.1 e in
              elim (Option-cases (get_elem? p.vms sr.0)) [
                | inl missing ↦
                    absurd (rw missing at (v.idle sr.0 (ground (arith, moved, split sr.0))))
                | inr (item, found) ↦
                    subst (λ (t : ℕ). IsReserved p (reserve_vm lib p node ctx soft).0 t ctx soft)
                      (ap slot_of (rw (e, got) at h))
                      (rw (e, got)
                        (taken-IsReserved (started_from 0 oks) p node sr.0 q sr.1 item ctx soft e
                          split found v))
              ]
        ]
      ]

  empty_times_out : wait_dequeue_timed [] ≡ none
  empty_times_out = elim (Option-cases (wait_dequeue_timed [])) [
    | inl e ↦ e
    | inr (ar, e) ↦ absurd (ground (arith, dequeue_count [] ar.0 ar.1 e ar.0))
  ]

  -- The machines are all queued on node 0, so the first request that runs on node 1, 2 or 3 times out,
  -- however many machines came up.
  pub reserve_other_node :
      (node ctx : ℕ) (soft : Bool)
      → 0 < node
      → node < 4
      → (reserve_vm lib (start kvm g main oks) node ctx soft).1 ≡ queue_timeout
  unfolding reserve_vm start
  reserve_other_node zero ctx soft pos small = elim pos [ ]
  reserve_other_node (suc zero) ctx soft pos small = rw empty_times_out
  reserve_other_node (suc (suc zero)) ctx soft pos small = rw empty_times_out
  reserve_other_node (suc (suc (suc zero))) ctx soft pos small = rw empty_times_out
  reserve_other_node (suc (suc (suc (suc n)))) ctx soft pos small = absurd (omega arith)
