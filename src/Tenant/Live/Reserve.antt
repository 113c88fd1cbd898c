-- ===== src/Tenant/Live/Reserve.antt =====
-- `vmreserve` of lib/libkvm/tenant_instance.cpp: a request keeps one machine for all of its stages,
-- in its private task. `found` is what `ref` gave, and `alloc` whether `WS_Alloc` had room.
use libvmod_tinykvm.Common.{
  ℕ, ◌≡◌, refl, arith, Bool, true, false, Option, none, some, List, get_elem?, take_first,
  Bool-cases, Option-cases, inl, inr, ◌∙◌, ap, sym, subst, count,
}
use libvmod_tinykvm.Tenant.Group.{TenantGroup}
use libvmod_tinykvm.Machine.{Tinykvm, is_reset_needed}
use libvmod_tinykvm.Program.Pool.{
  ConcurrentQueue, VmPoolItem, Pool, Reserved, slot, queue_timeout, bad_node, reserve_vm,
  vm_free_function, free_item, clean,
}

-- `struct vmod_priv`: the machine, and whether the end of the request gives it back.
pub record PrivTask : Type 0 where
  pub priv : Option ℕ
  pub has_methods : Bool

module _ (lib : ConcurrentQueue) {V P F : Type 0} (kvm : Tinykvm V) (g : TenantGroup F)
    (cleared : P) where
  abbrev pub keep_slot : PrivTask → Pool V P × Reserved → ℕ → Bool → PrivTask × Pool V P × Option ℕ
  keep_slot task (p, queue_timeout) node alloc = (task, p, none)
  keep_slot task (p, bad_node) node alloc = (task, p, none)
  keep_slot task (p, slot s) node true = (record { priv = some s; has_methods = true }, p, some s)
  keep_slot task (p, slot s) node false =
      (record task { priv = some s }, vm_free_function lib kvm g cleared p s node, none)

  abbrev pub reserve_for :
      Option ℕ → PrivTask → Pool V P → Bool → ℕ → ℕ → Bool → PrivTask × Pool V P × Option ℕ
  reserve_for (some s) task p found node ctx alloc = (task, p, some s)
  reserve_for none task p false node ctx alloc = (task, p, none)
  reserve_for none task p true node ctx alloc =
      keep_slot task (reserve_vm lib p node ctx false) node alloc

  unfoldable pub vmreserve :
      PrivTask → Pool V P → Bool → ℕ → ℕ → Bool → PrivTask × Pool V P × Option ℕ
  vmreserve task p found node ctx alloc = reserve_for task.priv task p found node ctx alloc

  keep_slot-priv :
      (task : PrivTask) (r : Pool V P × Reserved) (node s : ℕ) (alloc : Bool)
      → (keep_slot task r node alloc).2 ≡ some s
      → (keep_slot task r node alloc).0.priv ≡ some s
  keep_slot-priv task (p, queue_timeout) node s alloc h = ground arith
  keep_slot-priv task (p, bad_node) node s alloc h = ground arith
  keep_slot-priv task (p, slot k) node s true h = h
  keep_slot-priv task (p, slot k) node s false h = ground arith

  reserve_for-priv :
      (o : Option ℕ) (task : PrivTask) (p : Pool V P) (found : Bool) (node ctx s : ℕ) (alloc : Bool)
      → task.priv ≡ o
      → (reserve_for o task p found node ctx alloc).2 ≡ some s
      → (reserve_for o task p found node ctx alloc).0.priv ≡ some s
  reserve_for-priv (some k) task p found node ctx s alloc e h = e ∙ h
  reserve_for-priv none task p true node ctx s alloc e h =
      keep_slot-priv task (reserve_vm lib p node ctx false) node s alloc h
  reserve_for-priv none task p false node ctx s alloc e h = ground arith

  vmreserve_held :
      (task : PrivTask) (p : Pool V P) (found : Bool) (node ctx s : ℕ) (alloc : Bool)
      → task.priv ≡ some s
      → vmreserve task p found node ctx alloc ≡ (task, p, some s)
  unfolding vmreserve
  vmreserve_held task p found node ctx s alloc e =
      subst (λ o. reserve_for o task p found node ctx alloc ≡ (task, p, some s)) (sym e) refl

  -- A request that got a machine gets the same one in its later stages, whatever the tenant's
  -- program and the workspace do then, and the pool is not asked again.
  pub vmreserve_again :
      (task : PrivTask) (p : Pool V P) (found later : Bool) (node ctx s : ℕ) (alloc again : Bool)
      → (vmreserve task p found node ctx alloc).2 ≡ some s
      → vmreserve
          (vmreserve task p found node ctx alloc).0
          (vmreserve task p found node ctx alloc).1
          later
          node
          ctx
          again
        ≡ (
          (vmreserve task p found node ctx alloc).0,
          (vmreserve task p found node ctx alloc).1,
          some s,
        )
  unfolding vmreserve
  vmreserve_again task p found later node ctx s alloc again h =
      vmreserve_held _ _ later node ctx s again
        (reserve_for-priv task.priv task p found node ctx s alloc refl h)

  clean-reserved :
      (p : Pool V P) (s : ℕ) (o : Option (VmPoolItem V P)) (node : ℕ)
      → (clean lib kvm g cleared p s o node).reserved ≡ p.reserved
  clean-reserved p s none node = refl
  clean-reserved p s (some item) node = elim (Option-cases (get_elem? p.vmqueue node)) [
    | inl e ↦ rw e refl
    | inr (q, e) ↦ rw e refl
  ]

  free_item-reserved :
      (p : Pool V P) (s : ℕ) (o : Option (VmPoolItem V P)) (node : ℕ)
      → (free_item lib kvm g cleared p s o node).reserved ≡ p.reserved
  free_item-reserved p s none node = refl
  free_item-reserved p s (some item) node = elim (Bool-cases (is_reset_needed item.mi)) [
    | inl e ↦ rw e refl
    | inr e ↦ rw e (clean-reserved p s (some item) node)
  ]

  vm_free_function-reserved :
      (p : Pool V P) (s node : ℕ) (rest : List ℕ)
      → take_first s p.reserved ≡ some rest
      → (vm_free_function lib kvm g cleared p s node).reserved ≡ rest
  unfolding vm_free_function
  vm_free_function-reserved p s node rest e =
      rw e (free_item-reserved (record p { reserved = rest }) s (get_elem? p.vms s) node)

  keep_slot_failed :
      (task : PrivTask) (r : Pool V P × Reserved) (node s : ℕ)
      → r.1 ≡ slot s
      → keep_slot task r node false
        ≡ (record task { priv = some s }, vm_free_function lib kvm g cleared r.0 s node, none)
  keep_slot_failed task (p, k) node s h =
      subst
        (λ k.
          keep_slot task (p, k) node false
          ≡ (record task { priv = some s }, vm_free_function lib kvm g cleared p s node, none))
        (sym h) refl

  -- Where the workspace has no room, the machine goes back to the pool but its number stays in
  -- the request's private task: the next stage of the request gets a machine that it does not hold.
  pub vmreserve_stale :
      (task : PrivTask) (p : Pool V P) (later : Bool) (node ctx s : ℕ) (again : Bool)
      (rest : List ℕ)
      → task.priv ≡ none
      → (reserve_vm lib p node ctx false).1 ≡ slot s
      → take_first s (reserve_vm lib p node ctx false).0.reserved ≡ some rest
      → count s rest ≡ 0
      → (out : PrivTask × Pool V P × Option ℕ) × (vmreserve task p true node ctx false ≡ out)
        × (out.2 ≡ none)
        × (count s out.1.reserved ≡ 0)
        × (vmreserve out.0 out.1 later node ctx again ≡ (out.0, out.1, some s))
  unfolding vmreserve
  vmreserve_stale task p later node ctx s again rest e r t z =
      let p' = (reserve_vm lib p node ctx false).0 in
      let freed = vm_free_function lib kvm g cleared p' s node in
      let kept : PrivTask = record task { priv = some s } in
      (
        (kept, freed, none),
        ap (λ o. reserve_for o task p true node ctx false) e
            ∙ keep_slot_failed task (reserve_vm lib p node ctx false) node s r,
        refl,
        rw (vm_free_function-reserved p' s node rest t) z,
        vmreserve_held kept freed later node ctx s again refl,
      )
