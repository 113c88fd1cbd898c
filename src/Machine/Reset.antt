-- ===== src/Machine/Reset.antt =====
-- What a machine is after it was given back: `tail_reset` and then `reset_to` the main machine, as
-- `vm_free_function` of lib/libkvm/program_instance.cpp calls them.
use libvmod_tinykvm.Common.{
  ℕ, zero, suc, ◌≡◌, true, false, none, some, List, [], ◌∷◌, length, get_elem?, refl, arith,
}
use mathlib.Core.List.{Memᴰ}
use libvmod_tinykvm.Common.{sym, ap, ◌∙◌, some-inj, Bool-cases, inl, inr}
use libvmod_tinykvm.Tenant.Group.{TenantGroup}
use libvmod_tinykvm.Cache
use libvmod_tinykvm.Cache.{Cache, Entry, foreach_owned, is_owned, find_from, loan}
use libvmod_tinykvm.Machine.{
  MachineInstance, Tinykvm, tail_reset, is_reset_needed, reset_now, reset_to,
}

-- What a machine that was reset has in common with the source that it was reset to. `cleared` is
-- what `VRE_free` leaves in a pointer.
pub record IsReset {V P : Type 0} (cleared : P) (m source : MachineInstance V P) : Type 0 where
  pub owns_nothing : tail_reset cleared m ≡ (m, [])
  pub same_length : length m.regex.cache ≡ length source.regex.cache
  pub same_find : (h : ℕ) → Cache.find m.regex h ≡ Cache.find source.regex h
  pub no_ctx : m.ctx ≡ none
  pub no_post : m.post_size ≡ 0
  pub no_inputs : m.inputs_allocation ≡ 0
  pub same_sighandler : m.sighandler ≡ source.sighandler
  pub same_waiting : m.waiting_for_requests ≡ source.waiting_for_requests

module _ {V P : Type 0} {F : Type 0} (kvm : Tinykvm V) (g : TenantGroup F) where
  -- Both calls, and the regexes that they freed.
  unfoldable pub give_back :
      P → MachineInstance V P → MachineInstance V P → MachineInstance V P × List P
  give_back cleared m source =
      let (m', freed) = tail_reset cleared m in (reset_to kvm g none m' source, freed)

-- What `tail_reset` does to the entries of the table.
abbrev clear {ℓ} : {P : Type ℓ} → P → Entry P → Entry P
clear cleared e = record e { item = cleared }

module _ {P : Type 0} (cleared : P) where
  find_from-foreach_owned :
      (h k : ℕ) (es : List (Entry P))
      → find_from h k (foreach_owned (clear cleared) es).0 ≡ find_from h k es
  unfolding find_from foreach_owned
  find_from-foreach_owned h k [] = refl
  find_from-foreach_owned h k (x ∷ es) = ground (arith, find_from-foreach_owned h (suc k) es)

  get_elem?-foreach_owned :
      (i : ℕ) (es : List (Entry P)) (e : Entry P)
      → get_elem? es i ≡ some e
      → is_owned e ≡ true
      → get_elem? (foreach_owned (clear cleared) es).0 i ≡ some (clear cleared e)
  unfolding foreach_owned
  get_elem?-foreach_owned i [] e s o = cc
  get_elem?-foreach_owned zero (x ∷ es) e s o = ground arith
  get_elem?-foreach_owned (suc i) (x ∷ es) e s o = ground (arith, get_elem?-foreach_owned i es e)

  mem-foreach_owned :
      (i : ℕ) (es : List (Entry P)) (e : Entry P)
      → get_elem? es i ≡ some e
      → is_owned e ≡ true
      → Memᴰ e.item (foreach_owned (clear cleared) es).1
  unfolding foreach_owned
  mem-foreach_owned i [] e s o = cc
  mem-foreach_owned zero (x ∷ es) e s o =
      rw (ap is_owned (some-inj x e s) ∙ o)
        (Memᴰ.head (ap (λ (f : Entry P). f.item) (sym (some-inj x e s))))
  mem-foreach_owned (suc i) (x ∷ es) e s o = elim (Bool-cases (is_owned x)) [
    | inl own ↦ rw own (Memᴰ.tail (mem-foreach_owned i es e s o))
    | inr lent ↦ rw lent (mem-foreach_owned i es e s o)
  ]

module _ {V P : Type 0} {F : Type 0} (kvm : Tinykvm V) (g : TenantGroup F) where
  -- A machine that needs no reset still has the regexes that it compiled freed, while the entry of
  -- each of them stays in its table: the hash of its pattern finds it, at the same index, with the
  -- pointer that `VRE_free` left.
  pub give_back_stale :
      (cleared : P) (m source : MachineInstance V P) (h idx : ℕ) (e : Entry P)
      → is_reset_needed m ≡ false
      → Cache.find m.regex h ≡ some idx
      → Cache.get m.regex idx ≡ some e
      → is_owned e ≡ true
      → let r = give_back kvm g cleared m source in
        (Cache.find r.0.regex h ≡ some idx)
        × (Cache.get r.0.regex idx ≡ some (record e { item = cleared }))
        × Memᴰ e.item r.1
  unfolding give_back reset_to tail_reset is_reset_needed Cache.find Cache.get
  give_back_stale cleared m source h idx e calm found stored owned = rw calm (
    find_from-foreach_owned cleared h 0 m.regex.cache ∙ found,
    get_elem?-foreach_owned cleared idx m.regex.cache e stored owned,
    mem-foreach_owned cleared idx m.regex.cache e stored owned,
  )

-- A machine between two requests.
pub record IsQuiet {V P : Type 0} (m : MachineInstance V P) : Type 0 where
  pub no_ctx : m.ctx ≡ none
  pub no_reset : m.reset_needed ≡ false
  pub no_soft_reset : m.soft_reset_needed ≡ false

-- Whatever a request did, its machine is quiet when it was given back.
pub give_back_idle :
    {V P F : Type 0} (kvm : Tinykvm V) (g : TenantGroup F) (cleared : P)
    (m source : MachineInstance V P)
    → IsQuiet (give_back kvm g cleared m source).0
unfolding give_back reset_to tail_reset is_reset_needed reset_now
give_back_idle kvm g cleared m source = ground arith
