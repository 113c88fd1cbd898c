-- ===== src/Program/Pool/Invariant.antt =====
-- No slot of the pool of lib/libkvm/program_instance.cpp is lost or given out twice.
use libvmod_tinykvm.Common.{
  ℕ, zero, suc, ◌+◌, ◌≤◌, ◌<◌, ◌≡◌, ◌≢◌, Bool, true, false, Option, none, some, List, [], ◌∷◌,
  length, get_elem?, set, length-set, get_elem?-set_self, get_elem?-set_ne, count, count_all,
  count_all-set, take_first, count-take_first, ℕ_discrete, sym, refl, arith,
}
use libvmod_tinykvm.Machine.{MachineInstance, set_ctx, set_soft_reset}
use libvmod_tinykvm.Machine.Reset.{IsQuiet}
use libvmod_tinykvm.Program.Pool.{VmPoolItem, Pool, reserve_from}

module _ {V P : Type 0} where
  abbrev pub total : ℕ → Pool V P → ℕ
  total i p = count_all i p.vmqueue + count i p.reserved + count i p.resetting

  -- A queued slot: its machine is quiet and it keeps no program alive.
  abbrev pub IsIdle : Option (VmPoolItem V P) → Type 0
  IsIdle none = ⊥
  IsIdle (some item) = (item.prog_ref ≡ false) × IsQuiet item.mi

  abbrev pub HoldsProgram : Option (VmPoolItem V P) → Type 0
  HoldsProgram none = ⊥
  HoldsProgram (some item) = item.prog_ref ≡ true

  -- `started` are the slots that came up, and `out` those that a function holds at the moment.
  pub record Inv (started out : List ℕ) (p : Pool V P) : Type 0 where
    pub distinct : (i : ℕ) → count i started ≤ 1
    pub four : length p.vmqueue ≡ 4
    pub placed : (i : ℕ) → total i p + count i out ≡ count i started
    pub idle : (i : ℕ) → 0 < count_all i p.vmqueue → IsIdle (get_elem? p.vms i)
    pub busy :
        (i : ℕ)
        → 0 < count i p.reserved + count i p.resetting + count i out
        → HoldsProgram (get_elem? p.vms i)

  pub IsIdle-lt : (vms : List (VmPoolItem V P)) (i : ℕ) → IsIdle (get_elem? vms i) → i < length vms
  IsIdle-lt [] i h = absurd h
  IsIdle-lt (x ∷ vms) zero h = omega arith
  IsIdle-lt (x ∷ vms) (suc i) h = omega (arith, IsIdle-lt vms i h)

  pub HoldsProgram-lt :
      (vms : List (VmPoolItem V P)) (i : ℕ) → HoldsProgram (get_elem? vms i) → i < length vms
  HoldsProgram-lt [] i h = absurd h
  HoldsProgram-lt (x ∷ vms) zero h = omega arith
  HoldsProgram-lt (x ∷ vms) (suc i) h = omega (arith, HoldsProgram-lt vms i h)

-- Give a slot that is in no queue a new item: the queued slots keep theirs.
module _ {V P : Type 0} (started : List ℕ) where
  pub IsIdle-elsewhere :
      (vms : List (VmPoolItem V P)) (s i : ℕ) (item : VmPoolItem V P)
      → i ≢ s
      → IsIdle (get_elem? vms i)
      → IsIdle (get_elem? (set vms s item) i)
  IsIdle-elsewhere vms s i item ne h = rw (get_elem?-set_ne vms item (λ e. ne (sym e))) h

  holds_elsewhere :
      (vms : List (VmPoolItem V P)) (s i : ℕ) (item : VmPoolItem V P)
      → s < length vms
      → item.prog_ref ≡ true
      → (i ≢ s → HoldsProgram (get_elem? vms i))
      → HoldsProgram (get_elem? (set vms s item) i)
  holds_elsewhere vms s i item inside ref h = elim (ℕ_discrete i s) [
    | yes same ↦ rw (same, get_elem?-set_self vms s item inside) ref
    | no ne ↦ rw (get_elem?-set_ne vms item (λ e. ne (sym e))) (h ne)
  ]

  pub taken-Inv :
      (p : Pool V P) (node s : ℕ) (q rest : List ℕ) (item : VmPoolItem V P) (ctx : ℕ) (soft : Bool)
      → get_elem? p.vmqueue node ≡ some q
      → ((i : ℕ) → count i q ≡ count i (s ∷ rest))
      → get_elem? p.vms s ≡ some item
      → Inv started [] p
      → Inv started [] (reserve_from p node (some (s, rest)) ctx soft).0
  taken-Inv p node s q rest item ctx soft eq split found v =
      let new : VmPoolItem V P = record {
        mi = set_soft_reset soft (set_ctx (some ctx) item.mi);
        prog_ref = true;
      } in
      let moved = λ (i : ℕ). count_all-set i node p.vmqueue q rest eq in
      rw found (record {
        distinct = v.distinct;
        four = omega (arith, v.four, length-set p.vmqueue node rest);
        placed = λ i. ground (arith, v.placed i, moved i, split i);
        idle = λ i h. elim (ℕ_discrete i s) [
          | yes same ↦ absurd (ground (arith, v.placed i, v.distinct i, moved i, split i))
          | no ne ↦ IsIdle-elsewhere p.vms s i new ne (v.idle i (ground (arith, moved i, split i)))
        ];
        busy = λ i h.
            holds_elsewhere p.vms s i new
              (IsIdle-lt p.vms s (v.idle s (ground (arith, moved s, split s)))) refl
              (λ ne. v.busy i (ground arith));
      })

  -- A slot leaves the requests, or the deferred tasks.
  pub unreserve-Inv :
      (p : Pool V P) (s : ℕ) (rest : List ℕ)
      → take_first s p.reserved ≡ some rest
      → Inv started [] p
      → Inv started (s ∷ []) (record p { reserved = rest })
  unreserve-Inv p s rest e v = record {
    distinct = v.distinct;
    four = v.four;
    placed = λ i. ground (arith, v.placed i, count-take_first i s p.reserved e);
    idle = v.idle;
    busy = λ i h. v.busy i (ground (arith, count-take_first i s p.reserved e));
  }

  pub unreset-Inv :
      (p : Pool V P) (s : ℕ) (rest : List ℕ)
      → take_first s p.resetting ≡ some rest
      → Inv started [] p
      → Inv started (s ∷ []) (record p { resetting = rest })
  unreset-Inv p s rest e v = record {
    distinct = v.distinct;
    four = v.four;
    placed = λ i. ground (arith, v.placed i, count-take_first i s p.resetting e);
    idle = v.idle;
    busy = λ i h. v.busy i (ground (arith, count-take_first i s p.resetting e));
  }

  pub defer-Inv :
      (p : Pool V P) (s : ℕ)
      → Inv started (s ∷ []) p
      → Inv started [] (record p { resetting = s ∷ p.resetting })
  defer-Inv p s v = record {
    distinct = v.distinct;
    four = v.four;
    placed = λ i. ground (arith, v.placed i);
    idle = v.idle;
    busy = λ i h. v.busy i (ground arith);
  }

  -- A request changes the machine of a slot that it holds.
  pub run_item-Inv :
      (p : Pool V P) (s : ℕ) (f : MachineInstance V P → MachineInstance V P) (item : VmPoolItem V P)
      → 0 < count s p.reserved
      → get_elem? p.vms s ≡ some item
      → Inv started [] p
      → Inv started [] (record p { vms = set p.vms s (record item { mi = f item.mi }) })
  run_item-Inv p s f item held found v =
      let holds : HoldsProgram (get_elem? p.vms s) = v.busy s (omega arith) in
      record {
        distinct = v.distinct;
        four = v.four;
        placed = v.placed;
        idle = λ i h. elim (ℕ_discrete i s) [
          | yes same ↦ absurd (omega (arith, v.placed s, v.distinct s, rw same at h))
          | no ne ↦ IsIdle-elsewhere p.vms s i (record item { mi = f item.mi }) ne (v.idle i h)
        ];
        busy = λ i h.
            holds_elsewhere p.vms s i (record item { mi = f item.mi })
              (HoldsProgram-lt p.vms s holds) (rw found at holds) (λ ne. v.busy i h);
      }
