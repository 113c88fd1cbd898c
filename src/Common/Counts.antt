-- ===== src/Common/Counts.antt =====
-- How often a number stands in a list.
use Prim.Native.Nat.{ℕ, zero, suc, ◌+◌}
use mathlib.Core.Path.{◌≡◌}
use mathlib.Core.Option.{Option, none, some}
use mathlib.Core.List.{List, [], ◌∷◌}
use native.Mathlib.Omega.{arith}
use mathlib.Core.Logic.{inl, inr}
use libvmod_tinykvm.Common.Tests.{◌==◌, if◌then◌else◌, Option-cases}
use libvmod_tinykvm.Common.Lists.{get_elem?, set}

abbrev pub count : ℕ → List ℕ → ℕ
count i [] = 0
count i (x ∷ xs) = if x == i then suc (count i xs) else count i xs

abbrev pub count_all : ℕ → List (List ℕ) → ℕ
count_all i [] = 0
count_all i (xs ∷ xss) = count i xs + count_all i xss

pub count_all-set :
    (i n : ℕ) (xss : List (List ℕ)) (xs ys : List ℕ)
    → get_elem? xss n ≡ some xs
    → count_all i (set xss n ys) + count i xs ≡ count_all i xss + count i ys
count_all-set i n [] xs ys h = ground arith
count_all-set i zero (zs ∷ xss) xs ys h = ground arith
count_all-set i (suc n) (zs ∷ xss) xs ys h = ground (arith, count_all-set i n xss xs ys)

-- A list without the first place of a number, if it has one.
unfoldable pub take_first : ℕ → List ℕ → Option (List ℕ)
take_first i [] = none
take_first i (x ∷ xs) =
    let rest = take_first i xs in
    if x == i then some xs else elim rest [ none ↦ none | some ys ↦ some (x ∷ ys) ]

pub count-take_first :
    (i j : ℕ) (xs : List ℕ) {ys : List ℕ}
    → take_first j xs ≡ some ys
    → count i xs ≡ count i (j ∷ ys)
unfolding take_first
count-take_first i j [] h = ground arith
count-take_first i j (x ∷ xs) {ys = ys} h = elim (Option-cases (take_first j xs)) [
  | inl e ↦ ground arith
  | inr (zs, e) ↦ ground (arith, count-take_first i j xs {ys = zs} e)
]
