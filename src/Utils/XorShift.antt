-- ===== src/Utils/XorShift.antt =====
-- lib/libkvm/utils/xorshift.hpp: the random numbers of a machine. A `uint64_t` is a number below
-- 2 ^ 64; an operation returns the new generator and its result. `randFloat` and `randNorm` are
-- left out.
use Prim.Native.Nat.{bit_xor}
use native.Mathlib.Nat.{
  div-add-mod, mod-eq_of_lt, pow-suc, one-le-pow, mul-add-mod_self_left, mul-le-mul_right,
}
use native.Mathlib.Numerals.{sub-one}
use libvmod_tinykvm.Common.{
  ℕ, zero, suc, ◌+◌, ◌-◌, ◌*◌, ◌/◌, ◌%◌, ◌^◌, ◌≤◌, ◌<◌, ◌≡◌, refl, arith, false, Option, none, some,
  ltb, ◌==◌, if◌then◌else◌, u32, u64, ap, ◌∙◌, sym,
}

pub record XorShift128Plus : Type 0 where
  pub state0 : ℕ
  pub state1 : ℕ

-- `operator()`.
pub draw : XorShift128Plus → XorShift128Plus × ℕ
draw s =
    let y = s.state1 in
    let x = bit_xor s.state0 (u64 (s.state0 * 2 ^ 23)) in
    let new1 = bit_xor (bit_xor (bit_xor x y) (x / 2 ^ 17)) (y / 2 ^ 26) in
    (record { state0 = y; state1 = new1 }, u64 (new1 + y))

pub record XorPrng : Type 0 where
  pub generator : XorShift128Plus
  pub random_integer : ℕ
  pub counter : ℕ

abbrev pub advance : XorPrng → XorPrng × ℕ
advance r = let (g, n) = draw r.generator in (record r { generator = g }, n)

-- The difference of two `uint32_t` values, and the remainder by 0, which C++ leaves undefined.
pub rand : XorPrng → ℕ → ℕ → Option (XorPrng × ℕ)
rand r min max =
    let range = u32 (max + 2 ^ 32 - min) in
    let (r', n) = advance r in if range == 0 then none else some (r', u32 (u64 (n % range + min)))

-- `max` is an `int`, given by its 32 bits; the conversion to 64 bits keeps its sign.
abbrev pub sign_extend : ℕ → ℕ
sign_extend n = if ltb n (2 ^ 31) then n else n + (2 ^ 64 - 2 ^ 32)

pub rand_range : XorPrng → ℕ → Option (XorPrng × ℕ)
rand_range r max =
    let range = sign_extend max in
    let (r', n) = advance r in if range == 0 then none else some (r', u32 (n % range))

-- `& INT_MAX` keeps the low 31 bits.
pub rand_i32 : XorPrng → XorPrng × ℕ
rand_i32 r = let (r', n) = advance r in (r', n % 2 ^ 31)

pub rand_u64 : XorPrng → XorPrng × ℕ
rand_u64 r = advance r

-- The bits of one integer, from the highest down; a new integer when all were used.
abbrev pub refill : XorPrng → XorPrng
refill r =
    let (r', n) = advance r in
    if r.counter == 0 then record r' { counter = 64; random_integer = n } else r

pub rand_bool : XorPrng → XorPrng × ℕ
rand_bool r =
    let f = refill r in
    let c = f.counter - 1 in (record f { counter = c }, f.random_integer / 2 ^ c % 2)

-- For a range of 32-bit numbers that is not empty, `rand` gives a number of the range, and draws once.
pub rand_bounds :
    (r : XorPrng) (min max : ℕ)
    → min < max
    → max < 2 ^ 32
    → (r' : XorPrng) × (n : ℕ) × (rand r min max ≡ some (r', n))
      × (min ≤ n)
      × (n < max)
      × (r' ≡ (rand_u64 r).0)
unfolding rand rand_u64
rand_bounds r min max lt fits =
    let n = (advance r).1 in
    let range : u32 (max + 2 ^ 32 - min) ≡ max - min = omega arith in
    let some_range : (max - min == 0) ≡ false = ground arith in
    let small : n % (max - min) < max - min = omega arith in
    (
      (advance r).0,
      u32 (u64 (n % (max - min) + min)),
      rw (range, some_range),
      omega arith,
      omega arith,
      refl,
    )

-- `n` draws of a bit, each appended below those before.
pub rand_bools : ℕ → XorPrng → ℕ → XorPrng × ℕ
rand_bools zero r acc = (r, acc)
rand_bools (suc n) r acc = let (r', bit) = rand_bool r in rand_bools n r' (acc * 2 + bit)

mod-twice : (x p : ℕ) → 0 < p → x % (2 * p) ≡ x / p % 2 * p + x % p
mod-twice x p pos =
    let q = x / p in
    let low = q % 2 * p + x % p in
    let split : x ≡ 2 * p * (q / 2) + low =
      omega (arith, div-add-mod x p, ap (λ (t : ℕ). p * t) (div-add-mod q 2)) in
    let bit : q % 2 * p ≤ 1 * p = mul-le-mul_right p (omega arith) in
    ap (λ (t : ℕ). t % (2 * p)) split
    ∙ mul-add-mod_self_left (2 * p) (q / 2) low
    ∙ mod-eq_of_lt (omega arith)

mod-pow-suc : (x k : ℕ) → x % 2 ^ suc k ≡ x / 2 ^ k % 2 * 2 ^ k + x % 2 ^ k
mod-pow-suc x k =
    ap (λ (t : ℕ). x % t) (omega (arith, pow-suc 2 k))
    ∙ mod-twice x (2 ^ k) (one-le-pow k 2 (omega arith))

refill_none : (r : XorPrng) (k : ℕ) → r.counter ≡ suc k → refill r ≡ r
refill_none r k e = ground arith

rand_bools-counter :
    (k : ℕ) (r : XorPrng) (acc : ℕ)
    → r.counter ≡ k
    → rand_bools k r acc ≡ (record r { counter = 0 }, acc * 2 ^ k + r.random_integer % 2 ^ k)
unfolding rand_bools rand_bool
rand_bools-counter zero r acc e = ground (arith, e)
rand_bools-counter (suc k) r acc e =
    let low : (acc * 2 + r.random_integer / 2 ^ k % 2) * 2 ^ k + r.random_integer % 2 ^ k
        ≡ acc * 2 ^ suc k + r.random_integer % 2 ^ suc k =
      omega (arith, mod-pow-suc r.random_integer k, ap (λ (t : ℕ). acc * t) (pow-suc 2 k)) in
    rw (refill_none r k e, e, sub-one)
      (rand_bools-counter k (record r { counter = k }) (acc * 2 + r.random_integer / 2 ^ k % 2) refl
        ∙ λ i. (record r { counter = 0 }, low i))

refill_twice : (r : XorPrng) → refill (refill r) ≡ refill r
refill_twice r = ground arith

rand_bools-refill :
    (k : ℕ) (r : XorPrng) (acc : ℕ) → rand_bools (suc k) (refill r) acc ≡ rand_bools (suc k) r acc
unfolding rand_bools rand_bool
rand_bools-refill k r acc = rw (refill_twice r)

draw-lt : (s : XorShift128Plus) → (draw s).1 < 2 ^ 64
unfolding draw
draw-lt s = omega arith

-- Sixty-four bits drawn from a generator that has none left cost one 64-bit number and spell it,
-- the highest bit first.
pub rand_bools_whole :
    (r : XorPrng)
    → r.counter ≡ 0
    → let (g, n) = draw r.generator in
      rand_bools 64 r 0 ≡ (record { generator = g; random_integer = n; counter = 0 }, n)
rand_bools_whole r e =
    let (g, n) = draw r.generator in
    let drawn : refill r ≡ record { generator = g; random_integer = n; counter = 64 } = rw e in
    let whole : 0 * 2 ^ 64 + n % 2 ^ 64 ≡ n = omega (arith, draw-lt r.generator) in
    sym (rand_bools-refill 63 r 0)
    ∙ rand_bools-counter 64 (refill r) 0 (rw e)
    ∙ rw drawn (λ i. (record { generator = g; random_integer = n; counter = 0 }, whole i))
