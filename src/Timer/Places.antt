-- ===== src/Timer/Places.antt =====
-- Where an id stands: how often the lists of lib/libkvm/utils/cpptime.hpp hold it, and what the
-- table of events has at it.
use libvmod_tinykvm.Common.{
  ℕ, zero, suc, ◌<◌, ◌≡◌, ◌≢◌, true, false, Option, none, some, List, [], ◌∷◌, ◌++◌, length,
  get_elem?, set, ◌==◌, if◌then◌else◌, refl, some-inj, ◌∙◌, arith, inl, inr, Option-cases, ap,
}
use libvmod_tinykvm.Timer.{Event, TimeEvent, insert, take_ref, disarm}

abbrev pub count_refs : ℕ → List TimeEvent → ℕ
count_refs i [] = 0
count_refs i (x ∷ xs) = if x.ref == i then suc (count_refs i xs) else count_refs i xs

abbrev pub count_running : ℕ → Option TimeEvent → ℕ
count_running i none = 0
count_running i (some te) = if te.ref == i then 1 else 0

pub count_refs-insert :
    (i : ℕ) (te : TimeEvent) (xs : List TimeEvent)
    → count_refs i (insert te xs) ≡ count_refs i (te ∷ xs)
unfolding insert
count_refs-insert i te [] = refl
count_refs-insert i te (x ∷ xs) = ground (arith, count_refs-insert i te xs)

pub count_refs-take_ref :
    (i id : ℕ) (xs ys : List TimeEvent)
    → take_ref id xs ≡ some ys
    → count_refs i xs ≡ (if id == i then suc (count_refs i ys) else count_refs i ys)
unfolding take_ref
count_refs-take_ref i id [] ys h = cc
count_refs-take_ref i id (x ∷ xs) ys h = elim (Option-cases (take_ref id xs)) [
  | inl e ↦ ground arith
  | inr (zs, e) ↦ ground (arith, count_refs-take_ref i id xs zs e)
]

pub count_refs-take_ref-none :
    (id : ℕ) (xs : List TimeEvent) → take_ref id xs ≡ none → count_refs id xs ≡ 0
unfolding take_ref
count_refs-take_ref-none id [] h = refl
count_refs-take_ref-none id (x ∷ xs) h = ground (arith, count_refs-take_ref-none id xs)

module _ {H : Type 0} where
  pub length-disarm : (es : List (Event H)) (i : ℕ) → length (disarm es i) ≡ length es
  length-disarm [] i = refl
  length-disarm (e ∷ es) zero = refl
  length-disarm (e ∷ es) (suc i) = omega (arith, length-disarm es i)

  pub get_elem?-disarm_ne :
      (es : List (Event H)) (i j : ℕ) → i ≢ j → get_elem? (disarm es i) j ≡ get_elem? es j
  get_elem?-disarm_ne [] i j h = refl
  get_elem?-disarm_ne (e ∷ es) zero zero h = absurd (h refl)
  get_elem?-disarm_ne (e ∷ es) zero (suc j) h = refl
  get_elem?-disarm_ne (e ∷ es) (suc i) zero h = refl
  get_elem?-disarm_ne (e ∷ es) (suc i) (suc j) h = get_elem?-disarm_ne es i j (λ e. h (ap suc e))

  -- The event of a timer that waits can be called, and that of a free id cannot.
  abbrev pub IsArmed : Option (Event H) → Type 0
  IsArmed none = ⊥
  IsArmed (some e) = (e.valid ≡ true) × (h : H) × (e.handler ≡ some h)

  abbrev pub IsDisarmed : Option (Event H) → Type 0
  IsDisarmed none = ⊥
  IsDisarmed (some e) = (e.valid ≡ false) × (e.handler ≡ none)

  pub disarm-IsDisarmed :
      (es : List (Event H)) (i : ℕ) → i < length es → IsDisarmed (get_elem? (disarm es i) i)
  disarm-IsDisarmed [] i h = elim h [ ]
  disarm-IsDisarmed (e ∷ es) zero h = (refl, refl)
  disarm-IsDisarmed (e ∷ es) (suc i) h = disarm-IsDisarmed es i (omega arith)

  -- A valid event has a handler.
  abbrev pub IsWhole : Event H → Type 0
  IsWhole e = e.valid ≡ true → (h : H) × (e.handler ≡ some h)

  abbrev pub AllWhole : List (Event H) → Type 0
  AllWhole [] = Unit
  AllWhole (e ∷ es) = IsWhole e × AllWhole es

  pub AllWhole-append :
      (es : List (Event H)) (e : Event H) → AllWhole es → IsWhole e → AllWhole (es ++ (e ∷ []))
  AllWhole-append [] e a w = (w, tt)
  AllWhole-append (x ∷ es) e a w = (a.0, AllWhole-append es e a.1 w)

  pub AllWhole-set :
      (es : List (Event H)) (i : ℕ) (e : Event H) → AllWhole es → IsWhole e → AllWhole (set es i e)
  AllWhole-set [] i e a w = tt
  AllWhole-set (x ∷ es) zero e a w = (w, a.1)
  AllWhole-set (x ∷ es) (suc i) e a w = (a.0, AllWhole-set es i e a.1 w)

  pub AllWhole-disarm : (es : List (Event H)) (i : ℕ) → AllWhole es → AllWhole (disarm es i)
  AllWhole-disarm [] i a = tt
  AllWhole-disarm (x ∷ es) zero a = (λ f. cc, a.1)
  AllWhole-disarm (x ∷ es) (suc i) a = (a.0, AllWhole-disarm es i a.1)

  pub AllWhole-IsArmed :
      (es : List (Event H)) (i : ℕ) (e : Event H)
      → AllWhole es
      → get_elem? es i ≡ some e
      → e.valid ≡ true
      → IsArmed (get_elem? es i)
  AllWhole-IsArmed [] i e a g v = cc
  AllWhole-IsArmed (x ∷ es) zero e a g v =
      let valid : x.valid ≡ true = ap (λ (y : Event H). y.valid) (some-inj x e g) ∙ v in
      (valid, (a.0 valid).0, (a.0 valid).1)
  AllWhole-IsArmed (x ∷ es) (suc i) e a g v = AllWhole-IsArmed es i e a.1 g v
