-- ===== src/Tenant/After.antt =====
-- How an outcome of Outcome.antt and a built value of Values.antt are reasoned on: what holds after
-- an exception and what holds after success are two predicates.
use libvmod_tinykvm.Common.{
  ◌≡◌, Bool, true, false, Option, none, some, List, [], ◌∷◌, ◌++◌, if◌then◌else◌, refl,
}
use libvmod_tinykvm.Tenant.Group.{TenantGroup}
use libvmod_tinykvm.Tenant.Outcome.{ConfigError, Out, converted, and_then, for_each}
use libvmod_tinykvm.Tenant.Values.{Built, threw, built, ◌>>=◌, ◌>>◌, throw_unless, stored}

abbrev pub All : {A : Type 0} → (A → Type 0) → List A → Type 0
All P [] = Unit
All P (a ∷ r) = P a × All P r

pub All-append_last :
    {A : Type 0} (P : A → Type 0) (l : List A) (a : A) → All P l → P a → All P (l ++ (a ∷ []))
All-append_last P [] a h p = (p, tt)
All-append_last P (b ∷ r) a h p = (h.0, All-append_last P r a h.1 p)

-- What holds of a built value.
abbrev pub Gives : {A : Type 0} → (A → Type 0) → Built A → Type 0
Gives P (threw e) = Unit
Gives P (built a) = P a

pub Gives-bind :
    {A B : Type 0} (P : B → Type 0) (m : Built A) (next : A → Built B)
    → ((a : A) → Gives P (next a))
    → Gives P (m >>= next)
Gives-bind P (threw e) next h = tt
Gives-bind P (built a) next h = h a

pub Gives-throw_unless :
    {B : Type 0} (P : B → Type 0) (e : ConfigError) (b : Bool) (next : Built B)
    → (b ≡ true → Gives P next)
    → Gives P (throw_unless e b >> next)
Gives-throw_unless P e true next h = h refl
Gives-throw_unless P e false next h = tt

pub Gives-if :
    {A : Type 0} (P : A → Type 0) (b : Bool) (m n : Built A)
    → Gives P m
    → Gives P n
    → Gives P (if b then m else n)
Gives-if P true m n g h = g
Gives-if P false m n g h = h

module _ {F : Type 0} (E S : TenantGroup F → Type 0) where
  abbrev pub After : Out F → Type 0
  After (g, none) = S g
  After (g, some e) = E g

  pub After-if : (b : Bool) (o p : Out F) → After o → After p → After (if b then o else p)
  After-if true o p g h = g
  After-if false o p g h = h

  pub After-converted :
      {A : Type 0} (g : TenantGroup F) (a : Option A) (next : A → Out F)
      → E g
      → ((a : A) → After (next a))
      → After (converted g a next)
  After-converted g none next e h = e
  After-converted g (some a) next e h = h a

  pub After-stored :
      {A : Type 0} (P : A → Type 0) (g : TenantGroup F) (m : Built A) (next : A → Out F)
      → E g
      → Gives P m
      → ((a : A) → P a → After (next a))
      → After (stored g m next)
  After-stored P g (threw x) next e p h = e
  After-stored P g (built a) next e p h = h a p

  pub After-and_then :
      (o : Out F) (next : TenantGroup F → Out F)
      → After o
      → ((g : TenantGroup F) → S g → After (next g))
      → After (and_then o next)
  After-and_then (g, none) next s h = h g s
  After-and_then (g, some e) next s h = s

  pub After-for_each :
      {A : Type 0} (l : List A) (body : TenantGroup F → A → Out F) (g : TenantGroup F)
      → S g
      → ((h : TenantGroup F) (a : A) → S h → After (body h a))
      → After (for_each l body g)
  After-for_each [] body g s h = s
  After-for_each (a ∷ r) body g s h =
      After-and_then (body g a) (for_each r body) (h g a s) (λ k t. After-for_each r body k t h)
