-- ===== src/Common/Act.antt =====
-- Code that changes a state in place and may throw: what was changed before the exception stays
-- changed. `Fault` tells the exceptions apart as the handlers of lib/libkvm/backend.cpp do.
use libvmod_tinykvm.Common.{◌≡◌, refl, sym, ap, subst, Bool, true, false, Option, none, some, if◌then◌else◌}

pub data Fault : Type 0 where
  timeout : Fault
  memory : Bool → Fault
  machine : Fault
  other : Fault

pub data Outcome (A : Type 0) : Type 0 where
  done : A → Outcome A
  threw : Fault → Outcome A

abbrev pub Act : Type 0 → Type 0 → Type 0
Act S A = S → S × Outcome A

abbrev pub then_do : {S A B : Type 0} → S × Outcome A → (A → Act S B) → S × Outcome B
then_do (s, done a) next = next a s
then_do (s, threw e) next = (s, threw e)

infixl 5 ◌>>=◌ ◌>>◌
abbrev pub ◌>>=◌ : {S A B : Type 0} → Act S A → (A → Act S B) → Act S B
m >>= next = λ s. then_do (m s) next

abbrev pub ◌>>◌ : {S A B : Type 0} → Act S A → Act S B → Act S B
m >> next = m >>= λ _. next

module _ {S : Type 0} where
  abbrev pub give : {A : Type 0} → A → Act S A
  give a s = (s, done a)

  abbrev pub raise : {A : Type 0} → Fault → Act S A
  raise e s = (s, threw e)

  abbrev pub change : (S → S) → Act S (Unit {0})
  change f s = (f s, done tt)

  abbrev pub state : Act S S
  state s = (s, done s)

  abbrev pub throw_unless : Fault → Bool → Act S (Unit {0})
  throw_unless e true = give tt
  throw_unless e false = raise e

  -- A call of other code that answers, or throws.
  abbrev pub answered : {A : Type 0} → Fault → Option A → Act S A
  answered e none = raise e
  answered e (some a) = give a

  -- What holds after an action: `Q` after its end and `X` after an exception.
  abbrev pub Post : {A : Type 0} → (S → A → Type 0) → (S → Fault → Type 0) → S × Outcome A → Type 0
  Post Q X (s, done a) = Q s a
  Post Q X (s, threw e) = X s e

  Post-then_do :
      {A B : Type 0} (Q : S → A → Type 0) (R : S → B → Type 0) (X : S → Fault → Type 0)
      (r : S × Outcome A) (next : A → Act S B)
      → Post Q X r
      → ((s : S) (a : A) → Q s a → Post R X (next a s))
      → Post R X (then_do r next)
  Post-then_do Q R X (s, done a) next q k = k s a q
  Post-then_do Q R X (s, threw e) next x k = x

  pub Post-bind :
      {A B : Type 0} (Q : S → A → Type 0) (R : S → B → Type 0) (X : S → Fault → Type 0)
      (m : Act S A) (next : A → Act S B) (s : S)
      → Post Q X (m s)
      → ((s' : S) (a : A) → Q s' a → Post R X (next a s'))
      → Post R X ((m >>= next) s)
  Post-bind Q R X m next s h k = Post-then_do Q R X (m s) next h k

  pub Post-throw_unless :
      {B : Type 0} (R : S → B → Type 0) (X : S → Fault → Type 0) (e : Fault) (b : Bool)
      (next : Act S B) (s : S)
      → X s e
      → (b ≡ true → Post R X (next s))
      → Post R X ((throw_unless e b >> next) s)
  Post-throw_unless R X e true next s x k = k refl
  Post-throw_unless R X e false next s x k = x

  pub Post-answered :
      {A B : Type 0} (R : S → B → Type 0) (X : S → Fault → Type 0) (e : Fault) (o : Option A)
      (next : A → Act S B) (s : S)
      → X s e
      → ((a : A) → o ≡ some a → Post R X (next a s))
      → Post R X ((answered e o >>= next) s)
  Post-answered R X e none next s x k = x
  Post-answered R X e (some a) next s x k = k a refl

  pub Post-if :
      {A : Type 0} (Q : S → A → Type 0) (X : S → Fault → Type 0) (b : Bool) (m n : Act S A) (s : S)
      → Post Q X (m s)
      → Post Q X (n s)
      → Post Q X ((if b then m else n) s)
  Post-if Q X true m n s h k = h
  Post-if Q X false m n s h k = k

  -- An action that changes nothing keeps what holds.
  abbrev pub Still : {A : Type 0} → S → S × Outcome A → Type 0
  Still s (s', o) = s' ≡ s

  pub Post-Still :
      {A : Type 0} (Q : S → A → Type 0) (X : S → Fault → Type 0) (s : S) (r : S × Outcome A)
      → Still s r
      → ((a : A) → Q s a)
      → ((e : Fault) → X s e)
      → Post Q X r
  Post-Still Q X s (s', done a) same q x = subst (λ t. Q t a) (sym same) (q a)
  Post-Still Q X s (s', threw e) same q x = subst (λ t. X t e) (sym same) (x e)

  pub Still-throw_unless :
      {B : Type 0} (e : Fault) (b : Bool) (next : Act S B) (s : S)
      → Still s (next s)
      → Still s ((throw_unless e b >> next) s)
  Still-throw_unless e true next s k = k
  Still-throw_unless e false next s k = refl

  pub Still-answered :
      {A B : Type 0} (e : Fault) (o : Option A) (next : A → Act S B) (s : S)
      → ((a : A) → Still s (next a s))
      → Still s ((answered e o >>= next) s)
  Still-answered e none next s k = refl
  Still-answered e (some a) next s k = k a

  -- What the last action of a sequence establishes, whatever was before it.
  pub Post-after :
      {A B : Type 0} (R : S → B → Type 0) (m : Act S A) (next : A → Act S B) (s : S)
      → ((s' : S) (a : A) → Post R (λ _ _. Unit {0}) (next a s'))
      → Post R (λ _ _. Unit {0}) ((m >>= next) s)
  Post-after R m next s k =
      Post-bind (λ _ _. Unit {0}) R (λ _ _. Unit {0}) m next s (always (m s)) (λ s' a u. k s' a)
    where
      always : {A : Type 0} (r : S × Outcome A) → Post (λ _ _. Unit {0}) (λ _ _. Unit {0}) r
      always (s', done a) = tt
      always (s', threw e) = tt

  -- A sequence whose first action ends goes on with what it gives.
  pub bind-done :
      {A B : Type 0} (m : Act S A) (next : A → Act S B) (s : S) {s' : S} {a : A}
      → m s ≡ (s', done a)
      → (m >>= next) s ≡ next a s'
  bind-done m next s e = ap (λ r. then_do r next) e

  -- What holds of the state after an action, in either case.
  abbrev pub Keeps : {A : Type 0} → (S → Type 0) → S × Outcome A → Type 0
  Keeps R r = R r.0

  pub Keeps-bind :
      {A B : Type 0} (R : S → Type 0) (m : Act S A) (next : A → Act S B) (s : S)
      → Keeps R (m s)
      → ((s' : S) (a : A) → R s' → Keeps R (next a s'))
      → Keeps R ((m >>= next) s)
  Keeps-bind R m next s h k = from (m s) h
    where
      from : (r : _) → Keeps R r → Keeps R (then_do r next)
      from (s', done a) h = k s' a h
      from (s', threw e) h = h
