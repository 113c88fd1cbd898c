-- ===== src/Common/Options.antt =====
-- Facts on options that the components share.
use mathlib.Core.Path.{◌≡◌, subst, ap}
use mathlib.Core.Option.{Option, none, some}

module _ {ℓ} {A : Type ℓ} where
  abbrev pub get_or : A → Option A → A
  get_or d none = d
  get_or d (some a) = a

  pub some-inj : (a b : A) → some a ≡ some b → a ≡ b
  some-inj a b e = ap (get_or a) e

-- What holds of the value that was computed holds of the value that it is known to be.
pub subst_some {ℓ κ} : {A : Type ℓ} (P : A → Type κ) {a b : A} → some a ≡ some b → P a → P b
subst_some P {a = a} {b = b} e p = subst P (some-inj a b e) p
