-- ===== src/Tenant/Json.antt =====
-- What the configuration uses of `nlohmann::json`, which is third-party code: `J` is the type of a
-- JSON value and `F` that of a floating point number. A conversion that throws a type error is
-- `none`, and so is a member or an element that is not there.
use libvmod_tinykvm.Common.{ℕ, Bool, Option, List, Str}

pub record Json (J F : Type 0) : Type 0 where
  pub is_array : J → Bool
  pub is_object : J → Bool
  pub is_string : J → Bool
  pub is_boolean : J → Bool
  pub size : J → ℕ
  pub elements : J → List J
  pub items : J → List (Str × J)
  pub contains : J → Str → Bool
  pub member : J → Str → Option J
  pub element : J → ℕ → Option J
  pub get_bool : J → Option Bool
  pub get_float : J → Option F
  pub get_u16 : J → Option ℕ
  pub get_u32 : J → Option ℕ
  pub get_u64 : J → Option ℕ
  pub get_string : J → Option Str
  pub parse : Str → Option J

-- What the process tells of its surroundings: `getenv("HOME")` and `getcwd`.
pub record Environment : Type 0 where
  pub home : Option Str
  pub cwd : Option Str
  -- `strtoull` to the base 16: the value, and whether it set `errno`.
  pub strtoull16 : Str → ℕ × Bool
