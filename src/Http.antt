-- ===== src/Http.antt =====
-- The header fields of lib/libkvm/varnish_http.hpp, and the functions on them of
-- lib/libkvm/system_calls_http.cpp that call no other code.
pub mod Calls
pub mod Found
pub mod Kept
pub mod RoundTrip
pub mod Copied
pub mod Tests
use libvmod_tinykvm.Common.{
  ℕ, zero, suc, ◌+◌, ◌-◌, ◌^◌, Bool, true, false, not, ◌&&◌, ◌||◌, Option, none, some, List, [],
  ◌∷◌, ◌++◌, Str, length, get_elem?, take, drop, ltb, leb, ◌==◌, if◌then◌else◌,
}

-- A field is its bytes, from `begin` to `end`, and its flags.
pub record Field : Type 0 where
  pub text : Str
  pub flags : ℕ

-- The fields below `field_count`; what is stored above them is never read.
pub record Http : Type 0 where
  pub fields_max : ℕ
  pub fields : List Field

abbrev pub hdr_first : ℕ
hdr_first = 5

abbrev pub hdr_invalid : ℕ
hdr_invalid = 2 ^ 32 - 1

-- `strncasecmp` finds the first `l` bytes equal: it ends at a zero byte.
abbrev pub lower : ℕ → ℕ
lower c = if leb 65 c && leb c 90 then c + 32 else c

abbrev pub same_name : ℕ → Str → Str → Bool
same_name zero s t = true
same_name (suc l) [] [] = true
same_name (suc l) [] (d ∷ t) = false
same_name (suc l) (c ∷ s) [] = false
same_name (suc l) (c ∷ s) (d ∷ t) = (lower c == lower d) && ((c == 0) || same_name l s t)

abbrev pub byte_is : Option ℕ → ℕ → Bool
byte_is none c = false
byte_is (some d) c = d == c

-- The three tests of `http_findhdr`, in which the length of the field guards the other two.
abbrev pub has_name : ℕ → Str → Str → Bool
has_name l hdr text =
    not (ltb (length text) (l + 1)) && byte_is (get_elem? text l) b':' && same_name l hdr text

-- The loop of `http_findhdr`, from the index `u` on.
abbrev pub find_from : ℕ → Str → ℕ → List Field → ℕ
find_from l hdr u [] = 0
find_from l hdr u (f ∷ fs) =
    let rest = find_from l hdr (suc u) fs in if has_name l hdr f.text then u else rest

unfoldable pub http_findhdr : Http → ℕ → Str → ℕ
http_findhdr hp l hdr = find_from l hdr hdr_first (drop hdr_first hp.fields)

-- `none` is a failed assertion.
unfoldable pub http_unsetat : Http → ℕ → Option Http
http_unsetat hp idx =
    if leb hdr_first idx && ltb idx (length hp.fields)
    then some (record hp { fields = take idx hp.fields ++ drop (suc idx) hp.fields })
    else none

-- `std::memchr`, as an index.
abbrev pub memchr : ℕ → Str → Option ℕ
memchr c [] = none
memchr c (d ∷ s) =
    let rest = memchr c s in
    if d == c then some 0 else elim rest [ none ↦ none | some i ↦ some (suc i) ]

abbrev pub colon_is_inside : Str → Option ℕ → Bool
colon_is_inside s none = false
colon_is_inside s (some k) =
    not (k == 0) && not (k == length s - 1) && byte_is (get_elem? s (suc k)) b' '

-- `false` is an exception.
unfoldable pub validate_guest_field : Str → Bool
validate_guest_field s =
    leb 4 (length s)
    && ltb (length s) 0x10000
    && colon_is_inside s (memchr b':' s)
    && not (byte_is (get_elem? s 0) b' ')
    && not (byte_is (get_elem? s (length s - 1)) b' ')

-- `strchr`, which ends at the first zero byte and finds that byte too.
abbrev pub strchr : Str → ℕ → Bool
strchr [] c = false
strchr (d ∷ s) c =
    let rest = strchr s c in if d == c then true else (if d == 0 then false else rest)

-- The literal with the zero byte that ends it.
abbrev pub illegal_chars : Str
illegal_chars = b':' ∷ b' ' ∷ 0 ∷ 8 ∷ 27 ∷ 12 ∷ 9 ∷ 13 ∷ 10 ∷ 0 ∷ []

abbrev pub all_legal : Str → Bool
all_legal [] = true
all_legal (c ∷ s) = not (strchr illegal_chars c) && all_legal s

unfoldable pub validate_guest_field_key : Str → Bool
validate_guest_field_key s = leb 1 (length s) && ltb (length s) 0x10000 && all_legal s
