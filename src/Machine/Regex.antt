-- ===== src/Machine/Regex.antt =====
-- lib/libkvm/system_calls_regex.cpp: compiling and freeing the regexes of a machine. `compile` is
-- `VRE_compile`, which may refuse a pattern, and `crc32c` the checksum of a text. The pattern is
-- the guest memory that the call names. An exception is `none`.
use libvmod_tinykvm.Common.{
  ℕ, ◌<◌, ◌≡◌, ◌≢◌, Option, none, some, refl, Str, length, Option-cases, inl, inr, subst_some,
}
use libvmod_tinykvm.Cache
use libvmod_tinykvm.Cache.{Cache, Entry}
use libvmod_tinykvm.Cache.Slots.{Managed, manage-Managed}

module _ {P : Type 0} (crc32c : Str → ℕ) (compile : Str → Option P) where
  abbrev pub managed : Cache P → ℕ → Option P → Option (Cache P × ℕ)
  managed c hash none = none
  managed c hash (some re) = Cache.manage c re hash

  abbrev pub or_compile : Cache P → Str → Option ℕ → Option (Cache P × ℕ)
  or_compile c pattern (some idx) = some (c, idx)
  or_compile c pattern none = managed c (crc32c pattern) (compile pattern)

  -- The handle of the pattern: that of an earlier compilation, or of a new one.
  unfoldable pub regex_compile : Cache P → Str → Option (Cache P × ℕ)
  regex_compile c pattern = or_compile c pattern (Cache.find c (crc32c pattern))

  regex_compile_known :
      (c : Cache P) (pattern : Str) (idx : ℕ)
      → Cache.find c (crc32c pattern) ≡ some idx
      → regex_compile c pattern ≡ some (c, idx)
  unfolding regex_compile
  regex_compile_known c pattern idx e = rw e

  -- A compilation that succeeds can be repeated: the second one gives the same handle and changes
  -- nothing. The first one keeps every other entry that the table has, at its index.
  pub regex_compile_again :
      (c : Cache P) (pattern : Str) {c' : Cache P} {idx : ℕ}
      → regex_compile c pattern ≡ some (c', idx)
      → (regex_compile c' pattern ≡ some (c', idx))
        × ((j : ℕ) → j ≢ idx → j < length c.cache → Cache.get c' j ≡ Cache.get c j)
  unfolding regex_compile
  regex_compile_again c pattern {c' = c'} {idx = idx} done =
      elim (Option-cases (Cache.find c (crc32c pattern))) [
        | inr (i, e) ↦
            subst_some
              (λ (r : Cache P × ℕ).
                (regex_compile r.0 pattern ≡ some r)
                × ((j : ℕ) → j ≢ r.1 → j < length c.cache → Cache.get r.0 j ≡ Cache.get c j))
              (rw e at done) (regex_compile_known c pattern i e, λ j ne lt. refl)
        | inl e ↦ elim (Option-cases (compile pattern)) [
          | inl refused ↦ cc (rw (e, refused) at done)
          | inr (re, compiled) ↦
              let m : Managed c re (crc32c pattern) c' idx =
                manage-Managed c re (crc32c pattern) e (rw (e, compiled) at done) in
              (regex_compile_known c' pattern idx m.found, m.others)
        ]
      ]

-- `regex_free` empties the slot; it calls no `VRE_free`.
unfoldable pub regex_free : {P : Type 0} → P → Cache P → ℕ → Option (Cache P)
regex_free blank c idx = Cache.free blank c idx
