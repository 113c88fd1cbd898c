-- ===== src/Utils/Crc.antt =====
-- lib/libkvm/utils/crc32.cpp: CRC32-C by the instructions of SSE 4.2.
-- The memory from `vdata` on is the list of its `len` bytes, `addr` the number of that pointer.
-- The instructions `_mm_crc32_u8`, `_u16` and `_u32` are the fields of `CrcUnit`; the hypotheses
-- say that a wider one takes the bytes of its operand in the order of the memory.
use mathlib.Core.List.{foldl, foldl-append}
use Prim.Native.Nat.{bit_xor}
use libvmod_tinykvm.Common.{
  ℕ, ◌+◌, ◌*◌, ◌/◌, ◌%◌, ◌<◌, ◌≡◌, refl, sym, ap, ◌∙◌, arith, List, [], ◌∷◌, ◌++◌, length, ltb,
  ◌==◌, if◌then◌else◌, u64, Bool-cases, inl, inr,
}

abbrev pub le16 : ℕ → ℕ → ℕ
le16 a b = a + 256 * b

abbrev pub le32 : ℕ → ℕ → ℕ → ℕ → ℕ
le32 a b c d = a + 256 * b + 65536 * c + 16777216 * d

pub record CrcUnit : Type 0 where
  pub crc_u8 : ℕ → ℕ → ℕ
  pub crc_u16 : ℕ → ℕ → ℕ
  pub crc_u32 : ℕ → ℕ → ℕ
  pub crc_u16_bytes : (p a b : ℕ) → crc_u16 p (le16 a b) ≡ crc_u8 (crc_u8 p a) b
  pub crc_u32_bytes :
      (p a b c d : ℕ) → crc_u32 p (le32 a b c d) ≡ crc_u8 (crc_u8 (crc_u8 (crc_u8 p a) b) c) d

module _ (unit : CrcUnit) where
  open unit use {crc_u8, crc_u16, crc_u32, crc_u16_bytes, crc_u32_bytes}

  -- `while (vdata < alignto && len > 0)`.
  pub align : ℕ → ℕ → ℕ → List ℕ → ℕ × List ℕ
  align partial addr alignto [] = (partial, [])
  align partial addr alignto (b ∷ bs) =
      if ltb addr alignto then align (crc_u8 partial b) (addr + 1) alignto bs else (partial, b ∷ bs)

  -- `while (len >= 8)`, of two words each.
  pub words8 : ℕ → List ℕ → ℕ × List ℕ
  words8 partial (a ∷ b ∷ c ∷ d ∷ e ∷ f ∷ g ∷ h ∷ bs) =
      words8 (crc_u32 (crc_u32 partial (le32 a b c d)) (le32 e f g h)) bs
  words8 partial bs = (partial, bs)

  -- `while (len >= 4)`.
  pub words4 : ℕ → List ℕ → ℕ × List ℕ
  words4 partial (a ∷ b ∷ c ∷ d ∷ bs) = words4 (crc_u32 partial (le32 a b c d)) bs
  words4 partial bs = (partial, bs)

  abbrev pub two : ℕ → List ℕ → ℕ × List ℕ
  two partial (a ∷ b ∷ bs) = (crc_u16 partial (le16 a b), bs)
  two partial bs = (partial, bs)

  abbrev pub one : ℕ → List ℕ → ℕ
  one partial (a ∷ bs) = crc_u8 partial a
  one partial [] = partial

  -- `if (len & 2)` and `if (len & 1)`.
  pub rest : ℕ → List ℕ → ℕ
  rest partial bs =
      let len = length bs in
      let (p, left) = if (len / 2) % 2 == 1 then two partial bs else (partial, bs) in
      if len % 2 == 1 then one p left else p

  -- `alignto` is the address rounded up to a multiple of 4.
  pub crc32c_hw_partial : ℕ → ℕ → List ℕ → ℕ
  crc32c_hw_partial partial addr bs =
      let (p1, bs1) = align partial addr (u64 (addr + 3) / 4 * 4) bs in
      let (p2, bs2) = words8 p1 bs1 in let (p3, bs3) = words4 p2 bs2 in rest p3 bs3

  pub crc32c_hw : ℕ → List ℕ → ℕ
  crc32c_hw addr bs = bit_xor (crc32c_hw_partial 0xffff_ffff addr bs) 0xffff_ffff

  align-foldl :
      (p addr alignto : ℕ) (bs : List ℕ)
      → let r = align p addr alignto bs in foldl crc_u8 r.0 r.1 ≡ foldl crc_u8 p bs
  unfolding align
  align-foldl p addr alignto [] = refl
  align-foldl p addr alignto (b ∷ bs) = elim (Bool-cases (ltb addr alignto)) [
    | inl more ↦ rw more (align-foldl (crc_u8 p b) (addr + 1) alignto bs)
    | inr done ↦ rw done
  ]

  words8-foldl :
      (p : ℕ) (bs : List ℕ) → let r = words8 p bs in foldl crc_u8 r.0 r.1 ≡ foldl crc_u8 p bs
  unfolding words8
  words8-foldl p (a ∷ b ∷ c ∷ d ∷ e ∷ f ∷ g ∷ h ∷ bs) =
      words8-foldl (crc_u32 (crc_u32 p (le32 a b c d)) (le32 e f g h)) bs ∙ simp crc_u32_bytes
  words8-foldl p bs = refl

  words4-foldl :
      (p : ℕ) (bs : List ℕ) → let r = words4 p bs in foldl crc_u8 r.0 r.1 ≡ foldl crc_u8 p bs
  unfolding words4
  words4-foldl p (a ∷ b ∷ c ∷ d ∷ bs) =
      words4-foldl (crc_u32 p (le32 a b c d)) bs ∙ simp crc_u32_bytes
  words4-foldl p bs = refl

  words4-length : (p : ℕ) (bs : List ℕ) → length (words4 p bs).1 < 4
  unfolding words4
  words4-length p (a ∷ b ∷ c ∷ d ∷ bs) = words4-length (crc_u32 p (le32 a b c d)) bs
  words4-length p bs = omega arith

  rest-foldl : (p : ℕ) (bs : List ℕ) → length bs < 4 → rest p bs ≡ foldl crc_u8 p bs
  unfolding rest
  rest-foldl p [] h = refl
  rest-foldl p (a ∷ []) h = refl
  rest-foldl p (a ∷ b ∷ []) h = crc_u16_bytes p a b
  rest-foldl p (a ∷ b ∷ c ∷ []) h = rw crc_u16_bytes
  rest-foldl p (a ∷ b ∷ c ∷ d ∷ bs) h = absurd (omega arith)

  -- Wherever the bytes lie, the checksum takes each byte once, in order: it is the fold of the
  -- one-byte instruction over them.
  pub crc32c_hw_partial-foldl :
      (p addr : ℕ) (bs : List ℕ) → crc32c_hw_partial p addr bs ≡ foldl crc_u8 p bs
  unfolding crc32c_hw_partial
  crc32c_hw_partial-foldl p addr bs =
      let r1 = align p addr (u64 (addr + 3) / 4 * 4) bs in
      let r2 = words8 r1.0 r1.1 in
      let r3 = words4 r2.0 r2.1 in
      rest-foldl r3.0 r3.1 (words4-length r2.0 r2.1)
      ∙ words4-foldl r2.0 r2.1
      ∙ words8-foldl r1.0 r1.1
      ∙ align-foldl p addr (u64 (addr + 3) / 4 * 4) bs

  -- The loop of `syscall_regex_compile`: one call for each piece of guest memory, with its address.
  pub crc_pieces : ℕ → List (ℕ × List ℕ) → ℕ
  crc_pieces hash [] = hash
  crc_pieces hash ((addr, bs) ∷ more) = crc_pieces (crc32c_hw_partial hash addr bs) more

  abbrev pub joined : List (ℕ × List ℕ) → List ℕ
  joined [] = []
  joined ((addr, bs) ∷ more) = bs ++ joined more

  crc_pieces-foldl :
      (hash : ℕ) (pieces : List (ℕ × List ℕ))
      → crc_pieces hash pieces ≡ foldl crc_u8 hash (joined pieces)
  unfolding crc_pieces
  crc_pieces-foldl hash [] = refl
  crc_pieces-foldl hash ((addr, bs) ∷ more) =
      crc_pieces-foldl (crc32c_hw_partial hash addr bs) more
      ∙ ap (λ (h : ℕ). foldl crc_u8 h (joined more)) (crc32c_hw_partial-foldl hash addr bs)
      ∙ sym (foldl-append crc_u8 hash bs (joined more))

  -- However guest memory splits a text, and wherever its pieces lie, their checksum is that of
  -- the whole text at any one address.
  pub crc_pieces-whole :
      (pieces : List (ℕ × List ℕ)) (addr : ℕ)
      → bit_xor (crc_pieces 0xffff_ffff pieces) 0xffff_ffff ≡ crc32c_hw addr (joined pieces)
  unfolding crc32c_hw
  crc_pieces-whole pieces addr =
      ap (λ (h : ℕ). bit_xor h 0xffff_ffff)
        (crc_pieces-foldl 0xffff_ffff pieces
          ∙ sym (crc32c_hw_partial-foldl 0xffff_ffff addr (joined pieces)))
