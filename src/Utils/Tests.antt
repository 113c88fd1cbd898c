-- ===== src/Utils/Tests.antt =====
-- Runs of the code of lib/libkvm/utils at concrete inputs.
use Prim.Native.Nat.{bit_xor}
use libvmod_tinykvm.Common.{ℕ, ◌+◌, ◌%◌, ◌≡◌, arith, List, [], ◌∷◌}
use libvmod_tinykvm.Utils.Crc.{CrcUnit, crc32c_hw, crc_pieces, joined, crc_pieces-whole}
use libvmod_tinykvm.Utils.XorShift.{XorPrng}

-- A sum modulo 255 in the place of the instructions.
abbrev sum255 : CrcUnit
sum255 = record {
  crc_u8 = λ p a. (p + a) % 255;
  crc_u16 = λ p a. (p + a) % 255;
  crc_u32 = λ p a. (p + a) % 255;
  crc_u16_bytes = λ p a b. omega arith;
  crc_u32_bytes = λ p a b c d. omega arith;
}

abbrev some_bytes : List ℕ
some_bytes = 1 ∷ 2 ∷ 3 ∷ 4 ∷ 5 ∷ 6 ∷ 7 ∷ []

abbrev some_pieces : List (ℕ × List ℕ)
some_pieces = (3, 1 ∷ 2 ∷ []) ∷ (4096, 3 ∷ 4 ∷ 5 ∷ 6 ∷ 7 ∷ []) ∷ []

crc_pieces-whole_example :
    bit_xor (crc_pieces sum255 0xffff_ffff some_pieces) 0xffff_ffff
    ≡ crc32c_hw sum255 64 (joined sum255 some_pieces)
crc_pieces-whole_example = crc_pieces-whole sum255 some_pieces 64

abbrev some_prng : XorPrng
some_prng = record {
  generator = record { state0 = 17; state1 = 42 };
  random_integer = 0;
  counter = 0;
}
