-- ===== src/Program/Storage/Layout.antt =====
-- Where `storage_call` of lib/libkvm/program_instance.cpp puts the buffers on the storage stack.
use libvmod_tinykvm.Common.{
  ℕ, ◌+◌, ◌*◌, ◌%◌, ◌^◌, ◌≤◌, ◌<◌, ◌≡◌, List, [], ◌∷◌, length, arith, sub64,
}
use libvmod_tinykvm.Program.Storage.{VirtBuffer, place, place_buffers, make_frame}

-- The room that the buffers may take, with what each loses to its alignment.
abbrev pub room : List VirtBuffer → ℕ
room [] = 0
room (b ∷ r) = b.len + 7 + room r

-- Buffers one below the other, from `top` down to `bottom`, each at a multiple of 8.
abbrev pub Stacked : ℕ → List VirtBuffer → ℕ → Type 0
Stacked top [] bottom = bottom ≤ top
Stacked top (b ∷ r) bottom = (b.addr + b.len ≤ top) × (b.addr % 8 ≡ 0) × Stacked b.addr r bottom

place_bounds :
    (v n : ℕ)
    → v < 2 ^ 64
    → n ≤ v
    → (place v n + n ≤ v) × (place v n % 8 ≡ 0) × (v ≤ place v n + n + 7) × (place v n < 2 ^ 64)
unfolding place
place_bounds v n h l = (omega arith, omega arith, omega arith, omega arith)

place_buffers-Stacked :
    (v : ℕ) (l : List VirtBuffer)
    → v < 2 ^ 64
    → room l ≤ v
    → Stacked v (place_buffers v l).1 (place_buffers v l).0
      × (v ≤ (place_buffers v l).0 + room l)
      × ((place_buffers v l).0 < 2 ^ 64)
place_buffers-Stacked v [] h m = (omega arith, omega arith, h)
place_buffers-Stacked v (b ∷ r) h m =
    let p = place_bounds v b.len h (omega arith) in
    let q = place_buffers-Stacked (place v b.len) r p.3 (omega arith) in
    ((p.0, p.1, q.0), omega arith, q.2)

-- A call whose buffers fit below the stack gets a frame in which the buffers lie one below the
-- other, apart, each at a multiple of 8, then their array of 16 bytes each, then the stack, at a
-- multiple of 16.
pub make_frame_lem :
    (top : ℕ) (l : List VirtBuffer)
    → top < 2 ^ 64
    → room l + length l * 16 ≤ top
    → Stacked top (make_frame top l).buffers ((make_frame top l).array + length l * 16)
      × ((make_frame top l).stack ≤ (make_frame top l).array)
      × ((make_frame top l).stack % 16 ≡ 0)
      × (top ≤ (make_frame top l).stack + room l + length l * 16 + 15)
unfolding make_frame
make_frame_lem top l h m =
    let placed = place_buffers-Stacked top l h (omega arith) in
    let v = (place_buffers top l).0 in
    let array_end : sub64 v (length l * 16) + length l * 16 ≡ v =
      omega (arith, placed.1, placed.2) in
    (rw array_end placed.0, omega arith, omega arith, omega (arith, placed.1, array_end))
