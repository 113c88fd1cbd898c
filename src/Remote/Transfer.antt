-- ===== src/Remote/Transfer.antt =====
-- What cURL reads and writes for a fetch of lib/libkvm/system_calls_fetch.cpp: the content, the
-- response headers and the result. The memory of the guest is a parameter.
use libvmod_tinykvm.Common.{
  ℕ, zero, suc, ◌+◌, ◌-◌, ◌*◌, ◌^◌, ◌%◌, ◌<◌, ◌≤◌, ◌≡◌, inl, inr, refl, sym, ap, subst, ◌∙◌, arith, Bool,
  true, false, not, ◌&&◌, ◌||◌, Option, none, some, List, [], ◌∷◌, ◌++◌, Str, length, take, drop, concat,
  min, max, ltb, leb, ◌==◌, if◌then◌else◌, u32, u64, sub64, Bool-cases, length-append,
}
use mathlib.Core.List.{append-nil, append_assoc}

abbrev pub content_type_len : ℕ
content_type_len = 128

-- 256 MB.
abbrev pub curl_buffer_max : ℕ
curl_buffer_max = 256 * 1024 * 1024

abbrev pub curl_resp_headers_min_length : ℕ
curl_resp_headers_min_length = 64

-- `struct opresult`.
pub record OpResult : Type 0 where
  pub status : ℕ
  pub post_buflen : ℕ
  pub post_addr : ℕ
  pub headers : ℕ
  pub headers_length : ℕ
  pub content_addr : ℕ
  pub content_length : ℕ
  pub ct_length : ℕ
  pub ctype : Str

-- What is used of `tinykvm::Machine`; `false` is an exception.
pub record Memory (V : Type 0) : Type 0 where
  pub copy_to_guest : ℕ → Str → V → V × Bool
  pub mmap_allocate : ℕ → V → V × ℕ
  pub mmap_relax : ℕ → ℕ → ℕ → V → V

-- `writeop`, with the bytes that the guest was given.
pub record WriteOp (V : Type 0) : Type 0 where
  pub machine : V
  pub dst : ℕ
  pub max_addr : ℕ
  pub taken : Str

module _ {V : Type 0} (g : Memory V) where
  abbrev pub make_writeop : ℕ → ℕ → V → WriteOp V
  make_writeop addr len v =
      record { machine = v; dst = addr; max_addr = max addr (u64 (addr + len)); taken = [] }

  -- The callback for a part of the content, with what it tells cURL to have taken.
  abbrev pub copied_part : Str → WriteOp V → V × Bool → WriteOp V × ℕ
  copied_part part op (v, true) =
      (
        record op { machine = v; dst = u64 (op.dst + length part); taken = op.taken ++ part },
        length part,
      )
  copied_part part op (v, false) = (record op { machine = v }, 0)

  unfoldable pub write_part : Str → WriteOp V → WriteOp V × ℕ
  write_part part op =
      if ltb op.max_addr (u64 (op.dst + length part))
      then (op, 0)
      else copied_part part op (g.copy_to_guest op.dst part op.machine)

  abbrev pub write_parts : List Str → WriteOp V → WriteOp V
  write_parts [] op = op
  write_parts (part ∷ parts) op = write_parts parts (write_part part op).0

  -- A buffer for the guest and what it holds so far.
  pub record IsWithin (addr len : ℕ) (op : WriteOp V) : Type 0 where
    pub is_at : op.dst ≡ addr + length op.taken
    pub is_in : length op.taken ≤ len
    pub is_end : op.max_addr ≡ addr + len

  copied_part-IsWithin :
      (addr len : ℕ) (part : Str) (op : WriteOp V) (r : V × Bool)
      → addr + len < 2 ^ 64
      → length op.taken + length part ≤ len
      → IsWithin addr len op
      → IsWithin addr len (copied_part part op r).0
  copied_part-IsWithin addr len part op (v, true) small fits k =
      record {
        is_at = omega (arith, k.is_at, small, fits, length-append op.taken part);
        is_in = omega (arith, fits, length-append op.taken part);
        is_end = k.is_end
      }
  copied_part-IsWithin addr len part op (v, false) small fits k =
      record { is_at = k.is_at; is_in = k.is_in; is_end = k.is_end }

  write_part-IsWithin :
      (addr len : ℕ) (part : Str) (op : WriteOp V)
      → addr + len < 2 ^ 63
      → length part < 2 ^ 63
      → IsWithin addr len op
      → IsWithin addr len (write_part part op).0
  unfolding write_part
  write_part-IsWithin addr len part op low short k =
      elim (Bool-cases (ltb op.max_addr (u64 (op.dst + length part)))) [
        | inl full ↦ rw full k
        | inr room ↦
            rw room
              (copied_part-IsWithin addr len part op (g.copy_to_guest op.dst part op.machine)
                (omega (arith, low)) (fits room) k)
      ]
    where
      fits :
          ltb op.max_addr (u64 (op.dst + length part)) ≡ false
          → length op.taken + length part ≤ len
      fits room =
          let at_most : u64 (op.dst + length part) ≤ op.max_addr = ground (arith, room) in
          omega (arith, at_most, short, low, k.is_at, k.is_in, k.is_end)

  -- cURL calls back with parts that its own buffer holds.
  abbrev pub AreShort : List Str → Type 0
  AreShort [] = Unit {0}
  AreShort (part ∷ parts) = (length part < 2 ^ 63) × AreShort parts

  pub write_parts-IsWithin :
      (addr len : ℕ) (parts : List Str) (op : WriteOp V)
      → addr + len < 2 ^ 63
      → AreShort parts
      → IsWithin addr len op
      → IsWithin addr len (write_parts parts op)
  write_parts-IsWithin addr len [] op low short k = k
  write_parts-IsWithin addr len (part ∷ parts) op low (short, more) k =
      write_parts-IsWithin addr len parts (write_part part op).0 low more
        (write_part-IsWithin addr len part op low short k)

  make_writeop-IsWithin :
      (addr len : ℕ) (v : V) → addr + len < 2 ^ 63 → IsWithin addr len (make_writeop addr len v)
  make_writeop-IsWithin addr len v low =
      record { is_at = omega arith; is_in = omega arith; is_end = omega (arith, low) }

  copied_part-taken :
      (part : Str) (op : WriteOp V) (r : V × Bool)
      → r.1 ≡ true
      → (copied_part part op r).0.taken ≡ op.taken ++ part
  copied_part-taken part op (v, true) ok = refl
  copied_part-taken part op (v, false) ok = ground (arith, ok)

  write_part-taken :
      (addr len : ℕ) (part : Str) (op : WriteOp V)
      → addr + len < 2 ^ 63
      → (g.copy_to_guest op.dst part op.machine).1 ≡ true
      → length op.taken + length part ≤ len
      → IsWithin addr len op
      → (write_part part op).0.taken ≡ op.taken ++ part
  unfolding write_part
  write_part-taken addr len part op low writable fits k =
      rw room (copied_part-taken part op (g.copy_to_guest op.dst part op.machine) writable)
    where
      room : ltb op.max_addr (u64 (op.dst + length part)) ≡ false
      room =
          let inside : u64 (op.dst + length part) ≤ op.max_addr =
            omega (arith, fits, low, k.is_at, k.is_end) in
          ground (arith, inside)

  -- Memory that the guest may write takes all parts, if they fit.
  pub write_parts-taken :
      (addr len : ℕ) (parts : List Str) (op : WriteOp V)
      → addr + len < 2 ^ 63
      → ((a : ℕ) (s : Str) (v : V) → (g.copy_to_guest a s v).1 ≡ true)
      → length op.taken + length (concat parts) ≤ len
      → IsWithin addr len op
      → (write_parts parts op).taken ≡ op.taken ++ concat parts
  write_parts-taken addr len [] op low writable fits k = sym (append-nil op.taken)
  write_parts-taken addr len (part ∷ parts) op low writable fits k =
      let taken = write_part-taken addr len part op low (writable op.dst part op.machine)
        (omega (arith, fits, length-append part (concat parts))) k in
      write_parts-taken addr len parts (write_part part op).0 low writable
        (omega (
          arith, fits, length-append part (concat parts), ap length taken,
          length-append op.taken part,
        ))
        (write_part-IsWithin addr len part op low
          (omega (arith, fits, low, length-append part (concat parts))) k)
      ∙ ap (λ s. s ++ concat parts) taken
      ∙ append_assoc op.taken part (concat parts)

  -- The content of a fetch goes into the buffer that the guest named, one part behind the other and
  -- never past its end, whatever cURL delivers. The buffer lies below the address `2 ^ 63`, and each
  -- part is shorter than that.
  pub write_parts_within :
      (addr len : ℕ) (parts : List Str) (v : V)
      → addr + len < 2 ^ 63
      → AreShort parts
      → IsWithin addr len (write_parts parts (make_writeop addr len v))
  write_parts_within addr len parts v low short =
      write_parts-IsWithin addr len parts (make_writeop addr len v) low short
        (make_writeop-IsWithin addr len v low)

  -- All of the content is there if it fits and the guest's memory is writable.
  pub write_parts_whole :
      (addr len : ℕ) (parts : List Str) (v : V)
      → addr + len < 2 ^ 63
      → ((a : ℕ) (s : Str) (u : V) → (g.copy_to_guest a s u).1 ≡ true)
      → length (concat parts) ≤ len
      → (write_parts parts (make_writeop addr len v)).taken ≡ concat parts
  write_parts_whole addr len parts v low writable fits =
      write_parts-taken addr len parts (make_writeop addr len v) low writable (omega (arith, fits))
        (make_writeop-IsWithin addr len v low)
