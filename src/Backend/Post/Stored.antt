-- ===== src/Backend/Post/Stored.antt =====
-- One segment of a request's body in the guest's memory: the part of
-- `kvm_backend_streaming_post` of lib/libkvm/backend.cpp that has no streaming callback.
use libvmod_tinykvm.Common.{
  ℕ, zero, suc, ◌+◌, ◌^◌, ◌<◌, ◌≤◌, ◌≡◌, ◌⊎◌, inl, inr, refl, arith, ap, ◌∙◌, subst, Bool, true,
  some, List, [], ◌∷◌, ◌++◌, length, get_elem?, length-append, ltb, ◌==◌, u64, Bool-cases,
}
use native.Mathlib.Nat.{mod-eq_of_lt}
use libvmod_tinykvm.Tenant.Group.{TenantGroup}
use libvmod_tinykvm.Machine.{MachineInstance, allocate_post_data}
use libvmod_tinykvm.Backend.Post.{
  Posting, Receiver, grow, allocate_first, copy_segment, store_segment,
}
use libvmod_tinykvm.Common.Act.{Fault, Outcome, done, threw, ◌>>◌, give, Post}

-- The guest's memory, byte by byte: a copy writes its bytes and changes none below them. An area
-- that was allocated ends within the address space.
pub record Memory {V P : Type 0} (g : Receiver V P) : Type 0 where
  pub byte : V → ℕ → ℕ
  pub copied :
      (a : ℕ) (bytes : List ℕ) (v v' : V)
      → g.copy_to_guest a bytes v ≡ (v', done tt)
      → (i x : ℕ) → get_elem? bytes i ≡ some x
      → byte v' (a + i) ≡ x
  pub kept :
      (a : ℕ) (bytes : List ℕ) (v v' : V)
      → g.copy_to_guest a bytes v ≡ (v', done tt)
      → (j : ℕ) → j < a
      → byte v' j ≡ byte v j
  pub allocated : (n : ℕ) (v : V) → n < 2 ^ 63 → (g.kvm.mmap_allocate n v).1 + n < 2 ^ 64

-- The bytes that were posted stand in the guest's memory in order, from the address of the POST.
pub record Holds {V P : Type 0} {g : Receiver V P} (mem : Memory g) (bytes : List ℕ)
    (s : Posting V P) : Type 0 where
  pub counted : s.post.length ≡ length bytes
  pub in_capacity : s.post.length ≤ s.post.capacity
  pub area : s.mi.post_data + s.mi.post_size < 2 ^ 64
  pub unset : s.post.length ≡ 0 → s.post.address ≡ 0
  pub inside : 0 < s.post.length → s.post.address + s.post.capacity < 2 ^ 64
  pub stored :
      (i x : ℕ) → get_elem? bytes i ≡ some x → mem.byte s.mi.machine (s.post.address + i) ≡ x

get_elem?-nil :
    {A : Type 0} (xs : List A) (i : ℕ) (x : A) → length xs ≡ 0 → get_elem? xs i ≡ some x → ⊥
get_elem?-nil [] i x e = cc
get_elem?-nil (y ∷ xs) i x e = absurd (omega arith)

-- An element of a list that was extended is one of the old ones or of the new ones.
get_elem?-append :
    {A : Type 0} (xs ys : List A) (i : ℕ) (x : A)
    → get_elem? (xs ++ ys) i ≡ some x
    → (get_elem? xs i ≡ some x) ⊎ ((k : ℕ) × (i ≡ length xs + k) × (get_elem? ys k ≡ some x))
get_elem?-append [] ys i x e = inr (i, omega arith, e)
get_elem?-append (y ∷ xs) ys zero x e = inl e
get_elem?-append (y ∷ xs) ys (suc i) x e = elim (get_elem?-append xs ys i x e) [
  | inl old ↦ inl old
  | inr (k, at, new) ↦ inr (k, omega arith, new)
]

get_elem?-lt : {A : Type 0} (xs : List A) (i : ℕ) (x : A) → get_elem? xs i ≡ some x → i < length xs
get_elem?-lt [] i x e = cc
get_elem?-lt (y ∷ xs) zero x e = omega arith
get_elem?-lt (y ∷ xs) (suc i) x e = omega (arith, get_elem?-lt xs i x e)

module _ {V P F : Type 0} {g : Receiver V P} (mem : Memory g) (group : TenantGroup F) where
  allocate_fits :
      (n : ℕ) (m : MachineInstance V P)
      → m.post_data + m.post_size < 2 ^ 64
      → n < 2 ^ 63
      → let (m', a) = allocate_post_data g.kvm group n m in
        (a + n < 2 ^ 64) × (m'.post_data + m'.post_size < 2 ^ 64)
  unfolding allocate_post_data
  allocate_fits n m h bound = elim (Bool-cases (ltb m.post_size n)) [
    | inl small ↦ rw small (mem.allocated n _ bound, mem.allocated n _ bound)
    | inr large ↦ rw large (ground arith, h)
  ]

  -- The address of the POST after the first action.
  allocate_first-Holds :
      (segment bytes : List ℕ) (s : Posting V P)
      → Holds mem bytes s
      → s.post.capacity < 2 ^ 63
      → let s' = (allocate_first g group segment s).0 in
        (s'.post.length ≡ length bytes)
        × (s'.post.capacity ≡ s.post.capacity)
        × (s'.post.address + s'.post.capacity < 2 ^ 64)
        × (s'.mi.post_data + s'.mi.post_size < 2 ^ 64)
        × ((i x : ℕ)
            → get_elem? bytes i ≡ some x
            → mem.byte s'.mi.machine (s'.post.address + i) ≡ x)
  allocate_first-Holds segment bytes s h bound = elim (Bool-cases (s.post.length == 0)) [
    | inl first ↦ rw first (
      h.counted,
      refl,
      (allocate_fits s.post.capacity s.mi h.area bound).0,
      (allocate_fits s.post.capacity s.mi h.area bound).1,
      λ i x e. absurd (get_elem?-nil bytes i x (ground arith) e),
    )
    | inr later ↦ rw later (h.counted, refl, h.inside (ground arith), h.area, h.stored)
  ]

  -- The bytes after a copy.
  copied_bytes :
      (segment bytes : List ℕ) (v v' : V) (address : ℕ)
      → g.copy_to_guest (address + length bytes) segment v ≡ (v', done tt)
      → ((i x : ℕ) → get_elem? bytes i ≡ some x → mem.byte v (address + i) ≡ x)
      → (i x : ℕ) → get_elem? (bytes ++ segment) i ≡ some x
      → mem.byte v' (address + i) ≡ x
  copied_bytes segment bytes v v' address done_ before i x e =
      elim (get_elem?-append bytes segment i x e) [
        | inl old ↦
            mem.kept (address + length bytes) segment v v' done_ (address + i)
              (omega (arith, get_elem?-lt bytes i x old))
            ∙ before i x old
        | inr (k, at, new) ↦
            ap (mem.byte v') (let e : address + i ≡ address + length bytes + k = omega arith in e)
            ∙ mem.copied (address + length bytes) segment v v' done_ k x new
      ]

  -- The bytes of `s` are there, and there is room for a segment.
  record Ready (segment bytes : List ℕ) (s : Posting V P) : Type 0 where
    pub counted : s.post.length ≡ length bytes
    pub room : s.post.length + length segment ≤ s.post.capacity
    pub inside : s.post.address + s.post.capacity < 2 ^ 64
    pub area : s.mi.post_data + s.mi.post_size < 2 ^ 64
    pub stored :
        (i x : ℕ) → get_elem? bytes i ≡ some x → mem.byte s.mi.machine (s.post.address + i) ≡ x

  abbrev pub Stored : ℕ → List ℕ → Posting V P → Bool → Type 0
  Stored capacity bytes s r = (r ≡ true) × Holds mem bytes s × (s.post.capacity ≡ capacity)

  abbrev pub Failed : ℕ → Posting V P → Fault → Type 0
  Failed capacity s e = s.post.length ≤ capacity

  copy_segment-Holds :
      (segment bytes : List ℕ) (s : Posting V P)
      → Ready segment bytes s
      → 0 < length segment
      → Post
          (Stored s.post.capacity (bytes ++ segment))
          (Failed s.post.capacity)
          ((copy_segment g group segment >> (grow g group segment >> give true)) s)
  copy_segment-Holds segment bytes s h nonempty =
      copied_to (g.copy_to_guest (u64 (s.post.address + s.post.length)) segment s.mi.machine) refl
    where
      no_wrap : u64 (s.post.address + s.post.length) ≡ s.post.address + length bytes
      no_wrap =
          mod-eq_of_lt (omega (arith, h.room, h.inside)) ∙ ap (λ n. s.post.address + n) h.counted

      grown : u64 (s.post.length + length segment) ≡ s.post.length + length segment
      grown = mod-eq_of_lt (omega (arith, h.room, h.inside))

      copied_to :
          (r : V × Outcome (Unit {0}))
          → g.copy_to_guest (u64 (s.post.address + s.post.length)) segment s.mi.machine ≡ r
          → Post
              (Stored s.post.capacity (bytes ++ segment))
              (Failed s.post.capacity)
              ((copy_segment g group segment >> (grow g group segment >> give true)) s)
      copied_to (v, threw e) eq = rw eq (omega (arith, h.room))
      copied_to (v, done u) eq = rw eq (
        refl,
        record {
          counted =
              grown
              ∙ (let e : s.post.length + length segment ≡ length (bytes ++ segment) =
                    omega (arith, h.counted, length-append bytes segment) in
                  e);
          in_capacity = rw grown h.room;
          area = h.area;
          unset = λ zero_length. absurd (ground (arith, grown, zero_length));
          inside = λ positive. h.inside;
          stored =
              copied_bytes segment bytes s.mi.machine v s.post.address (rw no_wrap at eq) h.stored;
        },
        refl,
      )

  ready :
      (segment bytes : List ℕ) (s : Posting V P)
      → Holds mem bytes s
      → s.post.length + length segment ≤ s.post.capacity
      → s.post.capacity < 2 ^ 63
      → Ready segment bytes (allocate_first g group segment s).0
  ready segment bytes s h room bound =
      let (counted, same, inside, area, stored) = allocate_first-Holds segment bytes s h bound in
      record {
        counted = counted;
        room = omega (arith, h.counted);
        inside = inside;
        area = area;
        stored = stored;
      }

  pub store_segment-Stored :
      (segment bytes : List ℕ) (s : Posting V P)
      → Holds mem bytes s
      → 0 < length segment
      → s.post.length + length segment ≤ s.post.capacity
      → s.post.capacity < 2 ^ 63
      → Post
          (Stored s.post.capacity (bytes ++ segment))
          (Failed s.post.capacity)
          (store_segment g group segment s)
  unfolding store_segment
  store_segment-Stored segment bytes s h nonempty room bound =
      subst
        (λ c. Post (Stored c (bytes ++ segment)) (Failed c) (
          (copy_segment g group segment >> (grow g group segment >> give true))
            (allocate_first g group segment s).0))
        (allocate_first-Holds segment bytes s h bound).1
        (copy_segment-Holds segment bytes (allocate_first g group segment s).0
          (ready segment bytes s h room bound) nonempty)
