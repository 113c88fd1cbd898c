-- ===== src/Cache/Slots.antt =====
-- Where `manage`, `find` and `free` of lib/libkvm/instance_cache.hpp put and find an entry.
use libvmod_tinykvm.Common.{
  ℕ, zero, suc, ◌+◌, ◌≤◌, ◌<◌, none, some, List, [], ◌∷◌, ◌++◌, length, get_elem?, set,
  length-append, get_elem?-append_left, get_elem?-append_last, length-set, get_elem?-set_self,
  get_elem?-set_ne, ◌≡◌, ◌≢◌, refl, arith, ap, ltb, Bool-cases, Option-cases, inl, inr, ltb→lt, sym,
  ◌∙◌, subst_some, ◌↔◌,
}
use libvmod_tinykvm.Cache.{Entry, Cache, find, find_from, empty_from, manage, owned_entry, get}

module _ {ℓ} {A : Type ℓ} where
  pub find_from-append :
      (h k : ℕ) (es : List (Entry A)) (v : Entry A)
      → find_from h k es ≡ none
      → v.hash ≡ h
      → find_from h k (es ++ (v ∷ [])) ≡ some (k + length es)
  unfolding find_from
  find_from-append h k [] v m e = ground arith
  find_from-append h k (x ∷ es) v m e = ground (arith, find_from-append h (suc k) es v)

  pub find_from-set :
      (h k i : ℕ) (es : List (Entry A)) (v : Entry A)
      → find_from h k es ≡ none
      → i < length es
      → v.hash ≡ h
      → find_from h k (set es i v) ≡ some (k + i)
  unfolding find_from
  find_from-set h k i [] v m l e = elim l [ ]
  find_from-set h k zero (x ∷ es) v m l e = ground arith
  find_from-set h k (suc i) (x ∷ es) v m l e = ground (arith, find_from-set h (suc k) i es v)

  empty_from-bounds :
      (k : ℕ) (es : List (Entry A)) {i : ℕ}
      → empty_from k es ≡ some i
      → (k ≤ i) × (i < k + length es)
  unfolding empty_from
  empty_from-bounds k [] h = cc
  empty_from-bounds k (x ∷ es) {i = i} h = ground (arith, empty_from-bounds (suc k) es {i = i})

  pub empty_from-none :
      (k h i : ℕ) (es : List (Entry A)) {e : Entry A}
      → empty_from k es ≡ none
      → get_elem? es i ≡ some e
      → e.hash ≢ 0
  unfolding empty_from
  empty_from-none k h i [] n g = cc
  empty_from-none k h zero (x ∷ es) n g = ground arith
  empty_from-none k h (suc i) (x ∷ es) {e = e} n g =
      ground (arith, empty_from-none (suc k) h i es {e = e})

  -- What `manage` promises of the entry that it returns, whichever way it found the room.
  pub record Managed (c : Cache A) (ptr : A) (hash : ℕ) (c' : Cache A) (idx : ℕ) : Type ℓ where
    pub found : find c' hash ≡ some idx
    pub stored : get c' idx ≡ some (owned_entry ptr hash)
    pub same_room : c'.capacity ≡ c.capacity
    pub fits : length c.cache ≤ c.capacity → length c'.cache ≤ c'.capacity
    pub others : (j : ℕ) → j ≢ idx → j < length c.cache → get c' j ≡ get c j

  pushed-Managed :
      (c : Cache A) (ptr : A) (hash : ℕ)
      → find c hash ≡ none
      → length c.cache < c.capacity
      → Managed c ptr hash
          (record c { cache = c.cache ++ (owned_entry ptr hash ∷ []) })
          (length c.cache)
  unfolding find get
  pushed-Managed c ptr hash missing room = record {
    found =
        find_from-append hash 0 c.cache (owned_entry ptr hash) missing refl ∙ ap some (omega arith);
    stored = get_elem?-append_last c.cache (owned_entry ptr hash);
    same_room = refl;
    fits = λ h. omega (arith, length-append c.cache (owned_entry ptr hash ∷ []));
    others = λ j ne lt. get_elem?-append_left c.cache _ j lt;
  }

  reused-Managed :
      (c : Cache A) (ptr : A) (hash idx : ℕ)
      → find c hash ≡ none
      → empty_from 0 c.cache ≡ some idx
      → Managed c ptr hash (record c { cache = set c.cache idx (owned_entry ptr hash) }) idx
  unfolding find get
  reused-Managed c ptr hash idx missing free_slot =
      let inside : idx < length c.cache = omega (arith, empty_from-bounds 0 c.cache free_slot) in
      record {
        found =
            find_from-set hash 0 idx c.cache (owned_entry ptr hash) missing inside refl
            ∙ ap some (omega arith);
        stored = get_elem?-set_self c.cache idx (owned_entry ptr hash) inside;
        same_room = refl;
        fits = λ h. omega (arith, length-set c.cache idx (owned_entry ptr hash));
        others = λ j ne lt. get_elem?-set_ne c.cache (owned_entry ptr hash) (λ e. ne (sym e));
      }

  -- A new hash that `manage` accepts is found at the index that it returns, holds the item as its
  -- own, and no other entry changes.
  pub manage-Managed :
      (c : Cache A) (ptr : A) (hash : ℕ) {c' : Cache A} {idx : ℕ}
      → find c hash ≡ none
      → manage c ptr hash ≡ some (c', idx)
      → Managed c ptr hash c' idx
  unfolding manage
  manage-Managed c ptr hash missing done = elim (Bool-cases (ltb (length c.cache) c.capacity)) [
    | inl room ↦
        subst_some (λ (r : Cache A × ℕ). Managed c ptr hash r.0 r.1) (rw room at done)
          (pushed-Managed c ptr hash missing (ltb→lt _ _ room))
    | inr full ↦ elim (Option-cases (empty_from 0 c.cache)) [
      | inl e ↦ cc (rw (full, e) at done)
      | inr (i, e) ↦
          subst_some (λ (r : Cache A × ℕ). Managed c ptr hash r.0 r.1) (rw (full, e) at done)
            (reused-Managed c ptr hash i missing e)
    ]
  ]

  -- `manage` throws exactly when the room is used up and no entry is free.
  pub manage_throws :
      (c : Cache A) (ptr : A) (hash : ℕ)
      → (manage c ptr hash ≡ none) ↔ ((c.capacity ≤ length c.cache) × (empty_from 0 c.cache ≡ none))
  unfolding manage
  manage_throws c ptr hash = ground arith
