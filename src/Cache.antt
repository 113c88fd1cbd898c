-- ===== src/Cache.antt =====
-- lib/libkvm/instance_cache.hpp: the table of cached values that a machine keeps (its regexes).
-- The vector `cache` is a list and the room that `reserve` made for it is the field `capacity`.
-- A hash of 0 marks a free entry. An exception is `none`; so is the index -1 of `find`.
use libvmod_tinykvm.Common.{
  ℕ, suc, ◌<◌, max, Bool, true, false, not, ◌&&◌, Option, none, some, List, [], ◌∷◌, ◌++◌, map,
  length, get_elem?, set, ltb, leb, ◌==◌, if◌then◌else◌,
}
pub mod Slots
pub mod Loans
mod Tests

pub record Entry {ℓ} (A : Type ℓ) : Type ℓ where
  pub item : A
  pub hash : ℕ
  pub non_owned : Bool

pub record Cache {ℓ} (A : Type ℓ) : Type ℓ where
  pub cache : List (Entry A)
  pub capacity : ℕ

module _ {ℓ} {A : Type ℓ} where
  unfoldable pub is_empty : Entry A → Bool
  is_empty e = e.hash == 0

  -- `Entry::free`; `blank` is the value `T()`.
  unfoldable pub free_entry : A → Entry A → Entry A
  free_entry blank e = record e { item = blank; hash = 0 }

  -- `get` and `item`: `vector::at` throws out of range.
  unfoldable pub get : Cache A → ℕ → Option (Entry A)
  get c idx = get_elem? c.cache idx

  -- The loop of `find`, from index `idx` on.
  unfoldable pub find_from : ℕ → ℕ → List (Entry A) → Option ℕ
  find_from hash idx [] = none
  find_from hash idx (e ∷ es) = if e.hash == hash then some idx else find_from hash (suc idx) es

  unfoldable pub find : Cache A → ℕ → Option ℕ
  find c hash = find_from hash 0 c.cache

  unfoldable pub is_full : Cache A → Bool
  is_full c = leb c.capacity (length c.cache)

  -- The loop of `manage` over the slots in use, from index `idx` on.
  unfoldable pub empty_from : ℕ → List (Entry A) → Option ℕ
  unfolding is_empty
  empty_from idx [] = none
  empty_from idx (e ∷ es) = if is_empty e then some idx else empty_from (suc idx) es

  -- An aggregate `{ptr, hash}` owns its item.
  abbrev pub owned_entry : A → ℕ → Entry A
  owned_entry ptr hash = record { item = ptr; hash = hash; non_owned = false }

  abbrev pub reuse : Cache A → A → ℕ → Option ℕ → Option (Cache A × ℕ)
  reuse c ptr hash none = none
  reuse c ptr hash (some idx) =
      some (record c { cache = set c.cache idx (owned_entry ptr hash) }, idx)

  -- A new slot while there is room, else the first free one, else an exception.
  unfoldable pub manage : Cache A → A → ℕ → Option (Cache A × ℕ)
  unfolding empty_from
  manage c ptr hash =
      if ltb (length c.cache) c.capacity
      then some (record c { cache = c.cache ++ (owned_entry ptr hash ∷ []) }, length c.cache)
      else reuse c ptr hash (empty_from 0 c.cache)

  abbrev pub free_at : A → Cache A → ℕ → Option (Entry A) → Option (Cache A)
  free_at blank c idx none = none
  free_at blank c idx (some e) = some (record c { cache = set c.cache idx (free_entry blank e) })

  unfoldable pub free : A → Cache A → ℕ → Option (Cache A)
  unfolding free_entry get
  free blank c idx = free_at blank c idx (get c idx)

  unfoldable pub free_first : A → (Entry A → Bool) → List (Entry A) → List (Entry A) × Bool
  unfolding free_entry
  free_first blank test [] = ([], false)
  free_first blank test (e ∷ es) =
      let (rest, found) = free_first blank test es in
      if test e then (free_entry blank e ∷ es, true) else (e ∷ rest, found)

  unfoldable pub free_byhash : A → Cache A → ℕ → Cache A × Bool
  unfolding free_first
  free_byhash blank c hash =
      let (es, found) = free_first blank (λ e. e.hash == hash) c.cache in
      (record c { cache = es }, found)

  -- `same` is the comparison `==` of items.
  unfoldable pub free_byval : A → (A → A → Bool) → Cache A → A → Cache A × Bool
  unfolding free_first is_empty
  free_byval blank same c val =
      let (es, found) = free_first blank (λ e. not (is_empty e) && same e.item val) c.cache in
      (record c { cache = es }, found)

  unfoldable pub loan : Entry A → Entry A
  loan e = record e { non_owned = true }

  -- The assignment of `{}` keeps the room of the vector, and `reserve` only adds to it.
  unfoldable pub reset_and_loan : Cache A → Cache A → Cache A
  unfolding loan
  reset_and_loan c other = record c {
    cache = map loan other.cache;
    capacity = max c.capacity other.capacity;
  }

  abbrev pub is_owned : Entry A → Bool
  is_owned e = not (e.hash == 0) && not e.non_owned

  -- `foreach_owned`, for a callback that changes the entry; the second part lists the items that
  -- the callback was given.
  unfoldable pub foreach_owned : (Entry A → Entry A) → List (Entry A) → List (Entry A) × List A
  foreach_owned callback [] = ([], [])
  foreach_owned callback (e ∷ es) =
      let (rest, given) = foreach_owned callback es in
      if is_owned e then (callback e ∷ rest, e.item ∷ given) else (e ∷ rest, given)

  unfoldable pub make : ℕ → Cache A
  make max = record { cache = []; capacity = max }
