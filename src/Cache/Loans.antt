-- ===== src/Cache/Loans.antt =====
-- Which entries of lib/libkvm/instance_cache.hpp `foreach_owned` hands to its callback.
use libvmod_tinykvm.Common.{ℕ, suc, List, [], ◌∷◌, ◌≡◌, refl, arith, map, length, length-map}
use libvmod_tinykvm.Cache.{Entry, Cache, loan, reset_and_loan, foreach_owned, find, find_from}

module _ {ℓ} {A : Type ℓ} where
  foreach_owned-loan :
      (f : Entry A → Entry A) (es : List (Entry A))
      → foreach_owned f (map loan es) ≡ (map loan es, [])
  unfolding foreach_owned loan
  foreach_owned-loan f [] = refl
  foreach_owned-loan f (e ∷ es) = ground (arith, foreach_owned-loan f es)

  find_from-loan : (h k : ℕ) (es : List (Entry A)) → find_from h k (map loan es) ≡ find_from h k es
  unfolding find_from loan
  find_from-loan h k [] = refl
  find_from-loan h k (e ∷ es) = ground (arith, find_from-loan h (suc k) es)

  -- After `reset_and_loan` the table holds every entry of the other cache, at the same index and
  -- under the same hash, and no callback is ever handed one of them.
  pub reset_and_loan_lem :
      (c other : Cache A) (callback : Entry A → Entry A)
      → (foreach_owned callback (reset_and_loan c other).cache
          ≡ ((reset_and_loan c other).cache, []))
        × (length (reset_and_loan c other).cache ≡ length other.cache)
        × ((h : ℕ) → find (reset_and_loan c other) h ≡ find other h)
  unfolding reset_and_loan find
  reset_and_loan_lem c other callback = (
    foreach_owned-loan callback other.cache,
    length-map other.cache loan,
    λ h. find_from-loan h 0 other.cache,
  )
