-- ===== src/Cache/Tests.antt =====
-- Runs of the cache of lib/libkvm/instance_cache.hpp at concrete inputs.
use libvmod_tinykvm.Common.{ℕ, ◌≡◌, refl, some, none, [], ◌∷◌}
use libvmod_tinykvm.Cache.{Cache, find, find_from, foreach_owned, is_owned, owned_entry}

-- Room for two entries, with one used.
abbrev some_cache : Cache ℕ
some_cache = record { cache = owned_entry 70 7 ∷ []; capacity = 2 }

found : find some_cache 7 ≡ some 0
unfolding find find_from
found = refl

missing : find some_cache 8 ≡ none
unfolding find find_from
missing = refl

owned_items : (foreach_owned (λ e. record e { item = 0 }) some_cache.cache).1 ≡ 70 ∷ []
unfolding foreach_owned is_owned
owned_items = refl
