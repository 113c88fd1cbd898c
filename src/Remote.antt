-- ===== src/Remote.antt =====
-- The requests of a program to its own Varnish and to others: what lib/libkvm/system_calls_fetch.cpp
-- and lib/libkvm/self_request.cpp share, and the settings of self requests.
pub mod SelfRequest
pub mod Fetch
pub mod Transfer
pub mod Places
pub mod Slots
pub mod Tests
use libvmod_tinykvm.Common.{
  ℕ, zero, suc, ◌+◌, ◌-◌, ◌*◌, ◌^◌, ◌%◌, Bool, true, false, Option, none, some, List, [], ◌∷◌, ◌++◌, Str,
  length, take, leb, ◌==◌, if◌then◌else◌, u32,
}
use libvmod_tinykvm.Common.Act.{Act, ◌>>=◌, ◌>>◌, change, state, give}

-- The static variables with the limit of `kvm_settings`. The counter and the limit are 32-bit
-- integers, as words in two's complement.
pub record SelfRequests : Type 0 where
  pub uri : Str
  pub prefix : Str
  pub concurrency : ℕ
  pub max_concurrency : ℕ

-- `a >= b` for words that are signed.
abbrev pub ge_signed : ℕ → ℕ → Bool
ge_signed a b = leb (u32 (b + 2 ^ 31)) (u32 (a + 2 ^ 31))

abbrev pub inc32 : ℕ → ℕ
inc32 n = u32 (n + 1)

abbrev pub dec32 : ℕ → ℕ
dec32 n = u32 (n + (2 ^ 32 - 1))

-- `pop_back`, where the last byte is a slash.
abbrev pub drop_slash : Str → Str
drop_slash [] = []
drop_slash (c ∷ []) = if c == b'/' then [] else c ∷ []
drop_slash (c ∷ (d ∷ s)) = c ∷ drop_slash (d ∷ s)

-- `kvm_set_self_request`; the reply is always 1.
unfoldable pub set_self_request : Str → Str → ℕ → SelfRequests → SelfRequests × ℕ
set_self_request uri prefix limit s =
    (record s { uri = drop_slash uri; prefix = prefix; max_concurrency = u32 limit }, 1)
