-- ===== src/Machine/Tests.antt =====
-- Runs of the machine of lib/libkvm/machine_instance.cpp and system_calls_regex.cpp at concrete
-- inputs.
use mathlib.Core.List.{Memᴰ}
use libvmod_tinykvm.Common.{
  ℕ, ◌+◌, ◌<◌, ◌≡◌, ◌≢◌, refl, Bool, true, false, some, [], ◌∷◌, length, Str, codes,
}
use libvmod_tinykvm.Cache
use libvmod_tinykvm.Cache.{Cache, owned_entry}
use libvmod_tinykvm.Tenant.Group.{
  TenantGroup, TenantConfig, Settings, VirtualPath, make_group, make_config,
}
use libvmod_tinykvm.Machine.{MachineInstance, Tinykvm, static, is_reset_needed}
use libvmod_tinykvm.Machine.Stats.{MachineStats}
use libvmod_tinykvm.Machine.Regex.{regex_compile, regex_compile_again}
use libvmod_tinykvm.Machine.Reset.{give_back, give_back_stale}
use libvmod_tinykvm.Machine.Paths.{
  open_writable_in, open_readable, open_writable, Granted, open_writable-Granted,
}

abbrev pub settings : Settings ℕ
settings = record {
  debug_timeout = 300;
  startup_timeout = 16;
  request_vm_timeout = 8;
  storage_timeout = 8;
}

abbrev data_path : VirtualPath
data_path = record {
  real_path = codes "/srv/a";
  virtual_path = codes "/data";
  writable = true;
  symlink = false;
  usable_in_fork = false;
  prefix = true;
}

abbrev pub group : TenantGroup ℕ
group = record (make_group settings (codes "test")) { allowed_paths = data_path ∷ [] }

abbrev pub config : TenantConfig ℕ
config = make_config (λ s. 0) [] (codes "hello") (codes "/srv/hello") [] group [] [] []

open_writable-Granted_example :
    Granted group.allowed_paths
      (λ t. t.writable)
      (codes "/srv/hello.state")
      (codes "/data/x")
      (codes "/srv/a/x")
    × ((seen : Str) × (open_readable config (codes "/data/x") ≡ some seen))
unfolding open_writable open_writable_in
open_writable-Granted_example =
    open_writable-Granted config (codes "/data/x") (codes "/srv/a/x") refl

-- A machine whose state is a number; a reset brings back the one of the source.
abbrev pub kvm : Tinykvm ℕ
kvm = record {
  fork = λ o v. v;
  reset_to = λ o v source. (source, some false);
  mmap_allocate = λ n v. (v + n, v);
  mmap_unmap = λ a n v. v;
}

abbrev no_stats : MachineStats
no_stats = record {
  invocations = 0;
  resets = 0;
  full_resets = 0;
  timeouts = 0;
  exceptions = 0;
  exception_oom = 0;
  exception_mem = 0;
  status_2xx = 0;
  status_3xx = 0;
  status_4xx = 0;
  status_5xx = 0;
  status_unknown = 0;
  input_bytes = 0;
  output_bytes = 0;
}

abbrev pub machine : Bool → Cache ℕ → MachineInstance ℕ ℕ
machine ephemeral regex = record {
  ctx = some 1;
  machine = 5;
  is_debug = false;
  is_storage = false;
  is_ephemeral = ephemeral;
  waiting_for_requests = true;
  is_warming_up = false;
  response_called = 1;
  reset_needed = false;
  soft_reset_needed = false;
  binary_type = static;
  sighandler = 0;
  post_data = 0;
  post_size = 0;
  inputs_allocation = 0;
  stats = no_stats;
  regex = regex;
}

abbrev one_regex : Cache ℕ
one_regex = record { cache = owned_entry 70 7 ∷ []; capacity = 64 }

abbrev pub no_regex : Cache ℕ
no_regex = record { cache = []; capacity = 64 }

give_back_stale_example :
    let r = give_back kvm group 0 (machine false one_regex) (machine false no_regex) in
    (Cache.find r.0.regex 7 ≡ some 0)
    × (Cache.get r.0.regex 0 ≡ some (owned_entry 0 7))
    × Memᴰ 70 r.1
unfolding is_reset_needed Cache.find Cache.find_from Cache.get
give_back_stale_example =
    give_back_stale kvm group 0 (machine false one_regex) (machine false no_regex) 7 0
      (owned_entry 70 7) refl refl refl refl

abbrev first_code : Str → ℕ
first_code [] = 1
first_code (c ∷ s) = c

regex_compile_again_example :
    (regex_compile first_code
        (λ s. some (length s))
        (record { cache = owned_entry 70 7 ∷ owned_entry 2 97 ∷ []; capacity = 64 })
        (codes "ab")
      ≡ some (record { cache = owned_entry 70 7 ∷ owned_entry 2 97 ∷ []; capacity = 64 }, 1))
    × ((j : ℕ)
        → j ≢ 1
        → j < 1
        → Cache.get (record { cache = owned_entry 70 7 ∷ owned_entry 2 97 ∷ []; capacity = 64 }) j
          ≡ Cache.get one_regex j)
unfolding regex_compile Cache.find Cache.find_from Cache.manage
regex_compile_again_example =
    regex_compile_again first_code (λ s. some (length s)) one_regex (codes "ab") refl
