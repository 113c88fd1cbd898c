-- ===== src/Tenant/Group.antt =====
-- lib/libkvm/tenant.hpp: the settings of a group of tenants and the configuration of one tenant.
-- `F` is the type of the floating point settings. A `shared_ptr` that may be null is an option.
use libvmod_tinykvm.Common.{
  ℕ, ◌*◌, max, Bool, true, false, not, ◌&&◌, ◌||◌, Option, none, List, [], ◌∷◌, ◌++◌, ltb, ◌==◌,
  Str, codes, is_nil, u32, u64,
}

pub record Warmup : Type 0 where
  pub num_requests : ℕ
  pub exact : Bool
  pub url : Str
  pub method : Str
  pub headers : List Str

pub record VirtualPath : Type 0 where
  pub real_path : Str
  pub virtual_path : Str
  pub writable : Bool
  pub symlink : Bool
  pub usable_in_fork : Bool
  pub prefix : Bool

pub record DownloadItem : Type 0 where
  pub uri : Str
  pub filepath : Str
  pub sha256 : Str
  pub md5 : Str

-- The fields of `tinykvm::VirtualRemapping` that the configuration sets.
pub record VirtualRemapping : Type 0 where
  pub phys : ℕ
  pub virt : ℕ
  pub size : ℕ
  pub writable : Bool
  pub executable : Bool
  pub blackout : Bool

pub record TenantGroup (F : Type 0) : Type 0 where
  pub name : Str
  pub max_boot_time : F
  pub max_req_time : F
  pub max_storage_time : F
  pub max_queue_time : ℕ
  pub max_address_space : ℕ
  pub max_main_memory : ℕ
  pub max_req_mem : ℕ
  pub limit_req_mem : ℕ
  pub shared_memory : ℕ
  pub hugepage_arena_size : ℕ
  pub hugepage_requests_arena : ℕ
  pub max_concurrency : ℕ
  pub max_smp : ℕ
  pub max_regex : ℕ
  pub has_storage : Bool
  pub hugepages : Bool
  pub split_hugepages : Bool
  pub transparent_hugepages : Bool
  pub allow_debug : Bool
  pub remote_debug_on_exception : Bool
  pub mmap_backed_files : Bool
  pub relocate_fixed_mmap : Bool
  pub control_ephemeral : Bool
  pub ephemeral : Bool
  pub ephemeral_keep_working_memory : Bool
  pub print_stdout : Bool
  pub verbose : Bool
  pub verbose_syscalls : Bool
  pub verbose_pagetable : Bool
  pub cold_start_snapshot_file : Str
  pub warmup : Option Warmup
  pub server_port : ℕ
  pub epoll_systems : ℕ
  pub server_address : Str
  pub ws_server_port : ℕ
  pub websocket_systems : ℕ
  pub ws_server_address : Str
  pub environ : List Str
  pub main_arguments : Option (List Str)
  pub vmem_remappings : List VirtualRemapping
  pub vmem_heap_executable : Bool
  pub allowed_paths : List VirtualPath
  pub current_working_directory : Str
  pub downloads : List DownloadItem

module _ {F : Type 0} where
  abbrev pub set_max_address : TenantGroup F → ℕ → TenantGroup F
  set_max_address g newmax_mb = record g { max_address_space = u64 (newmax_mb * 1048576) }

  -- The address space is at least as large as the memory.
  abbrev pub set_max_memory : TenantGroup F → ℕ → TenantGroup F
  set_max_memory g newmax_mb = record g {
    max_main_memory = u64 (newmax_mb * 1048576);
    max_address_space = max g.max_address_space (u64 (newmax_mb * 1048576));
  }

  -- The next three fields are `uint32_t`, so the product is cut to 32 bits.
  abbrev pub set_max_workmem : TenantGroup F → ℕ → TenantGroup F
  set_max_workmem g newmax_mb = record g { max_req_mem = u32 (u64 (newmax_mb * 1048576)) }

  abbrev pub set_limit_workmem_after_req : TenantGroup F → ℕ → TenantGroup F
  set_limit_workmem_after_req g newmax_mb = record g {
    limit_req_mem = u32 (u64 (newmax_mb * 1048576));
  }

  abbrev pub set_shared_mem : TenantGroup F → ℕ → TenantGroup F
  set_shared_mem g newmax_mb = record g { shared_memory = u32 (u64 (newmax_mb * 1048576)) }

  unfoldable pub has_epoll_system : TenantGroup F → Bool
  has_epoll_system g =
      (not (g.server_port == 0) || not (is_nil g.server_address)) && ltb 0 g.epoll_systems

  unfoldable pub has_websocket_system : TenantGroup F → Bool
  has_websocket_system g =
      (not (g.ws_server_port == 0) || not (is_nil g.ws_server_address)) && ltb 0 g.websocket_systems

-- The floating point constants of lib/libkvm/settings.hpp.
pub record Settings (F : Type 0) : Type 0 where
  pub debug_timeout : F
  pub startup_timeout : F
  pub request_vm_timeout : F
  pub storage_timeout : F

-- The defaults of the member initialisers and of the constructor.
unfoldable pub make_group : {F : Type 0} → Settings F → Str → TenantGroup F
make_group s n = record {
  name = n;
  max_boot_time = s.startup_timeout;
  max_req_time = s.request_vm_timeout;
  max_storage_time = s.storage_timeout;
  max_queue_time = 60;
  max_address_space = 256 * 1048576;
  max_main_memory = 256 * 1048576;
  max_req_mem = 64 * 1048576;
  limit_req_mem = 0xffff_ffff;
  shared_memory = 0;
  hugepage_arena_size = 0;
  hugepage_requests_arena = 0;
  max_concurrency = 2;
  max_smp = 0;
  max_regex = 64;
  has_storage = false;
  hugepages = false;
  split_hugepages = true;
  transparent_hugepages = false;
  allow_debug = false;
  remote_debug_on_exception = false;
  mmap_backed_files = true;
  relocate_fixed_mmap = true;
  control_ephemeral = false;
  ephemeral = true;
  ephemeral_keep_working_memory = true;
  print_stdout = false;
  verbose = false;
  verbose_syscalls = false;
  verbose_pagetable = false;
  cold_start_snapshot_file = [];
  warmup = none;
  server_port = 0;
  epoll_systems = 0;
  server_address = [];
  ws_server_port = 0;
  websocket_systems = 0;
  ws_server_address = [];
  environ = codes "LC_TYPE=C" ∷ codes "LC_ALL=C" ∷ codes "USER=root" ∷ [];
  main_arguments = none;
  vmem_remappings = [];
  vmem_heap_executable = false;
  allowed_paths = [];
  current_working_directory = codes "/";
  downloads = [];
}

pub record TenantConfig (F : Type 0) : Type 0 where
  pub name : Str
  pub hash : ℕ
  pub group : TenantGroup F
  pub filename : Str
  pub key : Str
  pub uri : Str
  pub sha256 : Str
  pub md5 : Str
  pub allowed_file : Str

module _ {F : Type 0} where
  abbrev pub request_program_filename : TenantConfig F → Str
  request_program_filename c = c.filename

  abbrev pub storage_program_filename : TenantConfig F → Str
  storage_program_filename c = c.filename ++ codes "_storage"

  abbrev pub max_req_time : Settings F → TenantConfig F → Bool → F
  max_req_time s c true = s.debug_timeout
  max_req_time s c false = c.group.max_req_time

  -- The members are initialised in their order of declaration, so `hash` is taken of the
  -- parameter `n` after its text was moved into `name`: of the text `moved` that is left there.
  abbrev pub make_config :
      (Str → ℕ) → Str → Str → Str → Str → TenantGroup F → Str → Str → Str → TenantConfig F
  make_config crc32c moved n f k grp uri sha256_str md5_str = record {
    name = n;
    hash = crc32c moved;
    group = grp;
    filename = f;
    key = k;
    uri = uri;
    sha256 = sha256_str;
    md5 = md5_str;
    allowed_file = f ++ codes ".state";
  }
