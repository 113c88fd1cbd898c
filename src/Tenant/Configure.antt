-- ===== src/Tenant/Configure.antt =====
-- `configure_group` of lib/libkvm/tenant.cpp: one key of a configuration and its value change a
-- group. The chain of tests is in six parts, each of which goes on to the next; `otherwise` is
-- what the parts that follow do. The log lines for an unknown key are left out.
use libvmod_tinykvm.Common.{
  ℕ, ◌*◌, ◌%◌, min, Bool, not, ◌&&◌, ◌||◌, some, List, [], ◌++◌, Str, codes, str_eq, ltb, ◌==◌,
  if◌then◌else◌,
}
use libvmod_tinykvm.Tenant.Group.{
  TenantGroup, set_max_memory, set_max_address, set_max_workmem, set_limit_workmem_after_req,
  set_shared_mem,
}
use libvmod_tinykvm.Tenant.Json.{Json, Environment}
use libvmod_tinykvm.Tenant.Outcome.{
  json_error, concurrency_too_large, arena_too_small, arena_too_large, arena_not_multiple,
  remapping_shape, paths_shape, download_shape, Out, done, fail, converted, and_then, for_each,
}
use libvmod_tinykvm.Tenant.Values.{
  apply_dollar_vars, stored, strings, add_path, add_download, add_argument,
}
use libvmod_tinykvm.Tenant.Remapping.{add_remapping}
use libvmod_tinykvm.Tenant.Services.{server, websocket_server, warmup}

-- The three tests of an arena's size, on a group that holds the size already.
abbrev pub check_arena : {F : Type 0} → ℕ → TenantGroup F → Out F
check_arena size g =
    if ltb size 0x200000 && not (size == 0)
    then fail g arena_too_small
    else (if ltb (512 * 1024 * 1024 * 1024) size
        then fail g arena_too_large
        else (if not (size % 0x200000 == 0) then fail g arena_not_multiple else done g))

module _ {J F : Type 0} (json : Json J F) (env : Environment) where
  open json use {
    is_array, is_object, size, elements, items, get_bool, get_float, get_u32, get_u64, get_string,
  }

  -- `group.field = obj.value()` for a field of each type.
  unfoldable pub set_bool : TenantGroup F → J → (Bool → TenantGroup F) → Out F
  set_bool g v set = converted g (get_bool v) (λ b. done (set b))

  unfoldable pub set_float : TenantGroup F → J → (F → TenantGroup F) → Out F
  set_float g v set = converted g (get_float v) (λ x. done (set x))

  unfoldable pub set_u64 : TenantGroup F → J → (ℕ → TenantGroup F) → Out F
  set_u64 g v set = converted g (get_u64 v) (λ n. done (set n))

  unfoldable pub set_vars : TenantGroup F → J → (Str → TenantGroup F) → Out F
  set_vars g v set = converted g (get_string v) (λ s. done (set (apply_dollar_vars env s)))

  -- The value is assigned before it is tested.
  unfoldable pub concurrency : TenantGroup F → J → Out F
  concurrency g v = converted g (get_u64 v) (λ n.
      if ltb 255 n
      then fail (record g { max_concurrency = n }) concurrency_too_large
      else done (record g { max_concurrency = n }))

  unfoldable pub hugepage_arena_size : TenantGroup F → J → Out F
  hugepage_arena_size g v = converted g (get_u32 v) (λ mb.
      and_then (check_arena (mb * 1048576) (record g { hugepage_arena_size = mb * 1048576 }))
        (λ h. done (record h { hugepages = not (h.hugepage_arena_size == 0) })))

  unfoldable pub request_hugepages : TenantGroup F → J → Out F
  request_hugepages g v =
      converted g (get_u32 v)
        (λ mb. check_arena (mb * 1048576) (record g { hugepage_requests_arena = mb * 1048576 }))

  unfoldable pub remappings : TenantGroup F → Str → J → Out F
  remappings g key v =
      if is_array v && (size v == 2)
      then add_remapping json env g key v
      else (if is_object v
          then for_each (items v) (λ h item. add_remapping json env h key item.1) g
          else fail g remapping_shape)

  unfoldable pub allowed_paths : TenantGroup F → J → Out F
  allowed_paths g v =
      if not (is_array v) then fail g paths_shape else for_each (elements v) (add_path json env) g

  unfoldable pub download : TenantGroup F → J → Out F
  download g v =
      if not (is_array v)
      then fail g download_shape
      else for_each (elements v) (add_download json env) g

  -- The conversion of the second assignment is the one of the first.
  unfoldable pub keep_working_memory : TenantGroup F → J → Out F
  keep_working_memory g v =
      set_bool g v
        (λ b. record g { ephemeral = g.ephemeral || b; ephemeral_keep_working_memory = b })

  unfoldable pub main_arguments : TenantGroup F → J → Out F
  main_arguments g v =
      for_each (elements v) (add_argument json env) (record g { main_arguments = some [] })

  unfoldable pub environment : TenantGroup F → J → Out F
  environment g v =
      if is_array v
      then stored g (strings json env (elements v))
          (λ l. done (record g { environ = g.environ ++ l }))
      else fail g json_error

  -- Times and memory.
  unfoldable pub memory_keys : TenantGroup F → Str → J → Out F → Out F
  memory_keys g key v otherwise =
      if str_eq key (codes "max_boot_time")
      then set_float g v (λ x. record g { max_boot_time = x })
      else (if str_eq key (codes "max_request_time")
          then set_float g v (λ x. record g { max_req_time = x })
          else (if str_eq key (codes "max_storage_time")
              then set_float g v (λ x. record g { max_req_time = x })
              else (if str_eq key (codes "max_memory")
                  then set_u64 g v (set_max_memory g)
                  else (if str_eq key (codes "address_space")
                      then set_u64 g v (set_max_address g)
                      else (if str_eq key (codes "max_request_memory")
                          then set_u64 g v (set_max_workmem g)
                          else (if str_eq key (codes "req_mem_limit_after_reset")
                                || str_eq key (codes "limit_workmem_after_req")
                              then set_u64 g v (set_limit_workmem_after_req g)
                              else (if str_eq key (codes "shared_memory")
                                  then set_u64 g v (set_shared_mem g)
                                  else otherwise)))))))

  -- Concurrency and pages.
  unfoldable pub page_keys : TenantGroup F → Str → J → Out F → Out F
  page_keys g key v otherwise =
      if str_eq key (codes "cold_start_file")
      then set_vars g v (λ s. record g { cold_start_snapshot_file = s })
      else (if str_eq key (codes "concurrency")
          then concurrency g v
          else (if str_eq key (codes "storage")
              then set_bool g v (λ b. record g { has_storage = b })
              else (if str_eq key (codes "hugepages")
                  then set_bool g v (λ b. record g { hugepages = b })
                  else (if str_eq key (codes "hugepage_arena_size")
                      then hugepage_arena_size g v
                      else (if str_eq key (codes "request_hugepages")
                            || str_eq key (codes "request_hugepage_arena_size")
                          then request_hugepages g v
                          else (if str_eq key (codes "split_hugepages")
                              then set_bool g v (λ b. record g { split_hugepages = b })
                              else (if str_eq key (codes "transparent_hugepages")
                                  then set_bool g v (λ b. record g { transparent_hugepages = b })
                                  else otherwise)))))))

  -- The machine's modes.
  unfoldable pub mode_keys : TenantGroup F → Str → J → Out F → Out F
  mode_keys g key v otherwise =
      if str_eq key (codes "stdout")
      then set_bool g v (λ b. record g { print_stdout = b })
      else (if str_eq key (codes "smp")
          then set_u64 g v (λ n. record g { max_smp = min 16 n })
          else (if str_eq key (codes "allow_debug")
              then set_bool g v (λ b. record g { allow_debug = b })
              else (if str_eq key (codes "remote_debug_on_exception")
                  then set_bool g v (λ b. record g { remote_debug_on_exception = b })
                  else (if str_eq key (codes "control_ephemeral")
                      then set_bool g v (λ b. record g { control_ephemeral = b })
                      else (if str_eq key (codes "ephemeral")
                          then set_bool g v (λ b. record g { ephemeral = b })
                          else (if str_eq key (codes "ephemeral_keep_working_memory")
                              then keep_working_memory g v
                              else (if str_eq key (codes "mmap_backed_files")
                                  then set_bool g v (λ b. record g { mmap_backed_files = b })
                                  else (if str_eq key (codes "relocate_fixed_mmap")
                                      then set_bool g v (λ b. record g { relocate_fixed_mmap = b })
                                      else otherwise))))))))

  -- Arguments, mappings and files.
  unfoldable pub file_keys : TenantGroup F → Str → J → Out F → Out F
  file_keys g key v otherwise =
      if str_eq key (codes "main_arguments")
      then main_arguments g v
      else (if str_eq key (codes "environment")
          then environment g v
          else (if str_eq key (codes "remapping")
                || str_eq key (codes "executable_remapping")
                || str_eq key (codes "blackout_area")
              then remappings g key v
              else (if str_eq key (codes "executable_heap")
                  then set_bool g v (λ b. record g { vmem_heap_executable = b })
                  else (if str_eq key (codes "allowed_paths")
                      then allowed_paths g v
                      else (if str_eq key (codes "current_working_directory")
                          then set_vars g v (λ s. record g { current_working_directory = s })
                          else (if str_eq key (codes "download")
                              then download g v
                              else otherwise))))))

  -- Logging and services.
  unfoldable pub service_keys : TenantGroup F → Str → J → Out F → Out F
  service_keys g key v otherwise =
      if str_eq key (codes "verbose")
      then set_bool g v (λ b. record g { verbose = b })
      else (if str_eq key (codes "verbose_syscalls")
          then set_bool g v (λ b. record g { verbose_syscalls = b })
          else (if str_eq key (codes "verbose_pagetables")
              then set_bool g v (λ b. record g { verbose_pagetable = b })
              else (if str_eq key (codes "server")
                  then server json g v
                  else (if str_eq key (codes "websocket_server")
                      then websocket_server json g v
                      else (if str_eq key (codes "warmup") then warmup json g v else otherwise)))))

  -- A key that is none of these changes nothing, whether it is one of those that other functions
  -- read ("group", "key", "uri", …) or unknown.
  unfoldable pub configure_group : TenantGroup F → Str → J → Out F
  configure_group g key v =
      memory_keys g key v
        (page_keys g key v (mode_keys g key v (file_keys g key v (service_keys g key v (done g)))))

  -- A loop over the keys of an object, as `init_tenants` and `kvm_tenant_configure` have it.
  unfoldable pub configure_all : List (Str × J) → TenantGroup F → Out F
  configure_all items g = for_each items (λ h item. configure_group h item.0 item.1) g
