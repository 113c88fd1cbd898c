-- ===== src/Lib.antt =====
-- Verification library for libvmod_tinykvm, a Varnish module that answers requests with programs
-- that run in small virtual machines (KVM).
--
-- The parts of the program and how they interact. A tenant (lib/libkvm/tenant.cpp,
-- tenant_instance.cpp) has a group of settings, read from JSON, and a program
-- (program_instance.cpp). A program has one main machine, a pool of machines forked from it
-- (machine_instance.cpp), and it may have a storage machine that all of them call. A request
-- reserves a machine of the pool, keeps it for all of its stages, and gives it back; the machine is
-- then reset to the main machine if it has to be. Guests compile regexes into a cache
-- (instance_cache.hpp) and open files through a list of allowed paths. Timers (utils/cpptime.hpp)
-- run tasks of the storage machine.
--
-- The files, with the paths that they model:
--   Common: names of the libraries, tests on numbers, lists, options, texts and machine words.
--   Utils: Crc for utils/crc32.cpp (crc32c_hw), XorShift for utils/xorshift.hpp, BlockingQueue for
--   utils/blocking_queue.hpp, all below lib/libkvm.
--   Cache: lib/libkvm/instance_cache.hpp; Slots on manage, Loans on reset_and_loan.
--   Timer: lib/libkvm/utils/cpptime.hpp. The calls add and remove and the steps of the worker, which
--   takes a due event (fire) and goes on when its handler has returned (finish), are interleaved
--   in any order; Places, Order, Invariant and Laws are proofs.
--   Machine: lib/libkvm/machine_instance.cpp; Regex for system_calls_regex.cpp, Paths for the file
--   callbacks, Reset on what give_back (the body of vm_free_function) does to a machine.
--   Program: Pool for reserve_vm, vm_free_function and the start of the pool in
--   lib/libkvm/program_instance.cpp, with the steps of the pool in any order; Storage for
--   storage_call, live_update_call and the system calls that lead to them; Startup for the tasks
--   of the constructors, begin_initialization and the functions that wait for it.
--   Backend: lib/libkvm/backend.cpp. Result and Response for fetch_result, Inputs for what the guest
--   is told, Serve for kvm_backend_call and error_handling, with Faults and Marked on what they
--   leave; Post for the body of a request, Delivery for streamed responses, Warmup; StreamFetch
--   for kvm_streaming_backend.c, Fetch and Release for kvmfp_pull and the early release in
--   src/kvm/kvm_backend.c. Act (in Common) is code
--   that changes a state and may throw.
--   Api: lib/libkvm/system_calls_api.cpp and the dispatch of system_calls.cpp; Sealed and Tasks are
--   proofs.
--   Http: lib/libkvm/system_calls_http.cpp and varnish_http.hpp. The functions on a header set, with
--   Calls for the system calls and kvm_http_set; Found on http_findhdr, Kept, RoundTrip and Copied
--   are proofs.
--   Tenant: Group for lib/libkvm/tenant.hpp; Remapping, Values, Services and Configure for
--   configure_group of lib/libkvm/tenant.cpp, with Outcome for its exceptions, which keep what was
--   assigned before; After, Sound, Kept and Keys are proofs; Live for tenant_instance.cpp, with
--   Start, Reload and Reserve; Registry for load_tenant and kvm_tenant_find of tenant.cpp.
--   Tests, in each of them: the code at concrete inputs.
--
-- Third-party code is a parameter: tinykvm::Machine (Machine.Tinykvm), http_SetH and the workspace of
-- Varnish (Http.Calls.Varnish), the concurrent queue
-- (Program.Pool.ConcurrentQueue, with laws on the items that it holds), nlohmann::json
-- (Tenant.Json.Json), VRE_compile, the SSE instructions (Utils.Crc.CrcUnit), the file system and
-- OpenSSL (Tenant.Live.Files). What a guest does comes as an argument. Machine words wrap by `%`.
-- The loops go over lists, but for two with fuel: that of the warmup has the best time that is still
-- possible for each try, and one more, and that of a streamed pull the bytes of its room.
--
-- Not modelled: the chain of programs and the other files of src/kvm, the fetch system
-- calls, self requests, archives and uploads, the servers for epoll and WebSocket, the reading of a
-- file of tenants, the downloads of a program, the debugger, statistics, logs, clocks and CPU times.
-- Threads are modelled only as orders of steps: of the timers, of the pool and of a start.
mod Common
pub mod Utils
pub mod Cache
pub mod Timer
pub mod Api
pub mod Http
pub mod Remote
pub mod Machine
pub mod Program
pub mod Backend
pub mod Tenant
