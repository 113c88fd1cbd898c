-- ===== src/Backend.antt =====
-- lib/libkvm/backend.cpp: how a request is handed to a reserved machine and how its response is
-- fetched. `V` is the state of `tinykvm::Machine` and `P` a pointer to a compiled regex.
pub mod Result
pub mod Response
pub mod Inputs
pub mod Serve
pub mod Faults
pub mod Marked
pub mod Post
pub mod Delivery
pub mod Warmup
pub mod Fetch
pub mod Release
pub mod StreamFetch
pub mod Tests
use libvmod_tinykvm.Common.{ℕ, Bool, Option, none, some, List, Str}
use libvmod_tinykvm.Machine.{MachineInstance}
use libvmod_tinykvm.Utils.XorShift.{XorPrng}

-- The registers of a stopped machine that the functions read, as 64-bit values.
pub record Regs : Type 0 where
  pub rdi : ℕ
  pub rsi : ℕ
  pub rdx : ℕ
  pub rcx : ℕ
  pub r8 : ℕ
  pub r9 : ℕ

-- `struct backend_result`; `stream` is the callback with its argument, where there is one.
pub record BackendResult : Type 0 where
  pub type_ : Option Str
  pub tsize : ℕ
  pub status : ℕ
  pub content_length : ℕ
  pub bufcount : ℕ
  pub stream : Option (ℕ × ℕ)

-- What a call changes: the machine of its slot with its random numbers, and its result.
pub record Serving (V P : Type 0) : Type 0 where
  pub mi : MachineInstance V P
  pub prng : XorPrng
  pub result : BackendResult

-- `struct vmod_kvm_inputs`.
pub record VmodKvmInputs : Type 0 where
  pub method : Str
  pub url : Str
  pub argument : Str
  pub content_type : Str

-- `struct backend_post`, but for its pointers and its copy of the inputs.
pub record BackendPost : Type 0 where
  pub address : ℕ
  pub capacity : ℕ
  pub length : ℕ

-- `enum class ProgramEntryIndex` of lib/libkvm/serialized_state.hpp.
pub data ProgramEntryIndex : Type 0 where
  on_recv backend_get backend_post backend_method backend_stream backend_error : ProgramEntryIndex
  liveupd_serialize liveupd_deserialize socket_pause_resume_api : ProgramEntryIndex
