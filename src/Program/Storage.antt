-- ===== src/Program/Storage.antt =====
-- Calls into the storage machine: `storage_call` and `live_update_call` of
-- lib/libkvm/program_instance.cpp, the allow list of lib/libkvm/program_instance.hpp, and the
-- system calls of lib/libkvm/system_calls_api.cpp that lead to them. What the storage program does
-- is outside of the source: its run is an argument. The calls run one at a time, on the queue of
-- the storage machine.
pub mod Layout
pub mod Access
use libvmod_tinykvm.Common.{
  ℕ, ◌+◌, ◌-◌, ◌*◌, ◌%◌, min, Bool, true, false, not, ◌&&◌, ◌||◌, Option, none, some, List, [], ◌∷◌,
  length, ltb, leb, ◌==◌, if◌then◌else◌, u64, sub64, minus_one,
}

pub record VirtBuffer : Type 0 where
  pub addr : ℕ
  pub len : ℕ

abbrev has : ℕ → List ℕ → Bool
has a [] = false
has a (b ∷ r) = (a == b) || has a r

abbrev no_entry : List ℕ → Bool
no_entry [] = true
no_entry (a ∷ r) = false

unfoldable pub is_allowed : List ℕ → ℕ → Bool
is_allowed allow_list address = no_entry allow_list || has address allow_list

-- `syscall_storage_allow`: the list and the result register.
unfoldable pub storage_allow : Bool → Bool → ℕ → List ℕ → List ℕ × ℕ
storage_allow is_storage is_waiting address allow_list =
    if is_storage && not is_waiting
    then (if has address allow_list then allow_list else address ∷ allow_list, 0)
    else (allow_list, minus_one)

-- The loop that copies the buffers below the stack: each one below the last, at a multiple of 8.
unfoldable pub place : ℕ → ℕ → ℕ
place vaddr len = sub64 vaddr len - sub64 vaddr len % 8

abbrev pub place_buffers : ℕ → List VirtBuffer → ℕ × List VirtBuffer
place_buffers vaddr [] = (vaddr, [])
place_buffers vaddr (b ∷ rest) =
    let below = place_buffers (place vaddr b.len) rest in
    (below.0, record { addr = place vaddr b.len; len = b.len } ∷ below.1)

-- The frame of a call: the placed buffers, the address of their array and the new stack.
pub record Frame : Type 0 where
  pub buffers : List VirtBuffer
  pub array : ℕ
  pub stack : ℕ

abbrev frame_at : ℕ × List VirtBuffer → ℕ → Frame
frame_at (vaddr, placed) n = record {
  buffers = placed;
  array = sub64 vaddr (n * 16);
  stack = sub64 vaddr (n * 16) - sub64 vaddr (n * 16) % 16;
}

unfoldable pub make_frame : ℕ → List VirtBuffer → Frame
make_frame stack_address buffers = frame_at (place_buffers stack_address buffers) (length buffers)

-- How the run of the storage function ended. `prepared` is false where copying the buffers in
-- threw, which the call does not catch; `ran` is false where it threw; `copied` and `cleaned`
-- tell that copying the result back and running the function to its end threw nothing.
pub record StorageRun : Type 0 where
  pub prepared : Bool
  pub ran : Bool
  pub stopped : Bool
  pub response : ℕ
  pub rdi : ℕ
  pub rsi : ℕ
  pub copied : Bool
  pub cleaned : Bool

-- What a call does to its caller: an exception, or a result; and the part of its memory that is
-- written, if any.
pub record Called : Type 0 where
  pub result : Option ℕ
  pub written : Option VirtBuffer

abbrev pub failed : Option VirtBuffer → Called
failed w = record { result = some minus_one; written = w }

-- Resuming lets the function clean up; an exception there is a failure of the call.
abbrev pub resumed : StorageRun → ℕ → Option VirtBuffer → Called
resumed r retval w =
    if (r.response == 2) && not r.cleaned
    then failed w
    else record { result = some retval; written = w }

unfoldable pub answer : StorageRun → ℕ → ℕ → Called
answer r res_addr res_size =
    let size = if ltb r.rsi res_size then r.rsi else res_size in
    let retval = if not (res_addr == 0) then size else r.rsi in
    if not (res_addr == 0) && not (r.rdi == 0)
    then (if r.copied
        then resumed r retval (some (record { addr = res_addr; len = size }))
        else failed (some (record { addr = res_addr; len = size })))
    else resumed r retval none

unfoldable pub run_storage : StorageRun → ℕ → ℕ → Called
run_storage r res_addr res_size =
    if not r.prepared
    then record { result = none; written = none }
    else (if not r.ran
        then failed none
        else (if not r.stopped || not ((r.response == 2) || (r.response == 3))
            then failed none
            else answer r res_addr res_size))

-- `run` is what the storage machine does when it is called with that frame.
unfoldable pub storage_call :
    List ℕ → ℕ → (ℕ → Frame → StorageRun) → ℕ → List VirtBuffer → ℕ → ℕ → Called
storage_call allow_list stack_address run func buffers res_addr res_size =
    if ltb (u64 (res_addr + res_size)) res_addr
    then failed none
    else (if not (is_allowed allow_list func)
        then record { result = none; written = none }
        else run_storage (run func (make_frame stack_address buffers)) res_addr res_size)

-- `syscall_storage_callv`: the storage machine itself may not call, and 64 buffers are the most.
unfoldable pub storage_callv :
    Bool → List ℕ → ℕ → (ℕ → Frame → StorageRun) → ℕ → List VirtBuffer → ℕ → ℕ → Called
storage_callv is_storage allow_list stack_address run func buffers res_addr res_size =
    if not is_storage && leb (length buffers) 64
    then storage_call allow_list stack_address run func buffers res_addr res_size
    else failed none

-- The two halves of a live update: the registers after the old program serialized its state, and
-- after the new one made room; `none` where the run threw.
pub record Registers : Type 0 where
  pub rdi : ℕ
  pub rsi : ℕ

-- What is copied from the old machine to the new one.
pub record Transfer : Type 0 where
  pub from : ℕ
  pub to : ℕ
  pub size : ℕ

-- `moved` tells that the copy and the run after it threw nothing.
abbrev pub restore : Bool → Registers → Option Registers → ℕ × Option Transfer
restore moved state none = (minus_one, none)
restore moved state (some regs) =
    if not (regs.rdi == 0)
    then (
      if moved then min regs.rsi state.rsi else minus_one,
      some (record { from = state.rdi; to = regs.rdi; size = min regs.rsi state.rsi }),
    )
    else (0, none)

unfoldable pub live_update_call :
    Option Registers → (ℕ → Option Registers) → Bool → ℕ × Option Transfer
live_update_call none deserialize moved = (minus_one, none)
live_update_call (some state) deserialize moved =
    if ltb (u64 (state.rdi + state.rsi)) state.rdi
    then (minus_one, none)
    else (if state.rdi == 0 then (minus_one, none) else restore moved state (deserialize state.rsi))
