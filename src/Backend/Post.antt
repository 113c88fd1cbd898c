-- ===== src/Backend/Post.antt =====
-- `kvm_backend_streaming_post` of lib/libkvm/backend.cpp, and the loop of
-- `kvm_handle_post_to_another` of src/kvm/kvm_backend.c: the body of a request is handed to the
-- guest, segment by segment.
pub mod Stored
pub mod Segments
pub mod Tests
use libvmod_tinykvm.Common.{
  ℕ, ◌+◌, ◌≡◌, Bool, true, false, not, ◌&&◌, List, [], ◌∷◌, length, leb, ◌==◌, if◌then◌else◌, u64,
}
use libvmod_tinykvm.Tenant.Group.{TenantGroup}
use libvmod_tinykvm.Machine.{MachineInstance, Tinykvm, allocate_post_data}
use libvmod_tinykvm.Machine.Stats.{MachineStats}
use libvmod_tinykvm.Backend.{BackendPost}
use libvmod_tinykvm.Backend.Serve.{count_fault}
use libvmod_tinykvm.Common.Act.{
  Fault, timeout, memory, machine, other, Outcome, done, threw, Act, ◌>>=◌, ◌>>◌, give, change,
  state, throw_unless,
}

pub record Posting (V P : Type 0) : Type 0 where
  pub mi : MachineInstance V P
  pub post : BackendPost

-- What the code uses of the program, its guest and `tinykvm::Machine`. `run_stream` pushes the
-- segment on the stack and calls the streaming callback with it.
pub record Receiver (V P : Type 0) : Type 0 where
  pub kvm : Tinykvm V
  pub stream_entry : ℕ
  pub run_stream :
      List ℕ → BackendPost → MachineInstance V P → MachineInstance V P × Outcome (Unit {0})
  pub return_value : V → ℕ
  pub copy_to_guest : ℕ → List ℕ → V → V × Outcome (Unit {0})

-- The results 0 and -1, and the end of the process by `assert`.
pub data Posted : Type 0 where
  accepted refused aborted : Posted

module _ {V P F : Type 0} (g : Receiver V P) (group : TenantGroup F) (segment : List ℕ) where
  abbrev pub grow : Act (Posting V P) (Unit {0})
  grow =
      change
        (λ s. record s { post = record (s.post) { length = u64 (s.post.length + length segment) } })

  unfoldable pub stream_segment : Act (Posting V P) Bool
  stream_segment = do
    (λ s. let (m, o) = g.run_stream segment s.post s.mi in (record s { mi = m }, o))
    grow
    s ← state
    give (g.return_value s.mi.machine == length segment)

  -- The area of the whole body is allocated with the first segment.
  abbrev pub allocate_first : Act (Posting V P) (Unit {0})
  allocate_first = change (λ s.
      if s.post.length == 0
      then (let (m, a) = allocate_post_data g.kvm group s.post.capacity s.mi in
          record s { mi = m; post = record (s.post) { address = a } })
      else s)

  abbrev pub copy_segment : Act (Posting V P) (Unit {0})
  copy_segment s =
      let (v, o) = g.copy_to_guest (u64 (s.post.address + s.post.length)) segment s.mi.machine in
      (record s { mi = record (s.mi) { machine = v } }, o)

  unfoldable pub store_segment : Act (Posting V P) Bool
  store_segment = do allocate_first; copy_segment; grow; give true

  abbrev pub fits : BackendPost → Bool
  fits post = leb (u64 (post.length + length segment)) post.capacity

  unfoldable pub accept_segment : Act (Posting V P) Bool
  accept_segment = do
    s ← state
    throw_unless machine (fits s.post)
    if g.stream_entry == 0 then store_segment else stream_segment

  -- The assertion of the first segment.
  abbrev pub asserts : BackendPost → Bool
  asserts post =
      not (fits post && ((g.stream_entry == 0) && ((post.length == 0) && not (post.address == 0))))

  abbrev pub returned : Posting V P × Outcome Bool → Posting V P × Posted
  returned (s, done true) = (s, accepted)
  returned (s, done false) = (s, refused)
  returned (s, threw e) =
      (record s { mi = record (s.mi) { stats = count_fault e s.mi.stats } }, refused)

  unfoldable pub kvm_backend_streaming_post : Posting V P → Posting V P × Posted
  unfolding accept_segment
  kvm_backend_streaming_post s =
      if asserts s.post then returned (accept_segment s) else (s, aborted)

module _ {V P F : Type 0} (g : Receiver V P) (group : TenantGroup F) where
  -- The loop over the buffers of a response, which ends with the first that is not accepted.
  unfoldable pub post_segments : List (List ℕ) → Posting V P → Posting V P × Posted
  post_segments [] s = (s, accepted)
  post_segments (segment ∷ segments) s =
      let (s', r) = kvm_backend_streaming_post g group segment s in
      elim r [
        | accepted ↦ post_segments segments s'
        | refused ↦ (s', refused)
        | aborted ↦ (s', aborted)
      ]
