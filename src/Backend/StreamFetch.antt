-- ===== src/Backend/StreamFetch.antt =====
-- `kvmfp_streaming_pull` of lib/libkvm/kvm_streaming_backend.c: Varnish fetches a streamed response
-- from its guest, part by part. The bytes are those that were put into the room of one pull.
use libvmod_tinykvm.Common.{
  ℕ, zero, suc, ◌+◌, ◌-◌, ◌≡◌, ◌≤◌, Option, none, some, List, [], ◌∷◌, ◌++◌, length, ◌==◌,
  if◌then◌else◌,
}
use libvmod_tinykvm.Machine.{MachineInstance}
use libvmod_tinykvm.Backend.{BackendResult}
use libvmod_tinykvm.Backend.Delivery.{Sender, kvm_backend_streaming_delivery}

pub data StreamStatus : Type 0 where
  stream_end stream_ok stream_error : StreamStatus

-- `written` is `priv2`, the bytes of all pulls.
pub record StreamPulled (V P : Type 0) : Type 0 where
  pub mi : MachineInstance V P
  pub bytes : List ℕ
  pub written : ℕ
  pub status : StreamStatus

module _ {V P : Type 0} (g : Sender V P) (callback argument : ℕ) (result : BackendResult) where
  abbrev pub stopped_at :
      MachineInstance V P → List ℕ → ℕ → StreamStatus → Option (StreamPulled V P)
  stopped_at m bytes written status =
      some (record { mi = m; bytes = bytes; written = written; status = status })

  -- What follows on a part; no progress is an error. `again` is the next round of the loop.
  abbrev pub after_part :
      ℕ
      → ℕ
      → List ℕ
      → MachineInstance V P × Option (List ℕ)
      → (ℕ → ℕ → List ℕ → MachineInstance V P → Option (StreamPulled V P))
      → Option (StreamPulled V P)
  after_part room written bytes (m, none) again = stopped_at m bytes written stream_error
  after_part room written bytes (m, some []) again = stopped_at m bytes written stream_error
  after_part room written bytes (m, some (b ∷ bs)) again =
      let total = written + length (b ∷ bs) in
      if total == result.content_length
      then stopped_at m (bytes ++ b ∷ bs) total stream_end
      else (if room - length (b ∷ bs) == 0
          then stopped_at m (bytes ++ b ∷ bs) total stream_ok
          else again (room - length (b ∷ bs)) total (bytes ++ b ∷ bs) m)

  -- The loop with fuel, and `none` where it runs out.
  unfoldable pub stream_loop : ℕ → ℕ → ℕ → List ℕ → MachineInstance V P → Option (StreamPulled V P)
  stream_loop zero room written bytes m = none
  stream_loop (suc fuel) room written bytes m =
      after_part room written bytes
        (kvm_backend_streaming_delivery g callback argument result room written m)
        (λ room' written' bytes' m'. stream_loop fuel room' written' bytes' m')

  -- One round for each byte of the room is enough fuel.
  unfoldable pub kvmfp_streaming_pull : ℕ → ℕ → MachineInstance V P → Option (StreamPulled V P)
  kvmfp_streaming_pull room written m = stream_loop room room written [] m

  -- What a pull leaves.
  abbrev pub ByStatus : ℕ → StreamPulled V P → StreamStatus → Type 0
  ByStatus room r stream_end = r.written ≡ result.content_length
  ByStatus room r stream_ok = length r.bytes ≡ room
  ByStatus room r stream_error = Unit {0}

  abbrev pub IsPulled : ℕ → ℕ → Option (StreamPulled V P) → Type 0
  IsPulled room written none = ⊥
  IsPulled room written (some r) =
      (length r.bytes ≤ room) × (r.written ≡ written + length r.bytes) × ByStatus room r r.status
