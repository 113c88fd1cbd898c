-- ===== src/Backend/Release.antt =====
-- The end of `kvmbe_gethdrs` in src/kvm/kvm_backend.c: a short response is copied to the workspace,
-- so that its machine can be released before the response is fetched.
use mathlib.Core.List.{append-nil}
use libvmod_tinykvm.Common.{
  concat, ℕ, ◌≡◌, inl, inr, refl, arith, Bool, true, false, ◌&&◌, List, [], ◌∷◌, length, ltb, ◌==◌,
  if◌then◌else◌, Bool-cases,
}

-- The buffers of a response, and whether they stand in the memory of the machine.
pub record Response : Type 0 where
  pub content_length : ℕ
  pub buffers : List (List ℕ)
  pub in_guest : Bool

-- The machine stays reserved, or it is released, or the assertion on the length ends the process.
pub data Early : Type 0 where
  kept released : Response → Early
  asserted : Early

-- `limit` is `backend_early_release_size`, and `room` tells whether the workspace has room.
unfoldable pub copy_to_workspace : Bool → Response → Early
copy_to_workspace room r =
    if room
    then (if length (concat r.buffers) == r.content_length
        then released (record r { buffers = concat r.buffers ∷ []; in_guest = false })
        else asserted)
    else released r

unfoldable pub early_release : ℕ → Bool → Bool → Response → Early
unfolding copy_to_workspace
early_release limit has_slot room r =
    if has_slot && ltb r.content_length limit
    then (if r.content_length == 0
        then released (record r { buffers = [] ∷ []; in_guest = false })
        else copy_to_workspace room r)
    else kept r

-- The same bytes, which no machine holds once it was released.
abbrev pub IsSafe : Response → Early → Type 0
IsSafe r (kept r') = r' ≡ r
IsSafe r (released r') = (concat r'.buffers ≡ concat r.buffers) × (r'.in_guest ≡ false)
IsSafe r asserted = ⊥

length-nil : (xs : List ℕ) → length xs ≡ 0 → [] ≡ xs
length-nil [] h = refl
length-nil (x ∷ xs) h = absurd (omega arith)

-- A response whose buffers have its content length is fetched with the same bytes, whether its
-- machine is released early or not; where the machine is released, the bytes stand on the
-- workspace, provided that has room.
pub early_release-IsSafe :
    (limit : ℕ) (has_slot : Bool) (r : Response)
    → length (concat r.buffers) ≡ r.content_length
    → IsSafe r (early_release limit has_slot true r)
unfolding early_release copy_to_workspace
early_release-IsSafe limit has_slot r whole =
    elim (Bool-cases (has_slot && ltb r.content_length limit)) [
      | inr long ↦ rw long refl
      | inl short ↦ rw short (elim (Bool-cases (r.content_length == 0)) [
        | inl empty ↦ rw empty (length-nil (concat r.buffers) (ground (arith, whole)), refl)
        | inr content ↦ rw content (
            let same : (length (concat r.buffers) == r.content_length) ≡ true =
              ground (arith, whole) in
            rw same (append-nil (concat r.buffers), refl))
      ])
    ]
