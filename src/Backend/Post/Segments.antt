-- ===== src/Backend/Post/Segments.antt =====
-- The body of a request in the guest's memory: `kvm_backend_streaming_post` of
-- lib/libkvm/backend.cpp for a program without a streaming callback.
use libvmod_tinykvm.Common.{
  concat, ℕ, ◌+◌, ◌^◌, ◌<◌, ◌≤◌, ◌≡◌, inl, inr, refl, arith, subst, Bool, true, false, List, [],
  ◌∷◌, ◌++◌, length, leb, ◌==◌, u64, Bool-cases,
}
use mathlib.Core.List.{append-nil, append_assoc}
use native.Mathlib.Nat.{mod-eq_of_lt}
use libvmod_tinykvm.Tenant.Group.{TenantGroup}
use libvmod_tinykvm.Backend.Post.{
  Posting, Receiver, Posted, accepted, refused, aborted, store_segment, fits, accept_segment,
  asserts, returned, kvm_backend_streaming_post, post_segments,
}
use libvmod_tinykvm.Backend.Post.Stored.{Memory, Holds, Stored, Failed, store_segment-Stored}
use libvmod_tinykvm.Common.Act.{Outcome, done, threw, Post}

-- Segments as the callers hand them over: none is empty, and the size of each is an `ssize_t`.
abbrev pub AreSegments : List (List ℕ) → Type 0
AreSegments [] = Unit {0}
AreSegments (segment ∷ segments) =
    (0 < length segment) × (length segment < 2 ^ 63) × AreSegments segments

module _ {V P F : Type 0} {g : Receiver V P} (mem : Memory g) (group : TenantGroup F) where
  -- What a call leaves: all bytes in order, or no more than there is room for.
  abbrev pub After : ℕ → List ℕ → Posting V P × Posted → Type 0
  After capacity bytes (s, accepted) = Holds mem bytes s × (s.post.capacity ≡ capacity)
  After capacity bytes (s, refused) = s.post.length ≤ capacity
  After capacity bytes (s, aborted) = ⊥

  returned-After :
      (segment : List ℕ) (capacity : ℕ) (bytes : List ℕ) (r : Posting V P × Outcome Bool)
      → Post (Stored mem group capacity bytes) (Failed mem group capacity) r
      → After capacity bytes (returned g group segment r)
  returned-After segment capacity bytes (s, done true) h = (h.1, h.2)
  returned-After segment capacity bytes (s, done false) h = cc h.0
  returned-After segment capacity bytes (s, threw e) h = h

  -- The first segment finds no address: the assertion holds.
  asserts-Holds :
      (segment bytes : List ℕ) (s : Posting V P)
      → Holds mem bytes s
      → asserts g group segment s.post ≡ true
  asserts-Holds segment bytes s h = elim (Bool-cases (s.post.length == 0)) [
    | inl first ↦ ground (arith, h.unset (ground arith))
    | inr later ↦ ground arith
  ]

  within :
      (segment : List ℕ) (n capacity : ℕ)
      → leb (u64 (n + length segment)) capacity ≡ true
      → capacity < 2 ^ 63
      → length segment < 2 ^ 63
      → n ≤ capacity
      → n + length segment ≤ capacity
  within segment n capacity room bound short small =
      let sum : u64 (n + length segment) ≡ n + length segment = mod-eq_of_lt (omega arith) in
      ground (arith, sum)

  pub streaming_post-After :
      (segment bytes : List ℕ) (s : Posting V P)
      → g.stream_entry ≡ 0
      → s.post.capacity < 2 ^ 63
      → 0 < length segment
      → length segment < 2 ^ 63
      → Holds mem bytes s
      → After s.post.capacity (bytes ++ segment) (kvm_backend_streaming_post g group segment s)
  unfolding kvm_backend_streaming_post accept_segment
  streaming_post-After segment bytes s no_stream bound nonempty short h =
      rw (asserts-Holds segment bytes s h) (elim (Bool-cases (fits g group segment s.post)) [
        | inr too_large ↦ rw too_large h.in_capacity
        | inl room ↦ rw room (
            simp no_stream (
              returned-After segment s.post.capacity (bytes ++ segment)
                (store_segment g group segment s)
                (store_segment-Stored mem group segment bytes s h nonempty
                  (within segment s.post.length s.post.capacity room bound short h.in_capacity)
                  bound)))
      ])

  -- The rest of the loop.
  posted-After :
      (segments : List (List ℕ)) (capacity : ℕ) (bytes all : List ℕ) (r : Posting V P × Posted)
      → After capacity bytes r
      → ((s : Posting V P)
          → Holds mem bytes s
          → s.post.capacity ≡ capacity
          → After capacity all (post_segments g group segments s))
      → After capacity all (elim r.1 [
        | accepted ↦ post_segments g group segments r.0
        | refused ↦ (r.0, refused)
        | aborted ↦ (r.0, aborted)
      ])
  posted-After segments capacity bytes all (s, accepted) (h, same) rest = rest s h same
  posted-After segments capacity bytes all (s, refused) small rest = small
  posted-After segments capacity bytes all (s, aborted) impossible rest = impossible

  segments-After :
      (segments : List (List ℕ)) (bytes : List ℕ) (capacity : ℕ) (s : Posting V P)
      → g.stream_entry ≡ 0
      → capacity < 2 ^ 63
      → s.post.capacity ≡ capacity
      → AreSegments segments
      → Holds mem bytes s
      → After capacity (bytes ++ concat segments) (post_segments g group segments s)
  unfolding post_segments
  segments-After [] bytes capacity s no_stream bound same sized h = rw (append-nil bytes) (h, same)
  segments-After (segment ∷ segments) bytes capacity s no_stream bound same sized h =
      posted-After segments capacity (bytes ++ segment) (bytes ++ (segment ++ concat segments))
        (kvm_backend_streaming_post g group segment s)
        (subst (λ c. After c (bytes ++ segment) (kvm_backend_streaming_post g group segment s)) same
          (streaming_post-After segment bytes s no_stream (omega arith) sized.0 sized.1 h))
        (λ s' h' same'.
          rw (← append_assoc bytes segment (concat segments)) (
            segments-After segments (bytes ++ segment) capacity s' no_stream bound same' sized.2
              h'))

  -- A program without a streaming callback gets the whole body: when every segment was accepted,
  -- the guest's memory holds the bytes of all of them in order, from the address of the POST, and
  -- their number is its length. A body that does not fit is refused, its length never exceeds the
  -- capacity, and no assertion fails.
  pub post_segments-After :
      (segments : List (List ℕ)) (s : Posting V P)
      → g.stream_entry ≡ 0
      → s.post.capacity < 2 ^ 63
      → AreSegments segments
      → Holds mem [] s
      → After s.post.capacity (concat segments) (post_segments g group segments s)
  post_segments-After segments s no_stream bound sized h =
      segments-After segments [] s.post.capacity s no_stream bound refl sized h
