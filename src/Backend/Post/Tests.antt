-- ===== src/Backend/Post/Tests.antt =====
-- A body of two segments that is posted to a guest whose memory is a function.
use libvmod_tinykvm.Common.{
  ℕ, zero, suc, ◌+◌, ◌-◌, ◌<◌, ◌≡◌, refl, arith, true, false, some, List, [], ◌∷◌, get_elem?,
  get_or, some-inj, ap, sym, ◌∙◌, leb, if◌then◌else◌,
}
use libvmod_tinykvm.Machine.{static}
use libvmod_tinykvm.Machine.Stats.{zeroed}
use libvmod_tinykvm.Machine.Tests.{group, no_regex}
use libvmod_tinykvm.Common.Act.{Outcome, done}
use libvmod_tinykvm.Backend.Post.{Posting, Receiver, post_segments}
use libvmod_tinykvm.Backend.Post.Stored.{Memory, Holds}
use libvmod_tinykvm.Backend.Post.Segments.{After, post_segments-After}

abbrev write : ℕ → List ℕ → (ℕ → ℕ) → ℕ → ℕ
write a bytes v j = if leb a j then get_or bytes (j - a) (v j) else v j

get_or-get_elem? : (bytes : List ℕ) (i x d : ℕ) → get_elem? bytes i ≡ some x → get_or bytes i d ≡ x
get_or-get_elem? [] i x d h = cc
get_or-get_elem? (b ∷ bytes) zero x d h = some-inj b x h
get_or-get_elem? (b ∷ bytes) (suc i) x d h = get_or-get_elem? bytes i x d h

write_at :
    (a : ℕ) (bytes : List ℕ) (v : ℕ → ℕ) (i x : ℕ)
    → get_elem? bytes i ≡ some x
    → write a bytes v (a + i) ≡ x
write_at a bytes v i x h =
    let e : a + i - a ≡ i = omega arith in
    let le : leb a (a + i) ≡ true = ground arith in
    rw (le, e) (get_or-get_elem? bytes i x (v (a + i)) h)

write_below : (a : ℕ) (bytes : List ℕ) (v : ℕ → ℕ) (j : ℕ) → j < a → write a bytes v j ≡ v j
write_below a bytes v j h = ground arith

abbrev receiver : Receiver (ℕ → ℕ) ℕ
receiver = record {
  kvm = record {
    fork = λ o v. v;
    reset_to = λ o v source. (source, some false);
    mmap_allocate = λ n v. (v, 0x10000);
    mmap_unmap = λ a n v. v;
  };
  stream_entry = 0;
  run_stream = λ s p m. (m, done tt);
  return_value = λ v. 0;
  copy_to_guest = λ a bytes v. (write a bytes v, done tt);
}

memory : Memory receiver
memory = record {
  byte = λ v j. v j;
  copied = λ a bytes v v' h i x e.
      sym (ap (λ (r : (ℕ → ℕ) × Outcome (Unit {0})). r.0 (a + i)) h) ∙ write_at a bytes v i x e;
  kept = λ a bytes v v' h j below.
      sym (ap (λ (r : (ℕ → ℕ) × Outcome (Unit {0})). r.0 j) h) ∙ write_below a bytes v j below;
  allocated = λ n v bound. omega arith;
}

abbrev posting : Posting (ℕ → ℕ) ℕ
posting = record {
  mi = record {
    ctx = some 1;
    machine = λ j. 0;
    is_debug = false;
    is_storage = false;
    is_ephemeral = true;
    waiting_for_requests = true;
    is_warming_up = false;
    response_called = 0;
    reset_needed = false;
    soft_reset_needed = false;
    binary_type = static;
    sighandler = 0;
    post_data = 0;
    post_size = 0;
    inputs_allocation = 0;
    stats = zeroed;
    regex = no_regex;
  };
  post = record { address = 0; capacity = 5; length = 0 };
}

nothing_posted : Holds memory [] posting
nothing_posted = record {
  counted = refl;
  in_capacity = omega arith;
  area = omega arith;
  unset = λ e. refl;
  inside = λ h. omega arith;
  stored = λ i x h. cc;
}

post_segments-After_example :
    After memory group 5
      (1 ∷ 2 ∷ 3 ∷ 4 ∷ [])
      (post_segments receiver group ((1 ∷ 2 ∷ []) ∷ (3 ∷ 4 ∷ []) ∷ []) posting)
post_segments-After_example =
    post_segments-After memory group ((1 ∷ 2 ∷ []) ∷ (3 ∷ 4 ∷ []) ∷ []) posting refl (omega arith)
      (omega arith, omega arith, (omega arith, omega arith, tt)) nothing_posted
