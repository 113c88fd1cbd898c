-- ===== src/Backend/Fetch.antt =====
-- `kvmfp_pull` of src/kvm/kvm_backend.c: Varnish fetches a response buffer by buffer. The buffers
-- are what is left of them, from the current one on.
use mathlib.Core.List.{append-nil, append_assoc}
use libvmod_tinykvm.Common.{
  concat, ℕ, suc, ◌-◌, ◌≡◌, ◌<◌, ◌≤◌, inl, inr, refl, ap, sym, subst, ◌∙◌, arith, false, List, [],
  ◌∷◌, ◌++◌, length, take, drop, take-append-drop, length-take, length-append, leb, ◌==◌,
  if◌then◌else◌, Bool-cases,
}

pub data VfpStatus : Type 0 where
  vfp_end vfp_ok : VfpStatus

pub record Pulled : Type 0 where
  pub bytes : List ℕ
  pub buffers : List (List ℕ)
  pub status : VfpStatus

abbrev pub prepend : List ℕ → Pulled → Pulled
prepend b r = record r { bytes = b ++ r.bytes }

-- The loop, for the room that is left. There is a buffer, as the content is not empty.
unfoldable pub pull_from : List (List ℕ) → ℕ → Pulled
pull_from [] room = record { bytes = []; buffers = []; status = vfp_end }
pull_from (b ∷ []) room =
    if leb (length b) room
    then record { bytes = b; buffers = []; status = vfp_end }
    else record { bytes = take room b; buffers = drop room b ∷ []; status = vfp_ok }
pull_from (b ∷ c ∷ bs) room =
    let rest = pull_from (c ∷ bs) (room - length b) in
    if leb (length b) room
    then (if room - length b == 0
        then record { bytes = b; buffers = c ∷ bs; status = vfp_ok }
        else prepend b rest)
    else record { bytes = take room b; buffers = drop room b ∷ c ∷ bs; status = vfp_ok }

unfoldable pub kvmfp_pull : ℕ → List (List ℕ) → ℕ → Pulled
kvmfp_pull content_length buffers room =
    if content_length == 0
    then record { bytes = []; buffers = buffers; status = vfp_end }
    else pull_from buffers room

abbrev pub and_then : List ℕ → VfpStatus → List ℕ × VfpStatus → List ℕ × VfpStatus
and_then bytes vfp_end rest = (bytes, vfp_end)
and_then bytes vfp_ok rest = (bytes ++ rest.0, rest.1)

-- Varnish pulls until the end, with the room that it has each time.
unfoldable pub pull_all : ℕ → List ℕ → List (List ℕ) → List ℕ × VfpStatus
pull_all content_length [] buffers = ([], vfp_ok)
pull_all content_length (room ∷ rooms) buffers =
    let r = kvmfp_pull content_length buffers room in
    and_then r.bytes r.status (pull_all content_length rooms r.buffers)

-- A pull delivers the next bytes: all of them at the end, and as many as there is room for before.
abbrev Delivers : ℕ → List ℕ → List ℕ → List (List ℕ) → VfpStatus → Type 0
Delivers room all bytes buffers vfp_end = bytes ≡ all
Delivers room all bytes buffers vfp_ok =
    (bytes ++ concat buffers ≡ all)
    × (length bytes ≡ room)
    × ((b : List ℕ) × (bs : List (List ℕ)) × (buffers ≡ b ∷ bs))

partly :
    (b : List ℕ) (bs : List (List ℕ)) (room : ℕ)
    → leb (length b) room ≡ false
    → Delivers room (b ++ concat bs) (take room b) (drop room b ∷ bs) vfp_ok
partly b bs room large = (
  sym (append_assoc (take room b) (drop room b) (concat bs))
      ∙ ap (λ x. x ++ concat bs) (take-append-drop room b),
  ground (arith, length-take room b),
  (drop room b, bs, refl),
)

prepend-Delivers :
    (b all bytes : List ℕ) (buffers : List (List ℕ)) (room : ℕ) (status : VfpStatus)
    → length b ≤ room
    → Delivers (room - length b) all bytes buffers status
    → Delivers room (b ++ all) (b ++ bytes) buffers status
prepend-Delivers b all bytes buffers room vfp_end fits h = ap (λ x. b ++ x) h
prepend-Delivers b all bytes buffers room vfp_ok fits (whole, exact, more) = (
  append_assoc b bytes (concat buffers) ∙ ap (λ x. b ++ x) whole,
  omega (arith, length-append b bytes, exact),
  more,
)

prepend-Pulls :
    (b all : List ℕ) (r : Pulled) (room : ℕ)
    → length b ≤ room
    → Delivers (room - length b) all r.bytes r.buffers r.status
    → Delivers room (b ++ all) (prepend b r).bytes (prepend b r).buffers (prepend b r).status
prepend-Pulls b all r room fits h = prepend-Delivers b all r.bytes r.buffers room r.status fits h

abbrev Pulls : ℕ → List (List ℕ) → Pulled → Type 0
Pulls room buffers r = Delivers room (concat buffers) r.bytes r.buffers r.status

pull_from-Pulls :
    (b : List ℕ) (bs : List (List ℕ)) (room : ℕ) → Pulls room (b ∷ bs) (pull_from (b ∷ bs) room)
unfolding pull_from
pull_from-Pulls b [] room = elim (Bool-cases (leb (length b) room)) [
  | inl fits ↦ rw fits (sym (append-nil b))
  | inr large ↦ rw large (partly b [] room large)
]
pull_from-Pulls b (c ∷ bs) room = elim (Bool-cases (leb (length b) room)) [
  | inr large ↦ rw large (partly b (c ∷ bs) room large)
  | inl fits ↦ rw fits (elim (Bool-cases (room - length b == 0)) [
    | inl exact ↦ rw exact (refl, ground (arith, fits, exact), (c, bs, refl))
    | inr more ↦ rw more (
        prepend-Pulls b (concat (c ∷ bs)) (pull_from (c ∷ bs) (room - length b)) room
          (ground (arith, fits)) (pull_from-Pulls c bs (room - length b)))
  ])
]

abbrev pub ArePositive : List ℕ → Type 0
ArePositive [] = Unit {0}
ArePositive (room ∷ rooms) = (0 < room) × ArePositive rooms

-- The pull and those after it.
pulled_on :
    (content_length room : ℕ) (rooms : List ℕ) (all bytes : List ℕ) (buffers : List (List ℕ))
    (status : VfpStatus)
    → 0 < room
    → length all < suc (length rooms)
    → Delivers room all bytes buffers status
    → ((b : List ℕ) (bs : List (List ℕ))
        → buffers ≡ b ∷ bs
        → length (concat buffers) < length rooms
        → pull_all content_length rooms buffers ≡ (concat buffers, vfp_end))
    → and_then bytes status (pull_all content_length rooms buffers) ≡ (all, vfp_end)
pulled_on content_length room rooms all bytes buffers vfp_end positive enough h rest =
    ap (λ (x : List ℕ). (x, vfp_end)) h
pulled_on content_length room rooms all bytes buffers vfp_ok positive enough (whole, exact, more)
      rest =
    let (b, bs, e) = more in
    let left : length (concat buffers) < length rooms =
      omega (arith, length-append bytes (concat buffers), ap (λ (x : List ℕ). length x) whole) in
    rw (rest b bs e left) (ap (λ (x : List ℕ). (x, vfp_end)) whole)

pull_all-concat_cons :
    (content_length : ℕ) (rooms : List ℕ) (b : List ℕ) (bs : List (List ℕ))
    → 0 < content_length
    → ArePositive rooms
    → length (concat (b ∷ bs)) < length rooms
    → pull_all content_length rooms (b ∷ bs) ≡ (concat (b ∷ bs), vfp_end)
unfolding pull_all kvmfp_pull
pull_all-concat_cons content_length [] b bs some_content positive enough = absurd (omega arith)
pull_all-concat_cons content_length (room ∷ rooms) b bs some_content positive enough =
    let r = pull_from (b ∷ bs) room in
    let nonzero : (content_length == 0) ≡ false = ground arith in
    rw (pull_all, kvmfp_pull, nonzero)
      (pulled_on content_length room rooms (concat (b ∷ bs)) r.bytes r.buffers r.status positive.0
        enough (pull_from-Pulls b bs room)
        (λ c cs e left.
          subst (λ x. pull_all content_length rooms x ≡ (concat x, vfp_end)) (sym e)
            (pull_all-concat_cons content_length rooms c cs some_content positive.1
              (subst (λ x. length (concat x) < length rooms) e left))))

length-eq_zero : (xs : List ℕ) → length xs ≡ 0 → [] ≡ xs
length-eq_zero [] h = refl
length-eq_zero (x ∷ xs) h = absurd (omega arith)

nothing_pulled :
    (content_length room : ℕ) (rooms : List ℕ) (buffers : List (List ℕ))
    → content_length ≡ 0
    → pull_all content_length (room ∷ rooms) buffers ≡ ([], vfp_end)
unfolding pull_all kvmfp_pull
nothing_pulled content_length room rooms buffers empty = rw empty

-- A response arrives whole: whatever rooms Varnish gives, the bytes that it pulls until the end are
-- those of all buffers in order, and the end comes, at the latest after one pull more than there
-- are bytes.
pub pull_all-concat :
    (buffers : List (List ℕ)) (rooms : List ℕ)
    → ArePositive rooms
    → length (concat buffers) < length rooms
    → pull_all (length (concat buffers)) rooms buffers ≡ (concat buffers, vfp_end)
pull_all-concat buffers [] positive enough = absurd (omega arith)
pull_all-concat [] (room ∷ rooms) positive enough = nothing_pulled 0 room rooms [] refl
pull_all-concat (b ∷ bs) (room ∷ rooms) positive enough =
    elim (Bool-cases (length (concat (b ∷ bs)) == 0)) [
      | inl empty ↦
          nothing_pulled (length (concat (b ∷ bs))) room rooms (b ∷ bs) (ground arith)
          ∙ ap (λ (x : List ℕ). (x, vfp_end)) (length-eq_zero (concat (b ∷ bs)) (ground arith))
      | inr content ↦
          pull_all-concat_cons (length (concat (b ∷ bs))) (room ∷ rooms) b bs (ground arith)
            positive enough
    ]
