-- ===== src/Http/Found.antt =====
-- What `http_findhdr` of lib/libkvm/system_calls_http.cpp finds.
use libvmod_tinykvm.Common.{
  ℕ, zero, suc, ◌+◌, ◌<◌, ◌≤◌, ◌≡◌, ◌⊎◌, inl, inr, refl, sym, ap, ◌∙◌, arith, true, false, ◌||◌,
  Option, none, some, List, [], ◌∷◌, ◌++◌, Str, length, get_elem?, take, drop, ◌==◌, Bool-cases,
  length-append, take-append-drop, length-take, length-drop, subst, drop-append, drop-append_all,
}
use mathlib.Core.List.{append_assoc}
use libvmod_tinykvm.Http.{
  Field, Http, hdr_first, lower, same_name, has_name, find_from, http_findhdr, memchr,
  illegal_chars, strchr, all_legal,
}

-- No field has the name.
abbrev pub NoneNamed : ℕ → Str → List Field → Type 0
NoneNamed l hdr [] = Unit {0}
NoneNamed l hdr (f ∷ fs) = (has_name l hdr f.text ≡ false) × NoneNamed l hdr fs

-- The first field with the name, between the others.
pub record FoundIn (l : ℕ) (hdr : Str) (fs : List Field) : Type 0 where
  pub before : List Field
  pub field : Field
  pub after : List Field
  pub is_split : fs ≡ before ++ field ∷ after
  pub is_named : has_name l hdr field.text ≡ true
  pub is_first : NoneNamed l hdr before

abbrev pub FromIndex : ℕ → Str → ℕ → List Field → Type 0
FromIndex l hdr u fs =
    ((find_from l hdr u fs ≡ 0) × NoneNamed l hdr fs)
    ⊎ ((f : FoundIn l hdr fs) × (find_from l hdr u fs ≡ u + length (f.before)))

pub find_from-cases : (l : ℕ) (hdr : Str) (u : ℕ) (fs : List Field) → FromIndex l hdr u fs
find_from-cases l hdr u [] = inl (refl, tt)
find_from-cases l hdr u (f ∷ fs) = elim (Bool-cases (has_name l hdr f.text)) [
  | inl e ↦ inr (
    record { before = []; field = f; after = fs; is_split = refl; is_named = e; is_first = tt },
    simp e (omega arith),
  )
  | inr e ↦ elim (find_from-cases l hdr (suc u) fs) [
    | inl (z, n) ↦ inl (simp e z, (e, n))
    | inr (s, i) ↦ inr (
      record {
        before = f ∷ s.before;
        field = s.field;
        after = s.after;
        is_split = ap (λ r. f ∷ r) s.is_split;
        is_named = s.is_named;
        is_first = (e, s.is_first);
      },
      simp e (omega (arith, i)),
    )
  ]
]

-- Where no earlier field has the name, a field with it is found at its place.
pub find_from-append :
    (l : ℕ) (hdr : Str) (u : ℕ) (before : List Field) (f : Field) (after : List Field)
    → NoneNamed l hdr before
    → has_name l hdr f.text ≡ true
    → find_from l hdr u (before ++ f ∷ after) ≡ u + length before
find_from-append l hdr u [] f after n e = simp e (omega arith)
find_from-append l hdr u (b ∷ before) f after (other, n) e =
    simp other (omega (arith, find_from-append l hdr (suc u) before f after n e))

abbrev IsAt : ℕ → Str → Option ℕ → Type 0
IsAt c s none = Unit {0}
IsAt c s (some i) = (get_elem? s i ≡ some c) × (i < length s)

memchr-IsAt : (c : ℕ) (s : Str) → IsAt c s (memchr c s)
memchr-IsAt c [] = tt
memchr-IsAt c (d ∷ s) = elim (Bool-cases (d == c)) [
  | inl e ↦ rw e (ground (arith, e))
  | inr e ↦ rw e (after (memchr c s) (memchr-IsAt c s))
]
  where
    after :
        (o : Option ℕ)
        → IsAt c s o
        → IsAt c (d ∷ s) (elim o [ none ↦ none | some i ↦ some (suc i) ])
    after none h = tt
    after (some i) (at, lt) = (at, omega (arith, lt))

pub memchr-some :
    (c : ℕ) (s : Str) {i : ℕ} → memchr c s ≡ some i → (get_elem? s i ≡ some c) × (i < length s)
memchr-some c s e = subst (IsAt c s) e (memchr-IsAt c s)

pub same_name-take : (l : ℕ) (s : Str) → same_name l (take l s) s ≡ true
same_name-take zero s = refl
same_name-take (suc l) [] = refl
same_name-take (suc l) (c ∷ s) = ground (arith, same_name-take l s)

legal-nonzero : (c : ℕ) → strchr illegal_chars c ≡ false → (c == 0) ≡ false
legal-nonzero c e = ground arith

lower-nonzero : (c d : ℕ) → (c == 0) ≡ false → (lower c == lower d) ≡ true → (d == 0) ≡ false
lower-nonzero c d nonzero same = ground arith

lower_trans :
    (c d e : ℕ) → (lower c == lower d) ≡ true → (lower c == lower e) ≡ (lower d == lower e)
lower_trans c d e same = ground arith

-- Two names that are equal up to the case, without a zero byte, are names of the same fields.
pub same_name_trans :
    (key s t : Str)
    → all_legal key ≡ true
    → same_name (length key) key s ≡ true
    → same_name (length key) key t ≡ same_name (length key) s t
same_name_trans [] s t legal same = refl
same_name_trans (c ∷ key) [] t legal same = ground arith
same_name_trans (c ∷ key) (d ∷ s) [] legal same = refl
same_name_trans (c ∷ key) (d ∷ s) (e ∷ t) legal same =
    let (ok, legal') : (strchr illegal_chars c ≡ false) × (all_legal key ≡ true) =
      ground (arith, legal) in
    let (now, later) : ((lower c == lower d) ≡ true)
        × (((c == 0) || same_name (length key) key s) ≡ true) =
      ground (arith, same) in
    let nonzero : (c == 0) ≡ false = legal-nonzero c ok in
    let rest : same_name (length key) key s ≡ true = rw nonzero at later in
    rw (
      nonzero,
      lower-nonzero c d nonzero now,
      lower_trans c d e now,
      same_name_trans key s t legal' rest,
    )

-- A name up to the case finds the same fields.
find_from-same :
    (key s : Str) (u : ℕ) (fs : List Field)
    → all_legal key ≡ true
    → same_name (length key) key s ≡ true
    → find_from (length key) key u fs ≡ find_from (length key) s u fs
find_from-same key s u [] legal same = refl
find_from-same key s u (f ∷ fs) legal same =
    rw (same_name_trans key s f.text legal same, find_from-same key s (suc u) fs legal same)

pub http_findhdr-same :
    (hp : Http) (key s : Str)
    → all_legal key ≡ true
    → same_name (length key) key s ≡ true
    → http_findhdr hp (length key) key ≡ http_findhdr hp (length key) s
unfolding http_findhdr
http_findhdr-same hp key s legal same = find_from-same key s hdr_first _ legal same

-- The field at an index, which is the first one with the name.
pub record At (fs : List Field) (l : ℕ) (hdr : Str) (index : ℕ) : Type 0 where
  pub front : List Field
  pub field : Field
  pub after : List Field
  pub is_split : fs ≡ front ++ field ∷ after
  pub is_index : length front ≡ index
  pub is_header : hdr_first ≤ length front
  pub is_named : has_name l hdr field.text ≡ true
  pub is_first : NoneNamed l hdr (drop hdr_first front)

abbrev pub Findings : Http → ℕ → Str → ℕ → Type 0
Findings hp l hdr zero = NoneNamed l hdr (drop hdr_first hp.fields)
Findings hp l hdr (suc i) = At hp.fields l hdr (suc i)

module _ (hp : Http) (l : ℕ) (hdr : Str) (f : FoundIn l hdr (drop hdr_first hp.fields)) where
  proto_length : length (take hdr_first hp.fields) ≡ 5
  proto_length = omega (
    arith,
    length-take hdr_first hp.fields,
    length-drop hdr_first hp.fields,
    ap length f.is_split,
    length-append (f.before) (f.field ∷ f.after),
  )

  found-At : At hp.fields l hdr (suc (4 + length (f.before)))
  found-At = record {
    front = take hdr_first hp.fields ++ f.before;
    field = f.field;
    after = f.after;
    is_split =
        sym (take-append-drop hdr_first hp.fields)
        ∙ ap (λ r. take hdr_first hp.fields ++ r) f.is_split
        ∙ sym (append_assoc (take hdr_first hp.fields) (f.before) (f.field ∷ f.after));
    is_index = lengths ∙ omega arith;
    is_header = omega (arith, lengths);
    is_named = f.is_named;
    is_first =
        subst (λ r. NoneNamed l hdr r)
          (sym (
            ap (λ n. drop n (take hdr_first hp.fields ++ f.before)) (sym proto_length)
            ∙ drop-append_all (take hdr_first hp.fields) (f.before)))
          f.is_first;
  }
    where
      lengths : length (take hdr_first hp.fields ++ f.before) ≡ 5 + length (f.before)
      lengths = omega (arith, length-append (take hdr_first hp.fields) (f.before), proto_length)

pub http_findhdr-Findings :
    (hp : Http) (l : ℕ) (hdr : Str) → Findings hp l hdr (http_findhdr hp l hdr)
unfolding http_findhdr
http_findhdr-Findings hp l hdr = elim (find_from-cases l hdr hdr_first (drop hdr_first hp.fields)) [
  | inl (z, n) ↦ subst (Findings hp l hdr) (sym z) n
  | inr (f, i) ↦
      subst (Findings hp l hdr) {x = suc (4 + length (f.before))} (omega (arith, i))
        (found-At hp l hdr f)
]

-- Whatever stands behind it, such a field is found.
pub http_findhdr-front :
    (hp : Http) (l : ℕ) (hdr : Str) (front : List Field) (f : Field) (after : List Field)
    → hp.fields ≡ front ++ f ∷ after
    → hdr_first ≤ length front
    → NoneNamed l hdr (drop hdr_first front)
    → has_name l hdr f.text ≡ true
    → http_findhdr hp l hdr ≡ length front
unfolding http_findhdr
http_findhdr-front hp l hdr front f after e first none_before named =
    rw
      (
        e,
        drop-append hdr_first front (f ∷ after) first,
        find_from-append l hdr hdr_first (drop hdr_first front) f after none_before named,
        length-drop hdr_first front,
      )
      (omega (arith, first))
