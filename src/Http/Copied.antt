-- ===== src/Http/Copied.antt =====
-- What `syscall_regex_copyto` of lib/libkvm/system_calls_http.cpp appends, and how much
-- `syscall_http_find` writes to the guest.
use libvmod_tinykvm.Common.{
  ℕ, suc, ◌+◌, ◌^◌, ◌<◌, ◌≤◌, ◌≡◌, ◌⊎◌, inl, inr, refl, sym, ap, subst, ◌∙◌, arith, Bool, true,
  false, not, ◌&&◌, Option, none, some, List, [], ◌∷◌, ◌++◌, map, Str, length, take, drop, leb,
  ◌==◌, if◌then◌else◌, u16, u32, length-append, length-take, Bool-cases, some-inj,
}
use mathlib.Core.List.{append-nil, append_assoc}
use libvmod_tinykvm.Common.Act.{
  Act, Fault, machine, other, Outcome, done, ◌>>=◌, give, answered, bind-done, Post, Post-answered,
  Post-throw_unless,
}
use libvmod_tinykvm.Backend.{Regs}
use libvmod_tinykvm.Http.{
  Field, Http, hdr_first, hdr_invalid, validate_guest_field, http_findhdr, validate_guest_field_key,
}
use libvmod_tinykvm.Http.RoundTrip.{http_of-put, get_http-done}
use libvmod_tinykvm.Http.Calls.{
  Which, bereq, beresp, req, resp, Varnish, Guest, Context, http_of, put_http, with_which, selected,
  select_http, which_of, get_http, http_header_append, copy_one, copy_fields, regex_copyto,
  http_find, give_field, give_text, field_at,
}

-- The fields that match.
abbrev pub matching : (Str → Bool) → List Field → List Field
matching matches [] = []
matching matches (f ∷ fs) =
    let rest = matching matches fs in if matches f.text then f ∷ rest else rest

abbrev pub all_valid : List Field → Bool
all_valid [] = true
all_valid (f ∷ fs) = validate_guest_field f.text && all_valid fs

put-put :
    {W : Type 0} (w : Which) (hp hp' : Http) (c : Context W)
    → put_http w hp' (put_http w hp c) ≡ put_http w hp' c
put-put bereq hp hp' c = refl
put-put beresp hp hp' c = refl
put-put req hp hp' c = refl
put-put resp hp hp' c = refl

put-same :
    {W : Type 0} (w : Which) (hp : Http) (c : Context W)
    → http_of w c ≡ some hp
    → put_http w hp c ≡ c
put-same bereq hp c e = ap (λ o. record c { http_bereq = o }) (sym e)
put-same beresp hp c e = ap (λ o. record c { http_beresp = o }) (sym e)
put-same req hp c e = ap (λ o. record c { http_req = o }) (sym e)
put-same resp hp c e = ap (λ o. record c { http_resp = o }) (sym e)

result_eq :
    {S : Type 0} {c d : S} {n m : ℕ}
    → c ≡ d
    → n ≡ m
    → ◌≡◌ {A = S × Outcome ℕ} (c, done n) (d, done m)
result_eq e k i = (e i, done (k i))

module _ {W : Type 0} (v : Varnish W) (matches : Str → Bool) (w : Which) where
  abbrev pub with_copies : Http → List Field → Http
  with_copies hp fs = record hp { fields = hp.fields ++ map (λ (f : Field). v.set_h f.text) fs }

  abbrev pub with_all : Http → Context W → ℕ → List Field → Context W × Outcome ℕ
  with_all hp c n fs = (put_http w (with_copies hp fs) c, done (n + length fs))

  copy_one-skipped :
      (text : Str) (hp : Http) (c : Context W)
      → http_of w c ≡ some hp
      → matches text ≡ false
      → copy_one v matches w text c ≡ (c, done hdr_invalid)
  copy_one-skipped text hp c e no_match =
      ap (λ o. (answered other (with_which w o) >>= chosen) c) e ∙ simp no_match refl
    where
      chosen : Which × Http → Act (Context W) ℕ
      chosen (w', hp) = if matches text then http_header_append v w' hp text else give hdr_invalid

  copy_one-copied :
      (text : Str) (hp : Http) (c : Context W)
      → http_of w c ≡ some hp
      → matches text ≡ true
      → validate_guest_field text ≡ true
      → length hp.fields < hp.fields_max
      → copy_one v matches w text c ≡ (
        put_http w (record hp { fields = hp.fields ++ v.set_h text ∷ [] }) c,
        done (length hp.fields),
      )
  unfolding http_header_append
  copy_one-copied text hp c e match valid room =
      bind-done (answered other (selected w c)) _ c (ap (λ o. answered other (with_which w o) c) e)
      ∙ simp (match, short, valid) refl
    where
      short : leb hp.fields_max (length hp.fields) ≡ false
      short = ground (arith, room)

  -- One field that is copied, before the others are.
  copied_first :
      (f : Field) (fs : List Field) (n : ℕ) (hp : Http) (c : Context W)
      → http_of w c ≡ some hp
      → matches f.text ≡ true
      → validate_guest_field f.text ≡ true
      → length hp.fields < hp.fields_max
      → hp.fields_max < 2 ^ 16
      → copy_fields v matches w (f ∷ fs) n c
        ≡ copy_fields v matches w fs
            (suc n)
            (put_http w (record hp { fields = hp.fields ++ v.set_h f.text ∷ [] }) c)
  copied_first f fs n hp c e match valid room small =
      bind-done (copy_one v matches w f.text) _ c (copy_one-copied f.text hp c e match valid room)
      ∙ rw counted refl
    where
      counted : (length hp.fields == hdr_invalid) ≡ false
      counted = ground (arith, room, small)

  copy_fields_lem :
      (fs : List Field) (n : ℕ) (hp : Http) (c : Context W)
      → http_of w c ≡ some hp
      → all_valid (matching matches fs) ≡ true
      → length hp.fields + length (matching matches fs) ≤ hp.fields_max
      → hp.fields_max < 2 ^ 16
      → copy_fields v matches w fs n c ≡ with_all hp c n (matching matches fs)
  copy_fields_lem [] n hp c e valid room small =
      result_eq
        (sym (
          ap (λ fs. put_http w (record hp { fields = fs }) c) (append-nil hp.fields)
          ∙ put-same w hp c e))
        (omega arith)
  copy_fields_lem (f ∷ fs) n hp c e valid room small = elim (Bool-cases (matches f.text)) [
    | inl match ↦
        let (first, others) : (validate_guest_field f.text ≡ true)
            × (all_valid (matching matches fs) ≡ true) =
          ground (arith, simp match at valid) in
        let fits : suc (length hp.fields + length (matching matches fs)) ≤ hp.fields_max =
          omega (arith, simp match at room) in
        subst (λ ms. copy_fields v matches w (f ∷ fs) n c ≡ with_all hp c n ms)
          (sym (ap chosen match))
          (copied_first f fs n hp c e match first (omega (arith, fits)) small
            ∙ copy_fields_lem fs (suc n) next (put_http w next c) (http_of-put w next c) others
                (omega (arith, fits, length-append hp.fields (v.set_h f.text ∷ []))) small
            ∙ result_eq
                (put-put w next (with_copies next (matching matches fs)) c
                  ∙ ap (λ r. put_http w (record hp { fields = r }) c)
                      (append_assoc hp.fields (v.set_h f.text ∷ []) _))
                (omega arith))
    | inr no_match ↦
        subst (λ ms. copy_fields v matches w (f ∷ fs) n c ≡ with_all hp c n ms)
          (sym (ap chosen no_match))
          (bind-done (copy_one v matches w f.text) _ c (copy_one-skipped f.text hp c e no_match)
            ∙ copy_fields_lem fs n hp c e (simp no_match at valid) (simp no_match at room) small)
  ]
    where
      next : Http
      next = record hp { fields = hp.fields ++ v.set_h f.text ∷ [] }

      chosen : Bool → List Field
      chosen b = let rest = matching matches fs in if b then f ∷ rest else rest

module _ {W : Type 0} (v : Varnish W) where
  selected_is :
      (o : Option Which) (c : Context W) {w : Which} {hp : Http}
      → select_http v o c ≡ some (w, hp)
      → http_of w c ≡ some hp
  selected_is none c e = ground arith
  selected_is (some u) c e = there (http_of u c) refl e
    where
      there :
          (o : Option Http) {w : Which} {hp : Http}
          → http_of u c ≡ o
          → with_which u o ≡ some (w, hp)
          → http_of w c ≡ some hp
      there none e f = ground arith
      there (some h) e f =
          subst (λ (r : Which × Http). http_of (r.0) c ≡ some (r.1)) (some-inj (u, h) _ f) e

  -- A copy of the headers that match a regex, where the destination has room for them and they are
  -- valid for a guest: they are appended in their order, behind all fields that the destination
  -- has, and the reply is their number, also where the source is the destination. No header set has
  -- room for `2 ^ 16` fields.
  pub regex_copyto_lem :
      (regex : ℕ → Option (Str → Bool)) (regs : Regs) (c : Context W) (matches : Str → Bool)
      (w w' : Which) (src dst : Http)
      → regex (u32 regs.rdi) ≡ some matches
      → select_http v (which_of v c.bo (u32 regs.rsi)) c ≡ some (w, src)
      → select_http v (which_of v c.bo (u32 regs.rdx)) c ≡ some (w', dst)
      → all_valid (matching matches (drop hdr_first src.fields)) ≡ true
      → length dst.fields + length (matching matches (drop hdr_first src.fields)) ≤ dst.fields_max
      → dst.fields_max < 2 ^ 16
      → regex_copyto v regex regs c
        ≡ with_all v matches w' dst c 0 (matching matches (drop hdr_first src.fields))
  unfolding regex_copyto
  regex_copyto_lem regex regs c matches w w' src dst known source target valid room small =
      bind-done (answered other (regex (u32 regs.rdi))) _ c (ap (λ o. answered other o c) known)
      ∙ bind-done (get_http v (u32 regs.rsi)) _ c (get_http-done v (u32 regs.rsi) c source)
      ∙ bind-done (get_http v (u32 regs.rdx)) _ c (get_http-done v (u32 regs.rdx) c target)
      ∙ copy_fields_lem v matches w' (drop hdr_first src.fields) 0 dst c
          (selected_is (which_of v c.bo (u32 regs.rdx)) c target) valid room small

  -- What a call may have copied to the guest: nothing, or one text that fits.
  abbrev pub Wrote : List (ℕ × Str) → ℕ → ℕ → Context W → ℕ → Type 0
  Wrote before dest destlen d rax =
      (d.copied ≡ before)
      ⊎ ((bytes : Str) × (d.copied ≡ (dest, bytes) ∷ before)
          × (length bytes ≤ destlen)
          × (rax ≡ length bytes))

  abbrev pub WroteNone : List (ℕ × Str) → Context W → Fault → Type 0
  WroteNone before d e = d.copied ≡ before

  give_text-Wrote :
      (g : Guest) (dest destlen flen : ℕ) (text : Str) (d : Context W)
      → flen ≤ length text
      → Post
          (Wrote d.copied dest destlen)
          (WroteNone d.copied)
          (give_text v g dest destlen flen text d)
  give_text-Wrote g dest destlen flen text d some_text =
      elim (Bool-cases (not (dest == 0) && leb flen destlen)) [
        | inr refused ↦ rw refused (inl refl)
        | inl fits ↦ elim (Bool-cases (g.copy_to_guest dest flen)) [
          | inl ok ↦ rw (fits, ok) (inr (take flen text, refl, small fits, sym size))
          | inr bad ↦ rw (fits, bad) refl
        ]
      ]
    where
      size : length (take flen text) ≡ flen
      size = omega (arith, length-take flen text, some_text)

      small : (not (dest == 0) && leb flen destlen) ≡ true → length (take flen text) ≤ destlen
      small fits = ground (arith, size, fits)

  -- A search for a header leaves the memory of the guest as it is, or copies one text to the place
  -- that the guest names, which is not longer than the room that it names and whose length is the
  -- reply. Where it throws, nothing is copied.
  pub http_find-Wrote :
      (g : Guest) (regs : Regs) (c : Context W)
      → Post (Wrote c.copied regs.rcx (u16 regs.r8)) (WroteNone c.copied) (http_find v g regs c)
  unfolding http_find get_http
  http_find-Wrote g regs c =
      Post-answered R X other (select_http v (which_of v c.bo (u32 regs.rdi)) c) _ c refl (λ f e.
        Post-answered R X machine (g.string_or_view regs.rsi (u16 regs.rdx)) _ c refl (λ key e'.
          Post-throw_unless R X other (validate_guest_field_key key) _ c refl
            (λ legal. give_field-Wrote (field_at v (f.1) (http_findhdr (f.1) (length key) key)))))
    where
      R : Context W → ℕ → Type 0
      R = Wrote c.copied regs.rcx (u16 regs.r8)

      X : Context W → Fault → Type 0
      X = WroteNone c.copied

      give_field-Wrote : (o : Option Field) → Post R X (give_field v g regs o c)
      give_field-Wrote none = inl refl
      give_field-Wrote (some f) =
          give_text-Wrote g regs.rcx (u16 regs.r8) (u16 (length f.text)) f.text c (omega arith)
