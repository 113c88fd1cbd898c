-- ===== src/Http/RoundTrip.antt =====
-- A header that a guest sets is the one that it finds: `kvm_http_set` and `syscall_http_find` of
-- lib/libkvm/system_calls_http.cpp.
use libvmod_tinykvm.Common.{
  ℕ, zero, suc, ◌+◌, ◌<◌, ◌≤◌, ◌≡◌, ◌⊎◌, inl, inr, refl, sym, ap, subst, ◌∙◌, arith, true, false,
  Option, none, some, List, [], ◌∷◌, ◌++◌, Str, length, get_elem?, take, drop, ltb, leb, ◌==◌, u16,
  u32, some-inj, set-append_self, get_elem?-append_self, take-append_self, Option-cases,
}
use mathlib.Core.List.{append-nil}
use libvmod_tinykvm.Common.Act.{other, answered, bind-done, Outcome, done, threw}
use libvmod_tinykvm.Backend.{Regs}
use libvmod_tinykvm.Http.{
  Field, Http, hdr_first, same_name, has_name, http_findhdr, memchr, validate_guest_field,
  validate_guest_field_key,
}
use libvmod_tinykvm.Http.Found.{
  NoneNamed, memchr-some, Findings, http_findhdr-Findings, http_findhdr-front, http_findhdr-same,
}
use libvmod_tinykvm.Http.Calls.{
  Which, bereq, beresp, req, resp, Varnish, VarnishLaws, until_nul, Guest, Context, http_of,
  put_http, with_which, select_http, which_of, get_http, read_guest, http_header_append, replaced,
  replace_or_append, kvm_http_set, http_find, give_field, field_at, give_text,
}

-- The header set after a field was set: it has the text at the index, behind no other field of the
-- name, and all other fields are what they were.
pub record WasSet (hp hp' : Http) (l : ℕ) (buffer : Str) (index : ℕ) : Type 0 where
  pub front : List Field
  pub field : Field
  pub after : List Field
  pub is_split : hp'.fields ≡ front ++ field ∷ after
  pub has_text : field.text ≡ buffer
  pub is_index : length front ≡ index
  pub is_header : hdr_first ≤ length front
  pub is_first : NoneNamed l buffer (drop hdr_first front)
  pub others :
      ((old : Field) × (hp.fields ≡ front ++ old ∷ after)) ⊎ ((hp.fields ≡ front) × (after ≡ []))

-- A text with a colon has the name that ends there.
named_itself :
    (l : ℕ) (buffer : Str) → memchr b':' buffer ≡ some l → has_name l buffer buffer ≡ true
named_itself l buffer colon =
    let (at, inside) = memchr-some b':' buffer colon in
    rw at (ground (arith, inside, same_name_self l buffer))
  where
    same_name_self : (l : ℕ) (s : Str) → same_name l s s ≡ true
    same_name_self zero s = refl
    same_name_self (suc l) [] = refl
    same_name_self (suc l) (c ∷ s) = ground (arith, same_name_self l s)

pub replaced_lem :
    {W : Type 0} (v : Varnish W) (hp : Http) (front : List Field) (f : Field) (after : List Field)
    (buffer : Str) {i : ℕ}
    → hp.fields ≡ front ++ f ∷ after
    → length front ≡ i
    → replaced v hp i buffer ≡ front ++ (record f { text = buffer }) ∷ after
replaced_lem v hp front f after buffer e is_index =
    simp (← is_index, replaced, e, get_elem?-append_self front f after)
      (set-append_self front f (record f { text = buffer }) after)

module _ {W : Type 0} where
  -- A selected header set is in the context, and stays there.
  pub http_of-put : (w : Which) (hp : Http) (c : Context W) → http_of w (put_http w hp c) ≡ some hp
  http_of-put bereq hp c = refl
  http_of-put beresp hp c = refl
  http_of-put req hp c = refl
  http_of-put resp hp c = refl

module _ {W : Type 0} (v : Varnish W) where
  pub get_http-done :
      (where_ : ℕ) (c : Context W) {f : Which × Http}
      → select_http v (which_of v c.bo where_) c ≡ some f
      → get_http v where_ c ≡ (c, done f)
  unfolding get_http
  get_http-done where_ c e = ap (λ o. answered other o c) e

module _ {W : Type 0} (v : Varnish W) (laws : VarnishLaws v) where
  -- The two ways to set a field.
  abbrev Stored : Which → Http → ℕ → Str → Context W → Context W × Outcome ℕ → Type 0
  Stored w hp l buffer c (c', threw e) = ⊥
  Stored w hp l buffer c (c', done index) =
      (hp' : Http) × (c' ≡ put_http w hp' c) × WasSet hp hp' l buffer index

  replace_or_append-Stored :
      (w : Which) (hp : Http) (l : ℕ) (buffer : Str) (i : ℕ) (c : Context W)
      → Findings hp l buffer i
      → validate_guest_field buffer ≡ true
      → until_nul buffer ≡ buffer
      → hdr_first ≤ length hp.fields
      → length hp.fields < hp.fields_max
      → Stored w hp l buffer c (replace_or_append v w hp buffer i c)
  unfolding http_header_append
  replace_or_append-Stored w hp l buffer zero c absent valid whole first room =
      rw (leb-full, valid)
        (
          record hp { fields = hp.fields ++ v.set_h buffer ∷ [] },
          refl,
          record {
            front = hp.fields;
            field = v.set_h buffer;
            after = [];
            is_split = refl;
            has_text = laws.set_h_text buffer ∙ whole;
            is_index = refl;
            is_header = first;
            is_first = absent;
            others = inr (refl, refl);
          },
        )
    where
      leb-full : leb hp.fields_max (length hp.fields) ≡ false
      leb-full = ground (arith, room)
  replace_or_append-Stored w hp l buffer (suc i) c at valid whole first room = (
    record hp { fields = replaced v hp (suc i) buffer },
    refl,
    record {
      front = at.front;
      field = record (at.field) { text = buffer };
      after = at.after;
      is_split = replaced_lem v hp (at.front) (at.field) (at.after) buffer at.is_split at.is_index;
      has_text = refl;
      is_index = at.is_index;
      is_header = at.is_header;
      is_first = at.is_first;
      others = inl (at.field, at.is_split);
    },
  )

  select_http-some :
      (o : Option Which) (c : Context W) {w : Which} {hp : Http} (hp' : Http)
      → select_http v o c ≡ some (w, hp)
      → select_http v o (put_http w hp' c) ≡ some (w, hp')
  select_http-some none c hp' e = ground arith
  select_http-some (some u) c {w = w} {hp = hp} hp' e = elim (Option-cases (http_of u c)) [
    | inl n ↦ cc (sym (ap (with_which u) n) ∙ e)
    | inr (h, n) ↦
        let same : (u, h) ≡ (w, hp) = some-inj (u, h) (w, hp) (sym (ap (with_which u) n) ∙ e) in
        subst
          (λ (r : Which × Http). select_http v (some u) (put_http (r.0) hp' c) ≡ some (r.0, hp'))
          same (rw (http_of-put u hp' c) refl)
  ]

  -- The rest of a context stays.
  bo-put : (w : Which) (hp : Http) (c : Context W) → (put_http w hp c).bo ≡ c.bo
  bo-put bereq hp c = refl
  bo-put beresp hp c = refl
  bo-put req hp c = refl
  bo-put resp hp c = refl

  select_http-ws :
      (o : Option Which) (c : Context W) (ws : W)
      → select_http v o (record c { ws = ws }) ≡ select_http v o c
  select_http-ws none c ws = refl
  select_http-ws (some bereq) c ws = refl
  select_http-ws (some beresp) c ws = refl
  select_http-ws (some req) c ws = refl
  select_http-ws (some resp) c ws = refl

  -- What a text replies to a guest with room for it.
  give_text_lem :
      (g : Guest) (dest destlen : ℕ) (text : Str) (c : Context W)
      → (dest == 0) ≡ false
      → length text ≤ destlen
      → g.copy_to_guest dest (length text) ≡ true
      → give_text v g dest destlen (length text) text c
        ≡ (record c { copied = (dest, text) ∷ c.copied }, done (length text))
  give_text_lem g dest destlen text c there fits writable =
      rw (there, fits_true, writable, take_whole) refl
    where
      fits_true : leb (length text) destlen ≡ true
      fits_true = ground (arith, fits)

      take_whole : take (length text) text ≡ text
      take_whole = ap (λ r. take (length text) r) (sym (append-nil text)) ∙ take-append_self text []

  read_guest-done :
      (g : Guest) (addr len : ℕ) (c : Context W) {ws : W} {buffer : Str}
      → v.alloc (len + 1) c.ws ≡ some ws
      → g.copy_from_guest addr len ≡ some buffer
      → read_guest v g addr len c ≡ (record c { ws = ws }, done buffer)
  read_guest-done g addr len c room_for read = simp (read_guest, room_for, read) refl

  kvm_http_set_lem :
      (g : Guest) (where_ what wlen : ℕ) (c : Context W) {w : Which} {hp : Http} {ws : W}
      {buffer : Str} (l : ℕ)
      → 0 < wlen
      → wlen ≤ 0xFFFF
      → select_http v (which_of v c.bo where_) c ≡ some (w, hp)
      → v.alloc (wlen + 1) c.ws ≡ some ws
      → g.copy_from_guest what wlen ≡ some buffer
      → memchr b':' buffer ≡ some l
      → validate_guest_field buffer ≡ true
      → kvm_http_set v g where_ what wlen c
        ≡ replace_or_append v w hp buffer (http_findhdr hp l buffer) (record c { ws = ws })
  unfolding kvm_http_set
  kvm_http_set_lem g where_ what wlen c {w = w} {hp = hp} {ws = ws} {buffer = buffer} l some_bytes
        small found room_for read colon valid =
      let nonzero : (wlen == 0) ≡ false = ground (arith, some_bytes) in
      let short : ltb 0xFFFF wlen ≡ false = ground (arith, small) in
      rw (nonzero, short)
        (bind-done (get_http v where_) _ c (get_http-done v where_ c found)
          ∙ bind-done (read_guest v g what wlen) _ c (read_guest-done g what wlen c room_for read)
          ∙ rw (colon, valid) refl)

  -- What `http_find` replies where the name is found.
  http_find_lem :
      (g : Guest) (regs : Regs) (c : Context W) {w : Which} {hp : Http} (key : Str)
      (front : List Field) (f : Field) (after : List Field)
      → select_http v (which_of v c.bo (u32 regs.rdi)) c ≡ some (w, hp)
      → g.string_or_view regs.rsi (u16 regs.rdx) ≡ some key
      → validate_guest_field_key key ≡ true
      → hp.fields ≡ front ++ f ∷ after
      → hdr_first ≤ length front
      → http_findhdr hp (length key) key ≡ length front
      → http_find v g regs c ≡ give_text v g regs.rcx (u16 regs.r8) (u16 (length f.text)) f.text c
  unfolding http_find
  http_find_lem g regs c {w = w} {hp = hp} key front f after found read legal split header at =
      bind-done (get_http v (u32 regs.rdi)) _ c (get_http-done v (u32 regs.rdi) c found)
      ∙ simp (read, legal, at) (field_there front split header)
    where
      field_there :
          (front : List Field)
          → hp.fields ≡ front ++ f ∷ after
          → hdr_first ≤ length front
          → give_field v g regs (field_at v hp (length front)) c
            ≡ give_text v g regs.rcx (u16 regs.r8) (u16 (length f.text)) f.text c
      field_there [] e h = elim h [ ]
      field_there (b ∷ bs) e h =
          ap (λ o. give_field v g regs o c)
            (ap (λ fs. get_elem? fs (suc (length bs))) e ∙ get_elem?-append_self (b ∷ bs) f after)

  -- What a later `http_find` replies.
  abbrev FindsIt : Guest → Regs → Str → Context W × Outcome ℕ → Type 0
  FindsIt g regs buffer (c', threw e) = ⊥
  FindsIt g regs buffer (c', done index) =
      http_find v g regs c'
      ≡ (record c' { copied = (regs.rcx, buffer) ∷ c'.copied }, done (length buffer))

  module _ (g : Guest) (regs : Regs) (c : Context W) {w : Which} {hp : Http} (buffer key : Str)
      (found : select_http v (which_of v c.bo (u32 regs.rdi)) c ≡ some (w, hp))
      (valid : validate_guest_field buffer ≡ true) (colon : memchr b':' buffer ≡ some (length key))
      (read : g.string_or_view regs.rsi (u16 regs.rdx) ≡ some key)
      (legal : validate_guest_field_key key ≡ true)
      (same : same_name (length key) key buffer ≡ true) (there : (regs.rcx == 0) ≡ false)
      (fits : length buffer ≤ u16 regs.r8)
      (writable : g.copy_to_guest regs.rcx (length buffer) ≡ true) where
    WasSet-FindsIt :
        (hp' : Http) (index : ℕ)
        → WasSet hp hp' (length key) buffer index
        → FindsIt g regs buffer (put_http w hp' c, done index)
    unfolding validate_guest_field validate_guest_field_key
    WasSet-FindsIt hp' index s =
        http_find_lem g regs (put_http w hp' c) key (s.front) (s.field) (s.after)
          (ap (λ b. select_http v (which_of v b (u32 regs.rdi)) (put_http w hp' c)) (bo-put w hp' c)
            ∙ select_http-some (which_of v c.bo (u32 regs.rdi)) c hp' found)
          read legal s.is_split s.is_header at
        ∙ rw (s.has_text, short)
            (give_text_lem g regs.rcx (u16 regs.r8) buffer _ there fits writable)
      where
        short : u16 (length buffer) ≡ length buffer
        short = omega (arith, fits)

        at : http_findhdr hp' (length key) key ≡ length (s.front)
        at =
            http_findhdr-same hp' key buffer (ground (arith, legal)) same
            ∙ http_findhdr-front hp' (length key) buffer (s.front) (s.field) (s.after) s.is_split
                s.is_header s.is_first (rw s.has_text (named_itself (length key) buffer colon))

    Stored-FindsIt :
        (r : Context W × Outcome ℕ) → Stored w hp (length key) buffer c r → FindsIt g regs buffer r
    Stored-FindsIt (c', threw e) stored = elim stored [ ]
    Stored-FindsIt (c', done index) (hp', e, s) =
        subst (λ c'. FindsIt g regs buffer (c', done index)) (sym e) (WasSet-FindsIt hp' index s)

  -- A header that a guest sets with a valid text, where the workspace and the header set have room,
  -- is set, and `http_find` with its name in any case then copies exactly that text to the guest,
  -- if the guest has room for it. The text has no zero byte.
  pub http_find-kvm_http_set :
      (g : Guest) (regs : Regs) (what wlen : ℕ) (c : Context W) (w : Which) (hp : Http) (ws : W)
      (buffer key : Str)
      → 0 < wlen
      → wlen ≤ 0xFFFF
      → select_http v (which_of v c.bo (u32 regs.rdi)) c ≡ some (w, hp)
      → v.alloc (wlen + 1) c.ws ≡ some ws
      → g.copy_from_guest what wlen ≡ some buffer
      → validate_guest_field buffer ≡ true
      → memchr b':' buffer ≡ some (length key)
      → until_nul buffer ≡ buffer
      → hdr_first ≤ length hp.fields
      → length hp.fields < hp.fields_max
      → g.string_or_view regs.rsi (u16 regs.rdx) ≡ some key
      → validate_guest_field_key key ≡ true
      → same_name (length key) key buffer ≡ true
      → (regs.rcx == 0) ≡ false
      → length buffer ≤ u16 regs.r8
      → g.copy_to_guest regs.rcx (length buffer) ≡ true
      → FindsIt g regs buffer (kvm_http_set v g (u32 regs.rdi) what wlen c)
  http_find-kvm_http_set g regs what wlen c w hp ws buffer key some_bytes small found room_for copy
        valid colon whole first room read legal same there fits writable =
      let d = record c { ws = ws } in
      subst (FindsIt g regs buffer)
        (sym (
          kvm_http_set_lem g (u32 regs.rdi) what wlen c (length key) some_bytes small found room_for
            copy colon valid))
        (Stored-FindsIt g regs d {w = w} {hp = hp} buffer key
          (select_http-ws (which_of v c.bo (u32 regs.rdi)) c ws ∙ found) valid colon read legal same
          there fits writable _
          (replace_or_append-Stored w hp (length key) buffer (http_findhdr hp (length key) buffer) d
            (http_findhdr-Findings hp (length key) buffer) valid whole first room))
