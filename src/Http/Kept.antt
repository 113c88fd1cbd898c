-- ===== src/Http/Kept.antt =====
-- What no system call of lib/libkvm/system_calls_http.cpp does, whatever the guest asks for.
use libvmod_tinykvm.Common.{
  ℕ, zero, suc, ◌+◌, ◌≤◌, ◌≡◌, inl, inr, refl, sym, ap, subst, ◌∙◌, arith, Bool, true, false, not,
  ◌&&◌, Option, none, some, List, [], ◌∷◌, ◌++◌, Str, length, get_elem?, take, drop, ltb, leb, ◌==◌,
  if◌then◌else◌, u16, u32, length-append, take-append, take-append_self, drop-append_self,
  Bool-cases, some-inj,
}
use libvmod_tinykvm.Common.Act.{
  Act, Fault, machine, other, Outcome, done, threw, ◌>>=◌, ◌>>◌, give, change, answered,
  throw_unless, Post, Post-bind, Keeps,
}
use libvmod_tinykvm.Backend.{Regs}
use libvmod_tinykvm.Http.{
  Field, Http, hdr_first, hdr_invalid, http_findhdr, http_unsetat, memchr, validate_guest_field,
  validate_guest_field_key,
}
use libvmod_tinykvm.Http.Found.{Findings, http_findhdr-Findings}
use libvmod_tinykvm.Http.RoundTrip.{replaced_lem}
use libvmod_tinykvm.Http.Calls.{
  Which, bereq, beresp, req, resp, Varnish, Guest, Context, http_of, put_http, with_which, selected,
  select_http, which_of, get_http, http_header_append, read_guest, append_read, http_append,
  replace_or_append, unset, set_or_unset, kvm_http_set, http_set, give_text, give_field, field_at,
  http_find, give_method, http_method, copy_one, copy_fields, regex_copyto, HttpCall, append_call,
  set_call, find_call, method_call, copyto_call, http_call, http_calls,
}

-- A header set with the five fields of a request or a response that are no headers, in its room.
pub record IsSound (hp : Http) : Type 0 where
  pub has_proto : hdr_first ≤ length hp.fields
  pub has_room : length hp.fields ≤ hp.fields_max

pub record Kept (hp hp' : Http) : Type 0 where
  pub is_sound : IsSound hp'
  pub same_proto : take hdr_first hp'.fields ≡ take hdr_first hp.fields
  pub same_max : hp'.fields_max ≡ hp.fields_max

abbrev pub KeptAt : Option Http → Option Http → Type 0
KeptAt none none = Unit {0}
KeptAt none (some hp) = ⊥
KeptAt (some hp) none = ⊥
KeptAt (some hp) (some hp') = Kept hp hp'

abbrev pub SoundAt : Option Http → Type 0
SoundAt none = Unit {0}
SoundAt (some hp) = IsSound hp

-- No assertion has failed, and each header set is kept.
abbrev pub KeptAll : {W : Type 0} → Context W → Context W → Type 0
KeptAll c c' = (c'.asserted ≡ true) × ((w : Which) → KeptAt (http_of w c) (http_of w c'))

Kept-refl : (o : Option Http) → SoundAt o → KeptAt o o
Kept-refl none s = tt
Kept-refl (some hp) s = record { is_sound = s; same_proto = refl; same_max = refl }

-- A field behind the others, where there is room.
Kept-append :
    (o : Option Http) (hp : Http) (f : Field)
    → KeptAt o (some hp)
    → leb hp.fields_max (length hp.fields) ≡ false
    → KeptAt o (some (record hp { fields = hp.fields ++ f ∷ [] }))
Kept-append none hp f k room = k
Kept-append (some h) hp f k room = record {
  is_sound = record {
    has_proto = omega (arith, length-append hp.fields (f ∷ []), k.is_sound.has_proto);
    has_room = ground (arith, length-append hp.fields (f ∷ []), room);
  };
  same_proto = take-append hdr_first hp.fields (f ∷ []) k.is_sound.has_proto ∙ k.same_proto;
  same_max = k.same_max;
}

-- A header that is replaced by others, of which there are not more.
Kept-split :
    (o : Option Http) (hp : Http) (front : List Field) (f : Field) (after new : List Field)
    → KeptAt o (some hp)
    → hp.fields ≡ front ++ f ∷ after
    → hdr_first ≤ length front
    → length new ≤ 1
    → KeptAt o (some (record hp { fields = front ++ (new ++ after) }))
Kept-split none hp front f after new k e first few = k
Kept-split (some h) hp front f after new k e first few = record {
  is_sound = record {
    has_proto = omega (arith, length-append front (new ++ after), first);
    has_room = omega (
      arith,
      length-append front (new ++ after),
      length-append new after,
      few,
      ap length e,
      length-append front (f ∷ after),
      k.is_sound.has_room,
    );
  };
  same_proto =
      take-append hdr_first front (new ++ after) first
      ∙ sym (take-append hdr_first front (f ∷ after) first)
      ∙ ap (λ r. take hdr_first r) (sym e)
      ∙ k.same_proto;
  same_max = k.same_max;
}

-- The field at an index is taken out.
pub http_unsetat_lem :
    (hp : Http) (front : List Field) (f : Field) (after : List Field) {i : ℕ}
    → hp.fields ≡ front ++ f ∷ after
    → length front ≡ i
    → hdr_first ≤ length front
    → http_unsetat hp i ≡ some (record hp { fields = front ++ after })
unfolding http_unsetat
http_unsetat_lem hp front f after e is_index header =
    simp (← is_index, inside, e, take-append_self front (f ∷ after), drop-append_self front f after)
      refl
  where
    inside :
        (leb hdr_first (length front) && ltb (length front) (length (front ++ f ∷ after))) ≡ true
    inside = ground (arith, header, length-append front (f ∷ after))

each : (P : Which → Type 0) → P bereq → P beresp → P req → P resp → (w : Which) → P w
each P a b c d bereq = a
each P a b c d beresp = b
each P a b c d req = c
each P a b c d resp = d

module _ {W : Type 0} (v : Varnish W) (c : Context W) where
  KeptAll-put :
      (w : Which) (hp : Http) (d : Context W)
      → KeptAll c d
      → KeptAt (http_of w c) (some hp)
      → KeptAll c (put_http w hp d)
  KeptAll-put bereq hp d (a, k) p = (
    a,
    each (λ u. KeptAt (http_of u c) (http_of u (put_http bereq hp d))) p (k beresp) (k req)
        (k resp),
  )
  KeptAll-put beresp hp d (a, k) p = (
    a,
    each (λ u. KeptAt (http_of u c) (http_of u (put_http beresp hp d))) (k bereq) p (k req)
        (k resp),
  )
  KeptAll-put req hp d (a, k) p = (
    a,
    each (λ u. KeptAt (http_of u c) (http_of u (put_http req hp d))) (k bereq) (k beresp) p
        (k resp),
  )
  KeptAll-put resp hp d (a, k) p = (
    a,
    each (λ u. KeptAt (http_of u c) (http_of u (put_http resp hp d))) (k bereq) (k beresp) (k req)
        p,
  )

  -- The workspace and the guest's memory are no part of it.
  KeptAll-ws :
      (d : Context W) (ws : W) (copied : List (ℕ × Str))
      → KeptAll c d
      → KeptAll c (record d { ws = ws; copied = copied })
  KeptAll-ws d ws copied (a, k) = (
    a,
    each (λ u. KeptAt (http_of u c) (http_of u (record d { ws = ws; copied = copied }))) (k bereq)
        (k beresp) (k req) (k resp),
  )

  -- What is proved of each action.
  abbrev Holds : {A : Type 0} → (A → Type 0) → Context W × Outcome A → Type 0
  Holds Q = Post (λ d a. KeptAll c d × Q a) (λ d e. KeptAll c d)

  abbrev IsKept : Which × Http → Type 0
  IsKept (w, hp) = KeptAt (http_of w c) (some hp)

  abbrev Any : {A : Type 0} → A → Type 0
  Any a = Unit {0}

  selected-IsKept :
      (o : Option Which) (d : Context W) {f : Which × Http}
      → KeptAll c d
      → select_http v o d ≡ some f
      → IsKept f
  selected-IsKept none d (a, k) e = ground arith
  selected-IsKept (some u) d (a, k) e = found (http_of u d) (k u) e
    where
      found :
          (o : Option Http) {f : Which × Http}
          → KeptAt (http_of u c) o
          → with_which u o ≡ some f
          → IsKept f
      found none k e = ground arith
      found (some hp) k e = subst IsKept (some-inj (u, hp) _ e) k

  Holds-bind :
      {A B : Type 0} (Q : A → Type 0) (R : B → Type 0) (m : Act (Context W) A)
      (next : A → Act (Context W) B) (d : Context W)
      → Holds Q (m d)
      → ((d' : Context W) (a : A) → KeptAll c d' → Q a → Holds R (next a d'))
      → Holds R ((m >>= next) d)
  Holds-bind Q R m next d h k =
      Post-bind (λ d' a. KeptAll c d' × Q a) (λ d' b. KeptAll c d' × R b) (λ d' e. KeptAll c d') m
        next d h (λ d' a (x, q). k d' a x q)

  Holds-throw_unless :
      {B : Type 0} (R : B → Type 0) (e : Fault) (b : Bool) (next : Act (Context W) B)
      (d : Context W)
      → KeptAll c d
      → (b ≡ true → Holds R (next d))
      → Holds R ((throw_unless e b >> next) d)
  Holds-throw_unless R e true next d k h = h refl
  Holds-throw_unless R e false next d k h = k

  Holds-answered :
      {A : Type 0} (Q : A → Type 0) (e : Fault) (o : Option A) (d : Context W)
      → KeptAll c d
      → ((a : A) → o ≡ some a → Q a)
      → Holds Q (answered e o d)
  Holds-answered Q e none d k h = k
  Holds-answered Q e (some a) d k h = (k, h a refl)

  get_http-Holds : (i : ℕ) (d : Context W) → KeptAll c d → Holds IsKept (get_http v i d)
  unfolding get_http
  get_http-Holds i d k =
      Holds-answered IsKept other _ d k (λ f e. selected-IsKept (which_of v d.bo i) d k e)

  put-Holds :
      (w : Which) (hp : Http) (n : ℕ) (d : Context W)
      → KeptAll c d
      → IsKept (w, hp)
      → Holds Any ((change (put_http w hp) >> give n) d)
  put-Holds w hp n d k p = (KeptAll-put w hp d k p, tt)

  http_header_append-Holds :
      (w : Which) (hp : Http) (val : Str) (d : Context W)
      → KeptAll c d
      → IsKept (w, hp)
      → Holds Any (http_header_append v w hp val d)
  unfolding http_header_append
  http_header_append-Holds w hp val d k p =
      elim (Bool-cases (leb hp.fields_max (length hp.fields))) [
        | inl full ↦ simp full (k, tt)
        | inr room ↦ simp room (
            Holds-throw_unless Any other (validate_guest_field val) _ d k (λ valid.
              put-Holds w _ (length hp.fields) d k
                (Kept-append (http_of w c) hp (v.set_h val) p room)))
      ]

  read_guest-Holds :
      (g : Guest) (addr len : ℕ) (d : Context W)
      → KeptAll c d
      → Holds Any (read_guest v g addr len d)
  read_guest-Holds g addr len d k =
      Holds-bind Any Any (answered other (v.alloc (len + 1) d.ws)) _ d
        (Holds-answered Any other _ d k (λ ws e. tt))
        (λ d' ws k' any.
          Holds-answered Any machine _ _ (KeptAll-ws d' ws d'.copied k') (λ buffer e. tt))

  http_append-Holds :
      (g : Guest) (regs : Regs) (d : Context W) → KeptAll c d → Holds Any (http_append v g regs d)
  unfolding http_append
  http_append-Holds g regs d k =
      Holds-bind IsKept Any (get_http v (u32 regs.rdi)) _ d (get_http-Holds (u32 regs.rdi) d k)
        (λ d' f k' p.
          Holds-throw_unless Any other (not (ltb 0xFFFF regs.rdx)) _ d' k'
            (λ short. append_read-Holds f (v.is_null d'.ws) d' k' p))
    where
      append_read-Holds :
          (f : Which × Http) (warmup : Bool) (d : Context W)
          → KeptAll c d
          → IsKept f
          → Holds Any (append_read v g regs.rsi (u16 regs.rdx) f warmup d)
      append_read-Holds (w, hp) true d k p = (k, tt)
      append_read-Holds (w, hp) false d k p =
          Holds-bind Any Any (read_guest v g regs.rsi (u16 regs.rdx)) _ d
            (read_guest-Holds g regs.rsi (u16 regs.rdx) d k)
            (λ d' val k' any. http_header_append-Holds w hp val d' k' p)

  replace_or_append-Holds :
      (w : Which) (hp : Http) (l : ℕ) (buffer : Str) (i : ℕ) (d : Context W)
      → KeptAll c d
      → IsKept (w, hp)
      → Findings hp l buffer i
      → Holds Any (replace_or_append v w hp buffer i d)
  replace_or_append-Holds w hp l buffer zero d k p found =
      http_header_append-Holds w hp buffer d k p
  replace_or_append-Holds w hp l buffer (suc i) d k p at = put-Holds w _ (suc i) d k (
      subst (λ fs. IsKept (w, record hp { fields = fs }))
        (sym (replaced_lem v hp (at.front) (at.field) (at.after) buffer at.is_split at.is_index))
        (Kept-split (http_of w c) hp (at.front) (at.field) (at.after) (_ ∷ []) p at.is_split
          at.is_header (omega arith)))

  unset-Holds :
      (w : Which) (hp : Http) (l : ℕ) (buffer : Str) (i : ℕ) (d : Context W)
      → KeptAll c d
      → IsKept (w, hp)
      → Findings hp l buffer i
      → Holds Any (unset v w hp i d)
  unset-Holds w hp l buffer zero d k p found = (k, tt)
  unset-Holds w hp l buffer (suc i) d k p at =
      simp
        (http_unsetat_lem hp (at.front) (at.field) (at.after) at.is_split at.is_index at.is_header)
        (put-Holds w _ (suc i) d k (
          Kept-split (http_of w c) hp (at.front) (at.field) (at.after) [] p at.is_split at.is_header
            (omega arith)))

  set_or_unset-Holds :
      (f : Which × Http) (buffer : Str) (colon : Option ℕ) (d : Context W)
      → KeptAll c d
      → IsKept f
      → Holds Any (set_or_unset v f buffer colon d)
  set_or_unset-Holds (w, hp) buffer (some l) d k p =
      Holds-throw_unless Any other (validate_guest_field buffer) _ d k (λ valid.
        replace_or_append-Holds w hp l buffer (http_findhdr hp l buffer) d k p
          (http_findhdr-Findings hp l buffer))
  set_or_unset-Holds (w, hp) buffer none d k p =
      unset-Holds w hp (length buffer) buffer (http_findhdr hp (length buffer) buffer) d k p
        (http_findhdr-Findings hp (length buffer) buffer)

  kvm_http_set-Holds :
      (g : Guest) (where_ what wlen : ℕ) (d : Context W)
      → KeptAll c d
      → Holds Any (kvm_http_set v g where_ what wlen d)
  unfolding kvm_http_set
  kvm_http_set-Holds g where_ what wlen d k = elim (Bool-cases (wlen == 0)) [
    | inl empty ↦ rw empty (k, tt)
    | inr bytes ↦ rw bytes (
        Holds-throw_unless Any other (not (ltb 0xFFFF wlen)) _ d k (λ short.
          Holds-bind IsKept Any (get_http v where_) _ d (get_http-Holds where_ d k) (λ d' f k' p.
            Holds-bind Any Any (read_guest v g what wlen) _ d' (read_guest-Holds g what wlen d' k')
              (λ d'' buffer k'' any. set_or_unset-Holds f buffer (memchr b':' buffer) d'' k'' p))))
  ]

  http_set-Holds :
      (g : Guest) (regs : Regs) (d : Context W) → KeptAll c d → Holds Any (http_set v g regs d)
  unfolding http_set
  http_set-Holds g regs d k =
      Holds-throw_unless Any other (not (ltb 0xFFFF regs.rdx)) _ d k (λ short.
        Holds-bind Any Any (kvm_http_set v g (u32 regs.rdi) regs.rsi (u16 regs.rdx)) _ d
          (kvm_http_set-Holds g (u32 regs.rdi) regs.rsi (u16 regs.rdx) d k)
          (λ d' index k' any. (k', tt)))

  give_text-Holds :
      (g : Guest) (dest destlen flen : ℕ) (text : Str) (d : Context W)
      → KeptAll c d
      → Holds Any (give_text v g dest destlen flen text d)
  give_text-Holds g dest destlen flen text d k =
      elim (Bool-cases (not (dest == 0) && leb flen destlen)) [
        | inr refused ↦ rw refused (k, tt)
        | inl fits ↦ rw fits (
            Holds-bind Any Any
              (throw_unless machine (g.copy_to_guest dest flen)
                >> change (λ c. record c { copied = (dest, take flen text) ∷ c.copied }))
              (λ u. give flen) d
              (Holds-throw_unless Any machine (g.copy_to_guest dest flen) _ d k
                (λ ok. (KeptAll-ws d d.ws ((dest, take flen text) ∷ d.copied) k, tt)))
              (λ d' u k' any. (k', tt)))
      ]

  give_field-Holds :
      (g : Guest) (regs : Regs) (o : Option Field) (d : Context W)
      → KeptAll c d
      → Holds Any (give_field v g regs o d)
  give_field-Holds g regs none d k = (k, tt)
  give_field-Holds g regs (some f) d k = give_text-Holds g regs.rcx _ _ f.text d k

  http_find-Holds :
      (g : Guest) (regs : Regs) (d : Context W) → KeptAll c d → Holds Any (http_find v g regs d)
  unfolding http_find
  http_find-Holds g regs d k =
      Holds-bind IsKept Any (get_http v (u32 regs.rdi)) _ d (get_http-Holds (u32 regs.rdi) d k)
        (λ d' f k' p.
          Holds-bind Any Any (answered machine (g.string_or_view regs.rsi (u16 regs.rdx))) _ d'
            (Holds-answered Any machine _ d' k' (λ buffer e. tt))
            (λ d'' buffer k'' any.
              Holds-throw_unless Any other (validate_guest_field_key buffer) _ d'' k'' (λ legal.
                give_field-Holds g regs
                  (field_at v (f.1) (http_findhdr (f.1) (length buffer) buffer)) d'' k'')))

  give_method-Holds :
      (g : Guest) (regs : Regs) (o : Option Field) (d : Context W)
      → KeptAll c d
      → Holds Any (give_method v g regs o d)
  give_method-Holds g regs none d k = k
  give_method-Holds g regs (some f) d k = give_text-Holds g regs.rdi _ _ f.text d k

  http_method-Holds :
      (g : Guest) (regs : Regs) (d : Context W) → KeptAll c d → Holds Any (http_method v g regs d)
  unfolding http_method
  http_method-Holds g regs d k =
      Holds-bind IsKept Any (get_http v v.hdr_bereq) _ d (get_http-Holds v.hdr_bereq d k)
        (λ d' f k' p. give_method-Holds g regs (get_elem? ((f.1).fields) 0) d' k')

  copy_one-Holds :
      (matches : Str → Bool) (w : Which) (text : Str) (d : Context W)
      → KeptAll c d
      → Holds Any (copy_one v matches w text d)
  copy_one-Holds matches w text d k =
      Holds-bind IsKept Any (answered other (selected w d)) _ d
        (Holds-answered IsKept other (selected w d) d k (λ f e. selected-IsKept (some w) d k e))
        (λ d' f k' p. chosen f d' k' p)
    where
      chosen :
          (f : Which × Http) (d : Context W)
          → KeptAll c d
          → IsKept f
          → Holds Any
              ((if matches text then http_header_append v (f.0) (f.1) text else give hdr_invalid) d)
      chosen (w', hp) d k p = elim (Bool-cases (matches text)) [
        | inl e ↦ simp e (http_header_append-Holds w' hp text d k p)
        | inr e ↦ simp e (k, tt)
      ]

  copy_fields-Holds :
      (matches : Str → Bool) (w : Which) (fs : List Field) (n : ℕ) (d : Context W)
      → KeptAll c d
      → Holds Any (copy_fields v matches w fs n d)
  copy_fields-Holds matches w [] n d k = (k, tt)
  copy_fields-Holds matches w (f ∷ fs) n d k =
      Holds-bind Any Any (copy_one v matches w f.text) _ d (copy_one-Holds matches w f.text d k)
        (λ d' index k' any. copy_fields-Holds matches w fs _ d' k')

  regex_copyto-Holds :
      (regex : ℕ → Option (Str → Bool)) (regs : Regs) (d : Context W)
      → KeptAll c d
      → Holds Any (regex_copyto v regex regs d)
  unfolding regex_copyto
  regex_copyto-Holds regex regs d k =
      Holds-bind Any Any (answered other (regex (u32 regs.rdi))) _ d
        (Holds-answered Any other _ d k (λ m e. tt))
        (λ d1 m k1 any.
          Holds-bind IsKept Any (get_http v (u32 regs.rsi)) _ d1
            (get_http-Holds (u32 regs.rsi) d1 k1)
            (λ d2 src k2 p.
              Holds-bind IsKept Any (get_http v (u32 regs.rdx)) _ d2
                (get_http-Holds (u32 regs.rdx) d2 k2)
                (λ d3 dst k3 q.
                  copy_fields-Holds m (dst.0) (drop hdr_first (src.1).fields) 0 d3 k3)))

  http_call-Holds :
      (regex : ℕ → Option (Str → Bool)) (call : HttpCall) (g : Guest) (regs : Regs) (d : Context W)
      → KeptAll c d
      → Holds Any (http_call v regex call g regs d)
  unfolding http_call
  http_call-Holds regex append_call g regs d k = http_append-Holds g regs d k
  http_call-Holds regex set_call g regs d k = http_set-Holds g regs d k
  http_call-Holds regex find_call g regs d k = http_find-Holds g regs d k
  http_call-Holds regex method_call g regs d k = http_method-Holds g regs d k
  http_call-Holds regex copyto_call g regs d k = regex_copyto-Holds regex regs d k

  http_calls-Holds :
      (regex : ℕ → Option (Str → Bool)) (calls : List (HttpCall × (Guest × Regs))) (d : Context W)
      → KeptAll c d
      → Holds Any (http_calls v regex calls d)
  http_calls-Holds regex [] d k = (k, tt)
  http_calls-Holds regex ((call, (g, regs)) ∷ calls) d k =
      Holds-bind Any Any (http_call v regex call g regs) _ d (http_call-Holds regex call g regs d k)
        (λ d' rax k' any.
          Holds-bind Any Any (http_calls v regex calls) _ d' (http_calls-Holds regex calls d' k')
            (λ d'' replies k'' any'. (k'', tt)))

-- Whatever system calls on headers a guest makes, with whatever memory, and also where one of them
-- throws: no assertion fails, and each header set that has its five leading fields and its room
-- keeps those five fields, stays within its room and neither appears nor disappears.
pub http_calls-KeptAll :
    {W : Type 0} (v : Varnish W) (regex : ℕ → Option (Str → Bool))
    (calls : List (HttpCall × (Guest × Regs))) (c : Context W)
    → c.asserted ≡ true
    → ((w : Which) → SoundAt (http_of w c))
    → Keeps (KeptAll c) (http_calls v regex calls c)
http_calls-KeptAll v regex calls c asserted sound =
    leaves (http_calls v regex calls c)
      (http_calls-Holds v c regex calls c (asserted, λ w. Kept-refl (http_of w c) (sound w)))
  where
    leaves :
        {W : Type 0} {c : Context W} {A : Type 0} (r : Context W × Outcome A)
        → Post (λ d a. KeptAll c d × Unit {0}) (λ d e. KeptAll c d) r
        → Keeps (KeptAll c) r
    leaves (d, done a) (k, any) = k
    leaves (d, threw e) k = k
