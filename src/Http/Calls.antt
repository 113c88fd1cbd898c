-- ===== src/Http/Calls.antt =====
-- lib/libkvm/system_calls_http.cpp: the system calls of a guest on the headers of its request, and
-- `kvm_http_set`, which the backend calls as well. What is written to the logs is left out.
use libvmod_tinykvm.Common.{
  ℕ, zero, suc, ◌+◌, ◌-◌, ◌^◌, ◌%◌, ◌≡◌, Bool, true, false, not, ◌&&◌, ◌||◌, Option, none, some,
  List, [], ◌∷◌, ◌++◌, Str, length, get_elem?, take, drop, set, ltb, leb, ◌==◌, if◌then◌else◌, u16,
  u32,
}
use libvmod_tinykvm.Common.Act.{
  machine, other, Act, ◌>>=◌, ◌>>◌, give, raise, change, state, throw_unless, answered,
}
use libvmod_tinykvm.Backend.{Regs}
use libvmod_tinykvm.Http.{
  Field, Http, hdr_first, hdr_invalid, memchr, http_findhdr, http_unsetat, validate_guest_field,
  validate_guest_field_key,
}

-- The header sets of a request.
pub data Which : Type 0 where
  bereq beresp req resp : Which

pub data HttpCall : Type 0 where
  append_call set_call find_call method_call copyto_call : HttpCall

-- What is used of Varnish, with `W` the states of a workspace: `alloc` is `WS_Alloc`, with `none`
-- where there is no room; `set_h` the field that `http_SetH` makes of a text.
pub record Varnish (W : Type 0) : Type 0 where
  pub hdr_bereq : ℕ
  pub hdr_beresp : ℕ
  pub is_null : W → Bool
  pub alloc : ℕ → W → Option W
  pub set_h : Str → Field

-- A C string up to its end.
abbrev pub until_nul : Str → Str
until_nul [] = []
until_nul (c ∷ s) = let rest = until_nul s in if c == 0 then [] else c ∷ rest

-- `http_SetH` takes a zero-terminated text.
pub record VarnishLaws {W : Type 0} (v : Varnish W) : Type 0 where
  pub set_h_text : (s : Str) → (v.set_h s).text ≡ until_nul s

-- What is used of the guest's memory; `none` and `false` are exceptions.
pub record Guest : Type 0 where
  pub copy_from_guest : ℕ → ℕ → Option Str
  pub string_or_view : ℕ → ℕ → Option Str
  pub copy_to_guest : ℕ → ℕ → Bool

-- The `vrt_ctx` of a call, with null pointers as `none`, and what was copied to the guest, the last
-- first. `asserted` is false once an assertion has failed.
pub record Context (W : Type 0) : Type 0 where
  pub bo : Bool
  pub http_bereq : Option Http
  pub http_beresp : Option Http
  pub http_req : Option Http
  pub http_resp : Option Http
  pub ws : W
  pub asserted : Bool
  pub copied : List (ℕ × Str)

abbrev pub with_which : Which → Option Http → Option (Which × Http)
with_which w none = none
with_which w (some hp) = some (w, hp)

module _ {W : Type 0} where
  abbrev pub http_of : Which → Context W → Option Http
  http_of bereq c = c.http_bereq
  http_of beresp c = c.http_beresp
  http_of req c = c.http_req
  http_of resp c = c.http_resp

  abbrev pub put_http : Which → Http → Context W → Context W
  put_http bereq hp c = record c { http_bereq = some hp }
  put_http beresp hp c = record c { http_beresp = some hp }
  put_http req hp c = record c { http_req = some hp }
  put_http resp hp c = record c { http_resp = some hp }

  abbrev pub selected : Which → Context W → Option (Which × Http)
  selected w c = with_which w (http_of w c)

  module _ (v : Varnish W) where
    -- The two `switch` statements of `get_http`.
    abbrev pub which_of : Bool → ℕ → Option Which
    which_of true i =
        if (i == 0) || (i == v.hdr_bereq)
        then some bereq
        else (if (i == 1) || (i == v.hdr_beresp) then some beresp else none)
    which_of false i = if i == 0 then some req else (if i == 1 then some resp else none)

    abbrev pub select_http : Option Which → Context W → Option (Which × Http)
    select_http none c = none
    select_http (some w) c = selected w c

    unfoldable pub get_http : ℕ → Act (Context W) (Which × Http)
    get_http i = do c ← state; answered other (select_http (which_of c.bo i) c)

    -- The fields that `backend.cpp` copies for the guest.
    unfoldable pub http_get_request_headers : Act (Context W) (List Field)
    http_get_request_headers = do
      (w, hp) ← get_http 0
      throw_unless other (not (ltb (length hp.fields) hdr_first))
      give (drop hdr_first hp.fields)

    -- The part of `http_header_append` behind the test for room.
    abbrev pub append_valid : Which → Http → Str → Act (Context W) ℕ
    append_valid w hp val = do
      throw_unless other (validate_guest_field val)
      change (put_http w (record hp { fields = hp.fields ++ v.set_h val ∷ [] }))
      give (length hp.fields)

    unfoldable pub http_header_append : Which → Http → Str → Act (Context W) ℕ
    http_header_append w hp val =
        if leb hp.fields_max (length hp.fields) then give hdr_invalid else append_valid w hp val

    -- A piece of the workspace with bytes of the guest.
    abbrev pub read_guest : Guest → ℕ → ℕ → Act (Context W) Str
    read_guest g addr len = do
      c ← state
      ws ← answered other (v.alloc (len + 1) c.ws)
      change (λ c. record c { ws = ws })
      answered machine (g.copy_from_guest addr len)

    abbrev pub append_read : Guest → ℕ → ℕ → Which × Http → Bool → Act (Context W) ℕ
    append_read g addr len (w, hp) true = give 0
    append_read g addr len (w, hp) false = do
      val ← read_guest g addr len
      http_header_append w hp val

    unfoldable pub http_append : Guest → Regs → Act (Context W) ℕ
    http_append g regs = do
      found ← get_http (u32 regs.rdi)
      throw_unless other (not (ltb 0xFFFF regs.rdx))
      c ← state
      append_read g regs.rsi (u16 regs.rdx) found (v.is_null c.ws)

    -- The field of a name is replaced where there is one; its flags stay.
    abbrev pub replaced : Http → ℕ → Str → List Field
    replaced hp index text = elim (get_elem? hp.fields index) [
      | none ↦ hp.fields
      | some f ↦ set hp.fields index (record f { text = text })
    ]

    abbrev pub replace_or_append : Which → Http → Str → ℕ → Act (Context W) ℕ
    replace_or_append w hp buffer zero = http_header_append w hp buffer
    replace_or_append w hp buffer (suc i) = do
      change (put_http w (record hp { fields = replaced hp (suc i) buffer }))
      give (suc i)

    -- An assertion ends the process.
    abbrev pub assert : Option Http → Act (Context W) Http
    assert none = change (λ c. record c { asserted = false }) >> raise other
    assert (some hp) = give hp

    abbrev pub unset : Which → Http → ℕ → Act (Context W) ℕ
    unset w hp zero = give 0
    unset w hp (suc i) = do
      hp' ← assert (http_unsetat hp (suc i))
      change (put_http w hp')
      give (suc i)

    abbrev pub set_or_unset : Which × Http → Str → Option ℕ → Act (Context W) ℕ
    set_or_unset (w, hp) buffer (some namelen) = do
      throw_unless other (validate_guest_field buffer)
      replace_or_append w hp buffer (http_findhdr hp namelen buffer)
    set_or_unset (w, hp) buffer none = unset w hp (http_findhdr hp (length buffer) buffer)

    abbrev pub set_some : Guest → ℕ → ℕ → ℕ → Act (Context W) ℕ
    set_some g where_ what wlen = do
      throw_unless other (not (ltb 0xFFFF wlen))
      found ← get_http where_
      buffer ← read_guest g what wlen
      set_or_unset found buffer (memchr b':' buffer)

    unfoldable pub kvm_http_set : Guest → ℕ → ℕ → ℕ → Act (Context W) ℕ
    kvm_http_set g where_ what wlen = if wlen == 0 then give 0 else set_some g where_ what wlen

    -- A 32-bit `int` in a register.
    abbrev pub as_int : ℕ → ℕ
    as_int n = if ltb n (2 ^ 31) then n else n + (2 ^ 64 - 2 ^ 32)

    unfoldable pub http_set : Guest → Regs → Act (Context W) ℕ
    http_set g regs = do
      throw_unless other (not (ltb 0xFFFF regs.rdx))
      index ← kvm_http_set g (u32 regs.rdi) regs.rsi (u16 regs.rdx)
      give (as_int index)

    -- The end of `syscall_http_find` and of `syscall_http_method`: a text of the length `flen` for
    -- a guest that has room for `destlen` bytes, or asks for the length with the address 0.
    abbrev pub give_text : Guest → ℕ → ℕ → ℕ → Str → Act (Context W) ℕ
    give_text g dest destlen flen text =
        if not (dest == 0) && leb flen destlen
        then (throw_unless machine (g.copy_to_guest dest flen)
            >> change (λ c. record c { copied = (dest, take flen text) ∷ c.copied })
            >> give flen)
        else give (if not (dest == 0) then 0 else flen)

    -- The field that was found, or the reply 0.
    abbrev pub give_field : Guest → Regs → Option Field → Act (Context W) ℕ
    give_field g regs none = give 0
    give_field g regs (some f) = give_text g regs.rcx (u16 regs.r8) (u16 (length f.text)) f.text

    abbrev pub field_at : Http → ℕ → Option Field
    field_at hp zero = none
    field_at hp (suc i) = get_elem? hp.fields (suc i)

    unfoldable pub http_find : Guest → Regs → Act (Context W) ℕ
    http_find g regs = do
      (w, hp) ← get_http (u32 regs.rdi)
      buffer ← answered machine (g.string_or_view regs.rsi (u16 regs.rdx))
      throw_unless other (validate_guest_field_key buffer)
      give_field g regs (field_at hp (http_findhdr hp (length buffer) buffer))

    -- The method is the first field; a request always has it.
    abbrev pub give_method : Guest → Regs → Option Field → Act (Context W) ℕ
    give_method g regs none = raise other
    give_method g regs (some f) =
        give_text g regs.rdi (regs.rsi % 2 ^ 31) (u32 (length f.text)) f.text

    unfoldable pub http_method : Guest → Regs → Act (Context W) ℕ
    http_method g regs = do
      (w, hp) ← get_http v.hdr_bereq
      give_method g regs (get_elem? hp.fields 0)

    -- One round of the loop of `syscall_regex_copyto` on the header set `w`. It is read again in
    -- each round, since an earlier one may have appended to it.
    abbrev pub copy_one : (Str → Bool) → Which → Str → Act (Context W) ℕ
    copy_one matches w text = do
      c ← state
      (w', hp) ← answered other (selected w c)
      if matches text then http_header_append w' hp text else give hdr_invalid

    -- The loop, over the fields that the source has at the start: an append leaves them in place,
    -- also when the source is the destination.
    abbrev pub copy_fields : (Str → Bool) → Which → List Field → ℕ → Act (Context W) ℕ
    copy_fields matches w [] appended = give appended
    copy_fields matches w (f ∷ fs) appended = do
      index ← copy_one matches w f.text
      copy_fields matches w fs (if index == hdr_invalid then appended else suc appended)

    -- `regex` is the lookup of a compiled regex and what it matches.
    unfoldable pub regex_copyto : (ℕ → Option (Str → Bool)) → Regs → Act (Context W) ℕ
    regex_copyto regex regs = do
      matches ← answered other (regex (u32 regs.rdi))
      (w, src) ← get_http (u32 regs.rsi)
      (w', dst) ← get_http (u32 regs.rdx)
      copy_fields matches w' (drop hdr_first src.fields) 0

    -- The system calls on headers, as the guest reaches them.
    unfoldable pub http_call :
        (ℕ → Option (Str → Bool)) → HttpCall → Guest → Regs → Act (Context W) ℕ
    http_call regex append_call g regs = http_append g regs
    http_call regex set_call g regs = http_set g regs
    http_call regex find_call g regs = http_find g regs
    http_call regex method_call g regs = http_method g regs
    http_call regex copyto_call g regs = regex_copyto regex regs

    -- What a guest calls in a row, with its memory and registers at each call. The first exception
    -- ends it.
    abbrev pub http_calls :
        (ℕ → Option (Str → Bool)) → List (HttpCall × (Guest × Regs)) → Act (Context W) (List ℕ)
    http_calls regex [] = give []
    http_calls regex ((call, (g, regs)) ∷ calls) = do
      rax ← http_call regex call g regs
      replies ← http_calls regex calls
      give (rax ∷ replies)
