-- ===== src/Http/Tests.antt =====
-- Runs of lib/libkvm/system_calls_http.cpp at concrete inputs.
use libvmod_tinykvm.Common.{
  ℕ, ◌-◌, ◌≡◌, refl, Bool, true, false, Option, none, some, List, [], ◌∷◌, ◌++◌, Str, codes, str_eq,
  leb, ◌==◌, if◌then◌else◌, arith,
}
use libvmod_tinykvm.Common.Act.{Outcome, done, threw}
use libvmod_tinykvm.Backend.{Regs}
use libvmod_tinykvm.Http.{
  Field, Http, validate_guest_field, validate_guest_field_key, http_findhdr, http_unsetat,
}
use libvmod_tinykvm.Http.Calls.{
  Which, bereq, beresp, req, resp, Varnish, VarnishLaws, until_nul, Guest, Context, http_of,
  put_http, kvm_http_set, http_find, http_set, get_http, regex_copyto, set_call, find_call,
  copyto_call, http_calls,
}
use libvmod_tinykvm.Http.Kept.{http_calls-KeptAll, KeptAll, SoundAt}
use libvmod_tinykvm.Http.RoundTrip.{http_find-kvm_http_set}
use libvmod_tinykvm.Http.Copied.{regex_copyto_lem}

abbrev field : Str → Field
field s = record { text = s; flags = 0 }

-- A workspace is the number of its free bytes.
abbrev varnish : Varnish ℕ
varnish = record {
  hdr_bereq = 4;
  hdr_beresp = 5;
  is_null = λ w. false;
  alloc = λ n w. if leb n w then some (w - n) else none;
  set_h = λ s. field (until_nul s);
}

varnish_laws : VarnishLaws varnish
varnish_laws = record { set_h_text = λ s. refl }

abbrev proto : List Field
proto =
    field (codes "GET") ∷ field (codes "/") ∷ field (codes "HTTP/1.1") ∷ field [] ∷ field [] ∷ []

abbrev request : Http
request = record {
  fields_max = 8;
  fields = proto ++ field (codes "Host: a.b") ∷ field (codes "X-One: 1") ∷ [];
}

abbrev context : Context ℕ
context = record {
  bo = true;
  http_bereq = some request;
  http_beresp = none;
  http_req = none;
  http_resp = none;
  ws = 100;
  asserted = true;
  copied = [];
}

-- The guest keeps a header at the address 16 and a name at 32.
abbrev guest : Guest
guest = record {
  copy_from_guest = λ a n. some (if a == 16 then codes "Host: c.d" else codes "X-One");
  string_or_view = λ a n. some (codes "HOST");
  copy_to_guest = λ a n. true;
}

abbrev regs : Regs
regs = record { rdi = 0; rsi = 32; rdx = 4; rcx = 64; r8 = 16; r9 = 0 }

-- The reply of a run, and the texts that were copied.
abbrev replied : Context ℕ × Outcome ℕ → Option (ℕ × List (ℕ × Str))
replied (c, done n) = some (n, c.copied)
replied (c, threw e) = none

found_before :
    replied (http_find varnish guest regs context) ≡ some (9, (64, codes "Host: a.b") ∷ [])
unfolding http_find validate_guest_field_key get_http http_findhdr
found_before = refl

-- A name without a colon removes its header.
removed :
    replied (
      http_set varnish guest
        (record { rdi = 0; rsi = 32; rdx = 5; rcx = 0; r8 = 0; r9 = 0 })
        context)
    ≡ some (6, [])
unfolding http_set kvm_http_set get_http http_findhdr http_unsetat
removed = refl

-- The literal of illegal characters ends at its zero byte for `strchr`.
accepted_newline : validate_guest_field_key (10 ∷ codes "X") ≡ true
unfolding validate_guest_field_key
accepted_newline = refl

refused_space : validate_guest_field_key (codes "X Y") ≡ false
unfolding validate_guest_field_key
refused_space = refl

-- The header that the guest sets replaces the one of the same name, and is found by it.
http_find-kvm_http_set_example :
    http_find varnish guest regs (
      put_http bereq
        (record {
          fields_max = 8;
          fields = proto ++ field (codes "Host: c.d") ∷ field (codes "X-One: 1") ∷ [];
        })
        (record context { ws = 90 }))
    ≡ (
      put_http bereq
          (record {
            fields_max = 8;
            fields = proto ++ field (codes "Host: c.d") ∷ field (codes "X-One: 1") ∷ [];
          })
          (record context { ws = 90; copied = (64, codes "Host: c.d") ∷ [] }),
      done 9,
    )
unfolding kvm_http_set get_http http_findhdr validate_guest_field validate_guest_field_key
http_find-kvm_http_set_example =
    http_find-kvm_http_set varnish varnish_laws guest regs 16 9 context bereq request 90
      (codes "Host: c.d") (codes "HOST") (omega arith) (omega arith) refl refl refl refl refl refl
      (omega arith) (omega arith) refl refl refl refl (omega arith) refl

abbrev with_x : ℕ → Option (Str → Bool)
with_x i = some (λ s. str_eq s (codes "X-One: 1"))

sound_context : (w : Which) → SoundAt (http_of w context)
sound_context bereq = record { has_proto = omega arith; has_room = omega arith }
sound_context beresp = tt
sound_context req = tt
sound_context resp = tt

http_calls-KeptAll_example :
    KeptAll context
      (http_calls varnish with_x
        ((set_call, (guest, regs)) ∷ (find_call, (guest, regs)) ∷ (copyto_call, (guest, regs)) ∷ [])
        context).0
http_calls-KeptAll_example =
    http_calls-KeptAll varnish with_x
      ((set_call, (guest, regs)) ∷ (find_call, (guest, regs)) ∷ (copyto_call, (guest, regs)) ∷ [])
      context refl sound_context

abbrev copy_regs : Regs
copy_regs = record { rdi = 0; rsi = 0; rdx = 0; rcx = 0; r8 = 0; r9 = 0 }

regex_copyto_lem_example : regex_copyto varnish with_x copy_regs context ≡ (
  record context {
    http_bereq = some (record request { fields = request.fields ++ field (codes "X-One: 1") ∷ [] });
  },
  done 1,
)
unfolding regex_copyto get_http validate_guest_field
regex_copyto_lem_example =
    regex_copyto_lem varnish with_x copy_regs context (λ s. str_eq s (codes "X-One: 1")) bereq bereq
      request request refl refl refl refl (omega arith) (omega arith)
