-- ===== src/Backend/Inputs.antt =====
-- `fill_backend_inputs` and `fill_backend_headers` of lib/libkvm/backend.cpp: what the guest is told
-- of the request.
use libvmod_tinykvm.Common.{
  ℕ, ◌+◌, Option, none, some, List, [], ◌∷◌, ◌++◌, ◌^◌, ◌-◌, Str, length, leb, ◌==◌, if◌then◌else◌,
  u16, u32, u64,
}
use libvmod_tinykvm.Utils.XorShift.{rand_u64}
use libvmod_tinykvm.Backend.{Serving, VmodKvmInputs, BackendPost}
use libvmod_tinykvm.Backend.Result.{change_stats}
use libvmod_tinykvm.Common.Act.{other, Outcome, done, Act, ◌>>=◌, ◌>>◌, give, throw_unless}

pub record BackendHeader : Type 0 where
  pub field_ptr : ℕ
  pub field_colon : ℕ
  pub field_len : ℕ

-- `struct backend_inputs`, but for the flags and the reserved fields, which are zero.
pub record BackendInputs : Type 0 where
  pub method : ℕ
  pub url : ℕ
  pub arg : ℕ
  pub ctype : ℕ
  pub method_len : ℕ
  pub url_len : ℕ
  pub arg_len : ℕ
  pub ctype_len : ℕ
  pub data_ : ℕ
  pub data_len : ℕ
  pub g_headers : ℕ
  pub num_headers : ℕ
  pub prng : ℕ × ℕ

abbrev pub no_inputs : BackendInputs
no_inputs = record {
  method = 0;
  url = 0;
  arg = 0;
  ctype = 0;
  method_len = 0;
  url_len = 0;
  arg_len = 0;
  ctype_len = 0;
  data_ = 0;
  data_len = 0;
  g_headers = 0;
  num_headers = 0;
  prng = (0, 0);
}

-- What is used of the stack of `tinykvm::Machine`: a push answers the new stack pointer and the
-- address of what was pushed, and throws where the memory cannot be written.
pub record Stack (V : Type 0) : Type 0 where
  pub stack_push : ℕ → Str → V → V × Outcome (ℕ × ℕ)
  pub stack_push_headers : ℕ → List BackendHeader → V → V × Outcome (ℕ × ℕ)
  pub stack_push_inputs : ℕ → BackendInputs → V → V × Outcome (ℕ × ℕ)

-- The number of bytes before the first colon, and `std::string_view::npos` as 32 bits hold it.
unfoldable pub find_colon : Str → ℕ → ℕ
find_colon [] i = 2 ^ 32 - 1
find_colon (c ∷ s) i = let rest = find_colon s (i + 1) in if c == b':' then u32 i else rest

module _ {V P : Type 0} where
  abbrev pub on_vm : {A : Type 0} → (V → V × Outcome A) → Act (Serving V P) A
  on_vm f s = let (v, o) = f s.mi.machine in (record s { mi = record (s.mi) { machine = v } }, o)

  abbrev pub random : Act (Serving V P) ℕ
  random s = let (r, n) = rand_u64 s.prng in (record s { prng = r }, done n)

  module _ (vm : Stack V) where
    open vm use {stack_push, stack_push_headers}

    -- `strlen` and the text with its final zero.
    abbrev pub push_text : ℕ → Str → Act (Serving V P) (ℕ × ℕ)
    push_text stack text = on_vm (stack_push stack (text ++ (0 ∷ [])))

    unfoldable pub fill_post :
        ℕ
        → VmodKvmInputs
        → Option BackendPost
        → BackendInputs
        → Act (Serving V P) (ℕ × BackendInputs)
    fill_post stack invoc (some post) inputs = do
      ctype ← push_text stack invoc.content_type
      change_stats (λ st. record st { input_bytes = u64 (st.input_bytes + post.length) })
      give (
        ctype.0,
        record inputs {
          ctype_len = u16 (length invoc.content_type);
          ctype = ctype.1;
          data_ = post.address;
          data_len = post.length;
        },
      )
    fill_post stack invoc none inputs = do
      ctype ← push_text stack []
      give (ctype.0, record inputs { ctype = ctype.1; ctype_len = 0; data_ = 0; data_len = 0 })

    unfoldable pub fill_backend_inputs :
        ℕ
        → VmodKvmInputs
        → Option BackendPost
        → BackendInputs
        → Act (Serving V P) (ℕ × BackendInputs)
    fill_backend_inputs stack invoc post inputs = do
      method ← push_text stack invoc.method
      url ← push_text method.0 invoc.url
      arg ← push_text url.0 invoc.argument
      filled ← fill_post arg.0 invoc post (record inputs {
        method_len = u16 (length invoc.method);
        method = method.1;
        url_len = u16 (length invoc.url);
        url = url.1;
        arg_len = u16 (length invoc.argument);
        arg = arg.1;
      })
      first ← random
      second ← random
      give (filled.0, record (filled.1) { prng = (first, second) })

    -- The loop over the headers.
    unfoldable pub push_headers : ℕ → List Str → Act (Serving V P) (ℕ × List BackendHeader)
    push_headers stack [] = give (stack, [])
    push_headers stack (field ∷ fields) = do
      pushed ← push_text stack field
      rest ← push_headers pushed.0 fields
      give (
        rest.0,
        record {
          field_ptr = pushed.1;
          field_colon = find_colon field 0;
          field_len = u32 (length field);
        }
            ∷ rest.1,
      )

    -- The headers of the request; there are none where there is no context.
    unfoldable pub fill_backend_headers :
        ℕ → List Str → BackendInputs → Act (Serving V P) (ℕ × BackendInputs)
    fill_backend_headers stack [] inputs =
        give (stack, record inputs { g_headers = 0; num_headers = 0 })
    fill_backend_headers stack (field ∷ fields) inputs = do
      throw_unless other (leb (length (field ∷ fields)) 64)
      headers ← push_headers stack (field ∷ fields)
      array ← on_vm (stack_push_headers headers.0 headers.1)
      give (
        array.0,
        record inputs { g_headers = array.1; num_headers = u16 (length (field ∷ fields)) },
      )
