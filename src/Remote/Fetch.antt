-- ===== src/Remote/Fetch.antt =====
-- `syscall_fetch` of lib/libkvm/system_calls_fetch.cpp: a guest fetches from a URL. The options that
-- cURL is given without effect on the result are left out, as are the body of a POST and the logs.
use libvmod_tinykvm.Common.{
  ℕ, zero, suc, ◌+◌, ◌-◌, ◌*◌, ◌^◌, ◌%◌, ◌≡◌, Bool, true, false, not, ◌&&◌, ◌||◌, Option, none, some, List,
  [], ◌∷◌, ◌++◌, Str, length, take, drop, concat, min, ltb, leb, ◌==◌, if◌then◌else◌, codes, u32, u64,
  sub64, minus_one,
}
use libvmod_tinykvm.Common.Act.{
  Fault, machine, other, Outcome, done, threw, Act, ◌>>=◌, ◌>>◌, give, raise, change, state, answered,
  throw_unless,
}
use libvmod_tinykvm.Backend.{Regs}
use libvmod_tinykvm.Remote.{SelfRequests, ge_signed, inc32, dec32}
use libvmod_tinykvm.Remote.Transfer.{
  content_type_len, curl_buffer_max, curl_resp_headers_min_length, OpResult, Memory, WriteOp,
  make_writeop, write_parts,
}

-- What the guest asks for, as it is read from its memory: `none` is an exception. The options are
-- `some none` where the guest gives none, and hold whether a name of an interface can be read.
pub record Asked : Type 0 where
  pub url : Option Str
  pub op_result : Option OpResult
  pub op_fields : Option (List Str)
  pub options : Option (Option Bool)

-- What cURL does for a URL and headers: whether it takes the path of a socket and the URL; the parts
-- of the content and of the headers with which it calls back; its result, the status and the type
-- of the content.
pub record Curl : Type 0 where
  pub takes_socket : Str → Bool
  pub takes_url : Str → Bool
  pub parts : List Str
  pub header_parts : List Str
  pub res : ℕ
  pub status : ℕ
  pub content_type : Option Str

-- The state: the settings of self requests, the machine, and the register with the reply.
pub record Fetching (V : Type 0) : Type 0 where
  pub self : SelfRequests
  pub vm : V
  pub rax : ℕ

abbrev pub neg64 : ℕ → ℕ
neg64 n = u64 (2 ^ 64 - n)

-- The request headers that cURL gets: those before the first that is empty, and the type.
abbrev pub request_headers : List Str → List Str
request_headers [] = []
request_headers ([] ∷ fields) = []
request_headers ((c ∷ f) ∷ fields) = (c ∷ f) ∷ request_headers fields

abbrev pub type_header : OpResult → List Str
type_header r =
    if ltb 0 r.ct_length && ltb r.ct_length content_type_len
    then (codes "Content-Type: " ++ take r.ct_length r.ctype) ∷ []
    else []

module _ {V : Type 0} (g : Memory V) (encode : OpResult → Str) (curl : Str → List Str → Curl) where
  abbrev pub reply : ℕ → Act (Fetching V) (Unit {0})
  reply n = change (λ s. record s { rax = n })

  abbrev pub count : (ℕ → ℕ) → Act (Fetching V) (Unit {0})
  count f =
      change (λ s. record s { self = record (s.self) { concurrency = f s.self.concurrency } })

  abbrev pub write : ℕ → Str → Act (Fetching V) (Unit {0})
  write addr bytes = do
    s ← state
    change (λ s. record s { vm = (g.copy_to_guest addr bytes s.vm).0 })
    throw_unless machine (g.copy_to_guest addr bytes s.vm).1

  -- How the guarded part ends: with a `return` of its own, or at its end.
  abbrev pub Ended : Type 0
  Ended = Bool

  abbrev pub relax : Bool → OpResult → ℕ → Act (Fetching V) (Unit {0})
  relax false r n = give tt
  relax true r n =
      change (λ s. record s { vm = g.mmap_relax r.content_addr curl_buffer_max n s.vm })

  -- The type of the content, over what the guest has there.
  abbrev pub with_type : Option Str → OpResult → OpResult
  with_type none r = record r { ct_length = 0 }
  with_type (some t) r =
      let n = min (length t + 1) content_type_len in
      record r { ct_length = n; ctype = take n (t ++ 0 ∷ []) ++ drop n r.ctype }

  -- The place and the length of the response headers, and how many bytes are copied.
  abbrev pub place_headers : Str → OpResult → Act (Fetching V) (OpResult × ℕ)
  place_headers headers r =
      if r.headers == 0
      then (do
        s ← state
        change (λ s. record s { vm = (g.mmap_allocate (u32 (length headers + 1)) s.vm).0 })
        give
          (
            record r {
              headers = (g.mmap_allocate (u32 (length headers + 1)) s.vm).1;
              headers_length = u32 (length headers)
            },
            u32 (length headers + 1),
          ))
      else (let n = min (u32 (length headers + 1)) r.headers_length in
        give (record r { headers_length = n - 1 }, n))

  abbrev pub with_headers : Str → OpResult → Act (Fetching V) OpResult
  with_headers [] r = give r
  with_headers (c ∷ h) r = do
    (r', n) ← place_headers (c ∷ h) r
    write r'.headers (take n ((c ∷ h) ++ 0 ∷ []))
    give r'

  -- What follows on a transfer that cURL calls a success.
  abbrev pub finish : ℕ → Bool → Str → Curl → WriteOp V → OpResult → Act (Fetching V) Ended
  finish op_buffer managed headers c op r = do
    change (λ s. record s { vm = op.machine })
    relax managed r (u32 (sub64 op.dst r.content_addr))
    r' ← with_headers headers
      (with_type c.content_type
        (record r { content_length = u32 (sub64 op.dst r.content_addr); status = u32 c.status }))
    write op_buffer (encode r')
    reply 0
    give true

  abbrev pub fail : Bool → Curl → WriteOp V → OpResult → Act (Fetching V) Ended
  fail managed c op r = do
    change (λ s. record s { vm = op.machine })
    relax managed r 0
    reply (neg64 c.res)
    give true

  abbrev pub performed : ℕ → Bool → OpResult → Curl → V → Act (Fetching V) Ended
  performed op_buffer managed r c v =
      let op = write_parts g c.parts (make_writeop g r.content_addr r.content_length v) in
      let headers =
        (if leb curl_resp_headers_min_length r.headers_length then concat c.header_parts else []) in
      if c.res == 0 then finish op_buffer managed headers c op r else fail managed c op r

  -- A name of an interface that cannot be read is an exception.
  abbrev pub read_options : Option (Option Bool) → Act (Fetching V) (Unit {0})
  read_options none = raise machine
  read_options (some none) = give tt
  read_options (some (some named)) = throw_unless machine named

  abbrev pub with_url :
      Asked → Str → ℕ → Bool → OpResult → List Str → Act (Fetching V) Ended
  with_url a url op_buffer managed r fields =
      let c = curl url (request_headers fields ++ type_header r) in
      if not (c.takes_url url)
      then (reply minus_one >> give false)
      else (do
        read_options a.options
        s ← state
        performed op_buffer managed r c s.vm)

  -- A place for a self request; the exception of a refusal leaves by the `catch` below.
  abbrev pub enter : Act (Fetching V) (Unit {0})
  enter = do
    s ← state
    count inc32
    if ge_signed s.self.concurrency s.self.max_concurrency then (count dec32 >> raise other) else give tt

  -- The guarded part. `unix_path` is empty for a fetch that is no self request.
  unfoldable pub guarded :
      Asked → Str → ℕ → Str → Bool → OpResult → List Str → Act (Fetching V) Ended
  guarded a url op_buffer [] managed r fields = with_url a url op_buffer managed r fields
  guarded a url op_buffer (p ∷ path) managed r fields = do
    enter
    if not ((curl url []).takes_socket (p ∷ path)) then (reply minus_one >> give false) else with_url a url op_buffer managed r fields

  abbrev pub is_self_request : Str → Bool
  is_self_request [] = false
  is_self_request (c ∷ path) = true

  abbrev pub leave_self : Str → Act (Fetching V) (Unit {0})
  leave_self unix_path = if is_self_request unix_path then count dec32 else give tt

  -- The `catch`, and what is behind it: a `return` in the guarded part skips it.
  unfoldable pub settle :
      Str → Bool → OpResult → Fetching V × Outcome Ended → Fetching V × Outcome (Unit {0})
  settle unix_path managed r (s, done false) = (s, done tt)
  settle unix_path managed r (s, done true) = leave_self unix_path s
  settle unix_path managed r (s, threw e) =
      (relax managed r 0 >> reply minus_one >> leave_self unix_path) s

  -- The buffer for the content, which may be one that is allocated here.
  abbrev pub with_buffer : OpResult → Act (Fetching V) (OpResult × Bool)
  with_buffer r =
      if r.content_addr == 0
      then (do
        s ← state
        change (λ s. record s { vm = (g.mmap_allocate curl_buffer_max s.vm).0 })
        give
          (
            record r {
              content_addr = (g.mmap_allocate curl_buffer_max s.vm).1;
              content_length = curl_buffer_max
            },
            true,
          ))
      else give (r, false)

  abbrev pub helper_with :
      Asked → Str → ℕ → Str → List Str → OpResult × Bool → Act (Fetching V) (Unit {0})
  helper_with a [] op_buffer unix_path fields (r, managed) = reply (neg64 3)
  helper_with a (c ∷ url) op_buffer unix_path fields (r, managed) =
      λ s. settle unix_path managed r (guarded a (c ∷ url) op_buffer unix_path managed r fields s)

  unfoldable pub curl_fetch_helper : Asked → Str → ℕ → Str → Act (Fetching V) (Unit {0})
  curl_fetch_helper a url op_buffer unix_path = do
    r ← answered machine a.op_result
    fields ← answered machine a.op_fields
    buffer ← with_buffer r
    helper_with a url op_buffer unix_path fields buffer

  abbrev pub starts_with_slash : Str → Bool
  starts_with_slash [] = false
  starts_with_slash (c ∷ s) = c == b'/'

  -- A URL that starts with a slash is a self request.
  unfoldable pub fetch : Asked → Regs → Act (Fetching V) (Unit {0})
  fetch a regs = do
    url ← answered machine a.url
    s ← state
    answered machine a.op_result
    if starts_with_slash url then curl_fetch_helper a (s.self.prefix ++ url) regs.rdx s.self.uri else curl_fetch_helper a url regs.rdx []
