-- ===== src/Remote/SelfRequest.antt =====
-- `kvm_self_request` of lib/libkvm/self_request.cpp. What is written to the logs and the statistics
-- is left out.
use libvmod_tinykvm.Common.{
  ℕ, zero, suc, ◌+◌, ◌-◌, ◌*◌, ◌^◌, ◌≡◌, Bool, true, false, not, ◌&&◌, ◌||◌, Option, none, some, List, [], ◌∷◌,
  ◌++◌, Str, length, take, get_elem?, ltb, leb, ◌==◌, if◌then◌else◌, codes, u16,
}
use libvmod_tinykvm.Common.Act.{
  Fault, other, Outcome, done, threw, Act, ◌>>=◌, ◌>>◌, give, raise, change, state, answered,
  throw_unless,
}
use libvmod_tinykvm.Backend.{BackendResult}
use libvmod_tinykvm.Remote.{SelfRequests, ge_signed, inc32, dec32}

-- `MemoryStruct`: the bytes, without the zero byte behind them, and `none` for a null pointer.
abbrev pub Chunk : Type 0
Chunk = Option Str

abbrev pub bytes_of : Chunk → Str
bytes_of none = []
bytes_of (some bytes) = bytes

-- What cURL does for a URL: the parts with which it calls back, and what it returns.
pub record Transferred : Type 0 where
  pub parts : List Str
  pub is_ok : Bool
  pub status : ℕ
  pub content_type : Option Str

-- What the other code does in one request: whether `malloc` finds memory, and `realloc` for a
-- size; what nlohmann::json reads as headers, where `none` is an exception; whether cURL takes the
-- path of the socket, and what it does for a URL with headers and a socket; whether the workspace
-- has room for the type of the content.
pub record World : Type 0 where
  pub malloc : Bool
  pub realloc : ℕ → Bool
  pub headers : Str → Option (List Str)
  pub takes_socket : Str → Bool
  pub perform : Str → List Str → Str → Transferred
  pub ws_room : ℕ → Bool

-- A self request has a result with the buffer that the caller frees.
pub record SelfResult : Type 0 where
  pub retvalue : ℕ
  pub result : BackendResult
  pub buffer : Chunk

module _ (w : World) where
  -- `kvm_SelfRequestCallback` with what it tells cURL to have taken.
  unfoldable pub self_request_callback : Str → Chunk → Chunk × ℕ
  self_request_callback part chunk =
      if w.realloc (length (bytes_of chunk) + length part + 1)
      then (some (bytes_of chunk ++ part), length part)
      else (none, 0)

  -- cURL calls back with one part after the other.
  abbrev pub received : List Str → Chunk → Chunk
  received [] chunk = chunk
  received (part ∷ parts) chunk = received parts (self_request_callback part chunk).0

  abbrev pub set_error_result : BackendResult → ℕ → BackendResult
  set_error_result r status =
      record r { status = u16 status; content_length = 0; bufcount = 0; type_ = some []; tsize = 0 }

  -- The value -1.
  abbrev pub failed : BackendResult → ℕ → SelfResult
  failed r status =
      record { retvalue = 2 ^ 32 - 1; result = set_error_result r status; buffer = none }

  abbrev pub typed : Option Str → BackendResult → BackendResult
  typed none r = record r { type_ = some []; tsize = 0 }
  typed (some t) r =
      if w.ws_room (length t + 1)
      then record r { type_ = some t; tsize = length t }
      else record r { type_ = some []; tsize = 0 }

  abbrev pub fetched : BackendResult → Transferred → Chunk → SelfResult
  fetched r t chunk =
      record {
        retvalue = 0;
        result =
          record (typed t.content_type r) {
            status = u16 t.status;
            content_length = length (bytes_of chunk);
            bufcount = 1
          };
        buffer = chunk
      }

  abbrev pub leave : SelfResult → Act SelfRequests SelfResult
  leave r = change (λ s. record s { concurrency = dec32 s.concurrency }) >> give r

  abbrev pub transferred : BackendResult → Transferred → SelfResult
  transferred r t = if t.is_ok then fetched r t (received t.parts (some [])) else failed r t.status

  abbrev pub is_empty : Str → Bool
  is_empty [] = true
  is_empty (c ∷ s) = false

  -- The socket is used where one is set.
  abbrev pub run_curl : Str → List Str → BackendResult → Str → Act SelfRequests SelfResult
  run_curl url headers r uri =
      if not (is_empty uri) && not (w.takes_socket uri)
      then leave (failed r 500)
      else leave (transferred r (w.perform url headers uri))

  -- An argument of no bytes is not read; `none` is an exception, which leaves the function.
  abbrev pub headers_of : Str → Option (List Str)
  headers_of [] = some []
  headers_of (c ∷ arg) = w.headers (c ∷ arg)

  -- What `snprintf` writes into a buffer of 2048 bytes.
  abbrev pub self_request_url : Str → Str → Str
  self_request_url prefix path = take 2047 (prefix ++ path)

  abbrev pub admitted : Str → Str → BackendResult → SelfRequests → Act SelfRequests SelfResult
  admitted path arg r s =
      if length (s.prefix ++ path) == 0
      then leave (failed r 500)
      else (answered other (headers_of arg) >>= λ headers.
        run_curl (self_request_url s.prefix path) headers r s.uri)

  abbrev pub admit : Str → Str → BackendResult → SelfRequests → Act SelfRequests SelfResult
  admit path arg r s =
      change (λ s. record s { concurrency = inc32 s.concurrency })
      >> (if ge_signed s.concurrency s.max_concurrency
        then leave (failed r 500)
        else admitted path arg r s)

  abbrev pub starts_with_slash : Str → Bool
  starts_with_slash [] = false
  starts_with_slash (c ∷ s) = c == b'/'

  unfoldable pub kvm_self_request : Str → Str → BackendResult → Act SelfRequests SelfResult
  kvm_self_request path arg r =
      if not w.malloc || not (starts_with_slash path)
      then give (failed r 500)
      else (state >>= admit path arg r)
