-- ===== src/Backend/Result.antt =====
-- `fetch_result` and `sanitize_status_code` of lib/libkvm/backend.cpp: the response that a machine
-- has put into its registers becomes the result of the call.
use libvmod_tinykvm.Common.{
  ℕ, zero, suc, ◌+◌, ◌<◌, ◌≤◌, ◌≡◌, Bool, false, not, ◌&&◌, ◌||◌, Option, some, Str, ltb, leb, ◌==◌,
  if◌then◌else◌, u16, u64,
}
use libvmod_tinykvm.Machine.Stats.{MachineStats}
use libvmod_tinykvm.Backend.{Regs, BackendResult, Serving}
use libvmod_tinykvm.Common.Act.{
  memory, machine, other, Act, ◌>>=◌, ◌>>◌, give, change, state, throw_unless, answered,
}

-- `BackendResponseExtra`, but for the cache times that go to Varnish as they are.
pub record BackendResponseExtra : Type 0 where
  pub headers_ptr : ℕ
  pub num_headers : ℕ
  pub cached : Bool

-- What the workspace and the guest's memory answer in one run: whether there is room for the
-- content type and for the headers, and what is copied out, which is `none` where it throws.
-- `gathered` is the number of buffers that `gather_buffers_from_range` fills, of those it may, and
-- `header` tells whether the header of that number is copied and set.
pub record Answers : Type 0 where
  pub type_room : Bool
  pub type_text : Option Str
  pub gathered : ℕ → ℕ → ℕ → Option ℕ
  pub extra : Option BackendResponseExtra
  pub headers_room : Bool
  pub header : ℕ → Option (Unit {0})

-- What `tinykvm` says of the buffers: some are filled for a length that is not zero, and none for
-- an empty range, and they are no more than there is room for.
pub record Gathers (a : Answers) : Type 0 where
  pub some_buffers :
      (room address len n : ℕ) → a.gathered room address len ≡ some n → 0 < len → 0 < n
  pub in_room : (room address len n : ℕ) → a.gathered room address len ≡ some n → n ≤ room

-- The class of a status, as the counters know it.
unfoldable pub count_status : ℕ → MachineStats → MachineStats
count_status status s =
    if leb 200 status && ltb status 300
    then record s { status_2xx = u64 (s.status_2xx + 1) }
    else (if ltb status 200
        then record s { status_unknown = u64 (s.status_unknown + 1) }
        else (if ltb status 400
            then record s { status_3xx = u64 (s.status_3xx + 1) }
            else (if ltb status 500
                then record s { status_4xx = u64 (s.status_4xx + 1) }
                else (if ltb status 600
                    then record s { status_5xx = u64 (s.status_5xx + 1) }
                    else record s { status_unknown = u64 (s.status_unknown + 1) }))))

module _ {V P : Type 0} where
  abbrev pub change_stats : (MachineStats → MachineStats) → Act (Serving V P) (Unit {0})
  change_stats f = change (λ s. record s { mi = record (s.mi) { stats = f s.mi.stats } })

  abbrev pub change_result : (BackendResult → BackendResult) → Act (Serving V P) (Unit {0})
  change_result f = change (λ s. record s { result = f s.result })

  -- The argument is an `int16_t`, so a status from 32768 on is negative there, and refused too.
  unfoldable pub sanitize_status_code : ℕ → Act (Serving V P) ℕ
  sanitize_status_code code = throw_unless machine (leb 200 code && ltb code 600) >> give code

  unfoldable pub fetch_regular : Answers → Regs → Str → ℕ → Act (Serving V P) (Unit {0})
  fetch_regular a regs type_ room = do
    change_result (λ r. record r { type_ = some type_; tsize = u16 regs.rdx })
    status ← sanitize_status_code (u16 regs.rdi)
    change_result (λ r. record r { status = status; content_length = regs.r8 })
    count ← answered (memory false) (a.gathered room regs.rcx regs.r8)
    change_result (λ r. record r { bufcount = count })

  unfoldable pub fetch_streaming : Regs → Str → Act (Serving V P) (Unit {0})
  fetch_streaming regs type_ = do
    throw_unless other (not (regs.rcx == 0))
    throw_unless other (not (regs.r8 == 0))
    change_result (λ r. record r { type_ = some type_; tsize = u16 regs.rdx })
    status ← sanitize_status_code (u16 regs.rdi)
    change_result (λ r. record r {
      status = status;
      content_length = regs.rcx;
      bufcount = 0;
      stream = some (regs.r8, regs.r9);
    })

  -- The loop over the headers.
  abbrev pub fetch_headers : Answers → ℕ → ℕ → Act (Serving V P) (Unit {0})
  fetch_headers a i zero = give tt
  fetch_headers a i (suc n) = answered (memory false) (a.header i) >> fetch_headers a (suc i) n

  unfoldable pub fetch_extra : Answers → Regs → Act (Serving V P) (Unit {0})
  fetch_extra a regs = if regs.r9 == 0 then give tt else (do
    throw_unless other (leb 0x1000 regs.r9)
    extra ← answered (memory false) a.extra
    throw_unless other (leb extra.num_headers 64)
    throw_unless other (leb 0x1000 extra.headers_ptr)
    throw_unless other a.headers_room
    fetch_headers a 0 extra.num_headers)

  -- The response proper, with the counter of the bytes.
  unfoldable pub fetch_response : Answers → Regs → Bool → Str → Act (Serving V P) (Unit {0})
  fetch_response a regs regular type_ = do
    s ← state
    if regular then fetch_regular a regs type_ s.result.bufcount else fetch_streaming regs type_
    r ← state
    change_stats
        (λ st. record st { output_bytes = u64 (st.output_bytes + r.result.content_length) })

  unfoldable pub fetch_result : Answers → Regs → Act (Serving V P) (Unit {0})
  fetch_result a regs = do
    s ← state
    throw_unless other ((s.mi.response_called == 1) || (s.mi.response_called == 10))
    change_stats (count_status (u16 regs.rdi))
    throw_unless other (ltb (u16 regs.rdx) 0x1000)
    throw_unless other a.type_room
    type_ ← answered (memory false) a.type_text
    fetch_response a regs (s.mi.response_called == 1) type_
    if s.mi.response_called == 1 then fetch_extra a regs else give tt
