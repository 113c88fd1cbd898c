-- ===== src/Remote/Places.antt =====
-- The places of self requests after `syscall_fetch` of lib/libkvm/system_calls_fetch.cpp.
use libvmod_tinykvm.Common.{
  ℕ, zero, suc, ◌+◌, ◌-◌, ◌^◌, ◌%◌, ◌<◌, ◌≡◌, inl, inr, refl, sym, ap, subst, ◌∙◌, arith, Bool, true, false, not,
  ◌&&◌, ◌||◌, Option, none, some, List, [], ◌∷◌, ◌++◌, Str, length, ltb, ◌==◌, if◌then◌else◌, u32, leb,
  minus_one, sub64, Bool-cases, min, codes, concat,
}
use libvmod_tinykvm.Common.Act.{
  Fault, machine, other, Outcome, done, threw, Act, ◌>>=◌, ◌>>◌, give, raise, change, state, answered,
  throw_unless, Keeps, Keeps-bind,
}
use libvmod_tinykvm.Backend.{Regs}
use libvmod_tinykvm.Remote.{SelfRequests, ge_signed, inc32, dec32}
use libvmod_tinykvm.Remote.Transfer.{
  OpResult, Memory, WriteOp, write_parts, make_writeop, curl_resp_headers_min_length,
}
use libvmod_tinykvm.Remote.Slots.{dec32-inc32}
use libvmod_tinykvm.Remote.Fetch.{
  Asked, Curl, Fetching, request_headers, type_header, reply, count, write, relax, with_type,
  place_headers, with_headers, finish, fail, performed, read_options, with_url, enter, guarded,
  leave_self, settle, with_buffer, helper_with, curl_fetch_helper, starts_with_slash, fetch,
}

module _ {V : Type 0} (g : Memory V) (encode : OpResult → Str) (curl : Str → List Str → Curl) where
  -- The settings and the counter of self requests are these.
  abbrev pub SelfIs : SelfRequests → Fetching V → Type 0
  SelfIs r s = s.self ≡ r

  module _ (r : SelfRequests) where
    abbrev Same : {A : Type 0} → Fetching V × Outcome A → Type 0
    Same = Keeps (SelfIs r)

    if-Same :
        {A : Type 0} (b : Bool) (m n : Act (Fetching V) A) (s : Fetching V)
        → Same (m s)
        → Same (n s)
        → Same ((if b then m else n) s)
    if-Same true m n s h k = h
    if-Same false m n s h k = k

    answered-Same :
        {A : Type 0} (e : Fault) (o : Option A) (s : Fetching V)
        → SelfIs r s
        → Same (answered e o s)
    answered-Same e none s k = k
    answered-Same e (some a) s k = k

    throw_unless-Same :
        (e : Fault) (b : Bool) (s : Fetching V) → SelfIs r s → Same (throw_unless e b s)
    throw_unless-Same e true s k = k
    throw_unless-Same e false s k = k

    relax-Same :
        (managed : Bool) (o : OpResult) (n : ℕ) (s : Fetching V)
        → SelfIs r s
        → Same (relax g encode curl managed o n s)
    relax-Same true o n s k = k
    relax-Same false o n s k = k

    write-Same :
        (addr : ℕ) (bytes : Str) (s : Fetching V)
        → SelfIs r s
        → Same (write g encode curl addr bytes s)
    write-Same addr bytes s k = throw_unless-Same machine (g.copy_to_guest addr bytes s.vm).1 _ k

    bind-Same :
        {A B : Type 0} (m : Act (Fetching V) A) (next : A → Act (Fetching V) B) (s : Fetching V)
        → Same (m s)
        → ((s' : Fetching V) (a : A) → SelfIs r s' → Same (next a s'))
        → Same ((m >>= next) s)
    bind-Same m next s h k = Keeps-bind (SelfIs r) m next s h k

    with_headers-Same :
        (headers : Str) (o : OpResult) (s : Fetching V)
        → SelfIs r s
        → Same (with_headers g encode curl headers o s)
    with_headers-Same [] o s k = k
    with_headers-Same (c ∷ h) o s k =
        bind-Same (place_headers g encode curl (c ∷ h) o) _ s
          (if-Same (o.headers == 0) _ (give (record o { headers_length = min (u32 (length (c ∷ h) + 1)) o.headers_length - 1 }, min (u32 (length (c ∷ h) + 1)) o.headers_length)) s k k)
          (λ s' p k'.
            bind-Same (write g encode curl (p.0).headers _) _ s' (write-Same (p.0).headers _ s' k')
              (λ s'' u k''. k''))

    finish-Same :
        (op_buffer : ℕ) (managed : Bool) (headers : Str) (c : Curl) (op : WriteOp V) (o : OpResult)
        (s : Fetching V)
        → SelfIs r s
        → Same (finish g encode curl op_buffer managed headers c op o s)
    finish-Same op_buffer managed headers c op o s k =
        let n = u32 (sub64 op.dst o.content_addr) in
        let typed = with_type g encode curl c.content_type
          (record o { content_length = n; status = u32 c.status }) in
        bind-Same (relax g encode curl managed o n) _ (record s { vm = op.machine })
          (relax-Same managed o n (record s { vm = op.machine }) k)
          (λ s1 u k1.
            bind-Same (with_headers g encode curl headers typed) _ s1
              (with_headers-Same headers typed s1 k1)
              (λ s2 o' k2.
                bind-Same (write g encode curl op_buffer (encode o')) _ s2
                  (write-Same op_buffer (encode o') s2 k2)
                  (λ s3 u' k3. k3)))

    fail-Same :
        (managed : Bool) (c : Curl) (op : WriteOp V) (o : OpResult) (s : Fetching V)
        → SelfIs r s
        → Same (fail g encode curl managed c op o s)
    fail-Same managed c op o s k =
        bind-Same (relax g encode curl managed o 0) _ (record s { vm = op.machine })
          (relax-Same managed o 0 (record s { vm = op.machine }) k)
          (λ s1 u k1. k1)

    performed-Same :
        (op_buffer : ℕ) (managed : Bool) (o : OpResult) (c : Curl) (s : Fetching V)
        → SelfIs r s
        → Same (performed g encode curl op_buffer managed o c s.vm s)
    performed-Same op_buffer managed o c s k =
        let op = write_parts g c.parts (make_writeop g o.content_addr o.content_length s.vm) in
        let headers =
          (if leb curl_resp_headers_min_length o.headers_length then concat c.header_parts else []) in
        if-Same (c.res == 0) (finish g encode curl op_buffer managed headers c op o)
          (fail g encode curl managed c op o) s
          (finish-Same op_buffer managed headers c op o s k) (fail-Same managed c op o s k)

    read_options-Same :
        (o : Option (Option Bool)) (s : Fetching V)
        → SelfIs r s
        → Same (read_options g encode curl o s)
    read_options-Same none s k = k
    read_options-Same (some none) s k = k
    read_options-Same (some (some named)) s k = throw_unless-Same machine named s k

    with_url-Same :
        (a : Asked) (url : Str) (op_buffer : ℕ) (managed : Bool) (o : OpResult) (fields : List Str)
        (s : Fetching V)
        → SelfIs r s
        → Same (with_url g encode curl a url op_buffer managed o fields s)
    with_url-Same a url op_buffer managed o fields s k =
        let c = curl url (request_headers fields ++ type_header o) in
        if-Same (not (c.takes_url url)) (reply g encode curl minus_one >> give false)
          (read_options g encode curl a.options
            >> (state >>= λ (s : Fetching V). performed g encode curl op_buffer managed o c s.vm))
          s k
          (bind-Same (read_options g encode curl a.options) _ s (read_options-Same a.options s k)
            (λ s' u k'. performed-Same op_buffer managed o c s' k'))
