-- ===== src/Remote/Slots.antt =====
-- The counter of self requests, after `kvm_self_request` of lib/libkvm/self_request.cpp.
use libvmod_tinykvm.Common.{
  ℕ, zero, suc, ◌+◌, ◌-◌, ◌^◌, ◌%◌, ◌<◌, ◌≡◌, inl, inr, refl, sym, ap, subst, ◌∙◌, arith, Bool, true, false, not,
  ◌&&◌, ◌||◌, Option, none, some, List, [], ◌∷◌, ◌++◌, Str, length, concat, ◌==◌, if◌then◌else◌, u16, u32,
  Bool-cases, Option-cases,
}
use mathlib.Core.List.{append-nil, append_assoc}
use libvmod_tinykvm.Common.Act.{
  Fault, other, Outcome, done, threw, Act, give, answered, Post, Post-if, ◌>>=◌, state,
}
use libvmod_tinykvm.Backend.{BackendResult}
use libvmod_tinykvm.Remote.{SelfRequests, ge_signed, inc32, dec32}
use libvmod_tinykvm.Remote.SelfRequest.{
  Chunk, bytes_of, Transferred, World, SelfResult, self_request_callback, received, failed, fetched,
  transferred, leave, is_empty, run_curl, headers_of, self_request_url, admitted, admit, starts_with_slash,
  kvm_self_request,
}

pub dec32-inc32 : (n : ℕ) → n < 2 ^ 32 → dec32 (inc32 n) ≡ n
dec32-inc32 n small = omega (arith, small)

module _ (w : World) (path arg : Str) (r : BackendResult) (s : SelfRequests) where
  abbrev one_more : SelfRequests
  one_more = record s { concurrency = inc32 s.concurrency }

  -- Where the call returns, the state is what it was; where it throws, a place is kept, and the
  -- argument is the reason.
  abbrev pub IsLeft : SelfRequests → SelfResult → Type 0
  IsLeft s' a = s' ≡ s

  abbrev pub IsLost : SelfRequests → Fault → Type 0
  IsLost s' e = (s' ≡ record s { concurrency = inc32 s.concurrency }) × (headers_of w arg ≡ none)

  abbrev Ends : {A : Type 0} → (SelfRequests → A → Type 0) → SelfRequests × Outcome A → Type 0
  Ends Q = Post Q IsLost

  leave-IsLeft : (a : SelfResult) → s.concurrency < 2 ^ 32 → Ends IsLeft (leave w a one_more)
  leave-IsLeft a small =
      ap (λ n. record s { concurrency = n }) (dec32-inc32 s.concurrency small)

  run_curl-IsLeft :
      (url : Str) (headers : List Str) (uri : Str)
      → s.concurrency < 2 ^ 32
      → Ends IsLeft (run_curl w url headers r uri one_more)
  run_curl-IsLeft url headers uri small =
      let done_with = transferred w r (w.perform url headers uri) in
      Post-if IsLeft IsLost (not (is_empty w uri) && not (w.takes_socket uri))
        (leave w (failed w r 500)) (leave w done_with) one_more (leave-IsLeft (failed w r 500) small)
        (leave-IsLeft done_with small)

  read-IsLeft :
      (o : Option (List Str)) (url uri : Str)
      → (o ≡ none → headers_of w arg ≡ none)
      → s.concurrency < 2 ^ 32
      → Ends IsLeft ((answered other o >>= λ headers. run_curl w url headers r uri) one_more)
  read-IsLeft none url uri no_json small = (refl, no_json refl)
  read-IsLeft (some headers) url uri no_json small = run_curl-IsLeft url headers uri small

  -- A self request that returns has given its place back, whatever failed; it throws only where the
  -- argument is no valid JSON, and then its place is lost.
  pub kvm_self_request-IsLeft :
      s.concurrency < 2 ^ 32 → Post IsLeft IsLost (kvm_self_request w path arg r s)
  unfolding kvm_self_request
  kvm_self_request-IsLeft small =
      let no = failed w r 500 in
      Post-if IsLeft IsLost (not w.malloc || not (starts_with_slash w path)) (give no)
        (state >>= admit w path arg r) s refl
        (Post-if IsLeft IsLost (ge_signed s.concurrency s.max_concurrency) (leave w no)
          (admitted w path arg r s) one_more (leave-IsLeft no small)
          (Post-if IsLeft IsLost (length (s.prefix ++ path) == 0) (leave w no)
            (answered other (headers_of w arg) >>= λ headers.
              run_curl w (self_request_url w s.prefix path) headers r s.uri)
            one_more (leave-IsLeft no small)
            (read-IsLeft (headers_of w arg) (self_request_url w s.prefix path) s.uri (λ e. e) small)))

  -- Where no memory runs out, the buffer has all that cURL delivered.
  received-concat :
      (parts : List Str) (bytes : Str)
      → ((n : ℕ) → w.realloc n ≡ true)
      → received w parts (some bytes) ≡ some (bytes ++ concat parts)
  unfolding self_request_callback
  received-concat [] bytes memory = ap (λ b. some b) (sym (append-nil bytes))
  received-concat (part ∷ parts) bytes memory =
      rw (memory (length bytes + length part + 1))
        (received-concat parts (bytes ++ part) memory
          ∙ ap (λ b. some b) (append_assoc bytes part (concat parts)))

  -- A self request below the limit whose transfer succeeds has all bytes of the response in one
  -- buffer, with its length and its status, and the state is what it was. Memory never runs out.
  pub kvm_self_request-fetched :
      (headers : List Str)
      → s.concurrency < 2 ^ 32
      → w.malloc ≡ true
      → starts_with_slash w path ≡ true
      → ge_signed s.concurrency s.max_concurrency ≡ false
      → (length (s.prefix ++ path) == 0) ≡ false
      → headers_of w arg ≡ some headers
      → w.takes_socket s.uri ≡ true
      → (w.perform (self_request_url w s.prefix path) headers s.uri).is_ok ≡ true
      → ((n : ℕ) → w.realloc n ≡ true)
      → kvm_self_request w path arg r s
        ≡ (
          s,
          done
            (fetched w r (w.perform (self_request_url w s.prefix path) headers s.uri)
              (some (concat (w.perform (self_request_url w s.prefix path) headers s.uri).parts))),
        )
  unfolding kvm_self_request
  kvm_self_request-fetched headers small found slash below url_there json socket ok memory =
      let no = failed w r 500 in
      let url = self_request_url w s.prefix path in
      let t = w.perform url headers s.uri in
      ap (λ b. (if b then give no else (state >>= admit w path arg r)) s) started
      ∙ ap (λ b. (if b then leave w no else admitted w path arg r s) one_more) below
      ∙ ap
        (λ b.
          (if b then leave w no else (answered other (headers_of w arg) >>= λ h.
            run_curl w url h r s.uri))
            one_more)
        url_there
      ∙ ap (λ o. (answered other o >>= λ h. run_curl w url h r s.uri) one_more) json
      ∙ ap (λ b. (if b then leave w no else leave w (transferred w r t)) one_more) connected
      ∙ ap (λ n. (record s { concurrency = n }, done (transferred w r t)))
        (dec32-inc32 s.concurrency small)
      ∙ ap (λ b. (s, done (if b then fetched w r t (received w t.parts (some [])) else failed w r t.status)))
        ok
      ∙ ap (λ c. (s, done (fetched w r t c))) (received-concat t.parts [] memory)
    where
      started : (not w.malloc || not (starts_with_slash w path)) ≡ false
      started = ground (arith, found, slash)
      connected : (not (is_empty w s.uri) && not (w.takes_socket s.uri)) ≡ false
      connected = ground (arith, socket)
