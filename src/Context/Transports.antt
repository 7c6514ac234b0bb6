-- ===== src/Context/Transports.antt =====
-- The two transports as a filter sees them.
use lswasm.Base.{
  ℕ, ◌≡◌, refl, sym, subst, ◌∙◌, inl, inr, Option, none, ap, ap₂, Bool, true, false, some, List, [],
  ◌∷◌, arith,
}
use lswasm.Base.{ltb, ◌==◌, Bool-cases, Option-cases, if◌then◌else◌}
use lswasm.Base.{length, is_empty, drop, any_of, All}
use lswasm.Base.{Bytes}
use lswasm.HttpUtils.{HeaderPairs}
use lswasm.HttpUtils.Pairs.{u32_at, deserialize_header_pairs}
use lswasm.ResponseSink.{ResponseSink}
use lswasm.ResponseSink.Http.{HttpResponseSink}
use lswasm.ResponseSink.Http as Http
use lswasm.ResponseSink.Lsapi.{LsapiCalls, LsapiResponseSink}
use lswasm.ResponseSink.Lsapi as Lsapi
use lswasm.ResponseSink.Headers.{is_conflict}
use lswasm.ResponseSink.Latch.{http_sink, lsapi_sink}
use lswasm.Context.{LsWasmContext, WasmResult, bad_argument, fresh, set_response_sink}
use lswasm.Context.Streaming.{
  send_call_cases, send_with, write_with, finish_with, Call, sends, writes, finishes, call, run,
  send_response_headers, streaming_send_headers_lem, write_call_lem, finish_call_lem, is_idle,
  is_headers_sent,
}
use lswasm.Context.Written.{Context}
use lswasm.Context.Delivery.{start}
use lswasm.Context.Sinks.{
  send_with_works, write_with_works, finish_with_works, send_with_leaves, write_with_leaves,
  finish_with_leaves, HasWorked, lsapi_latches, IsUsable, http_works, http_sends, IsReady,
  lsapi_writes, lsapi_finishes, lsapi_sends,
}

-- What the calls of a filter return, one after the other.
abbrev pub results : {S : Type 0} → ResponseSink S → LsWasmContext S → List Call → List WasmResult
results k c [] = []
results k c (x ∷ xs) = (call k c x).0 ∷ results k (call k c x).1 xs

-- No headers that are sent ask for a Transfer-Encoding other than chunked.
abbrev pub IsAgreed : Call → Type 0
IsAgreed (sends argument) = any_of is_conflict (deserialize_header_pairs (drop 4 argument)) ≡ false
IsAgreed (writes bytes) = Unit
IsAgreed (finishes argument) = Unit

-- Whether a call of the library has failed: the error that the LSAPI sink keeps.
abbrev pub is_broken : {R : Type 0} → Option (LsapiResponseSink R) → Bool
is_broken none = false
is_broken (some t) = t.error

else_lem : {A : Type 0} (b : Bool) (x y : A) → b ≡ false → (if b then x else y) ≡ y
else_lem true x y e = absurd (ground (arith, e))
else_lem false x y e = refl

call_sends_lem :
    {S : Type 0} (k : ResponseSink S) (c : LsWasmContext S) (argument : Bytes)
    → call k c (sends argument) ≡ send_response_headers k c argument
unfolding call
call_sends_lem k c argument = refl

module _ {R : Type 0} (lsapi : LsapiCalls R) where
  abbrev Other : Type 0
  Other = LsWasmContext (LsapiResponseSink R)

  -- An error stays.
  with_latches :
      (d : Other) (t : LsapiResponseSink R) (code : ℕ) (hs : HeaderPairs) (bytes : Bytes)
      → d.sink ≡ some t
      → t.error ≡ true
      → (is_broken (send_with (lsapi_sink lsapi) d t code hs).1.sink ≡ true)
        × (is_broken (write_with (lsapi_sink lsapi) d t bytes).1.sink ≡ true)
        × (is_broken (finish_with (lsapi_sink lsapi) d t).1.sink ≡ true)
  unfolding send_with write_with finish_with
  with_latches d t code hs bytes e broken =
      ground (arith, e, broken, lsapi_latches lsapi t code hs bytes broken)

  call_latches :
      (d : Other) (x : Call)
      → is_broken d.sink ≡ true
      → is_broken (call (lsapi_sink lsapi) d x).1.sink ≡ true
  call_latches d x broken = elim (Option-cases d.sink) [
    | inl e ↦ absurd (ground (arith, e, broken))
    | inr (t, e) ↦ go t e (ground (arith, e, broken)) x
  ]
    where
      go :
          (t : LsapiResponseSink R)
          → d.sink ≡ some t
          → t.error ≡ true
          → (x : Call) → is_broken (call (lsapi_sink lsapi) d x).1.sink ≡ true
      go t e h (sends argument) =
          send_call_cases (lsapi_sink lsapi) d t e (λ p. is_broken p.1.sink ≡ true) broken
            (λ code hs. (with_latches d t code hs [] e h).0) argument
      go t e h (writes bytes) =
          rw (write_call_lem (lsapi_sink lsapi) d t e bytes) (with_latches d t 0 [] bytes e h).1
      go t e h (finishes argument) =
          rw (finish_call_lem (lsapi_sink lsapi) d t e argument) (with_latches d t 0 [] [] e h).2

  run_latches :
      (d : Other) (xs : List Call)
      → is_broken d.sink ≡ true
      → is_broken (run (lsapi_sink lsapi) d xs).sink ≡ true
  unfolding run
  run_latches d [] broken = broken
  run_latches d (x ∷ xs) broken =
      run_latches (call (lsapi_sink lsapi) d x).1 xs (call_latches d x broken)

  first_unbroken :
      (d : Other) (xs : List Call)
      → is_broken (run (lsapi_sink lsapi) d xs).sink ≡ false
      → is_broken d.sink ≡ false
  first_unbroken d xs fine = elim (Bool-cases (is_broken d.sink)) [
    | inl broken ↦ absurd (ground (arith, fine, run_latches d xs broken))
    | inr whole ↦ whole
  ]

  -- Two contexts, one for each transport, that a filter cannot tell apart.
  record IsTwin (c : Context) (d : Other) : Type 0 where
    s : HttpResponseSink
    t : LsapiResponseSink R
    http : c.sink ≡ some s
    other : d.sink ≡ some t
    usable : IsUsable s
    ready : IsReady t
    state : c.streaming_state ≡ d.streaming_state

  -- Two calls with one result that lead to twins.
  abbrev AreTwins : WasmResult × Context → WasmResult × Other → Type 0
  AreTwins p q = (p.0 ≡ q.0) × IsTwin (p.1) (q.1)

  -- Calls that go ahead in the same states lead to twins.
  branch-AreTwins :
      (c : Context) (d : Other) (test test' : Bool) (p : WasmResult × Context)
      (q : WasmResult × Other)
      → test ≡ test'
      → IsTwin c d
      → (test' ≡ true → AreTwins p q)
      → AreTwins (if test then p else (bad_argument, c)) (if test' then q else (bad_argument, d))
  branch-AreTwins c d true true p q e v w = w refl
  branch-AreTwins c d false false p q e v w = (refl, v)
  branch-AreTwins c d true false p q e v w = ground (e, arith)
  branch-AreTwins c d false true p q e v w = ground (e, arith)

  same-AreTwins :
      (test : Bool) (p p' : WasmResult × Context) (q q' : WasmResult × Other)
      → AreTwins p q
      → (test ≡ false → AreTwins p' q')
      → AreTwins (if test then p else p') (if test then q else q')
  same-AreTwins true p p' q q' v w = v
  same-AreTwins false p p' q q' v w = w refl

  module _ (c : Context) (d : Other) (v : IsTwin c d) where
    send_with-AreTwins :
        (code : ℕ) (hs : HeaderPairs)
        → any_of is_conflict hs ≡ false
        → is_broken (send_with (lsapi_sink lsapi) d v.t code hs).1.sink ≡ false
        → AreTwins (send_with http_sink c v.s code hs) (send_with (lsapi_sink lsapi) d v.t code hs)
    send_with-AreTwins code hs agreed fine =
        let a = http_sends v.s code hs v.usable agreed in
        let left = send_with_leaves (lsapi_sink lsapi) d v.t code hs in
        let b : is_idle d.streaming_state ≡ true
            → HasWorked lsapi v.t (Lsapi.send_headers lsapi v.t code hs true) =
          λ idle. lsapi_sends lsapi v.t code hs v.ready (sym (ap is_broken (left idle)) ∙ fine) in
        rw
          (
            send_with_works http_sink c v.s code hs (λ _. a.0),
            send_with_works (lsapi_sink lsapi) d v.t code hs (λ idle. (b idle).0),
          )
          (branch-AreTwins c d _ _ _ _ (ap is_idle v.state) v (λ idle. (
            refl,
            record {
              s = (Http.send_headers v.s code hs true).1;
              t = (Lsapi.send_headers lsapi v.t code hs true).1;
              http = refl;
              other = refl;
              usable = a.1;
              ready = (b idle).1;
              state = refl;
            },
          )))

    write_with-AreTwins :
        (bytes : Bytes)
        → is_broken (write_with (lsapi_sink lsapi) d v.t bytes).1.sink ≡ false
        → AreTwins (write_with http_sink c v.s bytes) (write_with (lsapi_sink lsapi) d v.t bytes)
    write_with-AreTwins bytes fine =
        let a = http_works v.s bytes v.usable in
        let left = write_with_leaves (lsapi_sink lsapi) d v.t bytes in
        let b : is_headers_sent d.streaming_state ≡ true
            → is_empty bytes ≡ false
            → HasWorked lsapi v.t (Lsapi.write_body lsapi v.t bytes) =
          λ sent some_left.
            lsapi_writes lsapi v.t bytes v.ready
              (sym (ap is_broken (left sent some_left)) ∙ fine) in
        rw
          (
            write_with_works http_sink c v.s bytes (λ _ _. a.0),
            write_with_works (lsapi_sink lsapi) d v.t bytes
                (λ sent some_left. (b sent some_left).0),
          )
          (branch-AreTwins c d _ _ _ _ (ap is_headers_sent v.state) v (λ sent.
            same-AreTwins (is_empty bytes) _ _ _ _ (refl, v)
              λ some_left. (
                refl,
                record {
                  s = (Http.write_body v.s bytes).1;
                  t = (Lsapi.write_body lsapi v.t bytes).1;
                  http = refl;
                  other = refl;
                  usable = a.1;
                  ready = (b sent some_left).1;
                  state = v.state;
                },
              )))

    finish_with-AreTwins :
        is_broken (finish_with (lsapi_sink lsapi) d v.t).1.sink ≡ false
        → AreTwins (finish_with http_sink c v.s) (finish_with (lsapi_sink lsapi) d v.t)
    finish_with-AreTwins fine =
        let a = http_works v.s [] v.usable in
        let left = finish_with_leaves (lsapi_sink lsapi) d v.t in
        let b : is_headers_sent d.streaming_state ≡ true
            → HasWorked lsapi v.t (Lsapi.finish_body lsapi v.t) =
          λ sent. lsapi_finishes lsapi v.t v.ready (sym (ap is_broken (left sent)) ∙ fine) in
        rw
          (
            finish_with_works http_sink c v.s (λ _. a.2),
            finish_with_works (lsapi_sink lsapi) d v.t (λ sent. (b sent).0),
          )
          (branch-AreTwins c d _ _ _ _ (ap is_headers_sent v.state) v (λ sent. (
            refl,
            record {
              s = (Http.finish_body v.s).1;
              t = (Lsapi.finish_body lsapi v.t).1;
              http = refl;
              other = refl;
              usable = a.3;
              ready = (b sent).1;
              state = refl;
            },
          )))

    sends-AreTwins :
        (argument : Bytes)
        → IsAgreed (sends argument)
        → is_broken (send_response_headers (lsapi_sink lsapi) d argument).1.sink ≡ false
        → AreTwins
            (send_response_headers http_sink c argument)
            (send_response_headers (lsapi_sink lsapi) d argument)
    unfolding send_response_headers
    sends-AreTwins argument agreed fine =
        let code = u32_at argument 0 in
        let hs = deserialize_header_pairs (drop 4 argument) in
        let e = streaming_send_headers_lem (lsapi_sink lsapi) d v.t v.other code hs in
        same-AreTwins (length argument == 0) _ _ _ _ (refl, v)
          λ some_left.
            same-AreTwins (ltb (length argument) 4) _ _ _ _ (refl, v)
              λ whole.
                rw (streaming_send_headers_lem http_sink c v.s v.http code hs, e)
                  (send_with-AreTwins code hs agreed (
                    subst (λ p. is_broken p.1.sink ≡ false)
                      (else_lem _ _ _ some_left ∙ (else_lem _ _ _ whole ∙ e)) fine))

    call-AreTwins :
        (x : Call)
        → IsAgreed x
        → is_broken (call (lsapi_sink lsapi) d x).1.sink ≡ false
        → AreTwins (call http_sink c x) (call (lsapi_sink lsapi) d x)
    call-AreTwins (sends argument) agreed fine =
        let e = call_sends_lem (lsapi_sink lsapi) d argument in
        rw (call_sends_lem http_sink c argument, e)
          (sends-AreTwins argument agreed (subst (λ p. is_broken p.1.sink ≡ false) e fine))
    call-AreTwins (writes bytes) agreed fine =
        let e = write_call_lem (lsapi_sink lsapi) d v.t v.other bytes in
        rw (write_call_lem http_sink c v.s v.http bytes, e)
          (write_with-AreTwins bytes (subst (λ p. is_broken p.1.sink ≡ false) e fine))
    call-AreTwins (finishes argument) agreed fine =
        let e = finish_call_lem (lsapi_sink lsapi) d v.t v.other argument in
        rw (finish_call_lem http_sink c v.s v.http argument, e)
          (finish_with-AreTwins (subst (λ p. is_broken p.1.sink ≡ false) e fine))

  results-AreTwins :
      (c : Context) (d : Other) (xs : List Call)
      → IsTwin c d
      → All IsAgreed xs
      → is_broken (run (lsapi_sink lsapi) d xs).sink ≡ false
      → (results http_sink c xs ≡ results (lsapi_sink lsapi) d xs)
        × ((run http_sink c xs).streaming_state ≡ (run (lsapi_sink lsapi) d xs).streaming_state)
  unfolding run
  results-AreTwins c d [] v agreed fine = (refl, v.state)
  results-AreTwins c d (x ∷ xs) v agreed fine =
      let d' = (call (lsapi_sink lsapi) d x).1 in
      let w = call-AreTwins c d v x agreed.0 (first_unbroken d' xs fine) in
      let rest = results-AreTwins (call http_sink c x).1 d' xs w.1 agreed.1 fine in
      (ap₂ ◌∷◌ w.0 rest.0, rest.1)

  -- The request that the LSAPI sink of a new context serves.
  abbrev pub start_lsapi : R → Other
  start_lsapi r = set_response_sink fresh (some (record { req = some r; error = false }))

  -- Over HTTP and over LSAPI a filter gets the same results from the same calls, whatever they are and
  -- in whatever order, and its response is in the same state in the end. The conditions: no call of the
  -- LSAPI library failed, which the sink would still know in the end, and no Transfer-Encoding other
  -- than chunked is sent, which one transport refuses and the other passes over.
  pub transports_agree :
      (r : R) (xs : List Call)
      → All IsAgreed xs
      → is_broken (run (lsapi_sink lsapi) (start_lsapi r) xs).sink ≡ false
      → (results http_sink start xs ≡ results (lsapi_sink lsapi) (start_lsapi r) xs)
        × ((run http_sink start xs).streaming_state
            ≡ (run (lsapi_sink lsapi) (start_lsapi r) xs).streaming_state)
  unfolding set_response_sink fresh Http.init
  transports_agree r xs agreed fine =
      results-AreTwins start (start_lsapi r) xs
        (record {
          s = Http.init true;
          t = record { req = some r; error = false };
          http = refl;
          other = refl;
          usable = record { connected = refl; well = refl };
          ready = record { request = refl; fine = refl };
          state = refl;
        })
        agreed fine
