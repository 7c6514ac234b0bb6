-- ===== src/Context/Protocol.antt =====
-- What a sink is asked for, whatever a filter calls.
use lswasm.Base.{
  ℕ, ◌≡◌, refl, ap, ◌∙◌, Bool, true, not, Option, none, some, List, [], ◌∷◌, ◌++◌, arith,
}
use lswasm.Base.{if◌then◌else◌, if_cases}
use lswasm.Base.{is_empty}
use lswasm.Base.{Bytes}
use lswasm.HttpUtils.{HeaderPairs}
use lswasm.ResponseSink.{ResponseSink}
use lswasm.Context.{
  LsWasmContext, WasmResult, StreamingResponseState, idle, headers_sent, finished, fresh,
  set_response_sink,
}
use lswasm.Context.Streaming.{
  is_idle, is_headers_sent, send_with, write_with, finish_with, Call, call, run, sends, writes,
  finishes, send_call_cases, write_call_lem, finish_call_lem,
}

-- A call of a sink, with its success.
pub data SinkEvent : Type 0 where
  headers body finish : Bool → SinkEvent

-- A sink that notes the calls made of it.
abbrev pub recording : {S : Type 0} → ResponseSink S → ResponseSink (S × List SinkEvent)
recording k = record {
  send_headers = λ s code hs streaming.
      let (sent, s') = k.send_headers s.0 code hs streaming in
      (sent, (s', s.1 ++ (headers sent ∷ [])));
  write_body = λ s bytes.
      let (written, s') = k.write_body s.0 bytes in (written, (s', s.1 ++ (body written ∷ [])));
  finish_body = λ s. let (done, s') = k.finish_body s.0 in (done, (s', s.1 ++ (finish done ∷ [])));
  has_error = λ s. k.has_error s.0;
}

-- The lifecycle that response_sink.h asks for: headers once, then bodies, then one finish. A call that
-- fails does not advance it.
abbrev pub advance : StreamingResponseState → SinkEvent → Option StreamingResponseState
advance idle (headers sent) = if sent then some headers_sent else some idle
advance idle (body written) = none
advance idle (finish done) = none
advance headers_sent (headers sent) = none
advance headers_sent (body written) = some headers_sent
advance headers_sent (finish done) = if done then some finished else some headers_sent
advance finished e = none

abbrev pub advance_from : Option StreamingResponseState → SinkEvent → Option StreamingResponseState
advance_from none e = none
advance_from (some t) e = advance t e

abbrev pub follow : Option StreamingResponseState → List SinkEvent → Option StreamingResponseState
follow t [] = t
follow t (e ∷ es) = follow (advance_from t e) es

follow-append :
    (t : Option StreamingResponseState) (es : List SinkEvent) (e : SinkEvent)
    → follow t (es ++ (e ∷ [])) ≡ advance_from (follow t es) e
follow-append t [] e = refl
follow-append t (f ∷ es) e = follow-append (advance_from t f) es e

module _ {S : Type 0} where
  -- The calls noted so far follow the lifecycle, up to the state that the context holds.
  abbrev pub IsFollowing : LsWasmContext (S × List SinkEvent) → Type 0
  IsFollowing c =
      (s : S × List SinkEvent) × (c.sink ≡ some s)
      × (follow (some idle) s.1 ≡ some c.streaming_state)

module _ {S : Type 0} (k : ResponseSink S) (c : LsWasmContext (S × List SinkEvent))
    (s : S × List SinkEvent) (has_sink : c.sink ≡ some s)
    (followed : follow (some idle) s.1 ≡ some c.streaming_state) where
  -- One more call of the sink, which takes the lifecycle from here to `t`.
  extended :
      (s' : S) (e : SinkEvent) (t : StreamingResponseState)
      → advance c.streaming_state e ≡ some t
      → IsFollowing (record c { sink = some (s', s.1 ++ (e ∷ [])); streaming_state = t })
  extended s' e t h = (
    (s', s.1 ++ (e ∷ [])),
    refl,
    follow-append (some idle) s.1 e ∙ (ap (λ o. advance_from o e) followed ∙ h),
  )

  unchanged : IsFollowing c
  unchanged = (s, has_sink, followed)

  send_with-IsFollowing :
      (code : ℕ) (hs : HeaderPairs) → IsFollowing (send_with (recording k) c s code hs).1
  unfolding send_with
  send_with-IsFollowing code hs =
      let P = λ (p : WasmResult × LsWasmContext (S × List SinkEvent)). IsFollowing p.1 in
      let r = k.send_headers s.0 code hs true in
      if_cases P (not (is_idle c.streaming_state)) _ _ (λ _. unchanged)
        λ at_idle.
          let e : c.streaming_state ≡ idle = ground arith in
          if_cases P (not r.0) _ _
            (λ failed. extended r.1 (headers r.0) c.streaming_state (ground arith))
            (λ sent. extended r.1 (headers r.0) headers_sent (ground arith))

  write_with-IsFollowing : (bytes : Bytes) → IsFollowing (write_with (recording k) c s bytes).1
  unfolding write_with
  write_with-IsFollowing bytes =
      let P = λ (p : WasmResult × LsWasmContext (S × List SinkEvent)). IsFollowing p.1 in
      let r = k.write_body s.0 bytes in
      if_cases P (not (is_headers_sent c.streaming_state)) _ _ (λ _. unchanged)
        λ open'.
          let e : c.streaming_state ≡ headers_sent = ground arith in
          let next = extended r.1 (body r.0) c.streaming_state (ground arith) in
          if_cases P (is_empty bytes) _ _ (λ _. unchanged)
            λ some_bytes. if_cases P (not r.0) _ _ (λ failed. next) (λ written. next)

  finish_with-IsFollowing : IsFollowing (finish_with (recording k) c s).1
  unfolding finish_with
  finish_with-IsFollowing =
      let P = λ (p : WasmResult × LsWasmContext (S × List SinkEvent)). IsFollowing p.1 in
      let r = k.finish_body s.0 in
      if_cases P (not (is_headers_sent c.streaming_state)) _ _ (λ _. unchanged)
        λ open'.
          let e : c.streaming_state ≡ headers_sent = ground arith in
          if_cases P (not r.0) _ _
            (λ failed. extended r.1 (finish r.0) c.streaming_state (ground arith))
            (λ done. extended r.1 (finish r.0) finished (ground arith))

  call-IsFollowing : (x : Call) → IsFollowing (call (recording k) c x).1
  call-IsFollowing (sends argument) =
      send_call_cases (recording k) c s has_sink (λ p. IsFollowing p.1) unchanged
        send_with-IsFollowing argument
  call-IsFollowing (writes bytes) =
      rw (write_call_lem (recording k) c s has_sink bytes) (write_with-IsFollowing bytes)
  call-IsFollowing (finishes argument) =
      rw (finish_call_lem (recording k) c s has_sink argument) finish_with-IsFollowing

run-IsFollowing :
    {S : Type 0} (k : ResponseSink S) (c : LsWasmContext (S × List SinkEvent)) (xs : List Call)
    → IsFollowing c
    → IsFollowing (run (recording k) c xs)
unfolding run
run-IsFollowing k c [] f = f
run-IsFollowing k c (x ∷ xs) f =
    run-IsFollowing k (call (recording k) c x).1 xs (call-IsFollowing k c f.0 f.1 f.2 x)

-- Whatever a filter calls, with whatever arguments and in whatever order, and whatever the sink
-- answers: the calls that reach the sink follow its lifecycle (headers until they succeed once, then
-- bodies, then finishes until one succeeds, then nothing), and the context's state says where it is.
pub run_protocol :
    {S : Type 0} (k : ResponseSink S) (sink : S) (xs : List Call)
    → IsFollowing (run (recording k) (set_response_sink fresh (some (sink, []))) xs)
unfolding set_response_sink fresh
run_protocol k sink xs = run-IsFollowing k _ xs ((sink, []), refl, refl)
