-- ===== src/Context/Sinks.antt =====
-- The streaming calls of a filter over sinks that do what they are asked for.
use lswasm.Base.{ℕ, Bool, ◌≡◌, inl, inr, true, false, Option, none, some, arith}
use lswasm.Base.{if◌then◌else◌}
use lswasm.Base.{is_empty, any_of}
use lswasm.Base.{Bytes}
use lswasm.HttpUtils.{HeaderPairs}
use lswasm.ResponseSink.{ResponseSink}
use lswasm.ResponseSink.Http.{HttpResponseSink}
use lswasm.ResponseSink.Http as Http
use lswasm.ResponseSink.Lsapi.{LsapiCalls, LsapiResponseSink}
use lswasm.ResponseSink.Lsapi as Lsapi
use lswasm.ResponseSink.Headers.{is_conflict, Streams, send_headers_streaming}
use lswasm.Context.{LsWasmContext, ok, bad_argument, headers_sent, finished}
use lswasm.Context.Streaming.{send_with, write_with, finish_with, is_idle, is_headers_sent}

-- The three calls over a sink that does what it is asked for.
module _ {S : Type 0} (k : ResponseSink S) (c : LsWasmContext S) (s : S) where
  pub send_with_works :
      (code : ℕ) (hs : HeaderPairs)
      → (is_idle c.streaming_state ≡ true → (k.send_headers s code hs true).0 ≡ true)
      → send_with k c s code hs ≡ (
          if is_idle c.streaming_state
          then (
            ok,
            record c {
              sink = some (k.send_headers s code hs true).1;
              streaming_state = headers_sent;
            },
          )
          else (bad_argument, c))
  unfolding send_with
  send_with_works code hs works = ground arith

  pub write_with_works :
      (bytes : Bytes)
      → (is_headers_sent c.streaming_state ≡ true
          → is_empty bytes ≡ false
          → (k.write_body s bytes).0 ≡ true)
      → write_with k c s bytes ≡ (
          if is_headers_sent c.streaming_state
          then (if is_empty bytes
              then (ok, c)
              else (ok, record c { sink = some (k.write_body s bytes).1 }))
          else (bad_argument, c))
  unfolding write_with
  write_with_works bytes works = ground arith

  pub finish_with_works :
      (is_headers_sent c.streaming_state ≡ true → (k.finish_body s).0 ≡ true)
      → finish_with k c s ≡ (
          if is_headers_sent c.streaming_state
          then (ok, record c { sink = some (k.finish_body s).1; streaming_state = finished })
          else (bad_argument, c))
  unfolding finish_with
  finish_with_works works = ground arith

-- What the sink is after a call that the state allows.
module _ {S : Type 0} (k : ResponseSink S) (c : LsWasmContext S) (s : S) where
  pub send_with_leaves :
      (code : ℕ) (hs : HeaderPairs)
      → is_idle c.streaming_state ≡ true
      → (send_with k c s code hs).1.sink ≡ some (k.send_headers s code hs true).1
  unfolding send_with
  send_with_leaves code hs e = ground (arith, e)

  pub write_with_leaves :
      (bytes : Bytes)
      → is_headers_sent c.streaming_state ≡ true
      → is_empty bytes ≡ false
      → (write_with k c s bytes).1.sink ≡ some (k.write_body s bytes).1
  unfolding write_with
  write_with_leaves bytes e f = ground (arith, e, f)

  pub finish_with_leaves :
      is_headers_sent c.streaming_state ≡ true
      → (finish_with k c s).1.sink ≡ some (k.finish_body s).1
  unfolding finish_with
  finish_with_leaves e = ground (arith, e)

-- The HTTP sink can go on.
pub record IsUsable (s : HttpResponseSink) : Type 0 where
  pub connected : s.conn ≡ true
  pub well : s.error ≡ false

pub http_works :
    (s : HttpResponseSink) (bytes : Bytes)
    → IsUsable s
    → ((Http.write_body s bytes).0 ≡ true)
      × IsUsable (Http.write_body s bytes).1
      × ((Http.finish_body s).0 ≡ true)
      × IsUsable (Http.finish_body s).1
unfolding Http.write_body Http.finish_body
http_works s bytes v = ground arith

pub http_sends :
    (s : HttpResponseSink) (code : ℕ) (hs : HeaderPairs)
    → IsUsable s
    → any_of is_conflict hs ≡ false
    → ((Http.send_headers s code hs true).0 ≡ true) × IsUsable (Http.send_headers s code hs true).1
http_sends s code hs v agreed = go (send_headers_streaming s code hs v.connected)
  where
    go :
        Streams s code hs (Http.send_headers s code hs true)
        → ((Http.send_headers s code hs true).0 ≡ true)
          × IsUsable (Http.send_headers s code hs true).1
    go (inl (refused, conflict, after)) = absurd (ground (arith, agreed, conflict))
    go (inr (sent, done, fine, after, only, same)) =
        (done, ground (arith, after, v.connected, v.well))

-- So can the LSAPI sink.
abbrev pub has_request : {R : Type 0} → Option R → Bool
has_request none = false
has_request (some r) = true

pub record IsReady {R : Type 0} (t : LsapiResponseSink R) : Type 0 where
  pub request : has_request t.req ≡ true
  pub fine : t.error ≡ false

-- A call that leaves no error has done what it was asked for, and a call keeps an error.
module _ {R : Type 0} (lsapi : LsapiCalls R) (t : LsapiResponseSink R) where
  abbrev pub HasWorked : Bool × LsapiResponseSink R → Type 0
  HasWorked p = (p.0 ≡ true) × IsReady (p.1)

  pub lsapi_writes :
      (bytes : Bytes)
      → IsReady t
      → (Lsapi.write_body lsapi t bytes).1.error ≡ false
      → HasWorked (Lsapi.write_body lsapi t bytes)
  unfolding Lsapi.write_body
  lsapi_writes bytes v e = ground (arith, e)

  pub lsapi_finishes :
      IsReady t
      → (Lsapi.finish_body lsapi t).1.error ≡ false
      → HasWorked (Lsapi.finish_body lsapi t)
  unfolding Lsapi.finish_body
  lsapi_finishes v e = ground (arith, e)

  pub lsapi_sends :
      (code : ℕ) (hs : HeaderPairs)
      → IsReady t
      → (Lsapi.send_headers lsapi t code hs true).1.error ≡ false
      → HasWorked (Lsapi.send_headers lsapi t code hs true)
  unfolding Lsapi.send_headers
  lsapi_sends code hs v e = ground (arith, e)

  pub lsapi_latches :
      (code : ℕ) (hs : HeaderPairs) (bytes : Bytes)
      → t.error ≡ true
      → ((Lsapi.send_headers lsapi t code hs true).1.error ≡ true)
        × ((Lsapi.write_body lsapi t bytes).1.error ≡ true)
        × ((Lsapi.finish_body lsapi t).1.error ≡ true)
  unfolding Lsapi.send_headers Lsapi.write_body Lsapi.finish_body
  lsapi_latches code hs bytes e = ground (arith, e)
