-- ===== src/ResponseSink/Latch.antt =====
-- The two sinks behind the interface, and what both promise about errors.
use lswasm.Base.{ℕ, ◌≡◌, refl, Bool, true, false, Option, none, some, [], arith}
use lswasm.Base.{Bytes}
use lswasm.HttpUtils.{HeaderPairs}
use lswasm.ResponseSink.{ResponseSink}
use lswasm.ResponseSink.Http
use lswasm.ResponseSink.Http.{HttpResponseSink}
use lswasm.ResponseSink.Lsapi
use lswasm.ResponseSink.Lsapi.{LsapiCalls, LsapiResponseSink}

-- `class HttpResponseSink : public ResponseSink`
abbrev pub http_sink : ResponseSink HttpResponseSink
http_sink = record {
  send_headers = Http.send_headers;
  write_body = Http.write_body;
  finish_body = Http.finish_body;
  has_error = Http.has_error;
}

-- `class LsapiResponseSink : public ResponseSink`
abbrev pub lsapi_sink : {R : Type 0} → LsapiCalls R → ResponseSink (LsapiResponseSink R)
lsapi_sink lsapi = record {
  send_headers = Lsapi.send_headers lsapi;
  write_body = Lsapi.write_body lsapi;
  finish_body = Lsapi.finish_body lsapi;
  has_error = Lsapi.has_error;
}

-- An error is final: refused headers record it, no call clears it, and body calls then fail and do
-- nothing.
pub record IsLatching {S : Type 0} (k : ResponseSink S) : Type 0 where
  pub refused :
      (s : S) (code : ℕ) (hs : HeaderPairs) (streaming : Bool)
      → (k.send_headers s code hs streaming).0 ≡ false
      → k.has_error (k.send_headers s code hs streaming).1 ≡ true
  pub kept :
      (s : S) (code : ℕ) (hs : HeaderPairs) (streaming : Bool)
      → k.has_error s ≡ true
      → k.has_error (k.send_headers s code hs streaming).1 ≡ true
  pub silent :
      (s : S) (bytes : Bytes)
      → k.has_error s ≡ true
      → (k.write_body s bytes ≡ (false, s)) × (k.finish_body s ≡ (false, s))

-- The outcome of the header loop does not matter.
send_normalized-Latch :
    (s : HttpResponseSink) (code : ℕ) (o : Option (HeaderPairs × Bool))
    → ((Http.send_normalized s code o).0 ≡ false → (Http.send_normalized s code o).1.error ≡ true)
      × (s.error ≡ true → (Http.send_normalized s code o).1.error ≡ true)
unfolding Http.send_normalized
send_normalized-Latch s code none = (λ _. refl, λ _. refl)
send_normalized-Latch s code (some (hs, saw)) = (λ e. cc, λ e. e)

http_send_headers-Latch :
    (s : HttpResponseSink) (code : ℕ) (hs : HeaderPairs) (streaming : Bool)
    → ((Http.send_headers s code hs streaming).0 ≡ false
        → (Http.send_headers s code hs streaming).1.error ≡ true)
      × (s.error ≡ true → (Http.send_headers s code hs streaming).1.error ≡ true)
unfolding Http.send_headers
http_send_headers-Latch s code hs true =
    ground (
      arith,
      send_normalized-Latch (record s { streaming = true }) code (Http.normalize hs false []),
    )
http_send_headers-Latch s code hs false = ground arith

http_silent :
    (s : HttpResponseSink) (bytes : Bytes)
    → s.error ≡ true
    → (Http.write_body s bytes ≡ (false, s)) × (Http.finish_body s ≡ (false, s))
unfolding Http.write_body Http.finish_body
http_silent s bytes e = ground arith

-- The HTTP sink's errors are final, as `IsLatching` says.
pub http_sink-IsLatching : IsLatching http_sink
unfolding Http.has_error
http_sink-IsLatching = record {
  refused = λ s code hs streaming. (http_send_headers-Latch s code hs streaming).0;
  kept = λ s code hs streaming. (http_send_headers-Latch s code hs streaming).1;
  silent = http_silent;
}

module _ {R : Type 0} (lsapi : LsapiCalls R) where
  lsapi_send_headers-Latch :
      (s : LsapiResponseSink R) (code : ℕ) (hs : HeaderPairs) (streaming : Bool)
      → ((Lsapi.send_headers lsapi s code hs streaming).0 ≡ false
          → (Lsapi.send_headers lsapi s code hs streaming).1.error ≡ true)
        × (s.error ≡ true → (Lsapi.send_headers lsapi s code hs streaming).1.error ≡ true)
  unfolding Lsapi.send_headers
  lsapi_send_headers-Latch s code hs streaming = ground arith

  lsapi_silent :
      (s : LsapiResponseSink R) (bytes : Bytes)
      → s.error ≡ true
      → (Lsapi.write_body lsapi s bytes ≡ (false, s)) × (Lsapi.finish_body lsapi s ≡ (false, s))
  unfolding Lsapi.write_body Lsapi.finish_body
  lsapi_silent s bytes e = ground arith

-- The LSAPI sink's errors are final, as `IsLatching` says, whatever the library's calls do.
pub lsapi_sink-IsLatching : {R : Type 0} (lsapi : LsapiCalls R) → IsLatching (lsapi_sink lsapi)
unfolding Lsapi.has_error
lsapi_sink-IsLatching lsapi = record {
  refused = λ s code hs streaming. (lsapi_send_headers-Latch lsapi s code hs streaming).0;
  kept = λ s code hs streaming. (lsapi_send_headers-Latch lsapi s code hs streaming).1;
  silent = lsapi_silent lsapi;
}
