-- ===== src/Server/Lsapi/Outcome.antt =====
-- How a request over LSAPI ends.
use lswasm.Base.{ℕ, ◌-◌, ◌<◌, ◌≡◌, true, false, Option, none, some, List, [], ◌∷◌, ◌++◌}
use lswasm.Base.{length}
use lswasm.Base.{Bytes, codes}
use lswasm.Base.{numeral}
use lswasm.Server.Lsapi.Sent.{HasGot}
use lswasm.HttpFilter.{HttpFilterContext, any_streaming, any_finished}
use lswasm.HttpUtils.{HeaderPairs}
use lswasm.ResponseSink.Lsapi.{LsapiCalls, LsapiResponseSink}
use lswasm.Server.Lsapi.{
  LsapiEnding, answered, streamed, responded, read_failed, unfinished, late_answer,
}

-- The headers of a response end with the length of its body.
abbrev pub HasLength : HeaderPairs → Bytes → Type 0
HasLength headers body =
    (hs : HeaderPairs) × (headers ≡ hs ++ ((codes "Content-Length", numeral 10 (length body)) ∷ []))

-- What is so at each of the returns, where no read fails, and what the library has got from the handler.
abbrev pub Explains :
    {R : Type 0} → LsapiCalls R → LsapiEnding × HttpFilterContext (LsapiResponseSink R) → Type 0
Explains lsapi (answered, f) =
    (f.http_data.has_local_response ≡ true)
    × HasGot lsapi f.sink f.http_data.local_response_code
        f.http_data.local_response_additional_headers f.http_data.local_response_body
Explains lsapi (streamed, f) = (any_streaming f ≡ true) × (any_finished f ≡ true)
Explains lsapi (responded, f) =
    (any_streaming f ≡ false)
    × (f.http_data.has_local_response ≡ false)
    × HasLength f.http_data.response_headers f.http_data.response_body
    × HasGot lsapi f.sink 200 f.http_data.response_headers f.http_data.response_body
Explains lsapi (read_failed, f) = ⊥
Explains lsapi (unfinished, f) = (any_streaming f ≡ true) × (any_finished f ≡ false)
Explains lsapi (late_answer, f) = (any_streaming f ≡ true) × (f.http_data.has_local_response ≡ true)

-- The results of reads that all give bytes, and as many as `n` in all.
abbrev pub Supplies : ℕ → List (Option Bytes) → Type 0
Supplies n [] = n ≡ 0
Supplies n (none ∷ rs) = n ≡ 0
Supplies n (some bytes ∷ rs) = (0 < length bytes) × Supplies (n - length bytes) rs
