-- ===== src/Server/Handler/Outcome.antt =====
-- How a request ends.
use lswasm.Server.Diagnosis.{Diagnosis}
use lswasm.Base.{
  ℕ, ◌≡◌, refl, ap, subst, ◌∙◌, ◌⊎◌, inl, inr, Bool, true, false, not, Option, none, some, List, [],
  ◌∷◌, arith,
}
use lswasm.Base.{ltb, if◌then◌else◌, if_cases}
use lswasm.Base.{any_of}
use lswasm.Base.{Bytes}
use lswasm.ConnectionIo.{BodyReadResult, ConnectionIo}
use lswasm.ResponseSink.Http.{HttpResponseSink}
use lswasm.HttpFilter.{HttpData, ProxyWasm, any_streaming, any_finished, request_headers_phase}
use lswasm.HttpFilter.Phases.{request_trailers_phase}
use lswasm.Context.Streaming.{has_streaming_response}
use lswasm.HttpUtils.{serialize_headers}
use lswasm.Server.Request.{parse_request}
use lswasm.Server.Response.{final_headers, chunked_pieces, build_local_response}
use lswasm.Server.Handler.{
  Filter, Ending, finishes, fails, say, say_all, is_answered, answer, end_stream, respond,
  after_response, response_phases, after_body, stream_body, after_headers, handle_request, no_data,
  open_filter,
}

-- Writing changes neither the scopes nor the answer.
pub say_frame :
    (f : Filter) (p : Bytes) → ((say f p).scopes ≡ f.scopes) × ((say f p).http_data ≡ f.http_data)
say_frame f p = ground arith

pub say_all_frame :
    (f : Filter) (ps : List Bytes)
    → ((say_all f ps).scopes ≡ f.scopes) × ((say_all f ps).http_data ≡ f.http_data)
unfolding say_all
say_all_frame f [] = (refl, refl)
say_all_frame f (p ∷ ps) = ground (arith, say_frame f p, say_all_frame (say f p) ps)

-- A response that is complete: there is a local response, no stream, or a stream that has ended.
abbrev pub IsComplete : Ending × Filter → Type 0
IsComplete (e, f) =
    e ≡ finishes → (is_answered f ≡ true) ⊎ ((any_streaming f ≡ false) ⊎ (any_finished f ≡ true))

any_streaming-scopes : (f g : Filter) → f.scopes ≡ g.scopes → any_streaming f ≡ any_streaming g
unfolding any_streaming
any_streaming-scopes f g e = ap (λ l. any_of (λ s. has_streaming_response s.1) l) e

say_all-IsComplete :
    (f g : Filter) (ps : List Bytes)
    → g ≡ say_all f ps
    → (is_answered f ≡ true) ⊎ (any_streaming f ≡ false)
    → IsComplete (finishes, g)
say_all-IsComplete f g ps e (inl h) _ =
    inl (ap is_answered e ∙ (ap (λ d. d.has_local_response) (say_all_frame f ps).1 ∙ h))
say_all-IsComplete f g ps e (inr h) _ =
    inr (
      inl (ap any_streaming e ∙ (any_streaming-scopes (say_all f ps) f (say_all_frame f ps).0 ∙ h)))

answer-IsComplete : (f : Filter) → is_answered f ≡ true → IsComplete (answer f)
unfolding answer
answer-IsComplete f h =
    say_all-IsComplete f _ (chunked_pieces (build_local_response f.http_data)) refl (inl h)

end_stream-IsComplete : (f : Filter) → IsComplete (end_stream f)
unfolding end_stream
end_stream-IsComplete f =
    if_cases IsComplete (not (any_finished f)) _ _ (λ h e. ground (e, arith))
      (λ h _. inr (inr (ground (h, arith))))

respond-IsComplete : (f : Filter) → any_streaming f ≡ false → IsComplete (respond f)
unfolding respond
respond-IsComplete f h =
    let d = record f.http_data { response_headers = final_headers f.http_data } in
    let f₀ : Filter = record f { http_data = d } in
    let f₁ = say f₀ (serialize_headers 200 (final_headers f.http_data)) in
    say_all-IsComplete f₁ _ (chunked_pieces f.http_data.response_body) refl
      (inr (any_streaming-scopes f₁ f (say_frame f₀ _).0 ∙ h))

after_response-IsComplete : (f : Filter) → IsComplete (after_response f)
unfolding after_response
after_response-IsComplete f =
    if_cases IsComplete (is_answered f) _ _
      (λ a.
        if_cases IsComplete (any_streaming f) _ _ (λ _ e. ground (e, arith))
          (λ _. answer-IsComplete f a))
      (λ _.
        if_cases IsComplete (any_streaming f) _ _ (λ _. end_stream-IsComplete f)
          (λ s. respond-IsComplete f s))

-- The same of a worker that may still wait.
abbrev IsCompleteIfAny : Option (Ending × Filter) → Type 0
IsCompleteIfAny none = Unit
IsCompleteIfAny (some o) = IsComplete o

module _ (host : ProxyWasm HttpResponseSink) where
  after_body-IsComplete :
      (f : Filter) (pacifier : Option Diagnosis) → IsComplete (after_body host f pacifier)
  unfolding after_body
  after_body-IsComplete f pacifier =
      let f' = if not (is_answered f) then request_trailers_phase host f else f in
      if_cases IsComplete (is_answered f') _ _ (λ a. answer-IsComplete f' a)
        (λ _.
          if_cases IsComplete (any_streaming f') _ _ (λ _. end_stream-IsComplete f')
            (λ _. after_response-IsComplete (response_phases host f' pacifier)))

  after_headers-IsComplete :
      (c : ConnectionIo) (reads : List BodyReadResult) (pacifier : Option Diagnosis) (f : Filter)
      → IsCompleteIfAny (after_headers host c reads pacifier f)
  unfolding after_headers
  after_headers-IsComplete c reads pacifier f =
      if_cases IsCompleteIfAny (is_answered f) _ _ (λ a. answer-IsComplete f a)
        (λ _. go (stream_body host c reads f))
    where
      go :
          (o : Option (Bool × Filter))
          → IsCompleteIfAny (elim o [
            | none ↦ none
            | some (ended, g) ↦ if ended then some (after_body host g pacifier) else some (fails, g)
          ])
      go none = ground arith
      go (some (true, g)) = after_body-IsComplete g pacifier
      go (some (false, g)) = λ e. ground (e, arith)

  handle_request-IsComplete :
      (modules : List Bytes) (pacifier : Option Diagnosis) (id : ℕ) (c : ConnectionIo)
      (reads : List BodyReadResult)
      → IsCompleteIfAny (handle_request host modules pacifier id c reads)
  unfolding handle_request
  handle_request-IsComplete modules pacifier id c reads = go (parse_request c.header_data no_data)
    where
      go :
          (o : Option HttpData)
          → IsCompleteIfAny (elim o [
            | none ↦ some (fails, open_filter host id no_data)
            | some d ↦ after_headers host c reads pacifier (
                request_headers_phase host
                  (open_filter host id d)
                  modules
                  (not (ltb 0 c.content_length)))
          ])
      go none = λ e. ground (e, arith)
      go (some d) = after_headers-IsComplete c reads pacifier _

  -- When the worker ends a request by `conn->finish()`, the filters have sent a local response, or none
  -- of them has started a stream, or one of them has ended its stream: a stream that was left open
  -- is never passed off as a complete response, unless there is a local response too.
  pub finished_request :
      (modules : List Bytes) (pacifier : Option Diagnosis) (id : ℕ) (c : ConnectionIo)
      (reads : List BodyReadResult) (f : Filter)
      → handle_request host modules pacifier id c reads ≡ some (finishes, f)
      → (is_answered f ≡ true) ⊎ ((any_streaming f ≡ false) ⊎ (any_finished f ≡ true))
  finished_request modules pacifier id c reads f e =
      subst IsCompleteIfAny e (handle_request-IsComplete modules pacifier id c reads) refl
