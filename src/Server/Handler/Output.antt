-- ===== src/Server/Handler/Output.antt =====
-- What `handle_request` writes where the filters do not stream.
use lswasm.Server.Diagnosis.{Diagnosis}
use lswasm.Base.{
  ℕ, ◌≡◌, refl, sym, ap, subst, ◌∙◌, ◌⊎◌, inl, inr, Bool, true, false, not, Option, none, some,
  List, [], ◌∷◌, ◌++◌, append-nil, append_assoc, arith,
}
use lswasm.Base.{ltb, if◌then◌else◌, if_cases}
use lswasm.Base.{Bytes}
use lswasm.HttpUtils.{serialize_headers}
use lswasm.ConnectionIo.{BodyReadResult, ConnectionIo}
use lswasm.ResponseSink.Http.{HttpResponseSink, write_data, init}
use lswasm.HttpFilter.{HttpData, ProxyWasm, any_streaming, request_headers_phase}
use lswasm.HttpFilter.Phases.{request_trailers_phase}
use lswasm.Server.Request.{parse_request}
use lswasm.Server.Response.{build_local_response, local_headers, final_headers, chunked_pieces}
use lswasm.Server.Response.Sizes.{concat, Announces, responses-Announces, chunked_pieces-IsCut}
use lswasm.Server.Handler.Outcome.{say_frame, say_all_frame}
use lswasm.Server.Handler.{
  Filter, Ending, finishes, fails, say, say_all, is_answered, answer, respond, after_response,
  response_phases, after_body, stream_body, after_headers, handle_request, no_data, open_filter,
}
use lswasm.Server.Handler.Silence.{
  IsQuiet, IsSilent, any_streaming-IsSilent, request_trailers_phase-IsSilent,
  response_phases-IsSilent,
}
use lswasm.Server.Handler.Silence.Request.{
  SilentIfAny, stream_body-IsSilent, request_headers_phase-IsSilent,
}

-- What was written, piece by piece, is `text`.
abbrev pub Wrote : Filter → Bytes → Type 0
Wrote f text = (s : HttpResponseSink) × (f.sink ≡ some s) × (concat s.writes ≡ text)

say_all_writes :
    (ps : List Bytes) (f : Filter) (s : HttpResponseSink)
    → f.sink ≡ some s
    → (say_all f ps).sink ≡ some (record s { writes = s.writes ++ ps })
unfolding say_all
say_all_writes [] f s e = e ∙ ap (λ t. some (record s { writes = t })) (sym (append-nil s.writes))
say_all_writes (p ∷ ps) f s e =
    let s' = write_data s p in
    let said : (say f p).sink ≡ some s' = rw e refl in
    say_all_writes ps (say f p) s' said
    ∙ ap (λ t. some (record s { writes = t })) (append_assoc s.writes (p ∷ []) ps)

concat-append : (xs ys : List Bytes) → concat (xs ++ ys) ≡ concat xs ++ concat ys
concat-append [] ys = refl
concat-append (x ∷ xs) ys = rw (concat-append xs ys) (sym (append_assoc x (concat xs) (concat ys)))

-- One whole response, to which nothing is added: a local response of the filters, or the handler's own.
-- Each has exactly one Content-Length, and it is the length of the body.
abbrev pub AnsweredBy : HttpData → Filter → Type 0
AnsweredBy d f =
    ((d.has_local_response ≡ true)
      × Wrote f (serialize_headers d.local_response_code (local_headers d) ++ d.local_response_body)
      × Announces (local_headers d) d.local_response_body)
    ⊎ ((d.has_local_response ≡ false)
        × Wrote f (serialize_headers 200 d.response_headers ++ d.response_body)
        × Announces d.response_headers d.response_body)

abbrev pub IsAnswered : Filter → Type 0
IsAnswered f = AnsweredBy f.http_data f

-- A text that is written in pieces, after what was written before.
pub say_all-Wrote :
    (f : Filter) (s : HttpResponseSink) (text : Bytes)
    → f.sink ≡ some s
    → Wrote (say_all f (chunked_pieces text)) (concat s.writes ++ text)
say_all-Wrote f s text e = (
  record s { writes = s.writes ++ chunked_pieces text },
  say_all_writes (chunked_pieces text) f s e,
  concat-append s.writes (chunked_pieces text)
      ∙ ap (λ t. concat s.writes ++ t) (chunked_pieces-IsCut text).whole,
)

pub local_text :
    (d : HttpData)
    → build_local_response d
      ≡ serialize_headers d.local_response_code (local_headers d) ++ d.local_response_body
unfolding build_local_response
local_text d = refl

pub answer_lem :
    (f : Filter)
    → answer f ≡ (finishes, say_all f (chunked_pieces (build_local_response f.http_data)))
unfolding answer
answer_lem f = refl

answer-IsAnswered : (f : Filter) → is_answered f ≡ true → IsSilent f → IsAnswered (answer f).1
answer-IsAnswered f a v =
    let d = f.http_data in
    let text = build_local_response d in
    let g = say_all f (chunked_pieces text) in
    let wrote : Wrote g text = unfold init in say_all-Wrote f (init true) text v.unwritten in
    rw (answer_lem f) (
      subst (λ e. AnsweredBy e g) (sym (say_all_frame f (chunked_pieces text)).1)
        (inl (a, (wrote.0, wrote.1, wrote.2 ∙ local_text d), (responses-Announces d).0)))

respond-IsAnswered : (f : Filter) → is_answered f ≡ false → IsSilent f → IsAnswered (respond f).1
unfolding respond
respond-IsAnswered f a v =
    let hdrs = final_headers f.http_data in
    let d = record f.http_data { response_headers = hdrs } in
    let block = serialize_headers 200 hdrs in
    let f₁ = say (record f { http_data = d }) block in
    let said : f₁.sink ≡ some (write_data (init true) block) = rw v.unwritten refl in
    let g = say_all f₁ (chunked_pieces d.response_body) in
    let wrote = say_all-Wrote f₁ (write_data (init true) block) d.response_body said in
    let text : concat (write_data (init true) block).writes ≡ block =
      unfold init in append-nil block in
    subst (λ e. AnsweredBy e g)
      (sym (
        (say_all_frame f₁ (chunked_pieces d.response_body)).1
        ∙ (say_frame (record f { http_data = d }) block).1))
      (inr (
        a,
        (wrote.0, wrote.1, wrote.2 ∙ ap (λ t. t ++ d.response_body) text),
        (responses-Announces f.http_data).1,
      ))

-- A request that ends by finish has been answered.
abbrev pub AnsweredIf : Ending × Filter → Type 0
AnsweredIf (e, f) = e ≡ finishes → IsAnswered f

abbrev AnsweredIfAny : Option (Ending × Filter) → Type 0
AnsweredIfAny none = Unit
AnsweredIfAny (some o) = AnsweredIf o

after_response-AnsweredIf : (f : Filter) → IsSilent f → AnsweredIf (after_response f)
unfolding after_response
after_response-AnsweredIf f v =
    let quiet = any_streaming-IsSilent f v in
    if_cases AnsweredIf (is_answered f) _ _
      (λ a.
        if_cases AnsweredIf (any_streaming f) _ _ (λ s e. absurd (ground (arith, quiet, s)))
          (λ _ _. answer-IsAnswered f a v))
      (λ a.
        if_cases AnsweredIf (any_streaming f) _ _ (λ s e. absurd (ground (arith, quiet, s)))
          (λ _ _. respond-IsAnswered f a v))

module _ (host : ProxyWasm HttpResponseSink) (quiet : IsQuiet host) where
  after_body-AnsweredIf :
      (f : Filter) (pacifier : Option Diagnosis)
      → IsSilent f
      → AnsweredIf (after_body host f pacifier)
  unfolding after_body
  after_body-AnsweredIf f pacifier v =
      let f' = if not (is_answered f) then request_trailers_phase host f else f in
      let v' : IsSilent f' =
        if_cases IsSilent (not (is_answered f)) _ _
          (λ _. request_trailers_phase-IsSilent host quiet f v) (λ _. v) in
      if_cases AnsweredIf (is_answered f') _ _ (λ a _. answer-IsAnswered f' a v')
        (λ _.
          if_cases AnsweredIf (any_streaming f') _ _
            (λ s e. absurd (ground (arith, any_streaming-IsSilent f' v', s)))
            (λ _.
              after_response-AnsweredIf (response_phases host f' pacifier)
                (response_phases-IsSilent host quiet f' pacifier v')))

  after_headers-AnsweredIf :
      (c : ConnectionIo) (reads : List BodyReadResult) (pacifier : Option Diagnosis) (f : Filter)
      → IsSilent f
      → AnsweredIfAny (after_headers host c reads pacifier f)
  unfolding after_headers
  after_headers-AnsweredIf c reads pacifier f v =
      if_cases AnsweredIfAny (is_answered f) _ _ (λ a _. answer-IsAnswered f a v)
        (λ _. go (stream_body host c reads f) (stream_body-IsSilent host quiet c reads f v))
    where
      go :
          (o : Option (Bool × Filter))
          → SilentIfAny host quiet o
          → AnsweredIfAny (elim o [
            | none ↦ none
            | some (ended, g) ↦ if ended then some (after_body host g pacifier) else some (fails, g)
          ])
      go none w = tt
      go (some (true, g)) w = after_body-AnsweredIf g pacifier w
      go (some (false, g)) w = λ e. ground (e, arith)

  handle_request-AnsweredIf :
      (modules : List Bytes) (pacifier : Option Diagnosis) (id : ℕ) (c : ConnectionIo)
      (reads : List BodyReadResult)
      → AnsweredIfAny (handle_request host modules pacifier id c reads)
  unfolding handle_request
  handle_request-AnsweredIf modules pacifier id c reads = go (parse_request c.header_data no_data)
    where
      go :
          (o : Option HttpData)
          → AnsweredIfAny (elim o [
            | none ↦ some (fails, open_filter host id no_data)
            | some d ↦ after_headers host c reads pacifier (
                request_headers_phase host
                  (open_filter host id d)
                  modules
                  (not (ltb 0 c.content_length)))
          ])
      go none = λ e. ground (e, arith)
      go (some d) =
          after_headers-AnsweredIf c reads pacifier _
            (request_headers_phase-IsSilent host quiet id d modules (not (ltb 0 c.content_length)))

  -- Where the filters do not stream, a request that ends by `conn->finish()` has been answered by one
  -- whole response, and nothing else was written: the local response that a filter asked for, or the
  -- response of the handler after the response phases. In both the header block is followed by the
  -- body, and has exactly one Content-Length, which is the length of that body.
  pub IsAnswered-request :
      (modules : List Bytes) (pacifier : Option Diagnosis) (id : ℕ) (c : ConnectionIo)
      (reads : List BodyReadResult) (f : Filter)
      → handle_request host modules pacifier id c reads ≡ some (finishes, f)
      → IsAnswered f
  IsAnswered-request modules pacifier id c reads f e =
      subst AnsweredIfAny e (handle_request-AnsweredIf modules pacifier id c reads) refl
