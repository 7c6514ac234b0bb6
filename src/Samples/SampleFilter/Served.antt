-- ===== src/Samples/SampleFilter/Served.antt =====
-- A request that sample_filter answers, from its text to the last byte of the response.
use lswasm.Server.Diagnosis.{Diagnosis}
use lswasm.Base.{
  ℕ, ◌≡◌, refl, sym, ap, subst, ◌∙◌, Bool, true, not, Option, none, some, List, [], ◌∷◌, ◌++◌,
}
use lswasm.Base.{ltb, ==_iff, if_cases}
use lswasm.Base.{length}
use lswasm.Base.{Bytes, codes}
use lswasm.Base.{numeral}
use lswasm.HttpUtils.{HeaderPairs, serialize_headers}
use lswasm.ConnectionIo.{BodyReadResult, ConnectionIo}
use lswasm.ResponseSink.Http.{HttpResponseSink, init}
use lswasm.ResponseSink.Latch.{http_sink}
use lswasm.Context.{
  WasmResult, send_local_response, set_response_sink, reset_local_response, reset_header_maps,
}
use lswasm.Context.HeaderMaps.{map_of, get_header_map_owned, pairs_in-assign, set_header_map}
use lswasm.Context.Host.{HostSide}
use lswasm.Context.Written.{Context}
use lswasm.HttpFilter.{
  HttpData, ProxyWasm, on_request_headers, on_request_body, on_response_headers,
  synthesize_pseudo_headers, request_headers_phase, start_modules, start_module, stop_or,
  init_scope, check_local_response,
}
use lswasm.Server.Request.{parse_request}
use lswasm.Server.Response.{build_local_response, local_headers, merge_headers, chunked_pieces}
use lswasm.Server.Handler.{
  Filter, Ending, finishes, fails, is_answered, answer, say_all, after_headers, handle_request,
  open_filter, no_data,
}
use lswasm.Server.Handler.Output.{Wrote, answer_lem, say_all-Wrote}
use lswasm.Samples.{FilterApi}
use lswasm.Samples.Lawful.{IsLawful}
use lswasm.Samples.SampleFilter
use lswasm.Samples.SampleFilter.{build_environ_body, build_header_body}

-- What the filter answers to these headers.
abbrev pub sample_body : FilterApi Context → HeaderPairs → Bytes
sample_body api hs = build_environ_body api.environ ++ build_header_body hs

-- The response with that body: its headers and its text.
abbrev pub sample_response : Bytes → Bytes
sample_response body =
    serialize_headers 200 (
      (codes "Content-Type", codes "text/plain")
      ∷ (codes "X-Powered-By", codes "lswasm/proxy-wasm")
      ∷ (codes "Connection", codes "close")
      ∷ (codes "Content-Length", numeral 10 (length body))
      ∷ [])
    ++ body

-- A host whose modules are all this filter.
abbrev pub sample_host :
    ℕ → ℕ → (Bytes → Option Context) → FilterApi Context → ProxyWasm HttpResponseSink
sample_host request_type response_type contexts api = record {
  request_type = request_type;
  response_type = response_type;
  stream_context = contexts;
  invoke = λ m callback c. elim callback [
    | on_request_headers eos ↦ (SampleFilter.on_request_headers api c).1
    | on_request_body n eos ↦ (SampleFilter.on_request_body api c).1
    | on_response_headers eos ↦ (SampleFilter.on_response_headers api c).1
    | _ ↦ c
  ];
}

-- The request headers are those of the map that the host sets.
abbrev pub Lists : ℕ → FilterApi Context → Type 0
Lists request_type api = (c : Context) → api.request_header_pairs c ≡ map_of c request_type

module _ (request_type response_type : ℕ) (contexts : Bytes → Option Context) (h : HostSide)
    (api : FilterApi Context) (law : IsLawful http_sink h api) (lists : Lists request_type api)
    (m : Bytes) (c₀ : Context) (context : contexts m ≡ some c₀) where
  abbrev host : ProxyWasm HttpResponseSink
  host = sample_host request_type response_type contexts api

  map_of-set :
      (c : Context) (hs : HeaderPairs) → map_of (set_header_map c request_type hs) request_type ≡ hs
  unfolding set_header_map
  map_of-set c hs =
      pairs_in-assign request_type request_type hs c.header_maps
      ∙ rw ((==_iff request_type request_type).1 refl) refl

  -- The context of the module as its callback finds it, and after it.
  abbrev found : Filter → Context
  found f =
      set_header_map (set_response_sink (reset_header_maps (reset_local_response c₀)) f.sink)
        request_type f.http_data.request_headers

  answered :
      (c : Context)
      → (SampleFilter.on_request_headers api c).1
        ≡ (send_local_response c 200 (sample_body api (api.request_header_pairs c)) [] []).1
  unfolding SampleFilter.on_request_headers
  answered c =
      ap (λ (p : WasmResult × Context). p.1)
        (law.answered c 200 [] (sample_body api (api.request_header_pairs c)) [])

  init_lem : init_scope host m ≡ some (reset_header_maps (reset_local_response c₀))
  unfolding init_scope
  init_lem = rw context refl

  -- A context that asks for the local response.
  local_lem :
      (c : Context) (d : HttpData) (body : Bytes)
      → let e = check_local_response (send_local_response c 200 body [] []).1 d in
        (e.has_local_response ≡ true) × (build_local_response e ≡ sample_response body)
  unfolding check_local_response send_local_response build_local_response local_headers
      merge_headers
  local_lem c d body = (refl, refl)

  -- The filter has asked for its response.
  abbrev Asks : Filter → Bytes → Type 0
  Asks g body =
      (g.sink ≡ some (init true))
      × (is_answered g ≡ true)
      × (build_local_response g.http_data ≡ sample_response body)

  started :
      (f : Filter) (eos : Bool)
      → f.sink ≡ some (init true)
      → Asks
          (start_module host f m (reset_header_maps (reset_local_response c₀)) eos)
          (sample_body api f.http_data.request_headers)
  unfolding start_module set_response_sink set_header_map send_local_response
  started f eos e =
      let body = sample_body api (api.request_header_pairs (found f)) in
      let d = λ (c : Context). record f.http_data {
        request_headers = get_header_map_owned c request_type;
      } in
      let asked = (send_local_response (found f) 200 body [] []).1 in
      let l = local_lem (found f) (d asked) body in
      let given : body ≡ sample_body api f.http_data.request_headers = ap (sample_body api) (
        lists (found f)
        ∙ map_of-set (set_response_sink (reset_header_maps (reset_local_response c₀)) f.sink)
            f.http_data.request_headers) in
      subst
        (λ (x : Context).
          (x.sink ≡ some (init true))
          × ((check_local_response x (d x)).has_local_response ≡ true)
          × (build_local_response (check_local_response x (d x))
              ≡ sample_response (sample_body api f.http_data.request_headers)))
        (sym (answered (found f))) (e, l.0, l.1 ∙ ap sample_response given)

  -- The chain of the one module.
  passed :
      (f : Filter) (eos : Bool)
      → f.sink ≡ some (init true)
      → Asks (start_modules host f (m ∷ []) eos) (sample_body api f.http_data.request_headers)
  unfolding start_modules stop_or
  passed f eos e =
      let g = start_module host f m (reset_header_maps (reset_local_response c₀)) eos in
      let P = λ (x : Filter). Asks x (sample_body api f.http_data.request_headers) in
      let asks = started f eos e in
      subst
        (λ (o : Option Context). P (elim o [
          | none ↦ start_modules host f [] eos
          | some c ↦
              stop_or host (start_module host f m c eos)
                (start_modules host (start_module host f m c eos) [] eos)
        ]))
        (sym init_lem) (if_cases P g.http_data.has_local_response g g (λ _. asks) (λ _. asks))

  asked_first :
      (id : ℕ) (d : HttpData) (eos : Bool)
      → Asks
          (request_headers_phase host (open_filter host id d) (m ∷ []) eos)
          (sample_body api (synthesize_pseudo_headers d).request_headers)
  unfolding request_headers_phase
  asked_first id d eos =
      passed (record (open_filter host id d) { http_data = synthesize_pseudo_headers d }) eos
        (unfold init in refl)

  after_lem :
      (pacifier : Option Diagnosis) (c : ConnectionIo) (reads : List BodyReadResult) (g : Filter)
      → is_answered g ≡ true
      → after_headers host c reads pacifier g ≡ some (answer g)
  unfolding after_headers
  after_lem pacifier c reads g a = rw a refl

  handle_lem :
      (pacifier : Option Diagnosis) (id : ℕ) (c : ConnectionIo) (reads : List BodyReadResult)
      (d : HttpData)
      → parse_request c.header_data no_data ≡ some d
      → handle_request host (m ∷ []) pacifier id c reads
        ≡ after_headers host c reads pacifier (
            request_headers_phase host
              (open_filter host id d)
              (m ∷ [])
              (not (ltb 0 c.content_length)))
  unfolding handle_request
  handle_lem pacifier id c reads d parsed =
      let next = λ (o : Option HttpData).
        let r : Option (Ending × Filter) = elim o [
          | none ↦ some (fails, open_filter host id no_data)
          | some e ↦ after_headers host c reads pacifier (
              request_headers_phase host (open_filter host id e) (m ∷ [])
                (not (ltb 0 c.content_length)))
        ] in
        r in
      ap next parsed

  -- Whatever the body of the request is, and whether or not it arrives: a request whose headers parse
  -- is answered, in one module of this filter, by exactly one response with status 200, whose body is
  -- the environment and the headers with the pseudo headers.
  pub served_request :
      (pacifier : Option Diagnosis) (id : ℕ) (c : ConnectionIo) (reads : List BodyReadResult)
      (d : HttpData)
      → parse_request c.header_data no_data ≡ some d
      → (f : Filter) × (handle_request host (m ∷ []) pacifier id c reads ≡ some (finishes, f))
        × Wrote f (sample_response (sample_body api (synthesize_pseudo_headers d).request_headers))
  served_request pacifier id c reads d parsed =
      let g =
        request_headers_phase host (open_filter host id d) (m ∷ [])
          (not (ltb 0 c.content_length)) in
      let body = sample_body api (synthesize_pseudo_headers d).request_headers in
      let asks = asked_first id d (not (ltb 0 c.content_length)) in
      let text = build_local_response g.http_data in
      let e : answer g ≡ (finishes, say_all g (chunked_pieces text)) = answer_lem g in
      let wrote : Wrote (say_all g (chunked_pieces text)) text =
        unfold init in say_all-Wrote g (init true) text asks.0 in
      (
        say_all g (chunked_pieces text),
        handle_lem pacifier id c reads d parsed
            ∙ (after_lem pacifier c reads g asks.1 ∙ ap (λ o. some o) e),
        (wrote.0, wrote.1, wrote.2 ∙ asks.2),
      )
