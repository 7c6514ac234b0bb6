-- ===== src/Server/Handler/Silence.antt =====
-- Filters that do not stream keep silent: no phase of a request writes anything.
pub mod Request
use lswasm.Server.Diagnosis.{Diagnosis, build_response_body}
use lswasm.Base.{◌≡◌, refl, ◌∙◌, Bool, true, false, Option, none, some, List, [], ◌∷◌, arith}
use lswasm.Base.{if_cases}
use lswasm.Base.{length, is_empty, any_of, All}
use lswasm.Base.{Bytes, codes, bytes_eq}
use lswasm.Base.{lookup, assign}
use lswasm.ResponseSink.Http.{HttpResponseSink, init}
use lswasm.Context.{LsWasmContext, idle, set_request_body, set_response_body, set_end_of_stream}
use lswasm.Context.HeaderMaps.{set_header_map}
use lswasm.Context.Streaming.{has_streaming_response}
use lswasm.HttpFilter.{
  HttpData, ProxyWasm, Callback, on_response_headers, on_response_body, on_response_trailers,
  any_streaming,
}
use lswasm.HttpFilter.Phases.{
  Visit, lend, settle, visit_scope, run_phase, visit_request_body, request_body_phase,
  visit_request_trailers, request_trailers_phase, exchange_headers, visit_response_headers,
  response_headers_phase, visit_response_body, response_body_phase, visit_response_trailers,
  response_trailers_phase,
}
use lswasm.Server.Handler.{Filter, response_phases}

-- Filters that do not stream: no callback touches the sink or the state of a stream, and a new stream
-- context has no stream.
pub record IsQuiet (host : ProxyWasm HttpResponseSink) : Type 0 where
  pub sink_kept :
      (m : Bytes) (callback : Callback) (c : LsWasmContext HttpResponseSink)
      → (host.invoke m callback c).sink ≡ c.sink
  pub state_kept :
      (m : Bytes) (callback : Callback) (c : LsWasmContext HttpResponseSink)
      → (host.invoke m callback c).streaming_state ≡ c.streaming_state
  pub starts_idle :
      (m : Bytes) (c : LsWasmContext HttpResponseSink)
      → host.stream_context m ≡ some c
      → c.streaming_state ≡ idle

abbrev pub Host : Type 0
Host = LsWasmContext HttpResponseSink

abbrev pub IsIdle : Bytes × Host → Type 0
IsIdle x = x.1.streaming_state ≡ idle

-- Nothing has been written, and no stream started.
pub record IsSilent (f : Filter) : Type 0 where
  pub unwritten : f.sink ≡ some (init true)
  pub no_stream : All IsIdle f.scopes

assign-IsIdle :
    (m : Bytes) (c : Host) (l : List (Bytes × Host))
    → c.streaming_state ≡ idle
    → All IsIdle l
    → All IsIdle (assign bytes_eq m c l)
assign-IsIdle m c [] e v = (e, v)
assign-IsIdle m c ((n, d) ∷ l) e v =
    if_cases (All IsIdle) (bytes_eq n m) _ _ (λ _. (e, v.1)) (λ _. (v.0, assign-IsIdle m c l e v.1))

lookup-IsIdle :
    (m : Bytes) (l : List (Bytes × Host)) (c : Host)
    → All IsIdle l
    → lookup bytes_eq m l ≡ some c
    → c.streaming_state ≡ idle
lookup-IsIdle m [] c v e = ground (arith, e)
lookup-IsIdle m ((n, d) ∷ l) c v e = ground (arith, e, v.0, lookup-IsIdle m l c v.1)

pub any_streaming-IsSilent : (f : Filter) → IsSilent f → any_streaming f ≡ false
unfolding any_streaming
any_streaming-IsSilent f v = go f.scopes v.no_stream
  where
    go :
        (l : List (Bytes × Host))
        → All IsIdle l
        → any_of (λ s. has_streaming_response s.1) l ≡ false
    go [] h = refl
    go ((m, c) ∷ l) h = ground (arith, h.0, go l h.1)

module _ (host : ProxyWasm HttpResponseSink) (quiet : IsQuiet host) where
  -- A callback on a context that stands for `c` in the scope of a module.
  invoke-IsSilent :
      (f : Filter) (m : Bytes) (callback : Callback) (c : Host) (d : HttpData)
      → c.sink ≡ f.sink
      → c.streaming_state ≡ idle
      → IsSilent f
      → IsSilent (settle f m (host.invoke m callback c) d)
  unfolding settle
  invoke-IsSilent f m callback c d same idles v = record {
    unwritten = quiet.sink_kept m callback c ∙ (same ∙ v.unwritten);
    no_stream = assign-IsIdle m _ f.scopes (quiet.state_kept m callback c ∙ idles) v.no_stream;
  }

  -- A visit that keeps silent where it meets an idle context.
  abbrev Keeps : Visit HttpResponseSink → Type 0
  Keeps visit =
      (f : Filter) (m : Bytes) (c : Host)
      → c.streaming_state ≡ idle
      → IsSilent f
      → IsSilent (visit f m c)

  run_phase-IsSilent :
      (visit : Visit HttpResponseSink) (ms : List Bytes) (f : Filter)
      → Keeps visit
      → IsSilent f
      → IsSilent (run_phase visit f ms)
  unfolding run_phase visit_scope
  run_phase-IsSilent visit [] f k v = v
  run_phase-IsSilent visit (m ∷ ms) f k v =
      if_cases IsSilent f.http_data.has_local_response _ _ (λ _. v)
        (λ _.
          run_phase-IsSilent visit ms (visit_scope visit f m) k
            (go (lookup bytes_eq m f.scopes) refl))
    where
      go :
          (o : Option Host)
          → lookup bytes_eq m f.scopes ≡ o
          → IsSilent (elim o [ none ↦ f | some c ↦ visit f m c ])
      go none e = v
      go (some c) e = k f m c (lookup-IsIdle m f.scopes c v.no_stream e) v

  pub request_body_phase-IsSilent :
      (f : Filter) (eos : Bool) → IsSilent f → IsSilent (request_body_phase host f eos)
  unfolding request_body_phase visit_request_body set_request_body set_end_of_stream
  request_body_phase-IsSilent f eos v =
      run_phase-IsSilent _ f.module_order f
        (λ g m c e w. invoke-IsSilent g m _ _ g.http_data refl e w) v

  pub request_trailers_phase-IsSilent :
      (f : Filter) → IsSilent f → IsSilent (request_trailers_phase host f)
  unfolding request_trailers_phase visit_request_trailers
  request_trailers_phase-IsSilent f v =
      run_phase-IsSilent _ f.module_order f
        (λ g m c e w. invoke-IsSilent g m _ _ g.http_data refl e w) v

  exchange-IsSilent :
      (f : Filter) (m : Bytes) (callback : Callback) (c : Host)
      → c.sink ≡ f.sink
      → c.streaming_state ≡ idle
      → IsSilent f
      → IsSilent (exchange_headers host f m callback c)
  unfolding exchange_headers
  exchange-IsSilent f m callback c same idles v = invoke-IsSilent f m callback c _ same idles v

  response_headers_phase-IsSilent :
      (f : Filter) → IsSilent f → IsSilent (response_headers_phase host f)
  unfolding response_headers_phase visit_response_headers set_header_map
  response_headers_phase-IsSilent f v =
      run_phase-IsSilent (visit_response_headers host (is_empty f.http_data.response_body))
        f.module_order f
        (λ g m c e w.
          exchange-IsSilent g m (on_response_headers (is_empty f.http_data.response_body))
            (set_header_map (lend g c) host.response_type g.http_data.response_headers) refl e w)
        v

  response_body_phase-IsSilent : (f : Filter) → IsSilent f → IsSilent (response_body_phase host f)
  unfolding response_body_phase visit_response_body set_header_map set_response_body
      set_end_of_stream
  response_body_phase-IsSilent f v =
      run_phase-IsSilent (visit_response_body host) f.module_order f
        (λ g m c e w.
          exchange-IsSilent g m (on_response_body (length g.http_data.response_body) true)
            (set_end_of_stream
              (set_response_body
                (set_header_map (lend g c) host.response_type g.http_data.response_headers)
                g.http_data.response_body)
              true)
            refl e w)
        v

  response_trailers_phase-IsSilent :
      (f : Filter) → IsSilent f → IsSilent (response_trailers_phase host f)
  unfolding response_trailers_phase visit_response_trailers set_header_map
  response_trailers_phase-IsSilent f v =
      run_phase-IsSilent (visit_response_trailers host) f.module_order f
        (λ g m c e w.
          exchange-IsSilent g m on_response_trailers
            (set_header_map (lend g c) host.response_type g.http_data.response_headers) refl e w)
        v

  -- The data of a request do not matter.
  pub with_data-IsSilent :
      (f : Filter) (d : HttpData) → IsSilent f → IsSilent (record f { http_data = d })
  with_data-IsSilent f d v = record { unwritten = v.unwritten; no_stream = v.no_stream }

  pub response_phases-IsSilent :
      (f : Filter) (pacifier : Option Diagnosis)
      → IsSilent f
      → IsSilent (response_phases host f pacifier)
  unfolding response_phases
  response_phases-IsSilent f pacifier v =
      let body : Bytes = elim pacifier [ none ↦ [] | some g ↦ build_response_body g f.http_data ] in
      let d = record f.http_data {
        response_body = body;
        response_headers =
            (codes "Content-Type", codes "text/plain") ∷ (codes "Connection", codes "close") ∷ [];
      } in
      let f₁ : Filter = record f { http_data = d } in
      let f₂ = response_headers_phase host f₁ in
      response_trailers_phase-IsSilent (response_body_phase host f₂) (
        response_body_phase-IsSilent f₂
          (response_headers_phase-IsSilent f₁ (with_data-IsSilent f d v)))
