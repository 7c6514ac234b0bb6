-- ===== src/Server/Handler/Silence/Request.antt =====
-- The headers and the body of a request pass filters that do not stream.
use lswasm.Base.{
  ℕ, ◌+◌, ◌≡◌, refl, ◌∙◌, Bool, true, not, ◌&&◌, Option, none, some, List, [], ◌∷◌, ◌++◌, arith,
}
use lswasm.Base.{ltb, leb, if◌then◌else◌, if_cases}
use lswasm.Base.{length, is_empty, All, All-append}
use lswasm.Base.{Bytes, bytes_eq}
use lswasm.Base.{lookup}
use lswasm.ConnectionIo.{BodyReadResult, ConnectionIo}
use lswasm.ResponseSink.Http.{HttpResponseSink, init}
use lswasm.Context.{idle, reset_local_response, reset_header_maps, set_response_sink}
use lswasm.Context.HeaderMaps.{set_header_map}
use lswasm.HttpFilter.{
  HttpData, ProxyWasm, on_create, on_request_headers, emplace_scope, init_scope, start_module,
  start_modules, stop_or, request_headers_phase,
}
use lswasm.Server.Handler.{
  Filter, is_answered, pass_body, read_body, stream_body, open_filter, is_failed_read,
}
use lswasm.Server.Handler.Silence.{
  IsQuiet, Host, IsIdle, IsSilent, request_body_phase-IsSilent, with_data-IsSilent,
}

module _ (host : ProxyWasm HttpResponseSink) (quiet : IsQuiet host) where
  pass_body-IsSilent :
      (f : Filter) (bytes : Bytes) (eos : Bool) → IsSilent f → IsSilent (pass_body host f bytes eos)
  unfolding pass_body
  pass_body-IsSilent f bytes eos v =
      let d = record f.http_data { request_body = bytes } in
      request_body_phase-IsSilent host quiet (record f { http_data = d }) eos
        (with_data-IsSilent host quiet f d v)

  -- What holds of a worker that may still wait.
  abbrev pub SilentIfAny : Option (Bool × Filter) → Type 0
  SilentIfAny none = Unit
  SilentIfAny (some (ended, f)) = IsSilent f

  read_body-IsSilent :
      (content_length consumed : ℕ) (reads : List BodyReadResult) (f : Filter)
      → IsSilent f
      → SilentIfAny (read_body host content_length consumed reads f)
  unfolding read_body
  read_body-IsSilent content_length consumed [] f v =
      if_cases SilentIfAny (ltb consumed content_length && not (is_answered f)) _ _ (λ _. tt)
        (λ _. v)
  read_body-IsSilent content_length consumed (r ∷ rs) f v =
      let now = consumed + length r.bytes in
      let fed = pass_body-IsSilent f r.bytes (leb content_length now) v in
      if_cases SilentIfAny (ltb consumed content_length && not (is_answered f)) _ _
        (λ _.
          if_cases SilentIfAny (is_failed_read r) _ _ (λ _. v)
            (λ _. read_body-IsSilent content_length now rs _ fed))
        (λ _. v)

  pub stream_body-IsSilent :
      (c : ConnectionIo) (reads : List BodyReadResult) (f : Filter)
      → IsSilent f
      → SilentIfAny (stream_body host c reads f)
  unfolding stream_body
  stream_body-IsSilent c reads f v =
      let consumed = length c.body_prefix in
      let eos = leb c.content_length consumed in
      let f' = if not (is_empty c.body_prefix) then pass_body host f c.body_prefix eos else f in
      let started : IsSilent f' =
        if_cases IsSilent (not (is_empty c.body_prefix)) _ _
          (λ _. pass_body-IsSilent f c.body_prefix eos v) (λ _. v) in
      if_cases SilentIfAny (ltb 0 c.content_length)
        (read_body host c.content_length consumed reads f') (some (true, f))
        (λ _. read_body-IsSilent c.content_length consumed reads f' started) (λ _. v)

  -- The request headers.
  init_scope-idle : (m : Bytes) (c : Host) → init_scope host m ≡ some c → c.streaming_state ≡ idle
  unfolding init_scope reset_local_response reset_header_maps
  init_scope-idle m c e = go (host.stream_context m) refl e
    where
      go :
          (o : Option Host)
          → host.stream_context m ≡ o
          → (elim o [
            | none ↦ none
            | some d ↦ some (reset_header_maps (reset_local_response (host.invoke m on_create d)))
          ])
            ≡ some c
          → c.streaming_state ≡ idle
      go none p q = ground (arith, q)
      go (some d) p q = ground (arith, q, quiet.state_kept m on_create d, quiet.starts_idle m d p)

  emplace-IsIdle :
      (m : Bytes) (c : Host) (l : List (Bytes × Host))
      → c.streaming_state ≡ idle
      → All IsIdle l
      → All IsIdle (emplace_scope m c l)
  unfolding emplace_scope
  emplace-IsIdle m c l e v = go (lookup bytes_eq m l)
    where
      go : (o : Option Host) → All IsIdle (elim o [ none ↦ l ++ ((m, c) ∷ []) | some old ↦ l ])
      go none = All-append IsIdle l ((m, c) ∷ []) v (e, tt)
      go (some old) = v

  start_module-IsSilent :
      (f : Filter) (m : Bytes) (c : Host) (eos : Bool)
      → c.streaming_state ≡ idle
      → IsSilent f
      → IsSilent (start_module host f m c eos)
  unfolding start_module set_response_sink set_header_map
  start_module-IsSilent f m c eos e v =
      let c₁ =
        set_header_map (set_response_sink c f.sink) host.request_type f.http_data.request_headers in
      record {
        unwritten = quiet.sink_kept m (on_request_headers eos) c₁ ∙ v.unwritten;
        no_stream =
            emplace-IsIdle m _ f.scopes (quiet.state_kept m (on_request_headers eos) c₁ ∙ e)
              v.no_stream;
      }

  start_modules-IsSilent :
      (f : Filter) (ms : List Bytes) (eos : Bool)
      → IsSilent f
      → IsSilent (start_modules host f ms eos)
  unfolding start_modules stop_or
  start_modules-IsSilent f [] eos v = v
  start_modules-IsSilent f (m ∷ ms) eos v =
      go (init_scope host m) refl (λ g w. start_modules-IsSilent g ms eos w)
    where
      go :
          (o : Option Host)
          → init_scope host m ≡ o
          → ((g : Filter) → IsSilent g → IsSilent (start_modules host g ms eos))
          → IsSilent (elim o [
            | none ↦ start_modules host f ms eos
            | some c ↦
                stop_or host
                  (start_module host f m c eos)
                  (start_modules host (start_module host f m c eos) ms eos)
          ])
      go none e later = later f v
      go (some c) e later =
          let g = start_module host f m c eos in
          let w = start_module-IsSilent f m c eos (init_scope-idle m c e) v in
          if_cases IsSilent g.http_data.has_local_response _ _ (λ _. w) (λ _. later g w)

  -- A new request whose headers have passed the filters.
  pub request_headers_phase-IsSilent :
      (context_id : ℕ) (d : HttpData) (modules : List Bytes) (eos : Bool)
      → IsSilent (request_headers_phase host (open_filter host context_id d) modules eos)
  unfolding request_headers_phase
  request_headers_phase-IsSilent context_id d modules eos =
      start_modules-IsSilent _ modules eos
        (record { unwritten = unfold init in refl; no_stream = tt })
