-- ===== src/HttpFilter/Turns.antt =====
-- What one module's turn does in each phase, and the phases as chains of such turns.
use lswasm.Base.{
  ◌≡◌, refl, ◌∙◌, ◌⊎◌, inl, inr, Bool, true, false, Option, none, some, List, [], ◌∷◌, ◌++◌, arith,
}
use lswasm.Base.{length, is_empty}
use lswasm.Base.{Bytes, bytes_eq}
use lswasm.Base.{lookup, assign}
use lswasm.HttpUtils.{HeaderPairs}
use lswasm.Context.{LsWasmContext, set_response_sink}
use lswasm.Context.HeaderMaps.{set_header_map, get_header_map_owned}
use lswasm.HttpFilter.{
  HttpData, ProxyWasm, HttpFilterContext, Callback, on_request_headers, on_request_body,
  on_request_trailers, on_response_headers, on_response_body, on_response_trailers,
  check_local_response, emplace_scope, init_scope, start_module, synthesize_pseudo_headers,
  request_headers_phase,
}
use lswasm.HttpFilter.Phases.{
  Visit, visit_request_body, request_body_phase, visit_request_trailers, request_trailers_phase,
  visit_response_headers, response_headers_phase, visit_response_body, response_body_phase,
  visit_response_trailers, response_trailers_phase,
}
use lswasm.HttpFilter.Chain.{is_answered, Chain, start_step, start_modules-Chain}

-- The request and response otherwise.
abbrev pub IsSameRequest : HttpData → HttpData → Type 0
IsSameRequest d e =
    (e.method ≡ d.method)
    × (e.path ≡ d.path)
    × (e.request_body ≡ d.request_body)
    × (e.response_body ≡ d.response_body)

still_unanswered :
    (d : HttpData) → (synthesize_pseudo_headers d).has_local_response ≡ d.has_local_response
unfolding synthesize_pseudo_headers
still_unanswered d = ground arith

module _ {S : Type 0} where
  -- After a callback has left a module's context as `c`: a local response of it is the answer of the
  -- request, and without one the answer is as before.
  abbrev pub Answers : LsWasmContext S → HttpData → HttpData → Type 0
  Answers c d e =
      ((c.has_local_response ≡ true)
        × (e.has_local_response ≡ true)
        × (e.local_response_code ≡ c.local_response_code)
        × (e.local_response_body ≡ c.local_response_body)
        × (e.local_response_additional_headers ≡ c.local_response_headers))
      ⊎ ((c.has_local_response ≡ false)
          × (e.has_local_response ≡ d.has_local_response)
          × (e.local_response_code ≡ d.local_response_code)
          × (e.local_response_body ≡ d.local_response_body)
          × (e.local_response_additional_headers ≡ d.local_response_additional_headers))

  check_local_response-Answers :
      (c : LsWasmContext S) (d : HttpData)
      → Answers c d (check_local_response c d)
        × IsSameRequest d (check_local_response c d)
        × ((check_local_response c d).request_headers ≡ d.request_headers)
        × ((check_local_response c d).response_headers ≡ d.response_headers)
  unfolding check_local_response
  check_local_response-Answers c d = ground arith

module _ {S : Type 0} (host : ProxyWasm S) where
  -- The turn of a loaded module in `onRequestHeaders`, from `x` to `y`, with the new context `c`: its
  -- callback finds the request headers and the sink, and what it leaves of them goes on.
  pub record Starts (end_of_stream : Bool) (x : HttpFilterContext S) (m : Bytes)
      (c : LsWasmContext S) (y : HttpFilterContext S) : Type 0 where
    pub after : LsWasmContext S
    pub invoked :
        after
        ≡ host.invoke m (on_request_headers end_of_stream) (
            set_header_map
              (record c { sink = x.sink })
              host.request_type
              x.http_data.request_headers)
    pub answers : Answers after x.http_data y.http_data
    pub same : IsSameRequest x.http_data y.http_data
    pub request_headers : y.http_data.request_headers ≡ get_header_map_owned after host.request_type
    pub response_headers : y.http_data.response_headers ≡ x.http_data.response_headers
    pub sink : y.sink ≡ after.sink
    pub order : y.module_order ≡ x.module_order ++ (m ∷ [])
    pub scopes : y.scopes ≡ emplace_scope m after x.scopes

  -- A module without a scope is passed over.
  abbrev pub IsStart : Bool → HttpFilterContext S → Bytes → HttpFilterContext S → Type 0
  IsStart end_of_stream x m y =
      ((init_scope host m ≡ none) × (y ≡ x))
      ⊎ ((c : LsWasmContext S) × (init_scope host m ≡ some c) × Starts end_of_stream x m c y)

  start_module-Starts :
      (end_of_stream : Bool) (x : HttpFilterContext S) (m : Bytes) (c : LsWasmContext S)
      → Starts end_of_stream x m c (start_module host x m c end_of_stream)
  unfolding start_module set_response_sink
  start_module-Starts end_of_stream x m c =
      let after = host.invoke m (on_request_headers end_of_stream) (
        set_header_map (record c { sink = x.sink }) host.request_type
          x.http_data.request_headers) in
      let d = record x.http_data {
        request_headers = get_header_map_owned after host.request_type;
      } in
      let k = check_local_response-Answers after d in
      record {
        after = after;
        invoked = refl;
        answers = k.0;
        same = k.1;
        request_headers = k.2;
        response_headers = k.3;
        sink = refl;
        order = refl;
        scopes = refl;
      }

  start_step-IsStart :
      (end_of_stream : Bool) (x : HttpFilterContext S) (m : Bytes)
      → IsStart end_of_stream x m (start_step host end_of_stream x m)
  start_step-IsStart end_of_stream x m = go (init_scope host m) refl
    where
      go :
          (o : Option (LsWasmContext S))
          → init_scope host m ≡ o
          → IsStart end_of_stream x m
              (elim o [ none ↦ x | some c ↦ start_module host x m c end_of_stream ])
      go none e = inl (e, refl)
      go (some c) e = inr (c, e, start_module-Starts end_of_stream x m c)

  -- `onRequestHeaders` adds the pseudo headers and gives the loaded modules their turns in their order,
  -- up to the first local response. A module's turn is as `IsStart` says: its callback finds the
  -- request headers and the sink, and what it leaves of them, and its local response, go on.
  pub request_headers_phase-Chain :
      (end_of_stream : Bool) (f : HttpFilterContext S) (ms : List Bytes)
      → is_answered f ≡ false
      → Chain
          (start_step host end_of_stream)
          (record f { http_data = synthesize_pseudo_headers f.http_data })
          ms
          (request_headers_phase host f ms end_of_stream)
        × ((x : HttpFilterContext S) (m : Bytes)
            → IsStart end_of_stream x m (start_step host end_of_stream x m))
  unfolding request_headers_phase
  request_headers_phase-Chain end_of_stream f ms e = (
    start_modules-Chain host end_of_stream
        (record f { http_data = synthesize_pseudo_headers f.http_data }) ms
        (still_unanswered f.http_data ∙ e),
    start_step-IsStart end_of_stream,
  )

-- The phases behind the request headers.
pub data Phase : Type 0 where
  request_body : Bool → Phase
  request_trailers response_headers response_body response_trailers : Phase

module _ {S : Type 0} (host : ProxyWasm S) where
  abbrev pub phase : Phase → HttpFilterContext S → HttpFilterContext S
  phase (request_body end_of_stream) f = request_body_phase host f end_of_stream
  phase request_trailers f = request_trailers_phase host f
  phase response_headers f = response_headers_phase host f
  phase response_body f = response_body_phase host f
  phase response_trailers f = response_trailers_phase host f

  -- What a phase, which begins at `f`, does at a module.
  abbrev pub visit : Phase → HttpFilterContext S → Visit S
  visit (request_body end_of_stream) f = visit_request_body host end_of_stream
  visit request_trailers f = visit_request_trailers host
  visit response_headers f = visit_response_headers host (is_empty f.http_data.response_body)
  visit response_body f = visit_response_body host
  visit response_trailers f = visit_response_trailers host

  -- The callback of a phase at `x`, and the context that it finds: with the sink of the request, and the
  -- body or the response headers that the phase is about.
  abbrev pub callback : Phase → HttpFilterContext S → HttpFilterContext S → Callback
  callback (request_body end_of_stream) f x =
      on_request_body (length x.http_data.request_body) end_of_stream
  callback request_trailers f x = on_request_trailers
  callback response_headers f x = on_response_headers (is_empty f.http_data.response_body)
  callback response_body f x = on_response_body (length x.http_data.response_body) true
  callback response_trailers f x = on_response_trailers

  abbrev pub with_headers : HttpFilterContext S → LsWasmContext S → LsWasmContext S
  with_headers x c =
      set_header_map (record c { sink = x.sink }) host.response_type x.http_data.response_headers

  abbrev pub found : Phase → HttpFilterContext S → LsWasmContext S → LsWasmContext S
  found (request_body end_of_stream) x c = record c {
    sink = x.sink;
    request_body = x.http_data.request_body;
    end_of_stream = end_of_stream;
  }
  found request_trailers x c = record c { sink = x.sink }
  found response_headers x c = with_headers x c
  found response_body x c = record (with_headers x c) {
    response_body = x.http_data.response_body;
    end_of_stream = true;
  }
  found response_trailers x c = with_headers x c

  -- The response headers that a turn leaves.
  abbrev pub left_headers : Phase → LsWasmContext S → HeaderPairs → HeaderPairs
  left_headers (request_body end_of_stream) c hs = hs
  left_headers request_trailers c hs = hs
  left_headers response_headers c hs = get_header_map_owned c host.response_type
  left_headers response_body c hs = get_header_map_owned c host.response_type
  left_headers response_trailers c hs = get_header_map_owned c host.response_type

  -- The turn of a module in a phase, from `x` to `y`, with its context `c`.
  pub record Visits (p : Phase) (f x : HttpFilterContext S) (m : Bytes) (c : LsWasmContext S)
      (y : HttpFilterContext S) : Type 0 where
    pub after : LsWasmContext S
    pub invoked : after ≡ host.invoke m (callback p f x) (found p x c)
    pub answers : Answers after x.http_data y.http_data
    pub same : IsSameRequest x.http_data y.http_data
    pub request_headers : y.http_data.request_headers ≡ x.http_data.request_headers
    pub response_headers :
        y.http_data.response_headers ≡ left_headers p after x.http_data.response_headers
    pub sink : y.sink ≡ after.sink
    pub order : y.module_order ≡ x.module_order
    pub scopes : y.scopes ≡ assign bytes_eq m after x.scopes

  abbrev pub IsVisit :
      Phase → HttpFilterContext S → HttpFilterContext S → Bytes → HttpFilterContext S → Type 0
  IsVisit p f x m y =
      ((lookup bytes_eq m x.scopes ≡ none) × (y ≡ x))
      ⊎ ((c : LsWasmContext S) × (lookup bytes_eq m x.scopes ≡ some c) × Visits p f x m c y)
