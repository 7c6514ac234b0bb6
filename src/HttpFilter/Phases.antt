-- ===== src/HttpFilter/Phases.antt =====
-- The phases of `HttpFilterContext` (src/http_filter.h) that follow the request headers.
use lswasm.Base.{Bool, true, none, some, List, [], ◌∷◌}
use lswasm.Base.{if◌then◌else◌}
use lswasm.Base.{length, is_empty}
use lswasm.Base.{Bytes, bytes_eq}
use lswasm.Base.{lookup, assign}
use lswasm.Context.{LsWasmContext, set_request_body, set_response_body, set_end_of_stream}
use lswasm.Context.HeaderMaps.{set_header_map, get_header_map_owned}
use lswasm.HttpFilter.{
  HttpData, ProxyWasm, HttpFilterContext, Callback, on_request_body, on_request_trailers,
  on_response_headers, on_response_body, on_response_trailers, check_local_response,
}

-- What a phase does at one module with its scope.
abbrev pub Visit : Type 0 → Type 0
Visit S = HttpFilterContext S → Bytes → LsWasmContext S → HttpFilterContext S

module _ {S : Type 0} where
  -- The context of a module as a callback finds it: its sink pointer leads to the sink of the request.
  abbrev pub lend : HttpFilterContext S → LsWasmContext S → LsWasmContext S
  lend f c = record c { sink = f.sink }

  -- After a callback: the context stays in its scope, and `checkLocalResponse` is made.
  unfoldable pub settle :
      HttpFilterContext S → Bytes → LsWasmContext S → HttpData → HttpFilterContext S
  unfolding check_local_response
  settle f m c d = record f {
    http_data = check_local_response c d;
    sink = c.sink;
    scopes = assign bytes_eq m c f.scopes;
  }

  -- A module of the loop of a phase: skipped where it has no scope. A stored scope is always valid,
  -- since only those that `init` has filled are stored.
  unfoldable pub visit_scope : Visit S → HttpFilterContext S → Bytes → HttpFilterContext S
  visit_scope visit f m = elim (lookup bytes_eq m f.scopes) [ none ↦ f | some c ↦ visit f m c ]

  -- The loop of a phase over `module_order_`.
  unfoldable pub run_phase : Visit S → HttpFilterContext S → List Bytes → HttpFilterContext S
  unfolding visit_scope
  run_phase visit f [] = f
  run_phase visit f (m ∷ ms) =
      let rest = run_phase visit (visit_scope visit f m) ms in
      if f.http_data.has_local_response then f else rest

module _ {S : Type 0} (host : ProxyWasm S) where
  unfoldable pub visit_request_body : Bool → Visit S
  unfolding settle set_request_body set_end_of_stream
  visit_request_body end_of_stream f m c =
      let body = f.http_data.request_body in
      let c₁ = set_end_of_stream (set_request_body (lend f c) body) end_of_stream in
      settle f m (host.invoke m (on_request_body (length body) end_of_stream) c₁) f.http_data

  -- `onRequestBody`
  unfoldable pub request_body_phase : HttpFilterContext S → Bool → HttpFilterContext S
  unfolding run_phase visit_request_body
  request_body_phase f end_of_stream = run_phase (visit_request_body end_of_stream) f f.module_order

  unfoldable pub visit_request_trailers : Visit S
  unfolding settle
  visit_request_trailers f m c =
      settle f m (host.invoke m on_request_trailers (lend f c)) f.http_data

  -- `onRequestTrailers`
  unfoldable pub request_trailers_phase : HttpFilterContext S → HttpFilterContext S
  unfolding run_phase visit_request_trailers
  request_trailers_phase f = run_phase visit_request_trailers f f.module_order

  -- The response headers go into the context before a callback and come back after it.
  unfoldable pub exchange_headers :
      HttpFilterContext S → Bytes → Callback → LsWasmContext S → HttpFilterContext S
  unfolding settle set_header_map get_header_map_owned
  exchange_headers f m callback c =
      let c' = host.invoke m callback c in
      settle f m c'
        (record f.http_data { response_headers = get_header_map_owned c' host.response_type })

  unfoldable pub visit_response_headers : Bool → Visit S
  unfolding exchange_headers set_header_map
  visit_response_headers end_of_stream f m c =
      let c₁ = set_header_map (lend f c) host.response_type f.http_data.response_headers in
      exchange_headers f m (on_response_headers end_of_stream) c₁

  -- `onResponseHeaders`
  unfoldable pub response_headers_phase : HttpFilterContext S → HttpFilterContext S
  unfolding run_phase visit_response_headers
  response_headers_phase f =
      run_phase (visit_response_headers (is_empty f.http_data.response_body)) f f.module_order

  unfoldable pub visit_response_body : Visit S
  unfolding exchange_headers set_header_map set_response_body set_end_of_stream
  visit_response_body f m c =
      let body = f.http_data.response_body in
      let c₁ = set_header_map (lend f c) host.response_type f.http_data.response_headers in
      let c₂ = set_end_of_stream (set_response_body c₁ body) true in
      exchange_headers f m (on_response_body (length body) true) c₂

  -- `onResponseBody`
  unfoldable pub response_body_phase : HttpFilterContext S → HttpFilterContext S
  unfolding run_phase visit_response_body
  response_body_phase f = run_phase visit_response_body f f.module_order

  unfoldable pub visit_response_trailers : Visit S
  unfolding exchange_headers set_header_map
  visit_response_trailers f m c =
      exchange_headers f m on_response_trailers
        (set_header_map (lend f c) host.response_type f.http_data.response_headers)

  -- `onResponseTrailers`
  unfoldable pub response_trailers_phase : HttpFilterContext S → HttpFilterContext S
  unfolding run_phase visit_response_trailers
  response_trailers_phase f = run_phase visit_response_trailers f f.module_order
