-- ===== src/HttpFilter.antt =====
-- src/http_filter.h: the data of a request and the chain of filters that it passes, with the
-- RequestScope of src/wasm_module_manager.h.
pub mod Lookup
pub mod Pseudo
pub mod Phases
pub mod Chain
pub mod Turns
pub mod Tests
use lswasm.Base.{ℕ, Bool, true, false, not, ◌&&◌, Option, none, some, List, [], ◌∷◌, ◌++◌}
use lswasm.Base.{if◌then◌else◌}
use lswasm.Base.{is_empty, any_of}
use lswasm.Base.{Bytes, codes, bytes_eq}
use lswasm.Base.{lookup}
use lswasm.HttpUtils.{HeaderPairs}
use lswasm.HttpUtils.Names.{header_name_eq}
use lswasm.Context.{LsWasmContext, reset_local_response, reset_header_maps, set_response_sink}
use lswasm.Context.HeaderMaps.{set_header_map, get_header_map_owned}
use lswasm.Context.Streaming.{has_streaming_response, is_streaming_finished}

-- `HttpData`
pub record HttpData : Type 0 where
  pub method : Bytes
  pub path : Bytes
  pub version : Bytes
  pub request_headers : HeaderPairs
  pub response_headers : HeaderPairs
  pub request_body : Bytes
  pub response_body : Bytes
  pub has_local_response : Bool
  pub local_response_code : ℕ
  pub local_response_body : Bytes
  pub local_response_additional_headers : HeaderPairs

-- The callbacks of a filter, with what the host passes.
pub data Callback : Type 0 where
  on_create on_request_trailers on_response_trailers : Callback
  on_request_headers on_response_headers : Bool → Callback
  on_request_body on_response_body : ℕ → Bool → Callback

-- What the proxy-wasm host does, which is not part of this repository: the numbers of two header map
-- types; the stream context of a new request for a module, `none` where the host gives none; and what
-- a callback into a module does to its context.
pub record ProxyWasm (S : Type 0) : Type 0 where
  pub request_type : ℕ
  pub response_type : ℕ
  pub stream_context : Bytes → Option (LsWasmContext S)
  pub invoke : Bytes → Callback → LsWasmContext S → LsWasmContext S

-- The fields of `HttpFilterContext`. The sink is one object that all contexts point to: its state is
-- kept here, handed to a context for a callback, and taken back after it.
pub record HttpFilterContext (S : Type 0) : Type 0 where
  pub context_id : ℕ
  pub http_data : HttpData
  pub sink : Option S
  pub module_order : List Bytes
  pub scopes : List (Bytes × LsWasmContext S)

-- `has` of `synthesizePseudoHeaders`
unfoldable pub has : HeaderPairs → Bytes → Bool
has [] name = false
has ((key, value) ∷ rest) name = if header_name_eq key name then true else has rest name

-- The search for the Host header.
unfoldable pub host_of : HeaderPairs → Bytes → Bytes
host_of [] authority = authority
host_of ((key, value) ∷ rest) authority =
    if header_name_eq key (codes "Host") then value else host_of rest authority

-- `pseudo` of `synthesizePseudoHeaders`, header by header.
unfoldable pub pseudo_headers : HttpData → HeaderPairs
unfolding has host_of
pseudo_headers d =
    let hdrs = d.request_headers in
    (if not (has hdrs (codes ":method")) && not (is_empty d.method)
      then (codes ":method", d.method) ∷ []
      else [])
    ++ ((if not (has hdrs (codes ":path")) && not (is_empty d.path)
          then (codes ":path", d.path) ∷ []
          else [])
        ++ ((if not (has hdrs (codes ":scheme")) then (codes ":scheme", codes "http") ∷ [] else [])
            ++ (if not (has hdrs (codes ":authority"))
                then (codes ":authority", host_of hdrs (codes "localhost")) ∷ []
                else [])))

-- `synthesizePseudoHeaders`
unfoldable pub synthesize_pseudo_headers : HttpData → HttpData
unfolding pseudo_headers
synthesize_pseudo_headers d =
    if not (is_empty (pseudo_headers d))
    then record d { request_headers = pseudo_headers d ++ d.request_headers }
    else d

module _ {S : Type 0} where
  -- `checkLocalResponse`
  unfoldable pub check_local_response : LsWasmContext S → HttpData → HttpData
  check_local_response c d =
      if c.has_local_response
      then record d {
        has_local_response = true;
        local_response_code = c.local_response_code;
        local_response_body = c.local_response_body;
        local_response_additional_headers = c.local_response_headers;
      }
      else d

  -- `std::map::emplace` and the assignment through an iterator.
  unfoldable pub emplace_scope :
      Bytes → LsWasmContext S → List (Bytes × LsWasmContext S) → List (Bytes × LsWasmContext S)
  emplace_scope m c scopes = elim (lookup bytes_eq m scopes) [
    | none ↦ scopes ++ ((m, c) ∷ [])
    | some old ↦ scopes
  ]

  -- `hasStreamingResponse`
  unfoldable pub any_streaming : HttpFilterContext S → Bool
  unfolding has_streaming_response
  any_streaming f = any_of (λ s. has_streaming_response s.1) f.scopes

  -- `isStreamingFinished`
  unfoldable pub any_finished : HttpFilterContext S → Bool
  unfolding is_streaming_finished
  any_finished f = any_of (λ s. is_streaming_finished s.1) f.scopes

module _ {S : Type 0} (host : ProxyWasm S) where
  -- `RequestScope::init`, once the module is found.
  unfoldable pub init_scope : Bytes → Option (LsWasmContext S)
  unfolding reset_local_response reset_header_maps
  init_scope m = elim (host.stream_context m) [
    | none ↦ none
    | some c ↦ some (reset_header_maps (reset_local_response (host.invoke m on_create c)))
  ]

  -- A module of the loop of `onRequestHeaders` that has its scope.
  unfoldable pub start_module :
      HttpFilterContext S → Bytes → LsWasmContext S → Bool → HttpFilterContext S
  unfolding set_response_sink set_header_map get_header_map_owned check_local_response emplace_scope
  start_module f m c end_of_stream =
      let c₁ =
        set_header_map (set_response_sink c f.sink) host.request_type f.http_data.request_headers in
      let c₂ = host.invoke m (on_request_headers end_of_stream) c₁ in
      let d = record f.http_data { request_headers = get_header_map_owned c₂ host.request_type } in
      record f {
        http_data = check_local_response c₂ d;
        sink = c₂.sink;
        module_order = f.module_order ++ (m ∷ []);
        scopes = emplace_scope m c₂ f.scopes;
      }

  -- `break` once there is a local response.
  unfoldable pub stop_or : HttpFilterContext S → HttpFilterContext S → HttpFilterContext S
  stop_or g rest = if g.http_data.has_local_response then g else rest

  -- The loop of `onRequestHeaders` over the loaded modules.
  unfoldable pub start_modules : HttpFilterContext S → List Bytes → Bool → HttpFilterContext S
  unfolding init_scope start_module stop_or
  start_modules f [] end_of_stream = f
  start_modules f (m ∷ ms) end_of_stream = elim (init_scope m) [
    | none ↦ start_modules f ms end_of_stream
    | some c ↦
        stop_or (start_module f m c end_of_stream)
          (start_modules (start_module f m c end_of_stream) ms end_of_stream)
  ]

  -- `onRequestHeaders`; `modules` is what `getLoadedModules` returns.
  unfoldable pub request_headers_phase :
      HttpFilterContext S → List Bytes → Bool → HttpFilterContext S
  unfolding synthesize_pseudo_headers start_modules
  request_headers_phase f modules end_of_stream =
      start_modules (record f { http_data = synthesize_pseudo_headers f.http_data }) modules
        end_of_stream
