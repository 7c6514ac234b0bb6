-- ===== src/Server/Handler.antt =====
-- `handle_request` of src/main.cpp: one request, from its headers to the last call on its connection.
-- The calls of `conn->writeData`, made by the response sink and by the handler itself, are the `writes`
-- of the sink, in order. What `readBodyChunk` returns is a list; where it is used up the worker waits.
pub mod Outcome
pub mod Silence
pub mod Output
pub mod Body
pub mod Tests
use lswasm.Server.Diagnosis.{Diagnosis, build_response_body}
use lswasm.Base.{ℕ, ◌+◌, Bool, true, false, not, ◌&&◌, Option, none, some, List, [], ◌∷◌}
use lswasm.Base.{ltb, leb, if◌then◌else◌}
use lswasm.Base.{length, is_empty}
use lswasm.Base.{Bytes, codes}
use lswasm.HttpUtils.{serialize_headers}
use lswasm.ConnectionIo.{truncated, error, BodyReadResult, ConnectionIo}
use lswasm.ResponseSink.Http.{HttpResponseSink, write_data}
use lswasm.HttpFilter.{
  HttpData, ProxyWasm, HttpFilterContext, request_headers_phase, any_streaming, any_finished,
}
use lswasm.HttpFilter.Phases.{
  request_body_phase, request_trailers_phase, response_headers_phase, response_body_phase,
  response_trailers_phase,
}
use lswasm.Server.Request.{parse_request}
use lswasm.Server.Response.{build_local_response, final_headers, chunked_pieces}

-- A new `HttpData`.
abbrev pub no_data : HttpData
no_data = record {
  method = [];
  path = [];
  version = [];
  request_headers = [];
  response_headers = [];
  request_body = [];
  response_body = [];
  has_local_response = false;
  local_response_code = 0;
  local_response_body = [];
  local_response_additional_headers = [];
}

abbrev pub Filter : Type 0
Filter = HttpFilterContext HttpResponseSink

-- How the handler leaves the connection: by `conn->finish()` or by `conn->setError()`.
pub data Ending : Type 0 where
  finishes fails : Ending

-- `conn->writeData` and `write_chunked`.
abbrev pub say : Filter → Bytes → Filter
say f bytes = elim f.sink [
  | none ↦ f
  | some sink ↦ record f { sink = some (write_data sink bytes) }
]

unfoldable pub say_all : Filter → List Bytes → Filter
say_all f [] = f
say_all f (bytes ∷ rest) = say_all (say f bytes) rest

abbrev pub is_answered : Filter → Bool
is_answered f = f.http_data.has_local_response

-- The local response is written, and the connection finished.
unfoldable pub answer : Filter → Ending × Filter
unfolding say_all build_local_response chunked_pieces
answer f = (finishes, say_all f (chunked_pieces (build_local_response f.http_data)))

-- The end of a streaming response.
unfoldable pub end_stream : Filter → Ending × Filter
unfolding any_finished
end_stream f = if not (any_finished f) then (fails, f) else (finishes, f)

-- The response of the handler's own.
unfoldable pub respond : Filter → Ending × Filter
unfolding say_all final_headers chunked_pieces serialize_headers
respond f =
    let hdrs = final_headers f.http_data in
    let d = record f.http_data { response_headers = hdrs } in
    let f₁ = say (record f { http_data = d }) (serialize_headers 200 hdrs) in
    (finishes, say_all f₁ (chunked_pieces d.response_body))

-- What follows the response phases.
unfoldable pub after_response : Filter → Ending × Filter
unfolding answer end_stream respond any_streaming
after_response f =
    let streaming = any_streaming f in
    if is_answered f
    then (if streaming then (fails, f) else answer f)
    else (if streaming then end_stream f else respond f)

-- Whether a read is one that the loop gives up on.
abbrev pub is_failed_read : BodyReadResult → Bool
is_failed_read r = elim r.status [ error ↦ true | truncated ↦ true | _ ↦ is_empty r.bytes ]

module _ (host : ProxyWasm HttpResponseSink) where
  -- The response phases, on the default headers; `pacifier` is what the diagnostic body depends on, where
  -- `g_body_pacifier` is set.
  unfoldable pub response_phases : Filter → Option Diagnosis → Filter
  unfolding response_headers_phase response_body_phase response_trailers_phase build_response_body
  response_phases f pacifier =
      let body : Bytes = elim pacifier [ none ↦ [] | some g ↦ build_response_body g f.http_data ] in
      let d = record f.http_data {
        response_body = body;
        response_headers =
            (codes "Content-Type", codes "text/plain") ∷ (codes "Connection", codes "close") ∷ [];
      } in
      response_trailers_phase host
        (response_body_phase host (response_headers_phase host (record f { http_data = d })))

  -- What follows the request body.
  unfoldable pub after_body : Filter → Option Diagnosis → Ending × Filter
  unfolding request_trailers_phase any_streaming answer end_stream after_response response_phases
  after_body f pacifier =
      let f' = if not (is_answered f) then request_trailers_phase host f else f in
      if is_answered f'
      then answer f'
      else if any_streaming f'
      then end_stream f'
      else after_response (response_phases f' pacifier)

  -- A part of the body goes to the filters.
  unfoldable pub pass_body : Filter → Bytes → Bool → Filter
  unfolding request_body_phase
  pass_body f bytes end_of_stream =
      request_body_phase host (record f { http_data = record f.http_data { request_body = bytes } })
        end_of_stream

  -- The loop over the body: `none` where the worker waits for more of it, else whether the loop was
  -- left without an error.
  unfoldable pub read_body : ℕ → ℕ → List BodyReadResult → Filter → Option (Bool × Filter)
  unfolding pass_body
  read_body content_length consumed [] f =
      if ltb consumed content_length && not (is_answered f) then none else some (true, f)
  read_body content_length consumed (r ∷ rs) f =
      let now = consumed + length r.bytes in
      let rest = read_body content_length now rs (pass_body f r.bytes (leb content_length now)) in
      if ltb consumed content_length && not (is_answered f)
      then (if is_failed_read r then some (false, f) else rest)
      else some (true, f)

  -- The body from its prefix on.
  unfoldable pub stream_body : ConnectionIo → List BodyReadResult → Filter → Option (Bool × Filter)
  unfolding read_body pass_body
  stream_body c reads f =
      let consumed = length c.body_prefix in
      let f' =
        if not (is_empty c.body_prefix)
        then pass_body f c.body_prefix (leb c.content_length consumed)
        else f in
      if ltb 0 c.content_length
      then read_body c.content_length consumed reads f'
      else some (true, f)

  -- `handle_request` after the request headers.
  unfoldable pub after_headers :
      ConnectionIo → List BodyReadResult → Option Diagnosis → Filter → Option (Ending × Filter)
  unfolding answer stream_body after_body
  after_headers c reads pacifier f =
      if is_answered f then some (answer f) else elim (stream_body c reads f) [
        | none ↦ none
        | some (ended, f') ↦ if ended then some (after_body f' pacifier) else some (fails, f')
      ]

  -- A filter context for a request on a connection.
  abbrev pub open_filter : ℕ → HttpData → Filter
  open_filter context_id d = record {
    context_id = context_id;
    http_data = d;
    sink = some (record { conn = true; streaming = false; error = false; writes = [] });
    module_order = [];
    scopes = [];
  }

  -- `handle_request`: `none` where the worker waits for more of the body. `modules` are the loaded
  -- modules, and `context_id` comes from `g_next_context_id`.
  unfoldable pub handle_request :
      List Bytes
      → Option Diagnosis
      → ℕ
      → ConnectionIo
      → List BodyReadResult
      → Option (Ending × Filter)
  unfolding parse_request request_headers_phase after_headers
  handle_request modules pacifier context_id c reads = elim (parse_request c.header_data no_data) [
    | none ↦ some (fails, open_filter context_id no_data)
    | some d ↦ after_headers c reads pacifier (
        request_headers_phase host (open_filter context_id d) modules
          (not (ltb 0 c.content_length)))
  ]
