-- ===== src/Server/Lsapi.antt =====
-- The LSAPI handler of src/main.cpp: `lsapi_header_cb`, `lsapi_handle_request` and `run_lsapi_loop`.
-- What the LSAPI library answers about a request is a record, and its output calls are those of
-- `LsapiCalls`.
mod Data
pub mod Names
pub mod Sent
pub mod Outcome
pub mod Tests
use lswasm.Base.{ℕ, ◌+◌, Bool, true, false, not, ◌&&◌, Option, none, some, List, [], ◌∷◌}
use lswasm.Base.{ltb, leb, if◌then◌else◌}
use lswasm.Base.{length}
use lswasm.Base.{Bytes, codes}
use lswasm.HttpUtils.{HeaderPairs}
use lswasm.HttpFilter.{
  ProxyWasm, HttpFilterContext, request_headers_phase, any_streaming, any_finished,
}
use lswasm.HttpFilter.Phases.{
  request_body_phase, request_trailers_phase, response_headers_phase, response_body_phase,
  response_trailers_phase,
}
use lswasm.ResponseSink.Lsapi.{LsapiCalls, LsapiResponseSink, send_headers, write_body, finish_body}
use lswasm.Server.Response.{final_headers}
pub use Data.{LsapiRequest, hyphens, title_case, or_else}
unfoldable pub use Data.{
  strip_http, header_name, lsapi_header_cb, foreach_header, lsapi_path, add_missing, lsapi_data,
  diagnostic,
}

-- At which of its returns the handler ends: with a local response, with a finished stream, with its
-- own response; or without an answer: a read failed, a stream was not finished, a local response
-- came after a stream.
pub data LsapiEnding : Type 0 where
  answered streamed responded read_failed unfinished late_answer : LsapiEnding

module _ {R : Type 0} (lsapi : LsapiCalls R) (host : ProxyWasm (LsapiResponseSink R)) where
  abbrev pub Filter : Type 0
  Filter = HttpFilterContext (LsapiResponseSink R)

  abbrev pub is_answered : Filter → Bool
  is_answered f = f.http_data.has_local_response

  -- `sendHeaders`, `writeBody` and `finishBody`, whatever they answer.
  unfoldable pub send_all : LsapiResponseSink R → ℕ → HeaderPairs → Bytes → LsapiResponseSink R
  unfolding send_headers write_body finish_body
  send_all s code headers body =
      let s₁ = (send_headers lsapi s code headers false).1 in
      let s₂ = (write_body lsapi s₁ body).1 in (finish_body lsapi s₂).1

  unfoldable pub send_response : Filter → ℕ → HeaderPairs → Bytes → Filter
  unfolding send_all
  send_response f code headers body = elim f.sink [
    | none ↦ f
    | some s ↦ record f { sink = some (send_all s code headers body) }
  ]

  -- A local response.
  unfoldable pub lsapi_answer : Filter → LsapiEnding × Filter
  unfolding send_response
  lsapi_answer f =
      let d = f.http_data in
      (
        answered,
        send_response f d.local_response_code d.local_response_additional_headers
            d.local_response_body,
      )

  -- A stream.
  unfoldable pub lsapi_stream : Filter → LsapiEnding × Filter
  unfolding any_finished
  lsapi_stream f = if not (any_finished f) then (unfinished, f) else (streamed, f)

  -- The response of the handler's own.
  unfoldable pub lsapi_respond : Filter → LsapiEnding × Filter
  unfolding send_response final_headers
  lsapi_respond f =
      let hdrs = final_headers f.http_data in
      let d = record f.http_data { response_headers = hdrs } in
      (responded, send_response (record f { http_data = d }) 200 hdrs d.response_body)

  -- The response phases, on the default headers.
  unfoldable pub lsapi_phases : Filter → Bool → Filter
  unfolding diagnostic response_headers_phase response_body_phase response_trailers_phase
  lsapi_phases f pacifier =
      let d = record f.http_data {
        response_body = if pacifier then diagnostic f.http_data else [];
        response_headers = (codes "Content-Type", codes "text/plain") ∷ [];
      } in
      response_trailers_phase host
        (response_body_phase host (response_headers_phase host (record f { http_data = d })))

  -- What follows the response phases.
  unfoldable pub lsapi_after_response : Filter → LsapiEnding × Filter
  unfolding lsapi_answer lsapi_stream lsapi_respond any_streaming
  lsapi_after_response f =
      let streaming = any_streaming f in
      if is_answered f
      then (if streaming then (late_answer, f) else lsapi_answer f)
      else (if streaming then lsapi_stream f else lsapi_respond f)

  -- What follows the request body.
  unfoldable pub lsapi_after_body : Filter → Bool → LsapiEnding × Filter
  unfolding request_trailers_phase lsapi_answer lsapi_stream lsapi_after_response lsapi_phases
      any_streaming
  lsapi_after_body f pacifier =
      let f' = if not (is_answered f) then request_trailers_phase host f else f in
      if is_answered f'
      then lsapi_answer f'
      else if any_streaming f'
      then lsapi_stream f'
      else lsapi_after_response (lsapi_phases f' pacifier)

  -- A part of the body goes to the filters.
  unfoldable pub lsapi_pass : Filter → Bytes → Bool → Filter
  unfolding request_body_phase
  lsapi_pass f bytes end_of_stream =
      request_body_phase host (record f { http_data = record f.http_data { request_body = bytes } })
        end_of_stream

  -- The loop over the body: `none` where it still reads, else whether it was left without an error.
  unfoldable pub lsapi_read : ℕ → ℕ → List (Option Bytes) → Filter → Option (Bool × Filter)
  unfolding lsapi_pass
  lsapi_read body_len consumed [] f =
      if ltb consumed body_len && not (is_answered f) then none else some (true, f)
  lsapi_read body_len consumed (none ∷ rs) f =
      if ltb consumed body_len && not (is_answered f) then some (false, f) else some (true, f)
  lsapi_read body_len consumed (some bytes ∷ rs) f =
      let now = consumed + length bytes in
      let rest = lsapi_read body_len now rs (lsapi_pass f bytes (leb body_len now)) in
      if ltb consumed body_len && not (is_answered f) then rest else some (true, f)

  -- The handler after the phase of the request headers.
  unfoldable pub lsapi_after_headers : LsapiRequest → Bool → Filter → Option (LsapiEnding × Filter)
  unfolding lsapi_answer lsapi_read lsapi_after_body
  lsapi_after_headers r pacifier f =
      if is_answered f then some (lsapi_answer f) else elim (lsapi_read r.body_len 0 r.reads f) [
        | none ↦ none
        | some (ended, f') ↦
            if ended then some (lsapi_after_body f' pacifier) else some (read_failed, f')
      ]

  -- A filter context over a new sink.
  unfoldable pub lsapi_open : ℕ → R → LsapiRequest → Filter
  unfolding lsapi_data
  lsapi_open context_id req r = record {
    context_id = context_id;
    http_data = lsapi_data r;
    sink = some (record { req = some req; error = false });
    module_order = [];
    scopes = [];
  }

  -- `lsapi_handle_request`
  unfoldable pub lsapi_handle_request :
      List Bytes → Bool → ℕ → R → LsapiRequest → Option (LsapiEnding × Filter)
  unfolding lsapi_open request_headers_phase lsapi_after_headers
  lsapi_handle_request modules pacifier context_id req r =
      lsapi_after_headers r pacifier
        (request_headers_phase host (lsapi_open context_id req r) modules (not (ltb 0 r.body_len)))

-- What the accept loop does: load the module, handle a request, finish it.
pub data LsapiAction : Type 0 where
  loads handles ends_request : LsapiAction

-- The loop of `run_lsapi_loop`, over the answers of the accepting call: for each accepted request
-- whether `g_shutdown` was set. `loadable` tells whether `loadModule` succeeds.
unfoldable pub accept_loop : Bool → Bool → List Bool → List LsapiAction
accept_loop loadable module_loaded [] = []
accept_loop loadable module_loaded (shutdown ∷ rest) =
    let further = handles ∷ ends_request ∷ accept_loop loadable true rest in
    if shutdown
    then []
    else if module_loaded
    then further
    else if loadable
    then loads ∷ further
    else loads ∷ ends_request ∷ []

-- `run_lsapi_loop`: its result and what it has done.
unfoldable pub run_lsapi_loop : Bool → Bool → List Bool → ℕ × List LsapiAction
unfolding accept_loop
run_lsapi_loop initialized loadable accepted =
    if not initialized then (1, []) else (0, accept_loop loadable false accepted)
