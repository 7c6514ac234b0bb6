-- ===== src/HttpFilter/Tests.antt =====
-- The theorems about the chain of filters at concrete inputs.
use lswasm.Base.{ℕ, ◌≡◌, refl, true, false, none, some, List, [], ◌∷◌}
use lswasm.Base.{if◌then◌else◌}
use lswasm.Base.{Bytes, codes, bytes_eq}
use lswasm.Context.{LsWasmContext, fresh}
use lswasm.HttpFilter.{
  HttpData, ProxyWasm, HttpFilterContext, Callback, on_create, on_request_headers, on_request_body,
  on_request_trailers, on_response_headers, on_response_body, on_response_trailers,
  synthesize_pseudo_headers, start_modules, request_headers_phase,
}
use lswasm.HttpFilter.Phases.{request_body_phase}
use lswasm.HttpFilter.Pseudo.{IsSynthesized, synthesize_pseudo_headers-IsSynthesized}
use lswasm.HttpFilter.Chain.{is_answered, Chain, start_step}
use lswasm.HttpFilter.Turns.{IsStart, request_headers_phase-Chain, request_body}

abbrev request : HttpData
request = record {
  method = codes "GET";
  path = codes "/";
  version = codes "HTTP/1.1";
  request_headers = (codes "host", codes "example.org") ∷ [];
  response_headers = [];
  request_body = codes "body";
  response_body = [];
  has_local_response = false;
  local_response_code = 0;
  local_response_body = [];
  local_response_additional_headers = [];
}

-- A module `deny` that answers request bodies, and others that do nothing.
abbrev deny : Callback → LsWasmContext ℕ → LsWasmContext ℕ
deny (on_request_body n eos) c = record c { has_local_response = true; local_response_code = 403 }
deny on_create c = c
deny on_request_trailers c = c
deny on_response_trailers c = c
deny (on_request_headers eos) c = c
deny (on_response_headers eos) c = c
deny (on_response_body n eos) c = c

abbrev host : ProxyWasm ℕ
host = record {
  request_type = 0;
  response_type = 2;
  stream_context = λ m. if bytes_eq m (codes "broken") then none else some fresh;
  invoke = λ m callback c. if bytes_eq m (codes "deny") then deny callback c else c;
}

abbrev opened : HttpFilterContext ℕ
opened = record {
  context_id = 1;
  http_data = request;
  sink = some 5;
  module_order = [];
  scopes = [];
}

abbrev modules : List Bytes
modules = codes "broken" ∷ codes "deny" ∷ codes "pass" ∷ []

abbrev started : HttpFilterContext ℕ
started = start_modules host opened modules false

-- The broken module has no scope, and the last is not asked for the body.
module_order : started.module_order ≡ codes "deny" ∷ codes "pass" ∷ []
unfolding start_modules fresh
module_order = refl

abbrev answered : HttpFilterContext ℕ
answered = request_body_phase host started true

is_answered-answered : is_answered answered ≡ true
unfolding start_modules fresh request_body_phase
is_answered-answered = refl

answered_code : answered.http_data.local_response_code ≡ 403
unfolding start_modules fresh request_body_phase
answered_code = refl

synthesize_pseudo_headers-IsSynthesized_example :
    IsSynthesized request (synthesize_pseudo_headers request)
synthesize_pseudo_headers-IsSynthesized_example = synthesize_pseudo_headers-IsSynthesized request

request_headers_phase-Chain_example :
    Chain
      (start_step host false)
      (record opened { http_data = synthesize_pseudo_headers request })
      modules
      (request_headers_phase host opened modules false)
    × ((x : HttpFilterContext ℕ) (m : Bytes) → IsStart host false x m (start_step host false x m))
request_headers_phase-Chain_example = request_headers_phase-Chain host false opened modules refl
