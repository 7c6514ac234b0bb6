-- ===== src/Server/Lsapi/Tests.antt =====
-- Requests over LSAPI at concrete inputs.
use lswasm.Base.{◌≡◌, refl, true, false, none, some, List, [], ◌∷◌, ◌++◌}
use lswasm.Base.{Bytes, codes}
use lswasm.HttpUtils.Names.{header_name_eq}
use lswasm.Context.{fresh}
use lswasm.HttpFilter.{ProxyWasm}
use lswasm.ResponseSink.Lsapi.{LsapiCalls, LsapiResponseSink}
use lswasm.Server.Lsapi.{
  LsapiRequest, loads, handles, ends_request, run_lsapi_loop, header_name, lsapi_data,
}
use lswasm.Server.Lsapi.Names.{cgi_name, header_name-cgi_name}

-- A library that logs what it is asked.
abbrev logging : LsapiCalls (List Bytes)
logging = record {
  set_resp_status = λ log code. log ++ (codes "status" ∷ []);
  append_resp_header = λ log name value. (true, log ++ (name ∷ []));
  finalize_resp_headers = λ log. (true, log ++ (codes "headers" ∷ []));
  write = λ log bytes. (true, log ++ (bytes ∷ []));
  flush = λ log. (true, log ++ (codes "flush" ∷ []));
}

abbrev host : ProxyWasm (LsapiResponseSink (List Bytes))
host = record {
  request_type = 0;
  response_type = 2;
  stream_context = λ m. some fresh;
  invoke = λ m callback c. c;
}

abbrev posted : LsapiRequest
posted = record {
  method = some (codes "POST");
  script_name = some (codes "/a");
  query_string = some (codes "q=1");
  request_uri = none;
  headers = (codes "HTTP_X_NAME", codes "v") ∷ [];
  content_type = some (codes "text/html");
  content_length = some (codes "3");
  body_len = 3;
  reads = some (codes "ab") ∷ some (codes "c") ∷ [];
}

posted_data :
    ((lsapi_data posted).path ≡ codes "/a?q=1")
    × ((lsapi_data posted).request_headers
        ≡ (codes "X-Name", codes "v")
          ∷ (codes "Content-Type", codes "text/html")
          ∷ (codes "Content-Length", codes "3")
          ∷ [])
unfolding lsapi_data header_name_eq
posted_data = (refl, refl)

-- The module is loaded before the first request, and no request is handled after the shutdown.
loop_of_two :
    run_lsapi_loop true true (false ∷ false ∷ true ∷ false ∷ [])
    ≡ (0, loads ∷ handles ∷ ends_request ∷ handles ∷ ends_request ∷ [])
unfolding run_lsapi_loop
loop_of_two = refl

loop_without_module :
    run_lsapi_loop true false (false ∷ false ∷ []) ≡ (0, loads ∷ ends_request ∷ [])
unfolding run_lsapi_loop
loop_without_module = refl

header_name-cgi_name_example :
    header_name_eq (header_name (cgi_name (codes "Accept-Language"))) (codes "Accept-Language")
    ≡ true
header_name-cgi_name_example = header_name-cgi_name (codes "Accept-Language") (λ e. cc) refl
