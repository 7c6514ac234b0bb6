-- ===== src/Context/Tests.antt =====
-- Runs of a filter's calls, and the theorems of `LsWasmContext` at concrete inputs.
use lswasm.Base.{ℕ, suc, ◌≡◌, refl, true, false, not, some, List, [], ◌∷◌, ◌++◌}
use lswasm.Base.{length, is_empty, All}
use lswasm.Base.{Bytes, codes}
use lswasm.Base.{numeral}
use lswasm.HttpUtils.Names.{header_name_eq}
use lswasm.ResponseSink.Http.{HttpResponseSink, init, send_headers, write_body, finish_body}
use lswasm.ResponseSink.Chunked.{dechunk}
use lswasm.ResponseSink.Framing.{concat}
use lswasm.ResponseSink.Latch.{http_sink}
use lswasm.Context.{LsWasmContext, fresh, set_response_sink}
use lswasm.Context.HeaderMaps.{get_header_map_value, replace_header_map_value}
use lswasm.Context.Streaming.{
  Call, sends, writes, finishes, call, run, write_response_chunk, finish_response,
  send_response_headers,
}
use lswasm.HttpUtils.{serialize_headers}
use lswasm.HttpUtils.Pairs.{deserialize_header_pairs}
use lswasm.Context.Protocol.{recording, IsFollowing, run_protocol}
use lswasm.ResponseSink.Lsapi.{LsapiCalls}
use lswasm.ResponseSink.Lsapi as Lsapi
use lswasm.ResponseSink.Latch.{lsapi_sink}
use lswasm.Context.Transports.{results, IsAgreed, is_broken, start_lsapi, transports_agree}
use lswasm.Context.Written.{IsBlock}
use lswasm.Context.Delivery.{start, accepted, finished_response}

-- A context of no particular sink with two values under one name.
abbrev with_headers : LsWasmContext ℕ
unfolding fresh
with_headers = record fresh {
  header_maps = (0, (codes "Via", codes "a") ∷ (codes "VIA", codes "b") ∷ []) ∷ [];
}

replaced_value :
    (get_header_map_value
      (replace_header_map_value with_headers 0 (codes "via") (codes "c")).1
      0
      (codes "vIa")).1
    ≡ codes "c"
unfolding get_header_map_value replace_header_map_value header_name_eq fresh
replaced_value = refl

-- Status 200 with no headers, two chunks, the end, and a chunk too late.
abbrev session : List Call
session =
    writes (codes "early")
    ∷ sends (200 ∷ 0 ∷ 0 ∷ 0 ∷ [])
    ∷ writes (codes "ab")
    ∷ writes (codes "c")
    ∷ finishes []
    ∷ writes (codes "late")
    ∷ []

session-accepted : accepted start session ≡ codes "ab" ∷ codes "c" ∷ []
unfolding accepted call run set_response_sink fresh init write_response_chunk finish_response
    send_response_headers send_headers write_body finish_body deserialize_header_pairs numeral
    serialize_headers header_name_eq
session-accepted = refl

run_protocol_example :
    IsFollowing (run (recording http_sink) (set_response_sink fresh (some (init true, []))) session)
run_protocol_example = run_protocol http_sink (init true) session

finished_response_example :
    (s : HttpResponseSink) × (block : Bytes) × (out : List Bytes) × ((run http_sink start
        session).sink
      ≡ some s)
    × (s.writes ≡ block ∷ out)
    × IsBlock block
    × (dechunk (suc (length (accepted start session))) (concat out ++ [])
        ≡ some (concat (accepted start session), []))
unfolding call run set_response_sink fresh init write_response_chunk finish_response
    send_response_headers send_headers write_body finish_body deserialize_header_pairs numeral
    serialize_headers header_name_eq
finished_response_example = finished_response session [] refl

-- A library whose requests count the calls.
abbrev counting : LsapiCalls ℕ
counting = record {
  set_resp_status = λ r code. suc r;
  append_resp_header = λ r key value. (not (is_empty key), suc r);
  finalize_resp_headers = λ r. (true, suc r);
  write = λ r bytes. (true, suc r);
  flush = λ r. (true, suc r);
}

session-IsAgreed : All IsAgreed session
unfolding deserialize_header_pairs
session-IsAgreed = (tt, (refl, (tt, (tt, (tt, (tt, tt))))))

session-is_broken :
    is_broken (run (lsapi_sink counting) (start_lsapi counting 0) session).sink ≡ false
unfolding run call fresh set_response_sink write_response_chunk finish_response
    send_response_headers deserialize_header_pairs Lsapi.send_headers Lsapi.write_body
    Lsapi.finish_body
session-is_broken = refl

transports_agree_example :
    (results http_sink start session
      ≡ results (lsapi_sink counting) (start_lsapi counting 0) session)
    × ((run http_sink start session).streaming_state
        ≡ (run (lsapi_sink counting) (start_lsapi counting 0) session).streaming_state)
transports_agree_example = transports_agree counting 0 session session-IsAgreed session-is_broken
