-- ===== src/ResponseSink/Tests.antt =====
-- Runs of the sinks, and their theorems at concrete inputs.
use lswasm.Base.{ℕ, ◌+◌, ◌≡◌, refl, true, false, some, List, [], ◌∷◌, ◌++◌}
use lswasm.Base.{ltb}
use lswasm.Base.{Bytes, codes}
use lswasm.Base.{numeral}
use lswasm.HttpUtils.{HeaderPairs, serialize_headers}
use lswasm.HttpUtils.Names.{header_name_eq}
use lswasm.ResponseSink.Http.{HttpResponseSink, init, send_headers, finish_body, write_body}
use lswasm.ResponseSink.Headers.{Streams, send_headers_streaming}
use lswasm.ResponseSink.Framing.{write_bodies, concat, stream-dechunk}
use lswasm.ResponseSink.Chunked.{dechunk}
use lswasm.ResponseSink.Lsapi.{LsapiCalls}
use lswasm.ResponseSink.Latch.{IsLatching, lsapi_sink, lsapi_sink-IsLatching}

abbrev open_sink : HttpResponseSink
open_sink = record { conn = true; streaming = true; error = false; writes = codes "H" ∷ [] }

abbrev with_length : HeaderPairs
with_length = (codes "content-LENGTH", codes "5") ∷ (codes "X", codes "y") ∷ []

send_headers_runs :
    (send_headers (init true) 200 with_length true).1.writes
    ≡ codes "HTTP/1.1 200 OK\r\nX: y\r\nTransfer-Encoding: chunked\r\n\r\n" ∷ []
unfolding send_headers init numeral header_name_eq serialize_headers
send_headers_runs = refl

write_body_runs :
    (write_body open_sink (codes "0123456789abcdefg")).1.writes
    ≡ codes "H" ∷ codes "11\r\n0123456789abcdefg\r\n" ∷ []
unfolding write_body numeral
write_body_runs = refl

-- A library that counts its calls and fails at the third header.
abbrev counting : LsapiCalls ℕ
counting = record {
  set_resp_status = λ r code. r;
  append_resp_header = λ r k v. (ltb r 2, r + 1);
  finalize_resp_headers = λ r. (true, r);
  write = λ r bytes. (true, r);
  flush = λ r. (true, r);
}

send_headers_streaming_example :
    Streams (init true) 200 with_length (send_headers (init true) 200 with_length true)
unfolding init
send_headers_streaming_example = send_headers_streaming (init true) 200 with_length refl

stream-dechunk_example :
    let parts = codes "ab" ∷ [] ∷ codes "c" ∷ [] in
    (out : List Bytes) × ((finish_body (write_bodies open_sink parts)).0 ≡ true)
    × ((finish_body (write_bodies open_sink parts)).1
        ≡ record open_sink { writes = (codes "H" ∷ []) ++ out })
    × (dechunk 4 (concat out ++ codes "next") ≡ some (codes "abc", codes "next"))
stream-dechunk_example =
    stream-dechunk open_sink (codes "ab" ∷ [] ∷ codes "c" ∷ []) (codes "next")
      (record { connected = refl; streams = refl; well = refl })

lsapi_sink-IsLatching_example : IsLatching (lsapi_sink counting)
lsapi_sink-IsLatching_example = lsapi_sink-IsLatching counting
