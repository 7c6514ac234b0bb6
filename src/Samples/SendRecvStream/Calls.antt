-- ===== src/Samples/SendRecvStream/Calls.antt =====
-- The calls of send_recv_stream on this server: what they leave in the sink of the request.
use lswasm.Base.{
  ℕ, ◌≡◌, refl, sym, ap, subst, ◌∙◌, inl, inr, true, false, some, List, [], ◌∷◌, ◌++◌, append-nil,
  arith,
}
use lswasm.Base.{keep, any_of}
use lswasm.Base.{Bytes}
use lswasm.HttpUtils.{HeaderPairs, serialize_headers}
use lswasm.HttpUtils.Names.{header_name_eq}
use lswasm.ResponseSink.Http.{
  HttpResponseSink, terminator, write_body, finish_body, write_data, send_headers,
}
use lswasm.ResponseSink.Headers.{IsChunkedOnly, send_headers_streaming, is_conflict, is_other}
use lswasm.ResponseSink.Framing.{IsStreaming, chunks, chunks-append}
use lswasm.ResponseSink.Latch.{http_sink}
use lswasm.Context.{WasmResult, ok, idle, headers_sent, finished}
use lswasm.Context.Host.{HostSide}
use lswasm.Context.Streaming.{
  send_with, write_with, finish_with, streaming_send_headers_lem, write_call_lem, finish_call_lem,
}
use lswasm.Context.Written.{Context}
use lswasm.Samples.{FilterApi}
use lswasm.Samples.Lawful.{IsLawful, call-sends}
use lswasm.Samples.SendRecvStream.{response_headers}

-- The header block of the filter's response, chunked, with all its headers.
pub record IsHeaderBlock (block : Bytes) : Type 0 where
  pub sent : HeaderPairs
  pub written : block ≡ serialize_headers 200 sent
  pub framed : IsChunkedOnly sent
  pub kept : keep is_other sent ≡ response_headers

-- A response has begun: after the header block these parts have been written.
pub record Streams (c : Context) (block : Bytes) (parts : List Bytes) (body : Bytes) : Type 0 where
  pub s : HttpResponseSink
  pub has_sink : c.sink ≡ some s
  pub open' : IsStreaming s
  pub written : s.writes ≡ block ∷ chunks parts
  pub state : c.streaming_state ≡ headers_sent
  pub buffered : c.request_body ≡ body

-- It has ended.
pub record Ended (c : Context) (block : Bytes) (parts : List Bytes) : Type 0 where
  pub s : HttpResponseSink
  pub has_sink : c.sink ≡ some s
  pub written : s.writes ≡ block ∷ (chunks parts ++ (terminator ∷ []))
  pub state : c.streaming_state ≡ finished

-- It has not begun.
pub record IsFresh (c : Context) (body : Bytes) : Type 0 where
  pub s : HttpResponseSink
  pub has_sink : c.sink ≡ some s
  pub connected : s.conn ≡ true
  pub well : s.error ≡ false
  pub unwritten : s.writes ≡ []
  pub state : c.streaming_state ≡ idle
  pub buffered : c.request_body ≡ body

-- What the calls do once the response has begun.
module _ (c : Context) (s : HttpResponseSink) (has_sink : c.sink ≡ some s) (open' : IsStreaming s)
    (state : c.streaming_state ≡ headers_sent) where
  write_with_lem :
      (bytes : Bytes)
      → (write_with http_sink c s bytes).1
        ≡ record c { sink = some (record s { writes = s.writes ++ chunks (bytes ∷ []) }) }
  unfolding write_with write_body
  write_with_lem [] = ground (arith, append-nil s.writes)
  write_with_lem (b ∷ bytes) = ground arith

  finish_with_lem :
      (finish_with http_sink c s).1
      ≡ record c { sink = some (write_data s terminator); streaming_state = finished }
  unfolding finish_with finish_body
  finish_with_lem = ground arith

send_with_lem :
    (c : Context) (s : HttpResponseSink) (code : ℕ) (hs : HeaderPairs)
    → c.streaming_state ≡ idle
    → (send_headers s code hs true).0 ≡ true
    → send_with http_sink c s code hs ≡ (
      ok,
      record c { sink = some (send_headers s code hs true).1; streaming_state = headers_sent },
    )
unfolding send_with
send_with_lem c s code hs state sent = ground arith

module _ (h : HostSide) (api : FilterApi Context) (law : IsLawful http_sink h api) where
  pub written-Streams :
      (c : Context) (bytes block : Bytes) (parts : List Bytes) (body : Bytes)
      → Streams c block parts body
      → Streams (api.write_response_chunk c bytes).1 block (parts ++ (bytes ∷ [])) body
  written-Streams c bytes block parts body v =
      let e : (api.write_response_chunk c bytes).1
          ≡ record c { sink = some (record v.s { writes = v.s.writes ++ chunks (bytes ∷ []) }) } =
        ap (λ (p : WasmResult × Context). p.1)
          (law.written c bytes ∙ write_call_lem http_sink c v.s v.has_sink bytes)
        ∙ write_with_lem c v.s v.has_sink v.open' v.state bytes in
      rw e (record {
        s = record v.s { writes = v.s.writes ++ chunks (bytes ∷ []) };
        has_sink = refl;
        open' = record {
          connected = v.open'.connected;
          streams = v.open'.streams;
          well = v.open'.well;
        };
        written = rw (v.written, chunks-append parts bytes) refl;
        state = v.state;
        buffered = v.buffered;
      })

  pub finished-Ended :
      (c : Context) (block : Bytes) (parts : List Bytes) (body : Bytes)
      → Streams c block parts body
      → Ended (api.finish_response c).1 block parts
  finished-Ended c block parts body v =
      let e : (api.finish_response c).1
          ≡ record c { sink = some (write_data v.s terminator); streaming_state = finished } =
        ap (λ (p : WasmResult × Context). p.1)
          (law.finished c ∙ finish_call_lem http_sink c v.s v.has_sink [])
        ∙ finish_with_lem c v.s v.has_sink v.open' v.state in
      rw e (record {
        s = write_data v.s terminator;
        has_sink = refl;
        written = ap (λ t. t ++ (terminator ∷ [])) v.written;
        state = refl;
      })

  agrees : any_of is_conflict response_headers ≡ false
  unfolding header_name_eq
  agrees = refl

  others : keep is_other response_headers ≡ response_headers
  unfolding header_name_eq
  others = refl

  -- The headers reach the connection.
  pub sent-Streams :
      (c : Context) (body : Bytes)
      → IsFresh c body
      → (block : Bytes) × IsHeaderBlock block
        × ((api.send_response_headers c 200 response_headers).0 ≡ ok)
        × Streams (api.send_response_headers c 200 response_headers).1 block [] body
  sent-Streams c body v =
      let reached : api.send_response_headers c 200 response_headers
          ≡ send_with http_sink c v.s 200 response_headers =
        law.sent c 200 response_headers
        ∙ (call-sends http_sink c 200 response_headers (omega arith) (omega arith) (omega arith)
            ∙ streaming_send_headers_lem http_sink c v.s v.has_sink 200 response_headers) in
      elim (send_headers_streaming v.s 200 response_headers v.connected) [
        | inl (refused, conflict, after) ↦ absurd (ground (arith, agrees, conflict))
        | inr (hs, sent, fine, after, framed, kept) ↦
            let e = reached ∙ send_with_lem c v.s 200 response_headers v.state sent in
            (
              serialize_headers 200 hs,
              record { sent = hs; written = refl; framed = framed; kept = kept ∙ others },
              ap (λ (p : WasmResult × Context). p.0) e,
              subst (λ (p : WasmResult × Context). Streams p.1 (serialize_headers 200 hs) [] body)
                  (sym e)
                  (record {
                    s = (send_headers v.s 200 response_headers true).1;
                    has_sink = refl;
                    open' = ground (arith, after, v.connected, v.well);
                    written =
                        ap (λ (t : HttpResponseSink). t.writes) after
                        ∙ ap (λ t. t ++ (serialize_headers 200 hs ∷ [])) v.unwritten;
                    state = refl;
                    buffered = v.buffered;
                  }),
            )
      ]
