-- ===== src/Samples/SendRecvStream/Echo.antt =====
-- What send_recv_stream writes over an HTTP connection of this server.
use lswasm.Base.{
  suc, ◌+◌, ◌≡◌, refl, sym, ap, subst, Bool, true, false, some, List, [], ◌∷◌, ◌++◌, arith,
}
use lswasm.Base.{if_cases}
use lswasm.Base.{length, is_empty}
use lswasm.Base.{Bytes, codes}
use lswasm.ResponseSink.Http.{HttpResponseSink, terminator}
use lswasm.ResponseSink.Chunked.{dechunk}
use lswasm.ResponseSink.Framing.{chunks, concat, dechunk-body}
use lswasm.ResponseSink.Latch.{http_sink}
use lswasm.Context.{finished, set_request_body, set_end_of_stream}
use lswasm.Context.Host.{HostSide}
use lswasm.Context.Written.{Context}
use lswasm.Samples.{FilterApi, FilterHeadersStatus}
use lswasm.Samples.Lawful.{IsLawful, with_body, is_nil}
use lswasm.Samples.SendRecvStream.{
  SendRecvStreamContext, new_context, preamble_text, State, stream_preamble, stream_at_once,
  on_request_headers, ensure_preamble,
}
use lswasm.Samples.SendRecvStream.Calls.{
  IsHeaderBlock, Ended, IsFresh, written-Streams, finished-Ended,
}
use lswasm.Samples.SendRecvStream.Feeding.{
  echoed, feed, serve, started, stream_preamble-IsReady, feed-Ended,
}

module _ (h : HostSide) (api : FilterApi Context) (law : IsLawful http_sink h api) where
  preamble_some :
      (c : Context) → is_empty (preamble_text api.environ (api.request_header_pairs c)) ≡ false
  unfolding preamble_text
  preamble_some c = refl

  serve_nothing :
      (c : Context) (st : State Context)
      → stream_preamble api (started api c) c ≡ (true, st)
      → (serve api c []).1
        ≡ (api.finish_response (api.write_response_chunk (st.1) (codes "(no body)\n")).1).1
  unfolding on_request_headers stream_at_once
  serve_nothing c st e =
      let ended =
        (api.finish_response (api.write_response_chunk (st.1) (codes "(no body)\n")).1).1 in
      if_cases (λ (r : FilterHeadersStatus × State Context). r.1.1 ≡ ended) (api.is_supported c) _ _
        (λ streams. ap (λ (x : Bool × State Context). (stream_at_once api x).1.1) e)
        (λ refused. absurd (ground (arith, law.supported c, refused)))

  serve_some :
      (c : Context) (body : Bytes) (rest : List Bytes)
      → serve api c (body ∷ rest) ≡ feed api (started api c, c) (body ∷ rest)
  unfolding on_request_headers
  serve_some c body rest = refl

  with_body-IsFresh :
      (c : Context) (old body : Bytes) (end_of_stream : Bool)
      → IsFresh c old
      → IsFresh (with_body c body end_of_stream) body
  unfolding set_request_body set_end_of_stream
  with_body-IsFresh c old body end_of_stream v = record {
    s = v.s;
    has_sink = v.has_sink;
    connected = v.connected;
    well = v.well;
    unwritten = v.unwritten;
    state = v.state;
    buffered = refl;
  }

  ensure_first :
      (f : SendRecvStreamContext) (c : Context) (st : State Context)
      → f.streaming_supported ≡ true
      → stream_preamble api f c ≡ (true, st)
      → ensure_preamble api f c ≡ st
  unfolding ensure_preamble
  ensure_first f c st supported e = rw (e, supported) refl

  unsent : (c : Context) → (started api c).headers_sent ≡ false
  unfolding new_context
  unsent c = refl

  serve-Ended :
      (c : Context) (old : Bytes) (parts : List Bytes)
      → IsFresh c old
      → (block : Bytes) × IsHeaderBlock block
        × Ended
            (serve api c parts).1
            block
            (preamble_text api.environ (api.request_header_pairs c) ∷ echoed parts)
  serve-Ended c old [] v =
      let (block, st, is_block, e, ready) =
        stream_preamble-IsReady h api law (started api c) c old v (law.supported c) (unsent c)
          (preamble_some c) in
      (
        block,
        is_block,
        rw (serve_nothing c st e) (
            finished-Ended h api law _ block _ old
              (written-Streams h api law (st.1) (codes "(no body)\n") block _ old ready.streams)),
      )
  serve-Ended c old (body ∷ rest) v =
      let c₁ = with_body c body (is_nil rest) in
      let (block, st, is_block, e, ready) =
        stream_preamble-IsReady h api law (started api c) c₁ body
          (with_body-IsFresh c old body (is_nil rest) v) (law.supported c) (unsent c)
          (preamble_some c) in
      (
        block,
        is_block,
        rw (serve_some c body rest) (
            feed-Ended h api law (started api c, c) block ((started api c).preamble ∷ []) body rest
              (rw (ensure_first (started api c) c₁ st (law.supported c) e) ready)),
      )

-- The filter on this server, over a connected HTTP sink that is new: whatever the host and the parts of
-- the request body are, the response ends, and what was handed to the connection is one header block
-- with status 200, declared chunked and with the headers of the filter, followed by bytes that a
-- chunked decoder reads as the preamble and then the body, as it came ("(no body)" if there is none).
pub serve-echo :
    (h : HostSide) (api : FilterApi Context) (law : IsLawful http_sink h api) (c : Context)
    (old : Bytes) (parts : List Bytes) (rest : Bytes)
    → IsFresh c old
    → (s : HttpResponseSink) × (block : Bytes) × (out : List Bytes) × ((serve api c parts).1.sink
        ≡ some s)
      × ((serve api c parts).1.streaming_state ≡ finished)
      × IsHeaderBlock block
      × (s.writes ≡ block ∷ out)
      × (dechunk (length (echoed parts) + 2) (concat out ++ rest)
          ≡ some (
            preamble_text api.environ (api.request_header_pairs c) ++ concat (echoed parts),
            rest,
          ))
serve-echo h api law c old parts rest v =
    let preamble = preamble_text api.environ (api.request_header_pairs c) in
    let (block, is_block, v') = serve-Ended h api law c old parts v in
    let fuel : length (echoed parts) + 2 ≡ suc (length (preamble ∷ echoed parts)) = omega arith in
    (
      v'.s,
      block,
      chunks (preamble ∷ echoed parts) ++ (terminator ∷ []),
      v'.has_sink,
      v'.state,
      is_block,
      v'.written,
      subst
          (λ n.
            dechunk n (concat (chunks (preamble ∷ echoed parts) ++ (terminator ∷ [])) ++ rest)
            ≡ some (preamble ++ concat (echoed parts), rest))
          (sym fuel) (dechunk-body (preamble ∷ echoed parts) rest),
    )
