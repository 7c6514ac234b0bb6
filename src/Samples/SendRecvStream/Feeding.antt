-- ===== src/Samples/SendRecvStream/Feeding.antt =====
-- A request with its body in parts, and how the response of send_recv_stream goes on with them.
use lswasm.Base.{
  ℕ, ◌+◌, ◌%◌, ◌^◌, ◌≡◌, refl, sym, ap, ◌∙◌, Bool, true, false, some, List, [], ◌∷◌, ◌++◌,
  append-nil, append_assoc, arith,
}
use lswasm.Base.{length, is_empty}
use lswasm.Base.{Bytes, codes}
use lswasm.ResponseSink.Framing.{chunks, chunks-append}
use lswasm.ResponseSink.Latch.{http_sink}
use lswasm.Context.{set_request_body, set_end_of_stream}
use lswasm.Context.Host.{HostSide, get_buffer, non_empty}
use lswasm.Context.Written.{Context}
use lswasm.Samples.{FilterApi}
use lswasm.Samples.Lawful.{IsLawful, with_body, is_nil}
use lswasm.Samples.SendRecvStream.{
  SendRecvStreamContext, new_context, preamble_text, response_headers, State, stream_preamble,
  on_request_headers, ensure_preamble, echo, echo_body, end_body, on_request_body,
}
use lswasm.Samples.SendRecvStream.Calls.{
  IsHeaderBlock, Streams, Ended, IsFresh, written-Streams, finished-Ended, sent-Streams,
}

-- What is echoed after the preamble.
abbrev pub echoed : List Bytes → List Bytes
echoed [] = codes "(no body)\n" ∷ []
echoed (part ∷ parts) = part ∷ parts

module _ (api : FilterApi Context) where
  -- The parts of the body, one call of `onRequestBody` for each, the last with the end of the stream.
  abbrev pub feed : State Context → List Bytes → State Context
  feed st [] = st
  feed st (body ∷ rest) =
      let c = with_body st.1 body (is_nil rest) in
      feed (on_request_body api st.0 c (length body) (is_nil rest)).1 rest

  -- A request as `handle_request` passes it on: the headers, and the parts of the body if there are any.
  abbrev pub serve : Context → List Bytes → State Context
  serve c parts = feed (on_request_headers api new_context c (is_nil parts)).1 parts

  -- The filter as it begins its response.
  abbrev pub started : Context → SendRecvStreamContext
  started c = record new_context {
    streaming_supported = api.is_supported c;
    preamble = preamble_text api.environ (api.request_header_pairs c);
  }

module _ (h : HostSide) (api : FilterApi Context) (law : IsLawful http_sink h api) where
  -- The filter streams, and its response has begun.
  pub record IsReady (st : State Context) (block : Bytes) (parts : List Bytes) (body : Bytes)
      : Type 0 where
    pub supported : st.0.streaming_supported ≡ true
    pub begun : st.0.headers_sent ≡ true
    pub streams : Streams (st.1) block parts body

  -- The first call of `streamPreamble`.
  pub stream_preamble-IsReady :
      (f : SendRecvStreamContext) (c : Context) (body : Bytes)
      → IsFresh c body
      → f.streaming_supported ≡ true
      → f.headers_sent ≡ false
      → is_empty f.preamble ≡ false
      → (block : Bytes) × (st : State Context) × IsHeaderBlock block
        × (stream_preamble api f c ≡ (true, st))
        × IsReady st block (f.preamble ∷ []) body
  unfolding stream_preamble
  stream_preamble-IsReady f c body v supported unsent some_text =
      let (block, is_block, fine, streams) = sent-Streams h api law c body v in
      let c' = (api.send_response_headers c 200 response_headers).1 in
      (
        block,
        (
          record f { headers_sent = true; preamble = [] },
          (api.write_response_chunk c' f.preamble).1,
        ),
        is_block,
        ground (arith, fine),
        record {
          supported = supported;
          begun = refl;
          streams = written-Streams h api law c' f.preamble block [] body streams;
        },
      )

  -- One part of the body in the buffer of the host.
  echo_some :
      (f : SendRecvStreamContext) (c : Context) (b : ℕ) (body : Bytes)
      → f.streaming_supported ≡ true
      → c.request_body ≡ b ∷ body
      → echo_body api (f, c) (length (b ∷ body)) ≡ (
        record f { total_body_echoed = (f.total_body_echoed + length (b ∷ body)) % 2 ^ 32 },
        (api.write_response_chunk c (b ∷ body)).1,
      )
  unfolding echo_body echo get_buffer
  echo_some f c b body supported buffered =
      let fetched : api.buffer_bytes c 0 (length (b ∷ body)) ≡ some (b ∷ body) =
        ap (λ t. api.buffer_bytes c 0 (length t)) (sym buffered)
        ∙ (law.buffered c ∙ ap non_empty buffered) in
      ground (arith, fetched)

  echo_body-IsReady :
      (st : State Context) (block : Bytes) (parts : List Bytes) (body : Bytes)
      → IsReady st block parts body
      → IsReady (echo_body api st (length body)) block (parts ++ (body ∷ [])) body
  echo_body-IsReady (f, c) block parts [] v =
      let w = v.streams in
      unfold echo_body in
      record {
        supported = v.supported;
        begun = v.begun;
        streams = record {
          s = w.s;
          has_sink = w.has_sink;
          open' = w.open';
          written =
              w.written
              ∙ ap (λ t. block ∷ t) (sym (chunks-append parts [] ∙ append-nil (chunks parts)));
          state = w.state;
          buffered = w.buffered;
        };
      }
  echo_body-IsReady (f, c) block parts (b ∷ body) v =
      rw (echo_some f c b body v.supported v.streams.buffered) (record {
        supported = v.supported;
        begun = v.begun;
        streams = written-Streams h api law c (b ∷ body) block parts (b ∷ body) v.streams;
      })

  -- Once the response has begun, `onRequestBody` has nothing to do in its first part.
  ensure_preamble-IsReady :
      (f : SendRecvStreamContext) (c : Context)
      → f.headers_sent ≡ true
      → ensure_preamble api f c ≡ (f, c)
  unfolding ensure_preamble stream_preamble
  ensure_preamble-IsReady f c begun = ground arith

  with_body-Streams :
      (c : Context) (block : Bytes) (parts : List Bytes) (old body : Bytes) (end_of_stream : Bool)
      → Streams c block parts old
      → Streams (with_body c body end_of_stream) block parts body
  unfolding set_request_body set_end_of_stream
  with_body-Streams c block parts old body end_of_stream v = record {
    s = v.s;
    has_sink = v.has_sink;
    open' = v.open';
    written = v.written;
    state = v.state;
    buffered = refl;
  }

  with_body-IsReady :
      (st : State Context) (block : Bytes) (parts : List Bytes) (old body : Bytes)
      (end_of_stream : Bool)
      → IsReady st block parts old
      → IsReady (ensure_preamble api (st.0) (with_body st.1 body end_of_stream)) block parts body
  with_body-IsReady (f, c) block parts old body end_of_stream v =
      rw (ensure_preamble-IsReady f (with_body c body end_of_stream) v.begun) (record {
        supported = v.supported;
        begun = v.begun;
        streams = with_body-Streams c block parts old body end_of_stream v.streams;
      })

  end_body-Ended :
      (st : State Context) (block : Bytes) (parts : List Bytes) (body : Bytes)
      → IsReady st block parts body
      → Ended (end_body api st true).1.1 block parts
  unfolding end_body
  end_body-Ended (f, c) block parts body v =
      let e : (end_body api (f, c) true).1.1 ≡ (api.finish_response c).1 =
        ground (arith, v.supported) in
      rw e (finished-Ended h api law c block parts body v.streams)

  pub feed-Ended :
      (st : State Context) (block : Bytes) (parts : List Bytes) (body : Bytes) (rest : List Bytes)
      → IsReady (ensure_preamble api (st.0) (with_body st.1 body (is_nil rest))) block parts body
      → Ended (feed api st (body ∷ rest)).1 block (parts ++ (body ∷ rest))
  unfolding on_request_body
  feed-Ended (f, c) block parts body [] v =
      let st = ensure_preamble api f (with_body c body true) in
      end_body-Ended (echo_body api st (length body)) block (parts ++ (body ∷ [])) body
        (echo_body-IsReady st block parts body v)
  feed-Ended (f, c) block parts body (next ∷ rest) v =
      let st = ensure_preamble api f (with_body c body false) in
      let st' = echo_body api st (length body) in
      let ready = echo_body-IsReady st block parts body v in
      rw (← append_assoc parts (body ∷ []) (next ∷ rest)) (
        feed-Ended st' block (parts ++ (body ∷ [])) next rest
          (with_body-IsReady st' block (parts ++ (body ∷ [])) body next (is_nil rest) ready))
