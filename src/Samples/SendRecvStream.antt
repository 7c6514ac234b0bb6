-- ===== src/Samples/SendRecvStream.antt =====
-- samples/send_recv_stream/send_recv_stream.cpp: the filter that echoes the body as it arrives. What it
-- only logs is left out.
pub mod Calls
pub mod Feeding
pub mod Echo
use lswasm.Base.{ℕ, ◌+◌, ◌%◌, ◌^◌, Bool, true, false, not, ◌&&◌, none, some, [], ◌∷◌, ◌++◌}
use lswasm.Base.{ltb, if◌then◌else◌}
use lswasm.Base.{length, is_empty}
use lswasm.Base.{Bytes, codes}
use lswasm.HttpUtils.{HeaderPairs}
use lswasm.Samples.{
  FilterHeadersStatus, continue, stop_iteration, FilterDataStatus, stop_iteration_and_buffer,
  stop_iteration_no_buffer, Environ, FilterApi, is_ok, entry_lines, pair_lines, end_line,
}

-- The fields of `SendRecvStreamContext`.
pub record SendRecvStreamContext : Type 0 where
  pub preamble : Bytes
  pub streaming_supported : Bool
  pub headers_sent : Bool
  pub total_body_echoed : ℕ

-- A new context, by the initializers of the fields.
unfoldable pub new_context : SendRecvStreamContext
new_context = record {
  preamble = [];
  streaming_supported = false;
  headers_sent = false;
  total_body_echoed = 0;
}

abbrev none_line : Bytes
none_line = codes "  (none)\n"

-- The part of `buildPreamble` on the environment.
unfoldable pub environ_lines : Environ → Bytes
unfolding entry_lines
environ_lines env = elim env.sizes [
  | none ↦ none_line
  | some (env_count, env_buf_size) ↦
      if ltb 0 env_count && ltb 0 env_buf_size
      then (elim env.entries [ none ↦ [] | some entries ↦ entry_lines entries ])
      else none_line
]

-- `buildPreamble`
unfoldable pub preamble_text : Environ → HeaderPairs → Bytes
unfolding environ_lines pair_lines
preamble_text env pairs =
    codes "=== Environment Variables ===\n"
    ++ (environ_lines env
        ++ (codes "\n=== Request Headers ===\n"
            ++ (pair_lines pairs ++ codes "\n=== Request Body ===\n")))

-- The headers of `streamPreamble`.
abbrev pub response_headers : HeaderPairs
response_headers =
    (codes "Content-Type", codes "text/plain")
    ∷ (codes "Connection", codes "close")
    ∷ (codes "X-Wasm-Filter", codes "send_recv_stream/active")
    ∷ (codes "X-Powered-By", codes "lswasm/proxy-wasm")
    ∷ []

-- A filter with the state of its host.
abbrev pub State : Type 0 → Type 0
State C = SendRecvStreamContext × C

module _ {C : Type 0} (api : FilterApi C) where
  -- `streamPreamble` once the headers have been sent.
  unfoldable pub write_preamble : SendRecvStreamContext → C → State C
  write_preamble f c =
      let f' = record f { headers_sent = true } in
      if is_empty f.preamble
      then (f', c)
      else (record f' { preamble = [] }, (api.write_response_chunk c f.preamble).1)

  -- `streamPreamble`
  unfoldable pub stream_preamble : SendRecvStreamContext → C → Bool × State C
  unfolding write_preamble
  stream_preamble f c =
      let (rc, c') = api.send_response_headers c 200 response_headers in
      if f.headers_sent
      then (true, (f, c))
      else if not (is_ok rc)
      then (false, (f, c'))
      else (true, write_preamble f c')

  -- The single response of `onRequestHeaders`. `std::move` leaves the preamble empty.
  unfoldable pub send_at_once : State C → FilterHeadersStatus × State C
  send_at_once (f, c) =
      let body = f.preamble ++ codes "(no body)\n" in
      (stop_iteration, (record f { preamble = [] }, (api.send_local_response c 200 [] body []).1))

  -- What `onRequestHeaders` does after `streamPreamble`.
  unfoldable pub stream_at_once : Bool × State C → FilterHeadersStatus × State C
  unfolding send_at_once
  stream_at_once (true, (f, c)) =
      let c' = (api.write_response_chunk c (codes "(no body)\n")).1 in
      (stop_iteration, (f, (api.finish_response c').1))
  stream_at_once (false, s) = send_at_once s

  -- `onRequestHeaders`
  unfoldable pub on_request_headers :
      SendRecvStreamContext → C → Bool → FilterHeadersStatus × State C
  unfolding stream_preamble stream_at_once send_at_once preamble_text
  on_request_headers f c end_of_stream =
      let f' = record f {
        streaming_supported = api.is_supported c;
        preamble = preamble_text api.environ (api.request_header_pairs c);
      } in
      if end_of_stream
      then (if f'.streaming_supported
          then stream_at_once (stream_preamble f' c)
          else send_at_once (f', c))
      else (continue, (f', c))

  -- The first part of `onRequestBody`: the headers and the preamble have been sent, or streaming is
  -- given up.
  unfoldable pub ensure_preamble : SendRecvStreamContext → C → State C
  unfolding stream_preamble
  ensure_preamble f c =
      let (streamed, (f', c')) = stream_preamble f c in
      if not f.streaming_supported
      then (f, c)
      else if streamed
      then (f', c')
      else (record f' { streaming_supported = false }, c')

  -- A chunk that is not empty. `size_t` has 32 bits in WebAssembly.
  unfoldable pub echo : State C → Bytes → State C
  echo (f, c) chunk =
      if f.streaming_supported
      then (
        record f { total_body_echoed = (f.total_body_echoed + length chunk) % 2 ^ 32 },
        (api.write_response_chunk c chunk).1,
      )
      else (record f { preamble = f.preamble ++ chunk }, c)

  -- The second part: the chunk is fetched and echoed.
  unfoldable pub echo_body : State C → ℕ → State C
  unfolding echo
  echo_body s body_buffer_length =
      if ltb 0 body_buffer_length
      then (elim (api.buffer_bytes (s.1) 0 body_buffer_length) [
        | none ↦ s
        | some chunk ↦ if ltb 0 (length chunk) then echo s chunk else s
      ])
      else s

  -- The last part: what happens at the end of the stream.
  unfoldable pub end_body : State C → Bool → FilterDataStatus × State C
  unfolding end_line
  end_body (f, c) end_of_stream =
      let text = if is_empty f.preamble then codes "(empty body)\n" else end_line f.preamble in
      if not end_of_stream
      then (stop_iteration_and_buffer, (f, c))
      else if f.streaming_supported
      then (stop_iteration_no_buffer, (f, (api.finish_response c).1))
      else (
        stop_iteration_no_buffer,
        (record f { preamble = text }, (api.send_local_response c 200 [] text []).1),
      )

  -- `onRequestBody`
  unfoldable pub on_request_body : SendRecvStreamContext → C → ℕ → Bool → FilterDataStatus × State C
  unfolding ensure_preamble echo_body end_body
  on_request_body f c body_buffer_length end_of_stream =
      end_body (echo_body (ensure_preamble f c) body_buffer_length) end_of_stream

  -- `onResponseHeaders`
  unfoldable pub on_response_headers : SendRecvStreamContext → C → FilterHeadersStatus × State C
  on_response_headers f c =
      let c₁ =
        (api.add_response_header c (codes "X-Wasm-Filter") (codes "send_recv_stream/active")).1 in
      let c₂ = (api.add_response_header c₁ (codes "X-Powered-By") (codes "lswasm/proxy-wasm")).1 in
      if not f.headers_sent then (continue, (f, c₂)) else (continue, (f, c))
