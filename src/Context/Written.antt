-- ===== src/Context/Written.antt =====
-- What one call of a filter leaves written on an HTTP connection.
use lswasm.Base.{
  ℕ, ◌≡◌, refl, sym, ap, subst, ◌∙◌, inl, inr, true, false, not, some, List, [], ◌∷◌, ◌++◌,
  append-nil, arith,
}
use lswasm.Base.{if_cases}
use lswasm.Base.{is_empty}
use lswasm.Base.{Bytes}
use lswasm.HttpUtils.{HeaderPairs, serialize_headers}
use lswasm.ResponseSink.Http.{
  HttpResponseSink, chunk, terminator, write_data, send_headers, write_body, finish_body,
}
use lswasm.ResponseSink.Headers.{IsChunkedOnly, send_headers_streaming}
use lswasm.ResponseSink.Framing.{chunks, chunks-append}
use lswasm.ResponseSink.Latch.{http_sink}
use lswasm.Context.{
  LsWasmContext, WasmResult, ok, StreamingResponseState, idle, headers_sent, finished,
}
use lswasm.Context.Streaming.{
  is_idle, is_headers_sent, send_with, write_with, finish_with, Call, writes,
}

-- The bytes that a call has added to the body: those of a chunk that was accepted.
abbrev pub taken : Call → WasmResult → List Bytes
taken (writes bytes) ok = bytes ∷ []
taken x r = []

abbrev pub Context : Type 0
Context = LsWasmContext HttpResponseSink

-- A header block that says that the body is chunked, and nothing else about its length.
abbrev pub IsBlock : Bytes → Type 0
IsBlock block =
    (code : ℕ) × (hs : HeaderPairs) × (block ≡ serialize_headers code hs) × IsChunkedOnly hs

-- What has been written in each state, when the chunks `parts` have been accepted.
abbrev pub Shape : StreamingResponseState → HttpResponseSink → List Bytes → Type 0
Shape idle s parts = (s.writes ≡ []) × (parts ≡ [])
Shape headers_sent s parts =
    (block : Bytes) × IsBlock block × (s.writes ≡ block ∷ chunks parts) × (s.streaming ≡ true)
Shape finished s parts =
    (block : Bytes) × IsBlock block × (s.writes ≡ block ∷ (chunks parts ++ (terminator ∷ [])))

abbrev pub IsDelivered : Context → List Bytes → Type 0
IsDelivered c parts =
    (s : HttpResponseSink) × (c.sink ≡ some s) × (s.conn ≡ true) × Shape c.streaming_state s parts

module _ (s : HttpResponseSink) where
  write_body_failed :
      (bytes : Bytes) → s.conn ≡ true → (write_body s bytes).0 ≡ false → (write_body s bytes).1 ≡ s
  unfolding write_body
  write_body_failed bytes has_conn failed = ground arith

  write_body_streamed :
      (bytes : Bytes)
      → s.streaming ≡ true
      → is_empty bytes ≡ false
      → (write_body s bytes).0 ≡ true
      → (write_body s bytes).1 ≡ write_data s (chunk bytes)
  unfolding write_body
  write_body_streamed bytes streams some_bytes written = ground arith

  finish_body_failed : s.conn ≡ true → (finish_body s).0 ≡ false → (finish_body s).1 ≡ s
  unfolding finish_body
  finish_body_failed has_conn failed = ground arith

  finish_body_streamed :
      s.streaming ≡ true → (finish_body s).0 ≡ true → (finish_body s).1 ≡ write_data s terminator
  unfolding finish_body
  finish_body_streamed streams done = ground arith

module _ (c : Context) (s : HttpResponseSink) (has_sink : c.sink ≡ some s)
    (has_conn : s.conn ≡ true) (parts : List Bytes) where
  pub send_with-IsDelivered :
      (code : ℕ) (hs : HeaderPairs)
      → Shape c.streaming_state s parts
      → IsDelivered (send_with http_sink c s code hs).1 parts
  unfolding send_with
  send_with-IsDelivered code hs shape =
      let P = λ (p : WasmResult × Context). IsDelivered p.1 parts in
      let r = send_headers s code hs true in
      let t = send_headers_streaming s code hs has_conn in
      if_cases P (not (is_idle c.streaming_state)) _ _ (λ _. (s, has_sink, has_conn, shape))
        λ at_idle.
          let e : c.streaming_state ≡ idle = ground arith in
          let before : Shape idle s parts = subst (λ st. Shape st s parts) e shape in
          if_cases P (not r.0) _ _
            (λ failed. elim t [
              | inl (no_result, bad, after) ↦ (
                r.1,
                refl,
                ap (λ (t : HttpResponseSink). t.conn) after ∙ has_conn,
                subst (λ st. Shape st r.1 parts) (sym e)
                    (ap (λ (t : HttpResponseSink). t.writes) after ∙ before.0, before.1),
              )
              | inr (hs', done, _, _, _, _) ↦ absurd (ground arith)
            ])
            (λ sent. elim t [
              | inl (no_result, _, _) ↦ absurd (ground arith)
              | inr (hs', done, fine, after, only, same) ↦ (
                r.1,
                refl,
                ap (λ (t : HttpResponseSink). t.conn) after ∙ has_conn,
                (
                  serialize_headers code hs',
                  (code, hs', refl, only),
                  ap (λ (t : HttpResponseSink). t.writes) after ∙ (rw (before.0, before.1) refl),
                  ap (λ (t : HttpResponseSink). t.streaming) after,
                ),
              )
            ])

  pub write_with-IsDelivered :
      (bytes : Bytes)
      → Shape c.streaming_state s parts
      → IsDelivered
          (write_with http_sink c s bytes).1
          (parts ++ taken (writes bytes) (write_with http_sink c s bytes).0)
  unfolding write_with
  write_with-IsDelivered bytes shape =
      let P = λ (p : WasmResult × Context). IsDelivered p.1 (parts ++ taken (writes bytes) p.0) in
      let r = write_body s bytes in
      let as_before : IsDelivered c (parts ++ []) =
        rw (append-nil parts) (s, has_sink, has_conn, shape) in
      if_cases P (not (is_headers_sent c.streaming_state)) _ _ (λ _. as_before)
        λ open'.
          let e : c.streaming_state ≡ headers_sent = ground arith in
          let before : Shape headers_sent s parts = subst (λ st. Shape st s parts) e shape in
          if_cases P (is_empty bytes) _ _
            (λ empty. (
              s,
              has_sink,
              has_conn,
              subst (λ st. Shape st s (parts ++ (bytes ∷ []))) (sym e)
                  (
                    before.0,
                    before.1,
                    before.2
                        ∙ ap (λ t. before.0 ∷ t)
                            (rw (chunks-append parts bytes, empty, append-nil) refl),
                    before.3,
                  ),
            ))
            λ some_bytes.
              if_cases P (not r.0) _ _
                (λ failed. rw (append-nil parts) (
                  r.1,
                  refl,
                  ap (λ (t : HttpResponseSink). t.conn)
                        (write_body_failed s bytes has_conn (ground arith))
                      ∙ has_conn,
                  subst (λ t. Shape c.streaming_state t parts)
                      (sym (write_body_failed s bytes has_conn (ground arith))) shape,
                ))
                (λ written.
                  let after = write_body_streamed s bytes before.3 some_bytes (ground arith) in
                  (
                    r.1,
                    refl,
                    ap (λ (t : HttpResponseSink). t.conn) after ∙ has_conn,
                    subst (λ st. Shape st r.1 (parts ++ (bytes ∷ []))) (sym e)
                        (
                          before.0,
                          before.1,
                          ap (λ (t : HttpResponseSink). t.writes) after
                              ∙ (rw (before.2, chunks-append parts bytes, some_bytes) refl),
                          ap (λ (t : HttpResponseSink). t.streaming) after ∙ before.3,
                        ),
                  ))

  pub finish_with-IsDelivered :
      Shape c.streaming_state s parts → IsDelivered (finish_with http_sink c s).1 parts
  unfolding finish_with
  finish_with-IsDelivered shape =
      let P = λ (p : WasmResult × Context). IsDelivered p.1 parts in
      let r = finish_body s in
      if_cases P (not (is_headers_sent c.streaming_state)) _ _ (λ _. (s, has_sink, has_conn, shape))
        λ open'.
          let e : c.streaming_state ≡ headers_sent = ground arith in
          let before : Shape headers_sent s parts = subst (λ st. Shape st s parts) e shape in
          if_cases P (not r.0) _ _
            (λ failed.
              let after = finish_body_failed s has_conn (ground arith) in
              (
                r.1,
                refl,
                ap (λ (t : HttpResponseSink). t.conn) after ∙ has_conn,
                subst (λ t. Shape c.streaming_state t parts) (sym after) shape,
              ))
            (λ done.
              let after = finish_body_streamed s before.3 (ground arith) in
              (
                r.1,
                refl,
                ap (λ (t : HttpResponseSink). t.conn) after ∙ has_conn,
                (
                  before.0,
                  before.1,
                  ap (λ (t : HttpResponseSink). t.writes) after
                      ∙ ap (λ t. t ++ (terminator ∷ [])) before.2,
                ),
              ))
