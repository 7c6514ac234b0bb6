-- ===== src/Context/Streaming.antt =====
-- The streaming calls of a filter: the state machine of `LsWasmContext` (src/wasm_module_manager.h)
-- and the foreign functions of src/main.cpp that lead to it.
use lswasm.Base.{ℕ, ◌≡◌, sym, ap, subst, Bool, true, false, not, Option, none, some, List, [], ◌∷◌}
use lswasm.Base.{ltb, ◌==◌, if◌then◌else◌, if_cases}
use lswasm.Base.{length, is_empty, drop}
use lswasm.Base.{Bytes}
use lswasm.HttpUtils.{HeaderPairs}
use lswasm.HttpUtils.Pairs.{u32_at, deserialize_header_pairs}
use lswasm.ResponseSink.{ResponseSink}
use lswasm.Context.{
  LsWasmContext, WasmResult, ok, bad_argument, internal_failure, StreamingResponseState, idle,
  headers_sent, finished,
}

-- The tests of `streaming_state_`.
abbrev pub is_idle : StreamingResponseState → Bool
is_idle idle = true
is_idle headers_sent = false
is_idle finished = false

abbrev pub is_headers_sent : StreamingResponseState → Bool
is_headers_sent idle = false
is_headers_sent headers_sent = true
is_headers_sent finished = false

module _ {S : Type 0} where
  -- `hasStreamingResponse`
  unfoldable pub has_streaming_response : LsWasmContext S → Bool
  has_streaming_response c = not (is_idle c.streaming_state)

  -- `isStreamingFinished`
  unfoldable pub is_streaming_finished : LsWasmContext S → Bool
  is_streaming_finished c = elim c.streaming_state [ finished ↦ true | _ ↦ false ]

module _ {S : Type 0} (k : ResponseSink S) where
  unfoldable pub send_with : LsWasmContext S → S → ℕ → HeaderPairs → WasmResult × LsWasmContext S
  send_with c sink status_code headers =
      let (sent, sink') = k.send_headers sink status_code headers true in
      let c' = record c { sink = some sink' } in
      if not (is_idle c.streaming_state)
      then (bad_argument, c)
      else if not sent
      then (internal_failure, c')
      else (ok, record c' { streaming_state = headers_sent })

  -- `streamingSendHeaders`
  unfoldable pub streaming_send_headers :
      LsWasmContext S → ℕ → HeaderPairs → WasmResult × LsWasmContext S
  unfolding send_with
  streaming_send_headers c status_code headers = elim c.sink [
    | none ↦ (internal_failure, c)
    | some sink ↦ send_with c sink status_code headers
  ]

  unfoldable pub write_with : LsWasmContext S → S → Bytes → WasmResult × LsWasmContext S
  write_with c sink bytes =
      let (written, sink') = k.write_body sink bytes in
      let c' = record c { sink = some sink' } in
      if not (is_headers_sent c.streaming_state)
      then (bad_argument, c)
      else if is_empty bytes
      then (ok, c)
      else if not written
      then (internal_failure, c')
      else (ok, c')

  -- `streamingWriteChunk`
  unfoldable pub streaming_write_chunk : LsWasmContext S → Bytes → WasmResult × LsWasmContext S
  unfolding write_with
  streaming_write_chunk c bytes = elim c.sink [
    | none ↦ (internal_failure, c)
    | some sink ↦ write_with c sink bytes
  ]

  unfoldable pub finish_with : LsWasmContext S → S → WasmResult × LsWasmContext S
  finish_with c sink =
      let (done, sink') = k.finish_body sink in
      let c' = record c { sink = some sink' } in
      if not (is_headers_sent c.streaming_state)
      then (bad_argument, c)
      else if not done
      then (internal_failure, c')
      else (ok, record c' { streaming_state = finished })

  -- `streamingFinish`
  unfoldable pub streaming_finish : LsWasmContext S → WasmResult × LsWasmContext S
  unfolding finish_with
  streaming_finish c = elim c.sink [ none ↦ (internal_failure, c) | some sink ↦ finish_with c sink ]

  -- The foreign functions, from the context that `streaming_context` finds. The first is
  -- `lswasm_send_response_headers`.
  unfoldable pub send_response_headers : LsWasmContext S → Bytes → WasmResult × LsWasmContext S
  unfolding streaming_send_headers u32_at deserialize_header_pairs
  send_response_headers c argument =
      if length argument == 0
      then (bad_argument, c)
      else if ltb (length argument) 4
      then (bad_argument, c)
      else streaming_send_headers c (u32_at argument 0) (deserialize_header_pairs (drop 4 argument))

  -- The foreign function `lswasm_write_response_chunk`.
  unfoldable pub write_response_chunk : LsWasmContext S → Bytes → WasmResult × LsWasmContext S
  unfolding streaming_write_chunk
  write_response_chunk c argument = streaming_write_chunk c argument

  -- The foreign function `lswasm_finish_response`.
  unfoldable pub finish_response : LsWasmContext S → Bytes → WasmResult × LsWasmContext S
  unfolding streaming_finish
  finish_response c argument = streaming_finish c

-- A call of one of the foreign functions, with its argument.
pub data Call : Type 0 where
  sends writes finishes : Bytes → Call

module _ {S : Type 0} (k : ResponseSink S) where
  unfoldable pub call : LsWasmContext S → Call → WasmResult × LsWasmContext S
  call c (sends argument) = send_response_headers k c argument
  call c (writes argument) = write_response_chunk k c argument
  call c (finishes argument) = finish_response k c argument

  -- The calls of a filter, one after the other.
  unfoldable pub run : LsWasmContext S → List Call → LsWasmContext S
  run c [] = c
  run c (x ∷ xs) = run (call c x).1 xs

-- With a sink the calls come to the parts above.
module _ {S : Type 0} (k : ResponseSink S) (c : LsWasmContext S) (sink : S)
    (has_sink : c.sink ≡ some sink) where
  pub streaming_send_headers_lem :
      (code : ℕ) (hs : HeaderPairs)
      → streaming_send_headers k c code hs ≡ send_with k c sink code hs
  unfolding streaming_send_headers
  streaming_send_headers_lem code hs =
      let f : Option S → WasmResult × LsWasmContext S =
        λ o. elim o [ none ↦ (internal_failure, c) | some s ↦ send_with k c s code hs ] in
      ap f has_sink

  pub streaming_write_chunk_lem :
      (bytes : Bytes) → streaming_write_chunk k c bytes ≡ write_with k c sink bytes
  unfolding streaming_write_chunk
  streaming_write_chunk_lem bytes =
      let f : Option S → WasmResult × LsWasmContext S =
        λ o. elim o [ none ↦ (internal_failure, c) | some s ↦ write_with k c s bytes ] in
      ap f has_sink

  pub streaming_finish_lem : streaming_finish k c ≡ finish_with k c sink
  unfolding streaming_finish
  streaming_finish_lem =
      let f : Option S → WasmResult × LsWasmContext S =
        λ o. elim o [ none ↦ (internal_failure, c) | some s ↦ finish_with k c s ] in
      ap f has_sink

  -- So each foreign function comes to its part, or leaves the context as it was.
  pub send_call_cases {ℓ} :
      (P : WasmResult × LsWasmContext S → Type ℓ)
      → P (bad_argument, c)
      → ((code : ℕ) (hs : HeaderPairs) → P (send_with k c sink code hs))
      → (argument : Bytes) → P (call k c (sends argument))
  unfolding call send_response_headers
  send_call_cases P bad send argument =
      if_cases P (length argument == 0) _ _ (λ _. bad)
        λ _.
          if_cases P (ltb (length argument) 4) _ _ (λ _. bad)
            λ _.
              subst P
                (sym (
                  streaming_send_headers_lem (u32_at argument 0)
                    (deserialize_header_pairs (drop 4 argument))))
                (send _ _)

  pub write_call_lem : (bytes : Bytes) → call k c (writes bytes) ≡ write_with k c sink bytes
  unfolding call write_response_chunk
  write_call_lem bytes = streaming_write_chunk_lem bytes

  pub finish_call_lem : (argument : Bytes) → call k c (finishes argument) ≡ finish_with k c sink
  unfolding call finish_response
  finish_call_lem argument = streaming_finish_lem
