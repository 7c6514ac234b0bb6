-- ===== src/Samples/Lawful.antt =====
-- The server of this repository as the host of a filter: what its SDK passes on to `LsWasmContext`, by
-- the interface of proxy-wasm and the README of the streaming API.
use lswasm.Base.{
  ℕ, ◌^◌, ◌<◌, ◌≡◌, refl, sym, ap, ◌∙◌, Bool, true, false, List, [], ◌∷◌, ◌++◌, append-nil, arith,
}
use lswasm.Base.{length, drop}
use lswasm.Base.{Bytes}
use lswasm.HttpUtils.{HeaderPairs}
use lswasm.HttpUtils.Pairs.{deserialize_header_pairs}
use lswasm.HttpUtils.Pairs.RoundTrip.{
  le32, marshal_pairs, Fits, u32_at-le32, deserialize-marshal_pairs,
}
use lswasm.ResponseSink.{ResponseSink}
use lswasm.Context.{LsWasmContext, send_local_response, set_request_body, set_end_of_stream}
use lswasm.Context.Host.{HostSide, get_buffer, http_request_body}
use lswasm.Context.Streaming.{
  streaming_send_headers, send_response_headers, call, sends, writes, finishes,
}
use lswasm.Samples.{FilterApi}

-- The wrappers of `lswasm_streaming.h` find the foreign functions, and call them with the arguments of
-- the README; the other calls reach the methods of the context. Where a whole buffer is asked for,
-- the bytes of the buffer are given.
pub record IsLawful {S : Type 0} (k : ResponseSink S) (h : HostSide)
    (api : FilterApi (LsWasmContext S)) : Type 0 where
  pub supported : (c : LsWasmContext S) → api.is_supported c ≡ true
  pub sent :
      (c : LsWasmContext S) (code : ℕ) (hs : HeaderPairs)
      → api.send_response_headers c code hs ≡ call k c (sends (le32 code ++ marshal_pairs hs))
  pub written :
      (c : LsWasmContext S) (bytes : Bytes)
      → api.write_response_chunk c bytes ≡ call k c (writes bytes)
  pub finished : (c : LsWasmContext S) → api.finish_response c ≡ call k c (finishes [])
  pub buffered :
      (c : LsWasmContext S)
      → api.buffer_bytes c 0 (length c.request_body) ≡ get_buffer h c http_request_body
  pub answered :
      (c : LsWasmContext S) (code : ℕ) (details body : Bytes) (hs : HeaderPairs)
      → api.send_local_response c code details body hs ≡ send_local_response c code body hs details

-- What the host sets before `onRequestBody`, as `visit_request_body` does.
abbrev pub with_body : {S : Type 0} → LsWasmContext S → Bytes → Bool → LsWasmContext S
with_body c body end_of_stream = set_end_of_stream (set_request_body c body) end_of_stream

abbrev pub is_nil : List Bytes → Bool
is_nil [] = true
is_nil (part ∷ parts) = false

drop-le32 : (n : ℕ) (rest : Bytes) → drop 4 (le32 n ++ rest) ≡ rest
drop-le32 n rest = refl

-- A status code and headers that a filter passes in the format of the README reach
-- `streamingSendHeaders` as they are.
pub call-sends :
    {S : Type 0} (k : ResponseSink S) (c : LsWasmContext S) (code : ℕ) (hs : HeaderPairs)
    → code < 2 ^ 32
    → length hs < 2 ^ 32
    → Fits hs
    → call k c (sends (le32 code ++ marshal_pairs hs)) ≡ streaming_send_headers k c code hs
unfolding call send_response_headers
call-sends k c code hs small few fits =
    let argument = le32 code ++ marshal_pairs hs in
    let read_back : deserialize_header_pairs (drop 4 argument) ≡ hs =
      ap deserialize_header_pairs (sym (append-nil (marshal_pairs hs)))
      ∙ deserialize-marshal_pairs hs [] few fits in
    rw (u32_at-le32 [] (marshal_pairs hs) code 0 refl small, read_back) (ground arith)
