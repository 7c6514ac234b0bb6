-- ===== src/Context.antt =====
-- `LsWasmContext` of src/wasm_module_manager.h: what one request keeps for a filter, and the calls of
-- the proxy-wasm interface that the filter makes on it.
pub mod HeaderMaps
pub mod Host
pub mod Streaming
pub mod Protocol
pub mod Written
pub mod Delivery
pub mod Sinks
pub mod Transports
pub mod Tests
use lswasm.Base.{ℕ, Bool, true, false, Option, none, List, [], ◌∷◌, ◌++◌}
use lswasm.Base.{Bytes}
use lswasm.HttpUtils.{HeaderPairs}

-- The results of `proxy_wasm::WasmResult` that the host returns.
pub data WasmResult : Type 0 where
  ok not_found bad_argument internal_failure unimplemented : WasmResult

-- `StreamingResponseState`
pub data StreamingResponseState : Type 0 where
  idle headers_sent finished : StreamingResponseState

-- The fields of `LsWasmContext`, over the type of the response sink; `sink` is `none` where `sink_` is
-- null. A header map type is the number of its enumerator.
pub record LsWasmContext (S : Type 0) : Type 0 where
  pub log : Bytes
  pub has_local_response : Bool
  pub local_response_code : ℕ
  pub local_response_body : Bytes
  pub local_response_details : Bytes
  pub local_response_headers : HeaderPairs
  pub header_maps : List (ℕ × HeaderPairs)
  pub request_body : Bytes
  pub response_body : Bytes
  pub end_of_stream : Bool
  pub sink : Option S
  pub streaming_state : StreamingResponseState

module _ {S : Type 0} where
  -- A new context, by the initializers of the fields.
  unfoldable pub fresh : LsWasmContext S
  fresh = record {
    log = [];
    has_local_response = false;
    local_response_code = 0;
    local_response_body = [];
    local_response_details = [];
    local_response_headers = [];
    header_maps = [];
    request_body = [];
    response_body = [];
    end_of_stream = true;
    sink = none;
    streaming_state = idle;
  }

  -- `log`
  unfoldable pub write_log : LsWasmContext S → Bytes → WasmResult × LsWasmContext S
  write_log c message = (ok, record c { log = c.log ++ (message ++ (10 ∷ [])) })

  -- `sendLocalResponse`
  unfoldable pub send_local_response :
      LsWasmContext S → ℕ → Bytes → HeaderPairs → Bytes → WasmResult × LsWasmContext S
  send_local_response c code body headers details = (
    ok,
    record c {
      has_local_response = true;
      local_response_code = code;
      local_response_body = body;
      local_response_details = details;
      local_response_headers = headers;
    },
  )

  -- `resetLocalResponse`
  unfoldable pub reset_local_response : LsWasmContext S → LsWasmContext S
  reset_local_response c = record c {
    has_local_response = false;
    local_response_code = 0;
    local_response_body = [];
    local_response_details = [];
    local_response_headers = [];
  }

  -- `resetHeaderMaps`
  unfoldable pub reset_header_maps : LsWasmContext S → LsWasmContext S
  reset_header_maps c = record c { header_maps = [] }

  -- `setRequestBody`, `setResponseBody`, `setEndOfStream`
  unfoldable pub set_request_body : LsWasmContext S → Bytes → LsWasmContext S
  set_request_body c body = record c { request_body = body }

  unfoldable pub set_response_body : LsWasmContext S → Bytes → LsWasmContext S
  set_response_body c body = record c { response_body = body }

  unfoldable pub set_end_of_stream : LsWasmContext S → Bool → LsWasmContext S
  set_end_of_stream c eos = record c { end_of_stream = eos }

  -- `setResponseSink`
  unfoldable pub set_response_sink : LsWasmContext S → Option S → LsWasmContext S
  set_response_sink c sink = record c { sink = sink }

  -- `resetStreamingState`
  unfoldable pub reset_streaming_state : LsWasmContext S → LsWasmContext S
  reset_streaming_state c = record c { sink = none; streaming_state = idle }
