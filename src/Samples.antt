-- ===== src/Samples.antt =====
-- The filters of samples/, with what they call: the proxy-wasm SDK, WASI, and the wrappers of
-- `lswasm_streaming.h`, none of which is in the repository.
pub mod Lawful
pub mod SendRecvStream
pub mod SendRecvAll
pub mod SampleFilter
pub mod Tests
use lswasm.Base.{ℕ, Bool, true, false, Option, none, some, List, [], ◌∷◌, ◌++◌}
use lswasm.Base.{◌==◌, if◌then◌else◌}
use lswasm.Base.{Bytes, codes}
use lswasm.HttpUtils.{HeaderPairs}
use lswasm.Context.{WasmResult, ok}

-- `FilterHeadersStatus` and `FilterDataStatus`, as far as the filters return them.
pub data FilterHeadersStatus : Type 0 where
  continue stop_iteration : FilterHeadersStatus

pub data FilterDataStatus : Type 0 where
  continue_data stop_iteration_and_buffer stop_iteration_no_buffer : FilterDataStatus

-- What `__wasi_environ_sizes_get` and `__wasi_environ_get` answer: the number of the variables and
-- the size of their text, and the pointers to the variables; `none` for an error, and for a pointer
-- that is null.
pub record Environ : Type 0 where
  pub sizes : Option (ℕ × ℕ)
  pub entries : Option (List (Option Bytes))

-- What a filter calls, over a state `C` of the host. `buffer_bytes` is `getBufferBytes` on the request
-- body, with a start and a length. The arguments of `sendLocalResponse` are the code, the details,
-- the body and the headers.
pub record FilterApi (C : Type 0) : Type 0 where
  pub environ : Environ
  pub request_header_pairs : C → HeaderPairs
  pub buffer_bytes : C → ℕ → ℕ → Option Bytes
  pub send_local_response : C → ℕ → Bytes → Bytes → HeaderPairs → WasmResult × C
  pub add_response_header : C → Bytes → Bytes → WasmResult × C
  pub is_supported : C → Bool
  pub send_response_headers : C → ℕ → HeaderPairs → WasmResult × C
  pub write_response_chunk : C → Bytes → WasmResult × C
  pub finish_response : C → WasmResult × C

abbrev pub is_ok : WasmResult → Bool
is_ok ok = true
is_ok r = false

-- The loop over the variables of the environment, which all three filters have.
unfoldable pub entry_lines : List (Option Bytes) → Bytes
entry_lines [] = []
entry_lines (none ∷ rest) = entry_lines rest
entry_lines (some entry ∷ rest) = codes "  " ++ (entry ++ (10 ∷ entry_lines rest))

-- The loop over the header pairs, which all three filters have.
unfoldable pub pair_lines : HeaderPairs → Bytes
pair_lines [] = []
pair_lines ((name, value) ∷ rest) =
    codes "  " ++ (name ++ (codes ": " ++ (value ++ (10 ∷ pair_lines rest))))

-- Whether a string ends with a line end, by `back()`.
unfoldable pub ends_line : Bytes → Bool
ends_line [] = false
ends_line (c ∷ []) = c == 10
ends_line (c ∷ d ∷ s) = ends_line (d ∷ s)

-- A line end is added where there is none.
unfoldable pub end_line : Bytes → Bytes
unfolding ends_line
end_line s = if ends_line s then s else s ++ (10 ∷ [])
