-- ===== src/Server/Response.antt =====
-- `build_local_response` and `write_chunked` of src/main.cpp, and the response that `handle_request`
-- writes after the filters.
pub mod Sizes
pub mod Tests
use lswasm.Base.{ℕ, zero, suc, min, Bool, ◌||◌, List, [], ◌∷◌, ◌++◌}
use lswasm.Base.{ltb, if◌then◌else◌}
use lswasm.Base.{length, take, drop}
use lswasm.Base.{Bytes, codes}
use lswasm.Base.{numeral}
use lswasm.HttpUtils.{HeaderPairs, serialize_headers}
use lswasm.HttpUtils.Names.{header_name_eq}
use lswasm.Context.HeaderMaps.{remove_name}
use lswasm.HttpFilter.{HttpData}

-- The headers that a local response may not set.
abbrev pub is_managed : Bytes × Bytes → Bool
is_managed h =
    header_name_eq h.0 (codes "Content-Length")
    || (header_name_eq h.0 (codes "Content-Type") || header_name_eq h.0 (codes "Connection"))

-- The loop of `build_local_response` over the additional headers.
unfoldable pub merge_headers : HeaderPairs → HeaderPairs → HeaderPairs
merge_headers headers [] = headers
merge_headers headers (h ∷ hs) =
    let kept = merge_headers headers hs in
    let added = merge_headers (headers ++ (h ∷ [])) hs in if is_managed h then kept else added

-- The headers of a local response.
unfoldable pub local_headers : HttpData → HeaderPairs
unfolding merge_headers
local_headers d =
    merge_headers
      ((codes "Content-Type", codes "text/plain")
        ∷ (codes "X-Powered-By", codes "lswasm/proxy-wasm")
        ∷ (codes "Connection", codes "close")
        ∷ [])
      d.local_response_additional_headers
    ++ ((codes "Content-Length", numeral 10 (length d.local_response_body)) ∷ [])

-- `build_local_response`
unfoldable pub build_local_response : HttpData → Bytes
unfolding local_headers serialize_headers
build_local_response d =
    serialize_headers d.local_response_code (local_headers d) ++ d.local_response_body

-- The headers of the response that `handle_request` makes itself, its Content-Length put right.
unfoldable pub final_headers : HttpData → HeaderPairs
unfolding remove_name
final_headers d =
    remove_name (codes "Content-Length") d.response_headers
    ++ ((codes "Content-Length", numeral 10 (length d.response_body)) ∷ [])

-- `BODY_CHUNK_SIZE`
abbrev pub body_chunk_size : ℕ
body_chunk_size = 524288

-- The strings that `write_chunked` passes to `writeData`, for a size of chunks. Each turn of the loop
-- takes a character at least, so that the length of the data is fuel enough.
unfoldable pub pieces : ℕ → ℕ → Bytes → List Bytes
pieces size zero bytes = []
pieces size (suc fuel) bytes =
    let rest = pieces size fuel (drop (min (length bytes) size) bytes) in
    if ltb 0 (length bytes) then take (min (length bytes) size) bytes ∷ rest else []

unfoldable pub chunked_pieces : Bytes → List Bytes
unfolding pieces
chunked_pieces bytes = pieces body_chunk_size (length bytes) bytes
