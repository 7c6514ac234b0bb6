-- ===== src/ResponseSink/Http.antt =====
-- src/http_response_sink.h: the sink of the HTTP transport.
use lswasm.Base.{ℕ, Bool, true, false, not, ◌||◌, Option, none, some, List, [], ◌∷◌, ◌++◌}
use lswasm.Base.{if◌then◌else◌}
use lswasm.Base.{length, is_empty}
use lswasm.Base.{Bytes, codes, bytes_eq}
use lswasm.Base.{numeral}
use lswasm.HttpUtils.{HeaderPairs, crlf, serialize_headers}
use lswasm.HttpUtils.Names.{header_name_eq, lower}

-- The fields of `HttpResponseSink`: whether `conn_` is set, the flags, and the strings handed to
-- `conn_->writeData`, in order. `writeData` returns nothing, so the sink does not depend on it.
pub record HttpResponseSink : Type 0 where
  pub conn : Bool
  pub streaming : Bool
  pub error : Bool
  pub writes : List Bytes

unfoldable pub init : Bool → HttpResponseSink
init conn = record { conn = conn; streaming = false; error = false; writes = [] }

abbrev pub content_length_name : Bytes
content_length_name = codes "Content-Length"

abbrev pub transfer_encoding_name : Bytes
transfer_encoding_name = codes "Transfer-Encoding"

abbrev pub chunked : Bytes
chunked = codes "chunked"

-- `conn_->writeData`
abbrev pub write_data : HttpResponseSink → Bytes → HttpResponseSink
write_data s bytes = record s { writes = s.writes ++ (bytes ∷ []) }

-- The loop of `sendHeaders` over the headers: what it has collected, and `saw_chunked`. It stops with
-- `none` at a conflicting Transfer-Encoding.
unfoldable pub normalize : HeaderPairs → Bool → HeaderPairs → Option (HeaderPairs × Bool)
normalize [] saw_chunked normalized = some (normalized, saw_chunked)
normalize ((key, value) ∷ rest) saw_chunked normalized =
    let skipped = normalize rest saw_chunked normalized in
    let framed = normalize rest true (normalized ++ ((key, value) ∷ [])) in
    let copied = normalize rest saw_chunked (normalized ++ ((key, value) ∷ [])) in
    if header_name_eq key content_length_name
    then skipped
    else if header_name_eq key transfer_encoding_name
    then (if bytes_eq (lower value) chunked then framed else none)
    else copied

-- What `sendHeaders` does with the outcome of the loop.
unfoldable pub send_normalized :
    HttpResponseSink → ℕ → Option (HeaderPairs × Bool) → Bool × HttpResponseSink
send_normalized s status_code none = (false, record s { error = true })
send_normalized s status_code (some (normalized, saw_chunked)) =
    let headers =
      if saw_chunked then normalized else normalized ++ ((transfer_encoding_name, chunked) ∷ []) in
    (true, write_data s (serialize_headers status_code headers))

-- `HttpResponseSink::sendHeaders`
unfoldable pub send_headers : HttpResponseSink → ℕ → HeaderPairs → Bool → Bool × HttpResponseSink
unfolding send_normalized normalize
send_headers s status_code headers streaming =
    if not s.conn
    then (false, record s { error = true })
    else (let s' = record s { streaming = streaming } in
        if streaming
        then send_normalized s' status_code (normalize headers false [])
        else (true, write_data s' (serialize_headers status_code headers)))

-- What `snprintf` puts in `size_buf`.
abbrev pub size_line : Bytes → Bytes
size_line bytes = numeral 16 (length bytes) ++ crlf

-- `<hex-size>\r\n<data>\r\n`
abbrev pub chunk : Bytes → Bytes
chunk bytes = size_line bytes ++ (bytes ++ crlf)

-- `HttpResponseSink::writeBody`
unfoldable pub write_body : HttpResponseSink → Bytes → Bool × HttpResponseSink
write_body s bytes =
    if not s.conn || s.error
    then (false, s)
    else if is_empty bytes
    then (true, s)
    else if s.streaming
    then (true, write_data s (chunk bytes))
    else (true, write_data s bytes)

abbrev pub terminator : Bytes
terminator = codes "0\r\n\r\n"

-- `HttpResponseSink::finishBody`
unfoldable pub finish_body : HttpResponseSink → Bool × HttpResponseSink
finish_body s =
    if not s.conn || s.error
    then (false, s)
    else if s.streaming
    then (true, write_data s terminator)
    else (true, s)

-- `HttpResponseSink::hasError`
unfoldable pub has_error : HttpResponseSink → Bool
has_error s = s.error
