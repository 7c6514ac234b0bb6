-- ===== src/HttpUtils.antt =====
-- src/http_utils.h: header names, status lines, the header block and the proxy-wasm pairs format.
pub mod Names
pub mod Pairs
pub mod Tests
use lswasm.Base.{ℕ, List, [], ◌∷◌, ◌++◌}
use lswasm.Base.{◌==◌, if◌then◌else◌}
use lswasm.Base.{Bytes, codes}
use lswasm.Base.{numeral}
use Names.{header_name_eq}

-- `using HeaderPairs`
abbrev pub HeaderPairs : Type 0
HeaderPairs = List (Bytes × Bytes)

abbrev pub crlf : Bytes
crlf = 13 ∷ 10 ∷ []

-- `reason_phrase`
unfoldable pub reason_phrase : ℕ → Bytes
reason_phrase code =
    if code == 200
    then codes "OK"
    else if code == 201
    then codes "Created"
    else if code == 204
    then codes "No Content"
    else if code == 301
    then codes "Moved Permanently"
    else if code == 302
    then codes "Found"
    else if code == 304
    then codes "Not Modified"
    else if code == 400
    then codes "Bad Request"
    else if code == 401
    then codes "Unauthorized"
    else if code == 403
    then codes "Forbidden"
    else if code == 404
    then codes "Not Found"
    else if code == 405
    then codes "Method Not Allowed"
    else if code == 431
    then codes "Request Header Fields Too Large"
    else if code == 500
    then codes "Internal Server Error"
    else if code == 502
    then codes "Bad Gateway"
    else if code == 503
    then codes "Service Unavailable"
    else []

-- The loop of `serialize_headers` over the pairs.
unfoldable pub serialize_fields : HeaderPairs → Bytes
serialize_fields [] = []
serialize_fields ((key, value) ∷ rest) =
    key ++ (codes ": " ++ (value ++ (crlf ++ serialize_fields rest)))

-- `serialize_headers`
unfoldable pub serialize_headers : ℕ → HeaderPairs → Bytes
unfolding reason_phrase serialize_fields
serialize_headers status_code headers =
    codes "HTTP/1.1 "
    ++ (numeral 10 status_code
        ++ (codes " "
            ++ (reason_phrase status_code ++ (crlf ++ (serialize_fields headers ++ crlf)))))
