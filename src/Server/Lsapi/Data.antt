-- ===== src/Server/Lsapi/Data.antt =====
-- What the LSAPI handler of src/main.cpp makes of a request: `lsapi_header_cb` and the first part of
-- `lsapi_handle_request`.
use lswasm.Base.{ℕ, Bool, true, false, not, ◌&&◌, Option, none, some, List, [], ◌∷◌, ◌++◌, map}
use lswasm.Base.{ltb, ◌==◌, if◌then◌else◌}
use lswasm.Base.{length, is_empty, take, drop}
use lswasm.Base.{Bytes, codes, bytes_eq, tolower, toupper}
use lswasm.HttpUtils.{HeaderPairs}
use lswasm.HttpFilter.{HttpData, has}
use lswasm.Server.Handler.{no_data}

-- What the getters of the LSAPI library answer; `none` for a null pointer. `body_len` is 0 where the
-- call gives no positive length, and `reads` has the results of `LSAPI_ReadReqBody_r`, `none` for one
-- that is not positive.
pub record LsapiRequest : Type 0 where
  pub method : Option Bytes
  pub script_name : Option Bytes
  pub query_string : Option Bytes
  pub request_uri : Option Bytes
  pub headers : HeaderPairs
  pub content_type : Option Bytes
  pub content_length : Option Bytes
  pub body_len : ℕ
  pub reads : List (Option Bytes)

-- The prefix `HTTP_` taken off a name that is longer.
unfoldable pub strip_http : Bytes → Bytes
strip_http name =
    if ltb 5 (length name) && bytes_eq (take 5 name) (codes "HTTP_") then drop 5 name else name

-- Underscores replaced by hyphens.
abbrev pub hyphens : Bytes → Bytes
hyphens = map (λ c. if c == b'_' then b'-' else c)

-- The loop over the characters with `next_upper`.
abbrev pub title_case : Bool → Bytes → Bytes
title_case next_upper [] = []
title_case next_upper (c ∷ cs) =
    let after_hyphen = c ∷ title_case true cs in
    let after_letter = (if next_upper then toupper c else tolower c) ∷ title_case false cs in
    if c == b'-' then after_hyphen else after_letter

-- The name of `lsapi_header_cb`, and the callback on a list of headers.
unfoldable pub header_name : Bytes → Bytes
unfolding strip_http
header_name key = title_case true (hyphens (strip_http key))

unfoldable pub lsapi_header_cb : HeaderPairs → Bytes × Bytes → HeaderPairs
unfolding header_name
lsapi_header_cb hdrs (key, value) = hdrs ++ ((header_name key, value) ∷ [])

-- `LSAPI_ForeachHeader_r` with the callback.
unfoldable pub foreach_header : HeaderPairs → HeaderPairs → HeaderPairs
unfolding lsapi_header_cb
foreach_header hdrs [] = hdrs
foreach_header hdrs (h ∷ rest) = foreach_header (lsapi_header_cb hdrs h) rest

abbrev pub or_else : Option Bytes → Bytes → Bytes
or_else none d = d
or_else (some s) d = s

-- The path of the request.
unfoldable pub lsapi_path : LsapiRequest → Bytes
lsapi_path r =
    let base = or_else r.script_name (or_else r.request_uri (codes "/")) in
    let query = or_else r.query_string [] in
    if is_empty query then base else base ++ (codes "?" ++ query)

-- A header added from its variable where it is missing from the list.
unfoldable pub add_missing : HeaderPairs → Bytes → Option Bytes → HeaderPairs
unfolding has
add_missing hdrs name value =
    if not (has hdrs name)
    then (if is_empty (or_else value []) then hdrs else hdrs ++ ((name, or_else value []) ∷ []))
    else hdrs

-- `http_data` as the handler fills it.
unfoldable pub lsapi_data : LsapiRequest → HttpData
unfolding lsapi_path foreach_header add_missing
lsapi_data r =
    let listed = foreach_header [] r.headers in
    let typed = add_missing listed (codes "Content-Type") r.content_type in
    record no_data {
      method = or_else r.method (codes "GET");
      path = lsapi_path r;
      version = codes "HTTP/1.1";
      request_headers = add_missing typed (codes "Content-Length") r.content_length;
    }

-- The diagnostic body.
unfoldable pub diagnostic : HttpData → Bytes
diagnostic d =
    codes "=== WASM LSAPI Proxy ===\nMethod: "
    ++ (d.method ++ (codes "\nPath: " ++ (d.path ++ codes "\n")))
