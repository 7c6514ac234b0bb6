-- ===== src/Server/Request/Tests.antt =====
-- The reading of requests at concrete texts.
use lswasm.Base.{◌≡◌, refl, false, none, some, [], ◌∷◌, arith}
use lswasm.Base.{codes}
use lswasm.HttpUtils.{HeaderPairs}
use lswasm.HttpUtils.Names.{header_name_eq}
use lswasm.HttpFilter.{HttpData}
use lswasm.Server.Request.{parse_request, extract_content_length}
use lswasm.Server.Request.RoundTrip.{request_text, parse_request-request_text}

abbrev empty_data : HttpData
empty_data = record {
  method = [];
  path = [];
  version = [];
  request_headers = [];
  response_headers = [];
  request_body = [];
  response_body = [];
  has_local_response = false;
  local_response_code = 0;
  local_response_body = [];
  local_response_additional_headers = [];
}

abbrev two_headers : HeaderPairs
two_headers = (codes "Host", codes "a.b") ∷ (codes "X-Empty", []) ∷ []

content_length_12 :
    extract_content_length (codes "POST / HTTP/1.1\r\ncontent-length: \t12 \r\n\r\n") ≡ 12
unfolding extract_content_length header_name_eq
content_length_12 = refl

content_length_overflow :
    extract_content_length (codes "Content-Length: 18446744073709551616\r\nContent-Length: 1\r\n")
    ≡ 0
unfolding extract_content_length header_name_eq
content_length_overflow = refl

refused : parse_request (codes "GET\r\n\r\n") empty_data ≡ none
unfolding parse_request
refused = refl

parse_request-request_text_example :
    parse_request (request_text (codes "GET") (codes "/") (codes "HTTP/1.1") two_headers) empty_data
    ≡ some (record empty_data {
      method = codes "GET";
      path = codes "/";
      version = codes "HTTP/1.1";
      request_headers = two_headers;
    })
parse_request-request_text_example =
    parse_request-request_text (codes "GET") (codes "/") (codes "HTTP/1.1") two_headers empty_data
      (record { some_character = refl; no_space = refl })
      (record { some_character = refl; no_space = refl })
      (record { some_character = refl; no_space = refl })
      (
        record { name_colon = refl; name_line = refl; value_line = refl; value_start = refl },
        (
          record { name_colon = refl; name_line = refl; value_line = refl; value_start = refl },
          ground arith,
        ),
      )
