-- ===== src/Server/Response/Tests.antt =====
-- The lengths of responses at concrete inputs.
use lswasm.Base.{◌≡◌, refl, true, [], ◌∷◌}
use lswasm.Base.{codes}
use lswasm.Base.{numeral}
use lswasm.HttpUtils.Names.{header_name_eq}
use lswasm.HttpFilter.{HttpData}
use lswasm.Server.Response.{build_local_response, pieces}

-- A local response whose filter set a Content-Length of its own.
abbrev answered : HttpData
answered = record {
  method = codes "GET";
  path = codes "/";
  version = codes "HTTP/1.1";
  request_headers = [];
  response_headers = (codes "content-length", codes "99") ∷ (codes "X-A", codes "1") ∷ [];
  request_body = [];
  response_body = codes "hello";
  has_local_response = true;
  local_response_code = 403;
  local_response_body = codes "denied";
  local_response_additional_headers =
      (codes "content-length", codes "7") ∷ (codes "X-B", codes "2") ∷ [];
}

cut_by_two : pieces 2 5 (codes "hello") ≡ codes "he" ∷ codes "ll" ∷ codes "o" ∷ []
unfolding pieces
cut_by_two = refl

local_response_text :
    build_local_response answered
    ≡ codes
        "HTTP/1.1 403 Forbidden\r\nContent-Type: text/plain\r\nX-Powered-By: lswasm/proxy-wasm\r\nConnection: close\r\nX-B: 2\r\nContent-Length: 6\r\n\r\ndenied"
unfolding build_local_response numeral header_name_eq
local_response_text = refl
