-- ===== src/Server/Lsapi/Names.antt =====
-- The names of headers survive the form that CGI variables have.
use lswasm.Base.{ℕ, ◌≡◌, refl, ◌≢◌, Bool, true, false, [], ◌∷◌, ◌++◌, map, arith}
use lswasm.Base.{◌==◌, if◌then◌else◌}
use lswasm.Base.{any_of}
use lswasm.Base.{Bytes, codes, toupper}
use lswasm.HttpUtils.Names.{header_name_eq, header_name_eq_iff, lower}
use lswasm.Server.Lsapi.{strip_http, hyphens, title_case, header_name}

-- The variable in which a web server passes a header: capitals, and underscores for hyphens.
abbrev pub cgi_letter : ℕ → ℕ
cgi_letter c = if c == b'-' then b'_' else toupper c

abbrev pub cgi_name : Bytes → Bytes
cgi_name name = codes "HTTP_" ++ map cgi_letter name

lower-title_case :
    (next_upper : Bool) (name : Bytes)
    → any_of (λ c. c == b'_') name ≡ false
    → lower (title_case next_upper (hyphens (map cgi_letter name))) ≡ lower name
lower-title_case next_upper [] h = refl
lower-title_case next_upper (c ∷ name) h =
    ground (arith, h, lower-title_case true name, lower-title_case false name)

strip_http-cgi_name : (name : Bytes) → name ≢ [] → strip_http (cgi_name name) ≡ map cgi_letter name
unfolding strip_http
strip_http-cgi_name [] h = absurd (h refl)
strip_http-cgi_name (c ∷ name) h = ground arith

-- A header name without an underscore, passed as a CGI variable, is given to the filters under a name
-- that matches it.
pub header_name-cgi_name :
    (name : Bytes)
    → name ≢ []
    → any_of (λ c. c == b'_') name ≡ false
    → header_name_eq (header_name (cgi_name name)) name ≡ true
unfolding header_name
header_name-cgi_name name ne h =
    (header_name_eq_iff _ _).1 (rw (strip_http-cgi_name name ne) (lower-title_case true name h))
