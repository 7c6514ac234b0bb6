-- ===== src/Server/Request/RoundTrip.antt =====
-- A request that is written out is read back by `parse_request`.
use lswasm.Base.{
  ℕ, zero, suc, ◌≤◌, ◌<◌, ◌≡◌, refl, ap, ◌∙◌, Bool, true, false, ◌||◌, Option, none, some, [], ◌∷◌,
  ◌++◌, append-nil, append_assoc, arith,
}
use lswasm.Base.{◌==◌, if◌then◌else◌}
use lswasm.Base.{length, is_empty, any_of, All, length-append}
use lswasm.Base.{Bytes}
use lswasm.HttpUtils.{HeaderPairs, serialize_fields}
use lswasm.HttpFilter.{HttpData}
use lswasm.Server.Request.{
  is_space, skip_space, word, read_word, line_of, get_line, split_colon, trim_blanks, strip_return,
  parse_field, is_field_line, next_field, parse_fields, parse_request,
}

-- A word of the request line: not empty, and without a space.
pub record IsWord (w : Bytes) : Type 0 where
  pub some_character : is_empty w ≡ false
  pub no_space : any_of is_space w ≡ false

abbrev pub is_blank : ℕ → Bool
is_blank c = (c == 32) || (c == 9)

abbrev pub starts_blank : Bytes → Bool
starts_blank [] = false
starts_blank (c ∷ cs) = is_blank c

-- A header that can be written on a line: no colon or line feed in its name, and no line feed in its
-- value, which does not start with a blank.
pub record IsField (h : Bytes × Bytes) : Type 0 where
  pub name_colon : any_of (λ c. c == 58) h.0 ≡ false
  pub name_line : any_of (λ c. c == 10) h.0 ≡ false
  pub value_line : any_of (λ c. c == 10) h.1 ≡ false
  pub value_start : starts_blank h.1 ≡ false

word-append :
    (w : Bytes) (c : ℕ) (rest : Bytes)
    → any_of is_space w ≡ false
    → is_space c ≡ true
    → word (w ++ (c ∷ rest)) ≡ (w, c ∷ rest)
word-append [] c rest h e = ground (arith, e)
word-append (a ∷ w) c rest h e = ground (arith, h, e, word-append w c rest)

skip_space-append : (w rest : Bytes) → IsWord w → skip_space (w ++ rest) ≡ w ++ rest
skip_space-append [] rest h = ground (arith, h.some_character)
skip_space-append (a ∷ w) rest h = ground (arith, h.no_space)

read_word-append :
    (w : Bytes) (c : ℕ) (rest : Bytes)
    → IsWord w
    → is_space c ≡ true
    → read_word (w ++ (c ∷ rest)) ≡ (w, c ∷ rest)
unfolding read_word
read_word-append w c rest h e =
    rw (skip_space-append w (c ∷ rest) h) (word-append w c rest h.no_space e)

line_of-append :
    (l rest : Bytes) → any_of (λ c. c == 10) l ≡ false → line_of (l ++ (10 ∷ rest)) ≡ (l, rest)
line_of-append [] rest h = ground arith
line_of-append (a ∷ l) rest h = ground (arith, h, line_of-append l rest)

split_colon-append :
    (name value : Bytes)
    → any_of (λ c. c == 58) name ≡ false
    → split_colon (name ++ (58 ∷ value)) ≡ some (name, value)
split_colon-append [] value h = ground arith
split_colon-append (a ∷ name) value h = ground (arith, h, split_colon-append name value)

strip_return-append : (l : Bytes) → strip_return (l ++ (13 ∷ [])) ≡ l
strip_return-append [] = ground arith
strip_return-append (c ∷ []) = ground arith
strip_return-append (c ∷ d ∷ l) = ap (λ k. c ∷ k) (strip_return-append (d ∷ l))

trim_blanks-start :
    (l : Bytes) → starts_blank l ≡ false → trim_blanks (l ++ (13 ∷ [])) ≡ l ++ (13 ∷ [])
trim_blanks-start [] h = ground arith
trim_blanks-start (c ∷ l) h = ground (arith, h)

-- The line of a header, without its line feed.
abbrev field_line : Bytes × Bytes → Bytes
field_line (name, value) = name ++ (58 ∷ 32 ∷ (value ++ (13 ∷ [])))

parse_field-field_line : (h : Bytes × Bytes) → IsField h → parse_field (field_line h) ≡ h ∷ []
unfolding parse_field
parse_field-field_line (name, value) v = ground (
  arith,
  split_colon-append name (32 ∷ (value ++ (13 ∷ []))) v.name_colon,
  trim_blanks-start value v.value_start,
  strip_return-append value,
)

any_of-append : (p : ℕ → Bool) (xs ys : Bytes) → any_of p (xs ++ ys) ≡ (any_of p xs || any_of p ys)
any_of-append p [] ys = refl
any_of-append p (x ∷ xs) ys = ground (arith, any_of-append p xs ys)

is_field_line-field_line : (name value : Bytes) → is_field_line (field_line (name, value)) ≡ true
is_field_line-field_line [] value = ground arith
is_field_line-field_line (a ∷ []) value = ground arith
is_field_line-field_line (a ∷ b ∷ name) value = ground arith

field_line-one_line : (h : Bytes × Bytes) → IsField h → any_of (λ c. c == 10) (field_line h) ≡ false
field_line-one_line (name, value) v = ground (
  arith,
  v.name_line,
  v.value_line,
  any_of-append (λ c. c == 10) name (58 ∷ 32 ∷ (value ++ (13 ∷ []))),
  any_of-append (λ c. c == 10) value (13 ∷ []),
)

get_line-append :
    (l rest : Bytes)
    → any_of (λ c. c == 10) l ≡ false
    → get_line (l ++ (10 ∷ rest)) ≡ some (l, rest)
unfolding get_line
get_line-append [] rest h = ground arith
get_line-append (a ∷ l) rest h = ap (λ p. some p) (line_of-append (a ∷ l) rest h)

parse_fields-line :
    (fuel : ℕ) (l rest : Bytes)
    → any_of (λ c. c == 10) l ≡ false
    → parse_fields (suc fuel) (l ++ (10 ∷ rest)) ≡ next_field l (parse_fields fuel rest)
unfolding parse_fields
parse_fields-line fuel l rest h =
    let f : Option (Bytes × Bytes) → HeaderPairs =
      λ o. elim o [ none ↦ [] | some (line, more) ↦ next_field line (parse_fields fuel more) ] in
    ap f (get_line-append l rest h)

serialize_fields-lines :
    (h : Bytes × Bytes) (hs : HeaderPairs) (end : Bytes)
    → serialize_fields (h ∷ hs) ++ end ≡ field_line h ++ (10 ∷ (serialize_fields hs ++ end))
unfolding serialize_fields
serialize_fields-lines (name, value) hs end = simp append_assoc refl

next_field_lem :
    (l : Bytes) (rest : HeaderPairs)
    → is_field_line l ≡ true
    → next_field l rest ≡ parse_field l ++ rest
unfolding next_field
next_field_lem l rest e = ap (λ b. if b then parse_field l ++ rest else []) e

next_field-field_line :
    (h : Bytes × Bytes) (rest : HeaderPairs) → IsField h → next_field (field_line h) rest ≡ h ∷ rest
next_field-field_line (name, value) rest v =
    next_field_lem (field_line (name, value)) rest (is_field_line-field_line name value)
    ∙ ap (λ l. l ++ rest) (parse_field-field_line (name, value) v)

parse_fields-serialize_fields :
    (hs : HeaderPairs) (fuel : ℕ)
    → All IsField hs
    → length hs < fuel
    → parse_fields fuel (serialize_fields hs ++ (13 ∷ 10 ∷ [])) ≡ hs
unfolding serialize_fields next_field
parse_fields-serialize_fields [] zero v p = ground (p, arith)
parse_fields-serialize_fields [] (suc fuel) v p = parse_fields-line fuel (13 ∷ []) [] refl ∙ refl
parse_fields-serialize_fields (h ∷ hs) zero v p = ground (p, arith)
parse_fields-serialize_fields (h ∷ hs) (suc fuel) v p =
    ap (parse_fields (suc fuel)) (serialize_fields-lines h hs (13 ∷ 10 ∷ []))
    ∙ (parse_fields-line fuel (field_line h) _ (field_line-one_line h v.0)
        ∙ (next_field-field_line h _ v.0
            ∙ ap (λ l. h ∷ l) (parse_fields-serialize_fields hs fuel v.1 (omega (p, arith)))))

-- The text of a request as a client writes it.
abbrev pub request_text : Bytes → Bytes → Bytes → HeaderPairs → Bytes
request_text method path version headers =
    method
    ++ (32 ∷ (path ++ (32 ∷ (version ++ (13 ∷ 10 ∷ (serialize_fields headers ++ (13 ∷ 10 ∷ [])))))))

length-serialize_fields :
    (hs : HeaderPairs) (end : Bytes) → length hs ≤ length (serialize_fields hs ++ end)
unfolding serialize_fields
length-serialize_fields [] end = omega arith
length-serialize_fields (h ∷ hs) end = ground (
  arith,
  ap length (serialize_fields-lines h hs end),
  length-append (field_line h) (10 ∷ (serialize_fields hs ++ end)),
  length-serialize_fields hs end,
)

read_word-space :
    (w : Bytes) (c : ℕ) (rest : Bytes)
    → IsWord w
    → is_space c ≡ true
    → read_word (32 ∷ (w ++ (c ∷ rest))) ≡ (w, c ∷ rest)
unfolding read_word
read_word-space w c rest h e = read_word-append w c rest h e

-- A request whose method, path and version are words and whose headers each fit on a line is parsed
-- into just these: `parse_request` undoes the writing of a request, and so it does return.
pub parse_request-request_text :
    (method path version : Bytes) (headers : HeaderPairs) (d : HttpData)
    → IsWord method
    → IsWord path
    → IsWord version
    → All IsField headers
    → parse_request (request_text method path version headers) d
      ≡ some (record d {
        method = method;
        path = path;
        version = version;
        request_headers = d.request_headers ++ headers;
      })
unfolding parse_request read_word
parse_request-request_text method path version headers d m p v h =
    let fields = serialize_fields headers ++ (13 ∷ 10 ∷ []) in
    let after_version = 13 ∷ 10 ∷ fields in
    let after_path = 32 ∷ (version ++ after_version) in
    let after_method = 32 ∷ (path ++ after_path) in
    let e₁ : word (skip_space (method ++ after_method)) ≡ (method, after_method) =
      read_word-append method 32 _ m refl in
    let e₂ : word (skip_space (path ++ after_path)) ≡ (path, after_path) =
      read_word-append path 32 _ p refl in
    let e₃ : word (skip_space (version ++ after_version)) ≡ (version, after_version) =
      read_word-append version 13 _ v refl in
    let e₄ : parse_fields (length fields) fields ≡ headers =
      parse_fields-serialize_fields headers _ h (
        ground (
          arith,
          append-nil (serialize_fields headers),
          length-serialize_fields headers [],
          length-append (serialize_fields headers) (13 ∷ 10 ∷ []),
        )) in
    rw (e₁, e₂, e₃, e₄, m.some_character, p.some_character) refl
