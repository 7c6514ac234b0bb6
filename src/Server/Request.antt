-- ===== src/Server/Request.antt =====
-- `parse_request` and `extract_content_length` of src/main.cpp. A string stream is what is left of its
-- text; it fails exactly where none is left, so its flags need no field.
pub mod RoundTrip
pub mod Tests
use lswasm.Base.{
  ℕ, zero, suc, ◌+◌, ◌-◌, ◌*◌, ◌^◌, Bool, not, ◌&&◌, ◌||◌, Option, none, some, [], ◌∷◌, ◌++◌,
}
use lswasm.Base.{ltb, leb, ◌==◌, if◌then◌else◌}
use lswasm.Base.{length, is_empty, get_or, take, drop}
use lswasm.Base.{Bytes, codes, bytes_eq}
use lswasm.HttpUtils.{HeaderPairs}
use lswasm.HttpUtils.Names.{header_name_eq}
use lswasm.HttpFilter.{HttpData}

-- `isspace`
abbrev pub is_space : ℕ → Bool
is_space c = (c == 32) || (leb 9 c && leb c 13)

abbrev pub skip_space : Bytes → Bytes
skip_space [] = []
skip_space (c ∷ cs) = if is_space c then skip_space cs else c ∷ cs

-- The characters up to the next space, and what follows them.
abbrev pub word : Bytes → Bytes × Bytes
word [] = ([], [])
word (c ∷ cs) = let rest = word cs in if is_space c then ([], c ∷ cs) else (c ∷ rest.0, rest.1)

-- `iss >>` into a string.
unfoldable pub read_word : Bytes → Bytes × Bytes
read_word s = word (skip_space s)

-- The characters up to the next line feed, and what follows it.
abbrev pub line_of : Bytes → Bytes × Bytes
line_of [] = ([], [])
line_of (c ∷ cs) = let rest = line_of cs in if c == 10 then ([], cs) else (c ∷ rest.0, rest.1)

-- `std::getline`
unfoldable pub get_line : Bytes → Option (Bytes × Bytes)
get_line [] = none
get_line (c ∷ cs) = some (line_of (c ∷ cs))

-- `line.find(':')`, and the parts before and after it.
abbrev pub split_colon : Bytes → Option (Bytes × Bytes)
split_colon [] = none
split_colon (c ∷ cs) =
    let rest = split_colon cs in
    if c == 58
    then some ([], cs)
    else elim rest [ none ↦ none | some (before, after) ↦ some (c ∷ before, after) ]

-- `find_first_not_of(" \t")` and `substr`, or `clear`.
abbrev pub trim_blanks : Bytes → Bytes
trim_blanks [] = []
trim_blanks (c ∷ cs) = if (c == 32) || (c == 9) then trim_blanks cs else c ∷ cs

-- `pop_back` of a trailing carriage return.
abbrev pub strip_return : Bytes → Bytes
strip_return [] = []
strip_return (c ∷ []) = if c == 13 then [] else c ∷ []
strip_return (c ∷ d ∷ cs) = c ∷ strip_return (d ∷ cs)

-- A line of the headers: the field it adds, if it has a colon.
unfoldable pub parse_field : Bytes → HeaderPairs
parse_field line = elim (split_colon line) [
  | none ↦ []
  | some (name, value) ↦ (name, strip_return (trim_blanks value)) ∷ []
]

-- The condition of the loop on a line that was read: neither empty nor a bare carriage return.
abbrev pub is_field_line : Bytes → Bool
is_field_line line = not (is_empty line) && not (bytes_eq line (13 ∷ []))

unfoldable pub next_field : Bytes → HeaderPairs → HeaderPairs
unfolding parse_field
next_field line rest = if is_field_line line then parse_field line ++ rest else []

-- The loop over the header lines. Each turn takes a character at least, so that the length of the text
-- is fuel enough.
unfoldable pub parse_fields : ℕ → Bytes → HeaderPairs
unfolding get_line next_field
parse_fields zero s = []
parse_fields (suc fuel) s = elim (get_line s) [
  | none ↦ []
  | some (line, rest) ↦ next_field line (parse_fields fuel rest)
]

-- `parse_request` on the `HttpData` of a new request: `none` where it returns false.
unfoldable pub parse_request : Bytes → HttpData → Option HttpData
unfolding read_word parse_fields
parse_request request d =
    let (method, after_method) = read_word request in
    let (path, after_path) = read_word after_method in
    let (version, after_version) = read_word after_path in
    let rest = (line_of after_version).1 in
    if is_empty method || is_empty path
    then none
    else some (record d {
      method = method;
      path = path;
      version = version;
      request_headers = d.request_headers ++ parse_fields (length rest) rest;
    })

-- The decimal digits at the front, and `stoull` of them.
abbrev pub is_decimal : ℕ → Bool
is_decimal c = leb 48 c && leb c 57

abbrev pub digits : Bytes → Bytes
digits [] = []
digits (c ∷ cs) = if is_decimal c then c ∷ digits cs else []

abbrev pub stoull : ℕ → Bytes → ℕ
stoull n [] = n
stoull n (c ∷ cs) = stoull (10 * n + (c - 48)) cs

-- The value that a line gives: `none` where the loop goes on. `stoull` throws from 2 ^ 64 on.
unfoldable pub content_length_of : Bytes → Option ℕ
content_length_of line =
    let found = digits (trim_blanks (drop 15 line)) in
    if ltb 15 (length line) && (get_or line 14 0 == 58)
    then (if header_name_eq (take 14 line) (codes "Content-Length")
        then (if is_empty found
            then none
            else if ltb (stoull 0 found) (2 ^ 64)
            then some (stoull 0 found)
            else some 0)
        else none)
    else none

-- The loop of `extract_content_length`; `pos` is at the front of the text.
unfoldable pub scan_length : ℕ → Bytes → ℕ
unfolding content_length_of
scan_length zero s = 0
scan_length (suc fuel) s =
    let (line, rest) = line_of s in
    let later = scan_length fuel rest in
    if is_empty s
    then 0
    else elim (content_length_of (strip_return line)) [ none ↦ later | some n ↦ n ]

-- `extract_content_length`
unfoldable pub extract_content_length : Bytes → ℕ
unfolding scan_length
extract_content_length headers = scan_length (length headers) headers
