-- ===== src/Server/Response/Sizes.antt =====
-- Lengths of responses: what they announce, and how they are cut.
use lswasm.Base.{
  ℕ, zero, suc, ◌+◌, ◌≤◌, ◌<◌, min, ◌≡◌, refl, ap, ◌∙◌, Bool, List, [], ◌∷◌, ◌++◌, arith,
}
use lswasm.Base.{ltb, if◌then◌else◌, if_cases}
use lswasm.Base.{length, take, drop, All, take-append-drop, length-take, length-drop}
use lswasm.Base.{Bytes, codes}
use lswasm.Base.{numeral, numeral_value, value-numeral}
use lswasm.HttpUtils.{HeaderPairs}
use lswasm.HttpUtils.Names.{header_name_eq}
use lswasm.Context.HeaderMaps.{remove_name, find_value}
use lswasm.HttpFilter.{HttpData}
use lswasm.Server.Response.{
  merge_headers, local_headers, final_headers, body_chunk_size, pieces, chunked_pieces,
}

abbrev pub concat : List Bytes → Bytes
concat [] = []
concat (x ∷ xs) = x ++ concat xs

abbrev pub is_length : Bytes × Bytes → Bool
is_length h = header_name_eq h.0 (codes "Content-Length")

-- How many headers are Content-Length.
abbrev pub count_lengths : HeaderPairs → ℕ
count_lengths [] = 0
count_lengths (h ∷ hs) = (if is_length h then 1 else 0) + count_lengths hs

count_lengths-append :
    (xs ys : HeaderPairs) → count_lengths (xs ++ ys) ≡ count_lengths xs + count_lengths ys
count_lengths-append [] ys = omega arith
count_lengths-append (h ∷ xs) ys = ground (arith, count_lengths-append xs ys)

merge_headers-length :
    (headers hs : HeaderPairs) → count_lengths (merge_headers headers hs) ≡ count_lengths headers
unfolding merge_headers
merge_headers-length headers [] = refl
merge_headers-length headers (h ∷ hs) = ground (
  arith,
  merge_headers-length headers hs,
  merge_headers-length (headers ++ (h ∷ [])) hs,
  count_lengths-append headers (h ∷ []),
)

remove_name-length :
    (hs : HeaderPairs) → count_lengths (remove_name (codes "Content-Length") hs) ≡ 0
unfolding remove_name
remove_name-length [] = refl
remove_name-length ((k, v) ∷ hs) = ground (arith, remove_name-length hs)

find_value-last :
    (hs : HeaderPairs) (v : Bytes)
    → count_lengths hs ≡ 0
    → find_value (hs ++ ((codes "Content-Length", v) ∷ [])) (codes "Content-Length") ≡ v
unfolding find_value header_name_eq
find_value-last [] v h = refl
find_value-last ((k, w) ∷ hs) v h = ground (arith, h, find_value-last hs v)

-- The headers announce the body.
pub record Announces (hs : HeaderPairs) (body : Bytes) : Type 0 where
  pub once : count_lengths hs ≡ 1
  pub value : numeral_value 10 0 (find_value hs (codes "Content-Length")) ≡ length body

announced :
    (hs : HeaderPairs) (body : Bytes)
    → count_lengths hs ≡ 0
    → Announces (hs ++ ((codes "Content-Length", numeral 10 (length body)) ∷ [])) body
unfolding header_name_eq
announced hs body h = record {
  once =
      count_lengths-append hs ((codes "Content-Length", numeral 10 (length body)) ∷ [])
      ∙ ap (λ k. k + 1) h;
  value =
      ap (numeral_value 10 0) (find_value-last hs (numeral 10 (length body)) h)
      ∙ value-numeral 10 (omega arith) (omega arith) (length body);
}

-- Whatever headers a filter sets, a local response and the response after the filters have exactly
-- one Content-Length, and it is the decimal number of the bytes of the body.
pub responses-Announces :
    (d : HttpData)
    → Announces (local_headers d) d.local_response_body
      × Announces (final_headers d) d.response_body
unfolding local_headers final_headers header_name_eq
responses-Announces d = (
  announced _ d.local_response_body (merge_headers-length _ d.local_response_additional_headers),
  announced _ d.response_body (remove_name-length d.response_headers),
)

-- The pieces of some bytes: together they are the bytes, and none is empty or longer than `size`.
pub record IsCut (size : ℕ) (bytes : Bytes) (ps : List Bytes) : Type 0 where
  pub whole : concat ps ≡ bytes
  pub bounded : All (λ p. (0 < length p) × (length p ≤ size)) ps

pieces-IsCut :
    (size fuel : ℕ) (bytes : Bytes)
    → 0 < size
    → length bytes ≤ fuel
    → IsCut size bytes (pieces size fuel bytes)
unfolding pieces
pieces-IsCut size zero [] s h = record { whole = refl; bounded = ground arith }
pieces-IsCut size zero (b ∷ bs) s h = ground (h, arith)
pieces-IsCut size (suc fuel) [] s h = record { whole = refl; bounded = ground arith }
pieces-IsCut size (suc fuel) (b ∷ bs) s h =
    let bytes = b ∷ bs in
    let n = min (length bytes) size in
    let rest =
      pieces-IsCut size fuel (drop n bytes) s (ground (arith, s, h, length-drop n bytes)) in
    if_cases (λ ps. IsCut size bytes ps) (ltb 0 (length bytes)) _ _
      (λ e. record {
        whole = ap (λ k. take n bytes ++ k) rest.whole ∙ take-append-drop n bytes;
        bounded = (ground (arith, s, length-take n bytes), rest.bounded);
      })
      (λ e. ground (e, arith))

-- `write_chunked` passes all bytes on, in order, in chunks that are not empty and no longer than
-- `BODY_CHUNK_SIZE`.
pub chunked_pieces-IsCut : (bytes : Bytes) → IsCut body_chunk_size bytes (chunked_pieces bytes)
unfolding chunked_pieces
chunked_pieces-IsCut bytes =
    pieces-IsCut body_chunk_size (length bytes) bytes (omega arith) (omega arith)
