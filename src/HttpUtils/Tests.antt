-- ===== src/HttpUtils/Tests.antt =====
-- Runs of the functions of http_utils.h, and their theorems at concrete inputs.
use lswasm.Base.{◌+◌, ◌*◌, ◌≤◌, ◌≡◌, refl, ◌⊎◌, true, List, [], ◌∷◌, ◌++◌, arith}
use lswasm.Base.{length}
use lswasm.Base.{Bytes, codes}
use lswasm.Base.{numeral}
use lswasm.HttpUtils.{serialize_headers}
use lswasm.HttpUtils.Names.{header_name_eq}
use lswasm.HttpUtils.Pairs.{deserialize_header_pairs, u32_at}
use lswasm.HttpUtils.Pairs.RoundTrip.{marshal_pairs, deserialize-marshal_pairs}
use lswasm.HttpUtils.Pairs.Bounds.{payload, deserialize_header_pairs_bounds}

abbrev two_pairs : List (Bytes × Bytes)
two_pairs = (codes "Host", codes "a.b") ∷ (codes "X", []) ∷ []

host_matches : header_name_eq (codes "hOsT") (codes "Host") ≡ true
unfolding header_name_eq
host_matches = refl

serialize_headers_runs :
    serialize_headers 404 two_pairs ≡ codes "HTTP/1.1 404 Not Found\r\nHost: a.b\r\nX: \r\n\r\n"
unfolding serialize_headers numeral
serialize_headers_runs = refl

-- The second string runs past the end, so the pair is dropped.
deserialize_short :
    deserialize_header_pairs (1 ∷ 0 ∷ 0 ∷ 0 ∷ 1 ∷ 0 ∷ 0 ∷ 0 ∷ 9 ∷ 0 ∷ 0 ∷ 0 ∷ 65 ∷ 0 ∷ 66 ∷ 0 ∷ [])
    ≡ []
unfolding deserialize_header_pairs
deserialize_short = refl

deserialize-marshal_pairs_example :
    deserialize_header_pairs (marshal_pairs two_pairs ++ (7 ∷ [])) ≡ two_pairs
deserialize-marshal_pairs_example =
    deserialize-marshal_pairs two_pairs (7 ∷ []) (omega arith) (omega arith)

deserialize_header_pairs_bounds_example :
    (deserialize_header_pairs (marshal_pairs two_pairs) ≡ [])
    ⊎ ((4
            + u32_at (marshal_pairs two_pairs) 0 * 8
            + payload (deserialize_header_pairs (marshal_pairs two_pairs))
          ≤ 32)
        × (length (deserialize_header_pairs (marshal_pairs two_pairs))
            ≤ u32_at (marshal_pairs two_pairs) 0))
deserialize_header_pairs_bounds_example = deserialize_header_pairs_bounds (marshal_pairs two_pairs)
