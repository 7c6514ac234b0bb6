-- ===== src/HttpUtils/Pairs/RoundTrip.antt =====
-- What is laid out in the documented wire format is read back.
use lswasm.Base.{
  ℕ, suc, ◌+◌, ◌*◌, ◌/◌, ◌%◌, ◌^◌, ◌≤◌, ◌<◌, ◌≡◌, refl, ap, ap₂, ◌∙◌, List, [], ◌∷◌, ◌++◌,
  append_assoc, arith,
}
use lswasm.Base.{ltb-false}
use lswasm.Base.{length, get_or, All, length-append, take-append_left, drop-append_left}
use lswasm.Base.{Bytes}
use lswasm.HttpUtils.Pairs.{
  SizePair, slice, read_sizes, read_pairs, deserialize_header_pairs, u32_at,
}
use native.Mathlib.Nat.{add-zero}

-- The wire format of the comment on `deserialize_header_pairs`: count, size table, strings with NULs.
abbrev pub le32 : ℕ → Bytes
le32 n = n % 2 ^ 8 ∷ n / 2 ^ 8 % 2 ^ 8 ∷ n / 2 ^ 16 % 2 ^ 8 ∷ n / 2 ^ 24 % 2 ^ 8 ∷ []

abbrev pub size_table : List (Bytes × Bytes) → Bytes
size_table [] = []
size_table ((k, v) ∷ rest) = le32 (length k) ++ (le32 (length v) ++ size_table rest)

abbrev pub strings : List (Bytes × Bytes) → Bytes
strings [] = []
strings ((k, v) ∷ rest) = k ++ (0 ∷ (v ++ (0 ∷ strings rest)))

abbrev pub marshal_pairs : List (Bytes × Bytes) → Bytes
marshal_pairs ps = le32 (length ps) ++ (size_table ps ++ strings ps)

-- Every string is short enough for a 32-bit size.
abbrev pub Fits : List (Bytes × Bytes) → Type 0
Fits = All (λ kv. (length kv.0 < 2 ^ 32) × (length kv.1 < 2 ^ 32))

sizes_of : List (Bytes × Bytes) → List SizePair
sizes_of [] = []
sizes_of ((k, v) ∷ rest) = record { key_size = length k; value_size = length v } ∷ sizes_of rest

get_or-append :
    (pre rest : Bytes) (i : ℕ) → get_or (pre ++ rest) (length pre + i) 0 ≡ get_or rest i 0
get_or-append [] rest i = ap (λ k. get_or rest k 0) (omega arith)
get_or-append (x ∷ pre) rest i =
    let e : suc (length pre) + i ≡ suc (length pre + i) = omega arith in
    rw e (get_or-append pre rest i)

pub u32_at-le32 :
    (pre rest : Bytes) (n p : ℕ)
    → p ≡ length pre
    → n < 2 ^ 32
    → u32_at (pre ++ (le32 n ++ rest)) p ≡ n
unfolding u32_at
u32_at-le32 pre rest n p e h =
    let d = le32 n ++ rest in
    rw e (
      omega (
        arith,
        ap (λ k. get_or (pre ++ d) k 0) (add-zero (length pre)),
        get_or-append pre d 0,
        get_or-append pre d 1,
        get_or-append pre d 2,
        get_or-append pre d 3,
      ))

read_sizes-size_table :
    (ps : List (Bytes × Bytes)) (pre rest : Bytes) (p : ℕ)
    → p ≡ length pre
    → Fits ps
    → read_sizes (pre ++ (size_table ps ++ rest)) (length ps) p ≡ sizes_of ps
unfolding read_sizes sizes_of
read_sizes-size_table [] pre rest p e f = refl
read_sizes-size_table ((k, v) ∷ ps) pre rest p e f =
    let tail = size_table ps ++ rest in
    let key_at = u32_at-le32 pre (le32 (length v) ++ tail) (length k) p e f.0.0 in
    let value_at =
      u32_at-le32 (pre ++ le32 (length k)) tail (length v) (p + 4)
        (omega (arith, length-append pre (le32 (length k)))) f.0.1 in
    let shift : (pre ++ le32 (length k)) ++ (le32 (length v) ++ tail)
        ≡ pre ++ (le32 (length k) ++ (le32 (length v) ++ tail)) =
      append_assoc pre (le32 (length k)) (le32 (length v) ++ tail) in
    let both = le32 (length k) ++ le32 (length v) in
    let shift' : (pre ++ both) ++ tail ≡ pre ++ (both ++ tail) = append_assoc pre both tail in
    let rest_at =
      read_sizes-size_table ps (pre ++ both) rest (p + 8) (omega (arith, length-append pre both))
        f.1 in
    ap₂ ◌∷◌ (λ i. record { key_size = key_at i; value_size = (rw shift at value_at) i })
      (rw shift' at rest_at)

slice-append :
    (pre s rest : Bytes) (p n : ℕ)
    → p ≡ length pre
    → n ≡ length s
    → slice (pre ++ (s ++ rest)) p n ≡ s
slice-append pre s rest p n e f =
    rw (e, f, drop-append_left pre (s ++ rest)) (take-append_left s rest)

read_pairs-cons :
    (d : Bytes) (s : SizePair) (sizes : List SizePair) (p : ℕ) (k v : Bytes)
    → p + s.key_size + 1 + s.value_size + 1 ≤ length d
    → slice d p s.key_size ≡ k
    → slice d (p + s.key_size + 1) s.value_size ≡ v
    → read_pairs d (s ∷ sizes) p
      ≡ (k, v) ∷ read_pairs d sizes (p + s.key_size + 1 + s.value_size + 1)
unfolding read_pairs
read_pairs-cons d s sizes p k v room key value = rw (
  ltb-false (length d) (p + s.key_size + 1) (omega arith),
  ltb-false (length d) (p + s.key_size + 1 + s.value_size + 1) room,
  key,
  value,
)

read_pairs-strings :
    (ps : List (Bytes × Bytes)) (pre rest : Bytes) (p : ℕ)
    → p ≡ length pre
    → read_pairs (pre ++ (strings ps ++ rest)) (sizes_of ps) p ≡ ps
unfolding sizes_of
read_pairs-strings [] pre rest p e = unfold read_pairs in refl
read_pairs-strings ((k, v) ∷ ps) pre rest p e =
    let d = pre ++ (strings ((k, v) ∷ ps) ++ rest) in
    let to_value = k ++ (0 ∷ []) in
    let to_rest = k ++ (0 ∷ (v ++ (0 ∷ []))) in
    let at_key : d ≡ pre ++ (k ++ ((0 ∷ (v ++ (0 ∷ strings ps))) ++ rest)) = simp append_assoc in
    let at_value : d ≡ (pre ++ to_value) ++ (v ++ (0 ∷ (strings ps ++ rest))) = simp append_assoc in
    let at_rest : d ≡ (pre ++ to_rest) ++ (strings ps ++ rest) = simp append_assoc in
    let q = p + length k + 1 in
    let q_lem : q ≡ length (pre ++ to_value) =
      omega (arith, length-append pre to_value, length-append k (0 ∷ [])) in
    let end_lem : q + length v + 1 ≡ length (pre ++ to_rest) = omega (
      arith,
      length-append pre to_rest,
      length-append k (0 ∷ (v ++ (0 ∷ []))),
      length-append v (0 ∷ []),
    ) in
    let room : q + length v + 1 ≤ length d =
      omega
        (arith, end_lem, ap length at_rest, length-append (pre ++ to_rest) (strings ps ++ rest)) in
    read_pairs-cons d (record { key_size = length k; value_size = length v }) (sizes_of ps) p k v
      room (rw at_key (slice-append pre k _ p (length k) e refl))
      (rw at_value (slice-append (pre ++ to_value) v _ q (length v) q_lem refl))
    ∙ ap (λ t. (k, v) ∷ t)
        (rw at_rest (read_pairs-strings ps (pre ++ to_rest) rest (q + length v + 1) end_lem))

length-size_table : (ps : List (Bytes × Bytes)) → length (size_table ps) ≡ length ps * 8
length-size_table [] = omega arith
length-size_table ((k, v) ∷ ps) = omega (arith, length-size_table ps)

deserialize_lem :
    (d : Bytes) (n : ℕ)
    → u32_at d 0 ≡ n
    → 4 + n * 8 ≤ length d
    → deserialize_header_pairs d ≡ read_pairs d (read_sizes d n 4) (4 + n * 8)
unfolding deserialize_header_pairs
deserialize_lem d n e room =
    rw (ltb-false (length d) 4 (omega arith), e, ltb-false (length d) (4 + n * 8) room)

-- Fewer than 2 ^ 32 pairs of strings shorter than 2 ^ 32, laid out in the wire format, are read back
-- as they were, in order, whatever bytes follow them.
pub deserialize-marshal_pairs :
    (ps : List (Bytes × Bytes)) (rest : Bytes)
    → length ps < 2 ^ 32
    → Fits ps
    → deserialize_header_pairs (marshal_pairs ps ++ rest) ≡ ps
deserialize-marshal_pairs ps rest small fits =
    let n = length ps in
    let head = le32 n ++ size_table ps in
    let d = marshal_pairs ps ++ rest in
    let count : u32_at d 0 ≡ n =
      u32_at-le32 [] ((size_table ps ++ strings ps) ++ rest) n 0 refl small in
    let at_sizes : d ≡ le32 n ++ (size_table ps ++ (strings ps ++ rest)) = simp append_assoc in
    let at_strings : d ≡ head ++ (strings ps ++ rest) = simp append_assoc in
    let head_lem : 4 + n * 8 ≡ length head = omega (arith, length-size_table ps) in
    let sizes : read_sizes d n 4 ≡ sizes_of ps =
      rw at_sizes (read_sizes-size_table ps (le32 n) (strings ps ++ rest) 4 refl fits) in
    let room : 4 + n * 8 ≤ length d =
      omega (arith, head_lem, ap length at_strings, length-append head (strings ps ++ rest)) in
    deserialize_lem d n count room
    ∙ rw sizes (rw at_strings (read_pairs-strings ps head rest (4 + n * 8) head_lem))
