-- ===== src/HttpUtils/Pairs/Bounds.antt =====
-- However the data are made up, nothing is read beyond their end.
use lswasm.Base.{ℕ, zero, suc, ◌+◌, ◌*◌, ◌≤◌, ◌≡◌, refl, ap, ◌⊎◌, inl, inr, List, [], ◌∷◌, arith}
use lswasm.Base.{ltb, Bool-cases}
use lswasm.Base.{length, drop, length-take, length-drop}
use lswasm.Base.{Bytes}
use lswasm.HttpUtils.Pairs.{
  SizePair, slice, read_sizes, read_pairs, deserialize_header_pairs, u32_at,
}

-- The bytes that the pairs take up in the data, each string with its NUL.
abbrev pub payload : List (Bytes × Bytes) → ℕ
payload [] = 0
payload ((k, v) ∷ rest) = length k + 1 + (length v + 1) + payload rest

length-slice : (d : Bytes) (p n : ℕ) → p + n ≤ length d → length (slice d p n) ≡ n
length-slice d p n h = omega (arith, length-take n (drop p d), length-drop p d)

read_pairs_fits :
    (d : Bytes) (sizes : List SizePair) (p : ℕ)
    → p ≤ length d
    → (p + payload (read_pairs d sizes p) ≤ length d)
      × (length (read_pairs d sizes p) ≤ length sizes)
unfolding read_pairs
read_pairs_fits d [] p h = (omega arith, omega arith)
read_pairs_fits d (s ∷ sizes) p h =
    let q = p + s.key_size + 1 in
    elim (Bool-cases (ltb (length d) q)) [
      | inl short ↦ rw short (omega arith, omega arith)
      | inr room ↦ rw room (elim (Bool-cases (ltb (length d) (q + s.value_size + 1))) [
        | inl short ↦ rw short (omega arith, omega arith)
        | inr room' ↦ rw room' (
            let fits : q + s.value_size + 1 ≤ length d = ground arith in
            let rest = read_pairs_fits d sizes (q + s.value_size + 1) fits in
            (
              omega (arith, rest.0, length-slice d p s.key_size, length-slice d q s.value_size),
              omega (arith, rest.1),
            ))
      ])
    ]

length-read_sizes : (d : Bytes) (n p : ℕ) → length (read_sizes d n p) ≡ n
unfolding read_sizes
length-read_sizes d zero p = refl
length-read_sizes d (suc n) p = ap suc (length-read_sizes d n (p + 8))

-- Whatever the data, either nothing is returned, or the announced size table and all the returned
-- strings with their NULs lie inside the data, and no more pairs are returned than are announced.
pub deserialize_header_pairs_bounds :
    (d : Bytes)
    → (deserialize_header_pairs d ≡ [])
      ⊎ ((4 + u32_at d 0 * 8 + payload (deserialize_header_pairs d) ≤ length d)
          × (length (deserialize_header_pairs d) ≤ u32_at d 0))
unfolding deserialize_header_pairs
deserialize_header_pairs_bounds d = elim (Bool-cases (ltb (length d) 4)) [
  | inl short ↦ inl (rw short)
  | inr room ↦ rw room (elim (Bool-cases (ltb (length d) (4 + u32_at d 0 * 8))) [
    | inl short ↦ inl (rw short)
    | inr room' ↦ rw room' (
        let fits : 4 + u32_at d 0 * 8 ≤ length d = ground arith in
        let rest = read_pairs_fits d (read_sizes d (u32_at d 0) 4) (4 + u32_at d 0 * 8) fits in
        inr (rest.0, omega (arith, rest.1, length-read_sizes d (u32_at d 0) 4)))
  ])
]
