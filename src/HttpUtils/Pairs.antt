-- ===== src/HttpUtils/Pairs.antt =====
-- The proxy-wasm pairs format (`deserialize_header_pairs` of http_utils.h). A pointer into the data
-- is its offset from the start; the host is little-endian, as every target of the build is.
pub mod RoundTrip
pub mod Bounds
use lswasm.Base.{ℕ, zero, suc, ◌+◌, ◌*◌, ◌^◌, List, [], ◌∷◌}
use lswasm.Base.{ltb, if◌then◌else◌}
use lswasm.Base.{length, get_or, take, drop}
use lswasm.Base.{Bytes}

-- `SizePair`
pub record SizePair : Type 0 where
  pub key_size : ℕ
  pub value_size : ℕ

-- `memcpy` of a `uint32_t` from the bytes at an offset.
unfoldable pub u32_at : Bytes → ℕ → ℕ
u32_at data' p =
    get_or data' p 0
    + 2 ^ 8 * get_or data' (p + 1) 0
    + 2 ^ 16 * get_or data' (p + 2) 0
    + 2 ^ 24 * get_or data' (p + 3) 0

-- `std::string(p, n)`
abbrev pub slice : Bytes → ℕ → ℕ → Bytes
slice data' p n = take n (drop p data')

-- The loop that fills `sizes`, from the offset `p`.
unfoldable pub read_sizes : Bytes → ℕ → ℕ → List SizePair
unfolding u32_at
read_sizes data' zero p = []
read_sizes data' (suc n) p =
    record { key_size = u32_at data' p; value_size = u32_at data' (p + 4) }
    ∷ read_sizes data' n (p + 8)

-- The loop that cuts out keys and values; it returns what it has when the data end early.
unfoldable pub read_pairs : Bytes → List SizePair → ℕ → List (Bytes × Bytes)
read_pairs data' [] p = []
read_pairs data' (s ∷ sizes) p =
    if ltb (length data') (p + s.key_size + 1)
    then []
    else (let q = p + s.key_size + 1 in
        if ltb (length data') (q + s.value_size + 1)
        then []
        else (slice data' p s.key_size, slice data' q s.value_size)
          ∷ read_pairs data' sizes (q + s.value_size + 1))

-- `deserialize_header_pairs`
unfoldable pub deserialize_header_pairs : Bytes → List (Bytes × Bytes)
unfolding u32_at read_sizes read_pairs
deserialize_header_pairs data' =
    if ltb (length data') 4
    then []
    else (let n = u32_at data' 0 in
        if ltb (length data') (4 + n * 8)
        then []
        else read_pairs data' (read_sizes data' n 4) (4 + n * 8))
