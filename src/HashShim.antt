-- ===== src/HashShim.antt =====
-- src/hash_shim.cc: the hexadecimal form of a digest. The digest itself is OpenSSL's, a parameter.
use lswasm.Base.{ℕ, ◌+◌, ◌-◌, ◌*◌, ◌/◌, ◌%◌, ◌<◌, ◌≡◌, refl, List, [], ◌∷◌, arith}
use lswasm.Base.{ltb, leb, if◌then◌else◌}
use lswasm.Base.{All}
use lswasm.Base.{Bytes}

-- A character of the table `hex`.
abbrev pub hex : ℕ → ℕ
hex d = if ltb d 10 then b'0' + d else b'A' + d - 10

-- `BytesToHex`; `byte >> 4` and `byte & 0xf` of a byte.
unfoldable pub bytes_to_hex : Bytes → Bytes
bytes_to_hex [] = []
bytes_to_hex (b ∷ bs) = hex (b / 16) ∷ hex (b % 16) ∷ bytes_to_hex bs

-- `Sha256String`; `sha256` is `Sha256`, which gives no bytes where OpenSSL fails.
unfoldable pub sha256_string : (List Bytes → Bytes) → List Bytes → Bytes
unfolding bytes_to_hex
sha256_string sha256 parts = bytes_to_hex (sha256 parts)

abbrev pub unhex : ℕ → ℕ
unhex c = if leb c b'9' then c - b'0' else c + 10 - b'A'

-- Two digits to a byte.
abbrev pub hex_to_bytes : Bytes → Bytes
hex_to_bytes [] = []
hex_to_bytes (c ∷ []) = []
hex_to_bytes (c ∷ d ∷ s) = (16 * unhex c + unhex d) ∷ hex_to_bytes s

unhex-hex : (d : ℕ) → d < 16 → unhex (hex d) ≡ d
unhex-hex d h = ground arith

-- The form can be read back, so different digests have different forms.
pub hex_to_bytes-bytes_to_hex :
    (bs : Bytes) → All (λ b. b < 256) bs → hex_to_bytes (bytes_to_hex bs) ≡ bs
unfolding bytes_to_hex
hex_to_bytes-bytes_to_hex [] v = refl
hex_to_bytes-bytes_to_hex (b ∷ bs) v =
    let high : unhex (hex (b / 16)) ≡ b / 16 = unhex-hex (b / 16) (omega (arith, v.0)) in
    let low : unhex (hex (b % 16)) ≡ b % 16 = unhex-hex (b % 16) (omega arith) in
    let whole : 16 * (b / 16) + b % 16 ≡ b = omega arith in
    rw (high, low, whole, hex_to_bytes-bytes_to_hex bs v.1) refl
