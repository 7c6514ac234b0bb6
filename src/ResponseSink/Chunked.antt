-- ===== src/ResponseSink/Chunked.antt =====
-- The chunked transfer coding (RFC 9112, 7.1) as its reader sees it, without extensions or trailers.
-- The fuel bounds the number of chunks.
use lswasm.Base.{
  ℕ, zero, suc, ◌+◌, ◌*◌, ◌≡◌, refl, ap, ◌∙◌, ◌≢◌, Bool, true, false, Option, none, some, [], ◌∷◌,
  ◌++◌, append_assoc, arith,
}
use lswasm.Base.{ltb, ◌==◌, if◌then◌else◌, ltb-false}
use lswasm.Base.{length, take, drop, All, length-append, take-append_left, drop-append_left}
use lswasm.Base.{Bytes}
use lswasm.Base.{
  digit_value, is_digit, numeral, numeral_value, value-numeral, numeral_digits, numeral-ne-nil,
}
use lswasm.HttpUtils.{crlf}
use lswasm.ResponseSink.Http.{chunk, terminator}

-- Hexadecimal digits, and what follows them.
read_size : Bytes → ℕ → ℕ × Bytes
read_size [] n = (n, [])
read_size (c ∷ s) n =
    let more = read_size s (n * 16 + digit_value c) in if is_digit c then more else (n, c ∷ s)

-- A size has at least one digit.
abbrev starts_with_digit : Bytes → Bool
starts_with_digit [] = false
starts_with_digit (c ∷ s) = is_digit c

abbrev strip_crlf : Bytes → Option Bytes
strip_crlf [] = none
strip_crlf (c ∷ []) = none
strip_crlf (c ∷ d ∷ s) = if c == 13 then (if d == 10 then some s else none) else none

infixl 5 ◌>>=◌
abbrev ◌>>=◌ : {A B : Type 0} → Option A → (A → Option B) → Option B
none >>= f = none
some a >>= f = f a

abbrev pub prepend : Bytes → Option (Bytes × Bytes) → Option (Bytes × Bytes)
prepend s none = none
prepend s (some (body, rest)) = some (s ++ body, rest)

-- The body of a chunked message and what follows it, or `none` if it is malformed or cut short.
pub dechunk : ℕ → Bytes → Option (Bytes × Bytes)
unfolding read_size
dechunk zero s = none
dechunk (suc fuel) s = do
  let (n, line_end) = read_size s 0
  s' ← (if starts_with_digit s then strip_crlf line_end else none)
  let last = (do rest ← strip_crlf s'; some ([], rest))
  let further = (do next ← strip_crlf (drop n s'); prepend (take n s') (dechunk fuel next))
  if n == 0 then last else if ltb (length s') n then none else further

read_size-append :
    (digits rest : Bytes) (n : ℕ)
    → All (λ c. is_digit c ≡ true) digits
    → read_size (digits ++ (13 ∷ rest)) n ≡ (numeral_value 16 n digits, 13 ∷ rest)
unfolding read_size numeral_value is_digit
read_size-append [] rest n d = refl
read_size-append (c ∷ digits) rest n d =
    ground (arith, d.0, read_size-append digits rest (n * 16 + digit_value c) d.1)

starts_with_digit-numeral :
    (digits rest : Bytes)
    → All (λ c. is_digit c ≡ true) digits
    → digits ≢ []
    → starts_with_digit (digits ++ rest) ≡ true
starts_with_digit-numeral [] rest d ne = absurd (ne refl)
starts_with_digit-numeral (c ∷ digits) rest d ne = d.0

-- Reading the size line of a chunk.
read_size-numeral :
    (n : ℕ) (rest : Bytes) → read_size (numeral 16 n ++ (crlf ++ rest)) 0 ≡ (n, crlf ++ rest)
read_size-numeral n rest =
    read_size-append (numeral 16 n) (10 ∷ rest) 0 (numeral_digits 16 (omega arith) (omega arith) n)
    ∙ ap (λ k. (k, 13 ∷ 10 ∷ rest)) (value-numeral 16 (omega arith) (omega arith) n)

length-ne-zero : (bytes : Bytes) → bytes ≢ [] → length bytes ≢ 0
length-ne-zero [] ne = absurd (ne refl)
length-ne-zero (b ∷ bytes) ne = omega arith

-- A chunk of at least one byte is read back in front of what follows it.
pub dechunk-chunk :
    (fuel : ℕ) (bytes rest : Bytes)
    → bytes ≢ []
    → dechunk (suc fuel) (chunk bytes ++ rest) ≡ prepend bytes (dechunk fuel rest)
unfolding dechunk
dechunk-chunk fuel bytes rest ne =
    let n = length bytes in
    let tail = bytes ++ (crlf ++ rest) in
    let shape : chunk bytes ++ rest ≡ numeral 16 n ++ (crlf ++ tail) = simp append_assoc in
    let first =
      starts_with_digit-numeral (numeral 16 n) (crlf ++ tail)
        (numeral_digits 16 (omega arith) (omega arith) n) (numeral-ne-nil 16 n) in
    let positive : (n == 0) ≡ false = ground (arith, length-ne-zero bytes ne) in
    let room : ltb (length tail) n ≡ false =
      ltb-false (length tail) n (omega (arith, length-append bytes (crlf ++ rest))) in
    rw (
      shape,
      read_size-numeral n tail,
      first,
      positive,
      room,
      drop-append_left bytes (crlf ++ rest),
      take-append_left bytes (crlf ++ rest),
    )

-- The terminator ends the body.
pub dechunk-terminator :
    (fuel : ℕ) (rest : Bytes) → dechunk (suc fuel) (terminator ++ rest) ≡ some ([], rest)
unfolding dechunk is_digit digit_value
dechunk-terminator fuel rest = refl
