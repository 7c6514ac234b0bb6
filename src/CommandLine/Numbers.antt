-- ===== src/CommandLine/Numbers.antt =====
-- The values of options that are written out are read back.
use lswasm.Base.{ℕ, zero, suc, ◌^◌, ◌≤◌, ◌<◌, ◌≡◌, refl, false, some, [], ◌∷◌, ◌++◌, arith}
use lswasm.Base.{◌==◌, lt→ltb}
use lswasm.Base.{length, is_empty, any_of, All, drop-length}
use lswasm.Base.{Bytes, codes}
use lswasm.Base.{digit, numeral, value-numeral, numeral-ne-nil}
use lswasm.Base.{all-numeral}
use lswasm.Server.Request.{skip_space, digits}
use lswasm.CommandLine.{pos, sign_of, signed, stoi, octal_digits, strtoul, parse_perm, split_env}

-- A text that starts with a digit is read from its start on.
abbrev IsDecimal : ℕ → Type 0
IsDecimal c = (48 ≤ c) × (c ≤ 57)

abbrev IsOctal : ℕ → Type 0
IsOctal c = (48 ≤ c) × (c ≤ 55)

sign_of-digits : (s : Bytes) → All IsDecimal s → sign_of (skip_space s) ≡ (false, s)
sign_of-digits [] v = refl
sign_of-digits (c ∷ s) v = ground (arith, v.0)

digits-All : (s : Bytes) → All IsDecimal s → digits s ≡ s
digits-All [] v = refl
digits-All (c ∷ s) v = ground (arith, v.0, digits-All s v.1)

octal_digits-All : (s : Bytes) → All IsOctal s → octal_digits s ≡ s
octal_digits-All [] v = refl
octal_digits-All (c ∷ s) v = ground (arith, v.0, octal_digits-All s v.1)

All-IsDecimal : (s : Bytes) → All IsOctal s → All IsDecimal s
All-IsDecimal [] v = tt
All-IsDecimal (c ∷ s) v = ((v.0.0, omega (arith, v.0.1)), All-IsDecimal s v.1)

numeral-IsDecimal : (n : ℕ) → All IsDecimal (numeral 10 n)
unfolding digit
numeral-IsDecimal n =
    all-numeral 10 (omega arith) (omega arith) IsDecimal (λ d h. ground (arith, h)) n

numeral-IsOctal : (n : ℕ) → All IsOctal (numeral 8 n)
unfolding digit
numeral-IsOctal n = all-numeral 8 (omega arith) (omega arith) IsOctal (λ d h. ground (arith, h)) n

numeral_some : (base n : ℕ) → is_empty (numeral base n) ≡ false
numeral_some base n = ground (arith, numeral-ne-nil base n)

signed-false : (n : ℕ) → signed false n ≡ pos n
signed-false zero = refl
signed-false (suc n) = refl

pub stoi-numeral : (n : ℕ) → n < 2 ^ 31 → stoi (numeral 10 n) ≡ some (pos n)
unfolding stoi
stoi-numeral n h =
    rw
      (
        sign_of-digits (numeral 10 n) (numeral-IsDecimal n),
        digits-All (numeral 10 n) (numeral-IsDecimal n),
        numeral_some 10 n,
        value-numeral 10 (omega arith) (omega arith) n,
        lt→ltb n (2 ^ 31) h,
        signed-false n,
      )
      refl

pub parse_perm-numeral : (n : ℕ) → n ≤ 511 → parse_perm (numeral 8 n) ≡ some n
unfolding parse_perm strtoul
parse_perm-numeral n h =
    rw
      (
        sign_of-digits (numeral 8 n) (All-IsDecimal _ (numeral-IsOctal n)),
        octal_digits-All (numeral 8 n) (numeral-IsOctal n),
        numeral_some 8 n,
        drop-length (numeral 8 n) (length (numeral 8 n)) (omega arith),
        value-numeral 8 (omega arith) (omega arith) n,
      )
      (ground (arith, h))

pub split_env-append :
    (key value : Bytes)
    → any_of (λ c. c == b'=') key ≡ false
    → split_env (key ++ (codes "=" ++ value)) ≡ some (key, value)
split_env-append [] value h = refl
split_env-append (c ∷ key) value h = ground (arith, h, split_env-append key value)
