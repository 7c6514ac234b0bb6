-- ===== src/Base/Numeral.antt =====
-- The standard library's number formatting (`std::to_string`, `<<` on an unsigned integer, `%zx`)
-- and its inverse, in any base up to 16.
use Prim.Native.Nat.{ℕ, zero, suc, ◌+◌, ◌-◌, ◌*◌, ◌/◌, ◌%◌, ◌<◌}
use mathlib.Core.Path.{◌≡◌}
use mathlib.Core.Bool.{Bool, true, ◌&&◌}
use mathlib.Core.List.{[], ◌∷◌}
use native.Mathlib.Omega.{arith}
use lswasm.Base.Tests.{ltb, leb, if◌then◌else◌}
use lswasm.Base.Text.{Bytes}
use lswasm.Base.Lists.{All, length}
use native.Mathlib.Nat.{div-add-mod', div-lt_self, mod-lt, pow-suc, pow-zero, div-lt_iff_lt-mul}
use Prim.Native.Nat.{◌^◌}
use mathlib.Core.Logic.{◌≢◌}
use lswasm.Base.Tests.{if_cases, lt→ltb}
use mathlib.Core.Path.{◌∙◌, ap}
use lswasm.Base.Tests.{Bool-cases, ltb→lt}
use mathlib.Core.Logic.{inl, inr}
use Prim.Native.Nat.{◌≤◌}

unfoldable pub digit : ℕ → ℕ
digit d = if ltb d 10 then b'0' + d else b'a' + d - 10

unfoldable pub digit_value : ℕ → ℕ
digit_value c = if leb c b'9' then c - b'0' else c - b'a' + 10

-- A digit of a base up to 16, as a character.
unfoldable pub is_digit : ℕ → Bool
is_digit c = if leb b'0' c && leb c b'9' then true else leb b'a' c && leb c b'f'

pub digit_value-digit : (d : ℕ) → d < 16 → digit_value (digit d) ≡ d
unfolding digit digit_value
digit_value-digit d h = ground arith

pub is_digit-digit : (d : ℕ) → d < 16 → is_digit (digit d) ≡ true
unfolding digit is_digit
is_digit-digit d h = ground arith

-- Most significant digit first; the fuel `n + 1` is more than there are digits.
pub numeral_from : ℕ → ℕ → ℕ → Bytes → Bytes
numeral_from zero base n acc = acc
numeral_from (suc fuel) base n acc =
    let more = numeral_from fuel base (n / base) (digit (n % base) ∷ acc) in
    if ltb n base then digit n ∷ acc else more

unfoldable pub numeral : ℕ → ℕ → Bytes
unfolding numeral_from digit
numeral base n = numeral_from (suc n) base n []

-- The number that a text of digits stands for.
unfoldable pub numeral_value : ℕ → ℕ → Bytes → ℕ
numeral_value base acc [] = acc
numeral_value base acc (c ∷ s) = numeral_value base (acc * base + digit_value c) s

module _ (base : ℕ) (low : 2 ≤ base) (high : base ≤ 16) where
  value-numeral_from :
      (fuel n : ℕ) (acc : Bytes)
      → n < fuel
      → numeral_value base 0 (numeral_from fuel base n acc) ≡ numeral_value base n acc
  unfolding numeral_from numeral_value
  value-numeral_from zero n acc h = elim h [ ]
  value-numeral_from (suc fuel) n acc h = elim (Bool-cases (ltb n base)) [
    | inl small ↦
        let n<16 : n < 16 = omega (arith, ltb→lt n base small) in
        rw small (ap (λ k. numeral_value base k acc) (omega (arith, digit_value-digit n n<16)))
    | inr large ↦
        let lt : base ≤ n = ground arith in
        let rest : n % base < base = mod-lt n (omega arith) in
        let step : n / base < n = div-lt_self (omega arith) (omega arith) in
        rw large (
          value-numeral_from fuel (n / base) (digit (n % base) ∷ acc) (omega arith)
          ∙ ap (λ k. numeral_value base k acc)
              (omega (arith, digit_value-digit (n % base), div-add-mod' n base)))
  ]

  digits-numeral_from :
      (fuel n : ℕ) (acc : Bytes)
      → n < fuel
      → All (λ c. is_digit c ≡ true) acc
      → All (λ c. is_digit c ≡ true) (numeral_from fuel base n acc)
  unfolding numeral_from
  digits-numeral_from zero n acc h d = elim h [ ]
  digits-numeral_from (suc fuel) n acc h d = elim (Bool-cases (ltb n base)) [
    | inl small ↦ rw small (is_digit-digit n (omega (arith, ltb→lt n base small)), d)
    | inr large ↦
        let lt : base ≤ n = ground arith in
        let rest : n % base < base = mod-lt n (omega arith) in
        let step : n / base < n = div-lt_self (omega arith) (omega arith) in
        rw large (
          digits-numeral_from fuel (n / base) (digit (n % base) ∷ acc) (omega arith)
            (is_digit-digit (n % base) (omega arith), d))
  ]

  all-numeral_from :
      (P : ℕ → Type 0)
      → ((d : ℕ) → d < base → P (digit d))
      → (fuel n : ℕ) (acc : Bytes) → n < fuel
      → All P acc
      → All P (numeral_from fuel base n acc)
  unfolding numeral_from
  all-numeral_from P ok zero n acc h d = elim h [ ]
  all-numeral_from P ok (suc fuel) n acc h d = elim (Bool-cases (ltb n base)) [
    | inl small ↦ rw small (ok n (ltb→lt n base small), d)
    | inr large ↦
        let lt : base ≤ n = ground arith in
        let step : n / base < n = div-lt_self (omega arith) (omega arith) in
        rw large (
          all-numeral_from P ok fuel (n / base) (digit (n % base) ∷ acc) (omega arith)
            (ok (n % base) (mod-lt n (omega arith)), d))
  ]

  -- What holds of the digits of the base holds of all that are printed.
  pub all-numeral :
      (P : ℕ → Type 0) → ((d : ℕ) → d < base → P (digit d)) → (n : ℕ) → All P (numeral base n)
  unfolding numeral
  all-numeral P ok n = all-numeral_from P ok (suc n) n [] (omega arith) tt

  -- What is printed reads back.
  pub value-numeral : (n : ℕ) → numeral_value base 0 (numeral base n) ≡ n
  unfolding numeral numeral_value
  value-numeral n = value-numeral_from (suc n) n [] (omega arith)

  -- Only digits are printed.
  pub numeral_digits : (n : ℕ) → All (λ c. is_digit c ≡ true) (numeral base n)
  unfolding numeral
  numeral_digits n = digits-numeral_from (suc n) n [] (omega arith) tt

numeral_from-ne-nil : (fuel base n : ℕ) (acc : Bytes) → acc ≢ [] → numeral_from fuel base n acc ≢ []
unfolding numeral_from
numeral_from-ne-nil zero base n acc ne = ne
numeral_from-ne-nil (suc fuel) base n acc ne =
    if_cases (λ s. s ≢ []) (ltb n base) _ _ (λ _ e. cc)
      (λ _. numeral_from-ne-nil fuel base (n / base) (digit (n % base) ∷ acc) (λ e. cc))

-- At least one digit is printed.
pub numeral-ne-nil : (base n : ℕ) → numeral base n ≢ []
unfolding numeral
numeral-ne-nil base n =
    if_cases (λ s. s ≢ []) (ltb n base) _ _ (λ _ e. cc)
      (λ _. numeral_from-ne-nil n base (n / base) (digit (n % base) ∷ []) (λ e. cc))

length-numeral_from :
    (fuel base k n : ℕ) (acc : Bytes)
    → 0 < base
    → n < base ^ suc k
    → length (numeral_from fuel base n acc) ≤ suc k + length acc
unfolding numeral_from
length-numeral_from zero base k n acc pos h = omega arith
length-numeral_from (suc fuel) base zero n acc pos h =
    let power : base ^ 1 ≡ base = rw (pow-suc base 0, pow-zero base) (omega arith) in
    let small : n < base = rw power at h in rw (lt→ltb n base small) (omega arith)
length-numeral_from (suc fuel) base (suc k) n acc pos h =
    if_cases (λ (s : Bytes). length s ≤ suc (suc k) + length acc) (ltb n base) (digit n ∷ acc) _
      (λ _. omega arith)
      λ _. omega (
        arith,
        length-numeral_from fuel base k (n / base) (digit (n % base) ∷ acc) pos
            ((div-lt_iff_lt-mul pos).1 (rw (pow-suc base (suc k)) at h)),
      )

-- A number below `base ^ k` has at most `k` digits (one at least).
pub length-numeral : (base k n : ℕ) → 0 < base → n < base ^ suc k → length (numeral base n) ≤ suc k
unfolding numeral
length-numeral base k n pos h = omega (arith, length-numeral_from (suc n) base k n [] pos h)
