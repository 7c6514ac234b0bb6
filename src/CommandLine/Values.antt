-- ===== src/CommandLine/Values.antt =====
-- How `main` of src/main.cpp reads the values of its options.
use lswasm.Base.{
  ℕ, zero, suc, ◌+◌, ◌-◌, ◌%◌, ◌^◌, Bool, true, false, not, ◌&&◌, ◌||◌, Option, none, some, [], ◌∷◌,
}
use lswasm.Base.{ltb, leb, ◌==◌, if◌then◌else◌}
use lswasm.Base.{length, is_empty, drop}
use lswasm.Base.{Bytes}
use lswasm.Base.{numeral_value}
use lswasm.Server.Request.{skip_space, digits}

-- A C `int`, as the numbers 0, 1, ... and -1, -2, ...
pub data ℤ : Type 0 where
  pos negsuc : ℕ → ℤ

-- The sign at the front of a number, and what follows it.
abbrev pub sign_of : Bytes → Bool × Bytes
sign_of [] = (false, [])
sign_of (c ∷ s) = if c == b'-' then (true, s) else if c == b'+' then (false, s) else (false, c ∷ s)

abbrev pub signed : Bool → ℕ → ℤ
signed negative zero = pos 0
signed negative (suc n) = if negative then negsuc n else pos (suc n)

-- `std::stoi`: `none` where it throws.
unfoldable pub stoi : Bytes → Option ℤ
unfolding numeral_value
stoi text =
    let (negative, rest) = sign_of (skip_space text) in
    let n = numeral_value 10 0 (digits rest) in
    let limit = if negative then 2 ^ 31 + 1 else 2 ^ 31 in
    if is_empty (digits rest) then none else if ltb n limit then some (signed negative n) else none

-- `static_cast<size_t>` of an `int`.
unfoldable pub to_size : ℤ → ℕ
to_size (pos n) = n
to_size (negsuc n) = (2 ^ 64 - suc n) % 2 ^ 64

abbrev pub octal_digits : Bytes → Bytes
octal_digits [] = []
octal_digits (c ∷ cs) = if leb b'0' c && leb c b'7' then c ∷ octal_digits cs else []

-- `strtoul` in base 8: a negative number wraps, one that is too large gives the maximum.
unfoldable pub strtoul : Bool → Bytes → ℕ
unfolding numeral_value
strtoul negative octal =
    let n = numeral_value 8 0 octal in
    if ltb n (2 ^ 64) then (if negative then (2 ^ 64 - n) % 2 ^ 64 else n) else 2 ^ 64 - 1

-- The value of `--sock-perm`: `none` where it is refused.
unfoldable pub parse_perm : Bytes → Option ℕ
unfolding strtoul
parse_perm text =
    let (negative, rest) = sign_of (skip_space text) in
    let octal = octal_digits rest in
    let parsed = strtoul negative octal in
    if is_empty octal || not (is_empty (drop (length octal) rest))
    then none
    else if ltb 511 parsed
    then none
    else some parsed

-- The parts of a text around its first `=`.
abbrev pub split_env : Bytes → Option (Bytes × Bytes)
split_env [] = none
split_env (c ∷ cs) =
    let rest = split_env cs in
    if c == b'='
    then some ([], cs)
    else elim rest [ none ↦ none | some (key, value) ↦ some (c ∷ key, value) ]
