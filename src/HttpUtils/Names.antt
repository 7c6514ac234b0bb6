-- ===== src/HttpUtils/Names.antt =====
-- Header field names compare without regard to ASCII case (`header_name_eq` of http_utils.h).
use lswasm.Base.{ℕ, ◌≡◌, refl, ◌↔◌, Bool, true, false, [], ◌∷◌, map, arith}
use lswasm.Base.{◌==◌, if◌then◌else◌}
use lswasm.Base.{length}
use lswasm.Base.{Bytes, tolower}

-- The loop of `header_name_eq`, on two names of one length.
abbrev same_letters : Bytes → Bytes → Bool
same_letters [] b = true
same_letters (x ∷ a) [] = false
same_letters (x ∷ a) (y ∷ b) = if tolower x == tolower y then same_letters a b else false

-- `header_name_eq`
unfoldable pub header_name_eq : Bytes → Bytes → Bool
header_name_eq a b = if length a == length b then same_letters a b else false

abbrev pub lower : Bytes → Bytes
lower = map tolower

header_name_eq-cons :
    (x y : ℕ) (a b : Bytes)
    → header_name_eq (x ∷ a) (y ∷ b)
      ≡ (if tolower x == tolower y then header_name_eq a b else false)
unfolding header_name_eq
header_name_eq-cons x y a b = ground arith

header_name_eq-nil :
    (y : ℕ) (b : Bytes)
    → (header_name_eq [] [] ≡ true)
      × (header_name_eq [] (y ∷ b) ≡ false)
      × (header_name_eq (y ∷ b) [] ≡ false)
unfolding header_name_eq
header_name_eq-nil y b = (refl, ground arith, ground arith)

-- Two names match exactly when they are equal in lower case.
pub header_name_eq_iff : (a b : Bytes) → (header_name_eq a b ≡ true) ↔ (lower a ≡ lower b)
header_name_eq_iff [] [] = (λ _. refl, λ _. (header_name_eq-nil 0 []).0)
header_name_eq_iff [] (y ∷ b) = (λ h. cc ((header_name_eq-nil y b).1), λ h. cc)
header_name_eq_iff (x ∷ a) [] = (λ h. cc ((header_name_eq-nil x a).2), λ h. cc)
header_name_eq_iff (x ∷ a) (y ∷ b) = rw header_name_eq-cons (ground (arith, header_name_eq_iff a b))

pub header_name_eq_refl : (a : Bytes) → header_name_eq a a ≡ true
header_name_eq_refl a = (header_name_eq_iff a a).1 refl

pub header_name_eq_sym : (a b : Bytes) → header_name_eq a b ≡ header_name_eq b a
header_name_eq_sym a b = ground (arith, header_name_eq_iff a b, header_name_eq_iff b a)

-- Names that match a third alike: a header list can be searched with either.
pub header_name_eq_trans :
    (a b c : Bytes) → header_name_eq a b ≡ true → header_name_eq a c ≡ header_name_eq b c
header_name_eq_trans a b c h =
    ground (arith, header_name_eq_iff a b, header_name_eq_iff a c, header_name_eq_iff b c)
