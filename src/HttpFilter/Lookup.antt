-- ===== src/HttpFilter/Lookup.antt =====
-- The searches of src/http_filter.h and of the header maps on lists that are put together.
use lswasm.Base.{◌≡◌, refl, Bool, true, false, ◌&&◌, ◌||◌, [], ◌∷◌, ◌++◌, arith}
use lswasm.Base.{if◌then◌else◌}
use lswasm.Base.{Bytes, codes}
use lswasm.HttpUtils.{HeaderPairs}
use lswasm.HttpUtils.Names.{header_name_eq, header_name_eq_trans, header_name_eq_sym}
use lswasm.Context.HeaderMaps.{find_value}
use lswasm.HttpFilter.{has, host_of}

pub has-append :
    (xs ys : HeaderPairs) (name : Bytes) → has (xs ++ ys) name ≡ (has xs name || has ys name)
unfolding has
has-append [] ys name = refl
has-append ((k, v) ∷ xs) ys name = ground (arith, has-append xs ys name)

pub find_value-append :
    (xs ys : HeaderPairs) (name : Bytes)
    → find_value (xs ++ ys) name ≡ (if has xs name then find_value xs name else find_value ys name)
unfolding has find_value
find_value-append [] ys name = refl
find_value-append ((k, v) ∷ xs) ys name = ground (arith, find_value-append xs ys name)

-- A header that is there on a condition.
abbrev pub optional : Bool → Bytes → Bytes → HeaderPairs
optional b key value = if b then (key, value) ∷ [] else []

pub has-optional :
    (b : Bool) (key value name : Bytes)
    → has (optional b key value) name ≡ (b && header_name_eq key name)
unfolding has
has-optional true key value name = ground arith
has-optional false key value name = refl

pub has_congruent :
    (hs : HeaderPairs) (a b : Bytes) → header_name_eq a b ≡ true → has hs a ≡ has hs b
unfolding has
has_congruent [] a b e = refl
has_congruent ((k, v) ∷ hs) a b e = ground (
  arith,
  e,
  has_congruent hs a b e,
  header_name_eq_trans k a b,
  header_name_eq_trans k b a,
  header_name_eq_sym a b,
)

pub find_value-optional :
    (b : Bool) (key value name : Bytes)
    → find_value (optional b key value) name ≡ (if b && header_name_eq key name then value else [])
unfolding find_value
find_value-optional true key value name = ground arith
find_value-optional false key value name = refl

pub host_of_lem :
    (hs : HeaderPairs) (authority : Bytes)
    → host_of hs authority
      ≡ (if has hs (codes "Host") then find_value hs (codes "Host") else authority)
unfolding host_of has find_value
host_of_lem [] authority = refl
host_of_lem ((k, v) ∷ hs) authority = ground (arith, host_of_lem hs authority)

pub find_value-skip :
    (b : Bool) (key value name : Bytes) (rest : HeaderPairs)
    → header_name_eq key name ≡ false
    → find_value (optional b key value ++ rest) name ≡ find_value rest name
unfolding find_value
find_value-skip true key value name rest e = ground (e, arith)
find_value-skip false key value name rest e = refl
