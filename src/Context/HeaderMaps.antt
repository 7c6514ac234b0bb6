-- ===== src/Context/HeaderMaps.antt =====
-- The header maps of a context, as the filter and the host read and change them.
use lswasm.Base.{
  ℕ, ◌+◌, ◌%◌, ◌^◌, ◌≡◌, refl, inl, inr, Bool, none, some, List, [], ◌∷◌, ◌++◌, arith,
}
use lswasm.Base.{◌==◌, if◌then◌else◌, ==_iff, Option-cases}
use lswasm.Base.{length, any_of}
use lswasm.Base.{Bytes}
use lswasm.Base.{lookup, assign, lookup-assign}
use lswasm.HttpUtils.{HeaderPairs}
use lswasm.HttpUtils.Names.{header_name_eq, header_name_eq_trans, header_name_eq_sym}
use lswasm.Context.{LsWasmContext, WasmResult, ok}

-- `header_maps_.find(type)`, with no map read as an empty one.
abbrev pub pairs_in : ℕ → List (ℕ × HeaderPairs) → HeaderPairs
pairs_in type maps = elim (lookup ◌==◌ type maps) [ none ↦ [] | some pairs ↦ pairs ]

module _ {S : Type 0} where
  abbrev pub map_of : LsWasmContext S → ℕ → HeaderPairs
  map_of c type = pairs_in type c.header_maps

  -- `getHeaderMapPairs`
  unfoldable pub get_header_map_pairs : LsWasmContext S → ℕ → WasmResult × HeaderPairs
  get_header_map_pairs c type = (ok, map_of c type)

  -- `setHeaderMapPairs`
  unfoldable pub set_header_map_pairs :
      LsWasmContext S → ℕ → HeaderPairs → WasmResult × LsWasmContext S
  set_header_map_pairs c type pairs =
      (ok, record c { header_maps = assign ◌==◌ type pairs c.header_maps })

  -- `setHeaderMap`
  unfoldable pub set_header_map : LsWasmContext S → ℕ → HeaderPairs → LsWasmContext S
  set_header_map c type pairs = record c { header_maps = assign ◌==◌ type pairs c.header_maps }

  -- `getHeaderMapOwned`
  unfoldable pub get_header_map_owned : LsWasmContext S → ℕ → HeaderPairs
  get_header_map_owned c type = map_of c type

-- The loop of `getHeaderMapValue`: the first value under the name.
unfoldable pub find_value : HeaderPairs → Bytes → Bytes
find_value [] key = []
find_value ((k, v) ∷ rest) key = if header_name_eq k key then v else find_value rest key

-- `remove_if` by name, and `erase`.
unfoldable pub remove_name : Bytes → HeaderPairs → HeaderPairs
remove_name key [] = []
remove_name key ((k, v) ∷ rest) =
    if header_name_eq k key then remove_name key rest else (k, v) ∷ remove_name key rest

-- The loop of `getHeaderMapSize`, on a `uint32_t`.
unfoldable pub size_from : ℕ → HeaderPairs → ℕ
size_from size [] = size
size_from size ((k, v) ∷ rest) = size_from ((size + (length k + length v + 4)) % 2 ^ 32) rest

module _ {S : Type 0} where
  -- `getHeaderMapValue`
  unfoldable pub get_header_map_value : LsWasmContext S → ℕ → Bytes → WasmResult × Bytes
  unfolding find_value
  get_header_map_value c type key = (ok, find_value (map_of c type) key)

  -- `addHeaderMapValue`
  unfoldable pub add_header_map_value :
      LsWasmContext S → ℕ → Bytes → Bytes → WasmResult × LsWasmContext S
  add_header_map_value c type key value = (
    ok,
    record c {
      header_maps = assign ◌==◌ type (map_of c type ++ ((key, value) ∷ [])) c.header_maps;
    },
  )

  -- `replaceHeaderMapValue`
  unfoldable pub replace_header_map_value :
      LsWasmContext S → ℕ → Bytes → Bytes → WasmResult × LsWasmContext S
  unfolding remove_name
  replace_header_map_value c type key value = (
    ok,
    record c {
      header_maps =
          assign ◌==◌ type (remove_name key (map_of c type) ++ ((key, value) ∷ [])) c.header_maps;
    },
  )

  -- `removeHeaderMapValue`
  unfoldable pub remove_header_map_value :
      LsWasmContext S → ℕ → Bytes → WasmResult × LsWasmContext S
  unfolding remove_name
  remove_header_map_value c type key = elim (lookup ◌==◌ type c.header_maps) [
    | none ↦ (ok, c)
    | some pairs ↦
        (ok, record c { header_maps = assign ◌==◌ type (remove_name key pairs) c.header_maps })
  ]

  -- `getHeaderMapSize`
  unfoldable pub get_header_map_size : LsWasmContext S → ℕ → WasmResult × ℕ
  unfolding size_from
  get_header_map_size c type = (ok, size_from 0 (map_of c type))

pub pairs_in-assign :
    (type type' : ℕ) (pairs : HeaderPairs) (maps : List (ℕ × HeaderPairs))
    → pairs_in type' (assign ◌==◌ type pairs maps)
      ≡ (if type == type' then pairs else pairs_in type' maps)
pairs_in-assign type type' pairs maps =
    rw (lookup-assign ◌==◌ ==_iff type type' pairs maps, pairs_in) (ground arith)

-- Whether some header has the name.
abbrev pub has_name : HeaderPairs → Bytes → Bool
has_name pairs key = any_of (λ h. header_name_eq h.0 key) pairs

find_value-remove_name :
    (key other : Bytes) (pairs : HeaderPairs)
    → find_value (remove_name key pairs) other
      ≡ (if header_name_eq key other then [] else find_value pairs other)
unfolding find_value remove_name
find_value-remove_name key other [] = ground arith
find_value-remove_name key other ((k, v) ∷ rest) = ground (
  arith,
  header_name_eq_trans k key other,
  header_name_eq_trans key other k,
  header_name_eq_sym k key,
  header_name_eq_sym k other,
  find_value-remove_name key other rest,
)

find_value-replaced :
    (key other value : Bytes) (pairs : HeaderPairs)
    → find_value (remove_name key pairs ++ ((key, value) ∷ [])) other
      ≡ (if header_name_eq key other then value else find_value pairs other)
unfolding find_value remove_name
find_value-replaced key other value [] = refl
find_value-replaced key other value ((k, v) ∷ rest) = ground (
  arith,
  header_name_eq_trans k key other,
  header_name_eq_trans key other k,
  header_name_eq_sym k key,
  header_name_eq_sym k other,
  find_value-replaced key other value rest,
)

find_value-append :
    (key other value : Bytes) (pairs : HeaderPairs)
    → find_value (pairs ++ ((key, value) ∷ [])) other ≡ (
        if has_name pairs other
        then find_value pairs other
        else if header_name_eq key other
        then value
        else [])
unfolding find_value
find_value-append key other value [] = refl
find_value-append key other value ((k, v) ∷ rest) =
    ground (arith, find_value-append key other value rest)

module _ {S : Type 0} (c : LsWasmContext S) (type : ℕ) (key : Bytes) (type' : ℕ)
    (other : Bytes) where
  -- What a filter reads under any name, in any map, after it has replaced the value under a name: the
  -- new value under that name in any letter case, and elsewhere what it read before.
  pub get_header_map_value-replace :
      (value : Bytes)
      → (get_header_map_value (replace_header_map_value c type key value).1 type' other).1 ≡ (
          if type == type'
          then (if header_name_eq key other then value else (get_header_map_value c type other).1)
          else (get_header_map_value c type' other).1)
  unfolding get_header_map_value replace_header_map_value
  get_header_map_value-replace value =
      rw
        (pairs_in-assign type type' (remove_name key (map_of c type) ++ ((key, value) ∷ []))
          c.header_maps)
        (ground (arith, find_value-replaced key other value (map_of c type)))

  -- What a filter reads under any name, in any map, after it has added a value under a name: in that
  -- map the value that was there under the name read, if any, and else the new one if the names match
  -- in any letter case; in other maps what it read before.
  pub get_header_map_value-add :
      (value : Bytes)
      → (get_header_map_value (add_header_map_value c type key value).1 type' other).1 ≡ (
          if type == type'
          then (if has_name (map_of c type) other
              then (get_header_map_value c type other).1
              else if header_name_eq key other
              then value
              else [])
          else (get_header_map_value c type' other).1)
  unfolding get_header_map_value add_header_map_value
  get_header_map_value-add value =
      rw (pairs_in-assign type type' (map_of c type ++ ((key, value) ∷ [])) c.header_maps)
        (ground (arith, find_value-append key other value (map_of c type)))

  map_of-remove :
      map_of (remove_header_map_value c type key).1 type'
      ≡ (if type == type' then remove_name key (map_of c type) else map_of c type')
  unfolding remove_header_map_value
  map_of-remove = elim (Option-cases (lookup ◌==◌ type c.header_maps)) [
    | inl e ↦ rw (e, remove_header_map_value, pairs_in) (ground (arith, e))
    | inr (pairs, e) ↦
        rw (e, remove_header_map_value, pairs_in)
          (pairs_in-assign type type' (remove_name key pairs) c.header_maps)
  ]

  -- What a filter reads under any name, in any map, after it has removed a name: nothing under that
  -- name in any letter case, and elsewhere what it read before.
  pub get_header_map_value-remove :
      (get_header_map_value (remove_header_map_value c type key).1 type' other).1 ≡ (
        if type == type'
        then (if header_name_eq key other then [] else (get_header_map_value c type other).1)
        else (get_header_map_value c type' other).1)
  unfolding get_header_map_value
  get_header_map_value-remove =
      rw map_of-remove (ground (arith, find_value-remove_name key other (map_of c type)))
