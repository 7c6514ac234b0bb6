-- ===== src/MetricStore.antt =====
-- `MetricStore` of src/wasm_module_manager.h: the metrics of a module, shared by its contexts. Each
-- method is one step: `define` holds the lock alone, and the others make one atomic access.
pub mod Values
pub mod Define
pub mod Entries
pub mod Uniqueness
pub mod Identifiers
pub mod Tests
use lswasm.Base.{ℕ, ◌+◌, ◌%◌, ◌^◌, not, Option, none, some, List, [], ◌∷◌}
use lswasm.Base.{ltb, ◌==◌, if◌then◌else◌}
use lswasm.Base.{Bytes, bytes_eq}
use lswasm.Base.{lookup}
use lswasm.Context.{WasmResult, ok, not_found, bad_argument}

-- `MetricEntry`. The `int64_t` is kept as its bit pattern, a number below 2 ^ 64.
pub record MetricEntry : Type 0 where
  pub name : Bytes
  pub type : ℕ
  pub value : ℕ

-- The fields of `MetricStore`; the map is in the order of its keys.
pub record MetricStore : Type 0 where
  pub metrics : List (ℕ × MetricEntry)
  pub next_counter_id : ℕ
  pub next_gauge_id : ℕ
  pub next_histogram_id : ℕ

unfoldable pub init : MetricStore
init = record { metrics = []; next_counter_id = 0; next_gauge_id = 1; next_histogram_id = 2 }

-- `kIdIncrement`
abbrev pub id_increment : ℕ
id_increment = 4

-- `nextIdForType`: the reference, read and written.
unfoldable pub next_id_for_type : MetricStore → ℕ → ℕ
next_id_for_type s type =
    if type == 0
    then s.next_counter_id
    else if type == 1
    then s.next_gauge_id
    else if type == 2
    then s.next_histogram_id
    else s.next_counter_id

unfoldable pub set_next_id : MetricStore → ℕ → ℕ → MetricStore
set_next_id s type id =
    if type == 0
    then record s { next_counter_id = id }
    else if type == 1
    then record s { next_gauge_id = id }
    else if type == 2
    then record s { next_histogram_id = id }
    else record s { next_counter_id = id }

-- The loop of `define` over the metrics: the first of this name.
unfoldable pub find_name : Bytes → List (ℕ × MetricEntry) → Option (ℕ × MetricEntry)
find_name name [] = none
find_name name ((id, e) ∷ rest) = if bytes_eq e.name name then some (id, e) else find_name name rest

-- `std::map::emplace`: into its place by the key, unless the key is there.
unfoldable pub insert : ℕ → MetricEntry → List (ℕ × MetricEntry) → List (ℕ × MetricEntry)
insert id e [] = (id, e) ∷ []
insert id e ((j, f) ∷ rest) =
    if ltb id j then (id, e) ∷ (j, f) ∷ rest else (j, f) ∷ insert id e rest

unfoldable pub emplace : ℕ → MetricEntry → List (ℕ × MetricEntry) → List (ℕ × MetricEntry)
unfolding insert
emplace id e m = elim (lookup ◌==◌ id m) [ none ↦ insert id e m | some f ↦ m ]

-- What `define` does when there is no metric of this name.
unfoldable pub allocate : MetricStore → ℕ → Bytes → WasmResult × Option ℕ × MetricStore
unfolding next_id_for_type set_next_id emplace
allocate s type name =
    let id = next_id_for_type s type in
    let s' = set_next_id s type ((id + id_increment) % 2 ^ 32) in
    (
      ok,
      some id,
      record s' { metrics = emplace id (record { name = name; type = type; value = 0 }) s.metrics },
    )

-- `define`; the number is what goes through `id_out`.
unfoldable pub define : MetricStore → ℕ → Bytes → WasmResult × Option ℕ × MetricStore
unfolding allocate find_name
define s type name = elim (find_name name s.metrics) [
  | none ↦ allocate s type name
  | some (id, e) ↦ if not (e.type == type) then (bad_argument, none, s) else (ok, some id, s)
]

-- `fetch_add` and `store` on the entry found: what becomes of the value.
unfoldable pub update : ℕ → (MetricEntry → ℕ) → List (ℕ × MetricEntry) → List (ℕ × MetricEntry)
update id f [] = []
update id f ((j, e) ∷ rest) =
    if j == id then (j, record e { value = f e }) ∷ rest else (j, e) ∷ update id f rest

-- `increment`; the offset is given by its bit pattern.
unfoldable pub increment : MetricStore → ℕ → ℕ → WasmResult × MetricStore
unfolding update
increment s id offset = elim (lookup ◌==◌ id s.metrics) [
  | none ↦ (not_found, s)
  | some e ↦ (ok, record s { metrics = update id (λ e. (e.value + offset) % 2 ^ 64) s.metrics })
]

-- `record`
unfoldable pub record_value : MetricStore → ℕ → ℕ → WasmResult × MetricStore
unfolding update
record_value s id value = elim (lookup ◌==◌ id s.metrics) [
  | none ↦ (not_found, s)
  | some e ↦
      if e.type == 1
      then (ok, record s { metrics = update id (λ e. value) s.metrics })
      else (ok, record s { metrics = update id (λ e. (e.value + value) % 2 ^ 64) s.metrics })
]

-- `get`
unfoldable pub get : MetricStore → ℕ → WasmResult × Option ℕ
get s id = elim (lookup ◌==◌ id s.metrics) [
  | none ↦ (not_found, none)
  | some e ↦ (ok, some e.value)
]
