-- ===== src/MetricStore/Define.antt =====
-- Defining a metric twice.
use lswasm.Base.{
  ℕ, ◌≡◌, sym, ap, subst, ◌∙◌, inl, inr, true, not, Option, none, some, List, [], ◌∷◌, arith,
}
use lswasm.Base.{◌==◌, if◌then◌else◌, ==_iff, Option-cases, if_cases}
use lswasm.Base.{Bytes, bytes_eq, bytes_eq_iff}
use lswasm.Base.{lookup}
use lswasm.Context.{WasmResult, ok, bad_argument}
use lswasm.MetricStore.{
  MetricEntry, MetricStore, next_id_for_type, find_name, insert, emplace, allocate, define,
}

find_name-insert :
    (name : Bytes) (id : ℕ) (e : MetricEntry) (m : List (ℕ × MetricEntry))
    → find_name name m ≡ none
    → bytes_eq e.name name ≡ true
    → find_name name (insert id e m) ≡ some (id, e)
unfolding find_name insert
find_name-insert name id e [] h same = ground (arith, same)
find_name-insert name id e ((j, f) ∷ m) h same =
    ground (arith, h, same, find_name-insert name id e m)

-- The result of `define` by the metric of that name.
pub define_found :
    (s : MetricStore) (type : ℕ) (name : Bytes) (id : ℕ) (e : MetricEntry)
    → find_name name s.metrics ≡ some (id, e)
    → define s type name
      ≡ (if not (e.type == type) then (bad_argument, none, s) else (ok, some id, s))
unfolding define
define_found s type name id e h = ground (h, arith)

pub define_new :
    (s : MetricStore) (type : ℕ) (name : Bytes)
    → find_name name s.metrics ≡ none
    → define s type name ≡ allocate s type name
unfolding define
define_new s type name h = ground (h, arith)

pub emplace_new :
    (id : ℕ) (e : MetricEntry) (m : List (ℕ × MetricEntry))
    → lookup ◌==◌ id m ≡ none
    → emplace id e m ≡ insert id e m
unfolding emplace
emplace_new id e m h = ground (h, arith)

-- The entry of a new metric.
abbrev new_entry : ℕ → Bytes → MetricEntry
new_entry type name = record { name = name; type = type; value = 0 }

allocate-define :
    (s : MetricStore) (type : ℕ) (name : Bytes)
    → find_name name s.metrics ≡ none
    → lookup ◌==◌ (next_id_for_type s type) s.metrics ≡ none
    → define (allocate s type name).2 type name ≡ allocate s type name
unfolding allocate
allocate-define s type name new free =
    let id = next_id_for_type s type in
    let e = new_entry type name in
    let there : find_name name (emplace id e s.metrics) ≡ some (id, e) =
      ap (find_name name) (emplace_new id e s.metrics free)
      ∙ find_name-insert name id e s.metrics new (ground (arith, bytes_eq_iff name name)) in
    define_found (allocate s type name).2 type name id e there ∙ ground (arith, ==_iff type type)

-- If the next identifier of the type is free, then a second `define` of the same name and type has the
-- result and the identifier of the first, and leaves the store as the first left it.
pub define-define :
    (s : MetricStore) (type : ℕ) (name : Bytes)
    → lookup ◌==◌ (next_id_for_type s type) s.metrics ≡ none
    → define (define s type name).2 type name ≡ define s type name
define-define s type name free = elim (Option-cases (find_name name s.metrics)) [
  | inl new ↦
      subst (λ (r : WasmResult × Option ℕ × MetricStore). define r.2 type name ≡ r)
        (sym (define_new s type name new)) (allocate-define s type name new free)
  | inr ((id, e), old) ↦
      let found = define_found s type name id e old in
      subst (λ (r : WasmResult × Option ℕ × MetricStore). define r.2 type name ≡ r) (sym found)
        (if_cases (λ (r : WasmResult × Option ℕ × MetricStore). define r.2 type name ≡ r)
          (not (e.type == type)) _ _ (λ h. found ∙ ground (h, arith))
          (λ h. found ∙ ground (h, arith)))
]
