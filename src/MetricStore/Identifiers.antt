-- ===== src/MetricStore/Identifiers.antt =====
-- Identifiers and names of metrics, after any operations on a store.
use lswasm.Base.{
  ℕ, ◌+◌, ◌%◌, ◌^◌, ◌<◌, ◌≡◌, sym, subst, inl, inr, not, Option, none, some, List, [], ◌∷◌, arith,
}
use lswasm.Base.{◌==◌, if◌then◌else◌, Option-cases, if_cases}
use lswasm.Base.{length}
use lswasm.Base.{Bytes}
use lswasm.Base.{lookup}
use lswasm.Context.{WasmResult, ok, not_found}
use native.Mathlib.Nat.{add-zero}
use lswasm.MetricStore.Define.{define_new, define_found}
use lswasm.MetricStore.{
  MetricEntry, MetricStore, init, find_name, define, update, increment, record_value,
}
use lswasm.MetricStore.Uniqueness.{IsStore, allocate-IsStore, update-IsStore, later-IsStore}

-- An operation that may change a store, with its arguments.
pub data Operation : Type 0 where
  defines : ℕ → Bytes → Operation
  increments records : ℕ → ℕ → Operation

abbrev pub perform : MetricStore → Operation → MetricStore
perform s (defines type name) = (define s type name).2
perform s (increments id offset) = (increment s id offset).1
perform s (records id value) = (record_value s id value).1

abbrev pub run : MetricStore → List Operation → MetricStore
run s [] = s
run s (x ∷ xs) = run (perform s x) xs

perform-IsStore :
    (n : ℕ) (s : MetricStore) (x : Operation)
    → n + 1 < 2 ^ 30
    → IsStore n s
    → IsStore (n + 1) (perform s x)
unfolding increment record_value
perform-IsStore n s (defines type name) small v =
    let P = λ (r : WasmResult × Option ℕ × MetricStore). IsStore (n + 1) r.2 in
    elim (Option-cases (find_name name s.metrics)) [
      | inl new ↦
          subst P (sym (define_new s type name new)) (allocate-IsStore n s type v small name new)
      | inr ((id, e), old) ↦ subst P (sym (define_found s type name id e old)) (
          if_cases P (not (e.type == type)) _ _ (λ _. later-IsStore n s v)
            (λ _. later-IsStore n s v))
    ]
perform-IsStore n s (increments id offset) small v =
    later-IsStore n (increment s id offset).1 (go (lookup ◌==◌ id s.metrics))
  where
    go :
        (o : Option MetricEntry)
        → IsStore n
            (elim o as (λ _. WasmResult × MetricStore) [
              | none ↦ (not_found, s)
              | some e ↦ (
                ok,
                record s { metrics = update id (λ e. (e.value + offset) % 2 ^ 64) s.metrics },
              )
            ]).1
    go none = v
    go (some e) = update-IsStore n s id (λ e. (e.value + offset) % 2 ^ 64) v
perform-IsStore n s (records id value) small v =
    later-IsStore n (record_value s id value).1 (go (lookup ◌==◌ id s.metrics))
  where
    go :
        (o : Option MetricEntry)
        → IsStore n
            (elim o as (λ _. WasmResult × MetricStore) [
              | none ↦ (not_found, s)
              | some e ↦
                  if e.type == 1
                  then (ok, record s { metrics = update id (λ e. value) s.metrics })
                  else (
                    ok,
                    record s { metrics = update id (λ e. (e.value + value) % 2 ^ 64) s.metrics },
                  )
            ]).1
    go none = v
    go (some e) =
        if_cases (λ (r : WasmResult × MetricStore). IsStore n r.1) (e.type == 1) _ _
          (λ _. update-IsStore n s id (λ e. value) v)
          (λ _. update-IsStore n s id (λ e. (e.value + value) % 2 ^ 64) v)

run-IsStore_from :
    (n : ℕ) (s : MetricStore) (xs : List Operation)
    → n + length xs + 1 < 2 ^ 30
    → IsStore n s
    → IsStore (n + length xs) (run s xs)
run-IsStore_from n s [] small v = rw (add-zero n) v
run-IsStore_from n s (x ∷ xs) small v =
    let e : n + length (x ∷ xs) ≡ n + 1 + length xs = omega arith in
    rw e (
      run-IsStore_from (n + 1) (perform s x) xs (omega (arith, small))
        (perform-IsStore n s x (omega (arith, small)) v))

-- After fewer than 2 ^ 30 - 1 operations on a new store, whatever they are: no two metrics share a name
-- or an identifier, the map is in the order of its keys, the low bits of an identifier tell the type
-- of its metric (those of an unknown type are the bits of a counter), and every identifier is below
-- the next one of its type, which has not wrapped.
pub run-IsStore : (xs : List Operation) → length xs + 1 < 2 ^ 30 → IsStore (length xs) (run init xs)
unfolding init
run-IsStore xs small =
    let e : 0 + length xs ≡ length xs = omega arith in
    subst (λ n. IsStore n (run init xs)) e
      (run-IsStore_from 0 init xs (omega (arith, small)) (record {
        sorted = tt;
        distinct = tt;
        given = tt;
        counters = omega arith;
        gauges = omega arith;
        histograms = omega arith;
      }))
