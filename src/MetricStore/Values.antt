-- ===== src/MetricStore/Values.antt =====
-- What recording and incrementing do to the values that are read.
use lswasm.Base.{ℕ, ◌+◌, ◌%◌, ◌^◌, ◌≡◌, ◌⊎◌, inl, inr, none, some, List, [], ◌∷◌, arith}
use lswasm.Base.{◌==◌, if◌then◌else◌, Option-cases}
use lswasm.Base.{lookup}
use lswasm.Context.{ok, not_found}
use lswasm.MetricStore.{MetricEntry, MetricStore, update, record_value, get}

lookup-update :
    (id j : ℕ) (f : MetricEntry → ℕ) (m : List (ℕ × MetricEntry))
    → lookup ◌==◌ j (update id f m) ≡ (
        if id == j
        then elim (lookup ◌==◌ id m) [ none ↦ none | some e ↦ some (record e { value = f e }) ]
        else lookup ◌==◌ j m)
unfolding update
lookup-update id j f [] = ground arith
lookup-update id j f ((k, e) ∷ rest) = ground (arith, lookup-update id j f rest)

-- The value that a write of `v` leaves in an entry.
abbrev pub recorded : MetricEntry → ℕ → ℕ
recorded e v = if e.type == 1 then v else (e.value + v) % 2 ^ 64

-- Recording under an identifier that is not defined is refused and changes nothing. Else it replaces
-- the value of a gauge and adds to that of any other metric, modulo 2 ^ 64, and the value of every
-- other metric stays.
pub get-record_value :
    (s : MetricStore) (id v j : ℕ)
    → ((lookup ◌==◌ id s.metrics ≡ none) × (record_value s id v ≡ (not_found, s)))
      ⊎ ((e : MetricEntry) × (lookup ◌==◌ id s.metrics ≡ some e)
          × ((record_value s id v).0 ≡ ok)
          × (get (record_value s id v).1 j
              ≡ (if id == j then (ok, some (recorded e v)) else get s j)))
unfolding record_value get
get-record_value s id v j = elim (Option-cases (lookup ◌==◌ id s.metrics)) [
  | inl e ↦ inl (e, ground (e, arith))
  | inr (e, h) ↦ inr (
    e,
    h,
    ground (h, arith),
    ground (
      h,
      arith,
      lookup-update id j (λ e. v) s.metrics,
      lookup-update id j (λ e. (e.value + v) % 2 ^ 64) s.metrics,
    ),
  )
]
