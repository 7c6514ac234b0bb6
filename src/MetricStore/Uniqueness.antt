-- ===== src/MetricStore/Uniqueness.antt =====
-- The invariant of a store of metrics: no two share a name or an identifier. What a new identifier and a
-- write do to it.
use lswasm.Base.{ℕ, ◌+◌, ◌*◌, ◌%◌, ◌^◌, ◌≤◌, ◌<◌, ◌≡◌, refl, ◌≢◌, none, List, [], ◌∷◌, arith}
use lswasm.Base.{◌==◌, if◌then◌else◌, ==_iff, if_cases}
use lswasm.Base.{All}
use lswasm.Base.{Bytes}
use lswasm.MetricStore.Define.{emplace_new}
use lswasm.MetricStore.{
  MetricEntry, MetricStore, id_increment, next_id_for_type, set_next_id, find_name, allocate,
  update,
}
use lswasm.MetricStore.Entries.{
  Entry, IsSorted, IsDistinct, insert-All, insert-IsSorted, insert-IsDistinct, free_lookup,
  update-All, update-IsSorted, update-IsDistinct,
}

-- The low bits of the identifiers of a type.
abbrev pub low_bits : ℕ → ℕ
low_bits type = if type == 1 then 1 else if type == 2 then 2 else 0

-- An identifier that was given out for the type of its metric.
abbrev pub IsGiven : MetricStore → Entry → Type 0
IsGiven s x = (x.0 % 4 ≡ low_bits x.1.type) × (x.0 < next_id_for_type s x.1.type)

-- A store on which at most `n` metrics were defined.
pub record IsStore (n : ℕ) (s : MetricStore) : Type 0 where
  pub sorted : IsSorted s.metrics
  pub distinct : IsDistinct s.metrics
  pub given : All (IsGiven s) s.metrics
  pub counters : (s.next_counter_id % 4 ≡ 0) × (s.next_counter_id ≤ 4 * n)
  pub gauges : (s.next_gauge_id % 4 ≡ 1) × (s.next_gauge_id ≤ 4 * n + 1)
  pub histograms : (s.next_histogram_id % 4 ≡ 2) × (s.next_histogram_id ≤ 4 * n + 2)

-- The next identifier of a type is not taken.
next_free :
    (n : ℕ) (s : MetricStore) (type : ℕ)
    → IsStore n s
    → (m : List Entry) → All (IsGiven s) m
    → All (λ (y : Entry). y.0 ≢ next_id_for_type s type) m
unfolding next_id_for_type
next_free n s type v [] g = tt
next_free n s type v (x ∷ m) g = (
  λ h. ground (arith, h, g.0.0, g.0.1, v.counters, v.gauges, v.histograms),
  next_free n s type v m g.1,
)

-- What `nextIdForType` gives after a write through its reference.
next_id-set_next_id :
    (s : MetricStore) (type id t : ℕ)
    → next_id_for_type (set_next_id s type id) t
      ≡ (if low_bits type == low_bits t then id else next_id_for_type s t)
unfolding next_id_for_type set_next_id
next_id-set_next_id s type id t =
    if_cases
      (λ (s' : MetricStore).
        next_id_for_type s' t ≡ (if low_bits type == low_bits t then id else next_id_for_type s t))
      (type == 0) _ _ (λ h. ground (arith, h))
      (λ h.
        if_cases
          (λ (s' : MetricStore).
            next_id_for_type s' t
            ≡ (if low_bits type == low_bits t then id else next_id_for_type s t))
          (type == 1) _ _ (λ h. ground (arith, h))
          (λ h'.
            if_cases
              (λ (s' : MetricStore).
                next_id_for_type s' t
                ≡ (if low_bits type == low_bits t then id else next_id_for_type s t))
              (type == 2) _ _ (λ h. ground (arith, h)) (λ h''. ground (arith, h, h', h''))))

-- The three counters by the types that they are for.
next_id_parts :
    (s : MetricStore)
    → (next_id_for_type s 0 ≡ s.next_counter_id)
      × (next_id_for_type s 1 ≡ s.next_gauge_id)
      × (next_id_for_type s 2 ≡ s.next_histogram_id)
unfolding next_id_for_type
next_id_parts s = (refl, refl, refl)

next_bounds :
    (n : ℕ) (s : MetricStore) (type : ℕ)
    → IsStore n s
    → (next_id_for_type s type % 4 ≡ low_bits type)
      × (next_id_for_type s type ≤ 4 * n + low_bits type)
      × (low_bits type ≤ 2)
unfolding next_id_for_type
next_bounds n s type v = ground (arith, v.counters, v.gauges, v.histograms)

next_id_low :
    (s : MetricStore) (type t : ℕ)
    → low_bits type ≡ low_bits t
    → next_id_for_type s type ≡ next_id_for_type s t
unfolding next_id_for_type
next_id_low s type t e = ground (arith, e)

-- An identifier of the type is taken.
module _ (n : ℕ) (s : MetricStore) (type : ℕ) (v : IsStore n s) (small : n + 1 < 2 ^ 30) where
  abbrev next : ℕ
  next = (next_id_for_type s type + id_increment) % 2 ^ 32

  next_lem : next ≡ next_id_for_type s type + 4
  next_lem = omega (arith, small, next_bounds n s type v)

  later : (t : ℕ) → next_id_for_type s t ≤ next_id_for_type (set_next_id s type next) t
  later t = rw (next_id-set_next_id s type next t) (
      if_cases (λ (k : ℕ). next_id_for_type s t ≤ k) (low_bits type == low_bits t) _ _
        (λ h.
          omega (arith, next_lem, next_id_low s type t ((==_iff (low_bits type) (low_bits t)).0 h)))
        (λ _. omega arith))

  -- The counter of a type after it.
  stepped :
      (t : ℕ)
      → low_bits t ≡ t
      → let k = next_id_for_type (set_next_id s type next) t in (k % 4 ≡ t) × (k ≤ 4 * (n + 1) + t)
  stepped t e = rw (next_id-set_next_id s type next t) (
      if_cases (λ (k : ℕ). (k % 4 ≡ t) × (k ≤ 4 * (n + 1) + t)) (low_bits type == low_bits t) _ _
        (λ h.
          omega
            (arith, e, next_lem, next_bounds n s type v, (==_iff (low_bits type) (low_bits t)).0 h))
        (λ _. omega (arith, e, next_bounds n s t v)))

  IsGiven-later : (m : List Entry) → All (IsGiven s) m → All (IsGiven (set_next_id s type next)) m
  IsGiven-later [] g = tt
  IsGiven-later (x ∷ m) g = ((g.0.0, omega (arith, g.0.1, later x.1.type)), IsGiven-later m g.1)

  pub allocate-IsStore :
      (name : Bytes) → find_name name s.metrics ≡ none → IsStore (n + 1) (allocate s type name).2
  unfolding allocate
  allocate-IsStore name new =
      let id = next_id_for_type s type in
      let e : MetricEntry = record { name = name; type = type; value = 0 } in
      let free = next_free n s type v s.metrics v.given in
      let s' = set_next_id s type next in
      let p = next_id_parts s' in
      let taken : next_id_for_type s' type ≡ next =
        ground (arith, next_id-set_next_id s type next type) in
      let given : IsGiven s' (id, e) =
        ((next_bounds n s type v).0, omega (arith, next_lem, taken)) in
      rw (emplace_new id e s.metrics (free_lookup id s.metrics free)) (record {
        sorted = insert-IsSorted id e s.metrics free v.sorted;
        distinct = insert-IsDistinct id e s.metrics new v.distinct;
        given = insert-All (IsGiven s') id e s.metrics given (IsGiven-later s.metrics v.given);
        counters = omega (arith, p.0, stepped 0 refl);
        gauges = omega (arith, p.1, stepped 1 refl);
        histograms = omega (arith, p.2, stepped 2 refl);
      })

pub update-IsStore :
    (n : ℕ) (s : MetricStore) (id : ℕ) (f : MetricEntry → ℕ)
    → IsStore n s
    → IsStore n (record s { metrics = update id f s.metrics })
unfolding next_id_for_type
update-IsStore n s id f v = record {
  sorted = update-IsSorted id f s.metrics v.sorted;
  distinct = update-IsDistinct id f s.metrics v.distinct;
  given = update-All (IsGiven s) id f s.metrics (λ i e k h. h) v.given;
  counters = v.counters;
  gauges = v.gauges;
  histograms = v.histograms;
}

pub later-IsStore : (n : ℕ) (s : MetricStore) → IsStore n s → IsStore (n + 1) s
later-IsStore n s v = record {
  sorted = v.sorted;
  distinct = v.distinct;
  given = v.given;
  counters = omega (arith, v.counters);
  gauges = omega (arith, v.gauges);
  histograms = omega (arith, v.histograms);
}
