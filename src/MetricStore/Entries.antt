-- ===== src/MetricStore/Entries.antt =====
-- The map of the metrics: what insertions and changes of values keep.
use lswasm.Base.{ℕ, ◌<◌, ◌≡◌, refl, ◌≢◌, false, none, List, [], ◌∷◌, arith}
use lswasm.Base.{ltb, ◌==◌, ltb→lt, if_cases}
use lswasm.Base.{All}
use lswasm.Base.{Bytes, bytes_eq, bytes_eq_iff}
use lswasm.Base.{lookup}
use lswasm.MetricStore.{MetricEntry, find_name, insert, update}

abbrev pub Entry : Type 0
Entry = ℕ × MetricEntry

-- The order of the map: each key is below all that follow it.
abbrev pub IsSorted : List Entry → Type 0
IsSorted [] = Unit
IsSorted (x ∷ m) = All (λ (y : Entry). x.0 < y.0) m × IsSorted m

-- No name stands twice.
abbrev pub IsDistinct : List Entry → Type 0
IsDistinct [] = Unit
IsDistinct (x ∷ m) = (find_name x.1.name m ≡ none) × IsDistinct m

pub insert-All :
    (P : Entry → Type 0) (id : ℕ) (e : MetricEntry) (m : List Entry)
    → P (id, e)
    → All P m
    → All P (insert id e m)
unfolding insert
insert-All P id e [] p v = (p, tt)
insert-All P id e ((j, f) ∷ m) p v =
    if_cases (All P) (ltb id j) _ _ (λ _. (p, v)) (λ _. (v.0, insert-All P id e m p v.1))

All-below :
    (i j : ℕ) (m : List Entry)
    → i < j
    → All (λ (y : Entry). j < y.0) m
    → All (λ (y : Entry). i < y.0) m
All-below i j [] h v = tt
All-below i j (x ∷ m) h v = (omega (arith, v.0), All-below i j m h v.1)

pub insert-IsSorted :
    (id : ℕ) (e : MetricEntry) (m : List Entry)
    → All (λ (y : Entry). y.0 ≢ id) m
    → IsSorted m
    → IsSorted (insert id e m)
unfolding insert
insert-IsSorted id e [] new v = (tt, tt)
insert-IsSorted id e ((j, f) ∷ m) new v =
    if_cases IsSorted (ltb id j) _ _
      (λ h. let below = ltb→lt id j h in ((below, All-below id j m below v.0), v))
      (λ h. (
        insert-All (λ (y : Entry). j < y.0) id e m (ground (arith, new.0, h)) v.0,
        insert-IsSorted id e m new.1 v.1,
      ))

find_name-insert_other :
    (name : Bytes) (id : ℕ) (e : MetricEntry) (m : List Entry)
    → bytes_eq e.name name ≡ false
    → find_name name m ≡ none
    → find_name name (insert id e m) ≡ none
unfolding find_name insert
find_name-insert_other name id e [] other h = ground (arith, other)
find_name-insert_other name id e ((j, f) ∷ m) other h =
    ground (arith, other, h, find_name-insert_other name id e m other)

unnamed :
    (name : Bytes) (j : ℕ) (f : MetricEntry) (m : List Entry)
    → find_name name ((j, f) ∷ m) ≡ none
    → (bytes_eq f.name name ≡ false) × (find_name name m ≡ none)
unfolding find_name
unnamed name j f m h = ground (arith, h)

pub insert-IsDistinct :
    (id : ℕ) (e : MetricEntry) (m : List Entry)
    → find_name e.name m ≡ none
    → IsDistinct m
    → IsDistinct (insert id e m)
unfolding insert
insert-IsDistinct id e [] new v = unfold find_name in (refl, tt)
insert-IsDistinct id e ((j, f) ∷ m) new v =
    let apart = unnamed e.name j f m new in
    let apart' : bytes_eq e.name f.name ≡ false =
      ground (arith, apart.0, bytes_eq_iff e.name f.name, bytes_eq_iff f.name e.name) in
    if_cases IsDistinct (ltb id j) _ _ (λ _. (new, v))
      (λ _. (find_name-insert_other f.name id e m apart' v.0, insert-IsDistinct id e m apart.1 v.1))

pub free_lookup :
    (id : ℕ) (m : List Entry) → All (λ (y : Entry). y.0 ≢ id) m → lookup ◌==◌ id m ≡ none
free_lookup id [] h = refl
free_lookup id ((j, e) ∷ m) h = ground (arith, h.0, free_lookup id m h.1)

-- A change of values alone.
pub update-All :
    (P : Entry → Type 0) (id : ℕ) (f : MetricEntry → ℕ) (m : List Entry)
    → ((j : ℕ) (e : MetricEntry) (k : ℕ) → P (j, e) → P (j, record e { value = k }))
    → All P m
    → All P (update id f m)
unfolding update
update-All P id f [] kept v = tt
update-All P id f ((j, e) ∷ m) kept v =
    if_cases (All P) (j == id) _ _ (λ _. (kept j e (f e) v.0, v.1))
      (λ _. (v.0, update-All P id f m kept v.1))

update-find_name :
    (name : Bytes) (id : ℕ) (f : MetricEntry → ℕ) (m : List Entry)
    → find_name name m ≡ none
    → find_name name (update id f m) ≡ none
unfolding update find_name
update-find_name name id f [] h = refl
update-find_name name id f ((j, e) ∷ m) h = ground (arith, h, update-find_name name id f m)

pub update-IsSorted :
    (id : ℕ) (f : MetricEntry → ℕ) (m : List Entry) → IsSorted m → IsSorted (update id f m)
unfolding update
update-IsSorted id f [] v = tt
update-IsSorted id f ((j, e) ∷ m) v =
    if_cases IsSorted (j == id) _ _ (λ _. v)
      (λ _.
        (update-All (λ (y : Entry). j < y.0) id f m (λ i e k h. h) v.0, update-IsSorted id f m v.1))

pub update-IsDistinct :
    (id : ℕ) (f : MetricEntry → ℕ) (m : List Entry) → IsDistinct m → IsDistinct (update id f m)
unfolding update
update-IsDistinct id f [] v = tt
update-IsDistinct id f ((j, e) ∷ m) v =
    if_cases IsDistinct (j == id) _ _ (λ _. v)
      (λ _. (update-find_name e.name id f m v.0, update-IsDistinct id f m v.1))
