-- ===== src/ModuleManager/Order.antt =====
-- The loaded modules are in the order of their names, each once, whatever is loaded and unloaded.
use lswasm.Base.{
  ◌≡◌, refl, sym, ap, ◌∙◌, inl, inr, Bool, true, false, not, ◌&&◌, ◌||◌, Option, none, some, List,
  [], ◌∷◌, arith,
}
use lswasm.Base.{Bool-cases, if_cases}
use lswasm.Base.{All}
use lswasm.Base.{Bytes, bytes_eq, bytes_eq_iff}
use lswasm.Base.{erase}
use lswasm.ModuleManager.{
  LoadAnswers, less, insert, has_module, make_module, store_made, load_module_from_memory,
  load_module, unload_module, get_loaded_modules,
}

less_trans : (a b c : Bytes) → less a b ≡ true → less b c ≡ true → less a c ≡ true
less_trans a [] c h k = absurd (ground (arith, h))
less_trans a (y ∷ b) [] h k = absurd (ground (arith, k))
less_trans [] (y ∷ b) (z ∷ c) h k = refl
less_trans (x ∷ a) (y ∷ b) (z ∷ c) h k = ground (arith, h, k, less_trans a b c)

less_total : (a b : Bytes) → less a b ≡ false → less b a ≡ false → a ≡ b
less_total [] [] h k = refl
less_total [] (y ∷ b) h k = absurd (ground (arith, h))
less_total (x ∷ a) [] h k = absurd (ground (arith, k))
less_total (x ∷ a) (y ∷ b) h k = ground (arith, h, k, less_total a b)

-- Every name comes before the later ones.
abbrev pub IsBefore : Bytes → List Bytes → Type 0
IsBefore name = All (λ other. less name other ≡ true)

abbrev pub IsSorted : List Bytes → Type 0
IsSorted [] = Unit
IsSorted (name ∷ names) = IsBefore name names × IsSorted names

pub data Operation (H : Type 0) : Type 0 where
  loads : Bool → LoadAnswers H → Bytes → Operation H
  unloads : Bytes → Operation H

-- The set of the loaded names, as an operation is meant to change it: a load that succeeds adds its
-- name, an unload takes it away.
abbrev pub is_made : {H : Type 0} → LoadAnswers H → Bool
unfolding make_module
is_made a = elim (make_module a) [ none ↦ false | some h ↦ true ]

abbrev pub after_operation : {H : Type 0} → (Bytes → Bool) → Operation H → Bytes → Bool
after_operation s (loads readable a name) other =
    s other || (readable && (is_made a && bytes_eq name other))
after_operation s (unloads name) other = s other && not (bytes_eq name other)

abbrev pub after_operations : {H : Type 0} → (Bytes → Bool) → List (Operation H) → Bytes → Bool
after_operations s [] = s
after_operations s (op ∷ ops) = after_operations (after_operation s op) ops

IsBefore-trans :
    (first name : Bytes) (names : List Bytes)
    → less first name ≡ true
    → IsBefore name names
    → IsBefore first names
IsBefore-trans first name [] l v = tt
IsBefore-trans first name (other ∷ names) l v =
    (less_trans first name other l v.0, IsBefore-trans first name names l v.1)

module _ {H : Type 0} where
  insert-IsBefore :
      (first name : Bytes) (h : H) (m : List (Bytes × H))
      → less first name ≡ true
      → IsBefore first (get_loaded_modules m)
      → IsBefore first (get_loaded_modules (insert name h m))
  unfolding get_loaded_modules
  insert-IsBefore first name h [] l v = (l, tt)
  insert-IsBefore first name h ((other, old) ∷ m) l v =
      let P = λ (n : List (Bytes × H)). IsBefore first (get_loaded_modules n) in
      if_cases P (less name other) _ _ (λ e. (l, v))
        (λ e.
          if_cases P (less other name) _ _ (λ e. (v.0, insert-IsBefore first name h m l v.1))
            (λ e. v))

  insert-IsSorted :
      (name : Bytes) (h : H) (m : List (Bytes × H))
      → IsSorted (get_loaded_modules m)
      → IsSorted (get_loaded_modules (insert name h m))
  unfolding get_loaded_modules
  insert-IsSorted name h [] v = (tt, tt)
  insert-IsSorted name h ((other, old) ∷ m) v =
      let P = λ (n : List (Bytes × H)). IsSorted (get_loaded_modules n) in
      if_cases P (less name other) _ _ (λ e. ((e, IsBefore-trans name other _ e v.0), v))
        (λ e.
          if_cases P (less other name) _ _
            (λ e. (insert-IsBefore other name h m e v.0, insert-IsSorted name h m v.1)) (λ e. v))

  erase-IsBefore :
      (first name : Bytes) (m : List (Bytes × H))
      → IsBefore first (get_loaded_modules m)
      → IsBefore first (get_loaded_modules (erase bytes_eq name m))
  unfolding get_loaded_modules
  erase-IsBefore first name [] v = tt
  erase-IsBefore first name ((other, old) ∷ m) v =
      if_cases (λ (n : List (Bytes × H)). IsBefore first (get_loaded_modules n))
        (bytes_eq other name) _ _ (λ e. erase-IsBefore first name m v.1)
        (λ e. (v.0, erase-IsBefore first name m v.1))

  erase-IsSorted :
      (name : Bytes) (m : List (Bytes × H))
      → IsSorted (get_loaded_modules m)
      → IsSorted (get_loaded_modules (erase bytes_eq name m))
  unfolding get_loaded_modules
  erase-IsSorted name [] v = tt
  erase-IsSorted name ((other, old) ∷ m) v =
      if_cases (λ (n : List (Bytes × H)). IsSorted (get_loaded_modules n)) (bytes_eq other name) _ _
        (λ e. erase-IsSorted name m v.1)
        (λ e. (erase-IsBefore other name m v.0, erase-IsSorted name m v.1))

  has_module-insert :
      (name other : Bytes) (h : H) (m : List (Bytes × H))
      → has_module (insert name h m) other ≡ (has_module m other || bytes_eq name other)
  unfolding has_module
  has_module-insert name other h [] = ground arith
  has_module-insert name other h ((first, old) ∷ m) = elim (Bool-cases (less name first)) [
    | inl e ↦ ground (arith, e)
    | inr e ↦ elim (Bool-cases (less first name)) [
      | inl k ↦ ground (arith, e, k, has_module-insert name other h m)
      | inr k ↦
          let same = less_total name first e k in
          ground (arith, e, k, ap (λ n. bytes_eq n other) same)
    ]
  ]

  has_module-erase :
      (name other : Bytes) (m : List (Bytes × H))
      → has_module (erase bytes_eq name m) other ≡ (has_module m other && not (bytes_eq name other))
  unfolding has_module
  has_module-erase name other [] = ground arith
  has_module-erase name other ((first, old) ∷ m) = ground (
    arith,
    bytes_eq_iff first name,
    bytes_eq_iff first other,
    bytes_eq_iff name other,
    has_module-erase name other m,
  )

  store_made-has_module :
      (name other : Bytes) (r : Option H) (m : List (Bytes × H))
      → has_module (store_made name r m).1 other ≡ (
          has_module m other
          || (elim r as (λ x. Bool) [ none ↦ false | some h ↦ true ] && bytes_eq name other))
  store_made-has_module name other none m = ground arith
  store_made-has_module name other (some h) m = has_module-insert name other h m

  store_made-IsSorted :
      (name : Bytes) (r : Option H) (m : List (Bytes × H))
      → IsSorted (get_loaded_modules m)
      → IsSorted (get_loaded_modules (store_made name r m).1)
  store_made-IsSorted name none m v = v
  store_made-IsSorted name (some h) m v = insert-IsSorted name h m v

  -- The map after one operation.
  abbrev pub operate : List (Bytes × H) → Operation H → List (Bytes × H)
  operate m (loads readable a name) = (load_module readable a name m).1
  operate m (unloads name) = (unload_module name m).1

  operate-IsSorted :
      (op : Operation H) (m : List (Bytes × H))
      → IsSorted (get_loaded_modules m)
      → IsSorted (get_loaded_modules (operate m op))
  unfolding load_module load_module_from_memory unload_module
  operate-IsSorted (loads false a name) m v = v
  operate-IsSorted (loads true a name) m v =
      if_cases (λ (p : Bool × List (Bytes × H)). IsSorted (get_loaded_modules p.1))
        (has_module m name) _ _ (λ e. v) (λ e. store_made-IsSorted name (make_module a) m v)
  operate-IsSorted (unloads name) m v =
      if_cases (λ (p : Bool × List (Bytes × H)). IsSorted (get_loaded_modules p.1))
        (has_module m name) _ _ (λ e. erase-IsSorted name m v) (λ e. v)

  has_module-same :
      (name other : Bytes) (m : List (Bytes × H))
      → bytes_eq name other ≡ true
      → has_module m other ≡ has_module m name
  has_module-same name other m e = ap (has_module m) (sym ((bytes_eq_iff name other).0 e))

  operate-has_module :
      (op : Operation H) (m : List (Bytes × H)) (other : Bytes)
      → has_module (operate m op) other ≡ after_operation (has_module m) op other
  unfolding load_module load_module_from_memory unload_module
  operate-has_module (loads false a name) m other = ground arith
  operate-has_module (loads true a name) m other =
      if_cases
        (λ (p : Bool × List (Bytes × H)).
          has_module p.1 other ≡ (has_module m other || (is_made a && bytes_eq name other)))
        (has_module m name) _ _ (λ e. ground (arith, e, has_module-same name other m))
        (λ e. store_made-has_module name other (make_module a) m)
  operate-has_module (unloads name) m other =
      if_cases
        (λ (p : Bool × List (Bytes × H)).
          has_module p.1 other ≡ (has_module m other && not (bytes_eq name other)))
        (has_module m name) _ _ (λ e. has_module-erase name other m)
        (λ e. ground (arith, e, has_module-same name other m))

  -- The map after a list of operations, the oldest first.
  abbrev pub run_operations : List (Bytes × H) → List (Operation H) → List (Bytes × H)
  run_operations m [] = m
  run_operations m (op ∷ ops) = run_operations (operate m op) ops

  run_operations-IsSorted :
      (ops : List (Operation H)) (m : List (Bytes × H))
      → IsSorted (get_loaded_modules m)
      → IsSorted (get_loaded_modules (run_operations m ops))
  run_operations-IsSorted [] m v = v
  run_operations-IsSorted (op ∷ ops) m v =
      run_operations-IsSorted ops (operate m op) (operate-IsSorted op m v)

  after_operations-ext :
      (ops : List (Operation H)) (s s' : Bytes → Bool)
      → ((name : Bytes) → s name ≡ s' name)
      → (name : Bytes) → after_operations s ops name ≡ after_operations s' ops name
  after_operations-ext [] s s' h name = h name
  after_operations-ext (loads readable a other ∷ ops) s s' h name =
      after_operations-ext ops _ _
        (λ n. ap (λ b. b || (readable && (is_made a && bytes_eq other n))) (h n)) name
  after_operations-ext (unloads other ∷ ops) s s' h name =
      after_operations-ext ops _ _ (λ n. ap (λ b. b && not (bytes_eq other n)) (h n)) name

  run_operations-has_module :
      (ops : List (Operation H)) (m : List (Bytes × H)) (name : Bytes)
      → has_module (run_operations m ops) name ≡ after_operations (has_module m) ops name
  run_operations-has_module [] m name = refl
  run_operations-has_module (op ∷ ops) m name =
      run_operations-has_module ops (operate m op) name
      ∙ after_operations-ext ops (has_module (operate m op)) (after_operation (has_module m) op)
          (operate-has_module op m) name

-- After any loads and unloads of an empty manager the loaded modules, and with them the filters of a
-- request, are listed in the order of their names and each once, and `hasModule` is the set that the
-- operations describe: a load that succeeds adds its name and an unload takes it away.
pub run_operations-Refines :
    {H : Type 0} (ops : List (Operation H)) (name : Bytes)
    → IsSorted (get_loaded_modules (run_operations [] ops))
      × (has_module (run_operations [] ops) name ≡ after_operations (λ n. false) ops name)
unfolding has_module get_loaded_modules
run_operations-Refines {H} ops name = (
  run_operations-IsSorted {H = H} ops [] tt,
  run_operations-has_module {H = H} ops [] name
      ∙ after_operations-ext ops (has_module {H = H} []) (λ n. false) (λ n. refl) name,
)
