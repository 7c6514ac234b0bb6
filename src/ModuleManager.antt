-- ===== src/ModuleManager.antt =====
-- Class `WasmModuleManager` of src/wasm_module_manager.h and .cc: the map of the loaded modules. What
-- the proxy-wasm host answers while a module is loaded is a record, and its handles are a parameter.
-- A region under `modules_mutex_` is one step.
pub mod Order
pub mod Scope
pub mod Ownership
pub mod Tests
use lswasm.Base.{Bool, true, false, Option, none, some, List, [], ◌∷◌}
use lswasm.Base.{ltb, ◌==◌, if◌then◌else◌}
use lswasm.Base.{Bytes, bytes_eq}
use lswasm.Base.{lookup, erase}

-- What a call of the proxy-wasm host comes to.
pub data Call (A : Type 0) : Type 0 where
  answers : A → Call A
  raises : Call A

-- The answer of `getAbiVersion`.
pub data Abi : Type 0 where
  unparsable unknown_abi known_abi : Abi

-- The answers while a module is loaded: the version of its ABI, the base handle of `createWasm`,
-- whether it holds an `LsWasm`, and whether this starts and is configured.
pub record LoadAnswers (H : Type 0) : Type 0 where
  pub abi : Call Abi
  pub create_wasm : Call (Option H)
  pub is_ls_wasm : Bool
  pub started : Call Bool
  pub configured : Call Bool

-- `std::less` on strings.
abbrev pub less : Bytes → Bytes → Bool
less a [] = false
less [] (y ∷ b) = true
less (x ∷ a) (y ∷ b) = if x == y then less a b else ltb x y

-- A call that must answer true.
abbrev pub demand : {A : Type 0} → Call Bool → Option A → Option A
demand (answers true) r = r
demand (answers false) r = none
demand raises r = none

module _ {H : Type 0} where
  -- `modules_[name] = state` on the `std::map`, which is in the order of the names.
  abbrev pub insert : Bytes → H → List (Bytes × H) → List (Bytes × H)
  insert name h [] = (name, h) ∷ []
  insert name h ((other, old) ∷ m) =
      if less name other
      then (name, h) ∷ ((other, old) ∷ m)
      else if less other name
      then (other, old) ∷ insert name h m
      else (other, h) ∷ m

  -- `hasModule`, and the first region of `loadModuleFromMemory`.
  unfoldable pub has_module : List (Bytes × H) → Bytes → Bool
  has_module [] name = false
  has_module ((other, h) ∷ m) name = if bytes_eq other name then true else has_module m name

  abbrev pub after_abi : Abi → Option H → Option H
  after_abi unparsable r = none
  after_abi unknown_abi r = none
  after_abi known_abi r = r

  abbrev pub after_create : Option H → Bool → (H → Option H) → Option H
  after_create none ls f = none
  after_create (some h) ls f = if ls then f h else none

  -- The part of `loadModuleFromMemory` between its regions: the state of the module, or `none` where
  -- it returns false.
  unfoldable pub make_module : LoadAnswers H → Option H
  make_module a = elim a.abi [
    | raises ↦ none
    | answers abi ↦ after_abi abi (elim a.create_wasm [
      | raises ↦ none
      | answers handle ↦
          after_create handle a.is_ls_wasm (λ h. demand a.started (demand a.configured (some h)))
    ])
  ]

  abbrev pub store_made : Bytes → Option H → List (Bytes × H) → Bool × List (Bytes × H)
  store_made name none m = (false, m)
  store_made name (some h) m = (true, insert name h m)

  -- `loadModuleFromMemory` with no other call between its regions.
  unfoldable pub load_module_from_memory :
      LoadAnswers H → Bytes → List (Bytes × H) → Bool × List (Bytes × H)
  unfolding has_module make_module
  load_module_from_memory a name m =
      if has_module m name then (false, m) else store_made name (make_module a) m

  -- `loadModule`; `readable` tells whether the file was opened and read.
  unfoldable pub load_module :
      Bool → LoadAnswers H → Bytes → List (Bytes × H) → Bool × List (Bytes × H)
  unfolding load_module_from_memory
  load_module readable a name m = if readable then load_module_from_memory a name m else (false, m)

  -- `unloadModule`
  unfoldable pub unload_module : Bytes → List (Bytes × H) → Bool × List (Bytes × H)
  unfolding has_module
  unload_module name m = if has_module m name then (true, erase bytes_eq name m) else (false, m)

  -- `getLoadedModules`
  unfoldable pub get_loaded_modules : List (Bytes × H) → List Bytes
  get_loaded_modules [] = []
  get_loaded_modules ((name, h) ∷ m) = name ∷ get_loaded_modules m

  -- `find` of `createRequestScope`.
  unfoldable pub find_module : List (Bytes × H) → Bytes → Option H
  find_module m name = lookup bytes_eq name m
