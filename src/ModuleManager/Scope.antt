-- ===== src/ModuleManager/Scope.antt =====
-- Class `RequestScope` of src/wasm_module_manager.h and `createRequestScope`: who owns a stream
-- context. Contexts are numbered by the host; the calls that end them are logged.
use lswasm.Base.{ℕ, ◌≡◌, refl, Bool, true, false, not, Option, none, some, List, [], ◌∷◌}
use lswasm.Base.{if◌then◌else◌}
use lswasm.Base.{Bytes}
use lswasm.ModuleManager.{find_module}

-- The callbacks that bracket the life of a stream context; `makes` is `createContext`, and `drops` the
-- failed cast, after which nothing points to the context.
pub data ScopeCall : Type 0 where
  makes drops on_create on_done on_delete : ℕ → ScopeCall

-- The fields of `RequestScope`; `plugin_handle` tells whether the handle is held.
pub record RequestScope : Type 0 where
  pub ctx : Option ℕ
  pub plugin_handle : Bool
  pub context_id : ℕ

abbrev pub no_scope : RequestScope
no_scope = record { ctx = none; plugin_handle = false; context_id = 0 }

-- What the host answers while a scope is made: the plugin handle, a VM that has not failed, the root
-- context, a new context, and whether this is an `LsWasmContext`.
pub record ScopeAnswers : Type 0 where
  pub plugin : Bool
  pub vm_well : Bool
  pub root : Bool
  pub created : Option ℕ
  pub is_ls_wasm : Bool

-- The last part of `init`, from the new context on.
abbrev adopt : RequestScope → ScopeAnswers → ℕ → Bool × RequestScope
adopt s a id = elim a.created [
  | none ↦ (false, s)
  | some c ↦
      if a.is_ls_wasm
      then (true, record s { ctx = some c; context_id = id })
      else (false, record s { ctx = none })
]

-- `init`
unfoldable pub init : RequestScope → ScopeAnswers → ℕ → Bool × RequestScope
init s a id =
    let held = record s { plugin_handle = a.plugin } in
    if not a.plugin
    then (false, held)
    else if not a.vm_well
    then (false, held)
    else if not a.root
    then (false, held)
    else adopt held a id

-- `valid`
unfoldable pub valid : RequestScope → Bool
valid s = elim s.ctx [ none ↦ false | some c ↦ true ]

-- The calls of `init`, the latest first: those of its last part, and all.
abbrev adopt_calls : ScopeAnswers → List ScopeCall
adopt_calls a = elim a.created [
  | none ↦ []
  | some c ↦ if a.is_ls_wasm then on_create c ∷ makes c ∷ [] else drops c ∷ makes c ∷ []
]

unfoldable pub init_calls : ScopeAnswers → List ScopeCall
init_calls a =
    if not a.plugin
    then []
    else if not a.vm_well
    then []
    else if not a.root
    then []
    else adopt_calls a

-- The destructor: the calls that it makes.
unfoldable pub destroy : RequestScope → List ScopeCall
destroy s = elim s.ctx [ none ↦ [] | some c ↦ on_done c ∷ on_delete c ∷ [] ]

-- What a move leaves behind; its plugin handle has been moved out.
abbrev pub moved_out : RequestScope
moved_out = no_scope

-- The move constructor: the new scope and the one moved from.
unfoldable pub move_construct : RequestScope → RequestScope × RequestScope
move_construct other = (other, moved_out)

-- The move assignment to another object: the two scopes and the calls made first.
unfoldable pub move_assign :
    RequestScope → RequestScope → RequestScope × RequestScope × List ScopeCall
unfolding destroy
move_assign this other = (other, moved_out, destroy this)

-- `createRequestScope`
unfoldable pub create_request_scope :
    {H : Type 0} → List (Bytes × H) → Bytes → RequestScope → ScopeAnswers → ℕ → Bool × RequestScope
unfolding find_module init
create_request_scope m name s a id = elim (find_module m name) [
  | none ↦ (false, s)
  | some h ↦ init s a id
]

-- The calls of `createRequestScope`.
unfoldable pub created_calls :
    {H : Type 0} → List (Bytes × H) → Bytes → ScopeAnswers → List ScopeCall
unfolding find_module init_calls
created_calls m name a = elim (find_module m name) [ none ↦ [] | some h ↦ init_calls a ]

-- Whatever `init` meets, it logs one `on_create` for the context that the scope then has, and no other;
-- each context that it was given is created or dropped.
pub created_calls_lem :
    {H : Type 0} (P : List ScopeCall → RequestScope → Type 0) (m : List (Bytes × H)) (name : Bytes)
    (a : ScopeAnswers) (id : ℕ)
    → ((s : RequestScope) → s.ctx ≡ none → P [] s)
    → ((s : RequestScope) (c : ℕ) → s.ctx ≡ none → P (drops c ∷ makes c ∷ []) s)
    → ((s : RequestScope) (c : ℕ) → s.ctx ≡ some c → P (on_create c ∷ makes c ∷ []) s)
    → P (created_calls m name a) (create_request_scope m name no_scope a id).1
unfolding created_calls create_request_scope init init_calls
created_calls_lem {H} P m name a id nothing dropped adopted =
    go (find_module m name) a.plugin a.vm_well a.root a.created a.is_ls_wasm
  where
    go :
        (found : Option H) (plugin vm_well root : Bool) (created : Option ℕ) (is_ls_wasm : Bool)
        → let b : ScopeAnswers = record {
          plugin = plugin;
          vm_well = vm_well;
          root = root;
          created = created;
          is_ls_wasm = is_ls_wasm;
        } in
          P
            (elim found [ none ↦ [] | some h ↦ init_calls b ])
            (elim found as (λ _. Bool × RequestScope) [
              | none ↦ (false, no_scope)
              | some h ↦ init no_scope b id
            ]).1
    go none p v r c i = nothing _ refl
    go (some h) false v r c i = nothing _ refl
    go (some h) true false r c i = nothing _ refl
    go (some h) true true false c i = nothing _ refl
    go (some h) true true true none i = nothing _ refl
    go (some h) true true true (some c) true = adopted _ c refl
    go (some h) true true true (some c) false = dropped _ c refl
