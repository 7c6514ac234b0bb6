-- ===== src/ModuleManager/Tests.antt =====
-- A module manager and its scopes at concrete inputs.
use lswasm.Base.{ℕ, ◌≡◌, refl, true, false, some, List, [], ◌∷◌}
use lswasm.Base.{Bytes, codes}
use lswasm.ModuleManager.{
  answers, raises, known_abi, unknown_abi, LoadAnswers, has_module, get_loaded_modules, load_module,
  unload_module,
}
use lswasm.ModuleManager.Order.{
  Operation, loads, unloads, IsSorted, run_operations, after_operations, run_operations-Refines,
}
use lswasm.ModuleManager.Scope.{
  makes, created_calls, init_calls, on_create, on_done, on_delete, RequestScope, ScopeAnswers, init,
  destroy, moved_out, move_construct, create_request_scope,
}
use lswasm.ModuleManager.Ownership.{
  World, empty_world, opens, constructs, destroys, Reach, here, next, IsOwned, Reach-IsOwned,
}

abbrev good : LoadAnswers ℕ
good = record {
  abi = answers known_abi;
  create_wasm = answers (some 7);
  is_ls_wasm = true;
  started = answers true;
  configured = answers true;
}

abbrev plain_wasi : LoadAnswers ℕ
plain_wasi = record good { abi = answers unknown_abi }

abbrev failing : LoadAnswers ℕ
failing = record good { create_wasm = raises }

abbrev operations : List (Operation ℕ)
operations =
    loads true good (codes "log")
    ∷ loads true good (codes "auth")
    ∷ loads true plain_wasi (codes "cli")
    ∷ loads true failing (codes "bad")
    ∷ loads true good (codes "authz")
    ∷ loads true good (codes "log")
    ∷ loads false good (codes "missing")
    ∷ unloads (codes "auth")
    ∷ []

-- The order is that of the names, not that of the loads.
loaded_names : get_loaded_modules (run_operations [] operations) ≡ codes "authz" ∷ codes "log" ∷ []
unfolding get_loaded_modules load_module unload_module
loaded_names = refl

run_operations-Refines_example :
    IsSorted (get_loaded_modules (run_operations [] operations))
    × (has_module (run_operations [] operations) (codes "log")
        ≡ after_operations (λ n. false) operations (codes "log"))
run_operations-Refines_example = run_operations-Refines operations (codes "log")

abbrev willing : ScopeAnswers
willing = record { plugin = true; vm_well = true; root = true; created = some 3; is_ls_wasm = true }

abbrev modules : List (Bytes × ℕ)
modules = (codes "m", 7) ∷ []

abbrev opened_scope : RequestScope
opened_scope = record { ctx = some 3; plugin_handle = true; context_id = 1 }

abbrev opened : World
opened = record { scopes = opened_scope ∷ []; calls = on_create 3 ∷ makes 3 ∷ [] }

abbrev moved : World
moved = record { scopes = opened_scope ∷ moved_out ∷ []; calls = on_create 3 ∷ makes 3 ∷ [] }

-- The scope that was moved from ends nothing.
abbrev half_destroyed : World
half_destroyed = record { scopes = opened_scope ∷ []; calls = on_create 3 ∷ makes 3 ∷ [] }

abbrev destroyed : World
destroyed = record { scopes = []; calls = on_done 3 ∷ on_delete 3 ∷ on_create 3 ∷ makes 3 ∷ [] }

destroyed-Reach : Reach ℕ destroyed
unfolding create_request_scope created_calls init_calls init move_construct destroy
destroyed-Reach =
    next
      (next
        (next (next here (opens empty_world modules (codes "m") willing 1))
          (constructs opened [] [] opened_scope refl))
        (destroys moved (opened_scope ∷ []) [] moved_out refl))
      (destroys half_destroyed [] [] opened_scope refl)

Reach-IsOwned_example : IsOwned 3 destroyed
Reach-IsOwned_example = Reach-IsOwned 3 destroyed-Reach
