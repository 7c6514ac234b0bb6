-- ===== src/MetricStore/Tests.antt =====
-- The theorems about metrics at concrete inputs.
use lswasm.Base.{◌≡◌, refl, List, [], ◌∷◌, map, arith}
use lswasm.Base.{codes}
use lswasm.MetricStore.{MetricStore, init, define}
use lswasm.MetricStore.Uniqueness.{IsStore}
use lswasm.MetricStore.Identifiers.{Operation, defines, increments, records, run, run-IsStore}

-- A gauge `load`, then a counter `hits`.
abbrev two_metrics : MetricStore
two_metrics = (define (define init 1 (codes "load")).2 0 (codes "hits")).2

defined_ids : map (λ e. e.0) two_metrics.metrics ≡ 0 ∷ 1 ∷ []
unfolding define init
defined_ids = refl

abbrev operations : List Operation
operations = defines 1 (codes "load") ∷ defines 0 (codes "hits") ∷ increments 0 5 ∷ records 1 7 ∷ []

run-IsStore_example : IsStore 4 (run init operations)
run-IsStore_example = run-IsStore operations (omega arith)
