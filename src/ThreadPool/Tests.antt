-- ===== src/ThreadPool/Tests.antt =====
-- The theorems about the pool at concrete runs.
use lswasm.Base.{ℕ, ◌+◌, ◌<◌, ◌≡◌, refl, Bool, true, [], ◌∷◌, ◌++◌}
use lswasm.ThreadPool.{waiting, returned, init, submit, request_stop, worker_turn, size}
use lswasm.ThreadPool.Drain.{accepted_in_order, shutdown_drains}
use lswasm.ThreadPool.System.{
  System, start, Work, takes, ends, leaves, works, submits, stops, Reach, here, next, count,
  count_running,
}
use lswasm.ThreadPool.Progress.{remaining, shutdown_progress}

default_size : size {T = ℕ} (init 0 0) ≡ 4
unfolding size init
default_size = refl

-- One worker, the tasks 7 and 8, and then the stop.
abbrev queued : System ℕ
queued = record {
  pool = record { workers = waiting ∷ []; tasks = 7 ∷ 8 ∷ []; stop = true };
  accepted = 7 ∷ 8 ∷ [];
  taken = [];
  ended = [];
}

abbrev half : System ℕ
half = record {
  pool = record { workers = waiting ∷ []; tasks = 8 ∷ []; stop = true };
  accepted = 7 ∷ 8 ∷ [];
  taken = 7 ∷ [];
  ended = 7 ∷ [];
}

abbrev drained : System ℕ
drained = record {
  pool = record { workers = returned ∷ []; tasks = []; stop = true };
  accepted = 7 ∷ 8 ∷ [];
  taken = 7 ∷ 8 ∷ [];
  ended = 7 ∷ 8 ∷ [];
}

Reach-queued : Reach (start 0 1) queued
unfolding init submit request_stop
Reach-queued = next (next (next here (submits _ 7)) (submits _ 8)) (stops _)

Reach-half : Reach (start 0 1) half
unfolding worker_turn
Reach-half =
    next (next Reach-queued (works (takes queued [] [] 7 _ refl refl)))
      (works (ends _ [] [] 7 refl))

Reach-drained : Reach (start 0 1) drained
unfolding worker_turn
Reach-drained =
    next
      (next (next Reach-half (works (takes half [] [] 8 _ refl refl)))
        (works (ends _ [] [] 8 refl)))
      (works (leaves _ [] [] _ refl refl))

accepted_in_order_example :
    (half.accepted ≡ half.taken ++ half.pool.tasks)
    × ((f : ℕ → Bool) → count f half.taken ≡ count f half.ended + count_running f half.pool.workers)
accepted_in_order_example = accepted_in_order 0 1 Reach-half

shutdown_drains_example :
    (drained.pool.stop ≡ true)
    × (drained.taken ≡ drained.accepted)
    × ((f : ℕ → Bool) → count f drained.ended ≡ count f drained.accepted)
shutdown_drains_example = shutdown_drains 0 1 Reach-drained refl

shutdown_progress_example :
    ((t : System ℕ) × Work half t)
    × ((t : System ℕ) → Work half t → remaining t < remaining half)
    × ((task : ℕ) → submit half.pool task ≡ half.pool)
shutdown_progress_example = shutdown_progress half refl refl
