-- ===== src/ThreadPool.antt =====
-- src/thread_pool.h: the pool of worker threads, over the type of a task. Each region under `mutex_`
-- is one step.
pub mod System
pub mod Drain
pub mod Progress
pub mod Tests
use lswasm.Base.{ℕ, zero, suc, Bool, true, false, Option, none, some, List, [], ◌∷◌, ◌++◌}
use lswasm.Base.{◌==◌, if◌then◌else◌}
use lswasm.Base.{length}

-- What a worker thread is at: in `worker_loop` without a task, in `task()`, or returned.
pub data Worker (T : Type 0) : Type 0 where
  waiting : Worker T
  running : T → Worker T
  returned : Worker T

-- The fields of `ThreadPool`.
pub record ThreadPool (T : Type 0) : Type 0 where
  pub workers : List (Worker T)
  pub tasks : List T
  pub stop : Bool

-- The number of threads that the constructor starts; `concurrency` is what
-- `hardware_concurrency` returns.
unfoldable pub thread_count : ℕ → ℕ → ℕ
thread_count concurrency n = if n == 0 then (if concurrency == 0 then 4 else concurrency) else n

module _ {T : Type 0} where
  abbrev pub spawn : ℕ → List (Worker T)
  spawn zero = []
  spawn (suc n) = waiting ∷ spawn n

  -- The constructor.
  unfoldable pub init : ℕ → ℕ → ThreadPool T
  unfolding thread_count
  init concurrency n = record {
    workers = spawn (thread_count concurrency n);
    tasks = [];
    stop = false;
  }

  -- `submit`
  unfoldable pub submit : ThreadPool T → T → ThreadPool T
  submit p task = if p.stop then p else record p { tasks = p.tasks ++ (task ∷ []) }

  -- The locked region of `shutdown`; the joins follow it.
  unfoldable pub request_stop : ThreadPool T → ThreadPool T
  request_stop p = if p.stop then p else record p { stop = true }

  -- What the joins of `shutdown` wait for.
  abbrev pub is_joined : List (Worker T) → Bool
  is_joined [] = true
  is_joined (waiting ∷ ws) = false
  is_joined (running task ∷ ws) = false
  is_joined (returned ∷ ws) = is_joined ws

  -- The locked region of `worker_loop` on a queue: `none` while the wait goes on, no task where the
  -- worker returns, else the front of the queue.
  unfoldable pub turn_on : ThreadPool T → List T → Option (Option T × ThreadPool T)
  turn_on p [] = if p.stop then some (none, p) else none
  turn_on p (task ∷ rest) = some (some task, record p { tasks = rest })

  unfoldable pub worker_turn : ThreadPool T → Option (Option T × ThreadPool T)
  unfolding turn_on
  worker_turn p = turn_on p p.tasks

  -- `size`
  unfoldable pub size : ThreadPool T → ℕ
  size p = length p.workers
