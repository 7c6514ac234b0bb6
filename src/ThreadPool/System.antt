-- ===== src/ThreadPool/System.antt =====
-- A pool with its history, and the steps of its callers and its workers.
use lswasm.Base.{ℕ, ◌+◌, ◌≡◌, refl, Bool, true, false, ◌||◌, none, some, List, [], ◌∷◌, ◌++◌, arith}
use lswasm.Base.{if◌then◌else◌}
use lswasm.ThreadPool.{
  Worker, waiting, running, returned, ThreadPool, init, submit, request_stop, worker_turn,
}

-- A pool with its history: the tasks that `submit` queued, those that workers took, and those that
-- have ended, each in its order.
pub record System (T : Type 0) : Type 0 where
  pub pool : ThreadPool T
  pub accepted : List T
  pub taken : List T
  pub ended : List T

module _ {T : Type 0} where
  abbrev pub start : ℕ → ℕ → System T
  start concurrency n = record { pool = init concurrency n; accepted = []; taken = []; ended = [] }

  -- `worker_loop` of one worker, which stands between the others.
  pub data Work : System T → System T → Type 0 where
    takes :
        (s : System T) (before after : List (Worker T)) (task : T) (p : ThreadPool T)
        → s.pool.workers ≡ before ++ (waiting ∷ after)
        → worker_turn s.pool ≡ some (some task, p)
        → Work s (record s {
          pool = record p { workers = before ++ (running task ∷ after) };
          taken = s.taken ++ (task ∷ []);
        })
    ends :
        (s : System T) (before after : List (Worker T)) (task : T)
        → s.pool.workers ≡ before ++ (running task ∷ after)
        → Work s (record s {
          pool = record s.pool { workers = before ++ (waiting ∷ after) };
          ended = s.ended ++ (task ∷ []);
        })
    leaves :
        (s : System T) (before after : List (Worker T)) (p : ThreadPool T)
        → s.pool.workers ≡ before ++ (waiting ∷ after)
        → worker_turn s.pool ≡ some (none, p)
        → Work s (record s { pool = record p { workers = before ++ (returned ∷ after) } })

  pub data Step : System T → System T → Type 0 where
    works : {s t : System T} → Work s t → Step s t
    submits :
        (s : System T) (task : T)
        → Step s (record s {
          pool = submit s.pool task;
          accepted = if s.pool.stop then s.accepted else s.accepted ++ (task ∷ []);
        })
    stops : (s : System T) → Step s (record s { pool = request_stop s.pool })

  pub data Reach (s : System T) : System T → Type 0 where
    here : Reach s s
    next : {t u : System T} → Reach s t → Step t u → Reach s u

  -- How many tasks of a list, and of those that run, have a property.
  abbrev pub count : (T → Bool) → List T → ℕ
  count f [] = 0
  count f (x ∷ xs) = (if f x then 1 else 0) + count f xs

  abbrev pub count_running : (T → Bool) → List (Worker T) → ℕ
  count_running f [] = 0
  count_running f (waiting ∷ ws) = count_running f ws
  count_running f (running x ∷ ws) = (if f x then 1 else 0) + count_running f ws
  count_running f (returned ∷ ws) = count_running f ws

  abbrev pub has_returned : List (Worker T) → Bool
  has_returned [] = false
  has_returned (waiting ∷ ws) = has_returned ws
  has_returned (running x ∷ ws) = has_returned ws
  has_returned (returned ∷ ws) = true

  pub count-append : (f : T → Bool) (xs ys : List T) → count f (xs ++ ys) ≡ count f xs + count f ys
  count-append f [] ys = omega arith
  count-append f (x ∷ xs) ys = ground (arith, count-append f xs ys)

  pub count_running-append :
      (f : T → Bool) (xs ys : List (Worker T))
      → count_running f (xs ++ ys) ≡ count_running f xs + count_running f ys
  count_running-append f [] ys = omega arith
  count_running-append f (waiting ∷ xs) ys = count_running-append f xs ys
  count_running-append f (running x ∷ xs) ys = ground (arith, count_running-append f xs ys)
  count_running-append f (returned ∷ xs) ys = count_running-append f xs ys

  pub has_returned-append :
      (xs ys : List (Worker T)) → has_returned (xs ++ ys) ≡ (has_returned xs || has_returned ys)
  has_returned-append [] ys = refl
  has_returned-append (waiting ∷ xs) ys = has_returned-append xs ys
  has_returned-append (running x ∷ xs) ys = has_returned-append xs ys
  has_returned-append (returned ∷ xs) ys = refl
