-- ===== src/ThreadPool/Progress.antt =====
-- Once the pool has stopped, its workers come to an end.
use lswasm.Base.{
  ℕ, ◌+◌, ◌*◌, ◌<◌, ◌≡◌, refl, ap, true, false, Option, none, some, List, [], ◌∷◌, ◌++◌, arith,
}
use lswasm.Base.{length}
use lswasm.ThreadPool.{
  Worker, waiting, running, returned, ThreadPool, is_joined, submit, worker_turn, turn_on,
}
use lswasm.ThreadPool.Drain.{worker_turn_task, worker_turn_returns}
use lswasm.ThreadPool.System.{System, Work, takes, ends, leaves}

module _ {T : Type 0} where
  -- The steps that are left to the workers of a stopped pool.
  abbrev pub effort : List (Worker T) → ℕ
  effort [] = 0
  effort (waiting ∷ ws) = 1 + effort ws
  effort (running x ∷ ws) = 2 + effort ws
  effort (returned ∷ ws) = effort ws

  abbrev pub remaining : System T → ℕ
  remaining s = 2 * length s.pool.tasks + effort s.pool.workers

  effort-append : (xs ys : List (Worker T)) → effort (xs ++ ys) ≡ effort xs + effort ys
  effort-append [] ys = omega arith
  effort-append (waiting ∷ xs) ys = ground (arith, effort-append xs ys)
  effort-append (running x ∷ xs) ys = ground (arith, effort-append xs ys)
  effort-append (returned ∷ xs) ys = effort-append xs ys

  -- The first worker that has not returned, with those before and after it.
  abbrev Active : List (Worker T) → Type 0
  Active ws =
      (before : List (Worker T)) × (w : Worker T) × (after : List (Worker T)) × (ws
        ≡ before ++ (w ∷ after))
      × (is_joined (w ∷ []) ≡ false)

  active : (ws : List (Worker T)) → is_joined ws ≡ false → Active ws
  active [] h = ground (arith, h)
  active (waiting ∷ ws) h = ([], waiting, ws, refl, refl)
  active (running x ∷ ws) h = ([], running x, ws, refl, refl)
  active (returned ∷ ws) h =
      let (before, w, after, e, a) = active ws h in
      (returned ∷ before, w, after, ap (λ l. returned ∷ l) e, a)

  turn_on_stopped :
      (p : ThreadPool T) (ts : List T)
      → p.stop ≡ true
      → (q : ThreadPool T) × (o : Option T) × (turn_on p ts ≡ some (o, q))
  unfolding turn_on
  turn_on_stopped p [] h = (p, none, ground (h, arith))
  turn_on_stopped p (t ∷ ts) h = (record p { tasks = ts }, some t, refl)

  move :
      (s : System T) (before after : List (Worker T)) (w : Worker T)
      → s.pool.stop ≡ true
      → s.pool.workers ≡ before ++ (w ∷ after)
      → is_joined (w ∷ []) ≡ false
      → (t : System T) × Work s t
  unfolding worker_turn
  move s before after waiting h e a = go (turn_on_stopped s.pool s.pool.tasks h)
    where
      go :
          (q : ThreadPool T) × (o : Option T) × (worker_turn s.pool ≡ some (o, q))
          → (t : System T) × Work s t
      go (q, none, f) = (_, leaves s before after q e f)
      go (q, some task, f) = (_, takes s before after task q e f)
  move s before after (running task) h e a = (_, ends s before after task e)
  move s before after returned h e a = ground (arith, a)

  worker_step_decreases : {s t : System T} → Work s t → remaining t < remaining s
  worker_step_decreases (takes s before after task p h e) =
      let (queue, same) = worker_turn_task s.pool task p e in
      ground (
        arith,
        h,
        queue,
        effort-append before (waiting ∷ after),
        effort-append before (running task ∷ after),
      )
  worker_step_decreases (ends s before after task h) = ground (
    arith,
    h,
    effort-append before (waiting ∷ after),
    effort-append before (running task ∷ after),
  )
  worker_step_decreases (leaves s before after p h e) =
      let (queue, stopped, same) = worker_turn_returns s.pool p e in
      ground (
        arith,
        h,
        same,
        effort-append before (waiting ∷ after),
        effort-append before (returned ∷ after),
      )

  -- In a stopped pool with a worker that has not returned, some worker can make a step, every step of
  -- a worker leaves less to do than there was, and a task submitted changes nothing.
  pub shutdown_progress :
      (s : System T)
      → s.pool.stop ≡ true
      → is_joined s.pool.workers ≡ false
      → ((t : System T) × Work s t)
        × ((t : System T) → Work s t → remaining t < remaining s)
        × ((task : T) → submit s.pool task ≡ s.pool)
  unfolding submit
  shutdown_progress s h a =
      let (before, w, after, e, b) = active s.pool.workers a in
      (move s before after w h e b, λ t work. worker_step_decreases work, λ task. ground (h, arith))
