-- ===== src/ThreadPool/Drain.antt =====
-- The pool under every interleaving of its callers and its workers.
use lswasm.Base.{
  ℕ, zero, suc, ◌+◌, ◌<◌, ◌≡◌, refl, Bool, true, false, none, some, List, [], ◌∷◌, ◌++◌, append-nil,
  append_assoc, arith,
}
use lswasm.Base.{length, length-append}
use lswasm.ThreadPool.{
  Worker, waiting, running, returned, ThreadPool, spawn, init, thread_count, submit, request_stop,
  is_joined, turn_on, worker_turn,
}
use lswasm.ThreadPool.System.{
  System, start, Work, takes, ends, leaves, Step, works, submits, stops, Reach, here, next, count,
  count_running, has_returned, count-append, count_running-append, has_returned-append,
}

module _ {T : Type 0} where
  -- `order`: tasks are taken in the order in which they were queued, none lost and none twice.
  -- `runs`: a task that was taken runs or has ended. `left`: a worker only returns when the pool has
  -- stopped and the queue is empty, and it stays so.
  pub record Inv (s : System T) : Type 0 where
    pub order : s.accepted ≡ s.taken ++ s.pool.tasks
    pub runs : (f : T → Bool) → count f s.taken ≡ count f s.ended + count_running f s.pool.workers
    pub left : has_returned s.pool.workers ≡ true → (s.pool.stop ≡ true) × (s.pool.tasks ≡ [])
    pub staffed : 0 < length s.pool.workers

  length-spawn : (n : ℕ) (ws : List (Worker T)) → ws ≡ spawn n → length ws ≡ n
  length-spawn zero ws h = rw h refl
  length-spawn (suc n) ws h = ground (arith, h, length-spawn n (spawn n) refl)

  count_running-spawn : (f : T → Bool) (n : ℕ) → count_running f (spawn n) ≡ 0
  count_running-spawn f zero = refl
  count_running-spawn f (suc n) = count_running-spawn f n

  has_returned-spawn : (n : ℕ) (ws : List (Worker T)) → ws ≡ spawn n → has_returned ws ≡ false
  has_returned-spawn zero ws h = rw h refl
  has_returned-spawn (suc n) ws h = rw h (has_returned-spawn n (spawn n) refl)

  turn_on_task :
      (p : ThreadPool T) (ts : List T) (task : T) (q : ThreadPool T)
      → turn_on p ts ≡ some (some task, q)
      → (ts ≡ task ∷ q.tasks) × (q.stop ≡ p.stop)
  unfolding turn_on
  turn_on_task p [] task q e = ground (e, arith)
  turn_on_task p (t ∷ ts) task q e = ground (e, arith)

  turn_on_returns :
      (p : ThreadPool T) (ts : List T) (q : ThreadPool T)
      → turn_on p ts ≡ some (none, q)
      → (ts ≡ []) × (p.stop ≡ true) × (q ≡ p)
  unfolding turn_on
  turn_on_returns p [] q e = ground (e, arith)
  turn_on_returns p (t ∷ ts) q e = ground (e, arith)

  pub worker_turn_task :
      (p : ThreadPool T) (task : T) (q : ThreadPool T)
      → worker_turn p ≡ some (some task, q)
      → (p.tasks ≡ task ∷ q.tasks) × (q.stop ≡ p.stop)
  unfolding worker_turn
  worker_turn_task p task q e = turn_on_task p p.tasks task q e

  pub worker_turn_returns :
      (p q : ThreadPool T)
      → worker_turn p ≡ some (none, q)
      → (p.tasks ≡ []) × (p.stop ≡ true) × (q ≡ p)
  unfolding worker_turn
  worker_turn_returns p q e = turn_on_returns p p.tasks q e

  start-Inv : (concurrency n : ℕ) → Inv (start concurrency n)
  unfolding init thread_count
  start-Inv concurrency n = record {
    order = refl;
    runs = λ f. ground (arith, count_running-spawn f (thread_count concurrency n));
    left = λ h. ground (
      arith,
      h,
      has_returned-spawn (thread_count concurrency n) (spawn (thread_count concurrency n)) refl,
    );
    staffed = ground (
      arith,
      length-spawn (thread_count concurrency n) (spawn (thread_count concurrency n)) refl,
    );
  }

  Work-Inv : {s t : System T} → Inv s → Work s t → Inv t
  Work-Inv v (takes s before after task p h e) =
      let (queue, same) = worker_turn_task s.pool task p e in
      record {
        order = rw (v.order, queue) simp append_assoc;
        runs = λ f. ground (
          arith,
          v.runs f,
          h,
          count-append f s.taken (task ∷ []),
          count_running-append f before (waiting ∷ after),
          count_running-append f before (running task ∷ after),
        );
        left = λ r. ground (
          arith,
          r,
          v.left,
          h,
          queue,
          has_returned-append before (waiting ∷ after),
          has_returned-append before (running task ∷ after),
        );
        staffed = ground (arith, length-append before (running task ∷ after));
      }
  Work-Inv v (ends s before after task h) = record {
    order = v.order;
    runs = λ f. ground (
      arith,
      v.runs f,
      h,
      count-append f s.ended (task ∷ []),
      count_running-append f before (waiting ∷ after),
      count_running-append f before (running task ∷ after),
    );
    left = λ r. ground (
      arith,
      r,
      v.left,
      h,
      has_returned-append before (waiting ∷ after),
      has_returned-append before (running task ∷ after),
    );
    staffed = ground (arith, length-append before (waiting ∷ after));
  }
  Work-Inv v (leaves s before after p h e) =
      let (queue, stopped, same) = worker_turn_returns s.pool p e in
      record {
        order = rw same v.order;
        runs = λ f. ground (
          arith,
          v.runs f,
          h,
          count_running-append f before (waiting ∷ after),
          count_running-append f before (returned ∷ after),
        );
        left = λ r. rw same (stopped, queue);
        staffed = ground (arith, length-append before (returned ∷ after));
      }

  Step-Inv : {s t : System T} → Inv s → Step s t → Inv t
  unfolding submit request_stop
  Step-Inv v (works w) = Work-Inv v w
  Step-Inv v (submits s task) = record {
    order = ground (arith, v.order, append_assoc s.taken s.pool.tasks (task ∷ []));
    runs = λ f. ground (arith, v.runs f);
    left = λ h. ground (arith, h, v.left);
    staffed = ground (arith, v.staffed);
  }
  Step-Inv v (stops s) = record {
    order = ground (arith, v.order);
    runs = λ f. ground (arith, v.runs f);
    left = λ h. ground (arith, h, v.left);
    staffed = ground (arith, v.staffed);
  }

  Reach-Inv : {s t : System T} → Inv s → Reach s t → Inv t
  Reach-Inv v here = v
  Reach-Inv v (next r st) = Step-Inv (Reach-Inv v r) st

  has_returned-joined :
      (ws : List (Worker T)) → is_joined ws ≡ true → 0 < length ws → has_returned ws ≡ true
  has_returned-joined [] h p = ground (arith, p)
  has_returned-joined (waiting ∷ ws) h p = ground (arith, h)
  has_returned-joined (running x ∷ ws) h p = ground (arith, h)
  has_returned-joined (returned ∷ ws) h p = refl

  count_running-joined :
      (f : T → Bool) (ws : List (Worker T)) → is_joined ws ≡ true → count_running f ws ≡ 0
  count_running-joined f [] h = refl
  count_running-joined f (waiting ∷ ws) h = ground (arith, h)
  count_running-joined f (running x ∷ ws) h = ground (arith, h)
  count_running-joined f (returned ∷ ws) h = count_running-joined f ws h

  -- Whatever callers and workers do, in any order: the tasks queued are those that workers have taken,
  -- in the same order, followed by those still queued; and of the tasks taken each one has ended or is
  -- run by one worker, counted by any property of tasks.
  pub accepted_in_order :
      (concurrency n : ℕ) {s : System T}
      → Reach (start concurrency n) s
      → (s.accepted ≡ s.taken ++ s.pool.tasks)
        × ((f : T → Bool) → count f s.taken ≡ count f s.ended + count_running f s.pool.workers)
  accepted_in_order concurrency n r =
      let v = Reach-Inv (start-Inv concurrency n) r in (v.order, v.runs)

  -- Once all workers have returned, which is when the joins of `shutdown` are over, the pool has
  -- stopped, every task that was queued was taken in its turn, and every one has ended, as often as it
  -- was queued.
  pub shutdown_drains :
      (concurrency n : ℕ) {s : System T}
      → Reach (start concurrency n) s
      → is_joined s.pool.workers ≡ true
      → (s.pool.stop ≡ true)
        × (s.taken ≡ s.accepted)
        × ((f : T → Bool) → count f s.ended ≡ count f s.accepted)
  shutdown_drains concurrency n {s} r joined =
      let v = Reach-Inv (start-Inv concurrency n) r in
      let (stopped, empty) = v.left (has_returned-joined s.pool.workers joined v.staffed) in
      let all : s.taken ≡ s.accepted = ground (arith, v.order, empty, append-nil s.taken) in
      (
        stopped,
        all,
        λ f. ground (arith, v.runs f, all, count_running-joined f s.pool.workers joined),
      )
