-- ===== src/EventLoop/Runs.antt =====
-- The invariant of the connections holds in every run of the event loop and the workers.
use lswasm.Base.{
  ℕ, ◌≡◌, refl, sym, ap, ap₂, ◌++◌, append_assoc, subst, ◌∙◌, true, false, some, List, [], ◌∷◌,
  arith,
}
use lswasm.Base.{◌==◌, if_cases}
use lswasm.Base.{All}
use lswasm.Base.{assign}
use lswasm.Base.{Bytes}
use lswasm.ConnectionIo.{ConnectionIo}
use lswasm.EventLoop.{ConnCtx, Outcome, kept, erased, new_connection}
use lswasm.EventLoop.Handlers.{ClientEvent}
use lswasm.EventLoop.Invariant.{
  IsActive, IsOpen, is_reading, is_active, IsGone, IsMarked, new_connection-IsReading,
}
use lswasm.EventLoop.Bridge.{WorkerStep-Works}
use lswasm.EventLoop.Turns.{IsFine, IsOpen-IsGone}
use lswasm.EventLoop.Safety.{client_event-IsFine, scan-IsFine}
use lswasm.EventLoop.Loop.{
  Loop, Step, accepts, signals, serves, stops, works_open, works_gone, WorkerStep, Works, first,
  later, Reach, here, next, sweep, place, on_accept, on_eventfd, on_client, shut_down, client_turn,
  shut,
}

abbrev pub IsOpenAt : ℕ × ConnCtx → Type 0
IsOpenAt x = IsOpen (x.1)

abbrev pub IsGoneAt : ℕ × ConnCtx → Type 0
IsGoneAt x = IsGone (x.1)

pub record IsSafe (l : Loop) : Type 0 where
  pub held : All IsOpenAt l.connections
  pub left : All IsGoneAt l.gone

place-IsSafe : (fd : ℕ) (o : Outcome) (l : Loop) → IsFine o → IsSafe l → IsSafe (place fd o l)
place-IsSafe fd (kept ctx) l v s = record { held = (v, s.held); left = s.left }
place-IsSafe fd (erased ctx) l v s = record { held = s.held; left = (v, s.left) }

sweep-IsSafe :
    (f : ℕ → ConnCtx → Outcome) (cs gone : List (ℕ × ConnCtx))
    → ((fd : ℕ) (ctx : ConnCtx) → IsOpen ctx → IsFine (f fd ctx))
    → All IsOpenAt cs
    → All IsGoneAt gone
    → IsSafe (sweep f cs gone)
unfolding sweep
sweep-IsSafe f [] gone h v g = record { held = v; left = g }
sweep-IsSafe f ((fd, ctx) ∷ cs) gone h v g =
    place-IsSafe fd (f fd ctx) (sweep f cs gone) (h fd ctx v.0) (sweep-IsSafe f cs gone h v.1 g)

assign-open :
    (fd : ℕ) (ctx : ConnCtx) (cs : List (ℕ × ConnCtx))
    → IsOpen ctx
    → All IsOpenAt cs
    → All IsOpenAt (assign (λ a b. a == b) fd ctx cs)
assign-open fd ctx [] v s = (v, s)
assign-open fd ctx ((other, old) ∷ cs) v s =
    if_cases (All IsOpenAt) (other == fd) _ _ (λ e. (v, s.1))
      (λ e. (s.0, assign-open fd ctx cs v s.1))

client_turn-IsFine :
    (fd : ℕ) (ev : ClientEvent) (other : ℕ) (ctx : ConnCtx)
    → IsOpen ctx
    → IsFine (client_turn fd ev other ctx)
client_turn-IsFine fd ev other ctx v =
    if_cases IsFine (other == fd) _ _ (λ e. client_event-IsFine fd ctx ev v) (λ e. v)

work-IsActive :
    (ctx : ConnCtx) (c c' : ConnectionIo) (bytes : Bytes)
    → WorkerStep c bytes c'
    → IsActive ctx c
    → IsActive (record ctx { conn_io = some c'; delivered = ctx.delivered ++ bytes }) c'
work-IsActive ctx c c' bytes st v =
    let w = WorkerStep-Works st in
    let s = v.served in
    record {
      served = record {
        state = s.state;
        conn = refl;
        log = s.log;
        running = w.running s.running;
        content =
            s.content
            ∙ ap₂ (λ p q. p ++ (ctx.delivered ++ q)) (sym w.same.body_prefix) w.taken
            ∙ ap (◌++◌ c'.body_prefix) (sym (append_assoc ctx.delivered bytes c'.read_chunk));
        counted = w.same.body_bytes_fed ∙ s.counted;
        complete = λ e.
            ground
              (arith, s.complete e, w.same.content_length, w.same.body_bytes_fed, w.same.read_eof);
        framed = rw (w.same.header_data, w.same.content_length) s.framed;
      };
      reading = v.reading;
      watched = record {
        woken = λ e.
            ground (
              arith, e, v.watched.woken, w.signalled.grows, w.signalled.news, v.watched.seen_before,
            );
        seen_before = omega (arith, v.watched.seen_before, w.signalled.grows);
      };
    }

work-IsOpen :
    (ctx : ConnCtx) (c c' : ConnectionIo) (bytes : Bytes)
    → ctx.conn_io ≡ some c
    → WorkerStep c bytes c'
    → IsOpen ctx
    → IsOpen (record ctx { conn_io = some c'; delivered = ctx.delivered ++ bytes })
work-IsOpen ctx c c' bytes e st (is_reading v) = absurd (ground (arith, sym v.conn ∙ e))
work-IsOpen ctx c c' bytes e st (is_active d v) =
    let same : d ≡ c = ground (arith, sym v.served.conn ∙ e) in
    is_active c' (work-IsActive ctx c c' bytes st (subst (IsActive ctx) same v))

work-IsGone :
    (ctx : ConnCtx) (c c' : ConnectionIo) (bytes : Bytes)
    → ctx.conn_io ≡ some c
    → WorkerStep c bytes c'
    → IsGone ctx
    → IsGone (record ctx { conn_io = some c'; delivered = ctx.delivered ++ bytes })
work-IsGone ctx c c' bytes e st v =
    let w = WorkerStep-Works st in
    let marked = subst IsMarked e v.marked in
    record {
      submissions = v.submissions;
      log = v.log;
      marked = (w.same.read_error ∙ marked.0, w.marked marked.1);
    }

Works-held : {cs ds : List (ℕ × ConnCtx)} → Works cs ds → All IsOpenAt cs → All IsOpenAt ds
Works-held (first fd ctx cs c c' bytes e st) v = (work-IsOpen ctx c c' bytes e st v.0, v.1)
Works-held (later x w) v = (v.0, Works-held w v.1)

Works-left : {cs ds : List (ℕ × ConnCtx)} → Works cs ds → All IsGoneAt cs → All IsGoneAt ds
Works-left (first fd ctx cs c c' bytes e st) v = (work-IsGone ctx c c' bytes e st v.0, v.1)
Works-left (later x w) v = (v.0, Works-left w v.1)

Step-IsSafe : {l m : Loop} → IsSafe l → Step l m → IsSafe m
unfolding on_accept on_eventfd on_client shut_down
Step-IsSafe v (accepts l fd true) = record {
  held = assign-open fd new_connection l.connections (is_reading new_connection-IsReading) v.held;
  left = v.left;
}
Step-IsSafe v (accepts l fd false) = v
Step-IsSafe v (signals l) = sweep-IsSafe _ l.connections l.gone (λ fd. scan-IsFine) v.held v.left
Step-IsSafe v (serves l fd ev) =
    sweep-IsSafe _ l.connections l.gone (client_turn-IsFine fd ev) v.held v.left
Step-IsSafe v (stops l) = sweep-IsSafe shut l.connections l.gone (λ fd. IsOpen-IsGone) v.held v.left
Step-IsSafe v (works_open l cs w) = record { held = Works-held w v.held; left = v.left }
Step-IsSafe v (works_gone l cs w) = record { held = v.held; left = Works-left w v.left }

-- In every run of the event loop and the workers, whatever the kernel answers and in whatever order:
-- a connection in the map is well-formed in its state (its epoll calls were legal in the kernel, input
-- is registered exactly while the body is incomplete, an active one was submitted exactly once, its
-- header buffer is bounded, the bytes were framed), and one that was erased was unregistered, then
-- closed once, and its bridge is marked with both errors.
pub Reach-IsSafe : {l : Loop} → Reach l → IsSafe l
Reach-IsSafe here = record { held = tt; left = tt }
Reach-IsSafe (next r st) = Step-IsSafe (Reach-IsSafe r) st
