-- ===== src/EventLoop/Loop.antt =====
-- The map `connections` of the event loop, and the connections that were erased from it, whose bridges
-- the workers may still hold.
use lswasm.Base.{ℕ, ◌++◌, ◌≡◌, Bool, some, List, [], ◌∷◌}
use lswasm.Base.{◌==◌, if◌then◌else◌}
use lswasm.Base.{Bytes}
use lswasm.Base.{assign}
use lswasm.ConnectionIo.{
  ConnectionIo, BodyReadResult, read_body_chunk, write_data, finish, set_error,
}
use lswasm.EventLoop.{ConnCtx, Outcome, kept, erased, new_connection, close_conn}
use lswasm.EventLoop.Handlers.{ClientEvent, client_event, scan}

pub record Loop : Type 0 where
  pub connections : List (ℕ × ConnCtx)
  pub gone : List (ℕ × ConnCtx)

abbrev pub empty_loop : Loop
empty_loop = record { connections = []; gone = [] }

abbrev pub place : ℕ → Outcome → Loop → Loop
place fd (kept ctx) l = record l { connections = (fd, ctx) ∷ l.connections }
place fd (erased ctx) l = record l { gone = (fd, ctx) ∷ l.gone }

-- A handler run on every connection; those that it closes are erased.
unfoldable pub sweep : (ℕ → ConnCtx → Outcome) → List (ℕ × ConnCtx) → List (ℕ × ConnCtx) → Loop
sweep f [] gone = record { connections = []; gone = gone }
sweep f ((fd, ctx) ∷ cs) gone = place fd (f fd ctx) (sweep f cs gone)

-- A connection was accepted; `added` tells whether `epoll_ctl` took it.
unfoldable pub on_accept : ℕ → Bool → Loop → Loop
unfolding new_connection
on_accept fd added l =
    if added
    then record l { connections = assign (λ a b. a == b) fd new_connection l.connections }
    else l

-- The worker has signalled.
unfoldable pub on_eventfd : Loop → Loop
unfolding sweep
on_eventfd l = sweep (λ fd. scan) l.connections l.gone

abbrev pub client_turn : ℕ → ClientEvent → ℕ → ConnCtx → Outcome
client_turn fd ev other ctx = if other == fd then client_event fd ctx ev else kept ctx

-- An event on a client's descriptor; one that is not in the map is passed over.
unfoldable pub on_client : ℕ → ClientEvent → Loop → Loop
unfolding sweep
on_client fd ev l = sweep (client_turn fd ev) l.connections l.gone

abbrev pub shut : ℕ → ConnCtx → Outcome
shut fd ctx = erased (close_conn ctx)

-- The clean-up behind the loop.
unfoldable pub shut_down : Loop → Loop
unfolding sweep
shut_down l = sweep shut l.connections l.gone

-- A call of the worker that does not wait, with the bytes of the body that it returns.
pub data WorkerStep (c : ConnectionIo) : Bytes → ConnectionIo → Type 0 where
  reads :
      (max : ℕ) (r : BodyReadResult) (c' : ConnectionIo)
      → read_body_chunk c max ≡ some (r, c')
      → WorkerStep c r.bytes c'
  writes : (bytes : Bytes) (c' : ConnectionIo) → write_data c bytes ≡ some c' → WorkerStep c [] c'
  finishes : WorkerStep c [] (finish c)
  fails : WorkerStep c [] (set_error c)

-- The connections of a list, one of which its worker may have changed.
pub data Works : List (ℕ × ConnCtx) → List (ℕ × ConnCtx) → Type 0 where
  first :
      (fd : ℕ) (ctx : ConnCtx) (cs : List (ℕ × ConnCtx)) (c c' : ConnectionIo) (bytes : Bytes)
      → ctx.conn_io ≡ some c
      → WorkerStep c bytes c'
      → Works
          ((fd, ctx) ∷ cs)
          ((fd, record ctx { conn_io = some c'; delivered = ctx.delivered ++ bytes }) ∷ cs)
  later : (x : ℕ × ConnCtx) {cs ds : List (ℕ × ConnCtx)} → Works cs ds → Works (x ∷ cs) (x ∷ ds)

-- What the event loop and the workers do, in any order.
pub data Step : Loop → Loop → Type 0 where
  accepts : (l : Loop) (fd : ℕ) (added : Bool) → Step l (on_accept fd added l)
  signals : (l : Loop) → Step l (on_eventfd l)
  serves : (l : Loop) (fd : ℕ) (ev : ClientEvent) → Step l (on_client fd ev l)
  stops : (l : Loop) → Step l (shut_down l)
  works_open :
      (l : Loop) (cs : List (ℕ × ConnCtx))
      → Works l.connections cs
      → Step l (record l { connections = cs })
  works_gone :
      (l : Loop) (cs : List (ℕ × ConnCtx)) → Works l.gone cs → Step l (record l { gone = cs })

pub data Reach : Loop → Type 0 where
  here : Reach empty_loop
  next : {l m : Loop} → Reach l → Step l m → Reach m
