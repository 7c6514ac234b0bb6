-- ===== src/EventLoop/Invariant.antt =====
-- What holds of a connection between two turns of the event loop.
use lswasm.Base.{
  ℕ, suc, ◌≤◌, ◌<◌, ◌≡◌, refl, ◌⊎◌, Bool, true, false, not, ◌&&◌, ◌||◌, Option, none, some, List,
  [], ◌∷◌, ◌++◌, arith,
}
use lswasm.Base.{if◌then◌else◌, if_cases}
use lswasm.Base.{length, is_empty}
use lswasm.Base.{Bytes}
use lswasm.ConnectionIo.{ConnectionIo}
use lswasm.Server.Request.{extract_content_length}
use lswasm.EventLoop.{
  reading_headers, active, Events, FdCall, adds, mods, dels, submits, closes, sends, ConnCtx,
  no_events, only_in, is_none, same_events, epoll_ctl, split_headers, max_header_size, update_epoll,
  new_connection,
}

-- The kernel's side of the calls, oldest last: the registration they lead to, and the number of
-- submissions; none if one of them fails (registered twice, changed or removed unregistered, or after
-- the descriptor was closed).
abbrev pub kernel : List FdCall → Option (Events × ℕ)
kernel [] = some (no_events, 0)
kernel (adds e ∷ cs) = elim (kernel cs) [
  | none ↦ none
  | some (old, n) ↦ if is_none old && not (is_none e) then some (e, n) else none
]
kernel (mods e ∷ cs) = elim (kernel cs) [
  | none ↦ none
  | some (old, n) ↦ if is_none old || is_none e then none else some (e, n)
]
kernel (dels ∷ cs) = elim (kernel cs) [
  | none ↦ none
  | some (old, n) ↦ if is_none old then none else some (no_events, n)
]
kernel (submits ∷ cs) = elim (kernel cs) [ none ↦ none | some (old, n) ↦ some (old, suc n) ]
kernel (sends bytes ∷ cs) = kernel cs
kernel (closes ∷ cs) = none

-- What the worker was handed of the bytes received: the headers up to the first empty line, then the
-- bytes behind it, as many as the announced length allows.
pub record Framed (received body header_data : Bytes) (content_length : ℕ) (done : Bool)
    : Type 0 where
  pub tail : Bytes
  pub split : split_headers received ≡ some (header_data, body ++ tail)
  pub announced : content_length ≡ extract_content_length header_data
  pub bounded : length body ≤ content_length
  pub going : done ≡ false → tail ≡ []

-- The bridge of an open connection.
pub record IsRunning (c : ConnectionIo) : Type 0 where
  pub cursor : (c.write_buffer ≡ []) ⊎ (c.write_cursor < length c.write_buffer)
  pub flag : c.write_pending ≡ not (is_empty c.write_buffer)
  pub failed : c.write_error ≡ true → c.finished ≡ true
  pub reader : c.read_error ≡ false

-- There is something for the event loop to do only if it waits for room to send, or a signal has not
-- been consumed.
pub record IsWatched (out : Bool) (seen : ℕ) (c : ConnectionIo) : Type 0 where
  pub woken : (c.write_pending || c.finished) ≡ true → (out ≡ true) ⊎ (seen < c.signals)
  pub seen_before : seen ≤ c.signals

pub record IsServed (ctx : ConnCtx) (c : ConnectionIo) : Type 0 where
  pub state : ctx.state ≡ active
  pub conn : ctx.conn_io ≡ some c
  pub log : kernel ctx.calls ≡ some (ctx.epoll_events, 1)
  pub running : IsRunning c
  pub counted : c.body_bytes_fed ≡ length ctx.body
  pub complete :
      ctx.body_complete ≡ true
      → (c.content_length ≤ c.body_bytes_fed) ⊎ ((ctx.peer_closed ≡ true) × (c.read_eof ≡ true))
  pub content : ctx.body ≡ c.body_prefix ++ (ctx.delivered ++ c.read_chunk)
  pub framed : Framed ctx.received ctx.body c.header_data c.content_length ctx.body_complete

-- Input is waited for as long as the body is incomplete, and room to send while there is something.
pub record IsActive (ctx : ConnCtx) (c : ConnectionIo) : Type 0 where
  pub served : IsServed ctx c
  pub reading : ctx.epoll_events.inp ≡ not ctx.body_complete
  pub watched : IsWatched ctx.epoll_events.out ctx.seen c

pub record IsReading (ctx : ConnCtx) : Type 0 where
  pub state : ctx.state ≡ reading_headers
  pub conn : ctx.conn_io ≡ none
  pub log : kernel ctx.calls ≡ some (only_in, 0)
  pub events : ctx.epoll_events ≡ only_in
  pub going : ctx.body_complete ≡ false
  pub buffered : ctx.received ≡ ctx.header_buf
  pub no_end : split_headers ctx.header_buf ≡ none
  pub bounded : length ctx.header_buf ≤ max_header_size
  pub unseen : ctx.seen ≡ 0

-- A connection in the map.
pub data IsOpen (ctx : ConnCtx) : Type 0 where
  is_reading : IsReading ctx → IsOpen ctx
  is_active : (c : ConnectionIo) → IsActive ctx c → IsOpen ctx

-- The kernel's side of the calls before the descriptor was closed, which was the last one.
abbrev pub before_close : List FdCall → Option (Events × ℕ)
before_close (closes ∷ cs) = kernel cs
before_close cs = none

-- Neither a read nor a write of this bridge waits.
abbrev pub IsMarked : Option ConnectionIo → Type 0
IsMarked none = Unit
IsMarked (some c) = (c.read_error ≡ true) × (c.write_error ≡ true)

-- A connection that was erased: closed once, after it was unregistered.
pub record IsGone (ctx : ConnCtx) : Type 0 where
  pub submissions : ℕ
  pub log : before_close ctx.calls ≡ some (no_events, submissions)
  pub marked : IsMarked ctx.conn_io

pub new_connection-IsReading : IsReading new_connection
unfolding new_connection
new_connection-IsReading = record {
  state = refl;
  conn = refl;
  log = refl;
  events = refl;
  going = refl;
  buffered = refl;
  no_end = refl;
  bounded = omega arith;
  unseen = refl;
}

-- What `update_epoll` changes, and that the kernel takes its call.
pub record Updates (ctx : ConnCtx) (new : Events) (n : ℕ) (ctx' : ConnCtx) : Type 0 where
  pub log : kernel ctx'.calls ≡ some (new, n)
  pub frame : ctx' ≡ record ctx { epoll_events = new; calls = ctx'.calls }

same_events_lem : (e f : Events) → same_events e f ≡ true → e ≡ f
same_events_lem e f h = ground arith

kernel-epoll_ctl :
    (old new : Events) (n : ℕ) (cs : List FdCall)
    → kernel cs ≡ some (old, n)
    → same_events new old ≡ false
    → kernel (epoll_ctl old new ∷ cs) ≡ some (new, n)
kernel-epoll_ctl old new n cs log differ =
    if_cases (λ c. kernel (c ∷ cs) ≡ some (new, n)) (is_none new) _ _
      (λ gone. rw log (ground (arith, gone)))
      (λ some_left.
        if_cases (λ c. kernel (c ∷ cs) ≡ some (new, n)) (is_none old) _ _
          (λ fresh. rw log (ground (arith, fresh))) (λ held. rw log (ground (arith, held))))

pub update_epoll-Updates :
    (ctx : ConnCtx) (new : Events) (n : ℕ)
    → kernel ctx.calls ≡ some (ctx.epoll_events, n)
    → Updates ctx new n (update_epoll ctx new)
unfolding update_epoll
update_epoll-Updates ctx new n log =
    if_cases (λ (c : ConnCtx). Updates ctx new n c) (same_events new ctx.epoll_events) _ _
      (λ same.
        let e : new ≡ ctx.epoll_events = same_events_lem new ctx.epoll_events same in
        rw e (record { log = log; frame = refl }))
      (λ differ. record {
        log = kernel-epoll_ctl ctx.epoll_events new n ctx.calls log differ;
        frame = refl;
      })
