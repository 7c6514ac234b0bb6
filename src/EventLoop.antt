-- ===== src/EventLoop.antt =====
-- The event loop of `HttpServer::accept_connections` in src/main.cpp. The kernel's answers (`recv`,
-- `send`, the events) are arguments. The fields `calls`, `received`, `body`, `delivered`, `seen` and
-- `peer_closed` of a connection are histories that the code does not keep.
pub mod Setup
pub mod Handlers
pub mod Loop
pub mod Invariant
pub mod Framing
pub mod Bridge
pub mod Turns
pub mod Sending
pub mod Safety
pub mod Runs
pub mod Wakeup
pub mod Refinement
pub mod Tests
use lswasm.Base.{ℕ, ◌≡◌, Bool, true, false, not, ◌&&◌, ◌||◌, Option, none, some, List, [], ◌∷◌}
use lswasm.Base.{◌==◌, if◌then◌else◌}
use lswasm.Base.{take, drop}
use lswasm.Base.{Bytes, codes}
use lswasm.ConnectionIo.{ConnectionIo, feed_error, write_error}

pub data ConnState : Type 0 where
  reading_headers active : ConnState

-- The bits `EPOLLIN` and `EPOLLOUT` of a registration.
pub record Events : Type 0 where
  pub inp : Bool
  pub out : Bool

-- A system call or submission made for a connection.
pub data FdCall : Type 0 where
  adds mods : Events → FdCall
  dels submits closes : FdCall
  sends : Bytes → FdCall

-- `ConnCtx`. Histories: `calls`, the newest first; `received`, what `recv` has returned; `body`, what
-- was handed over as body; `delivered`, what the worker's reads have returned; `seen`, the worker's signals when the eventfd was last read; `peer_closed`,
-- whether `recv` has found the end.
pub record ConnCtx : Type 0 where
  pub state : ConnState
  pub header_buf : Bytes
  pub conn_io : Option ConnectionIo
  pub body_complete : Bool
  pub epoll_events : Events
  pub calls : List FdCall
  pub received : Bytes
  pub body : Bytes
  pub delivered : Bytes
  pub seen : ℕ
  pub peer_closed : Bool

abbrev pub no_events : Events
no_events = record { inp = false; out = false }

abbrev pub only_in : Events
only_in = record { inp = true; out = false }

abbrev pub is_none : Events → Bool
is_none e = not (e.inp || e.out)

abbrev pub agree : Bool → Bool → Bool
agree true b = b
agree false b = not b

abbrev pub same_events : Events → Events → Bool
same_events e f = agree e.inp f.inp && agree e.out f.out

-- `ConnCtx{}` under the registration that the accepting branch makes.
unfoldable pub new_connection : ConnCtx
new_connection = record {
  state = reading_headers;
  header_buf = [];
  conn_io = none;
  body_complete = false;
  epoll_events = only_in;
  calls = adds only_in ∷ [];
  received = [];
  body = [];
  delivered = [];
  seen = 0;
  peer_closed = false;
}

-- Which `epoll_ctl` leads from the old registration to the new one.
abbrev pub epoll_ctl : Events → Events → FdCall
epoll_ctl old new = if is_none new then dels else if is_none old then adds new else mods new

-- `update_epoll`
unfoldable pub update_epoll : ConnCtx → Events → ConnCtx
update_epoll ctx new =
    if same_events new ctx.epoll_events
    then ctx
    else record ctx { epoll_events = new; calls = epoll_ctl ctx.epoll_events new ∷ ctx.calls }

-- `feedError` and `writeError` on the bridge, if there is one.
abbrev pub abandon : Option ConnectionIo → Option ConnectionIo
abandon none = none
abandon (some c) = some (write_error (feed_error c))

-- `close_conn`
unfoldable pub close_conn : ConnCtx → ConnCtx
close_conn ctx =
    let gone = if is_none ctx.epoll_events then ctx.calls else dels ∷ ctx.calls in
    record ctx { epoll_events = no_events; conn_io = abandon ctx.conn_io; calls = closes ∷ gone }

-- Whether a connection stays in `connections`.
pub data Outcome : Type 0 where
  kept erased : ConnCtx → Outcome

-- What `recv` answers; `recv_bytes` has a byte at least.
pub data RecvResult : Type 0 where
  recv_failed recv_again recv_end : RecvResult
  recv_bytes : Bytes → RecvResult

-- What `send` answers.
pub data SendResult : Type 0 where
  send_failed send_again : SendResult
  send_taken : ℕ → SendResult

abbrev pub max_header_size : ℕ
max_header_size = 65536

-- The answer to headers that are too large.
abbrev pub too_large : Bytes
too_large =
    codes
      "HTTP/1.1 431 Request Header Fields Too Large\r\nConnection: close\r\nContent-Length: 0\r\n\r\n"

abbrev pub at_end : Bytes → Bool
at_end (a ∷ b ∷ c ∷ d ∷ s) = (a == 13) && ((b == 10) && ((c == 13) && (d == 10)))
at_end s = false

-- `find("\r\n\r\n")` and the parts up to its end and behind it.
abbrev pub split_headers : Bytes → Option (Bytes × Bytes)
split_headers [] = none
split_headers (c ∷ cs) =
    let rest = split_headers cs in
    if at_end (c ∷ cs)
    then some (take 4 (c ∷ cs), drop 4 (c ∷ cs))
    else elim rest [ none ↦ none | some (before, after) ↦ some (c ∷ before, after) ]

-- `EPOLLIN` taken out of the registration.
abbrev pub without_in : ConnCtx → ConnCtx
without_in ctx = update_epoll ctx (record { inp = false; out = ctx.epoll_events.out })

-- The two cases of a state, and of the pointer to the bridge.
abbrev pub in_state : ConnState → Outcome → Outcome → Outcome
in_state reading_headers x y = x
in_state active x y = y

abbrev pub on_bridge : Option ConnectionIo → Outcome → (ConnectionIo → Outcome) → Outcome
on_bridge none x f = x
on_bridge (some c) x f = f c

-- To prove something of a case, prove it of the one that is taken.
pub active_case :
    {s : ConnState} (P : Outcome → Type 0) (x y : Outcome) → s ≡ active → P y → P (in_state s x y)
active_case P x y e p = rw e p

pub reading_case :
    {s : ConnState} (P : Outcome → Type 0) (x y : Outcome)
    → s ≡ reading_headers
    → P x
    → P (in_state s x y)
reading_case P x y e p = rw e p

pub bridge_case :
    {o : Option ConnectionIo} {c : ConnectionIo} (P : Outcome → Type 0) (x : Outcome)
    (f : ConnectionIo → Outcome)
    → o ≡ some c
    → P (f c)
    → P (on_bridge o x f)
bridge_case P x f e p = rw e p

pub no_bridge_case :
    {o : Option ConnectionIo} (P : Outcome → Type 0) (x : Outcome) (f : ConnectionIo → Outcome)
    → o ≡ none
    → P x
    → P (on_bridge o x f)
no_bridge_case P x f e p = rw e p
