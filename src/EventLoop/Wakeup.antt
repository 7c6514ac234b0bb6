-- ===== src/EventLoop/Wakeup.antt =====
-- A worker that waits is waited for by the event loop, and one whose connection is gone does not wait.
use lswasm.Base.{
  ℕ, ◌<◌, ◌≡◌, sym, ap, subst, ◌∙◌, ◌≢◌, ◌⊎◌, inl, inr, true, false, not, none, some, List, [], ◌∷◌,
  ◌++◌, arith,
}
use lswasm.Base.{◌==◌, Bool-cases}
use lswasm.Base.{All}
use lswasm.Base.{Bytes}
use lswasm.Base.{lookup}
use lswasm.ConnectionIo.{ConnectionIo, read_body_chunk, write_data, needs_more_body}
use lswasm.ConnectionIo.Read.{read_body_chunk_waits}
use lswasm.EventLoop.{ConnCtx}
use lswasm.EventLoop.Invariant.{IsActive, IsOpen, is_reading, is_active, IsGone, IsMarked}
use lswasm.EventLoop.Loop.{Loop, Reach}
use lswasm.EventLoop.Runs.{Reach-IsSafe}

All-lookup :
    (P : ConnCtx → Type 0) (fd : ℕ) (ctx : ConnCtx) (cs : List (ℕ × ConnCtx))
    → All (λ x. P x.1) cs
    → lookup (λ a b. a == b) fd cs ≡ some ctx
    → P ctx
All-lookup P fd ctx [] v e = absurd (ground (arith, e))
All-lookup P fd ctx ((other, x) ∷ cs) v e = elim (Bool-cases (other == fd)) [
  | inl same ↦ let e' : x ≡ ctx = ground (arith, same, e) in subst P e' v.0
  | inr differs ↦ All-lookup P fd ctx cs v.1 (ground (arith, differs, e))
]

-- An open connection that has a bridge is active.
pub open-IsActive :
    {l : Loop} (fd : ℕ) (ctx : ConnCtx) (c : ConnectionIo)
    → Reach l
    → lookup (λ a b. a == b) fd l.connections ≡ some ctx
    → ctx.conn_io ≡ some c
    → IsActive ctx c
open-IsActive {l} fd ctx c r found e =
    elim (All-lookup IsOpen fd ctx l.connections (Reach-IsSafe r).held found) [
      | is_reading v ↦ absurd (ground (arith, sym v.conn ∙ e))
      | is_active d v ↦
          let same : d ≡ c = ground (arith, sym v.served.conn ∙ e) in subst (IsActive ctx) same v
    ]

-- In every run: while the worker of a connection in the map waits for more of the body, the event loop
-- is registered for input on it.
pub read_body_chunk_registered :
    {l : Loop} (fd max : ℕ) (ctx : ConnCtx) (c : ConnectionIo)
    → Reach l
    → lookup (λ a b. a == b) fd l.connections ≡ some ctx
    → ctx.conn_io ≡ some c
    → read_body_chunk c max ≡ none
    → ctx.epoll_events.inp ≡ true
unfolding needs_more_body
read_body_chunk_registered fd max ctx c r found e waits =
    let v = open-IsActive fd ctx c r found e in
    let needs : needs_more_body c ≡ true = ((read_body_chunk_waits c max).0 waits).0 in
    let going : ctx.body_complete ≡ false = ground (arith, v.served.complete, needs) in
    v.reading ∙ ap not going

-- In every run: while the worker of a connection in the map waits to write, or has bytes unsent, or has
-- finished, the event loop is registered for room to send, or there is a signal on the eventfd that it
-- has not read, given, or in `setError` about to be given.
pub write_data_registered :
    {l : Loop} (fd : ℕ) (bytes : Bytes) (ctx : ConnCtx) (c : ConnectionIo)
    → Reach l
    → lookup (λ a b. a == b) fd l.connections ≡ some ctx
    → ctx.conn_io ≡ some c
    → (write_data c bytes ≡ none) ⊎ ((c.write_buffer ≢ []) ⊎ (c.finished ≡ true))
    → (ctx.epoll_events.out ≡ true) ⊎ (ctx.seen < c.signals)
unfolding write_data
write_data_registered fd bytes ctx c r found e waits =
    let v = open-IsActive fd ctx c r found e in
    let w = v.served.running in v.watched.woken (ground (arith, waits, w.flag, w.failed))

All-middle :
    (P : ConnCtx → Type 0) (before : List (ℕ × ConnCtx)) (x : ℕ × ConnCtx)
    (after : List (ℕ × ConnCtx))
    → All (λ y. P y.1) (before ++ (x ∷ after))
    → P x.1
All-middle P [] x after v = v.0
All-middle P (y ∷ before) x after v = All-middle P before x after v.1

-- In every run: neither a read nor a write of the worker waits once its connection was erased. It holds
-- of every connection that was erased, also where its descriptor has been used again since.
pub gone_free :
    {l : Loop} (fd max : ℕ) (bytes : Bytes) (ctx : ConnCtx) (c : ConnectionIo)
    (before after : List (ℕ × ConnCtx))
    → Reach l
    → l.gone ≡ before ++ ((fd, ctx) ∷ after)
    → ctx.conn_io ≡ some c
    → (read_body_chunk c max ≢ none) × (write_data c bytes ≢ none)
unfolding read_body_chunk write_data
gone_free {l} fd max bytes ctx c before after r found e =
    let all = subst (All (λ (x : ℕ × ConnCtx). IsGone x.1)) found (Reach-IsSafe r).left in
    let v = All-middle IsGone before (fd, ctx) after all in
    let marked = subst IsMarked e v.marked in (ground (arith, marked), ground (arith, marked))

-- The body as the worker gets it: the prefix beside the headers, what its reads have returned, and what
-- is in the bridge for its next reads.
abbrev pub body_of : ConnCtx → ConnectionIo → Bytes
body_of ctx c = c.body_prefix ++ (ctx.delivered ++ c.read_chunk)
