-- ===== src/EventLoop/Turns.antt =====
-- The invariant of a connection is kept by every turn of the event loop.
use lswasm.Base.{
  ℕ, ◌+◌, ◌-◌, ◌≤◌, min, ◌≡◌, refl, sym, subst, ◌∙◌, ◌⊎◌, inl, inr, Bool, true, false, not, Option,
  none, some, [], ◌∷◌, ◌++◌, append-nil, append_assoc, ap₂, arith,
}
use lswasm.Base.{leb, leb→le, if_cases}
use lswasm.Base.{length, take, drop, length-append, length-take, drop-length}
use lswasm.Base.{Bytes}
use lswasm.ConnectionIo.{ConnectionIo, feed_body, feed_error, write_error, body_bytes_received}
use lswasm.EventLoop.{
  Events, ConnCtx, is_none, dels, no_events, update_epoll, close_conn, abandon, Outcome, kept,
  erased, without_in, active_case, bridge_case,
}
use lswasm.EventLoop.Handlers.{read_end, read_more, read_bytes, end_body, hand_over}
use lswasm.EventLoop.Invariant.{
  kernel, Framed, IsWatched, IsServed, IsActive, IsOpen, is_reading, is_active, IsGone, IsMarked,
  update_epoll-Updates,
}
use lswasm.EventLoop.Framing.{Framed-late, Framed-more}
use lswasm.EventLoop.Bridge.{feed_body-IsFed}

-- What a turn must lead to.
abbrev pub IsFine : Outcome → Type 0
IsFine (kept ctx) = IsOpen ctx
IsFine (erased ctx) = IsGone ctx

IsMarked-abandon : (o : Option ConnectionIo) → IsMarked (abandon o)
unfolding write_error feed_error
IsMarked-abandon none = tt
IsMarked-abandon (some c) = (refl, refl)

pub close_conn-IsGone :
    (ctx : ConnCtx) (n : ℕ)
    → kernel ctx.calls ≡ some (ctx.epoll_events, n)
    → IsGone (close_conn ctx)
unfolding close_conn
close_conn-IsGone ctx n log = record {
  submissions = n;
  log =
      if_cases (λ cs. kernel cs ≡ some (no_events, n)) (is_none ctx.epoll_events) ctx.calls
        (dels ∷ ctx.calls) (λ bare. rw log (ground (arith, bare)))
        (λ held. rw log (ground (arith, held)));
  marked = IsMarked-abandon ctx.conn_io;
}

pub open_log :
    (ctx : ConnCtx) → IsOpen ctx → (n : ℕ) × (kernel ctx.calls ≡ some (ctx.epoll_events, n))
open_log ctx (is_reading v) = (0, rw v.events v.log)
open_log ctx (is_active c v) = (1, v.served.log)

pub IsOpen-IsGone : (ctx : ConnCtx) → IsOpen ctx → IsGone (close_conn ctx)
IsOpen-IsGone ctx v = let (n, log) = open_log ctx v in close_conn-IsGone ctx n log

-- A change of the registration keeps an active connection in order if it is the right one.
module _ (ctx : ConnCtx) (c : ConnectionIo) (new : Events) where
  pub update-IsActive :
      IsServed ctx c
      → new.inp ≡ not ctx.body_complete
      → IsWatched new.out ctx.seen c
      → IsActive (update_epoll ctx new) c
  update-IsActive v reads watched =
      let u = update_epoll-Updates ctx new 1 v.log in
      subst (λ x. IsActive x c) (sym u.frame)
        (record {
          served = record {
            state = v.state;
            conn = v.conn;
            log = u.log;
            running = v.running;
            content = v.content;
            counted = v.counted;
            complete = v.complete;
            framed = v.framed;
          };
          reading = reads;
          watched = watched;
        })

-- Input is no longer wanted once the body is complete.
without_in-IsActive :
    (ctx : ConnCtx) (c : ConnectionIo)
    → IsServed ctx c
    → IsWatched ctx.epoll_events.out ctx.seen c
    → ctx.body_complete ≡ true
    → IsActive (without_in ctx) c
without_in-IsActive ctx c v w done = update-IsActive ctx c _ v (ground (arith, done)) w

fed_content :
    (body prefix delivered chunk more : Bytes)
    → body ≡ prefix ++ (delivered ++ chunk)
    → body ++ more ≡ prefix ++ (delivered ++ (chunk ++ more))
fed_content body prefix delivered chunk more e = rw e (simp append_assoc)

-- The body goes on: some bytes are handed over, and the end if this is the end.
module _ (ctx : ConnCtx) (c : ConnectionIo) (v : IsActive ctx c)
    (going : ctx.body_complete ≡ false) where
  -- The connection after `more` has come and `k` bytes of it were handed over.
  feed-IsServed :
      (more : Bytes) (k : ℕ) (eof done closed : Bool)
      → eof ≡ done
      → (done ≡ true
          → (c.content_length ≤ length ctx.body + length (take k more)) ⊎ (closed ≡ true))
      → length ctx.body + length (take k more) ≤ c.content_length
      → (done ≡ false → drop k more ≡ [])
      → IsServed
          (record (hand_over ctx c more k eof) { body_complete = done; peer_closed = closed })
          (feed_body c (take k more) eof)
  feed-IsServed more k eof done closed same ends fits all =
      let f = feed_body-IsFed c (take k more) eof in
      let s = v.served in
      let framed : Framed ctx.received ctx.body c.header_data c.content_length false =
        subst (Framed ctx.received ctx.body c.header_data c.content_length) going s.framed in
      record {
        state = s.state;
        conn = refl;
        log = s.log;
        running = f.running s.running;
        content =
            fed_content ctx.body c.body_prefix ctx.delivered c.read_chunk (take k more) s.content
            ∙ sym (ap₂ (λ p q. p ++ (ctx.delivered ++ q)) f.body_prefix f.read_chunk);
        counted = omega (arith, f.body_bytes_fed, s.counted, length-append ctx.body (take k more));
        complete = λ e.
            ground
              (arith, e, same, ends e, f.read_eof, f.content_length, f.body_bytes_fed, s.counted);
        framed =
            rw (f.header_data, f.content_length)
              (Framed-more ctx.received ctx.body c.header_data more c.content_length k done framed
                fits all);
      }

  pub read_more-IsOpen : (bytes : Bytes) → IsOpen (read_more ctx c bytes)
  unfolding read_more body_bytes_received
  read_more-IsOpen bytes =
      let k = min (length bytes) (c.content_length - c.body_bytes_fed) in
      let whole : length (take k bytes) ≡ k = omega (arith, length-take k bytes) in
      let fits : length ctx.body + length (take k bytes) ≤ c.content_length =
        omega (arith, whole, v.served.counted, v.served.framed.bounded) in
      let eof = leb (c.content_length - c.body_bytes_fed) k in
      let served = λ (done : Bool) (same : eof ≡ done).
        feed-IsServed bytes k eof done ctx.peer_closed same
          (λ e. inl (omega (arith, leb→le _ _ (same ∙ e), whole, v.served.counted))) fits
          (λ e. drop-length bytes k (ground (arith, same, e))) in
      let watched = λ (e : Bool). (feed_body-IsFed c (take k bytes) e).watched _ _ v.watched in
      if_cases IsOpen eof _ (hand_over ctx c bytes k eof)
        (λ ends. is_active _ (without_in-IsActive _ _ (served true ends) (watched eof) refl))
        (λ goes. is_active _ (record {
          served = served ctx.body_complete (goes ∙ sym going);
          reading = v.reading;
          watched = watched eof;
        }))

  end-IsServed :
      IsServed
        (record ctx {
          conn_io = some (feed_body c [] true);
          body_complete = true;
          peer_closed = true;
        })
        (feed_body c [] true)
  end-IsServed =
      let fits : length ctx.body + 0 ≤ c.content_length = omega (arith, v.served.framed.bounded) in
      let served = feed-IsServed [] 0 true true true refl (λ _. inr refl) fits (λ e. cc) in
      rw (append-nil ctx.received, append-nil ctx.body) at served

-- The peer ends its direction after the body was complete.
pub late_end-IsServed :
    (ctx : ConnCtx) (c : ConnectionIo)
    → IsServed ctx c
    → ctx.body_complete ≡ true
    → IsServed (record ctx { body_complete = true; peer_closed = true }) c
late_end-IsServed ctx c v done = record {
  state = v.state;
  conn = v.conn;
  log = v.log;
  running = v.running;
  content = v.content;
  counted = v.counted;
  complete = λ e. ground (arith, v.complete done);
  framed = subst (Framed ctx.received ctx.body c.header_data c.content_length) done v.framed;
}

pub read_end-active : (ctx : ConnCtx) (c : ConnectionIo) → IsActive ctx c → IsFine (read_end ctx)
read_end-active ctx c v =
    let ends = λ (o : Option ConnectionIo).
      IsFine (
        kept (without_in (record ctx { conn_io = o; body_complete = true; peer_closed = true }))) in
    active_case IsFine _ _ v.served.state (
      if_cases ends ctx.body_complete ctx.conn_io (end_body ctx.conn_io)
        (λ done.
          is_active c
            (without_in-IsActive _ c (late_end-IsServed ctx c v.served done) v.watched refl))
        (λ going.
          subst (λ o. ends (end_body o)) (sym v.served.conn)
            (is_active _ (
              without_in-IsActive _ _ (end-IsServed ctx c v going)
                ((feed_body-IsFed c [] true).watched _ _ v.watched) refl))))

late_bytes-IsActive :
    (ctx : ConnCtx) (c : ConnectionIo) (bytes : Bytes)
    → IsActive ctx c
    → ctx.body_complete ≡ true
    → IsActive (record ctx { received = ctx.received ++ bytes }) c
late_bytes-IsActive ctx c bytes v done =
    let s = v.served in
    let framed = Framed ctx.received ctx.body c.header_data c.content_length in
    record {
      served = record {
        state = s.state;
        conn = s.conn;
        log = s.log;
        running = s.running;
        content = s.content;
        counted = s.counted;
        complete = s.complete;
        framed =
            subst (Framed (ctx.received ++ bytes) ctx.body c.header_data c.content_length)
              (sym done)
              (Framed-late ctx.received ctx.body c.header_data bytes c.content_length
                (subst framed done s.framed));
      };
      reading = v.reading;
      watched = v.watched;
    }

pub read_bytes-active :
    (fd : ℕ) (ctx : ConnCtx) (c : ConnectionIo) (bytes : Bytes)
    → IsActive ctx c
    → IsFine (read_bytes fd ctx bytes)
unfolding read_bytes
read_bytes-active fd ctx c bytes v = active_case IsFine _ _ v.served.state (
    bridge_case IsFine _ _ v.served.conn (
      if_cases IsFine ctx.body_complete _ _
        (λ done. is_active c (late_bytes-IsActive ctx c bytes v done))
        (λ going. read_more-IsOpen ctx c v going bytes)))
