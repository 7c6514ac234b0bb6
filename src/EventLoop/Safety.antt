-- ===== src/EventLoop/Safety.antt =====
-- The headers branch, and with it every turn, keeps the invariant of a connection.
use lswasm.Base.{
  ℕ, min, ◌≡◌, refl, sym, ap, subst, ◌∙◌, inl, inr, not, ◌||◌, Option, none, some, List, ◌∷◌, ◌++◌,
  append-nil, arith,
}
use lswasm.Base.{ltb, leb, ◌==◌, Option-cases, if_cases}
use lswasm.Base.{length, drop, take-append-drop, length-take, drop-length}
use lswasm.Base.{Bytes}
use lswasm.ConnectionIo.{ConnectionIo, init, set_header_data, body_bytes_received}
use lswasm.Server.Request.{extract_content_length}
use lswasm.EventLoop.{
  Events, FdCall, ConnCtx, no_events, only_in, update_epoll, Outcome, kept, erased, RecvResult,
  recv_failed, recv_again, recv_end, recv_bytes, SendResult, split_headers, max_header_size,
  reading_case, no_bridge_case, submits,
}
use lswasm.EventLoop.Handlers.{
  activate, read_headers, read_bytes, readable, writable, ClientEvent, client_event, read_part,
  write_part, scan, bridged,
}
use lswasm.EventLoop.Invariant.{
  kernel, IsActive, IsReading, IsOpen, is_reading, is_active, update_epoll-Updates,
}
use lswasm.EventLoop.Bridge.{IsFresh, set_header_data-IsFresh}
use lswasm.EventLoop.Sending.{writable-active, scan-active}
use lswasm.EventLoop.Turns.{
  IsFine, close_conn-IsGone, IsOpen-IsGone, read_end-active, read_bytes-active,
}

bridged-IsActive :
    (ctx : ConnCtx) (c : ConnectionIo) (headers prefix : Bytes) (n : ℕ) (e : Events)
    (cs : List FdCall)
    → IsFresh c headers prefix n
    → n ≡ extract_content_length headers
    → split_headers ctx.received ≡ some (headers, prefix)
    → ctx.seen ≡ 0
    → kernel cs ≡ some (e, 0)
    → e.inp ≡ not ((n == 0) || leb n c.body_bytes_fed)
    → IsActive
        (record (bridged ctx c ((n == 0) || leb n c.body_bytes_fed)) {
          epoll_events = e;
          calls = submits ∷ cs;
        })
        c
bridged-IsActive ctx c headers prefix n e cs f announced split unseen log reads =
    let taken : length c.body_prefix ≡ min n (length prefix) =
      ap length f.body_prefix ∙ length-take n prefix in
    record {
      served = record {
        state = refl;
        conn = refl;
        log = rw log refl;
        running = f.running;
        content = sym (ap (◌++◌ c.body_prefix) f.read_chunk ∙ append-nil c.body_prefix);
        counted = f.body_bytes_fed;
        complete = λ e. inl (ground (arith, e, f.content_length));
        framed = record {
          tail = drop n prefix;
          split = rw (f.header_data, f.body_prefix, take-append-drop n prefix) split;
          announced = rw (f.header_data, f.content_length) announced;
          bounded = omega (arith, taken, f.content_length);
          going = λ e. drop-length prefix n (ground (arith, e, taken, f.body_bytes_fed));
        };
      };
      reading = reads;
      watched = rw unseen (f.watched e.out);
    }

activate-IsActive :
    (fd : ℕ) (ctx : ConnCtx) (headers prefix : Bytes)
    → kernel ctx.calls ≡ some (only_in, 0)
    → ctx.epoll_events ≡ only_in
    → ctx.seen ≡ 0
    → split_headers ctx.received ≡ some (headers, prefix)
    → IsOpen (activate fd ctx headers prefix)
unfolding activate body_bytes_received
activate-IsActive fd ctx headers prefix log only unseen split =
    let n = extract_content_length headers in
    let c = set_header_data (init fd) headers prefix n in
    let f = set_header_data-IsFresh fd headers prefix n in
    let whole = (n == 0) || leb n c.body_bytes_fed in
    let made = bridged ctx c whole in
    let u = update_epoll-Updates made no_events 0 (rw only log) in
    let log' : kernel ctx.calls ≡ some (ctx.epoll_events, 0) = rw only log in
    let done = λ (x : ConnCtx). IsOpen (record x { calls = submits ∷ x.calls }) in
    if_cases done whole (update_epoll made no_events) made
      (λ ends. subst done (sym u.frame) (
        is_active c (
          bridged-IsActive ctx c headers prefix n no_events _ f refl split unseen u.log
            (ap not (sym ends)))))
      (λ goes. is_active c (
        bridged-IsActive ctx c headers prefix n ctx.epoll_events ctx.calls f refl split unseen log'
          (ap (λ (e : Events). e.inp) only ∙ ap not (sym goes))))

pub read_headers-IsFine :
    (fd : ℕ) (ctx : ConnCtx) (bytes : Bytes) → IsReading ctx → IsFine (read_headers fd ctx bytes)
unfolding read_headers
read_headers-IsFine fd ctx bytes v =
    let grown = record ctx {
      header_buf = ctx.header_buf ++ bytes;
      received = ctx.received ++ bytes;
    } in
    let same : ctx.received ++ bytes ≡ ctx.header_buf ++ bytes = ap (λ b. b ++ bytes) v.buffered in
    if_cases IsFine (ltb max_header_size (length (ctx.header_buf ++ bytes))) _ _
      (λ large. close_conn-IsGone _ 0 (rw v.events v.log))
      (λ fits. elim (Option-cases (split_headers (ctx.header_buf ++ bytes))) [
        | inl e ↦ rw e (
            is_reading (record {
              state = v.state;
              conn = v.conn;
              log = v.log;
              events = v.events;
              going = v.going;
              buffered = same;
              no_end = e;
              bounded = ground (arith, fits);
              unseen = v.unseen;
            }))
        | inr ((headers, prefix), e) ↦ rw e (
            activate-IsActive fd grown headers prefix v.log v.events v.unseen
              (ap split_headers same ∙ e))
      ])

readable-IsFine :
    (fd : ℕ) (ctx : ConnCtx) (r : RecvResult) → IsOpen ctx → IsFine (readable fd ctx r)
unfolding readable read_bytes
readable-IsFine fd ctx recv_failed v = IsOpen-IsGone ctx v
readable-IsFine fd ctx recv_again v = v
readable-IsFine fd ctx recv_end (is_reading v) =
    reading_case IsFine _ _ v.state (IsOpen-IsGone ctx (is_reading v))
readable-IsFine fd ctx recv_end (is_active c v) = read_end-active ctx c v
readable-IsFine fd ctx (recv_bytes bytes) (is_reading v) =
    reading_case IsFine _ _ v.state (read_headers-IsFine fd ctx bytes v)
readable-IsFine fd ctx (recv_bytes bytes) (is_active c v) = read_bytes-active fd ctx c bytes v

writable-IsFine : (ctx : ConnCtx) (r : SendResult) → IsOpen ctx → IsFine (writable ctx r)
unfolding writable
writable-IsFine ctx r (is_reading v) = no_bridge_case IsFine _ _ v.conn (is_reading v)
writable-IsFine ctx r (is_active c v) = writable-active ctx c r v

write_part-IsFine : (o : Outcome) (w : Option SendResult) → IsFine o → IsFine (write_part o w)
write_part-IsFine (kept ctx) none v = v
write_part-IsFine (kept ctx) (some r) v = writable-IsFine ctx r v
write_part-IsFine (erased ctx) w v = v

read_part-IsFine :
    (fd : ℕ) (ctx : ConnCtx) (r : Option RecvResult) → IsOpen ctx → IsFine (read_part fd ctx r)
read_part-IsFine fd ctx none v = v
read_part-IsFine fd ctx (some r) v = readable-IsFine fd ctx r v

pub client_event-IsFine :
    (fd : ℕ) (ctx : ConnCtx) (ev : ClientEvent) → IsOpen ctx → IsFine (client_event fd ctx ev)
unfolding client_event
client_event-IsFine fd ctx ev v =
    if_cases IsFine ev.broken _ _ (λ e. IsOpen-IsGone ctx v)
      (λ e.
        write_part-IsFine (read_part fd ctx ev.readable) ev.writable
          (read_part-IsFine fd ctx ev.readable v))

pub scan-IsFine : (ctx : ConnCtx) → IsOpen ctx → IsFine (scan ctx)
unfolding scan
scan-IsFine ctx (is_reading v) = reading_case IsFine _ _ v.state (is_reading v)
scan-IsFine ctx (is_active c v) = scan-active ctx c v
