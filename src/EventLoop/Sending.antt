-- ===== src/EventLoop/Sending.antt =====
-- The invariant of a connection is kept by `EPOLLOUT` and by the scan.
use lswasm.Base.{
  ℕ, sym, ap₂, ◌++◌, ◌≤◌, ◌≡◌, refl, ◌∙◌, inl, false, not, ◌&&◌, some, [], ◌∷◌, arith,
}
use lswasm.Base.{if_cases}
use lswasm.Base.{is_empty, take}
use lswasm.Base.{Bytes}
use lswasm.ConnectionIo.{
  ConnectionIo, pending_write_data, advance_write, is_write_pending, is_finished, has_error,
}
use lswasm.EventLoop.{
  ConnCtx, close_conn, SendResult, send_failed, send_again, send_taken, active_case, bridge_case,
  sends,
}
use lswasm.EventLoop.Handlers.{settle_output, after_send, writable, scan}
use lswasm.EventLoop.Invariant.{IsServed, IsActive, is_active, IsGone}
use lswasm.EventLoop.Bridge.{settled_idle, pending_none, advance_write-IsAdvanced, scanned_idle}
use lswasm.EventLoop.Turns.{IsFine, close_conn-IsGone, update-IsActive}

settle_output-IsFine :
    (ctx : ConnCtx) (c : ConnectionIo)
    → IsServed ctx c
    → ctx.seen ≤ c.signals
    → c.write_buffer ≡ []
    → IsFine (settle_output ctx c)
unfolding settle_output
settle_output-IsFine ctx c v seen e =
    if_cases IsFine (is_finished c) _ _ (λ done. close_conn-IsGone ctx 1 v.log)
      λ going. is_active c (
        update-IsActive ctx c (record { inp = not ctx.body_complete; out = false }) v refl
          (settled_idle c false ctx.seen v.running seen e going))

moved-IsServed :
    (ctx : ConnCtx) (c : ConnectionIo) (bytes : Bytes) (n : ℕ)
    → IsServed ctx c
    → IsServed
        (record ctx { conn_io = some (advance_write c n); calls = sends bytes ∷ ctx.calls })
        (advance_write c n)
moved-IsServed ctx c bytes n s =
    let d = advance_write-IsAdvanced c n in
    record {
      state = s.state;
      conn = refl;
      log = s.log;
      running = d.running s.running;
      content =
          s.content ∙ sym (ap₂ (λ p q. p ++ (ctx.delivered ++ q)) d.same.body_prefix d.read_chunk);
      counted = d.same.body_bytes_fed ∙ s.counted;
      complete = λ e.
          ground
            (arith, s.complete e, d.same.content_length, d.same.body_bytes_fed, d.same.read_eof);
      framed = rw (d.same.header_data, d.same.content_length) s.framed;
    }

-- The bridge has moved on, and what was sent is logged.
after_send-IsFine :
    (ctx : ConnCtx) (c : ConnectionIo) (r : SendResult)
    → IsActive ctx c
    → IsFine (after_send ctx c r)
unfolding after_send
after_send-IsFine ctx c send_failed v = close_conn-IsGone _ 1 v.served.log
after_send-IsFine ctx c send_again v = is_active c v
after_send-IsFine ctx c (send_taken n) v =
    let d = advance_write-IsAdvanced c n in
    let served = moved-IsServed ctx c (take n (pending_write_data c)) n v.served in
    if_cases IsFine (is_write_pending (advance_write c n)) _ _
      (λ more.
        is_active _
          (record { served = served; reading = v.reading; watched = d.watched _ _ v.watched }))
      (λ drained.
        settle_output-IsFine _ _ served (d.watched _ _ v.watched).seen_before
          (d.drained drained v.served.running))

pub writable-active :
    (ctx : ConnCtx) (c : ConnectionIo) (r : SendResult) → IsActive ctx c → IsFine (writable ctx r)
unfolding writable
writable-active ctx c r v = bridge_case IsFine _ _ v.served.conn (
    if_cases IsFine (is_empty (pending_write_data c)) _ _
      (λ none_left.
        settle_output-IsFine ctx c v.served v.watched.seen_before
          (pending_none c v.served.running none_left))
      (λ some_left. after_send-IsFine ctx c r v))

pub scan-active : (ctx : ConnCtx) (c : ConnectionIo) → IsActive ctx c → IsFine (scan ctx)
unfolding scan
scan-active ctx c v =
    let s = v.served in
    let now = record ctx { seen = c.signals } in
    let gone : IsGone (close_conn now) = close_conn-IsGone now 1 s.log in
    let served : IsServed now c = record {
      state = s.state;
      conn = s.conn;
      log = s.log;
      running = s.running;
      content = s.content;
      counted = s.counted;
      complete = s.complete;
      framed = s.framed;
    } in
    active_case IsFine _ _ v.served.state (
      bridge_case IsFine _ _ v.served.conn (
        if_cases IsFine (has_error c) _ _ (λ e. gone)
          λ well.
            if_cases IsFine (is_finished c && not (is_write_pending c)) _ _ (λ e. gone)
              λ going.
                if_cases IsFine (is_write_pending c) _ _
                  (λ pending. is_active c (
                    update-IsActive now c _ served refl
                      (record { woken = λ e. inl refl; seen_before = omega arith })))
                  (λ idle. is_active c (record {
                    served = served;
                    reading = v.reading;
                    watched = scanned_idle c _ s.running idle going;
                  }))))
