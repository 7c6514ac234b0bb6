-- ===== src/EventLoop/Handlers.antt =====
-- The branches of the event loop on a client's descriptor, and the scan of the eventfd, on one
-- connection.
use lswasm.Base.{ℕ, ◌-◌, min, Bool, true, false, not, ◌&&◌, ◌||◌, Option, none, some, [], ◌∷◌, ◌++◌}
use lswasm.Base.{ltb, leb, ◌==◌, if◌then◌else◌}
use lswasm.Base.{length, is_empty, take}
use lswasm.Base.{Bytes}
use lswasm.ConnectionIo.{
  ConnectionIo, init, set_header_data, feed_body, write_error, pending_write_data, advance_write,
  is_write_pending, is_finished, has_error, body_bytes_received,
}
use lswasm.Server.Request.{extract_content_length}
use lswasm.EventLoop.{
  active, submits, sends, ConnCtx, no_events, update_epoll, close_conn, Outcome, kept, erased,
  RecvResult, recv_failed, recv_again, recv_end, recv_bytes, SendResult, send_failed, send_again,
  send_taken, max_header_size, too_large, split_headers, without_in, in_state, on_bridge,
}

-- `feedBody(nullptr, 0, true)`, if there is a bridge.
abbrev pub end_body : Option ConnectionIo → Option ConnectionIo
end_body none = none
end_body (some c) = some (feed_body c [] true)

-- The branch of `EPOLLIN` where the peer has closed its direction.
abbrev pub read_end : ConnCtx → Outcome
read_end ctx =
    let ended = if ctx.body_complete then ctx.conn_io else end_body ctx.conn_io in
    in_state ctx.state (erased (close_conn ctx))
      (kept (without_in (record ctx { conn_io = ended; body_complete = true; peer_closed = true })))

-- The connection under its bridge.
abbrev pub bridged : ConnCtx → ConnectionIo → Bool → ConnCtx
bridged ctx c whole = record ctx {
  state = active;
  header_buf = [];
  conn_io = some c;
  body_complete = whole;
  body = c.body_prefix;
  delivered = [];
}

-- The headers have arrived: the bridge is made, and the request submitted.
unfoldable pub activate : ℕ → ConnCtx → Bytes → Bytes → ConnCtx
unfolding extract_content_length
activate fd ctx header_data body_prefix =
    let content_length = extract_content_length header_data in
    let c = set_header_data (init fd) header_data body_prefix content_length in
    let whole = (content_length == 0) || leb content_length (body_bytes_received c) in
    let made = bridged ctx c whole in
    let idle = if whole then update_epoll made no_events else made in
    record idle { calls = submits ∷ idle.calls }

-- The branch of `EPOLLIN` with bytes while the headers are read.
unfoldable pub read_headers : ℕ → ConnCtx → Bytes → Outcome
read_headers fd ctx bytes =
    let buf = ctx.header_buf ++ bytes in
    let grown = record ctx { header_buf = buf; received = ctx.received ++ bytes } in
    if ltb max_header_size (length buf)
    then erased (close_conn (record grown { calls = sends too_large ∷ ctx.calls }))
    else elim (split_headers buf) [
      | none ↦ kept grown
      | some (header_data, body_prefix) ↦ kept (activate fd grown header_data body_prefix)
    ]

-- `feedBody` with the first bytes of those received.
abbrev pub hand_over : ConnCtx → ConnectionIo → Bytes → ℕ → Bool → ConnCtx
hand_over ctx c bytes to_feed eof = record ctx {
  conn_io = some (feed_body c (take to_feed bytes) eof);
  received = ctx.received ++ bytes;
  body = ctx.body ++ take to_feed bytes;
}

-- The branch of `EPOLLIN` with bytes while the body is read.
unfoldable pub read_more : ConnCtx → ConnectionIo → Bytes → ConnCtx
read_more ctx c bytes =
    let remaining = c.content_length - body_bytes_received c in
    let to_feed = min (length bytes) remaining in
    let eof = leb remaining to_feed in
    let fed = hand_over ctx c bytes to_feed eof in
    if eof then without_in (record fed { body_complete = true }) else fed

-- The branch of `EPOLLIN` with bytes.
unfoldable pub read_bytes : ℕ → ConnCtx → Bytes → Outcome
read_bytes fd ctx bytes = in_state ctx.state (read_headers fd ctx bytes) (
    on_bridge ctx.conn_io (kept ctx) λ c.
      if ctx.body_complete
      then kept (record ctx { received = ctx.received ++ bytes })
      else kept (read_more ctx c bytes))

-- The branch of `EPOLLIN`.
unfoldable pub readable : ℕ → ConnCtx → RecvResult → Outcome
readable fd ctx recv_failed = erased (close_conn ctx)
readable fd ctx recv_again = kept ctx
readable fd ctx recv_end = read_end ctx
readable fd ctx (recv_bytes bytes) = read_bytes fd ctx bytes

-- Nothing is pending: close a finished connection, else stop waiting for room to send.
unfoldable pub settle_output : ConnCtx → ConnectionIo → Outcome
settle_output ctx c =
    if is_finished c
    then erased (close_conn ctx)
    else kept (update_epoll ctx (record { inp = not ctx.body_complete; out = false }))

-- What follows a `send` of `pending`.
unfoldable pub after_send : ConnCtx → ConnectionIo → SendResult → Outcome
after_send ctx c send_failed = erased (close_conn (record ctx { conn_io = some (write_error c) }))
after_send ctx c send_again = kept ctx
after_send ctx c (send_taken n) =
    let rest = advance_write c n in
    let moved = record ctx {
      conn_io = some rest;
      calls = sends (take n (pending_write_data c)) ∷ ctx.calls;
    } in
    if is_write_pending rest then kept moved else settle_output moved rest

-- The branch of `EPOLLOUT`. `pendingWriteData`, `advanceWrite`, `isWritePending` and `isFinished` are locked
-- one by one; here the turn is one step, in which the worker does nothing.
unfoldable pub writable : ConnCtx → SendResult → Outcome
writable ctx result =
    on_bridge ctx.conn_io (kept ctx)
      λ c. if is_empty (pending_write_data c) then settle_output ctx c else after_send ctx c result

-- An event on a client's descriptor: `broken` for `EPOLLERR` or `EPOLLHUP`, and the kernel's answers
-- where the other bits are set.
pub record ClientEvent : Type 0 where
  pub broken : Bool
  pub readable : Option RecvResult
  pub writable : Option SendResult

abbrev pub read_part : ℕ → ConnCtx → Option RecvResult → Outcome
read_part fd ctx none = kept ctx
read_part fd ctx (some r) = readable fd ctx r

abbrev pub write_part : Outcome → Option SendResult → Outcome
write_part (kept ctx) (some r) = writable ctx r
write_part o r = o

-- The part of the loop on a client's descriptor.
unfoldable pub client_event : ℕ → ConnCtx → ClientEvent → Outcome
client_event fd ctx ev =
    if ev.broken
    then erased (close_conn ctx)
    else write_part (read_part fd ctx ev.readable) ev.writable

-- The turn of the scan for one connection, after the eventfd has been read.
abbrev pub scan_active : ConnCtx → ConnectionIo → Outcome
scan_active ctx c =
    if has_error c
    then erased (close_conn ctx)
    else if is_finished c && not (is_write_pending c)
    then erased (close_conn ctx)
    else if is_write_pending c
    then kept (update_epoll ctx (record { inp = not ctx.body_complete; out = true }))
    else kept ctx

unfoldable pub scan : ConnCtx → Outcome
scan ctx =
    in_state ctx.state (kept ctx)
      (on_bridge ctx.conn_io (kept ctx) λ c. scan_active (record ctx { seen = c.signals }) c)
