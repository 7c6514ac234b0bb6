-- ===== src/EventLoop/Refinement.antt =====
-- What a turn of the event loop does to the bridge of a connection are calls that ConnectionIo/System
-- allows, so that what is shown there holds of the event loop.
use lswasm.Base.{
  ℕ, zero, suc, arith, append-nil, ◌++◌, ◌∷◌, sym, subst, false, inl, inr, ◌-◌, ◌≤◌, min, ◌≡◌, refl,
  ap, ◌∙◌, Bool, true, not, ◌&&◌, Option, some, [],
}
use lswasm.Base.{leb, if_cases, if◌then◌else◌, Bool-cases}
use lswasm.Base.{length, is_empty, take, take-length}
use lswasm.Base.{Bytes}
use lswasm.ConnectionIo.{
  ConnectionIo, feed_body, feed_error, write_error, pending_write_data, advance_write,
  is_write_pending, is_finished, has_error, body_bytes_received,
}
use lswasm.ConnectionIo.System.{System, feeds, feed_fails, sends, send_fails, Reach, here, next}
use lswasm.EventLoop.{
  Events, ConnCtx, same_events, update_epoll, close_conn, abandon, Outcome, kept, erased,
  RecvResult, recv_failed, recv_again, recv_end, recv_bytes, SendResult, send_failed, send_again,
  send_taken, without_in, active_case, bridge_case,
}
use lswasm.EventLoop.Handlers.{
  end_body, read_end, hand_over, read_more, read_bytes, readable, settle_output, after_send,
  writable, scan,
}
use lswasm.EventLoop.Invariant.{IsActive}

-- Steps of ConnectionIo/System lead from any history of the one bridge to a history of the other in
-- which the event loop has fed the bytes `fed` and sent the bytes `sent`, and the worker has done nothing.
pub record IsDrivenTo (s : System) (fed sent : Bytes) (c : ConnectionIo) (t : System) : Type 0 where
  pub conn : t.conn ≡ c
  pub fed_now : t.fed ≡ s.fed ++ fed
  pub sent_now : t.sent ≡ s.sent ++ sent
  pub delivered : t.delivered ≡ s.delivered
  pub written : t.written ≡ s.written
  pub steps : Reach s t

abbrev pub Drives : ConnectionIo → Bytes → Bytes → ConnectionIo → Type 0
Drives c fed sent c' = (s : System) → s.conn ≡ c → (t : System) × IsDrivenTo s fed sent c' t

-- The bridge after a turn, whether the connection is kept or erased.
abbrev bridge_after : Outcome → Option ConnectionIo
bridge_after (kept ctx) = ctx.conn_io
bridge_after (erased ctx) = ctx.conn_io

abbrev pub IsDriven : ConnectionIo → Bytes → Bytes → Outcome → Type 0
IsDriven c fed sent o = (c' : ConnectionIo) × (bridge_after o ≡ some c') × Drives c fed sent c'

-- What `send` takes is at most what it was given.
abbrev pub IsTaken : ConnectionIo → SendResult → Type 0
IsTaken c (send_taken n) = n ≤ length (pending_write_data c)
IsTaken c r = Unit

-- What an incomplete body takes of the bytes that `recv` returned: as many as are still missing.
abbrev pub given : ConnCtx → ConnectionIo → RecvResult → Bytes
given ctx c (recv_bytes bytes) =
    if ctx.body_complete then [] else take (c.content_length - c.body_bytes_fed) bytes
given ctx c r = []

-- What has gone out to the client: as much as `send` took of the bytes that the worker had left.
abbrev pub gone_out : ConnectionIo → SendResult → Bytes
gone_out c (send_taken n) = take n (pending_write_data c)
gone_out c r = []

Drives-same : (c : ConnectionIo) → Drives c [] [] c
Drives-same c s e = (
  s,
  record {
    conn = e;
    fed_now = sym (append-nil s.fed);
    sent_now = sym (append-nil s.sent);
    delivered = refl;
    written = refl;
    steps = here;
  },
)

Drives-feed_body :
    (c : ConnectionIo) (bytes : Bytes) (eof : Bool) → Drives c bytes [] (feed_body c bytes eof)
Drives-feed_body c bytes eof s e = (
  _,
  record {
    conn = ap (λ d. feed_body d bytes eof) e;
    fed_now = refl;
    sent_now = sym (append-nil s.sent);
    delivered = refl;
    written = refl;
    steps = next here (feeds s bytes eof);
  },
)

Drives-advance_write :
    (c : ConnectionIo) (n : ℕ)
    → n ≤ length (pending_write_data c)
    → Drives c [] (take n (pending_write_data c)) (advance_write c n)
Drives-advance_write c n h s e = (
  _,
  record {
    conn = ap (λ d. advance_write d n) e;
    fed_now = sym (append-nil s.fed);
    sent_now = ap (λ d. s.sent ++ take n (pending_write_data d)) e;
    delivered = refl;
    written = refl;
    steps = next here (sends s n (rw e h));
  },
)

Drives-write_error : (c : ConnectionIo) → Drives c [] [] (write_error c)
Drives-write_error c s e = (
  _,
  record {
    conn = ap write_error e;
    fed_now = sym (append-nil s.fed);
    sent_now = sym (append-nil s.sent);
    delivered = refl;
    written = refl;
    steps = next here (send_fails s);
  },
)

Drives-feed_error : (c : ConnectionIo) → Drives c [] [] (feed_error c)
Drives-feed_error c s e = (
  _,
  record {
    conn = ap feed_error e;
    fed_now = sym (append-nil s.fed);
    sent_now = sym (append-nil s.sent);
    delivered = refl;
    written = refl;
    steps = next here (feed_fails s);
  },
)

Reach-trans : {r s t : System} → Reach r s → Reach s t → Reach r t
Reach-trans a here = a
Reach-trans a (next b st) = next (Reach-trans a b) st

-- Steps that feed and send nothing may follow.
Drives-quiet :
    (a b c : ConnectionIo) (fed sent : Bytes)
    → Drives a fed sent b
    → Drives b [] [] c
    → Drives a fed sent c
Drives-quiet a b c fed sent f g r e =
    let (s, u) = f r e in
    let (t, v) = g s u.conn in
    (
      t,
      record {
        conn = v.conn;
        fed_now = v.fed_now ∙ (append-nil s.fed ∙ u.fed_now);
        sent_now = v.sent_now ∙ (append-nil s.sent ∙ u.sent_now);
        delivered = v.delivered ∙ u.delivered;
        written = v.written ∙ u.written;
        steps = Reach-trans u.steps v.steps;
      },
    )

closed_Drives : (c : ConnectionIo) → Drives c [] [] (write_error (feed_error c))
closed_Drives c =
    Drives-quiet c (feed_error c) _ [] [] (Drives-feed_error c) (Drives-write_error (feed_error c))

take-min : (k : ℕ) (bytes : Bytes) → take (min (length bytes) k) bytes ≡ take k bytes
take-min k bytes = elim (Bool-cases (leb (length bytes) k)) [
  | inl short ↦
      let e : min (length bytes) k ≡ length bytes = ground (arith, short) in
      ap (λ n. take n bytes) e
      ∙ (take-length bytes (length bytes) (omega arith)
          ∙ sym (take-length bytes k (ground (arith, short))))
  | inr long ↦ let e : min (length bytes) k ≡ k = ground (arith, long) in ap (λ n. take n bytes) e
]

take-nil : (n : ℕ) (bytes : Bytes) → is_empty bytes ≡ true → take n bytes ≡ []
take-nil zero [] e = refl
take-nil (suc n) [] e = refl
take-nil n (b ∷ bytes) e = absurd (ground (arith, e))

-- Two conditionals on the same test.
both_cases :
    (P : Bytes → Outcome → Type 0) (b : Bool) (x y : Bytes) (o p : Outcome)
    → (b ≡ true → P x o)
    → (b ≡ false → P y p)
    → P (if b then x else y) (if b then o else p)
both_cases P true x y o p f g = f refl
both_cases P false x y o p f g = g refl

close_conn_bridge :
    (ctx : ConnCtx) (c : ConnectionIo)
    → ctx.conn_io ≡ some c
    → (close_conn ctx).conn_io ≡ some (write_error (feed_error c))
unfolding close_conn
close_conn_bridge ctx c e = ap abandon e

update_epoll_bridge : (ctx : ConnCtx) (e : Events) → (update_epoll ctx e).conn_io ≡ ctx.conn_io
unfolding update_epoll
update_epoll_bridge ctx e =
    if_cases (λ (x : ConnCtx). x.conn_io ≡ ctx.conn_io) (same_events e ctx.epoll_events) _ _
      (λ h. refl) (λ h. refl)

-- The bridge is `c'` after calls on `c`, and the connection is closed or its registration changed.
closed-IsDriven :
    (ctx : ConnCtx) (c c' : ConnectionIo) (fed sent : Bytes)
    → ctx.conn_io ≡ some c'
    → Drives c fed sent c'
    → IsDriven c fed sent (erased (close_conn ctx))
closed-IsDriven ctx c c' fed sent e d =
    (_, close_conn_bridge ctx c' e, Drives-quiet c c' _ fed sent d (closed_Drives c'))

updated-IsDriven :
    (ctx : ConnCtx) (c c' : ConnectionIo) (fed sent : Bytes) (e : Events)
    → ctx.conn_io ≡ some c'
    → Drives c fed sent c'
    → IsDriven c fed sent (kept (update_epoll ctx e))
updated-IsDriven ctx c c' fed sent e h d = (c', update_epoll_bridge ctx e ∙ h, d)

settle_output-IsDriven :
    (ctx : ConnCtx) (c c' : ConnectionIo) (fed sent : Bytes)
    → ctx.conn_io ≡ some c'
    → Drives c fed sent c'
    → IsDriven c fed sent (settle_output ctx c')
unfolding settle_output
settle_output-IsDriven ctx c c' fed sent e d =
    if_cases (IsDriven c fed sent) (is_finished c') _ _ (λ h. closed-IsDriven ctx c c' fed sent e d)
      (λ h. updated-IsDriven ctx c c' fed sent _ e d)

module _ (ctx : ConnCtx) (c : ConnectionIo) (v : IsActive ctx c) where
  same : Drives c [] [] c
  same = Drives-same c

  bridge : ctx.conn_io ≡ some c
  bridge = v.served.conn

  -- A turn that neither feeds nor sends.
  abbrev IsQuiet : Outcome → Type 0
  IsQuiet o = IsDriven c [] [] o

  read_end-IsQuiet : IsQuiet (read_end ctx)
  read_end-IsQuiet =
      let ends = λ (o : Option ConnectionIo). IsQuiet (
        kept (without_in (record ctx { conn_io = o; body_complete = true; peer_closed = true }))) in
      active_case IsQuiet _ _ v.served.state (
        if_cases ends ctx.body_complete ctx.conn_io (end_body ctx.conn_io)
          (λ done. updated-IsDriven _ c c [] [] _ bridge same)
          (λ going.
            updated-IsDriven _ c (feed_body c [] true) [] [] _ (ap end_body bridge)
              (Drives-feed_body c [] true)))

  read_more-IsDriven :
      (bytes : Bytes)
      → IsDriven c
          (take (c.content_length - c.body_bytes_fed) bytes)
          []
          (kept (read_more ctx c bytes))
  unfolding read_more body_bytes_received
  read_more-IsDriven bytes =
      let k = min (length bytes) (c.content_length - c.body_bytes_fed) in
      let eof = leb (c.content_length - c.body_bytes_fed) k in
      let fed = hand_over ctx c bytes k eof in
      let all = take (c.content_length - c.body_bytes_fed) bytes in
      let fed_bridge = feed_body c (take k bytes) eof in
      let moved : Drives c all [] fed_bridge =
        subst (λ b. Drives c b [] fed_bridge) (take-min (c.content_length - c.body_bytes_fed) bytes)
          (Drives-feed_body c (take k bytes) eof) in
      if_cases (λ (x : ConnCtx). IsDriven c all [] (kept x)) eof
        (without_in (record fed { body_complete = true })) fed
        (λ ends.
          updated-IsDriven (record fed { body_complete = true }) c fed_bridge all [] _ refl moved)
        (λ goes. (fed_bridge, refl, moved))

  read_bytes-IsDriven :
      (fd : ℕ) (bytes : Bytes)
      → IsDriven c (given ctx c (recv_bytes bytes)) [] (read_bytes fd ctx bytes)
  unfolding read_bytes
  read_bytes-IsDriven fd bytes =
      let P = IsDriven c (given ctx c (recv_bytes bytes)) [] in
      active_case P _ _ v.served.state (
        bridge_case P _ _ bridge (
          both_cases (λ fed o. IsDriven c fed [] o) ctx.body_complete _ _ _ _
            (λ done. (c, bridge, same)) (λ going. read_more-IsDriven bytes)))

  readable-IsDriven : (fd : ℕ) (r : RecvResult) → IsDriven c (given ctx c r) [] (readable fd ctx r)
  unfolding readable
  readable-IsDriven fd recv_failed = closed-IsDriven ctx c c [] [] bridge same
  readable-IsDriven fd recv_again = (c, bridge, same)
  readable-IsDriven fd recv_end = read_end-IsQuiet
  readable-IsDriven fd (recv_bytes bytes) = read_bytes-IsDriven fd bytes

  after_send-IsDriven :
      (w : SendResult) → IsTaken c w → IsDriven c [] (gone_out c w) (after_send ctx c w)
  unfolding after_send
  after_send-IsDriven send_failed h =
      closed-IsDriven _ c (write_error c) [] [] refl (Drives-write_error c)
  after_send-IsDriven send_again h = (c, bridge, same)
  after_send-IsDriven (send_taken n) h =
      let out = take n (pending_write_data c) in
      let moved = Drives-advance_write c n h in
      if_cases (IsDriven c [] out) (is_write_pending (advance_write c n)) _ _
        (λ more. (advance_write c n, refl, moved))
        (λ drained. settle_output-IsDriven _ c (advance_write c n) [] out refl moved)

  nothing_out : (w : SendResult) → is_empty (pending_write_data c) ≡ true → gone_out c w ≡ []
  nothing_out send_failed e = refl
  nothing_out send_again e = refl
  nothing_out (send_taken n) e = take-nil n (pending_write_data c) e

  writable-IsDriven : (w : SendResult) → IsTaken c w → IsDriven c [] (gone_out c w) (writable ctx w)
  unfolding writable
  writable-IsDriven w h =
      let P = IsDriven c [] (gone_out c w) in
      bridge_case P _ _ bridge (
        if_cases P (is_empty (pending_write_data c)) _ _
          (λ none_left.
            subst (λ out. IsDriven c [] out (settle_output ctx c)) (sym (nothing_out w none_left))
              (settle_output-IsDriven ctx c c [] [] bridge same))
          (λ some_left. after_send-IsDriven w h))

  scan-IsQuiet : IsQuiet (scan ctx)
  unfolding scan
  scan-IsQuiet =
      let now = record ctx { seen = c.signals } in
      let closed = closed-IsDriven now c c [] [] bridge same in
      active_case IsQuiet _ _ v.served.state (
        bridge_case IsQuiet _ _ bridge (
          if_cases IsQuiet (has_error c) _ _ (λ e. closed)
            λ e.
              if_cases IsQuiet (is_finished c && not (is_write_pending c)) _ _ (λ e. closed)
                λ e.
                  if_cases IsQuiet (is_write_pending c) _ _
                    (λ e. updated-IsDriven now c c [] [] _ bridge same) (λ e. (c, bridge, same))))

-- For an active connection, the steps of ConnectionIo/System lead from any history of its bridge to one
-- of its bridge after a branch of the event loop. In `EPOLLIN` what is fed are the bytes that `recv`
-- returned, as many as are missing of an incomplete body; in `EPOLLOUT` what is sent are the pending
-- bytes, as many as `send` took, which is no more than it was given; the scan and the closing feed and
-- send nothing.
pub turns-IsDriven :
    (fd : ℕ) (ctx : ConnCtx) (c : ConnectionIo) (r : RecvResult) (w : SendResult)
    → IsActive ctx c
    → IsTaken c w
    → IsDriven c (given ctx c r) [] (readable fd ctx r)
      × IsDriven c [] (gone_out c w) (writable ctx w)
      × IsDriven c [] [] (scan ctx)
      × IsDriven c [] [] (erased (close_conn ctx))
turns-IsDriven fd ctx c r w v h = (
  readable-IsDriven ctx c v fd r,
  writable-IsDriven ctx c v w h,
  scan-IsQuiet ctx c v,
  closed-IsDriven ctx c c [] [] v.served.conn (Drives-same c),
)
