-- ===== src/ConnectionIo/System.antt =====
-- A connection under every interleaving of its worker's and the event loop's calls, with the history
-- of the bytes that passed.
use lswasm.Base.{
  ℕ, ◌+◌, ◌≤◌, min, ◌≡◌, refl, sym, ap, ◌∙◌, ◌≢◌, Bool, true, false, none, some, [], ◌++◌,
  append-nil, append_assoc, arith,
}
use lswasm.Base.{if◌then◌else◌, if_cases}
use lswasm.Base.{length, take, length-append, take-append-drop, length-take}
use lswasm.Base.{Bytes}
use lswasm.ConnectionIo.{
  ConnectionIo, BodyReadResult, init, set_header_data, read_body_chunk, write_data, finish,
  set_error, feed_body, feed_error, write_error, pending_write_data, advance_write, is_finished,
  is_write_pending,
}
use lswasm.ConnectionIo.Read.{read_body_chunk-Reads}
use lswasm.ConnectionIo.Write.{
  IsDraining, write_data-Writes, write_data-IsDraining, advance_write-IsDraining,
  advance_write_frame, write_error-IsDraining, pending-advance_write, pending_write_data_lem,
  feed_body-Feeds, pending-write_error, write_data_blocked, IsQuiet, pending-IsQuiet,
  IsDraining-IsQuiet,
}

-- `fed`: handed over by the event loop; `delivered`: returned by reads; `written`: accepted by
-- writes; `sent`: gone out; `lost`: dropped by a write error.
pub record System : Type 0 where
  pub conn : ConnectionIo
  pub fed : Bytes
  pub delivered : Bytes
  pub written : Bytes
  pub sent : Bytes
  pub lost : Bytes

-- A request whose headers have been read.
abbrev pub start : ℕ → Bytes → Bytes → ℕ → System
start fd headers prefix n = record {
  conn = set_header_data (init fd) headers prefix n;
  fed = [];
  delivered = [];
  written = [];
  sent = [];
  lost = [];
}

-- A call that would wait is no step. `send` takes at most what is pending.
pub data Step : System → System → Type 0 where
  reads :
      (s : System) (max : ℕ) (r : BodyReadResult) (c' : ConnectionIo)
      → read_body_chunk s.conn max ≡ some (r, c')
      → Step s (record s { conn = c'; delivered = s.delivered ++ r.bytes })
  writes :
      (s : System) (bytes : Bytes) (c' : ConnectionIo)
      → write_data s.conn bytes ≡ some c'
      → Step s (record s {
        conn = c';
        written = if s.conn.write_error then s.written else s.written ++ bytes;
      })
  finishes : (s : System) → Step s (record s { conn = finish s.conn })
  fails : (s : System) → Step s (record s { conn = set_error s.conn })
  feeds :
      (s : System) (bytes : Bytes) (eof : Bool)
      → Step s (record s { conn = feed_body s.conn bytes eof; fed = s.fed ++ bytes })
  feed_fails : (s : System) → Step s (record s { conn = feed_error s.conn })
  sends :
      (s : System) (n : ℕ)
      → n ≤ length (pending_write_data s.conn)
      → Step s (record s {
        conn = advance_write s.conn n;
        sent = s.sent ++ take n (pending_write_data s.conn);
      })
  send_fails :
      (s : System)
      → Step s (record s { conn = write_error s.conn; lost = pending_write_data s.conn ++ s.lost })

pub data Reach (s : System) : System → Type 0 where
  here : Reach s s
  next : {t u : System} → Reach s t → Step t u → Reach s u

pub record Inv (prefix_length : ℕ) (s : System) : Type 0 where
  pub body : s.fed ≡ s.delivered ++ s.conn.read_chunk
  pub counted : s.conn.body_bytes_fed ≡ prefix_length + length s.fed
  pub output : s.written ≡ s.sent ++ (pending_write_data s.conn ++ s.lost)
  pub intact : s.conn.write_error ≡ false → s.lost ≡ []
  pub draining : IsDraining s.conn

start-Inv :
    (fd : ℕ) (headers prefix : Bytes) (n : ℕ)
    → Inv (min n (length prefix)) (start fd headers prefix n)
unfolding init set_header_data pending_write_data
start-Inv fd headers prefix n = record {
  body = refl;
  counted = ground (arith, length-take n prefix);
  output = refl;
  intact = λ _. refl;
  draining = ground arith;
}

reads-Inv :
    (k : ℕ) (s : System) (max : ℕ) (r : BodyReadResult) (c' : ConnectionIo)
    → Inv k s
    → read_body_chunk s.conn max ≡ some (r, c')
    → Inv k (record s { conn = c'; delivered = s.delivered ++ r.bytes })
reads-Inv k s max r c' v h =
    let d = read_body_chunk-Reads s.conn c' max r h in
    let pending : pending_write_data c' ≡ pending_write_data s.conn =
      pending_write_data_lem c' ∙ (rw d.unchanged (sym (pending_write_data_lem s.conn))) in
    record {
      body =
          v.body
          ∙ (ap (◌++◌ s.delivered) (sym d.split)
              ∙ sym (append_assoc s.delivered r.bytes c'.read_chunk));
      counted = ap (λ (t : ConnectionIo). t.body_bytes_fed) d.unchanged ∙ v.counted;
      output = rw pending v.output;
      intact = λ e. v.intact (ground (arith, d.unchanged));
      draining = ground (arith, d.unchanged);
    }

writes-Inv :
    (k : ℕ) (s : System) (bytes : Bytes) (c' : ConnectionIo)
    → Inv k s
    → write_data s.conn bytes ≡ some c'
    → Inv k (record s {
      conn = c';
      written = if s.conn.write_error then s.written else s.written ++ bytes;
    })
writes-Inv k s bytes c' v h =
    let d = write_data-Writes s.conn c' bytes h in
    record {
      body = rw (d.reader_kept.0) v.body;
      counted = d.reader_kept.1 ∙ v.counted;
      output =
          if_cases (λ w. w ≡ s.sent ++ (pending_write_data c' ++ s.lost)) s.conn.write_error _ _
            (λ e. rw (d.failed e) v.output)
            (λ e. simp (v.output, v.intact e, d.queued e, append-nil, append_assoc));
      intact = λ e. v.intact (sym d.error_kept ∙ e);
      draining = write_data-IsDraining s.conn c' bytes v.draining h;
    }

sends-Inv :
    (k : ℕ) (s : System) (n : ℕ)
    → Inv k s
    → Inv k (record s {
      conn = advance_write s.conn n;
      sent = s.sent ++ take n (pending_write_data s.conn);
    })
sends-Inv k s n v =
    let pending = pending_write_data s.conn in
    let frame = advance_write_frame s.conn n in
    record {
      body = rw frame.0 v.body;
      counted = frame.1 ∙ v.counted;
      output =
          v.output
          ∙ (ap (λ p. s.sent ++ (p ++ s.lost)) (sym (take-append-drop n pending))
              ∙ simp (append_assoc, pending-advance_write s.conn n));
      intact = λ e. v.intact (sym frame.2 ∙ e);
      draining = advance_write-IsDraining s.conn n v.draining;
    }

feeds-Inv :
    (k : ℕ) (s : System) (bytes : Bytes) (eof : Bool)
    → Inv k s
    → Inv k (record s { conn = feed_body s.conn bytes eof; fed = s.fed ++ bytes })
feeds-Inv k s bytes eof v =
    let d = feed_body-Feeds s.conn bytes eof in
    record {
      body = rw d.appended (rw v.body (append_assoc s.delivered s.conn.read_chunk bytes));
      counted = omega (arith, d.counted, v.counted, length-append s.fed bytes);
      output = rw d.pending_kept v.output;
      intact = λ e. v.intact (sym d.error_kept ∙ e);
      draining = d.draining v.draining;
    }

send_fails-Inv :
    (k : ℕ) (s : System)
    → Inv k s
    → Inv k (record s { conn = write_error s.conn; lost = pending_write_data s.conn ++ s.lost })
unfolding write_error
send_fails-Inv k s v = record {
  body = v.body;
  counted = v.counted;
  output = rw (pending-write_error s.conn) v.output;
  intact = λ e. cc;
  draining = write_error-IsDraining s.conn;
}

quiet-Inv :
    (k : ℕ) (s : System) (c' : ConnectionIo)
    → Inv k s
    → IsQuiet s.conn c'
    → Inv k (record s { conn = c' })
quiet-Inv k s c' v q = record {
  body = rw q.reader.0 v.body;
  counted = q.reader.1 ∙ v.counted;
  output = rw (pending-IsQuiet q) v.output;
  intact = λ e. v.intact (q.error e);
  draining = IsDraining-IsQuiet q v.draining;
}

Step-Inv : (k : ℕ) {s t : System} → Inv k s → Step s t → Inv k t
unfolding finish set_error feed_error
Step-Inv k v (reads s max r c' h) = reads-Inv k s max r c' v h
Step-Inv k v (writes s bytes c' h) = writes-Inv k s bytes c' v h
Step-Inv k v (finishes s) = quiet-Inv k s (finish s.conn) v (ground arith)
Step-Inv k v (fails s) = quiet-Inv k s (set_error s.conn) v (ground arith)
Step-Inv k v (feeds s bytes eof) = feeds-Inv k s bytes eof v
Step-Inv k v (feed_fails s) = quiet-Inv k s (feed_error s.conn) v (ground arith)
Step-Inv k v (sends s n h) = sends-Inv k s n v
Step-Inv k v (send_fails s) = send_fails-Inv k s v

pub Reach-Inv : (k : ℕ) {s t : System} → Inv k s → Reach s t → Inv k t
Reach-Inv k v here = v
Reach-Inv k v (next r st) = Step-Inv k (Reach-Inv k v r) st

-- Whatever worker and event loop do, in any order: the body bytes fed are those that reads have
-- returned, in order, followed by those still held; the bytes that writes have accepted are those sent,
-- in order, followed by those pending and those dropped by a write error; none are dropped while there
-- is no error; and the count of body bytes is exact.
pub start-Reach-Inv :
    (fd : ℕ) (headers prefix : Bytes) (n : ℕ) {s : System}
    → Reach (start fd headers prefix n) s
    → Inv (min n (length prefix)) s
start-Reach-Inv fd headers prefix n r = Reach-Inv _ (start-Inv fd headers prefix n) r

-- In any run of worker and event loop: when `isFinished` answers true and there was no write error,
-- all that the worker wrote has been sent.
pub is_finished-sent :
    (fd : ℕ) (headers prefix : Bytes) (n : ℕ) {s : System}
    → Reach (start fd headers prefix n) s
    → is_finished s.conn ≡ true
    → s.conn.write_error ≡ false
    → s.sent ≡ s.written
unfolding is_finished pending_write_data
is_finished-sent fd headers prefix n {s} r done well =
    let v = start-Reach-Inv fd headers prefix n r in
    ground (arith, v.output, v.intact well, append-nil s.sent)

-- In any run of worker and event loop: while a write waits, there are bytes pending for the event loop
-- to send, and `isWritePending` tells it so.
pub write_data_waits :
    (fd : ℕ) (headers prefix bytes : Bytes) (n : ℕ) {s : System}
    → Reach (start fd headers prefix n) s
    → write_data s.conn bytes ≡ none
    → (pending_write_data s.conn ≢ []) × (is_write_pending s.conn ≡ true)
unfolding is_write_pending
write_data_waits fd headers prefix bytes n {s} r waits =
    write_data_blocked s.conn bytes (start-Reach-Inv fd headers prefix n r).draining waits
