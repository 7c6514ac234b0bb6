-- ===== src/EventLoop/Bridge.antt =====
-- What the calls of the event loop and of the worker do to a bridge.
use lswasm.Base.{
  ℕ, ◌+◌, ◌≤◌, ◌<◌, ◌≡◌, refl, sym, subst, ◌⊎◌, inl, inr, Bool, true, false, not, ◌&&◌, ◌||◌, some,
  [], ◌∷◌, ◌++◌, append-nil, arith,
}
use lswasm.Base.{ltb, leb, if_cases}
use lswasm.Base.{length, is_empty, take, take-length, drop-ne-nil}
use lswasm.Base.{Bytes}
use lswasm.ConnectionIo.{
  ConnectionIo, BodyReadResult, init, set_header_data, feed_body, read_body_chunk, write_data,
  finish, set_error, advance_write, is_write_pending, is_finished, pending_write_data,
}
use lswasm.ConnectionIo.Read.{read_body_chunk-Reads}
use lswasm.EventLoop.Invariant.{IsRunning, IsWatched}
use lswasm.EventLoop.Loop.{WorkerStep, reads, writes, finishes, fails}

-- The fields that only the event loop writes.
pub record IsSameRequest (c c' : ConnectionIo) : Type 0 where
  pub header_data : c'.header_data ≡ c.header_data
  pub body_prefix : c'.body_prefix ≡ c.body_prefix
  pub content_length : c'.content_length ≡ c.content_length
  pub body_bytes_fed : c'.body_bytes_fed ≡ c.body_bytes_fed
  pub read_eof : c'.read_eof ≡ c.read_eof
  pub read_error : c'.read_error ≡ c.read_error

-- What the worker gives the event loop to do comes with a signal.
pub record IsSignalled (c c' : ConnectionIo) : Type 0 where
  pub grows : c.signals ≤ c'.signals
  pub news :
      (c.signals < c'.signals) ⊎ ((c'.write_pending ≡ c.write_pending) × (c'.finished ≡ c.finished))

pub record Works (c : ConnectionIo) (bytes : Bytes) (c' : ConnectionIo) : Type 0 where
  pub taken : c.read_chunk ≡ bytes ++ c'.read_chunk
  pub same : IsSameRequest c c'
  pub signalled : IsSignalled c c'
  pub running : IsRunning c → IsRunning c'
  pub marked : c.write_error ≡ true → c'.write_error ≡ true

reads-Works :
    (c c' : ConnectionIo) (max : ℕ) (r : BodyReadResult)
    → read_body_chunk c max ≡ some (r, c')
    → Works c r.bytes c'
reads-Works c c' max r h =
    let d = read_body_chunk-Reads c c' max r h in
    subst (Works c r.bytes) (sym d.unchanged) (record {
      taken = sym d.split;
      same = record {
        header_data = refl;
        body_prefix = refl;
        content_length = refl;
        body_bytes_fed = refl;
        read_eof = refl;
        read_error = refl;
      };
      signalled = record { grows = omega arith; news = inr (refl, refl) };
      running =
          λ v. record { cursor = v.cursor; flag = v.flag; failed = v.failed; reader = v.reader };
      marked = λ e. e;
    })

writes-Works : (c c' : ConnectionIo) (bytes : Bytes) → write_data c bytes ≡ some c' → Works c [] c'
unfolding write_data
writes-Works c c' [] h = ground arith
writes-Works c c' (b ∷ bytes) h = ground arith

finish-Works : (c : ConnectionIo) → Works c [] (finish c)
unfolding finish
finish-Works c = ground arith

set_error-Works : (c : ConnectionIo) → Works c [] (set_error c)
unfolding set_error
set_error-Works c = ground arith

pub WorkerStep-Works :
    {c c' : ConnectionIo} {bytes : Bytes} → WorkerStep c bytes c' → Works c bytes c'
WorkerStep-Works {c} (reads max r c' h) = reads-Works c c' max r h
WorkerStep-Works {c} (writes bytes c' h) = writes-Works c c' bytes h
WorkerStep-Works {c} finishes = finish-Works c
WorkerStep-Works {c} fails = set_error-Works c

-- What feeding changes.
pub record IsFed (c : ConnectionIo) (bytes : Bytes) (eof : Bool) (c' : ConnectionIo) : Type 0 where
  pub body_prefix : c'.body_prefix ≡ c.body_prefix
  pub read_chunk : c'.read_chunk ≡ c.read_chunk ++ bytes
  pub header_data : c'.header_data ≡ c.header_data
  pub content_length : c'.content_length ≡ c.content_length
  pub body_bytes_fed : c'.body_bytes_fed ≡ c.body_bytes_fed + length bytes
  pub read_eof : c'.read_eof ≡ (eof || c.read_eof)
  pub running : IsRunning c → IsRunning c'
  pub watched : (out : Bool) (seen : ℕ) → IsWatched out seen c → IsWatched out seen c'

pub feed_body-IsFed :
    (c : ConnectionIo) (bytes : Bytes) (eof : Bool) → IsFed c bytes eof (feed_body c bytes eof)
unfolding feed_body
feed_body-IsFed c [] true = ground (arith, append-nil c.read_chunk)
feed_body-IsFed c [] false = ground (arith, append-nil c.read_chunk)
feed_body-IsFed c (b ∷ bytes) true = ground arith
feed_body-IsFed c (b ∷ bytes) false = ground arith

-- After a new bridge was filled with what has come.
pub record IsFresh (c : ConnectionIo) (headers prefix : Bytes) (n : ℕ) : Type 0 where
  pub header_data : c.header_data ≡ headers
  pub content_length : c.content_length ≡ n
  pub body_prefix : c.body_prefix ≡ take n prefix
  pub read_chunk : c.read_chunk ≡ []
  pub body_bytes_fed : c.body_bytes_fed ≡ length c.body_prefix
  pub running : IsRunning c
  pub watched : (out : Bool) → IsWatched out 0 c

pub set_header_data-IsFresh :
    (fd : ℕ) (headers prefix : Bytes) (n : ℕ)
    → IsFresh (set_header_data (init fd) headers prefix n) headers prefix n
unfolding set_header_data init
set_header_data-IsFresh fd headers prefix n = record {
  header_data = refl;
  content_length = refl;
  body_prefix =
      if_cases (λ p. p ≡ take n prefix) (ltb n (length prefix)) _ _ (λ longer. refl)
        (λ short. sym (take-length prefix n (ground (arith, short))));
  read_chunk = refl;
  body_bytes_fed = refl;
  running = ground arith;
  watched = λ out. ground arith;
}

-- Nothing is left to send and the worker has not finished: there is nothing to do.
pub settled_idle :
    (c : ConnectionIo) (out : Bool) (seen : ℕ)
    → IsRunning c
    → seen ≤ c.signals
    → c.write_buffer ≡ []
    → is_finished c ≡ false
    → IsWatched out seen c
unfolding is_finished
settled_idle c out seen v s e f = ground (arith, v.flag)

-- Nothing is pending on a running bridge exactly if its buffer is empty.
pub pending_none :
    (c : ConnectionIo) → IsRunning c → is_empty (pending_write_data c) ≡ true → c.write_buffer ≡ []
unfolding pending_write_data
pending_none c v e = elim v.cursor [
  | inl none_left ↦ none_left
  | inr inside ↦ absurd (ground (arith, e, (drop-ne-nil c.write_buffer c.write_cursor inside).0))
]

pub record IsAdvanced (c c' : ConnectionIo) : Type 0 where
  pub same : IsSameRequest c c'
  pub read_chunk : c'.read_chunk ≡ c.read_chunk
  pub running : IsRunning c → IsRunning c'
  pub watched : (out : Bool) (seen : ℕ) → IsWatched out seen c → IsWatched out seen c'
  pub drained : is_write_pending c' ≡ false → IsRunning c → c'.write_buffer ≡ []

pub advance_write-IsAdvanced : (c : ConnectionIo) (n : ℕ) → IsAdvanced c (advance_write c n)
unfolding advance_write is_write_pending
advance_write-IsAdvanced c n =
    if_cases (IsAdvanced c) (leb (length c.write_buffer) (c.write_cursor + n)) _ _
      (λ used. ground (arith, used)) (λ left. ground (arith, left))

-- A bridge that the scan leaves alone gives the event loop nothing to do.
pub scanned_idle :
    (c : ConnectionIo) (out : Bool)
    → IsRunning c
    → is_write_pending c ≡ false
    → (is_finished c && not (is_write_pending c)) ≡ false
    → IsWatched out c.signals c
unfolding is_finished is_write_pending
scanned_idle c out v p f = ground (arith, v.flag)
