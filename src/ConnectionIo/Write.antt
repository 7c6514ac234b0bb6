-- ===== src/ConnectionIo/Write.antt =====
-- The write side: what is pending, and how sending uses it up.
use lswasm.Base.{
  ℕ, ◌+◌, ◌<◌, ◌≡◌, refl, sym, ap, ap₂, ◌∙◌, ◌≢◌, ◌⊎◌, Bool, true, false, not, none, some, [], ◌∷◌,
  ◌++◌, append-nil, arith,
}
use lswasm.Base.{leb, leb→le, if_cases}
use lswasm.Base.{length, is_empty, drop, drop-length, drop-drop, drop-ne-nil}
use lswasm.Base.{Bytes}
use lswasm.ConnectionIo.{
  ConnectionIo, write_data, pending_write_data, advance_write, write_error, feed_body,
}

pub pending_write_data_lem :
    (c : ConnectionIo) → pending_write_data c ≡ drop c.write_cursor c.write_buffer
unfolding pending_write_data
pending_write_data_lem c =
    if_cases (λ p. p ≡ drop c.write_cursor c.write_buffer)
      (leb (length c.write_buffer) c.write_cursor) _ _
      (λ used. sym (drop-length c.write_buffer c.write_cursor (leb→le _ _ used))) (λ left. refl)

-- Sending `n` bytes takes them off the front.
pub pending-advance_write :
    (c : ConnectionIo) (n : ℕ)
    → pending_write_data (advance_write c n) ≡ drop n (pending_write_data c)
pending-advance_write c n =
    pending_write_data_lem (advance_write c n)
    ∙ (left ∙ ap (drop n) (sym (pending_write_data_lem c)))
  where
    left :
        drop (advance_write c n).write_cursor (advance_write c n).write_buffer
        ≡ drop n (drop c.write_cursor c.write_buffer)
    left = rw drop-drop (
        unfold advance_write in
        if_cases
          (λ (d : ConnectionIo).
            drop d.write_cursor d.write_buffer ≡ drop (c.write_cursor + n) c.write_buffer)
          (leb (length c.write_buffer) (c.write_cursor + n)) _ _
          (λ used. sym (drop-length c.write_buffer (c.write_cursor + n) (leb→le _ _ used)))
          (λ left'. refl))

-- A full buffer is never empty behind its cursor, and no error leaves the pending flag in step.
pub record IsDraining (c : ConnectionIo) : Type 0 where
  pub cursor : (c.write_buffer ≡ []) ⊎ (c.write_cursor < length c.write_buffer)
  pub flag : c.write_error ≡ false → c.write_pending ≡ not (is_empty c.write_buffer)

-- Neither the buffers nor what is read from them have changed, and no error is undone.
pub record IsQuiet (c c' : ConnectionIo) : Type 0 where
  pub reader : (c'.read_chunk ≡ c.read_chunk) × (c'.body_bytes_fed ≡ c.body_bytes_fed)
  pub writer :
      (c'.write_buffer ≡ c.write_buffer)
      × (c'.write_cursor ≡ c.write_cursor)
      × (c'.write_pending ≡ c.write_pending)
  pub error : c'.write_error ≡ false → c.write_error ≡ false

pub pending-IsQuiet :
    {c c' : ConnectionIo} → IsQuiet c c' → pending_write_data c' ≡ pending_write_data c
pending-IsQuiet {c} {c'} q =
    pending_write_data_lem c' ∙ (ap₂ drop q.writer.1 q.writer.0 ∙ sym (pending_write_data_lem c))

pub IsDraining-IsQuiet : {c c' : ConnectionIo} → IsQuiet c c' → IsDraining c → IsDraining c'
IsDraining-IsQuiet q d = ground (arith, q.error)

pub advance_write-IsDraining :
    (c : ConnectionIo) (n : ℕ) → IsDraining c → IsDraining (advance_write c n)
unfolding advance_write
advance_write-IsDraining c n d = ground arith

pub advance_write_frame :
    (c : ConnectionIo) (n : ℕ)
    → ((advance_write c n).read_chunk ≡ c.read_chunk)
      × ((advance_write c n).body_bytes_fed ≡ c.body_bytes_fed)
      × ((advance_write c n).write_error ≡ c.write_error)
unfolding advance_write
advance_write_frame c n = ground arith

pub write_error-IsDraining : (c : ConnectionIo) → IsDraining (write_error c)
unfolding write_error
write_error-IsDraining c = ground arith

pub write_data-IsDraining :
    (c c' : ConnectionIo) (bytes : Bytes)
    → IsDraining c
    → write_data c bytes ≡ some c'
    → IsDraining c'
unfolding write_data
write_data-IsDraining c c' [] d h = ground arith
write_data-IsDraining c c' (b ∷ bytes) d h = ground arith

-- What a write that does not wait does: nothing after an error, else the bytes become pending; it
-- never meets bytes still pending, unless it has none of its own.
pub record Writes (c : ConnectionIo) (bytes : Bytes) (c' : ConnectionIo) : Type 0 where
  pub failed : c.write_error ≡ true → pending_write_data c' ≡ pending_write_data c
  pub queued : c.write_error ≡ false → pending_write_data c' ≡ pending_write_data c ++ bytes
  pub error_kept : c'.write_error ≡ c.write_error
  pub reader_kept : (c'.read_chunk ≡ c.read_chunk) × (c'.body_bytes_fed ≡ c.body_bytes_fed)

pub write_data-Writes :
    (c c' : ConnectionIo) (bytes : Bytes) → write_data c bytes ≡ some c' → Writes c bytes c'
unfolding write_data pending_write_data
write_data-Writes c c' [] h = ground (arith, append-nil (pending_write_data c))
write_data-Writes c c' (b ∷ bytes) h = ground arith

-- What the event loop feeds is appended to the chunk and counted; the write side stays as it was.
pub record Feeds (c : ConnectionIo) (bytes : Bytes) (c' : ConnectionIo) : Type 0 where
  pub appended : c'.read_chunk ≡ c.read_chunk ++ bytes
  pub counted : c'.body_bytes_fed ≡ c.body_bytes_fed + length bytes
  pub pending_kept : pending_write_data c' ≡ pending_write_data c
  pub error_kept : c'.write_error ≡ c.write_error
  pub draining : IsDraining c → IsDraining c'

pub feed_body-Feeds :
    (c : ConnectionIo) (bytes : Bytes) (eof : Bool) → Feeds c bytes (feed_body c bytes eof)
unfolding feed_body pending_write_data
feed_body-Feeds c [] true = record {
  appended = sym (append-nil c.read_chunk);
  counted = omega arith;
  pending_kept = refl;
  error_kept = refl;
  draining = λ d. record { cursor = d.cursor; flag = d.flag };
}
feed_body-Feeds c [] false = record {
  appended = sym (append-nil c.read_chunk);
  counted = omega arith;
  pending_kept = refl;
  error_kept = refl;
  draining = λ d. record { cursor = d.cursor; flag = d.flag };
}
feed_body-Feeds c (b ∷ bytes) eof = ground arith

pub pending-write_error : (c : ConnectionIo) → pending_write_data (write_error c) ≡ []
unfolding write_error
pending-write_error c =
    pending_write_data_lem (write_error c) ∙ drop-length [] c.write_cursor (omega arith)

-- A write waits only if bytes are pending, and then the flag that the event loop reads is set.
pub write_data_blocked :
    (c : ConnectionIo) (bytes : Bytes)
    → IsDraining c
    → write_data c bytes ≡ none
    → (pending_write_data c ≢ []) × (c.write_pending ≡ true)
unfolding write_data
write_data_blocked c bytes d waits =
    let full : c.write_buffer ≢ [] = ground arith in
    let well : c.write_error ≡ false = ground arith in
    let inside : c.write_cursor < length c.write_buffer = ground arith in
    (
      rw (pending_write_data_lem c) ((drop-ne-nil c.write_buffer c.write_cursor inside).1),
      ground (arith, d.flag well),
    )
