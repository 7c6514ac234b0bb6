-- ===== src/ConnectionIo.antt =====
-- src/connection_io.h: the buffers between a worker thread and the event loop. Each method runs under
-- its mutex, so it is one step; a method that waits on a condition variable is `none` while it waits.
-- `writeData` and `finish` write to the eventfd under the mutex, `setError` behind it: `signals` counts
-- its write from the moment that its flags are set, as given or about to be given.
pub mod Read
pub mod Write
pub mod System
pub mod Tests
use lswasm.Base.{ℕ, ◌+◌, Bool, true, false, not, ◌&&◌, ◌||◌, Option, none, some, [], ◌++◌}
use lswasm.Base.{ltb, leb, if◌then◌else◌}
use lswasm.Base.{length, is_empty, take, drop}
use lswasm.Base.{Bytes}

-- `BodyReadStatus`: Data, Complete, Truncated, Error.
pub data BodyReadStatus : Type 0 where
  more complete truncated error : BodyReadStatus

-- `BodyReadResult`
pub record BodyReadResult : Type 0 where
  pub bytes : Bytes
  pub status : BodyReadStatus

-- The fields of `ConnectionIO`. `signals` counts the writes to `event_fd_`, given or about to be given.
pub record ConnectionIo : Type 0 where
  pub fd : ℕ
  pub header_data : Bytes
  pub body_prefix : Bytes
  pub content_length : ℕ
  pub read_chunk : Bytes
  pub body_bytes_fed : ℕ
  pub read_data_ready : Bool
  pub read_eof : Bool
  pub read_error : Bool
  pub write_buffer : Bytes
  pub write_cursor : ℕ
  pub write_pending : Bool
  pub finished : Bool
  pub write_error : Bool
  pub signals : ℕ

-- The constructor.
unfoldable pub init : ℕ → ConnectionIo
init fd = record {
  fd = fd;
  header_data = [];
  body_prefix = [];
  content_length = 0;
  read_chunk = [];
  body_bytes_fed = 0;
  read_data_ready = false;
  read_eof = false;
  read_error = false;
  write_buffer = [];
  write_cursor = 0;
  write_pending = false;
  finished = false;
  write_error = false;
  signals = 0;
}

-- `setHeaderData`: `resize` cuts the prefix to the announced length.
unfoldable pub set_header_data : ConnectionIo → Bytes → Bytes → ℕ → ConnectionIo
set_header_data c headers prefix content_length =
    let kept = if ltb content_length (length prefix) then take content_length prefix else prefix in
    record c {
      header_data = headers;
      body_prefix = kept;
      content_length = content_length;
      body_bytes_fed = length kept;
    }

-- `bodyCompleteLocked`
abbrev pub body_complete : ConnectionIo → Bool
body_complete c = leb c.content_length c.body_bytes_fed

-- What `readBodyChunk` waits for.
abbrev pub read_ready : ConnectionIo → ℕ → Bool
read_ready c max_chunk =
    leb max_chunk (length c.read_chunk) || (body_complete c || (c.read_eof || c.read_error))

-- The status of a read that has left `rest` behind.
abbrev status_after : ConnectionIo → Bytes → BodyReadStatus
status_after c rest =
    if is_empty rest
    then (if body_complete c
        then complete
        else if c.read_error
        then error
        else if c.read_eof
        then truncated
        else more)
    else more

-- The second part of `readBodyChunk`: cut the chunk, clear the flag, choose the status.
take_chunk : ConnectionIo → ℕ → BodyReadResult × ConnectionIo
take_chunk c max_chunk =
    let whole = leb (length c.read_chunk) max_chunk in
    let result = if whole then c.read_chunk else take max_chunk c.read_chunk in
    let rest = if whole then [] else drop max_chunk c.read_chunk in
    (
      record { bytes = result; status = status_after c rest },
      record c {
        read_chunk = rest;
        read_data_ready = if is_empty rest then false else c.read_data_ready;
      },
    )

-- `readBodyChunk` once its wait is over.
read_awake : ConnectionIo → ℕ → BodyReadResult × ConnectionIo
unfolding take_chunk
read_awake c max_chunk =
    if is_empty c.read_chunk
    then (if body_complete c
        then (record { bytes = []; status = complete }, c)
        else if c.read_error
        then (record { bytes = []; status = error }, c)
        else if c.read_eof
        then (record { bytes = []; status = truncated }, c)
        else take_chunk c max_chunk)
    else take_chunk c max_chunk

-- `readBodyChunk`
unfoldable pub read_body_chunk : ConnectionIo → ℕ → Option (BodyReadResult × ConnectionIo)
unfolding read_awake
read_body_chunk c max_chunk = if read_ready c max_chunk then some (read_awake c max_chunk) else none

-- What `writeData` waits for.
abbrev pub write_ready : ConnectionIo → Bool
write_ready c = is_empty c.write_buffer || c.write_error

-- `signal_eventfd`
abbrev signal_eventfd : ConnectionIo → ConnectionIo
signal_eventfd c = record c { signals = c.signals + 1 }

-- `writeData`, both overloads.
unfoldable pub write_data : ConnectionIo → Bytes → Option ConnectionIo
write_data c bytes =
    if is_empty bytes
    then some c
    else if write_ready c
    then (if c.write_error
        then some c
        else some (
            signal_eventfd
              (record c { write_buffer = bytes; write_cursor = 0; write_pending = true })))
    else none

-- `finish`
unfoldable pub finish : ConnectionIo → ConnectionIo
finish c = signal_eventfd (record c { finished = true })

-- `setError`: the flags under the lock; the signal that follows it is counted with them.
unfoldable pub set_error : ConnectionIo → ConnectionIo
set_error c = signal_eventfd (record c { write_error = true; finished = true })

-- `feedBody`
unfoldable pub feed_body : ConnectionIo → Bytes → Bool → ConnectionIo
feed_body c bytes eof =
    let fed =
      if ltb 0 (length bytes)
      then record c {
        read_chunk = c.read_chunk ++ bytes;
        body_bytes_fed = c.body_bytes_fed + length bytes;
        read_data_ready = true;
      }
      else c in
    if eof then record fed { read_eof = true } else fed

-- `feedError`
unfoldable pub feed_error : ConnectionIo → ConnectionIo
feed_error c = record c { read_error = true }

-- `writeError`
unfoldable pub write_error : ConnectionIo → ConnectionIo
write_error c = record c { write_error = true; write_buffer = [] }

-- `pendingWriteData`
unfoldable pub pending_write_data : ConnectionIo → Bytes
pending_write_data c =
    if leb (length c.write_buffer) c.write_cursor then [] else drop c.write_cursor c.write_buffer

-- `advanceWrite`
unfoldable pub advance_write : ConnectionIo → ℕ → ConnectionIo
advance_write c n =
    let cursor = c.write_cursor + n in
    if leb (length c.write_buffer) cursor
    then record c { write_buffer = []; write_cursor = 0; write_pending = false }
    else record c { write_cursor = cursor }

-- `isWritePending`, `isFinished`, `hasError`, `needsMoreBody`, `bodyBytesReceived`
unfoldable pub is_write_pending : ConnectionIo → Bool
is_write_pending c = c.write_pending

unfoldable pub is_finished : ConnectionIo → Bool
is_finished c = c.finished && is_empty c.write_buffer

unfoldable pub has_error : ConnectionIo → Bool
has_error c = c.write_error

unfoldable pub needs_more_body : ConnectionIo → Bool
needs_more_body c = ltb c.body_bytes_fed c.content_length && (not c.read_eof && not c.read_error)

unfoldable pub body_bytes_received : ConnectionIo → ℕ
body_bytes_received c = c.body_bytes_fed
