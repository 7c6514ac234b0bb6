-- ===== src/ConnectionIo/Tests.antt =====
-- Runs of the methods of `ConnectionIO`, and their theorems at concrete inputs.
use lswasm.Base.{◌≡◌, refl, ◌≢◌, true, false, some, [], ◌∷◌, arith}
use lswasm.ConnectionIo.{
  ConnectionIo, more, init, set_header_data, read_body_chunk, write_data, feed_body, finish,
  advance_write, pending_write_data, is_finished, is_write_pending,
}
use lswasm.ConnectionIo.Read.{Reads, read_body_chunk-Reads}
use lswasm.ConnectionIo.System.{
  System, start, Reach, Inv, start-Reach-Inv, is_finished-sent, write_data_waits,
}
use lswasm.ConnectionIo.System.{here, next, feeds, reads, writes, sends, finishes}

-- Five bytes are announced, two of them have come with the headers, and two more are fed.
abbrev opened : System
opened = start 4 [] (1 ∷ 2 ∷ []) 5

abbrev fed_conn : ConnectionIo
fed_conn = record (opened.conn) {
  read_chunk = 3 ∷ 4 ∷ [];
  body_bytes_fed = 4;
  read_data_ready = true;
}

abbrev read_conn : ConnectionIo
read_conn = record fed_conn { read_chunk = 4 ∷ [] }

abbrev written_conn : ConnectionIo
written_conn = record read_conn { write_buffer = 9 ∷ 8 ∷ []; write_pending = true; signals = 1 }

first_read : read_body_chunk fed_conn 1 ≡ some (record { bytes = 3 ∷ []; status = more }, read_conn)
unfolding read_body_chunk set_header_data init
first_read = refl

feeds_runs : feed_body opened.conn (3 ∷ 4 ∷ []) false ≡ fed_conn
unfolding feed_body set_header_data init
feeds_runs = refl

-- What the system holds after feeding, reading a byte and writing two.
abbrev busy : System
busy = record {
  conn = written_conn;
  fed = 3 ∷ 4 ∷ [];
  delivered = 3 ∷ [];
  written = 9 ∷ 8 ∷ [];
  sent = [];
  lost = [];
}

busy_reached : Reach opened busy
unfolding feed_body read_body_chunk write_data set_header_data init
busy_reached =
    next
      (next (next here (feeds opened (3 ∷ 4 ∷ []) false))
        (reads _ 1 (record { bytes = 3 ∷ []; status = more }) read_conn refl))
      (writes _ (9 ∷ 8 ∷ []) written_conn refl)

abbrev drained_conn : ConnectionIo
drained_conn = record read_conn { finished = true; signals = 2 }

abbrev drained : System
drained = record busy { conn = drained_conn; sent = 9 ∷ 8 ∷ [] }

drained_reached : Reach opened drained
unfolding feed_body read_body_chunk write_data set_header_data init finish advance_write
    pending_write_data
drained_reached = next (next busy_reached (finishes _)) (sends _ 2 (omega arith))

read_body_chunk-Reads_example :
    Reads fed_conn 1 (record { bytes = 3 ∷ []; status = more }) read_conn
read_body_chunk-Reads_example = read_body_chunk-Reads fed_conn read_conn 1 _ first_read

start-Reach-Inv_example : Inv 2 busy
start-Reach-Inv_example = start-Reach-Inv 4 [] (1 ∷ 2 ∷ []) 5 busy_reached

is_finished-sent_example : drained.sent ≡ drained.written
unfolding is_finished set_header_data init
is_finished-sent_example = is_finished-sent 4 [] (1 ∷ 2 ∷ []) 5 drained_reached refl refl

write_data_waits_example :
    (pending_write_data written_conn ≢ []) × (is_write_pending written_conn ≡ true)
unfolding write_data set_header_data init
write_data_waits_example = write_data_waits 4 [] (1 ∷ 2 ∷ []) (7 ∷ []) 5 busy_reached refl
