-- ===== src/ResponseSink/Framing.antt =====
-- A streamed body as its reader sees it.
use lswasm.Base.{
  ℕ, zero, suc, ◌^◌, ◌<◌, ◌≡◌, refl, sym, ap, ◌∙◌, true, false, some, List, [], ◌∷◌, ◌++◌,
  append-nil, append_assoc, arith,
}
use lswasm.Base.{if◌then◌else◌}
use lswasm.Base.{length, is_empty, length-append}
use lswasm.Base.{Bytes}
use lswasm.Base.{numeral, length-numeral}
use lswasm.HttpUtils.{crlf}
use lswasm.ResponseSink.Http.{
  HttpResponseSink, size_line, chunk, terminator, write_body, finish_body,
}
use lswasm.ResponseSink.Chunked.{dechunk, prepend, dechunk-chunk, dechunk-terminator}

-- `writeBody` for each part in turn.
unfoldable pub write_bodies : HttpResponseSink → List Bytes → HttpResponseSink
write_bodies s [] = s
write_bodies s (part ∷ parts) = write_bodies (write_body s part).1 parts

-- All bytes of the parts, in order.
abbrev pub concat : List Bytes → Bytes
concat [] = []
concat (part ∷ parts) = part ++ concat parts

-- The sink is connected, streams, and has met no error.
pub record IsStreaming (s : HttpResponseSink) : Type 0 where
  pub connected : s.conn ≡ true
  pub streams : s.streaming ≡ true
  pub well : s.error ≡ false

abbrev pub chunks : List Bytes → List Bytes
chunks [] = []
chunks (part ∷ parts) = if is_empty part then chunks parts else chunk part ∷ chunks parts

write_bodies_lem :
    (parts : List Bytes) (s : HttpResponseSink)
    → IsStreaming s
    → write_bodies s parts ≡ record s { writes = s.writes ++ chunks parts }
unfolding write_bodies write_body
write_bodies_lem [] s v = ground (arith, append-nil s.writes)
write_bodies_lem ([] ∷ parts) s v = ground (arith, write_bodies_lem parts s)
write_bodies_lem ((b ∷ part) ∷ parts) s v =
    let one = chunk (b ∷ part) ∷ [] in
    ground (
      arith,
      write_bodies_lem parts (record s { writes = s.writes ++ one }),
      append_assoc s.writes one (chunks parts),
    )

dechunk-chunks :
    (fuel : ℕ) (parts : List Bytes) (rest : Bytes)
    → length parts < fuel
    → dechunk fuel (concat (chunks parts) ++ (terminator ++ rest)) ≡ some (concat parts, rest)
dechunk-chunks zero parts rest h = elim h [ ]
dechunk-chunks (suc fuel) [] rest h = dechunk-terminator fuel rest
dechunk-chunks (suc fuel) ([] ∷ parts) rest h = dechunk-chunks (suc fuel) parts rest (omega arith)
dechunk-chunks (suc fuel) ((b ∷ part) ∷ parts) rest h =
    rw (append_assoc (chunk (b ∷ part)) (concat (chunks parts)) (terminator ++ rest)) (
      dechunk-chunk fuel (b ∷ part) (concat (chunks parts) ++ (terminator ++ rest)) (λ e. cc)
      ∙ ap (prepend (b ∷ part)) (dechunk-chunks fuel parts rest (omega arith)))

concat-append : (xs ys : List Bytes) → concat (xs ++ ys) ≡ concat xs ++ concat ys
concat-append [] ys = refl
concat-append (x ∷ xs) ys = rw (concat-append xs ys) (sym (append_assoc x (concat xs) (concat ys)))

pub chunks-append :
    (parts : List Bytes) (part : Bytes)
    → chunks (parts ++ (part ∷ []))
      ≡ chunks parts ++ (if is_empty part then [] else chunk part ∷ [])
chunks-append [] part = ground arith
chunks-append (p ∷ parts) part = ground (arith, chunks-append parts part)

-- Whatever follows the body, all chunks and the terminator are read back.
pub dechunk-body :
    (parts : List Bytes) (rest : Bytes)
    → dechunk (suc (length parts)) (concat (chunks parts ++ (terminator ∷ [])) ++ rest)
      ≡ some (concat parts, rest)
dechunk-body parts rest =
    rw (concat-append (chunks parts) (terminator ∷ []), append_assoc)
      (dechunk-chunks (suc (length parts)) parts rest (omega arith))

-- Whatever parts a filter writes to a streaming sink, empty ones among them, before it finishes the
-- body: what is handed to the connection after the headers is read back by a chunked decoder as
-- exactly these bytes in order, and the decoder stops where the response ends.
pub stream-dechunk :
    (s : HttpResponseSink) (parts : List Bytes) (rest : Bytes)
    → IsStreaming s
    → (out : List Bytes) × ((finish_body (write_bodies s parts)).0 ≡ true)
      × ((finish_body (write_bodies s parts)).1 ≡ record s { writes = s.writes ++ out })
      × (dechunk (suc (length parts)) (concat out ++ rest) ≡ some (concat parts, rest))
unfolding finish_body
stream-dechunk s parts rest v =
    let e = write_bodies_lem parts s v in
    (
      chunks parts ++ (terminator ∷ []),
      ground (arith, e),
      ground (arith, e, append_assoc s.writes (chunks parts) (terminator ∷ [])),
      dechunk-body parts rest,
    )

-- `size_buf[24]` is large enough for the size line and its NUL, for every `size_t`.
pub size_line_fits : (bytes : Bytes) → length bytes < 2 ^ 64 → length (size_line bytes) < 24
size_line_fits bytes h = omega (
  arith,
  length-append (numeral 16 (length bytes)) crlf,
  length-numeral 16 15 (length bytes) (omega arith) (omega arith),
)
