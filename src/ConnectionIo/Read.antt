-- ===== src/ConnectionIo/Read.antt =====
-- What `readBodyChunk` returns, and when it waits.
use lswasm.Base.{
  ℕ, ◌≤◌, ◌<◌, ◌≡◌, refl, ap, ◌≢◌, ◌↔◌, ◌⊎◌, inl, inr, true, false, none, some, [], ◌++◌,
  append-nil, arith,
}
use lswasm.Base.{leb, leb→le, Bool-cases, if_cases}
use lswasm.Base.{length, is_empty, take-append-drop, length-take, drop-ne-nil}
use lswasm.ConnectionIo.{
  ConnectionIo, BodyReadStatus, BodyReadResult, more, complete, truncated, error, body_complete,
  read_ready, status_after, take_chunk, read_awake, read_body_chunk, needs_more_body,
}

-- Why a read ends with this status; only `more` leaves bytes behind or promises further ones.
abbrev pub Explains : ConnectionIo → ℕ → BodyReadResult → ConnectionIo → BodyReadStatus → Type 0
Explains c max r c' more =
    (c'.read_chunk ≢ [])
    ⊎ ((c'.read_chunk ≡ [])
        × (body_complete c ≡ false)
        × (c.read_error ≡ false)
        × (c.read_eof ≡ false)
        × (max ≤ length r.bytes))
Explains c max r c' complete = (c'.read_chunk ≡ []) × (body_complete c ≡ true)
Explains c max r c' error = (c'.read_chunk ≡ []) × (body_complete c ≡ false) × (c.read_error ≡ true)
Explains c max r c' truncated =
    (c'.read_chunk ≡ []) × (body_complete c ≡ false) × (c.read_error ≡ false) × (c.read_eof ≡ true)

pub record Reads (c : ConnectionIo) (max : ℕ) (r : BodyReadResult) (c' : ConnectionIo)
    : Type 0 where
  pub split : r.bytes ++ c'.read_chunk ≡ c.read_chunk
  pub bounded : length r.bytes ≤ max
  pub unchanged : c' ≡ record c { read_chunk = c'.read_chunk; read_data_ready = c'.read_data_ready }
  pub why : Explains c max r c' r.status

module _ (c : ConnectionIo) (max : ℕ) (ready : read_ready c max ≡ true) where
  -- The bytes are all taken.
  whole-Explains :
      (c' : ConnectionIo)
      → c'.read_chunk ≡ []
      → Explains c max
          (record { bytes = c.read_chunk; status = status_after c [] })
          c'
          (status_after c [])
  whole-Explains c' e =
      let why =
        λ (s : BodyReadStatus). Explains c max (record { bytes = c.read_chunk; status = s }) c' s in
      if_cases why (body_complete c) _ _ (λ done. (e, done))
        λ open'.
          if_cases why c.read_error _ _ (λ failed. (e, open', failed))
            λ well.
              if_cases why c.read_eof _ _ (λ ended. (e, open', well, ended))
                λ going. inr (e, open', well, going, ground arith)

  take_chunk-Reads : Reads c max (take_chunk c max).0 (take_chunk c max).1
  unfolding take_chunk
  take_chunk-Reads = elim (Bool-cases (leb (length c.read_chunk) max)) [
    | inl whole ↦ rw whole (record {
      split = append-nil c.read_chunk;
      bounded = leb→le _ _ whole;
      unchanged = refl;
      why = whole-Explains (record c { read_chunk = []; read_data_ready = false }) refl;
    })
    | inr larger ↦
        let left = drop-ne-nil c.read_chunk max (ground arith) in
        rw (larger, left.0)
          (record {
            split = take-append-drop max c.read_chunk;
            bounded = omega (arith, length-take max c.read_chunk);
            unchanged = refl;
            why = inl left.1;
          })
  ]

  ended_read :
      (s : BodyReadStatus)
      → c.read_chunk ≡ []
      → Explains c max (record { bytes = []; status = s }) c s
      → Reads c max (record { bytes = []; status = s }) c
  ended_read s e why = record { split = refl; bounded = omega arith; unchanged = refl; why = why }

  read_awake-Reads : Reads c max (read_awake c max).0 (read_awake c max).1
  unfolding read_awake
  read_awake-Reads =
      let reads = λ (out : BodyReadResult × ConnectionIo). Reads c max out.0 out.1 in
      if_cases reads (is_empty c.read_chunk) _ _
        (λ none_left.
          let e : c.read_chunk ≡ [] = ground arith in
          if_cases reads (body_complete c) _ _ (λ done. ended_read complete e (e, done))
            λ open'.
              if_cases reads c.read_error _ _ (λ failed. ended_read error e (e, open', failed))
                λ well.
                  if_cases reads c.read_eof _ _
                    (λ ended. ended_read truncated e (e, open', well, ended))
                    λ going. take_chunk-Reads)
        (λ some_left. take_chunk-Reads)

-- A read that does not wait returns the next bytes in order, at most `max` of them, drops none and
-- leaves the rest; it reports the end of the body, an error or a truncation only when nothing is left,
-- and in this order of precedence; it reports further data only if bytes are left or it is full.
pub read_body_chunk-Reads :
    (c c' : ConnectionIo) (max : ℕ) (r : BodyReadResult)
    → read_body_chunk c max ≡ some (r, c')
    → Reads c max r c'
unfolding read_body_chunk
read_body_chunk-Reads c c' max r h = elim (Bool-cases (read_ready c max)) [
  | inl ready ↦
      let e : read_awake c max ≡ (r, c') = ground arith in
      let reads = read_awake-Reads c max ready in
      rw
        (
          ap (λ (t : BodyReadResult × ConnectionIo). t.0) e,
          ap (λ (t : BodyReadResult × ConnectionIo). t.1) e,
        )
        at reads
  | inr waits ↦ absurd (ground arith)
]

-- A read waits exactly while `needsMoreBody` tells the event loop that the body goes on, and fewer
-- bytes than it wants are held.
pub read_body_chunk_waits :
    (c : ConnectionIo) (max : ℕ)
    → (read_body_chunk c max ≡ none) ↔ ((needs_more_body c ≡ true) × (length c.read_chunk < max))
unfolding read_body_chunk needs_more_body
read_body_chunk_waits c max = ground arith
