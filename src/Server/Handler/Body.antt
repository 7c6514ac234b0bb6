-- ===== src/Server/Handler/Body.antt =====
-- The loop over the request body.
use lswasm.Base.{ℕ, ◌+◌, ◌≤◌, ◌≡◌, refl, true, false, not, ◌&&◌, some, List, [], ◌∷◌, arith}
use lswasm.Base.{ltb, leb, if_cases}
use lswasm.Base.{length, any_of}
use lswasm.ConnectionIo.{BodyReadResult}
use lswasm.ResponseSink.Http.{HttpResponseSink}
use lswasm.HttpFilter.{ProxyWasm}
use lswasm.Server.Handler.{Filter, is_answered, pass_body, is_failed_read, read_body}

abbrev pub total : List BodyReadResult → ℕ
total [] = 0
total (r ∷ rs) = length r.bytes + total rs

module _ (host : ProxyWasm HttpResponseSink) where
  -- When no read fails and the reads make up what is missing of the body, the loop ends, without an
  -- error: the worker does not wait any more.
  pub read_body_ends :
      (content_length consumed : ℕ) (reads : List BodyReadResult) (f : Filter)
      → any_of is_failed_read reads ≡ false
      → content_length ≤ consumed + total reads
      → (g : Filter) × (read_body host content_length consumed reads f ≡ some (true, g))
  unfolding read_body
  read_body_ends content_length consumed [] f h e = (f, ground (arith, e))
  read_body_ends content_length consumed (r ∷ rs) f h e =
      let now = consumed + length r.bytes in
      let (g, ended) =
        read_body_ends content_length now rs (pass_body host f r.bytes (leb content_length now))
          (ground (arith, h)) (omega (arith, e)) in
      if_cases (λ o. (g : Filter) × (o ≡ some (true, g)))
        (ltb consumed content_length && not (is_answered f)) _ _
        (λ _. (g, ground (arith, h, ended))) (λ _. (f, refl))

  -- The loop gives up only on a read that failed.
  pub read_body_fails :
      (content_length consumed : ℕ) (reads : List BodyReadResult) (f g : Filter)
      → read_body host content_length consumed reads f ≡ some (false, g)
      → any_of is_failed_read reads ≡ true
  unfolding read_body
  read_body_fails content_length consumed [] f g e = ground (arith, e)
  read_body_fails content_length consumed (r ∷ rs) f g e = ground (
    arith,
    e,
    read_body_fails content_length (consumed + length r.bytes) rs
        (pass_body host f r.bytes (leb content_length (consumed + length r.bytes))) g,
  )
