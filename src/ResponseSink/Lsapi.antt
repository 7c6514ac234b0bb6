-- ===== src/ResponseSink/Lsapi.antt =====
-- src/lsapi_response_sink.h: the sink of the LSAPI transport, over the calls of the LSAPI library.
use lswasm.Base.{ℕ, Bool, true, false, not, Option, none, some, [], ◌∷◌}
use lswasm.Base.{◌==◌, if◌then◌else◌}
use lswasm.Base.{is_empty}
use lswasm.Base.{Bytes}
use lswasm.HttpUtils.{HeaderPairs}
use lswasm.HttpUtils.Names.{header_name_eq}
use lswasm.ResponseSink.Http.{transfer_encoding_name}

-- What the sink uses of the library, on a request: the Boolean says that the result is not negative. The
-- status is an `int` there, and stands here as its 32 bits, which the cast from `uint32_t` keeps.
pub record LsapiCalls (R : Type 0) : Type 0 where
  pub set_resp_status : R → ℕ → R
  pub append_resp_header : R → Bytes → Bytes → Bool × R
  pub finalize_resp_headers : R → Bool × R
  pub write : R → Bytes → Bool × R
  pub flush : R → Bool × R

-- The fields of `LsapiResponseSink`; `req` is `none` where the pointer is null.
pub record LsapiResponseSink (R : Type 0) : Type 0 where
  pub req : Option R
  pub error : Bool

-- `c_str()` as a C function reads it: up to the first NUL.
abbrev pub c_str : Bytes → Bytes
c_str [] = []
c_str (c ∷ s) = if c == 0 then [] else c ∷ c_str s

module _ {R : Type 0} (lsapi : LsapiCalls R) where
  -- The loop of `sendHeaders` over the headers; it stops at the first failure.
  unfoldable pub append_headers : HeaderPairs → R → Bool × R
  append_headers [] req = (true, req)
  append_headers ((key, value) ∷ rest) req =
      let skipped = append_headers rest req in
      let (appended, req') = lsapi.append_resp_header req (c_str key) (c_str value) in
      let further = append_headers rest req' in
      if header_name_eq key transfer_encoding_name
      then skipped
      else if appended
      then further
      else (false, req')

  -- `LsapiResponseSink::sendHeaders`; it makes no use of `streaming`.
  unfoldable pub send_headers :
      LsapiResponseSink R → ℕ → HeaderPairs → Bool → Bool × LsapiResponseSink R
  unfolding append_headers
  send_headers s status_code headers streaming = elim s.req [
    | none ↦ (false, record s { error = true })
    | some req ↦
        let (appended, req') = append_headers headers (lsapi.set_resp_status req status_code) in
        let (finalized, req'') = lsapi.finalize_resp_headers req' in
        if not appended
        then (false, record { req = some req'; error = true })
        else if not finalized
        then (false, record { req = some req''; error = true })
        else (true, record s { req = some req'' })
  ]

  -- `LsapiResponseSink::writeBody`
  unfoldable pub write_body : LsapiResponseSink R → Bytes → Bool × LsapiResponseSink R
  write_body s bytes = elim s.req [
    | none ↦ (false, s)
    | some req ↦
        let (written, req') = lsapi.write req bytes in
        if s.error
        then (false, s)
        else if is_empty bytes
        then (true, s)
        else if written
        then (true, record s { req = some req' })
        else (false, record { req = some req'; error = true })
  ]

  -- `LsapiResponseSink::finishBody`
  unfoldable pub finish_body : LsapiResponseSink R → Bool × LsapiResponseSink R
  finish_body s = elim s.req [
    | none ↦ (false, s)
    | some req ↦
        let (flushed, req') = lsapi.flush req in
        if s.error
        then (false, s)
        else if flushed
        then (true, record s { req = some req' })
        else (false, record { req = some req'; error = true })
  ]

-- `LsapiResponseSink::hasError`
unfoldable pub has_error : {R : Type 0} → LsapiResponseSink R → Bool
has_error s = s.error
