-- ===== src/ResponseSink.antt =====
-- src/response_sink.h: how a response leaves, whatever the transport. A sink is a state with the four
-- operations of the interface; the first component of a result says whether the call succeeded.
pub mod Http
pub mod Lsapi
pub mod Chunked
pub mod Headers
pub mod Framing
pub mod Latch
pub mod Tests
use lswasm.Base.{ℕ, Bool}
use lswasm.Base.{Bytes}
use lswasm.HttpUtils.{HeaderPairs}

-- `ResponseSink`
pub record ResponseSink (S : Type 0) : Type 0 where
  pub send_headers : S → ℕ → HeaderPairs → Bool → Bool × S
  pub write_body : S → Bytes → Bool × S
  pub finish_body : S → Bool × S
  pub has_error : S → Bool
