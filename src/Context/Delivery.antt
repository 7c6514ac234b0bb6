-- ===== src/Context/Delivery.antt =====
-- What the streaming calls of a filter, in any order, amount to over the HTTP sink.
use lswasm.Base.{
  suc, ◌≡◌, refl, sym, subst, true, some, List, [], ◌∷◌, ◌++◌, append-nil, append_assoc,
}
use lswasm.Base.{length}
use lswasm.Base.{Bytes}
use lswasm.ResponseSink.Http.{HttpResponseSink, init, terminator}
use lswasm.ResponseSink.Framing.{chunks, concat, dechunk-body}
use lswasm.ResponseSink.Chunked.{dechunk}
use lswasm.ResponseSink.Latch.{http_sink}
use lswasm.Context.{WasmResult, finished, fresh, set_response_sink}
use lswasm.Context.Streaming.{
  Call, sends, writes, finishes, call, run, send_call_cases, write_call_lem, finish_call_lem,
}
use lswasm.Context.Written.{
  taken, Context, IsBlock, Shape, IsDelivered, send_with-IsDelivered, write_with-IsDelivered,
  finish_with-IsDelivered,
}

-- The accepted chunks of a filter's calls.
unfoldable pub accepted : Context → List Call → List Bytes
accepted c [] = []
accepted c (x ∷ xs) = taken x (call http_sink c x).0 ++ accepted (call http_sink c x).1 xs

call-IsDelivered :
    (c : Context) (parts : List Bytes) (x : Call)
    → IsDelivered c parts
    → IsDelivered (call http_sink c x).1 (parts ++ taken x (call http_sink c x).0)
call-IsDelivered c parts (writes bytes) (s, has_sink, has_conn, shape) =
    subst (λ (p : WasmResult × Context). IsDelivered p.1 (parts ++ taken (writes bytes) p.0))
      (sym (write_call_lem http_sink c s has_sink bytes))
      (write_with-IsDelivered c s has_sink has_conn parts bytes shape)
call-IsDelivered c parts (sends argument) (s, has_sink, has_conn, shape) = rw (append-nil parts) (
    send_call_cases http_sink c s has_sink (λ p. IsDelivered p.1 parts)
      (s, has_sink, has_conn, shape)
      (λ code hs. send_with-IsDelivered c s has_sink has_conn parts code hs shape) argument)
call-IsDelivered c parts (finishes argument) (s, has_sink, has_conn, shape) =
    rw (append-nil parts, finish_call_lem http_sink c s has_sink argument)
      (finish_with-IsDelivered c s has_sink has_conn parts shape)

run-IsDelivered :
    (c : Context) (parts : List Bytes) (xs : List Call)
    → IsDelivered c parts
    → IsDelivered (run http_sink c xs) (parts ++ accepted c xs)
unfolding run accepted
run-IsDelivered c parts [] d = rw (append-nil parts) d
run-IsDelivered c parts (x ∷ xs) d =
    rw (← append_assoc) (run-IsDelivered (call http_sink c x).1 _ xs (call-IsDelivered c parts x d))

-- A request's context over a connected HTTP sink.
abbrev pub start : Context
start = set_response_sink fresh (some (init true))

start-IsDelivered : IsDelivered start []
unfolding set_response_sink fresh init
start-IsDelivered = (init true, refl, refl, (refl, refl))

-- Whatever streaming calls a filter makes, with whatever arguments: if in the end its response counts
-- as finished, then what was handed to the connection is one header block that declares a chunked
-- body, followed by bytes that a chunked decoder reads as exactly the chunks that the host accepted,
-- in order, and then stops.
pub finished_response :
    (xs : List Call) (rest : Bytes)
    → (run http_sink start xs).streaming_state ≡ finished
    → (s : HttpResponseSink) × (block : Bytes) × (out : List Bytes) × ((run http_sink start xs).sink
        ≡ some s)
      × (s.writes ≡ block ∷ out)
      × IsBlock block
      × (dechunk (suc (length (accepted start xs))) (concat out ++ rest)
          ≡ some (concat (accepted start xs), rest))
finished_response xs rest done =
    let parts = accepted start xs in
    let (s, has_sink, has_conn, shape) = run-IsDelivered start [] xs start-IsDelivered in
    let shape' : Shape finished s parts = subst (λ st. Shape st s parts) done shape in
    (
      s,
      shape'.0,
      chunks parts ++ (terminator ∷ []),
      has_sink,
      shape'.2,
      shape'.1,
      dechunk-body parts rest,
    )
