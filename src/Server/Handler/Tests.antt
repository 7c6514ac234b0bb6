-- ===== src/Server/Handler/Tests.antt =====
-- Requests from their headers to their end, at concrete inputs.
use lswasm.Base.{◌≡◌, refl, ◌⊎◌, Bool, true, false, Option, none, some, List, [], ◌∷◌, arith}
use lswasm.Base.{Bytes, codes}
use lswasm.Base.{numeral}
use lswasm.HttpUtils.Names.{header_name_eq}
use lswasm.ConnectionIo.{
  BodyReadStatus, more, complete, truncated, BodyReadResult, ConnectionIo, init, set_header_data,
}
use lswasm.ResponseSink.Http.{HttpResponseSink}
use lswasm.Context.{fresh}
use lswasm.HttpFilter.{ProxyWasm, any_streaming, any_finished}
use lswasm.Server.Handler.{
  Filter, Ending, finishes, fails, is_answered, open_filter, no_data, read_body, handle_request,
}
use lswasm.Server.Handler.Body.{read_body_ends}
use lswasm.Server.Handler.Outcome.{finished_request}
use lswasm.Server.Handler.Silence.{IsQuiet}
use lswasm.Server.Handler.Output.{IsAnswered, IsAnswered-request}

-- One module that does nothing.
abbrev host : ProxyWasm HttpResponseSink
host = record {
  request_type = 0;
  response_type = 2;
  stream_context = λ m. some fresh;
  invoke = λ m callback c. c;
}

abbrev posted : ConnectionIo
posted = set_header_data (init 5) (codes "POST / H\r\n\r\n") (codes "bo") 4

abbrev read : Bytes → BodyReadStatus → BodyReadResult
read bytes status = record { bytes = bytes; status = status }

abbrev reads : List BodyReadResult
reads = read (codes "d") more ∷ read (codes "y") complete ∷ []

abbrev cut_off : List BodyReadResult
cut_off = read (codes "d") more ∷ read [] truncated ∷ []

abbrev outcome : List BodyReadResult → Option (Ending × Filter)
outcome script = handle_request host (codes "m" ∷ []) none 1 posted script

abbrev written : Option (Ending × Filter) → List Bytes
written o = elim o [ none ↦ [] | some (e, f) ↦ elim f.sink [ none ↦ [] | some sink ↦ sink.writes ] ]

-- Without the last read the worker waits.
waiting : outcome (read (codes "d") more ∷ []) ≡ none
unfolding handle_request init set_header_data fresh header_name_eq
waiting = refl

answered_plainly :
    written (outcome reads)
    ≡ codes
        "HTTP/1.1 200 OK\r\nContent-Type: text/plain\r\nConnection: close\r\nContent-Length: 0\r\n\r\n"
      ∷ []
unfolding handle_request init set_header_data fresh header_name_eq numeral
answered_plainly = refl

abbrev filter_of : Option (Ending × Filter) → Filter
filter_of none = open_filter host 0 no_data
filter_of (some (e, f)) = f

abbrev ends_well : Option (Ending × Filter) → Bool
ends_well none = false
ends_well (some (finishes, f)) = true
ends_well (some (fails, f)) = false

finished_lem :
    (o : Option (Ending × Filter)) → ends_well o ≡ true → o ≡ some (finishes, filter_of o)
finished_lem none e = ground (e, arith)
finished_lem (some (finishes, f)) e = refl
finished_lem (some (fails, f)) e = ground (e, arith)

ends_well-reads : ends_well (outcome reads) ≡ true
unfolding handle_request init set_header_data fresh header_name_eq
ends_well-reads = refl

abbrev ended : Filter
ended = filter_of (outcome reads)

finished_request_example :
    (is_answered ended ≡ true) ⊎ ((any_streaming ended ≡ false) ⊎ (any_finished ended ≡ true))
finished_request_example =
    finished_request host (codes "m" ∷ []) none 1 posted reads ended
      (finished_lem (outcome reads) ends_well-reads)

read_body_ends_example :
    (g : Filter) × (read_body host 4 2 reads (open_filter host 1 no_data) ≡ some (true, g))
read_body_ends_example =
    read_body_ends host 4 2 reads (open_filter host 1 no_data) refl (omega arith)

cut_off-fails :
    read_body host 4 2 cut_off (open_filter host 1 no_data)
    ≡ some (false, open_filter host 1 (record no_data { request_body = codes "d" }))
unfolding read_body
cut_off-fails = refl

host-IsQuiet : IsQuiet host
unfolding fresh
host-IsQuiet = record {
  sink_kept = λ m callback c. refl;
  state_kept = λ m callback c. refl;
  starts_idle = λ m c e. ground (arith, e);
}

IsAnswered-request_example : IsAnswered ended
IsAnswered-request_example =
    IsAnswered-request host host-IsQuiet (codes "m" ∷ []) none 1 posted reads ended
      (finished_lem (outcome reads) ends_well-reads)
