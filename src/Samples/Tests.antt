-- ===== src/Samples/Tests.antt =====
-- The filters on this server, at concrete inputs.
use lswasm.Base.{◌+◌, ◌≡◌, refl, true, none, some, List, [], ◌∷◌, ◌++◌}
use lswasm.Base.{length}
use lswasm.Base.{Bytes, codes}
use lswasm.HttpUtils.Pairs.RoundTrip.{le32, marshal_pairs}
use lswasm.ConnectionIo.{ConnectionIo, set_header_data}
use lswasm.ConnectionIo as ConnectionIo
use lswasm.ResponseSink.Http.{HttpResponseSink, init}
use lswasm.ResponseSink.Chunked.{dechunk}
use lswasm.ResponseSink.Framing.{concat}
use lswasm.ResponseSink.Latch.{http_sink}
use lswasm.Context.{fresh, set_response_sink, finished, send_local_response}
use lswasm.Context.HeaderMaps.{map_of, add_header_map_value}
use lswasm.Context.Host.{HostSide, get_buffer, http_request_body}
use lswasm.Context.Streaming.{call, sends, writes, finishes}
use lswasm.Context.Written.{Context}
use lswasm.HttpFilter.{HttpData, synthesize_pseudo_headers}
use lswasm.Server.Request.{parse_request}
use lswasm.Server.Handler.{Filter, handle_request, no_data}
use lswasm.Server.Handler as Handler
use lswasm.Server.Handler.Output.{Wrote}
use lswasm.Samples.{FilterApi}
use lswasm.Samples.Lawful.{IsLawful}
use lswasm.Samples.SendRecvStream.{preamble_text}
use lswasm.Samples.SendRecvStream.Calls.{IsFresh, IsHeaderBlock}
use lswasm.Samples.SendRecvStream.Feeding.{serve, echoed}
use lswasm.Samples.SendRecvStream.Echo.{serve-echo}
use lswasm.Samples.SendRecvAll.{section_text}
use lswasm.Samples.SendRecvAll.Gathered as Gathered
use lswasm.Samples.SampleFilter.Served.{sample_host, sample_body, sample_response, served_request}

abbrev host_side : HostSide
host_side = record {
  plugin = none;
  temp_plugin = none;
  vm_configuration = none;
  root_id = [];
  metrics = none;
}

-- The calls of a filter as this server serves them, with one variable in the environment.
abbrev api : FilterApi Context
api = record {
  environ = record { sizes = some (1, 4); entries = some (some (codes "A=b") ∷ none ∷ []) };
  request_header_pairs = λ c. map_of c 0;
  buffer_bytes = λ c start n. get_buffer host_side c http_request_body;
  send_local_response = λ c code details body hs. send_local_response c code body hs details;
  add_response_header = λ c name value. add_header_map_value c 2 name value;
  is_supported = λ c. true;
  send_response_headers = λ c code hs. call http_sink c (sends (le32 code ++ marshal_pairs hs));
  write_response_chunk = λ c bytes. call http_sink c (writes bytes);
  finish_response = λ c. call http_sink c (finishes []);
}

api-IsLawful : IsLawful http_sink host_side api
api-IsLawful = record {
  supported = λ c. refl;
  sent = λ c code hs. refl;
  written = λ c bytes. refl;
  finished = λ c. refl;
  buffered = λ c. refl;
  answered = λ c code details body hs. refl;
}

abbrev new_request : Context
new_request = set_response_sink fresh (some (init true))

new_request-IsFresh : IsFresh new_request []
unfolding set_response_sink fresh init
new_request-IsFresh = record {
  s = init true;
  has_sink = refl;
  connected = refl;
  well = refl;
  unwritten = refl;
  state = refl;
  buffered = refl;
}

abbrev cut : List Bytes
cut = codes "he" ∷ [] ∷ codes "llo" ∷ []

serve-echo_example :
    (s : HttpResponseSink) × (block : Bytes) × (out : List Bytes) × ((serve api new_request
        cut).1.sink
      ≡ some s)
    × ((serve api new_request cut).1.streaming_state ≡ finished)
    × IsHeaderBlock block
    × (s.writes ≡ block ∷ out)
    × (dechunk (length (echoed cut) + 2) (concat out ++ codes "more")
        ≡ some (
          preamble_text api.environ (api.request_header_pairs new_request) ++ concat (echoed cut),
          codes "more",
        ))
serve-echo_example =
    serve-echo host_side api api-IsLawful new_request [] cut (codes "more") new_request-IsFresh

serve-gathers_example :
    Gathered.Answers
      (Gathered.serve api new_request cut).1
      (section_text api new_request ++ Gathered.gathered cut)
serve-gathers_example = Gathered.serve-gathers http_sink host_side api api-IsLawful new_request cut

-- A POST whose body has not arrived.
abbrev posted : ConnectionIo
posted = set_header_data (ConnectionIo.init 5) (codes "POST / H\r\nX: y\r\n\r\n") [] 4

abbrev parsed : HttpData
parsed = record no_data {
  method = codes "POST";
  path = codes "/";
  version = codes "H";
  request_headers = (codes "X", codes "y") ∷ [];
}

posted-parsed : parse_request posted.header_data no_data ≡ some parsed
unfolding parse_request set_header_data ConnectionIo.init
posted-parsed = refl

served_request_example :
    (f : Filter) × (handle_request
        (sample_host 0 2 (λ m. some fresh) api)
        (codes "m" ∷ [])
        none
        1
        posted
        []
      ≡ some (Handler.finishes, f))
    × Wrote f (sample_response (sample_body api (synthesize_pseudo_headers parsed).request_headers))
served_request_example =
    served_request 0 2 (λ m. some fresh) host_side api api-IsLawful (λ c. refl) (codes "m") fresh
      refl none 1 posted [] parsed posted-parsed
