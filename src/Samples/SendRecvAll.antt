-- ===== src/Samples/SendRecvAll.antt =====
-- samples/send_recv_all/send_recv_all.cpp: the filter that gathers the body and answers with it. What it
-- only logs is left out.
pub mod Gathered
use lswasm.Base.{ℕ, Bool, not, Option, none, some, List, [], ◌++◌}
use lswasm.Base.{ltb, ◌==◌, if◌then◌else◌}
use lswasm.Base.{length, is_empty}
use lswasm.Base.{Bytes, codes}
use lswasm.Base.{numeral}
use lswasm.HttpUtils.{HeaderPairs}
use lswasm.Samples.{
  FilterHeadersStatus, continue, stop_iteration, FilterDataStatus, stop_iteration_and_buffer,
  stop_iteration_no_buffer, Environ, FilterApi, entry_lines, pair_lines, end_line,
}

-- The fields of `SendRecvAllContext`.
pub record SendRecvAllContext : Type 0 where
  pub header_section : Bytes
  pub body_accum : Bytes

-- A new context.
unfoldable pub new_context : SendRecvAllContext
new_context = record { header_section = []; body_accum = [] }

-- What `build_environ_section` adds once the number of the variables is known.
unfoldable pub listed_environ : ℕ → Option (List (Option Bytes)) → Bytes
unfolding entry_lines
listed_environ env_count entries =
    codes "Environment variable count: "
    ++ (numeral 10 env_count
        ++ (codes "\n\n"
            ++ (if env_count == 0 then codes "(no environment variables set)\n" else (elim entries [
              | none ↦ codes "Error: failed to retrieve environment variables\n"
              | some es ↦ entry_lines es
            ]))))

-- `build_environ_section`
unfoldable pub build_environ_section : Environ → Bytes
unfolding listed_environ
build_environ_section env = codes "=== Environment Variables ===\n\n" ++ (elim env.sizes [
  | none ↦ codes "Error: failed to retrieve environment variable sizes\n"
  | some (env_count, env_buf_size) ↦ listed_environ env_count env.entries
])

-- `build_headers_section`
unfoldable pub build_headers_section : HeaderPairs → Bytes
unfolding pair_lines
build_headers_section pairs =
    codes "\n\n=== Request Headers ===\n\nHeader count: "
    ++ (numeral 10 (length pairs) ++ (codes "\n\n" ++ pair_lines pairs))

-- A filter with the state of its host.
abbrev pub State : Type 0 → Type 0
State C = SendRecvAllContext × C

-- The body of the response.
unfoldable pub response_text : SendRecvAllContext → Bytes
unfolding end_line
response_text f =
    if is_empty f.body_accum
    then f.header_section ++ codes "(empty body)\n"
    else end_line (f.header_section ++ f.body_accum)

module _ {C : Type 0} (api : FilterApi C) where
  -- The text that `onRequestHeaders` builds.
  unfoldable pub section_text : C → Bytes
  unfolding build_environ_section build_headers_section
  section_text c =
      build_environ_section api.environ
      ++ (build_headers_section (api.request_header_pairs c)
          ++ codes "\n\n=== Request Body ===\n\n")

  -- `onRequestHeaders`. `std::move` leaves the section empty.
  unfoldable pub on_request_headers : SendRecvAllContext → C → Bool → FilterHeadersStatus × State C
  unfolding section_text
  on_request_headers f c end_of_stream =
      let text = section_text c in
      let answered = api.send_local_response c 200 [] (text ++ codes "(no body)\n") [] in
      if end_of_stream
      then (stop_iteration, (record f { header_section = [] }, answered.1))
      else (continue, (record f { header_section = text }, c))

  -- The first part of `onRequestBody`: the chunk is fetched and kept.
  unfoldable pub gather : SendRecvAllContext → C → ℕ → SendRecvAllContext
  gather f c body_buffer_length =
      if ltb 0 body_buffer_length
      then (elim (api.buffer_bytes c 0 body_buffer_length) [
        | none ↦ f
        | some chunk ↦
            if ltb 0 (length chunk) then record f { body_accum = f.body_accum ++ chunk } else f
      ])
      else f

  -- `onRequestBody`. `std::move` leaves both strings empty.
  unfoldable pub on_request_body : SendRecvAllContext → C → ℕ → Bool → FilterDataStatus × State C
  unfolding gather response_text
  on_request_body f c body_buffer_length end_of_stream =
      let f' = gather f c body_buffer_length in
      if not end_of_stream then (stop_iteration_and_buffer, (f', c)) else (
        stop_iteration_no_buffer,
        (
          record { header_section = []; body_accum = [] },
          (api.send_local_response c 200 [] (response_text f') []).1,
        ),
      )

  -- `onResponseHeaders`
  unfoldable pub on_response_headers : SendRecvAllContext → C → FilterHeadersStatus × State C
  on_response_headers f c =
      let c₁ =
        (api.add_response_header c (codes "X-Wasm-Filter") (codes "send_recv_all/active")).1 in
      let c₂ = (api.add_response_header c₁ (codes "X-Powered-By") (codes "lswasm/proxy-wasm")).1 in
      (continue, (f, c₂))
