-- ===== src/Samples/SampleFilter.antt =====
-- samples/sample_filter/sample_filter.cpp: the filter that answers every request with what it knows of
-- it. It keeps no state. What it only logs is left out.
pub mod Served
use lswasm.Base.{[], ◌++◌}
use lswasm.Base.{Bytes, codes}
use lswasm.HttpUtils.{HeaderPairs}
use lswasm.Samples.{
  FilterHeadersStatus, continue, stop_iteration, FilterDataStatus, continue_data, Environ,
  FilterApi,
}
use lswasm.Samples.SendRecvAll.{build_environ_section, build_headers_section}

-- `build_environ_body`, which is `build_environ_section` of send_recv_all.cpp.
unfoldable pub build_environ_body : Environ → Bytes
unfolding build_environ_section
build_environ_body env = build_environ_section env

-- `build_header_body`, which is `build_headers_section` of send_recv_all.cpp.
unfoldable pub build_header_body : HeaderPairs → Bytes
unfolding build_headers_section
build_header_body pairs = build_headers_section pairs

module _ {C : Type 0} (api : FilterApi C) where
  -- `onRequestHeaders`
  unfoldable pub on_request_headers : C → FilterHeadersStatus × C
  unfolding build_environ_body build_header_body
  on_request_headers c =
      let body = build_environ_body api.environ ++ build_header_body (api.request_header_pairs c) in
      (stop_iteration, (api.send_local_response c 200 [] body []).1)

  -- `onResponseHeaders`
  unfoldable pub on_response_headers : C → FilterHeadersStatus × C
  on_response_headers c =
      let c₁ =
        (api.add_response_header c (codes "X-Wasm-Filter") (codes "sample_filter/active")).1 in
      let c₂ = (api.add_response_header c₁ (codes "X-Powered-By") (codes "lswasm/proxy-wasm")).1 in
      (continue, c₂)

  -- `onRequestBody`
  unfoldable pub on_request_body : C → FilterDataStatus × C
  on_request_body c = (continue_data, c)
