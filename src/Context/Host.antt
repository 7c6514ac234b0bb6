-- ===== src/Context/Host.antt =====
-- The calls of `LsWasmContext` that read from the proxy-wasm host or are stubs, and those on metrics.
use lswasm.Base.{ℕ, ◌≡◌, refl, Bool, not, Option, none, some, []}
use lswasm.Base.{if◌then◌else◌}
use lswasm.Base.{is_empty}
use lswasm.Base.{Bytes, codes, bytes_eq}
use lswasm.Context.{
  WasmResult, ok, not_found, bad_argument, internal_failure, unimplemented, LsWasmContext,
  set_request_body,
}
use lswasm.MetricStore.{MetricStore, define, increment, record_value, get}

-- What a context inherits from `ContextBase` and reaches through `wasm()`: the configurations of
-- `plugin_` and `temp_plugin_`, that of the VM, the root identifier, and the metrics of an `LsWasm`;
-- `none` for a null pointer.
pub record HostSide : Type 0 where
  pub plugin : Option Bytes
  pub temp_plugin : Option Bytes
  pub vm_configuration : Option Bytes
  pub root_id : Bytes
  pub metrics : Option MetricStore

-- The enumerators of `WasmBufferType` that `getBuffer` tells apart.
pub data BufferType : Type 0 where
  plugin_configuration vm_configuration http_request_body http_response_body other_buffer :
      BufferType

abbrev pub first_of : Option Bytes → Option Bytes → Option Bytes
first_of none o = o
first_of (some s) o = some s

abbrev pub non_empty : Bytes → Option Bytes
non_empty s = if is_empty s then none else some s

-- `getConfiguration`
unfoldable pub get_configuration : HostSide → Bytes
get_configuration h = elim (first_of h.plugin h.vm_configuration) [ none ↦ [] | some s ↦ s ]

module _ {S : Type 0} where
  -- `getBuffer`: the bytes of the buffer, or `none` for a null pointer.
  unfoldable pub get_buffer : HostSide → LsWasmContext S → BufferType → Option Bytes
  get_buffer h c plugin_configuration = first_of h.plugin h.temp_plugin
  get_buffer h c vm_configuration = h.vm_configuration
  get_buffer h c http_request_body = non_empty c.request_body
  get_buffer h c http_response_body = non_empty c.response_body
  get_buffer h c other_buffer = none

  -- `endOfStream`
  unfoldable pub end_of_stream : LsWasmContext S → Bool
  end_of_stream c = c.end_of_stream

  -- A request body that was set for a callback is what the filter finds in its buffer, and the response
  -- body stays.
  pub get_buffer-set_request_body :
      (h : HostSide) (c : LsWasmContext S) (body : Bytes)
      → (get_buffer h (set_request_body c body) http_request_body ≡ non_empty body)
        × (get_buffer h (set_request_body c body) http_response_body
            ≡ get_buffer h c http_response_body)
  unfolding get_buffer set_request_body
  get_buffer-set_request_body h c body = (refl, refl)

-- `getStatus`
unfoldable pub get_status : ℕ × Bytes
get_status = (0, [])

-- `getProperty`; `has_result` tells whether `result` is not null.
unfoldable pub get_property : HostSide → Bytes → Bool → WasmResult × Option Bytes
get_property h path has_result =
    if not has_result
    then (bad_argument, none)
    else if bytes_eq path (codes "plugin_root_id")
    then (ok, some h.root_id)
    else (not_found, none)

-- `setProperty`, `continueStream`, `closeStream`
unfoldable pub set_property : Bytes → Bytes → WasmResult
set_property key value = ok

unfoldable pub continue_stream : WasmResult
continue_stream = ok

unfoldable pub close_stream : WasmResult
close_stream = ok

-- `httpCall` and `unimplemented`
unfoldable pub http_call : WasmResult
http_call = unimplemented

-- `defineMetric`, `incrementMetric`, `recordMetric`, `getMetric`, which pass on to the store that all
-- contexts of a module share.
unfoldable pub define_metric : HostSide → ℕ → Bytes → WasmResult × Option ℕ × HostSide
unfolding define
define_metric h type name = elim h.metrics [
  | none ↦ (internal_failure, none, h)
  | some m ↦ let out = define m type name in (out.0, out.1, record h { metrics = some (out.2) })
]

unfoldable pub increment_metric : HostSide → ℕ → ℕ → WasmResult × HostSide
unfolding increment
increment_metric h id offset = elim h.metrics [
  | none ↦ (internal_failure, h)
  | some m ↦ let out = increment m id offset in (out.0, record h { metrics = some (out.1) })
]

unfoldable pub record_metric : HostSide → ℕ → ℕ → WasmResult × HostSide
unfolding record_value
record_metric h id value = elim h.metrics [
  | none ↦ (internal_failure, h)
  | some m ↦ let out = record_value m id value in (out.0, record h { metrics = some (out.1) })
]

unfoldable pub get_metric : HostSide → ℕ → WasmResult × Option ℕ
unfolding get
get_metric h id = elim h.metrics [ none ↦ (internal_failure, none) | some m ↦ get m id ]
