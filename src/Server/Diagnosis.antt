-- ===== src/Server/Diagnosis.antt =====
-- `build_response_body` of src/main.cpp: the text of a response that no filter has made.
pub mod Listed
use lswasm.Base.{Option, none, some, List, [], ◌∷◌, ◌++◌}
use lswasm.Base.{Bytes, codes}
use lswasm.HttpFilter.{HttpData}

-- The runtime that the server was compiled with.
pub data WasmRuntime : Type 0 where
  wasmtime v8 wasmedge wamr no_runtime : WasmRuntime

-- What the text depends on beside the request: `modules` is what `getLoadedModules` answers, `none`
-- without a `g_module_manager`.
pub record Diagnosis : Type 0 where
  pub runtime : WasmRuntime
  pub modules : Option (List Bytes)

-- The bytes of ✓, ℹ and •, with the space behind each.
abbrev check_mark : Bytes
check_mark = 226 ∷ 156 ∷ 147 ∷ 32 ∷ []

abbrev info_mark : Bytes
info_mark = 226 ∷ 132 ∷ 185 ∷ 32 ∷ []

abbrev bullet : Bytes
bullet = 226 ∷ 128 ∷ 162 ∷ 32 ∷ []

-- An indented line with a mark.
abbrev item : Bytes → Bytes → Bytes
item mark text = codes "  " ++ (mark ++ (text ++ codes "\n"))

-- The line of the runtime.
abbrev pub runtime_line : WasmRuntime → Bytes
runtime_line wasmtime = item check_mark (codes "Wasmtime runtime available")
runtime_line v8 = item check_mark (codes "V8 runtime available")
runtime_line wasmedge = item check_mark (codes "WasmEdge runtime available")
runtime_line wamr = item check_mark (codes "WAMR runtime available")
runtime_line no_runtime = item info_mark (codes "No WASM runtime enabled")

-- The lines of the modules.
unfoldable pub module_lines : List Bytes → Bytes
module_lines [] = []
module_lines (name ∷ names) = codes "    - " ++ (name ++ (codes "\n" ++ module_lines names))

-- The lines below "Filter Status:".
unfoldable pub filter_status : Option (List Bytes) → Bytes
unfolding module_lines
filter_status none = []
filter_status (some []) = item bullet (codes "No filters loaded")
filter_status (some (name ∷ names)) = codes "  Loaded filters:\n" ++ module_lines (name ∷ names)

-- The text behind them.
abbrev pub support_part : Bytes
support_part =
    codes "\nProxy-WASM Support:\n"
    ++ (item bullet (codes "RootContext lifecycle callbacks")
        ++ (item bullet (codes "HTTP filter callbacks (onRequest*, onResponse*)")
            ++ (item bullet (codes "Response header manipulation from WASM modules")
                ++ (item bullet (codes "Connection events")
                    ++ (item bullet (codes "Metadata and data processing")
                        ++ (item bullet (codes "Status/error codes")
                            ++ (codes "\nSubmodules:\n"
                                ++ (item bullet (codes "proxy-wasm-cpp-host")
                                    ++ (item bullet (codes "proxy-wasm-cpp-sdk")
                                        ++ (item bullet (codes "proxy-wasm-spec")))))))))))

-- `build_response_body`
unfoldable pub build_response_body : Diagnosis → HttpData → Bytes
unfolding filter_status
build_response_body g d =
    codes "=== WASM HTTP Proxy Server ===\n\nRequest Information:\n  Method: "
    ++ (d.method
        ++ (codes "\n  Path: "
            ++ (d.path
                ++ (codes "\n  Version: "
                    ++ (d.version
                        ++ (codes "\n\nRuntime Information:\n"
                            ++ (runtime_line g.runtime
                                ++ (codes "\nFilter Status:\n"
                                    ++ (filter_status g.modules ++ support_part)))))))))
