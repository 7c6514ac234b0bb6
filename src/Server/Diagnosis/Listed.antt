-- ===== src/Server/Diagnosis/Listed.antt =====
-- The modules that are listed in a diagnostic text.
use lswasm.Base.{
  ℕ, ◌≡◌, refl, ap, ◌∙◌, ◌≢◌, Option, none, some, List, [], ◌∷◌, ◌++◌, append-nil, append_assoc,
  arith,
}
use lswasm.Base.{◌==◌, if◌then◌else◌}
use lswasm.Base.{take, drop, All}
use lswasm.Base.{Bytes, codes, bytes_eq}
use lswasm.HttpFilter.{HttpData}
use lswasm.Server.Diagnosis.{
  WasmRuntime, wasmtime, v8, wasmedge, wamr, no_runtime, Diagnosis, build_response_body,
  filter_status, module_lines, runtime_line, support_part,
}

-- The lines of a text, the last without a line end.
abbrev onto : ℕ → List Bytes → List Bytes
onto c [] = (c ∷ []) ∷ []
onto c (l ∷ ls) = (c ∷ l) ∷ ls

abbrev lines : Bytes → List Bytes
lines [] = [] ∷ []
lines (c ∷ s) = if c == 10 then [] ∷ lines s else onto c (lines s)

-- A line of a module.
abbrev entry : Bytes → List Bytes
entry l = if bytes_eq (take 6 l) (codes "    - ") then drop 6 l ∷ [] else []

abbrev entries : List Bytes → List Bytes
entries [] = []
entries (l ∷ ls) = entry l ++ entries ls

-- The modules that a text lists.
abbrev listed : Bytes → List Bytes
listed s = entries (lines s)

-- The modules that are known of.
abbrev known : Option (List Bytes) → List Bytes
known none = []
known (some names) = names

-- A text of one line.
abbrev IsLine : Bytes → Type 0
IsLine s = All (λ c. c ≢ 10) s

lines-append : (a s : Bytes) → IsLine a → lines (a ++ (10 ∷ s)) ≡ a ∷ lines s
lines-append [] s h = refl
lines-append (c ∷ a) s h = rw (lines-append a s h.1) (ground arith)

listed-module_lines :
    (names : List Bytes) (s : Bytes)
    → All IsLine names
    → listed (module_lines names ++ s) ≡ names ++ listed s
unfolding module_lines
listed-module_lines [] s h = refl
listed-module_lines (name ∷ names) s h = rw (append_assoc name (10 ∷ module_lines names) s) (
    rw (lines-append name (module_lines names ++ s) h.0)
      (ap (λ ls. name ∷ ls) (listed-module_lines names s h.1)))

listed-filter_status :
    (modules : Option (List Bytes)) (s : Bytes)
    → All IsLine (known modules)
    → listed (filter_status modules ++ s) ≡ known modules ++ listed s
unfolding filter_status
listed-filter_status none s h = refl
listed-filter_status (some []) s h = refl
listed-filter_status (some (name ∷ names)) s h = listed-module_lines (name ∷ names) s h

listed-runtime_line : (r : WasmRuntime) (s : Bytes) → listed (runtime_line r ++ s) ≡ listed s
listed-runtime_line wasmtime s = refl
listed-runtime_line v8 s = refl
listed-runtime_line wasmedge s = refl
listed-runtime_line wamr s = refl
listed-runtime_line no_runtime s = refl

-- From the diagnostic text the loaded modules can be read back, in their order, whatever the request
-- and the runtime are, if no module and no part of the request line has a line end.
pub listed-build_response_body :
    (g : Diagnosis) (d : HttpData)
    → IsLine d.method
    → IsLine d.path
    → IsLine d.version
    → All IsLine (known g.modules)
    → listed (build_response_body g d) ≡ known g.modules
unfolding build_response_body
listed-build_response_body g d m p v h = rw (lines-append d.method _ m) (
    rw (lines-append d.path _ p) (
      rw (lines-append d.version _ v) (
        listed-runtime_line g.runtime _
        ∙ listed-filter_status g.modules support_part h
        ∙ append-nil (known g.modules))))
