-- ===== src/CommandLine/Settings.antt =====
-- Command lines written from a list of settings: the loop reads back each of them, in order.
use lswasm.Base.{
  ℕ, ◌^◌, ◌≤◌, ◌<◌, ◌≡◌, refl, ap, ◌∙◌, Bool, true, false, ◌||◌, none, some, List, [], ◌∷◌, ◌++◌,
  arith,
}
use lswasm.Base.{◌==◌}
use lswasm.Base.{any_of, All}
use lswasm.Base.{Bytes, codes, bytes_eq}
use lswasm.Base.{numeral}
use lswasm.Base.{assign}
use lswasm.CommandLine.Numbers.{stoi-numeral, parse_perm-numeral, split_env-append}
use lswasm.CommandLine.{
  Options, pos, default_options, to_size, Parsed, proceeds, Turn, one, two, port_turn, perm_turn,
  env_turn, workers_turn, option_turn, flag_turn, or_flag, after_turn, parse_args, returns, launch,
  launch_parsed, start,
}

pub data Setting : Type 0 where
  set_port set_perm set_workers : ℕ → Setting
  set_uds set_module : Bytes → Setting
  set_env : Bytes → Bytes → Setting
  set_lsapi set_pacifier set_debug : Setting

abbrev pub render : Setting → List Bytes
render (set_port n) = codes "--port" ∷ numeral 10 n ∷ []
render (set_perm n) = codes "--sock-perm" ∷ numeral 8 n ∷ []
render (set_workers n) = codes "--workers" ∷ numeral 10 n ∷ []
render (set_uds path) = codes "--uds" ∷ path ∷ []
render (set_module path) = codes "--module" ∷ path ∷ []
render (set_env key value) = codes "--env" ∷ (key ++ (codes "=" ++ value)) ∷ []
render set_lsapi = codes "--lsapi" ∷ []
render set_pacifier = codes "--body-pacifier" ∷ []
render set_debug = codes "--debug" ∷ []

abbrev pub command_line : List Setting → List Bytes
command_line [] = []
command_line (s ∷ ss) = render s ++ command_line ss

-- What a setting is meant to do.
abbrev pub apply : Options → Setting → Options
apply o (set_port n) = record o { port = pos n; port_specified = true }
apply o (set_perm n) = record o { sock_perm = n }
apply o (set_workers n) = record o { num_workers = n }
apply o (set_uds path) = record o { uds_path = path }
apply o (set_module path) = record o { wasm_module_path = path }
apply o (set_env key value) = record o { wasm_envs = assign bytes_eq key value o.wasm_envs }
apply o set_lsapi = record o { lsapi_mode = true }
apply o set_pacifier = record o { body_pacifier = true }
apply o set_debug = record o { debug = true }

abbrev pub apply_all : Options → List Setting → Options
apply_all o [] = o
apply_all o (s ∷ ss) = apply_all (apply o s) ss

-- A setting within its bounds.
abbrev pub IsSetting : Setting → Type 0
IsSetting (set_port n) = n < 2 ^ 31
IsSetting (set_perm n) = n ≤ 511
IsSetting (set_workers n) = n < 2 ^ 31
IsSetting (set_env key value) = any_of (λ c. c == b'=') key ≡ false
IsSetting s = Unit

-- An option without a value takes one argument, whatever follows.
flag-parse_args :
    (o o' : Options) (arg : Bytes) (rest : List Bytes)
    → flag_turn o arg ≡ one o'
    → ((value : Bytes) → option_turn o arg value ≡ none)
    → parse_args o (arg ∷ rest) ≡ parse_args o' rest
unfolding parse_args
flag-parse_args o o' arg [] f h = ap (λ t. after_turn t (λ p. proceeds p) (λ p. proceeds p)) f
flag-parse_args o o' arg (value ∷ rest) f h =
    let go : Turn → Parsed =
      λ t. after_turn t (λ p. parse_args p (value ∷ rest)) (λ p. parse_args p rest) in
    ap (λ t. go (or_flag t (flag_turn o arg))) (h value) ∙ ap go f

option-parse_args :
    (o o' : Options) (arg value : Bytes) (rest : List Bytes)
    → option_turn o arg value ≡ some (two o')
    → parse_args o (arg ∷ value ∷ rest) ≡ parse_args o' rest
unfolding parse_args
option-parse_args o o' arg value rest h =
    let go : Turn → Parsed =
      λ t. after_turn t (λ p. parse_args p (value ∷ rest)) (λ p. parse_args p rest) in
    ap (λ t. go (or_flag t (flag_turn o arg))) h

render-parse_args :
    (o : Options) (s : Setting) (rest : List Bytes)
    → IsSetting s
    → parse_args o (render s ++ rest) ≡ parse_args (apply o s) rest
unfolding option_turn flag_turn workers_turn to_size
render-parse_args o (set_port n) rest v =
    option-parse_args o _ (codes "--port") (numeral 10 n) rest
      (ap (λ r. some (port_turn o r)) (stoi-numeral n v))
render-parse_args o (set_perm n) rest v =
    option-parse_args o _ (codes "--sock-perm") (numeral 8 n) rest
      (ap (λ r. some (perm_turn o r)) (parse_perm-numeral n v))
render-parse_args o (set_workers n) rest v =
    option-parse_args o _ (codes "--workers") (numeral 10 n) rest
      (ap (λ r. some (workers_turn o r)) (stoi-numeral n v))
render-parse_args o (set_uds path) rest v = option-parse_args o _ (codes "--uds") path rest refl
render-parse_args o (set_module path) rest v =
    option-parse_args o _ (codes "--module") path rest refl
render-parse_args o (set_env key value) rest v =
    option-parse_args o _ (codes "--env") (key ++ (codes "=" ++ value)) rest
      (ap (λ r. some (env_turn o r)) (split_env-append key value v))
render-parse_args o set_lsapi rest v = flag-parse_args o _ (codes "--lsapi") rest refl (λ w. refl)
render-parse_args o set_pacifier rest v =
    flag-parse_args o _ (codes "--body-pacifier") rest refl (λ w. refl)
render-parse_args o set_debug rest v = flag-parse_args o _ (codes "--debug") rest refl (λ w. refl)

-- A command line written from settings within their bounds is read back as these settings, applied in
-- order: a later setting of the same option replaces an earlier one, and the variables accumulate.
pub parse_args-command_line :
    (ss : List Setting) (o : Options)
    → All IsSetting ss
    → parse_args o (command_line ss) ≡ proceeds (apply_all o ss)
unfolding parse_args
parse_args-command_line [] o v = refl
parse_args-command_line (s ∷ ss) o v =
    render-parse_args o s (command_line ss) v.0 ∙ parse_args-command_line ss (apply o s) v.1

-- What some setting of a list has turned on stays on.
abbrev pub asks_port : Setting → Bool
asks_port (set_port n) = true
asks_port s = false

abbrev pub asks_lsapi : Setting → Bool
asks_lsapi set_lsapi = true
asks_lsapi s = false

apply-flags :
    (s : Setting) (o : Options)
    → ((apply o s).port_specified ≡ (o.port_specified || asks_port s))
      × ((apply o s).lsapi_mode ≡ (o.lsapi_mode || asks_lsapi s))
apply-flags (set_port n) o = ground arith
apply-flags (set_perm n) o = ground arith
apply-flags (set_workers n) o = ground arith
apply-flags (set_uds path) o = ground arith
apply-flags (set_module path) o = ground arith
apply-flags (set_env key value) o = ground arith
apply-flags set_lsapi o = ground arith
apply-flags set_pacifier o = ground arith
apply-flags set_debug o = ground arith

apply_all-port_specified :
    (ss : List Setting) (o : Options)
    → (apply_all o ss).port_specified ≡ (o.port_specified || any_of asks_port ss)
apply_all-port_specified [] o = ground arith
apply_all-port_specified (s ∷ ss) o =
    ground (arith, (apply-flags s o).0, apply_all-port_specified ss (apply o s))

apply_all-lsapi_mode :
    (ss : List Setting) (o : Options)
    → (apply_all o ss).lsapi_mode ≡ (o.lsapi_mode || any_of asks_lsapi ss)
apply_all-lsapi_mode [] o = ground arith
apply_all-lsapi_mode (s ∷ ss) o =
    ground (arith, (apply-flags s o).1, apply_all-lsapi_mode ss (apply o s))

-- A command line that asks for LSAPI and, in any place, for a port makes `main` return 1, whatever else
-- it says.
pub start-command_line :
    (loadable : Bool) (ss : List Setting)
    → All IsSetting ss
    → any_of asks_port ss ≡ true
    → any_of asks_lsapi ss ≡ true
    → start loadable (command_line ss) ≡ returns 1
unfolding start launch launch_parsed
start-command_line loadable ss v port lsapi =
    let e = parse_args-command_line ss default_options v in
    let specified : (apply_all default_options ss).port_specified ≡ true =
      apply_all-port_specified ss default_options ∙ port in
    let mode : (apply_all default_options ss).lsapi_mode ≡ true =
      apply_all-lsapi_mode ss default_options ∙ lsapi in
    ap (launch_parsed loadable) e ∙ rw (specified, mode) refl
