-- ===== src/CommandLine.antt =====
-- `main` of src/main.cpp: the loop over the arguments, and the choice of what is run; `log_init` of
-- src/log.h.
mod Values
pub mod Numbers
pub mod Sane
pub mod Settings
pub mod Tests
use lswasm.Base.{ℕ, Bool, true, false, not, ◌&&◌, ◌||◌, Option, none, some, List, [], ◌∷◌}
use lswasm.Base.{if◌then◌else◌}
use lswasm.Base.{is_empty}
use lswasm.Base.{Bytes, codes, bytes_eq}
use lswasm.Base.{assign}
pub use Values.{ℤ, pos, negsuc, sign_of, signed, octal_digits, split_env}
unfoldable pub use Values.{stoi, to_size, strtoul, parse_perm}

-- The variables of `main` that the arguments set.
pub record Options : Type 0 where
  pub port : ℤ
  pub wasm_module_path : Bytes
  pub uds_path : Bytes
  pub sock_perm : ℕ
  pub wasm_envs : List (Bytes × Bytes)
  pub debug : Bool
  pub port_specified : Bool
  pub lsapi_mode : Bool
  pub num_workers : ℕ
  pub body_pacifier : Bool

abbrev pub default_uds_path : Bytes
default_uds_path = codes "/tmp/lswasm.sock"

abbrev pub default_options : Options
default_options = record {
  port = pos 8080;
  wasm_module_path = [];
  uds_path = default_uds_path;
  sock_perm = 438;
  wasm_envs = [];
  debug = false;
  port_specified = false;
  lsapi_mode = false;
  num_workers = 0;
  body_pacifier = false;
}

-- How the loop over the arguments ends: it goes on with the options, `main` returns, or an exception
-- leaves `main`.
pub data Parsed : Type 0 where
  proceeds : Options → Parsed
  exits : ℕ → Parsed
  throws : Parsed

-- A turn of the loop: it takes one argument or two, or ends the loop.
pub data Turn : Type 0 where
  one two : Options → Turn
  stop : Parsed → Turn

abbrev pub port_turn : Options → Option ℤ → Turn
port_turn o none = stop throws
port_turn o (some n) = two (record o { port = n; port_specified = true })

abbrev pub perm_turn : Options → Option ℕ → Turn
perm_turn o none = stop (exits 1)
perm_turn o (some n) = two (record o { sock_perm = n })

abbrev pub env_turn : Options → Option (Bytes × Bytes) → Turn
env_turn o none = stop (exits 1)
env_turn o (some (key, value)) =
    two (record o { wasm_envs = assign bytes_eq key value o.wasm_envs })

unfoldable pub workers_turn : Options → Option ℤ → Turn
unfolding to_size
workers_turn o none = stop throws
workers_turn o (some n) = two (record o { num_workers = to_size n })

-- The options that take a value, where there is one; `none` for any other argument.
unfoldable pub option_turn : Options → Bytes → Bytes → Option Turn
unfolding stoi parse_perm workers_turn
option_turn o arg value =
    if bytes_eq arg (codes "--port")
    then some (port_turn o (stoi value))
    else if bytes_eq arg (codes "--uds")
    then some (two (record o { uds_path = value }))
    else if bytes_eq arg (codes "--sock-perm")
    then some (perm_turn o (parse_perm value))
    else if bytes_eq arg (codes "--module")
    then some (two (record o { wasm_module_path = value }))
    else if bytes_eq arg (codes "--env")
    then some (env_turn o (split_env value))
    else if bytes_eq arg (codes "--workers")
    then some (workers_turn o (stoi value))
    else none

-- The options without a value; any other argument is passed over.
unfoldable pub flag_turn : Options → Bytes → Turn
flag_turn o arg =
    if bytes_eq arg (codes "--lsapi")
    then one (record o { lsapi_mode = true })
    else if bytes_eq arg (codes "--body-pacifier")
    then one (record o { body_pacifier = true })
    else if bytes_eq arg (codes "--debug")
    then one (record o { debug = true })
    else if bytes_eq arg (codes "--version")
    then stop (exits 0)
    else if bytes_eq arg (codes "--help")
    then stop (exits 0)
    else one o

abbrev pub or_flag : Option Turn → Turn → Turn
or_flag none t = t
or_flag (some t) other = t

-- How the loop goes on after a turn that took one argument, or two.
abbrev pub after_turn : Turn → (Options → Parsed) → (Options → Parsed) → Parsed
after_turn (one o) f g = f o
after_turn (two o) f g = g o
after_turn (stop p) f g = p

-- The loop over the arguments behind the name of the program.
unfoldable pub parse_args : Options → List Bytes → Parsed
unfolding option_turn flag_turn
parse_args o [] = proceeds o
parse_args o (arg ∷ []) = after_turn (flag_turn o arg) (λ o'. proceeds o') (λ o'. proceeds o')
parse_args o (arg ∷ value ∷ rest) =
    after_turn (or_flag (option_turn o arg value) (flag_turn o arg))
      (λ o'. parse_args o' (value ∷ rest)) (λ o'. parse_args o' rest)

-- What `main` goes on to run.
pub data Launch : Type 0 where
  returns : ℕ → Launch
  aborts : Launch
  serves_lsapi : Bytes → List (Bytes × Bytes) → Launch
  serves_uds : Bytes → ℕ → ℕ → Launch
  serves_tcp : ℤ → ℕ → Launch

-- `main` behind the loop; `loadable` tells whether `loadModule` succeeds.
unfoldable pub launch : Bool → Options → Launch
launch loadable o =
    if o.lsapi_mode && o.port_specified
    then returns 1
    else if is_empty o.wasm_module_path
    then returns 1
    else if o.lsapi_mode
    then serves_lsapi o.wasm_module_path o.wasm_envs
    else if not loadable
    then returns 1
    else if not (bytes_eq o.uds_path default_uds_path) || not o.port_specified
    then serves_uds o.uds_path o.sock_perm o.num_workers
    else serves_tcp o.port o.num_workers

unfoldable pub launch_parsed : Bool → Parsed → Launch
unfolding launch
launch_parsed loadable (proceeds o) = launch loadable o
launch_parsed loadable (exits n) = returns n
launch_parsed loadable throws = aborts

-- `main`
unfoldable pub start : Bool → List Bytes → Launch
unfolding parse_args launch_parsed
start loadable args = launch_parsed loadable (parse_args default_options args)

-- `log_init`: whether the log file is created first, and whether logging is on. `sentinel` and
-- `log_exists` tell which files are there, `opens` whether the log can be opened.
unfoldable pub log_init : Bool → Bool → Bool → Bool → Bool × Bool
log_init debug sentinel log_exists opens =
    let enable = debug || sentinel in (enable && not log_exists, enable && opens)
