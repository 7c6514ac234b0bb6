-- ===== src/CommandLine/Tests.antt =====
-- Concrete command lines.
use lswasm.Base.{◌≡◌, refl, true, none, some, List, [], ◌∷◌, arith}
use lswasm.Base.{codes}
use lswasm.Base.{digit_value, numeral, numeral_value}
use lswasm.CommandLine.{
  pos, negsuc, default_options, default_uds_path, stoi, parse_perm, proceeds, throws, parse_args,
  returns, serves_uds, serves_tcp, start,
}
use lswasm.CommandLine.Sane.{IsSane, parse_args-IsSane}
use lswasm.CommandLine.Settings.{
  Setting, set_port, set_perm, set_module, set_env, set_lsapi, set_debug, command_line, apply_all,
  parse_args-command_line, start-command_line,
}

abbrev settings : List Setting
settings =
    set_port 80
    ∷ set_env (codes "A") (codes "b=c")
    ∷ set_debug
    ∷ set_perm 384
    ∷ set_module (codes "f.wasm")
    ∷ []

settings_rendered :
    command_line settings
    ≡ codes "--port"
      ∷ codes "80"
      ∷ codes "--env"
      ∷ codes "A=b=c"
      ∷ codes "--debug"
      ∷ codes "--sock-perm"
      ∷ codes "600"
      ∷ codes "--module"
      ∷ codes "f.wasm"
      ∷ []
unfolding numeral
settings_rendered = refl

parse_args-command_line_example :
    parse_args default_options (command_line settings)
    ≡ proceeds (apply_all default_options settings)
parse_args-command_line_example =
    parse_args-command_line settings default_options
      (omega arith, (refl, (tt, (omega arith, (tt, tt)))))

parse_args-IsSane_example : IsSane (apply_all default_options settings)
parse_args-IsSane_example =
    parse_args-IsSane (command_line settings) (apply_all default_options settings)
      parse_args-command_line_example

-- LSAPI and a port exclude each other.
lsapi_and_port : start true (command_line (set_port 80 ∷ set_lsapi ∷ [])) ≡ returns 1
lsapi_and_port =
    start-command_line true (set_port 80 ∷ set_lsapi ∷ []) (omega arith, (tt, tt)) refl refl

-- An explicit path wins over a port, but the default path does not, though it is given.
uds_and_port :
    start true
      (codes "--module" ∷ codes "f" ∷ codes "--port" ∷ codes "80" ∷ codes "--uds" ∷ codes "/s" ∷ [])
    ≡ serves_uds (codes "/s") 438 0
unfolding start numeral_value digit_value
uds_and_port = refl

default_uds_and_port :
    start true (
      codes "--module"
      ∷ codes "f"
      ∷ codes "--port"
      ∷ codes "80"
      ∷ codes "--uds"
      ∷ default_uds_path
      ∷ [])
    ≡ serves_tcp (pos 80) 0
unfolding start numeral_value digit_value
default_uds_and_port = refl

-- A negative number wraps, an argument without its value is passed over, and text that is no number
-- throws.
odd_arguments :
    (parse_perm (codes "-1777777777777777777777") ≡ some 1)
    × (parse_args default_options (codes "--port" ∷ []) ≡ proceeds default_options)
    × (parse_args default_options (codes "--port" ∷ codes "x" ∷ []) ≡ throws)
    × (stoi (codes " -12x") ≡ some (negsuc 11))
    × (stoi (codes "2147483648") ≡ none)
unfolding parse_perm parse_args stoi digit_value
odd_arguments = (refl, refl, refl, refl, refl)
