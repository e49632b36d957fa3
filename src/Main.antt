-- ===== src/Main.antt =====
-- main.go: the command line of the program, the checks before it starts, and the daemon that it starts
-- from the same arguments. The flags are read as Go's flag package documents it; the reading of an
-- integer is a parameter. `Spawn` has runDaemon and the check for llama-server. `Daemon` proves.
pub mod Daemon
pub mod Spawn
use Prim.Native.Char.{code}
use Prim.Native.String
use llm_server_manager.Base.{
  String, ◌==◌, Bool, true, false, ◌||◌, ◌&&◌, not, Option, none, some, List, [], ◌∷◌, ℤ, pos,
  ltb_ℤ, ℕ, eqb, keep, if◌then◌else◌, strip_prefix?,
}
use llm_server_manager.Config.{parse_bool}

-- The variables of main, at the flags' defaults in `default_options`.
pub record Options : Type 0 where
  pub config_path : String
  pub listen_addr : String
  pub enable_logging : Bool
  pub daemon_mode : Bool
  pub max_retries : ℤ
  pub enable_ui : Bool

abbrev pub default_options : Options
default_options = record {
  config_path = "llm_config.json";
  listen_addr = ":8080";
  enable_logging = false;
  daemon_mode = false;
  max_retries = pos 6;
  enable_ui = false;
}

-- One argument as the flag package reads it.
pub data Argument : Type 0 where
  positional end_of_flags malformed : Argument
  flag : String → Option String → Argument

-- A flag's name and its value, cut at the first '='.
unfoldable pub cut_value : String → String × Option String
cut_value String.[] = (String.[], none)
cut_value (String.◌∷◌ c s) =
    let (name, value) = cut_value s in
    if eqb (code c) b'=' then (String.[], some s) else (String.◌∷◌ c name, value)

-- What follows the dashes.
unfoldable pub read_name : String → Argument
unfolding cut_value
read_name String.[] = malformed
read_name (String.◌∷◌ c s) =
    if eqb (code c) b'-' || eqb (code c) b'='
    then malformed
    else flag (cut_value (String.◌∷◌ c s)).0 (cut_value (String.◌∷◌ c s)).1

unfoldable pub read_argument : String → Argument
unfolding read_name
read_argument s = elim (strip_prefix? "-" s) [
  | none ↦ positional
  | some rest ↦ elim (strip_prefix? "-" rest) [
    | none ↦ if rest == "" then positional else read_name rest
    | some name ↦ if name == "" then end_of_flags else read_name name
  ]
]

-- The flags of type bool.
unfoldable pub is_switch : String → Bool
is_switch name = name == "log" || name == "daemon" || name == "ui"

unfoldable pub set_switch : String → Bool → Options → Options
set_switch name b o =
    if name == "log"
    then record o { enable_logging = b }
    else if name == "daemon"
    then record o { daemon_mode = b }
    else record o { enable_ui = b }

-- A switch without a value is on.
abbrev pub switch_value : Option String → Option Bool
switch_value none = some true
switch_value (some v) = parse_bool v

module _ (parse_int : String → Option ℤ) where
  -- The other flags; `none` for one that is not defined or a value that does not parse.
  unfoldable pub set_option : String → String → Options → Option Options
  set_option name v o =
      if name == "config"
      then some (record o { config_path = v })
      else if name == "listen"
      then some (record o { listen_addr = v })
      else if name == "retries"
      then elim (parse_int v) [ none ↦ none | some n ↦ some (record o { max_retries = n }) ]
      else none

  -- flag.Parse; `none` if it ends the program. The option is a flag whose value comes next.
  unfoldable pub parse_flags : Options → Option String → List String → Option Options
  unfolding read_argument is_switch set_switch set_option
  parse_flags o none [] = some o
  parse_flags o (some name) [] = none
  parse_flags o (some name) (v ∷ args) = elim (set_option name v o) [
    | none ↦ none
    | some o' ↦ parse_flags o' none args
  ]
  parse_flags o none (a ∷ args) = elim (read_argument a) [
    | positional ↦ some o
    | end_of_flags ↦ some o
    | malformed ↦ none
    | flag name value ↦ elim (is_switch name) [
      | true ↦ elim (switch_value value) [
        | none ↦ none
        | some b ↦ parse_flags (set_switch name b o) none args
      ]
      | false ↦ elim value [
        | none ↦ parse_flags o (some name) args
        | some v ↦ elim (set_option name v o) [ none ↦ none | some o' ↦ parse_flags o' none args ]
      ]
    ]
  ]

-- The arguments of the daemon: those of this process without the plain daemon flag.
unfoldable pub daemon_args : List String → List String
daemon_args args = keep (λ a. not (a == "-daemon") && not (a == "--daemon")) args

-- What main comes to: `daemon_started` has the arguments behind the program's name that the daemon
-- gets.
pub data Outcome : Type 0 where
  usage bad_retries bad_config daemon_failed app_failed : Outcome
  daemon_started : List String → Outcome
  served : Bool → Outcome

-- main, on the arguments behind the program's name. `valid` is validateConfigPath; `forks` says
-- whether the daemon's process and its PID file were made, `builds` and `serves` whether server.New
-- and Start succeed.
unfoldable pub main :
    (String → Option ℤ) → (String → Bool) → Bool → Bool → Bool → List String → Outcome
unfolding parse_flags daemon_args
main parse_int valid forks builds serves args =
    elim (parse_flags parse_int default_options none args) [
      | none ↦ usage
      | some o ↦
          if ltb_ℤ o.max_retries (pos 0)
          then bad_retries
          else if not (valid o.config_path)
          then bad_config
          else if o.daemon_mode
          then (if forks then daemon_started (daemon_args args) else daemon_failed)
          else if builds
          then served serves
          else app_failed
    ]

-- The exit status; flag.Parse ends the program with 2, or with 0 where help was asked for.
unfoldable pub exit_status : Outcome → Option ℕ
exit_status usage = none
exit_status (daemon_started args) = some 0
exit_status (served ok) = some 0
exit_status _ = some 1
