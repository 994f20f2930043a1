-- ===== src/Config/Start.antt =====
-- accelerator/config.c: the loops over the command line and over the configuration file.
use tangle_accelerator.Base.{
  ℕ, Bool, true, false, ◌==◌, if◌then◌else◌, Option, none, some, Bytes, List, [], ◌∷◌, codes,
  bytes_eq,
}
use tangle_accelerator.Errors.{
  Status, ok, conf_missing_argument, conf_unknown_option, conf_fopen_error, conf_parser_error,
}
use tangle_accelerator.Exec.{Outcome, done, fail}
use tangle_accelerator.Config.{Outside, TaCore, cli_core_set}

-- What getopt_long returns, with optarg.
pub data Getopt : Type 0 where
  missing : Getopt
  unknown : Getopt
  help : Getopt
  version : Getopt
  option : ℕ → Option Bytes → Getopt

-- A loop returns a status and the configuration, or ends the process.
pub data Init : Type 0 where
  returns : Status → TaCore → Init
  exits : Init

abbrev pub conf_key : ℕ
conf_key = 142

-- `has_arg`
pub data HasArg : Type 0 where
  no_argument required_argument optional_argument : HasArg

-- The names in cli_info.h with what they take and their values; a name that is not there has 0.
abbrev pub ta_cli_arguments_g : List (Bytes × HasArg × ℕ)
ta_cli_arguments_g =
    (codes "help", no_argument, b'h')
    ∷ (codes "version", no_argument, b'v')
    ∷ (codes "ta_host", required_argument, 127)
    ∷ (codes "ta_port", required_argument, 128)
    ∷ (codes "http_threads", required_argument, 148)
    ∷ (codes "node_host", required_argument, 130)
    ∷ (codes "node_port", required_argument, 131)
    ∷ (codes "CA_PEM", required_argument, 152)
    ∷ (codes "mqtt_host", required_argument, 133)
    ∷ (codes "mqtt_root", required_argument, 134)
    ∷ (codes "node_address", required_argument, 132)
    ∷ (codes "redis_host", required_argument, 135)
    ∷ (codes "redis_port", required_argument, 136)
    ∷ (codes "db_host", required_argument, 137)
    ∷ (codes "milestone_depth", optional_argument, 138)
    ∷ (codes "mwm", optional_argument, 139)
    ∷ (codes "seed", optional_argument, 140)
    ∷ (codes "cache", required_argument, 141)
    ∷ (codes "ipc", required_argument, 150)
    ∷ (codes "config", required_argument, 142)
    ∷ (codes "proxy_passthrough", no_argument, 143)
    ∷ (codes "health_track_period", required_argument, 144)
    ∷ (codes "no-gtta", no_argument, 145)
    ∷ (codes "buffer_list", required_argument, 146)
    ∷ (codes "complete_list", required_argument, 147)
    ∷ (codes "cache_capacity", required_argument, 149)
    ∷ (codes "quiet", no_argument, 151)
    ∷ (codes "runtime_cli", no_argument, 129)
    ∷ []

abbrev pub key_in : Bytes → List (Bytes × HasArg × ℕ) → ℕ
key_in key [] = 0
key_in key ((name, has_arg, val) ∷ more) =
    let rest = key_in key more in if bytes_eq name key then val else rest

unfoldable pub get_conf_key : Bytes → ℕ
get_conf_key key = key_in key ta_cli_arguments_g

abbrev pub has_argument : HasArg → Bool
has_argument no_argument = false
has_argument _ = true

abbrev pub argument_in : Bytes → List (Bytes × HasArg × ℕ) → Bool
argument_in key [] = false
argument_in key ((name, has_arg, val) ∷ more) =
    let rest = argument_in key more in if bytes_eq name key then has_argument has_arg else rest

-- Whether the name, in full, is that of an option that takes an argument
unfoldable pub takes_argument : Bytes → Bool
takes_argument key = argument_in key ta_cli_arguments_g

-- The tokens of a YAML file in front of the end of its stream; `scan_error` stands for a scan that fails.
pub data YamlToken : Type 0 where
  key_token : YamlToken
  value_token : YamlToken
  scalar : Bytes → YamlToken
  other_token : YamlToken
  scan_error : YamlToken

module _ (o : Outside) where
  abbrev pub set_then : Outcome TaCore → TaCore → (TaCore → Init) → Init
  set_then (done core) old next = next core
  set_then (fail s) old next = returns s old

  abbrev pub unless_failed : Status → TaCore → Init → Init
  unless_failed ok core next = next
  unless_failed s core next = returns s core

  abbrev pub found : Outcome TaCore → TaCore → (TaCore → Status × TaCore) → Status × TaCore
  found (done core) old next = next core
  found (fail s) old next = (s, old)

  abbrev pub if_ok : Status → TaCore → Status × TaCore → Status × TaCore
  if_ok ok core next = next
  if_ok s core next = (s, core)

  -- The loop of ta_core_cli_init: `continue` leaves the test behind the switch out.
  unfoldable pub cli_loop : List Getopt → Status → TaCore → Init
  cli_loop [] ret core = returns ret core
  cli_loop (missing ∷ more) ret core = returns conf_missing_argument core
  cli_loop (unknown ∷ more) ret core = cli_loop more conf_unknown_option core
  cli_loop (help ∷ more) ret core = exits
  cli_loop (version ∷ more) ret core = exits
  cli_loop (option key optarg ∷ more) ret core =
      let skip = unless_failed ret core (cli_loop more ret core) in
      let set = set_then (cli_core_set o core key optarg) core (λ c. cli_loop more ok c) in
      if key == conf_key then skip else set

  unfoldable pub ta_core_cli_init : List Getopt → TaCore → Init
  unfolding cli_loop
  ta_core_cli_init args core = cli_loop args ok core

  -- The first loop of ta_core_file_init, which looks for the path of the configuration file.
  unfoldable pub find_conf : List Getopt → Status → TaCore → Status × TaCore
  find_conf [] ret core = (ret, core)
  find_conf (missing ∷ more) ret core = (conf_missing_argument, core)
  find_conf (unknown ∷ more) ret core = find_conf more conf_unknown_option core
  find_conf (help ∷ more) ret core = if_ok ret core (find_conf more ret core)
  find_conf (version ∷ more) ret core = if_ok ret core (find_conf more ret core)
  find_conf (option key optarg ∷ more) ret core =
      let skip = if_ok ret core (find_conf more ret core) in
      let set = found (cli_core_set o core key optarg) core (λ c. find_conf more ok c) in
      if key == conf_key then set else skip

  -- The loop over the tokens: `is_value` is `state`, and `key` the last name's.
  unfoldable pub file_loop : List YamlToken → Bool → ℕ → Status → TaCore → Status × TaCore
  unfolding get_conf_key
  file_loop [] is_value key ret core = (ret, core)
  file_loop (key_token ∷ more) is_value key ret core = file_loop more false key ret core
  file_loop (value_token ∷ more) is_value key ret core = file_loop more true key ret core
  file_loop (scalar arg ∷ more) true key ret core =
      found (cli_core_set o core key (some arg)) core (λ c. file_loop more true key ok c)
  file_loop (scalar arg ∷ more) false key ret core =
      file_loop more false (get_conf_key arg) ret core
  file_loop (other_token ∷ more) is_value key ret core = file_loop more is_value key ret core
  file_loop (scan_error ∷ more) is_value key ret core = (conf_parser_error, core)

  -- Behind the first loop. In front of the first name, `key` is -1, for which 0 stands: neither is an option's.
  abbrev pub read_file :
      (Bytes → Option (List YamlToken)) → Status × TaCore → Bytes → Status × TaCore
  read_file contents (ret, core) [] = (ok, core)
  read_file contents (ret, core) (c ∷ path) = elim (contents (c ∷ path)) [
    | none ↦ (conf_fopen_error, core)
    | some tokens ↦ file_loop tokens false 0 ret core
  ]

  -- Whether the parser can be made, and what a file holds, are arguments.
  unfoldable pub ta_core_file_init :
      Bool → (Bytes → Option (List YamlToken)) → List Getopt → TaCore → Status × TaCore
  unfolding find_conf file_loop
  ta_core_file_init false contents args core = (conf_parser_error, record core { conf_file = [] })
  ta_core_file_init true contents args core =
      let (ret, core') = find_conf args ok (record core { conf_file = [] }) in
      read_file contents (ret, core') core'.conf_file

  -- The tokens of a mapping from names to texts.
  abbrev pub mapping : List (Bytes × Bytes) → List YamlToken
  mapping [] = []
  mapping ((name, value) ∷ more) =
      key_token ∷ scalar name ∷ value_token ∷ scalar value ∷ mapping more

  -- What getopt_long returns for the arguments `--name=value`, with each name in full: '?' where no option has the
  -- name, or one that takes no argument.
  abbrev pub command_line : List (Bytes × Bytes) → List Getopt
  command_line [] = []
  command_line ((name, value) ∷ more) =
      (if takes_argument name then option (get_conf_key name) (some value) else unknown)
      ∷ command_line more

  abbrev pub init_of : Status × TaCore → Init
  init_of (s, core) = returns s core
