-- ===== src/Config.antt =====
-- accelerator/config.c, accelerator/config.h, accelerator/cli_info.h: the configuration and the options that
-- change it, in the build without DB_ENABLE and MQTT_ENABLE.
pub mod Numbers
pub mod Numeric
pub mod Reached
pub mod Start
use tangle_accelerator.Base.{
  ℕ, zero, suc, ◌*◌, ◌-◌, ◌%◌, ◌^◌, Bool, true, false, not, ◌&&◌, ◌||◌, ◌==◌, ltb, leb,
  if◌then◌else◌, Option, none, some, Bytes, List, [], ◌∷◌, replicate, rev_onto, codes, c_str,
  strncpy,
}
use tangle_accelerator.Errors.{null}
use tangle_accelerator.Exec.{Outcome, done, fail}
use tangle_accelerator.Core.Attach.{SendConfig}
use tangle_accelerator.Config.Numbers.{ℤ, pos, negsuc, Strtol, strtol, is_int, is_up_to, low_bits}

abbrev pub max_node_list_elements : ℕ
max_node_list_elements = 5

-- HOST_MAX_LEN of the IOTA library
abbrev pub host_max_len : ℕ
host_max_len = 128

-- The bits of cli_options.
pub record CliOptions : Type 0 where
  pub cli_proxy_passthrough : Bool
  pub cli_gtta : Bool
  pub cli_runtime_cli : Bool
  pub cli_quiet_mode : Bool

pub record TaConfig : Type 0 where
  pub host : Bytes
  pub port : ℤ
  pub iota_host_list : List (Option Bytes)
  pub iota_port_list : List ℕ
  pub health_track_period : ℤ
  pub http_tpool_size : ℕ
  pub cli_options : CliOptions
  pub socket : Bytes

pub record CacheConfig : Type 0 where
  pub host : Bytes
  pub buffer_list_name : Bytes
  pub complete_list_name : Bytes
  pub mam_buffer_list_name : Bytes
  pub mam_complete_list_name : Bytes
  pub port : ℕ
  pub state : Bool
  pub capacity : ℤ

pub record IotaConfig : Type 0 where
  pub milestone_depth : ℕ
  pub mwm : ℕ
  pub seed : Bytes

-- http of iota_client_service_t
pub record HttpInfo : Type 0 where
  pub host : Bytes
  pub port : ℕ
  pub ca_pem : Bytes

-- `errno_range` tells whether errno is ERANGE.
pub record TaCore : Type 0 where
  pub ta_conf : TaConfig
  pub cache : CacheConfig
  pub iota_conf : IotaConfig
  pub http : HttpInfo
  pub conf_file : Bytes
  pub errno_range : Bool

-- The cases of the switch; `unmatched` is a key without a case.
pub data CliCase : Type 0 where
  ta_host_cli : CliCase
  ta_port_cli : CliCase
  http_threads_cli : CliCase
  node_host_cli : CliCase
  node_port_cli : CliCase
  ca_pem_cli : CliCase
  period_cli : CliCase
  cache_cli : CliCase
  ipc_cli : CliCase
  redis_host_cli : CliCase
  redis_port_cli : CliCase
  cache_capacity_cli : CliCase
  milestone_depth_cli : CliCase
  mwm_cli : CliCase
  seed_cli : CliCase
  buffer_list_cli : CliCase
  complete_list_cli : CliCase
  quiet_cli : CliCase
  proxy_api_cli : CliCase
  no_gtta_cli : CliCase
  runtime_cli_cli : CliCase
  conf_cli : CliCase
  unmatched : CliCase

-- The numbers of ta_cli_arg_value_t. In config.c HEALTH_TRACK_PERIOD is the macro of config.h, 1800, and not the
-- option's number, 144.
abbrev pub cases : List (ℕ × CliCase)
cases =
    (127, ta_host_cli)
    ∷ (128, ta_port_cli)
    ∷ (129, runtime_cli_cli)
    ∷ (130, node_host_cli)
    ∷ (131, node_port_cli)
    ∷ (135, redis_host_cli)
    ∷ (136, redis_port_cli)
    ∷ (138, milestone_depth_cli)
    ∷ (139, mwm_cli)
    ∷ (140, seed_cli)
    ∷ (141, cache_cli)
    ∷ (142, conf_cli)
    ∷ (143, proxy_api_cli)
    ∷ (1800, period_cli)
    ∷ (145, no_gtta_cli)
    ∷ (146, buffer_list_cli)
    ∷ (147, complete_list_cli)
    ∷ (148, http_threads_cli)
    ∷ (149, cache_capacity_cli)
    ∷ (150, ipc_cli)
    ∷ (151, quiet_cli)
    ∷ (152, ca_pem_cli)
    ∷ []

abbrev pub case_in : ℕ → List (ℕ × CliCase) → CliCase
case_in key [] = unmatched
case_in key ((n, c) ∷ more) = let rest = case_in key more in if key == n then c else rest

-- The keys that the first switch lets pass without an argument.
abbrev pub needs_none : CliCase → Bool
needs_none cache_cli = true
needs_none proxy_api_cli = true
needs_none quiet_cli = true
needs_none no_gtta_cli = true
needs_none runtime_cli_cli = true
needs_none _ = false

abbrev pub flushed : Bytes → List Bytes → List Bytes
flushed [] rest = rest
flushed (c ∷ run) rest = rev_onto (c ∷ run) [] ∷ rest

-- The tokens that strtok(value, ",") gives one after the other; `run` is the current one, reversed.
unfoldable pub commas : Bytes → Bytes → List Bytes
commas run [] = flushed run []
commas run (c ∷ value) =
    let ended = flushed run (commas [] value) in
    let more = commas (c ∷ run) value in if c == b',' then ended else more

-- The loops end with the tokens or with the array.
unfoldable pub host_loop : List Bytes → List (Option Bytes) → List (Option Bytes)
host_loop [] hosts = hosts
host_loop (p ∷ tokens) [] = []
host_loop (p ∷ tokens) (h ∷ hosts) = some p ∷ host_loop tokens hosts

unfoldable pub port_loop : List Bytes → List ℕ → Bool → List ℕ × Bool
unfolding strtol
port_loop [] ports errno = (ports, errno)
port_loop (p ∷ tokens) [] errno = ([], errno)
port_loop (p ∷ tokens) (old ∷ ports) errno =
    let r = strtol p in
    let errno' = errno || r.range in
    let (more, last) = port_loop tokens ports errno' in
    (
      (if r.moved && not errno' && is_up_to 65535 r.value then low_bits 16 r.value else old) ∷ more,
      last,
    )

-- A numeric option: the value is stored if `strtol_p != value` (`moved`), errno is not ERANGE, and it is in range.
-- errno, which nothing resets, tells of this call or of an earlier one.
abbrev pub number : Strtol → Bool → (ℤ → Bool) → (ℤ → TaCore → TaCore) → TaCore → TaCore
number r moved in_range store core =
    let errno' = core.errno_range || r.range in
    let core' = record core { errno_range = errno' } in
    if moved && not errno' && in_range r.value then store r.value core' else core'

abbrev pub is_positive : ℤ → Bool
is_positive (pos n) = ltb 0 n
is_positive (negsuc n) = false

abbrev pub first_or {ℓ} : {A : Type ℓ} → A → List A → A
first_or d [] = d
first_or d (x ∷ xs) = x

abbrev pub default_core : Bytes → TaCore
default_core pem = record {
  ta_conf = record {
    host = codes "localhost";
    port = pos 8000;
    iota_host_list = replicate max_node_list_elements none;
    iota_port_list = replicate max_node_list_elements 443;
    health_track_period = pos 1800;
    http_tpool_size = 4;
    cli_options = record {
      cli_proxy_passthrough = false;
      cli_gtta = true;
      cli_runtime_cli = false;
      cli_quiet_mode = false;
    };
    socket = codes "/tmp/tangle-accelerator-socket";
  };
  cache = record {
    host = codes "localhost";
    buffer_list_name = codes "txn_buff_list";
    complete_list_name = codes "complete_txn_buff_list";
    mam_buffer_list_name = codes "mam_buff_list";
    mam_complete_list_name = codes "complete_mam_buff_list";
    port = 6379;
    state = false;
    capacity = pos (170 * 1024 * 1024);
  };
  iota_conf = record {
    milestone_depth = 3;
    mwm = 14;
    seed =
        codes "AMRWQP9BUMJALJHBXUCHOD9HFFD9LGTGEAWMJWWXSDVOF9PI9YGJAPBQLQUOMNYEQCZPGCTHGVNNAPGHA";
  };
  http = record { host = codes "localhost"; port = 443; ca_pem = pem };
  conf_file = [];
  errno_range = false;
}

-- What the program calls: the number of threads that are left for HTTP, the text of a PEM file, and what errno is behind
-- opening the file and behind cache_init; `wild` is what strncpy from NULL would read.
pub record Outside : Type 0 where
  pub max_http_tpool_size : ℕ
  pub read_ca_pem : Bytes → Bytes
  pub errno_of_pem : Bytes → Bool → Bool
  pub errno_of_cache : Bytes → ℕ → Bool → Bool
  pub wild : Bytes

module _ (o : Outside) where
  abbrev pub threads : ℕ → ℕ
  threads n = if ltb o.max_http_tpool_size n then o.max_http_tpool_size % 2 ^ 8 else n

  abbrev pub bound_host : Option Bytes → Bytes
  bound_host none = c_str (strncpy (host_max_len - 1) o.wild)
  bound_host (some h) = c_str (strncpy (host_max_len - 1) h)

  abbrev pub with_ta : (TaConfig → TaConfig) → TaCore → TaCore
  with_ta f core = record core { ta_conf = f core.ta_conf }

  abbrev pub with_cache : (CacheConfig → CacheConfig) → TaCore → TaCore
  with_cache f core = record core { cache = f core.cache }

  abbrev pub with_option : (CliOptions → CliOptions) → TaCore → TaCore
  with_option f = with_ta (λ t. record t { cli_options = f t.cli_options })

  -- What the numeric options store; a capacity that is not positive is refused.
  abbrev pub store_port : ℤ → TaCore → TaCore
  store_port z = with_ta (λ t. record t { port = z })

  abbrev pub store_threads : ℤ → TaCore → TaCore
  store_threads z = with_ta (λ t. record t { http_tpool_size = threads (low_bits 8 z) })

  abbrev pub store_period : ℤ → TaCore → TaCore
  store_period z = with_ta (λ t. record t { health_track_period = z })

  abbrev pub store_redis_port : ℤ → TaCore → TaCore
  store_redis_port z = with_cache (λ c. record c { port = low_bits 16 z })

  abbrev pub store_capacity : ℤ → TaCore → TaCore
  store_capacity z =
      with_cache (λ c. record c { capacity = if is_positive z then z else c.capacity })

  abbrev pub store_depth : ℤ → TaCore → TaCore
  store_depth z c = record c { iota_conf = record c.iota_conf { milestone_depth = low_bits 8 z } }

  abbrev pub store_mwm : ℤ → TaCore → TaCore
  store_mwm z c = record c { iota_conf = record c.iota_conf { mwm = low_bits 8 z } }

  -- Only a change to "on" calls cache_init.
  abbrev pub toggled : TaCore → TaCore
  toggled core =
      let state = not core.cache.state in
      let errno = o.errno_of_cache core.cache.host core.cache.port core.errno_range in
      record core {
        cache = record core.cache { state = state };
        errno_range = if state then errno else core.errno_range;
      }

  -- The second switch.
  unfoldable pub set_case : CliCase → Bytes → TaCore → TaCore
  unfolding strtol commas host_loop port_loop
  set_case ta_host_cli value core = with_ta (λ t. record t { host = value }) core
  set_case ta_port_cli value core = let r = strtol value in number r r.moved is_int store_port core
  set_case http_threads_cli value core =
      let r = strtol value in number r r.moved (is_up_to 255) store_threads core
  set_case node_host_cli value core =
      let hosts = host_loop (commas [] value) core.ta_conf.iota_host_list in
      record core {
        ta_conf = record core.ta_conf { iota_host_list = hosts };
        http = record core.http { host = bound_host (first_or none hosts) };
      }
  set_case node_port_cli value core =
      let (ports, errno) =
        port_loop (commas [] value) core.ta_conf.iota_port_list core.errno_range in
      record core {
        ta_conf = record core.ta_conf { iota_port_list = ports };
        http = record core.http { port = first_or 0 ports };
        errno_range = errno;
      }
  set_case ca_pem_cli value core = record core {
    http = record core.http { ca_pem = o.read_ca_pem value };
    errno_range = o.errno_of_pem value core.errno_range;
  }
  set_case period_cli value core = number (strtol value) true is_int store_period core
  set_case cache_cli value core = toggled core
  set_case ipc_cli value core = with_ta (λ t. record t { socket = value }) core
  set_case redis_host_cli value core = with_cache (λ c. record c { host = value }) core
  set_case redis_port_cli value core = number (strtol value) true is_int store_redis_port core
  set_case cache_capacity_cli value core = number (strtol value) true is_int store_capacity core
  set_case milestone_depth_cli value core = number (strtol value) true is_int store_depth core
  set_case mwm_cli value core = number (strtol value) true is_int store_mwm core
  set_case seed_cli value core = record core { iota_conf = record core.iota_conf { seed = value } }
  set_case buffer_list_cli value core = with_cache (λ c. record c { buffer_list_name = value }) core
  set_case complete_list_cli value core =
      with_cache (λ c. record c { complete_list_name = value }) core
  set_case quiet_cli value core = with_option (λ f. record f { cli_quiet_mode = true }) core
  set_case proxy_api_cli value core =
      with_option (λ f. record f { cli_proxy_passthrough = true }) core
  set_case no_gtta_cli value core = with_option (λ f. record f { cli_gtta = true }) core
  set_case runtime_cli_cli value core = with_option (λ f. record f { cli_runtime_cli = true }) core
  set_case conf_cli value core = record core { conf_file = value }
  set_case unmatched value core = core

  -- `value` may be NULL.
  unfoldable pub cli_core_set : TaCore → ℕ → Option Bytes → Outcome TaCore
  unfolding set_case
  cli_core_set core key none =
      if needs_none (case_in key cases)
      then done (set_case (case_in key cases) [] core)
      else fail null
  cli_core_set core key (some value) = done (set_case (case_in key cases) value core)

-- What sending reads of the configuration.
abbrev pub send_config : TaCore → SendConfig
send_config core = record {
  gtta = core.ta_conf.cli_options.cli_gtta;
  milestone_depth = core.iota_conf.milestone_depth;
  mwm = core.iota_conf.mwm;
}
