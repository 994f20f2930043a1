-- ===== src/Examples/Options.antt =====
-- Options at concrete inputs.
use tangle_accelerator.Base.{true, some, Bytes, List, [], ◌∷◌, codes, ◌≡◌, refl, arith}
use tangle_accelerator.Exec.{done}
use tangle_accelerator.Endpoint.Decimal.{fixed}
use tangle_accelerator.Config.Numbers.{pos}
use tangle_accelerator.Config.{Outside, TaCore, default_core, cli_core_set, store_mwm}
use tangle_accelerator.Config.Reached.{Reached}
use tangle_accelerator.Config.Start.{conf_key}
use tangle_accelerator.Config

abbrev eight_threads : Outside
eight_threads = record {
  max_http_tpool_size = 8;
  read_ca_pem = λ path. path;
  errno_of_pem = λ path e. e;
  errno_of_cache = λ host port e. e;
  wild = [];
}

abbrev begun : TaCore
begun = default_core (codes "PEM")

-- Behind `--no-gtta`.
abbrev no_gtta_core : TaCore
no_gtta_core = begun

-- Behind `--http_threads 200` too.
abbrev threads_core : TaCore
threads_core = record begun { ta_conf = record begun.ta_conf { http_tpool_size = 8 } }

cli_core_set_stores_example :
    cli_core_set eight_threads begun 139 (some (fixed 4 15))
    ≡ done (store_mwm eight_threads (pos 15) begun)
cli_core_set_stores_example =
    Config.Numeric.cli_core_set_stores eight_threads begun 139 3 15 refl refl (omega arith)
      (omega arith)

-- A number was out of range.
abbrev stuck_core : TaCore
stuck_core = record begun { errno_range = true }

cli_core_set_sticks_example :
    cli_core_set eight_threads stuck_core 128 (some (codes "8001")) ≡ done stuck_core
cli_core_set_sticks_example =
    Config.Numeric.cli_core_set_sticks eight_threads stuck_core 128 (codes "8001") refl refl

abbrev settings : List (Bytes × Bytes)
settings = (codes "mwm", codes "9") ∷ (codes "ta_host", codes "h") ∷ []
