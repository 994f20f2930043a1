-- ===== src/Config/Reached.antt =====
-- accelerator/config.c: what holds of every configuration that options make of the default one.
use tangle_accelerator.Base.{
  ℕ, ◌^◌, ◌≤◌, ◌<◌, Bool, true, false, not, ◌&&◌, ◌||◌, ◌==◌, ◌⊎◌, Option, Bytes, List, [], ◌∷◌,
  length, All, ◌≡◌,
}
use tangle_accelerator.Exec.{done}
use tangle_accelerator.Config.Numbers.{pos}
use tangle_accelerator.Config.{
  Outside, TaCore, CliCase, period_cli, default_core, is_positive, cli_core_set,
}

module _ (o : Outside) where
  -- A configuration that the options of the table in cli_info.h, whose numbers are below 1800, make.
  pub data Reached (pem : Bytes) : TaCore → Type 0 where
    start : Reached pem (default_core pem)
    step :
        {c c' : TaCore}
        → Reached pem c
        → (key : ℕ) (value : Option Bytes) → key < 1800
        → cli_core_set o c key value ≡ done c'
        → Reached pem c'

  -- GTTA is on, the period of health_track is half an hour, there are five hosts and five ports, ports are below
  -- 2^16, at most as many threads are used as are left for HTTP, or four, the cache's capacity is positive, and the
  -- depth and the weight are below 2^8.
  abbrev pub IsConfigured : TaCore → Type 0
  IsConfigured c =
      (c.ta_conf.cli_options.cli_gtta ≡ true)
      × (c.ta_conf.health_track_period ≡ pos 1800)
      × (length c.ta_conf.iota_host_list ≡ 5)
      × (length c.ta_conf.iota_port_list ≡ 5)
      × All (λ p. p < 2 ^ 16) c.ta_conf.iota_port_list
      × ((c.ta_conf.http_tpool_size ≤ o.max_http_tpool_size) ⊎ (c.ta_conf.http_tpool_size ≡ 4))
      × (c.http.port < 2 ^ 16)
      × (c.cache.port < 2 ^ 16)
      × (is_positive c.cache.capacity ≡ true)
      × (c.iota_conf.milestone_depth < 2 ^ 8)
      × (c.iota_conf.mwm < 2 ^ 8)

  abbrev is_period : CliCase → Bool
  is_period period_cli = true
  is_period _ = false

  abbrev only_1800 : List (ℕ × CliCase) → Bool
  only_1800 [] = true
  only_1800 ((n, k) ∷ more) = (not (is_period k) || (n == 1800)) && only_1800 more
