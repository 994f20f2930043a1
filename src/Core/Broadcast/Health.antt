-- ===== src/Core/Broadcast/Health.antt =====
-- accelerator/core/periodical_task.c: health_track, the thread that watches the node, broadcasts and evicts.
use tangle_accelerator.Base.{ℕ, zero, suc, Bool, true, false, Option, Bytes, List, if◌then◌else◌}
use tangle_accelerator.Errors.{Status, ok, core_node_unsync, cclient_failed_response}
use tangle_accelerator.Exec.{Outcome, done, fail, Exec}
use tangle_accelerator.Env.{Env, Cjson}
use tangle_accelerator.Env.Iota.{Iota}
use tangle_accelerator.Core.Buffer.{TaCache}
use tangle_accelerator.Core.Node.{Service, ta_get_node_status, ta_update_full_node_connection}
use tangle_accelerator.Core.Attach.{SendConfig}
use tangle_accelerator.Core.Broadcast.{
  Loop, ended, running, broadcast_buffered_txn, broadcast_buffered_send_mam_request, evict,
}

abbrev pub needs_update : Outcome (Unit {0}) → Bool
needs_update (fail core_node_unsync) = true
needs_update (fail cclient_failed_response) = true
needs_update _ = false

abbrev pub outcome_of : Status → Outcome (Unit {0})
outcome_of ok = done tt
outcome_of s = fail s

module _ {W : Type 0} where
  -- Behind a loop that came back.
  abbrev pub behind : {A B : Type 0} → Loop A × W → (A → W → Loop B × W) → Loop B × W
  behind (ended a, w) next = next a w
  behind (running, w) next = (running, w)

  -- `if (ret == SC_OK)`
  abbrev pub when_ok :
      Outcome (Unit {0}) → W → (W → Loop (Outcome (Unit {0})) × W) → Loop (Outcome (Unit {0})) × W
  when_ok (done u) w call = call w
  when_ok (fail s) w call = (ended (fail s), w)

-- What the thread reads of the configuration, and what it calls; `fuel` bounds the rounds of each inner loop.
pub record Watch (e : Env) : Type 1 where
  pub json : Cjson
  pub iota : Iota e.World
  pub send_mam : Bytes → Exec e.World Bytes
  pub space : e.World → ℕ × e.World
  pub host_max : ℕ
  pub txn_size : ℕ
  pub hosts : List (Option Bytes × ℕ)
  pub iconf : SendConfig
  pub cache : TaCache
  pub capacity : ℕ
  pub fuel : ℕ

module _ (e : Env) (state : Bool) (t : Watch e) where
  -- The status of the node and, where it is down or behind, another node.
  unfoldable pub watched : Service → e.World → Outcome (Unit {0}) × Service × e.World
  watched service w =
      let (ret, w1) = ta_get_node_status t.json e service w in
      let (s, service', w2) =
        ta_update_full_node_connection t.json e t.host_max t.hosts service w1 in
      if needs_update ret then (outcome_of s, service', w2) else (ret, service, w1)

  -- A turn of the loop, up to the sleep: the service and the array `uuid` behind it.
  unfoldable pub turn : Service → Bytes → e.World → Loop (Service × Bytes) × e.World
  unfolding watched
  turn service uuid w =
      let (ret, service', w1) = watched service w in
      behind
        (when_ok ret w1 (broadcast_buffered_txn e state t.txn_size t.iota t.iconf t.fuel t.cache))
        (λ ret' w2.
          behind
            (when_ok ret' w2 (
              broadcast_buffered_send_mam_request e state t.txn_size t.iota t.iconf t.send_mam
                t.fuel t.cache))
            (λ _ w3.
              behind (evict e state t.fuel t.space t.capacity t.cache uuid w3)
                (λ uuid' w4. (ended (service', uuid'), w4))))

  -- The first `turns` turns, while the cache stays on.
  unfoldable pub health_track : ℕ → Service → Bytes → e.World → Loop (Service × Bytes) × e.World
  unfolding turn
  health_track zero service uuid w = (ended (service, uuid), w)
  health_track (suc turns) service uuid w =
      behind (turn service uuid w) (λ next w'. health_track turns next.0 next.1 w')
