-- ===== src/Core/Node.antt =====
-- accelerator/core/core.c, accelerator/core/serializer/serializer.c, accelerator/core/periodical_task.c: the
-- state of the full node, and the choice of another one.
pub mod Choice
use tangle_accelerator.Base.{
  ℤ, difference, is_above, ℕ, zero, suc, ◌+◌, ◌-◌, Bool, true, false, Option, none, some, Bytes,
  List, [], ◌∷◌, ltb, if◌then◌else◌, codes, c_str, strncpy,
}
use tangle_accelerator.Errors.{
  Status, ok, cclient_failed_response, core_node_unsync, serializer_null, serializer_json_parse,
}
use tangle_accelerator.Exec.{Outcome, done, fail, Exec}
use tangle_accelerator.Env.{Env, Cjson}

-- `service->http`: the node that requests go to.
pub record Service : Type 0 where
  pub host : Bytes
  pub port : ℕ

-- The milestone indices of a response: `valueint` is an int.
pub record Milestones : Type 0 where
  pub latest : ℤ
  pub latest_solid : ℤ

-- `if (ta_get_node_status(service) == SC_OK)`: stop with `found`, else go on.
abbrev pub settle : {A : Type 0} → Outcome (Unit {0}) → A → A → A
settle (done _) found rest = found
settle (fail _) found rest = rest

module _ (json : Cjson) where
  abbrev item : json.Json → Bytes → Outcome ℤ
  item obj name = elim (json.number_item obj name) [ some n ↦ done n | none ↦ fail serializer_null ]

  abbrev both : Outcome ℤ → Outcome ℤ → Outcome Milestones
  both (done a) (done b) = done (record { latest = a; latest_solid = b })
  both (done a) (fail s) = fail s
  both (fail s) b = fail s

  abbrev of_parsed : Option json.Json → Outcome Milestones
  of_parsed none = fail serializer_json_parse
  of_parsed (some obj) =
      both (item obj (codes "latestMilestoneIndex"))
        (item obj (codes "latestSolidSubtangleMilestoneIndex"))

  unfoldable pub get_node_status_milestone_deserialize : Option Bytes → Outcome Milestones
  get_node_status_milestone_deserialize none = fail serializer_null
  get_node_status_milestone_deserialize (some obj) = of_parsed (json.parse obj)

  -- `(latestSolidSubtangleMilestoneIndex - latestMilestoneIndex) > 1`; a difference that no int holds is undefined
  -- in C.
  abbrev pub synced : Outcome Milestones → Outcome (Unit {0})
  synced (fail s) = fail s
  synced (done m) =
      if is_above 1 (difference m.latest_solid m.latest) then fail core_node_unsync else done tt

  abbrev pub answered : Option Bytes → Outcome (Unit {0})
  answered none = fail cclient_failed_response
  answered (some text) = synced (get_node_status_milestone_deserialize (some (c_str text)))

  module _ (e : Env) where
    unfoldable pub ta_get_node_status : Service → Exec e.World Unit
    unfolding get_node_status_milestone_deserialize
    ta_get_node_status service w =
        let (text, w') = e.query_node service.host service.port w in (answered text, w')

    -- `host_max` is HOST_MAX_LEN of the IOTA library. The host and port lists are one list of pairs, with
    -- `none` for a NULL host.
    module _ (host_max : ℕ) where
      abbrev pub bind : Bytes → ℕ → Service
      bind host port = record { host = c_str (strncpy (host_max - 1) host); port = port }

      -- The loop, with `rounds` of MAX_NODE_LIST_ELEMENTS left.
      unfoldable pub update_loop :
          ℕ → List (Option Bytes × ℕ) → Service → e.World → Status × Service × e.World
      update_loop zero hosts service w = (ok, service, w)
      update_loop (suc rounds) [] service w = (ok, service, w)
      update_loop (suc rounds) ((none, port) ∷ hosts) service w = (ok, service, w)
      update_loop (suc rounds) ((some host, port) ∷ hosts) service w =
          let bound = bind host port in
          let (ret, w') = ta_get_node_status bound w in
          let rest = update_loop rounds hosts bound w' in settle ret (ok, bound, w') rest

      unfoldable pub ta_update_full_node_connection :
          List (Option Bytes × ℕ) → Service → e.World → Status × Service × e.World
      unfolding update_loop
      ta_update_full_node_connection hosts service w = update_loop 5 hosts service w
