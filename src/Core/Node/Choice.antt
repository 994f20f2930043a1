-- ===== src/Core/Node/Choice.antt =====
-- accelerator/core/periodical_task.c, accelerator/core/core.c: which node is chosen, and what is reported.
use tangle_accelerator.Base.{
  ℕ, zero, suc, ◌<◌, Option, none, some, Bytes, List, [], ◌∷◌, length, All, ◌++◌, ◌≡◌, refl, arith,
}
use tangle_accelerator.Errors.{Status, ok}
use tangle_accelerator.Exec.{Outcome, done, fail}
use tangle_accelerator.Env.{Env, Cjson}
use tangle_accelerator.Core.Node.{
  Service, ta_get_node_status, bind, settle, update_loop, ta_update_full_node_connection,
}

settle_keeps :
    {A : Type 0} (P : A → Type 0) (o : Outcome (Unit {0})) (found rest : A)
    → P found
    → P rest
    → P (settle o found rest)
settle_keeps P (done d) found rest f r = f
settle_keeps P (fail s) found rest f r = r

module _ (json : Cjson) (e : Env) (host_max : ℕ) where
  abbrev status : Service → e.World → Outcome (Unit {0})
  status s w = (ta_get_node_status json e s w).0

  -- A list entry whose status query fails, and one whose query succeeds, in every world.
  abbrev pub IsDown : Option Bytes × ℕ → Type 0
  IsDown (none, port) = ⊥
  IsDown (some host, port) =
      (w : e.World) → (s : Status) × (status (bind json e host_max host port) w ≡ fail s)

  abbrev pub IsUp : Bytes → ℕ → Type 0
  IsUp host port = (w : e.World) → status (bind json e host_max host port) w ≡ done tt

  loop-ok :
      (rounds : ℕ) (hosts : List (Option Bytes × ℕ)) (service : Service) (w : e.World)
      → (update_loop json e host_max rounds hosts service w).0 ≡ ok
  unfolding update_loop
  loop-ok zero hosts service w = refl
  loop-ok (suc rounds) [] service w = refl
  loop-ok (suc rounds) ((none, port) ∷ hosts) service w = refl
  loop-ok (suc rounds) ((some host, port) ∷ hosts) service w =
      settle_keeps {A = Status × Service × e.World} (λ r. r.0 ≡ ok)
        (status (bind json e host_max host port) w) _ _ refl
        (loop-ok rounds hosts (bind json e host_max host port) _)

  -- The status returned is SC_OK whatever the nodes answer, so also where every node is down.
  ta_update_full_node_connection-ok :
      (hosts : List (Option Bytes × ℕ)) (service : Service) (w : e.World)
      → (ta_update_full_node_connection json e host_max hosts service w).0 ≡ ok
  unfolding ta_update_full_node_connection
  ta_update_full_node_connection-ok hosts service w = loop-ok 5 hosts service w

  loop-first :
      (rounds : ℕ) (before after : List (Option Bytes × ℕ)) (host : Bytes) (port : ℕ)
      (service : Service) (w : e.World)
      → All IsDown before
      → IsUp host port
      → length before < rounds
      → (update_loop json e host_max rounds (before ++ (some host, port) ∷ after) service w).1
        ≡ bind json e host_max host port
  unfolding update_loop
  loop-first zero before after host port service w down up h = absurd (omega arith)
  loop-first (suc rounds) [] after host port service w down up h = rw (up w)
  loop-first (suc rounds) ((none, q) ∷ before) after host port service w down up h = absurd down.0
  loop-first (suc rounds) ((some g, q) ∷ before) after host port service w down up h =
      rw ((down.0 w).1) (loop-first rounds before after host port _ _ down.1 up (omega arith))

  -- The service is bound to the first node on the list that is up, if the nodes before it are down and
  -- fewer than five: later nodes do not count, and the node that was bound before does not either.
  pub ta_update_full_node_connection-first :
      (before after : List (Option Bytes × ℕ)) (host : Bytes) (port : ℕ) (service : Service)
      (w : e.World)
      → All IsDown before
      → IsUp host port
      → length before < 5
      → (ta_update_full_node_connection json e host_max
          (before ++ (some host, port) ∷ after)
          service
          w).1
        ≡ bind json e host_max host port
  unfolding ta_update_full_node_connection
  ta_update_full_node_connection-first before after host port service w down up h =
      loop-first 5 before after host port service w down up h
