-- ===== src/Core/Requests.antt =====
-- accelerator/core/core.c and accelerator/core/periodical_task.c: what the request buffer promises, as an
-- abstract state with three operations, and when a database shows such a state.
pub mod Frame
pub mod Submit
pub mod View
pub mod Complete
pub mod Collect
use tangle_accelerator.Base.{
  ℕ, Option, none, Bytes, List, [], ◌∷◌, ◌++◌, map, length, All, rev_onto, NulFree, ◌≡◌, ◌≢◌,
}
use tangle_accelerator.Env.{Env}
use tangle_accelerator.Env.Laws.{RedisLaws}
use tangle_accelerator.Core.Buffer.{TaCache}

-- A request: its UUID, and its transactions in the order of the stored list.
pub record Request : Type 0 where
  pub id : Bytes
  pub stored : List Bytes

-- The requests that wait to be sent and those that were sent, each with the latest first.
pub record Requests : Type 0 where
  pub pending : List Request
  pub sent : List Request

-- A client's bundle gets a UUID.
unfoldable pub submit : Bytes → List Bytes → Requests → Requests
submit id bundle a = record a {
  pending = record { id = id; stored = rev_onto bundle [] } ∷ a.pending;
}

-- The request was sent, and the node told the transactions it has.
unfoldable pub complete : Request → List Request → List Bytes → Requests → Requests
complete x more trytes a = record {
  pending = more;
  sent = record { id = x.id; stored = rev_onto trytes [] } ∷ a.sent;
}

-- The client took the answer.
unfoldable pub collect : List Request → Requests → Requests
collect more a = record a { sent = more }

-- The two lists' names are C strings and differ.
pub record AreNames (cache : TaCache) : Type 0 where
  pub buffer_text : NulFree cache.buffer_list_name
  pub complete_text : NulFree cache.complete_list_name
  pub apart : cache.buffer_list_name ≢ cache.complete_list_name

abbrev pub ids : List Request → List Bytes
ids = map (λ x. x.id)

-- The UUIDs of the list are all different from `u`.
abbrev pub Fresh : Bytes → List Request → Type 0
Fresh u = All (λ x. u ≢ x.id)

abbrev pub Unique : List Request → Type 0
Unique [] = Unit
Unique (x ∷ xs) = Fresh x.id xs × Unique xs

module _ {e : Env} (r : RedisLaws e) (cache : TaCache) where
  -- A request stands in the database `w`: its bundle is the list under its UUID.
  pub record Stands (w : e.World) (x : Request) : Type 0 where
    pub id_text : NulFree x.id
    pub id_length : length x.id ≡ 36
    pub not_buffer : x.id ≢ cache.buffer_list_name
    pub not_complete : x.id ≢ cache.complete_list_name
    pub no_string : r.strings w x.id ≡ none
    pub bundle : r.items w x.id ≡ x.stored

  -- The database `w` shows the abstract state.
  pub record Shows (w : e.World) (a : Requests) : Type 0 where
    pub pending_ids : r.items w cache.buffer_list_name ≡ ids a.pending
    pub sent_ids : r.items w cache.complete_list_name ≡ ids a.sent
    pub buffer_list : r.strings w cache.buffer_list_name ≡ none
    pub complete_list : r.strings w cache.complete_list_name ≡ none
    pub pending_stand : All (Stands w) a.pending
    pub sent_stand : All (Stands w) a.sent
    pub unique : Unique (a.pending ++ a.sent)
