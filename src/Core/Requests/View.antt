-- ===== src/Core/Requests/View.antt =====
-- accelerator/core/core.c, accelerator/core/periodical_task.c: a world that shows the same database shows the
-- same requests.
use tangle_accelerator.Base.{List, [], ◌∷◌, All, ◌∙◌}
use tangle_accelerator.Env.{Env}
use tangle_accelerator.Env.Laws.{RedisLaws, LockLaws}
use tangle_accelerator.Env.Frame.{Near}
use tangle_accelerator.Core.Buffer.{TaCache}
use tangle_accelerator.Core.Requests.{Request, Requests, Stands, Shows}

module _ {e : Env} {r : RedisLaws e} (l : LockLaws e r) (cache : TaCache) (v w : e.World)
    (n : Near l v w) where
  Stands-each : (xs : List Request) → All (Stands r cache v) xs → All (Stands r cache w) xs
  Stands-each [] a = tt
  Stands-each (x ∷ xs) (s, a) = (
    record {
      id_text = s.id_text;
      id_length = s.id_length;
      not_buffer = s.not_buffer;
      not_complete = s.not_complete;
      no_string = n.near_strings x.id ∙ s.no_string;
      bundle = n.near_items x.id ∙ s.bundle;
    },
    Stands-each xs a,
  )

  pub Shows-Near : (a : Requests) → Shows r cache v a → Shows r cache w a
  Shows-Near a s = record {
    pending_ids = n.near_items cache.buffer_list_name ∙ s.pending_ids;
    sent_ids = n.near_items cache.complete_list_name ∙ s.sent_ids;
    buffer_list = n.near_strings cache.buffer_list_name ∙ s.buffer_list;
    complete_list = n.near_strings cache.complete_list_name ∙ s.complete_list;
    pending_stand = Stands-each a.pending s.pending_stand;
    sent_stand = Stands-each a.sent s.sent_stand;
    unique = s.unique;
  }
