-- ===== src/Core/Requests/Submit.antt =====
-- accelerator/core/core.c: push_txn_to_buffer does what `submit` says.
use tangle_accelerator.Base.{ℕ, true, none, Bytes, List, [], ◌∷◌, ◌++◌, rev_onto, ◌≡◌, ◌≢◌, ap, ◌∙◌}
use tangle_accelerator.Exec.{done}
use tangle_accelerator.Env.{Env}
use tangle_accelerator.Env.Laws.{RedisLaws, UuidLaws}
use tangle_accelerator.Cache.Steps.{IsAlive}
use tangle_accelerator.Core.Buffer.{TaCache, push_txn_to_buffer}
use tangle_accelerator.Core.Buffer.Push.{HaveSize, push_txn_to_buffer_lem}
use tangle_accelerator.Core.Requests.{Requests, AreNames, Shows, Fresh, submit}
use tangle_accelerator.Core.Requests.Frame.{ChangedAt, Stands-All, Fresh-left, Fresh-right}

module _ {e : Env} (r : RedisLaws e) (alive : IsAlive r) (u : UuidLaws e r) (txn_size : ℕ)
    (cache : TaCache) (names : AreNames cache) where
  -- While redis refuses no command: if the database shows an abstract state, the names of both lists hold no NUL and
  -- differ, the new UUID is not in use (by no request, as no list's name and as no key), and the transactions have the
  -- serialized size, then buffering the bundle succeeds, and the database then shows the state with the request submitted under that UUID.
  pub push_txn_to_buffer-submit :
      (raw : List Bytes) (w : e.World) (a : Requests)
      → let uuid = (e.new_uuid w).0 in
        Shows r cache w a
        → HaveSize r alive txn_size raw
        → Fresh uuid (a.pending ++ a.sent)
        → uuid ≢ cache.buffer_list_name
        → uuid ≢ cache.complete_list_name
        → r.strings w uuid ≡ none
        → r.items w uuid ≡ []
        → let (ret, text, w') = push_txn_to_buffer e true txn_size cache raw true w in
          (ret ≡ done tt) × (text ≡ uuid) × Shows r cache w' (submit uuid raw a)
  unfolding submit
  push_txn_to_buffer-submit raw w a s size fresh nb nc no_string no_items =
      let uuid = (e.new_uuid w).0 in
      let (ret, text, under, first, kept, strings) =
        push_txn_to_buffer_lem r alive u txn_size cache raw w nb no_string s.buffer_list size in
      let w' = (push_txn_to_buffer e true txn_size cache raw true w).2 in
      let changed : ChangedAt r cache uuid w w' = record {
        items_kept = λ j hu hb hc. kept j hu hb;
        strings_kept = strings;
      } in
      (
        ret,
        text,
        record {
          pending_ids = first ∙ ap (λ l. uuid ∷ l) s.pending_ids;
          sent_ids = kept cache.complete_list_name nc names.apart ∙ s.sent_ids;
          buffer_list = strings cache.buffer_list_name ∙ s.buffer_list;
          complete_list = strings cache.complete_list_name ∙ s.complete_list;
          pending_stand = (
            record {
              id_text = u.uuid_text w;
              id_length = u.uuid_length w;
              not_buffer = nb;
              not_complete = nc;
              no_string = strings uuid ∙ no_string;
              bundle = under ∙ ap (rev_onto raw) no_items;
            },
            Stands-All r cache uuid w w' a.pending changed (Fresh-left uuid a.pending a.sent fresh)
                s.pending_stand,
          );
          sent_stand =
              Stands-All r cache uuid w w' a.sent changed (Fresh-right uuid a.pending a.sent fresh)
                s.sent_stand;
          unique = (fresh, s.unique);
        },
      )
