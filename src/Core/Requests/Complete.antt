-- ===== src/Core/Requests/Complete.antt =====
-- accelerator/core/periodical_task.c: sending the request at the head of the buffer list does what
-- `complete` says.
use tangle_accelerator.Base.{ℕ, true, Bytes, List, ◌∷◌, ◌++◌, All, ◌≡◌, refl, ap, subst, ◌∙◌}
use tangle_accelerator.Exec.{done}
use tangle_accelerator.Env.{Env}
use tangle_accelerator.Env.Laws.{RedisLaws, LockLaws}
use tangle_accelerator.Env.Iota.{Iota}
use tangle_accelerator.Env.Frame.{NetLaws}
use tangle_accelerator.Cache.Steps.{IsAlive}
use tangle_accelerator.Core.Buffer.{TaCache}
use tangle_accelerator.Core.Buffer.Push.{HaveSize}
use tangle_accelerator.Core.Attach.{SendConfig}
use tangle_accelerator.Core.Broadcast.{send_txn}
use tangle_accelerator.Core.Broadcast.Send.{Fits, IsOnline, send_txn-eq}
use tangle_accelerator.Core.Requests.{
  Request, Requests, AreNames, Stands, Shows, Unique, ids, complete,
}
use tangle_accelerator.Core.Requests.Frame.{
  ChangedAt, Stands-All, Fresh-left, Fresh-right, Unique-moves,
}

module _ {e : Env} {r : RedisLaws e} (l : LockLaws e r) (alive : IsAlive r) (size : ℕ)
    (i : Iota e.World) (net : NetLaws l i) (conf : SendConfig) (cache : TaCache)
    (names : AreNames cache) where
  -- The node takes the request's bundle, read from `w`, as `sent`, and tells `trytes` for it.
  abbrev pub IsSendable :
      (w : e.World) (x : Request) → Stands r cache w x → List Bytes → List Bytes → Type 0
  IsSendable w x s sent trytes =
      IsOnline l alive size i net conf cache x.id s.id_text s.id_length names.buffer_text
        names.apart s.not_buffer s.not_complete w x.stored sent trytes

  -- While redis refuses no command, and where asking the node leaves the database and the lock alone: if the database
  -- shows an abstract state, the names of both lists hold no NUL and differ, nobody holds the lock, and the node takes
  -- the bundle of the request that heads the pending ones, as it is read, and then tells transactions for what was sent,
  -- then sending that request succeeds, and the database then shows the state with the request completed with these
  -- transactions; nobody holds the lock. The bundle is not empty, its transactions hold no NUL and, like the node's,
  -- have the serialized size; the write lock is to be had when nobody holds the lock.
  pub send_txn-complete :
      (w : e.World) (a : Requests) (x : Request) (more : List Request) (first : Bytes)
      (others sent trytes : List Bytes) (one : Stands r cache w x)
      → Shows r cache w a
      → l.held w ≡ 0
      → a.pending ≡ x ∷ more
      → x.stored ≡ first ∷ others
      → IsSendable w x one sent trytes
      → All (Fits l alive size) (first ∷ others)
      → HaveSize r alive size trytes
      → let (ret, w') = send_txn e true size i conf cache x.id w in
        (ret ≡ done tt) × Shows r cache w' (complete x more trytes a) × (l.held w' ≡ 0)
  unfolding complete
  send_txn-complete w a x more first others sent trytes one s held0 hp hx online fit sizes =
      let unique = subst (λ y. Unique (y ++ a.sent)) hp s.unique in
      let stands = subst (All (Stands r cache w)) hp s.pending_stand in
      let on =
        subst
          (λ b.
            IsOnline l alive size i net conf cache x.id one.id_text one.id_length names.buffer_text
              names.apart one.not_buffer one.not_complete w b sent trytes)
          hx online in
      let (ret, off) =
        send_txn-eq l alive size i net conf cache x.id one.id_text one.id_length names.buffer_text
          names.apart one.not_buffer one.not_complete first others sent trytes (ids more) w on
          (one.bundle ∙ hx) fit sizes (s.pending_ids ∙ ap ids hp) one.no_string s.buffer_list
          s.complete_list held0 in
      let w' = (send_txn e true size i conf cache x.id w).1 in
      let changed : ChangedAt r cache x.id w w' = record {
        items_kept = off.items_kept;
        strings_kept = off.strings_kept;
      } in
      (
        ret,
        record {
          pending_ids = off.buffer_rest;
          sent_ids = off.completed ∙ ap (λ t. x.id ∷ t) s.sent_ids;
          buffer_list = off.strings_kept cache.buffer_list_name ∙ s.buffer_list;
          complete_list = off.strings_kept cache.complete_list_name ∙ s.complete_list;
          pending_stand =
              Stands-All r cache x.id w w' more changed (Fresh-left x.id more a.sent unique.0)
                stands.1;
          sent_stand = (
            record {
              id_text = one.id_text;
              id_length = one.id_length;
              not_buffer = one.not_buffer;
              not_complete = one.not_complete;
              no_string = off.strings_kept x.id ∙ one.no_string;
              bundle = off.bundle;
            },
            Stands-All r cache x.id w w' a.sent changed (Fresh-right x.id more a.sent unique.0)
                s.sent_stand,
          );
          unique = Unique-moves x _ more a.sent refl unique;
        },
        off.unlocked,
      )
