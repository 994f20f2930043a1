-- ===== src/Core/Transfer/Buffered.antt =====
-- accelerator/core/core.c: a transfer that the node refuses is buffered.
use tangle_accelerator.Base.{
  ℕ, true, none, some, Bytes, List, [], ◌++◌, ◌≡◌, ◌≢◌, refl, sym, ap, subst, ◌∙◌,
}
use tangle_accelerator.Errors.{Status}
use tangle_accelerator.Exec.{Exec, done, fail}
use tangle_accelerator.Env.{Env}
use tangle_accelerator.Env.Laws.{RedisLaws, LockLaws, UuidLaws}
use tangle_accelerator.Env.Iota.{Iota}
use tangle_accelerator.Env.Tangle.{Tangle, Transfer}
use tangle_accelerator.Env.Frame.{Near, Near-trans, NetLaws, KeepsAll, KeepsAll-bind, KeepsAll-pure}
use tangle_accelerator.Cache.Steps.{IsAlive}
use tangle_accelerator.Core.Buffer.{TaCache}
use tangle_accelerator.Core.Buffer.Push.{HaveSize}
use tangle_accelerator.Core.Attach.{SendConfig, ta_send_trytes, serialize_all}
use tangle_accelerator.Core.Attach.Keeps.{KeepsAll-ta_send_trytes}
use tangle_accelerator.Core.Requests.{Requests, AreNames, Shows, Fresh, submit}
use tangle_accelerator.Core.Requests.Submit.{push_txn_to_buffer-submit}
use tangle_accelerator.Core.Requests.View.{Shows-Near}
use tangle_accelerator.Core.Query.{or_failed}
use tangle_accelerator.Core.Transfer.{
  SendTransferReq, SendTransferRes, timestamp_now, transfer_of, prepared_bundle, after_send,
  with_raw, with_bundle, ta_send_transfer,
}

module _ {e : Env} {r : RedisLaws e} (l : LockLaws e r) (alive : IsAlive r) (u : UuidLaws e r)
    (txn_size : ℕ) (i : Iota e.World) (t : Tangle i) (net : NetLaws l i) (cache : TaCache)
    (names : AreNames cache) (iconf : SendConfig) (seed : Bytes) (req : SendTransferReq)
    (res : SendTransferRes) where
  -- Preparing a transfer leaves the database and the lock alone.
  abbrev pub PreparesApart : Type 0
  PreparesApart =
      (s : Bytes) (security : ℕ) (x : Transfer) (now : ℕ) (v : e.World)
      → Near l v (t.prepare_transfers s security x now v).1

  -- The UUID that libuuid gives is not in use.
  pub record IsUnused (a : Requests) (v : e.World) : Type 0 where
    pub fresh : Fresh (e.new_uuid v).0 (a.pending ++ a.sent)
    pub not_buffer : (e.new_uuid v).0 ≢ cache.buffer_list_name
    pub not_complete : (e.new_uuid v).0 ≢ cache.complete_list_name
    pub no_string : r.strings v (e.new_uuid v).0 ≡ none
    pub no_items : r.items v (e.new_uuid v).0 ≡ []

  KeepsAll-prepared_bundle : PreparesApart → KeepsAll l (prepared_bundle i t seed req)
  unfolding prepared_bundle
  KeepsAll-prepared_bundle apart = KeepsAll-bind l (timestamp_now i t) _ clock (λ now.
      KeepsAll-bind l (λ w. (transfer_of i t req now (t.message_of req.message req.msg_len), w)) _
        (KeepsAll-pure l _)
        (λ x.
          KeepsAll-bind l (timestamp_now i t) (prepare x) clock
            (λ n. record { near = apart (i.from_trytes seed) 2 x n })))
    where
      prepare : Transfer → ℕ → Exec e.World (List i.Txn)
      prepare x n = or_failed i t (t.prepare_transfers (i.from_trytes seed) 2 x n)

      clock : KeepsAll l (timestamp_now i t)
      clock = record { near = net.near_timestamp }

  -- If the database shows an abstract state, the transfer's transactions can be made, as `out_bundle`, and serialized,
  -- as `raw_tx`, with the serialized size, and the node then refuses them with the error `s`, and the UUID made
  -- behind that is not in use, then the transfer returns `s` and a UUID, under which the request is submitted in the state that
  -- the database then shows.
  pub ta_send_transfer_buffers :
      (w : e.World) (a : Requests) (out_bundle : List i.Txn) (raw_tx : List Bytes) (s : Status)
      → PreparesApart
      → Shows r cache w a
      → (prepared_bundle i t seed req w).0 ≡ done out_bundle
      → serialize_all i out_bundle ≡ done raw_tx
      → HaveSize r alive txn_size raw_tx
      → (ta_send_trytes i iconf raw_tx (prepared_bundle i t seed req w).1).0 ≡ fail s
      → IsUnused a (ta_send_trytes i iconf raw_tx (prepared_bundle i t seed req w).1).1
      → let ((ret, res'), w') =
          ta_send_transfer e true txn_size i t iconf seed cache (some req) res w in
        (ret ≡ fail s)
        × (uuid : Bytes) × (res'.uuid ≡ some uuid)
        × Shows r cache w' (submit uuid raw_tx a)
  unfolding ta_send_transfer
  ta_send_transfer_buffers w a out_bundle raw_tx s apart shown p q size refuses unused =
      let w1 = (prepared_bundle i t seed req w).1 in
      let w2 = (ta_send_trytes i iconf raw_tx w1).1 in
      let near =
        Near-trans l ((KeepsAll-prepared_bundle apart).near w)
          ((KeepsAll-ta_send_trytes l i net iconf raw_tx).near w1) in
      let free = unused in
      let (_, uuid_eq, after) =
        push_txn_to_buffer-submit r alive u txn_size cache names raw_tx w2 a
          (Shows-Near l cache w w2 near a shown) size free.fresh free.not_buffer free.not_complete
          free.no_string free.no_items in
      let path : ta_send_transfer e true txn_size i t iconf seed cache (some req) res w
          ≡ after_send e true txn_size i t cache out_bundle raw_tx res (fail s, w2) =
        ap (λ x. with_bundle e true txn_size i t iconf cache res (x, w1)) p
        ∙ ap (λ x. with_raw e true txn_size i t iconf cache out_bundle res x w1) q
        ∙ ap (λ x. after_send e true txn_size i t cache out_bundle raw_tx res (x, w2)) refuses in
      subst
        (λ y.
          (y.0.0 ≡ fail s)
          × (uuid : Bytes) × (y.0.1.uuid ≡ some uuid)
          × Shows r cache y.1 (submit uuid raw_tx a))
        (sym path) (refl, (e.new_uuid w2).0, ap some uuid_eq, after)
