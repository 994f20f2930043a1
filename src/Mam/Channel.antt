-- ===== src/Mam/Channel.antt =====
-- accelerator/core/mam_core.c: the search of a channel and a key that are not used yet, and writing to a bundle.
use tangle_accelerator.Base.{
  ℕ, zero, suc, ℤ, pos, ◌+◌, ◌^◌, Bool, true, false, ◌&&◌, Option, none, some, Bytes, List, [], ◌∷◌,
  ◌++◌, ◌-◌, length, mem_eq, ◌==◌, ltb, if◌then◌else◌,
}
use tangle_accelerator.Errors.{
  null, mam_failed_create_or_get_id, mam_exceeded_chid_iter, mam_failed_write_header,
}
use tangle_accelerator.Exec.{Outcome, done, Exec, ◌>>=◌, pure, raise}
use tangle_accelerator.Env.Iota.{Iota}
use tangle_accelerator.Env.Tangle.{Tangle, FindTransactionsReq}
use tangle_accelerator.Core.Query.{front, by_address, ta_get_txn_objects_with_txn_hash}
use tangle_accelerator.Serializer.Helper.{num_trytes_hash}
use tangle_accelerator.Mam.{
  MamLib, MamEncryptKey, State, or_status, ta_mam_write_header, ta_mam_write_packet, msg_id_exist,
  mam_api_channel_get,
}

-- mam_send_operation_t
pub data MamSendOperation : Type 0 where
  announce_chid send_message : MamSendOperation

-- What iota_client_find_transaction_objects returns: RC_OK, RC_NULL_PARAM or another result.
pub data FindResult : Type 0 where
  rc_ok rc_null_param rc_other : FindResult

-- channel_info_t
pub record ChannelInfo : Type 0 where
  pub ch_mss_depth : ℤ
  pub chid : Option Bytes

-- What the search for a key ended with: how many keys were tried, and the header that was written last.
pub record Tried (Txn : Type 0) : Type 0 where
  pub tries : ℕ
  pub msg_id : Bytes
  pub bundle : List Txn

-- What is written: the channel, the message's ID in trytes, the bundle, and what else is to be sent.
pub record Written (Txn : Type 0) : Type 0 where
  pub chid : Bytes
  pub msg_id : Bytes
  pub bundle : List Txn
  pub operation : MamSendOperation

module _ {W : Type 0} (i : Iota W) (t : Tangle i) (m : MamLib W i.Txn)
    (find_transaction_objects : FindTransactionsReq → W → (FindResult × List i.Txn) × W) where
  abbrev pub on_world : {A : Type 0} → Exec W A → Exec (State m) A
  on_world f (api, w) = let (r, w') = f w in (r, (api, w'))

  -- A tag that is not in the array yet is pushed.
  unfoldable pub collect_tags : List i.Txn → List Bytes → List Bytes
  collect_tags [] tag_array = tag_array
  collect_tags (tx ∷ txs) tag_array =
      let tag = m.tag_of (some tx) in
      if msg_id_exist m tag_array tag
      then collect_tags txs tag_array
      else collect_tags txs (tag_array ++ tag ∷ [])

  abbrev pub next_channel : ℕ → Bool → Bytes → Exec (State m) Bytes
  next_channel depth true chid = pure chid
  next_channel depth false chid = or_status m mam_failed_create_or_get_id (m.channel_create depth)

  -- The channel's ID, and the tags of its transactions
  unfoldable pub create_channel_fetch_all_transactions :
      ℕ → Bool → Bytes → List Bytes → Exec (State m) (Bytes × List Bytes)
  create_channel_fetch_all_transactions channel_depth first_iter chid tag_array = do
    chid' ← next_channel channel_depth first_iter chid
    txs ← on_world (ta_get_txn_objects_with_txn_hash i t (by_address (i.from_trytes chid')) [])
    pure (chid', collect_tags txs tag_array)

  abbrev pub is_unused : FindResult × List i.Txn → Bool
  is_unused (rc_other, txs) = true
  is_unused (rc, []) = true
  is_unused (rc, x ∷ txs) = false

  -- Where no channel could be created, the ID stays what it was.
  abbrev pub changed_at : Bytes → Option Bytes → State m → (Bool × Bytes) × State m
  changed_at chid none s = ((true, chid), s)
  changed_at chid (some chid') (api, w) =
      let (r, w') = find_transaction_objects (by_address (i.from_trytes chid')) w in
      ((is_unused r, chid'), (api, w'))

  unfoldable pub is_setting_changed : ℕ → Bytes → State m → (Bool × Bytes) × State m
  is_setting_changed channel_depth chid (api, w) =
      let (created, api') = m.channel_create channel_depth api in changed_at chid created (api', w)

  -- `left` is 101 - cnt.
  unfoldable pub seek_chid : ℕ → ℕ → Bytes → Bytes → Exec (State m) Bytes
  seek_chid zero depth wanted chid =
      if mem_eq num_trytes_hash wanted chid
      then pure chid
      else or_status m mam_failed_create_or_get_id (m.channel_create depth) >>= λ chid'.
          raise mam_exceeded_chid_iter
  seek_chid (suc left) depth wanted chid =
      let rest = seek_chid left depth wanted in
      if mem_eq num_trytes_hash wanted chid
      then pure chid
      else or_status m mam_failed_create_or_get_id (m.channel_create depth) >>= rest

  abbrev pub unless_changed : ℕ → Bytes → (Bool × Bytes) × State m → Outcome Bytes × State m
  unless_changed depth wanted ((true, chid), s) = (done chid, s)
  unless_changed depth wanted ((false, chid), s) = seek_chid 101 depth wanted chid s

  -- The channel that the search begins with
  abbrev pub starting_chid : ℕ → Option Bytes → Bytes → Exec (State m) Bytes
  starting_chid depth none chid s = (done chid, s)
  starting_chid depth (some wanted) chid s =
      unless_changed depth wanted (is_setting_changed depth chid s)

  -- mam_mss_next of a channel that is there
  abbrev pub advance : Bytes → Exec (State m) Unit
  advance chid (api, w) = elim (mam_api_channel_get m (some api) (some chid)) [
    | none ↦ (done tt, (api, w))
    | some place ↦ (done tt, (m.mss_next place api, w))
  ]

  -- Whether the key is used: then the next one is tried.
  abbrev pub tried :
      List Bytes
      → List i.Txn
      → Exec (State m) Unit
      → Exec (State m) (Tried i.Txn)
      → Exec (State m) (Tried i.Txn)
      → Exec (State m) (Tried i.Txn)
  tried tag_array bundle step rest stop =
      if msg_id_exist m tag_array (m.tag_of (front bundle)) then step >>= (λ u. rest) else stop

  -- The do-while loop, with `left` keys behind the one that is tried.
  unfoldable pub try_keys :
      ℕ → ℕ → Bytes → MamEncryptKey m → List Bytes → Exec (State m) (Tried i.Txn)
  try_keys zero tries chid mam_key tag_array = do
    (msg_id, bundle) ← ta_mam_write_header m chid mam_key.psks mam_key.ntru_pks []
    tried tag_array bundle (advance chid)
        (pure (record { tries = suc tries; msg_id = msg_id; bundle = bundle }))
        (pure (record { tries = suc tries; msg_id = msg_id; bundle = bundle }))
  try_keys (suc left) tries chid mam_key tag_array =
      let rest = try_keys left (suc tries) chid mam_key tag_array in
      ta_mam_write_header m chid mam_key.psks mam_key.ntru_pks [] >>= λ (msg_id, bundle).
      tried tag_array bundle (advance chid) rest
        (pure (record { tries = suc tries; msg_id = msg_id; bundle = bundle }))

  -- The keys that are left are those that were not tried; the keys that are taken to be used, the tags.
  abbrev pub operation_of : ℕ → ℕ → ℕ → Option MamSendOperation
  operation_of keys tries tags =
      if tries + 1 == keys
      then some announce_chid
      else if (tries == keys) && (tags == tries)
      then none
      else some send_message

  -- `none`: the next channel is looked at.
  abbrev pub decide_by :
      (Bytes → Exec (State m) (Option (Written i.Txn)))
      → Bytes
      → Tried i.Txn
      → Option MamSendOperation
      → Exec (State m) (Option (Written i.Txn))
  decide_by rest chid x none s = rest chid s
  decide_by rest chid x (some operation) s = (
    done (
        some (record { chid = chid; msg_id = x.msg_id; bundle = x.bundle; operation = operation })),
    s,
  )

  abbrev pub decided :
      ℕ
      → List Bytes
      → (Bytes → Exec (State m) (Option (Written i.Txn)))
      → Bytes
      → Tried i.Txn
      → Exec (State m) (Option (Written i.Txn))
  decided keys tags rest chid x = decide_by rest chid x (operation_of keys x.tries (length tags))

  -- The loop over the channels on fuel: the result `none` says that it did not end. `2 ^ depth` is `1 << depth`, for a
  -- depth below 31: an int holds it.
  unfoldable pub search :
      ℕ → ℕ → Bool → MamEncryptKey m → Bytes → Exec (State m) (Option (Written i.Txn))
  search zero depth first_iter mam_key chid = pure none
  search (suc fuel) depth first_iter mam_key chid =
      let rest = search fuel depth false mam_key in
      create_channel_fetch_all_transactions depth first_iter chid [] >>= λ (chid', tags).
      try_keys (2 ^ depth - 1) 0 chid' mam_key tags >>= λ x. decided (2 ^ depth) tags rest chid' x

  -- `1 << depth` is undefined in C where no int holds it: nothing is said of the search then.
  abbrev defined_search :
      ℕ → ℕ → Bool → MamEncryptKey m → Bytes → Exec (State m) (Option (Written i.Txn))
  defined_search fuel depth first_iter mam_key chid =
      if ltb depth 31 then search fuel depth first_iter mam_key chid else pure none

  abbrev pub with_packet : Bytes → Option (Written i.Txn) → Exec (State m) (Option (Written i.Txn))
  with_packet payload none = pure none
  with_packet payload (some x) = ta_mam_write_packet m payload x.msg_id x.bundle >>= λ bundle.
      pure (some (record x { bundle = bundle; msg_id = m.trits_to_trytes x.msg_id }))

  abbrev pub is_given : Option Bytes → Bool
  is_given none = false
  is_given (some chid) = true

  -- The pointers are there; `chid` is what the array holds.
  unfoldable pub ta_mam_written_msg_to_bundle :
      ℕ → ChannelInfo → MamEncryptKey m → Bytes → Bytes → Exec (State m) (Option (Written i.Txn))
  ta_mam_written_msg_to_bundle fuel channel_info mam_key payload chid =
      elim channel_info.ch_mss_depth [
        | pos (suc d) ↦
            starting_chid (suc d) channel_info.chid chid
            >>= defined_search fuel (suc d) (is_given channel_info.chid) mam_key
            >>= with_packet payload
        | _ ↦ raise null
      ]

  -- The bundle, and the ID of the next channel
  unfoldable pub ta_mam_write_announce_to_bundle :
      ℕ → Bytes → MamEncryptKey m → List i.Txn → Exec (State m) (Bytes × List i.Txn)
  ta_mam_write_announce_to_bundle channel_depth chid mam_key bundle =
      or_status m mam_failed_create_or_get_id (m.channel_create channel_depth) >>= λ chid1.
      or_status m mam_failed_write_header
        (m.announce_channel chid chid1 mam_key.psks mam_key.ntru_pks bundle)
      >>= λ bundle'. pure (chid1, bundle')
