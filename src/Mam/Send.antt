-- ===== src/Mam/Send.antt =====
-- accelerator/core/mam_core.c: sending a MAM message, and the announcement of the next channel.
use tangle_accelerator.Base.{
  ℕ, ℤ, pos, negsuc, ◌+◌, Bool, true, false, Option, none, some, Bytes, List, [], ◌++◌, length,
  take, replicate,
}
use tangle_accelerator.Errors.{mam_failed_init, mam_file_save, mam_failed_destroyed}
use tangle_accelerator.Exec.{Outcome, done, fail, Exec, ◌>>=◌, ◌>>◌, pure}
use tangle_accelerator.Env.Iota.{Iota}
use tangle_accelerator.Env.Tangle.{Tangle, FindTransactionsReq}
use tangle_accelerator.Core.Query.{front}
use tangle_accelerator.Core.Attach.{SendConfig}
use tangle_accelerator.Core.Transfer.{ta_send_bundle}
use tangle_accelerator.Serializer.Helper.{num_trytes_hash}
use tangle_accelerator.Serializer.Mam.{
  SendMamReq, SendMamData, SendMamRes, send_mam_res_set_msg_result, send_mam_res_set_announce,
}
use tangle_accelerator.Serializer.Mam.Responses.{timestamp_len}
use tangle_accelerator.Mam.Channel.{
  MamSendOperation, announce_chid, send_message, FindResult, Written, on_world,
  ta_mam_written_msg_to_bundle, ta_mam_write_announce_to_bundle,
}
use tangle_accelerator.Mam.{MamLib, MamEncryptKey, State, no_mam_keys, ta_set_mam_key, ta_mam_init}

module _ {W : Type 0} (i : Iota W) (t : Tangle i) (m : MamLib W i.Txn)
    (find_transaction_objects : FindTransactionsReq → W → (FindResult × List i.Txn) × W) where
  abbrev pub destroyed : {A : Type 0} → Bool → Outcome A → Outcome A
  destroyed true r = fail mam_failed_destroyed
  destroyed false r = r

  abbrev pub save_failed : {A : Type 0} → Bool → Outcome A → Outcome A
  save_failed true r = fail mam_file_save
  save_failed false r = r

  -- Where the seed is given, no file is used; what failed to be initialised is left alone.
  abbrev pub close : {A : Type 0} → Option Bytes → Bytes → Outcome A × State m → Outcome A × W
  close seed path (fail mam_failed_init, (api, w)) = (fail mam_failed_init, w)
  close (some seed) path (r, (api, w)) = (destroyed (m.destroy api) r, w)
  close none path (r, (api, w)) =
      let (failed, w') = m.save api path w in (destroyed (m.destroy api) (save_failed failed r), w')

  -- The bundle of the message is sent, and what it was is told.
  abbrev pub send_written : SendConfig → SendMamRes → Written i.Txn → Exec (State m) SendMamRes
  send_written iconf res x =
      on_world i t m find_transaction_objects (ta_send_bundle i t iconf x.bundle) >>= λ u.
      pure (send_mam_res_set_msg_result res x.chid x.msg_id (t.bundle_of (front x.bundle)))

  abbrev pub depth_number : ℤ → ℕ
  depth_number (pos d) = d
  depth_number (negsuc d) = 0

  abbrev pub announced :
      SendConfig
      → SendMamData
      → MamEncryptKey m
      → Bytes
      → MamSendOperation
      → SendMamRes
      → Exec (State m) SendMamRes
  announced iconf data' mam_key chid send_message res = pure res
  announced iconf data' mam_key chid announce_chid res = do
    (chid1, bundle) ←
        ta_mam_write_announce_to_bundle i t m find_transaction_objects
          (depth_number data'.ch_mss_depth) chid mam_key []
    on_world i t m find_transaction_objects (ta_send_bundle i t iconf bundle)
    pure (send_mam_res_set_announce res chid1 (t.bundle_of (front bundle)))

  abbrev pub told_result :
      SendConfig
      → SendMamData
      → MamEncryptKey m
      → SendMamRes
      → Option (Written i.Txn)
      → Exec (State m) (Option SendMamRes)
  told_result iconf data' mam_key res none = pure none
  told_result iconf data' mam_key res (some x) = send_written iconf res x >>= λ res1.
      announced iconf data' mam_key x.chid x.operation res1 >>= λ res2. pure (some res2)

  abbrev pub message_text : Option Bytes → Bytes
  message_text none = []
  message_text (some message) = message

  -- snprintf of the time's 20 digits and the message, into a buffer for both
  abbrev pub stamped : Bytes → Option Bytes → Bytes
  stamped digits message =
      take (timestamp_len + length (message_text message)) (digits ++ message_text message)

  -- `clock` gives the digits of the time. The loop of the C code runs once: no call gives
  -- SC_MAM_ALL_MSS_KEYS_USED.
  module _ (clock : W → Bytes × W) where
    abbrev pub read_clock : Exec (State m) Bytes
    read_clock (api, w) = let (digits, w') = clock w in (done digits, (api, w'))

    abbrev pub send_with :
        ℕ → SendConfig → SendMamReq → SendMamRes → Exec (State m) (Option SendMamRes)
    send_with fuel iconf req res = do
      mam_key ← λ s. (
        ta_set_mam_key m (no_mam_keys m) (some req.key.psk_array) (some req.key.ntru_array) none,
        s,
      )
      digits ← read_clock
      written ←
          ta_mam_written_msg_to_bundle i t m find_transaction_objects fuel
            (record { ch_mss_depth = req.data_v1.ch_mss_depth; chid = req.data_v1.chid }) mam_key
            (stamped digits req.data_v1.message) (replicate num_trytes_hash 0)
      told_result iconf req.data_v1 mam_key res written

    -- `none`: the search for a channel did not end on the fuel.
    unfoldable pub ta_send_mam_message :
        ℕ → SendConfig → Bytes → Bytes → SendMamReq → SendMamRes → Exec W (Option SendMamRes)
    ta_send_mam_message fuel iconf mam_file_path seed req res =
        ta_mam_init m true (some (mam_file_path, seed)) req.data_v1.seed >>= λ api w.
        close req.data_v1.seed mam_file_path (send_with fuel iconf req res (api, w))
