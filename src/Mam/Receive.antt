-- ===== src/Mam/Receive.antt =====
-- accelerator/core/mam_core.c: receiving MAM messages, and registering a seed.
use tangle_accelerator.Base.{
  ℕ, zero, suc, Bool, true, false, ◌||◌, Option, none, some, Bytes, List, [], ◌∷◌, ◌++◌, c_str,
  bytes_eq, if◌then◌else◌,
}
use tangle_accelerator.Errors.{
  mam_failed_init, mam_failed_destroyed, mam_no_payload, mam_read_message_error,
  mam_invaid_chid_or_epid,
}
use tangle_accelerator.Exec.{Outcome, done, fail, Exec, ◌>>=◌, ◌>>◌, pure}
use tangle_accelerator.Env.{Env}
use tangle_accelerator.Env.Iota.{Iota}
use tangle_accelerator.Env.Tangle.{Tangle}
use tangle_accelerator.Cache.{cache_set}
use tangle_accelerator.Core.Buffer.{uuid_len}
use tangle_accelerator.Core.Query.{ta_get_bundle, ta_get_bundles_by_addr}
use tangle_accelerator.Serializer.Helper.{num_trytes_hash}
use tangle_accelerator.Serializer.Mam.{RecvMamReq, RecvMamRes, MamDataId}
use tangle_accelerator.Mam.{MamLib, State, or_status, no_mam_keys, ta_set_mam_key}

module _ (e : Env) (state : Bool) (i : Iota e.World) (t : Tangle i) (m : MamLib e.World i.Txn) where
  abbrev pub payload_of : Option Bytes → Outcome Bytes
  payload_of none = fail mam_no_payload
  payload_of (some []) = fail mam_no_payload
  payload_of (some (c ∷ payload)) = done (c_str (m.trytes_to_ascii (c ∷ payload)))

  unfoldable pub ta_mam_api_bundle_read : List i.Txn → Exec (State m) Bytes
  ta_mam_api_bundle_read bundle =
      or_status m mam_read_message_error (m.bundle_read bundle) >>= λ payload s.
      (payload_of payload, s)

  abbrev pub lifted : {A : Type 0} → Exec e.World A → Exec (State m) A
  lifted f (api, w) = let (r, w') = f w in (r, (api, w'))

  abbrev pub trust : Option Bytes → Exec (State m) Unit
  trust none s = (done tt, s)
  trust (some chid) (api, w) = elim (m.add_trusted_channel chid api) [
    | none ↦ (fail mam_invaid_chid_or_epid, (api, w))
    | some api' ↦ (done tt, (api', w))
  ]

  -- A bundle's hash goes before a channel's ID.
  abbrev pub fetch_bundles : MamDataId → Exec (State m) (List (List i.Txn))
  fetch_bundles data_id = elim data_id.bundle_hash [
    | some bundle_hash ↦ lifted (ta_get_bundle i t bundle_hash []) >>= λ bundle. pure (bundle ∷ [])
    | none ↦ elim data_id.chid [
      | some chid ↦ lifted (ta_get_bundles_by_addr e state i t chid [])
      | none ↦ pure []
    ]
  ]

  -- What was read, and whether the loop went to its end: an error leaves it, with the status as it was.
  abbrev pub read_on :
      (List (Option Bytes) → State m → (List (Option Bytes) × Bool) × State m)
      → List (Option Bytes)
      → Outcome Bytes × State m
      → (List (Option Bytes) × Bool) × State m
  read_on rest payload_array (done payload, s) = rest (payload_array ++ some payload ∷ []) s
  read_on rest payload_array (fail mam_no_payload, s) = rest (payload_array ++ none ∷ []) s
  read_on rest payload_array (fail ret, s) = ((payload_array, false), s)

  unfoldable pub read_bundles :
      List (List i.Txn) → List (Option Bytes) → State m → (List (Option Bytes) × Bool) × State m
  read_bundles [] payload_array s = ((payload_array, true), s)
  read_bundles (bundle ∷ bundles) payload_array s =
      read_on (read_bundles bundles) payload_array (ta_mam_api_bundle_read bundle s)

  abbrev pub contains : List Bytes → Bytes → Bool
  contains [] key = false
  contains (x ∷ xs) key = bytes_eq x key || contains xs key

  -- The last trusted channel that was not one before
  abbrev pub new_channel : List Bytes → List Bytes → Bytes → Bytes
  new_channel before [] chid1 = chid1
  new_channel before (key ∷ keys) chid1 =
      new_channel before keys (if contains before key then chid1 else m.trits_to_trytes key)

  abbrev pub read_result :
      RecvMamRes
      → List Bytes
      → (List (Option Bytes) × Bool) × State m
      → Outcome RecvMamRes × State m
  read_result res before ((payload_array, false), s) =
      (done (record res { payload_array = payload_array }), s)
  read_result res before ((payload_array, true), (api, w)) = (
    done (record {
      payload_array = payload_array;
      chid1 = new_channel before (m.trusted_channels api) res.chid1;
    }),
    (api, w),
  )

  -- Where a key cannot be added, nothing is read, and the status stays SC_OK.
  abbrev pub read_with :
      RecvMamRes → List (List i.Txn) → Option m.Api → State m → Outcome RecvMamRes × State m
  read_with res bundles none s = (done res, s)
  read_with res bundles (some api) (old, w) =
      read_result res (m.trusted_channels api) (read_bundles bundles res.payload_array (api, w))

  abbrev pub receive : RecvMamReq → RecvMamRes → Exec (State m) RecvMamRes
  receive req res = do
    trust req.data_id.chid
    bundles ← fetch_bundles req.data_id
    mam_key ← λ s. (
      ta_set_mam_key m (no_mam_keys m) (some req.key.psk_array) none (some req.key.ntru_array),
      s,
    )
    λ (api, w). read_with res bundles (m.add_psks api mam_key.psks) (api, w)

  -- A file that cannot be written is logged only.
  abbrev pub close_received : Bytes → Outcome RecvMamRes × State m → Outcome RecvMamRes × e.World
  close_received path (fail mam_failed_init, (api, w)) = (fail mam_failed_init, w)
  close_received path (r, (api, w)) =
      ((if m.destroy api then fail mam_failed_destroyed else r), (m.save api path w).1)

  unfoldable pub ta_recv_mam_message :
      Bytes → Bytes → RecvMamReq → RecvMamRes → Exec e.World RecvMamRes
  ta_recv_mam_message mam_file_path seed req res w = elim (m.init seed) [
    | none ↦ (fail mam_failed_init, w)
    | some api ↦ close_received mam_file_path (receive req res (api, w))
  ]

module _ (e : Env) (state : Bool) where
  -- Where no UUID was made, SC_OK is returned.
  abbrev pub keep_seed : ℕ → Bytes → Bytes → Exec e.World Bytes
  keep_seed timeout seed [] = pure []
  keep_seed timeout seed (zero ∷ uuid) = pure (zero ∷ uuid)
  keep_seed timeout seed (suc c ∷ uuid) =
      cache_set e state (some (suc c ∷ uuid)) uuid_len (some seed) num_trytes_hash timeout >>= λ u.
      pure (suc c ∷ uuid)

  -- The pointers are there.
  unfoldable pub ta_register_mam_channel : ℕ → Bytes → Exec e.World Bytes
  ta_register_mam_channel timeout seed w =
      let (uuid, w') = e.new_uuid w in keep_seed timeout seed uuid w'
