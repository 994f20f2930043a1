-- ===== src/Serializer/Transaction.antt =====
-- accelerator/core/serializer/ser_helper.c: transactions as JSON objects.
use tangle_accelerator.Base.{pos, ℕ, Option, none, some, Bytes, List, [], ◌∷◌, codes}
use tangle_accelerator.Errors.{serializer_json_create, cclient_not_found}
use tangle_accelerator.Exec.{Outcome, done, fail}
use tangle_accelerator.Env.Json.{JsonTree}
use tangle_accelerator.Env.Trits.{Trits, TxnFields}
use tangle_accelerator.Serializer.Helper.{
  ◌>>?◌, num_trytes_hash, num_trytes_signature, num_trytes_tag_field,
}

module _ (j : JsonTree) (t : Trits) {Txn : Type 0} (f : TxnFields Txn) where
  abbrev pub trytes_member : ℕ → Bytes → Bytes → j.Json → j.Json
  trytes_member n name trits o = j.add_string_to_object o name (t.to_trytes n trits).0

  abbrev pub number_member : Bytes → ℕ → j.Json → j.Json
  number_member name n o = j.add_number_to_object o name (pos n)

  abbrev pub identity_members : Txn → j.Json → j.Json
  identity_members txn o =
      let o1 = trytes_member num_trytes_hash (codes "hash") (f.hash txn) o in
      let o2 =
        trytes_member num_trytes_signature (codes "signature_and_message_fragment") (f.message txn)
          o1 in
      let o3 = trytes_member num_trytes_hash (codes "address") (f.address txn) o2 in
      let o4 = j.add_number_to_object o3 (codes "value") (f.value txn) in
      let o5 = trytes_member num_trytes_tag_field (codes "obsolete_tag") (f.obsolete_tag txn) o4 in
      let o6 = number_member (codes "timestamp") (f.timestamp txn) o5 in
      let o7 = number_member (codes "current_index") (f.current_index txn) o6 in
      number_member (codes "last_index") (f.last_index txn) o7

  abbrev pub attachment_members : Txn → j.Json → j.Json
  attachment_members txn o =
      let o1 = trytes_member num_trytes_hash (codes "bundle_hash") (f.bundle txn) o in
      let o2 = trytes_member num_trytes_hash (codes "trunk_transaction_hash") (f.trunk txn) o1 in
      let o3 = trytes_member num_trytes_hash (codes "branch_transaction_hash") (f.branch txn) o2 in
      let o4 = trytes_member num_trytes_tag_field (codes "tag") (f.tag txn) o3 in
      let o5 = number_member (codes "attachment_timestamp") (f.attachment_timestamp txn) o4 in
      let o6 =
        number_member (codes "attachment_timestamp_lower_bound") (f.attachment_timestamp_lower txn)
          o5 in
      let o7 =
        number_member (codes "attachment_timestamp_upper_bound") (f.attachment_timestamp_upper txn)
          o6 in
      trytes_member num_trytes_tag_field (codes "nonce") (f.nonce txn) o7

  -- `none` is a pointer that is NULL.
  unfoldable pub ta_iota_transaction_to_json_object : Option Txn → Option j.Json → Outcome j.Json
  ta_iota_transaction_to_json_object none txn_json = fail cclient_not_found
  ta_iota_transaction_to_json_object (some txn) none = fail serializer_json_create
  ta_iota_transaction_to_json_object (some txn) (some txn_json) =
      done (attachment_members txn (identity_members txn txn_json))

  abbrev pub transaction_object : Txn → Option j.Json → Outcome j.Json
  transaction_object txn none = fail serializer_json_create
  transaction_object txn (some txn_obj) =
      ta_iota_transaction_to_json_object (some txn) (some txn_obj)

  unfoldable pub ta_transaction_array_to_json_array : List Txn → j.Json → Outcome j.Json
  ta_transaction_array_to_json_array [] json_root = done json_root
  ta_transaction_array_to_json_array (txn ∷ txns) json_root =
      elim (transaction_object txn j.create_object) [
        | fail s ↦ fail s
        | done txn_obj ↦
            ta_transaction_array_to_json_array txns (j.add_item_to_array json_root (some txn_obj))
      ]

  abbrev pub bundle_array : List Txn → Option j.Json → Outcome j.Json
  bundle_array bundle none = fail serializer_json_create
  bundle_array bundle (some json_array) = ta_transaction_array_to_json_array bundle json_array

  -- Its loop is that of ta_transaction_array_to_json_array.
  unfoldable pub ta_bundle_transaction_to_json_array : List Txn → Bytes → j.Json → Outcome j.Json
  ta_bundle_transaction_to_json_array bundle obj_name json_root =
      bundle_array bundle j.create_array >>? λ json_array.
      done (j.add_item_to_object json_root obj_name json_array)
