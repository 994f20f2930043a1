-- ===== src/Env/Iota.antt =====
-- The IOTA client library and dcurl: transactions, proof of work, and requests to the bound full node.
use tangle_accelerator.Base.{ℕ, Bool, Option, Bytes, List, ◌≡◌}

-- Trits are byte strings. `true` for an int or a retcode_t means failure.
pub record Iota (W : Type 0) : Type 1 where
  pub Txn : Type 0
  -- transaction_deserialize_from_trits
  pub of_trits : Bytes → Txn
  -- transaction_serialize, `none` for NULL
  pub serialize : Txn → Option Bytes
  -- transaction_serialize_on_flex_trits: whether the offset returned is the full length, and the trits
  pub on_trits : Txn → Bool × Bytes
  pub last_index : Txn → ℕ
  pub hash : Txn → Bytes
  pub set_trunk : Bytes → Txn → Txn
  pub set_branch : Bytes → Txn → Txn
  pub set_attachment_timestamp : ℕ → Txn → Txn
  pub set_attachment_timestamp_upper : ℕ → Txn → Txn
  pub set_attachment_timestamp_lower : ℕ → Txn → Txn
  pub set_nonce : Bytes → Txn → Txn
  -- flex_trits_to_trytes, flex_trits_from_trytes and iota_flex_digest
  pub to_trytes : Bytes → Bytes
  pub from_trytes : Bytes → Bytes
  pub digest : Bytes → Bytes
  pub current_timestamp_ms : W → ℕ × W
  pub dcurl_entry : Bytes → ℕ → W → Option Bytes × W
  -- iota_client_get_transactions_to_approve at a depth: trunk and branch
  pub get_transactions_to_approve : ℕ → W → Option (Bytes × Bytes) × W
  -- what a new response of that request holds
  pub blank_tips : Bytes × Bytes
  pub store_and_broadcast : List Bytes → W → Bool × W
  -- iota_client_get_trytes of transaction hashes
  pub get_trytes : List Bytes → W → Option (List Bytes) × W

-- The setters of a transaction write one field each.
pub record TxnLaws {W : Type 0} (i : Iota W) : Type 0 where
  pub trunk : i.Txn → Bytes
  pub branch : i.Txn → Bytes
  pub trunk-set_trunk : (t : Bytes) (x : i.Txn) → trunk (i.set_trunk t x) ≡ t
  pub trunk-set_branch : (t : Bytes) (x : i.Txn) → trunk (i.set_branch t x) ≡ trunk x
  pub trunk-set_attachment : (n : ℕ) (x : i.Txn) → trunk (i.set_attachment_timestamp n x) ≡ trunk x
  pub trunk-set_upper : (n : ℕ) (x : i.Txn) → trunk (i.set_attachment_timestamp_upper n x) ≡ trunk x
  pub trunk-set_lower : (n : ℕ) (x : i.Txn) → trunk (i.set_attachment_timestamp_lower n x) ≡ trunk x
  pub trunk-set_nonce : (t : Bytes) (x : i.Txn) → trunk (i.set_nonce t x) ≡ trunk x
  pub branch-set_branch : (t : Bytes) (x : i.Txn) → branch (i.set_branch t x) ≡ t
  pub branch-set_attachment :
      (n : ℕ) (x : i.Txn) → branch (i.set_attachment_timestamp n x) ≡ branch x
  pub branch-set_upper :
      (n : ℕ) (x : i.Txn) → branch (i.set_attachment_timestamp_upper n x) ≡ branch x
  pub branch-set_lower :
      (n : ℕ) (x : i.Txn) → branch (i.set_attachment_timestamp_lower n x) ≡ branch x
  pub branch-set_nonce : (t : Bytes) (x : i.Txn) → branch (i.set_nonce t x) ≡ branch x
