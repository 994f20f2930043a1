-- ===== src/Env/Trits.antt =====
-- The conversions and containers of the IOTA library that the serializers use, and the fields of a transaction.
use tangle_accelerator.Base.{
  ℤ, ℕ, Option, some, Bytes, List, [], ◌∷◌, ◌++◌, length, NulFree, ◌≡◌, ◌≢◌,
}

pub record Trits : Type 0 where
  -- flex_trits_to_trytes of three times that many trits: what is written, and how many trits were converted
  pub to_trytes : ℕ → Bytes → Bytes × ℕ
  -- flex_trits_from_trytes of that many trytes
  pub from_trytes : ℕ → Bytes → Bytes
  -- all trytes that ascii_to_trytes writes
  pub ascii_to_trytes : Bytes → Bytes
  -- hash243_queue_push and hash81_queue_push, `none` for a result other than RC_OK
  pub queue_push : List Bytes → Bytes → Option (List Bytes)

-- What holds of an array of trits for that many trytes: it is written as a text that is read back as the array.
pub record Converts (t : Trits) (n : ℕ) (trits : Bytes) : Type 0 where
  pub counted : (t.to_trytes n trits).1 ≢ 0
  pub full : length (t.to_trytes n trits).0 ≡ n
  pub nul_free : NulFree (t.to_trytes n trits).0
  pub back : t.from_trytes n (t.to_trytes n trits).0 ≡ trits

-- There is memory for another element.
abbrev pub Pushes : Trits → Type 0
Pushes t = (q : List Bytes) (h : Bytes) → t.queue_push q h ≡ some (q ++ h ∷ [])

-- The accessors transaction_... of iota_transaction_t.
pub record TxnFields (Txn : Type 0) : Type 0 where
  pub hash : Txn → Bytes
  pub message : Txn → Bytes
  pub address : Txn → Bytes
  pub value : Txn → ℤ
  pub obsolete_tag : Txn → Bytes
  pub timestamp : Txn → ℕ
  pub current_index : Txn → ℕ
  pub last_index : Txn → ℕ
  pub bundle : Txn → Bytes
  pub trunk : Txn → Bytes
  pub branch : Txn → Bytes
  pub tag : Txn → Bytes
  pub attachment_timestamp : Txn → ℕ
  pub attachment_timestamp_lower : Txn → ℕ
  pub attachment_timestamp_upper : Txn → ℕ
  pub nonce : Txn → Bytes
