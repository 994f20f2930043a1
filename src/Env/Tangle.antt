-- ===== src/Env/Tangle.antt =====
-- What the queries and transfers of accelerator/core/core.c use of the IOTA client library beside `Iota`, and
-- the sorting of the C library.
use tangle_accelerator.Base.{
  ℕ, Bool, Option, some, Bytes, List, [], ◌∷◌, ◌++◌, IsSorted, ltb, if◌then◌else◌, ◌≡◌,
}
use tangle_accelerator.Env.Iota.{Iota}
use mathlib.Core.List.{Perm}

-- find_transactions_req_t: what the transactions are to have.
pub record FindTransactionsReq : Type 0 where
  pub bundles : List Bytes
  pub addresses : List Bytes
  pub tags : List Bytes
  pub approvees : List Bytes

-- transfer_t, of value 0
pub record Transfer : Type 0 where
  pub timestamp : ℕ
  pub message : Bytes
  pub address : Bytes
  pub tag : Bytes

-- The sign of what a comparison function of qsort returns.
pub data Sign : Type 0 where
  negative : Sign
  nought : Sign
  positive : Sign

-- An argument of type Option is a pointer that may be NULL, where the library's function gets one.
pub record Tangle {W : Type 0} (i : Iota W) : Type 1 where
  pub current_index : i.Txn → ℕ
  pub trunk : i.Txn → Bytes
  pub bundle_of : Option i.Txn → Bytes
  pub address_of : Option i.Txn → Bytes
  -- transaction_deserialize, `none` for NULL
  pub deserialize : Option Bytes → Option i.Txn
  pub flex_trits_are_null : Option Bytes → Bool
  -- transaction_array_push_back and bundle_transactions_add
  pub push_back : List i.Txn → Option i.Txn → List i.Txn
  pub qsort : (i.Txn → i.Txn → Sign) → List i.Txn → List i.Txn
  -- bundle_finalize
  pub finalize : List i.Txn → List i.Txn
  -- transfer_message_set_trytes of a text and a length
  pub message_of : Bytes → ℕ → Option Bytes
  -- iota_client_prepare_transfers from a seed, with a security level, one transfer and a timestamp
  pub prepare_transfers : Bytes → ℕ → Transfer → ℕ → W → Option (List i.Txn) × W
  pub find_transactions : FindTransactionsReq → W → Option (List Bytes) × W
  -- iota_client_get_transaction_objects: what it appends to the array
  pub get_transaction_objects : List Bytes → W → Option (List i.Txn) × W

abbrev pub compared : ℕ → ℕ → Sign
compared m n = if ltb m n then negative else if ltb n m then positive else nought

-- qsort permutes the array and sorts it by a key that the comparison goes by; a transaction that is there is
-- appended, and is data, of which equality has one proof.
pub record TangleLaws {W : Type 0} (i : Iota W) (t : Tangle i) : Type 0 where
  pub txn_set : IsSet i.Txn
  pub push_back_some : (xs : List i.Txn) (x : i.Txn) → t.push_back xs (some x) ≡ xs ++ x ∷ []
  pub qsort_perm : (cmp : i.Txn → i.Txn → Sign) (xs : List i.Txn) → Perm (t.qsort cmp xs) xs
  pub qsort_sorted :
      (key : i.Txn → ℕ) (cmp : i.Txn → i.Txn → Sign) (xs : List i.Txn)
      → ((x y : i.Txn) → cmp x y ≡ compared (key x) (key y))
      → IsSorted key (t.qsort cmp xs)

-- The node tells one object for the hash, whatever happened.
abbrev pub Told : {W : Type 0} → (i : Iota W) (t : Tangle i) → (Bytes → i.Txn) → Bytes → Type 0
Told {W} i t object hash =
    (v : W) → (t.get_transaction_objects (hash ∷ []) v).0 ≡ some (object hash ∷ [])
