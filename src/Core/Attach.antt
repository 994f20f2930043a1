-- ===== src/Core/Attach.antt =====
-- accelerator/core/pow.c and accelerator/core/core.c: proof of work on a bundle, attaching it to the
-- tangle, and sending it.
pub mod Chain
pub mod Keeps
use tangle_accelerator.Base.{
  ℕ, zero, suc, ◌+◌, ◌-◌, Bool, true, false, Option, none, some, Bytes, List, [], ◌∷◌, ◌==◌,
  if◌then◌else◌, take, drop, rev_onto, map,
}
use tangle_accelerator.Errors.{
  Status, oom, null, cclient_invalid_flex_trits, cclient_failed_response,
}
use tangle_accelerator.Exec.{Outcome, done, fail, Exec, ◌>>=◌, continue, pure, raise}
use tangle_accelerator.Env.Iota.{Iota}

-- NUM_TRYTES_SERIALIZED_TRANSACTION and NUM_TRYTES_NONCE of the IOTA library
abbrev pub num_trytes_serialized_transaction : ℕ
num_trytes_serialized_transaction = 2673

abbrev pub num_trytes_nonce : ℕ
num_trytes_nonce = 27

-- The parts of iota_config_t and of the command line options that sending reads.
pub record SendConfig : Type 0 where
  pub gtta : Bool
  pub milestone_depth : ℕ
  pub mwm : ℕ

module _ {W : Type 0} (i : Iota W) where
  abbrev or_fail : {A : Type 0} → Status → Option A → Outcome A
  or_fail s none = fail s
  or_fail s (some a) = done a

  -- The nonce stands at the end of the trytes that dcurl returns.
  unfoldable pub ta_pow_flex : Bytes → ℕ → W → Option Bytes × W
  ta_pow_flex trits mwm w =
      let (trytes, w') = i.dcurl_entry (i.to_trytes trits) mwm w in
      (
        elim trytes [
          | none ↦ none
          | some t ↦ some (
              i.from_trytes (
                take num_trytes_nonce
                  (drop (num_trytes_serialized_transaction - num_trytes_nonce) t)))
        ],
        w',
      )

  -- A transaction with trunk, branch and attachment times set.
  abbrev pub prepared : Bytes → Bytes → ℕ → i.Txn → i.Txn
  prepared trunk branch now tx = i.set_attachment_timestamp_lower 0 (
      i.set_attachment_timestamp_upper 3812798742493
        (i.set_attachment_timestamp now (i.set_branch branch (i.set_trunk trunk tx))))

  abbrev pub nonce_set : i.Txn → Option Bytes × W → Outcome i.Txn × W
  nonce_set tx (none, w) = (fail oom, w)
  nonce_set tx (some nonce, w) = (done (i.set_nonce nonce tx), w)

  abbrev pub mined : i.Txn → ℕ → Bool × Bytes → W → Outcome i.Txn × W
  mined tx mwm (false, trits) w = (fail cclient_invalid_flex_trits, w)
  mined tx mwm (true, trits) w = nonce_set tx (ta_pow_flex trits mwm w)

  -- One round of the loop of ta_pow.
  unfoldable pub pow_txn : Bytes → Bytes → ℕ → i.Txn → Exec W i.Txn
  unfolding ta_pow_flex
  pow_txn trunk branch mwm tx w =
      let (now, w1) = i.current_timestamp_ms w in
      let tx1 = prepared trunk branch now tx in mined tx1 mwm (i.on_trits tx1) w1

  -- The loop, over the bundle from its back on: `acc` holds the transactions that are done, and what is
  -- left over when `cur_idx` reaches 0 stays as it is.
  unfoldable pub pow_loop : Bytes → ℕ → ℕ → List i.Txn → Bytes → List i.Txn → Exec W (List i.Txn)
  unfolding pow_txn
  pow_loop branch mwm cur_idx [] trunk acc = pure acc
  pow_loop branch mwm cur_idx (tx ∷ more) trunk acc = do
    tx' ← pow_txn trunk branch mwm tx
    let acc' = tx' ∷ acc
    let rest = pow_loop branch mwm (cur_idx - 1) more (i.digest (i.on_trits tx').1) acc'
    if cur_idx - 1 == 0 then pure (rev_onto more acc') else rest

  abbrev pub pow_back : Bytes → Bytes → ℕ → List i.Txn → Exec W (List i.Txn)
  pow_back trunk branch mwm [] = raise null
  pow_back trunk branch mwm (tx ∷ more) =
      pow_loop branch mwm (i.last_index tx + 1) (tx ∷ more) trunk []

  unfoldable pub ta_pow : List i.Txn → Bytes → Bytes → ℕ → Exec W (List i.Txn)
  ta_pow bundle trunk branch mwm = pow_back trunk branch mwm (rev_onto bundle [])

  -- The loop over the bundle in ta_attach_to_tangle.
  unfoldable pub serialize_all : List i.Txn → Outcome (List Bytes)
  serialize_all [] = done []
  serialize_all (tx ∷ txs) = with_trits (i.serialize tx) (serialize_all txs)
    where
      with_trits : Option Bytes → Outcome (List Bytes) → Outcome (List Bytes)
      with_trits none rest = fail cclient_failed_response
      with_trits (some trits) (done rest) = done (trits ∷ rest)
      with_trits (some trits) (fail s) = fail s

  unfoldable pub ta_attach_to_tangle : List Bytes → Bytes → Bytes → ℕ → Exec W (List Bytes)
  unfolding ta_pow pow_loop serialize_all
  ta_attach_to_tangle trytes trunk branch mwm = do
    bundle ← ta_pow (map i.of_trits trytes) trunk branch mwm
    λ w. (serialize_all bundle, w)

  abbrev pub tips_if : Bool → ℕ → W → Outcome (Bytes × Bytes) × W
  tips_if true depth w =
      let (pair, w') = i.get_transactions_to_approve depth w in
      (or_fail cclient_failed_response pair, w')
  tips_if false depth w = (done i.blank_tips, w)

  abbrev pub tips : SendConfig → W → Outcome (Bytes × Bytes) × W
  tips conf w = tips_if conf.gtta conf.milestone_depth w

  abbrev pub broadcast : List Bytes → Exec W (List Bytes)
  broadcast trytes w =
      let (failed, w') = i.store_and_broadcast trytes w in
      (if failed then fail cclient_failed_response else done trytes, w')

  -- The result is what the array `trytes` holds behind a call that succeeds.
  unfoldable pub ta_send_trytes : SendConfig → List Bytes → Exec W (List Bytes)
  unfolding ta_attach_to_tangle
  ta_send_trytes conf trytes = do
    pair ← tips conf
    attached ← ta_attach_to_tangle trytes pair.0 pair.1 conf.mwm
    broadcast attached
