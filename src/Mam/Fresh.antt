-- ===== src/Mam/Fresh.antt =====
-- accelerator/core/mam_core.c: the key that a message is written with.
use tangle_accelerator.Base.{
  ℕ, zero, suc, ◌+◌, ◌-◌, ◌^◌, ◌<◌, Bool, true, false, Option, none, some, Bytes, List, [], length,
  ◌≤◌, ◌≡◌, ◌≢◌, ◌⊎◌, refl, ap, arith,
}
use tangle_accelerator.Exec.{Outcome, done, fail, Exec, ◌>>=◌, continue, pure}
use tangle_accelerator.Env.Iota.{Iota}
use tangle_accelerator.Env.Tangle.{Tangle, FindTransactionsReq}
use tangle_accelerator.Core.Query.{front}
use tangle_accelerator.Mam.{
  MamLib, MamEncryptKey, State, ta_mam_write_header, msg_id_exist, mam_api_channel_get,
}
use tangle_accelerator.Mam.Channel.{
  FindResult, MamSendOperation, announce_chid, send_message, Tried, Written, tried, advance,
  create_channel_fetch_all_transactions,
}

two_pow_pos : (d : ℕ) → 0 < 2 ^ d
two_pow_pos zero = omega arith
two_pow_pos (suc d) = omega (arith, two_pow_pos d)

-- A result behind a call is that of what follows it, on the call's result and state.
continue_inv :
    {S A B : Type 0} (r : Outcome A) (f : A → Exec S B) (s s' : S) (b : B)
    → continue r f s ≡ (done b, s')
    → (a : A) × (r ≡ done a) × (f a s ≡ (done b, s'))
continue_inv (done a) f s s' b h = (a, refl, h)
continue_inv (fail e) f s s' b h = absurd cc

pub bind_inv :
    {S A B : Type 0} (m : Exec S A) (f : A → Exec S B) (s s' : S) (b : B)
    → (m >>= f) s ≡ (done b, s')
    → (a : A) × (s1 : S) × (m s ≡ (done a, s1)) × (f a s1 ≡ (done b, s'))
bind_inv m f s s' b h =
    let (a, p, q) = continue_inv (m s).0 f (m s).1 s' b h in
    (a, (m s).1, ap (λ r. (r, (m s).1)) p, q)

module _ {W : Type 0} (i : Iota W) (t : Tangle i) (m : MamLib W i.Txn)
    (find_transaction_objects : FindTransactionsReq → W → (FindResult × List i.Txn) × W) where
  -- The state behind mam_mss_next on a channel that is there
  abbrev with_next_key : Option ℕ → State m → State m
  with_next_key none s = s
  with_next_key (some place) (api, w) = (m.mss_next place api, w)

  abbrev next_key : Bytes → State m → State m
  next_key chid s = with_next_key (mam_api_channel_get m (some s.0) (some chid)) s

  module _ (chid : Bytes) (mam_key : MamEncryptKey m) (tags : List Bytes) where
    abbrev header : Exec (State m) (Bytes × List i.Txn)
    header = ta_mam_write_header m chid mam_key.psks mam_key.ntru_pks []

    -- The state in which the next key is tried
    abbrev behind_key : State m → State m
    behind_key s = next_key chid (header s).1

    abbrev at_key : ℕ → State m → State m
    at_key zero s = s
    at_key (suc k) s = at_key k (behind_key s)

    -- Whether the tag of the header is among the fetched ones
    abbrev in_tags : Bytes × List i.Txn → Bool
    in_tags a = msg_id_exist m tags (m.tag_of (front a.1))

    -- The first `k` keys from the state on are used.
    abbrev pub AllUsed : ℕ → State m → Type 0
    AllUsed zero s = Unit
    AllUsed (suc k) s =
        ((a : Bytes × List i.Txn) × ((header s).0 ≡ done a) × (in_tags a ≡ true))
        × AllUsed k (behind_key s)

    abbrev of_tried : Tried i.Txn → Bytes × List i.Txn
    of_tried y = (y.msg_id, y.bundle)

    -- From `s` the first unused of `suc left` keys was found, or the last one is used too.
    pub record KeyFound (left tries : ℕ) (s : State m) (y : Tried i.Txn) (s' : State m)
        : Type 0 where
      pub k : ℕ
      pub in_range : k ≤ left
      pub count : y.tries ≡ suc (tries + k)
      pub used_before : AllUsed k s
      pub written : (header (at_key k s)).0 ≡ done (of_tried y)
      pub outcome :
          ((in_tags (of_tried y) ≡ false) × (s' ≡ (header (at_key k s)).1))
          ⊎ ((in_tags (of_tried y) ≡ true) × (k ≡ left) × (s' ≡ at_key (suc k) s))

    abbrev as_tried : ℕ → Bytes × List i.Txn → Tried i.Txn
    as_tried tries (msg_id, bundle) = record { tries = suc tries; msg_id = msg_id; bundle = bundle }

    abbrev with_header :
        ℕ → Exec (State m) (Tried i.Txn) → Bytes × List i.Txn → Exec (State m) (Tried i.Txn)
    with_header tries rest (msg_id, bundle) =
        tried i t m find_transaction_objects tags bundle
          (advance i t m find_transaction_objects chid) rest
          (pure (as_tried tries (msg_id, bundle)))

  -- An announcement is due where one key is left.
  abbrev IsDue : ℕ → ℕ → MamSendOperation → Type 0
  IsDue keys tries operation =
      ((tries + 1 ≡ keys) × (operation ≡ announce_chid))
      ⊎ ((tries + 1 ≢ keys) × (operation ≡ send_message))

  abbrev as_written : Bytes → Tried i.Txn → MamSendOperation → Written i.Txn
  as_written chid y operation = record {
    chid = chid;
    msg_id = y.msg_id;
    bundle = y.bundle;
    operation = operation;
  }

  module _ (depth : ℕ) (mam_key : MamEncryptKey m) where
    abbrev fetch_from : Bool → Bytes → Exec (State m) (Bytes × List Bytes)
    fetch_from first_iter chid =
        create_channel_fetch_all_transactions i t m find_transaction_objects depth first_iter chid
          []

    -- The search from a channel's ID and a state comes to `x` in the state `s'`: each channel on the way had as many
    -- tags as keys, all of which were tried; on the last one, `x` is the header of the first key whose tag is not among
    -- the fetched ones, or of the last key where all are used and the tags are not as many as the keys.
    pub data Chosen (x : Written i.Txn) (s' : State m) : Bool → Bytes → State m → Type 0 where
      chosen :
          {first_iter : Bool} {chid : Bytes} {s : State m} (tags : List Bytes) (s1 : State m)
          (y : Tried i.Txn)
          → fetch_from first_iter chid s ≡ (done (x.chid, tags), s1)
          → KeyFound x.chid mam_key tags (2 ^ depth - 1) 0 s1 y s'
          → (y.msg_id ≡ x.msg_id) × (y.bundle ≡ x.bundle)
          → IsDue (2 ^ depth) y.tries x.operation
          → (y.tries ≡ 2 ^ depth → length tags ≢ 2 ^ depth)
          → Chosen x s' first_iter chid s
      next_channel :
          {first_iter : Bool} {chid : Bytes} {s : State m} (a : Bytes × List Bytes)
          (s1 s2 : State m) (y : Tried i.Txn)
          → fetch_from first_iter chid s ≡ (done a, s1)
          → KeyFound a.0 mam_key a.1 (2 ^ depth - 1) 0 s1 y s2
          → (y.tries ≡ 2 ^ depth) × (length a.1 ≡ 2 ^ depth)
          → Chosen x s' false a.0 s2
          → Chosen x s' first_iter chid s
