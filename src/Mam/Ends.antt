-- ===== src/Mam/Ends.antt =====
-- accelerator/core/mam_core.c: the search for a channel with an unused key ends.
use tangle_accelerator.Base.{
  ℕ, zero, suc, ◌-◌, ◌^◌, ◌<◌, Bool, false, Option, none, some, Bytes, List, [], length, ◌≡◌, ◌≢◌,
  refl, ap, arith,
}
use tangle_accelerator.Exec.{done, Exec, ◌>>=◌}
use tangle_accelerator.Env.Iota.{Iota}
use tangle_accelerator.Env.Tangle.{Tangle, FindTransactionsReq}
use tangle_accelerator.Mam.Fresh.{bind_inv}
use tangle_accelerator.Mam.{MamLib, MamEncryptKey, State}
use tangle_accelerator.Mam.Channel.{
  FindResult, MamSendOperation, Tried, Written, try_keys, operation_of, decide_by, decided, search,
  create_channel_fetch_all_transactions,
}

with_state : {S A : Type 0} {r : A × S} {a : A} → r.0 ≡ a → r ≡ (a, r.1)
with_state {r = r} h = ap (λ x. (x, r.1)) h

module _ {W : Type 0} (i : Iota W) (t : Tangle i) (m : MamLib W i.Txn)
    (find_transaction_objects : FindTransactionsReq → W → (FindResult × List i.Txn) × W) where
  operation_full :
      (keys tries tags : ℕ)
      → operation_of i t m find_transaction_objects keys tries tags ≡ none
      → tags ≡ keys
  operation_full keys tries tags h = ground arith

  -- Going on is what a full channel leads to.
  goes_on :
      (rest : Bytes → Exec (State m) (Option (Written i.Txn))) (chid : Bytes) (y : Tried i.Txn)
      (o : Option MamSendOperation) (s s' : State m)
      → decide_by i t m find_transaction_objects rest chid y o s ≡ (done none, s')
      → (o ≡ none) × (rest chid s ≡ (done none, s'))
  goes_on rest chid y none s s' h = (refl, h)
  goes_on rest chid y (some operation) s s' h = absurd (no_none (ap (λ p. p.0) h))
    where
      no_none : {x : Written i.Txn} → done (some x) ≡ done none → ⊥
      no_none h = cc

  module _ (depth : ℕ) (mam_key : MamEncryptKey m) where
    abbrev fetch_from : Bool → Bytes → Exec (State m) (Bytes × List Bytes)
    fetch_from first_iter chid =
        create_channel_fetch_all_transactions i t m find_transaction_objects depth first_iter chid
          []

    -- Behind at most so many channels with as many tags as keys there is one with another number of tags, or an error.
    pub data Ends : ℕ → Bool → Bytes → State m → Type 0 where
      fails :
          {n : ℕ} {first_iter : Bool} {chid : Bytes} {s : State m}
          → ((a : Bytes × List Bytes) → (fetch_from first_iter chid s).0 ≢ done a)
          → Ends n first_iter chid s
      not_full :
          {n : ℕ} {first_iter : Bool} {chid : Bytes} {s : State m}
          → ((a : Bytes × List Bytes)
              → (fetch_from first_iter chid s).0 ≡ done a
              → length a.1 ≢ 2 ^ depth)
          → Ends n first_iter chid s
      full :
          {n : ℕ} {first_iter : Bool} {chid : Bytes} {s : State m}
          → ((a : Bytes × List Bytes) (y : Tried i.Txn) (s1 s2 : State m)
              → fetch_from first_iter chid s ≡ (done a, s1)
              → try_keys i t m find_transaction_objects (2 ^ depth - 1) 0 a.0 mam_key a.1 s1
                ≡ (done y, s2)
              → Ends n false a.0 s2)
          → Ends (suc n) first_iter chid s

    one_channel :
        (fuel : ℕ) (first_iter : Bool) (chid : Bytes) (s s' : State m)
        → search i t m find_transaction_objects (suc fuel) depth first_iter mam_key chid s
          ≡ (done none, s')
        → (a : Bytes × List Bytes) × (y : Tried i.Txn) × (s1 : State m) × (s2 : State m)
          × (fetch_from first_iter chid s ≡ (done a, s1))
          × (try_keys i t m find_transaction_objects (2 ^ depth - 1) 0 a.0 mam_key a.1 s1
              ≡ (done y, s2))
          × (length a.1 ≡ 2 ^ depth)
          × (search i t m find_transaction_objects fuel depth false mam_key a.0 s2
              ≡ (done none, s'))
    unfolding search
    one_channel fuel first_iter chid s s' h =
        let rest = search i t m find_transaction_objects fuel depth false mam_key in
        let choose : List Bytes → Bytes → Tried i.Txn → Exec (State m) (Option (Written i.Txn)) =
          λ tags c y. decided i t m find_transaction_objects (2 ^ depth) tags rest c y in
        let keys : Bytes × List Bytes → Exec (State m) (Tried i.Txn) =
          λ (c, tags). try_keys i t m find_transaction_objects (2 ^ depth - 1) 0 c mam_key tags in
        let (a, s1, p, q) =
          bind_inv (fetch_from first_iter chid) (λ a. keys a >>= choose a.1 a.0) s s' none h in
        let (y, s2, r, o) = bind_inv (keys a) (choose a.1 a.0) s1 s' none q in
        let (is_none, more) =
          goes_on rest a.0 y
            (operation_of i t m find_transaction_objects (2 ^ depth) y.tries (length a.1)) s2 s'
            o in
        (a, y, s1, s2, p, r, operation_full (2 ^ depth) y.tries (length a.1) is_none, more)

    -- If behind at most `n` channels with as many tags as keys there is one with another number of tags, or an error,
    -- then the search does not run out of any fuel above `n`.
    pub search-Ends :
        (n fuel : ℕ) (first_iter : Bool) (chid : Bytes) (s : State m)
        → n < fuel
        → Ends n first_iter chid s
        → (search i t m find_transaction_objects fuel depth first_iter mam_key chid s).0 ≢ done none
    search-Ends n zero first_iter chid s more ends h = absurd (omega arith)
    search-Ends n (suc fuel) first_iter chid s more (fails none_fetched) h =
        let (a, y, s1, s2, p, r, count, next) =
          one_channel fuel first_iter chid s _ (with_state h) in
        none_fetched a (ap (λ x. x.0) p)
    search-Ends n (suc fuel) first_iter chid s more (not_full other) h =
        let (a, y, s1, s2, p, r, count, next) =
          one_channel fuel first_iter chid s _ (with_state h) in
        other a (ap (λ x. x.0) p) count
    search-Ends (suc n) (suc fuel) first_iter chid s more (full then_ends) h =
        let (a, y, s1, s2, p, r, count, next) =
          one_channel fuel first_iter chid s _ (with_state h) in
        search-Ends n fuel false a.0 s2 (omega arith) (then_ends a y s1 s2 p r) (ap (λ x. x.0) next)
