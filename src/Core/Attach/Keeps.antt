-- ===== src/Core/Attach/Keeps.antt =====
-- accelerator/core/pow.c, accelerator/core/core.c: attaching and sending leave the database and the lock
-- alone.
use tangle_accelerator.Base.{
  ℕ, ◌-◌, Bool, true, false, Option, none, some, Bytes, List, [], ◌∷◌, ◌==◌, map,
}
use tangle_accelerator.Errors.{null}
use tangle_accelerator.Exec.{done, fail}
use tangle_accelerator.Env.{Env}
use tangle_accelerator.Env.Laws.{RedisLaws, LockLaws}
use tangle_accelerator.Env.Iota.{Iota}
use tangle_accelerator.Env.Frame.{
  Near, NetLaws, KeepsAll, KeepsAll-bind, KeepsAll-pure, KeepsAll-if, Near-trans, Near-refl,
}
use tangle_accelerator.Core.Attach.{
  SendConfig, ta_pow_flex, nonce_set, mined, pow_txn, pow_loop, pow_back, ta_pow, serialize_all,
  ta_attach_to_tangle, tips, tips_if, ta_send_trytes,
}

module _ {e : Env} {r : RedisLaws e} (l : LockLaws e r) (i : Iota e.World) (n : NetLaws l i) where
  nonce-Near :
      (tx : i.Txn) (p : Option Bytes × e.World) (w : e.World)
      → Near l w p.1
      → Near l w (nonce_set i tx p).1
  nonce-Near tx (none, v) w h = h
  nonce-Near tx (some t, v) w h = h

  flex-Near : (trits : Bytes) (mwm : ℕ) (w : e.World) → Near l w (ta_pow_flex i trits mwm w).1
  unfolding ta_pow_flex
  flex-Near trits mwm w = n.near_dcurl (i.to_trytes trits) mwm w

  mined-Near :
      (tx : i.Txn) (mwm : ℕ) (p : Bool × Bytes) (w : e.World) → Near l w (mined i tx mwm p w).1
  mined-Near tx mwm (false, t) w = Near-refl l w
  mined-Near tx mwm (true, t) w = nonce-Near tx (ta_pow_flex i t mwm w) w (flex-Near t mwm w)

  KeepsAll-pow_txn :
      (trunk branch : Bytes) (mwm : ℕ) (tx : i.Txn) → KeepsAll l (pow_txn i trunk branch mwm tx)
  unfolding pow_txn
  KeepsAll-pow_txn trunk branch mwm tx = record {
    near = λ w. Near-trans l (n.near_timestamp w) (mined-Near _ mwm _ _);
  }

  KeepsAll-pow_loop :
      (branch : Bytes) (mwm cur_idx : ℕ) (todo : List i.Txn) (trunk : Bytes) (acc : List i.Txn)
      → KeepsAll l (pow_loop i branch mwm cur_idx todo trunk acc)
  unfolding pow_loop
  KeepsAll-pow_loop branch mwm cur_idx [] trunk acc = KeepsAll-pure l (done acc)
  KeepsAll-pow_loop branch mwm cur_idx (tx ∷ more) trunk acc =
      KeepsAll-bind l (pow_txn i trunk branch mwm tx) _ (KeepsAll-pow_txn trunk branch mwm tx)
        (λ tx'.
          KeepsAll-if l (cur_idx - 1 == 0) _ _ (KeepsAll-pure l (done _))
            (KeepsAll-pow_loop branch mwm (cur_idx - 1) more _ (tx' ∷ acc)))

  KeepsAll-pow_back :
      (trunk branch : Bytes) (mwm : ℕ) (todo : List i.Txn)
      → KeepsAll l (pow_back i trunk branch mwm todo)
  KeepsAll-pow_back trunk branch mwm [] = KeepsAll-pure l (fail null)
  KeepsAll-pow_back trunk branch mwm (tx ∷ more) =
      KeepsAll-pow_loop branch mwm _ (tx ∷ more) trunk []

  KeepsAll-attach :
      (trytes : List Bytes) (trunk branch : Bytes) (mwm : ℕ)
      → KeepsAll l (ta_attach_to_tangle i trytes trunk branch mwm)
  unfolding ta_attach_to_tangle ta_pow
  KeepsAll-attach trytes trunk branch mwm =
      KeepsAll-bind l (ta_pow i (map i.of_trits trytes) trunk branch mwm) _
        (KeepsAll-pow_back trunk branch mwm _) (λ bundle. KeepsAll-pure l (serialize_all i bundle))

  KeepsAll-tips : (conf : SendConfig) → KeepsAll l (tips i conf)
  KeepsAll-tips conf = record { near = λ w. by_option conf.gtta conf.milestone_depth w }
    where
      by_option : (b : Bool) (depth : ℕ) (w : e.World) → Near l w (tips_if i b depth w).1
      by_option true depth w = n.near_tips depth w
      by_option false depth w = Near-refl l w

  -- Sending a bundle leaves the database and the lock as they are, whether or not it succeeds.
  pub KeepsAll-ta_send_trytes :
      (conf : SendConfig) (trytes : List Bytes) → KeepsAll l (ta_send_trytes i conf trytes)
  unfolding ta_send_trytes
  KeepsAll-ta_send_trytes conf trytes =
      KeepsAll-bind l (tips i conf) _ (KeepsAll-tips conf) (λ pair.
        KeepsAll-bind l (ta_attach_to_tangle i trytes pair.0 pair.1 conf.mwm) _
          (KeepsAll-attach trytes pair.0 pair.1 conf.mwm)
          (λ attached. record { near = λ w. n.near_broadcast attached w }))
