-- ===== src/Env/Frame.antt =====
-- What leaves the database and the lock alone: the requests to the full node and the proof of work do, as
-- they go elsewhere.
use tangle_accelerator.Base.{ℕ, Bool, true, false, Bytes, List, ◌≡◌, refl, ◌∙◌, if◌then◌else◌}
use tangle_accelerator.Exec.{Outcome, done, fail, Exec, ◌>>=◌, continue}
use tangle_accelerator.Env.{Env}
use tangle_accelerator.Env.Laws.{RedisLaws, LockLaws}
use tangle_accelerator.Env.Iota.{Iota}

module _ {e : Env} {r : RedisLaws e} (l : LockLaws e r) where
  -- The worlds show the same database and the same lock.
  pub record Near (v w : e.World) : Type 0 where
    pub near_items : (j : Bytes) → r.items w j ≡ r.items v j
    pub near_strings : (j : Bytes) → r.strings w j ≡ r.strings v j
    pub near_held : l.held w ≡ l.held v

  pub Near-refl : (w : e.World) → Near w w
  Near-refl w = record { near_items = λ j. refl; near_strings = λ j. refl; near_held = refl }

  pub Near-trans : {u v w : e.World} → Near u v → Near v w → Near u w
  Near-trans a b = record {
    near_items = λ j. b.near_items j ∙ a.near_items j;
    near_strings = λ j. b.near_strings j ∙ a.near_strings j;
    near_held = b.near_held ∙ a.near_held;
  }

  pub record NetLaws (i : Iota e.World) : Type 0 where
    pub near_timestamp : (w : e.World) → Near w (i.current_timestamp_ms w).1
    pub near_dcurl : (t : Bytes) (n : ℕ) (w : e.World) → Near w (i.dcurl_entry t n w).1
    pub near_tips : (n : ℕ) (w : e.World) → Near w (i.get_transactions_to_approve n w).1
    pub near_broadcast : (t : List Bytes) (w : e.World) → Near w (i.store_and_broadcast t w).1
    pub near_get_trytes : (t : List Bytes) (w : e.World) → Near w (i.get_trytes t w).1

  -- The action leaves both alone, on every path.
  pub record KeepsAll {A : Type 0} (m : Exec e.World A) : Type 0 where
    pub near : (w : e.World) → Near w (m w).1

  module _ {A B : Type 0} where
    continue-Near :
        (o : Outcome A) (f : A → Exec e.World B) (w : e.World)
        → ((a : A) → KeepsAll (f a))
        → Near w (continue o f w).1
    continue-Near (done a) f w k = (k a).near w
    continue-Near (fail s) f w k = Near-refl w

    pub KeepsAll-bind :
        (m : Exec e.World A) (f : A → Exec e.World B)
        → KeepsAll m
        → ((a : A) → KeepsAll (f a))
        → KeepsAll (m >>= f)
    KeepsAll-bind m f h k = record {
      near = λ w. Near-trans (h.near w) (continue-Near (m w).0 f (m w).1 k);
    }

  module _ {A : Type 0} where
    pub KeepsAll-pure : (o : Outcome A) → KeepsAll (λ w. (o, w))
    KeepsAll-pure o = record { near = λ w. Near-refl w }

    pub KeepsAll-if :
        (b : Bool) (m n : Exec e.World A) → KeepsAll m → KeepsAll n → KeepsAll (if b then m else n)
    KeepsAll-if true m n h k = h
    KeepsAll-if false m n h k = k
