-- ===== src/Cache/Held.antt =====
-- utils/cache/backend_redis.c: no cache function takes or gives up the lock, whatever the server answers.
use tangle_accelerator.Base.{
  ℕ, zero, suc, ◌+◌, Bool, true, false, Option, none, some, Bytes, c_str, ◌≡◌, refl, ◌∙◌,
}
use tangle_accelerator.Errors.{Status}
use tangle_accelerator.Exec.{Outcome, done, fail, Exec, ◌>>=◌, continue, pure, raise}
use tangle_accelerator.Env.{Env, llen}
use tangle_accelerator.Env.Laws.{RedisLaws, LockLaws}
use tangle_accelerator.Cache.{
  cache_del, cache_get, cache_set, cache_list_push, cache_list_at, cache_list_peek, cache_list_size,
  cache_list_exist, cache_list_pop, exist_loop, redis_list_at, known_size, sized,
}

module _ {e : Env} {r : RedisLaws e} (l : LockLaws e r) where
  open l use {held}

  -- The action keeps the lock as it is, on every path.
  pub record KeepsHeld {A : Type 0} (m : Exec e.World A) : Type 0 where
    pub kept : (w : e.World) → held (m w).1 ≡ held w

  module _ {A B : Type 0} where
    continue-held :
        (o : Outcome A) (f : A → Exec e.World B) (w : e.World)
        → ((a : A) → KeepsHeld (f a))
        → held (continue o f w).1 ≡ held w
    continue-held (done a) f w k = (k a).kept w
    continue-held (fail s) f w k = refl

    pub KeepsHeld-bind :
        (m : Exec e.World A) (f : A → Exec e.World B)
        → KeepsHeld m
        → ((a : A) → KeepsHeld (f a))
        → KeepsHeld (m >>= f)
    KeepsHeld-bind m f h k = record { kept = λ w. continue-held (m w).0 f (m w).1 k ∙ h.kept w }

  module _ {A : Type 0} where
    pub KeepsHeld-pure : (a : A) → KeepsHeld (pure {W = e.World} a)
    KeepsHeld-pure a = record { kept = λ w. refl }

    pub KeepsHeld-raise : (s : Status) → KeepsHeld (raise {W = e.World} {A = A} s)
    KeepsHeld-raise s = record { kept = λ w. refl }

  pub KeepsHeld-del : (state : Bool) (key : Option Bytes) → KeepsHeld (cache_del e state key)
  unfolding cache_del
  KeepsHeld-del false key = record { kept = λ w. refl }
  KeepsHeld-del true none = record { kept = λ w. refl }
  KeepsHeld-del true (some k) = record { kept = λ w. l.redis_held _ w }

  pub KeepsHeld-get : (state : Bool) (key : Option Bytes) → KeepsHeld (cache_get e state key)
  unfolding cache_get
  KeepsHeld-get false key = record { kept = λ w. refl }
  KeepsHeld-get true none = record { kept = λ w. refl }
  KeepsHeld-get true (some k) = record { kept = λ w. l.redis_held _ w }

  pub KeepsHeld-pop : (state : Bool) (key : Option Bytes) → KeepsHeld (cache_list_pop e state key)
  unfolding cache_list_pop
  KeepsHeld-pop false key = record { kept = λ w. refl }
  KeepsHeld-pop true none = record { kept = λ w. refl }
  KeepsHeld-pop true (some k) = record { kept = λ w. l.redis_held _ w }

  pub KeepsHeld-size : (state : Bool) (key : Option Bytes) → KeepsHeld (cache_list_size e state key)
  unfolding cache_list_size
  KeepsHeld-size false key = record { kept = λ w. refl }
  KeepsHeld-size true none = record { kept = λ w. refl }
  KeepsHeld-size true (some k) = record { kept = λ w. l.redis_held _ w }

  pub KeepsHeld-peek :
      (state : Bool) (key : Option Bytes) (n : ℕ) → KeepsHeld (cache_list_peek e state key n)
  unfolding cache_list_peek
  KeepsHeld-peek false key n = record { kept = λ w. refl }
  KeepsHeld-peek true none n = record { kept = λ w. refl }
  KeepsHeld-peek true (some k) n = record { kept = λ w. l.redis_held _ w }

  pub KeepsHeld-at :
      (state : Bool) (key : Option Bytes) (i n : ℕ) → KeepsHeld (cache_list_at e state key i n)
  unfolding cache_list_at
  KeepsHeld-at false key i n = record { kept = λ w. refl }
  KeepsHeld-at true none i n = record { kept = λ w. refl }
  KeepsHeld-at true (some k) i n = record { kept = λ w. l.redis_held _ w }

  pub KeepsHeld-set :
      (state : Bool) (key : Option Bytes) (n : ℕ) (value : Option Bytes) (m timeout : ℕ)
      → KeepsHeld (cache_set e state key n value m timeout)
  unfolding cache_set
  KeepsHeld-set false key n value m t = record { kept = λ w. refl }
  KeepsHeld-set true none n value m t = record { kept = λ w. refl }
  KeepsHeld-set true (some k) n none m t = record { kept = λ w. refl }
  KeepsHeld-set true (some k) n (some v) m t = record { kept = λ w. l.redis_held _ w }

  pub KeepsHeld-push :
      (state : Bool) (key : Option Bytes) (n : ℕ) (value : Option Bytes) (m : ℕ)
      → KeepsHeld (cache_list_push e state key n value m)
  unfolding cache_list_push
  KeepsHeld-push false key n value m = record { kept = λ w. refl }
  KeepsHeld-push true none n value m = record { kept = λ w. refl }
  KeepsHeld-push true (some k) n none m = record { kept = λ w. refl }
  KeepsHeld-push true (some k) n (some v) m = record { kept = λ w. l.redis_held _ w }

  exist_loop-held :
      (key value : Bytes) (n rounds i : ℕ) (buf : Bytes) (ret : Status) (found : Bool) (w : e.World)
      → held (exist_loop e key value n rounds i buf ret found w).2 ≡ held w
  unfolding exist_loop redis_list_at
  exist_loop-held key value n zero i buf ret found w = refl
  exist_loop-held key value n (suc rounds) i buf ret found w =
      exist_loop-held key value n rounds (i + 1) _ _ _ _ ∙ l.redis_held _ w

  pub KeepsHeld-exist :
      (state : Bool) (stack : Bytes) (key value : Option Bytes) (n : ℕ)
      → KeepsHeld (cache_list_exist e state stack key value n)
  unfolding cache_list_exist
  KeepsHeld-exist false stack key value n = record { kept = λ w. refl }
  KeepsHeld-exist true stack none value n = record { kept = λ w. refl }
  KeepsHeld-exist true stack (some k) none n = record { kept = λ w. refl }
  KeepsHeld-exist true stack (some k) (some v) n = record {
    kept = λ w.
        let (reply, w1) = e.redis (llen (c_str k)) w in
        let (len, ret) = known_size (sized reply) in
        exist_loop-held k v n len 0 stack ret false w1 ∙ l.redis_held (llen (c_str k)) w;
  }

  pub ruleset keeps_held = (
    KeepsHeld-pure, KeepsHeld-raise, KeepsHeld-bind, KeepsHeld-del, KeepsHeld-get, KeepsHeld-pop,
    KeepsHeld-size, KeepsHeld-peek, KeepsHeld-at, KeepsHeld-set, KeepsHeld-push, KeepsHeld-exist,
  )
