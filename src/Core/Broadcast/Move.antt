-- ===== src/Core/Broadcast/Move.antt =====
-- accelerator/core/periodical_task.c: a sent request's UUID goes from the buffer list to the complete list.
use tangle_accelerator.Base.{
  take_front, ◌-◌, ◌<◌, true, none, some, Bytes, List, ◌∷◌, length, take-length, NulFree, ◌≡◌, ◌≢◌,
  refl, sym, ap, subst, ◌∙◌, by_key,
}
use tangle_accelerator.Exec.{done}
use tangle_accelerator.Env.{Env, lpop, lpush}
use tangle_accelerator.Env.Laws.{RedisLaws, LockLaws, tail}
use tangle_accelerator.Cache.{cache_list_push}
use tangle_accelerator.Cache.Steps.{IsAlive, after, pop-eq}
use tangle_accelerator.Core.Buffer.{uuid_len}
use tangle_accelerator.Core.Broadcast.{move_uuid, written_over}

module _ {e : Env} {r : RedisLaws e} (l : LockLaws e r) (alive : IsAlive r) where
  open r use {strings, items}
  open l use {held}

  push_over-eq :
      (to uuid buf : Bytes) (w : e.World)
      → length uuid ≡ uuid_len
      → strings w to ≡ none
      → cache_list_push e true (some to) (length to) (some (written_over uuid buf)) uuid_len w
        ≡ (done tt, after r alive (lpush to uuid) w)
  unfolding cache_list_push
  push_over-eq to uuid buf w lu s =
      rw (take-length to, take_front uuid_len uuid _ lu)
        (rw (r.lpush_reply to uuid w (alive _ _) s) refl)

  -- If the lock is held, the server answers, the two names are different and have no string values, and
  -- a UUID of 36 bytes with no NUL is the head of the first list, then the move succeeds: the first list
  -- loses its head, the second gets the UUID as its head, all other lists and all strings stay, and the lock is held once
  -- less.
  pub move_uuid_lem :
      (from to uuid buf : Bytes) (rest : List Bytes) (w : e.World)
      → NulFree from
      → NulFree uuid
      → length uuid ≡ uuid_len
      → from ≢ to
      → strings w from ≡ none
      → strings w to ≡ none
      → items w from ≡ uuid ∷ rest
      → 0 < held w
      → let (ret, w') = move_uuid e true from to buf w in
        (ret ≡ done tt)
        × (items w' from ≡ rest)
        × (items w' to ≡ uuid ∷ items w to)
        × ((j : Bytes) → from ≢ j → to ≢ j → items w' j ≡ items w j)
        × ((j : Bytes) → strings w' j ≡ strings w j)
        × (held w' ≡ held w - 1)
  unfolding move_uuid
  move_uuid_lem from to uuid buf rest w nf nu lu ne sf st lf h =
      let w1 = after r alive (lpop from) w in
      let w2 = after r alive (lpush to uuid) w1 in
      let st1 : strings w1 to ≡ none = r.frame_strings (lpop from) w to ne ∙ st in
      let h2 : held w2 ≡ held w = l.redis_held (lpush to uuid) w1 ∙ l.redis_held (lpop from) w in
      rw (pop-eq r alive from nf w uuid sf (rw lf refl) nu) (
        rw (push_over-eq to uuid buf w1 lu st1) (
          rw (l.unlock_held w2 (subst (λ n. 0 < n) (sym h2) h)) (
            refl,
            l.unlock_items w2 from
                ∙ r.frame_items (lpush to uuid) w1 from (λ p. ne (sym p))
                ∙ r.lpop_items from w (alive _ _) sf
                ∙ ap tail lf,
            l.unlock_items w2 to
                ∙ r.lpush_items to uuid w1 (alive _ _) st1
                ∙ ap (λ s. uuid ∷ s) (r.frame_items (lpop from) w to ne),
            λ j hf ht.
                l.unlock_items w2 j
                ∙ r.frame_items (lpush to uuid) w1 j ht
                ∙ r.frame_items (lpop from) w j hf,
            λ j.
                l.unlock_strings w2 j
                ∙ by_key to (strings w2) (strings w1) (r.lpush_strings to uuid w1)
                    (r.frame_strings (lpush to uuid) w1) j
                ∙ by_key from (strings w1) (strings w) (r.lpop_strings from w)
                    (r.frame_strings (lpop from) w) j,
            l.unlock_drops w2 ∙ ap (λ n. n - 1) h2,
          )))
