-- ===== src/Cache/Lists.antt =====
-- utils/cache/backend_redis.c: what is stored under a key is found there again.
use tangle_accelerator.Base.{
  ℕ, zero, suc, ◌≤◌, true, none, some, Bytes, [], ◌∷◌, length, get_elem?, All, NulFree, c_str_lem,
  strncpy, le→leb, by_key, ◌≡◌, ◌↔◌, refl, ap, ◌∙◌, arith,
}
use tangle_accelerator.Exec.{Outcome, done}
use tangle_accelerator.Env.{Env, set_nx, lpush, lpop}
use tangle_accelerator.Env.Laws.{RedisLaws, tail}
use tangle_accelerator.Cache.{
  cache_get, cache_set, cache_list_push, cache_list_at, cache_list_pop, expiry,
}
use tangle_accelerator.Cache.Exist.{SameView}
use tangle_accelerator.Cache.Steps.{IsAlive, push-eq, pop-eq, set-eq, get-eq}

-- Behind the first NUL there are only NULs.
abbrev pub NulsAtEnd : Bytes → Type 0
NulsAtEnd [] = Unit
NulsAtEnd (zero ∷ s) = All (λ c. c ≡ 0) s
NulsAtEnd (suc c ∷ s) = NulsAtEnd s

zeros_iff : (s : Bytes) → (strncpy (length s) [] ≡ s) ↔ All (λ c. c ≡ 0) s
zeros_iff [] = (λ h. tt, λ h. refl)
zeros_iff (c ∷ s) = (λ h. (cc, (zeros_iff s).0 (cc)), λ h. cc (h.0, (zeros_iff s).1 h.1))

strncpy-eq_iff : (s : Bytes) → (strncpy (length s) s ≡ s) ↔ NulsAtEnd s
strncpy-eq_iff [] = (λ h. tt, λ h. refl)
strncpy-eq_iff (zero ∷ s) = (λ h. (zeros_iff s).0 (cc), λ h. cc ((zeros_iff s).1 h))
strncpy-eq_iff (suc c ∷ s) = (λ h. (strncpy-eq_iff s).0 (cc), λ h. cc ((strncpy-eq_iff s).1 h))

module _ {e : Env} (r : RedisLaws e) (alive : IsAlive r) (k v : Bytes) (n : NulFree k)
    (w : e.World) where
  open r use {strings, items}

  -- An entry comes back as strncpy copies it.
  at-raw :
      (i len : ℕ)
      → strings w k ≡ none
      → get_elem? (items w k) i ≡ some v
      → length v ≤ len
      → (cache_list_at e true (some k) i len w).0 ≡ done (strncpy (length v) v)
  unfolding cache_list_at
  at-raw i len s h le =
      rw (c_str_lem k n) (rw (r.lindex_reply k i w (alive _ _) s) (rw h (rw (le→leb _ _ le))))

module _ {e : Env} (r : RedisLaws e) (alive : IsAlive r) (k v : Bytes) (n : NulFree k)
    (w : e.World) where
  open r use {strings, items}

  abbrev push_all : Outcome (Unit {0}) × e.World
  push_all = cache_list_push e true (some k) (length k) (some v) (length v) w

  -- While redis refuses no command, for a key without a NUL that holds no string: a push succeeds, and reading the head
  -- then gives the pushed bytes exactly if these hold no NUL but
  -- at their end: list entries are copied as C strings. The entries pushed before move up by one.
  pub cache_list_at-push :
      strings w k ≡ none
      → (push_all.0 ≡ done tt)
        × (((cache_list_at e true (some k) 0 (length v) push_all.1).0 ≡ done v) ↔ NulsAtEnd v)
        × ((i : ℕ) → get_elem? (items push_all.1 k) (suc i) ≡ get_elem? (items w k) i)
  cache_list_at-push s =
      let pushed = push-eq r alive k w v s in
      let w1 = (e.redis (lpush k v) w).1 in
      let now : items w1 k ≡ v ∷ items w k = r.lpush_items k v w (alive _ _) s in
      let read : (cache_list_at e true (some k) 0 (length v) w1).0 ≡ done (strncpy (length v) v) =
        at-raw r alive k v n w1 0 (length v) (r.lpush_strings k v w ∙ s) (rw now) (omega arith) in
      rw pushed (
        refl,
        rw read (λ h. (strncpy-eq_iff v).0 (cc), λ h. ap done ((strncpy-eq_iff v).1 h)),
        λ i. rw now,
      )

  -- While redis refuses no command, for a key without a NUL that holds no string, and a value without a NUL: popping
  -- takes off what was pushed last, its bytes are returned, and the database is as before: the buffers are stacks.
  pub cache_list_pop-push :
      strings w k ≡ none
      → NulFree v
      → ((cache_list_pop e true (some k) push_all.1).0 ≡ done v)
        × SameView r w (cache_list_pop e true (some k) push_all.1).1
  cache_list_pop-push s nv =
      let w1 = (e.redis (lpush k v) w).1 in
      let now : items w1 k ≡ v ∷ items w k = r.lpush_items k v w (alive _ _) s in
      let s1 : strings w1 k ≡ none = r.lpush_strings k v w ∙ s in
      rw (push-eq r alive k w v s) (
        rw (pop-eq r alive k n w1 v s1 (rw now) nv) (
          refl,
          record {
            same_items =
                by_key k _ _ (r.lpop_items k w1 (alive _ _) s1 ∙ ap tail now)
                  λ j h. r.frame_items (lpop k) w1 j h ∙ r.frame_items (lpush k v) w j h;
            same_strings =
                by_key k _ _ (r.lpop_strings k w1 ∙ r.lpush_strings k v w)
                  λ j h. r.frame_strings (lpop k) w1 j h ∙ r.frame_strings (lpush k v) w j h;
          },
        ))

  abbrev set_all : ℕ → Outcome (Unit {0}) × e.World
  set_all timeout = cache_set e true (some k) (length k) (some v) (length v) timeout w

  -- Setting a key that does not exist stores the value, and getting it gives the value back.
  pub cache_get-set :
      (timeout : ℕ)
      → strings w k ≡ none
      → items w k ≡ []
      → NulFree v
      → ((set_all timeout).0 ≡ done tt)
        × ((cache_get e true (some k) (set_all timeout).1).0 ≡ done v)
  cache_get-set timeout s l nv =
      let w1 = (e.redis (set_nx k v (expiry timeout)) w).1 in
      let stored : strings w1 k ≡ some v = r.set_strings k v _ w (alive _ _) s l in
      rw (set-eq r alive k n w v timeout)
        (refl, rw (get-eq r alive k n w1 v (r.set_items k v _ w ∙ l) stored nv))

  -- Setting a key that has a value succeeds and stores nothing: the reply to SET ... NX is not read.
  cache_set_exists :
      (timeout : ℕ) (old : Bytes)
      → strings w k ≡ some old
      → ((set_all timeout).0 ≡ done tt) × (strings (set_all timeout).1 k ≡ some old)
  cache_set_exists timeout old s =
      rw (set-eq r alive k n w v timeout) (refl, r.set_strings_exists k v old _ w s)
