-- ===== src/Mam/Register.antt =====
-- accelerator/core/mam_core.c: a registered seed is found in the cache.
use tangle_accelerator.Base.{
  ℕ, zero, suc, true, none, some, Bytes, [], ◌∷◌, length, NulFree, ◌≡◌, refl, sym, ap, ◌∙◌, arith,
}
use tangle_accelerator.Exec.{Outcome, done, continue}
use tangle_accelerator.Env.{Env}
use tangle_accelerator.Env.Laws.{RedisLaws, UuidLaws}
use tangle_accelerator.Cache.{cache_set, cache_get}
use tangle_accelerator.Cache.Steps.{IsAlive}
use tangle_accelerator.Cache.Lists.{cache_get-set}
use tangle_accelerator.Core.Buffer.{uuid_len}
use tangle_accelerator.Serializer.Helper.{num_trytes_hash}
use tangle_accelerator.Mam.Receive.{keep_seed, ta_register_mam_channel}

module _ {e : Env} (r : RedisLaws e) (alive : IsAlive r) (u : UuidLaws e r) where
  keep_seed_lem :
      (timeout : ℕ) (seed uuid : Bytes) (w : e.World)
      → NulFree uuid
      → length uuid ≡ uuid_len
      → keep_seed e true timeout seed uuid w
        ≡ continue
            (cache_set e true (some uuid) uuid_len (some seed) num_trytes_hash timeout w).0
            (λ x v. (done uuid, v))
            (cache_set e true (some uuid) uuid_len (some seed) num_trytes_hash timeout w).1
  keep_seed_lem timeout seed [] w n h = absurd (omega (arith, h))
  keep_seed_lem timeout seed (zero ∷ uuid) w n h = absurd (omega (arith, n.0))
  keep_seed_lem timeout seed (suc c ∷ uuid) w n h = refl

  -- While redis answers, if the new UUID is not in use, then a seed of 81 characters without a NUL that is
  -- registered is what the cache tells for the UUID, which is told.
  pub ta_register_mam_channel-get :
      (timeout : ℕ) (seed : Bytes) (w : e.World)
      → length seed ≡ num_trytes_hash
      → NulFree seed
      → r.strings w (e.new_uuid w).0 ≡ none
      → r.items w (e.new_uuid w).0 ≡ []
      → let (ret, w') = ta_register_mam_channel e true timeout seed w in
        (ret ≡ done (e.new_uuid w).0)
        × ((cache_get e true (some (e.new_uuid w).0) w').0 ≡ done seed)
  unfolding ta_register_mam_channel
  ta_register_mam_channel-get timeout seed w full nul_free no_string no_items =
      let uuid = (e.new_uuid w).0 in
      let w1 = (e.new_uuid w).1 in
      let (stored, got) =
        cache_get-set r alive uuid seed (u.uuid_text w) w1 timeout
          (u.uuid_strings w uuid ∙ no_string) (u.uuid_items w uuid ∙ no_items) nul_free in
      let set : ℕ → ℕ → Outcome (Unit {0}) × e.World =
        λ m n. cache_set e true (some uuid) m (some seed) n timeout w1 in
      let sizes : set uuid_len num_trytes_hash ≡ set (length uuid) (length seed) =
        ap (λ m. set m num_trytes_hash) (sym (u.uuid_length w))
        ∙ ap (set (length uuid)) (sym full) in
      let path =
        keep_seed_lem timeout seed uuid w1 (u.uuid_text w) (u.uuid_length w)
        ∙ ap (λ q. continue q.0 (λ x v. (done uuid, v)) q.1) sizes
        ∙ ap (λ q. continue q (λ x v. (done uuid, v)) (set (length uuid) (length seed)).1) stored in
      (ap (λ q. q.0) path, ap (λ q. (cache_get e true (some uuid) q.1).0) path ∙ got)
