-- ===== src/Core/Buffer/Locks.antt =====
-- accelerator/core/core.c: which paths of the fetch functions give the lock back.
use tangle_accelerator.Base.{
  ℕ, zero, suc, ◌+◌, ◌-◌, Bool, true, false, Option, none, some, Bytes, List, ◌≡◌, ◌⊎◌, inl, inr,
  refl, ap, ◌∙◌, arith,
}
use tangle_accelerator.Errors.{Status}
use tangle_accelerator.Exec.{Outcome, done, fail}
use tangle_accelerator.Env.{Env}
use tangle_accelerator.Env.Laws.{RedisLaws, LockLaws}
use tangle_accelerator.Cache.{cache_list_exist}
use tangle_accelerator.Cache.Held.{
  KeepsHeld, KeepsHeld-exist, KeepsHeld-size, KeepsHeld-bind, KeepsHeld-at, KeepsHeld-pure,
  KeepsHeld-raise, keeps_held,
}
use tangle_accelerator.Core.Buffer.{
  TaCache, FetchRes, uuid_len, read_txns, take_sent, take_mam, after_complete, after_buffer,
  fetch_locked, after_mam_complete, after_mam_buffer, fetch_mam_locked, ta_fetch_txn_with_uuid,
  ta_fetch_mam_with_uuid, add, sized_sent,
}

module _ {e : Env} {r : RedisLaws e} (l : LockLaws e r) (state : Bool) (txn_size : ℕ) {T : Type 0}
    (deserialize : Bytes → Option T) (stack : Bytes) (cache : TaCache) (uuid : Bytes)
    (res : FetchRes T) where
  open l use {held}

  KeepsHeld-take_mam : KeepsHeld l (take_mam e state txn_size deserialize stack cache uuid res)
  unfolding take_mam
  KeepsHeld-take_mam = search keeps_held depth 12

  after_mam_complete-held :
      (o : Outcome Bool) (w : e.World)
      → held (after_mam_complete e state txn_size deserialize stack cache uuid res o w).1
        ≡ held w - 1
  after_mam_complete-held (fail s) w = l.unlock_drops w
  after_mam_complete-held (done false) w = l.unlock_drops w
  after_mam_complete-held (done true) w = KeepsHeld-take_mam.kept (e.unlock w).1 ∙ l.unlock_drops w

  after_mam_buffer-held :
      (o : Outcome Bool) (w : e.World)
      → held (after_mam_buffer e state txn_size deserialize stack cache uuid res o w).1 ≡ held w - 1
  after_mam_buffer-held (fail s) w = l.unlock_drops w
  after_mam_buffer-held (done true) w = l.unlock_drops w
  after_mam_buffer-held (done false) w =
      after_mam_complete-held _ _
      ∙ ap (λ h. h - 1)
          ((KeepsHeld-exist l state stack (some cache.mam_complete_list_name) (some uuid)
              uuid_len).kept
            w)

  fetch_mam_locked-held :
      (p : Bool × e.World) (n : ℕ)
      → (p.0 ≡ true → held p.1 ≡ n)
      → (p.0 ≡ false → held p.1 ≡ n + 1)
      → held (fetch_mam_locked e state txn_size deserialize stack cache uuid res p).1 ≡ n
  fetch_mam_locked-held (true, w) n refused taken = refused refl
  fetch_mam_locked-held (false, w) n refused taken =
      let left =
        after_mam_buffer-held
          (cache_list_exist e state stack (some cache.mam_buffer_list_name) (some uuid) uuid_len
            w).0
          (cache_list_exist e state stack (some cache.mam_buffer_list_name) (some uuid) uuid_len
            w).1 in
      let asked =
        (KeepsHeld-exist l state stack (some cache.mam_buffer_list_name) (some uuid) uuid_len).kept
          w in
      omega (arith, left, asked, taken refl)

  -- Whatever the server, the lock and the caller do, fetching a MAM request leaves the lock held as often
  -- as before: every path that takes it gives it back.
  pub ta_fetch_mam_with_uuid-held :
      (w : e.World)
      → held (ta_fetch_mam_with_uuid e state txn_size deserialize stack cache uuid res w).1 ≡ held w
  unfolding ta_fetch_mam_with_uuid
  ta_fetch_mam_with_uuid-held w =
      fetch_mam_locked-held (e.tryrdlock w) (held w) (l.rdlock_refused w) (l.rdlock_taken w)

  KeepsHeld-add :
      (bundle : List T) (o : Option T)
      → KeepsHeld l (add e state txn_size deserialize stack bundle o)
  KeepsHeld-add bundle none = KeepsHeld-raise l _
  KeepsHeld-add bundle (some t) = KeepsHeld-pure l _

  KeepsHeld-read_txns :
      (rounds i : ℕ) (bundle : List T)
      → KeepsHeld l (read_txns e state txn_size deserialize stack uuid rounds i bundle)
  unfolding read_txns
  KeepsHeld-read_txns zero i bundle = KeepsHeld-pure l bundle
  KeepsHeld-read_txns (suc rounds) i bundle =
      KeepsHeld-bind l _ _ (KeepsHeld-at l state (some uuid) i txn_size) λ raw.
        KeepsHeld-bind l _ _ (KeepsHeld-add bundle (deserialize raw))
          λ b. KeepsHeld-read_txns rounds (i + 1) b

  KeepsHeld-take_sent :
      (len : ℕ) → KeepsHeld l (take_sent e state txn_size deserialize stack cache uuid len res)
  unfolding take_sent
  KeepsHeld-take_sent len = search (keeps_held, KeepsHeld-read_txns) depth 12

  -- The lock when a fetch of a transaction is done: as at the start, or held once more behind an error.
  abbrev Left : ℕ → Outcome (FetchRes T) × e.World → Type 0
  Left n (done res', w) = held w ≡ n
  Left n (fail s, w) = (held w ≡ n) ⊎ (held w ≡ n + 1)

  Left-of_eq : (n : ℕ) (p : Outcome (FetchRes T) × e.World) → held p.1 ≡ n → Left n p
  Left-of_eq n (done res', w) h = h
  Left-of_eq n (fail s, w) h = inl h

  sized_sent-Left :
      (n : ℕ) (o : Outcome ℕ) (w : e.World)
      → held w ≡ n + 1
      → Left n (sized_sent e state txn_size deserialize stack cache uuid res o w)
  sized_sent-Left n (fail s) w h = inr h
  sized_sent-Left n (done len) w h =
      Left-of_eq n _
        ((KeepsHeld-take_sent len).kept (e.unlock w).1 ∙ omega (arith, l.unlock_drops w))

  after_complete-Left :
      (n : ℕ) (o : Outcome Bool) (w : e.World)
      → held w ≡ n + 1
      → Left n (after_complete e state txn_size deserialize stack cache uuid res o w)
  after_complete-Left n (fail s) w h = inr h
  after_complete-Left n (done false) w h = omega (arith, l.unlock_drops w)
  after_complete-Left n (done true) w h =
      sized_sent-Left n _ _ ((KeepsHeld-size l state (some uuid)).kept w ∙ h)

  after_buffer-Left :
      (n : ℕ) (o : Outcome Bool) (w : e.World)
      → held w ≡ n + 1
      → Left n (after_buffer e state txn_size deserialize stack cache uuid res o w)
  after_buffer-Left n (fail s) w h = inl (omega (arith, l.unlock_drops w))
  after_buffer-Left n (done true) w h = omega (arith, l.unlock_drops w)
  after_buffer-Left n (done false) w h = after_complete-Left n _ _ (
      (KeepsHeld-exist l state stack (some cache.complete_list_name) (some uuid) uuid_len).kept w
      ∙ h)

  fetch_locked-Left :
      (p : Bool × e.World) (n : ℕ)
      → (p.0 ≡ true → held p.1 ≡ n)
      → (p.0 ≡ false → held p.1 ≡ n + 1)
      → Left n (fetch_locked e state txn_size deserialize stack cache uuid res p)
  fetch_locked-Left (true, w) n refused taken = inl (refused refl)
  fetch_locked-Left (false, w) n refused taken = after_buffer-Left n _ _ (
      (KeepsHeld-exist l state stack (some cache.buffer_list_name) (some uuid) uuid_len).kept w
      ∙ taken refl)

  ta_fetch_txn_with_uuid-Left :
      (w : e.World)
      → Left (held w) (ta_fetch_txn_with_uuid e state txn_size deserialize stack cache uuid res w)
  unfolding ta_fetch_txn_with_uuid
  ta_fetch_txn_with_uuid-Left w =
      fetch_locked-Left (e.tryrdlock w) (held w) (l.rdlock_refused w) (l.rdlock_taken w)

  Left-done :
      (n : ℕ) (p : Outcome (FetchRes T) × e.World) (res' : FetchRes T)
      → Left n p
      → p.0 ≡ done res'
      → held p.1 ≡ n
  Left-done n (done x, w) res' h k = h
  Left-done n (fail s, w) res' h k = cc

  -- The lookups in the two lists, from the world with the lock.
  abbrev pub in_buffer : e.World → Outcome Bool × e.World
  in_buffer w = cache_list_exist e state stack (some cache.buffer_list_name) (some uuid) uuid_len w

  abbrev pub in_complete : e.World → Outcome Bool × e.World
  in_complete w =
      cache_list_exist e state stack (some cache.complete_list_name) (some uuid) uuid_len w

  after_complete-fail :
      (p : Outcome Bool × e.World) (s : Status)
      → p.0 ≡ fail s
      → after_complete e state txn_size deserialize stack cache uuid res p.0 p.1 ≡ (fail s, p.1)
  after_complete-fail (fail x, w) s h = cc
  after_complete-fail (done x, w) s h = cc

  pub after_buffer-eq :
      (p : Outcome Bool × e.World)
      → p.0 ≡ done false
      → after_buffer e state txn_size deserialize stack cache uuid res p.0 p.1
        ≡ after_complete e state txn_size deserialize stack cache uuid res
            (in_complete p.1).0
            (in_complete p.1).1
  after_buffer-eq (fail x, w) h = cc
  after_buffer-eq (done true, w) h = cc
  after_buffer-eq (done false, w) h = refl

  pub fetch_locked-eq :
      (p : Bool × e.World)
      → p.0 ≡ false
      → fetch_locked e state txn_size deserialize stack cache uuid res p
        ≡ after_buffer e state txn_size deserialize stack cache uuid res
            (in_buffer p.1).0
            (in_buffer p.1).1
  fetch_locked-eq (true, w) h = cc
  fetch_locked-eq (false, w) h = refl

  -- A fetch of a transaction that succeeds leaves the lock held as often as before.
  pub ta_fetch_txn_with_uuid-held :
      (w : e.World) (res' : FetchRes T)
      → (ta_fetch_txn_with_uuid e state txn_size deserialize stack cache uuid res w).0 ≡ done res'
      → held (ta_fetch_txn_with_uuid e state txn_size deserialize stack cache uuid res w).1 ≡ held w
  ta_fetch_txn_with_uuid-held w res' h = Left-done (held w) _ res' (ta_fetch_txn_with_uuid-Left w) h

  -- If the lock was taken, the request is not in the buffer list and the lookup in the complete list
  -- fails, then the fetch of a transaction fails with that error and leaves the lock held once more than
  -- before.
  pub ta_fetch_txn_with_uuid_leaks :
      (w : e.World) (s : Status)
      → (e.tryrdlock w).0 ≡ false
      → (in_buffer (e.tryrdlock w).1).0 ≡ done false
      → (in_complete (in_buffer (e.tryrdlock w).1).1).0 ≡ fail s
      → ((ta_fetch_txn_with_uuid e state txn_size deserialize stack cache uuid res w).0 ≡ fail s)
        × (held (ta_fetch_txn_with_uuid e state txn_size deserialize stack cache uuid res w).1
            ≡ held w + 1)
  unfolding ta_fetch_txn_with_uuid
  ta_fetch_txn_with_uuid_leaks w s taken unsent failed =
      let w1 = (e.tryrdlock w).1 in
      let path =
        fetch_locked-eq (e.tryrdlock w) taken
        ∙ after_buffer-eq (in_buffer w1) unsent
        ∙ after_complete-fail (in_complete (in_buffer w1).1) s failed in
      rw path (
        refl,
        (KeepsHeld-exist l state stack (some cache.complete_list_name) (some uuid) uuid_len).kept
              (in_buffer w1).1
            ∙ (KeepsHeld-exist l state stack (some cache.buffer_list_name) (some uuid)
                  uuid_len).kept
                w1
            ∙ l.rdlock_taken w taken,
      )
