-- ===== src/Core/Broadcast/Rounds.antt =====
-- accelerator/core/periodical_task.c: when the broadcasting loops end, and what their errors leave.
use tangle_accelerator.Base.{
  ℕ, zero, suc, ◌+◌, Bool, true, false, some, Bytes, length, c_str, ◌<◌, ◌≡◌, refl, ap, sym, ◌∙◌,
  subst, ◌-◌, ◌⊎◌, inl, inr, ◌≢◌,
}
use tangle_accelerator.Errors.{Status}
use tangle_accelerator.Exec.{Outcome, done, fail, Exec, ◌>>◌, continue, pure}
use tangle_accelerator.Env.{Env}
use tangle_accelerator.Env.Laws.{RedisLaws, LockLaws}
use tangle_accelerator.Env.Iota.{Iota}
use tangle_accelerator.Cache.{cache_list_size, cache_list_peek, cache_list_pop, cache_list_push}
use tangle_accelerator.Cache.Held.{KeepsHeld-pop, KeepsHeld-push}
use tangle_accelerator.Core.Buffer.{TaCache, uuid_len}
use tangle_accelerator.Core.Attach.{SendConfig}
use tangle_accelerator.Core.Broadcast.{
  Loop, after_round, ended, running, move_uuid, written_over, release, rounds, txn_round,
  unless_empty, send_txn, broadcast_buffered_txn,
}

module _ (e : Env) (state : Bool) (size : ℕ) (i : Iota e.World) (conf : SendConfig) where
  abbrev Looped : Type 0
  Looped = Loop (Outcome (Unit {0})) × e.World

  last_or_more :
      (p : Outcome Bool × e.World) (rest : Looped)
      → (after_round e state size i conf p rest).0 ≡ ended (done tt)
      → ((p.0 ≡ done false) × (p.1 ≡ (after_round e state size i conf p rest).1))
        ⊎ (after_round e state size i conf p rest ≡ rest)
  last_or_more (fail s, w) rest h = absurd (fail≢done s (ended-inj h))
    where
      ended-inj : {A : Type 0} {a b : A} → ended a ≡ ended b → a ≡ b
      ended-inj q = cc

      fail≢done : (s : Status) → fail s ≡ done (tt {0}) → ⊥
      fail≢done s q = cc
  last_or_more (done false, w) rest h = inl (refl, refl)
  last_or_more (done true, w) rest h = inr refl

  -- Where a loop ended without an error, its last round found nothing to do.
  rounds_last :
      (fuel : ℕ) (round : Exec e.World Bool) (w : e.World)
      → (rounds e state size i conf fuel round w).0 ≡ ended (done tt)
      → (v : e.World) × ((round v).0 ≡ done false)
        × ((round v).1 ≡ (rounds e state size i conf fuel round w).1)
  unfolding rounds
  rounds_last zero round w h = absurd (running≢ended h)
    where
      running≢ended : running ≡ ended (done (tt {0})) → ⊥
      running≢ended q = cc
  rounds_last (suc fuel) round w h =
      elim (last_or_more (round w) (rounds e state size i conf fuel round (round w).1) h) [
        | inl q ↦ (w, q.0, q.1)
        | inr q ↦
            let rest = rounds_last fuel round (round w).1 (sym (ap (λ r. r.0) q) ∙ h) in
            (rest.0, rest.1, rest.2 ∙ sym (ap (λ r. r.1) q))
      ]

  continue-true :
      (o : Outcome (Unit {0})) (w : e.World)
      → (continue o (λ _. pure {W = e.World} true) w).0 ≢ done false
  continue-true (done x) w h = cc
  continue-true (fail s) w h = cc

  sent_true :
      (send : Bytes → Exec e.World Unit) (o : Outcome Bytes) (w : e.World)
      → (continue o (λ uuid. send (c_str uuid) >> pure true) w).0 ≢ done false
  sent_true send (fail s) w h = cc
  sent_true send (done u) w h = continue-true (send (c_str u) w).0 (send (c_str u) w).1 h

  round-empty :
      (cache : TaCache) (p : Outcome ℕ × e.World)
      → (continue p.0
          (λ len.
            unless_empty e state size i conf cache.buffer_list_name len
              (send_txn e state size i conf cache))
          p.1).0
        ≡ done false
      → (p.0 ≡ done 0)
        × (p.1
            ≡ (continue p.0
                (λ len.
                  unless_empty e state size i conf cache.buffer_list_name len
                    (send_txn e state size i conf cache))
                p.1).1)
  round-empty cache (fail s, w) h = cc
  round-empty cache (done zero, w) h = (refl, refl)
  round-empty cache (done (suc n), w) h =
      let name = cache.buffer_list_name in
      let peek = cache_list_peek e state (some name) (uuid_len + 1) w in
      absurd (sent_true (send_txn e state size i conf cache) peek.0 peek.1 h)

  -- If broadcast_buffered_txn ends without an error, then the last thing it did was to ask for the size of the
  -- buffer list, and the answer was 0.
  pub broadcast_buffered_txn-ok :
      (fuel : ℕ) (cache : TaCache) (w : e.World)
      → (broadcast_buffered_txn e state size i conf fuel cache w).0 ≡ ended (done tt)
      → (v : e.World) × ((cache_list_size e state (some cache.buffer_list_name) v).0 ≡ done 0)
        × ((cache_list_size e state (some cache.buffer_list_name) v).1
            ≡ (broadcast_buffered_txn e state size i conf fuel cache w).1)
  unfolding broadcast_buffered_txn txn_round
  broadcast_buffered_txn-ok fuel cache w h =
      let last = rounds_last fuel (txn_round e state size i conf cache) w h in
      let found =
        round-empty cache (cache_list_size e state (some cache.buffer_list_name) last.0) last.1 in
      (last.0, found.0, found.1 ∙ last.2)

module _ {e : Env} {r : RedisLaws e} (l : LockLaws e r) (state : Bool) where
  open l use {held}

  -- What an error leaves, and what success does.
  abbrev Ends : ℕ → Outcome (Unit {0}) × e.World → Type 0
  Ends n (fail s, w) = held w ≡ n
  Ends n (done x, w) = held w ≡ n - 1

  release-Ends : (w : e.World) → 0 < held w → Ends (held w) (release e state w)
  release-Ends w h = rw (l.unlock_held w h) (l.unlock_drops w)

  push-Ends :
      (n : ℕ) (o : Outcome (Unit {0})) (w : e.World)
      → 0 < n
      → held w ≡ n
      → Ends n (continue o (λ _. release e state) w)
  push-Ends n (fail s) w h k = k
  push-Ends n (done x) w h k =
      subst (λ m. Ends m (release e state w)) k (release-Ends w (subst (λ m. 0 < m) (sym k) h))

  pop-Ends :
      (n : ℕ) (to uuid : Bytes) (o : Outcome Bytes) (w : e.World)
      → 0 < n
      → held w ≡ n
      → Ends n (
          continue o
            (λ text.
              cache_list_push e state (some to) (length to) (some (written_over text uuid)) uuid_len
              >> release e state)
            w)
  pop-Ends n to uuid (fail s) w h k = k
  pop-Ends n to uuid (done text) w h k =
      let push =
        cache_list_push e state (some to) (length to) (some (written_over text uuid)) uuid_len in
      push-Ends n (push w).0 (push w).1 h (
        (KeepsHeld-push l state (some to) (length to) (some (written_over text uuid)) uuid_len).kept
          w
        ∙ k)

  ends :
      (n : ℕ) (p : Outcome (Unit {0}) × e.World) (s : Status)
      → Ends n p
      → p.0 ≡ fail s
      → held p.1 ≡ n
  ends n (fail t, w) s k q = k
  ends n (done x, w) s k q = cc

  -- If moving the UUID between the lists fails, the write lock is left held as often as before the move: the error
  -- path does not give it up.
  pub move_uuid_leaks :
      (from to uuid : Bytes) (w : e.World) (s : Status)
      → 0 < held w
      → (move_uuid e state from to uuid w).0 ≡ fail s
      → held (move_uuid e state from to uuid w).1 ≡ held w
  unfolding move_uuid
  move_uuid_leaks from to uuid w s h q =
      let pop = cache_list_pop e state (some from) w in
      ends (held w) _ s
        (pop-Ends (held w) to uuid pop.0 pop.1 h ((KeepsHeld-pop l state (some from)).kept w)) q
