-- ===== src/Cache/Exist.antt =====
-- utils/cache/backend_redis.c: redis_list_exist decides membership among entries of one length.
use tangle_accelerator.Base.{
  ℕ, zero, suc, ◌+◌, Bool, true, false, ◌||◌, none, some, Bytes, List, [], ◌∷◌, ◌++◌, length, drop,
  take-length, take-append, length-append, get_elem?-append_head, NulFree, bytes_eq, by_key, mem_eq,
  All, ◌≡◌, refl, sym, ◌∙◌, arith, c_str_lem,
}
use mathlib.Core.List.{append_assoc}
use mathlib.Core.Path.{subst}
use tangle_accelerator.Errors.{ok}
use tangle_accelerator.Exec.{done}
use tangle_accelerator.Env.{Command, Env, get, lindex, llen}
use tangle_accelerator.Env.Laws.{RedisLaws, key_of}
use tangle_accelerator.Cache.{cache_list_exist, exist_loop, redis_list_at}
use tangle_accelerator.Cache.Steps.{IsAlive, list_at-eq}

-- Whether `v` is one of the entries.
abbrev pub mem_bytes : Bytes → List Bytes → Bool
mem_bytes v [] = false
mem_bytes v (x ∷ xs) = bytes_eq v x || mem_bytes v xs

-- Two worlds show the same database.
pub record SameView {e : Env} (r : RedisLaws e) (w w' : e.World) : Type 0 where
  pub same_items : (j : Bytes) → r.items w' j ≡ r.items w j
  pub same_strings : (j : Bytes) → r.strings w' j ≡ r.strings w j

or_assoc : (a b c : Bool) → ((a || b) || c) ≡ (a || (b || c))
or_assoc true b c = refl
or_assoc false b c = refl

or-false : (b : Bool) → (b || false) ≡ b
or-false true = refl
or-false false = refl

module _ {e : Env} (r : RedisLaws e) where
  open r use {strings, items}

  pub SameView-refl : (w : e.World) → SameView r w w
  SameView-refl w = record { same_items = λ j. refl; same_strings = λ j. refl }

  pub SameView-trans : {u v w : e.World} → SameView r u v → SameView r v w → SameView r u w
  SameView-trans a b = record {
    same_items = λ j. b.same_items j ∙ a.same_items j;
    same_strings = λ j. b.same_strings j ∙ a.same_strings j;
  }

  -- A command that keeps its own key keeps the whole database.
  pub SameView-own :
      (c : Command) (w : e.World)
      → items (e.redis c w).1 (key_of c) ≡ items w (key_of c)
      → strings (e.redis c w).1 (key_of c) ≡ strings w (key_of c)
      → SameView r w (e.redis c w).1
  SameView-own c w hi hs = record {
    same_items = by_key (key_of c) _ _ hi (r.frame_items c w);
    same_strings = by_key (key_of c) _ _ hs (r.frame_strings c w);
  }

  pub SameView-lindex : (k : Bytes) (i : ℕ) (w : e.World) → SameView r w (e.redis (lindex k i) w).1
  SameView-lindex k i w =
      SameView-own (lindex k i) w (r.lindex_items k i w) (r.lindex_strings k i w)

  pub SameView-get : (k : Bytes) (w : e.World) → SameView r w (e.redis (get k) w).1
  SameView-get k w = SameView-own (get k) w (r.get_items k w) (r.get_strings k w)

  pub SameView-llen : (k : Bytes) (w : e.World) → SameView r w (e.redis (llen k) w).1
  SameView-llen k w = SameView-own (llen k) w (r.llen_items k w) (r.llen_strings k w)

module _ {e : Env} (r : RedisLaws e) (alive : IsAlive r) (k v : Bytes) (n : NulFree k) where
  open r use {strings, items}

  -- The world after the LINDEX commands from index `i` on.
  abbrev walk : ℕ → ℕ → e.World → e.World
  walk zero i w = w
  walk (suc m) i w = walk m (i + 1) (e.redis (lindex k i) w).1

  SameView-walk : (m i : ℕ) (w : e.World) → SameView r w (walk m i w)
  SameView-walk zero i w = SameView-refl r w
  SameView-walk (suc m) i w =
      SameView-trans r (SameView-lindex r k i w)
        (SameView-walk m (i + 1) (e.redis (lindex k i) w).1)

  -- The comparison with an entry of the length of `v`, whatever stands behind it in the buffer.
  mem_eq-entry :
      (s rest : Bytes) → length s ≡ length v → mem_eq (length v) v (s ++ rest) ≡ bytes_eq v s
  mem_eq-entry s rest h = rw (take-length v) (rw (← h) (rw (take-append s rest)))

  loop-eq :
      (pre suf : List Bytes) (i : ℕ) (buf : Bytes) (found : Bool) (w : e.World)
      → items w k ≡ pre ++ suf
      → i ≡ length pre
      → strings w k ≡ none
      → All (λ s. NulFree s × (length s ≡ length v)) suf
      → exist_loop e k v (length v) (length suf) i buf ok found w
        ≡ (ok, found || mem_bytes v suf, walk (length suf) i w)
  unfolding exist_loop
  loop-eq pre [] i buf found w hl hi s a = rw (or-false found)
  loop-eq pre (x ∷ suf) i buf found w hl hi s a =
      let read : redis_list_at e (some k) i (length v) w ≡ (done x, (e.redis (lindex k i) w).1) =
        list_at-eq r alive k n w i (length v) x s (rw (hl, hi) (get_elem?-append_head pre suf x))
          a.0.0 (omega (arith, a.0.1)) in
      rw (read, exist_loop)
        (loop-eq (pre ++ x ∷ []) suf (i + 1) (x ++ 0 ∷ drop (length x + 1) buf)
            (found || mem_eq (length v) v (x ++ 0 ∷ drop (length x + 1) buf))
            (e.redis (lindex k i) w).1
            (r.lindex_items k i w ∙ hl ∙ sym (append_assoc pre (x ∷ []) suf))
            (omega (arith, length-append pre (x ∷ []))) (r.lindex_strings k i w ∙ s) a.1
          ∙ rw (mem_eq-entry x (0 ∷ drop (length x + 1) buf) a.0.1)
              (rw (or_assoc found (bytes_eq v x) (mem_bytes v suf))))

  -- While redis refuses no command, for a key without a NUL that holds no string: the function succeeds and says whether
  -- the value is in the list, where the entries of the list have the length of the value and no NUL; the database stays as it was.
  pub cache_list_exist-eq :
      (stack : Bytes) (w : e.World)
      → strings w k ≡ none
      → All (λ s. NulFree s × (length s ≡ length v)) (items w k)
      → (w' : e.World) × (cache_list_exist e true stack (some k) (some v) (length v) w
          ≡ (done (mem_bytes v (items w k)), w'))
        × SameView r w w'
  unfolding cache_list_exist
  cache_list_exist-eq stack w s a =
      let w1 = (e.redis (llen k) w).1 in
      let l1 : items w1 k ≡ items w k = r.llen_items k w in
      let looped : exist_loop e k v (length v) (length (items w k)) 0 stack ok false w1
          ≡ (ok, mem_bytes v (items w k), walk (length (items w k)) 0 w1) =
        loop-eq [] (items w k) 0 stack false w1 l1 refl (r.llen_strings k w ∙ s) a in
      (
        walk (length (items w k)) 0 w1,
        rw (c_str_lem k n) (rw (r.llen_reply k w (alive _ _) s) (rw looped)),
        SameView-trans r (SameView-llen r k w) (SameView-walk (length (items w k)) 0 w1),
      )

  pub cache_list_exist_sized-eq :
      (stack : Bytes) (size : ℕ) (w : e.World)
      → length v ≡ size
      → strings w k ≡ none
      → All (λ s. NulFree s × (length s ≡ size)) (items w k)
      → (w' : e.World) × (cache_list_exist e true stack (some k) (some v) size w
          ≡ (done (mem_bytes v (items w k)), w'))
        × SameView r w w'
  cache_list_exist_sized-eq stack size w h s a =
      subst
        (λ (n : ℕ).
          All (λ s. NulFree s × (length s ≡ n)) (items w k)
          → (w' : e.World) × (cache_list_exist e true stack (some k) (some v) n w
              ≡ (done (mem_bytes v (items w k)), w'))
            × SameView r w w')
        h (cache_list_exist-eq stack w s) a
