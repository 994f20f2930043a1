-- ===== src/Env/Memory/Lawful.antt =====
-- The laws of the world in memory.
use tangle_accelerator.Base.{
  ℕ, ◌+◌, NulFree, true, false, Option, none, some, Bytes, List, [], ◌∷◌, bytes_eq_iff,
  bytes_eq_refl, ◌≡◌, ◌≢◌, refl, sym, arith,
}
use tangle_accelerator.Env.{Command, del, set_nx, lpush, lpop}
use tangle_accelerator.Env.Laws.{RedisLaws, LockLaws, UuidLaws, key_of}
use tangle_accelerator.Env.Memory.{Memory, update, set_when, run, memory_env, uuid_text}

pub impossible : {A : Type 0} → true ≡ false → A
impossible h = cc

module _ {A : Type 0} (f : Bytes → A) (k : Bytes) (v : A) where
  pub update_self : update f k v k ≡ v
  update_self = rw (bytes_eq_refl k)

  update_ne : (j : Bytes) → k ≢ j → update f k v j ≡ f j
  update_ne j h = ground (arith, bytes_eq_iff k j)

pub frame_strings :
    (c : Command) (m : Memory) (j : Bytes) → key_of c ≢ j → (run c m).1.strs j ≡ m.strs j
frame_strings (del k) m j h = update_ne m.strs k none j h
frame_strings (set_nx k v t) m j h = set_case (m.strs k) (m.lists k)
  where
    set_case : (o : Option Bytes) (l : List Bytes) → (set_when o l k v m).1.strs j ≡ m.strs j
    set_case none [] = update_ne m.strs k (some v) j h
    set_case none (x ∷ l) = refl
    set_case (some x) l = refl
frame_strings _ m j h = refl

pub frame_items :
    (c : Command) (m : Memory) (j : Bytes) → key_of c ≢ j → (run c m).1.lists j ≡ m.lists j
frame_items (del k) m j h = update_ne m.lists k [] j h
frame_items (lpush k v) m j h = update_ne m.lists k _ j h
frame_items (lpop k) m j h = update_ne m.lists k _ j h
frame_items (set_nx k v t) m j h = set_case (m.strs k) (m.lists k)
  where
    set_case : (o : Option Bytes) (l : List Bytes) → (set_when o l k v m).1.lists j ≡ m.lists j
    set_case none [] = refl
    set_case none (x ∷ l) = refl
    set_case (some x) l = refl
frame_items _ m j h = refl

module _ (k v : Bytes) (t : Option ℕ) (m : Memory) where
  pub set_strings : m.strs k ≡ none → m.lists k ≡ [] → (run (set_nx k v t) m).1.strs k ≡ some v
  set_strings s l = rw s (rw l (update_self m.strs k (some v)))

  pub set_strings_exists :
      (old : Bytes) → m.strs k ≡ some old → (run (set_nx k v t) m).1.strs k ≡ some old
  set_strings_exists old s = rw s s

  pub set_items : (run (set_nx k v t) m).1.lists k ≡ m.lists k
  set_items = set_case (m.strs k) (m.lists k)
    where
      set_case : (o : Option Bytes) (l : List Bytes) → (set_when o l k v m).1.lists k ≡ m.lists k
      set_case none [] = refl
      set_case none (x ∷ l) = refl
      set_case (some x) l = refl

abbrev pub memory_redis : RedisLaws memory_env
memory_redis = record {
  strings = λ m. m.strs;
  items = λ m. m.lists;
  answers = λ c m. true;
  refused = λ c m h. impossible h;
  refused_strings = λ c m j h. impossible h;
  refused_items = λ c m j h. impossible h;
  frame_strings = frame_strings;
  frame_items = frame_items;
  del_reply = λ k m h. refl;
  del_strings = λ k m h. update_self m.strs k none;
  del_items = λ k m h. update_self m.lists k [];
  get_reply = λ k m h l. refl;
  get_strings = λ k m. refl;
  get_items = λ k m. refl;
  set_strings = λ k v t m h. set_strings k v t m;
  set_strings_exists = λ k v old t m. set_strings_exists k v t m old;
  set_items = set_items;
  lpush_reply = λ k v m h s. refl;
  lpush_items = λ k v m h s. update_self m.lists k _;
  lpush_strings = λ k v m. refl;
  lindex_reply = λ k i m h s. refl;
  lindex_strings = λ k i m. refl;
  lindex_items = λ k i m. refl;
  llen_reply = λ k m h s. refl;
  llen_strings = λ k m. refl;
  llen_items = λ k m. refl;
  lpop_reply = λ k m h s. refl;
  lpop_items = λ k m h s. update_self m.lists k _;
  lpop_strings = λ k m. refl;
}

pub wrlock_taken :
    (m : Memory) → (memory_env.trywrlock m).0 ≡ false → (memory_env.trywrlock m).1.held ≡ m.held + 1
wrlock_taken m h = ground arith

pub wrlock_refused :
    (m : Memory) → (memory_env.trywrlock m).0 ≡ true → (memory_env.trywrlock m).1.held ≡ m.held
wrlock_refused m h = ground arith

pub wrlock_items : (m : Memory) (j : Bytes) → (memory_env.trywrlock m).1.lists j ≡ m.lists j
wrlock_items m j = ground arith

pub wrlock_strings : (m : Memory) (j : Bytes) → (memory_env.trywrlock m).1.strs j ≡ m.strs j
wrlock_strings m j = ground arith

pub redis_held : (c : Command) (m : Memory) → (run c m).1.held ≡ m.held
redis_held (set_nx k v t) m = set_case (m.strs k) (m.lists k)
  where
    set_case : (o : Option Bytes) (l : List Bytes) → (set_when o l k v m).1.held ≡ m.held
    set_case none [] = refl
    set_case none (x ∷ l) = refl
    set_case (some x) l = refl
redis_held _ m = refl

abbrev pub memory_lock : LockLaws memory_env memory_redis
memory_lock = record {
  held = λ m. m.held;
  redis_held = redis_held;
  rdlock_taken = λ m h. refl;
  rdlock_refused = λ m h. impossible (sym h);
  wrlock_taken = wrlock_taken;
  wrlock_refused = wrlock_refused;
  unlock_held = λ m h. refl;
  unlock_drops = λ m. refl;
  rdlock_items = λ m j. refl;
  rdlock_strings = λ m j. refl;
  wrlock_items = wrlock_items;
  wrlock_strings = wrlock_strings;
  unlock_items = λ m j. refl;
  unlock_strings = λ m j. refl;
}

pub uuid_NulFree : (n : ℕ) → NulFree (uuid_text n)
uuid_NulFree n = omega arith

abbrev pub memory_uuid : UuidLaws memory_env memory_redis
memory_uuid = record {
  uuid_length = λ m. refl;
  uuid_text = λ m. uuid_NulFree m.serial;
  uuid_items = λ m j. refl;
  uuid_strings = λ m j. refl;
}
