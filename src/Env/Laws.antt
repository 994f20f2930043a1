-- ===== src/Env/Laws.antt =====
-- The documented behaviour of the redis commands, of the lock and of libuuid that theorems rely on.
use tangle_accelerator.Base.{
  ℕ, suc, ◌+◌, ◌-◌, ◌<◌, Bool, true, false, Option, none, some, Bytes, List, [], ◌∷◌, length,
  get_elem?, NulFree, ◌≡◌, ◌≢◌,
}
use tangle_accelerator.Env.{
  Command, Reply, Env, del, get, set_nx, lpush, lindex, llen, lpop, string, integer, nil, error,
}

abbrev pub key_of : Command → Bytes
key_of (del k) = k
key_of (get k) = k
key_of (set_nx k v t) = k
key_of (lpush k v) = k
key_of (lindex k i) = k
key_of (llen k) = k
key_of (lpop k) = k

-- A value that may be missing, as a reply.
abbrev pub bulk : Option Bytes → Reply
bulk none = nil
bulk (some v) = string v

abbrev pub tail : List Bytes → List Bytes
tail [] = []
tail (x ∷ xs) = xs

-- Whether a key exists: a list key goes away with its last element.
abbrev pub exists : Option Bytes → List Bytes → ℕ
exists none [] = 0
exists none (x ∷ xs) = 1
exists (some v) l = 1

-- A redis database seen as its string values and its lists, whose head is the left end. The server
-- may refuse a command with an error (out of memory, loading); then nothing changes.
pub record RedisLaws (e : Env) : Type 0 where
  pub strings : e.World → Bytes → Option Bytes
  pub items : e.World → Bytes → List Bytes
  pub answers : Command → e.World → Bool
  pub refused : (c : Command) (w : e.World) → answers c w ≡ false → (e.redis c w).0 ≡ error
  pub refused_strings :
      (c : Command) (w : e.World) (j : Bytes)
      → answers c w ≡ false
      → strings (e.redis c w).1 j ≡ strings w j
  pub refused_items :
      (c : Command) (w : e.World) (j : Bytes)
      → answers c w ≡ false
      → items (e.redis c w).1 j ≡ items w j
  -- A command leaves every key but its own alone.
  pub frame_strings :
      (c : Command) (w : e.World) (j : Bytes)
      → key_of c ≢ j
      → strings (e.redis c w).1 j ≡ strings w j
  pub frame_items :
      (c : Command) (w : e.World) (j : Bytes) → key_of c ≢ j → items (e.redis c w).1 j ≡ items w j
  pub del_reply :
      (k : Bytes) (w : e.World)
      → answers (del k) w ≡ true
      → (e.redis (del k) w).0 ≡ integer (exists (strings w k) (items w k))
  pub del_strings :
      (k : Bytes) (w : e.World) → answers (del k) w ≡ true → strings (e.redis (del k) w).1 k ≡ none
  pub del_items :
      (k : Bytes) (w : e.World) → answers (del k) w ≡ true → items (e.redis (del k) w).1 k ≡ []
  pub get_reply :
      (k : Bytes) (w : e.World)
      → answers (get k) w ≡ true
      → items w k ≡ []
      → (e.redis (get k) w).0 ≡ bulk (strings w k)
  pub get_strings : (k : Bytes) (w : e.World) → strings (e.redis (get k) w).1 k ≡ strings w k
  pub get_items : (k : Bytes) (w : e.World) → items (e.redis (get k) w).1 k ≡ items w k
  -- NX: only a key that does not exist is set.
  pub set_strings :
      (k v : Bytes) (t : Option ℕ) (w : e.World)
      → answers (set_nx k v t) w ≡ true
      → strings w k ≡ none
      → items w k ≡ []
      → strings (e.redis (set_nx k v t) w).1 k ≡ some v
  pub set_strings_exists :
      (k v old : Bytes) (t : Option ℕ) (w : e.World)
      → strings w k ≡ some old
      → strings (e.redis (set_nx k v t) w).1 k ≡ some old
  pub set_items :
      (k v : Bytes) (t : Option ℕ) (w : e.World) → items (e.redis (set_nx k v t) w).1 k ≡ items w k
  -- The list commands, at a key that holds no string.
  pub lpush_reply :
      (k v : Bytes) (w : e.World)
      → answers (lpush k v) w ≡ true
      → strings w k ≡ none
      → (e.redis (lpush k v) w).0 ≡ integer (suc (length (items w k)))
  pub lpush_items :
      (k v : Bytes) (w : e.World)
      → answers (lpush k v) w ≡ true
      → strings w k ≡ none
      → items (e.redis (lpush k v) w).1 k ≡ v ∷ items w k
  pub lpush_strings :
      (k v : Bytes) (w : e.World) → strings (e.redis (lpush k v) w).1 k ≡ strings w k
  pub lindex_reply :
      (k : Bytes) (i : ℕ) (w : e.World)
      → answers (lindex k i) w ≡ true
      → strings w k ≡ none
      → (e.redis (lindex k i) w).0 ≡ bulk (get_elem? (items w k) i)
  pub lindex_strings :
      (k : Bytes) (i : ℕ) (w : e.World) → strings (e.redis (lindex k i) w).1 k ≡ strings w k
  pub lindex_items :
      (k : Bytes) (i : ℕ) (w : e.World) → items (e.redis (lindex k i) w).1 k ≡ items w k
  pub llen_reply :
      (k : Bytes) (w : e.World)
      → answers (llen k) w ≡ true
      → strings w k ≡ none
      → (e.redis (llen k) w).0 ≡ integer (length (items w k))
  pub llen_strings : (k : Bytes) (w : e.World) → strings (e.redis (llen k) w).1 k ≡ strings w k
  pub llen_items : (k : Bytes) (w : e.World) → items (e.redis (llen k) w).1 k ≡ items w k
  pub lpop_reply :
      (k : Bytes) (w : e.World)
      → answers (lpop k) w ≡ true
      → strings w k ≡ none
      → (e.redis (lpop k) w).0 ≡ bulk (get_elem? (items w k) 0)
  pub lpop_items :
      (k : Bytes) (w : e.World)
      → answers (lpop k) w ≡ true
      → strings w k ≡ none
      → items (e.redis (lpop k) w).1 k ≡ tail (items w k)
  pub lpop_strings : (k : Bytes) (w : e.World) → strings (e.redis (lpop k) w).1 k ≡ strings w k

-- The lock as the number of times that this process holds it, and libuuid's promise of 36 characters
-- of text. None of these calls touches the database, nor the server the lock.
pub record LockLaws (e : Env) (r : RedisLaws e) : Type 0 where
  pub held : e.World → ℕ
  pub redis_held : (c : Command) (w : e.World) → held (e.redis c w).1 ≡ held w
  pub rdlock_taken : (w : e.World) → (e.tryrdlock w).0 ≡ false → held (e.tryrdlock w).1 ≡ held w + 1
  pub rdlock_refused : (w : e.World) → (e.tryrdlock w).0 ≡ true → held (e.tryrdlock w).1 ≡ held w
  pub wrlock_taken : (w : e.World) → (e.trywrlock w).0 ≡ false → held (e.trywrlock w).1 ≡ held w + 1
  pub wrlock_refused : (w : e.World) → (e.trywrlock w).0 ≡ true → held (e.trywrlock w).1 ≡ held w
  -- Unlocking what is held succeeds.
  pub unlock_held : (w : e.World) → 0 < held w → (e.unlock w).0 ≡ false
  pub unlock_drops : (w : e.World) → held (e.unlock w).1 ≡ held w - 1
  pub rdlock_items : (w : e.World) (j : Bytes) → r.items (e.tryrdlock w).1 j ≡ r.items w j
  pub rdlock_strings : (w : e.World) (j : Bytes) → r.strings (e.tryrdlock w).1 j ≡ r.strings w j
  pub wrlock_items : (w : e.World) (j : Bytes) → r.items (e.trywrlock w).1 j ≡ r.items w j
  pub wrlock_strings : (w : e.World) (j : Bytes) → r.strings (e.trywrlock w).1 j ≡ r.strings w j
  pub unlock_items : (w : e.World) (j : Bytes) → r.items (e.unlock w).1 j ≡ r.items w j
  pub unlock_strings : (w : e.World) (j : Bytes) → r.strings (e.unlock w).1 j ≡ r.strings w j

pub record UuidLaws (e : Env) (r : RedisLaws e) : Type 0 where
  pub uuid_length : (w : e.World) → length (e.new_uuid w).0 ≡ 36
  pub uuid_text : (w : e.World) → NulFree (e.new_uuid w).0
  pub uuid_items : (w : e.World) (j : Bytes) → r.items (e.new_uuid w).1 j ≡ r.items w j
  pub uuid_strings : (w : e.World) (j : Bytes) → r.strings (e.new_uuid w).1 j ≡ r.strings w j
