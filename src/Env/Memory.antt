-- ===== src/Env/Memory.antt =====
-- A world in memory that meets the laws, by which the theorems' hypotheses are shown to hold.
pub mod Lawful
pub mod Sort
pub mod Tree
use tangle_accelerator.Base.{
  ℕ, zero, suc, ◌+◌, ◌-◌, Bool, true, false, Option, none, some, Bytes, List, [], ◌∷◌, ◌++◌, ◌==◌,
  if◌then◌else◌, length, get_elem?, bytes_eq, replicate,
}
use tangle_accelerator.Env.{
  Command, Reply, Env, del, get, set_nx, lpush, lindex, llen, lpop, integer, status, nil,
}
use tangle_accelerator.Env.Laws.{bulk, exists, tail}

-- `held` counts the lock, `serial` the texts of libuuid, and `nodes`
-- are the answers of the full nodes.
pub record Memory : Type 0 where
  pub strs : Bytes → Option Bytes
  pub lists : Bytes → List Bytes
  pub held : ℕ
  pub serial : ℕ
  pub nodes : Bytes → Option Bytes

abbrev pub update : {A : Type 0} → (Bytes → A) → Bytes → A → Bytes → A
update f k v j = if bytes_eq k j then v else f j

abbrev pub set_when : Option Bytes → List Bytes → Bytes → Bytes → Memory → Reply × Memory
set_when none [] k v m = (status, record m { strs = update m.strs k (some v) })
set_when _ _ k v m = (nil, m)

abbrev pub run : Command → Memory → Reply × Memory
run (del k) m = (
  integer (exists (m.strs k) (m.lists k)),
  record m { strs = update m.strs k none; lists = update m.lists k [] },
)
run (get k) m = (bulk (m.strs k), m)
run (set_nx k v t) m = set_when (m.strs k) (m.lists k) k v m
run (lpush k v) m =
    (integer (suc (length (m.lists k))), record m { lists = update m.lists k (v ∷ m.lists k) })
run (lindex k i) m = (bulk (get_elem? (m.lists k) i), m)
run (llen k) m = (integer (length (m.lists k)), m)
run (lpop k) m =
    (bulk (get_elem? (m.lists k) 0), record m { lists = update m.lists k (tail (m.lists k)) })

-- 36 characters, of which the last tells the serial number.
abbrev pub uuid_text : ℕ → Bytes
uuid_text n = replicate 35 b'a' ++ (b'a' + n) ∷ []

abbrev pub memory_env : Env
memory_env = record {
  World = Memory;
  redis = run;
  tryrdlock = λ m. (false, record m { held = m.held + 1 });
  trywrlock = λ m. if m.held == 0 then (false, record m { held = 1 }) else (true, m);
  unlock = λ m. (false, record m { held = m.held - 1 });
  query_node = λ host port m. (m.nodes host, m);
  new_uuid = λ m. (uuid_text m.serial, record m { serial = m.serial + 1 });
}

abbrev pub empty_memory : Memory
empty_memory = record { strs = λ k. none; lists = λ k. []; held = 0; serial = 0; nodes = λ h. none }
