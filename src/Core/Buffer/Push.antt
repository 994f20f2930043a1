-- ===== src/Core/Buffer/Push.antt =====
-- accelerator/core/core.c: what push_txn_to_buffer leaves in the database, while the server answers.
use tangle_accelerator.Base.{
  ℕ, zero, suc, true, none, Bytes, List, [], ◌∷◌, length, All, rev_onto, NulFree, ◌≡◌, ◌≢◌, refl,
  sym, ap, ◌∙◌, arith, by_key,
}
use tangle_accelerator.Exec.{done}
use tangle_accelerator.Env.{Env, lpush}
use tangle_accelerator.Env.Laws.{RedisLaws, UuidLaws}
use tangle_accelerator.Cache.Steps.{IsAlive, after, push_sized-eq}
use tangle_accelerator.Core.Buffer.{TaCache, uuid_len, push_each, push_under, push_txn_to_buffer}

module _ {e : Env} (r : RedisLaws e) (alive : IsAlive r) (txn_size : ℕ) where
  open r use {strings, items}

  -- The world after pushing each of the transactions.
  abbrev pub all_pushed : Bytes → List Bytes → e.World → e.World
  all_pushed uuid [] w = w
  all_pushed uuid (txn ∷ txns) w = all_pushed uuid txns (after r alive (lpush uuid txn) w)

  abbrev pub HaveSize : List Bytes → Type 0
  HaveSize = All (λ t. length t ≡ txn_size)

  pub push_each-eq :
      (uuid : Bytes) (raw : List Bytes) (w : e.World)
      → length uuid ≡ uuid_len
      → strings w uuid ≡ none
      → HaveSize raw
      → push_each e true txn_size uuid raw w ≡ (done tt, all_pushed uuid raw w)
  unfolding push_each
  push_each-eq uuid [] w hl s a = refl
  push_each-eq uuid (txn ∷ txns) w hl s a =
      rw (push_sized-eq r alive uuid w txn uuid_len txn_size (sym hl) (sym a.0) s) (
        push_each-eq uuid txns (after r alive (lpush uuid txn) w) hl
          (r.lpush_strings uuid txn w ∙ s) a.1)

  -- The bundle stands under its UUID in reverse order, since LPUSH puts each transaction in front.
  pub all_pushed-items :
      (uuid : Bytes) (raw : List Bytes) (w : e.World)
      → strings w uuid ≡ none
      → items (all_pushed uuid raw w) uuid ≡ rev_onto raw (items w uuid)
  all_pushed-items uuid [] w s = refl
  all_pushed-items uuid (txn ∷ txns) w s =
      all_pushed-items uuid txns (after r alive (lpush uuid txn) w) (r.lpush_strings uuid txn w ∙ s)
      ∙ ap (rev_onto txns) (r.lpush_items uuid txn w (alive _ _) s)

  pub all_pushed-items_ne :
      (uuid : Bytes) (raw : List Bytes) (w : e.World) (j : Bytes)
      → uuid ≢ j
      → items (all_pushed uuid raw w) j ≡ items w j
  all_pushed-items_ne uuid [] w j h = refl
  all_pushed-items_ne uuid (txn ∷ txns) w j h =
      all_pushed-items_ne uuid txns _ j h ∙ r.frame_items (lpush uuid txn) w j h

  pub all_pushed-strings :
      (uuid : Bytes) (raw : List Bytes) (w : e.World) (j : Bytes)
      → strings (all_pushed uuid raw w) j ≡ strings w j
  all_pushed-strings uuid [] w j = refl
  all_pushed-strings uuid (txn ∷ txns) w j =
      all_pushed-strings uuid txns _ j
      ∙ by_key uuid (strings (after r alive (lpush uuid txn) w)) (strings w)
          (r.lpush_strings uuid txn w) (r.frame_strings (lpush uuid txn) w) j

  push_under-eq :
      (cache : TaCache) (raw : List Bytes) (uuid : Bytes) (w : e.World)
      → length uuid ≡ uuid_len
      → NulFree uuid
      → strings w uuid ≡ none
      → strings w cache.buffer_list_name ≡ none
      → HaveSize raw
      → push_under e true txn_size cache raw uuid w
        ≡ (done tt, after r alive (lpush cache.buffer_list_name uuid) (all_pushed uuid raw w))
  push_under-eq cache raw [] w hl n su sn a = absurd (omega arith)
  push_under-eq cache raw (zero ∷ uuid) w hl n su sn a = absurd (omega arith)
  push_under-eq cache raw (suc c ∷ uuid) w hl n su sn a =
      rw (push_each-eq (suc c ∷ uuid) raw w hl su a) (
        push_sized-eq r alive cache.buffer_list_name (all_pushed (suc c ∷ uuid) raw w)
          (suc c ∷ uuid) (length cache.buffer_list_name) uuid_len refl (sym hl)
          (all_pushed-strings (suc c ∷ uuid) raw w cache.buffer_list_name ∙ sn))

module _ {e : Env} (r : RedisLaws e) (alive : IsAlive r) (u : UuidLaws e r) (txn_size : ℕ) where
  open r use {strings, items}

  -- Buffering a bundle whose transactions have the serialized size succeeds and hands out the new
  -- UUID. If neither the UUID nor the buffer list's name is a string key, then the transactions stand
  -- under the UUID in reverse order, in front of what stood there, the UUID is the head of the buffer
  -- list, and no other key and no string value changes.
  pub push_txn_to_buffer_lem :
      (cache : TaCache) (raw : List Bytes) (w : e.World)
      → (e.new_uuid w).0 ≢ cache.buffer_list_name
      → strings w (e.new_uuid w).0 ≡ none
      → strings w cache.buffer_list_name ≡ none
      → HaveSize r alive txn_size raw
      → let uuid = (e.new_uuid w).0 in
        let name = cache.buffer_list_name in
        let (ret, text, w') = push_txn_to_buffer e true txn_size cache raw true w in
        (ret ≡ done tt)
        × (text ≡ uuid)
        × (items w' uuid ≡ rev_onto raw (items w uuid))
        × (items w' name ≡ uuid ∷ items w name)
        × ((j : Bytes) → uuid ≢ j → name ≢ j → items w' j ≡ items w j)
        × ((j : Bytes) → strings w' j ≡ strings w j)
  unfolding push_txn_to_buffer
  push_txn_to_buffer_lem cache raw w ne su sn a =
      let uuid = (e.new_uuid w).0 in
      let name = cache.buffer_list_name in
      let w1 = (e.new_uuid w).1 in
      let w2 = all_pushed r alive txn_size uuid raw w1 in
      let su1 : strings w1 uuid ≡ none = u.uuid_strings w uuid ∙ su in
      let sn1 : strings w1 name ≡ none = u.uuid_strings w name ∙ sn in
      let sn2 : strings w2 name ≡ none =
        all_pushed-strings r alive txn_size uuid raw w1 name ∙ sn1 in
      rw
        (push_under-eq r alive txn_size cache raw uuid w1 (u.uuid_length w) (u.uuid_text w) su1 sn1
          a)
        (
          refl,
          refl,
          r.frame_items (lpush name uuid) w2 uuid (λ p. ne (sym p))
              ∙ all_pushed-items r alive txn_size uuid raw w1 su1
              ∙ ap (rev_onto raw) (u.uuid_items w uuid),
          r.lpush_items name uuid w2 (alive _ _) sn2
              ∙ ap (λ l. uuid ∷ l)
                  (all_pushed-items_ne r alive txn_size uuid raw w1 name ne ∙ u.uuid_items w name),
          λ j hu hn.
              r.frame_items (lpush name uuid) w2 j hn
              ∙ all_pushed-items_ne r alive txn_size uuid raw w1 j hu
              ∙ u.uuid_items w j,
          λ j.
              by_key name (strings (after r alive (lpush name uuid) w2)) (strings w2)
                (r.lpush_strings name uuid w2) (r.frame_strings (lpush name uuid) w2) j
              ∙ all_pushed-strings r alive txn_size uuid raw w1 j
              ∙ u.uuid_strings w j,
        )
