-- ===== src/Core/Buffer/Fetch.antt =====
-- accelerator/core/core.c: what ta_fetch_txn_with_uuid answers and takes out of the database, while the
-- server answers.
use tangle_accelerator.Base.{
  ℕ, ◌+◌, ◌≤◌, Bool, true, false, Option, none, some, Bytes, List, [], ◌∷◌, ◌++◌, map, length,
  length-append, All, NulFree, get_elem?-append_head, ◌≡◌, ◌≢◌, refl, sym, ap, ◌∙◌, arith, by_key,
}
use mathlib.Core.List.{append_assoc, append-nil}
use tangle_accelerator.Exec.{Outcome, done}
use tangle_accelerator.Env.{Env, lindex, llen, lpop, del}
use tangle_accelerator.Env.Laws.{RedisLaws, LockLaws, tail, exists}
use tangle_accelerator.Cache.Steps.{IsAlive, at-eq, size-eq, del-eq, pop-eq}
use tangle_accelerator.Cache.Exist.{
  SameView, SameView-refl, SameView-trans, SameView-lindex, SameView-llen, mem_bytes,
  cache_list_exist_sized-eq,
}
use tangle_accelerator.Core.Buffer.Locks.{fetch_locked-eq}
use tangle_accelerator.Core.Buffer.{
  TaCache, FetchRes, mam_bufreq_unsent, mam_bufreq_sent, uuid_len, read_txns, take_sent,
  after_complete, after_buffer, ta_fetch_txn_with_uuid,
}

-- The entries of a list of UUIDs.
abbrev pub AreUuids : List Bytes → Type 0
AreUuids = All (λ s. NulFree s × (length s ≡ uuid_len))

module _ {e : Env} (r : RedisLaws e) (alive : IsAlive r) (txn_size : ℕ) {T : Type 0}
    (deserialize : Bytes → Option T) (stack : Bytes) (txn_of : Bytes → T) where
  open r use {strings, items}

  -- A stored transaction that reads back: it fits, has no NUL, and deserializes to `txn_of` it.
  abbrev pub Readable : Bytes → Type 0
  Readable t = NulFree t × (length t ≤ txn_size) × (deserialize t ≡ some (txn_of t))

  read_txns-eq :
      (uuid : Bytes) (n : NulFree uuid) (pre suf : List Bytes) (i : ℕ) (bundle : List T)
      (w : e.World)
      → items w uuid ≡ pre ++ suf
      → i ≡ length pre
      → strings w uuid ≡ none
      → All Readable suf
      → (w' : e.World) × (read_txns e true txn_size deserialize stack uuid (length suf) i bundle w
          ≡ (done (bundle ++ map txn_of suf), w'))
        × SameView r w w'
  unfolding read_txns
  read_txns-eq uuid n pre [] i bundle w hl hi s a = (w, rw (append-nil bundle), SameView-refl r w)
  read_txns-eq uuid n pre (t ∷ suf) i bundle w hl hi s a =
      let w1 = (e.redis (lindex uuid i) w).1 in
      let (w', rest, same) =
        read_txns-eq uuid n (pre ++ t ∷ []) suf (i + 1) (bundle ++ txn_of t ∷ []) w1
          (r.lindex_items uuid i w ∙ hl ∙ sym (append_assoc pre (t ∷ []) suf))
          (omega (arith, length-append pre (t ∷ []))) (r.lindex_strings uuid i w ∙ s) a.1 in
      (
        w',
        rw
            (at-eq r alive uuid n w i txn_size t s (rw (hl, hi) (get_elem?-append_head pre suf t))
              a.0.0 a.0.1)
            (rw (a.0.2) (rest ∙ rw (append_assoc bundle (txn_of t ∷ []) (map txn_of suf)))),
        SameView-trans r (SameView-lindex r uuid i w) same,
      )

-- A list with a member has a head.
head_of-mem :
    (v : Bytes) (l : List Bytes)
    → mem_bytes v l ≡ true
    → AreUuids l
    → (head : Bytes) × (more : List Bytes) × (l ≡ head ∷ more) × NulFree head
head_of-mem v [] h a = cc
head_of-mem v (x ∷ l) h a = (x, l, refl, a.0.0)

-- The database `w'` is `w` without the bundle under `uuid` and without the head of the list `name`.
pub record Taken {e : Env} (r : RedisLaws e) (uuid name : Bytes) (w w' : e.World) : Type 0 where
  pub bundle_gone : r.items w' uuid ≡ []
  pub head_gone : r.items w' name ≡ tail (r.items w name)
  pub items_kept : (j : Bytes) → uuid ≢ j → name ≢ j → r.items w' j ≡ r.items w j
  pub strings_kept : (j : Bytes) → r.strings w' j ≡ r.strings w j

module _ {e : Env} (r : RedisLaws e) (alive : IsAlive r) (l : LockLaws e r) (txn_size : ℕ)
    {T : Type 0} (deserialize : Bytes → Option T) (stack : Bytes) (txn_of : Bytes → T)
    (cache : TaCache) (uuid : Bytes) (nu : NulFree uuid) (nc : NulFree cache.complete_list_name)
    (nb : NulFree cache.buffer_list_name) (lu : length uuid ≡ uuid_len)
    (ne : uuid ≢ cache.complete_list_name) (res : FetchRes T) where
  open r use {strings, items}

  abbrev pub name : Bytes
  name = cache.complete_list_name

  -- What DEL of the UUID and LPOP of the complete list do.
  Taken-del_pop :
      (w : e.World)
      → strings w uuid ≡ none
      → strings w name ≡ none
      → Taken r uuid name w (e.redis (lpop name) (e.redis (del uuid) w).1).1
  Taken-del_pop w su sn =
      let w1 = (e.redis (del uuid) w).1 in
      let ln : items w1 name ≡ items w name = r.frame_items (del uuid) w name ne in
      let sn1 : strings w1 name ≡ none = r.frame_strings (del uuid) w name ne ∙ sn in
      record {
        bundle_gone =
            r.frame_items (lpop name) w1 uuid (λ p. ne (sym p)) ∙ r.del_items uuid w (alive _ _);
        head_gone = r.lpop_items name w1 (alive _ _) sn1 ∙ ap tail ln;
        items_kept = λ j hu hn. r.frame_items (lpop name) w1 j hn ∙ r.frame_items (del uuid) w j hu;
        strings_kept = λ j.
            by_key name (strings (e.redis (lpop name) w1).1) (strings w1) (r.lpop_strings name w1)
              (r.frame_strings (lpop name) w1) j
            ∙ by_key uuid (strings w1) (strings w) (r.del_strings uuid w (alive _ _) ∙ sym su)
                (r.frame_strings (del uuid) w) j;
      }

  take_sent-eq :
      (first : Bytes) (rest : List Bytes) (head : Bytes) (more : List Bytes) (w : e.World)
      → strings w uuid ≡ none
      → strings w name ≡ none
      → items w uuid ≡ first ∷ rest
      → items w name ≡ head ∷ more
      → NulFree head
      → All (Readable r alive txn_size deserialize stack txn_of) (first ∷ rest)
      → (w' : e.World) × (take_sent e true txn_size deserialize stack cache uuid
            (length (items w uuid))
            res
            w
          ≡ (
            done (record res {
              status = mam_bufreq_sent;
              bundle = res.bundle ++ map txn_of (first ∷ rest);
            }),
            w',
          ))
        × Taken r uuid name w w'
  unfolding take_sent
  take_sent-eq first rest head more w su sn lu' ln nh a =
      let (w1, read, same) =
        read_txns-eq r alive txn_size deserialize stack txn_of uuid nu [] (first ∷ rest) 0
          res.bundle w lu' refl su a in
      let su1 : strings w1 uuid ≡ none = same.same_strings uuid ∙ su in
      let sn1 : strings w1 name ≡ none = same.same_strings name ∙ sn in
      let w2 = (e.redis (del uuid) w1).1 in
      let there : exists (strings w1 uuid) (items w1 uuid) ≡ 1 =
        rw (su1, same.same_items uuid, lu') refl in
      let ln2 : items w2 name ≡ head ∷ more =
        r.frame_items (del uuid) w1 name ne ∙ same.same_items name ∙ ln in
      let sn2 : strings w2 name ≡ none = r.frame_strings (del uuid) w1 name ne ∙ sn1 in
      let t = Taken-del_pop w1 su1 sn1 in
      (
        (e.redis (lpop name) w2).1,
        rw lu' (
            rw read (
              rw (del-eq r alive uuid nu w1 there)
                (rw (pop-eq r alive name nc w2 head sn2 (rw ln2) nh)))),
        record {
          bundle_gone = t.bundle_gone;
          head_gone = t.head_gone ∙ ap tail (same.same_items name);
          items_kept = λ j hu hn. t.items_kept j hu hn ∙ same.same_items j;
          strings_kept = λ j. t.strings_kept j ∙ same.same_strings j;
        },
      )

  abbrev pub fetch : e.World → Outcome (FetchRes T) × e.World
  fetch = ta_fetch_txn_with_uuid e true txn_size deserialize stack cache uuid res

  abbrev pub buffered : e.World → Bool
  buffered w = mem_bytes uuid (items w cache.buffer_list_name)

  abbrev pub completed : e.World → Bool
  completed w = mem_bytes uuid (items w name)

  -- The lists of UUIDs, in a world of which the lock was taken.
  pub record AreLists (w : e.World) : Type 0 where
    pub taken : (e.tryrdlock w).0 ≡ false
    pub buffer_list : strings w cache.buffer_list_name ≡ none
    pub buffer_uuids : AreUuids (items w cache.buffer_list_name)
    pub complete_list : strings w name ≡ none
    pub complete_uuids : AreUuids (items w name)

  SameView-rdlock : (w : e.World) → SameView r w (e.tryrdlock w).1
  SameView-rdlock w = record { same_items = l.rdlock_items w; same_strings = l.rdlock_strings w }

  SameView-unlock : (w : e.World) → SameView r w (e.unlock w).1
  SameView-unlock w = record { same_items = l.unlock_items w; same_strings = l.unlock_strings w }

  -- The lookup in the buffer list, in the world with the lock.
  look_buffer :
      (w : e.World)
      → AreLists w
      → (w1 : e.World) × (fetch w
          ≡ after_buffer e true txn_size deserialize stack cache uuid res (done (buffered w)) w1)
        × SameView r w w1
  unfolding ta_fetch_txn_with_uuid
  look_buffer w a =
      let v = SameView-rdlock w in
      let w0 = (e.tryrdlock w).1 in
      let (w1, found, same) =
        cache_list_exist_sized-eq r alive cache.buffer_list_name uuid nb stack uuid_len w0 lu
          (v.same_strings _ ∙ a.buffer_list)
          (rw (v.same_items cache.buffer_list_name) a.buffer_uuids) in
      (
        w1,
        fetch_locked-eq l true txn_size deserialize stack cache uuid res (e.tryrdlock w) a.taken
            ∙ rw found (rw (v.same_items cache.buffer_list_name)),
        SameView-trans r v same,
      )

  -- The lookup in the complete list behind it.
  look_complete :
      (w w1 : e.World)
      → AreLists w
      → SameView r w w1
      → (w2 : e.World) × (after_buffer e true txn_size deserialize stack cache uuid res
            (done false)
            w1
          ≡ after_complete e true txn_size deserialize stack cache uuid res (done (completed w)) w2)
        × SameView r w w2
  look_complete w w1 a v =
      let (w2, found, same) =
        cache_list_exist_sized-eq r alive name uuid nc stack uuid_len w1 lu
          (v.same_strings _ ∙ a.complete_list) (rw (v.same_items name) a.complete_uuids) in
      (w2, rw found (rw (v.same_items name)), SameView-trans r v same)

  -- From the answer that the UUID is in the complete list on.
  sent_path :
      (w w2 : e.World) (first : Bytes) (rest : List Bytes)
      → AreLists w
      → SameView r w w2
      → completed w ≡ true
      → strings w uuid ≡ none
      → items w uuid ≡ first ∷ rest
      → All (Readable r alive txn_size deserialize stack txn_of) (first ∷ rest)
      → (w' : e.World) × (after_complete e true txn_size deserialize stack cache uuid res
            (done true)
            w2
          ≡ (
            done (record res {
              status = mam_bufreq_sent;
              bundle = res.bundle ++ map txn_of (first ∷ rest);
            }),
            w',
          ))
        × Taken r uuid name w w'
  sent_path w w2 first rest a v c su lu' all =
      let w3 = (e.redis (llen uuid) w2).1 in
      let w4 = (e.unlock w3).1 in
      let v4 =
        SameView-trans r v (SameView-trans r (SameView-llen r uuid w2) (SameView-unlock w3)) in
      let (head, more, ln, nh) = head_of-mem uuid (items w name) c a.complete_uuids in
      let (w', took, t) =
        take_sent-eq first rest head more w4 (v4.same_strings uuid ∙ su)
          (v4.same_strings name ∙ a.complete_list) (v4.same_items uuid ∙ lu')
          (v4.same_items name ∙ ln) nh all in
      let count : length (items w2 uuid) ≡ length (items w4 uuid) =
        ap length (v.same_items uuid ∙ sym (v4.same_items uuid)) in
      (
        w',
        rw (size-eq r alive uuid nu w2 (v.same_strings uuid ∙ su)) (rw count took),
        record {
          bundle_gone = t.bundle_gone;
          head_gone = t.head_gone ∙ ap tail (v4.same_items name);
          items_kept = λ j hu hn. t.items_kept j hu hn ∙ v4.same_items j;
          strings_kept = λ j. t.strings_kept j ∙ v4.same_strings j;
        },
      )

  -- While redis refuses no command and the read lock is to be had, where the buffer list and the complete list are lists
  -- of UUIDs under names without a NUL: fetching by a UUID of the buffer list, other than the complete list's name, reports the request as unsent, and the database stays as it was.
  pub ta_fetch_txn_with_uuid_unsent :
      (w : e.World)
      → AreLists w
      → buffered w ≡ true
      → ((fetch w).0 ≡ done (record res { status = mam_bufreq_unsent })) × SameView r w (fetch w).1
  ta_fetch_txn_with_uuid_unsent w a b =
      let (w1, one, v1) = look_buffer w a in
      rw one (rw b (refl, SameView-trans r v1 (SameView-unlock w1)))

  -- While redis refuses no command and the read lock is to be had, where the buffer list and the complete list are lists
  -- of UUIDs under names without a NUL: fetching by a UUID that is in neither list, other than the complete list's name,
  -- reports what the response said before, and the database stays as it was.
  pub ta_fetch_txn_with_uuid_absent :
      (w : e.World)
      → AreLists w
      → buffered w ≡ false
      → completed w ≡ false
      → ((fetch w).0 ≡ done res) × SameView r w (fetch w).1
  ta_fetch_txn_with_uuid_absent w a b c =
      let (w1, one, v1) = look_buffer w a in
      let (w2, two, v2) = look_complete w w1 a v1 in
      rw one (rw b (rw two (rw c (refl, SameView-trans r v2 (SameView-unlock w2)))))

  -- Fetching by a UUID that is only in the complete list, with a readable bundle that is not empty under
  -- it, reports the request as sent with the bundle behind that of the response. It deletes the bundle,
  -- takes the head off the complete list, whichever UUID that is, and changes nothing else.
  pub ta_fetch_txn_with_uuid_sent :
      (w : e.World) (first : Bytes) (rest : List Bytes)
      → AreLists w
      → buffered w ≡ false
      → completed w ≡ true
      → strings w uuid ≡ none
      → items w uuid ≡ first ∷ rest
      → All (Readable r alive txn_size deserialize stack txn_of) (first ∷ rest)
      → ((fetch w).0
          ≡ done (record res {
            status = mam_bufreq_sent;
            bundle = res.bundle ++ map txn_of (first ∷ rest);
          }))
        × Taken r uuid name w (fetch w).1
  ta_fetch_txn_with_uuid_sent w first rest a b c su lu' all =
      let (w1, one, v1) = look_buffer w a in
      let (w2, two, v2) = look_complete w w1 a v1 in
      let (w', three, t) = sent_path w w2 first rest a v2 c su lu' all in
      rw one (rw b (rw two (rw c (rw three (refl, t)))))

  -- While redis refuses no command and the read lock is to be had, where the buffer list and the complete list are lists
  -- of UUIDs under names without a NUL: a sent bundle, readable and not empty, is fetched by a UUID other than the
  -- complete list's name and not in the buffer list, which stands behind another one, the head, in the complete list,
  -- where the head stands once and is not the list's name. Then its UUID stays in the list without a bundle, and the UUID at the head of the list is dropped with its bundle
  -- still stored.
  pub ta_fetch_txn_with_uuid_drops_head :
      (w : e.World) (first head : Bytes) (rest more : List Bytes)
      → AreLists w
      → buffered w ≡ false
      → items w name ≡ head ∷ more
      → mem_bytes uuid more ≡ true
      → mem_bytes head more ≡ false
      → head ≢ name
      → uuid ≢ head
      → strings w uuid ≡ none
      → items w uuid ≡ first ∷ rest
      → All (Readable r alive txn_size deserialize stack txn_of) (first ∷ rest)
      → (mem_bytes uuid (items (fetch w).1 name) ≡ true)
        × (items (fetch w).1 uuid ≡ [])
        × (mem_bytes head (items (fetch w).1 name) ≡ false)
        × (items (fetch w).1 head ≡ items w head)
  ta_fetch_txn_with_uuid_drops_head w first head rest more a b ln mu mh nn nh su lu' all =
      let listed : completed w ≡ true = rw ln (ground (arith, mu)) in
      let t = (ta_fetch_txn_with_uuid_sent w first rest a b listed su lu' all).1 in
      let now : items (fetch w).1 name ≡ more = t.head_gone ∙ ap tail ln in
      (rw now mu, t.bundle_gone, rw now mh, t.items_kept head nh (λ p. nn (sym p)))
