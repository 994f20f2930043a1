-- ===== src/Core/Broadcast/Send.antt =====
-- accelerator/core/periodical_task.c: a whole round of broadcast_buffered_txn, while redis answers and the
-- node takes the bundle.
use tangle_accelerator.Base.{
  ℕ, ◌+◌, ◌-◌, ◌≤◌, ◌<◌, true, false, none, some, Bytes, List, [], ◌∷◌, ◌++◌, map, length,
  length-append, All, NulFree, rev_onto, append_assoc, append_nil, replicate, get_elem?-append_head,
  ◌≡◌, ◌≢◌, refl, sym, ap, subst, ◌∙◌, arith, by_key, if◌then◌else◌,
}
use tangle_accelerator.Errors.{cache_lock_failure}
use tangle_accelerator.Exec.{done, fail, Exec, ◌>>=◌, ◌>>◌, continue, pure}
use tangle_accelerator.Env.{Env, lindex, llen, del, lpush}
use tangle_accelerator.Env.Laws.{RedisLaws, LockLaws, exists}
use tangle_accelerator.Env.Iota.{Iota}
use tangle_accelerator.Env.Frame.{Near, Near-refl, Near-trans, NetLaws}
use tangle_accelerator.Cache.{cache_list_size, cache_list_at, cache_del, cache_list_push}
use tangle_accelerator.Cache.Steps.{IsAlive, after, at-eq, size-eq, del-eq}
use tangle_accelerator.Cache.Exist.{SameView, SameView-lindex, SameView-llen}
use tangle_accelerator.Core.Buffer.{TaCache, uuid_len, push_each}
use tangle_accelerator.Core.Buffer.Push.{
  all_pushed, HaveSize, push_each-eq, all_pushed-items, all_pushed-items_ne, all_pushed-strings,
}
use tangle_accelerator.Core.Attach.{SendConfig, ta_send_trytes}
use tangle_accelerator.Core.Attach.Keeps.{KeepsAll-ta_send_trytes}
use tangle_accelerator.Core.Broadcast.{
  zeroed, read_raw, store_each, told, fetch_trytes, lock, move_uuid, send_txn,
}
use tangle_accelerator.Core.Broadcast.Move.{move_uuid_lem}

bind_step :
    {W A B : Type 0} (m : Exec W A) (f : A → Exec W B) (w w' : W) (a : A)
    → m w ≡ (done a, w')
    → (m >>= f) w ≡ f a w'
bind_step m f w w' a h = ap (λ p. continue p.0 f p.1) h

below : (n k : ℕ) → n ≡ k → n ≤ k
below n k h = omega arith

none_left : (n k : ℕ) → n ≡ k → k - n ≡ 0
none_left n k h = omega arith

one_pos : (k : ℕ) → k ≡ 1 → 0 < k
one_pos k h = omega arith

pair_eq : {A B : Type 0} (p : A × B) (a : A) → p.0 ≡ a → p ≡ (a, p.1)
pair_eq p a h = ap (λ x. (x, p.1)) h

module _ {e : Env} {r : RedisLaws e} (l : LockLaws e r) (alive : IsAlive r) (size : ℕ) where
  open r use {strings, items}
  open l use {held}

  Near-view : (w w' : e.World) → SameView r w w' → held w' ≡ held w → Near l w w'
  Near-view w w' v h = record {
    near_items = v.same_items;
    near_strings = v.same_strings;
    near_held = h;
  }

  -- A stored transaction that reads back: it fills the array it is read into.
  abbrev pub Fits : Bytes → Type 0
  Fits t = NulFree t × (length t ≡ size)

  zeroed-Fits : (t : Bytes) → Fits t → zeroed e true size t ≡ t
  zeroed-Fits t f = ap (λ n. t ++ replicate n 0) (none_left (length t) size f.1) ∙ append_nil t

  read_raw-eq :
      (uuid : Bytes) (n : NulFree uuid) (pre suf : List Bytes) (i : ℕ) (w : e.World)
      → items w uuid ≡ pre ++ suf
      → i ≡ length pre
      → strings w uuid ≡ none
      → All Fits suf
      → (w' : e.World) × (read_raw e true size uuid (length suf) i w ≡ (done suf, w')) × Near l w w'
  unfolding read_raw
  read_raw-eq uuid n pre [] i w hl hi s a = (w, refl, Near-refl l w)
  read_raw-eq uuid n pre (t ∷ suf) i w hl hi s a =
      let w1 = (e.redis (lindex uuid i) w).1 in
      let (w', rest, near) =
        read_raw-eq uuid n (pre ++ t ∷ []) suf (i + 1) w1
          (r.lindex_items uuid i w ∙ hl ∙ sym (append_assoc pre (t ∷ []) suf))
          (omega (arith, length-append pre (t ∷ []))) (r.lindex_strings uuid i w ∙ s) a.1 in
      (
        w',
        bind_step (cache_list_at e true (some uuid) i size) _ w w1 t (
              at-eq r alive uuid n w i size t s (rw (hl, hi) (get_elem?-append_head pre suf t))
                a.0.0 (below _ _ a.0.1))
            ∙ bind_step (read_raw e true size uuid (length suf) (i + 1))
                (λ more. pure (zeroed e true size t ∷ more)) w1 w' suf rest
            ∙ ap (λ b. (done (b ∷ suf), w')) (zeroed-Fits t a.0),
        Near-trans l (Near-view w w1 (SameView-lindex r uuid i w) (l.redis_held (lindex uuid i) w))
            near,
      )

  -- Both loops store a bundle in the same way.
  store_each-push_each :
      (uuid : Bytes) (txns : List Bytes)
      → store_each e true size uuid txns ≡ push_each e true size uuid txns
  unfolding store_each push_each
  store_each-push_each uuid [] = refl
  store_each-push_each uuid (t ∷ txns) =
      ap (λ m. cache_list_push e true (some uuid) uuid_len (some t) size >> m)
        (store_each-push_each uuid txns)

  all_pushed-held :
      (uuid : Bytes) (txns : List Bytes) (w : e.World)
      → held (all_pushed r alive size uuid txns w) ≡ held w
  all_pushed-held uuid [] w = refl
  all_pushed-held uuid (t ∷ txns) w = all_pushed-held uuid txns _ ∙ l.redis_held (lpush uuid t) w

  module _ (i : Iota e.World) (net : NetLaws l i) (conf : SendConfig) (cache : TaCache)
      (uuid : Bytes) (n : NulFree uuid) (lu : length uuid ≡ uuid_len)
      (nb : NulFree cache.buffer_list_name)
      (apart : cache.buffer_list_name ≢ cache.complete_list_name)
      (not_buffer : uuid ≢ cache.buffer_list_name)
      (not_complete : uuid ≢ cache.complete_list_name) where
    -- The world in which a bundle is sent that was read from `w`, and the one in which the node is then asked.
    abbrev pub reading : List Bytes → e.World → e.World
    reading raw w = (read_raw e true size uuid (length raw) 0 (after r alive (llen uuid) w)).1

    abbrev pub asking : List Bytes → e.World → e.World
    asking raw w = (ta_send_trytes i conf raw (reading raw w)).1

    -- The node takes the bundle that was read, as `sent`, and then tells `trytes` for it, each in the world that sending
    -- from `w` reaches; the write lock is to be had when nobody holds the lock.
    pub record IsOnline (w : e.World) (raw sent trytes : List Bytes) : Type 0 where
      pub takes : (ta_send_trytes i conf raw (reading raw w)).0 ≡ done sent
      pub tells :
          (i.get_trytes (map (λ t. i.hash (i.of_trits t)) sent) (asking raw w)).0 ≡ some trytes
      pub free : (v : e.World) → held v ≡ 0 → (e.trywrlock v).0 ≡ false

    -- The database `w'` is `w` with the request sent.
    pub record SentOff (trytes rest : List Bytes) (w w' : e.World) : Type 0 where
      pub buffer_rest : items w' cache.buffer_list_name ≡ rest
      pub completed : items w' cache.complete_list_name ≡ uuid ∷ items w cache.complete_list_name
      pub bundle : items w' uuid ≡ rev_onto trytes []
      pub items_kept :
          (j : Bytes)
          → uuid ≢ j
          → cache.buffer_list_name ≢ j
          → cache.complete_list_name ≢ j
          → items w' j ≡ items w j
      pub strings_kept : (j : Bytes) → strings w' j ≡ strings w j
      pub unlocked : held w' ≡ 0

    pub send_txn-eq :
        (first : Bytes) (others sent trytes rest : List Bytes) (w : e.World)
        → IsOnline w (first ∷ others) sent trytes
        → items w uuid ≡ first ∷ others
        → All Fits (first ∷ others)
        → HaveSize r alive size trytes
        → items w cache.buffer_list_name ≡ uuid ∷ rest
        → strings w uuid ≡ none
        → strings w cache.buffer_list_name ≡ none
        → strings w cache.complete_list_name ≡ none
        → held w ≡ 0
        → ((send_txn e true size i conf cache uuid w).0 ≡ done tt)
          × SentOff trytes rest w (send_txn e true size i conf cache uuid w).1
    unfolding send_txn
    send_txn-eq first others sent trytes rest w on lu' fit sizes lb su sb sc free0 =
        let raw = first ∷ others in
        let buffer = cache.buffer_list_name in
        let done_list = cache.complete_list_name in
        let w1 = after r alive (llen uuid) w in
        let near1 = Near-view w w1 (SameView-llen r uuid w) (l.redis_held (llen uuid) w) in
        let (w2, read, near2) =
          read_raw-eq uuid n [] raw 0 w1 (near1.near_items uuid ∙ lu') refl
            (near1.near_strings uuid ∙ su) fit in
        let same : reading raw w ≡ w2 = ap (λ p. p.1) read in
        let w3 = (ta_send_trytes i conf raw w2).1 in
        let near3 = (KeepsAll-ta_send_trytes l i net conf raw).near w2 in
        let w4 = (i.get_trytes (map (λ t. i.hash (i.of_trits t)) sent) w3).1 in
        let near4 =
          Near-trans l (Near-trans l near1 near2) (Near-trans l near3 (net.near_get_trytes _ w3)) in
        let there : exists (strings w4 uuid) (items w4 uuid) ≡ 1 =
          rw (near4.near_strings uuid ∙ su, near4.near_items uuid ∙ lu') refl in
        let w5 = after r alive (del uuid) w4 in
        let del_strings = λ (j : Bytes).
          by_key uuid (strings w5) (strings w4)
            (r.del_strings uuid w4 (alive _ _) ∙ sym (near4.near_strings uuid ∙ su))
            (r.frame_strings (del uuid) w4) j in
        let su5 : strings w5 uuid ≡ none = del_strings uuid ∙ near4.near_strings uuid ∙ su in
        let w6 = all_pushed r alive size uuid trytes w5 in
        let held6 : held w6 ≡ 0 =
          all_pushed-held uuid trytes w5 ∙ l.redis_held (del uuid) w4 ∙ near4.near_held ∙ free0 in
        let w7 = (e.trywrlock w6).1 in
        let taken = on.free w6 held6 in
        let held7 : held w7 ≡ 1 = l.wrlock_taken w6 taken ∙ ap (λ k. k + 1) held6 in
        let strings7 = λ (j : Bytes).
          l.wrlock_strings w6 j
          ∙ all_pushed-strings r alive size uuid trytes w5 j
          ∙ del_strings j
          ∙ near4.near_strings j in
        let items7 = λ (j : Bytes) (h : uuid ≢ j).
          l.wrlock_items w6 j
          ∙ all_pushed-items_ne r alive size uuid trytes w5 j h
          ∙ r.frame_items (del uuid) w4 j h
          ∙ near4.near_items j in
        let bundle7 : items w7 uuid ≡ rev_onto trytes [] =
          l.wrlock_items w6 uuid
          ∙ all_pushed-items r alive size uuid trytes w5 su5
          ∙ ap (rev_onto trytes) (r.del_items uuid w4 (alive _ _)) in
        let (ret, from, to, kept, strs, unlocked) =
          move_uuid_lem l alive buffer done_list uuid uuid rest w7 nb n lu apart
            (strings7 buffer ∙ sb) (strings7 done_list ∙ sc) (items7 buffer not_buffer ∙ lb)
            (one_pos _ held7) in
        let k7 : Exec e.World Unit = move_uuid e true buffer done_list uuid in
        let k6 : Exec e.World Unit = lock e true >> k7 in
        let k5 : List Bytes → Exec e.World Unit = λ t. store_each e true size uuid t >> k6 in
        let k4 : List Bytes → Exec e.World Unit = λ t. cache_del e true (some uuid) >> k5 t in
        let k3 : List Bytes → Exec e.World Unit = λ s. fetch_trytes e true size i conf s >>= k4 in
        let k2 : List Bytes → Exec e.World Unit = λ b. ta_send_trytes i conf b >>= k3 in
        let k1 : ℕ → Exec e.World Unit = λ len. read_raw e true size uuid len 0 >>= k2 in
        let path : send_txn e true size i conf cache uuid w ≡ k7 w7 =
          bind_step (cache_list_size e true (some uuid)) k1 w w1 (length (items w uuid))
            (size-eq r alive uuid n w su)
          ∙ ap (λ b. k1 (length b) w1) lu'
          ∙ bind_step (read_raw e true size uuid (length raw) 0) k2 w1 w2 raw read
          ∙ bind_step (ta_send_trytes i conf raw) k3 w2 w3 sent (
              pair_eq (ta_send_trytes i conf raw w2) (done sent)
                (ap (λ v. (ta_send_trytes i conf raw v).0) (sym same) ∙ on.takes))
          ∙ bind_step (fetch_trytes e true size i conf sent) k4 w3 w4 trytes (
              ap (λ o. (told e true size i conf o, w4))
                (ap
                    (λ v.
                      (i.get_trytes (map (λ t. i.hash (i.of_trits t)) sent)
                        (ta_send_trytes i conf raw v).1).0)
                    (sym same)
                  ∙ on.tells))
          ∙ bind_step (cache_del e true (some uuid)) (λ _. k5 trytes) w4 w5 tt
              (del-eq r alive uuid n w4 there)
          ∙ bind_step (store_each e true size uuid trytes) (λ _. k6) w5 w6 tt
              (ap (λ m. m w5) (store_each-push_each uuid trytes)
                ∙ push_each-eq r alive size uuid trytes w5 lu su5 sizes)
          ∙ bind_step (lock e true) (λ _. k7) w6 w7 tt
              (ap (λ b. (if b then fail cache_lock_failure else done tt, w7)) taken) in
        let off : SentOff trytes rest w (k7 w7).1 = record {
          buffer_rest = from;
          completed = to ∙ ap (λ t. uuid ∷ t) (items7 done_list not_complete);
          bundle = kept uuid (λ p. not_buffer (sym p)) (λ p. not_complete (sym p)) ∙ bundle7;
          items_kept = λ j hu hb hc. kept j hb hc ∙ items7 j hu;
          strings_kept = λ j. strs j ∙ strings7 j;
          unlocked = unlocked ∙ ap (λ k. k - 1) held7;
        } in
        (ap (λ p. p.0) path ∙ ret, subst (λ p. SentOff trytes rest w p.1) (sym path) off)
