-- ===== src/Core/Query/Objects.antt =====
-- accelerator/core/core.c: ta_find_transaction_objects, while redis and the node answer.
use tangle_accelerator.Base.{
  true, false, Option, none, some, Bytes, List, [], ◌∷◌, ◌++◌, map, All, NulFree, append_assoc,
  append_nil, ◌≡◌, refl, sym, ap, ◌∙◌,
}
use tangle_accelerator.Exec.{done, Exec}
use tangle_accelerator.Env.{Env, get}
use tangle_accelerator.Env.Laws.{RedisLaws}
use tangle_accelerator.Env.Iota.{Iota}
use tangle_accelerator.Env.Tangle.{Tangle, TangleLaws, Told}
use tangle_accelerator.Cache.Steps.{IsAlive, after, get-eq, get_missing}
use tangle_accelerator.Cache.Exist.{SameView, SameView-get}
use tangle_accelerator.Core.Query.{
  decoded, cached_or, look_up, fetch_objects, append_each, ta_find_transaction_objects,
}

module _ {T : Type 0} where
  -- What becomes of the node's objects: `first` stands behind each of them.
  abbrev pub each_with : T → List T → List T
  each_with first [] = []
  each_with first (x ∷ xs) = x ∷ first ∷ each_with first xs

  abbrev pub with_first : List T → List T
  with_first [] = []
  with_first (x ∷ xs) = each_with x (x ∷ xs)

  abbrev pub hits_if : Option T → List T → List T
  hits_if none xs = xs
  hits_if (some x) xs = x ∷ xs

  abbrev pub misses_if : Option T → Bytes → List Bytes → List Bytes
  misses_if none h hs = h ∷ hs
  misses_if (some x) h hs = hs

  -- The cached objects among the wanted ones, and the hashes of the others.
  abbrev pub hits : (Bytes → Option T) → List Bytes → List T
  hits known [] = []
  hits known (h ∷ hs) = hits_if (known h) (hits known hs)

  abbrev pub misses : (Bytes → Option T) → List Bytes → List Bytes
  misses known [] = []
  misses known (h ∷ hs) = misses_if (known h) h (misses known hs)

module _ {e : Env} (r : RedisLaws e) (alive : IsAlive r) (i : Iota e.World) (t : Tangle i)
    (tl : TangleLaws i t) where
  open r use {strings, items}

  abbrev pub IsCached : e.World → Bytes → Option i.Txn → Type 0
  IsCached w hash none = strings w (i.to_trytes hash) ≡ none
  IsCached w hash (some x) =
      (v : Bytes) × (strings w (i.to_trytes hash) ≡ some v)
      × NulFree v
      × (t.deserialize (some (i.from_trytes v)) ≡ some x)

  -- The cache has, under the hash's trytes, the object that `known` tells, or nothing.
  abbrev pub Looked : e.World → (Bytes → Option i.Txn) → Bytes → Type 0
  Looked w known hash =
      NulFree (i.to_trytes hash) × (items w (i.to_trytes hash) ≡ []) × IsCached w hash (known hash)

  IsCached-view :
      (v w : e.World) (hash : Bytes) (o : Option i.Txn)
      → SameView r v w
      → IsCached v hash o
      → IsCached w hash o
  IsCached-view v w hash none s c = s.same_strings _ ∙ c
  IsCached-view v w hash (some x) s c = (c.0, s.same_strings _ ∙ c.1, c.2, c.3)

  Looked-view :
      (v w : e.World) (known : Bytes → Option i.Txn) (hs : List Bytes)
      → SameView r v w
      → All (Looked v known) hs
      → All (Looked w known) hs
  Looked-view v w known [] s a = tt
  Looked-view v w known (h ∷ hs) s a = (
    (a.0.0, s.same_items _ ∙ a.0.1, IsCached-view v w h (known h) s a.0.2),
    Looked-view v w known hs s a.1,
  )

  look_up-eq :
      (known : Bytes → Option i.Txn) (hs : List Bytes) (res : List i.Txn) (uncached : List Bytes)
      (w : e.World)
      → All (Looked w known) hs
      → (w' : e.World) × (look_up e true i t hs res uncached w
          ≡ (done (res ++ hits known hs, uncached ++ misses known hs), w'))
  unfolding look_up
  look_up-eq known [] res uncached w a = (
    w,
    ap (λ p. (done p, w))
        (ap (λ xs. (xs, uncached)) (sym (append_nil res))
          ∙ ap (λ hs. (res ++ [], hs)) (sym (append_nil uncached))),
  )
  look_up-eq known (h ∷ hs) res uncached w a = by_cached (known h) a.0.2 (λ res' uncached'.
      look_up-eq known hs res' uncached' (after r alive (get (i.to_trytes h)) w)
        (Looked-view w _ known hs (SameView-get r _ w) a.1))
    where
      w1 : e.World
      w1 = after r alive (get (i.to_trytes h)) w

      Rest : List i.Txn → List Bytes → Type 0
      Rest res' uncached' =
          (w' : e.World) × (look_up e true i t hs res' uncached' w1
            ≡ (done (res' ++ hits known hs, uncached' ++ misses known hs), w'))

      hit : i.Txn → Exec e.World (List i.Txn × List Bytes)
      hit txn = look_up e true i t hs (t.push_back res (some txn)) uncached

      miss : Exec e.World (List i.Txn × List Bytes)
      miss = look_up e true i t hs res (uncached ++ h ∷ [])

      by_cached :
          (o : Option i.Txn)
          → IsCached w h o
          → ((res' : List i.Txn) (uncached' : List Bytes) → Rest res' uncached')
          → (w' : e.World) × (look_up e true i t (h ∷ hs) res uncached w ≡ (
            done (res ++ hits_if o (hits known hs), uncached ++ misses_if o h (misses known hs)),
            w',
          ))
      by_cached none c rest =
          let (s, g) = get_missing r alive (i.to_trytes h) a.0.0 w a.0.1 c in
          let (w', q) = rest res (uncached ++ h ∷ []) in
          (
            w',
            ap (λ p. cached_or e true i t p hit miss) g
                ∙ q
                ∙ ap (λ u. (done (res ++ hits known hs, u), w'))
                    (append_assoc uncached (h ∷ []) (misses known hs)),
          )
      by_cached (some x) (v, s, n, d) rest =
          let (w', q) = rest (res ++ x ∷ []) uncached in
          (
            w',
            ap (λ p. cached_or e true i t p hit miss)
                  (get-eq r alive (i.to_trytes h) a.0.0 w v a.0.1 s n)
                ∙ ap (λ o. decoded e true i t o hit w1) d
                ∙ ap (λ xs. look_up e true i t hs xs uncached w1) (tl.push_back_some res x)
                ∙ q
                ∙ ap (λ u. (done (u, uncached ++ misses known hs), w'))
                    (append_assoc res (x ∷ []) (hits known hs)),
          )

  fetch_more :
      (object : Bytes → i.Txn) (hs : List Bytes) (first : i.Txn) (acc : List i.Txn) (w : e.World)
      → All (Told i t object) hs
      → (w' : e.World) × (fetch_objects i t hs (first ∷ acc) w
          ≡ (done (first ∷ (acc ++ each_with first (map object hs))), w'))
  unfolding fetch_objects
  fetch_more object [] first acc w a = (w, ap (λ xs. (done (first ∷ xs), w)) (sym (append_nil acc)))
  fetch_more object (h ∷ hs) first acc w a =
      let x = object h in
      let (w', q) =
        fetch_more object hs first (acc ++ x ∷ first ∷ []) (t.get_transaction_objects (h ∷ []) w).1
          a.1 in
      (
        w',
        rw (a.0 w) (
            rw
              (
                tl.push_back_some (first ∷ (acc ++ x ∷ [])) first,
                append_assoc acc (x ∷ []) (first ∷ []),
              )
              (q
                ∙ ap (λ u. (done (first ∷ u), w'))
                    (append_assoc acc (x ∷ first ∷ []) (each_with first (map object hs))))),
      )

  fetch_objects-eq :
      (object : Bytes → i.Txn) (hs : List Bytes) (w : e.World)
      → All (Told i t object) hs
      → (w' : e.World) × (fetch_objects i t hs [] w ≡ (done (with_first (map object hs)), w'))
  unfolding fetch_objects
  fetch_objects-eq object [] w a = (w, refl)
  fetch_objects-eq object (h ∷ hs) w a =
      let x = object h in
      let (w', q) = fetch_more object hs x (x ∷ []) (t.get_transaction_objects (h ∷ []) w).1 a.1 in
      (w', rw (a.0 w) (rw (tl.push_back_some (x ∷ []) x) q))

  -- The object's trits are not null and deserialize to it.
  abbrev pub IsWhole : i.Txn → Type 0
  IsWhole x =
      (t.flex_trits_are_null (i.serialize x) ≡ false) × (t.deserialize (i.serialize x) ≡ some x)

  append_each-eq :
      (xs res : List i.Txn) → All IsWhole xs → append_each i t xs res ≡ done (res ++ xs)
  unfolding append_each
  append_each-eq [] res a = ap done (sym (append_nil res))
  append_each-eq (x ∷ xs) res a = rw (a.0.0) (
      rw (a.0.1, tl.push_back_some res x)
        (append_each-eq xs (res ++ x ∷ []) a.1 ∙ ap done (append_assoc res (x ∷ []) xs)))

  IsWhole-each :
      (first : i.Txn) (xs : List i.Txn)
      → IsWhole first
      → All IsWhole xs
      → All IsWhole (each_with first xs)
  IsWhole-each first [] f a = tt
  IsWhole-each first (x ∷ xs) f a = (a.0, (f, IsWhole-each first xs f a.1))

  IsWhole-with_first : (xs : List i.Txn) → All IsWhole xs → All IsWhole (with_first xs)
  IsWhole-with_first [] a = tt
  IsWhole-with_first (x ∷ xs) a = IsWhole-each x (x ∷ xs) a.0 a

  -- While redis refuses no command: if the trytes of each wanted hash hold no NUL and are no list's name, each cached
  -- text holds no NUL and deserializes, and the node tells, for each hash that is not cached, a transaction whose
  -- serialized trits are not null and deserialize to it, then every wanted object is found: first the cached ones in
  -- their order, then, in theirs, the others as the node tells them, each of which has the first of these others behind
  -- it once more.
  pub ta_find_transaction_objects_twice :
      (known : Bytes → Option i.Txn) (object : Bytes → i.Txn) (hashes : List Bytes)
      (res : List i.Txn) (w : e.World)
      → All (Looked w known) hashes
      → All (Told i t object) (misses known hashes)
      → All IsWhole (map object (misses known hashes))
      → (ta_find_transaction_objects e true i t (some hashes) (some res) w).0
        ≡ done (res ++ hits known hashes ++ with_first (map object (misses known hashes)))
  unfolding ta_find_transaction_objects
  ta_find_transaction_objects_twice known object hashes res w looked told whole =
      let (w1, found) = look_up-eq known hashes res [] w looked in
      let (w2, fetched) = fetch_objects-eq object (misses known hashes) w1 told in
      rw found (rw fetched (append_each-eq _ _ (IsWhole-with_first _ whole)))
