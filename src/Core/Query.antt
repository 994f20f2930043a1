-- ===== src/Core/Query.antt =====
-- accelerator/core/core.c: finding transactions and bundles.
pub mod Bundle
pub mod Objects
use tangle_accelerator.Base.{
  ℕ, suc, ◌+◌, Bool, true, false, Option, none, some, Bytes, List, [], ◌∷◌, ◌++◌, ◌&&◌, ◌==◌,
  if◌then◌else◌, ltb, length, take, map, bytes_eq,
}
use tangle_accelerator.Errors.{Status, null, oom, cclient_failed_response, cclient_not_found}
use tangle_accelerator.Exec.{Outcome, done, fail, Exec, ◌>>=◌, continue, pure, raise}
use tangle_accelerator.Env.{Env}
use tangle_accelerator.Env.Iota.{Iota}
use tangle_accelerator.Env.Tangle.{Tangle, FindTransactionsReq, Sign, negative, nought, positive}
use tangle_accelerator.Cache.{cache_get}
use tangle_accelerator.Cache.Exist.{mem_bytes}

abbrev pub result_set_limit : ℕ
result_set_limit = 100

abbrev pub front : {A : Type 0} → List A → Option A
front [] = none
front (x ∷ xs) = some x

abbrev pub by_bundle : Bytes → FindTransactionsReq
by_bundle hash = record { bundles = hash ∷ []; addresses = []; tags = []; approvees = [] }

abbrev pub by_address : Bytes → FindTransactionsReq
by_address address = record { bundles = []; addresses = address ∷ []; tags = []; approvees = [] }

module _ {W : Type 0} (i : Iota W) (t : Tangle i) where
  abbrev pub idx_sort : i.Txn → i.Txn → Sign
  idx_sort lhs rhs =
      if ltb (t.current_index lhs) (t.current_index rhs)
      then negative
      else if ltb (t.current_index rhs) (t.current_index lhs)
      then positive
      else nought

  -- The test in the loop of get_first_bundle_from_transactions.
  abbrev pub follows : i.Txn → i.Txn → Bool
  follows prev curr_tx =
      (t.current_index curr_tx == t.current_index prev + 1)
      && bytes_eq (i.hash curr_tx) (t.trunk prev)

  unfoldable pub follow : List i.Txn → i.Txn → List i.Txn → List i.Txn
  follow [] prev bundle = bundle
  follow (curr_tx ∷ more) prev bundle =
      let next = follow more curr_tx (t.push_back bundle (some curr_tx)) in
      let stay = follow more prev bundle in if follows prev curr_tx then next else stay

  -- Of an empty array the first element is NULL.
  abbrev pub from_sorted : List i.Txn → List i.Txn → List i.Txn
  from_sorted [] bundle = t.push_back bundle none
  from_sorted (tail ∷ more) bundle = follow (tail ∷ more) tail (t.push_back bundle (some tail))

  unfoldable pub get_first_bundle_from_transactions : List i.Txn → List i.Txn → List i.Txn
  unfolding follow
  get_first_bundle_from_transactions transactions bundle =
      from_sorted (t.qsort idx_sort transactions) bundle

  abbrev pub or_failed : {A : Type 0} → (W → Option A × W) → Exec W A
  or_failed call w =
      let (r, w') = call w in (elim r [ none ↦ fail cclient_failed_response | some a ↦ done a ], w')

  -- The loop of ta_get_txn_objects_with_txn_hash.
  unfoldable pub objects_of : List Bytes → List i.Txn → Exec W (List i.Txn)
  objects_of [] tx_objs = pure tx_objs
  objects_of (hash ∷ hashes) tx_objs = do
    found ← or_failed (t.get_transaction_objects (hash ∷ []))
    objects_of hashes (tx_objs ++ found)

  unfoldable pub ta_get_txn_objects_with_txn_hash :
      FindTransactionsReq → List i.Txn → Exec W (List i.Txn)
  unfolding objects_of
  ta_get_txn_objects_with_txn_hash tx_queries tx_objs = do
    hashes ← or_failed (t.find_transactions tx_queries)
    objects_of hashes tx_objs

  -- Any error becomes SC_CCLIENT_FAILED_RESPONSE.
  abbrev pub any_failed : {A : Type 0} → Outcome A → Outcome A
  any_failed (done a) = done a
  any_failed (fail s) = fail cclient_failed_response

  unfoldable pub ta_get_bundle : Bytes → List i.Txn → Exec W (List i.Txn)
  unfolding ta_get_txn_objects_with_txn_hash get_first_bundle_from_transactions
  ta_get_bundle bundle_hash bundle = do
    tx_objs ← λ w.
        let (r, w') =
          ta_get_txn_objects_with_txn_hash (by_bundle (i.from_trytes bundle_hash)) [] w in
        (any_failed r, w')
    pure (get_first_bundle_from_transactions tx_objs bundle)

  -- The loop over the other hashes. The array's first element is pushed again behind each answer.
  unfoldable pub fetch_objects : List Bytes → List i.Txn → Exec W (List i.Txn)
  fetch_objects [] uncached_txn_array = pure uncached_txn_array
  fetch_objects (hash ∷ hashes) uncached_txn_array = do
    found ← or_failed (t.get_transaction_objects (hash ∷ []))
    let all = uncached_txn_array ++ found
    fetch_objects hashes (t.push_back all (front all))

  unfoldable pub append_each : List i.Txn → List i.Txn → Outcome (List i.Txn)
  append_each [] res = done res
  append_each (temp ∷ more) res =
      let temp_txn_trits = i.serialize temp in
      let rest = append_each more (t.push_back res (t.deserialize temp_txn_trits)) in
      if t.flex_trits_are_null temp_txn_trits then fail cclient_not_found else rest

module _ (e : Env) (state : Bool) (i : Iota e.World) (t : Tangle i) where
  -- A cached value that does not deserialize is SC_OOM; any error of the cache counts as a miss.
  abbrev pub decoded : {A : Type 0} → Option i.Txn → (i.Txn → Exec e.World A) → Exec e.World A
  decoded none hit w = (fail oom, w)
  decoded (some txn) hit w = hit txn w

  abbrev pub cached_or :
      {A : Type 0}
      → Outcome Bytes × e.World
      → (i.Txn → Exec e.World A)
      → Exec e.World A
      → Outcome A × e.World
  cached_or (done value, w) hit miss = decoded (t.deserialize (some (i.from_trytes value))) hit w
  cached_or (fail s, w) hit miss = miss w

  -- The loop over the wanted hashes: the cached objects go to `res`, the other hashes to the request.
  unfoldable pub look_up :
      List Bytes → List i.Txn → List Bytes → Exec e.World (List i.Txn × List Bytes)
  look_up [] res uncached w = (done (res, uncached), w)
  look_up (hash ∷ hashes) res uncached w =
      cached_or (cache_get e state (some (i.to_trytes hash)) w)
        (λ txn. look_up hashes (t.push_back res (some txn)) uncached)
        (look_up hashes res (uncached ++ hash ∷ []))

  -- The request's hashes and the array of results, which may be NULL.
  unfoldable pub ta_find_transaction_objects :
      Option (List Bytes) → Option (List i.Txn) → Exec e.World (List i.Txn)
  unfolding look_up fetch_objects append_each
  ta_find_transaction_objects none res = raise null
  ta_find_transaction_objects (some hashes) none = raise null
  ta_find_transaction_objects (some hashes) (some res) = do
    cached ← look_up hashes res []
    uncached_txn_array ← fetch_objects i t cached.1 []
    λ w. (append_each i t uncached_txn_array cached.0, w)

  unfoldable pub ta_find_transactions_obj_by_tag :
      Option FindTransactionsReq → Option (List i.Txn) → Exec e.World (List i.Txn)
  unfolding ta_find_transaction_objects
  ta_find_transactions_obj_by_tag none res = raise null
  ta_find_transactions_obj_by_tag (some req) none = raise null
  ta_find_transactions_obj_by_tag (some req) (some res) = do
    hashes ← or_failed i t (t.find_transactions req)
    ta_find_transaction_objects (some (take result_set_limit hashes)) (some res)

  -- The loop of ta_get_bundles_by_addr: `bundle_hash_set` holds the hashes of the bundles that were fetched.
  unfoldable pub bundles_of :
      List i.Txn → List Bytes → List (List i.Txn) → Exec e.World (List (List i.Txn))
  unfolding ta_get_bundle
  bundles_of [] bundle_hash_set bundle_array = pure bundle_array
  bundles_of (curr_tx ∷ more) bundle_hash_set bundle_array =
      let hash = t.bundle_of (some curr_tx) in
      let skip = bundles_of more bundle_hash_set bundle_array in
      let fetched = λ (bundle : List i.Txn).
        bundles_of more (hash ∷ bundle_hash_set) (bundle_array ++ bundle ∷ []) in
      let fetch : Exec e.World (List (List i.Txn)) =
        ta_get_bundle i t (i.to_trytes hash) [] >>= fetched in
      if mem_bytes hash bundle_hash_set then skip else fetch

  abbrev pub some_hashes : List Bytes → Outcome (List Bytes)
  some_hashes [] = fail cclient_not_found
  some_hashes (h ∷ hs) = done (h ∷ hs)

  unfoldable pub ta_get_bundles_by_addr :
      Bytes → List (List i.Txn) → Exec e.World (List (List i.Txn))
  unfolding ta_find_transaction_objects bundles_of
  ta_get_bundles_by_addr addr bundle_array = do
    found ← or_failed i t (t.find_transactions (by_address (i.from_trytes addr)))
    hashes ← λ w. (some_hashes found, w)
    obj_res ← ta_find_transaction_objects (some hashes) (some [])
    bundles_of obj_res [] bundle_array
