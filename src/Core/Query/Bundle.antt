-- ===== src/Core/Query/Bundle.antt =====
-- accelerator/core/core.c: get_first_bundle_from_transactions on the transactions of a bundle.
use tangle_accelerator.Base.{
  ℕ, ◌+◌, ◌≤◌, ◌<◌, true, false, some, Bytes, List, [], ◌∷◌, ◌++◌, map, ◌==◌, All, bytes_eq,
  bytes_eq_refl, ==_iff, append_assoc, append_nil, sorted-eq, IsGrowing, ◌≡◌, refl, sym, ap, ◌∙◌,
  arith,
}
use tangle_accelerator.Env.Iota.{Iota}
use tangle_accelerator.Exec.{done}
use tangle_accelerator.Env.Tangle.{Tangle, TangleLaws, Told}
use tangle_accelerator.Core.Query.{
  idx_sort, follow, from_sorted, by_bundle, objects_of, ta_get_txn_objects_with_txn_hash,
  ta_get_bundle, get_first_bundle_from_transactions,
}
use mathlib.Core.List.{Perm}
use mathlib.Core.List.Perm

module _ {W : Type 0} (i : Iota W) (t : Tangle i) (tl : TangleLaws i t) where
  -- The transactions behind `x` have the indices that follow its own, and each one's trunk is the next one's hash.
  abbrev pub IsTrail : i.Txn → List i.Txn → Type 0
  IsTrail x [] = Unit
  IsTrail x (y ∷ ys) =
      (t.current_index y ≡ t.current_index x + 1) × (i.hash y ≡ t.trunk x) × IsTrail y ys

  follow_trail :
      (x : i.Txn) (ys bundle : List i.Txn) → IsTrail x ys → follow i t ys x bundle ≡ bundle ++ ys
  unfolding follow
  follow_trail x [] bundle l = sym (append_nil bundle)
  follow_trail x (y ∷ ys) bundle (n, h, l) =
      let next : (t.current_index y == t.current_index x + 1) ≡ true = (==_iff _ _).1 n in
      let same : bytes_eq (i.hash y) (t.trunk x) ≡ true = rw h (bytes_eq_refl (t.trunk x)) in
      rw next (
        rw same (
          rw (tl.push_back_some bundle y)
            (follow_trail y ys (bundle ++ y ∷ []) l ∙ append_assoc bundle (y ∷ []) ys)))

  -- What stands below the first index of a trail stands below all of them.
  trail_above :
      (k : ℕ) (x : i.Txn) (ys : List i.Txn)
      → k ≤ t.current_index x
      → IsTrail x ys
      → All (λ y. k < t.current_index y) ys
  trail_above k x [] h l = tt
  trail_above k x (y ∷ ys) h (n, e, l) = (omega (arith, n), trail_above k y ys (omega (arith, n)) l)

  IsGrowing-trail :
      (x : i.Txn) (ys : List i.Txn) → IsTrail x ys → IsGrowing t.current_index (x ∷ ys)
  IsGrowing-trail x [] l = (tt, tt)
  IsGrowing-trail x (y ∷ ys) l =
      (trail_above (t.current_index x) x (y ∷ ys) (omega arith) l, IsGrowing-trail y ys l.2)

  -- In whatever order the transactions of a bundle come, it is put together from them, and appended to what the
  -- bundle held.
  pub get_first_bundle_lem :
      (tail : i.Txn) (more transactions bundle : List i.Txn)
      → IsTrail tail more
      → Perm transactions (tail ∷ more)
      → get_first_bundle_from_transactions i t transactions bundle ≡ bundle ++ tail ∷ more
  unfolding get_first_bundle_from_transactions follow
  get_first_bundle_lem tail more transactions bundle l p =
      let sorted : t.qsort (idx_sort i t) transactions ≡ tail ∷ more =
        sorted-eq t.current_index tl.txn_set _ (tail ∷ more) (Perm.trans (tl.qsort_perm _ _) p)
          (tl.qsort_sorted t.current_index (idx_sort i t) transactions (λ x y. refl))
          (IsGrowing-trail tail more l) in
      let itself : (t.current_index tail == t.current_index tail + 1) ≡ false = ground arith in
      ap (λ xs. from_sorted i t xs bundle) sorted
      ∙ rw itself (
          rw (tl.push_back_some bundle tail)
            (follow_trail tail more (bundle ++ tail ∷ []) l ∙ append_assoc bundle (tail ∷ []) more))

  objects_of-eq :
      (object : Bytes → i.Txn) (hashes : List Bytes) (tx_objs : List i.Txn) (w : W)
      → All (Told i t object) hashes
      → (w' : W) × (objects_of i t hashes tx_objs w ≡ (done (tx_objs ++ map object hashes), w'))
  unfolding objects_of
  objects_of-eq object [] tx_objs w a = (w, ap (λ xs. (done xs, w)) (sym (append_nil tx_objs)))
  objects_of-eq object (h ∷ hs) tx_objs w a =
      let x = object h in
      let (w', q) =
        objects_of-eq object hs (tx_objs ++ x ∷ []) (t.get_transaction_objects (h ∷ []) w).1 a.1 in
      (
        w',
        rw (a.0 w) (q ∙ ap (λ xs. (done xs, w')) (append_assoc tx_objs (x ∷ []) (map object hs))),
      )

  -- If the node finds hashes for a bundle's hash and tells one object for each, and these are, in any order, a trail of
  -- transactions, then ta_get_bundle succeeds with them, put together in their order.
  pub ta_get_bundle_lem :
      (object : Bytes → i.Txn) (hashes : List Bytes) (bundle_hash : Bytes) (tail : i.Txn)
      (more bundle : List i.Txn) (w : W)
      → (t.find_transactions (by_bundle (i.from_trytes bundle_hash)) w).0 ≡ some hashes
      → All (Told i t object) hashes
      → IsTrail tail more
      → Perm (map object hashes) (tail ∷ more)
      → (ta_get_bundle i t bundle_hash bundle w).0 ≡ done (bundle ++ tail ∷ more)
  unfolding ta_get_bundle ta_get_txn_objects_with_txn_hash
  ta_get_bundle_lem object hashes bundle_hash tail more bundle w f told l p =
      let w1 = (t.find_transactions (by_bundle (i.from_trytes bundle_hash)) w).1 in
      let (w', q) = objects_of-eq object hashes [] w1 told in
      rw f (rw q (ap done (get_first_bundle_lem tail more (map object hashes) bundle l p)))
