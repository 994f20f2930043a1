-- ===== src/Core/Attach/Chain.antt =====
-- accelerator/core/pow.c: how ta_pow links the transactions of a bundle.
use tangle_accelerator.Base.{
  ℕ, suc, ◌+◌, ◌-◌, ◌≤◌, Bool, true, false, Option, none, some, Bytes, List, [], ◌∷◌, ◌==◌,
  if◌then◌else◌, length, All, rev_onto, ==_iff, ◌≡◌, refl, sym, ◌∙◌, arith, subst,
}
use tangle_accelerator.Exec.{done-inj, Outcome, done, fail, continue, pure}
use tangle_accelerator.Env.Iota.{Iota, TxnLaws}
use tangle_accelerator.Core.Attach.{
  prepared, nonce_set, mined, pow_txn, pow_loop, pow_back, ta_pow, ta_pow_flex,
}

rev_nil : {A : Type 0} (xs ys : List A) → length xs ≤ 0 → rev_onto xs ys ≡ ys
rev_nil [] ys h = refl
rev_nil (x ∷ xs) ys h = absurd (omega arith)

past_one : (n : ℕ) → (n - 1 == 0) ≡ false → 1 ≤ n
past_one n h = ground arith

module _ {W : Type 0} (i : Iota W) (l : TxnLaws i) where
  -- The trunk that a transaction in front of the list gets, where the list's last one has `trunk`.
  abbrev pub next_trunk : Bytes → List i.Txn → Bytes
  next_trunk trunk [] = trunk
  next_trunk trunk (tx ∷ txs) = i.digest (i.on_trits tx).1

  -- Each transaction's trunk is the hash of the next one, the last one's is `trunk`, and all have `branch`.
  abbrev pub IsChain : Bytes → Bytes → List i.Txn → Type 0
  IsChain trunk branch [] = Unit
  IsChain trunk branch (tx ∷ txs) =
      (l.trunk tx ≡ next_trunk trunk txs) × (l.branch tx ≡ branch) × IsChain trunk branch txs

  abbrev Linked : Bytes → Bytes → i.Txn → Type 0
  Linked trunk branch tx = (l.trunk tx ≡ trunk) × (l.branch tx ≡ branch)

  Linked-prepared :
      (trunk branch : Bytes) (now : ℕ) (tx : i.Txn)
      → Linked trunk branch (prepared i trunk branch now tx)
  Linked-prepared trunk branch now tx = (
    l.trunk-set_lower _ _
        ∙ l.trunk-set_upper _ _
        ∙ l.trunk-set_attachment _ _
        ∙ l.trunk-set_branch _ _
        ∙ l.trunk-set_trunk _ _,
    l.branch-set_lower _ _
        ∙ l.branch-set_upper _ _
        ∙ l.branch-set_attachment _ _
        ∙ l.branch-set_branch _ _,
  )

  Linked-nonce :
      (trunk branch : Bytes) (tx t : i.Txn) (p : Option Bytes × W)
      → Linked trunk branch tx
      → (nonce_set i tx p).0 ≡ done t
      → Linked trunk branch t
  Linked-nonce trunk branch tx t (none, w) h q = cc
  Linked-nonce trunk branch tx t (some n, w) h q =
      subst (Linked trunk branch) (done-inj q)
        (l.trunk-set_nonce n tx ∙ h.0, l.branch-set_nonce n tx ∙ h.1)

  Linked-mined :
      (trunk branch : Bytes) (mwm : ℕ) (tx t : i.Txn) (p : Bool × Bytes) (w : W)
      → Linked trunk branch tx
      → (mined i tx mwm p w).0 ≡ done t
      → Linked trunk branch t
  Linked-mined trunk branch mwm tx t (false, b) w h q = cc
  Linked-mined trunk branch mwm tx t (true, b) w h q =
      Linked-nonce trunk branch tx t (ta_pow_flex i b mwm w) h q

  Linked-pow_txn :
      (trunk branch : Bytes) (mwm : ℕ) (tx t : i.Txn) (w : W)
      → (pow_txn i trunk branch mwm tx w).0 ≡ done t
      → Linked trunk branch t
  unfolding pow_txn
  Linked-pow_txn trunk branch mwm tx t w q =
      Linked-mined trunk branch mwm _ t _ _
        (Linked-prepared trunk branch (i.current_timestamp_ms w).0 tx) q

  abbrev Done : Bytes → Bytes → ℕ → List i.Txn → Type 0
  Done trunk branch n res = IsChain trunk branch res × (length res ≡ n)

  IsChain-pow_loop :
      (trunk0 branch : Bytes) (mwm cur_idx : ℕ) (todo : List i.Txn) (trunk : Bytes)
      (acc res : List i.Txn) (w : W)
      → trunk ≡ next_trunk trunk0 acc
      → IsChain trunk0 branch acc
      → length todo ≤ cur_idx
      → (pow_loop i branch mwm cur_idx todo trunk acc w).0 ≡ done res
      → Done trunk0 branch (length acc + length todo) res
  unfolding pow_loop
  IsChain-pow_loop trunk0 branch mwm cur_idx [] trunk acc res w t c h q =
      subst (Done trunk0 branch (length acc + 0)) (done-inj q) (c, omega arith)
  IsChain-pow_loop trunk0 branch mwm cur_idx (tx ∷ more) trunk acc res w t c h q =
      by_outcome
        (λ tx' v d k r.
          IsChain-pow_loop trunk0 branch mwm (cur_idx - 1) more (i.digest (i.on_trits tx').1)
            (tx' ∷ acc) res v refl d k r)
        (pow_txn i trunk branch mwm tx w).0 (pow_txn i trunk branch mwm tx w).1 refl q
    where
      Later : Type 0
      Later =
          (tx' : i.Txn) (v : W)
          → IsChain trunk0 branch (tx' ∷ acc)
          → length more ≤ cur_idx - 1
          → (pow_loop i branch mwm (cur_idx - 1) more (i.digest (i.on_trits tx').1) (tx' ∷ acc) v).0
            ≡ done res
          → Done trunk0 branch (suc (length acc) + length more) res

      by_flag :
          Later
          → (tx' : i.Txn) (v : W) (b : Bool) → (cur_idx - 1 == 0) ≡ b
          → IsChain trunk0 branch (tx' ∷ acc)
          → ((if b
                then pure (rev_onto more (tx' ∷ acc))
                else pow_loop i branch mwm
                    (cur_idx - 1)
                    more
                    (i.digest (i.on_trits tx').1)
                    (tx' ∷ acc))
              v).0
            ≡ done res
          → Done trunk0 branch (length acc + suc (length more)) res
      by_flag later tx' v true e d r =
          let z = (==_iff (cur_idx - 1) 0).0 e in
          subst (Done trunk0 branch (length acc + suc (length more)))
            (sym (rev_nil more (tx' ∷ acc) (omega arith)) ∙ done-inj r) (d, omega arith)
      by_flag later tx' v false e d r =
          let far = past_one cur_idx e in
          let rest = later tx' v d (omega arith) r in (rest.0, omega (arith, rest.1))

      by_outcome :
          Later
          → (o : Outcome i.Txn) (v : W) → (pow_txn i trunk branch mwm tx w).0 ≡ o
          → (continue o
              (λ tx'.
                if cur_idx - 1 == 0
                then pure (rev_onto more (tx' ∷ acc))
                else pow_loop i branch mwm
                    (cur_idx - 1)
                    more
                    (i.digest (i.on_trits tx').1)
                    (tx' ∷ acc))
              v).0
            ≡ done res
          → Done trunk0 branch (length acc + suc (length more)) res
      by_outcome later (fail s) v e r = cc
      by_outcome later (done tx') v e r =
          let linked = Linked-pow_txn trunk branch mwm tx tx' w e in
          by_flag later tx' v (cur_idx - 1 == 0) refl (linked.0 ∙ t, linked.1, c) r

  All-rev_onto :
      (P : i.Txn → Type 0) (xs ys : List i.Txn) → All P xs → All P ys → All P (rev_onto xs ys)
  All-rev_onto P [] ys h k = k
  All-rev_onto P (x ∷ xs) ys h k = All-rev_onto P xs (x ∷ ys) h.1 (h.0, k)

  length-rev_onto : (xs ys : List i.Txn) → length (rev_onto xs ys) ≡ length xs + length ys
  length-rev_onto [] ys = omega arith
  length-rev_onto (x ∷ xs) ys = omega (arith, length-rev_onto xs (x ∷ ys))

  Done-pow_back :
      (trunk branch : Bytes) (mwm n : ℕ) (todo res : List i.Txn) (w : W)
      → All (λ tx. n ≤ i.last_index tx + 1) todo
      → length todo ≡ n
      → (pow_back i trunk branch mwm todo w).0 ≡ done res
      → Done trunk branch n res
  Done-pow_back trunk branch mwm n [] res w a h q = cc
  Done-pow_back trunk branch mwm n (tx ∷ more) res w a h q =
      let all =
        IsChain-pow_loop trunk branch mwm (i.last_index tx + 1) (tx ∷ more) trunk [] res w refl tt
          (omega (arith, a.0)) q in
      (all.0, omega (arith, all.1))

  -- If ta_pow succeeds on a bundle whose transactions have a last index that reaches its length, then the bundle
  -- that results has as many transactions; each one's trunk is the digest of the one behind it, the last one's is
  -- the given trunk, and every branch is the given one.
  pub ta_pow-IsChain :
      (bundle : List i.Txn) (trunk branch : Bytes) (mwm : ℕ) (res : List i.Txn) (w : W)
      → All (λ tx. length bundle ≤ i.last_index tx + 1) bundle
      → (ta_pow i bundle trunk branch mwm w).0 ≡ done res
      → IsChain trunk branch res × (length res ≡ length bundle)
  unfolding ta_pow
  ta_pow-IsChain bundle trunk branch mwm res w a q =
      Done-pow_back trunk branch mwm (length bundle) (rev_onto bundle []) res w
        (All-rev_onto (λ tx. length bundle ≤ i.last_index tx + 1) bundle [] a tt)
        (omega (arith, length-rev_onto bundle [])) q
