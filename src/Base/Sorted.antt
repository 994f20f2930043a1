-- ===== src/Base/Sorted.antt =====
-- Lists sorted by a key.
use Prim.Native.Nat.{ℕ, ◌≤◌, ◌<◌}
use mathlib.Core.Path.{◌≡◌, refl, sym, ap, subst, ◌∙◌}
use mathlib.Core.List.{List, [], ◌∷◌, Mem, Memᴰ, Perm, perm-cons, mem-cons_self, not-mem-nil}
use mathlib.Core.List.Perm
use mathlib.Core.Logic.{∥∥₁_elim}
use native.Mathlib.Omega.{arith}
use tangle_accelerator.Base.Lists.{All}

module _ {A : Type 0} where
  mem-All : (P : A → Type 0) (x : A) (xs : List A) → All P xs → Memᴰ x xs → P x
  mem-All P x [] a d = elim d [ ]
  mem-All P x (y ∷ ys) a (Memᴰ.head e) = subst P (sym e) a.0
  mem-All P x (y ∷ ys) a (Memᴰ.tail d) = mem-All P x ys a.1 d

module _ {A : Type 0} (key : A → ℕ) where
  -- The keys do not decrease.
  abbrev pub IsSorted : List A → Type 0
  IsSorted [] = Unit
  IsSorted (x ∷ xs) = All (λ y. key x ≤ key y) xs × IsSorted xs

  -- The keys grow.
  abbrev pub IsGrowing : List A → Type 0
  IsGrowing [] = Unit
  IsGrowing (x ∷ xs) = All (λ y. key x < key y) xs × IsGrowing xs

  module _ (set : IsSet A) where
    heads :
        (x y : A) (xs ys : List A)
        → All (λ z. key x ≤ key z) xs
        → All (λ z. key y < key z) ys
        → Mem x (y ∷ ys)
        → Mem y (x ∷ xs)
        → x ≡ y
    heads x y xs ys low above m n =
        ∥∥₁_elim m (set x y) (λ (d : Memᴰ x (y ∷ ys)). ∥∥₁_elim n (set x y) (by_place d))
      where
        by_place : Memᴰ x (y ∷ ys) → Memᴰ y (x ∷ xs) → x ≡ y
        by_place (Memᴰ.head p) _ = p
        by_place (Memᴰ.tail d) (Memᴰ.head p) = sym p
        by_place (Memᴰ.tail d) (Memᴰ.tail f) = absurd (
            omega (
              arith,
              mem-All (λ z. key y < key z) x ys above d,
              mem-All (λ z. key x ≤ key z) y xs low f,
            ))

    -- Where the keys grow, sorting undoes every permutation.
    pub sorted-eq : (s b : List A) → Perm s b → IsSorted s → IsGrowing b → s ≡ b
    sorted-eq [] [] p hs hb = refl
    sorted-eq [] (y ∷ ys) p hs hb = absurd (not-mem-nil ((Perm.mem_iff p).1 mem-cons_self))
    sorted-eq (x ∷ xs) [] p hs hb = absurd (not-mem-nil ((Perm.mem_iff p).0 mem-cons_self))
    sorted-eq (x ∷ xs) (y ∷ ys) p hs hb =
        let e : x ≡ y =
          heads x y xs ys hs.0 hb.0 ((Perm.mem_iff p).0 mem-cons_self)
            ((Perm.mem_iff p).1 mem-cons_self) in
        ap (λ z. z ∷ xs) e
        ∙ ap (λ zs. y ∷ zs)
            (sorted-eq xs ys ((perm-cons y).0 (subst (λ z. Perm (z ∷ xs) (y ∷ ys)) e p)) hs.1 hb.1)
