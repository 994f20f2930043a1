-- ===== src/Env/Memory/Sort.antt =====
-- Insertion sort, which meets what theorems rely on of qsort.
use tangle_accelerator.Base.{
  ℕ, ◌≤◌, Bool, true, false, List, [], ◌∷◌, All, IsSorted, ltb, if◌then◌else◌, Bool-cases, inl, inr,
  ltb→lt, ◌≡◌, refl, sym, ◌∙◌, arith,
}
use mathlib.Core.List.{Permᴰ}
use mathlib.Core.List.Permᴰ
use tangle_accelerator.Env.Tangle.{Sign, positive, compared}

module _ {A : Type 0} (cmp : A → A → Sign) where
  abbrev pub is_above : Sign → Bool
  is_above positive = true
  is_above _ = false

  -- Insertion sort stands for qsort.
  abbrev pub put : A → List A → List A
  put x [] = x ∷ []
  put x (y ∷ ys) = let rest = put x ys in if is_above (cmp x y) then y ∷ rest else x ∷ y ∷ ys

  abbrev pub sort : List A → List A
  sort [] = []
  sort (x ∷ xs) = put x (sort xs)

  perm-put : (x : A) (ys : List A) → Permᴰ (put x ys) (x ∷ ys)
  perm-put x [] = Permᴰ.refl (x ∷ [])
  perm-put x (y ∷ ys) = elim (Bool-cases (is_above (cmp x y))) [
    | inl h ↦ rw h (Permᴰ.trans (Permᴰ.cons refl (perm-put x ys)) (Permᴰ.swap refl refl))
    | inr h ↦ rw h (Permᴰ.refl (x ∷ y ∷ ys))
  ]

  pub perm-sort : (xs : List A) → Permᴰ (sort xs) xs
  perm-sort [] = Permᴰ.nil
  perm-sort (x ∷ xs) = Permᴰ.trans (perm-put x (sort xs)) (Permᴰ.cons refl (perm-sort xs))

  module _ (key : A → ℕ) (by_key : (x y : A) → cmp x y ≡ compared (key x) (key y)) where
    above_iff : (x y : A) → is_above (cmp x y) ≡ ltb (key y) (key x)
    above_iff x y = rw (by_key x y) (ground arith)

    below : (x y : A) → is_above (cmp x y) ≡ true → key y ≤ key x
    below x y h = omega (arith, ltb→lt (key y) (key x) (sym (above_iff x y) ∙ h))

    not_below : (x y : A) → is_above (cmp x y) ≡ false → key x ≤ key y
    not_below x y h = at_most (sym (above_iff x y) ∙ h)
      where
        at_most : ltb (key y) (key x) ≡ false → key x ≤ key y
        at_most g = ground arith

    All-put : (P : A → Type 0) (x : A) (ys : List A) → P x → All P ys → All P (put x ys)
    All-put P x [] p a = (p, tt)
    All-put P x (y ∷ ys) p a = elim (Bool-cases (is_above (cmp x y))) [
      | inl h ↦ rw h (a.0, All-put P x ys p a.1)
      | inr h ↦ rw h (p, a)
    ]

    All-above : (m n : ℕ) (ys : List A) → m ≤ n → All (λ z. n ≤ key z) ys → All (λ z. m ≤ key z) ys
    All-above m n [] h a = tt
    All-above m n (y ∷ ys) h a = (omega (arith, a.0), All-above m n ys h a.1)

    IsSorted-put : (x : A) (ys : List A) → IsSorted key ys → IsSorted key (put x ys)
    IsSorted-put x [] s = (tt, tt)
    IsSorted-put x (y ∷ ys) s = elim (Bool-cases (is_above (cmp x y))) [
      | inl h ↦ rw h (All-put (λ z. key y ≤ key z) x ys (below x y h) s.0, IsSorted-put x ys s.1)
      | inr h ↦ rw h ((not_below x y h, All-above (key x) (key y) ys (not_below x y h) s.0), s)
    ]

    pub IsSorted-sort : (xs : List A) → IsSorted key (sort xs)
    IsSorted-sort [] = tt
    IsSorted-sort (x ∷ xs) = IsSorted-put x (sort xs) (IsSorted-sort xs)
