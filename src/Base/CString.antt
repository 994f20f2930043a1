-- ===== src/Base/CString.antt =====
-- C strings and byte buffers: strlen, strncpy, memcmp of <string.h>, over lists of byte values.
use Prim.Native.Nat.{ℕ, zero, suc, ◌<◌}
use mathlib.Core.Path.{◌≡◌, refl, ap, sym, subst, ◌∙◌}
use mathlib.Core.Logic.{◌↔◌, ◌≢◌, inl, inr}
use mathlib.Core.Bool.{Bool, true, false, ◌&&◌, false≢true}
use mathlib.Core.List.{List, [], ◌∷◌, ◌++◌}
use native.Mathlib.Omega.{arith}
use Prim.Native.String.{String}
use Prim.Native.Char.{code}
use tangle_accelerator.Base.Tests.{◌==◌, Bool-cases}
use tangle_accelerator.Base.Lists.{length, take, replicate, All}

abbrev pub Bytes : Type 0
Bytes = List ℕ

-- The bytes of an ASCII literal.
abbrev pub codes : String → Bytes
codes String.[] = []
codes (String.◌∷◌ c s) = code c ∷ codes s

-- What a `char *` shows as a C string: the bytes before the first NUL.
abbrev pub c_str : Bytes → Bytes
c_str [] = []
c_str (zero ∷ s) = []
c_str (suc c ∷ s) = suc c ∷ c_str s

-- The `n` bytes that `strncpy(dst, src, n)` writes: it stops at a NUL and fills up with NULs.
abbrev pub strncpy : ℕ → Bytes → Bytes
strncpy zero s = []
strncpy (suc n) [] = 0 ∷ strncpy n []
strncpy (suc n) (zero ∷ s) = 0 ∷ strncpy n []
strncpy (suc n) (suc c ∷ s) = suc c ∷ strncpy n s

abbrev pub bytes_eq : Bytes → Bytes → Bool
bytes_eq [] [] = true
bytes_eq [] (y ∷ ys) = false
bytes_eq (x ∷ xs) [] = false
bytes_eq (x ∷ xs) (y ∷ ys) = (x == y) && bytes_eq xs ys

-- `!memcmp(a, b, n)`
abbrev pub mem_eq : ℕ → Bytes → Bytes → Bool
mem_eq n a b = bytes_eq (take n a) (take n b)

abbrev pub NulFree : Bytes → Type 0
NulFree = All (λ c. 0 < c)

pub c_str_lem : (s : Bytes) → NulFree s → c_str s ≡ s
c_str_lem [] h = refl
c_str_lem (zero ∷ s) h = absurd (omega arith)
c_str_lem (suc c ∷ s) h = ap (λ t. suc c ∷ t) (c_str_lem s h.1)

pub strncpy-length : (s : Bytes) → NulFree s → strncpy (length s) s ≡ s
strncpy-length [] h = refl
strncpy-length (zero ∷ s) h = absurd (omega arith)
strncpy-length (suc c ∷ s) h = ap (λ t. suc c ∷ t) (strncpy-length s h.1)

pub bytes_eq_iff : (a b : Bytes) → (bytes_eq a b ≡ true) ↔ (a ≡ b)
bytes_eq_iff [] [] = (λ _. refl, λ _. refl)
bytes_eq_iff [] (y ∷ ys) = (λ h. cc, λ h. cc)
bytes_eq_iff (x ∷ xs) [] = (λ h. cc, λ h. cc)
bytes_eq_iff (x ∷ xs) (y ∷ ys) =
    (λ h. ground (arith, (bytes_eq_iff xs ys).0), λ h. ground (arith, (bytes_eq_iff xs ys).1))

pub bytes_eq_refl : (a : Bytes) → bytes_eq a a ≡ true
bytes_eq_refl a = (bytes_eq_iff a a).1 refl

pub c_str-append : (s r : Bytes) → NulFree s → c_str (s ++ 0 ∷ r) ≡ s
c_str-append [] r h = refl
c_str-append (zero ∷ s) r h = absurd (omega arith)
c_str-append (suc c ∷ s) r h = ap (λ t. suc c ∷ t) (c_str-append s r h.1)

pub NulFree-append : (s t : Bytes) → NulFree s → NulFree t → NulFree (s ++ t)
NulFree-append [] t h k = k
NulFree-append (c ∷ s) t h k = (h.0, NulFree-append s t h.1 k)

pub NulFree-replicate : (n c : ℕ) → 0 < c → NulFree (replicate n c)
NulFree-replicate zero c h = tt
NulFree-replicate (suc n) c h = (h, NulFree-replicate n c h)

-- Two functions of keys are equal everywhere if they are at one key and at all others.
pub by_key {ℓ} :
    {A : Type ℓ} (k : Bytes) (f g : Bytes → A)
    → f k ≡ g k
    → ((j : Bytes) → k ≢ j → f j ≡ g j)
    → (j : Bytes) → f j ≡ g j
by_key k f g at rest j = elim (Bool-cases (bytes_eq k j)) [
  | inl h ↦ subst (λ i. f i ≡ g i) ((bytes_eq_iff k j).0 h) at
  | inr h ↦ rest j (λ p. false≢true (sym h ∙ (bytes_eq_iff k j).1 p))
]
