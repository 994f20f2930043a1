-- ===== src/Exec.antt =====
-- Functions that return a status_t, write their results through pointers and act on the world.
use mathlib.Core.Path.{◌≡◌}
use tangle_accelerator.Errors.{Status}

-- `done a` is SC_OK with the results `a`; `fail s` is the error `s`, after which no caller reads the
-- results.
pub data Outcome {ℓ} (A : Type ℓ) : Type ℓ where
  done : A → Outcome A
  fail : Status → Outcome A

pub done-inj : {A : Type 0} {a b : A} → done a ≡ done b → a ≡ b
done-inj q = cc

abbrev pub Exec {ℓ} : Type ℓ → Type ℓ → Type ℓ
Exec W A = W → Outcome A × W

-- `if (ret) { ...; goto done; }` behind a call.
infixl 5 ◌>>=◌ ◌>>◌
abbrev pub continue {ℓ} : {W A B : Type ℓ} → Outcome A → (A → Exec W B) → Exec W B
continue (done a) f w = f a w
continue (fail s) f w = (fail s, w)

abbrev pub ◌>>=◌ {ℓ} : {W A B : Type ℓ} → Exec W A → (A → Exec W B) → Exec W B
◌>>=◌ m f w = let (r, w') = m w in continue r f w'

abbrev pub ◌>>◌ {ℓ} : {W A B : Type ℓ} → Exec W A → Exec W B → Exec W B
m >> n = m >>= λ _. n

abbrev pub pure {ℓ} : {W A : Type ℓ} → A → Exec W A
pure a w = (done a, w)

abbrev pub raise {ℓ} : {W A : Type ℓ} → Status → Exec W A
raise s w = (fail s, w)
