-- ===== src/Utils/Djb2.antt =====
-- utils/hash_algo_djb2.h: the hash by which proxy API commands are told apart.
use tangle_accelerator.Base.{
  ℕ, zero, suc, ◌+◌, ◌-◌, ◌*◌, ◌%◌, ◌^◌, Bytes, [], ◌∷◌, ltb, if◌then◌else◌, ◌≡◌, refl, arith,
  NulFree,
}

abbrev u32 : ℕ → ℕ
u32 n = n % 2 ^ 32

-- `c = *str++` goes through a signed char: a byte from 128 on is negative, here modulo 2^32.
abbrev pub sign_extend : ℕ → ℕ
sign_extend c = if ltb c 128 then c else c + (2 ^ 32 - 256)

-- `while ((c = *str++)) hash = ((hash << 5) + hash) + c;`
unfoldable pub djb2_loop : ℕ → Bytes → ℕ
djb2_loop hash [] = hash
djb2_loop hash (zero ∷ str) = hash
djb2_loop hash (suc c ∷ str) =
    djb2_loop (u32 (u32 (u32 (hash * 32) + hash) + sign_extend (suc c))) str

unfoldable pub hash_algo_djb2 : Bytes → ℕ
unfolding djb2_loop
hash_algo_djb2 str = djb2_loop 5381 str

-- The hash as a polynomial in 33 over the unbounded numbers.
abbrev pub horner : ℕ → Bytes → ℕ
horner h [] = h
horner h (c ∷ str) = horner (h * 33 + sign_extend c) str

step-mod : (h c : ℕ) → u32 (u32 (u32 (u32 h * 32) + u32 h) + c) ≡ u32 (h * 33 + c)
step-mod h c = omega arith

loop-horner : (h : ℕ) (str : Bytes) → NulFree str → djb2_loop (u32 h) str ≡ u32 (horner h str)
unfolding djb2_loop
loop-horner h [] n = refl
loop-horner h (zero ∷ str) n = absurd (omega arith)
loop-horner h (suc c ∷ str) n =
    rw (step-mod h (sign_extend (suc c))) (loop-horner (h * 33 + sign_extend (suc c)) str n.1)

-- The hash of a string with no NUL is the polynomial 5381 * 33^n + c_1 * 33^(n-1) + ... + c_n in its
-- n bytes, read as signed chars, modulo 2^32: no wrap-around on the way changes the result.
pub hash_algo_djb2-eq-horner :
    (str : Bytes) → NulFree str → hash_algo_djb2 str ≡ u32 (horner 5381 str)
unfolding hash_algo_djb2
hash_algo_djb2-eq-horner str n = loop-horner 5381 str n
