-- ===== src/Endpoint/Cipher/Blocks.antt =====
-- endpoint/cipher.c: the block loops undo each other, and what their blocks hold.
use tangle_accelerator.Base.{
  ℕ, zero, suc, ◌+◌, ◌-◌, ◌*◌, ◌≤◌, ◌<◌, false, Bool-cases, inl, inr, Option, none, some, Bytes, [],
  ◌∷◌, ◌++◌, length, take, drop, replicate, length-append, length-take, length-drop,
  length-replicate, append_nil, append_assoc, take_front, drop_front, ltb, ltb→lt, ◌≡◌, refl, sym,
  ap, subst, ◌∙◌, arith,
}
use Prim.Native.Nat.add
use tangle_accelerator.Exec.{done-inj, Outcome, done, fail}
use tangle_accelerator.Endpoint.Cipher.{
  Mbedtls, AesLaws, Decrypted, block_at, encrypt_loop, decrypt_loop, encrypted, decrypted, before,
  before_both,
}

-- The blocks of a text from `i` on.
abbrev pub padded : Bytes → ℕ → ℕ → ℕ → Bytes
padded plain len zero i = []
padded plain len (suc rounds) i = block_at plain len i ++ padded plain len rounds (i + 16)

pub block_at-length : (s : Bytes) (len i : ℕ) → length (block_at s len i) ≡ 16
unfolding block_at
block_at-length s len i = elim (Bool-cases (ltb 16 (len - i))) [
  | inl p ↦ rw p (filled 16 (omega arith))
  | inr p ↦ rw p (filled (len - i) (ground arith))
]
  where
    filled :
        (n : ℕ)
        → n ≤ 16
        → length (take n (drop i s) ++ replicate (16 - length (take n (drop i s))) 0) ≡ 16
    filled n h =
        let front = take n (drop i s) in
        omega (
          arith,
          length-append front (replicate (16 - length front) 0),
          length-replicate {A = ℕ} (16 - length front) 0,
          length-take n (drop i s),
        )

-- A whole block inside a buffer.
block_at-append :
    (pre block rest : Bytes) (len : ℕ)
    → length block ≡ 16
    → length pre + 16 ≤ len
    → block_at (pre ++ (block ++ rest)) len (length pre) ≡ block
unfolding block_at
block_at-append pre block rest len hb hl = elim (Bool-cases (ltb 16 (len - length pre))) [
  | inl p ↦ rw p (whole 16 refl)
  | inr p ↦ rw p (whole (len - length pre) (ground arith))
]
  where
    whole :
        (n : ℕ)
        → n ≡ 16
        → take n (drop (length pre) (pre ++ (block ++ rest)))
            ++ replicate (16 - length (take n (drop (length pre) (pre ++ (block ++ rest))))) 0
          ≡ block
    whole n h =
        let found : take n (drop (length pre) (pre ++ (block ++ rest))) ≡ block =
          ap (take n) (drop_front (length pre) pre (block ++ rest) refl)
          ∙ take_front n block rest (hb ∙ sym h) in
        rw found (rw hb (append_nil block))

module _ (m : Mbedtls) (l : AesLaws m) (secret : Bytes) (bits : ℕ) (ke : m.EncKey) (kd : m.DecKey)
    (se : m.setkey_enc secret bits ≡ some ke) (sd : m.setkey_dec secret bits ≡ some kd)
    (plain : Bytes) (len : ℕ) where
  abbrev pub Undone : ℕ → ℕ → Bytes → Bytes → Type 0
  Undone rounds i iv out =
      (length out ≡ rounds * 16)
      × ((pre rest : Bytes)
          → (next : Bytes) × (decrypt_loop m kd (pre ++ (out ++ rest)) (length pre + rounds * 16)
                rounds (length pre) iv
              ≡ done (record { mac = out; out = padded plain len rounds i; next_iv = next })))

  step :
      (rounds i : ℕ) (iv block iv' out : Bytes)
      → m.encrypt_cbc ke iv (block_at plain len i) ≡ some (block, iv')
      → Undone rounds (i + 16) iv' out
      → Undone (suc rounds) i iv (block ++ out)
  unfolding decrypt_loop
  step rounds i iv block iv' out e u = (omega (arith, length-append block out, u.0, size), back)
    where
      size : length block ≡ 16
      size = l.encrypt_length iv (block_at plain len i) block iv' ke (block_at-length plain len i) e

      back :
          (pre rest : Bytes)
          → (next : Bytes) × (decrypt_loop m kd
                (pre ++ ((block ++ out) ++ rest))
                (length pre + suc rounds * 16)
                (suc rounds)
                (length pre)
                iv
              ≡ done (record {
                mac = block ++ out;
                out = padded plain len (suc rounds) i;
                next_iv = next;
              }))
      back pre rest =
          let buf = pre ++ ((block ++ out) ++ rest) in
          let all = length pre + suc rounds * 16 in
          let (next, later) = u.1 (pre ++ block) rest in
          let joined : length (pre ++ block) ≡ length pre + 16 =
            omega (arith, length-append pre block, size) in
          let inner : buf ≡ pre ++ (block ++ (out ++ rest)) =
            ap (λ t. pre ++ t) (append_assoc block out rest) in
          let total : length (pre ++ block) + rounds * 16 ≡ all = omega (arith, joined) in
          let more : Bytes → Outcome (Decrypted m) =
            λ v. decrypt_loop m kd buf all rounds (length pre + 16) v in
          let found : block_at buf all (length pre) ≡ block =
            ap (λ b. block_at b all (length pre)) inner
            ∙ block_at-append pre block (out ++ rest) all size (omega arith) in
          let plain_block = block_at plain len i in
          let turned : m.decrypt_cbc kd iv block ≡ some (plain_block, iv') =
            l.decrypt_encrypt secret iv plain_block block iv' bits ke kd se sd e in
          let rest_done : more iv'
              ≡ done
                  (record { mac = out; out = padded plain len rounds (i + 16); next_iv = next }) =
            ap (λ b. decrypt_loop m kd b all rounds (length pre + 16) iv')
              (inner ∙ sym (append_assoc pre block (out ++ rest)))
            ∙ ap
                (λ n.
                  decrypt_loop m kd ((pre ++ block) ++ (out ++ rest)) n rounds (length pre + 16)
                    iv')
                (sym total)
            ∙ ap
                (λ n.
                  decrypt_loop m kd ((pre ++ block) ++ (out ++ rest))
                    (length (pre ++ block) + rounds * 16) rounds n iv')
                (sym joined)
            ∙ later in
          (
            next,
            ap (λ b. decrypted m b (m.decrypt_cbc kd iv b) more) found
                ∙ ap (λ q. decrypted m block q more) turned
                ∙ ap (before_both m block plain_block) rest_done,
          )

  -- Deciphering what the loop of aes_encrypt wrote gives the padded text.
  pub decrypt_loop-encrypt_loop :
      (rounds i : ℕ) (iv out : Bytes)
      → encrypt_loop m ke plain len rounds i iv ≡ done out
      → Undone rounds i iv out
  unfolding encrypt_loop decrypt_loop
  decrypt_loop-encrypt_loop zero i iv out h =
      subst (Undone 0 i iv) (done-inj h) (refl, λ pre rest. (iv, refl))
  decrypt_loop-encrypt_loop (suc rounds) i iv out h =
      by_block (λ iv' o q. decrypt_loop-encrypt_loop rounds (i + 16) iv' o q)
        (m.encrypt_cbc ke iv (block_at plain len i)) refl h
    where
      Later : Type 0
      Later =
          (iv' o : Bytes)
          → encrypt_loop m ke plain len rounds (i + 16) iv' ≡ done o
          → Undone rounds (i + 16) iv' o

      by_rest :
          Later
          → (block iv' : Bytes) (o : Outcome Bytes)
          → m.encrypt_cbc ke iv (block_at plain len i) ≡ some (block, iv')
          → encrypt_loop m ke plain len rounds (i + 16) iv' ≡ o
          → before m block o ≡ done out
          → Undone (suc rounds) i iv out
      by_rest later block iv' (fail s) e r q = cc
      by_rest later block iv' (done o) e r q =
          subst (Undone (suc rounds) i iv) (done-inj q)
            (step rounds i iv block iv' o e (later iv' o r))

      by_block :
          Later
          → (p : Option (Bytes × Bytes)) → m.encrypt_cbc ke iv (block_at plain len i) ≡ p
          → encrypted m p (λ iv'. encrypt_loop m ke plain len rounds (i + 16) iv') ≡ done out
          → Undone (suc rounds) i iv out
      by_block later none e q = cc
      by_block later (some (block, iv')) e q =
          by_rest later block iv' (encrypt_loop m ke plain len rounds (i + 16) iv') e refl q

take_nil : (j : ℕ) → take {A = ℕ} j [] ≡ []
take_nil zero = refl
take_nil (suc j) = refl

suc_sum : (a b : ℕ) → suc a + b ≡ suc (a + b)
suc_sum a b = omega arith

take-plus : (n k : ℕ) (s : Bytes) → take (n + k) s ≡ take n s ++ take k (drop n s)
take-plus zero k s = rw (Prim.Native.Nat.add.zero k) refl
take-plus (suc n) k [] = take_nil (suc n + k) ∙ sym (take_nil k)
take-plus (suc n) k (c ∷ s) = rw (suc_sum n k) (ap (λ t. c ∷ t) (take-plus n k s))

drop_nil : (j : ℕ) → drop {A = ℕ} j [] ≡ []
drop_nil zero = refl
drop_nil (suc j) = refl

drop-plus : (k n : ℕ) (s : Bytes) → drop n (drop k s) ≡ drop (k + n) s
drop-plus zero n s = rw (Prim.Native.Nat.add.zero n) refl
drop-plus (suc k) n [] = drop_nil n ∙ sym (drop_nil (suc k + n))
drop-plus (suc k) n (c ∷ s) = rw (suc_sum k n) (drop-plus k n s)

module _ (plain : Bytes) (len : ℕ) (hp : len ≤ length plain) where
  abbrev behind : ℕ → Bytes
  behind i = drop i plain

  taken : (n i : ℕ) → n ≤ len - i → length (take n (behind i)) ≡ n
  taken n i h = omega (arith, length-take n (behind i), length-drop i plain)

  full_block : (i : ℕ) → 16 ≤ len - i → block_at plain len i ≡ take 16 (behind i)
  unfolding block_at
  full_block i h = elim (Bool-cases (ltb 16 (len - i))) [
    | inl p ↦ rw p (rw (taken 16 i h) (append_nil (take 16 (behind i))))
    | inr p ↦
        let edge : len - i ≡ 16 = ground arith in
        rw p (rw edge (rw (taken 16 i h) (append_nil (take 16 (behind i)))))
  ]

  last_block :
      (i : ℕ)
      → len - i < 16
      → block_at plain len i ≡ take (len - i) (behind i) ++ replicate (16 - (len - i)) 0
  unfolding block_at
  last_block i h =
      let short : ltb 16 (len - i) ≡ false = ground arith in
      rw short (rw (taken (len - i) i (omega arith)) refl)

  -- The blocks from `i` on hold the rest of the text and zeros behind it.
  padded-rest :
      (rounds i : ℕ)
      → i ≤ len
      → len - i ≤ rounds * 16
      → rounds * 16 ≤ len - i + 16
      → padded plain len rounds i
        ≡ take (len - i) (behind i) ++ replicate (rounds * 16 - (len - i)) 0
  padded-rest zero i hi lo up = let none : len - i ≡ 0 = omega arith in rw none refl
  padded-rest (suc rounds) i hi lo up = elim (Bool-cases (ltb (len - i) 16)) [
    | inl p ↦
        let short = ltb→lt (len - i) 16 p in
        let single : rounds ≡ 0 = omega arith in rw (last_block i short) (rw single (append_nil _))
    | inr p ↦
        let enough : 16 ≤ len - i = ground arith in
        let rest = len - (i + 16) in
        let sum : len - i ≡ 16 + rest = omega arith in
        let zeros : suc rounds * 16 - (len - i) ≡ rounds * 16 - rest = omega arith in
        ap (λ b. b ++ padded plain len rounds (i + 16)) (full_block i enough)
        ∙ ap (λ t. take 16 (behind i) ++ t)
            (padded-rest rounds (i + 16) (omega arith) (omega arith) (omega arith))
        ∙ sym (
            append_assoc (take 16 (behind i)) (take rest (behind (i + 16)))
              (replicate (rounds * 16 - rest) 0))
        ∙ ap (λ t. (take 16 (behind i) ++ t) ++ replicate (rounds * 16 - rest) 0)
            (ap (take rest) (sym (drop-plus i 16 plain)))
        ∙ ap (λ t. t ++ replicate (rounds * 16 - rest) 0) (sym (take-plus 16 rest (behind i)))
        ∙ ap (λ n. take n (behind i) ++ replicate (rounds * 16 - rest) 0) (sym sum)
        ∙ ap (λ n. take (len - i) (behind i) ++ replicate n 0) (sym zeros)
  ]

  -- So all the blocks hold the text and zeros up to the padded length.
  pub padded-lem :
      (rounds : ℕ)
      → len ≤ rounds * 16
      → rounds * 16 ≤ len + 16
      → padded plain len rounds 0 ≡ take len plain ++ replicate (rounds * 16 - len) 0
  padded-lem rounds lo up =
      padded-rest rounds 0 (omega arith) (omega arith) (omega arith)
      ∙ ap (λ n. take n plain ++ replicate (rounds * 16 - n) 0) (omega arith)
