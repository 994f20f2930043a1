-- ===== src/Endpoint/Cipher.antt =====
-- endpoint/cipher.c: AES in CBC mode over 16-byte blocks, with an HMAC over the ciphertext. Mbed TLS is a
-- record of its operations.
pub mod Blocks
pub mod RoundTrip
use tangle_accelerator.Base.{
  ℕ, zero, suc, ◌+◌, ◌-◌, ◌*◌, ◌/◌, ◌%◌, Bool, true, false, Option, none, some, Bytes, [], ◌∷◌,
  ◌++◌, length, take, drop, replicate, ltb, mem_eq, if◌then◌else◌, codes, c_str, ◌≡◌,
}
use Prim.Native.Nat.{bit_xor}
use tangle_accelerator.Errors.{Status, utils_cipher_error}
use tangle_accelerator.Exec.{Outcome, done, fail}
use tangle_accelerator.Endpoint.Decimal.{printed}
use tangle_accelerator.Endpoint.Text.{CipherCtx, copied, ta_aes_hmac_size}

abbrev pub aes_block_size : ℕ
aes_block_size = 16

abbrev pub imsi_len : ℕ
imsi_len = 16

abbrev pub max_timestamp_len : ℕ
max_timestamp_len = 20

abbrev pub ta_aes_key_bits : ℕ
ta_aes_key_bits = 256

-- A flag is `true` for a nonzero int, that is for failure. The digest of all that mbedtls_md_update got is
-- `sha256`; `hmac_starts` also gives the state that is left where it fails. `crypt` works on one block and
-- gives the block and the next IV.
pub record Mbedtls : Type 1 where
  pub EncKey : Type 0
  pub DecKey : Type 0
  pub Hmac : Type 0
  pub md_setup : Bool
  pub setkey_enc : Bytes → ℕ → Option EncKey
  pub setkey_dec : Bytes → ℕ → Option DecKey
  pub encrypt_cbc : EncKey → Bytes → Bytes → Option (Bytes × Bytes)
  pub decrypt_cbc : DecKey → Bytes → Bytes → Option (Bytes × Bytes)
  pub sha256 : Bytes → Bytes
  pub hmac_starts : Bytes → Bool × Hmac
  pub hmac_finish : Hmac → Bytes → Bytes

-- The members that check_cipher_ctx wants, none of them NULL.
pub record Checked : Type 0 where
  pub plain : Bytes
  pub cipher : Bytes
  pub id : Bytes
  pub secret : Bytes

abbrev pub checked : Option Bytes → Option Bytes → Option Bytes → Option Bytes → Option Checked
checked (some p) (some c) (some d) (some k) =
    some (record { plain = p; cipher = c; id = d; secret = k })
checked _ _ _ _ = none

abbrev pub check_cipher_ctx : CipherCtx → Option Checked
check_cipher_ctx ctx = checked ctx.plaintext ctx.ciphertext ctx.device_id ctx.key

-- The array `nonce`, without its last byte: `snprintf` cuts the text off there, and zeros follow it.
abbrev pub nonce : Bytes → ℕ → Bytes
nonce id timestamp =
    take (imsi_len + max_timestamp_len) (
      c_str id ++ (codes "-" ++ printed 20 timestamp) ++ replicate (imsi_len + max_timestamp_len) 0)

-- memset, memcpy of at most a block at `i` of `len` bytes
unfoldable pub block_at : Bytes → ℕ → ℕ → Bytes
block_at bytes len i =
    let n = if ltb aes_block_size (len - i) then aes_block_size else len - i in
    let buf = take n (drop i bytes) in buf ++ replicate (aes_block_size - length buf) 0

abbrev pub xor_all : Bytes → Bytes → Bytes
xor_all [] ys = []
xor_all (x ∷ xs) [] = []
xor_all (x ∷ xs) (y ∷ ys) = bit_xor x y ∷ xor_all xs ys

module _ (m : Mbedtls) where
  abbrev pub base_digest : Checked → ℕ → Bytes
  base_digest c timestamp = m.sha256 (
      replicate (aes_block_size * 2) 0
      ++ nonce c.id timestamp
      ++ take (ta_aes_key_bits / 8) c.secret)

  abbrev pub before : Bytes → Outcome Bytes → Outcome Bytes
  before block (fail s) = fail s
  before block (done out) = done (block ++ out)

  abbrev pub encrypted : Option (Bytes × Bytes) → (Bytes → Outcome Bytes) → Outcome Bytes
  encrypted none rest = fail utils_cipher_error
  encrypted (some (block, iv)) rest = before block (rest iv)

  -- The loop of aes_encrypt from `i` on: what it writes to the ciphertext and gives to the HMAC.
  unfoldable pub encrypt_loop : m.EncKey → Bytes → ℕ → ℕ → ℕ → Bytes → Outcome Bytes
  unfolding block_at
  encrypt_loop key plain len zero i iv = done []
  encrypt_loop key plain len (suc rounds) i iv =
      encrypted (m.encrypt_cbc key iv (block_at plain len i))
        (λ iv'. encrypt_loop key plain len rounds (i + aes_block_size) iv')

  -- What the loop of aes_decrypt gives to the HMAC, writes to the plaintext, and leaves in `iv`.
  pub record Decrypted : Type 0 where
    pub mac : Bytes
    pub out : Bytes
    pub next_iv : Bytes

  abbrev pub before_both : Bytes → Bytes → Outcome Decrypted → Outcome Decrypted
  before_both buf block (fail s) = fail s
  before_both buf block (done d) = done (record d { mac = buf ++ d.mac; out = block ++ d.out })

  abbrev pub decrypted :
      Bytes → Option (Bytes × Bytes) → (Bytes → Outcome Decrypted) → Outcome Decrypted
  decrypted buf none rest = fail utils_cipher_error
  decrypted buf (some (block, iv)) rest = before_both buf block (rest iv)

  unfoldable pub decrypt_loop : m.DecKey → Bytes → ℕ → ℕ → ℕ → Bytes → Outcome Decrypted
  unfolding block_at
  decrypt_loop key cipher len zero i iv = done (record { mac = []; out = []; next_iv = iv })
  decrypt_loop key cipher len (suc rounds) i iv =
      decrypted (block_at cipher len i) (m.decrypt_cbc key iv (block_at cipher len i))
        (λ iv'. decrypt_loop key cipher len rounds (i + aes_block_size) iv')

  abbrev pub new_len : ℕ → ℕ
  new_len plaintext_len = plaintext_len + (aes_block_size - plaintext_len % 16)

  abbrev pub folded : Bytes → Bytes
  folded digest =
      xor_all (take aes_block_size digest) (take aes_block_size (drop aes_block_size digest))

  abbrev pub sealed : CipherCtx → Checked → Bytes → m.Hmac → Outcome Bytes → Outcome CipherCtx
  sealed ctx c iv h (fail s) = fail s
  sealed ctx c iv h (done out) = done (record ctx {
    ciphertext = some (copied out c.cipher);
    ciphertext_len = new_len ctx.plaintext_len;
    iv = iv;
    hmac = m.hmac_finish h out;
  })

  abbrev pub encrypt_mac :
      CipherCtx → Checked → Bytes → m.EncKey → Bool × m.Hmac → Outcome CipherCtx
  encrypt_mac ctx c digest key (true, h) = fail utils_cipher_error
  encrypt_mac ctx c digest key (false, h) =
      let len = new_len ctx.plaintext_len in
      sealed ctx c (folded digest) h
        (encrypt_loop key c.plain ctx.plaintext_len (len / aes_block_size) 0 (folded digest))

  abbrev pub encrypt_keyed : CipherCtx → Checked → Bytes → Option m.EncKey → Outcome CipherCtx
  encrypt_keyed ctx c digest none = fail utils_cipher_error
  encrypt_keyed ctx c digest (some key) =
      encrypt_mac ctx c digest key (m.hmac_starts (take 32 digest))

  abbrev pub encrypt_checked : CipherCtx → Option Checked → Outcome CipherCtx
  encrypt_checked ctx none = fail utils_cipher_error
  encrypt_checked ctx (some c) =
      -- where mbedtls_md_setup fails, `status` is still 0
      if m.md_setup
      then done ctx
      else if ltb ctx.ciphertext_len (new_len ctx.plaintext_len)
      then fail utils_cipher_error
      else encrypt_keyed ctx c (base_digest c ctx.timestamp) (m.setkey_enc c.secret ta_aes_key_bits)

  unfoldable pub aes_encrypt : CipherCtx → Outcome CipherCtx
  unfolding encrypt_loop
  aes_encrypt ctx = encrypt_checked ctx (check_cipher_ctx ctx)

  -- The plaintext as it was, with a pointer's size of zeros in front, is written over.
  abbrev pub opened : CipherCtx → Checked → m.Hmac → Outcome Decrypted → Outcome CipherCtx
  opened ctx c h (fail s) = fail s
  opened ctx c h (done d) =
      if mem_eq ta_aes_hmac_size (m.hmac_finish h d.mac) ctx.hmac
      then done (record ctx {
        plaintext = some (copied d.out (copied (replicate 8 0) c.plain));
        iv = d.next_iv;
      })
      else fail utils_cipher_error

  abbrev pub decrypt_keyed : CipherCtx → Checked → Bytes → Option m.DecKey → Outcome CipherCtx
  decrypt_keyed ctx c digest none = fail utils_cipher_error
  decrypt_keyed ctx c digest (some key) = opened ctx c (m.hmac_starts (take 32 digest)).1 (
      decrypt_loop key c.cipher ctx.ciphertext_len ((ctx.ciphertext_len + 15) / aes_block_size) 0
        ctx.iv)

  abbrev pub decrypt_checked : CipherCtx → Option Checked → Outcome CipherCtx
  decrypt_checked ctx none = fail utils_cipher_error
  decrypt_checked ctx (some c) =
      if m.md_setup
      then fail utils_cipher_error
      else decrypt_keyed ctx c (base_digest c ctx.timestamp) (m.setkey_dec c.secret ta_aes_key_bits)

  unfoldable pub aes_decrypt : CipherCtx → Outcome CipherCtx
  unfolding decrypt_loop
  aes_decrypt ctx = decrypt_checked ctx (check_cipher_ctx ctx)

-- What Mbed TLS documents of one key: a block that was enciphered is deciphered under the same IV, with the same
-- next IV, and blocks keep their size.
pub record AesLaws (m : Mbedtls) : Type 0 where
  pub decrypt_encrypt :
      (secret iv block out next : Bytes) (bits : ℕ) (ke : m.EncKey) (kd : m.DecKey)
      → m.setkey_enc secret bits ≡ some ke
      → m.setkey_dec secret bits ≡ some kd
      → m.encrypt_cbc ke iv block ≡ some (out, next)
      → m.decrypt_cbc kd iv out ≡ some (block, next)
  pub encrypt_length :
      (iv block out next : Bytes) (ke : m.EncKey)
      → length block ≡ 16
      → m.encrypt_cbc ke iv block ≡ some (out, next)
      → length out ≡ 16
  pub sha256_length : (s : Bytes) → length (m.sha256 s) ≡ 32
  pub hmac_length : (h : m.Hmac) (s : Bytes) → length (m.hmac_finish h s) ≡ 32
