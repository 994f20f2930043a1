-- ===== src/Endpoint/Message.antt =====
-- endpoint/cipher.c and endpoint/text_serializer.c together: a message from its sender to its receiver.
use tangle_accelerator.Base.{
  ℕ, suc, zero, ◌^◌, ◌≤◌, ◌<◌, false, some, Bytes, [], ◌∷◌, ◌++◌, length, take, drop, take_front,
  length-take, length-drop, ◌≡◌, refl, sym, ap, subst, ◌∙◌, arith,
}
use tangle_accelerator.Exec.{done}
use tangle_accelerator.Endpoint.Text.{CipherCtx, copied, serialize_msg, deserialize_msg}
use tangle_accelerator.Endpoint.Text.RoundTrip.{IsMessage, received, deserialize_msg-serialize_msg}
use tangle_accelerator.Endpoint.Cipher.{
  Mbedtls, AesLaws, Checked, checked, check_cipher_ctx, new_len, folded, xor_all, aes_encrypt,
  aes_decrypt,
}
use tangle_accelerator.Endpoint.Cipher.RoundTrip.{
  enciphered, size_lem, plain_after, receiver, total, digest, aes_decrypt-aes_encrypt,
}

length-xor_all :
    (n : ℕ) (xs ys : Bytes) → length xs ≡ n → length ys ≡ n → length (xor_all xs ys) ≡ n
length-xor_all n [] ys h k = h
length-xor_all n (x ∷ xs) [] h k = absurd (omega arith)
length-xor_all zero (x ∷ xs) (y ∷ ys) h k = absurd (omega arith)
length-xor_all (suc n) (x ∷ xs) (y ∷ ys) h k =
    omega (arith, length-xor_all n xs ys (omega arith) (omega arith))

folded-length : (m : Mbedtls) (d : Bytes) → length d ≡ 32 → length (folded m d) ≡ 16
folded-length m d h =
    length-xor_all 16 (take 16 d) (take 16 (drop 16 d)) (omega (arith, length-take 16 d))
      (omega (arith, length-take 16 (drop 16 d), length-drop 16 d))

module _ (m : Mbedtls) (l : AesLaws m) (c : Checked) (plain_buf buf rest : Bytes) where
  -- Where setting up the message digest and the decryption key does not fail, a message that aes_encrypt enciphered
  -- arrives: it can be serialized, the bytes of the message, whatever
  -- follows them in memory, deserialize into a context with the same key and device id and with buffers for both texts, and aes_decrypt of that
  -- context succeeds, with a plaintext that begins with the sender's text and zeros up to a whole block. The
  -- timestamp is below 2^63, the plaintext's length at most that of its buffer, and the padded text shorter than 2^32
  -- bytes.
  pub message_arrives :
      (ctx ctx' old : CipherCtx) (kd : m.DecKey) (out_buf : Bytes)
      → m.md_setup ≡ false
      → m.setkey_dec c.secret 256 ≡ some kd
      → check_cipher_ctx ctx ≡ some c
      → ctx.plaintext_len ≤ length c.plain
      → ctx.timestamp < 2 ^ 63
      → new_len m ctx.plaintext_len < 2 ^ 32
      → aes_encrypt m ctx ≡ done ctx'
      → old.plaintext ≡ some plain_buf
      → old.ciphertext ≡ some buf
      → old.device_id ≡ some c.id
      → old.key ≡ some c.secret
      → (text : Bytes) × (n : ℕ) × (arrived : CipherCtx) × (next : Bytes) × (serialize_msg ctx'
            (some out_buf)
          ≡ done (text, n))
        × (deserialize_msg (some (take n text ++ rest)) old ≡ done arrived)
        × (aes_decrypt m arrived
            ≡ done (record arrived {
              plaintext = some (plain_after m l c plain_buf rest ctx.plaintext_len);
              iv = next;
            }))
  message_arrives ctx ctx' old kd out_buf s sd h hp ht hn q op oc od ok =
      let (ke, out, se, w, e) = enciphered m ctx c ctx' s h q in
      let cipher_buf = copied out c.cipher in
      let hc : ctx'.ciphertext ≡ some cipher_buf = ap (λ x. x.ciphertext) e in
      let len : ctx'.ciphertext_len ≡ total m ctx c = ap (λ x. x.ciphertext_len) e in
      let size = size_lem m l c plain_buf rest ctx ke kd out se sd w in
      let cut : take ctx'.ciphertext_len cipher_buf ≡ out =
        take_front ctx'.ciphertext_len out _ (size ∙ sym len) in
      let is_message : IsMessage ctx' cipher_buf = (
        ap (λ x. length x.iv) e ∙ folded-length m (digest m ctx c) (l.sha256_length _),
        subst (λ t. t < 2 ^ 63) (sym (ap (λ x. x.timestamp) e)) ht,
        ap (λ x. length x.hmac) e ∙ l.hmac_length _ out,
        subst (λ t. t < 2 ^ 32) (sym len) hn,
        ap length cut ∙ size ∙ sym len,
      ) in
      let (text, n, written, read) =
        deserialize_msg-serialize_msg ctx' cipher_buf is_message old buf rest out_buf hc oc in
      let arrived = received ctx' cipher_buf is_message old buf rest in
      let cipher = take ctx'.ciphertext_len cipher_buf in
      let behind = drop (length cipher) buf in
      let filled = some (copied cipher buf) in
      let members : check_cipher_ctx arrived ≡ some (receiver m l c plain_buf behind cipher) =
        ap (λ p. checked p filled old.device_id old.key) op
        ∙ ap (λ d. checked (some plain_buf) filled d old.key) od
        ∙ ap (checked (some plain_buf) filled (some c.id)) ok in
      let (next, plain) =
        aes_decrypt-aes_encrypt m l c plain_buf behind ctx ctx' arrived kd cipher_buf s sd h q hp hc
          members refl refl (ap (λ x. x.timestamp) e) refl in
      (text, n, arrived, next, written, read, plain)
