-- ===== src/Endpoint/Cipher/RoundTrip.antt =====
-- endpoint/cipher.c, with endpoint/text_serializer.c: what was enciphered is deciphered, also over the
-- text format.
use tangle_accelerator.Base.{
  ℕ, ◌+◌, ◌-◌, ◌*◌, ◌/◌, ◌≤◌, Bool, true, false, Option, none, some, Bytes, [], ◌++◌, length, take,
  replicate, take_front, ltb, if◌then◌else◌, bytes_eq_refl, mem_eq, ◌≡◌, refl, sym, ap, subst, ◌∙◌,
  arith,
}
use tangle_accelerator.Errors.{utils_cipher_error}
use tangle_accelerator.Exec.{done-inj, Outcome, done, fail}
use tangle_accelerator.Endpoint.Text.{CipherCtx, copied}
use tangle_accelerator.Endpoint.Cipher.{
  Mbedtls, AesLaws, Checked, check_cipher_ctx, base_digest, new_len, folded, sealed, encrypt_mac,
  encrypt_keyed, encrypt_checked, aes_encrypt, opened, decrypt_keyed, decrypt_checked, aes_decrypt,
  encrypt_loop, decrypt_loop,
}
use tangle_accelerator.Endpoint.Cipher.Blocks.{padded, padded-lem, decrypt_loop-encrypt_loop}

some-inj : {A : Type 0} {a b : A} → some a ≡ some b → a ≡ b
some-inj q = cc

module _ (m : Mbedtls) where
  module _ (ctx : CipherCtx) (c : Checked) where
    abbrev pub digest : Bytes
    digest = base_digest m c ctx.timestamp

    abbrev pub mac_state : m.Hmac
    mac_state = (m.hmac_starts (take 32 digest)).1

    abbrev pub total : ℕ
    total = new_len m ctx.plaintext_len

    abbrev pub written_by : m.EncKey → Outcome Bytes
    written_by ke = encrypt_loop m ke c.plain ctx.plaintext_len (total / 16) 0 (folded m digest)

    abbrev pub result : Bytes → CipherCtx
    result out = record ctx {
      ciphertext = some (copied out c.cipher);
      ciphertext_len = total;
      iv = folded m digest;
      hmac = m.hmac_finish mac_state out;
    }

    -- What a success of aes_encrypt went through.
    abbrev pub Enciphered : CipherCtx → Type 0
    Enciphered ctx' =
        (ke : m.EncKey) × (out : Bytes) × (m.setkey_enc c.secret 256 ≡ some ke)
        × (written_by ke ≡ done out)
        × (ctx' ≡ result out)

    from_sealed :
        (ctx' : CipherCtx) (ke : m.EncKey) (o : Outcome Bytes)
        → m.setkey_enc c.secret 256 ≡ some ke
        → written_by ke ≡ o
        → sealed m ctx c (folded m digest) mac_state o ≡ done ctx'
        → Enciphered ctx'
    from_sealed ctx' ke (fail s) k e q = cc
    from_sealed ctx' ke (done out) k e q = (ke, out, k, e, sym (done-inj q))

    from_mac :
        (ctx' : CipherCtx) (ke : m.EncKey) (b : Bool)
        → m.setkey_enc c.secret 256 ≡ some ke
        → encrypt_mac m ctx c digest ke (b, mac_state) ≡ done ctx'
        → Enciphered ctx'
    from_mac ctx' ke true k q = cc
    from_mac ctx' ke false k q = from_sealed ctx' ke (written_by ke) k refl q

    from_keyed :
        (ctx' : CipherCtx) (k : Option m.EncKey)
        → m.setkey_enc c.secret 256 ≡ k
        → encrypt_keyed m ctx c digest k ≡ done ctx'
        → Enciphered ctx'
    from_keyed ctx' none e q = cc
    from_keyed ctx' (some ke) e q = from_mac ctx' ke (m.hmac_starts (take 32 digest)).0 e q

    from_room :
        (ctx' : CipherCtx) (b : Bool)
        → (if b
            then fail utils_cipher_error
            else encrypt_keyed m ctx c digest (m.setkey_enc c.secret 256))
          ≡ done ctx'
        → Enciphered ctx'
    from_room ctx' true q = cc
    from_room ctx' false q = from_keyed ctx' (m.setkey_enc c.secret 256) refl q

    pub enciphered :
        (ctx' : CipherCtx)
        → m.md_setup ≡ false
        → check_cipher_ctx ctx ≡ some c
        → aes_encrypt m ctx ≡ done ctx'
        → Enciphered ctx'
    unfolding aes_encrypt
    enciphered ctx' s h q =
        let stage : encrypt_checked m ctx (some c) ≡ done ctx' =
          sym (ap (encrypt_checked m ctx) h) ∙ q in
        from_room ctx' (ltb ctx.ciphertext_len total) (
          subst
            (λ b.
              (if b
                then done ctx
                else (if ltb ctx.ciphertext_len total
                    then fail utils_cipher_error
                    else encrypt_keyed m ctx c digest (m.setkey_enc c.secret 256)))
              ≡ done ctx')
            s stage)

  module _ (l : AesLaws m) (c : Checked) (plain_buf rest : Bytes) where
    -- The receiver's members: the ciphertext, with `rest` behind it, and the sender's id and key.
    abbrev pub receiver : Bytes → Checked
    receiver out = record { plain = plain_buf; cipher = out ++ rest; id = c.id; secret = c.secret }

    -- The plaintext buffer of the receiver: the text, zeros up to a whole block, and what was there.
    abbrev pub plain_after : ℕ → Bytes
    plain_after len =
        copied (take len c.plain ++ replicate (new_len m len - len) 0)
          (copied (replicate 8 0) plain_buf)

    blocks_done :
        (ctx : CipherCtx) (ke : m.EncKey) (kd : m.DecKey) (out : Bytes)
        → m.setkey_enc c.secret 256 ≡ some ke
        → m.setkey_dec c.secret 256 ≡ some kd
        → written_by ctx c ke ≡ done out
        → ctx.plaintext_len ≤ length c.plain
        → (next : Bytes) × (decrypt_loop m kd
              (out ++ rest)
              (total ctx c)
              ((total ctx c + 15) / 16)
              0
              (folded m (digest ctx c))
            ≡ done (record {
              mac = out;
              out = take ctx.plaintext_len c.plain ++ replicate (total ctx c - ctx.plaintext_len) 0;
              next_iv = next;
            }))
    blocks_done ctx ke kd out se sd w hp =
        let len = ctx.plaintext_len in
        let all = total ctx c in
        let blocks = all / 16 in
        let iv = folded m (digest ctx c) in
        let u =
          decrypt_loop-encrypt_loop m l c.secret 256 ke kd se sd c.plain len blocks 0 iv out w in
        let (next, e) = u.1 [] rest in
        let whole : blocks * 16 ≡ all = omega arith in
        let size : 0 + blocks * 16 ≡ all = omega arith in
        let count : (all + 15) / 16 ≡ blocks = omega arith in
        let text : padded c.plain len blocks 0 ≡ take len c.plain ++ replicate (all - len) 0 =
          padded-lem c.plain len hp blocks (omega arith) (omega arith)
          ∙ ap (λ n. take len c.plain ++ replicate (n - len) 0) whole in
        (
          next,
          ap (λ n. decrypt_loop m kd (out ++ rest) all n 0 iv) count
              ∙ ap (λ n. decrypt_loop m kd (out ++ rest) n blocks 0 iv) (sym size)
              ∙ e
              ∙ ap (λ t. done (record { mac = out; out = t; next_iv = next })) text,
        )

    pub size_lem :
        (ctx : CipherCtx) (ke : m.EncKey) (kd : m.DecKey) (out : Bytes)
        → m.setkey_enc c.secret 256 ≡ some ke
        → m.setkey_dec c.secret 256 ≡ some kd
        → written_by ctx c ke ≡ done out
        → length out ≡ total ctx c
    size_lem ctx ke kd out se sd w =
        let blocks = total ctx c / 16 in
        let iv = folded m (digest ctx c) in
        omega (
          arith,
          (decrypt_loop-encrypt_loop m l c.secret 256 ke kd se sd c.plain ctx.plaintext_len blocks 0
              iv out w).0,
        )

    -- A receiver with the same key and device id, to whom the ciphertext, its length, the IV, the HMAC and the
    -- timestamp of a message came unchanged, deciphers it: the buffer of its plaintext then begins with the text
    -- and zeros up to a whole block.
    pub aes_decrypt-aes_encrypt :
        (ctx ctx' rc : CipherCtx) (kd : m.DecKey) (cipher_buf : Bytes)
        → m.md_setup ≡ false
        → m.setkey_dec c.secret 256 ≡ some kd
        → check_cipher_ctx ctx ≡ some c
        → aes_encrypt m ctx ≡ done ctx'
        → ctx.plaintext_len ≤ length c.plain
        → ctx'.ciphertext ≡ some cipher_buf
        → check_cipher_ctx rc ≡ some (receiver (take ctx'.ciphertext_len cipher_buf))
        → rc.iv ≡ ctx'.iv
        → rc.hmac ≡ ctx'.hmac
        → rc.timestamp ≡ ctx.timestamp
        → rc.ciphertext_len ≡ ctx'.ciphertext_len
        → (next : Bytes) × (aes_decrypt m rc
            ≡ done (record rc { plaintext = some (plain_after ctx.plaintext_len); iv = next }))
    unfolding aes_decrypt
    aes_decrypt-aes_encrypt ctx ctx' rc kd cipher_buf s sd h q hp hc hr iv_eq mac_eq time_eq
          len_eq =
        let (ke, out, se, w, e) = enciphered ctx c ctx' s h q in
        let all = total ctx c in
        let iv = folded m (digest ctx c) in
        let mac = m.hmac_finish (mac_state ctx c) out in
        let size = size_lem ctx ke kd out se sd w in
        let in_buf : cipher_buf ≡ copied out c.cipher =
          some-inj (sym hc ∙ ap (λ x. x.ciphertext) e) in
        let len : ctx'.ciphertext_len ≡ all = ap (λ x. x.ciphertext_len) e in
        let cut : take ctx'.ciphertext_len cipher_buf ≡ out =
          ap (take ctx'.ciphertext_len) in_buf
          ∙ take_front ctx'.ciphertext_len out _ (size ∙ sym len) in
        let r = receiver out in
        let to_r : check_cipher_ctx rc ≡ some r = hr ∙ ap (λ t. some (receiver t)) cut in
        let (next, d) = blocks_done ctx ke kd out se sd w hp in
        let dg = base_digest m c rc.timestamp in
        let hm = (m.hmac_starts (take 32 dg)).1 in
        let loop : decrypt_loop m kd (out ++ rest) rc.ciphertext_len ((rc.ciphertext_len + 15) / 16)
              0 rc.iv
            ≡ done _ =
          ap (λ n. decrypt_loop m kd (out ++ rest) n ((n + 15) / 16) 0 rc.iv) (len_eq ∙ len)
          ∙ ap (λ v. decrypt_loop m kd (out ++ rest) all ((all + 15) / 16) 0 v)
              (iv_eq ∙ ap (λ x. x.iv) e)
          ∙ d in
        let macs : mem_eq 32 (m.hmac_finish hm out) rc.hmac ≡ true =
          ap
            (λ t.
              mem_eq 32 (m.hmac_finish (m.hmac_starts (take 32 (base_digest m c t))).1 out) rc.hmac)
            time_eq
          ∙ ap (mem_eq 32 mac) (mac_eq ∙ ap (λ x. x.hmac) e)
          ∙ bytes_eq_refl (take 32 mac) in
        (
          next,
          ap (decrypt_checked m rc) to_r
              ∙ ap
                  (λ b.
                    if b
                    then fail utils_cipher_error
                    else decrypt_keyed m rc r dg (m.setkey_dec c.secret 256))
                  s
              ∙ ap (decrypt_keyed m rc r dg) sd
              ∙ ap (opened m rc r hm) loop
              ∙ ap
                  (λ b.
                    if b
                    then done
                        (record rc { plaintext = some (plain_after ctx.plaintext_len); iv = next })
                    else fail utils_cipher_error)
                  macs,
        )
