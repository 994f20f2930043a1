-- ===== src/Endpoint/Text/RoundTrip.antt =====
-- endpoint/text_serializer.c: a message that was written is read back.
use tangle_accelerator.Base.{
  ℕ, ◌^◌, ◌<◌, some, Bytes, [], ◌++◌, length, take, drop, take_all, take_front, drop_front,
  append_assoc, length-append, ◌≡◌, refl, ap, ◌∙◌, arith,
}
use tangle_accelerator.Exec.{done}
use tangle_accelerator.Endpoint.Decimal.{
  zero_padded-fixed, fixed, fixed-length, atol-fixed, atoi-fixed,
}
use tangle_accelerator.Endpoint.Text.{
  CipherCtx, copied, layout, serialize_msg, deserialize_msg, read_timestamp, read_hmac,
  read_ciphertext, read_into, written, message_len,
}

-- What a message is, written and as it comes back.
abbrev pub IsMessage : CipherCtx → Bytes → Type 0
IsMessage ctx ciphertext =
    (length ctx.iv ≡ 16)
    × (ctx.timestamp < 2 ^ 63)
    × (length ctx.hmac ≡ 32)
    × (ctx.ciphertext_len < 2 ^ 32)
    × (length (take ctx.ciphertext_len ciphertext) ≡ ctx.ciphertext_len)

module _ (ctx : CipherCtx) (ciphertext : Bytes) (m : IsMessage ctx ciphertext) where
  abbrev stamp : Bytes
  stamp = fixed 20 ctx.timestamp

  abbrev count : Bytes
  count = fixed 10 ctx.ciphertext_len

  layout-eq :
      layout ctx ciphertext
      ≡ ctx.iv ++ (stamp ++ (ctx.hmac ++ (count ++ take ctx.ciphertext_len ciphertext)))
  layout-eq = rw (zero_padded-fixed 19 ctx.timestamp (omega arith) (omega (arith, m.1))) (
      rw (zero_padded-fixed 9 ctx.ciphertext_len (omega arith) (omega (arith, m.3))) (
        rw
          (
            take_all 16 ctx.iv m.0,
            take_all 32 ctx.hmac m.2,
            take_all 20 stamp (fixed-length 20 ctx.timestamp),
            take_all 10 count (fixed-length 10 ctx.ciphertext_len),
          )
          refl))

  whole : length (layout ctx ciphertext) ≡ message_len ctx
  whole =
      ap length layout-eq
      ∙ omega (
        arith,
        m,
        fixed-length 20 ctx.timestamp,
        fixed-length 10 ctx.ciphertext_len,
        length-append ctx.iv (stamp ++ (ctx.hmac ++ (count ++ take ctx.ciphertext_len ciphertext))),
        length-append stamp (ctx.hmac ++ (count ++ take ctx.ciphertext_len ciphertext)),
        length-append ctx.hmac (count ++ take ctx.ciphertext_len ciphertext),
        length-append count (take ctx.ciphertext_len ciphertext),
      )

  module _ (old : CipherCtx) (buf rest : Bytes) where
    abbrev pub received : CipherCtx
    received = record old {
      iv = ctx.iv;
      timestamp = ctx.timestamp;
      hmac = ctx.hmac;
      ciphertext = some (copied (take ctx.ciphertext_len ciphertext) buf);
      ciphertext_len = ctx.ciphertext_len;
    }

    abbrev tail3 : Bytes
    tail3 = take ctx.ciphertext_len ciphertext ++ rest

    read3 :
        (c : CipherCtx)
        → read_ciphertext c buf (count ++ tail3) ≡ record c {
          ciphertext = some (copied (take ctx.ciphertext_len ciphertext) buf);
          ciphertext_len = ctx.ciphertext_len;
        }
    read3 c =
        rw
          (
            take_front 10 count tail3 (fixed-length 10 ctx.ciphertext_len),
            drop_front 10 count tail3 (fixed-length 10 ctx.ciphertext_len),
          )
          (rw (atoi-fixed 9 ctx.ciphertext_len [] (omega (arith, m.3)) m.3)
            (rw (take_front ctx.ciphertext_len (take ctx.ciphertext_len ciphertext) rest m.4) refl))

    abbrev tail2 : Bytes
    tail2 = ctx.hmac ++ (count ++ tail3)

    read2 :
        (c : CipherCtx)
        → read_hmac c buf tail2
          ≡ read_ciphertext (record c { hmac = ctx.hmac }) buf (count ++ tail3)
    read2 c =
        ap (λ h. read_ciphertext (record c { hmac = h }) buf (drop 32 tail2))
          (take_front 32 ctx.hmac (count ++ tail3) m.2)
        ∙ ap (read_ciphertext (record c { hmac = ctx.hmac }) buf)
            (drop_front 32 ctx.hmac (count ++ tail3) m.2)

    read1 :
        (c : CipherCtx)
        → read_timestamp c buf (stamp ++ tail2)
          ≡ read_hmac (record c { timestamp = ctx.timestamp }) buf tail2
    read1 c =
        rw
          (
            take_front 20 stamp tail2 (fixed-length 20 ctx.timestamp),
            drop_front 20 stamp tail2 (fixed-length 20 ctx.timestamp),
          )
          (rw (atol-fixed 19 ctx.timestamp [] (omega (arith, m.1)) m.1) refl)

    read_all :
        read_timestamp
          (record old { iv = take 16 (ctx.iv ++ (stamp ++ tail2)) })
          buf
          (drop 16 (ctx.iv ++ (stamp ++ tail2)))
        ≡ received
    read_all =
        ap (λ v. read_timestamp (record old { iv = v }) buf (drop 16 (ctx.iv ++ (stamp ++ tail2))))
          (take_front 16 ctx.iv (stamp ++ tail2) m.0)
        ∙ ap (read_timestamp (record old { iv = ctx.iv }) buf)
            (drop_front 16 ctx.iv (stamp ++ tail2) m.0)
        ∙ read1 (record old { iv = ctx.iv })
        ∙ read2 (record old { iv = ctx.iv; timestamp = ctx.timestamp })
        ∙ read3 (record old { iv = ctx.iv; timestamp = ctx.timestamp; hmac = ctx.hmac })

    split : layout ctx ciphertext ++ rest ≡ ctx.iv ++ (stamp ++ tail2)
    split =
        ap (λ t. t ++ rest) layout-eq
        ∙ append_assoc ctx.iv _ rest
        ∙ ap (λ t. ctx.iv ++ t)
            (append_assoc stamp _ rest
              ∙ ap (λ t. stamp ++ t)
                  (append_assoc ctx.hmac _ rest
                    ∙ ap (λ t. ctx.hmac ++ t) (append_assoc count _ rest)))

    -- Deserialization gives back the IV, timestamp, HMAC, length and bytes of the ciphertext of a message that was
    -- serialized, whatever stands in memory behind it, where the IV has 16 and the HMAC 32 bytes, the timestamp is
    -- below 2^63, and the ciphertext has as many bytes as its length says, fewer than 2^32.
    pub deserialize_msg-serialize_msg :
        (out : Bytes)
        → ctx.ciphertext ≡ some ciphertext
        → old.ciphertext ≡ some buf
        → (text : Bytes) × (n : ℕ) × (serialize_msg ctx (some out) ≡ done (text, n))
          × (deserialize_msg (some (take n text ++ rest)) old ≡ done received)
    unfolding serialize_msg deserialize_msg
    deserialize_msg-serialize_msg out hc ho = (
      copied (layout ctx ciphertext) out,
      message_len ctx,
      ap (written ctx out) hc,
      ap (λ t. read_into old (t ++ rest) old.ciphertext)
            (take_front (message_len ctx) (layout ctx ciphertext) _ whole)
          ∙ ap (λ t. read_into old t old.ciphertext) split
          ∙ ap (read_into old (ctx.iv ++ (stamp ++ tail2))) ho
          ∙ ap done read_all,
    )
