-- ===== src/Endpoint/Text.antt =====
-- endpoint/text_serializer.c: an enciphered message as text, and back.
pub mod RoundTrip
use tangle_accelerator.Base.{
  ℕ, ◌+◌, Bool, true, false, Option, none, some, Bytes, [], ◌∷◌, ◌++◌, length, take, drop,
}
use tangle_accelerator.Errors.{Status, utils_text_serialize, utils_text_deserialize}
use tangle_accelerator.Exec.{Outcome, done, fail}
use tangle_accelerator.Endpoint.Decimal.{zero_padded, atol, atoi}

abbrev pub iv_len : ℕ
iv_len = 16

abbrev pub uint32_len : ℕ
uint32_len = 10

abbrev pub uint64_len : ℕ
uint64_len = 20

abbrev pub ta_aes_hmac_size : ℕ
ta_aes_hmac_size = 32

-- ta_cipher_ctx of endpoint/cipher.h. A buffer is the bytes from its start on, and `none` is NULL.
pub record CipherCtx : Type 0 where
  pub plaintext : Option Bytes
  pub plaintext_len : ℕ
  pub ciphertext : Option Bytes
  pub ciphertext_len : ℕ
  pub iv : Bytes
  pub key : Option Bytes
  pub device_id : Option Bytes
  pub hmac : Bytes
  pub timestamp : ℕ

-- memcpy to the start of a buffer
abbrev pub copied : Bytes → Bytes → Bytes
copied bytes buf = bytes ++ drop (length bytes) buf

abbrev pub layout : CipherCtx → Bytes → Bytes
layout ctx ciphertext =
    take iv_len ctx.iv
    ++ (take uint64_len (zero_padded uint64_len ctx.timestamp)
        ++ (take ta_aes_hmac_size ctx.hmac
            ++ (take uint32_len (zero_padded uint32_len ctx.ciphertext_len)
                ++ take ctx.ciphertext_len ciphertext)))

abbrev pub message_len : CipherCtx → ℕ
message_len ctx = iv_len + uint64_len + ta_aes_hmac_size + uint32_len + ctx.ciphertext_len

abbrev pub written : CipherCtx → Bytes → Option Bytes → Outcome (Bytes × ℕ)
written ctx out_msg none = fail utils_text_serialize
written ctx out_msg (some ciphertext) =
    done (copied (layout ctx ciphertext) out_msg, message_len ctx)

-- `out_msg` is a buffer or NULL; the result is what it holds from its start on, and the length of the message.
unfoldable pub serialize_msg : CipherCtx → Option Bytes → Outcome (Bytes × ℕ)
serialize_msg ctx none = fail utils_text_serialize
serialize_msg ctx (some out_msg) = written ctx out_msg ctx.ciphertext

-- The message from the HMAC on, and from the ciphertext's length on: `ptr` moves as in the source.
abbrev pub read_ciphertext : CipherCtx → Bytes → Bytes → CipherCtx
read_ciphertext ctx buf ptr =
    let len = atoi (take uint32_len ptr ++ 0 ∷ []) in
    record ctx {
      ciphertext = some (copied (take len (drop uint32_len ptr)) buf);
      ciphertext_len = len;
    }

abbrev pub read_hmac : CipherCtx → Bytes → Bytes → CipherCtx
read_hmac ctx buf ptr =
    read_ciphertext (record ctx { hmac = take ta_aes_hmac_size ptr }) buf
      (drop ta_aes_hmac_size ptr)

abbrev pub read_timestamp : CipherCtx → Bytes → Bytes → CipherCtx
read_timestamp ctx buf ptr =
    read_hmac (record ctx { timestamp = atol (take uint64_len ptr ++ 0 ∷ []) }) buf
      (drop uint64_len ptr)

abbrev pub read_into : CipherCtx → Bytes → Option Bytes → Outcome CipherCtx
read_into ctx msg none = fail utils_text_deserialize
read_into ctx msg (some buf) =
    done (read_timestamp (record ctx { iv = take iv_len msg }) buf (drop iv_len msg))

-- `msg` is what stands in memory from the pointer on. Nothing checks the room for the ciphertext.
unfoldable pub deserialize_msg : Option Bytes → CipherCtx → Outcome CipherCtx
deserialize_msg none ctx = fail utils_text_deserialize
deserialize_msg (some msg) ctx = read_into ctx msg ctx.ciphertext
