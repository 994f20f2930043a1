-- ===== src/Examples/Device.antt =====
-- The messages of a device at concrete inputs: blocks that are enciphered as themselves.
use tangle_accelerator.Base.{
  ℕ, false, Bool, Option, some, Bytes, [], ◌++◌, length, take, replicate, codes, ◌≡◌, refl, arith,
}
use tangle_accelerator.Exec.{done}
use tangle_accelerator.Endpoint.Text.{CipherCtx, serialize_msg, deserialize_msg}
use tangle_accelerator.Endpoint.Text.RoundTrip.{IsMessage, received}
use tangle_accelerator.Endpoint.Cipher.{
  Mbedtls, AesLaws, Checked, aes_encrypt, encrypt_loop, aes_decrypt,
}
use tangle_accelerator.Endpoint.Cipher.RoundTrip.{plain_after}
use tangle_accelerator.Endpoint

abbrev plain_mbedtls : Bool → Mbedtls
plain_mbedtls b = record {
  EncKey = Unit;
  DecKey = Unit;
  Hmac = Unit;
  md_setup = b;
  setkey_enc = λ s n. some tt;
  setkey_dec = λ s n. some tt;
  encrypt_cbc = λ k iv block. some (block, iv);
  decrypt_cbc = λ k iv block. some (block, iv);
  sha256 = λ s. replicate 32 7;
  hmac_starts = λ s. (false, tt);
  hmac_finish = λ h s. replicate 32 9;
}

abbrev m : Mbedtls
m = plain_mbedtls false

same_block :
    (b c iv j : Bytes)
    → ◌≡◌ {A = Option (Bytes × Bytes)} (some (b, iv)) (some (c, j))
    → ◌≡◌ {A = Option (Bytes × Bytes)} (some (c, iv)) (some (b, j))
same_block b c iv j h = cc

same_length :
    (b c iv j : Bytes)
    → length b ≡ 16
    → ◌≡◌ {A = Option (Bytes × Bytes)} (some (b, iv)) (some (c, j))
    → length c ≡ 16
same_length b c iv j n h = cc

m_laws : AesLaws m
m_laws = record {
  decrypt_encrypt = λ s iv block out next bits ke kd p q h. same_block block out iv next h;
  encrypt_length = λ iv block out next ke n h. same_length block out iv next n h;
  sha256_length = λ s. refl;
  hmac_length = λ h s. refl;
}

-- "HELLO" is to be sent.
abbrev out_ctx : CipherCtx
out_ctx = record {
  plaintext = some (codes "HELLO");
  plaintext_len = 5;
  ciphertext = some (replicate 20 0);
  ciphertext_len = 20;
  iv = [];
  key = some (codes "KEY");
  device_id = some (codes "DEV");
  hmac = [];
  timestamp = 1234;
}

abbrev members : Checked
members = record {
  plain = codes "HELLO";
  cipher = replicate 20 0;
  id = codes "DEV";
  secret = codes "KEY";
}

abbrev block : Bytes
block = codes "HELLO" ++ replicate 11 0

abbrev sealed_ctx : CipherCtx
sealed_ctx = record out_ctx {
  ciphertext = some (block ++ replicate 4 0);
  ciphertext_len = 16;
  iv = replicate 16 0;
  hmac = replicate 32 9;
}

-- The receiver has room for both texts.
abbrev in_ctx : CipherCtx
in_ctx = record out_ctx {
  plaintext = some (replicate 16 1);
  ciphertext = some (replicate 16 2);
  ciphertext_len = 16;
}

enciphers : aes_encrypt m out_ctx ≡ done sealed_ctx
enciphers = unfold aes_encrypt encrypt_loop in refl

is_message : IsMessage sealed_ctx (block ++ replicate 4 0)
is_message = (refl, omega arith, refl, omega arith, refl)

deserialize_msg-serialize_msg_example :
    (text : Bytes) × (n : ℕ) × (serialize_msg sealed_ctx (some (replicate 100 0)) ≡ done (text, n))
    × (deserialize_msg (some (take n text ++ codes "tail")) in_ctx
        ≡ done (
            received sealed_ctx
              (block ++ replicate 4 0)
              is_message
              in_ctx
              (replicate 16 2)
              (codes "tail")))
deserialize_msg-serialize_msg_example =
    Endpoint.Text.RoundTrip.deserialize_msg-serialize_msg sealed_ctx (block ++ replicate 4 0)
      is_message in_ctx (replicate 16 2) (codes "tail") (replicate 100 0) refl refl

message_arrives_example :
    (text : Bytes) × (n : ℕ) × (arrived : CipherCtx) × (next : Bytes) × (serialize_msg sealed_ctx
        (some (replicate 100 0))
      ≡ done (text, n))
    × (deserialize_msg (some (take n text ++ codes "tail")) in_ctx ≡ done arrived)
    × (aes_decrypt m arrived
        ≡ done (record arrived {
          plaintext = some (plain_after m m_laws members (replicate 16 1) (codes "tail") 5);
          iv = next;
        }))
message_arrives_example =
    Endpoint.Message.message_arrives m m_laws members (replicate 16 1) (replicate 16 2)
      (codes "tail") out_ctx sealed_ctx in_ctx tt (replicate 100 0) refl refl refl (omega arith)
      (omega arith) (omega arith) enciphers refl refl refl refl
