-- ===== src/Endpoint.antt =====
-- endpoint/: what a device sends, in the text format of endpoint/text_serializer.c, enciphered by
-- endpoint/cipher.c.
pub mod Decimal
pub mod Text
pub mod Cipher
pub mod Message
