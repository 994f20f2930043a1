-- ===== src/Serializer/Transfer/Accepted.antt =====
-- accelerator/core/serializer/serializer.c: which requests for a transfer are accepted.
use tangle_accelerator.Base.{
  ℤ, ℕ, ◌*◌, ◌≤◌, Bool, true, false, not, Option, none, some, Bytes, [], codes, length, ltb,
  if◌then◌else◌, ◌≡◌, refl, sym, ap, subst, ◌∙◌, arith,
}
use tangle_accelerator.Errors.{Status}
use tangle_accelerator.Exec.{Outcome, done, fail, done-inj}
use tangle_accelerator.Env.Json.{JsonTree}
use tangle_accelerator.Env.Trits.{Trits}
use tangle_accelerator.Core.Transfer.{SendTransferReq}
use tangle_accelerator.Serializer.Helper.{◌>>?◌, valid_tryte}
use tangle_accelerator.Serializer.Transfer.{
  is_ascii, is_raw, member_string, address_trits, tag_trits, taken_in, parsed, message_trytes,
  num_trytes_message, default_msg_len, transfer_of_json, ta_send_transfer_req_deserialize,
}

bound_inv :
    {A B : Type 0} (m : Outcome A) (f : A → Outcome B) (b : B)
    → (m >>? f) ≡ done b
    → (a : A) × (m ≡ done a) × (f a ≡ done b)
bound_inv (done a) f b h = (a, refl, h)
bound_inv (fail s) f b h = absurd cc

-- A test that leads to an error was passed.
passed :
    {A : Type 0} (b : Bool) (good : Outcome A) (s : Status) (a : A)
    → (if b then good else fail s) ≡ done a
    → (b ≡ true) × (good ≡ done a)
passed true good s a h = (refl, h)
passed false good s a h = absurd cc

avoided :
    {A : Type 0} (b : Bool) (good : Outcome A) (s : Status) (a : A)
    → (if b then fail s else good) ≡ done a
    → (b ≡ false) × (good ≡ done a)
avoided true good s a h = absurd cc
avoided false good s a h = (refl, h)

double_negation : (b : Bool) → not b ≡ false → b ≡ true
double_negation true h = refl
double_negation false h = absurd cc

-- The number of trytes of a message: a character that is not a tryte takes two.
abbrev pub trytes_needed : Bool → Bytes → ℕ
trytes_needed true s = length s * 2
trytes_needed false s = length s

module _ (j : JsonTree) (t : Trits) (behind : Bytes → Bytes) (stack : Bytes) where
  abbrev pub raw_format : j.Json → Bool
  raw_format json = is_raw j (member_string j json (codes "message_format"))

  -- What holds of a tree that a request was read from.
  pub record Accepted (json : j.Json) (req : SendTransferReq) : Type 0 where
    pub address_trytes :
        (s : Bytes)
        → member_string j json (codes "address") ≡ some s
        → valid_tryte s (length s) ≡ true
    pub tag_trytes :
        (s : Bytes) → member_string j json (codes "tag") ≡ some s → valid_tryte s (length s) ≡ true
    pub ascii : (s : Bytes) → member_string j json (codes "message") ≡ some s → is_ascii s ≡ true
    pub message_size :
        (s : Bytes)
        → member_string j json (codes "message") ≡ some s
        → req.msg_len ≡ trytes_needed (raw_format json) s
    pub bounded : req.msg_len ≤ num_trytes_message

  address_lem :
      (m : Option Bytes) (a s : Bytes)
      → address_trits j t behind stack m ≡ done a
      → m ≡ some s
      → valid_tryte s (length s) ≡ true
  address_lem none a s h is = absurd cc
  address_lem (some r) a s h is =
      let same : r ≡ s = cc in
      ap (λ x. valid_tryte x (length x)) (sym same) ∙ (passed (valid_tryte r (length r)) _ _ a h).0

  tag_lem :
      (m : Option Bytes) (a s : Bytes)
      → tag_trits j t behind stack m ≡ done a
      → m ≡ some s
      → valid_tryte s (length s) ≡ true
  tag_lem none a s h is = absurd cc
  tag_lem (some r) a s h is =
      let same : r ≡ s = cc in
      ap (λ x. valid_tryte x (length x)) (sym same) ∙ (passed (valid_tryte r (length r)) _ _ a h).0

  -- What holds of a message and its length that were read.
  record Read (raw : Bool) (m : Option Bytes) (msg_len : ℕ) : Type 0 where
    all_ascii : (s : Bytes) → m ≡ some s → is_ascii s ≡ true
    size : (s : Bytes) → m ≡ some s → msg_len ≡ trytes_needed raw s
    small : msg_len ≤ num_trytes_message

  Read-some :
      (raw : Bool) (r : Bytes)
      → is_ascii r ≡ true
      → ltb num_trytes_message (trytes_needed raw r) ≡ false
      → Read raw (some r) (trytes_needed raw r)
  Read-some raw r ascii fits = record {
    all_ascii = λ s is. let same : r ≡ s = cc in ap is_ascii (sym same) ∙ ascii;
    size = λ s is. let same : r ≡ s = cc in ap (trytes_needed raw) same;
    small = ground arith;
  }

  message_lem :
      (raw : Bool) (m : Option Bytes) (message : Bytes) (msg_len : ℕ)
      → message_trytes j t behind stack raw m ≡ done (message, msg_len)
      → Read raw m msg_len
  message_lem raw none message msg_len h =
      let size : default_msg_len * 3 ≡ msg_len = ap (λ p. p.1) (done-inj h) in
      record {
        all_ascii = λ s is. absurd cc;
        size = λ s is. absurd cc;
        small = omega (arith, size);
      }
  message_lem true (some r) message msg_len h =
      let (ascii, more) = avoided (not (is_ascii r)) _ _ (message, msg_len) h in
      let (fits, read) =
        avoided (ltb num_trytes_message (length r * 2)) _ _ (message, msg_len) more in
      subst (Read true (some r)) (ap (λ p. p.1) (done-inj read))
        (Read-some true r (double_negation (is_ascii r) ascii) fits)
  message_lem false (some r) message msg_len h =
      let (ascii, more) = avoided (not (is_ascii r)) _ _ (message, msg_len) h in
      let (fits, read) = avoided (ltb num_trytes_message (length r)) _ _ (message, msg_len) more in
      subst (Read false (some r)) (ap (λ p. p.1) (done-inj read))
        (Read-some false r (double_negation (is_ascii r) ascii) fits)

  Accepted-json :
      (json : j.Json) (value : ℤ) (req : SendTransferReq)
      → transfer_of_json j t behind stack json ≡ done (value, req)
      → Accepted json req
  Accepted-json json value req h =
      let (a, address, h1) = bound_inv (address_trits j t behind stack _) _ _ h in
      let (queued_address, _, h2) =
        bound_inv (taken_in j t behind stack a (t.queue_push [] a)) _ _ h1 in
      let (g, tag, h3) = bound_inv (tag_trits j t behind stack _) _ _ h2 in
      let (queued_tag, _, h4) =
        bound_inv (taken_in j t behind stack g (t.queue_push [] g)) _ _ h3 in
      let ((message, msg_len), read, h5) =
        bound_inv (message_trytes j t behind stack (raw_format json) _) _ _ h4 in
      let same : msg_len ≡ req.msg_len = ap (λ p. p.1.msg_len) (done-inj h5) in
      let r =
        message_lem (raw_format json) (member_string j json (codes "message")) message msg_len
          read in
      record {
        address_trytes = λ s. address_lem (member_string j json (codes "address")) a s address;
        tag_trytes = λ s. tag_lem (member_string j json (codes "tag")) g s tag;
        ascii = r.all_ascii;
        message_size = λ s is. sym same ∙ r.size s is;
        bounded = subst (λ n. n ≤ num_trytes_message) same r.small;
      }

  of_parsed :
      (p : Option j.Json) (value : ℤ) (req : SendTransferReq)
      → parsed j t behind stack (transfer_of_json j t behind stack) p ≡ done (value, req)
      → (json : j.Json) × (p ≡ some json) × Accepted json req
  of_parsed none value req h = absurd cc
  of_parsed (some json) value req h = (json, refl, Accepted-json json value req h)

  -- If a text is read as a request for a transfer, then it parses to a tree in which an address and a tag that are
  -- there consist of trytes, a message that is there of ASCII characters, the request's length is that of the message's
  -- trytes, two for a character unless the format is "trytes", and the length is at most 2187.
  pub ta_send_transfer_req_deserialize-Accepted :
      (obj : Bytes) (value : ℤ) (req : SendTransferReq)
      → ta_send_transfer_req_deserialize j t behind stack (some obj) ≡ done (value, req)
      → (json : j.Json) × (j.parse obj ≡ some json) × Accepted json req
  unfolding ta_send_transfer_req_deserialize
  ta_send_transfer_req_deserialize-Accepted obj value req h = of_parsed (j.parse obj) value req h
