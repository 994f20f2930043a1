-- ===== src/Serializer/Mam/RoundTrip.antt =====
-- accelerator/core/serializer/ser_mam.c: the response to a sent MAM message is read back from its text.
use tangle_accelerator.Base.{
  ℕ, Bool, true, false, ◌||◌, Option, none, some, Bytes, [], ◌∷◌, ◌++◌, codes, length, NulFree,
  strncpy, c_str, c_str_lem, strncpy-length, take-length, if◌then◌else◌, ◌≡◌, ◌⊎◌, refl, sym, ap,
  subst, ◌∙◌, inl, inr,
}
use tangle_accelerator.Errors.{serializer_json_create, serializer_null}
use tangle_accelerator.Exec.{Outcome, done, done-inj}
use tangle_accelerator.Env.Json.{JsonTree, JsonLaws}
use tangle_accelerator.Serializer.Helper.{◌>>?◌, num_trytes_hash}
use tangle_accelerator.Serializer.Requests.{read_json}
use tangle_accelerator.Serializer.Responses.{filled-done}
use tangle_accelerator.Serializer.Members.{
  Members, text_under, has_any, build, ta_json_get_string-build, has-build,
}
use tangle_accelerator.Serializer.Mam.{
  SendMamRes, num_trytes_mam_msg_id, shown_bytes, send_mam_res_new, send_mam_res_set_bundle_hash,
  send_mam_res_set_channel_id, send_mam_res_set_msg_id, send_mam_res_set_announce_bundle_hash,
  send_mam_res_set_chid1,
}
use tangle_accelerator.Serializer.Mam.Responses.{
  or_error, uuid_or_result, set_member, set_optional, mam_members, send_mam_res_of_json,
  send_mam_message_res_deserialize, send_mam_message_res_serialize,
}

abbrev pub Text : ℕ → Bytes → Type 0
Text n s = NulFree s × (length s ≡ n)

-- The texts of a response have their full lengths; the two of an announcement may both be empty.
pub record IsFilled (res : SendMamRes) : Type 0 where
  pub bundle_hash : Text num_trytes_hash res.bundle_hash
  pub chid : Text num_trytes_hash res.chid
  pub msg_id : Text num_trytes_mam_msg_id res.msg_id
  pub announcement :
      (res.announcement_bundle_hash ≡ []) ⊎ Text num_trytes_hash res.announcement_bundle_hash
  pub chid1 : (res.chid1 ≡ []) ⊎ Text num_trytes_hash res.chid1

abbrev optional_field : Bytes → Bytes → Members
optional_field name [] = []
optional_field name (c ∷ text) = (name, c ∷ text) ∷ []

abbrev fields : Bytes → Bytes → Bytes → Bytes → Bytes → Members
fields bundle_hash chid msg_id announcement chid1 =
    (codes "bundle_hash", bundle_hash)
    ∷ (codes "chid", chid)
    ∷ (codes "msg_id", msg_id)
    ∷ (optional_field (codes "announcement_bundle_hash") announcement
        ++ optional_field (codes "chid1") chid1)

abbrev fields_of : SendMamRes → Members
fields_of res = fields res.bundle_hash res.chid res.msg_id res.announcement_bundle_hash res.chid1

abbrev given : Bytes → Option Bytes
given [] = none
given (c ∷ text) = some (c ∷ text)

abbrev nonempty : Bytes → Bool
nonempty [] = false
nonempty (c ∷ text) = true

text_under_announcement :
    (b c m a d : Bytes) → text_under (codes "announcement_bundle_hash") (fields b c m a d) ≡ given a
text_under_announcement b c m [] [] = refl
text_under_announcement b c m [] (y ∷ d) = refl
text_under_announcement b c m (x ∷ a) d = refl

text_under_chid1 : (b c m a d : Bytes) → text_under (codes "chid1") (fields b c m a d) ≡ given d
text_under_chid1 b c m [] [] = refl
text_under_chid1 b c m [] (y ∷ d) = refl
text_under_chid1 b c m (x ∷ a) [] = refl
text_under_chid1 b c m (x ∷ a) (y ∷ d) = refl

has_announcement :
    (b c m a d : Bytes) → has_any (codes "announcement_bundle_hash") (fields b c m a d) ≡ nonempty a
has_announcement b c m [] [] = refl
has_announcement b c m [] (y ∷ d) = refl
has_announcement b c m (x ∷ a) d = refl

has_chid1 : (b c m a d : Bytes) → has_any (codes "chid1") (fields b c m a d) ≡ nonempty d
has_chid1 b c m [] [] = refl
has_chid1 b c m [] (y ∷ d) = refl
has_chid1 b c m (x ∷ a) [] = refl
has_chid1 b c m (x ∷ a) (y ∷ d) = refl

shown_bytes-full : (n : ℕ) (s : Bytes) → Text n s → shown_bytes n (strncpy n s) ≡ s
shown_bytes-full n s (nul_free, full) =
    subst (λ m. shown_bytes m (strncpy m s) ≡ s) full
      (ap (shown_bytes (length s)) (strncpy-length s nul_free)
        ∙ ap c_str (take-length s)
        ∙ c_str_lem s nul_free)

module _ {j : JsonTree} (l : JsonLaws j) where
  mam_members-build :
      (b c m a d : Bytes) (o : j.Json)
      → mam_members j
          (record {
            bundle_hash = b;
            chid = c;
            msg_id = m;
            announcement_bundle_hash = a;
            chid1 = d;
          })
          o
        ≡ build l o (fields b c m a d)
  mam_members-build b c m [] [] o = refl
  mam_members-build b c m [] (y ∷ d) o = refl
  mam_members-build b c m (x ∷ a) [] o = refl
  mam_members-build b c m (x ∷ a) (y ∷ d) o = refl

  module _ (o : j.Json) (made : j.create_object ≡ some o) (ms : Members) where
    -- A member that has the buffer's size is stored by its setter.
    set_member-build :
        (name s : Bytes) (n : ℕ) (set : Option SendMamRes → Option Bytes → Outcome SendMamRes)
        (res : SendMamRes)
        → text_under name ms ≡ some s
        → Text n s
        → set_member j (build l o ms) name n set res ≡ set (some res) (some (strncpy n s))
    set_member-build name s n set res h (nul_free, full) =
        ap (λ r. or_error j serializer_null r >>? λ text. set (some res) (some text))
          (ta_json_get_string-build l n ms o name s (l.get-create o name made) h nul_free)

    set_full :
        (name s : Bytes) (n : ℕ) (set : Option SendMamRes → Option Bytes → Outcome SendMamRes)
        (res : SendMamRes) (put : Bytes → SendMamRes)
        → text_under name ms ≡ some s
        → Text n s
        → ((x : Bytes) → set (some res) (some x) ≡ done (put (shown_bytes n x)))
        → set_member j (build l o ms) name n set res ≡ done (put s)
    set_full name s n set res put h text sets =
        set_member-build name s n set res h text
        ∙ sets (strncpy n s)
        ∙ ap (λ x. done (put x)) (shown_bytes-full n s text)

    taken :
        (name s : Bytes) (n : ℕ) (set : Option SendMamRes → Option Bytes → Outcome SendMamRes)
        (res : SendMamRes)
        → text_under name ms ≡ given s
        → (s ≡ []) ⊎ Text n s
        → (if nonempty s then set_member j (build l o ms) name n set res else done res)
          ≡ (if nonempty s then set (some res) (some (strncpy n s)) else done res)
    taken name [] n set res h full = refl
    taken name (c ∷ s) n set res h (inl empty) = absurd cc
    taken name (c ∷ s) n set res h (inr text) = set_member-build name (c ∷ s) n set res h text

    -- An optional one is stored if it was written.
    set_optional-build :
        (name s : Bytes) (n : ℕ) (set : Option SendMamRes → Option Bytes → Outcome SendMamRes)
        (res : SendMamRes)
        → has_any name ms ≡ nonempty s
        → text_under name ms ≡ given s
        → (s ≡ []) ⊎ Text n s
        → set_optional j (build l o ms) name n set res
          ≡ (if nonempty s then set (some res) (some (strncpy n s)) else done res)
    set_optional-build name s n set res has h full =
        ap (λ b. if b then set_member j (build l o ms) name n set res else done res)
          (has-build l ms o name ∙ ap (λ b. b || has_any name ms) (l.has-create o name made) ∙ has)
        ∙ taken name s n set res h full

  with_chid1 :
      (s : Bytes) (res : SendMamRes)
      → res.chid1 ≡ []
      → (s ≡ []) ⊎ Text num_trytes_hash s
      → (if nonempty s
          then send_mam_res_set_chid1 (some res) (some (strncpy num_trytes_hash s))
          else done res)
        ≡ done (record res { chid1 = s })
  unfolding send_mam_res_set_chid1
  with_chid1 [] res unset full = ap (λ s. done (record res { chid1 = s })) unset
  with_chid1 (c ∷ s) res unset (inl empty) = absurd cc
  with_chid1 (c ∷ s) res unset (inr text) =
      ap (λ s. done (record res { chid1 = s })) (shown_bytes-full num_trytes_hash (c ∷ s) text)

  with_announcement :
      (s : Bytes) (res : SendMamRes)
      → res.announcement_bundle_hash ≡ []
      → (s ≡ []) ⊎ Text num_trytes_hash s
      → (if nonempty s
          then send_mam_res_set_announce_bundle_hash (some res) (some (strncpy num_trytes_hash s))
          else done res)
        ≡ done (record res { announcement_bundle_hash = s })
  unfolding send_mam_res_set_announce_bundle_hash
  with_announcement [] res unset full =
      ap (λ s. done (record res { announcement_bundle_hash = s })) unset
  with_announcement (c ∷ s) res unset (inl empty) = absurd cc
  with_announcement (c ∷ s) res unset (inr text) =
      ap (λ s. done (record res { announcement_bundle_hash = s }))
        (shown_bytes-full num_trytes_hash (c ∷ s) text)

  -- The object that a response is written as is read as the response.
  send_mam_res_of_json-members :
      (res : SendMamRes) (o : j.Json)
      → j.create_object ≡ some o
      → IsFilled res
      → send_mam_res_of_json j send_mam_res_new (mam_members j res o) ≡ done res
  unfolding send_mam_res_new send_mam_res_set_channel_id send_mam_res_set_msg_id
      send_mam_res_set_bundle_hash
  send_mam_res_of_json-members res o made full =
      let b = res.bundle_hash in
      let c = res.chid in
      let m = res.msg_id in
      let a = res.announcement_bundle_hash in
      let d = res.chid1 in
      let ms = fields_of res in
      let p = build l o ms in
      let later1 : SendMamRes → Outcome SendMamRes =
        set_optional j p (codes "announcement_bundle_hash") num_trytes_hash
          send_mam_res_set_announce_bundle_hash in
      let later2 : SendMamRes → Outcome SendMamRes =
        λ r. set_optional j p (codes "chid1") num_trytes_hash send_mam_res_set_chid1 r >>? later1 in
      let later3 : SendMamRes → Outcome SendMamRes = λ r.
        set_member j p (codes "bundle_hash") num_trytes_hash send_mam_res_set_bundle_hash r
        >>? later2 in
      let later4 : SendMamRes → Outcome SendMamRes = λ r.
        set_member j p (codes "msg_id") num_trytes_mam_msg_id send_mam_res_set_msg_id r
        >>? later3 in
      let r1 = record send_mam_res_new { chid = c } in
      let r2 = record r1 { msg_id = m } in
      let r3 = record r2 { bundle_hash = b } in
      let r4 = record r3 { chid1 = d } in
      let set1 =
        set_full o made ms (codes "chid") c num_trytes_hash send_mam_res_set_channel_id
          send_mam_res_new (λ s. record send_mam_res_new { chid = s }) refl full.chid (λ x. refl) in
      let set2 =
        set_full o made ms (codes "msg_id") m num_trytes_mam_msg_id send_mam_res_set_msg_id r1
          (λ s. record r1 { msg_id = s }) refl full.msg_id (λ x. refl) in
      let set3 =
        set_full o made ms (codes "bundle_hash") b num_trytes_hash send_mam_res_set_bundle_hash r2
          (λ s. record r2 { bundle_hash = s }) refl full.bundle_hash (λ x. refl) in
      let set4 =
        set_optional-build o made ms (codes "chid1") d num_trytes_hash send_mam_res_set_chid1 r3
          (has_chid1 b c m a d) (text_under_chid1 b c m a d) full.chid1
        ∙ with_chid1 d r3 refl full.chid1 in
      let set5 =
        set_optional-build o made ms (codes "announcement_bundle_hash") a num_trytes_hash
          send_mam_res_set_announce_bundle_hash r4 (has_announcement b c m a d)
          (text_under_announcement b c m a d) full.announcement
        ∙ with_announcement a r4 refl full.announcement in
      ap (send_mam_res_of_json j send_mam_res_new) (mam_members-build b c m a d o)
      ∙ ap (λ r. r >>? later4) set1
      ∙ ap (λ r. r >>? later3) set2
      ∙ ap (λ r. r >>? later2) set3
      ∙ ap (λ r. r >>? later1) set4
      ∙ set5

  -- If a response whose texts have their full lengths is written as a text, reading that text into a new response
  -- gives the response.
  pub send_mam_message_res_deserialize-serialize :
      (res : SendMamRes) (text : Bytes)
      → IsFilled res
      → send_mam_message_res_serialize j (some res) none ≡ done text
      → send_mam_message_res_deserialize j (some text) send_mam_res_new ≡ done res
  unfolding send_mam_message_res_serialize send_mam_message_res_deserialize
  send_mam_message_res_deserialize-serialize res text full h =
      let (o, made, p, q, out) =
        filled-done j serializer_json_create (uuid_or_result j (some res) none) j.create_object text
          h in
      ap (read_json j (send_mam_res_of_json j send_mam_res_new)) (l.parse-print made text out)
      ∙ ap (send_mam_res_of_json j send_mam_res_new) (sym (done-inj q))
      ∙ send_mam_res_of_json-members res o p full
