-- ===== src/Mam/Api.antt =====
-- accelerator/core/apis.c: the operations on MAM channels, from a request's text to a response's.
use tangle_accelerator.Base.{
  ℕ, true, false, Bool, Option, none, some, Bytes, [], ◌∷◌, codes, length, NulFree, ◌==◌, ==_iff,
  if◌then◌else◌, ◌≡◌, refl, sym, ap, ◌∙◌,
}
use tangle_accelerator.Errors.{serializer_value_invlid}
use tangle_accelerator.Exec.{Outcome, done, fail, done-inj, Exec, ◌>>=◌, continue}
use tangle_accelerator.Env.{Env}
use tangle_accelerator.Env.Json.{JsonTree, JsonLaws}
use tangle_accelerator.Env.Laws.{RedisLaws, UuidLaws}
use tangle_accelerator.Env.Iota.{Iota}
use tangle_accelerator.Env.Tangle.{Tangle}
use tangle_accelerator.Cache.{cache_get}
use tangle_accelerator.Cache.Steps.{IsAlive}
use tangle_accelerator.Core.Buffer.{uuid_len}
use tangle_accelerator.Serializer.Helper.{num_trytes_hash}
use tangle_accelerator.Serializer.Requests.{read_json}
use tangle_accelerator.Serializer.Responses.{printed_text-done}
use tangle_accelerator.Serializer.Members.{get-build}
use tangle_accelerator.Serializer.Mam.{RecvMamReq, RecvMamRes}
use tangle_accelerator.Serializer.Mam.Requests.{recv_mam_message_req_deserialize}
use tangle_accelerator.Serializer.Mam.Responses.{recv_mam_message_res_serialize}
use tangle_accelerator.Serializer.Mam.Channel.{
  sized_string, sized_item, user_text, register_mam_channel_req_deserialize,
  register_mam_channel_res_serialize, register_mam_channel_res_deserialize,
}
use tangle_accelerator.Mam.{MamLib}
use tangle_accelerator.Mam.Receive.{ta_recv_mam_message, ta_register_mam_channel}
use tangle_accelerator.Mam.Register.{ta_register_mam_channel-get}

abbrev known : {W A : Type 0} → Outcome A → Exec W A
known r w = (r, w)

module _ (e : Env) (state : Bool) (j : JsonTree) where
  -- `timeout` is the cache's; the array of the UUID is a C string.
  unfoldable pub api_register_mam_channel : ℕ → Option Bytes → Exec e.World Bytes
  api_register_mam_channel timeout obj =
      known (register_mam_channel_req_deserialize j obj true) >>= λ seed.
      ta_register_mam_channel e state timeout seed >>= λ uuid.
      known (register_mam_channel_res_serialize j (some uuid))

  -- `req` and `res` are a new request and a new response; there is memory for them.
  module _ (i : Iota e.World) (t : Tangle i) (m : MamLib e.World i.Txn) (behind : Bytes → Bytes)
      (req : RecvMamReq) (res : RecvMamRes) where
    unfoldable pub api_recv_mam_message : Bytes → Bytes → Option Bytes → Exec e.World Bytes
    api_recv_mam_message mam_file_path seed obj =
        known (recv_mam_message_req_deserialize j obj (some req)) >>= λ r.
        ta_recv_mam_message e state i t m mam_file_path seed r res >>= λ received.
        known (recv_mam_message_res_serialize j behind (some received))

module _ {j : JsonTree} (l : JsonLaws j) where
  user_id_read :
      (uuid text : Bytes) (root : Option j.Json)
      → NulFree uuid
      → length uuid ≡ uuid_len
      → j.create_object ≡ root
      → user_text j uuid root ≡ done text
      → register_mam_channel_res_deserialize j (some text) true ≡ done uuid
  unfolding register_mam_channel_res_deserialize
  user_id_read uuid text none n full new h = absurd cc
  user_id_read uuid text (some o) n full new h =
      let object = j.add_string_to_object o (codes "user-id") uuid in
      let (x, made, got) =
        get-build l ((codes "user-id", uuid) ∷ []) o (codes "user-id") uuid
          (l.get-create o (codes "user-id") new) refl in
      ap (read_json j (λ p. sized_item j uuid_len (j.get_object_item p (codes "user-id"))))
        (l.parse-print object text (printed_text-done j (j.print_unformatted object) text h))
      ∙ ap (sized_item j uuid_len) got
      ∙ ap (sized_string j uuid_len) (l.valuestring-create uuid x n made)
      ∙ ap (λ b. if b then done uuid else fail serializer_value_invlid)
          ((==_iff (length uuid) uuid_len).1 full)

  checked :
      (b : Bool) (s seed : Bytes)
      → (if b then done s else fail serializer_value_invlid) ≡ done seed
      → (b ≡ true) × (s ≡ seed)
  checked true s seed h = (refl, done-inj h)
  checked false s seed h = absurd cc

  string_length :
      (s : Option Bytes) (seed : Bytes)
      → sized_string j num_trytes_hash s ≡ done seed
      → length seed ≡ num_trytes_hash
  string_length none seed h = absurd cc
  string_length (some s) seed h =
      let (is, same) = checked (length s == num_trytes_hash) s seed h in
      ap length (sym same) ∙ (==_iff (length s) num_trytes_hash).0 is

  item_length :
      (item : Option j.Json) (seed : Bytes)
      → sized_item j num_trytes_hash item ≡ done seed
      → length seed ≡ num_trytes_hash
  item_length none seed h = absurd cc
  item_length (some item) seed h = string_length (j.valuestring item) seed h

  json_length :
      (p : Option j.Json) (seed : Bytes)
      → read_json j (λ o. sized_item j num_trytes_hash (j.get_object_item o (codes "seed"))) p
        ≡ done seed
      → length seed ≡ num_trytes_hash
  json_length none seed h = absurd cc
  json_length (some o) seed h = item_length (j.get_object_item o (codes "seed")) seed h

  seed_length :
      (obj seed : Bytes)
      → register_mam_channel_req_deserialize j (some obj) true ≡ done seed
      → length seed ≡ num_trytes_hash
  unfolding register_mam_channel_req_deserialize
  seed_length obj seed h = json_length (j.parse obj) seed h

  user_id_told :
      (uuid text : Bytes)
      → NulFree uuid
      → length uuid ≡ uuid_len
      → register_mam_channel_res_serialize j (some uuid) ≡ done text
      → register_mam_channel_res_deserialize j (some text) true ≡ done uuid
  unfolding register_mam_channel_res_serialize
  user_id_told uuid text n full h = user_id_read uuid text j.create_object n full refl h

  module _ {e : Env} (r : RedisLaws e) (alive : IsAlive r) (u : UuidLaws e r) where
    -- While redis answers, if a request's text is read as a seed without a NUL, the new UUID is not in use, and the
    -- request is answered with a text, then what a client reads from that text is a UUID for which the cache tells the
    -- seed.
    pub api_register_mam_channel-get :
        (timeout : ℕ) (obj seed text : Bytes) (w : e.World)
        → register_mam_channel_req_deserialize j (some obj) true ≡ done seed
        → NulFree seed
        → r.strings w (e.new_uuid w).0 ≡ none
        → r.items w (e.new_uuid w).0 ≡ []
        → (api_register_mam_channel e true j timeout (some obj) w).0 ≡ done text
        → (uuid : Bytes) × (register_mam_channel_res_deserialize j (some text) true ≡ done uuid)
          × ((cache_get e true
                (some uuid)
                (api_register_mam_channel e true j timeout (some obj) w).1).0
              ≡ done seed)
    unfolding api_register_mam_channel
    api_register_mam_channel-get timeout obj seed text w read nul_free no_string no_items h =
        let uuid = (e.new_uuid w).0 in
        let told : Bytes → Exec e.World Bytes =
          λ id v. (register_mam_channel_res_serialize j (some id), v) in
        let register : Bytes → Exec e.World Bytes =
          λ s. ta_register_mam_channel e true timeout s >>= told in
        let w' = (ta_register_mam_channel e true timeout seed w).1 in
        let (stored, got) =
          ta_register_mam_channel-get r alive u timeout seed w (seed_length obj seed read) nul_free
            no_string no_items in
        let path : api_register_mam_channel e true j timeout (some obj) w ≡ told uuid w' =
          ap (λ o. continue o register w) read ∙ ap (λ o. continue o told w') stored in
        (
          uuid,
          user_id_told uuid text (u.uuid_text w) (u.uuid_length w) (sym (ap (λ q. q.0) path) ∙ h),
          ap (λ q. (cache_get e true (some uuid) q.1).0) path ∙ got,
        )
