-- ===== src/Mam.antt =====
-- accelerator/core/mam_core.c: MAM messages, over the MAM library of the IOTA library.
pub mod Channel
pub mod Send
pub mod Receive
pub mod Fresh
pub mod Ends
pub mod Register
pub mod Api
use tangle_accelerator.Base.{
  ℕ, zero, suc, Bool, true, false, ◌||◌, Option, none, some, Bytes, List, [], ◌∷◌, ◌++◌, codes,
  length, take, drop, replicate, mem_eq, bytes_eq, if◌then◌else◌,
}
use tangle_accelerator.Errors.{
  Status, ok, null, mam_failed_init, mam_failed_write, mam_failed_write_header,
}
use tangle_accelerator.Exec.{Outcome, done, fail, Exec, ◌>>=◌, pure, raise}
use tangle_accelerator.Utils.TryteByteConv.{bytes_to_trytes}
use tangle_accelerator.Utils.FillNines.{Padding, returns, fill_nines, num_trytes_tag}
use tangle_accelerator.Serializer.Mam.{num_trytes_mam_msg_id}

-- What mam_api_load gives: RC_OK, RC_UTILS_FAILED_TO_OPEN_FILE, or another result.
pub data Loaded (A : Type 0) : Type 0 where
  loaded : A → Loaded A
  no_file : Loaded A
  unreadable : Loaded A

-- The MAM library over a world and a type of transactions. `none` is a result other than RC_OK, `true` a failure.
pub record MamLib (W Txn : Type 0) : Type 1 where
  pub Api : Type 0
  pub Psks : Type 0
  pub NtruPks : Type 0
  pub NtruSks : Type 0
  pub no_psks : Psks
  pub no_ntru_pks : NtruPks
  pub no_ntru_sks : NtruSks
  -- mam_psk_t_set_add of an ID and a key in trits, and the additions of NTRU keys
  pub psk_add : Psks → Bytes → Bytes → Option Psks
  pub ntru_pk_add : NtruPks → Bytes → Option NtruPks
  pub ntru_sk_add : NtruSks → Bytes → Option NtruSks
  -- the keys of a set in its order, each given to mam_api_add_psk
  pub add_psks : Api → Psks → Option Api
  pub trytes_to_trits : Bytes → Bytes
  pub trits_to_trytes : Bytes → Bytes
  pub ascii_to_trytes : Bytes → Bytes
  -- all that trytes_to_ascii writes for a payload
  pub trytes_to_ascii : Bytes → Bytes
  pub init : Bytes → Option Api
  pub load : Bytes → W → Loaded Api × W
  pub save : Api → Bytes → W → Bool × W
  pub destroy : Api → Bool
  -- mam_api_channel_create of a depth: the channel's ID
  pub channel_create : ℕ → Api → Option Bytes × Api
  -- the IDs of the channels, and of a channel's endpoints, in trits
  pub channel_ids : Api → List Bytes
  pub endpoint_ids : Api → ℕ → List Bytes
  -- mam_mss_next of the channel at a place
  pub mss_next : ℕ → Api → Api
  -- mam_api_bundle_write_header_on_channel: the message's ID in trits
  pub write_header : Bytes → Psks → NtruPks → List Txn → Api → Option (Bytes × List Txn) × Api
  -- mam_api_bundle_write_packet of a last packet with a signature
  pub write_packet : Bytes → Bytes → List Txn → Api → Option (List Txn) × Api
  pub announce_channel : Bytes → Bytes → Psks → NtruPks → List Txn → Api → Option (List Txn) × Api
  -- mam_api_bundle_read: a payload may be NULL or empty
  pub bundle_read : List Txn → Api → Option (Option Bytes) × Api
  pub add_trusted_channel : Bytes → Api → Option Api
  pub trusted_channels : Api → List Bytes
  -- flex_trits_to_trytes: what it writes, from the room for trytes, the trits, their number and that of those to convert
  pub flex_trits_to_trytes : ℕ → Bytes → ℕ → ℕ → Bytes
  pub num_flex_trits_tag : ℕ
  -- the arrays tag_tryte and tag_cursor_tryte of msg_id_exist, which nothing initialises
  pub tag_stack : Bytes
  pub tag_cursor_stack : Bytes
  -- the tag of a pointer
  pub tag_of : Option Txn → Bytes

module _ {W Txn : Type 0} (m : MamLib W Txn) where
  -- mam_encrypt_key_t
  pub record MamEncryptKey : Type 0 where
    pub psks : m.Psks
    pub ntru_pks : m.NtruPks
    pub ntru_sks : m.NtruSks

  abbrev pub no_mam_keys : MamEncryptKey
  no_mam_keys = record { psks = m.no_psks; ntru_pks = m.no_ntru_pks; ntru_sks = m.no_ntru_sks }

  -- The functions act on the MAM object and on the world.
  abbrev pub State : Type 0
  State = m.Api × W

  -- A call of the library that may change the MAM object; the error where it fails.
  abbrev pub or_status : {A : Type 0} → Status → (m.Api → Option A × m.Api) → Exec State A
  or_status s call (api, w) =
      let (r, api') = call api in (elim r [ none ↦ fail s | some a ↦ done a ], (api', w))

  unfoldable pub ta_mam_write_header :
      Bytes → m.Psks → m.NtruPks → List Txn → Exec State (Bytes × List Txn)
  ta_mam_write_header channel_id psks ntru_pks bundle =
      or_status mam_failed_write_header (m.write_header channel_id psks ntru_pks bundle)

  unfoldable pub ta_mam_write_packet : Bytes → Bytes → List Txn → Exec State (List Txn)
  ta_mam_write_packet payload msg_id bundle =
      or_status mam_failed_write (m.write_packet msg_id (m.ascii_to_trytes payload) bundle)

  -- The array behind the conversion of a tag: the number of its flex trits is given for that of its trits, so that an
  -- end of the array may stay what it was.
  abbrev converted : Bytes → Bytes → Bytes
  converted array tag =
      let trytes =
        m.flex_trits_to_trytes num_trytes_tag tag m.num_flex_trits_tag m.num_flex_trits_tag in
      trytes ++ drop (length trytes) array

  -- The loop, with what both arrays hold.
  msg_id_in : Bytes → Bytes → List Bytes → Bool
  msg_id_in tag_tryte tag_cursor_tryte [] = false
  msg_id_in tag_tryte tag_cursor_tryte (tag_cursor ∷ tag_array) =
      let tag_cursor_tryte' = converted tag_cursor_tryte tag_cursor in
      let rest = msg_id_in tag_tryte tag_cursor_tryte' tag_array in
      mem_eq num_trytes_mam_msg_id tag_cursor_tryte' tag_tryte || rest

  unfoldable pub msg_id_exist : List Bytes → Bytes → Bool
  unfolding msg_id_in
  msg_id_exist tag_array tag = msg_id_in (converted m.tag_stack tag) m.tag_cursor_stack tag_array

  -- The place of the first ID that is the given one
  abbrev pub place : ℕ → Bytes → List Bytes → Option ℕ
  place n id [] = none
  place n id (x ∷ xs) = if bytes_eq x id then some n else place (suc n) id xs

  unfoldable pub mam_api_channel_get : Option m.Api → Option Bytes → Option ℕ
  mam_api_channel_get (some api) (some channel_id) =
      place 0 (m.trytes_to_trits channel_id) (m.channel_ids api)
  mam_api_channel_get _ _ = none

  abbrev pub endpoint_of : m.Api → Option Bytes → Option ℕ → Option ℕ
  endpoint_of api (some endpoint_id) (some channel) =
      place 0 (m.trytes_to_trits endpoint_id) (m.endpoint_ids api channel)
  endpoint_of api _ _ = none

  unfoldable pub mam_api_endpoint_get : m.Api → Option Bytes → Option Bytes → Option ℕ
  mam_api_endpoint_get api channel_id endpoint_id =
      endpoint_of api endpoint_id (mam_api_channel_get (some api) channel_id)

  -- The counter stays 0: it is never increased.
  abbrev pub psk_id_of : Padding → Outcome Bytes
  psk_id_of (returns ok (some psk_id)) = done (take num_trytes_tag psk_id)
  psk_id_of (returns ok none) = fail null
  psk_id_of (returns s psk_id) = fail s
  psk_id_of _ = fail null

  abbrev pub psk_id : Outcome Bytes
  psk_id =
      psk_id_of
        (fill_nines (some (replicate 28 0)) (some (bytes_to_trytes (0 ∷ 0 ∷ []))) num_trytes_tag)

  abbrev pub or_init : {A : Type 0} → Option A → Outcome A
  or_init none = fail mam_failed_init
  or_init (some a) = done a

  abbrev pub psk_added : Outcome Bytes → m.Psks → Bytes → Outcome m.Psks
  psk_added (fail s) psks p = fail s
  psk_added (done id) psks p = or_init (m.psk_add psks (m.trytes_to_trits id) (m.trytes_to_trits p))

  -- One loop for each kind of keys
  unfoldable pub add_all : {A : Type 0} → (A → Bytes → Outcome A) → List Bytes → A → Outcome A
  add_all add [] keys = done keys
  add_all add (p ∷ ps) keys = elim (add keys p) [
    | fail s ↦ fail s
    | done keys' ↦ add_all add ps keys'
  ]

  abbrev pub given_keys : Option (List Bytes) → List Bytes
  given_keys none = []
  given_keys (some ps) = ps

  abbrev pub with_sks : MamEncryptKey → Outcome m.NtruSks → Outcome MamEncryptKey
  with_sks keys (fail s) = fail s
  with_sks keys (done sks) = done (record keys { ntru_sks = sks })

  abbrev pub with_pks :
      MamEncryptKey → Option (List Bytes) → Outcome m.NtruPks → Outcome MamEncryptKey
  with_pks keys ntru_sk (fail s) = fail s
  with_pks keys ntru_sk (done pks) =
      with_sks (record keys { ntru_pks = pks })
        (add_all (λ sks p. or_init (m.ntru_sk_add sks (m.trytes_to_trits p))) (given_keys ntru_sk)
          keys.ntru_sks)

  abbrev pub with_psks :
      MamEncryptKey
      → Option (List Bytes)
      → Option (List Bytes)
      → Outcome m.Psks
      → Outcome MamEncryptKey
  with_psks keys ntru_pk ntru_sk (fail s) = fail s
  with_psks keys ntru_pk ntru_sk (done psks) =
      with_pks (record keys { psks = psks }) ntru_sk
        (add_all (λ pks p. or_init (m.ntru_pk_add pks (m.trytes_to_trits p))) (given_keys ntru_pk)
          keys.ntru_pks)

  -- An array that is NULL is passed over.
  unfoldable pub ta_set_mam_key :
      MamEncryptKey
      → Option (List Bytes)
      → Option (List Bytes)
      → Option (List Bytes)
      → Outcome MamEncryptKey
  ta_set_mam_key mam_keys psk ntru_pk ntru_sk =
      with_psks mam_keys ntru_pk ntru_sk (add_all (psk_added psk_id) (given_keys psk) mam_keys.psks)

  abbrev pub loaded_api : Bytes → Loaded m.Api → Outcome m.Api
  loaded_api seed (loaded api) = done api
  loaded_api seed no_file = or_init (m.init seed)
  loaded_api seed unreadable = fail mam_failed_init

  -- `iconf` is the path of the MAM file with the configured seed; the flag says whether `api` points to memory.
  unfoldable pub ta_mam_init : Bool → Option (Bytes × Bytes) → Option Bytes → Exec W m.Api
  ta_mam_init false iconf seed w = (fail null, w)
  ta_mam_init true none none w = (fail null, w)
  ta_mam_init true iconf (some seed) w = (or_init (m.init seed), w)
  ta_mam_init true (some (mam_file_path, conf_seed)) none w =
      let (r, w') = m.load mam_file_path w in (loaded_api conf_seed r, w')
