-- ===== src/Http/Route.antt =====
-- connectivity/http/http.c, ta_http_process_request: the request's path picks the operation that answers.
use tangle_accelerator.Base.{ℕ, Bool, true, false, Option, none, some, Bytes, if◌then◌else◌, codes}
use tangle_accelerator.Errors.{Status, ok}
use tangle_accelerator.Exec.{Outcome, done, fail}
use tangle_accelerator.Http.{Libs, api_path_matcher, set_response_content, ta_get_url_parameter}

-- The code and the text of an answer.
abbrev pub Answer : Type 0
Answer = ℕ × Option Bytes

abbrev pub mhd_http_ok : ℕ
mhd_http_ok = 200

abbrev pub mhd_http_bad_request : ℕ
mhd_http_bad_request = 400

abbrev pub mhd_http_method_not_allowed : ℕ
mhd_http_method_not_allowed = 405

-- accelerator/core/apis.h and proxy_apis.h, as far as the server calls them, over the state `W` of the
-- core: each takes a parameter of the URL or the payload, and gives its status and what it stored in `*out`.
pub record Apis (W : Type 0) : Type 0 where
  pub api_find_transactions_obj_by_tag : Bytes → W → (Status × Option Bytes) × W
  pub api_find_transactions_by_tag : Bytes → W → (Status × Option Bytes) × W
  pub api_fetch_buffered_request_status : Bytes → W → (Status × Option Bytes) × W
  pub api_find_transaction_object_single : Bytes → W → (Status × Option Bytes) × W
  pub api_find_transaction_objects : Bytes → W → (Status × Option Bytes) × W
  pub api_send_transfer : Bytes → W → (Status × Option Bytes) × W
  pub api_recv_mam_message : Bytes → W → (Status × Option Bytes) × W
  pub api_send_mam_message : Bytes → W → (Status × Option Bytes) × W
  pub api_get_node_status : W → (Status × Option Bytes) × W
  pub api_get_identity_info_by_hash : Bytes → W → (Status × Option Bytes) × W
  pub api_get_identity_info_by_id : Bytes → W → (Status × Option Bytes) × W
  pub api_find_transactions_by_id : Bytes → W → (Status × Option Bytes) × W
  pub api_send_trytes : Bytes → W → (Status × Option Bytes) × W
  pub api_get_ta_info : W → (Status × Option Bytes) × W
  pub proxy_api_wrapper : Bytes → W → (Status × Option Bytes) × W

-- The paths, in the order of the tests; those on an identity exist with DB_ENABLE.
abbrev pub mam_path : Bytes
mam_path = codes "/mam/(recv|send)[/]?"

abbrev pub mam_recv_path : Bytes
mam_recv_path = codes ".*/recv.*"

abbrev pub fetch_path : Bytes
fetch_path =
    codes "/fetch/[a-fA-F0-9]{8}-[a-fA-F0-9]{4}-[a-fA-F0-9]{4}-[a-fA-F0-9]{4}-[a-fA-F0-9]{12}[/]?"

module _ (l : Libs) {W : Type 0} (api : Apis W) where
  -- `return set_response_content(ret, out)` behind a call.
  unfoldable pub respond : (Status × Option Bytes) × W → Answer × W
  respond ((ret, out), w) = (set_response_content ret out, w)

  -- The processors that read the payload or nothing.
  unfoldable pub process_payload :
      (Bytes → W → (Status × Option Bytes) × W) → Bytes → W → Answer × W
  process_payload call payload w = respond (call payload w)

  abbrev pub with_parameter :
      (Bytes → W → (Status × Option Bytes) × W) → Outcome Bytes → W → Answer × W
  with_parameter call (fail ret) w = respond ((ret, none), w)
  with_parameter call (done param) w = respond (call param w)

  -- The processors that read one parameter of the URL.
  unfoldable pub process_parameter :
      (Bytes → W → (Status × Option Bytes) × W) → Bytes → ℕ → Bytes → W → Answer × W
  unfolding set_response_content ta_get_url_parameter
  process_parameter call url index heap w =
      with_parameter call (ta_get_url_parameter url index heap) w

  abbrev pub process_invalid_path_request : Answer
  process_invalid_path_request =
      (mhd_http_bad_request, some (l.message_json (codes "Invalid path")))

  abbrev pub process_method_not_allowed_request : Answer
  process_method_not_allowed_request =
      (mhd_http_method_not_allowed, some (l.message_json (codes "Method not allowed")))

  abbrev pub process_options_request : Answer
  process_options_request = (mhd_http_ok, some (l.message_json (codes "OPTIONS request")))

  -- `payload != NULL ? process : method not allowed`
  unfoldable pub needs_payload : Option Bytes → (Bytes → W → Answer × W) → W → Answer × W
  needs_payload none process w = (process_method_not_allowed_request, w)
  needs_payload (some payload) process w = process payload w

  abbrev pub is_ok_match : Status → Bool
  is_ok_match ok = true
  is_ok_match _ = false

  unfoldable pub matches : Bytes → Bytes → Bool
  unfolding api_path_matcher
  matches url regex_rule = is_ok_match (api_path_matcher l url (some regex_rule))

  unfoldable pub mam_request : Bytes → Bytes → W → Answer × W
  unfolding matches
  mam_request url payload w =
      if matches url mam_recv_path
      then process_payload (λ p v. api.api_recv_mam_message p v) payload w
      else process_payload (λ p v. api.api_send_mam_message p v) payload w

  -- The tests behind the database ones.
  unfoldable pub late_routes : Bytes → Option Bytes → W → Answer × W
  unfolding matches
  late_routes url payload w =
      if matches url (codes "/transaction[/]?")
      then needs_payload payload (process_payload (λ p v. api.api_send_transfer p v)) w
      else if matches url (codes "/tryte[/]?")
      then needs_payload payload (process_payload (λ p v. api.api_send_trytes p v)) w
      else if matches url (codes "/info[/]?")
      then respond (api.api_get_ta_info w)
      else if matches url (codes "/")
      then needs_payload payload (process_payload (λ p v. api.proxy_api_wrapper p v)) w
      else (process_invalid_path_request, w)

  unfoldable pub db_routes : Bytes → Option Bytes → Bytes → W → Answer × W
  unfolding late_routes matches process_parameter
  db_routes url payload heap w =
      if matches url (codes "/identity/hash/[A-Z9]{81}[/]?")
      then process_parameter (λ p v. api.api_get_identity_info_by_hash p v) url 2 heap w
      else if matches url (codes "/identity/id/[a-z0-9-]{36}[/]?")
      then process_parameter (λ p v. api.api_get_identity_info_by_id p v) url 2 heap w
      else if matches url (codes "/transaction/id/[a-z0-9-]{36}[/]?")
      then process_parameter (λ p v. api.api_find_transactions_by_id p v) url 2 heap w
      else late_routes url payload w

  unfoldable pub early_routes : Bool → Bytes → Option Bytes → Bytes → W → Answer × W
  unfolding db_routes late_routes matches process_parameter mam_request
  early_routes db_enable url payload heap w =
      if matches url mam_path
      then needs_payload payload (mam_request url) w
      else if matches url fetch_path
      then process_parameter (λ p v. api.api_fetch_buffered_request_status p v) url 1 heap w
      else if matches url (codes "/transaction/[A-Z9]{81}[/]?")
      then process_parameter (λ p v. api.api_find_transaction_object_single p v) url 1 heap w
      else if matches url (codes "/transaction/object[/]?")
      then needs_payload payload (process_payload (λ p v. api.api_find_transaction_objects p v)) w
      else if matches url (codes "/tag/[A-Z9]{1,27}/hashes[/]?")
      then process_parameter (λ p v. api.api_find_transactions_by_tag p v) url 1 heap w
      else if matches url (codes "/tag/[A-Z9]{1,27}[/]?")
      then process_parameter (λ p v. api.api_find_transactions_obj_by_tag p v) url 1 heap w
      else if matches url (codes "/status[/]?")
      then respond (api.api_get_node_status w)
      else if db_enable
      then db_routes url payload heap w
      else late_routes url payload w

  unfoldable pub ta_http_process_request :
      Bool → Bytes → Option Bytes → Bool → Bytes → W → Answer × W
  unfolding early_routes
  ta_http_process_request db_enable url payload options heap w =
      if options then (process_options_request, w) else early_routes db_enable url payload heap w
