-- ===== src/Errors/Codes.antt =====
-- common/ta_errors.h, common/ta_errors.c: which statuses their numbers and messages tell apart.
use Prim.Native.String.{String}
use mathlib.Core.Path.{◌≡◌, refl, sym, ap, ◌∙◌}
use mathlib.Core.Logic.{◌↔◌}
use mathlib.Core.Option.{Option, none, some}
use mathlib.Core.List.{List, [], ◌∷◌}
use text.Mathlib.Text.{◌==◌ as str_eq}
use Prim.Native.Nat.{ℕ}
use tangle_accelerator.Base.{◌==◌, if◌then◌else◌}
use tangle_accelerator.Errors.{Status, code, ta_error_to_string}

all_statuses : List Status
all_statuses =
    Status.ok ∷ Status.http_ok ∷ Status.http_bad_request ∷ Status.http_not_found
    ∷ Status.http_internal_service_error ∷ Status.oom ∷ Status.null ∷ Status.ta_wrong_request_obj
    ∷ Status.ta_logger_init_fail ∷ Status.cclient_not_found ∷ Status.cclient_failed_response
    ∷ Status.cclient_invalid_flex_trits ∷ Status.cclient_hash ∷ Status.cclient_json_key
    ∷ Status.cclient_json_parse ∷ Status.cclient_flex_trits ∷ Status.cclient_json_create
    ∷ Status.serializer_json_create ∷ Status.serializer_null ∷ Status.serializer_json_parse
    ∷ Status.serializer_json_parse_not_tryte ∷ Status.serializer_invalid_req
    ∷ Status.serializer_message_overrun ∷ Status.serializer_key_not_exists
    ∷ Status.serializer_value_empty ∷ Status.serializer_value_invlid ∷ Status.cache_failed_response
    ∷ Status.cache_off ∷ Status.cache_init_fini ∷ Status.cache_lock_failure ∷ Status.mam_not_found
    ∷ Status.mam_failed_init ∷ Status.mam_failed_response ∷ Status.mam_failed_destroyed
    ∷ Status.mam_no_payload ∷ Status.mam_failed_write ∷ Status.mam_file_save
    ∷ Status.mam_all_mss_keys_used ∷ Status.mam_failed_create_or_get_id
    ∷ Status.mam_failed_write_header ∷ Status.mam_read_message_error
    ∷ Status.mam_invaid_chid_or_epid ∷ Status.mam_exceeded_chid_iter ∷ Status.conf_missing_argument
    ∷ Status.conf_unknown_option ∷ Status.conf_lock_init ∷ Status.conf_lock_destroy
    ∷ Status.conf_parser_error ∷ Status.conf_fopen_error ∷ Status.utils_wrong_input_arg
    ∷ Status.utils_timer_error ∷ Status.utils_timer_expired ∷ Status.utils_https_send_error
    ∷ Status.utils_https_init_error ∷ Status.utils_https_x509_error ∷ Status.utils_https_conn_error
    ∷ Status.utils_https_ssl_error ∷ Status.utils_https_response_error ∷ Status.utils_text_serialize
    ∷ Status.utils_text_deserialize ∷ Status.utils_overflow_error ∷ Status.utils_cipher_error
    ∷ Status.http_invalid_regex ∷ Status.http_url_not_match ∷ Status.http_url_parse_error
    ∷ Status.http_command_not_match ∷ Status.mqtt_init ∷ Status.mqtt_mosq_obj_init_error
    ∷ Status.mqtt_topic_set ∷ Status.mqtt_opt_set ∷ Status.mqtt_connect ∷ Status.mqtt_invalid_tag
    ∷ Status.storage_connect_fail ∷ Status.storage_invalid_input
    ∷ Status.storage_cassandra_query_fail ∷ Status.core_node_unsync ∷ Status.endpoint_device_init
    ∷ Status.endpoint_device_fini ∷ Status.endpoint_uart ∷ Status.endpoint_uart_set_attr
    ∷ Status.endpoint_sec_fault ∷ Status.endpoint_sec_item_not_found
    ∷ Status.endpoint_sec_unavailable ∷ Status.endpoint_send_transfer
    ∷ Status.endpoint_get_key_error ∷ Status.endpoint_get_device_id_error
    ∷ Status.endpoint_dns_resolve_error ∷ Status.endpoint_can_open_error
    ∷ Status.endpoint_can_send_error ∷ Status.endpoint_can_recv_error
    ∷ Status.endpoint_can_close_error ∷ Status.endpoint_uart_write_error
    ∷ Status.endpoint_uart_read_error ∷ Status.endpoint_set_key_error ∷ Status.crypto_rand_err
    ∷ Status.crypto_genkey_err ∷ Status.crypto_secret_err ∷ []

-- The first status of the list with the number `n`.
find_code : ℕ → List Status → Option Status
unfolding code
find_code n [] = none
find_code n (s ∷ l) = if code s == n then some s else find_code n l

find_message : String → List Status → Option Status
unfolding ta_error_to_string
find_message m [] = none
find_message m (s ∷ l) = if str_eq (ta_error_to_string s) m then some s else find_message m l

-- Two enumerators of the header have one number; `same_number` names that pair once.
abbrev pub same_number : Status → Status
same_number Status.serializer_value_invlid = Status.serializer_value_empty
same_number s = s

-- The enumerators with no case of their own fall to the `default` message.
abbrev pub same_message : Status → Status
same_message Status.serializer_value_empty = Status.serializer_key_not_exists
same_message Status.serializer_value_invlid = Status.serializer_key_not_exists
same_message s = s

find_code-code : (s : Status) → find_code (code s) all_statuses ≡ some (same_number s)
unfolding find_code all_statuses
find_code-code Status.ok = refl
find_code-code _ = refl

find_message-message :
    (s : Status) → find_message (ta_error_to_string s) all_statuses ≡ some (same_message s)
unfolding find_message all_statuses
find_message-message Status.ok = refl
find_message-message _ = refl

code-same_number : (s : Status) → code (same_number s) ≡ code s
unfolding code
code-same_number Status.ok = refl
code-same_number _ = refl

message-same_message : (s : Status) → ta_error_to_string (same_message s) ≡ ta_error_to_string s
unfolding ta_error_to_string
message-same_message Status.ok = refl
message-same_message _ = refl

some-eq : {s t : Status} → some s ≡ some t → s ≡ t
some-eq h = cc

-- A function with a left inverse up to `canon` tells apart what `canon` does, and no more.
module _ {A : Type 0} (f : Status → A) (find : A → Option Status) (canon : Status → Status)
    (left : (s : Status) → find (f s) ≡ some (canon s))
    (keeps : (s : Status) → f (canon s) ≡ f s) where
  eq_iff-canon : (s t : Status) → (f s ≡ f t) ↔ (canon s ≡ canon t)
  eq_iff-canon s t =
      (λ h. some-eq (sym (left s) ∙ ap find h ∙ left t), λ h. sym (keeps s) ∙ ap f h ∙ keeps t)

-- Two statuses have the same number exactly if they are the same status, where VALUE_EMPTY and
-- VALUE_INVLID of the serializer count as one.
pub code-eq_iff : (s t : Status) → (code s ≡ code t) ↔ (same_number s ≡ same_number t)
code-eq_iff =
    eq_iff-canon code (λ n. find_code n all_statuses) same_number find_code-code code-same_number

-- Two statuses have the same message exactly if they are the same status, where the serializer's
-- KEY_NOT_EXISTS, VALUE_EMPTY and VALUE_INVLID count as one.
pub message-eq_iff :
    (s t : Status)
    → (ta_error_to_string s ≡ ta_error_to_string t) ↔ (same_message s ≡ same_message t)
message-eq_iff =
    eq_iff-canon ta_error_to_string (λ m. find_message m all_statuses) same_message
      find_message-message message-same_message
