-- ===== src/Errors.antt =====
-- common/ta_errors.h and common/ta_errors.c: the status codes of the whole program, their numbers
-- and their messages. SC_X of the source is the constructor `x`; C's `ret == SC_X` compares `code`s.
pub mod Codes
use Prim.Native.Nat.{ℕ, ◌*◌, ◌^◌, bit_or}
use Prim.Native.String.{String}
use mathlib.Core.Bool.{Bool, true, false}

pub data Status : Type 0 where
  ok : Status
  http_ok : Status
  http_bad_request : Status
  http_not_found : Status
  http_internal_service_error : Status
  oom : Status
  null : Status
  ta_wrong_request_obj : Status
  ta_logger_init_fail : Status
  cclient_not_found : Status
  cclient_failed_response : Status
  cclient_invalid_flex_trits : Status
  cclient_hash : Status
  cclient_json_key : Status
  cclient_json_parse : Status
  cclient_flex_trits : Status
  cclient_json_create : Status
  serializer_json_create : Status
  serializer_null : Status
  serializer_json_parse : Status
  serializer_json_parse_not_tryte : Status
  serializer_invalid_req : Status
  serializer_message_overrun : Status
  serializer_key_not_exists : Status
  serializer_value_empty : Status
  serializer_value_invlid : Status
  cache_failed_response : Status
  cache_off : Status
  cache_init_fini : Status
  cache_lock_failure : Status
  mam_not_found : Status
  mam_failed_init : Status
  mam_failed_response : Status
  mam_failed_destroyed : Status
  mam_no_payload : Status
  mam_failed_write : Status
  mam_file_save : Status
  mam_all_mss_keys_used : Status
  mam_failed_create_or_get_id : Status
  mam_failed_write_header : Status
  mam_read_message_error : Status
  mam_invaid_chid_or_epid : Status
  mam_exceeded_chid_iter : Status
  conf_missing_argument : Status
  conf_unknown_option : Status
  conf_lock_init : Status
  conf_lock_destroy : Status
  conf_parser_error : Status
  conf_fopen_error : Status
  utils_wrong_input_arg : Status
  utils_timer_error : Status
  utils_timer_expired : Status
  utils_https_send_error : Status
  utils_https_init_error : Status
  utils_https_x509_error : Status
  utils_https_conn_error : Status
  utils_https_ssl_error : Status
  utils_https_response_error : Status
  utils_text_serialize : Status
  utils_text_deserialize : Status
  utils_overflow_error : Status
  utils_cipher_error : Status
  http_invalid_regex : Status
  http_url_not_match : Status
  http_url_parse_error : Status
  http_command_not_match : Status
  mqtt_init : Status
  mqtt_mosq_obj_init_error : Status
  mqtt_topic_set : Status
  mqtt_opt_set : Status
  mqtt_connect : Status
  mqtt_invalid_tag : Status
  storage_connect_fail : Status
  storage_invalid_input : Status
  storage_cassandra_query_fail : Status
  core_node_unsync : Status
  endpoint_device_init : Status
  endpoint_device_fini : Status
  endpoint_uart : Status
  endpoint_uart_set_attr : Status
  endpoint_sec_fault : Status
  endpoint_sec_item_not_found : Status
  endpoint_sec_unavailable : Status
  endpoint_send_transfer : Status
  endpoint_get_key_error : Status
  endpoint_get_device_id_error : Status
  endpoint_dns_resolve_error : Status
  endpoint_can_open_error : Status
  endpoint_can_send_error : Status
  endpoint_can_recv_error : Status
  endpoint_can_close_error : Status
  endpoint_uart_write_error : Status
  endpoint_uart_read_error : Status
  endpoint_set_key_error : Status
  crypto_rand_err : Status
  crypto_genkey_err : Status
  crypto_secret_err : Status

-- SC_MODULE_X is the module number shifted by SC_MODULE_SHIFT
abbrev in_module : ℕ → ℕ
in_module m = m * 2 ^ 8

-- SC_SEVERITY_X is the severity number shifted by SC_SEVERITY_SHIFT
abbrev severity : ℕ → ℕ
severity s = s * 2 ^ 6

abbrev minor : ℕ
minor = severity 0

abbrev major : ℕ
major = severity 2

abbrev fatal : ℕ
fatal = severity 3

abbrev m_ta : ℕ
m_ta = in_module 0x01

abbrev m_cclient : ℕ
m_cclient = in_module 0x02

abbrev m_serializer : ℕ
m_serializer = in_module 0x03

abbrev m_cache : ℕ
m_cache = in_module 0x04

abbrev m_mam : ℕ
m_mam = in_module 0x05

abbrev m_conf : ℕ
m_conf = in_module 0x06

abbrev m_utils : ℕ
m_utils = in_module 0x07

abbrev m_http : ℕ
m_http = in_module 0x08

abbrev m_mqtt : ℕ
m_mqtt = in_module 0x09

abbrev m_storage : ℕ
m_storage = in_module 0x0a

abbrev m_core : ℕ
m_core = in_module 0x0b

abbrev m_endpoint : ℕ
m_endpoint = in_module 0x0c

abbrev m_crypto : ℕ
m_crypto = in_module 0x0d

-- The number of an enumerator: error number, module and severity, or-ed as in the header.
unfoldable pub code : Status → ℕ
code ok = 0
code http_ok = 200
code http_bad_request = 400
code http_not_found = 404
code http_internal_service_error = 500
code oom = bit_or (bit_or 0x01 m_ta) fatal
code null = bit_or (bit_or 0x02 m_ta) fatal
code ta_wrong_request_obj = bit_or (bit_or 0x03 m_ta) fatal
code ta_logger_init_fail = bit_or (bit_or 0x04 m_ta) major
code cclient_not_found = bit_or (bit_or 0x01 m_cclient) fatal
code cclient_failed_response = bit_or (bit_or 0x02 m_cclient) fatal
code cclient_invalid_flex_trits = bit_or (bit_or 0x03 m_cclient) major
code cclient_hash = bit_or (bit_or 0x04 m_cclient) major
code cclient_json_key = bit_or (bit_or 0x05 m_cclient) major
code cclient_json_parse = bit_or (bit_or 0x06 m_cclient) major
code cclient_flex_trits = bit_or (bit_or 0x07 m_cclient) major
code cclient_json_create = bit_or (bit_or 0x08 m_cclient) major
code serializer_json_create = bit_or (bit_or 0x01 m_serializer) fatal
code serializer_null = bit_or (bit_or 0x02 m_serializer) fatal
code serializer_json_parse = bit_or (bit_or 0x03 m_serializer) fatal
code serializer_json_parse_not_tryte = bit_or (bit_or 0x04 m_serializer) fatal
code serializer_invalid_req = bit_or (bit_or 0x05 m_serializer) fatal
code serializer_message_overrun = bit_or (bit_or 0x06 m_serializer) fatal
code serializer_key_not_exists = bit_or (bit_or 0x07 m_serializer) fatal
code serializer_value_empty = bit_or (bit_or 0x08 m_serializer) fatal
code serializer_value_invlid = bit_or (bit_or 0x08 m_serializer) fatal
code cache_failed_response = bit_or (bit_or 0x02 m_cache) fatal
code cache_off = bit_or (bit_or 0x03 m_cache) minor
code cache_init_fini = bit_or (bit_or 0x04 m_cache) fatal
code cache_lock_failure = bit_or (bit_or 0x05 m_cache) fatal
code mam_not_found = bit_or (bit_or 0x01 m_mam) fatal
code mam_failed_init = bit_or (bit_or 0x02 m_mam) fatal
code mam_failed_response = bit_or (bit_or 0x03 m_mam) fatal
code mam_failed_destroyed = bit_or (bit_or 0x04 m_mam) fatal
code mam_no_payload = bit_or (bit_or 0x05 m_mam) fatal
code mam_failed_write = bit_or (bit_or 0x06 m_mam) fatal
code mam_file_save = bit_or (bit_or 0x07 m_mam) fatal
code mam_all_mss_keys_used = bit_or (bit_or 0x08 m_mam) fatal
code mam_failed_create_or_get_id = bit_or (bit_or 0x09 m_mam) fatal
code mam_failed_write_header = bit_or (bit_or 0x0a m_mam) fatal
code mam_read_message_error = bit_or (bit_or 0x0b m_mam) fatal
code mam_invaid_chid_or_epid = bit_or (bit_or 0x0c m_mam) fatal
code mam_exceeded_chid_iter = bit_or (bit_or 0x0d m_mam) fatal
code conf_missing_argument = bit_or (bit_or 0x01 m_conf) fatal
code conf_unknown_option = bit_or (bit_or 0x02 m_conf) fatal
code conf_lock_init = bit_or (bit_or 0x03 m_conf) fatal
code conf_lock_destroy = bit_or (bit_or 0x04 m_conf) fatal
code conf_parser_error = bit_or (bit_or 0x05 m_conf) fatal
code conf_fopen_error = bit_or (bit_or 0x06 m_conf) fatal
code utils_wrong_input_arg = bit_or (bit_or 0x01 m_utils) fatal
code utils_timer_error = bit_or (bit_or 0x02 m_utils) fatal
code utils_timer_expired = bit_or (bit_or 0x03 m_utils) fatal
code utils_https_send_error = bit_or (bit_or 0x04 m_utils) fatal
code utils_https_init_error = bit_or (bit_or 0x05 m_utils) fatal
code utils_https_x509_error = bit_or (bit_or 0x06 m_utils) fatal
code utils_https_conn_error = bit_or (bit_or 0x07 m_utils) fatal
code utils_https_ssl_error = bit_or (bit_or 0x08 m_utils) fatal
code utils_https_response_error = bit_or (bit_or 0x09 m_utils) fatal
code utils_text_serialize = bit_or (bit_or 0x0a m_utils) fatal
code utils_text_deserialize = bit_or (bit_or 0x0b m_utils) fatal
code utils_overflow_error = bit_or (bit_or 0x0c m_utils) fatal
code utils_cipher_error = bit_or (bit_or 0x0d m_utils) fatal
code http_invalid_regex = bit_or (bit_or 0x01 m_http) major
code http_url_not_match = bit_or (bit_or 0x02 m_http) major
code http_url_parse_error = bit_or (bit_or 0x03 m_http) major
code http_command_not_match = bit_or (bit_or 0x04 m_http) major
code mqtt_init = bit_or (bit_or 0x01 m_mqtt) major
code mqtt_mosq_obj_init_error = bit_or (bit_or 0x02 m_mqtt) major
code mqtt_topic_set = bit_or (bit_or 0x03 m_mqtt) major
code mqtt_opt_set = bit_or (bit_or 0x04 m_mqtt) major
code mqtt_connect = bit_or (bit_or 0x05 m_mqtt) major
code mqtt_invalid_tag = bit_or (bit_or 0x06 m_mqtt) major
code storage_connect_fail = bit_or (bit_or 0x01 m_storage) major
code storage_invalid_input = bit_or (bit_or 0x02 m_storage) major
code storage_cassandra_query_fail = bit_or (bit_or 0x03 m_storage) major
code core_node_unsync = bit_or (bit_or 0x01 m_core) fatal
code endpoint_device_init = bit_or (bit_or 0x01 m_endpoint) fatal
code endpoint_device_fini = bit_or (bit_or 0x02 m_endpoint) fatal
code endpoint_uart = bit_or (bit_or 0x03 m_endpoint) fatal
code endpoint_uart_set_attr = bit_or (bit_or 0x04 m_endpoint) fatal
code endpoint_sec_fault = bit_or (bit_or 0x05 m_endpoint) minor
code endpoint_sec_item_not_found = bit_or (bit_or 0x06 m_endpoint) minor
code endpoint_sec_unavailable = bit_or (bit_or 0x07 m_endpoint) minor
code endpoint_send_transfer = bit_or (bit_or 0x08 m_endpoint) fatal
code endpoint_get_key_error = bit_or (bit_or 0x09 m_endpoint) fatal
code endpoint_get_device_id_error = bit_or (bit_or 0x0a m_endpoint) fatal
code endpoint_dns_resolve_error = bit_or (bit_or 0x0b m_endpoint) fatal
code endpoint_can_open_error = bit_or (bit_or 0x0c m_endpoint) fatal
code endpoint_can_send_error = bit_or (bit_or 0x0d m_endpoint) fatal
code endpoint_can_recv_error = bit_or (bit_or 0x0e m_endpoint) fatal
code endpoint_can_close_error = bit_or (bit_or 0x0f m_endpoint) fatal
code endpoint_uart_write_error = bit_or (bit_or 0x10 m_endpoint) fatal
code endpoint_uart_read_error = bit_or (bit_or 0x11 m_endpoint) fatal
code endpoint_set_key_error = bit_or (bit_or 0x12 m_endpoint) fatal
code crypto_rand_err = bit_or (bit_or 0x01 m_crypto) fatal
code crypto_genkey_err = bit_or (bit_or 0x02 m_crypto) fatal
code crypto_secret_err = bit_or (bit_or 0x03 m_crypto) fatal

-- `switch (err)` of ta_error_to_string; the last clause is `default`.
pub ta_error_to_string : Status → String
ta_error_to_string ok = "No error."
ta_error_to_string http_ok = "HTTP response OK."
ta_error_to_string http_bad_request = "HTTP response, error when parsing request."
ta_error_to_string http_not_found = "HTTP request not found."
ta_error_to_string http_internal_service_error = "HTTP response, other errors in TA."
ta_error_to_string oom = "Failed to create TA object."
ta_error_to_string null = "NULL TA objects."
ta_error_to_string ta_wrong_request_obj = "Wrong TA request object."
ta_error_to_string ta_logger_init_fail = "Failed to init TA logger."
ta_error_to_string cclient_not_found = "Empty result from cclient."
ta_error_to_string cclient_failed_response = "Error in cclient response."
ta_error_to_string cclient_invalid_flex_trits = "Invalid flex trits."
ta_error_to_string cclient_hash = "Hash container operation error."
ta_error_to_string cclient_json_key = "JSON key not found."
ta_error_to_string cclient_json_parse = "JSON parsing error."
ta_error_to_string cclient_flex_trits = "flex_trits converting error."
ta_error_to_string cclient_json_create = "JSON create object error."
ta_error_to_string serializer_json_create = "Failed to create JSON object in serializer."
ta_error_to_string serializer_null = "NULL object in serializer."
ta_error_to_string serializer_json_parse = "Failed to parse JSON object in serializer."
ta_error_to_string serializer_json_parse_not_tryte = "Unicode value in JSON."
ta_error_to_string serializer_invalid_req = "Invalid request value in JSON."
ta_error_to_string serializer_message_overrun = "Message length is out of valid size."
ta_error_to_string cache_failed_response = "Failed in cache operations."
ta_error_to_string cache_off = "Cache server is not turned on."
ta_error_to_string cache_init_fini = "Failed to initialize or destroy lock in cache"
ta_error_to_string cache_lock_failure = "Failed to lock or unlock cache operation"
ta_error_to_string mam_not_found = "Empty result from MAM."
ta_error_to_string mam_failed_init = "Error in MAM initialization."
ta_error_to_string mam_failed_response = "Error in MAM response."
ta_error_to_string mam_failed_destroyed = "Error in MAM destroy."
ta_error_to_string mam_no_payload = "No payload or no chid in MAM."
ta_error_to_string mam_failed_write = "Failed to write MAM packet."
ta_error_to_string mam_file_save = "Failed to save MAM file."
ta_error_to_string mam_all_mss_keys_used =
    "All MSS private keys of current given parameters are used."
ta_error_to_string mam_failed_create_or_get_id = "Failed to created/get chid or epid or msg_id."
ta_error_to_string mam_failed_write_header = "Failed to write header or packet in MAM."
ta_error_to_string mam_read_message_error = "Met error when reading MAM message from bundle"
ta_error_to_string mam_invaid_chid_or_epid = "Failed to add trusted channel ID or endpoint ID"
ta_error_to_string mam_exceeded_chid_iter = "Too much iteration for finding a starting chid"
ta_error_to_string conf_missing_argument = "No argument in CLI."
ta_error_to_string conf_unknown_option = "Undefined option in CLI."
ta_error_to_string conf_lock_init = "Failed to init lock."
ta_error_to_string conf_lock_destroy = "Failed to destroy lock."
ta_error_to_string conf_parser_error = "Failed to initialize yaml parser."
ta_error_to_string conf_fopen_error = "Failed to open file."
ta_error_to_string utils_wrong_input_arg = "Wrong utilities input object"
ta_error_to_string utils_timer_error = "Errors occurred in timer function"
ta_error_to_string utils_timer_expired = "Timer expired"
ta_error_to_string utils_https_send_error = "Failed to send message"
ta_error_to_string utils_https_init_error = "HTTPS module initialize error"
ta_error_to_string utils_https_x509_error = "HTTPS X509 certificate parse error"
ta_error_to_string utils_https_conn_error = "HTTPS initial connection error"
ta_error_to_string utils_https_ssl_error = "HTTPS setting SSL config error"
ta_error_to_string utils_https_response_error = "HTTPS response error"
ta_error_to_string utils_text_serialize = "Error occurred when serializing message"
ta_error_to_string utils_text_deserialize = "Error occurred when deserializing message"
ta_error_to_string utils_overflow_error = "Overflow error"
ta_error_to_string utils_cipher_error = "Error occurred when encrypting or descrypting message"
ta_error_to_string http_invalid_regex = "Invalid URL regular expression rule in http."
ta_error_to_string http_url_not_match = "URL doesn't match regular expression rule."
ta_error_to_string http_url_parse_error = "URL parameter parsing error."
ta_error_to_string http_command_not_match = "Proxy API command hash does not match."
ta_error_to_string mqtt_init = "Error during initialization in MQTT."
ta_error_to_string mqtt_mosq_obj_init_error = "Error initializing mosquitto object."
ta_error_to_string mqtt_topic_set = "Error setting topic in MQTT."
ta_error_to_string mqtt_opt_set = "Error setting options of mosquitto object."
ta_error_to_string mqtt_connect = "Error in connecting to broker."
ta_error_to_string mqtt_invalid_tag = "Received invalid tag length in MQTT"
ta_error_to_string storage_connect_fail = "Failed to connect ScyllaDB node."
ta_error_to_string storage_invalid_input = "Invalid input parameter in ScyllaDB."
ta_error_to_string storage_cassandra_query_fail = "Failed to execute Cassandra query."
ta_error_to_string core_node_unsync = "IOTA full node host is not synchronized."
ta_error_to_string endpoint_device_init = "Failed to initialize the device."
ta_error_to_string endpoint_device_fini = "Failed to finalize the device"
ta_error_to_string endpoint_uart = "UART error occurred in device component"
ta_error_to_string endpoint_uart_set_attr = "UART error occurred when setting UART attribute"
ta_error_to_string endpoint_sec_fault = "Error occurred inside secure storage"
ta_error_to_string endpoint_sec_item_not_found = "Item not found inside secure storage"
ta_error_to_string endpoint_sec_unavailable = "Secure storage service is unavailable"
ta_error_to_string endpoint_send_transfer = "Error occurred when sending the transfer message"
ta_error_to_string endpoint_get_key_error =
    "Error occurred when get private key from endpoint device"
ta_error_to_string endpoint_get_device_id_error =
    "Error occurred when get device id from endpoint device"
ta_error_to_string endpoint_dns_resolve_error = "Error occurred when resolving the domain name"
ta_error_to_string endpoint_can_open_error = "Error occurred when opening CAN BUS socket"
ta_error_to_string endpoint_can_send_error =
    "Error occurred when writing message into CAN BUS socket"
ta_error_to_string endpoint_can_recv_error =
    "Error occurred when reading message from CAN BUS socket"
ta_error_to_string endpoint_can_close_error = "Error occurred when closing CAN BUS socket"
ta_error_to_string endpoint_uart_write_error = "Error occurred when writing message to UART"
ta_error_to_string endpoint_uart_read_error = "Error occurred when reading message from UART"
ta_error_to_string endpoint_set_key_error = "Fail to set a new AES key"
ta_error_to_string crypto_rand_err = "Failed to generate random number generator"
ta_error_to_string crypto_genkey_err = "Failed to generate ECDH public key"
ta_error_to_string crypto_secret_err = "Failed to compute ECDH shared secret"
ta_error_to_string _ = "Unknown error."

-- `if (ret)` and `ret == SC_OK`
pub is_ok : Status → Bool
is_ok ok = true
is_ok _ = false
