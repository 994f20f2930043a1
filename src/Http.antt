-- ===== src/Http.antt =====
-- connectivity/common.c and connectivity/http/http.c: what answers an HTTP request. The regular
-- expressions, cJSON and the daemon are a record of their operations, and so is accelerator/core/apis.h.
pub mod Route
pub mod Handler
use tangle_accelerator.Base.{
  ℕ, ◌+◌, ◌-◌, Bool, true, false, Option, none, some, Bytes, List, [], ◌∷◌, ◌++◌, length, get_elem?,
  rev_onto, ◌==◌, if◌then◌else◌, codes, c_str,
}
use tangle_accelerator.Errors.{
  Status, ok, null, http_ok, http_not_found, http_bad_request, http_internal_service_error,
  http_invalid_regex, http_url_not_match, http_url_parse_error, cclient_not_found, mam_not_found,
  cclient_json_key, mam_no_payload, serializer_message_overrun, code,
}
use tangle_accelerator.Exec.{Outcome, done, fail}

-- regcomp with REG_EXTENDED, and regexec for one match: where it starts and ends. cJSON_PrintUnformatted
-- of an object with one string member, `message`.
pub record Libs : Type 1 where
  pub Regex : Type 0
  pub regcomp : Bytes → Option Regex
  pub regexec : Regex → Bytes → Option (ℕ × ℕ)
  pub message_json : Bytes → Bytes

abbrev pub str_http_not_found : Bytes
str_http_not_found = codes "{\"message\": \"Request not found\"}"

abbrev pub str_http_bad_request : Bytes
str_http_bad_request = codes "{\"message\": \"Invalid request header\"}"

abbrev pub str_http_bad_request_message_overrun : Bytes
str_http_bad_request_message_overrun =
    codes "{\"message\": \"In body 'message', requested message is too long.\"}"

abbrev pub str_http_internal_service_error : Bytes
str_http_internal_service_error = codes "{\"message\": \"Internal service error\"}"

abbrev pub str_http_request_size_exceed : Bytes
str_http_request_size_exceed = codes "{\"message\": \"Request size exceed\"}"

module _ (l : Libs) where
  abbrev matched : Bytes → Option (ℕ × ℕ) → Status
  matched path none = http_url_not_match
  matched path (some (so, eo)) = if eo - so == length (c_str path) then ok else http_url_not_match

  unfoldable pub api_path_matcher : Bytes → Option Bytes → Status
  api_path_matcher path none = null
  api_path_matcher path (some regex_rule) = elim (l.regcomp regex_rule) [
    | none ↦ http_invalid_regex
    | some reg ↦ matched path (l.regexec reg path)
  ]

-- The code for the response, and `*json_result`.
unfoldable pub set_response_content : Status → Option Bytes → ℕ × Option Bytes
set_response_content ok out = (code http_ok, out)
set_response_content cclient_not_found out = (code http_not_found, some str_http_not_found)
set_response_content mam_not_found out = (code http_not_found, some str_http_not_found)
set_response_content cclient_json_key out = (code http_bad_request, some str_http_bad_request)
set_response_content mam_no_payload out = (code http_bad_request, some str_http_bad_request)
set_response_content http_url_not_match out = (code http_bad_request, some str_http_bad_request)
set_response_content serializer_message_overrun out =
    (code http_bad_request, some str_http_bad_request_message_overrun)
set_response_content _ out =
    (code http_internal_service_error, some str_http_internal_service_error)

-- What strtok gives call by call: the non-empty runs between slashes. `run` is the current one, reversed.
abbrev pub flush : Bytes → List Bytes → List Bytes
flush [] rest = rest
flush (c ∷ run) rest = rev_onto (c ∷ run) [] ∷ rest

unfoldable pub strtok_all : Bytes → Bytes → List Bytes
strtok_all run [] = flush run []
strtok_all run (c ∷ url) =
    let ended = flush run (strtok_all [] url) in
    let more = strtok_all (c ∷ run) url in if c == b'/' then ended else more

-- The copy of the token has no NUL behind it: what is read as the parameter goes on into `heap`, the
-- bytes behind the allocation.
abbrev pub token_at : List Bytes → ℕ → Bytes → Outcome Bytes
token_at tokens index heap = elim (get_elem? tokens index) [
  | none ↦ fail http_url_parse_error
  | some token ↦ done (c_str (token ++ heap))
]

unfoldable pub ta_get_url_parameter : Bytes → ℕ → Bytes → Outcome Bytes
unfolding strtok_all
ta_get_url_parameter url index heap = token_at (strtok_all [] (c_str url)) index heap
