-- ===== src/Http/Handler.antt =====
-- connectivity/http/http.c, ta_http_handler: a connection, from its first call through the pieces of its
-- body to the answer. Allocation succeeds.
pub mod Body
use tangle_accelerator.Base.{
  ℕ, zero, suc, ◌+◌, ◌-◌, ◌≤◌, Bool, true, false, Option, none, some, Bytes, List, [], ◌∷◌, ◌++◌,
  ◌&&◌, not, length, take, ltb, leb, ◌==◌, bytes_eq, if◌then◌else◌, codes,
}
use tangle_accelerator.Errors.{Status, ok, null, http_internal_service_error}
use tangle_accelerator.Http.{Libs, str_http_request_size_exceed}
use tangle_accelerator.Http.Route.{Answer, Apis, matches, ta_http_process_request}

abbrev pub max_request_len : ℕ
max_request_len = 65536

abbrev pub mhd_no : ℕ
mhd_no = 0

abbrev pub mhd_yes : ℕ
mhd_yes = 1

-- ta_http_request_t
pub record HttpRequest : Type 0 where
  pub valid_content_type : Bool
  pub answer_string : Option Bytes
  pub answer_code : ℕ
  pub request : Option Bytes
  pub request_len : ℕ

-- What MHD_queue_response gets: the code, the text and the headers.
pub record Response : Type 0 where
  pub response_code : ℕ
  pub text : Bytes
  pub headers : List (Bytes × Bytes)

-- The int that the handler returns, `*upload_data_size`, `*ptr`, and the response it queued.
pub record Handled : Type 0 where
  pub ret : ℕ
  pub left : ℕ
  pub ptr : Option HttpRequest
  pub response : Option Response

-- A call of the handler: the headers of the connection and what changes between the calls.
pub record Call : Type 0 where
  pub headers_in : List (Bytes × Bytes)
  pub url : Bytes
  pub method : Bytes
  pub upload_data : Bytes

abbrev joined : Option Bytes → Bytes → Bytes
joined none chunk = chunk
joined (some body) chunk = body ++ chunk

-- `data` is not NULL, and `size` is its length.
unfoldable pub build_request : HttpRequest → Bytes → Status × HttpRequest
build_request req [] = (null, req)
build_request req (c ∷ data_) =
    if leb max_request_len (length (c ∷ data_) + req.request_len)
    then (
      http_internal_service_error,
      record req { answer_string = some str_http_request_size_exceed; answer_code = 500 },
    )
    else (
      ok,
      record req {
        request = some (joined req.request (c ∷ data_));
        request_len = req.request_len + length (c ∷ data_);
      },
    )

-- A call with a piece of the body.
unfoldable pub upload : HttpRequest → Bytes → HttpRequest
unfolding build_request
upload req chunk = if req.answer_code == mhd_no then (build_request req chunk).1 else req

abbrev pub refused : Handled
refused = record { ret = mhd_no; left = 0; ptr = none; response = none }

abbrev lower : ℕ → ℕ
lower c = if leb b'A' c && leb c b'Z' then c + 32 else c

abbrev lower_all : Bytes → Bytes
lower_all [] = []
lower_all (c ∷ s) = lower c ∷ lower_all s

-- `0 == strncasecmp(MHD_HTTP_HEADER_CONTENT_TYPE, key, strlen(MHD_HTTP_HEADER_CONTENT_TYPE))`
abbrev pub is_content_type : Bytes → Bool
is_content_type key = bytes_eq (lower_all (take 12 key)) (codes "content-type")

-- `strncmp(method, name, strlen(name)) == 0`
abbrev pub is_method : Bytes → Bytes → Bool
is_method method name = bytes_eq (take (length name) method) name

abbrev is_none : Option Bytes → Bool
is_none none = true
is_none (some s) = false

abbrev text_of : Option Bytes → Bytes
text_of none = []
text_of (some s) = s

abbrev pub cors_headers : Bool → List (Bytes × Bytes)
cors_headers true =
    (codes "Access-Control-Allow-Origin", codes "*")
    ∷ (codes "Access-Control-Allow-Methods", codes "GET, POST, OPTIONS")
    ∷ (
      codes "Access-Control-Allow-Headers",
      codes "Origin, Content-Type, Accept, X-IOTA-API-Version",
    )
    ∷ (codes "Access-Control-Max-Age", codes "86400")
    ∷ []
cors_headers false =
    (codes "Access-Control-Allow-Origin", codes "*")
    ∷ (codes "Content-Type", codes "application/json")
    ∷ []

module _ (l : Libs) {W : Type 0} (api : Apis W) where
  -- One header of the connection.
  unfoldable pub ta_http_header_iter : Bytes × Bytes → HttpRequest → HttpRequest
  unfolding matches
  ta_http_header_iter (key, value) header =
      if is_content_type key
      then record header {
        valid_content_type =
            matches l api value (codes "application/json\\s*(;?\\s*charset\\s*=\\s*(UTF|utf)-8)?");
      }
      else header

  -- MHD_get_connection_values
  unfoldable pub all_headers : List (Bytes × Bytes) → HttpRequest → HttpRequest
  unfolding ta_http_header_iter
  all_headers [] header = header
  all_headers (h ∷ hs) header = all_headers hs (ta_http_header_iter h header)

  abbrev pub blank : Bool → HttpRequest
  blank garbage = record {
    valid_content_type = garbage;
    answer_string = none;
    answer_code = mhd_no;
    request = none;
    request_len = 0;
  }

  -- The first call. `garbage` is what malloc left in `valid_content_type`.
  unfoldable pub first_call : Bool → Bool → List (Bytes × Bytes) → HttpRequest
  unfolding all_headers
  first_call post garbage headers =
      if post then all_headers headers (blank garbage) else blank garbage

  module _ (db_enable : Bool) (queue : Response → W → ℕ × W) where
    abbrev pub answer_of : HttpRequest → Bytes → Bool → Bytes → W → Answer × W
    answer_of req url options heap w = elim (req.answer_code == mhd_no) [
      | true ↦ ta_http_process_request l api db_enable url req.request options heap w
      | false ↦ ((req.answer_code, req.answer_string), w)
    ]

    abbrev pub response_of : Bool → Answer → Response
    response_of options answer = record {
      response_code = answer.0;
      text = text_of answer.1;
      headers = cors_headers options;
    }

    abbrev pub queued : Bool → Answer × W → Handled × W
    queued options (answer, w) =
        let (ret, w') = queue (response_of options answer) w in
        (
          record { ret = ret; left = 0; ptr = none; response = some (response_of options answer) },
          w',
        )

    -- The last call, which has no data: a POST without a body is skipped.
    abbrev pub final_call : Bool → Bool → HttpRequest → Bytes → Bytes → W → Handled × W
    final_call post options req url heap w =
        if post && is_none req.request
        then (refused, w)
        else queued options (answer_of req url options heap w)

    abbrev later_call : Bool → Bool → HttpRequest → Call → Bytes → W → Handled × W
    later_call post options req call heap w =
        if post && not req.valid_content_type
        then (record refused { left = length call.upload_data }, w)
        else if ltb 0 (length call.upload_data)
        then (
          record {
            ret = mhd_yes;
            left = 0;
            ptr = some (upload req call.upload_data);
            response = none;
          },
          w,
        )
        else final_call post options req call.url heap w

    abbrev handle : Bool → Bool → Option HttpRequest → Call → Bool → Bytes → W → Handled × W
    handle post options none call garbage heap w = (
      record {
        ret = mhd_yes;
        left = length call.upload_data;
        ptr = some (first_call post garbage call.headers_in);
        response = none;
      },
      w,
    )
    handle post options (some req) call garbage heap w = later_call post options req call heap w

    -- `heap` and `garbage` are what freshly allocated memory holds.
    unfoldable pub ta_http_handler : Option HttpRequest → Call → Bool → Bytes → W → Handled × W
    unfolding upload first_call ta_http_process_request
    ta_http_handler ptr call garbage heap w =
        let known = handle true false ptr call garbage heap w in
        let options = handle false true ptr call garbage heap w in
        let get = handle false false ptr call garbage heap w in
        if is_method call.method (codes "POST")
        then known
        else if is_method call.method (codes "OPTIONS")
        then options
        else if is_method call.method (codes "GET")
        then get
        else (
          record { ret = mhd_no; left = length call.upload_data; ptr = ptr; response = none },
          w,
        )
