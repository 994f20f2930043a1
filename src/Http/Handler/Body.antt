-- ===== src/Http/Handler/Body.antt =====
-- connectivity/http/http.c: the body of a POST, piece by piece, and the answer to it.
use tangle_accelerator.Base.{
  append_nil, append_assoc, ℕ, ◌+◌, ◌≤◌, ◌<◌, Bool, true, false, Option, none, some, Bytes, List,
  [], ◌∷◌, ◌++◌, length, All, leb, if◌then◌else◌, ◌≡◌, refl, ap, sym, ◌∙◌, arith, codes, le→leb,
  lt→ltb, Bool-cases, inl, inr,
}
use tangle_accelerator.Http.{Libs, str_http_request_size_exceed}
use tangle_accelerator.Http.Route.{Apis, matches, ta_http_process_request}
use tangle_accelerator.Http.Handler.{
  HttpRequest, Response, Handled, Call, build_request, is_content_type, ta_http_header_iter,
  all_headers, first_call, upload, queued, ta_http_handler, max_request_len,
}

abbrev pub total : List Bytes → ℕ
total [] = 0
total (c ∷ cs) = length c + total cs

abbrev pub concat : List Bytes → Bytes
concat [] = []
concat (c ∷ cs) = c ++ concat cs

abbrev pub NonEmpty : Bytes → Type 0
NonEmpty c = 0 < length c

abbrev json_type : Bytes
json_type = codes "application/json\\s*(;?\\s*charset\\s*=\\s*(UTF|utf)-8)?"

-- An open request: no answer is decided.
abbrev open_request : Bool → Option Bytes → ℕ → HttpRequest
open_request valid body n = record {
  valid_content_type = valid;
  answer_string = none;
  answer_code = 0;
  request = body;
  request_len = n;
}

abbrev closed_request : Option Bytes → ℕ → HttpRequest
closed_request body n = record {
  valid_content_type = true;
  answer_string = some str_http_request_size_exceed;
  answer_code = 500;
  request = body;
  request_len = n;
}

past_leb : (a b : ℕ) → a < b → leb b a ≡ false
past_leb a b h = ground arith

upload_first :
    (c : ℕ) (s : Bytes)
    → length (c ∷ s) < max_request_len
    → upload (open_request true none 0) (c ∷ s)
      ≡ open_request true (some (c ∷ s)) (0 + length (c ∷ s))
unfolding upload build_request
upload_first c s h = rw (past_leb (length (c ∷ s) + 0) max_request_len (omega arith)) refl

upload_next :
    (body : Bytes) (n c : ℕ) (s : Bytes)
    → length (c ∷ s) + n < max_request_len
    → upload (open_request true (some body) n) (c ∷ s)
      ≡ open_request true (some (body ++ c ∷ s)) (n + length (c ∷ s))
unfolding upload build_request
upload_next body n c s h = rw (past_leb (length (c ∷ s) + n) max_request_len (omega arith)) refl

upload_over :
    (body : Option Bytes) (n c : ℕ) (s : Bytes)
    → max_request_len ≤ length (c ∷ s) + n
    → upload (open_request true body n) (c ∷ s) ≡ closed_request body n
unfolding upload build_request
upload_over body n c s h = rw (le→leb max_request_len (length (c ∷ s) + n) h) refl

upload_closed :
    (body : Option Bytes) (n : ℕ) (c : Bytes)
    → upload (closed_request body n) c ≡ closed_request body n
unfolding upload
upload_closed body n c = refl

module _ (l : Libs) {W : Type 0} (api : Apis W) where
  header_step :
      (b v x : Bool)
      → (if b
          then record (open_request v none 0) { valid_content_type = x }
          else open_request v none 0)
        ≡ open_request (if b then x else v) none 0
  header_step true v x = refl
  header_step false v x = refl

  headers_open :
      (hs : List (Bytes × Bytes)) (v : Bool)
      → (x : Bool) × (all_headers l api hs (open_request v none 0) ≡ open_request x none 0)
  unfolding all_headers ta_http_header_iter
  headers_open [] v = (v, refl)
  headers_open ((key, value) ∷ hs) v =
      let rest =
        headers_open hs (if is_content_type key then matches l api value json_type else v) in
      (rest.0, rw (header_step (is_content_type key) v _) rest.1)

  no_header :
      (hs : List (Bytes × Bytes)) (g : Bool)
      → All (λ h. is_content_type h.0 ≡ false) hs
      → first_call l api true g hs ≡ open_request g none 0
  unfolding first_call all_headers ta_http_header_iter
  no_header [] g n = refl
  no_header ((key, value) ∷ hs) g n = rw n.0 (no_header hs g n.1)

  -- The request of a POST behind its first call, if its content type is right.
  ready_lem :
      (hs : List (Bytes × Bytes)) (garbage : Bool)
      → (first_call l api true garbage hs).valid_content_type ≡ true
      → first_call l api true garbage hs ≡ open_request true none 0
  unfolding first_call
  ready_lem hs garbage v =
      let o = headers_open hs garbage in
      rw o.1 (ap (λ b. open_request b none 0) (sym (ap (λ r. r.valid_content_type) o.1) ∙ v))

  module _ (db_enable : Bool) (queue : Response → W → ℕ × W) (url : Bytes)
      (headers : List (Bytes × Bytes)) (garbage : Bool) (heap : Bytes) where
    abbrev pub post_call : Bytes → Call
    post_call s = record { headers_in = headers; url = url; method = codes "POST"; upload_data = s }

    -- The calls of the handler for a connection behind the first: one for each piece, and the last.
    abbrev pub go_on : Option HttpRequest → List Bytes → W → Handled × W
    go_on ptr [] w = ta_http_handler l api db_enable queue ptr (post_call []) garbage heap w
    go_on ptr (c ∷ cs) w =
        let (h, w') = ta_http_handler l api db_enable queue ptr (post_call c) garbage heap w in
        go_on h.ptr cs w'

    -- All calls for a POST whose body comes in the pieces `cs`.
    abbrev pub serve_post : List Bytes → W → Handled × W
    serve_post cs w =
        let (h, w') = ta_http_handler l api db_enable queue none (post_call []) garbage heap w in
        go_on h.ptr cs w'

    abbrev accepted : Option Bytes → ℕ → Option Bytes → ℕ → HttpRequest
    accepted answer k body n = record {
      valid_content_type = true;
      answer_string = answer;
      answer_code = k;
      request = body;
      request_len = n;
    }

    piece_lem :
        (c : ℕ) (s : Bytes) (cs : List Bytes) (answer : Option Bytes) (k : ℕ) (body : Option Bytes)
        (n : ℕ) (w : W)
        → go_on (some (accepted answer k body n)) ((c ∷ s) ∷ cs) w
          ≡ go_on (some (upload (accepted answer k body n) (c ∷ s))) cs w
    unfolding ta_http_handler
    piece_lem c s cs answer k body n w = rw (lt→ltb 0 (length (c ∷ s)) (omega arith)) refl

    closed_lem :
        (cs : List Bytes) (body : Bytes) (n : ℕ) (w : W)
        → All NonEmpty cs
        → go_on (some (closed_request (some body) n)) cs w
          ≡ queued l api db_enable queue false ((500, some str_http_request_size_exceed), w)
    unfolding ta_http_handler
    closed_lem [] body n w e = refl
    closed_lem ([] ∷ cs) body n w e = absurd (omega arith)
    closed_lem ((c ∷ s) ∷ cs) body n w e =
        rw (piece_lem c s cs (some str_http_request_size_exceed) 500 (some body) n w)
          (rw (upload_closed (some body) n (c ∷ s)) (closed_lem cs body n w e.1))

    later_lem :
        (cs : List Bytes) (body : Bytes) (n : ℕ) (w : W)
        → All NonEmpty cs
        → total cs + n < max_request_len
        → go_on (some (open_request true (some body) n)) cs w
          ≡ queued l api db_enable queue false
              (ta_http_process_request l api db_enable url (some (body ++ concat cs)) false heap w)
    unfolding ta_http_handler
    later_lem [] body n w e h = rw (append_nil body) refl
    later_lem ([] ∷ cs) body n w e h = absurd (omega arith)
    later_lem ((c ∷ s) ∷ cs) body n w e h = rw (piece_lem c s cs none 0 (some body) n w) (
        rw (upload_next body n c s (omega arith)) (
          rw (later_lem cs (body ++ c ∷ s) (n + length (c ∷ s)) w e.1 (omega arith))
            (rw (append_assoc body (c ∷ s) (concat cs)) refl)))

    over_lem :
        (cs : List Bytes) (body : Bytes) (n : ℕ) (w : W)
        → All NonEmpty cs
        → n < max_request_len
        → max_request_len ≤ total cs + n
        → go_on (some (open_request true (some body) n)) cs w
          ≡ queued l api db_enable queue false ((500, some str_http_request_size_exceed), w)
    over_lem [] body n w e small h = absurd (omega arith)
    over_lem ([] ∷ cs) body n w e small h = absurd (omega arith)
    over_lem ((c ∷ s) ∷ cs) body n w e small h =
        rw (piece_lem c s cs none 0 (some body) n w)
          (elim (Bool-cases (leb max_request_len (length (c ∷ s) + n))) [
            | inl p ↦ rw (upload_over (some body) n c s (ground arith)) (closed_lem cs body n w e.1)
            | inr p ↦ rw (upload_next body n c s (ground arith)) (
                over_lem cs (body ++ c ∷ s) (n + length (c ∷ s)) w e.1 (ground arith) (omega arith))
          ])

    -- A POST with a JSON content type whose body is not empty and shorter than 65536 bytes is answered with what
    -- ta_http_process_request gives on its pieces put together, in whatever non-empty pieces it comes.
    pub ta_http_handler_body :
        (c : Bytes) (cs : List Bytes) (w : W)
        → (first_call l api true garbage headers).valid_content_type ≡ true
        → All NonEmpty (c ∷ cs)
        → total (c ∷ cs) < max_request_len
        → serve_post (c ∷ cs) w
          ≡ queued l api db_enable queue false
              (ta_http_process_request l api db_enable url (some (concat (c ∷ cs))) false heap w)
    unfolding ta_http_handler
    ta_http_handler_body [] cs w v e h = absurd (omega arith)
    ta_http_handler_body (c ∷ s) cs w v e h = rw (ready_lem headers garbage v) (
        rw (piece_lem c s cs none 0 none 0 w) (
          rw (upload_first c s (omega arith))
            (later_lem cs (c ∷ s) (0 + length (c ∷ s)) w e.1 (omega arith))))

    -- A POST with a JSON content type whose body reaches 65536 bytes, but not in its first piece, is answered with
    -- code 500 and the text on the size, and the core is not called.
    pub ta_http_handler_exceeds :
        (c : Bytes) (cs : List Bytes) (w : W)
        → (first_call l api true garbage headers).valid_content_type ≡ true
        → All NonEmpty (c ∷ cs)
        → length c < max_request_len
        → max_request_len ≤ total (c ∷ cs)
        → serve_post (c ∷ cs) w
          ≡ queued l api db_enable queue false ((500, some str_http_request_size_exceed), w)
    unfolding ta_http_handler
    ta_http_handler_exceeds [] cs w v e small h = absurd (omega arith)
    ta_http_handler_exceeds (c ∷ s) cs w v e small h = rw (ready_lem headers garbage v) (
        rw (piece_lem c s cs none 0 none 0 w) (
          rw (upload_first c s (omega arith))
            (over_lem cs (c ∷ s) (0 + length (c ∷ s)) w e.1 (omega arith) (omega arith))))
