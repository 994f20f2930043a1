-- ===== src/Examples/Network.antt =====
-- The theorems on nodes, bundles, broadcasting and HTTP at concrete inputs.
use tangle_accelerator.Base.{
  ℤ, pos, Option, ℕ, ◌+◌, true, false, none, some, Option, Bytes, List, [], ◌∷◌, ◌++◌, length,
  length-replicate, replicate, get_elem?, codes, bytes_eq, if◌then◌else◌, ◌≡◌, refl, arith,
}
use tangle_accelerator.Errors.{Status, ok, cclient_failed_response, cache_failed_response}
use tangle_accelerator.Exec.{done}
use tangle_accelerator.Env.{Env, Cjson}
use tangle_accelerator.Env.Iota.{Iota, TxnLaws}
use tangle_accelerator.Env.Memory.{Memory, memory_env, empty_memory}
use tangle_accelerator.Env.Memory.Lawful.{memory_lock}
use tangle_accelerator.Cache.{cache_list_size, cache_list_pop}
use tangle_accelerator.Core.Buffer.{TaCache}
use tangle_accelerator.Core.Node.{
  Service, Milestones, ta_get_node_status, ta_update_full_node_connection,
  get_node_status_milestone_deserialize, bind,
}
use tangle_accelerator.Core.Attach.{SendConfig, ta_pow, pow_loop}
use tangle_accelerator.Core.Attach.Chain.{IsChain}
use tangle_accelerator.Core.Broadcast.{Loop, ended, broadcast_buffered_txn, move_uuid}
use tangle_accelerator.Http.{
  Libs, set_response_content, ta_get_url_parameter, str_http_request_size_exceed,
}
use tangle_accelerator.Http.Route.{Apis, ta_http_process_request}
use tangle_accelerator.Http.Handler.{queued, refused, Response, ta_http_handler, first_call}
use tangle_accelerator.Http.Handler.Body.{serve_post, post_call}
use tangle_accelerator.Core
use tangle_accelerator.Http

abbrev int_at : Bytes → ℕ → Option ℤ
int_at obj n = elim (get_elem? obj n) [ some k ↦ some (pos k) | none ↦ none ]

-- A response is the bytes of its two numbers.
abbrev toy_json : Cjson
toy_json = record {
  Json = Bytes;
  parse = λ s. some s;
  number_item = λ obj name.
      if bytes_eq name (codes "latestMilestoneIndex") then int_at obj 0 else int_at obj 1;
}

-- Only the host "b" answers; its solid milestone is far behind.
abbrev node_env : Env
node_env = record memory_env {
  query_node = λ host port m. (if bytes_eq host (codes "b") then some (90 ∷ 5 ∷ []) else none, m);
}

abbrev nowhere : Service
nowhere = record { host = codes "x"; port = 1 }

abbrev at_b : Service
at_b = record { host = codes "b"; port = 80 }

ta_update_full_node_connection-first_example :
    (ta_update_full_node_connection toy_json node_env 10
      ((some (codes "a"), 80) ∷ (some (codes "b"), 80) ∷ (some (codes "c"), 80) ∷ [])
      nowhere
      empty_memory).1
    ≡ at_b
ta_update_full_node_connection-first_example =
    Core.Node.Choice.ta_update_full_node_connection-first toy_json node_env 10
      ((some (codes "a"), 80) ∷ []) ((some (codes "c"), 80) ∷ []) (codes "b") 80 nowhere
      empty_memory ((λ w. (cclient_failed_response, unfold ta_get_node_status in refl)), tt)
      (λ w. unfold ta_get_node_status get_node_status_milestone_deserialize in refl) (omega arith)

-- A transaction is its trunk, its branch and a text, which is its own digest.
abbrev toy_iota : Iota Memory
toy_iota = record {
  Txn = Bytes × Bytes × Bytes;
  of_trits = λ t. ([], [], t);
  serialize = λ x. some x.2;
  on_trits = λ x. (true, x.2);
  last_index = λ x. 1;
  hash = λ x. x.2;
  set_trunk = λ t x. (t, x.1, x.2);
  set_branch = λ t x. (x.0, t, x.2);
  set_attachment_timestamp = λ n x. x;
  set_attachment_timestamp_upper = λ n x. x;
  set_attachment_timestamp_lower = λ n x. x;
  set_nonce = λ t x. (x.0, x.1, x.2 ++ t);
  to_trytes = λ t. t;
  from_trytes = λ t. t;
  digest = λ t. t;
  current_timestamp_ms = λ w. (0, w);
  dcurl_entry = λ t mwm w. (some [], w);
  get_transactions_to_approve = λ depth w. (none, w);
  blank_tips = ([], []);
  store_and_broadcast = λ t w. (false, w);
  get_trytes = λ hashes w. (none, w);
}

abbrev toy_txn : TxnLaws toy_iota
toy_txn = record {
  trunk = λ x. x.0;
  branch = λ x. x.1;
  trunk-set_trunk = λ t x. refl;
  trunk-set_branch = λ t x. refl;
  trunk-set_attachment = λ n x. refl;
  trunk-set_upper = λ n x. refl;
  trunk-set_lower = λ n x. refl;
  trunk-set_nonce = λ t x. refl;
  branch-set_branch = λ t x. refl;
  branch-set_attachment = λ n x. refl;
  branch-set_upper = λ n x. refl;
  branch-set_lower = λ n x. refl;
  branch-set_nonce = λ t x. refl;
}

abbrev two_txns : List (Bytes × Bytes × Bytes)
two_txns = ([], [], codes "A") ∷ ([], [], codes "B") ∷ []

abbrev linked : List (Bytes × Bytes × Bytes)
linked = (codes "B", codes "Y", codes "A") ∷ (codes "X", codes "Y", codes "B") ∷ []

ta_pow-IsChain_example :
    IsChain toy_iota toy_txn (codes "X") (codes "Y") linked × (length linked ≡ length two_txns)
ta_pow-IsChain_example =
    Core.Attach.Chain.ta_pow-IsChain toy_iota toy_txn two_txns (codes "X") (codes "Y") 14 linked
      empty_memory (omega arith) (unfold ta_pow pow_loop in refl)

abbrev send_config : SendConfig
send_config = record { gtta = false; milestone_depth = 3; mwm = 14 }

abbrev lists : TaCache
lists = record {
  buffer_list_name = codes "buff";
  complete_list_name = codes "comp";
  mam_buffer_list_name = codes "mam_buff";
  mam_complete_list_name = codes "mam_comp";
  timeout = 600;
}

broadcast_buffered_txn-ok_example :
    (v : Memory) × ((cache_list_size memory_env true (some (codes "buff")) v).0 ≡ done 0)
    × ((cache_list_size memory_env true (some (codes "buff")) v).1
        ≡ (broadcast_buffered_txn memory_env true 3 toy_iota send_config 2 lists empty_memory).1)
broadcast_buffered_txn-ok_example =
    Core.Broadcast.Rounds.broadcast_buffered_txn-ok memory_env true 3 toy_iota send_config 2 lists
      empty_memory (unfold broadcast_buffered_txn cache_list_size in refl)

abbrev locked_world : Memory
locked_world = record empty_memory { held = 1 }

move_uuid_leaks_example :
    (move_uuid memory_env true (codes "buff") (codes "comp") (replicate 37 0) locked_world).1.held
    ≡ 1
move_uuid_leaks_example =
    Core.Broadcast.Rounds.move_uuid_leaks memory_lock true (codes "buff") (codes "comp")
      (replicate 37 0) locked_world cache_failed_response (omega arith)
      (unfold move_uuid cache_list_pop in refl)

-- A regular expression matches the text that is the same; the state counts the calls of the core.
abbrev toy_libs : Libs
toy_libs = record {
  Regex = Bytes;
  regcomp = λ r. some r;
  regexec = λ r s. if bytes_eq r s then some (0, length s) else none;
  message_json = λ m. m;
}

abbrev echo : Bytes → ℕ → (Status × Option Bytes) × ℕ
echo p w = ((ok, some p), w + 1)

abbrev toy_apis : Apis ℕ
toy_apis = record {
  api_find_transactions_obj_by_tag = echo;
  api_find_transactions_by_tag = echo;
  api_fetch_buffered_request_status = echo;
  api_find_transaction_object_single = echo;
  api_find_transaction_objects = echo;
  api_send_transfer = echo;
  api_recv_mam_message = echo;
  api_send_mam_message = echo;
  api_get_node_status = echo [];
  api_get_identity_info_by_hash = echo;
  api_get_identity_info_by_id = echo;
  api_find_transactions_by_id = echo;
  api_send_trytes = echo;
  api_get_ta_info = echo [];
  proxy_api_wrapper = echo;
}

abbrev toy_queue : Response → ℕ → ℕ × ℕ
toy_queue r w = (1, w)

abbrev json_header : List (Bytes × Bytes)
json_header =
    (codes "Content-Type", codes "application/json\\s*(;?\\s*charset\\s*=\\s*(UTF|utf)-8)?") ∷ []

ta_http_handler_body_example :
    serve_post toy_libs toy_apis false toy_queue
      (codes "/")
      json_header
      false
      []
      (codes "ab" ∷ codes "c" ∷ [])
      7
    ≡ queued toy_libs toy_apis false toy_queue false (
        ta_http_process_request toy_libs toy_apis false (codes "/") (some (codes "abc")) false [] 7)
ta_http_handler_body_example =
    Http.Handler.Body.ta_http_handler_body toy_libs toy_apis false toy_queue (codes "/") json_header
      false [] (codes "ab") (codes "c" ∷ []) 7 (unfold first_call in refl) (omega arith)
      (omega arith)

long : length {A = ℕ} (replicate 65536 b'c') ≡ 65536
long = length-replicate {A = ℕ} 65536 b'c'

ta_http_handler_exceeds_example :
    serve_post toy_libs toy_apis false toy_queue
      (codes "/")
      json_header
      false
      []
      (codes "ab" ∷ replicate 65536 b'c' ∷ [])
      7
    ≡ queued toy_libs toy_apis false toy_queue false ((500, some str_http_request_size_exceed), 7)
ta_http_handler_exceeds_example =
    Http.Handler.Body.ta_http_handler_exceeds toy_libs toy_apis false toy_queue (codes "/")
      json_header false [] (codes "ab") (replicate 65536 b'c' ∷ []) 7 (unfold first_call in refl)
      (omega (arith, long)) (omega arith) (omega (arith, long))
