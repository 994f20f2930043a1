-- ===== src/Examples/Lifecycle.antt =====
-- A request from its submission to its collection, in the world in memory.
use tangle_accelerator.Base.{
  suc, ◌+◌, drop, true, false, none, some, Bytes, List, [], ◌∷◌, codes, All, bytes_eq, bytes_eq_iff,
  ◌≡◌, ◌≢◌, refl, arith,
}
use tangle_accelerator.Exec.{done}
use tangle_accelerator.Env.Memory.{Memory, update, memory_env, empty_memory, uuid_text}
use tangle_accelerator.Env.Memory.Lawful.{
  memory_redis, memory_lock, memory_uuid, uuid_NulFree, impossible,
}
use tangle_accelerator.Env.Iota.{Iota}
use tangle_accelerator.Env.Frame.{NetLaws, Near-refl}
use tangle_accelerator.Cache.{cache_list_at}
use tangle_accelerator.Cache.Steps.{IsAlive}
use tangle_accelerator.Core.Buffer.{
  TaCache, FetchRes, mam_bufreq_not_exist, mam_bufreq_sent, push_txn_to_buffer,
  ta_fetch_txn_with_uuid,
}
use tangle_accelerator.Core.Attach.{SendConfig, ta_send_trytes}
use tangle_accelerator.Core.Broadcast.{send_txn, read_raw}
use tangle_accelerator.Core.Broadcast.Send.{Fits}
use tangle_accelerator.Core.Requests.{
  Request, Requests, AreNames, Stands, Shows, submit, complete, collect,
}
use tangle_accelerator.Core.Requests.Complete.{IsSendable}
use tangle_accelerator.Core

abbrev alive : IsAlive memory_redis
alive c w = refl

abbrev lists : TaCache
lists = record {
  buffer_list_name = codes "buff";
  complete_list_name = codes "comp";
  mam_buffer_list_name = codes "mam_buff";
  mam_complete_list_name = codes "mam_comp";
  timeout = 600;
}

distinct : (a b : Bytes) → bytes_eq a b ≡ false → a ≢ b
distinct a b h p = impossible (cc ((bytes_eq_iff a b).1 p))

names : AreNames lists
names = record { buffer_text = omega arith; complete_text = omega arith; apart = distinct _ _ refl }

abbrev no_requests : Requests
no_requests = record { pending = []; sent = [] }

none_shown : Shows memory_redis lists empty_memory no_requests
none_shown = record {
  pending_ids = refl;
  sent_ids = refl;
  buffer_list = refl;
  complete_list = refl;
  pending_stand = tt;
  sent_stand = tt;
  unique = tt;
}

abbrev bundle : List Bytes
bundle = codes "TXA" ∷ codes "TXB" ∷ []

push_txn_to_buffer-submit_example :
    let (ret, text, w') = push_txn_to_buffer memory_env true 3 lists bundle true empty_memory in
    (ret ≡ done tt)
    × (text ≡ uuid_text 0)
    × Shows memory_redis lists w' (submit (uuid_text 0) bundle no_requests)
push_txn_to_buffer-submit_example =
    Core.Requests.Submit.push_txn_to_buffer-submit memory_redis alive memory_uuid 3 lists names
      bundle empty_memory no_requests none_shown (refl, (refl, tt)) tt (distinct _ _ refl)
      (distinct _ _ refl) refl refl

-- A transaction is a text, which is its own digest, with its time in front; the clock goes on with every look, the
-- node takes every bundle, and tells it as it was sent.
abbrev kind_iota : Iota Memory
kind_iota = record {
  Txn = Bytes;
  of_trits = λ t. t;
  serialize = λ x. some x;
  on_trits = λ x. (true, x);
  last_index = λ x. 1;
  hash = λ x. x;
  set_trunk = λ t x. x;
  set_branch = λ t x. x;
  set_attachment_timestamp = λ n x. n ∷ drop 1 x;
  set_attachment_timestamp_upper = λ n x. x;
  set_attachment_timestamp_lower = λ n x. x;
  set_nonce = λ t x. x;
  to_trytes = λ t. t;
  from_trytes = λ t. t;
  digest = λ t. t;
  current_timestamp_ms = λ w. (w.serial + 65, record w { serial = suc w.serial });
  dcurl_entry = λ t mwm w. (some [], w);
  get_transactions_to_approve = λ depth w. (none, w);
  blank_tips = ([], []);
  store_and_broadcast = λ t w. (false, w);
  get_trytes = λ hashes w. (some hashes, w);
}

kind_net : NetLaws memory_lock kind_iota
kind_net = record {
  near_timestamp =
      λ w. record { near_items = λ j. refl; near_strings = λ j. refl; near_held = refl };
  near_dcurl = λ t n. Near-refl memory_lock;
  near_tips = λ n. Near-refl memory_lock;
  near_broadcast = λ t. Near-refl memory_lock;
  near_get_trytes = λ t. Near-refl memory_lock;
}

abbrev conf : SendConfig
conf = record { gtta = false; milestone_depth = 3; mwm = 14 }

abbrev one : Request
one = record { id = uuid_text 0; stored = codes "TXB" ∷ codes "TXA" ∷ [] }

-- One request waits.
abbrev waiting : Requests
waiting = record { pending = one ∷ []; sent = [] }

abbrev waiting_world : Memory
waiting_world = record empty_memory {
  lists =
      update (update empty_memory.lists (codes "buff") (uuid_text 0 ∷ [])) (uuid_text 0) one.stored;
}

waiting_one : Stands memory_redis lists waiting_world one
waiting_one = record {
  id_text = uuid_NulFree 0;
  id_length = refl;
  not_buffer = distinct _ _ refl;
  not_complete = distinct _ _ refl;
  no_string = refl;
  bundle = refl;
}

waiting_shown : Shows memory_redis lists waiting_world waiting
waiting_shown = record {
  pending_ids = refl;
  sent_ids = refl;
  buffer_list = refl;
  complete_list = refl;
  pending_stand = (waiting_one, tt);
  sent_stand = tt;
  unique = (tt, tt);
}

ground_free : (v : Memory) → v.held ≡ 0 → (memory_env.trywrlock v).0 ≡ false
ground_free v h = rw h refl

-- What the node is sent: the last transaction is stamped first.
abbrev stamped : List Bytes
stamped = codes "BXB" ∷ codes "AXA" ∷ []

sendable :
    IsSendable memory_lock alive 3 kind_iota kind_net conf lists names waiting_world one waiting_one
      stamped stamped
sendable = record {
  takes = unfold ta_send_trytes read_raw cache_list_at in refl;
  tells = unfold ta_send_trytes read_raw cache_list_at in refl;
  free = ground_free;
}

fits : All (Fits memory_lock alive 3) one.stored
fits = ((omega arith, refl), ((omega arith, refl), tt))

send_txn-complete_example :
    let (ret, w') = send_txn memory_env true 3 kind_iota conf lists (uuid_text 0) waiting_world in
    (ret ≡ done tt) × Shows memory_redis lists w' (complete one [] stamped waiting) × (w'.held ≡ 0)
send_txn-complete_example =
    Core.Requests.Complete.send_txn-complete memory_lock alive 3 kind_iota kind_net conf lists names
      waiting_world waiting one [] (codes "TXB") (codes "TXA" ∷ []) stamped stamped waiting_one
      waiting_shown refl refl refl sendable fits (refl, (refl, tt))

-- One request was sent.
abbrev sent : Requests
sent = record { pending = []; sent = one ∷ [] }

abbrev sent_world : Memory
sent_world = record empty_memory {
  lists =
      update (update empty_memory.lists (codes "comp") (uuid_text 0 ∷ [])) (uuid_text 0) one.stored;
}

sent_shown : Shows memory_redis lists sent_world sent
sent_shown = record {
  pending_ids = refl;
  sent_ids = refl;
  buffer_list = refl;
  complete_list = refl;
  pending_stand = tt;
  sent_stand = (
    record {
      id_text = uuid_NulFree 0;
      id_length = refl;
      not_buffer = distinct _ _ refl;
      not_complete = distinct _ _ refl;
      no_string = refl;
      bundle = refl;
    },
    tt,
  );
  unique = (tt, tt);
}

abbrev fresh : FetchRes Bytes
fresh = record { status = mam_bufreq_not_exist; bundle = []; mam_result = none }

ta_fetch_txn_with_uuid-collect_example :
    let (ret, w') =
      ta_fetch_txn_with_uuid memory_env true 3 some [] lists (uuid_text 0) fresh sent_world in
    (ret ≡ done (record fresh { status = mam_bufreq_sent; bundle = one.stored }))
    × Shows memory_redis lists w' (collect [] sent)
ta_fetch_txn_with_uuid-collect_example =
    Core.Requests.Collect.ta_fetch_txn_with_uuid-collect memory_redis alive memory_lock 3 some []
      (λ t. t) lists names fresh sent_world sent one [] (codes "TXB") (codes "TXA" ∷ []) sent_shown
      refl refl refl ((omega arith, omega arith, refl), ((omega arith, omega arith, refl), tt))
