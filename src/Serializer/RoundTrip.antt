-- ===== src/Serializer/RoundTrip.antt =====
-- accelerator/core/serializer/serializer.c: texts that are written are read back.
use tangle_accelerator.Base.{
  ℕ, true, Option, none, some, Bytes, List, [], ◌∷◌, ◌++◌, codes, All, if◌then◌else◌, ◌≡◌, refl,
  sym, ap, ◌∙◌,
}
use tangle_accelerator.Errors.{cclient_json_parse, serializer_json_parse, serializer_json_create}
use tangle_accelerator.Exec.{Outcome, done, fail, done-inj}
use tangle_accelerator.Env.Json.{JsonTree, JsonLaws}
use tangle_accelerator.Env.Trits.{Trits, TxnFields, Converts, Pushes}
use tangle_accelerator.Core.Transfer.{SendTransferRes}
use tangle_accelerator.Core.Attach.{num_trytes_serialized_transaction}
use tangle_accelerator.Serializer.Helper.{
  ◌>>?◌, num_trytes_hash, added, add_filled, add_transactions, array_items, push_array_transactions,
  push_hashes, push_item_hashes, ta_hash8019_array_to_json_array, ta_json_array_to_hash8019_array,
  ta_hash243_queue_to_json_array, ta_json_array_to_hash243_queue,
}
use tangle_accelerator.Serializer.Requests.{
  read_json, ta_send_trytes_req_deserialize, ta_find_transaction_objects_req_deserialize,
}
use tangle_accelerator.Serializer.Responses.{
  printed_root, filled-done, printed_text-done, transfer_members, first_of,
  ta_send_trytes_res_serialize, ta_send_transfer_res_serialize,
}
use tangle_accelerator.Serializer.Members.{get-build}
use tangle_accelerator.Serializer.Carries.{
  Extended, add_transactions-Extended, add_hashes-Extended, push_transactions-Carries,
  push_hashes-Carries,
}

module _ {j : JsonTree} (l : JsonLaws j) (t : Trits) where
  -- What a request reads from the text of a response: without transactions the response has no array.
  abbrev pub read_back : List Bytes → List Bytes → Outcome (List Bytes)
  read_back out_trytes [] = fail cclient_json_parse
  read_back out_trytes (elt ∷ elts) = done (out_trytes ++ elt ∷ elts)

  array_items-new :
      (a extended : j.Json) (hs : List Bytes) (n : ℕ)
      → j.create_array ≡ some a
      → (e : Extended l t n a extended hs) → array_items j (some extended) ≡ some e.items
  array_items-new a extended hs n made e =
      ap (λ b. if b then some (j.items extended) else none) e.still_array
      ∙ ap (λ xs. some xs) (e.extends ∙ ap (λ ys. ys ++ e.items) (l.items-create a made))

  -- The array that is put into a new object is read again.
  trytes_object :
      (o : j.Json) (elt : Bytes) (elts out : List Bytes) (root : Option j.Json)
      → j.create_object ≡ some o
      → All (Converts t num_trytes_serialized_transaction) (elt ∷ elts)
      → (array : Option j.Json) → j.create_array ≡ array
      → add_filled j t (codes "trytes") (some o) (elt ∷ elts) array ≡ done root
      → (p : j.Json) × (root ≡ some p)
        × (ta_json_array_to_hash8019_array j t p (codes "trytes") out ≡ done (out ++ elt ∷ elts))
  unfolding ta_json_array_to_hash8019_array
  trytes_object o elt elts out root made converts none new h = absurd cc
  trytes_object o elt elts out root made converts (some a) new h =
      let (extended, added_all, e) =
        add_transactions-Extended l t (elt ∷ elts) a (l.is_array-create a new) converts in
      let p = j.add_item_to_object o (codes "trytes") extended in
      let is_root : some p ≡ root = done-inj (
        sym (ap (λ r. r >>? λ filled. done (added j t (some o) (codes "trytes") filled)) added_all)
        ∙ h) in
      (
        p,
        sym is_root,
        ap (λ x. push_array_transactions j t out (array_items j x))
              (l.get-add o (codes "trytes") extended (l.get-create o (codes "trytes") made))
            ∙ ap (push_array_transactions j t out)
                (array_items-new a extended (elt ∷ elts) num_trytes_serialized_transaction new e)
            ∙ push_transactions-Carries l t (elt ∷ elts) e.items out e.carries converts,
      )

  -- Into NULL nothing is put, and nothing is printed of it.
  unprinted :
      (r : Outcome j.Json) (text : Bytes)
      → ((r >>? λ filled. done (added j t none (codes "trytes") filled)) >>? printed_root j t)
        ≡ done text
      → ⊥
  unprinted (fail s) text h = absurd cc
  unprinted (done filled) text h = absurd cc

  rootless :
      (elt : Bytes) (elts : List Bytes) (array : Option j.Json) (text : Bytes)
      → (add_filled j t (codes "trytes") none (elt ∷ elts) array >>? printed_root j t) ≡ done text
      → ⊥
  rootless elt elts none text h = absurd cc
  rootless elt elts (some a) text h = unprinted (add_transactions j t (elt ∷ elts) a) text h

  root_done :
      (r : Outcome (Option j.Json)) (text : Bytes)
      → (r >>? printed_root j t) ≡ done text
      → (made : j.Json) × (r ≡ done (some made)) × (j.print_unformatted made ≡ some text)
  root_done (fail s) text h = absurd cc
  root_done (done none) text h = absurd cc
  root_done (done (some made)) text h =
      (made, refl, printed_text-done j (j.print_unformatted made) text h)

  -- A text is that of an object into which the transactions were put.
  root_printed :
      (trytes : List Bytes) (root : Option j.Json) (text : Bytes)
      → j.create_object ≡ root
      → (ta_hash8019_array_to_json_array j t trytes (codes "trytes") root >>? printed_root j t)
        ≡ done text
      → (o : j.Json) × (made : j.Json) × (j.create_object ≡ some o)
        × (ta_hash8019_array_to_json_array j t trytes (codes "trytes") (some o) ≡ done (some made))
        × (j.print_unformatted made ≡ some text)
  unfolding ta_hash8019_array_to_json_array
  root_printed [] none text new h = absurd cc
  root_printed (elt ∷ elts) none text new h = absurd (rootless elt elts j.create_array text h)
  root_printed trytes (some o) text new h =
      let (made, is, out) =
        root_done (ta_hash8019_array_to_json_array j t trytes (codes "trytes") (some o)) text h in
      (o, made, new, is, out)

  read_root :
      (trytes : List Bytes) (o made : j.Json) (out : List Bytes)
      → j.create_object ≡ some o
      → All (Converts t num_trytes_serialized_transaction) trytes
      → ta_hash8019_array_to_json_array j t trytes (codes "trytes") (some o) ≡ done (some made)
      → ta_json_array_to_hash8019_array j t made (codes "trytes") out ≡ read_back out trytes
  unfolding ta_hash8019_array_to_json_array ta_json_array_to_hash8019_array
  read_root [] o made out new converts is =
      let same : made ≡ o = cc in
      ap (λ x. push_array_transactions j t out (array_items j x))
        (ap (λ q. j.get_object_item q (codes "trytes")) same ∙ l.get-create o (codes "trytes") new)
  read_root (elt ∷ elts) o made out new converts is =
      let (p, root, read) =
        trytes_object o elt elts out (some made) new converts j.create_array refl is in
      let same : made ≡ p = cc in
      ap (λ q. ta_json_array_to_hash8019_array j t q (codes "trytes") out) same ∙ read

  -- If the trits of every transaction are written as a text of their length that is read back as them, then what a
  -- request to send trytes reads from the text of a response with those transactions are the transactions; a
  -- response without any is refused.
  pub ta_send_trytes_req_deserialize-serialize :
      (trytes out_trytes : List Bytes) (text : Bytes)
      → All (Converts t num_trytes_serialized_transaction) trytes
      → ta_send_trytes_res_serialize j t (some trytes) ≡ done text
      → ta_send_trytes_req_deserialize j t (some text) true out_trytes ≡ read_back out_trytes trytes
  unfolding ta_send_trytes_res_serialize ta_send_trytes_req_deserialize
  ta_send_trytes_req_deserialize-serialize trytes out text converts h =
      let (o, made, p, is, out_text) = root_printed trytes j.create_object text refl h in
      ap
        (read_json j
          (λ json_obj. ta_json_array_to_hash8019_array j t json_obj (codes "trytes") out))
        (l.parse-print made text out_text)
      ∙ read_root trytes o made out p converts is

  -- If the trits of every hash are written as a text of their length that is read back as them, and there is memory
  -- for every element, then the array that a queue with an element is written as can be put into a new object under
  -- "hashes", and a request whose text is printed of that object has the hashes of the queue behind those that it had.
  pub ta_find_transaction_objects_req_deserialize-queue :
      (behind : Bytes → Bytes) (queue hashes : List Bytes) (hash : Bytes) (a o : j.Json)
      → Pushes t
      → All (Converts t num_trytes_hash) (hash ∷ hashes)
      → j.create_array ≡ some a
      → j.create_object ≡ some o
      → (extended : j.Json) × (ta_hash243_queue_to_json_array j t (hash ∷ hashes) a ≡ done extended)
        × ((text : Bytes)
            → j.print_unformatted (j.add_item_to_object o (codes "hashes") extended) ≡ some text
            → ta_find_transaction_objects_req_deserialize j t behind (some text) queue
              ≡ done (queue ++ hash ∷ hashes))
  unfolding ta_hash243_queue_to_json_array ta_find_transaction_objects_req_deserialize
      ta_json_array_to_hash243_queue
  ta_find_transaction_objects_req_deserialize-queue behind queue hashes hash a o pushes converts
        new_array new_object =
      let (extended, p, e) =
        add_hashes-Extended l t (hash ∷ hashes) a (l.is_array-create a new_array) converts in
      let object = j.add_item_to_object o (codes "hashes") extended in
      let items : j.items extended ≡ e.items =
        e.extends ∙ ap (λ ys. ys ++ e.items) (l.items-create a new_array) in
      (
        extended,
        p,
        λ text printed_json.
            ap
              (read_json j (λ json_obj.
                ta_json_array_to_hash243_queue j t behind json_obj (codes "hashes") queue))
              (l.parse-print object text printed_json)
            ∙ ap (push_item_hashes j t behind queue)
                (l.get-add o (codes "hashes") extended (l.get-create o (codes "hashes") new_object))
            ∙ ap
                (λ b.
                  if b
                  then push_hashes j t behind (j.items extended) queue
                  else fail serializer_json_parse)
                e.still_array
            ∙ ap (λ xs. push_hashes j t behind xs queue) items
            ∙ push_hashes-Carries l t behind pushes (hash ∷ hashes) e.items queue e.carries
                converts,
      )

  module _ {Txn : Type 0} (f : TxnFields Txn) where
    uuid_members :
        (address : Option Bytes) (uuid : Bytes) (o made : j.Json)
        → j.create_object ≡ some o
        → transfer_members j t f (some uuid) address none o ≡ done made
        → (x : j.Json) × (j.create_string uuid ≡ some x)
          × (j.get_object_item made (codes "uuid") ≡ some x)
    uuid_members none uuid o made new h =
        let (x, p, q) =
          get-build l ((codes "uuid", uuid) ∷ []) o (codes "uuid") uuid
            (l.get-create o (codes "uuid") new) refl in
        (x, p, ap (λ n. j.get_object_item n (codes "uuid")) (sym (done-inj h)) ∙ q)
    uuid_members (some address) uuid o made new h =
        let (x, p, q) =
          get-build l ((codes "uuid", uuid) ∷ (codes "address", address) ∷ []) o (codes "uuid") uuid
            (l.get-create o (codes "uuid") new) refl in
        (x, p, ap (λ n. j.get_object_item n (codes "uuid")) (sym (done-inj h)) ∙ q)

    -- The text of a buffered transfer's response is one whose member "uuid" is the UUID's string.
    pub ta_send_transfer_res_serialize-uuid :
        (res : SendTransferRes) (uuid text : Bytes)
        → res.uuid ≡ some uuid
        → ta_send_transfer_res_serialize j t f res none ≡ done text
        → (json : j.Json) × (item : j.Json) × (j.parse text ≡ some json)
          × (j.get_object_item json (codes "uuid") ≡ some item)
          × (j.create_string uuid ≡ some item)
    unfolding ta_send_transfer_res_serialize
    ta_send_transfer_res_serialize-uuid res uuid text is h =
        let (o, made, new, q, out) =
          filled-done j serializer_json_create
            (transfer_members j t f res.uuid res.address (first_of j t f none)) j.create_object text
            h in
        let (x, string, got) =
          uuid_members res.address uuid o made new
            (ap (λ u. transfer_members j t f u res.address none o) (sym is) ∙ q) in
        (made, x, l.parse-print made text out, got, string)
