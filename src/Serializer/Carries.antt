-- ===== src/Serializer/Carries.antt =====
-- accelerator/core/serializer/ser_helper.c: arrays of texts, and the trits that are read from them.
use tangle_accelerator.Base.{
  ℕ, true, false, some, Bytes, List, [], ◌∷◌, ◌++◌, length, take, All, take-append, ◌==◌, ==_iff,
  if◌then◌else◌, ◌≡◌, ◌≢◌, refl, sym, ap, subst, ◌∙◌, arith,
}
use mathlib.Core.List.{append-nil, append_assoc}
use tangle_accelerator.Errors.{
  cclient_flex_trits, cclient_invalid_flex_trits, serializer_invalid_req,
}
use tangle_accelerator.Exec.{done, fail}
use tangle_accelerator.Env.Json.{JsonTree, JsonLaws}
use tangle_accelerator.Env.Trits.{Trits, Converts, Pushes}
use tangle_accelerator.Core.Attach.{num_trytes_serialized_transaction}
use tangle_accelerator.Serializer.Helper.{
  num_trytes_hash, add_hashes, add_transactions, push_transaction, push_transactions, push_hash,
  push_hashes, in_queue, memory_at,
}

not_zero : (n : ℕ) → n ≢ 0 → (n == 0) ≡ false
not_zero n h = ground arith

module _ {j : JsonTree} (l : JsonLaws j) (t : Trits) where
  -- The items are strings, and the texts of the trits.
  abbrev pub Carries : ℕ → List j.Json → List Bytes → Type 0
  Carries n [] [] = Unit
  Carries n [] (h ∷ hs) = ⊥
  Carries n (x ∷ xs) [] = ⊥
  Carries n (x ∷ xs) (h ∷ hs) = (j.valuestring x ≡ some (t.to_trytes n h).0) × Carries n xs hs

  -- What adding the texts of `hs` to an array has made of it.
  pub record Extended (n : ℕ) (array extended : j.Json) (hs : List Bytes) : Type 0 where
    pub items : List j.Json
    pub still_array : j.is_array extended ≡ true
    pub extends : j.items extended ≡ j.items array ++ items
    pub carries : Carries n items hs

  Extended-nil : (n : ℕ) (array : j.Json) → j.is_array array ≡ true → Extended n array array []
  Extended-nil n array is = record {
    items = [];
    still_array = is;
    extends = sym (append-nil _);
    carries = tt;
  }

  -- One more text in front of those that are added behind it.
  Extended-cons :
      (n : ℕ) (array extended : j.Json) (h : Bytes) (hs : List Bytes)
      → j.is_array array ≡ true
      → Converts t n h
      → Extended n (j.add_item_to_array array (j.create_string (t.to_trytes n h).0)) extended hs
      → Extended n array extended (h ∷ hs)
  Extended-cons n array extended h hs is converts e =
      let text = (t.to_trytes n h).0 in
      let (x, made) = l.create_string_some text in
      let added : j.items (j.add_item_to_array array (j.create_string text))
          ≡ j.items array ++ x ∷ [] =
        ap (λ o. j.items (j.add_item_to_array array o)) made ∙ l.items-add array x is in
      let front : (j.items array ++ x ∷ []) ++ e.items ≡ j.items array ++ x ∷ e.items =
        rw append_assoc in
      record {
        items = x ∷ e.items;
        still_array = e.still_array;
        extends = e.extends ∙ ap (λ ys. ys ++ e.items) added ∙ front;
        carries = (l.valuestring-create text x converts.nul_free made, e.carries);
      }

  pub add_transactions-Extended :
      (elts : List Bytes) (array : j.Json)
      → j.is_array array ≡ true
      → All (Converts t num_trytes_serialized_transaction) elts
      → (extended : j.Json) × (add_transactions j t elts array ≡ done extended)
        × Extended num_trytes_serialized_transaction array extended elts
  unfolding add_transactions
  add_transactions-Extended [] array is converts =
      (array, refl, Extended-nil num_trytes_serialized_transaction array is)
  add_transactions-Extended (elt ∷ elts) array is (one, more) =
      let n = num_trytes_serialized_transaction in
      let next = j.add_item_to_array array (j.create_string (t.to_trytes n elt).0) in
      let (extended, p, e) =
        add_transactions-Extended elts next (l.is_array-add array _ ∙ is) more in
      (
        extended,
        ap (λ b. if b then fail cclient_flex_trits else add_transactions j t elts next)
              (not_zero _ one.counted)
            ∙ p,
        Extended-cons n array extended elt elts is one e,
      )

  pub add_hashes-Extended :
      (hashes : List Bytes) (array : j.Json)
      → j.is_array array ≡ true
      → All (Converts t num_trytes_hash) hashes
      → (extended : j.Json) × (add_hashes j t hashes array ≡ done extended)
        × Extended num_trytes_hash array extended hashes
  unfolding add_hashes
  add_hashes-Extended [] array is converts = (array, refl, Extended-nil num_trytes_hash array is)
  add_hashes-Extended (hash ∷ hashes) array is (one, more) =
      let n = num_trytes_hash in
      let next = j.add_item_to_array array (j.create_string (t.to_trytes n hash).0) in
      let (extended, p, e) = add_hashes-Extended hashes next (l.is_array-add array _ ∙ is) more in
      (
        extended,
        ap (λ b. if b then fail cclient_invalid_flex_trits else add_hashes j t hashes next)
              (not_zero _ one.counted)
            ∙ p,
        Extended-cons n array extended hash hashes is one e,
      )

  pub push_transactions-Carries :
      (elts : List Bytes) (xs : List j.Json) (array : List Bytes)
      → Carries num_trytes_serialized_transaction xs elts
      → All (Converts t num_trytes_serialized_transaction) elts
      → push_transactions j t xs array ≡ done (array ++ elts)
  unfolding push_transactions
  push_transactions-Carries [] [] array carries converts = ap (λ ys. done ys) (sym (append-nil _))
  push_transactions-Carries [] (x ∷ xs) array carries converts = elim carries [ ]
  push_transactions-Carries (e ∷ elts) [] array carries converts = elim carries [ ]
  push_transactions-Carries (e ∷ elts) (x ∷ xs) array (is, carries) (one, more) =
      let n = num_trytes_serialized_transaction in
      let text = (t.to_trytes n e).0 in
      let long : (length text == n) ≡ true = (==_iff (length text) n).1 one.full in
      let first : push_transaction j t (j.valuestring x) array ≡ done (array ++ e ∷ []) =
        ap (λ v. push_transaction j t v array) is
        ∙ ap
            (λ b.
              if b then done (array ++ t.from_trytes n text ∷ []) else fail serializer_invalid_req)
            long
        ∙ ap (λ h. done (array ++ h ∷ [])) one.back in
      let front : (array ++ e ∷ []) ++ elts ≡ array ++ e ∷ elts = rw append_assoc in
      ap (λ r. elim r [ fail s ↦ fail s | done array' ↦ push_transactions j t xs array' ]) first
      ∙ push_transactions-Carries elts xs (array ++ e ∷ []) carries more
      ∙ ap (λ ys. done ys) front

  module _ (behind : Bytes → Bytes) (pushes : Pushes t) where
    pub push_hashes-Carries :
        (hashes : List Bytes) (xs : List j.Json) (queue : List Bytes)
        → Carries num_trytes_hash xs hashes
        → All (Converts t num_trytes_hash) hashes
        → push_hashes j t behind xs queue ≡ done (queue ++ hashes)
    unfolding push_hashes
    push_hashes-Carries [] [] queue carries converts = ap (λ ys. done ys) (sym (append-nil _))
    push_hashes-Carries [] (x ∷ xs) queue carries converts = elim carries [ ]
    push_hashes-Carries (h ∷ hashes) [] queue carries converts = elim carries [ ]
    push_hashes-Carries (h ∷ hashes) (x ∷ xs) queue (is, carries) (one, more) =
        let n = num_trytes_hash in
        let text = (t.to_trytes n h).0 in
        let read : memory_at j t behind n text ≡ text =
          subst (λ m. take m (text ++ 0 ∷ behind text) ≡ text) one.full
            (take-append text (0 ∷ behind text)) in
        let first : push_hash j t behind (j.valuestring x) queue ≡ done (queue ++ h ∷ []) =
          ap (λ v. push_hash j t behind v queue) is
          ∙ ap (λ s. in_queue j t behind (t.queue_push queue (t.from_trytes n s))) read
          ∙ ap (λ g. in_queue j t behind (t.queue_push queue g)) one.back
          ∙ ap (in_queue j t behind) (pushes queue h) in
        let front : (queue ++ h ∷ []) ++ hashes ≡ queue ++ h ∷ hashes = rw append_assoc in
        ap (λ r. elim r [ fail s ↦ fail s | done queue' ↦ push_hashes j t behind xs queue' ]) first
        ∙ push_hashes-Carries hashes xs (queue ++ h ∷ []) carries more
        ∙ ap (λ ys. done ys) front
