-- ===== src/Serializer/Members.antt =====
-- Objects of string members, as the serializers build them: what is found in them.
use tangle_accelerator.Base.{
  ℕ, Bool, true, false, ◌||◌, Option, none, some, Bytes, List, [], ◌∷◌, NulFree, strncpy, bytes_eq,
  bytes_eq_iff, Bool-cases, if◌then◌else◌, ◌≡◌, ◌≢◌, refl, sym, ap, subst, ◌∙◌, inl, inr,
}
use mathlib.Core.Bool.{false≢true}
use tangle_accelerator.Exec.{done}
use tangle_accelerator.Env.Json.{JsonTree, JsonLaws, caseless_eq}
use tangle_accelerator.Serializer.Helper.{ta_json_get_string, string_text, item_text}

abbrev pub Members : Type 0
Members = List (Bytes × Bytes)

-- The first text under a name
abbrev pub text_under : Bytes → Members → Option Bytes
text_under k [] = none
text_under k ((l, s) ∷ ms) = if bytes_eq k l then some s else text_under k ms

abbrev pub has_any : Bytes → Members → Bool
has_any k [] = false
has_any k ((l, s) ∷ ms) = caseless_eq k l || has_any k ms

or_assoc : (a b c : Bool) → ((a || b) || c) ≡ (a || (b || c))
or_assoc true b c = refl
or_assoc false b c = refl

or_false : (a : Bool) → (a || false) ≡ a
or_false true = refl
or_false false = refl

module _ {j : JsonTree} (l : JsonLaws j) where
  abbrev pub build : j.Json → Members → j.Json
  build o [] = o
  build o ((k, s) ∷ ms) = build (j.add_string_to_object o k s) ms

  item_of :
      (o : j.Json) (k s : Bytes)
      → (x : j.Json) × (j.create_string s ≡ some x)
        × (j.add_string_to_object o k s ≡ j.add_item_to_object o k x)
  item_of o k s = let (x, made) = l.create_string_some s in (x, made, l.add_string_lem o k s x made)

  get-build_again :
      (ms : Members) (o v : j.Json) (k : Bytes)
      → j.get_object_item o k ≡ some v
      → j.get_object_item (build o ms) k ≡ some v
  get-build_again [] o v k h = h
  get-build_again ((i, s) ∷ ms) o v k h =
      let (x, made, path) = item_of o i s in
      get-build_again ms (j.add_string_to_object o i s) v k
        (ap (λ p. j.get_object_item p k) path ∙ l.get-add_again o k i v x h)

  -- What is found is the item that was made of the first text under the name.
  pub get-build :
      (ms : Members) (o : j.Json) (k s : Bytes)
      → j.get_object_item o k ≡ none
      → text_under k ms ≡ some s
      → (x : j.Json) × (j.create_string s ≡ some x) × (j.get_object_item (build o ms) k ≡ some x)
  get-build [] o k s absent h = absurd cc
  get-build ((i, r) ∷ ms) o k s absent h =
      let (x, made, path) = item_of o i r in
      elim (Bool-cases (bytes_eq k i)) [
        | inl same ↦
            let key : k ≡ i = (bytes_eq_iff k i).0 same in
            let text : some r ≡ some s =
              ap (λ b. if b then some r else text_under k ms) (sym same) ∙ h in
            let here : j.get_object_item (j.add_string_to_object o i r) k ≡ some x =
              subst (λ n. j.get_object_item n k ≡ some x) (sym path)
                (subst (λ n. j.get_object_item (j.add_item_to_object o n x) k ≡ some x) key
                  (l.get-add o k x absent)) in
            let texts : s ≡ r = cc in
            (
              x,
              ap j.create_string texts ∙ made,
              get-build_again ms (j.add_string_to_object o i r) x k here,
            )
        | inr other ↦
            let differ : k ≢ i = λ p. false≢true (sym other ∙ (bytes_eq_iff k i).1 p) in
            let still : j.get_object_item (j.add_string_to_object o i r) k ≡ none =
              ap (λ n. j.get_object_item n k) path ∙ l.get-add_other o k i x differ ∙ absent in
            get-build ms (j.add_string_to_object o i r) k s still
              (ap (λ b. if b then some r else text_under k ms) (sym other) ∙ h)
      ]

  -- A string of the object is read into a buffer.
  pub ta_json_get_string-build :
      (n : ℕ) (ms : Members) (o : j.Json) (k s : Bytes)
      → j.get_object_item o k ≡ none
      → text_under k ms ≡ some s
      → NulFree s
      → ta_json_get_string j (some (build o ms)) (some k) true n ≡ done (strncpy n s)
  unfolding ta_json_get_string
  ta_json_get_string-build n ms o k s absent h nul_free =
      let (x, made, got) = get-build ms o k s absent h in
      ap (item_text j n) got
      ∙ ap (λ b. string_text j n b (j.valuestring x)) (l.is_string-create s x made)
      ∙ ap (string_text j n true) (l.valuestring-create s x nul_free made)

  pub has-build :
      (ms : Members) (o : j.Json) (k : Bytes)
      → j.has_object_item (build o ms) k ≡ (j.has_object_item o k || has_any k ms)
  has-build [] o k = sym (or_false (j.has_object_item o k))
  has-build ((i, s) ∷ ms) o k =
      let (x, made, path) = item_of o i s in
      has-build ms (j.add_string_to_object o i s) k
      ∙ ap (λ p. j.has_object_item p k || has_any k ms) path
      ∙ ap (λ b. b || has_any k ms) (l.has-add o k i x)
      ∙ or_assoc (j.has_object_item o k) (caseless_eq k i) (has_any k ms)
