-- ===== src/Env/Json.antt =====
-- cJSON, as the serializers use it: trees of items, made, read, printed and parsed.
use tangle_accelerator.Base.{
  ℕ, ℤ, ◌+◌, Bool, true, false, ◌&&◌, ◌||◌, Option, none, some, Bytes, List, [], ◌∷◌, ◌++◌, NulFree,
  leb, ◌==◌, if◌then◌else◌, ◌≡◌, ◌≢◌,
}

-- `none` is NULL. What changes an item gives the item as it is behind the call.
pub record JsonTree : Type 1 where
  pub Json : Type 0
  pub parse : Bytes → Option Json
  pub print_unformatted : Json → Option Bytes
  pub create_object : Option Json
  pub create_array : Option Json
  pub create_string : Bytes → Option Json
  -- cJSON_GetObjectItemCaseSensitive, cJSON_GetObjectItem and cJSON_HasObjectItem
  pub get_object_item : Json → Bytes → Option Json
  pub get_object_item_any_case : Json → Bytes → Option Json
  pub has_object_item : Json → Bytes → Bool
  pub is_array : Json → Bool
  pub is_string : Json → Bool
  pub is_number : Json → Bool
  pub valuestring : Json → Option Bytes
  pub get_string_value : Json → Option Bytes
  pub valueint : Json → ℤ
  -- what cJSON_ArrayForEach goes through
  pub items : Json → List Json
  pub add_item_to_object : Json → Bytes → Json → Json
  pub add_item_to_array : Json → Option Json → Json
  pub add_string_to_object : Json → Bytes → Bytes → Json
  pub add_number_to_object : Json → Bytes → ℤ → Json
  pub add_bool_to_object : Json → Bytes → Bool → Json

abbrev pub lower_case : ℕ → ℕ
lower_case c = if leb b'A' c && leb c b'Z' then c + 32 else c

-- Whether two names differ at most in the case of their letters
abbrev pub caseless_eq : Bytes → Bytes → Bool
caseless_eq [] [] = true
caseless_eq [] (y ∷ ys) = false
caseless_eq (x ∷ xs) [] = false
caseless_eq (x ∷ xs) (y ∷ ys) = (lower_case x == lower_case y) && caseless_eq xs ys

-- The documented behaviour where memory could be had: what was put in is found, and printing keeps the tree.
pub record JsonLaws (j : JsonTree) : Type 0 where
  pub is_array-create : (a : j.Json) → j.create_array ≡ some a → j.is_array a ≡ true
  pub items-create : (a : j.Json) → j.create_array ≡ some a → j.items a ≡ []
  pub is_array-add :
      (a : j.Json) (x : Option j.Json) → j.is_array (j.add_item_to_array a x) ≡ j.is_array a
  pub items-add :
      (a x : j.Json)
      → j.is_array a ≡ true
      → j.items (j.add_item_to_array a (some x)) ≡ j.items a ++ x ∷ []
  pub create_string_some : (s : Bytes) → (x : j.Json) × (j.create_string s ≡ some x)
  pub is_string-create :
      (s : Bytes) (x : j.Json) → j.create_string s ≡ some x → j.is_string x ≡ true
  pub valuestring-create :
      (s : Bytes) (x : j.Json) → NulFree s → j.create_string s ≡ some x → j.valuestring x ≡ some s
  pub get_string_value-create :
      (s : Bytes) (x : j.Json)
      → NulFree s
      → j.create_string s ≡ some x
      → j.get_string_value x ≡ some s
  pub add_string_lem :
      (o : j.Json) (k s : Bytes) (x : j.Json)
      → j.create_string s ≡ some x
      → j.add_string_to_object o k s ≡ j.add_item_to_object o k x
  pub get-create :
      (o : j.Json) (k : Bytes) → j.create_object ≡ some o → j.get_object_item o k ≡ none
  pub get-add :
      (o : j.Json) (k : Bytes) (v : j.Json)
      → j.get_object_item o k ≡ none
      → j.get_object_item (j.add_item_to_object o k v) k ≡ some v
  pub get-add_other :
      (o : j.Json) (k l : Bytes) (v : j.Json)
      → k ≢ l
      → j.get_object_item (j.add_item_to_object o l v) k ≡ j.get_object_item o k
  -- the first member of a name is found
  pub get-add_again :
      (o : j.Json) (k l : Bytes) (v w : j.Json)
      → j.get_object_item o k ≡ some v
      → j.get_object_item (j.add_item_to_object o l w) k ≡ some v
  pub has-create :
      (o : j.Json) (k : Bytes) → j.create_object ≡ some o → j.has_object_item o k ≡ false
  pub has-add :
      (o : j.Json) (k l : Bytes) (v : j.Json)
      → j.has_object_item (j.add_item_to_object o l v) k
        ≡ (j.has_object_item o k || caseless_eq k l)
  pub parse-print :
      (o : j.Json) (text : Bytes) → j.print_unformatted o ≡ some text → j.parse text ≡ some o
