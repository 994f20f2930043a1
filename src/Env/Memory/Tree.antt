-- ===== src/Env/Memory/Tree.antt =====
-- A JSON library over trees in memory, whose texts are the trees in postfix form.
use tangle_accelerator.Base.{
  ℤ, pos, negsuc, ℕ, zero, suc, Bool, true, false, ◌||◌, Option, none, some, Bytes, List, [], ◌∷◌,
  ◌++◌, ◌==◌, bytes_eq, bytes_eq_iff, bytes_eq_refl, Bool-cases, if◌then◌else◌, ◌≡◌, ◌≢◌, refl, sym,
  ap, ◌∙◌, inl, inr,
}
use mathlib.Core.List.{append-nil, append_assoc}
use tangle_accelerator.Env.Json.{JsonTree, JsonLaws, caseless_eq}

pub data Item : Type 0 where
  text : Bytes → Item
  number : ℤ → Item
  truth : Bool → Item
  array : Item
  object : Item
  -- an array with another element, and an object with another member
  push : Item → Item → Item
  member : Item → Bytes → Item → Item

abbrev or_else : Option Item → Option Item → Option Item
or_else (some x) y = some x
or_else none y = y

abbrev find : Item → Bytes → Option Item
find (member o k v) name = or_else (find o name) (if bytes_eq name k then some v else none)
find _ name = none

abbrev has : Item → Bytes → Bool
has (member o k v) name = has o name || caseless_eq name k
has _ name = false

abbrev elements : Item → List Item
elements (push a x) = elements a ++ x ∷ []
elements _ = []

abbrev is_array_item : Item → Bool
is_array_item array = true
is_array_item (push a x) = is_array_item a
is_array_item _ = false

abbrev is_text : Item → Bool
is_text (text s) = true
is_text _ = false

abbrev is_number_item : Item → Bool
is_number_item (number n) = true
is_number_item _ = false

abbrev string_of : Item → Option Bytes
string_of (text s) = some s
string_of _ = none

abbrev int_of : Item → ℤ
int_of (number n) = n
int_of _ = pos 0

abbrev push_item : Item → Option Item → Item
push_item a none = a
push_item a (some x) = push a x

abbrev spell : Bytes → Bytes → Bytes
spell [] rest = 0 ∷ rest
spell (c ∷ s) rest = suc c ∷ spell s rest

abbrev pub encode : Item → Bytes → Bytes
encode (text s) rest = 1 ∷ spell s rest
encode (number (pos n)) rest = 2 ∷ n ∷ rest
encode (number (negsuc n)) rest = 3 ∷ n ∷ rest
encode (truth true) rest = 4 ∷ rest
encode (truth false) rest = 5 ∷ rest
encode array rest = 6 ∷ rest
encode object rest = 7 ∷ rest
encode (push a x) rest = encode a (encode x (8 ∷ rest))
encode (member o k v) rest = encode o (encode v (9 ∷ spell k rest))

pub data Mode : Type 0 where
  idle in_pos in_negsuc : Mode
  in_text in_key : Bytes → Mode

abbrev push_two : List Item → List Item
push_two (x ∷ a ∷ st) = push a x ∷ st
push_two st = st

abbrev token : ℕ → List Item → Mode × List Item
token c st =
    if c == 1
    then (in_text [], st)
    else if c == 2
    then (in_pos, st)
    else if c == 3
    then (in_negsuc, st)
    else if c == 4
    then (idle, truth true ∷ st)
    else if c == 5
    then (idle, truth false ∷ st)
    else if c == 6
    then (idle, array ∷ st)
    else if c == 7
    then (idle, object ∷ st)
    else if c == 8
    then (idle, push_two st)
    else (in_key [], st)

abbrev step : Mode → List Item → ℕ → Mode × List Item
step (in_text s) st zero = (idle, text s ∷ st)
step (in_text s) st (suc c) = (in_text (s ++ c ∷ []), st)
step (in_key k) (v ∷ o ∷ st) zero = (idle, member o k v ∷ st)
step (in_key k) st (suc c) = (in_key (k ++ c ∷ []), st)
step (in_key k) st zero = (idle, st)
step in_pos st n = (idle, number (pos n) ∷ st)
step in_negsuc st n = (idle, number (negsuc n) ∷ st)
step idle st c = token c st

abbrev top : List Item → Option Item
top [] = none
top (x ∷ st) = some x

abbrev run : Mode → List Item → Bytes → Option Item
run m st [] = top st
run m st (c ∷ cs) = let (m', st') = step m st c in run m' st' cs

run_text :
    (s acc rest : Bytes) (st : List Item)
    → run (in_text acc) st (spell s rest) ≡ run idle (text (acc ++ s) ∷ st) rest
run_text [] acc rest st = ap (λ r. run idle (text r ∷ st) rest) (sym (append-nil acc))
run_text (c ∷ s) acc rest st =
    let front : (acc ++ c ∷ []) ++ s ≡ acc ++ c ∷ s = rw append_assoc in
    run_text s (acc ++ c ∷ []) rest st ∙ ap (λ r. run idle (text r ∷ st) rest) front

run_key :
    (s acc rest : Bytes) (o v : Item) (st : List Item)
    → run (in_key acc) (v ∷ o ∷ st) (spell s rest) ≡ run idle (member o (acc ++ s) v ∷ st) rest
run_key [] acc rest o v st = ap (λ r. run idle (member o r v ∷ st) rest) (sym (append-nil acc))
run_key (c ∷ s) acc rest o v st =
    let front : (acc ++ c ∷ []) ++ s ≡ acc ++ c ∷ s = rw append_assoc in
    run_key s (acc ++ c ∷ []) rest o v st ∙ ap (λ r. run idle (member o r v ∷ st) rest) front

run-encode :
    (x : Item) (rest : Bytes) (st : List Item)
    → run idle st (encode x rest) ≡ run idle (x ∷ st) rest
run-encode (text s) rest st = run_text s [] rest st
run-encode (number (pos n)) rest st = refl
run-encode (number (negsuc n)) rest st = refl
run-encode (truth true) rest st = refl
run-encode (truth false) rest st = refl
run-encode array rest st = refl
run-encode object rest st = refl
run-encode (push a x) rest st =
    run-encode a (encode x (8 ∷ rest)) st ∙ run-encode x (8 ∷ rest) (a ∷ st)
run-encode (member o k v) rest st =
    run-encode o (encode v (9 ∷ spell k rest)) st
    ∙ run-encode v (9 ∷ spell k rest) (o ∷ st)
    ∙ run_key k [] rest o v st

abbrev pub memory_json : JsonTree
memory_json = record {
  Json = Item;
  parse = λ s. run idle [] s;
  print_unformatted = λ o. some (encode o []);
  create_object = some object;
  create_array = some array;
  create_string = λ s. some (text s);
  get_object_item = find;
  get_object_item_any_case = find;
  has_object_item = has;
  is_array = is_array_item;
  is_string = is_text;
  is_number = is_number_item;
  valuestring = string_of;
  get_string_value = string_of;
  valueint = int_of;
  items = elements;
  add_item_to_object = member;
  add_item_to_array = push_item;
  add_string_to_object = λ o k s. member o k (text s);
  add_number_to_object = λ o k n. member o k (number n);
  add_bool_to_object = λ o k b. member o k (truth b);
}

some_inj : {A : Type 0} (a b : A) → some a ≡ some b → a ≡ b
some_inj a b p = cc

or_none : (r : Option Item) → or_else r none ≡ r
or_none none = refl
or_none (some x) = refl

is_array-push : (a : Item) (x : Option Item) → is_array_item (push_item a x) ≡ is_array_item a
is_array-push a none = refl
is_array-push a (some x) = refl

find-member : (o v : Item) (k : Bytes) → find o k ≡ none → find (member o k v) k ≡ some v
find-member o v k absent =
    ap (λ r. or_else r (if bytes_eq k k then some v else none)) absent
    ∙ ap (λ b. if b then some v else none) (bytes_eq_refl k)

find-member_other : (o v : Item) (k i : Bytes) → k ≢ i → find (member o i v) k ≡ find o k
find-member_other o v k i differ = elim (Bool-cases (bytes_eq k i)) [
  | inl same ↦ absurd (differ ((bytes_eq_iff k i).0 same))
  | inr other ↦ ap (λ b. or_else (find o k) (if b then some v else none)) other ∙ or_none (find o k)
]

pub memory_laws : JsonLaws memory_json
memory_laws = record {
  is_array-create = λ a p. ap is_array_item (sym (some_inj array a p));
  items-create = λ a p. ap elements (sym (some_inj array a p));
  is_array-add = is_array-push;
  items-add = λ a x is. refl;
  create_string_some = λ s. (text s, refl);
  is_string-create = λ s x p. ap is_text (sym (some_inj (text s) x p));
  valuestring-create = λ s x n p. ap string_of (sym (some_inj (text s) x p));
  get_string_value-create = λ s x n p. ap string_of (sym (some_inj (text s) x p));
  add_string_lem = λ o k s x p. ap (member o k) (some_inj (text s) x p);
  get-create = λ o k p. ap (λ n. find n k) (sym (some_inj object o p));
  get-add = λ o k v absent. find-member o v k absent;
  get-add_other = λ o k i v differ. find-member_other o v k i differ;
  get-add_again = λ o k i v w is. ap (λ r. or_else r (if bytes_eq k i then some w else none)) is;
  has-create = λ o k p. ap (λ n. has n k) (sym (some_inj object o p));
  has-add = λ o k i v. refl;
  parse-print = λ o s p. ap (run idle []) (sym (some_inj (encode o []) s p)) ∙ run-encode o [] [];
}
