-- ===== src/Utils/FillNines.antt =====
-- utils/fill_nines.h: padding of a tag with nines.
use tangle_accelerator.Base.{
  ℕ, ◌+◌, ◌-◌, ◌<◌, Bytes, Option, none, some, [], ◌∷◌, ◌++◌, take, length-take, length-drop,
  take-append, take_front, append_assoc, ◌^◌, ◌%◌, ◌≤◌, sym, ap, ◌∙◌, ltb, ◌==◌, if◌then◌else◌,
  length, drop, replicate, NulFree, c_str, strncpy, length-append, NulFree-append,
  NulFree-replicate, c_str-append, strncpy-length, length-replicate, ◌≡◌, arith,
}
use tangle_accelerator.Errors.{Status, ok, null, utils_wrong_input_arg}

-- NUM_TRYTES_TAG of the IOTA library: a tag has 27 trytes.
abbrev pub num_trytes_tag : ℕ
num_trytes_tag = 27

-- `returns s b`: status `s`, with `b` in the buffer behind `new_str`. `overrun`: a write past the end of
-- that buffer.
pub data Padding : Type 0 where
  returns : Status → Option Bytes → Padding
  overrun : Padding

-- A write of `n` bytes, which are `s`, at `i`.
abbrev store : ℕ → ℕ → Bytes → Bytes → Option Bytes
store i n s buf =
    if ltb (length buf) (i + n) then none else some (take i buf ++ s ++ drop (i + n) buf)

abbrev after_store : Option Bytes → (Bytes → Padding) → Padding
after_store none next = overrun
after_store (some b) next = next b

abbrev terminated : ℕ → Bytes → Padding
terminated new_str_len filled =
    after_store (store new_str_len 1 (0 ∷ []) filled) (λ b. returns ok (some b))

-- `diff` is the size that `memset` is called with: a negative int becomes a size_t.
abbrev filled_up : ℕ → ℕ → Bytes → ℕ → Padding
filled_up new_str_len old_str_len copied diff =
    if diff == 0
    then returns utils_wrong_input_arg (some copied)
    else after_store (store old_str_len diff (replicate diff b'9') copied) (terminated new_str_len)

-- `old_str` is a C string of `length old_str` characters, fewer than 2^31.
pad : Bytes → Bytes → ℕ → Padding
pad new_str old_str new_str_len =
    let old_str_len = length old_str in
    after_store (store 0 old_str_len (strncpy old_str_len old_str) new_str) (λ copied.
      filled_up new_str_len old_str_len copied ((2 ^ 64 + new_str_len - old_str_len) % 2 ^ 64))

unfoldable pub fill_nines : Option Bytes → Option Bytes → ℕ → Padding
unfolding pad
fill_nines none old_str new_str_len = returns null none
fill_nines (some new_str) none new_str_len = returns null (some new_str)
fill_nines (some new_str) (some old_str) new_str_len =
    if new_str_len == num_trytes_tag
    then pad new_str old_str new_str_len
    else returns null (some new_str)

store-fits :
    (i n : ℕ) (s buf : Bytes)
    → i + n ≤ length buf
    → store i n s buf ≡ some (take i buf ++ s ++ drop (i + n) buf)
store-fits i n s buf h = ground arith

length-filled :
    (i n : ℕ) (s buf : Bytes)
    → i + n ≤ length buf
    → length s ≡ n
    → length (take i buf ++ s ++ drop (i + n) buf) ≡ length buf
length-filled i n s buf h e = omega (
  arith,
  length-append (take i buf ++ s) (drop (i + n) buf),
  length-append (take i buf) s,
  length-take i buf,
  length-drop (i + n) buf,
)

size_of_diff : (n : ℕ) → n < 27 → (2 ^ 64 + 27 - n) % 2 ^ 64 ≡ 27 - n
size_of_diff n h = omega arith

not_zero : (k : ℕ) → 0 < k → (x y : Padding) → (if k == 0 then x else y) ≡ y
not_zero k h x y = ground arith

-- A string of fewer than 27 characters, none of them a NUL, is padded in a buffer of at least 28 bytes: the buffer then
-- shows the string with nines behind it, 27 characters in all, and is as long as before.
pub fill_nines-padded :
    (new_str old_str : Bytes)
    → NulFree old_str
    → length old_str < num_trytes_tag
    → num_trytes_tag + 1 ≤ length new_str
    → (b : Bytes) × (fill_nines (some new_str) (some old_str) num_trytes_tag ≡ returns ok (some b))
      × (c_str b ≡ old_str ++ replicate (num_trytes_tag - length old_str) b'9')
      × (length (c_str b) ≡ num_trytes_tag)
      × (length b ≡ length new_str)
unfolding fill_nines
fill_nines-padded new_str old_str n h room =
    let k = num_trytes_tag - length old_str in
    let nines : Bytes = replicate k b'9' in
    let copied = old_str ++ drop (0 + length old_str) new_str in
    let tail = drop (length old_str + k) copied in
    let filled = old_str ++ nines ++ tail in
    let b = (old_str ++ nines) ++ 0 ∷ drop (num_trytes_tag + 1) filled in
    let fits0 : 0 + length old_str ≤ length new_str = omega (arith, h, room) in
    let size : length copied ≡ length new_str = omega (
      arith,
      length-append old_str (drop (0 + length old_str) new_str),
      length-drop (0 + length old_str) new_str,
    ) in
    let fits1 : length old_str + k ≤ length copied = omega (arith, h, room, size) in
    let size' : length filled ≡ length new_str =
      ap (λ s. length (s ++ nines ++ drop (length old_str + k) copied))
        (sym (take-append old_str (drop (0 + length old_str) new_str)))
      ∙ length-filled (length old_str) k nines copied fits1 (length-replicate k b'9')
      ∙ size in
    let fits2 : num_trytes_tag + 1 ≤ length filled = omega (arith, size', room) in
    let padded : length (old_str ++ nines) ≡ num_trytes_tag =
      omega (arith, h, length-append old_str nines, length-replicate {A = ℕ} k b'9') in
    let front : take num_trytes_tag filled ≡ old_str ++ nines =
      take_front num_trytes_tag (old_str ++ nines) tail padded in
    let copies : store 0 (length old_str) (strncpy (length old_str) old_str) new_str ≡ some copied =
      store-fits 0 (length old_str) _ new_str fits0
      ∙ ap (λ s. some (s ++ drop (0 + length old_str) new_str)) (strncpy-length old_str n) in
    let fills : store (length old_str) k nines copied ≡ some filled =
      store-fits (length old_str) k nines copied fits1
      ∙ ap (λ s. some (s ++ nines ++ drop (length old_str + k) copied))
          (take-append old_str (drop (0 + length old_str) new_str)) in
    let ends : store num_trytes_tag 1 (0 ∷ []) filled ≡ some b =
      store-fits num_trytes_tag 1 (0 ∷ []) filled fits2
      ∙ ap (λ s. some (s ++ (0 ∷ []) ++ drop (num_trytes_tag + 1) filled)) front
      ∙ ap some (append_assoc (old_str ++ nines) (0 ∷ []) (drop (num_trytes_tag + 1) filled)) in
    let shown : c_str b ≡ old_str ++ nines =
      c_str-append (old_str ++ nines) _
        (NulFree-append old_str nines n (NulFree-replicate _ b'9' (omega arith))) in
    (
      b,
      ap
            (λ o. after_store o (λ c.
              filled_up num_trytes_tag (length old_str) c
                ((2 ^ 64 + num_trytes_tag - length old_str) % 2 ^ 64)))
            copies
          ∙ ap (filled_up num_trytes_tag (length old_str) copied) (size_of_diff (length old_str) h)
          ∙ not_zero k (omega (arith, h)) _ _
          ∙ ap (λ o. after_store o (terminated num_trytes_tag)) fills
          ∙ ap (λ o. after_store o (λ x. returns ok (some x))) ends,
      shown,
      ap length shown ∙ padded,
      length-append (old_str ++ nines) (0 ∷ drop (num_trytes_tag + 1) filled)
          ∙ omega (arith, padded, room, size', length-drop (num_trytes_tag + 1) filled),
    )
