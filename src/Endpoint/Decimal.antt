-- ===== src/Endpoint/Decimal.antt =====
-- printf and strtol of the C library on unsigned decimal numbers, as endpoint/text_serializer.c and
-- endpoint/cipher.c use them.
use tangle_accelerator.Base.{
  append_assoc, ℕ, zero, suc, ◌+◌, ◌-◌, ◌*◌, ◌/◌, ◌%◌, ◌^◌, ◌<◌, Bool, true, false, Bytes, [], ◌∷◌,
  ◌++◌, ◌&&◌, ◌||◌, ltb, leb, ◌==◌, if◌then◌else◌, length, length-append, replicate, ◌≡◌, refl, sym,
  ap, ◌∙◌, inl, inr, Bool-cases, lt→ltb, ltb→lt, arith,
}

-- The digits of "%u": the last `fuel` of them, and 20 are all of a uint64_t.
unfoldable pub printed : ℕ → ℕ → Bytes
printed zero n = []
printed (suc fuel) n =
    let front = printed fuel (n / 10) in
    if ltb n 10 then (48 + n) ∷ [] else front ++ (48 + n % 10) ∷ []

-- "%0<w>u"
unfoldable pub zero_padded : ℕ → ℕ → Bytes
unfolding printed
zero_padded w n = replicate (w - length (printed 20 n)) 48 ++ printed 20 n

abbrev pub is_digit : ℕ → Bool
is_digit c = leb 48 c && leb c 57

abbrev pub is_space : ℕ → Bool
is_space c = (c == 32) || (leb 9 c && leb c 13)

unfoldable pub value_on : ℕ → Bytes → ℕ
value_on acc [] = acc
value_on acc (c ∷ s) =
    let more = value_on (acc * 10 + (c - 48)) s in if is_digit c then more else acc

unfoldable pub skip_space : Bytes → Bytes
skip_space [] = []
skip_space (c ∷ s) = let rest = skip_space s in if is_space c then rest else c ∷ s

-- Whether there is a minus sign, and the digits' value.
abbrev signed : Bytes → Bool × ℕ
signed [] = (false, 0)
signed (c ∷ s) =
    if c == b'-'
    then (true, value_on 0 s)
    else if c == b'+'
    then (false, value_on 0 s)
    else (false, value_on 0 (c ∷ s))

-- The result of strtol at base 10, which saturates, as a uint64_t.
abbrev saturated : Bool × ℕ → ℕ
saturated (true, m) = if ltb m (2 ^ 63) then (2 ^ 64 - m) % 2 ^ 64 else 2 ^ 63
saturated (false, m) = if ltb m (2 ^ 63) then m else 2 ^ 63 - 1

-- `(uint64_t)atol(s)` and `(uint32_t)atoi(s)`
unfoldable pub atol : Bytes → ℕ
unfolding value_on skip_space
atol s = saturated (signed (skip_space s))

unfoldable pub atoi : Bytes → ℕ
unfolding atol
atoi s = atol s % 2 ^ 32

-- Exactly `w` digits of `n`, from the left.
unfoldable pub fixed : ℕ → ℕ → Bytes
fixed zero n = []
fixed (suc w) n = fixed w (n / 10) ++ (48 + n % 10) ∷ []

pub fixed-length : (w n : ℕ) → length (fixed w n) ≡ w
unfolding fixed
fixed-length zero n = refl
fixed-length (suc w) n =
    omega (arith, length-append (fixed w (n / 10)) ((48 + n % 10) ∷ []), fixed-length w (n / 10))

fixed_zeros : (w : ℕ) → fixed w 0 ≡ replicate w 48
unfolding fixed
fixed_zeros zero = refl
fixed_zeros (suc w) = ap (λ (s : Bytes). s ++ 48 ∷ []) (fixed_zeros w) ∙ replicate_end w
  where
    replicate_end : (k : ℕ) → replicate {A = ℕ} k 48 ++ 48 ∷ [] ≡ 48 ∷ replicate k 48
    replicate_end zero = refl
    replicate_end (suc k) = ap (λ (t : Bytes). 48 ∷ t) (replicate_end k)

tenth : (n k : ℕ) → n < 10 ^ suc k → n / 10 < 10 ^ k
tenth n k h = grind arith

small_fixed : (w n : ℕ) → n < 10 → replicate w 48 ++ (48 + n) ∷ [] ≡ fixed (suc w) n
unfolding fixed
small_fixed w n h =
    let front : fixed w (n / 10) ≡ replicate w 48 = ap (fixed w) (omega arith) ∙ fixed_zeros w in
    let last : 48 + n ≡ 48 + n % 10 = omega arith in rw (front, last) refl

printed-fixed :
    (fuel w n : ℕ)
    → w < fuel
    → n < 10 ^ suc w
    → replicate (suc w - length (printed fuel n)) 48 ++ printed fuel n ≡ fixed (suc w) n
unfolding printed fixed
printed-fixed zero w n f h = absurd (omega arith)
printed-fixed (suc fuel) zero n f h = rw (lt→ltb n 10 (omega arith)) (small_fixed 0 n (omega arith))
printed-fixed (suc fuel) (suc w) n f h = elim (Bool-cases (ltb n 10)) [
  | inl p ↦
      let gap : suc (suc w) - 1 ≡ suc w = omega arith in
      rw p (rw gap (small_fixed (suc w) n (ltb→lt n 10 p)))
  | inr p ↦
      let front = printed fuel (n / 10) in
      let digit = (48 + n % 10) ∷ [] in
      let gap : suc (suc w) - length (front ++ digit) ≡ suc w - length front =
        omega (arith, length-append front digit) in
      rw p (
        rw gap (
          sym (append_assoc (replicate (suc w - length front) 48) front digit)
          ∙ ap (λ s. s ++ digit) (printed-fixed fuel w (n / 10) (omega arith) (tenth n (suc w) h))))
]

-- Where the digits fit, the padded number has exactly the width.
pub zero_padded-fixed :
    (w n : ℕ) → w < 20 → n < 10 ^ suc w → zero_padded (suc w) n ≡ fixed (suc w) n
unfolding zero_padded
zero_padded-fixed w n f h = printed-fixed 20 w n f h

-- Reading on behind the digits.
pub value_on-fixed :
    (w acc n : ℕ) (rest : Bytes)
    → n < 10 ^ w
    → value_on acc (fixed w n ++ rest) ≡ value_on (acc * 10 ^ w + n) rest
unfolding value_on fixed
value_on-fixed zero acc n rest h = ap (λ a. value_on a rest) (omega arith)
value_on-fixed (suc w) acc n rest h =
    let d = 48 + n % 10 in
    let digit : is_digit d ≡ true = ground arith in
    ap (value_on acc) (append_assoc (fixed w (n / 10)) (d ∷ []) rest)
    ∙ value_on-fixed w acc (n / 10) (d ∷ rest) (tenth n w h)
    ∙ rw digit
        (ap (λ a. value_on a rest) (shift acc (10 ^ w) n ∙ ap (λ x. acc * x + n) (sym (power w))))
  where
    shift : (a x m : ℕ) → (a * x + m / 10) * 10 + (48 + m % 10 - 48) ≡ a * (x * 10) + m
    shift a x m = grind arith

    power : (k : ℕ) → 10 ^ suc k ≡ 10 ^ k * 10
    power k = grind arith

pub fixed_head : (w n : ℕ) → (c : ℕ) × (s : Bytes) × (fixed (suc w) n ≡ c ∷ s) × (is_digit c ≡ true)
unfolding fixed
fixed_head zero n = (48 + n % 10, [], refl, ground arith)
fixed_head (suc w) n =
    let (c, s, e, d) = fixed_head w (n / 10) in
    (c, s ++ (48 + n % 10) ∷ [], ap (λ t. t ++ (48 + n % 10) ∷ []) e, d)

-- A digit is no white space and no sign.
signed-digit :
    (c : ℕ) (s : Bytes)
    → is_digit c ≡ true
    → signed (skip_space (c ∷ s)) ≡ (false, value_on 0 (c ∷ s))
unfolding skip_space
signed-digit c s h =
    let space : is_space c ≡ false = ground arith in
    let minus : (c == b'-') ≡ false = ground arith in
    let plus : (c == b'+') ≡ false = ground arith in rw space (rw minus (rw plus refl))

pub atol-fixed :
    (w n : ℕ) (rest : Bytes) → n < 10 ^ suc w → n < 2 ^ 63 → atol (fixed (suc w) n ++ 0 ∷ rest) ≡ n
unfolding atol
atol-fixed w n rest h small =
    let (c, s, e, d) = fixed_head w n in
    ap (λ t. saturated (signed (skip_space (t ++ 0 ∷ rest)))) e
    ∙ ap saturated (signed-digit c (s ++ 0 ∷ rest) d)
    ∙ ap (λ t. saturated (false, value_on 0 (t ++ 0 ∷ rest))) (sym e)
    ∙ ap (λ m. saturated (false, m)) (value_on-fixed (suc w) 0 n (0 ∷ rest) h)
    ∙ ap (λ m. saturated (false, m)) (none_before (10 ^ suc w))
    ∙ rw (lt→ltb n (2 ^ 63) small) refl
  where
    none_before : (x : ℕ) → 0 * x + n ≡ n
    none_before x = grind arith

pub atoi-fixed :
    (w n : ℕ) (rest : Bytes) → n < 10 ^ suc w → n < 2 ^ 32 → atoi (fixed (suc w) n ++ 0 ∷ rest) ≡ n
unfolding atoi
atoi-fixed w n rest h small = rw (atol-fixed w n rest h (omega arith)) (omega arith)
