-- ===== src/Config/Numbers.antt =====
-- accelerator/config.c: strtol of the C library, and the ranges and conversions of its results.
use tangle_accelerator.Base.{
  ℕ, zero, suc, ◌-◌, ◌%◌, ◌^◌, Bool, true, false, Bytes, [], ◌∷◌, ◌==◌, ltb, leb, if◌then◌else◌,
}
pub use tangle_accelerator.Base.{ℤ, pos, negsuc}
use tangle_accelerator.Endpoint.Decimal.{is_digit, value_on, skip_space}

-- What strtol returns, whether it moved the end pointer, and whether it set errno to ERANGE.
pub record Strtol : Type 0 where
  pub value : ℤ
  pub moved : Bool
  pub range : Bool

abbrev pub no_number : Strtol
no_number = record { value = pos 0; moved = false; range = false }

-- The result for the digits' value, negated or not: a long has 64 bits.
abbrev pub converted : Bool → ℕ → Strtol
converted false m =
    if ltb m (2 ^ 63)
    then record { value = pos m; moved = true; range = false }
    else record { value = pos (2 ^ 63 - 1); moved = true; range = true }
converted true zero = record { value = pos 0; moved = true; range = false }
converted true (suc m) =
    if ltb m (2 ^ 63)
    then record { value = negsuc m; moved = true; range = false }
    else record { value = negsuc (2 ^ 63 - 1); moved = true; range = true }

abbrev pub read_digits : Bool → Bytes → Strtol
read_digits negated [] = no_number
read_digits negated (c ∷ s) =
    if is_digit c then converted negated (value_on 0 (c ∷ s)) else no_number

abbrev pub read_sign : Bytes → Strtol
read_sign [] = no_number
read_sign (c ∷ s) =
    if c == b'-'
    then read_digits true s
    else if c == b'+'
    then read_digits false s
    else read_digits false (c ∷ s)

unfoldable pub strtol : Bytes → Strtol
unfolding value_on skip_space
strtol s = read_sign (skip_space s)

-- INT_MIN <= z && z <= INT_MAX
abbrev pub is_int : ℤ → Bool
is_int (pos n) = ltb n (2 ^ 31)
is_int (negsuc n) = ltb n (2 ^ 31)

-- 0 <= z && z <= most
abbrev pub is_up_to : ℕ → ℤ → Bool
is_up_to most (pos n) = leb n most
is_up_to most (negsuc n) = false

-- The conversion to an unsigned integer of `w` bits.
abbrev pub low_bits : ℕ → ℤ → ℕ
low_bits w (pos n) = n % 2 ^ w
low_bits w (negsuc n) = 2 ^ w - 1 - n % 2 ^ w
