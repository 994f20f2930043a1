-- ===== src/Utils/TryteByteConv.antt =====
-- utils/tryte_byte_conv.c: two trytes for each byte, and back.
pub mod RoundTrip
use Prim.Native.Nat.{bit_and, bit_or}
use tangle_accelerator.Base.{
  ℕ, zero, suc, ◌+◌, ◌-◌, ◌*◌, ◌/◌, ◌%◌, Bytes, [], ◌∷◌, Option, none, some, ltb, ◌==◌,
  if◌then◌else◌, get_or, set, codes,
}

-- const char tryte_alphabet[]
abbrev tryte_alphabet : Bytes
tryte_alphabet = codes "9ABCDEFGHIJKLMNOPQRSTUVWXYZ"

unfoldable pub upper_tryte : ℕ → ℕ
upper_tryte dec = get_or tryte_alphabet (bit_and (dec / 16) 15) 0

unfoldable pub lower_tryte : ℕ → ℕ
lower_tryte dec = get_or tryte_alphabet (bit_and dec 15) 0

-- The list is `input[0 .. input_len)`; the result is what the loop writes to `output`.
unfoldable pub bytes_to_trytes : Bytes → Bytes
unfolding upper_tryte lower_tryte
bytes_to_trytes [] = []
bytes_to_trytes (dec ∷ rest) = upper_tryte dec ∷ lower_tryte dec ∷ bytes_to_trytes rest

-- The half of a byte that a tryte stands for, a uint8_t.
unfoldable pub half : ℕ → ℕ
half c = if c == b'9' then 0 else (c + 256 - 64) % 256

unfoldable pub join_halves : ℕ → ℕ → ℕ
join_halves upper lower = bit_or (upper * 16) lower % 256

-- The loop of trytes_to_bytes, on fuel. `i` is a uint16_t and wraps, `input_len` a uint32_t.
unfoldable pub trytes_loop : ℕ → Bytes → ℕ → ℕ → Bytes → Option Bytes
trytes_loop zero input input_len i output = none
trytes_loop (suc fuel) input input_len i output =
    let byte = join_halves (half (get_or input i 0)) (half (get_or input (i + 1) 0)) in
    let rest = trytes_loop fuel input input_len ((i + 2) % 65536) (set output (i / 2) byte) in
    if ltb i input_len then rest else some output

-- trytes_to_bytes: `none` if the loop does not end within the fuel.
unfoldable pub trytes_to_bytes : ℕ → Bytes → ℕ → Bytes → Option Bytes
trytes_to_bytes fuel input input_len output = trytes_loop fuel input input_len 0 output
