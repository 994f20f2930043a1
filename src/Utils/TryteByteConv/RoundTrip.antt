-- ===== src/Utils/TryteByteConv/RoundTrip.antt =====
-- utils/tryte_byte_conv.c: decoding what was encoded, and where the decoding loop ends.
use tangle_accelerator.Base.{
  ℕ, zero, suc, ◌+◌, ◌*◌, ◌/◌, ◌%◌, ◌≤◌, ◌<◌, Bytes, true, [], ◌∷◌, ◌++◌, none, some, ◌==◌, ==_iff,
  lt→ltb, length, length-append, get_or, set, get_or-append, get_or-append_head, ap, set-append,
  All, ◌≡◌, refl, sym, ◌∙◌, arith, Bool, every_below, every_below-true,
}
use mathlib.Core.List.{append_assoc}
use tangle_accelerator.Utils.TryteByteConv.{
  upper_tryte, lower_tryte, bytes_to_trytes, half, join_halves, trytes_loop, trytes_to_bytes,
}

-- Every list entry is the value of an unsigned char.
abbrev pub AreBytes : Bytes → Type 0
AreBytes = All (λ c. c < 256)

abbrev survives : ℕ → Bool
survives c = join_halves (half (upper_tryte c)) (half (lower_tryte c)) == c

all_survive : every_below survives 256 ≡ true
unfolding every_below join_halves half upper_tryte lower_tryte
all_survive = refl

join-halves : (c : ℕ) → c < 256 → join_halves (half (upper_tryte c)) (half (lower_tryte c)) ≡ c
join-halves c h = (==_iff _ c).0 (every_below-true survives 256 c h all_survive)

length-bytes_to_trytes : (bs : Bytes) → length (bytes_to_trytes bs) ≡ 2 * length bs
unfolding bytes_to_trytes
length-bytes_to_trytes [] = refl
length-bytes_to_trytes (b ∷ bs) = omega (arith, length-bytes_to_trytes bs)

-- One round of the loop, where the input is at the trytes of `b`.
round :
    (fuel : ℕ) (input pre : Bytes) (b : ℕ) (post out : Bytes) (len i : ℕ)
    → input ≡ pre ++ upper_tryte b ∷ lower_tryte b ∷ post
    → i ≡ length pre
    → b < 256
    → i < len
    → len < 65535
    → trytes_loop (suc fuel) input len i out
      ≡ trytes_loop fuel input len (i + 2) (set out (i / 2) b)
unfolding trytes_loop
round fuel input pre b post out len i hin hi hb h k =
    let wrap : (i + 2) % 65536 ≡ i + 2 = omega arith in
    let first : get_or input i 0 ≡ upper_tryte b =
      rw (hin, hi) (get_or-append_head pre (lower_tryte b ∷ post) (upper_tryte b) 0) in
    let second : get_or input (i + 1) 0 ≡ lower_tryte b =
      rw (hin, hi) (get_or-append pre (upper_tryte b ∷ lower_tryte b ∷ post) 1 0) in
    rw (lt→ltb _ _ h, wrap, first, second, join-halves b hb)

-- From the trytes of `bs` on, with the bytes `done` written, the loop writes `bs` behind them.
loop-trytes :
    (fuel : ℕ) (input pre out done bs junk : Bytes) (len i : ℕ)
    → input ≡ pre ++ bytes_to_trytes bs
    → i ≡ length pre
    → out ≡ done ++ junk
    → AreBytes bs
    → i ≡ 2 * length done
    → length junk ≡ length bs
    → len ≡ i + 2 * length bs
    → len < 65535
    → length bs < fuel
    → trytes_loop fuel input len i out ≡ some (done ++ bs)
unfolding bytes_to_trytes
loop-trytes zero input pre out done bs junk len i hin hi ho v e j hl k f = absurd (omega arith)
loop-trytes (suc fuel) input pre out done [] [] len i hin hi ho v e j hl k f = ended ∙ ap some ho
  where
    ended : trytes_loop (suc fuel) input len i out ≡ some out
    ended = unfold trytes_loop in ground arith
loop-trytes (suc fuel) input pre out done [] (z ∷ junk) len i hin hi ho v e j hl k f =
    absurd (omega arith)
loop-trytes (suc fuel) input pre out done (b ∷ bs) [] len i hin hi ho v e j hl k f =
    absurd (omega arith)
loop-trytes (suc fuel) input pre out done (b ∷ bs) (z ∷ junk) len i hin hi ho v e j hl k f =
    round fuel input pre b (bytes_to_trytes bs) out len i hin hi v.0 (omega arith) k
    ∙ loop-trytes fuel input (pre ++ upper_tryte b ∷ lower_tryte b ∷ []) (set out (i / 2) b)
        (done ++ b ∷ []) bs junk len (i + 2)
        (hin ∙ sym (append_assoc pre (upper_tryte b ∷ lower_tryte b ∷ []) (bytes_to_trytes bs)))
        (omega (arith, length-append pre (upper_tryte b ∷ lower_tryte b ∷ []))) written v.1
        (omega (arith, length-append done (b ∷ []))) (omega arith) (omega arith) k (omega arith)
    ∙ ap some (append_assoc done (b ∷ []) bs)
  where
    written : set out (i / 2) b ≡ (done ++ b ∷ []) ++ junk
    written =
        let at : i / 2 ≡ length done = omega arith in
        rw (at, ho, set-append done junk z b) (sym (append_assoc done (b ∷ []) junk))

-- Decoding the trytes of at most 32767 bytes, into a buffer of that many bytes, gives the bytes
-- back, and the loop ends after one round for each byte.
pub trytes_to_bytes-bytes_to_trytes :
    (bs out : Bytes) (fuel : ℕ)
    → AreBytes bs
    → length bs ≤ 32767
    → length out ≡ length bs
    → length bs < fuel
    → trytes_to_bytes fuel (bytes_to_trytes bs) (2 * length bs) out ≡ some bs
unfolding trytes_to_bytes
trytes_to_bytes-bytes_to_trytes bs out fuel v h e f =
    loop-trytes fuel (bytes_to_trytes bs) [] out [] bs out (2 * length bs) 0 refl refl refl v
      (omega arith) e (omega arith) (omega arith) f

-- On an input of 65535 trytes or more the uint16_t index wraps before the end, and the decoding
-- loop runs for ever: no fuel is enough, whatever the input.
loop-ne-some :
    (fuel : ℕ) (input : Bytes) (len i : ℕ) (out : Bytes)
    → 65535 ≤ len
    → i < 65535
    → i % 2 ≡ 0
    → trytes_loop fuel input len i out ≡ none
unfolding trytes_loop
loop-ne-some zero input len i out h k e = refl
loop-ne-some (suc fuel) input len i out h k e =
    rw (lt→ltb i len (omega arith))
      (loop-ne-some fuel input len ((i + 2) % 65536) _ h (omega arith) (omega arith))

pub trytes_to_bytes_diverges :
    (fuel : ℕ) (input : Bytes) (len : ℕ) (out : Bytes)
    → 65535 ≤ len
    → trytes_to_bytes fuel input len out ≡ none
unfolding trytes_to_bytes
trytes_to_bytes_diverges fuel input len out h =
    loop-ne-some fuel input len 0 out h (omega arith) refl
