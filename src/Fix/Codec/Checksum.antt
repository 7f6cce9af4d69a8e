-- ===== src/Fix/Codec/Checksum.antt =====
-- `FixCodec::calculate_checksum` (include/fix/fix_codec.hpp) beside the plain sum of the bytes.
use fix4_0_demo.Prelude.{
  ℕ, zero, suc, Bool, true, if◌then◌else◌, ◌==◌, ==_iff, ◌+◌, ◌%◌, ◌^◌, ◌<◌, ◌≡◌, refl, ◌∙◌, ap, [],
  ◌∷◌, arith, Text, length, All, print_ℕ,
}
use fix4_0_demo.Fix.Codec.{accumulate, widen_char, calculate_checksum, zero_padded}

abbrev pub sum : Text → ℕ
sum [] = 0
sum (c ∷ cs) = c + sum cs

-- Sign extension adds a multiple of 256, and so does the wrap of `uint32_t`.
accumulate-mod :
    (cs : Text) (acc : ℕ) → All (λ c. c < 256) cs → accumulate cs acc % 256 ≡ (acc + sum cs) % 256
unfolding accumulate
accumulate-mod [] acc h = omega arith
accumulate-mod (c ∷ cs) acc h = accumulate-mod cs ((acc + widen_char c) % 2 ^ 32) h.1 ∙ ground arith

accumulate-sum : (cs : Text) → All (λ c. c < 256) cs → accumulate cs 0 % 256 ≡ sum cs % 256
accumulate-sum cs h = omega (arith, accumulate-mod cs 0 h)

-- How many numbers under a bound fail a test.
misses : (ℕ → Bool) → ℕ → ℕ
misses test zero = 0
misses test (suc bound) = misses test bound + (if test bound then 0 else 1)

misses_none : (test : ℕ → Bool) (bound k : ℕ) → misses test bound ≡ 0 → k < bound → test k ≡ true
unfolding misses
misses_none test zero k none_fails under = elim under [ ]
misses_none test (suc bound) k none_fails under = ground (arith, misses_none test bound k)

three_digits_table : misses (λ n. length (zero_padded 3 n) == 3) 256 ≡ 0
unfolding misses print_ℕ
three_digits_table = refl

-- A checksum has three digits.
pub length-calculate_checksum : (content : Text) → length (calculate_checksum content) ≡ 3
unfolding calculate_checksum
length-calculate_checksum content =
    (==_iff _ 3).0 (misses_none _ 256 (accumulate content 0 % 256) three_digits_table (omega arith))

-- The checksum of a text of bytes is their sum modulo 256, zero-padded to three digits.
pub calculate_checksum_lem :
    (content : Text)
    → All (λ c. c < 256) content
    → calculate_checksum content ≡ zero_padded 3 (sum content % 256)
unfolding calculate_checksum
calculate_checksum_lem content h = ap (zero_padded 3) (accumulate-sum content h)
