-- ===== src/I64/Tests.antt =====
-- The macros of example/example_S64.c at numbers around 2 ^ 63.
use leipocode.Base.{some, none, refl, ◌<◌, ◌+◌, ◌-◌, ◌%◌, ◌^◌, ◌≡◌, arith, ltb, leb, ◌==◌, not}
use leipocode.I64.{
  U64, joined, i64_add, i64_add_lit, i64_sub, i64_sub_lit, i64_mul, i64_mul_lit, i64_is_equal,
  i64_is_greater_or_equal, i64_is_greater_than, i64_is_less_than, i64_is_less_or_equal, i64_is_zero,
  i64_is_negative, i64_are_not_equal,
}
use leipocode.I64.Laws.{IsWords, words_as_numbers}

abbrev low : U64
low = record { lsw = 4294967295; msw = 1 }

abbrev high : U64
high = record { lsw = 7; msw = 2147483648 }

low-IsWords : IsWords low
low-IsWords = omega arith

high-IsWords : IsWords high
high-IsWords = omega arith

words_as_numbers_example :
    ((joined (i64_sub low high) ≡ (joined low + 2 ^ 64 - joined high) % 2 ^ 64)
      × (joined (i64_sub_lit low 9) ≡ (joined low + 2 ^ 64 - 9) % 2 ^ 64))
    × (((v : U64) → i64_add low high ≡ some v → joined (i64_sub v high) ≡ joined low)
        × ((v : U64) → i64_add_lit low 9 ≡ some v → joined (i64_sub_lit v 9) ≡ joined low)
        × (joined low + joined high < 2 ^ 63 → (v : U64) × (i64_add low high ≡ some v))
        × (joined low + 9 < 2 ^ 63 → (v : U64) × (i64_add_lit low 9 ≡ some v)))
    × ((i64_is_less_than low high ≡ ltb (joined low) (joined high))
        × (i64_is_less_or_equal low high ≡ leb (joined low) (joined high))
        × (i64_is_greater_than low high ≡ ltb (joined high) (joined low))
        × (i64_is_greater_or_equal low high ≡ leb (joined high) (joined low))
        × (i64_is_equal low high ≡ (joined low == joined high))
        × (i64_are_not_equal low high ≡ not (joined low == joined high))
        × (i64_is_zero low ≡ (joined low == 0))
        × (i64_is_negative low ≡ leb (2 ^ 63) (joined low)))
words_as_numbers_example = words_as_numbers low high 9 low-IsWords high-IsWords (omega arith)

-- Twice a number of two words from 2 ^ 62 on is no `long long`, and neither is a product of two such.
abbrev large : U64
large = record { lsw = 0; msw = 1073741824 }

overflows_there : (i64_add large large ≡ none) × (i64_mul large large ≡ none)
unfolding i64_add i64_mul
overflows_there = (refl, refl)

-- The words of -1, and -1 + 9 and -1 * 9.
abbrev minus_one : U64
minus_one = record { lsw = 4294967295; msw = 4294967295 }

around_zero :
    (i64_add_lit minus_one 9 ≡ some (record { lsw = 8; msw = 0 }))
    × (i64_mul_lit minus_one 9 ≡ some (record { lsw = 4294967287; msw = 4294967295 }))
unfolding i64_add_lit i64_mul_lit
around_zero = (refl, refl)
