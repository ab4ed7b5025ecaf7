-- ===== src/I64/Laws.antt =====
-- The macros of example/example_S64.c against arithmetic modulo 2 ^ 64.
use leipocode.Base.{
  ℕ, ◌+◌, ◌-◌, ◌*◌, ◌/◌, ◌%◌, ◌^◌, ◌≤◌, ◌<◌, ◌≡◌, ◌≢◌, arith, ltb, leb, ◌==◌, not, sym, ◌∙◌, lt→ltb,
  le→ltb, lt→leb, ap, subst, refl, Bool, true, false, none, some, inl, inr, ◌⊎◌, Bool-cases,
  if◌then◌else◌,
}
use native.Mathlib.Nat.{
  div-mul-le_self, le-div_iff_mul-le, mul-le-mul_left, div-le_self, mod-lt, mod-le,
}
use mathlib.Core.Option.{some-injective, none-ne-some}
use leipocode.I64.{
  U64, joined, split, words_of, sum, is_negative, long_long, i64_add, i64_add_lit, i64_sub,
  i64_sub_lit, i64_is_equal, i64_is_greater_or_equal, i64_is_greater_than, i64_is_less_than,
  i64_is_less_or_equal, quotient, i64_div_lit, i64_mod_lit, i64_is_zero, i64_is_negative,
  i64_are_not_equal,
}

-- Both words have 32 bits.
pub record IsWords (a : U64) : Type 0 where
  pub lower : a.lsw < 2 ^ 32
  pub upper : a.msw < 2 ^ 32

pub joined-split : (v : ℕ) → v < 2 ^ 64 → joined (split v) ≡ v
joined-split v h = omega arith

split-IsWords : (v : ℕ) → IsWords (split v)
split-IsWords v = record {
  lower = mod-lt v (omega arith);
  upper = mod-lt (v / 2 ^ 32) (omega arith);
}

-- On operands whose words have 32 bits, differences are those of the 64-bit numbers, modulo 2 ^ 64;
-- with a second operand of 32 bits too.
pub differences :
    (a b : U64) (n : ℕ)
    → IsWords a
    → IsWords b
    → n < 2 ^ 32
    → (joined (i64_sub a b) ≡ (joined a + 2 ^ 64 - joined b) % 2 ^ 64)
      × (joined (i64_sub_lit a n) ≡ (joined a + 2 ^ 64 - n) % 2 ^ 64)
unfolding i64_sub i64_sub_lit
differences a b n wa wb h = (ground arith, ground arith)

long_long_lem :
    (below : Bool) (size r : ℕ)
    → r ≡ (if below then (2 ^ 64 - size) % 2 ^ 64 else size)
    → (long_long below size ≡ none) ⊎ (long_long below size ≡ some r)
long_long_lem true size r e = elim (Bool-cases (leb size (2 ^ 63))) [
  | inl fits ↦ inr (rw (fits, e) refl)
  | inr too_big ↦ inl (rw too_big refl)
]
long_long_lem false size r e = elim (Bool-cases (ltb size (2 ^ 63))) [
  | inl fits ↦ inr (rw (fits, e) refl)
  | inr too_big ↦ inl (rw too_big refl)
]

-- A sum of signed numbers that has a result is the sum of the bits.
sum_lem :
    (s t : ℕ) → s < 2 ^ 64 → t < 2 ^ 64 → (sum s t ≡ none) ⊎ (sum s t ≡ some ((s + t) % 2 ^ 64))
sum_lem s t hs ht = elim (Bool-cases (is_negative s)) [
  | inl ns ↦ elim (Bool-cases (is_negative t)) [
    | inl nt ↦
        rw (ns, nt)
          (long_long_lem true (2 ^ 64 - s + (2 ^ 64 - t)) _ (ground (arith, ns, nt, hs, ht)))
    | inr pt ↦ elim (Bool-cases (ltb (2 ^ 64 - s) t)) [
      | inl less ↦
          rw (ns, pt, less)
            (long_long_lem false (t - (2 ^ 64 - s)) _ (ground (arith, ns, pt, less, hs, ht)))
      | inr more ↦
          rw (ns, pt, more)
            (long_long_lem true (2 ^ 64 - s - t) _ (ground (arith, ns, pt, more, hs, ht)))
    ]
  ]
  | inr ps ↦ elim (Bool-cases (is_negative t)) [
    | inl nt ↦ elim (Bool-cases (ltb s (2 ^ 64 - t))) [
      | inl less ↦
          rw (ps, nt, less)
            (long_long_lem true (2 ^ 64 - t - s) _ (ground (arith, ps, nt, less, hs, ht)))
      | inr more ↦
          rw (ps, nt, more)
            (long_long_lem false (s - (2 ^ 64 - t)) _ (ground (arith, ps, nt, more, hs, ht)))
    ]
    | inr pt ↦ rw (ps, pt) (long_long_lem false (s + t) _ (ground (arith, ps, pt)))
  ]
]

-- A sum that has a result.
added :
    (t : ℕ) (a v : U64)
    → IsWords a
    → t < 2 ^ 64
    → words_of (sum (joined a) t) ≡ some v
    → (joined v ≡ (joined a + t) % 2 ^ 64) × IsWords v
added t a v wa ht e = elim (sum_lem (joined a) t (omega arith) ht) [
  | inl overflow ↦ absurd (none-ne-some v (sym (ap words_of overflow) ∙ e))
  | inr result ↦
      let total = (joined a + t) % 2 ^ 64 in
      let words = some-injective _ _ (sym (ap words_of result) ∙ e) in
      subst (λ v. (joined v ≡ total) × IsWords v) words
        (joined-split total (mod-lt (joined a + t) (omega arith)), split-IsWords total)
]

-- A sum below 2 ^ 63 has a result.
small_sum : (s t : ℕ) → s + t < 2 ^ 63 → sum s t ≡ some (s + t)
small_sum s t h =
    rw (lt→leb (2 ^ 63) s (omega arith), lt→leb (2 ^ 63) t (omega arith), lt→ltb (s + t) (2 ^ 63) h)
      refl

-- On operands whose words have 32 bits, differences take back sums that have not overflowed.
pub sums :
    (a b : U64) (n : ℕ)
    → IsWords a
    → IsWords b
    → n < 2 ^ 32
    → ((v : U64) → i64_add a b ≡ some v → joined (i64_sub v b) ≡ joined a)
      × ((v : U64) → i64_add_lit a n ≡ some v → joined (i64_sub_lit v n) ≡ joined a)
      × (joined a + joined b < 2 ^ 63 → (v : U64) × (i64_add a b ≡ some v))
      × (joined a + n < 2 ^ 63 → (v : U64) × (i64_add_lit a n ≡ some v))
unfolding i64_add i64_add_lit
sums a b n wa wb h = (
  λ v e.
      let (total, words) = added (joined b) a v wa (omega arith) e in
      omega (arith, (differences v b n words wb h).0, total),
  λ v e.
      let (total, words) = added n a v wa (omega arith) e in
      omega (arith, (differences v b n words wb h).1, total),
  λ small. (_, ap words_of (small_sum (joined a) (joined b) small)),
  λ small. (_, ap words_of (small_sum (joined a) n small)),
)

-- On operands whose words have 32 bits, the comparisons are those of the unsigned 64-bit numbers,
-- and I64_IsNegative says that the number is 2 ^ 63 or more.
pub comparisons :
    (a b : U64)
    → IsWords a
    → IsWords b
    → (i64_is_less_than a b ≡ ltb (joined a) (joined b))
      × (i64_is_less_or_equal a b ≡ leb (joined a) (joined b))
      × (i64_is_greater_than a b ≡ ltb (joined b) (joined a))
      × (i64_is_greater_or_equal a b ≡ leb (joined b) (joined a))
      × (i64_is_equal a b ≡ (joined a == joined b))
      × (i64_are_not_equal a b ≡ not (joined a == joined b))
      × (i64_is_zero a ≡ (joined a == 0))
      × (i64_is_negative a ≡ leb (2 ^ 63) (joined a))
unfolding i64_is_less_than i64_is_less_or_equal i64_is_greater_than i64_is_greater_or_equal
    i64_is_equal i64_are_not_equal i64_is_zero i64_is_negative
comparisons a b wa wb = (
  ground arith,
  ground arith,
  ground arith,
  ground arith,
  ground arith,
  ground arith,
  ground arith,
  ground arith,
)

-- On operands whose words have 32 bits, and with a second operand that is a number of 32 bits:
-- differences are those of the 64-bit numbers, modulo 2 ^ 64; I64_Sub and I64_SubLit take back a sum of
-- I64_Add and I64_AddLit that has not overflowed, and a sum below 2 ^ 63 does not; the comparisons are
-- those of the unsigned 64-bit numbers, and I64_IsNegative says that the number is 2 ^ 63 or more.
pub words_as_numbers :
    (a b : U64) (n : ℕ)
    → IsWords a
    → IsWords b
    → n < 2 ^ 32
    → ((joined (i64_sub a b) ≡ (joined a + 2 ^ 64 - joined b) % 2 ^ 64)
        × (joined (i64_sub_lit a n) ≡ (joined a + 2 ^ 64 - n) % 2 ^ 64))
      × (((v : U64) → i64_add a b ≡ some v → joined (i64_sub v b) ≡ joined a)
          × ((v : U64) → i64_add_lit a n ≡ some v → joined (i64_sub_lit v n) ≡ joined a)
          × (joined a + joined b < 2 ^ 63 → (v : U64) × (i64_add a b ≡ some v))
          × (joined a + n < 2 ^ 63 → (v : U64) × (i64_add_lit a n ≡ some v)))
      × ((i64_is_less_than a b ≡ ltb (joined a) (joined b))
          × (i64_is_less_or_equal a b ≡ leb (joined a) (joined b))
          × (i64_is_greater_than a b ≡ ltb (joined b) (joined a))
          × (i64_is_greater_or_equal a b ≡ leb (joined b) (joined a))
          × (i64_is_equal a b ≡ (joined a == joined b))
          × (i64_are_not_equal a b ≡ not (joined a == joined b))
          × (i64_is_zero a ≡ (joined a == 0))
          × (i64_is_negative a ≡ leb (2 ^ 63) (joined a)))
words_as_numbers a b n wa wb h =
    (differences a b n wa wb h, sums a b n wa wb h, comparisons a b wa wb)

-- Of an operand below 2 ^ 63, the quotient and the remainder by a positive number are those of the
-- 64-bit number.
pub quotient_and_remainder :
    (a : U64) (n : ℕ)
    → 0 < n
    → joined a < 2 ^ 63
    → (joined (i64_div_lit a n) ≡ joined a / n) × (joined (i64_mod_lit a n) ≡ joined a % n)
unfolding i64_div_lit i64_mod_lit
quotient_and_remainder a n pos h = rw (lt→ltb (joined a) (2 ^ 63) h) (
  joined-split (joined a / n) (omega (arith, div-le_self (joined a) n)),
  joined-split (joined a % n) (omega (arith, mod-le (joined a) n)),
)

half : (x n : ℕ) → 2 ≤ n → x / n * 2 ≤ x
half x n big = omega (arith, div-mul-le_self x n, mul-le-mul_left (x / n) big)

-- Of an operand of two words that is 2 ^ 63 or more, the quotient by a number of 32 bits that is 2 or
-- more is never that of the unsigned number.
pub quotient_is_signed :
    (a : U64) (n : ℕ)
    → IsWords a
    → 2 ≤ n
    → n < 2 ^ 32
    → 2 ^ 63 ≤ joined a
    → joined (i64_div_lit a n) ≢ joined a / n
unfolding i64_div_lit
quotient_is_signed a n w big small h =
    let t = joined a in
    let some_times : 1 ≤ t / n = (le-div_iff_mul-le (omega arith)).1 (omega arith) in
    let signed : quotient t n ≡ (2 ^ 64 - (2 ^ 64 - t) / n) % 2 ^ 64 = rw (le→ltb t (2 ^ 63) h) in
    let back : joined (split (quotient t n)) ≡ quotient t n =
      joined-split (quotient t n) (omega (arith, signed)) in
    λ e. omega (arith, half t n big, half (2 ^ 64 - t) n big, some_times, signed, sym back ∙ e)
