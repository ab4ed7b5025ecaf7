-- ===== src/I64.antt =====
-- The macros of example/example_S64.c: 64-bit integers as two words of 32 bits. A `long long` is the
-- number of its bits, and is negative from 2 ^ 63 on. A sum or a product that is no `long long` is
-- undefined: there the macro has no result. A second operand of 32 bits is an `unsigned int`.
pub mod Laws
mod Tests
use leipocode.Base.{
  ℕ, Option, none, some, true, false, ◌+◌, ◌-◌, ◌*◌, ◌/◌, ◌%◌, ◌^◌, Bool, not, ◌&&◌, ◌||◌, ltb, leb,
  ◌==◌, if◌then◌else◌,
}

-- `U64`, and `S64` too.
pub record U64 : Type 0 where
  pub lsw : ℕ
  pub msw : ℕ

-- `(long long)(A).MSW << 32 | (A).LSW`
abbrev pub joined : U64 → ℕ
joined a = a.msw * 2 ^ 32 + a.lsw

-- `(Value).MSW = Val >> 32; (Value).LSW = (U32)Val`
abbrev pub split : ℕ → U64
split v = record { lsw = v % 2 ^ 32; msw = v / 2 ^ 32 % 2 ^ 32 }

-- Whether a `long long` is negative, and how far it is from 0.
abbrev pub is_negative : ℕ → Bool
is_negative t = leb (2 ^ 63) t

abbrev pub distance : ℕ → ℕ
distance t = if is_negative t then 2 ^ 64 - t else t

-- A number that is `size` above or below 0, when a `long long` holds it.
abbrev pub long_long : (below : Bool) (size : ℕ) → Option ℕ
long_long true size = if leb size (2 ^ 63) then some ((2 ^ 64 - size) % 2 ^ 64) else none
long_long false size = if ltb size (2 ^ 63) then some size else none

abbrev same_sign : ℕ → ℕ → Bool
same_sign s t = if is_negative s then is_negative t else not (is_negative t)

-- `T1 + T2`
abbrev pub sum : ℕ → ℕ → Option ℕ
sum s t =
    let m = distance s in
    let n = distance t in
    if same_sign s t
    then long_long (is_negative s) (m + n)
    else if ltb m n
    then long_long (is_negative t) (n - m)
    else long_long (is_negative s) (m - n)

-- `T1 * T2`
abbrev pub product : ℕ → ℕ → Option ℕ
product s t = long_long (not (same_sign s t)) (distance s * distance t)

-- The words of a result that is there.
abbrev pub words_of : Option ℕ → Option U64
words_of none = none
words_of (some v) = some (split v)

unfoldable pub i64_add : U64 → U64 → Option U64
i64_add a b = words_of (sum (joined a) (joined b))

unfoldable pub i64_add_lit : U64 → ℕ → Option U64
i64_add_lit a b = words_of (sum (joined a) b)

unfoldable pub i64_is_equal : U64 → U64 → Bool
i64_is_equal a b = (a.lsw == b.lsw) && (a.msw == b.msw)

unfoldable pub i64_is_greater_or_equal : U64 → U64 → Bool
i64_is_greater_or_equal a b = ltb b.msw a.msw || ((a.msw == b.msw) && leb b.lsw a.lsw)

unfoldable pub i64_is_greater_than : U64 → U64 → Bool
i64_is_greater_than a b = ltb b.msw a.msw || ((a.msw == b.msw) && ltb b.lsw a.lsw)

unfoldable pub i64_is_less_than : U64 → U64 → Bool
i64_is_less_than a b = ltb a.msw b.msw || ((a.msw == b.msw) && ltb a.lsw b.lsw)

unfoldable pub i64_is_less_or_equal : U64 → U64 → Bool
i64_is_less_or_equal a b = ltb a.msw b.msw || ((a.msw == b.msw) && leb a.lsw b.lsw)

-- The bit 0x80000000 of the upper word.
unfoldable pub i64_is_negative : U64 → Bool
i64_is_negative a = a.msw / 2 ^ 31 % 2 == 1

unfoldable pub i64_is_zero : U64 → Bool
i64_is_zero a = (a.lsw == 0) && (a.msw == 0)

unfoldable pub i64_are_not_equal : U64 → U64 → Bool
i64_are_not_equal a b = not (a.lsw == b.lsw) || not (a.msw == b.msw)

abbrev borrow : ℕ → ℕ → ℕ
borrow a b = if ltb a b then 1 else 0

unfoldable pub i64_sub : U64 → U64 → U64
i64_sub a b = record {
  msw = (a.msw + 2 ^ 33 - b.msw - borrow a.lsw b.lsw) % 2 ^ 32;
  lsw = (a.lsw + 2 ^ 32 - b.lsw) % 2 ^ 32;
}

unfoldable pub i64_sub_lit : U64 → ℕ → U64
i64_sub_lit a b = record {
  msw = (a.msw + 2 ^ 32 - borrow a.lsw b) % 2 ^ 32;
  lsw = (a.lsw + 2 ^ 32 - b) % 2 ^ 32;
}

-- The quotient and the remainder of a `long long`, towards 0, by a positive number.
abbrev pub quotient : ℕ → ℕ → ℕ
quotient t b = if ltb t (2 ^ 63) then t / b else (2 ^ 64 - (2 ^ 64 - t) / b) % 2 ^ 64

abbrev pub remainder : ℕ → ℕ → ℕ
remainder t b = if ltb t (2 ^ 63) then t % b else (2 ^ 64 - (2 ^ 64 - t) % b) % 2 ^ 64

unfoldable pub i64_div_lit : U64 → ℕ → U64
i64_div_lit a b = split (quotient (joined a) b)

unfoldable pub i64_mod_lit : U64 → ℕ → U64
i64_mod_lit a b = split (remainder (joined a) b)

unfoldable pub i64_mul : U64 → U64 → Option U64
i64_mul a b = words_of (product (joined a) (joined b))

unfoldable pub i64_mul_lit : U64 → ℕ → Option U64
i64_mul_lit a b = words_of (product (joined a) b)
