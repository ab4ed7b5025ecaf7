-- ===== src/TimePage/Records.antt =====
-- The records of LinuxDeviceDrivers3Ed/short/short.c: their length, and the NUL behind them.
use leipocode.Base.{
  ℕ, zero, suc, ◌+◌, ◌-◌, ◌/◌, ◌%◌, ◌^◌, ◌<◌, ◌≡◌, refl, ap, ◌∙◌, some, List, [], ◌∷◌, ◌++◌, arith,
  eq→==, length, length-append, write_at, get_elem?,
}
use leipocode.Kernel.{page_size}
use leipocode.TimePage.{Page, printed, Timeval, stamp, stamped, last_digits, digits_of, zero_padded}
use leipocode.TimePage.Order.{IsValid}

length-last_digits : (k n : ℕ) → length (last_digits k n) ≡ k
length-last_digits zero n = refl
length-last_digits (suc k) n =
    length-append (last_digits k (n / 10)) ((48 + n % 10) ∷ [])
    ∙ omega (arith, length-last_digits k (n / 10))

digits_of_zero : (bound : ℕ) → digits_of bound 0 ≡ 0
digits_of_zero zero = refl
digits_of_zero (suc bound) = refl

-- A number that fits takes the digits it is given.
length-zero_padded : (k n : ℕ) → n / 10 ^ k ≡ 0 → length (zero_padded k n) ≡ k
length-zero_padded k n h =
    length-last_digits (k + digits_of n (n / 10 ^ k)) n
    ∙ ap (λ m. k + digits_of n m) h
    ∙ omega (arith, digits_of_zero n)

-- A time with less than 10 ^ 6 microseconds is printed in 16 characters.
pub length-stamp : (t : Timeval) → t.tv_usec < 10 ^ 6 → length (stamp t) ≡ 16
unfolding stamp
length-stamp t h =
    let secs = zero_padded 8 (t.tv_sec % 10 ^ 8) in
    let usecs = zero_padded 6 t.tv_usec in
    omega (
      arith,
      length-append (secs ++ (46 ∷ usecs)) (10 ∷ []),
      length-append secs (46 ∷ usecs),
      length-zero_padded 8 (t.tv_sec % 10 ^ 8) (omega arith),
      length-zero_padded 6 t.tv_usec (omega (arith, h)),
    )

pub stamped_lem :
    (t : Timeval) (p : Page) → t.tv_usec < 10 ^ 6 → stamped t p ≡ some (printed (stamp t) p)
unfolding stamped
stamped_lem t p h = rw (eq→== (length (stamp t)) 16 (length-stamp t h)) refl

get_elem?-write_at :
    (j : ℕ) (xs : List ℕ) (y : ℕ) (b : List ℕ)
    → j + length xs < length b
    → get_elem? (write_at j (xs ++ y ∷ []) b) (j + length xs) ≡ some y
get_elem?-write_at j xs y [] h = absurd (omega arith)
get_elem?-write_at zero [] y (z ∷ b) h = refl
get_elem?-write_at zero (x ∷ xs) y (z ∷ b) h =
    let later : 0 + suc (length xs) ≡ suc (0 + length xs) = omega arith in
    ap (get_elem? (x ∷ write_at 0 (xs ++ y ∷ []) b)) later
    ∙ get_elem?-write_at zero xs y b (omega (arith, h))
get_elem?-write_at (suc j) xs y (z ∷ b) h =
    let later : suc j + length xs ≡ suc (j + length xs) = omega arith in
    ap (get_elem? (z ∷ write_at j (xs ++ y ∷ []) b)) later
    ∙ get_elem?-write_at j xs y b (omega (arith, h))

-- An interrupt at the last record of the page, at a time with less than 10 ^ 6 microseconds: it is
-- handled, and the byte behind the page is 0 afterwards, whatever it was.
pub nul_behind_page :
    (t : Timeval) (p : Page)
    → IsValid p
    → p.head ≡ page_size - 16
    → t.tv_usec < 10 ^ 6
    → (q : Page) × (stamped t p ≡ some q) × (get_elem? q.memory page_size ≡ some 0)
unfolding printed
nul_behind_page t p v last small =
    let l = length-stamp t small in
    let end : page_size ≡ p.head + length (stamp t) = omega (arith, last, l) in
    (
      printed (stamp t) p,
      stamped_lem t p small,
      ap (get_elem? (write_at p.head (stamp t ++ 0 ∷ []) p.memory)) end
          ∙ get_elem?-write_at p.head (stamp t) 0 p.memory (omega (arith, last, l, v.sized)),
    )
