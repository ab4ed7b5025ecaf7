-- ===== src/TimePage.antt =====
-- The circular page of time stamps of LinuxDeviceDrivers3Ed/short/short.c, which
-- shortprint/shortprint.c has too: interrupts write records of 16 characters, and reads take them out.
pub mod Order
pub mod Records
mod Tests
use leipocode.Base.{
  ℕ, zero, suc, ◌+◌, ◌-◌, ◌/◌, ◌%◌, ◌^◌, min, Bool, true, false, Option, none, some, List, [], ◌∷◌,
  ◌++◌, ltb, ◌==◌, if◌then◌else◌, length, slice, write_at, next_index, held,
}
use leipocode.Kernel.{erestartsys, efault, Ret, returns, fails, page_size}

-- `short_buffer`, `short_head` and `short_tail`. The memory is that of the page and the byte behind
-- it; the head and the tail are offsets in the page.
pub record Page : Type 0 where
  pub memory : List ℕ
  pub head : ℕ
  pub tail : ℕ

-- `short_incr_bp`
unfoldable pub incr_bp : (index delta : ℕ) → ℕ
incr_bp index delta = if ltb (index + delta) page_size then index + delta else 0

-- The last `k` decimal digits.
abbrev pub last_digits : ℕ → ℕ → List ℕ
last_digits zero n = []
last_digits (suc k) n = last_digits k (n / 10) ++ ((48 + n % 10) ∷ [])

-- How many digits a number has; `bound` is no less than the number.
abbrev pub digits_of : (bound : ℕ) → ℕ → ℕ
digits_of zero n = 0
digits_of (suc bound) n = let more = digits_of bound (n / 10) in if n == 0 then 0 else suc more

-- `%0ku`: at least `k` digits.
abbrev pub zero_padded : ℕ → ℕ → List ℕ
zero_padded k n = last_digits (k + digits_of n (n / 10 ^ k)) n

-- `struct timeval`
pub record Timeval : Type 0 where
  pub tv_sec : ℕ
  pub tv_usec : ℕ

-- "%08u.%06u\n"
unfoldable pub stamp : Timeval → List ℕ
stamp t = zero_padded 8 (t.tv_sec % 10 ^ 8) ++ (46 ∷ zero_padded 6 t.tv_usec) ++ 10 ∷ []

-- `sprintf` at the head, with the NUL behind the text, and `short_incr_bp` by the length of the text.
unfoldable pub printed : (text : List ℕ) → Page → Page
unfolding incr_bp
printed text p = record p {
  memory = write_at p.head (text ++ 0 ∷ []) p.memory;
  head = incr_bp p.head (length text);
}

-- `short_interrupt`; `none` is the BUG_ON.
unfoldable pub stamped : Timeval → Page → Option Page
unfolding printed stamp
stamped t p = if length (stamp t) == 16 then some (printed (stamp t) p) else none

-- A wake-up of a sleeping read: the page as the interrupts left it, and whether a signal is pending.
pub record Wake : Type 0 where
  pub page : Page
  pub signal : Bool

-- How a read ends: with what it returns, the bytes copied and the page; or it sleeps.
pub data Outcome : Type 0 where
  done : Ret → List ℕ → Page → Outcome
  asleep : Page → Outcome

-- Behind the wait; `copied` says whether `copy_to_user` copies everything.
unfoldable pub taken : (count : ℕ) (copied : Bool) → Page → Outcome
unfolding incr_bp
taken count copied p =
    let count0 = if ltb p.head p.tail then page_size - p.tail else p.head - p.tail in
    let n = min count0 count in
    if copied
    then done (returns n) (slice p.memory p.tail n) (record p { tail = incr_bp p.tail n })
    else done (fails efault) [] p

-- The loop that waits, and `taken`.
unfoldable pub read_page : (count : ℕ) (copied : Bool) → List Wake → Page → Outcome
unfolding taken
read_page count copied [] p = if p.head == p.tail then asleep p else taken count copied p
read_page count copied (w ∷ wakes) p =
    let rest = read_page count copied wakes w.page in
    if p.head == p.tail
    then if w.signal then done (fails erestartsys) [] w.page else rest
    else taken count copied p
