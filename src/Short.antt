-- ===== src/Short.antt =====
-- LinuxDeviceDrivers3Ed/short/short.c: interrupts that leave time stamps on a page, at once or through
-- a bottom half, and reads and writes of the port. (The page is that of TimePage.)
pub mod Ports
pub mod Probe
pub mod BottomHalf
pub mod Split
pub mod Search
mod Tests
use leipocode.Base.{
  ℕ, zero, suc, ◌+◌, ◌-◌, ◌/◌, ◌%◌, ◌^◌, Bool, true, false, Option, none, some, List, [], ◌∷◌, ◌++◌,
  ltb, ◌==◌, if◌then◌else◌, length, get_elem?, set, replicate,
}
use leipocode.Kernel.{inc}
use leipocode.TimePage.{
  Page, Timeval, stamp, printed, stamped, last_digits, digits_of, Wake, Outcome, read_page,
}

-- NR_TIMEVAL
abbrev pub nr_timeval : ℕ
nr_timeval = 512

-- The page, the array `tv_data` with its head and its tail as indices, `short_wq_count`, and whether
-- the bottom half is scheduled.
pub record Short : Type 0 where
  pub page : Page
  pub tv_data : List Timeval
  pub tv_head : ℕ
  pub tv_tail : ℕ
  pub wq_count : ℕ
  pub scheduled : Bool

-- Whether a file of the minor number is that of interrupts.
unfoldable pub short_open : (minor : ℕ) → Bool
short_open minor = minor / 128 % 2 == 1

-- `short_i_read`
unfoldable pub short_i_read : (count : ℕ) (copied : Bool) → List Wake → Page → Outcome
unfolding read_page
short_i_read = read_page

abbrev pub with_page : Short → Option Page → Option Short
with_page s none = none
with_page s (some p) = some (record s { page = p })

-- `none` is the BUG_ON.
unfoldable pub short_interrupt : Timeval → Short → Option Short
unfolding stamped
short_interrupt t s = with_page s (stamped t s.page)

-- `value` is what `inb` gives. Whether the interrupt was handled, and what is written to the port.
unfoldable pub short_sh_interrupt : (value : ℕ) → Timeval → Short → Bool × List ℕ × Short
unfolding printed stamp
short_sh_interrupt value t s =
    if value / 128 % 2 == 0
    then (false, [], s)
    else (true, value % 128 ∷ [], record s { page = printed (stamp t) s.page })

-- `short_incr_tv`
unfoldable pub short_incr_tv : ℕ → ℕ
short_incr_tv i = if i == nr_timeval - 1 then 0 else i + 1

-- The top halves.
unfoldable pub short_wq_interrupt : Timeval → Short → Short
unfolding short_incr_tv
short_wq_interrupt t s = record s {
  tv_data = set s.tv_data s.tv_head t;
  tv_head = short_incr_tv s.tv_head;
  wq_count = inc s.wq_count;
  scheduled = true;
}

unfoldable pub short_tl_interrupt : Timeval → Short → Short
unfolding short_wq_interrupt
short_tl_interrupt = short_wq_interrupt

-- `%ki`: the number with spaces in front.
abbrev pub decimal : ℕ → List ℕ
decimal n = if n == 0 then 48 ∷ [] else last_digits (digits_of n n) n

abbrev pub space_padded : ℕ → ℕ → List ℕ
space_padded k n = replicate (k - length (decimal n)) 32 ++ decimal n

-- "bh after %6i\n"
unfoldable pub bh_line : ℕ → List ℕ
bh_line n = (98 ∷ 104 ∷ 32 ∷ 97 ∷ 102 ∷ 116 ∷ 101 ∷ 114 ∷ 32 ∷ []) ++ space_padded 6 n ++ (10 ∷ [])

abbrev pub or_zero : Option Timeval → Timeval
or_zero none = record { tv_sec = 0; tv_usec = 0 }
or_zero (some t) = t

-- `*tv_tail`, inside the array.
abbrev pub time_at : List Timeval → ℕ → Timeval
time_at times i = or_zero (get_elem? times i)

-- The do-while loop, with a number of rounds; `none` when they are used up.
unfoldable pub tv_loop : (rounds : ℕ) → Short → Option Short
unfolding printed stamp short_incr_tv
tv_loop zero s = none
tv_loop (suc k) s =
    let next = record s {
      page = printed (stamp (time_at s.tv_data s.tv_tail)) s.page;
      tv_tail = short_incr_tv s.tv_tail;
    } in
    let rest = tv_loop k next in if next.tv_tail == next.tv_head then some next else rest

-- The bottom half, once it has been taken from its queue; a round for each place of the array.
unfoldable pub short_do_tasklet : Short → Option Short
unfolding tv_loop bh_line printed
short_do_tasklet s =
    tv_loop nr_timeval
      (record s { wq_count = 0; scheduled = false; page = printed (bh_line s.wq_count) s.page })
