-- ===== src/ShortPrint.antt =====
-- LinuxDeviceDrivers3Ed/shortprint/shortprint.c: a printer on the parallel port. Writes fill a
-- circular buffer, and a work function, which interrupts and a timer queue, takes it out byte by byte.
pub mod Stream
pub mod Added
pub mod Sending
pub mod Events
pub mod Window
pub mod Accept
pub mod Turns
pub mod Drain
pub mod Faults
mod Tests
use leipocode.Base.{
  byte_of, ℕ, zero, suc, ◌+◌, ◌-◌, ◌/◌, ◌%◌, ◌^◌, min, Bool, true, false, ◌&&◌, ◌||◌, not, Option,
  none, some, List, [], ◌∷◌, ◌++◌, ltb, leb, ◌==◌, if◌then◌else◌, length, get_elem?, write_at, take,
  drop,
}
use leipocode.Kernel.{
  erestartsys, efault, Ret, returns, fails, Copy, all, stops_after, copied, page_size,
}
use leipocode.TimePage.{Page, Timeval, stamp, printed, Wake, Outcome, read_page}

-- A byte for the data register, or for the control register.
pub data Out : Type 0 where
  to_data to_control : ℕ → Out

-- The output buffer with `shortp_out_head` and `shortp_out_tail` as indices, `shortp_output_active`,
-- whether the timer is pending, whether `shortp_work` is queued and whether its function runs, the
-- page that reads take from, `shortp_tv`, and what was written to the port.
pub record ShortPrint : Type 0 where
  pub out_buffer : List ℕ
  pub out_head : ℕ
  pub out_tail : ℕ
  pub output_active : Bool
  pub timer : Bool
  pub queued : Bool
  pub running : Bool
  pub page : Page
  pub tv : Timeval
  pub outs : List Out

unfoldable pub shortp_out_space : ShortPrint → ℕ
shortp_out_space s =
    if leb s.out_tail s.out_head
    then (let space = page_size - s.out_head in if s.out_tail == 0 then space - 1 else space)
    else s.out_tail - s.out_head - 1

unfoldable pub shortp_incr_out_bp : (bp incr : ℕ) → ℕ
shortp_incr_out_bp bp incr = if leb page_size (bp + incr) then bp + incr - page_size else bp + incr

-- Whether a status says that the printer is ready: `SP_SR_BUSY`.
abbrev pub is_ready : (status : ℕ) → Bool
is_ready status = status / 128 % 2 == 1

abbrev pub has_ack : (status : ℕ) → Bool
has_ack status = status / 64 % 2 == 1

-- Whether the loop of `shortp_wait` ends, with the statuses that are read.
abbrev pub wait_loop : List ℕ → Bool
wait_loop [] = false
wait_loop (status ∷ more) = if is_ready status then true else wait_loop more

-- Whether it returns: the second status is only printed.
abbrev pub shortp_wait : List ℕ → Bool
shortp_wait [] = false
shortp_wait (status ∷ []) = is_ready status
shortp_wait (status ∷ shown ∷ more) = if is_ready status then true else wait_loop more

-- Set and cleared: `SP_CR_STROBE`.
abbrev pub strobe_on : ℕ → ℕ
strobe_on cr = cr - cr % 2 + 1

abbrev pub strobe_off : ℕ → ℕ
strobe_off cr = cr - cr % 2

-- `cr` is what the control register reads.
unfoldable pub shortp_do_write : (cr : ℕ) → ShortPrint → ShortPrint
unfolding shortp_incr_out_bp
shortp_do_write cr s = record s {
  timer = true;
  outs =
      s.outs
      ++ to_data (byte_of (get_elem? s.out_buffer s.out_tail))
        ∷ to_control (strobe_on cr)
        ∷ to_control (strobe_off cr)
        ∷ [];
  out_tail = shortp_incr_out_bp s.out_tail 1;
}

unfoldable pub shortp_start_output : ShortPrint → ShortPrint
shortp_start_output s =
    if s.output_active then s else record s { output_active = true; timer = true; queued = true }

-- The work queue takes the work, and calls its function.
unfoldable pub begin_work : ShortPrint → ShortPrint
begin_work s = if s.queued && not s.running then record s { queued = false; running = true } else s

-- The part of `shortp_do_work` under the lock: the output is over, or a byte is written.
unfoldable pub next_byte : (cr : ℕ) → ShortPrint → ShortPrint
unfolding shortp_do_write
next_byte cr s =
    if s.out_head == s.out_tail
    then record s { output_active = false; timer = false }
    else shortp_do_write cr s

-- Whether writers are woken, `SP_MIN_SPACE`.
unfoldable pub wakes_writers : ShortPrint → Bool
wakes_writers s = ltb (page_size / 2) ((page_size + s.out_tail - s.out_head) % page_size)

-- It returns when the printer is ready; `statuses` are what the status register reads.
unfoldable pub shortp_do_work : (statuses : List ℕ) (cr : ℕ) → ShortPrint → ShortPrint
unfolding next_byte printed stamp
shortp_do_work statuses cr s =
    let t = next_byte cr s in
    if shortp_wait statuses && s.running
    then record t { running = false; page = printed (stamp t.tv) t.page }
    else s

-- Whether the interrupt was handled.
unfoldable pub shortp_interrupt : Timeval → ShortPrint → Bool × ShortPrint
shortp_interrupt now s =
    if s.output_active then (true, record s { tv = now; queued = true }) else (false, s)

-- The timer is over.
unfoldable pub shortp_timeout : (status : ℕ) → Timeval → ShortPrint → ShortPrint
unfolding shortp_interrupt
shortp_timeout status now s =
    let over = record s { timer = false } in
    if not s.output_active
    then over
    else if not (is_ready status) || has_ack status
    then record over { timer = true }
    else (shortp_interrupt now over).1

-- What goes on beside the writers.
pub data Event : Type 0 where
  begins : Event
  works : (statuses : List ℕ) (cr : ℕ) → Event
  interrupts : Timeval → Event
  times_out : (status : ℕ) → Timeval → Event

unfoldable pub happens : Event → ShortPrint → ShortPrint
unfolding begin_work shortp_do_work shortp_interrupt shortp_timeout
happens begins s = begin_work s
happens (works statuses cr) s = shortp_do_work statuses cr s
happens (interrupts now) s = (shortp_interrupt now s).1
happens (times_out status now) s = if s.timer then shortp_timeout status now s else s

unfoldable pub happen : List Event → ShortPrint → ShortPrint
unfolding happens
happen [] s = s
happen (e ∷ es) s = happen es (happens e s)

-- A round of the loop of a write, or a test of a write that waits: what happens before it, whether a
-- signal is pending, how far `copy_from_user` copies, what happens between the copy and the new head, and
-- between the new head and the lock under which the output is started.
pub record Round : Type 0 where
  pub events : List Event
  pub signal : Bool
  pub copy : Copy
  pub copying : List Event
  pub moving : List Event

-- How a write ends: it sleeps, it returns, or the `int` that counts what is written overflows.
pub data Ending : Type 0 where
  sleeps : Ending
  ends : Ret → Ending
  overflows : Ending

-- The ending of a write, how many bytes are in the buffer, how far the position moves, and the state.
pub record Sent : Type 0 where
  pub ret : Ending
  pub accepted : ℕ
  pub moved : ℕ
  pub state : ShortPrint

abbrev pub with_out : ShortPrint → List ℕ → ShortPrint
with_out s chunk = record s { out_buffer = write_at s.out_head chunk s.out_buffer }

abbrev pub with_head : ℕ → ShortPrint → ShortPrint
with_head k s = record s { out_head = shortp_incr_out_bp s.out_head k }

-- What the round copies goes into the buffer, the head moves, and the output is started.
unfoldable pub accept : (copying moving : List Event) → List ℕ → ShortPrint → ShortPrint
unfolding shortp_incr_out_bp shortp_start_output happen
accept copying moving chunk s =
    shortp_start_output
      (happen moving (with_head (length chunk) (happen copying (with_out s chunk))))

-- The loop; `src` is what is left.
unfoldable pub write_loop : List Round → (src : List ℕ) (written : ℕ) → ShortPrint → Sent
unfolding happen shortp_out_space accept
write_loop [] src written s = record {
  ret = if ltb 0 (length src) then sleeps else ends (returns written);
  accepted = written;
  moved = if ltb 0 (length src) then 0 else written;
  state = s;
}
write_loop (r ∷ rounds) src written s =
    let now = happen r.events s in
    let space = min (shortp_out_space now) (length src) in
    let next = accept r.copying r.moving (take space src) now in
    let waits = write_loop rounds src written now in
    let goes_on = write_loop rounds (drop space src) (written + space) next in
    if not (ltb 0 (length src))
    then record { ret = ends (returns written); accepted = written; moved = written; state = s }
    else if shortp_out_space now == 0
    then (if r.signal
        then record {
          ret = ends (returns written);
          accepted = written;
          moved = written;
          state = now;
        }
        else waits)
    else elim r.copy [
      | all ↦
          if ltb (written + space) (2 ^ 31)
          then goes_on
          else record { ret = overflows; accepted = written + space; moved = 0; state = next }
      | stops_after n ↦ record {
        ret = ends (fails efault);
        accepted = written;
        moved = 0;
        state = with_out now (copied (stops_after n) (take space src));
      }
    ]

-- `interrupted` says whether `down_interruptible` is. (The semaphore is up again when a write
-- returns.)
unfoldable pub shortp_write : (interrupted : Bool) → List Round → (src : List ℕ) → ShortPrint → Sent
unfolding write_loop
shortp_write interrupted rounds src s =
    if interrupted
    then record { ret = ends (fails erestartsys); accepted = 0; moved = 0; state = s }
    else write_loop rounds src 0 s

-- `shortp_read`
unfoldable pub shortp_read : (count : ℕ) (copied : Bool) → List Wake → ShortPrint → Outcome
unfolding read_page
shortp_read count copied wakes s = read_page count copied wakes s.page

-- Whether `shortp_release` returns: in a state that a wake-up finds, or at a signal.
unfoldable pub shortp_release : List (ShortPrint × Bool) → ShortPrint → Bool
shortp_release [] s = not s.output_active
shortp_release ((next, signal) ∷ wakes) s =
    let rest = shortp_release wakes next in
    if not s.output_active then true else if signal then true else rest
