-- ===== src/TinyTty/Ports.antt =====
-- The open count and the timer of LinuxDeviceDrivers3Ed/tty/tiny_tty.c.
use leipocode.Base.{
  ℕ, zero, suc, ◌+◌, ◌^◌, ◌<◌, ◌≡◌, ◌≢◌, refl, sym, subst, ap, ◌∙◌, Bool, true, false, lt→leb,
  Option, none, some, if◌then◌else◌, arith, ◌==◌, eq→==, ne→==,
}
use mathlib.Core.Bool.{false≢true}
use mathlib.Core.Option.{some-injective}
use leipocode.Kernel.{enomem, Ret, returns, fails, inc, dec}
use leipocode.TinyTty.{
  Port, Opened, with_timer, not_positive, tiny_open, do_close, tiny_close, tiny_timer,
}

abbrev opened_as : Port → Opened
opened_as q = record { ret = returns 0; entry = some q; driver_data = true }

-- The port is open `n` times, and its timer is armed just while it is open.
abbrev pub Running : ℕ → Port → Type 0
Running zero p = (p.open_count ≡ 0) × (p.timer ≢ some true)
Running (suc n) p = (p.open_count ≡ suc n) × (p.timer ≡ some true)

abbrev is_success : Ret → Bool
is_success (returns n) = true
is_success (fails e) = false

entry_of : (p q : Port) → opened_as p ≡ opened_as q → p ≡ q
entry_of p q e = some-injective _ _ (ap (λ (o : Opened). o.entry) e)

-- The first open succeeds only with a timer.
first_open :
    (memory : Bool) (t : Option Bool) (p q : Port)
    → with_timer memory t p ≡ opened_as q
    → record p { timer = some true } ≡ q
first_open memory (some b) p q e = entry_of (record p { timer = some true }) q e
first_open true none p q e = entry_of (record p { timer = some true }) q e
first_open false none p q e = absurd (false≢true (ap (λ (o : Opened). is_success o.ret) e))

-- An open that returns 0 leaves the port open once more.
pub open-Running :
    (n : ℕ) (memory : Bool) (p q : Port)
    → n + 1 < 2 ^ 31
    → Running n p
    → tiny_open none memory (some p) ≡ opened_as q
    → Running (suc n) q
unfolding tiny_open
open-Running zero memory p q small (count, timer) e =
    let one : inc p.open_count ≡ 1 = omega (arith, count) in
    let first : (inc p.open_count == 1) ≡ true = eq→== (inc p.open_count) 1 one in
    let p' = record p { open_count = inc p.open_count } in
    subst (Running 1) (first_open memory p.timer p' q (rw first at e)) (one, refl)
open-Running (suc n) memory p q small (count, timer) e =
    let more : inc p.open_count ≡ suc (suc n) = omega (arith, count, small) in
    let later : (inc p.open_count == 1) ≡ false =
      ne→== (inc p.open_count) 1 (λ e. omega (arith, more, e)) in
    let p' = record p { open_count = inc p.open_count } in
    subst (Running (suc (suc n))) (entry_of p' q (rw later at e)) (more, timer)

pub close-Running :
    (n : ℕ) (p : Port)
    → suc n < 2 ^ 31
    → Running (suc n) p
    → (q : Port) × (tiny_close (some p) ≡ some (some q)) × Running n q
unfolding tiny_close do_close
close-Running zero p small (count, timer) =
    let in_use : (p.open_count == 0) ≡ false =
      ne→== p.open_count 0 (λ e. omega (arith, count, e)) in
    let none_left : dec p.open_count ≡ 0 = omega (arith, count) in
    let last : not_positive (dec p.open_count) ≡ true = rw none_left refl in
    let stopped = record p { open_count = dec p.open_count; timer = some false } in
    (stopped, rw (in_use, last, timer) refl, (none_left, λ e. cc e))
close-Running (suc n) p small (count, timer) =
    let in_use : (p.open_count == 0) ≡ false =
      ne→== p.open_count 0 (λ e. omega (arith, count, e)) in
    let left : dec p.open_count ≡ suc n = omega (arith, count, small) in
    let more : not_positive (dec p.open_count) ≡ false =
      rw (left, ne→== (suc n) 0 (λ e. omega (arith, e)), lt→leb (2 ^ 31) (suc n) (omega arith))
        refl in
    (record p { open_count = dec p.open_count }, rw (in_use, more) refl, (left, timer))

close_without_timer : (p : Port) → p.open_count ≡ 1 → p.timer ≡ none → tiny_close (some p) ≡ none
unfolding tiny_close do_close
close_without_timer p count timer =
    let in_use : (p.open_count == 0) ≡ false =
      ne→== p.open_count 0 (λ e. omega (arith, count, e)) in
    let none_left : dec p.open_count ≡ 0 = omega (arith, count) in
    let last : not_positive (dec p.open_count) ≡ true = rw none_left refl in
    rw (in_use, last, timer) refl

-- Opens that succeed, with memory for a timer or without, closes of open files, and the timer while it
-- is armed, from a port on; with the number of files that are open.
pub data Session (start : Port) : ℕ → Port → Type 0 where
  begins : Session start 0 start
  opens :
      {n : ℕ} {p q : Port} (memory : Bool)
      → Session start n p
      → n + 1 < 2 ^ 31
      → tiny_open none memory (some p) ≡ opened_as q
      → Session start (suc n) q
  closes :
      {n : ℕ} {p q : Port}
      → Session start (suc n) p
      → suc n < 2 ^ 31
      → tiny_close (some p) ≡ some (some q)
      → Session start n q
  fires :
      {n : ℕ} {p : Port}
      → Session start n p
      → p.timer ≡ some true
      → Session start n (tiny_timer p).0

fires-Running : (n : ℕ) (p : Port) → Running n p → p.timer ≡ some true → Running n (tiny_timer p).0
unfolding tiny_timer
fires-Running zero p (count, idle) armed = absurd (idle armed)
fires-Running (suc n) p (count, timer) armed = (count, refl)

Session-Running :
    (start : Port) (n : ℕ) (p : Port) → Running 0 start → Session start n p → Running n p
Session-Running start n p r begins = r
Session-Running start n p r (opens {n = k} {p = q} memory s small e) =
    open-Running k memory q p small (Session-Running start k q r s) e
Session-Running start n p r (closes {p = q} s small e) =
    let (q', run, running) = close-Running n q small (Session-Running start (suc n) q r s) in
    subst (Running n) (some-injective _ _ (some-injective _ _ (sym run ∙ e))) running
Session-Running start n p r (fires {p = q} s armed) =
    fires-Running n q (Session-Running start n q r s) armed

-- From a port that is closed, after opens that succeed, closes of open files and timers, with fewer
-- than 2 ^ 31 files open: a port with an open file counts its files and has its timer armed, and the
-- close of a file never follows a NULL timer, and stops the timer just when it was the last one.
pub session_then_close :
    (start : Port) (n : ℕ) (p : Port)
    → Running 0 start
    → suc n < 2 ^ 31
    → Session start (suc n) p
    → Running (suc n) p × (q : Port) × (tiny_close (some p) ≡ some (some q)) × Running n q
session_then_close start n p r small s =
    let running = Session-Running start (suc n) p r s in
    let (q, run, after) = close-Running n p small running in (running, q, run, after)

-- The port that the close of a file finds in `driver_data`.
abbrev pub found_by_close : Opened → Option Port
found_by_close o = if o.driver_data then o.entry else none

-- A port that was closed and has no timer yet, or a new one: an open that gets no memory for the timer
-- fails, and leaves the port in `driver_data`, so that the close of the file that the tty layer makes
-- then finds it there and follows its NULL timer.
pub failed_open_then_close :
    (fresh p : Port)
    → p.open_count ≡ 0
    → p.timer ≡ none
    → let o = tiny_open none false (some p) in
      let o' = tiny_open (some fresh) false none in
      (o.ret ≡ fails enomem)
      × (tiny_close (found_by_close o) ≡ none)
      × (o'.ret ≡ fails enomem)
      × (tiny_close (found_by_close o') ≡ none)
unfolding tiny_open tiny_close do_close
failed_open_then_close fresh p count timer =
    let first : (inc p.open_count == 1) ≡ true =
      eq→== (inc p.open_count) 1 (omega (arith, count)) in
    let p' = record p { open_count = inc p.open_count; timer = none } in
    rw (first, timer) (refl, close_without_timer p' (omega (arith, count)) refl, refl, refl)
