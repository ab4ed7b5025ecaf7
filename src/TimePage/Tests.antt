-- ===== src/TimePage/Tests.antt =====
-- A page of time stamps of LinuxDeviceDrivers3Ed/short/short.c in small.
use leipocode.Base.{
  ℕ, ◌*◌, ◌<◌, ◌≡◌, refl, ap, List, [], ◌∷◌, ◌++◌, arith, replicate, length, length-replicate,
  held-empty,
}
use leipocode.Kernel.{page_size}
use leipocode.TimePage.{Page, Timeval, stamp}
use leipocode.TimePage.Order.{IsValid, contents, Event, prints, reads, run, page_is_fifo}
use leipocode.TimePage.Records.{length-stamp}

abbrev at : ℕ → Page
at i = record { memory = replicate 4097 7; head = i; tail = i }

at-IsValid : (k : ℕ) → k < 256 → IsValid (at (16 * k))
at-IsValid k h = record {
  sized = length-replicate {A = ℕ} 4097 7;
  aligned = omega arith;
  head_in = omega arith;
  tail_in = omega arith;
}

abbrev now : Timeval
now = record { tv_sec = 1234567890; tv_usec = 98765 }

-- A record, and two reads that take it out.
abbrev events : List Event
events = prints (stamp now) ∷ reads 10 ∷ reads 16 ∷ []

page_is_fifo_example :
    let t = run events (record { sent = []; received = []; page = at (16 * 3) }) in
    (t.received ++ contents t.page ≡ contents (at (16 * 3)) ++ t.sent) × IsValid t.page
page_is_fifo_example = page_is_fifo events (at (16 * 3)) (at-IsValid 3 (omega arith)) (
  length-stamp now (omega arith),
  omega (
    arith,
    ap (length {A = ℕ}) (held-empty {A = ℕ} page_size (replicate 4097 7) (16 * 3) (16 * 3) refl),
  ),
  tt,
)
