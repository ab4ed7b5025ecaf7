-- ===== src/TinyTty/Tests.antt =====
-- A port of LinuxDeviceDrivers3Ed/tty/tiny_tty.c that is used.
use leipocode.Base.{◌≡◌, refl, true, false, none, some, arith}
use leipocode.Kernel.{enomem, fails}
use leipocode.TinyTty.{Port, Tiocm, tiny_open, tiny_close}
use leipocode.TinyTty.Ports.{
  Running, Session, begins, opens, session_then_close, found_by_close, failed_open_then_close,
}

abbrev port : Port
port = record {
  open_count = 0;
  timer = none;
  msr = record { cts = true; cd = false; ri = false; dsr = false };
  mcr = record { dtr = false; rts = false; loop = false };
}

abbrev in_use : Port
in_use = record port { open_count = 2; timer = some true }

two_opens : Session port 2 in_use
unfolding tiny_open
two_opens = opens false (opens true begins (omega arith) refl) (omega arith) refl

session_then_close_example :
    Running 2 in_use × (q : Port) × (tiny_close (some in_use) ≡ some (some q)) × Running 1 q
session_then_close_example =
    session_then_close port 1 in_use (refl, λ e. cc e) (omega arith) two_opens

failed_open_then_close_example :
    ((tiny_open none false (some port)).ret ≡ fails enomem)
    × (tiny_close (found_by_close (tiny_open none false (some port))) ≡ none)
    × ((tiny_open (some in_use) false none).ret ≡ fails enomem)
    × (tiny_close (found_by_close (tiny_open (some in_use) false none)) ≡ none)
failed_open_then_close_example = failed_open_then_close in_use port refl refl

abbrev no_lines : Tiocm
no_lines = record {
  dtr = false;
  rts = false;
  loop = false;
  cts = false;
  car = false;
  ri = false;
  dsr = false;
}
