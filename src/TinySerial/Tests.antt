-- ===== src/TinySerial/Tests.antt =====
-- A port of LinuxDeviceDrivers3Ed/tty/tiny_serial.c in small.
use leipocode.Base.{
  ℕ, ◌-◌, ◌/◌, ◌≡◌, refl, max, true, false, some, [], ◌++◌, arith, replicate, length,
  length-replicate,
}
use leipocode.TinySerial.{Port, tiny_timer}
use leipocode.TinySerial.Sending.{IsValid, waiting, timer_sends}

-- Three characters wait, round the end of the buffer.
abbrev port : Port
port = record {
  x_char = 0;
  icount_tx = 0;
  fifosize = 4;
  stopped = false;
  attached = true;
  buf = replicate 4096 65;
  head = 1;
  tail = 4094;
  wrote = [];
  flips = [];
  timer = some false;
}

port-IsValid : IsValid port
port-IsValid = record {
  sized = length-replicate {A = ℕ} 4096 65;
  head_in = omega arith;
  tail_in = omega arith;
}

timer_sends_example :
    let q = tiny_timer port in
    (q.wrote ++ waiting q ≡ port.wrote ++ waiting port)
    × (length (waiting q) ≡ length (waiting port) - max 1 (port.fifosize / 2))
    × (q.timer ≡ some true)
    × IsValid q
timer_sends_example = timer_sends port port-IsValid refl refl refl
