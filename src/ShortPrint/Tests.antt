-- ===== src/ShortPrint/Tests.antt =====
-- The printer of LinuxDeviceDrivers3Ed/shortprint/shortprint.c in small.
use leipocode.Base.{
  ℕ, ◌<◌, ◌≡◌, refl, true, false, List, [], ◌∷◌, ◌++◌, arith, replicate, take, length,
  length-replicate, length-held,
}
use mathlib.Core.Bool.{true≢false, false≢true}
use leipocode.Kernel.{page_size, fails, efault, all, stops_after}
use leipocode.TimePage.{Timeval}
use leipocode.ShortPrint.{
  ShortPrint, ends, begins, works, interrupts, Round, shortp_write, shortp_out_space, accept,
  happen, shortp_release, shortp_incr_out_bp, shortp_start_output,
}
use leipocode.ShortPrint.Stream.{IsValid, stream, strobed, pending}
use leipocode.ShortPrint.Turns.{Turn, Ready, turns}
use leipocode.ShortPrint.Drain.{lost_interrupts}
use leipocode.ShortPrint.Faults.{fault_behind_bytes}

abbrev now : Timeval
now = record { tv_sec = 100; tv_usec = 5 }

-- Nothing to print, near the end of the buffer.
abbrev idle : ShortPrint
idle = record {
  out_buffer = replicate 4096 0;
  out_head = 4094;
  out_tail = 4094;
  output_active = false;
  timer = false;
  queued = false;
  running = false;
  page = record { memory = replicate 4097 0; head = 0; tail = 0 };
  tv = now;
  outs = [];
}

idle-IsValid : IsValid idle
idle-IsValid = record {
  sized = length-replicate {A = ℕ} 4096 0;
  head_in = omega arith;
  tail_in = omega arith;
  over = λ i. refl;
  no_timer = λ i. refl;
  kept_going = λ a. absurd (false≢true a);
}

-- A round that accepts two bytes, and one that accepts the third, while the first is printed.
abbrev rounds : List Round
rounds =
    record { events = []; signal = false; copy = all; copying = []; moving = [] }
    ∷ record {
      events = begins ∷ works (128 ∷ []) 12 ∷ interrupts now ∷ [];
      signal = false;
      copy = all;
      copying = interrupts now ∷ [];
      moving = begins ∷ [];
    }
    ∷ record { events = []; signal = false; copy = all; copying = []; moving = [] }
    ∷ []

-- Output that waits for an interrupt, with two bytes in the buffer, which go round its end.
abbrev waiting : ShortPrint
waiting = record idle { out_head = 0; output_active = true; timer = true }

waiting-IsValid : IsValid waiting
waiting-IsValid = record {
  sized = length-replicate {A = ℕ} 4096 0;
  head_in = omega arith;
  tail_in = omega arith;
  over = λ i. absurd (true≢false i);
  no_timer = λ i. absurd (true≢false i);
  kept_going = λ a. refl;
}

two_left : length (pending waiting) < 3
two_left = omega (
  arith,
  length-held {A = ℕ} page_size (replicate 4096 0) 4094 0
      (omega (arith, length-replicate {A = ℕ} 4096 0)) (omega arith) (omega arith),
)

abbrev turn : Turn
turn = record { status = 128; now = now; statuses = 0 ∷ 0 ∷ 128 ∷ []; cr = 12 }

lost_interrupts_example :
    (strobed 0 (turns (replicate 3 turn) waiting).outs ≡ stream waiting)
    × ((turns (replicate 3 turn) waiting).output_active ≡ false)
    × (shortp_release [] (turns (replicate 3 turn) waiting) ≡ true)
lost_interrupts_example =
    let ready : Ready turn = (refl, refl, refl) in
    lost_interrupts (replicate 3 turn) waiting waiting-IsValid (ready, (ready, (ready, tt)))
      two_left

abbrev three : List ℕ
three = 1 ∷ 2 ∷ 3 ∷ []

room_for_two : shortp_out_space idle ≡ 2
unfolding shortp_out_space
room_for_two = refl

room_again :
    0 < shortp_out_space (happen [] (accept [] [] (take (shortp_out_space idle) three) idle))
unfolding shortp_out_space happen accept shortp_incr_out_bp shortp_start_output
room_again = omega arith

fault_behind_bytes_example :
    let out =
      shortp_write false
        (record { events = []; signal = false; copy = all; copying = []; moving = [] }
          ∷ record { events = []; signal = false; copy = stops_after 0; copying = []; moving = [] }
          ∷ [])
        three
        idle in
    (out.ret ≡ ends (fails efault))
    × (out.moved ≡ 0)
    × (out.accepted ≡ shortp_out_space idle)
    × (stream out.state ≡ stream idle ++ take (shortp_out_space idle) three)
fault_behind_bytes_example =
    fault_behind_bytes [] [] [] [] [] false false 0 [] three idle idle-IsValid
      (omega (arith, room_for_two)) (omega (arith, room_for_two)) room_again
