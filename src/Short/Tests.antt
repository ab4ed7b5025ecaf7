-- ===== src/Short/Tests.antt =====
-- The interrupts of LinuxDeviceDrivers3Ed/short/short.c in small.
use leipocode.Base.{
  ℕ, ◌≡◌, refl, true, false, some, List, [], ◌∷◌, arith, replicate, length-replicate, get_elem?,
}
use leipocode.TimePage.{Timeval, printed}
use leipocode.Short.{Short, short_do_tasklet, bh_line}
use leipocode.Short.Probe.{Irq, line, minus, short_selfprobe}
use leipocode.Short.BottomHalf.{top_halves, interrupts}
use leipocode.Short.Split.{split_interrupts}
use leipocode.Short.Search.{one_line_fired, Only}

abbrev at : ℕ → Timeval
at usec = record { tv_sec = 100; tv_usec = usec }

-- An empty array, near its end.
abbrev idle : Short
idle = record {
  page = record { memory = replicate 4097 0; head = 0; tail = 0 };
  tv_data = replicate 512 (at 7);
  tv_head = 510;
  tv_tail = 510;
  wq_count = 0;
  scheduled = false;
}

split_interrupts_example :
    let headed = record idle { page = printed (bh_line 3) idle.page } in
    (q r : Short) × (short_do_tasklet (top_halves (at 1 ∷ at 2 ∷ at 3 ∷ []) idle) ≡ some q)
    × (interrupts (at 1 ∷ at 2 ∷ at 3 ∷ []) headed ≡ some r)
    × (q.page ≡ r.page)
    × (q.tv_head ≡ q.tv_tail)
    × (q.wq_count ≡ 0)
split_interrupts_example =
    split_interrupts (at 1) (at 2 ∷ at 3 ∷ []) idle (length-replicate {A = Timeval} 512 (at 7))
      (omega arith) refl refl (omega arith) (omega arith, (omega arith, (omega arith, tt)))

-- Several lines at once, then none, then one.
abbrev answers : List Irq
answers = minus 3 ∷ line 0 ∷ line 7 ∷ line 7 ∷ line 7 ∷ line 7 ∷ []

abbrev rounds : List (List ℕ)
rounds = (3 ∷ 5 ∷ []) ∷ [] ∷ (7 ∷ 7 ∷ []) ∷ []

found_in_third : (short_selfprobe (true ∷ true ∷ true ∷ true ∷ []) rounds).0 ≡ some (line 7, 2)
unfolding short_selfprobe
found_in_third = refl

one_line_fired_example :
    (n : ℕ) × (more : List ℕ) × (line 7 ≡ line n)
    × (get_elem? rounds 2 ≡ some (n ∷ more))
    × Only n more
one_line_fired_example =
    one_line_fired (true ∷ true ∷ true ∷ true ∷ []) rounds (line 7) 2
      ((omega arith, (omega arith, tt)), (tt, ((omega arith, (omega arith, tt)), tt))) refl
      found_in_third
