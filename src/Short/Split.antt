-- ===== src/Short/Split.antt =====
-- What the bottom half of LinuxDeviceDrivers3Ed/short/short.c prints, beside what the interrupt
-- handler prints that is not split.
use leipocode.Base.{◌<◌, ◌≡◌, refl, ap, subst, ◌∙◌, false, some, List, [], ◌∷◌, arith, length}
use leipocode.TimePage.{Timeval, printed}
use leipocode.Short.{Short, nr_timeval, short_do_tasklet, bh_line}
use leipocode.Short.BottomHalf.{
  records, all_printed, top_halves, stamps, interrupts, InMicros, interrupts_lem, Waiting,
  top_halves-Waiting, short_do_tasklet-Waiting, tv_loop-records,
}

-- From an empty array, with no interrupt counted: after at least one and at most 512 top halves, at
-- times with less than 10 ^ 6 microseconds, the bottom half empties the array, resets the counter, and
-- leaves the page that the interrupt handler that is not split leaves for these times, behind a header
-- with their number.
pub split_interrupts :
    (t : Timeval) (ts : List Timeval) (s : Short)
    → length s.tv_data ≡ nr_timeval
    → s.tv_tail < nr_timeval
    → s.tv_head ≡ s.tv_tail
    → s.wq_count ≡ 0
    → length ts < nr_timeval
    → InMicros (t ∷ ts)
    → let headed = record s { page = printed (bh_line (length (t ∷ ts))) s.page } in
      (q r : Short) × (short_do_tasklet (top_halves (t ∷ ts) s) ≡ some q)
      × (interrupts (t ∷ ts) headed ≡ some r)
      × (q.page ≡ r.page)
      × (q.tv_head ≡ q.tv_tail)
      × (q.wq_count ≡ 0)
split_interrupts t ts s sized tail_in empty none_yet few micros =
    let all_ts = t ∷ ts in
    let (waiting, after) =
      top_halves-Waiting 0 [] all_ts s (omega (arith, few)) (omega (arith, few, none_yet)) (record {
        sized = sized;
        tail_in = tail_in;
        head_at = omega (arith, empty, tail_in);
        kept = refl;
      }) in
    let counted : (top_halves all_ts s).wq_count ≡ length all_ts =
      omega (arith, after.counted, none_yet) in
    (
      _,
      _,
      short_do_tasklet-Waiting (length ts) (stamps all_ts) (top_halves all_ts s) few
          (subst (λ n. Waiting n (stamps all_ts) (top_halves all_ts s)) (omega arith) waiting),
      interrupts_lem all_ts (record s { page = printed (bh_line (length all_ts)) s.page }) micros,
      ap (λ n. all_printed (bh_line n ∷ stamps all_ts) (top_halves all_ts s).page) counted
          ∙ ap (all_printed (bh_line (length all_ts) ∷ stamps all_ts)) after.same_page,
      refl,
      refl,
    )

-- With an empty array: the bottom half still prints a record for each of the 512 places of the array.
pub stale_records :
    (s : Short)
    → s.tv_tail < nr_timeval
    → s.tv_head ≡ s.tv_tail
    → short_do_tasklet s
      ≡ some (record s {
        wq_count = 0;
        scheduled = false;
        page = all_printed (bh_line s.wq_count ∷ records nr_timeval s.tv_tail s.tv_data) s.page;
      })
unfolding short_do_tasklet
stale_records s tail_in empty =
    tv_loop-records nr_timeval 511
      (record s { wq_count = 0; scheduled = false; page = printed (bh_line s.wq_count) s.page })
      (omega arith) (omega arith) tail_in (omega (arith, empty, tail_in))
    ∙ ap
        (λ i. some (record s {
          wq_count = 0;
          scheduled = false;
          page = all_printed (bh_line s.wq_count ∷ records nr_timeval s.tv_tail s.tv_data) s.page;
          tv_tail = i;
        }))
        empty
