-- ===== src/Short/BottomHalf.antt =====
-- The interrupt handlers of LinuxDeviceDrivers3Ed/short/short.c that are split into a top and a bottom
-- half, beside the one that is not.
use leipocode.Base.{
  append_assoc, append-nil, ℕ, zero, suc, ◌+◌, ◌%◌, ◌^◌, ◌≤◌, ◌<◌, ◌≡◌, refl, sym, ap, ap₂, subst,
  ◌∙◌, false, Option, none, some, List, [], ◌∷◌, ◌++◌, arith, ◌==◌, eq→==, ne→==, length, set,
  length-set, get_elem?-set_same, get_elem?-set_other,
}
use leipocode.TimePage.{Page, Timeval, stamp, printed}
use leipocode.TimePage.Records.{stamped_lem}
use leipocode.Short.{
  Short, nr_timeval, or_zero, time_at, short_incr_tv, short_interrupt, short_tl_interrupt,
  short_wq_interrupt, tv_loop, short_do_tasklet, bh_line, with_page,
}

-- The records of the `k` times from index `i` on, going round at the end of the array.
abbrev pub records : (k i : ℕ) → List Timeval → List (List ℕ)
records zero i times = []
records (suc k) i times = stamp (time_at times i) ∷ records k (short_incr_tv i) times

-- Records that are printed one after the other.
abbrev pub all_printed : List (List ℕ) → Page → Page
all_printed [] p = p
all_printed (r ∷ rs) p = all_printed rs (printed r p)

pub incr_lem : (i : ℕ) → i < nr_timeval → short_incr_tv i ≡ (i + 1) % nr_timeval
unfolding short_incr_tv
incr_lem i h = ground arith

incr-lt : (i : ℕ) → i < nr_timeval → short_incr_tv i < nr_timeval
unfolding short_incr_tv
incr-lt i h = ground arith

-- The bottom half's loop over `k + 1` times.
pub tv_loop-records :
    (rounds k : ℕ) (s : Short)
    → k < rounds
    → k < nr_timeval
    → s.tv_tail < nr_timeval
    → s.tv_head ≡ (s.tv_tail + suc k) % nr_timeval
    → tv_loop rounds s
      ≡ some (record s {
        page = all_printed (records (suc k) s.tv_tail s.tv_data) s.page;
        tv_tail = s.tv_head;
      })
unfolding tv_loop
tv_loop-records zero k s more small t head = absurd (omega arith)
tv_loop-records (suc rounds) zero s more small t head =
    let step = incr_lem s.tv_tail t in
    let last : short_incr_tv s.tv_tail ≡ s.tv_head = omega (arith, step, head) in
    rw (eq→== (short_incr_tv s.tv_tail) s.tv_head last) (
      ap
        (λ i.
          some
            (record s { page = printed (stamp (time_at s.tv_data s.tv_tail)) s.page; tv_tail = i }))
        last)
tv_loop-records (suc rounds) (suc k) s more small t head =
    let i = short_incr_tv s.tv_tail in
    let step = incr_lem s.tv_tail t in
    let not_last : (i == s.tv_head) ≡ false =
      ne→== i s.tv_head (λ e. omega (arith, e, step, head)) in
    rw not_last (
      tv_loop-records rounds k
        (record s { page = printed (stamp (time_at s.tv_data s.tv_tail)) s.page; tv_tail = i })
        (omega arith) (omega arith) (incr-lt s.tv_tail t) (omega (arith, step, head)))

-- A time that is stored behind `k` others becomes the last record.
records-set :
    (k i j : ℕ) (times : List Timeval) (t : Timeval)
    → length times ≡ nr_timeval
    → i < nr_timeval
    → k < nr_timeval
    → j ≡ (i + k) % nr_timeval
    → records (suc k) i (set times j t) ≡ records k i times ++ stamp t ∷ []
records-set zero i j times t l h small e =
    let same : j ≡ i = omega (arith, e) in
    rw same (ap (λ o. stamp (or_zero o) ∷ []) (get_elem?-set_same times i t (omega (arith, l))))
records-set (suc k) i j times t l h small e =
    let step = incr_lem i h in
    ap₂ ◌∷◌
      (ap (λ o. stamp (or_zero o)) (get_elem?-set_other times j i t (λ d. omega (arith, d, e))))
      (records-set k (short_incr_tv i) j times t l (incr-lt i h) (omega arith)
        (omega (arith, e, step)))

-- The top half for each time.
abbrev pub top_halves : List Timeval → Short → Short
top_halves [] s = s
top_halves (t ∷ ts) s = top_halves ts (short_tl_interrupt t s)

abbrev pub stamps : List Timeval → List (List ℕ)
stamps [] = []
stamps (t ∷ ts) = stamp t ∷ stamps ts

-- The interrupts that are not split, one after the other.
abbrev and_then : Option Short → (Short → Option Short) → Option Short
and_then none f = none
and_then (some s) f = f s

abbrev pub interrupts : List Timeval → Short → Option Short
interrupts [] s = some s
interrupts (t ∷ ts) s = and_then (short_interrupt t s) (interrupts ts)

abbrev pub InMicros : List Timeval → Type 0
InMicros [] = Unit {0}
InMicros (t ∷ ts) = (t.tv_usec < 10 ^ 6) × InMicros ts

pub interrupts_lem :
    (ts : List Timeval) (s : Short)
    → InMicros ts
    → interrupts ts s ≡ some (record s { page = all_printed (stamps ts) s.page })
unfolding short_interrupt
interrupts_lem [] s small = refl
interrupts_lem (t ∷ ts) s (micros, small) =
    ap (λ o. and_then (with_page s o) (interrupts ts)) (stamped_lem t s.page micros)
    ∙ interrupts_lem ts (record s { page = printed (stamp t) s.page }) small

-- The array holds the records `rs`, `k` in number, between its tail and its head.
pub record Waiting (k : ℕ) (rs : List (List ℕ)) (s : Short) : Type 0 where
  pub sized : length s.tv_data ≡ nr_timeval
  pub tail_in : s.tv_tail < nr_timeval
  pub head_at : s.tv_head ≡ (s.tv_tail + k) % nr_timeval
  pub kept : records k s.tv_tail s.tv_data ≡ rs

-- What a top half does not change, and what it counts.
pub record After (n : ℕ) (s q : Short) : Type 0 where
  pub same_page : q.page ≡ s.page
  pub counted : q.wq_count ≡ s.wq_count + n

top_half-Waiting :
    (k : ℕ) (rs : List (List ℕ)) (t : Timeval) (s : Short)
    → k < nr_timeval
    → Waiting k rs s
    → Waiting (suc k) (rs ++ stamp t ∷ []) (short_tl_interrupt t s)
unfolding short_tl_interrupt short_wq_interrupt
top_half-Waiting k rs t s small w =
    let head_in : s.tv_head < nr_timeval = omega (arith, w.head_at) in
    record {
      sized = length-set s.tv_data s.tv_head t ∙ w.sized;
      tail_in = w.tail_in;
      head_at = omega (arith, incr_lem s.tv_head head_in, w.head_at);
      kept =
          records-set k s.tv_tail s.tv_head s.tv_data t w.sized w.tail_in small w.head_at
          ∙ ap (λ l. l ++ stamp t ∷ []) w.kept;
    }

pub top_halves-Waiting :
    (k : ℕ) (rs : List (List ℕ)) (ts : List Timeval) (s : Short)
    → k + length ts ≤ nr_timeval
    → s.wq_count + length ts < 2 ^ 32
    → Waiting k rs s
    → Waiting (k + length ts) (rs ++ stamps ts) (top_halves ts s)
      × After (length ts) s (top_halves ts s)
unfolding short_tl_interrupt short_wq_interrupt
top_halves-Waiting k rs [] s room few w = (
  subst (λ l. Waiting (k + 0) l s) (sym (append-nil rs))
      (subst (λ n. Waiting n rs s) (omega arith) w),
  record { same_page = refl; counted = omega arith },
)
top_halves-Waiting k rs (t ∷ ts) s room few w =
    let one : (s.wq_count + 1) % 2 ^ 32 ≡ s.wq_count + 1 = omega (arith, few) in
    let (waiting, after) =
      top_halves-Waiting (suc k) (rs ++ stamp t ∷ []) ts (short_tl_interrupt t s)
        (omega (arith, room)) (omega (arith, few, one))
        (top_half-Waiting k rs t s (omega (arith, room)) w) in
    (
      subst (λ n. Waiting n (rs ++ stamp t ∷ stamps ts) (top_halves (t ∷ ts) s)) (omega arith)
          (subst (λ l. Waiting (suc k + length ts) l (top_halves (t ∷ ts) s))
            (append_assoc rs (stamp t ∷ []) (stamps ts)) waiting),
      record { same_page = after.same_page; counted = omega (arith, after.counted, one) },
    )

-- The bottom half with `k + 1` records in the array.
pub short_do_tasklet-Waiting :
    (k : ℕ) (rs : List (List ℕ)) (s : Short)
    → k < nr_timeval
    → Waiting (suc k) rs s
    → short_do_tasklet s
      ≡ some (record s {
        wq_count = 0;
        scheduled = false;
        page = all_printed (bh_line s.wq_count ∷ rs) s.page;
        tv_tail = s.tv_head;
      })
unfolding short_do_tasklet
short_do_tasklet-Waiting k rs s small w =
    tv_loop-records nr_timeval k
      (record s { wq_count = 0; scheduled = false; page = printed (bh_line s.wq_count) s.page })
      small small w.tail_in w.head_at
    ∙ ap
        (λ l. some (record s {
          wq_count = 0;
          scheduled = false;
          page = all_printed (bh_line s.wq_count ∷ l) s.page;
          tv_tail = s.tv_head;
        }))
        w.kept
