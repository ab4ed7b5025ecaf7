-- ===== src/ShortPrint/Turns.antt =====
-- A turn of the timer and the work of LinuxDeviceDrivers3Ed/shortprint/shortprint.c.
use leipocode.Base.{
  ℕ, suc, ◌+◌, ◌-◌, ◌≡◌, ◌⊎◌, refl, sym, subst, inl, inr, Bool, true, false, ◌&&◌, ◌||◌, not, List,
  [], ◌∷◌, arith, leb, ◌==◌, if◌then◌else◌, Bool-cases, ==→eq,
}
use leipocode.Kernel.{page_size}
use leipocode.TimePage.{Timeval}
use leipocode.ShortPrint.{
  ShortPrint, shortp_incr_out_bp, shortp_do_write, next_byte, shortp_do_work, shortp_interrupt,
  shortp_timeout, begin_work, happens, happen, Event, begins, works, times_out, shortp_wait,
  is_ready, has_ack,
}
use leipocode.ShortPrint.Stream.{IsValid}

-- The timer fires, the work queue calls the work function, and the printer becomes ready.
pub record Turn : Type 0 where
  pub status : ℕ
  pub now : Timeval
  pub statuses : List ℕ
  pub cr : ℕ

abbrev pub events_of : Turn → List Event
events_of t = times_out t.status t.now ∷ begins ∷ works t.statuses t.cr ∷ []

-- When the timer fires the printer is ready, with no acknowledge, and it is ready again at some time.
abbrev pub Ready : Turn → Type 0
Ready t = (is_ready t.status ≡ true) × (has_ack t.status ≡ false) × (shortp_wait t.statuses ≡ true)

abbrev pub AllReady : List Turn → Type 0
AllReady [] = Unit {0}
AllReady (t ∷ ts) = Ready t × AllReady ts

abbrev pub turns : List Turn → ShortPrint → ShortPrint
turns [] s = s
turns (t ∷ ts) s = turns ts (happen (events_of t) s)

-- The indices of `s`, with active output; the work function runs if `runs`.
pub record Kicked (s t : ShortPrint) : Type 0 where
  pub same_head : t.out_head ≡ s.out_head
  pub same_tail : t.out_tail ≡ s.out_tail
  pub active : t.output_active ≡ true

pub timer_lem :
    (status : ℕ) (now : Timeval) (s : ShortPrint)
    → IsValid s
    → s.output_active ≡ true
    → is_ready status ≡ true
    → has_ack status ≡ false
    → Kicked s (happens (times_out status now) s)
      × (((happens (times_out status now) s).queued || (happens (times_out status now) s).running)
          ≡ true)
unfolding happens shortp_timeout shortp_interrupt
timer_lem status now s v a ready no_ack = elim (Bool-cases s.timer) [
  | inl t ↦
      let fires : happens (times_out status now) s
          ≡ record s { tv = now; queued = true; timer = false } =
        rw (t, a, ready, no_ack) refl in
      subst kicked (sym fires) (record { same_head = refl; same_tail = refl; active = a }, refl)
  | inr t ↦
      let rests : happens (times_out status now) s ≡ s = rw t refl in
      subst kicked (sym rests) (
        record { same_head = refl; same_tail = refl; active = a },
        no_last s.queued s.running
            (subst (λ b. (s.queued || s.running || b) ≡ true) t (v.kept_going a)),
      )
]
  where
    kicked : ShortPrint → Type 0
    kicked t = Kicked s t × ((t.queued || t.running) ≡ true)

    no_last : (q r : Bool) → (q || r || false) ≡ true → (q || r) ≡ true
    no_last true r h = refl
    no_last false true h = refl
    no_last false false h = h

pub begin_lem :
    (s : ShortPrint)
    → s.output_active ≡ true
    → (s.queued || s.running) ≡ true
    → Kicked s (begin_work s) × ((begin_work s).running ≡ true)
unfolding begin_work
begin_lem s a h = elim (Bool-cases (s.queued && not s.running)) [
  | inl e ↦
      let calls : begin_work s ≡ record s { queued = false; running = true } = rw e refl in
      subst kicked (sym calls) (record { same_head = refl; same_tail = refl; active = a }, refl)
  | inr e ↦
      let runs : begin_work s ≡ s = rw e refl in
      subst kicked (sym runs)
        (record { same_head = refl; same_tail = refl; active = a }, running s.queued s.running h e)
]
  where
    kicked : ShortPrint → Type 0
    kicked t = Kicked s t × (t.running ≡ true)

    running : (q r : Bool) → (q || r) ≡ true → (q && not r) ≡ false → r ≡ true
    running true true h e = refl
    running true false h e = sym e
    running false r h e = h

-- How many bytes are held.
abbrev pub held_count : (head tail : ℕ) → ℕ
held_count head tail = if leb tail head then head - tail else page_size - tail + head

-- A turn ends the output, or prints a byte.
pub record Worked (s t : ShortPrint) : Type 0 where
  pub fewer :
      ((s.out_head ≡ s.out_tail) × (t.output_active ≡ false))
      ⊎ ((t.output_active ≡ true)
          × (suc (held_count t.out_head t.out_tail) ≡ held_count s.out_head s.out_tail))

pub work_lem :
    (statuses : List ℕ) (cr : ℕ) (s : ShortPrint)
    → IsValid s
    → s.output_active ≡ true
    → s.running ≡ true
    → shortp_wait statuses ≡ true
    → Worked s (shortp_do_work statuses cr s)
unfolding shortp_do_work next_byte shortp_do_write shortp_incr_out_bp
work_lem statuses cr s v a runs ready = elim (Bool-cases (s.out_head == s.out_tail)) [
  | inl e ↦ rw (ready, runs, e) (record { fewer = inl (==→eq s.out_head s.out_tail e, refl) })
  | inr e ↦
      rw (ready, runs, e) (record { fewer = inr (a, ground (arith, e, v.head_in, v.tail_in)) })
]
