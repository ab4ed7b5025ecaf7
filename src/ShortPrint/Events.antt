-- ===== src/ShortPrint/Events.antt =====
-- What goes on beside the writers of LinuxDeviceDrivers3Ed/shortprint/shortprint.c: it loses no byte.
use leipocode.Base.{
  ℕ, ◌≡◌, refl, sym, ap, subst, ◌∙◌, inl, inr, Bool, true, false, ◌&&◌, ◌||◌, not, List, [], ◌∷◌,
  Bool-cases,
}
use mathlib.Core.Bool.{false≢true}
use leipocode.TimePage.{Page, Timeval}
use leipocode.ShortPrint.{
  has_ack, ShortPrint, shortp_do_work, shortp_interrupt, shortp_timeout, begin_work, happens,
  happen, Event, begins, works, interrupts, times_out, shortp_wait, is_ready,
}
use leipocode.ShortPrint.Stream.{stream, IsValid, Leads, next_byte-Leads}

-- The page and the time do not matter.
with_page-Leads :
    (bytes : List ℕ) (s : ShortPrint) (p : Page)
    → Leads bytes s
    → Leads bytes (record s { page = p })
with_page-Leads bytes s p l = record {
  valid = record {
    sized = l.valid.sized;
    head_in = l.valid.head_in;
    tail_in = l.valid.tail_in;
    over = l.valid.over;
    no_timer = l.valid.no_timer;
    kept_going = l.valid.kept_going;
  };
  streamed = l.streamed;
}

stays-Leads : (s : ShortPrint) → IsValid s → Leads (stream s) s
stays-Leads s v = record { valid = v; streamed = refl }

shortp_do_work-Leads :
    (statuses : List ℕ) (cr : ℕ) (s : ShortPrint)
    → IsValid s
    → Leads (stream s) (shortp_do_work statuses cr s)
unfolding shortp_do_work
shortp_do_work-Leads statuses cr s v = elim (Bool-cases (shortp_wait statuses && s.running)) [
  | inl e ↦ rw e (with_page-Leads (stream s) _ _ (next_byte-Leads cr s v))
  | inr e ↦ rw e (stays-Leads s v)
]

begin_work-Leads : (s : ShortPrint) → IsValid s → Leads (stream s) (begin_work s)
unfolding begin_work
begin_work-Leads s v = elim (Bool-cases (s.queued && not s.running)) [
  | inl e ↦ rw e (record {
    valid = record {
      sized = v.sized;
      head_in = v.head_in;
      tail_in = v.tail_in;
      over = v.over;
      no_timer = v.no_timer;
      kept_going = λ a. refl;
    };
    streamed = refl;
  })
  | inr e ↦ rw e (stays-Leads s v)
]

-- The work is queued, whatever becomes of the timer.
queued-Leads :
    (s : ShortPrint) (now : Timeval) (timer : Bool)
    → IsValid s
    → s.output_active ≡ true
    → Leads (stream s) (record s { tv = now; queued = true; timer = timer })
queued-Leads s now timer v a = record {
  valid = record {
    sized = v.sized;
    head_in = v.head_in;
    tail_in = v.tail_in;
    over = v.over;
    no_timer = λ i. absurd (false≢true (sym i ∙ a));
    kept_going = λ t. refl;
  };
  streamed = refl;
}

shortp_interrupt-Leads :
    (now : Timeval) (s : ShortPrint) → IsValid s → Leads (stream s) (shortp_interrupt now s).1
unfolding shortp_interrupt
shortp_interrupt-Leads now s v = elim (Bool-cases s.output_active) [
  | inl a ↦
      let handles : shortp_interrupt now s ≡ (true, record s { tv = now; queued = true }) =
        rw a refl in
      subst (λ r. Leads (stream s) r.1) (sym handles) (queued-Leads s now s.timer v a)
  | inr a ↦
      let ignores : shortp_interrupt now s ≡ (false, s) = rw a refl in
      subst (λ r. Leads (stream s) r.1) (sym ignores) (stays-Leads s v)
]

shortp_timeout-Leads :
    (status : ℕ) (now : Timeval) (s : ShortPrint)
    → IsValid s
    → s.timer ≡ true
    → Leads (stream s) (shortp_timeout status now s)
unfolding shortp_timeout shortp_interrupt
shortp_timeout-Leads status now s v t = elim (Bool-cases s.output_active) [
  | inr a ↦ absurd (false≢true (sym (v.no_timer a) ∙ t))
  | inl a ↦ elim (Bool-cases (not (is_ready status) || has_ack status)) [
    | inl e ↦
        let waits : shortp_timeout status now s ≡ record s { timer = true } = rw (a, e) refl in
        subst (Leads (stream s)) (sym (waits ∙ ap (λ b. record s { timer = b }) (sym t)))
          (stays-Leads s v)
    | inr e ↦
        let queues : shortp_timeout status now s
            ≡ record s { tv = now; queued = true; timer = false } =
          rw (a, e) refl in
        subst (Leads (stream s)) (sym queues) (queued-Leads s now false v a)
  ]
]

pub happens-Leads : (e : Event) (s : ShortPrint) → IsValid s → Leads (stream s) (happens e s)
unfolding happens
happens-Leads begins s v = begin_work-Leads s v
happens-Leads (works statuses cr) s v = shortp_do_work-Leads statuses cr s v
happens-Leads (interrupts now) s v = shortp_interrupt-Leads now s v
happens-Leads (times_out status now) s v = elim (Bool-cases s.timer) [
  | inl t ↦
      let fires : happens (times_out status now) s ≡ shortp_timeout status now s = rw t refl in
      subst (Leads (stream s)) (sym fires) (shortp_timeout-Leads status now s v t)
  | inr t ↦
      let rests : happens (times_out status now) s ≡ s = rw t refl in
      subst (Leads (stream s)) (sym rests) (stays-Leads s v)
]

pub happen-Leads : (es : List Event) (s : ShortPrint) → IsValid s → Leads (stream s) (happen es s)
unfolding happen
happen-Leads [] s v = stays-Leads s v
happen-Leads (e ∷ es) s v =
    let first = happens-Leads e s v in
    let later = happen-Leads es (happens e s) first.valid in
    record { valid = later.valid; streamed = later.streamed ∙ first.streamed }
