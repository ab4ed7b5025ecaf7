-- ===== src/ShortPrint/Window.antt =====
-- What goes on beside a writer of LinuxDeviceDrivers3Ed/shortprint/shortprint.c, also where the writer
-- has moved the head and has not yet started the output: the buffer and its head stay, and no byte is
-- lost.
use mathlib.Core.Bool.{false≢true}
use leipocode.Base.{
  ℕ, ◌≤◌, ◌<◌, ◌≡◌, ◌≢◌, refl, sym, ap, subst, ◌∙◌, inl, inr, Bool, true, false, ◌&&◌, ◌||◌, not,
  List, [], ◌∷◌, arith, ◌==◌, length, length-append, Bool-cases, get_elem?, byte_of,
}
use leipocode.Kernel.{page_size}
use leipocode.TimePage.{Page, Timeval}
use leipocode.ShortPrint.{
  has_ack, is_ready, ShortPrint, shortp_do_write, next_byte, shortp_do_work, shortp_interrupt,
  shortp_timeout, begin_work, happens, happen, Event, begins, works, interrupts, times_out,
  shortp_wait, shortp_incr_out_bp,
}
use leipocode.ShortPrint.Stream.{pending, stream, strobed, strobed_byte, shortp_do_write-stream}

-- The buffer is there, the indices are in it, and output that is active is kept going.
pub record Held (s : ShortPrint) : Type 0 where
  pub sized : length s.out_buffer ≡ page_size
  pub head_in : s.out_head < page_size
  pub tail_in : s.out_tail < page_size
  pub kept_going : s.output_active ≡ true → (s.queued || s.running || s.timer) ≡ true

-- From `s` to `t` the buffer and the head stay, and bytes only go from the buffer to the printer.
pub record Beside (s t : ShortPrint) : Type 0 where
  pub same_buffer : t.out_buffer ≡ s.out_buffer
  pub same_head : t.out_head ≡ s.out_head
  pub tail_in : t.out_tail < page_size
  pub fewer : length (pending t) ≤ length (pending s)
  pub streamed : stream t ≡ stream s
  pub kept_going : t.output_active ≡ true → (t.queued || t.running || t.timer) ≡ true

pub Beside-Held : {s t : ShortPrint} → Held s → Beside s t → Held t
Beside-Held h b = record {
  sized = ap length b.same_buffer ∙ h.sized;
  head_in = omega (arith, b.same_head, h.head_in);
  tail_in = b.tail_in;
  kept_going = b.kept_going;
}

stays-Beside : (s : ShortPrint) → Held s → Beside s s
stays-Beside s h = record {
  same_buffer = refl;
  same_head = refl;
  tail_in = h.tail_in;
  fewer = omega arith;
  streamed = refl;
  kept_going = h.kept_going;
}

-- The flags, the page and the time do not matter, where active output is kept going.
flags-Beside :
    (s : ShortPrint) (active timer queued running : Bool) (p : Page) (t : Timeval)
    → Held s
    → (active ≡ true → (queued || running || timer) ≡ true)
    → Beside s (record s {
      output_active = active;
      timer = timer;
      queued = queued;
      running = running;
      page = p;
      tv = t;
    })
flags-Beside s active timer queued running p t h going = record {
  same_buffer = refl;
  same_head = refl;
  tail_in = h.tail_in;
  fewer = omega arith;
  streamed = refl;
  kept_going = going;
}

or_last : (queued : Bool) → (queued || false || true) ≡ true
or_last true = refl
or_last false = refl

shortp_do_write-fewer :
    (cr : ℕ) (s : ShortPrint)
    → stream (shortp_do_write cr s) ≡ stream s
    → length (pending (shortp_do_write cr s)) ≤ length (pending s)
unfolding shortp_do_write
shortp_do_write-fewer cr s e =
    let t = shortp_do_write cr s in
    let b = byte_of (get_elem? s.out_buffer s.out_tail) in
    omega (
      arith,
      ap length e,
      length-append (strobed 0 t.outs) (pending t),
      length-append (strobed 0 s.outs) (pending s),
      ap length (strobed_byte 0 s.outs b cr),
      length-append (strobed 0 s.outs) (b ∷ []),
    )

-- The work function runs to its end.
next_byte-Beside :
    (cr : ℕ) (s : ShortPrint) (p : Page)
    → Held s
    → Beside s (record (next_byte cr s) { running = false; page = p })
unfolding next_byte shortp_do_write shortp_incr_out_bp
next_byte-Beside cr s p h = elim (Bool-cases (s.out_head == s.out_tail)) [
  | inl e ↦ rw e (flags-Beside s false false s.queued false p s.tv h (λ a. absurd (false≢true a)))
  | inr e ↦
      let differ : s.out_head ≢ s.out_tail = λ d. ground (arith, e, d) in
      let same = shortp_do_write-stream cr s h.sized h.head_in h.tail_in differ in
      rw e (record {
        same_buffer = refl;
        same_head = refl;
        tail_in = ground (arith, h.tail_in);
        fewer = shortp_do_write-fewer cr s same;
        streamed = same;
        kept_going = λ a. or_last s.queued;
      })
]

shortp_do_work-Beside :
    (statuses : List ℕ) (cr : ℕ) (s : ShortPrint) → Held s → Beside s (shortp_do_work statuses cr s)
unfolding shortp_do_work
shortp_do_work-Beside statuses cr s h = elim (Bool-cases (shortp_wait statuses && s.running)) [
  | inl e ↦ rw e (next_byte-Beside cr s _ h)
  | inr e ↦ rw e (stays-Beside s h)
]

begin_work-Beside : (s : ShortPrint) → Held s → Beside s (begin_work s)
unfolding begin_work
begin_work-Beside s h = elim (Bool-cases (s.queued && not s.running)) [
  | inl e ↦ rw e (flags-Beside s s.output_active s.timer false true s.page s.tv h (λ a. refl))
  | inr e ↦ rw e (stays-Beside s h)
]

shortp_interrupt-Beside :
    (now : Timeval) (s : ShortPrint) → Held s → Beside s (shortp_interrupt now s).1
unfolding shortp_interrupt
shortp_interrupt-Beside now s h = elim (Bool-cases s.output_active) [
  | inl a ↦
      let handles : shortp_interrupt now s ≡ (true, record s { tv = now; queued = true }) =
        rw a refl in
      subst (λ r. Beside s r.1) (sym handles)
        (flags-Beside s s.output_active s.timer true s.running s.page now h (λ a. refl))
  | inr a ↦
      let ignores : shortp_interrupt now s ≡ (false, s) = rw a refl in
      subst (λ r. Beside s r.1) (sym ignores) (stays-Beside s h)
]

shortp_timeout-Beside :
    (status : ℕ) (now : Timeval) (s : ShortPrint) → Held s → Beside s (shortp_timeout status now s)
unfolding shortp_timeout shortp_interrupt
shortp_timeout-Beside status now s h = elim (Bool-cases s.output_active) [
  | inr a ↦
      let over : shortp_timeout status now s ≡ record s { timer = false } = rw a refl in
      subst (Beside s) (sym over) (
        flags-Beside s s.output_active false s.queued s.running s.page s.tv h
          (λ i. absurd (false≢true (sym a ∙ i))))
  | inl a ↦ elim (Bool-cases (not (is_ready status) || has_ack status)) [
    | inl e ↦
        let waits : shortp_timeout status now s ≡ record s { timer = true } = rw (a, e) refl in
        subst (Beside s) (sym waits) (
          flags-Beside s s.output_active true s.queued s.running s.page s.tv h
            (λ i. or_timer s.queued s.running))
    | inr e ↦
        let queues : shortp_timeout status now s
            ≡ record s { tv = now; queued = true; timer = false } =
          rw (a, e) refl in
        subst (Beside s) (sym queues)
          (flags-Beside s s.output_active false true s.running s.page now h (λ i. refl))
  ]
]
  where
    or_timer : (q r : Bool) → (q || r || true) ≡ true
    or_timer true r = refl
    or_timer false true = refl
    or_timer false false = refl

happens-Beside : (e : Event) (s : ShortPrint) → Held s → Beside s (happens e s)
unfolding happens
happens-Beside begins s h = begin_work-Beside s h
happens-Beside (works statuses cr) s h = shortp_do_work-Beside statuses cr s h
happens-Beside (interrupts now) s h = shortp_interrupt-Beside now s h
happens-Beside (times_out status now) s h = elim (Bool-cases s.timer) [
  | inl t ↦
      let fires : happens (times_out status now) s ≡ shortp_timeout status now s = rw t refl in
      subst (Beside s) (sym fires) (shortp_timeout-Beside status now s h)
  | inr t ↦
      let rests : happens (times_out status now) s ≡ s = rw t refl in
      subst (Beside s) (sym rests) (stays-Beside s h)
]

pub happen-Beside : (es : List Event) (s : ShortPrint) → Held s → Beside s (happen es s)
unfolding happen
happen-Beside [] s h = stays-Beside s h
happen-Beside (e ∷ es) s h =
    let first = happens-Beside e s h in
    let later = happen-Beside es (happens e s) (Beside-Held h first) in
    record {
      same_buffer = later.same_buffer ∙ first.same_buffer;
      same_head = later.same_head ∙ first.same_head;
      tail_in = later.tail_in;
      fewer = omega (arith, later.fewer, first.fewer);
      streamed = later.streamed ∙ first.streamed;
      kept_going = later.kept_going;
    }
