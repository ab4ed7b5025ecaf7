-- ===== src/ShortPrint/Drain.antt =====
-- The output of LinuxDeviceDrivers3Ed/shortprint/shortprint.c when the interrupts of the printer are
-- lost: the timer keeps it going.
use leipocode.ShortPrint.Events.{happens-Leads, happen-Leads}
use leipocode.Base.{
  suc, ◌<◌, ◌≡◌, ◌⊎◌, refl, sym, ap, subst, ◌∙◌, inl, inr, true, false, ◌&&◌, not, List, [], ◌∷◌,
  ◌++◌, append-nil, arith, length, held-empty, length-held, Bool-cases, eq→==,
}
use leipocode.Kernel.{page_size}
use leipocode.ShortPrint.{
  ShortPrint, next_byte, shortp_do_work, shortp_interrupt, shortp_timeout, begin_work, happens,
  happen, Event, begins, works, interrupts, times_out, shortp_wait, shortp_release,
}
use leipocode.ShortPrint.Stream.{pending, stream, strobed, IsValid, Leads}
use leipocode.ShortPrint.Turns.{
  Turn, events_of, Ready, AllReady, turns, timer_lem, begin_lem, held_count, Worked, work_lem,
}

turn_lem :
    (t : Turn) (s : ShortPrint)
    → IsValid s
    → s.output_active ≡ true
    → Ready t
    → Worked s (happen (events_of t) s)
unfolding happen happens
turn_lem t s v a (ready, no_ack, printer) =
    let l = happens-Leads (times_out t.status t.now) s v in
    let (timer, busy) = timer_lem t.status t.now s v a ready no_ack in
    let fired = happens (times_out t.status t.now) s in
    let m = happens-Leads begins fired l.valid in
    let (begun, runs) = begin_lem fired timer.active busy in
    let w = work_lem t.statuses t.cr (begin_work fired) m.valid begun.active runs printer in
    let head = begun.same_head ∙ timer.same_head in
    let tail = begun.same_tail ∙ timer.same_tail in
    record {
      fewer =
          subst
            (λ h.
              ((h ≡ s.out_tail) × ((happen (events_of t) s).output_active ≡ false))
              ⊎ (((happen (events_of t) s).output_active ≡ true)
                  × (suc (
                        held_count (happen (events_of t) s).out_head
                          (happen (events_of t) s).out_tail)
                      ≡ held_count h s.out_tail)))
            head
            (subst
              (λ i.
                (((begin_work fired).out_head ≡ i)
                  × ((happen (events_of t) s).output_active ≡ false))
                ⊎ (((happen (events_of t) s).output_active ≡ true)
                    × (suc (
                          held_count (happen (events_of t) s).out_head
                            (happen (events_of t) s).out_tail)
                        ≡ held_count (begin_work fired).out_head i)))
              tail w.fewer);
    }

-- Output that is over stays so.
over_lem :
    (e : Event) (s : ShortPrint)
    → IsValid s
    → s.output_active ≡ false
    → (happens e s).output_active ≡ false
unfolding happens begin_work shortp_do_work next_byte shortp_interrupt shortp_timeout
over_lem begins s v o = elim (Bool-cases (s.queued && not s.running)) [
  | inl e ↦ rw e o
  | inr e ↦ rw e o
]
over_lem (works statuses cr) s v o = elim (Bool-cases (shortp_wait statuses && s.running)) [
  | inl e ↦ rw (e, eq→== s.out_head s.out_tail (v.over o)) refl
  | inr e ↦ rw e o
]
over_lem (interrupts now) s v o =
    let ignores : shortp_interrupt now s ≡ (false, s) = rw o refl in
    ap (λ r. r.1.output_active) ignores ∙ o
over_lem (times_out status now) s v o =
    let rests : happens (times_out status now) s ≡ s = rw (v.no_timer o) refl in
    ap (λ t. t.output_active) rests ∙ o

turns_over :
    (ts : List Turn) (s : ShortPrint)
    → IsValid s
    → s.output_active ≡ false
    → (turns ts s).output_active ≡ false
unfolding happen
turns_over [] s v o = o
turns_over (t ∷ ts) s v o =
    let s₁ = happens (times_out t.status t.now) s in
    let s₂ = happens begins s₁ in
    let v₁ = (happens-Leads (times_out t.status t.now) s v).valid in
    let v₂ = (happens-Leads begins s₁ v₁).valid in
    turns_over ts (happen (events_of t) s) (happen-Leads (events_of t) s v).valid (
      over_lem (works t.statuses t.cr) s₂ v₂
        (over_lem begins s₁ v₁ (over_lem (times_out t.status t.now) s v o)))

turns-Leads : (ts : List Turn) (s : ShortPrint) → IsValid s → Leads (stream s) (turns ts s)
turns-Leads [] s v = record { valid = v; streamed = refl }
turns-Leads (t ∷ ts) s v =
    let first = happen-Leads (events_of t) s v in
    let later = turns-Leads ts (happen (events_of t) s) first.valid in
    record { valid = later.valid; streamed = later.streamed ∙ first.streamed }

turns_end :
    (ts : List Turn) (s : ShortPrint)
    → IsValid s
    → AllReady ts
    → held_count s.out_head s.out_tail < length ts
    → (turns ts s).output_active ≡ false
turns_end [] s v ready enough = absurd (omega arith)
turns_end (t ∷ ts) s v (ready, more) enough = elim (Bool-cases s.output_active) [
  | inr o ↦ turns_over (t ∷ ts) s v o
  | inl a ↦
      let next = (happen-Leads (events_of t) s v).valid in
      elim (turn_lem t s v a ready).fewer [
        | inl (empty, o) ↦ turns_over ts (happen (events_of t) s) next o
        | inr (still, fewer) ↦
            turns_end ts (happen (events_of t) s) next more (omega (arith, fewer, enough))
      ]
]

-- In a valid state: when all interrupts of the printer are lost, and the timer fires with a ready
-- printer more often than there are bytes in the buffer, everything that was on its way is printed, in
-- order, the output is no longer active, and a release returns.
pub lost_interrupts :
    (ts : List Turn) (s : ShortPrint)
    → IsValid s
    → AllReady ts
    → length (pending s) < length ts
    → (strobed 0 (turns ts s).outs ≡ stream s)
      × ((turns ts s).output_active ≡ false)
      × (shortp_release [] (turns ts s) ≡ true)
unfolding shortp_release
lost_interrupts ts s v ready enough =
    let counted =
      length-held page_size s.out_buffer s.out_tail s.out_head (omega (arith, v.sized)) v.tail_in
        v.head_in in
    let over = turns_end ts s v ready (omega (arith, counted, enough)) in
    let l = turns-Leads ts s v in
    (
      sym (append-nil (strobed 0 (turns ts s).outs))
          ∙ ap (λ b. strobed 0 (turns ts s).outs ++ b)
              (sym (held-empty page_size _ _ _ (l.valid.over over)))
          ∙ l.streamed,
      over,
      ap not over,
    )
