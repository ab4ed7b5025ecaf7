-- ===== src/ShortPrint/Stream.antt =====
-- The bytes on their way through LinuxDeviceDrivers3Ed/shortprint/shortprint.c: those that the printer
-- took, and those in the buffer.
use leipocode.Base.{
  byte_of, slice-one, ℕ, ◌+◌, ◌%◌, ◌≤◌, ◌<◌, ◌≡◌, ◌≢◌, refl, sym, ap, ap₂, ◌∙◌, inl, inr, Bool,
  true, false, ◌||◌, List, [], ◌∷◌, ◌++◌, append_assoc, arith, ◌==◌, if◌then◌else◌, length,
  get_elem?, slice, next_index, held, held-next, Bool-cases, ==→eq, eq→==, ne→==,
}
use mathlib.Core.Bool.{false≢true}
use leipocode.Kernel.{page_size}
use leipocode.ShortPrint.{
  Out, to_data, to_control, ShortPrint, shortp_incr_out_bp, strobe_on, strobe_off, shortp_do_write,
  next_byte, byte_of,
}

-- The printer takes the byte in the data register whenever the strobe bit is set; `byte` is in the
-- register first.
abbrev pub strobed : (byte : ℕ) → List Out → List ℕ
strobed byte [] = []
strobed byte (to_data b ∷ outs) = strobed b outs
strobed byte (to_control cr ∷ outs) =
    if cr % 2 == 1 then byte ∷ strobed byte outs else strobed byte outs

pub strobed_byte :
    (byte : ℕ) (outs : List Out) (b cr : ℕ)
    → strobed byte (outs ++ to_data b ∷ to_control (strobe_on cr) ∷ to_control (strobe_off cr) ∷ [])
      ≡ strobed byte outs ++ b ∷ []
strobed_byte byte [] b cr =
    rw
      (
        eq→== (strobe_on cr % 2) 1 (omega arith),
        ne→== (strobe_off cr % 2) 1 (λ e. omega (arith, e)),
      )
      refl
strobed_byte byte (to_data d ∷ outs) b cr = strobed_byte d outs b cr
strobed_byte byte (to_control c ∷ outs) b cr = elim (Bool-cases (c % 2 == 1)) [
  | inl e ↦ rw e (ap (λ l. byte ∷ l) (strobed_byte byte outs b cr))
  | inr e ↦ rw e (strobed_byte byte outs b cr)
]

-- The bytes in the output buffer, oldest first.
abbrev pub pending : ShortPrint → List ℕ
pending s = held page_size s.out_buffer s.out_tail s.out_head

-- What was printed and what is still to be printed.
abbrev pub stream : ShortPrint → List ℕ
stream s = strobed 0 s.outs ++ pending s

-- The buffer is there, and the indices are in it. Output that is not active is over, with its timer;
-- output that is active has something that keeps it going: queued work, a running work function, or
-- the timer.
pub record IsValid (s : ShortPrint) : Type 0 where
  pub sized : length s.out_buffer ≡ page_size
  pub head_in : s.out_head < page_size
  pub tail_in : s.out_tail < page_size
  pub over : s.output_active ≡ false → s.out_head ≡ s.out_tail
  pub no_timer : s.output_active ≡ false → s.timer ≡ false
  pub kept_going : s.output_active ≡ true → (s.queued || s.running || s.timer) ≡ true

pub incr_lem : (i k : ℕ) → i + k ≤ page_size → shortp_incr_out_bp i k ≡ next_index page_size i k
unfolding shortp_incr_out_bp
incr_lem i k h = ground arith

-- A byte goes from the buffer to the printer.
pub shortp_do_write-stream :
    (cr : ℕ) (s : ShortPrint)
    → length s.out_buffer ≡ page_size
    → s.out_head < page_size
    → s.out_tail < page_size
    → s.out_head ≢ s.out_tail
    → stream (shortp_do_write cr s) ≡ stream s
unfolding shortp_do_write
shortp_do_write-stream cr s sized head_in tail_in some_bytes =
    let b = byte_of (get_elem? s.out_buffer s.out_tail) in
    let first : slice s.out_buffer s.out_tail 1 ≡ b ∷ [] =
      slice-one s.out_buffer s.out_tail (omega (arith, sized, tail_in)) in
    ap₂ (λ l i. l ++ held page_size s.out_buffer i s.out_head) (strobed_byte 0 s.outs b cr)
      (incr_lem s.out_tail 1 (omega (arith, tail_in)))
    ∙ append_assoc (strobed 0 s.outs) (b ∷ []) _
    ∙ ap (λ l. strobed 0 s.outs ++ l)
        (ap (λ l. l ++ held page_size s.out_buffer (next_index page_size s.out_tail 1) s.out_head)
            (sym first)
          ∙ held-next page_size s.out_buffer s.out_tail s.out_head 1 tail_in head_in
              (ground (arith, some_bytes, tail_in, head_in)))

-- A step that keeps the state valid, and changes the bytes to `bytes`.
pub record Leads (bytes : List ℕ) (s : ShortPrint) : Type 0 where
  pub valid : IsValid s
  pub streamed : stream s ≡ bytes

pub next_byte-Leads :
    (cr : ℕ) (s : ShortPrint)
    → IsValid s
    → Leads (stream s) (record (next_byte cr s) { running = false })
unfolding next_byte shortp_do_write shortp_incr_out_bp
next_byte-Leads cr s v = elim (Bool-cases (s.out_head == s.out_tail)) [
  | inl e ↦ rw e (record {
    valid = record {
      sized = v.sized;
      head_in = v.head_in;
      tail_in = v.tail_in;
      over = λ i. ==→eq s.out_head s.out_tail e;
      no_timer = λ i. refl;
      kept_going = λ a. absurd (false≢true a);
    };
    streamed = refl;
  })
  | inr e ↦
      let differ : s.out_head ≢ s.out_tail = λ d. ground (arith, e, d) in
      rw e (record {
        valid = record {
          sized = v.sized;
          head_in = v.head_in;
          tail_in = ground (arith, v.tail_in);
          over = λ i. absurd (differ (v.over i));
          no_timer = λ i. absurd (differ (v.over i));
          kept_going = λ a. or_last s.queued;
        };
        streamed = shortp_do_write-stream cr s v.sized v.head_in v.tail_in differ;
      })
]
  where
    or_last : (queued : Bool) → (queued || false || true) ≡ true
    or_last true = refl
    or_last false = refl
