-- ===== src/TinySerial/Sending.antt =====
-- What LinuxDeviceDrivers3Ed/tty/tiny_serial.c sends, and in which order.
use leipocode.Base.{
  ℕ, zero, suc, ◌+◌, ◌-◌, ◌/◌, ◌%◌, ◌<◌, ◌≡◌, ◌≢◌, refl, sym, ap, subst, ◌∙◌, inl, inr, max, true,
  false, some, List, [], ◌∷◌, ◌++◌, append_assoc, arith, lt→ltb, le→ltb, ==→eq, eq→==, Bool-cases,
  length, slice, get_elem?, next_index, held, held-next, held-empty, byte_of, slice-one,
}
use native.Mathlib.Decide.{dec_lt}
use leipocode.TinySerial.{
  Port, xmit_size, is_empty, send_one, tx_loop, tiny_tx_chars, tiny_timer, data_character,
}

-- The buffer is there, and its indices are in it.
pub record IsValid (p : Port) : Type 0 where
  pub sized : length p.buf ≡ xmit_size
  pub head_in : p.head < xmit_size
  pub tail_in : p.tail < xmit_size

-- The characters that wait, oldest first.
abbrev pub waiting : Port → List ℕ
waiting p = held xmit_size p.buf p.tail p.head

-- `n` characters go from the buffer to the wire.
pub record Sends (n : ℕ) (p q : Port) : Type 0 where
  pub valid : IsValid q
  pub order : q.wrote ++ waiting q ≡ p.wrote ++ waiting p
  pub fewer : length (waiting q) ≡ length (waiting p) - n
  pub timer_kept : q.timer ≡ p.timer

next_lem : (i : ℕ) → i < xmit_size → (i + 1) % xmit_size ≡ next_index xmit_size i 1
next_lem i h = ground arith

send_one-Sends : (p : Port) → IsValid p → p.head ≢ p.tail → Sends 1 p (send_one p)
unfolding send_one
send_one-Sends p v some_wait =
    let b = byte_of (get_elem? p.buf p.tail) in
    let rest = held xmit_size p.buf (next_index xmit_size p.tail 1) p.head in
    let step = next_lem p.tail v.tail_in in
    let first : slice p.buf p.tail 1 ≡ b ∷ [] =
      slice-one p.buf p.tail (omega (arith, v.sized, v.tail_in)) in
    let whole : b ∷ rest ≡ waiting p =
      ap (λ l. l ++ rest) (sym first)
      ∙ held-next xmit_size p.buf p.tail p.head 1 v.tail_in v.head_in
          (ground (arith, some_wait, v.tail_in, v.head_in)) in
    record {
      valid = record { sized = v.sized; head_in = v.head_in; tail_in = omega arith };
      order =
          ap (λ i. p.wrote ++ b ∷ [] ++ held xmit_size p.buf i p.head) step
          ∙ append_assoc p.wrote (b ∷ []) rest
          ∙ ap (λ l. p.wrote ++ l) whole;
      fewer =
          ap (λ i. length (held xmit_size p.buf i p.head)) step ∙ omega (arith, ap length whole);
      timer_kept = refl;
    }

-- `max 1 count` characters, or all.
tx_loop-Sends :
    (count : ℕ) (p : Port) → IsValid p → p.head ≢ p.tail → Sends (max 1 count) p (tx_loop count p)
unfolding tx_loop
tx_loop-Sends zero p v some_wait = send_one-Sends p v some_wait
tx_loop-Sends (suc count) p v some_wait =
    let s = send_one-Sends p v some_wait in
    let q = send_one p in
    elim (Bool-cases (is_empty q)) [
      | inl e ↦
          let ends : tx_loop (suc count) p ≡ q = rw e refl in
          let none_wait : waiting q ≡ [] =
            held-empty xmit_size q.buf q.tail q.head (==→eq q.head q.tail e) in
          subst (Sends (max 1 (suc count)) p) (sym ends) (record {
            valid = s.valid;
            order = s.order;
            fewer = omega (arith, s.fewer, ap length none_wait);
            timer_kept = s.timer_kept;
          })
      | inr e ↦ elim (dec_lt 0 count) [
        | yes more ↦
            let goes_on : tx_loop (suc count) p ≡ tx_loop count q =
              rw (e, lt→ltb 0 count more) refl in
            let t = tx_loop-Sends count q s.valid (λ d. ground (arith, e, d)) in
            subst (Sends (max 1 (suc count)) p) (sym goes_on) (record {
              valid = t.valid;
              order = t.order ∙ s.order;
              fewer = omega (arith, t.fewer, s.fewer, more);
              timer_kept = t.timer_kept ∙ s.timer_kept;
            })
        | no last ↦
            let ends : tx_loop (suc count) p ≡ q = rw (e, le→ltb 0 count (omega arith)) refl in
            subst (Sends (max 1 (suc count)) p) (sym ends) (record {
              valid = s.valid;
              order = s.order;
              fewer = omega (arith, s.fewer);
              timer_kept = s.timer_kept;
            })
      ]
    ]

tiny_tx_chars-Sends :
    (p : Port)
    → IsValid p
    → p.x_char ≡ 0
    → p.stopped ≡ false
    → Sends (max 1 (p.fifosize / 2)) p (tiny_tx_chars p)
unfolding tiny_tx_chars
tiny_tx_chars-Sends p v no_x goes = elim (Bool-cases (is_empty p)) [
  | inl e ↦
      let rests : tiny_tx_chars p ≡ p = rw (eq→== p.x_char 0 no_x, e) refl in
      let none_wait : waiting p ≡ [] =
        held-empty xmit_size p.buf p.tail p.head (==→eq p.head p.tail e) in
      subst (Sends (max 1 (p.fifosize / 2)) p) (sym rests) (record {
        valid = v;
        order = refl;
        fewer = omega (arith, ap length none_wait);
        timer_kept = refl;
      })
  | inr e ↦
      let sends : tiny_tx_chars p ≡ tx_loop (p.fifosize / 2) p =
        rw (eq→== p.x_char 0 no_x, e, goes) refl in
      subst (Sends (max 1 (p.fifosize / 2)) p) (sym sends)
        (tx_loop-Sends (p.fifosize / 2) p v (λ d. ground (arith, e, d)))
]

-- On a valid port with a tty that has not stopped, and no `x_char`: when the timer is over it is
-- pending again, and the characters that wait are sent, the oldest first, half as many as the FIFO has
-- but at least one, or all if they are fewer.
pub timer_sends :
    (p : Port)
    → IsValid p
    → p.attached ≡ true
    → p.x_char ≡ 0
    → p.stopped ≡ false
    → let q = tiny_timer p in
      (q.wrote ++ waiting q ≡ p.wrote ++ waiting p)
      × (length (waiting q) ≡ length (waiting p) - max 1 (p.fifosize / 2))
      × (q.timer ≡ some true)
      × IsValid q
unfolding tiny_timer
timer_sends p v here no_x goes =
    let t = record p { flips = p.flips ++ data_character ∷ []; timer = some true } in
    let s =
      tiny_tx_chars-Sends t (record { sized = v.sized; head_in = v.head_in; tail_in = v.tail_in })
        no_x goes in
    let sends : tiny_timer p ≡ tiny_tx_chars t = rw here refl in
    subst
      (λ q.
        (q.wrote ++ waiting q ≡ p.wrote ++ waiting p)
        × (length (waiting q) ≡ length (waiting p) - max 1 (p.fifosize / 2))
        × (q.timer ≡ some true)
        × IsValid q)
      (sym sends) (s.order, s.fewer, s.timer_kept, s.valid)
