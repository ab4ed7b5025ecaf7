-- ===== src/Snull/Receiving.antt =====
-- What interrupts, polls and timeouts of LinuxDeviceDrivers3Ed/snull/snull.c keep.
use leipocode.Base.{
  ℕ, zero, suc, ◌≡◌, refl, sym, ap, subst, ◌&&◌, not, min, Option-cases, ◌∙◌, ◌⊎◌, inl, inr, Bool,
  true, false, some, List, [], ◌∷◌, ltb, if◌then◌else◌, length, Bool-cases,
}
use mathlib.Core.Option.{some-injective}
use leipocode.Snull.{Side, Packet, Card, Net, card, put, Params}
use leipocode.Snull.Packets.{is_null, head_of, snull_dequeue_buf, snull_rx_ints}
use leipocode.Snull.Receive.{
  snull_rx, tx_over, status_read, received_by, released, snull_regular_interrupt,
  snull_napi_interrupt, snull_interrupt, poll_loop, polled, has_memory, later, snull_poll, Polled,
  poll_end, poll_ends,
}
use leipocode.Snull.Transmit.{snull_tx_timeout}
use leipocode.Snull.Stable.{Alike, Settling, Quiet, same-Quiet, tx_over-Quiet, snull_rx-Quiet}

module _ {P : Net → Type 0} (settling : Settling P) where
  -- The head of a queue is received, if there is one, and given back.
  head-stable :
      (memory : Bool) (s : Side) (n : Net) (c : Card) (f : Card → Card) (q : List Packet)
      → P n
      → q ≡ (card s n).rx_queue
      → Alike c (card s n)
      → Quiet f
      → let r = received_by memory (head_of q c) in P (released r.0 (put s (f r.1) n))
  head-stable memory s n c f [] inv here alike quiet = settling.put_same s n (f c) inv (record {
    pool = quiet.pool c ∙ alike.pool;
    queue = quiet.queue c ∙ alike.queue;
    stop = subst (λ b. (b ≡ (card s n).stopped) ⊎ (b ≡ true)) (sym (quiet.stop c)) alike.stop;
  })
  head-stable memory s n c f (p ∷ q) inv here alike quiet =
      let rest = record c { rx_queue = q } in
      let heard = snull_rx-Quiet memory p in
      settling.put_back s n (f (snull_rx memory p rest)) p q inv (sym here)
        (quiet.pool _ ∙ heard.pool rest ∙ alike.pool) (quiet.queue _ ∙ heard.queue rest)
        (subst (λ b. (b ≡ (card s n).stopped) ⊎ (b ≡ true)) (sym (quiet.stop _ ∙ heard.stop rest))
          alike.stop)

  -- The other branch of the interrupt handlers.
  changed-stable :
      (s : Side) (n : Net) (c : Card) (f : Card → Card)
      → P n
      → Alike c (card s n)
      → Quiet f
      → P (put s (f c) n)
  changed-stable s n c f inv alike quiet = settling.put_same s n (f c) inv (record {
    pool = quiet.pool c ∙ alike.pool;
    queue = quiet.queue c ∙ alike.queue;
    stop = subst (λ b. (b ≡ (card s n).stopped) ⊎ (b ≡ true)) (sym (quiet.stop c)) alike.stop;
  })

  when_sent-Quiet : (b : Bool) → Quiet (λ c. if b then tx_over c else c)
  when_sent-Quiet true = tx_over-Quiet
  when_sent-Quiet false = same-Quiet

  pub snull_regular_interrupt-stable :
      (memory : Bool) (s : Side) (n : Net) → P n → P (snull_regular_interrupt memory s n)
  unfolding snull_regular_interrupt snull_dequeue_buf
  snull_regular_interrupt-stable memory s n inv =
      let c = card s n in
      let alike : Alike (status_read c) c = record { pool = refl; queue = refl; stop = inl refl } in
      let quiet = when_sent-Quiet c.tx_intr in
      elim (Bool-cases c.rx_intr) [
        | inl r ↦ rw r (
            head-stable memory s n (status_read c) (λ d. if c.tx_intr then tx_over d else d)
              c.rx_queue inv refl alike quiet)
        | inr r ↦ rw r (
            changed-stable s n (status_read c) (λ d. if c.tx_intr then tx_over d else d) inv alike
              quiet)
      ]

  pub snull_napi_interrupt-stable : (s : Side) (n : Net) → P n → P (snull_napi_interrupt s n)
  unfolding snull_napi_interrupt snull_rx_ints
  snull_napi_interrupt-stable s n inv =
      let c = card s n in
      let quiet = when_sent-Quiet c.tx_intr in
      let f = λ (d : Card). if c.tx_intr then tx_over d else d in
      elim (Bool-cases c.rx_intr) [
        | inl r ↦ rw r (
            changed-stable s n (record (snull_rx_ints false (status_read c)) { scheduled = true }) f
              inv (record { pool = refl; queue = refl; stop = inl refl }) quiet)
        | inr r ↦ rw r (
            changed-stable s n (status_read c) f inv
              (record { pool = refl; queue = refl; stop = inl refl }) quiet)
      ]

  pub snull_interrupt-stable :
      (m : Params) (memory : Bool) (s : Side) (n : Net) → P n → P (snull_interrupt m memory s n)
  unfolding snull_interrupt
  snull_interrupt-stable m memory s n inv = elim (Bool-cases m.use_napi) [
    | inl r ↦ rw r (snull_napi_interrupt-stable s n inv)
    | inr r ↦ rw r (snull_regular_interrupt-stable memory s n inv)
  ]

  polled-stable :
      (memory : Bool) (s : Side) (n : Net)
      → P n
      → P (polled memory s (snull_dequeue_buf (card s n)) n)
  unfolding snull_dequeue_buf
  polled-stable memory s n inv =
      head-stable memory s n (card s n) (λ c. c) (card s n).rx_queue inv refl
        (record { pool = refl; queue = refl; stop = inl refl }) same-Quiet

  poll_loop-stable :
      (k quota i : ℕ) (news : List Bool) (s : Side) (n : Net) (r : ℕ × Net)
      → P n
      → poll_loop k quota i news s n ≡ some r
      → P r.1
  unfolding poll_loop
  poll_loop-stable zero quota i news s n r inv e = absurd (cc e)
  poll_loop-stable (suc k) quota i news s n r inv e =
      elim (Bool-cases (ltb i quota && not (is_null (card s n).rx_queue))) [
        | inl t ↦
            let on = rw t at e in
            poll_loop-stable k quota _ (later news) s _ r (polled-stable (has_memory news) s n inv)
              on
        | inr t ↦ let off = rw t at e in subst (λ (x : ℕ × Net). P x.1) (some-injective _ _ off) inv
      ]

  poll_end-stable : (s : Side) (budget : ℕ) (r : ℕ × Net) → P r.1 → P (poll_end s budget r).net
  unfolding snull_rx_ints
  poll_end-stable s budget r inv = elim (Bool-cases (is_null (card s r.1).rx_queue)) [
    | inl t ↦
        rw t (settling.put_same s r.1 _ inv (record { pool = refl; queue = refl; stop = inl refl }))
    | inr t ↦
        rw t (settling.put_same s r.1 _ inv (record { pool = refl; queue = refl; stop = inl refl }))
  ]

  pub snull_poll-stable :
      (news : List Bool) (s : Side) (budget : ℕ) (n : Net) (r : Polled)
      → P n
      → snull_poll news s budget n ≡ some r
      → P r.net
  unfolding snull_poll
  snull_poll-stable news s budget n r inv e =
      let c = card s n in
      elim (Option-cases (poll_loop (suc (length c.rx_queue)) (min c.quota budget) 0 news s n)) [
        | inl h ↦ absurd (cc (sym e ∙ ap (poll_ends s budget) h))
        | inr h ↦
            subst (λ (x : Polled). P x.net)
              (some-injective _ _ (ap (poll_ends s budget) (sym h.1) ∙ e))
              (poll_end-stable s budget h.0 (
                poll_loop-stable (suc (length c.rx_queue)) (min c.quota budget) 0 news s n h.0 inv
                  h.1))
      ]

  -- A timeout, where the transmit queue may be woken.
  pub snull_tx_timeout-stable :
      (Q : Net → Type 0) (s : Side)
      (woken : (n : Net) (d : Card)
        → P n
        → d.ppool ≡ (card s n).ppool
        → d.rx_queue ≡ (card s n).rx_queue
        → Q (put s d n))
      (m : Params) (memory : Bool) (n : Net)
      → P n
      → Q (snull_tx_timeout m memory s n)
  unfolding snull_tx_timeout
  snull_tx_timeout-stable Q s woken m memory n inv =
      let c = record (card s n) { rx_intr = false; tx_intr = true } in
      woken _ _
        (snull_interrupt-stable m memory s (put s c n)
          (settling.put_same s n c inv (record { pool = refl; queue = refl; stop = inl refl })))
        refl refl
