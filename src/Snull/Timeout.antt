-- ===== src/Snull/Timeout.antt =====
-- What goes wrong in LinuxDeviceDrivers3Ed/snull/snull.c: timeouts that wake a queue without packets or
-- free a socket buffer again.
use leipocode.Base.{
  ℕ, ◌≡◌, refl, ap, ◌∙◌, inl, inr, Bool, true, false, Option, none, some, List, [], ◌∷◌, arith,
  le→ltb, length, Bool-cases,
}
use leipocode.Snull.{Side, sn0, sn1, Packet, Card, Net, card, put, Params, null_pointer}
use leipocode.Snull.Packets.{
  first_of, head_of, regained, snull_release_buffer, snull_get_tx_buffer, snull_rx_ints,
  snull_dequeue_buf,
}
use leipocode.Snull.Receive.{
  snull_rx, tx_over, status_read, received_by, released, snull_interrupt, snull_regular_interrupt,
  snull_napi_interrupt,
}
use leipocode.Snull.Transmit.{
  padded, rewritten, headers, sent, snull_hw_tx, snull_tx, snull_tx_timeout,
}
use leipocode.Snull.Sending.{length-padded}
use leipocode.Snull.Stable.{card-put}

-- On an empty pool a send follows NULL.
snull_tx-empty :
    (m : Params) (memory : Side → Bool) (skb : ℕ) (bytes : List ℕ) (s : Side) (n : Net)
    → (card s n).ppool ≡ []
    → snull_tx m memory skb bytes s n ≡ null_pointer
unfolding snull_tx snull_hw_tx snull_get_tx_buffer
snull_tx-empty m memory skb bytes s n e =
    let c = record (card s n) { skb = skb } in
    let n' = put s c n in
    let empty : (card s n').ppool ≡ [] = ap (λ (d : Card). d.ppool) (card-put s c n) ∙ e in
    let nothing : snull_get_tx_buffer (card s n') ≡ none = ap (λ l. first_of l (card s n')) empty in
    let frame = rewritten m.ip_fast_csum (padded bytes) in
    rw (le→ltb (length (padded bytes)) headers (omega (arith, length-padded bytes)))
      (ap (λ o. sent m memory frame s o n') nothing)

-- A timeout wakes the queue and leaves the pool alone.
snull_tx_timeout-pool :
    (m : Params) (memory : Bool) (s : Side) (n : Net)
    → let n' = snull_tx_timeout m memory s n in
      ((card s n').stopped ≡ false) × ((card s n').ppool ≡ (card s n).ppool)
unfolding snull_tx_timeout snull_interrupt snull_regular_interrupt snull_napi_interrupt
snull_tx_timeout-pool m memory sn0 n = elim (Bool-cases m.use_napi) [
  | inl t ↦ rw t (refl, refl)
  | inr t ↦ rw t (refl, refl)
]
snull_tx_timeout-pool m memory sn1 n = elim (Bool-cases m.use_napi) [
  | inl t ↦ rw t (refl, refl)
  | inr t ↦ rw t (refl, refl)
]

-- An interface without packets in its pool: `snull_tx_timeout` wakes its queue all the same, and the
-- next `snull_tx` follows NULL.
pub timeout_then_null :
    (m : Params) (memory : Bool) (memories : Side → Bool) (skb : ℕ) (bytes : List ℕ) (s : Side)
    (n : Net)
    → (card s n).ppool ≡ []
    → let n' = snull_tx_timeout m memory s n in
      ((card s n').stopped ≡ false) × (snull_tx m memories skb bytes s n' ≡ null_pointer)
timeout_then_null m memory memories skb bytes s n e =
    let (awake, empty) = snull_tx_timeout-pool m memory s n in
    (awake, snull_tx-empty m memories skb bytes s _ (empty ∙ e))

-- The socket buffers that were freed, and the one on its way.
abbrev books : Card → List ℕ × ℕ
books c = (c.freed, c.skb)

abbrev one_freed : List ℕ × ℕ → List ℕ × ℕ
one_freed (l, k) = (k ∷ l, k)

released-books :
    (s : Side) (o : Option Packet) (n : Net) → books (card s (released o n)) ≡ books (card s n)
unfolding snull_release_buffer
released-books s none n = refl
released-books s (some p) n = on s p.dev
  where
    on : (s t : Side) → books (card s (put t (regained p (card t n)) n)) ≡ books (card s n)
    on sn0 sn0 = refl
    on sn0 sn1 = refl
    on sn1 sn0 = refl
    on sn1 sn1 = refl

received-books :
    (b : Bool) (q : List Packet) (c : Card) → books (received_by b (head_of q c)).1 ≡ books c
unfolding snull_rx
received-books b [] c = refl
received-books true (p ∷ q) c = refl
received-books false (p ∷ q) c = refl

-- A pending transmission is over with the next interrupt.
snull_interrupt-books :
    (m : Params) (memory : Bool) (s : Side) (n : Net)
    → (card s n).tx_intr ≡ true
    → books (card s (snull_interrupt m memory s n)) ≡ one_freed (books (card s n))
unfolding snull_interrupt snull_regular_interrupt snull_napi_interrupt snull_dequeue_buf
    snull_rx_ints
snull_interrupt-books m memory s n e =
    let c = card s n in
    let at_put = λ (o : Option Packet) (d : Card).
      released-books s o (put s (tx_over d) n) ∙ ap books (card-put s (tx_over d) n) in
    elim (Bool-cases m.use_napi) [
      | inl t ↦ elim (Bool-cases c.rx_intr) [
        | inl r ↦ rw (t, r, e) (ap books (card-put s _ n))
        | inr r ↦ rw (t, r, e) (ap books (card-put s _ n))
      ]
      | inr t ↦ elim (Bool-cases c.rx_intr) [
        | inl r ↦
            let (o, d) = received_by memory (head_of c.rx_queue (status_read c)) in
            rw (t, r, e)
              (at_put o d ∙ ap one_freed (received-books memory c.rx_queue (status_read c)))
        | inr r ↦ rw (t, r, e) (at_put none (status_read c))
      ]
    ]

snull_tx_timeout-books :
    (m : Params) (memory : Bool) (s : Side) (n : Net)
    → books (card s (snull_tx_timeout m memory s n)) ≡ one_freed (books (card s n))
unfolding snull_tx_timeout
snull_tx_timeout-books m memory s n =
    let c = record (card s n) { rx_intr = false; tx_intr = true } in
    ap books (card-put s _ _)
    ∙ snull_interrupt-books m memory s (put s c n) (ap (λ (d : Card). d.tx_intr) (card-put s c n))
    ∙ ap (λ (d : Card). one_freed (books d)) (card-put s c n)

-- An interface with a transmission that no interrupt has reported (as a simulated lockup leaves it):
-- an interrupt for another reason, without NAPI or with it, frees the socket buffer, and a timeout
-- frees it again.
pub freed_again :
    (m : Params) (memory memory' : Bool) (s : Side) (n : Net)
    → (card s n).tx_intr ≡ true
    → (card s (snull_tx_timeout m memory' s (snull_interrupt m memory s n))).freed
      ≡ (card s n).skb ∷ (card s n).skb ∷ (card s n).freed
freed_again m memory memory' s n e =
    ap (λ (b : List ℕ × ℕ). b.0)
      (snull_tx_timeout-books m memory' s (snull_interrupt m memory s n)
        ∙ ap one_freed (snull_interrupt-books m memory s n e))
