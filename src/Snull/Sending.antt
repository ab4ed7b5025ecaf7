-- ===== src/Snull/Sending.antt =====
-- What transmissions of LinuxDeviceDrivers3Ed/snull/snull.c keep.
use leipocode.Base.{
  ℕ, ◌+◌, ◌≤◌, ◌≡◌, refl, sym, ap, subst, ◌∙◌, inl, inr, Bool, true, false, some, List, ◌∷◌, ltb,
  if◌then◌else◌, length, write_at, Bool-cases, length-write_at, length-set, replicate, max, arith,
  le→ltb,
}
use leipocode.Snull.{Side, twin, Packet, Card, Net, card, put, Params}
use leipocode.Snull.Packets.{first_of, snull_get_tx_buffer, snull_enqueue_buf}
use leipocode.Snull.Receive.{snull_interrupt}
use leipocode.Snull.Transmit.{
  notified, locks_up, tx_ends, sent, snull_hw_tx, snull_tx, padded, rewritten, headers, eth_hlen,
}
use leipocode.Snull.Stable.{Ended, Stable, without_buffer, card-put}
use leipocode.Snull.Receiving.{snull_interrupt-stable}

pub snull_get_tx_buffer_lem :
    (c : Card) (p : Packet) (ps : List Packet)
    → c.ppool ≡ p ∷ ps
    → snull_get_tx_buffer c ≡ some (p, without_buffer ps c)
unfolding snull_get_tx_buffer
snull_get_tx_buffer_lem c p ps e =
    subst (λ l. first_of l c ≡ some (p, without_buffer ps c)) (sym e) refl

-- Short frames are padded to 60 bytes.
pub length-padded : (b : List ℕ) → length (padded b) ≡ max 60 (length b)
length-padded b = elim (Bool-cases (ltb (length b) 60)) [
  | inl t ↦ rw t (ground (arith, t, length-write_at 0 b (replicate 60 0)))
  | inr t ↦ rw t (ground (arith, t))
]

pub length-rewritten : (f : List ℕ → ℕ → ℕ) (b : List ℕ) → length (rewritten f b) ≡ length b
length-rewritten f b =
    length-write_at (eth_hlen + 10) _ _
    ∙ length-write_at (eth_hlen + 10) _ _
    ∙ length-set _ (eth_hlen + 18) _
    ∙ length-set b (eth_hlen + 14) _

module _ {P : Net → Type 0} (stable : Stable P) where
  either-stable : (b : Bool) (x y : Net) → P x → P y → P (if b then x else y)
  either-stable true x y a b = a
  either-stable false x y a b = b

  notified-stable :
      (m : Params) (memory : Bool) (s : Side) (n : Net) → P n → P (notified m memory s n)
  notified-stable m memory s n inv =
      let told = put s (record (card s n) { rx_intr = true }) n in
      either-stable (card s n).rx_int_enabled (snull_interrupt m memory s told) n
        (snull_interrupt-stable stable.settling m memory s told (
          stable.settling.put_same s n _ inv
            (record { pool = refl; queue = refl; stop = inl refl })))
        inv

  tx_ends-stable :
      (m : Params) (memory : Bool) (len : ℕ) (s : Side) (n : Net)
      → P n
      → P (tx_ends m memory len s n)
  tx_ends-stable m memory len s n inv =
      let c = record (card s n) { tx_packetlen = len; tx_intr = true } in
      either-stable (locks_up m c) (put s (record c { stopped = true }) n)
        (snull_interrupt m memory s (put s c n))
        (stable.settling.put_same s n _ inv (record { pool = refl; queue = refl; stop = inr refl }))
        (snull_interrupt-stable stable.settling m memory s (put s c n) (
          stable.settling.put_same s n c inv
            (record { pool = refl; queue = refl; stop = inl refl })))

  sent-stable :
      (m : Params) (memory : Side → Bool) (frame : List ℕ) (s : Side) (n : Net) (p : Packet)
      (ps : List Packet)
      → P n
      → (card s n).ppool ≡ p ∷ ps
      → length frame ≤ length p.bytes
      → Ended P (sent m memory frame s (some (p, without_buffer ps (card s n))) n)
  unfolding snull_enqueue_buf
  sent-stable m memory frame s n p ps inv pool fits =
      let full = record p { datalen = length frame; bytes = write_at 0 frame p.bytes } in
      let taken = put s (without_buffer ps (card s n)) n in
      let queued = put (twin s) (snull_enqueue_buf full (card (twin s) taken)) taken in
      let last =
        tx_ends m (memory s) (length frame) s (notified m (memory (twin s)) (twin s) queued) in
      (
        last,
        rw (le→ltb (length p.bytes) (length frame) fits) refl,
        tx_ends-stable m (memory s) (length frame) s _ (
            notified-stable m (memory (twin s)) (twin s) queued
              (stable.put_out s n p full ps inv pool refl (length-write_at 0 frame p.bytes))),
      )

  -- `snull_tx` of a frame that fits in the first packet of the pool.
  pub snull_tx-stable :
      (m : Params) (memory : Side → Bool) (skb : ℕ) (bytes : List ℕ) (s : Side) (n : Net)
      (p : Packet) (ps : List Packet)
      → P n
      → (card s n).ppool ≡ p ∷ ps
      → length bytes ≤ length p.bytes
      → 60 ≤ length p.bytes
      → Ended P (snull_tx m memory skb bytes s n)
  unfolding snull_tx snull_hw_tx
  snull_tx-stable m memory skb bytes s n p ps inv pool fits room =
      let c = record (card s n) { skb = skb } in
      let n' = put s c n in
      let there : (card s n').ppool ≡ p ∷ ps = ap (λ (d : Card). d.ppool) (card-put s c n) ∙ pool in
      let frame = rewritten m.ip_fast_csum (padded bytes) in
      let l = length-rewritten m.ip_fast_csum (padded bytes) in
      let k = length-padded bytes in
      let (last, run, kept) =
        sent-stable m memory frame s n' p ps
          (stable.settling.put_same s n c inv
            (record { pool = refl; queue = refl; stop = inl refl }))
          there (omega (arith, l, k, fits, room)) in
      (
        last,
        rw
            (
              le→ltb (length (padded bytes)) headers (omega (arith, k)),
              snull_get_tx_buffer_lem (card s n') p ps there,
            )
            run,
        kept,
      )
