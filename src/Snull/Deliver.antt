-- ===== src/Snull/Deliver.antt =====
-- A transmission of LinuxDeviceDrivers3Ed/snull/snull.c without NAPI, from the sender's packet to the
-- frame that the other interface passes on.
use leipocode.Base.{
  ℕ, ◌≤◌, ◌≡◌, refl, ap, some, true, false, List, [], ◌∷◌, arith, le→ltb, length, take, write_at,
}
use leipocode.Snull.{Side, sn0, sn1, Packet, ◌+64◌, Card, Net, Params, done}
use leipocode.Snull.Packets.{
  snull_get_tx_buffer, snull_enqueue_buf, snull_dequeue_buf, snull_release_buffer,
}
use leipocode.Snull.Receive.{snull_rx, snull_regular_interrupt, snull_interrupt}
use leipocode.Snull.Transmit.{padded, rewritten, headers, sent, snull_hw_tx, snull_tx}
use leipocode.Snull.Sending.{length-padded, length-rewritten}
use leipocode.Snull.Stable.{without_buffer}

-- The state with these cards on one side and on the other.
abbrev pub both : Side → Card → Card → Net
both sn0 c d = record { first = c; second = d }
both sn1 c d = record { first = d; second = c }

-- Nothing is to be handled, and the receive interrupt is enabled.
abbrev pub resting : Card → Card
resting c = record c {
  rx_intr = false;
  tx_intr = false;
  rx_queue = [];
  rx_int_enabled = true;
  stopped = false;
}

-- Without NAPI, and without simulated lockups.
abbrev pub plain : Params → Params
plain m = record m { use_napi = false; lockup = 0 }

take-write_at : (f b : List ℕ) → length f ≤ length b → take (length f) (write_at 0 f b) ≡ f
take-write_at [] b h = refl
take-write_at (x ∷ f) [] h = absurd (omega arith)
take-write_at (x ∷ f) (y ∷ b) h = ap (λ l. x ∷ l) (take-write_at f b (omega arith))

-- The sender's card afterwards: its packet, filled, is back.
abbrev pub having_sent : (l skb : ℕ) (new : List ℕ) → Side → Card → Packet → List Packet → Card
having_sent l skb new s c p ps = record (resting c) {
  ppool = record p { dev = s; datalen = l; bytes = new } ∷ ps;
  skb = skb;
  tx_packetlen = l;
  freed = skb ∷ c.freed;
  stats = record c.stats {
    tx_packets = c.stats.tx_packets +64 1;
    tx_bytes = c.stats.tx_bytes +64 l;
  };
}

-- The card of the other interface afterwards.
abbrev pub having_received : (frame : List ℕ) → Card → Card
having_received frame d = record (resting d) {
  received = frame ∷ d.received;
  stats = record d.stats {
    rx_packets = d.stats.rx_packets +64 1;
    rx_bytes = d.stats.rx_bytes +64 length frame;
  };
}

sent-both :
    (m : Params) (skb : ℕ) (frame : List ℕ) (s : Side) (c d : Card) (p : Packet) (ps : List Packet)
    → length frame ≤ length p.bytes
    → let owned = record p { dev = s } in
      let c' = record (resting c) { ppool = owned ∷ ps; skb = skb } in
      sent
        (plain m)
        (λ t. true)
        frame
        s
        (some (owned, without_buffer ps c'))
        (both s c' (resting d))
      ≡ done (
          both s
            (having_sent (length frame) skb (write_at 0 frame p.bytes) s c p ps)
            (having_received frame d))
unfolding snull_enqueue_buf snull_dequeue_buf snull_release_buffer snull_rx snull_regular_interrupt
    snull_interrupt
sent-both m skb frame sn0 c d p [] fits =
    rw (le→ltb (length p.bytes) (length frame) fits, take-write_at frame p.bytes fits) refl
sent-both m skb frame sn0 c d p (q ∷ ps) fits =
    rw (le→ltb (length p.bytes) (length frame) fits, take-write_at frame p.bytes fits) refl
sent-both m skb frame sn1 c d p [] fits =
    rw (le→ltb (length p.bytes) (length frame) fits, take-write_at frame p.bytes fits) refl
sent-both m skb frame sn1 c d p (q ∷ ps) fits =
    rw (le→ltb (length p.bytes) (length frame) fits, take-write_at frame p.bytes fits) refl

-- `snull_tx` without NAPI, without lockups and with memory, between interfaces that rest, of a frame
-- that fits in the first packet of the sender's pool: the other interface passes on the frame, padded
-- and with its addresses changed, and counts it; the sender counts it, frees the socket buffer, and has
-- its packet back; and both rest again.
pub snull_tx-both :
    (m : Params) (skb : ℕ) (bytes : List ℕ) (s : Side) (c d : Card) (p : Packet) (ps : List Packet)
    → length (padded bytes) ≤ length p.bytes
    → let frame = rewritten m.ip_fast_csum (padded bytes) in
      snull_tx
        (plain m)
        (λ t. true)
        skb
        bytes
        s
        (both s (record (resting c) { ppool = record p { dev = s } ∷ ps }) (resting d))
      ≡ done (
          both s
            (having_sent (length frame) skb (write_at 0 frame p.bytes) s c p ps)
            (having_received frame d))
unfolding snull_tx snull_hw_tx snull_get_tx_buffer
snull_tx-both m skb bytes sn0 c d p ps fits =
    let frame = rewritten m.ip_fast_csum (padded bytes) in
    let same = length-rewritten m.ip_fast_csum (padded bytes) in
    let long = le→ltb (length (padded bytes)) headers (omega (arith, length-padded bytes)) in
    rw long (sent-both m skb frame sn0 c d p ps (omega (arith, same, fits)))
snull_tx-both m skb bytes sn1 c d p ps fits =
    let frame = rewritten m.ip_fast_csum (padded bytes) in
    let same = length-rewritten m.ip_fast_csum (padded bytes) in
    let long = le→ltb (length (padded bytes)) headers (omega (arith, length-padded bytes)) in
    rw long (sent-both m skb frame sn1 c d p ps (omega (arith, same, fits)))
