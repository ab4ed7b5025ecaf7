-- ===== src/Snull/Overrun.antt =====
-- Frames of LinuxDeviceDrivers3Ed/snull/snull.c that are longer than a packet.
use leipocode.Base.{
  ℕ, ◌+◌, ◌/◌, ◌%◌, ◌≤◌, ◌<◌, ◌≡◌, refl, ap, ◌∙◌, Bool, Option, List, [], ◌∷◌, ◌++◌, arith, le→ltb,
  lt→ltb, length, length-append, length-set,
}
use leipocode.Kernel.{returns}
use leipocode.Snull.{Side, Packet, Card, Net, card, put, Params, overrun, eth_data_len}
use leipocode.Snull.Transmit.{flip, byte_at, padded, rewritten, headers, snull_hw_tx, snull_tx}
use leipocode.Snull.Device.{or_else, snull_header, snull_change_mtu}
use leipocode.Snull.Sending.{length-padded, length-rewritten, snull_get_tx_buffer_lem}
use leipocode.Snull.Stable.{card-put}

-- A frame that is longer than the packet at the head of the pool.
snull_tx-long :
    (m : Params) (memory : Side → Bool) (skb : ℕ) (bytes : List ℕ) (s : Side) (n : Net) (p : Packet)
    (ps : List Packet)
    → (card s n).ppool ≡ p ∷ ps
    → length p.bytes < length bytes
    → snull_tx m memory skb bytes s n ≡ overrun
unfolding snull_tx snull_hw_tx
snull_tx-long m memory skb bytes s n p ps pool long =
    let c = record (card s n) { skb = skb } in
    let n' = put s c n in
    let there : (card s n').ppool ≡ p ∷ ps = ap (λ (d : Card). d.ppool) (card-put s c n) ∙ pool in
    let frame = rewritten m.ip_fast_csum (padded bytes) in
    let l : length p.bytes < length frame =
      omega (arith, long, length-padded bytes, length-rewritten m.ip_fast_csum (padded bytes)) in
    rw
      (
        le→ltb (length (padded bytes)) headers (omega (arith, length-padded bytes)),
        snull_get_tx_buffer_lem (card s n') p ps there,
        lt→ltb (length p.bytes) (length frame) l,
      )
      refl

length-snull_header :
    (c : Card) (type : ℕ) (daddr saddr : Option (List ℕ)) (payload : List ℕ)
    → length (or_else daddr c.dev_addr) ≡ 6
    → length (or_else saddr c.dev_addr) ≡ 6
    → length (snull_header c type daddr saddr payload) ≡ 14 + length payload
unfolding snull_header
length-snull_header c type daddr saddr payload d s =
    let daddr' = or_else daddr c.dev_addr in
    let saddr' = or_else saddr c.dev_addr in
    let proto = type / 256 % 256 ∷ type % 256 ∷ [] in
    let whole = daddr' ++ saddr' ++ proto ++ payload in
    length-set whole 5 (flip (byte_at whole 5))
    ∙ omega (
      arith,
      length-append (daddr' ++ saddr' ++ proto) payload,
      length-append (daddr' ++ saddr') proto,
      length-append daddr' saddr',
      d,
      s,
    )

-- A device that accepts the MTU 1500, as every one does: the frame that `snull_header` makes of more
-- than 1486 and at most 1500 bytes, sent from a pool with a packet at its head, runs over the end of
-- the packet's ETH_DATA_LEN bytes.
pub full_frames_overrun :
    (m : Params) (memory : Side → Bool) (skb type : ℕ) (daddr saddr : Option (List ℕ))
    (payload : List ℕ) (s : Side) (n : Net) (p : Packet) (ps : List Packet)
    → let (ret, c) = snull_change_mtu 1500 (card s n) in
      (card s n).ppool ≡ p ∷ ps
      → length p.bytes ≡ eth_data_len
      → length (or_else daddr c.dev_addr) ≡ 6
      → length (or_else saddr c.dev_addr) ≡ 6
      → 1486 < length payload
      → length payload ≤ 1500
      → (ret ≡ returns 0)
        × (length payload ≤ c.mtu)
        × (snull_tx m memory skb (snull_header c type daddr saddr payload) s (put s c n) ≡ overrun)
unfolding snull_change_mtu
full_frames_overrun m memory skb type daddr saddr payload s n p ps pool size dlen slen long short =
    let c = record (card s n) { mtu = 1500 } in
    let frame = snull_header c type daddr saddr payload in
    (
      refl,
      short,
      snull_tx-long m memory skb frame s (put s c n) p ps
          (ap (λ (d : Card). d.ppool) (card-put s c n) ∙ pool)
          (omega (arith, size, length-snull_header c type daddr saddr payload dlen slen, long)),
    )
