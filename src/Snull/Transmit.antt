-- ===== src/Snull/Transmit.antt =====
-- The transmission of LinuxDeviceDrivers3Ed/snull/snull.c and its timeout.
use leipocode.Base.{
  ℕ, zero, suc, ◌+◌, ◌-◌, ◌/◌, ◌%◌, Bool, true, false, not, ◌&&◌, Option, none, some, List, [], ◌∷◌,
  ltb, ◌==◌, if◌then◌else◌, length, set, drop, replicate, write_at,
}
use leipocode.Snull.{
  Side, twin, Packet, ◌+64◌, Card, Net, card, put, Params, Outcome, done, null_pointer, overrun,
}
use leipocode.Snull.Packets.{snull_get_tx_buffer, snull_enqueue_buf}
use leipocode.Snull.Receive.{snull_interrupt}

-- `b ^ 1`
abbrev pub flip : ℕ → ℕ
flip b = if b % 2 == 0 then b + 1 else b - 1

abbrev pub byte_at : List ℕ → ℕ → ℕ
byte_at [] i = 0
byte_at (x ∷ xs) zero = x
byte_at (x ∷ xs) (suc i) = byte_at xs i

abbrev pub flip_at : ℕ → List ℕ → List ℕ
flip_at i b = set b i (flip (byte_at b i))

-- The length of an Ethernet header, and with an IP header.
abbrev pub eth_hlen : ℕ
eth_hlen = 14

abbrev pub headers : ℕ
headers = eth_hlen + 20

-- The frame on its way: the third octets of the addresses are changed, and the checksum is made
-- again, which is stored with the lower byte first. (`saddr` begins at octet 12 of the IP header,
-- `daddr` at 16, and `check` at 10.)
abbrev pub rewritten : (ip_fast_csum : List ℕ → ℕ → ℕ) → List ℕ → List ℕ
rewritten ip_fast_csum buf =
    let addressed = flip_at (eth_hlen + 18) (flip_at (eth_hlen + 14) buf) in
    let cleared = write_at (eth_hlen + 10) (0 ∷ 0 ∷ []) addressed in
    let check = ip_fast_csum (drop eth_hlen cleared) (byte_at buf eth_hlen % 16) in
    write_at (eth_hlen + 10) (check % 256 ∷ check / 256 % 256 ∷ []) cleared

-- The receive interrupt of the other device.
abbrev pub notified : Params → (memory : Bool) → Side → Net → Net
notified m memory s n =
    let c = card s n in
    if c.rx_int_enabled
    then snull_interrupt m memory s (put s (record c { rx_intr = true }) n)
    else n

abbrev pub locks_up : Params → Card → Bool
locks_up m c = not (m.lockup == 0) && (((c.stats.tx_packets +64 1) % m.lockup) == 0)

-- The transmission-done interrupt, or a simulated lockup.
abbrev pub tx_ends : Params → (memory : Bool) → (len : ℕ) → Side → Net → Net
tx_ends m memory len s n =
    let c = record (card s n) { tx_packetlen = len; tx_intr = true } in
    if locks_up m c
    then put s (record c { stopped = true }) n
    else snull_interrupt m memory s (put s c n)

-- With the buffer taken from the pool.
abbrev pub sent :
    Params → (memory : Side → Bool) (frame : List ℕ) → Side → Option (Packet × Card) → Net → Outcome
sent m memory frame s none n = null_pointer
sent m memory frame s (some (p, c)) n =
    let full = record p { datalen = length frame; bytes = write_at 0 frame p.bytes } in
    let taken = put s c n in
    let queued = put (twin s) (snull_enqueue_buf full (card (twin s) taken)) taken in
    if ltb (length p.bytes) (length frame)
    then overrun
    else done (tx_ends m (memory s) (length frame) s (notified m (memory (twin s)) (twin s) queued))

-- `memory` says for each device whether `dev_alloc_skb` has memory for a packet that it receives.
unfoldable pub snull_hw_tx : Params → (memory : Side → Bool) (buf : List ℕ) → Side → Net → Outcome
unfolding snull_get_tx_buffer snull_enqueue_buf snull_interrupt
snull_hw_tx m memory buf s n =
    if ltb (length buf) headers
    then done n
    else sent m memory (rewritten m.ip_fast_csum buf) s (snull_get_tx_buffer (card s n)) n

-- A frame of at least ETH_ZLEN bytes.
abbrev pub padded : List ℕ → List ℕ
padded b = if ltb (length b) 60 then write_at 0 b (replicate 60 0) else b

-- The transmission of a socket buffer, given by its number and its data.
unfoldable pub snull_tx :
    Params → (memory : Side → Bool) (skb : ℕ) (bytes : List ℕ) → Side → Net → Outcome
unfolding snull_hw_tx
snull_tx m memory skb bytes s n =
    snull_hw_tx m memory (padded bytes) s (put s (record (card s n) { skb = skb }) n)

unfoldable pub snull_tx_timeout : Params → (memory : Bool) → Side → Net → Net
unfolding snull_interrupt
snull_tx_timeout m memory s n =
    let c = record (card s n) { rx_intr = false; tx_intr = true } in
    let e = snull_interrupt m memory s (put s c n) in
    let d = card s e in
    put s
      (record d { stats = record d.stats { tx_errors = d.stats.tx_errors +64 1 }; stopped = false })
      e
