-- ===== src/Snull/Receive.antt =====
-- The reception and the interrupt handlers of LinuxDeviceDrivers3Ed/snull/snull.c.
use leipocode.Base.{
  ℕ, zero, suc, ◌+◌, ◌-◌, min, Bool, true, false, not, ◌&&◌, Option, none, some, List, [], ◌∷◌, ltb,
  if◌then◌else◌, take, length,
}
use leipocode.Snull.{Side, Packet, ◌+64◌, Card, Net, card, put, Params}
use leipocode.Snull.Packets.{is_null, snull_release_buffer, snull_dequeue_buf, snull_rx_ints}

-- `memory` says whether `dev_alloc_skb` has memory. The frame is passed on.
unfoldable pub snull_rx : (memory : Bool) → Packet → Card → Card
snull_rx memory p c =
    if memory
    then record c {
      stats = record c.stats {
        rx_packets = c.stats.rx_packets +64 1;
        rx_bytes = c.stats.rx_bytes +64 p.datalen;
      };
      received = take p.datalen p.bytes ∷ c.received;
    }
    else record c { stats = record c.stats { rx_dropped = c.stats.rx_dropped +64 1 } }

-- What follows when a transmission is over.
abbrev pub tx_over : Card → Card
tx_over c = record c {
  stats = record c.stats {
    tx_packets = c.stats.tx_packets +64 1;
    tx_bytes = c.stats.tx_bytes +64 c.tx_packetlen;
  };
  freed = c.skb ∷ c.freed;
}

abbrev pub status_read : Card → Card
status_read c = record c { rx_intr = false; tx_intr = false }

abbrev pub received_by : (memory : Bool) → Option Packet × Card → Option Packet × Card
received_by memory (none, c) = (none, c)
received_by memory (some p, c) = (some p, snull_rx memory p c)

abbrev pub released : Option Packet → Net → Net
released none n = n
released (some p) n = snull_release_buffer p n

unfoldable pub snull_regular_interrupt : (memory : Bool) → Side → Net → Net
unfolding snull_dequeue_buf snull_rx snull_release_buffer
snull_regular_interrupt memory s n =
    let c = card s n in
    let (p, d) =
      if c.rx_intr
      then received_by memory (snull_dequeue_buf (status_read c))
      else (none, status_read c) in
    released p (put s (if c.tx_intr then tx_over d else d) n)

unfoldable pub snull_napi_interrupt : Side → Net → Net
unfolding snull_rx_ints
snull_napi_interrupt s n =
    let c = card s n in
    let d =
      if c.rx_intr
      then record (snull_rx_ints false (status_read c)) { scheduled = true }
      else status_read c in
    put s (if c.tx_intr then tx_over d else d) n

-- The handler that the module chose.
unfoldable pub snull_interrupt : Params → (memory : Bool) → Side → Net → Net
unfolding snull_regular_interrupt snull_napi_interrupt
snull_interrupt m memory s n =
    if m.use_napi then snull_napi_interrupt s n else snull_regular_interrupt memory s n

abbrev pub has_memory : List Bool → Bool
has_memory [] = false
has_memory (b ∷ bs) = b

abbrev pub later : List Bool → List Bool
later [] = []
later (b ∷ bs) = bs

-- One round for the packet taken off the queue.
abbrev pub polled : (memory : Bool) → Side → Option Packet × Card → Net → Net
polled memory s r n = let (p, c) = received_by memory r in released p (put s c n)

-- The loop, with a number of rounds; `news` are the answers of `dev_alloc_skb`. How many frames were
-- passed on, and the state; `none` when the rounds are used up.
unfoldable pub poll_loop :
    (rounds quota npackets : ℕ) (news : List Bool) → Side → Net → Option (ℕ × Net)
unfolding snull_dequeue_buf snull_rx snull_release_buffer
poll_loop zero quota npackets news s n = none
poll_loop (suc k) quota npackets news s n =
    let more = if has_memory news then npackets + 1 else npackets in
    let next = polled (has_memory news) s (snull_dequeue_buf (card s n)) n in
    let rest = poll_loop k quota more (later news) s next in
    if ltb npackets quota && not (is_null (card s n).rx_queue) then rest else some (npackets, n)

-- What the poll returns (1 is `true`), `*budget`, and the state.
pub record Polled : Type 0 where
  pub again : Bool
  pub budget : ℕ
  pub net : Net

abbrev pub poll_end : Side → (budget : ℕ) → ℕ × Net → Polled
poll_end s budget (npackets, n) =
    let c = record (card s n) { quota = (card s n).quota - npackets } in
    if is_null c.rx_queue
    then record {
      again = false;
      budget = budget - npackets;
      net = put s (snull_rx_ints true (record c { scheduled = false })) n;
    }
    else record { again = true; budget = budget - npackets; net = put s c n }

abbrev pub poll_ends : Side → (budget : ℕ) → Option (ℕ × Net) → Option Polled
poll_ends s budget none = none
poll_ends s budget (some r) = some (poll_end s budget r)

-- One round more than the queue has packets.
unfoldable pub snull_poll : (news : List Bool) → Side → (budget : ℕ) → Net → Option Polled
unfolding poll_loop snull_rx_ints
snull_poll news s budget n =
    let c = card s n in
    poll_ends s budget (poll_loop (suc (length c.rx_queue)) (min c.quota budget) 0 news s n)
