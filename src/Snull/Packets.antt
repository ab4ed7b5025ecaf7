-- ===== src/Snull/Packets.antt =====
-- The pool and the queue of packets of LinuxDeviceDrivers3Ed/snull/snull.c.
use leipocode.Base.{
  ℕ, zero, suc, Bool, true, false, ◌&&◌, Option, none, some, List, [], ◌∷◌, if◌then◌else◌,
}
use leipocode.Snull.{Side, Packet, Card, Net, card, put}

abbrev pub is_null : List Packet → Bool
is_null [] = true
is_null (p ∷ ps) = false

-- The loop; `news` are the answers of `kmalloc`, with whatever the memory holds.
abbrev pub fill_pool : ℕ → List (Option Packet) → Side → List Packet → List Packet
fill_pool zero news s pool = pool
fill_pool (suc n) [] s pool = pool
fill_pool (suc n) (none ∷ news) s pool = pool
fill_pool (suc n) (some p ∷ news) s pool = fill_pool n news s (record p { dev = s } ∷ pool)

unfoldable pub snull_setup_pool : (pool_size : ℕ) → List (Option Packet) → Side → Card → Card
snull_setup_pool n news s c = record c { ppool = fill_pool n news s [] }

-- The packets of the pool are freed, from the first on.
abbrev pub drain : List Packet → List Packet
drain [] = []
drain (p ∷ ps) = drain ps

unfoldable pub snull_teardown_pool : Card → Card
snull_teardown_pool c = record c { ppool = drain c.ppool }

-- Of a pool; `none` when the pool is empty, whose first packet is read all the same.
abbrev pub first_of : List Packet → Card → Option (Packet × Card)
first_of [] c = none
first_of (p ∷ ps) c =
    some (p, record c { ppool = ps; stopped = if is_null ps then true else c.stopped })

unfoldable pub snull_get_tx_buffer : Card → Option (Packet × Card)
snull_get_tx_buffer c = first_of c.ppool c

-- The packet on the pool of its own device.
abbrev pub regained : Packet → Card → Card
regained p c = record c {
  ppool = p ∷ c.ppool;
  stopped = if c.stopped && is_null c.ppool then false else c.stopped;
}

unfoldable pub snull_release_buffer : Packet → Net → Net
snull_release_buffer p n = put p.dev (regained p (card p.dev n)) n

unfoldable pub snull_enqueue_buf : Packet → Card → Card
snull_enqueue_buf p c = record c { rx_queue = p ∷ c.rx_queue }

abbrev pub head_of : List Packet → Card → Option Packet × Card
head_of [] c = (none, c)
head_of (p ∷ ps) c = (some p, record c { rx_queue = ps })

unfoldable pub snull_dequeue_buf : Card → Option Packet × Card
snull_dequeue_buf c = head_of c.rx_queue c

unfoldable pub snull_rx_ints : (enable : Bool) → Card → Card
snull_rx_ints e c = record c { rx_int_enabled = e }
