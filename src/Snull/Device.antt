-- ===== src/Snull/Device.antt =====
-- The configuration and the headers of LinuxDeviceDrivers3Ed/snull/snull.c.
use leipocode.Base.{
  ℕ, ◌+◌, ◌/◌, ◌%◌, true, false, not, ◌||◌, Option, none, some, List, [], ◌∷◌, ◌++◌, ltb, ◌==◌,
  if◌then◌else◌, write_at,
}
use leipocode.Kernel.{Ret, returns, fails, ebusy, einval, eopnotsupp}
use leipocode.Snull.{Side, sn0, sn1, Packet, Stats, Card, Params}
use leipocode.Snull.Packets.{snull_setup_pool, snull_rx_ints}
use leipocode.Snull.Transmit.{flip_at}

-- "\0SNUL0" and "\0SNUL1".
abbrev pub address : Side → List ℕ
address sn0 = 0 ∷ 83 ∷ 78 ∷ 85 ∷ 76 ∷ 48 ∷ []
address sn1 = 0 ∷ 83 ∷ 78 ∷ 85 ∷ 76 ∷ (48 + 1) ∷ []

unfoldable pub snull_open : Side → Card → Ret × Card
snull_open s c = (returns 0, record c { dev_addr = address s; stopped = false })

unfoldable pub snull_release : Card → Ret × Card
snull_release c = (returns 0, record c { stopped = true })

-- `base_addr` and `irq` are those of the `ifmap`.
unfoldable pub snull_config : (base_addr irq : ℕ) → Card → Ret × Card
snull_config base_addr irq c =
    if c.running
    then (fails ebusy, c)
    else if not (base_addr == c.base_addr)
    then (fails eopnotsupp, c)
    else (returns 0, record c { irq = irq })

unfoldable pub snull_ioctl : (cmd : ℕ) → Card → Ret × Card
snull_ioctl cmd c = (returns 0, c)

unfoldable pub snull_stats : Card → Stats
snull_stats c = c.stats

-- (A negative MTU is below 68, too.)
unfoldable pub snull_change_mtu : (new_mtu : ℕ) → Card → Ret × Card
snull_change_mtu new_mtu c =
    if ltb new_mtu 68 || ltb 1500 new_mtu
    then (fails einval, c)
    else (returns 0, record c { mtu = new_mtu })

-- The destination stands first in the header, then the source, then the type; ETH_ALEN is 6.
unfoldable pub snull_rebuild_header : Card → (bytes : List ℕ) → List ℕ
snull_rebuild_header c bytes = flip_at 5 (write_at 0 c.dev_addr (write_at 6 c.dev_addr bytes))

abbrev pub or_else : Option (List ℕ) → List ℕ → List ℕ
or_else none b = b
or_else (some a) b = a

-- The frame with the header; the function returns the length of the header.
unfoldable pub snull_header :
    Card → (type : ℕ) (daddr saddr : Option (List ℕ)) (bytes : List ℕ) → List ℕ
snull_header c type daddr saddr bytes = flip_at 5 (
    or_else daddr c.dev_addr
    ++ or_else saddr c.dev_addr
    ++ (type / 256 % 256 ∷ type % 256 ∷ [])
    ++ bytes)

-- A card as `ether_setup` and the kernel leave it becomes one of the driver.
unfoldable pub snull_init : Params → List (Option Packet) → Side → Card → Card
unfolding snull_setup_pool snull_rx_ints
snull_init m news s c = snull_setup_pool m.pool_size news s (
    snull_rx_ints true (record c {
      stats = record {
        rx_packets = 0;
        rx_bytes = 0;
        rx_dropped = 0;
        tx_packets = 0;
        tx_bytes = 0;
        tx_errors = 0;
      };
      rx_intr = false;
      tx_intr = false;
      ppool = [];
      rx_queue = [];
      tx_packetlen = 0;
      skb = 0;
    }))
