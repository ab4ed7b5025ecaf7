-- ===== src/Snull.antt =====
-- LinuxDeviceDrivers3Ed/snull/snull.c: two network interfaces, each of which hands the frames that it
-- transmits to the other. An operation is a function on the state of both.
pub mod Packets
pub mod Receive
pub mod Transmit
pub mod Device
pub mod Stable
pub mod Receiving
pub mod Sending
pub mod Kept
pub mod Awake
pub mod Session
pub mod SetUp
pub mod Poll
pub mod Deliver
pub mod Timeout
pub mod Overrun
mod Tests
use leipocode.Base.{ℕ, ◌+◌, ◌%◌, ◌^◌, Bool, List}

-- `snull_devs[0]` and `snull_devs[1]`.
pub data Side : Type 0 where
  sn0 sn1 : Side

abbrev pub twin : Side → Side
twin sn0 = sn1
twin sn1 = sn0

-- `struct snull_packet`; `bytes` are the ETH_DATA_LEN bytes. A packet stands in one list at a time, and
-- the lists are the pointers `next`.
pub record Packet : Type 0 where
  pub dev : Side
  pub datalen : ℕ
  pub bytes : List ℕ

abbrev pub eth_data_len : ℕ
eth_data_len = 1500

-- The counters of `struct net_device_stats` that are used; `unsigned long`, here of 64 bits.
pub record Stats : Type 0 where
  pub rx_packets : ℕ
  pub rx_bytes : ℕ
  pub rx_dropped : ℕ
  pub tx_packets : ℕ
  pub tx_bytes : ℕ
  pub tx_errors : ℕ

abbrev pub ◌+64◌ : ℕ → ℕ → ℕ
a +64 b = (a + b) % 2 ^ 64

infixl 65 ◌+64◌
-- `struct snull_priv` and the part of `struct net_device` that is used. `rx_intr` and `tx_intr` are
-- the bits SNULL_RX_INTR and SNULL_TX_INTR of `status`; a `skb` is the number of a socket buffer, and
-- 0 is NULL. `stopped` is the state of the transmit queue, and `scheduled` says that the interface is
-- to be polled. `received` are the frames passed to the upper levels and `freed` the socket buffers
-- that were freed, the latest first.
pub record Card : Type 0 where
  pub stats : Stats
  pub rx_intr : Bool
  pub tx_intr : Bool
  pub ppool : List Packet
  pub rx_queue : List Packet
  pub rx_int_enabled : Bool
  pub tx_packetlen : ℕ
  pub skb : ℕ
  pub dev_addr : List ℕ
  pub stopped : Bool
  pub scheduled : Bool
  pub running : Bool
  pub base_addr : ℕ
  pub irq : ℕ
  pub mtu : ℕ
  pub quota : ℕ
  pub received : List (List ℕ)
  pub freed : List ℕ

pub record Net : Type 0 where
  pub first : Card
  pub second : Card

abbrev pub card : Side → Net → Card
card sn0 n = n.first
card sn1 n = n.second

abbrev pub put : Side → Card → Net → Net
put sn0 c n = record n { first = c }
put sn1 c n = record n { second = c }

-- The module's parameters, and the checksum of the kernel: `ip_fast_csum (iph, ihl)` reads the bytes
-- from the header on.
pub record Params : Type 0 where
  pub use_napi : Bool
  pub lockup : ℕ
  pub pool_size : ℕ
  pub ip_fast_csum : List ℕ → ℕ → ℕ

-- How an operation ends: with a state; by following NULL; by touching memory behind a packet; or not
-- within the rounds of its loop.
pub data Outcome : Type 0 where
  done : Net → Outcome
  null_pointer overrun out_of_rounds : Outcome
