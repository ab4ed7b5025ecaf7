-- ===== src/Snull/Tests.antt =====
-- The interfaces of LinuxDeviceDrivers3Ed/snull/snull.c with pools of one or two packets.
use leipocode.Base.{
  ℕ, ◌≤◌, ◌≡◌, refl, min, true, false, none, some, List, [], ◌∷◌, arith, length, replicate,
  write_at, length-replicate,
}
use leipocode.Kernel.{returns}
use leipocode.Snull.{sn0, sn1, Packet, Stats, Card, Net, card, put, Params, done, overrun}
use leipocode.Snull.Receive.{Polled, snull_poll}
use leipocode.Snull.Transmit.{padded, rewritten, snull_tx}
use leipocode.Snull.Device.{snull_open, snull_header, snull_change_mtu, snull_init, address}
use leipocode.Snull.Packets.{snull_setup_pool, snull_rx_ints}
use leipocode.Snull.Sending.{length-padded}
use leipocode.Snull.Stable.{Ended}
use leipocode.Snull.Session.{sends, opens, happens, Sound}
use leipocode.Snull.SetUp.{Orderly, begins, goes_on, set_up, orderly_never_crashes}
use leipocode.Snull.Deliver.{both, resting, plain, having_sent, having_received, snull_tx-both}
use leipocode.Snull.Poll.{PollOf, snull_poll-PollOf}
use leipocode.Snull.Overrun.{full_frames_overrun}

abbrev napi : Params
napi = record { use_napi = true; lockup = 0; pool_size = 1; ip_fast_csum = λ b l. 4660 }

abbrev fresh : Packet
fresh = record { dev = sn1; datalen = 9; bytes = replicate 1500 90 }

abbrev no_stats : Stats
no_stats = record {
  rx_packets = 0;
  rx_bytes = 0;
  rx_dropped = 0;
  tx_packets = 0;
  tx_bytes = 0;
  tx_errors = 0;
}

-- A card with a quota of four packets.
abbrev blank : Card
blank = record {
  stats = no_stats;
  rx_intr = false;
  tx_intr = false;
  ppool = [];
  rx_queue = [];
  rx_int_enabled = true;
  tx_packetlen = 0;
  skb = 0;
  dev_addr = address sn0;
  stopped = true;
  scheduled = false;
  running = true;
  base_addr = 0;
  irq = 0;
  mtu = 1500;
  quota = 4;
  received = [];
  freed = [];
}

abbrev cards : Net
cards = record { first = blank; second = blank }

abbrev start : Net
start = set_up napi cards (fresh ∷ []) (fresh ∷ [])

abbrev ready : Net
ready = put sn0 (snull_open sn0 (card sn0 start)).1 start

opened : Orderly napi start ready
unfolding happens snull_open snull_init snull_setup_pool snull_rx_ints
opened = goes_on opens sn0 begins refl refl

orderly_never_crashes_example :
    Ended (Sound (λ s. 1)) (happens napi (sends (λ s. true) 7 (replicate 100 3)) sn0 ready)
unfolding snull_open
orderly_never_crashes_example =
    orderly_never_crashes napi cards (fresh ∷ []) (fresh ∷ []) ready
      (sends (λ s. true) 7 (replicate 100 3)) sn0 (omega arith)
      (length-replicate {A = ℕ} 1500 90, tt) (length-replicate {A = ℕ} 1500 90, tt) opened
      (refl, omega (arith, length-replicate {A = ℕ} 100 3))

abbrev frame : List ℕ
frame = rewritten napi.ip_fast_csum (padded (replicate 70 3))

snull_tx-both_example :
    snull_tx
      (plain napi)
      (λ t. true)
      7
      (replicate 70 3)
      sn1
      (both sn1
        (record (resting blank) { ppool = record fresh { dev = sn1 } ∷ [] })
        (resting blank))
    ≡ done (
        both sn1
          (having_sent (length frame) 7 (write_at 0 frame fresh.bytes) sn1 blank fresh [])
          (having_received frame blank))
snull_tx-both_example = snull_tx-both napi 7 (replicate 70 3) sn1 blank blank fresh [] (
    omega (
      arith,
      length-padded (replicate 70 3),
      length-replicate {A = ℕ} 70 3,
      length-replicate {A = ℕ} 1500 90,
    ))

-- Two frames wait, and one may be taken.
abbrev waiting : Net
waiting = record cards {
  second = record blank {
    rx_queue =
        record { dev = sn0; datalen = 2; bytes = 1 ∷ 2 ∷ 3 ∷ [] }
        ∷ record { dev = sn0; datalen = 1; bytes = 4 ∷ 5 ∷ 6 ∷ [] }
        ∷ [];
  };
}

snull_poll-PollOf_example :
    (r : Polled) × (snull_poll (replicate 3 true) sn1 1 waiting ≡ some r)
    × PollOf (min (min 4 1) 2) sn1 1 waiting r
snull_poll-PollOf_example = snull_poll-PollOf sn1 1 waiting

-- A frame was sent, and its interrupt was lost.
abbrev locked : Net
locked = record cards { first = record blank { tx_intr = true; rx_intr = true; skb = 7 } }

abbrev stocked : Net
stocked = record cards { first = record blank { ppool = fresh ∷ [] } }

full_frames_overrun_example :
    ((snull_change_mtu 1500 (card sn0 stocked)).0 ≡ returns 0)
    × (length (replicate {A = ℕ} 1500 3) ≤ (snull_change_mtu 1500 (card sn0 stocked)).1.mtu)
    × (snull_tx napi
          (λ t. true)
          7
          (snull_header
            (snull_change_mtu 1500 (card sn0 stocked)).1
            2048
            none
            none
            (replicate 1500 3))
          sn0
          (put sn0 (snull_change_mtu 1500 (card sn0 stocked)).1 stocked)
        ≡ overrun)
unfolding snull_change_mtu
full_frames_overrun_example =
    full_frames_overrun napi (λ t. true) 7 2048 none none (replicate 1500 3) sn0 stocked fresh []
      refl (length-replicate {A = ℕ} 1500 90) refl refl
      (omega (arith, length-replicate {A = ℕ} 1500 3))
      (omega (arith, length-replicate {A = ℕ} 1500 3))
