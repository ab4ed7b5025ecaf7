-- ===== src/Snull/Session.antt =====
-- What the kernel does with the interfaces of LinuxDeviceDrivers3Ed/snull/snull.c, one operation after
-- the other.
use leipocode.Base.{
  ℕ, ◌≤◌, ◌≡◌, refl, sym, ap, ◌∙◌, inl, inr, Bool, false, Option, none, some, List, [], ◌∷◌, arith,
  length, Bool-cases, ◌||◌, ◌==◌, ltb,
}
use leipocode.Snull.{
  Side, Packet, Card, Net, card, put, Params, Outcome, done, out_of_rounds, eth_data_len,
}
use leipocode.Snull.Packets.{is_null}
use leipocode.Snull.Receive.{Polled, snull_poll}
use leipocode.Snull.Transmit.{snull_tx, snull_tx_timeout}
use leipocode.Snull.Device.{snull_open, snull_release, snull_config, snull_change_mtu}
use leipocode.Snull.Receiving.{snull_poll-stable, snull_tx_timeout-stable}
use leipocode.Snull.Sending.{snull_tx-stable}
use leipocode.Snull.Stable.{Stable, Ended, Alike, both-Stable}
use leipocode.Snull.Kept.{Kept, Kept-Settling, Kept-Stable, put_lists, pool_head}
use leipocode.Snull.Awake.{Awake, AwakeCard, Awake-Stable, Stocked-Settling, on_card, put_woken}
use leipocode.Snull.Poll.{snull_poll-ends}

-- Calls of the operations of a device.
pub data Event : Type 0 where
  sends : (memory : Side → Bool) (skb : ℕ) (bytes : List ℕ) → Event
  polls : (news : List Bool) (budget : ℕ) → Event
  times_out : (memory : Bool) → Event
  opens closes : Event
  configures : (base_addr irq : ℕ) → Event
  sets_mtu : ℕ → Event

abbrev pub poll_result : Option Polled → Outcome
poll_result none = out_of_rounds
poll_result (some r) = done r.net

unfoldable pub happens : Params → Event → Side → Net → Outcome
unfolding snull_tx snull_poll snull_tx_timeout snull_open snull_release snull_config
    snull_change_mtu
happens m (sends memory skb bytes) s n = snull_tx m memory skb bytes s n
happens m (polls news budget) s n = poll_result (snull_poll news s budget n)
happens m (times_out memory) s n = done (snull_tx_timeout m memory s n)
happens m opens s n = done (put s (snull_open s (card s n)).1 n)
happens m closes s n = done (put s (snull_release (card s n)).1 n)
happens m (configures b i) s n = done (put s (snull_config b i (card s n)).1 n)
happens m (sets_mtu k) s n = done (put s (snull_change_mtu k (card s n)).1 n)

-- The kernel sends when the queue is not stopped, and at most ETH_DATA_LEN bytes; and the queue is not
-- woken by a timeout or started by an open while the pool is empty.
abbrev pub Allowed : Event → Side → Net → Type 0
Allowed (sends memory skb bytes) s n = ((card s n).stopped ≡ false) × (length bytes ≤ eth_data_len)
Allowed (times_out memory) s n = is_null (card s n).ppool ≡ false
Allowed opens s n = is_null (card s n).ppool ≡ false
Allowed (polls news budget) s n = Unit {0}
Allowed closes s n = Unit {0}
Allowed (configures b i) s n = Unit {0}
Allowed (sets_mtu k) s n = Unit {0}

abbrev pub Sound : (total : Side → ℕ) → Net → Type 0
Sound total n = Kept total n × Awake n

some_packet :
    (c : Card)
    → AwakeCard c
    → c.stopped ≡ false
    → (p : Packet) × (ps : List Packet) × (c.ppool ≡ p ∷ ps)
some_packet c a awake = of_pool c.ppool refl
  where
    of_pool :
        (l : List Packet) → c.ppool ≡ l → (p : Packet) × (ps : List Packet) × (c.ppool ≡ p ∷ ps)
    of_pool [] e = elim a [
      | inl t ↦ absurd (cc (sym t ∙ awake))
      | inr f ↦ absurd (cc (sym f ∙ ap is_null e))
    ]
    of_pool (p ∷ ps) e = (p, ps, e)

snull_config-Alike : (b i : ℕ) (c : Card) → Alike (snull_config b i c).1 c
unfolding snull_config
snull_config-Alike b i c = elim (Bool-cases c.running) [
  | inl t ↦ rw t (record { pool = refl; queue = refl; stop = inl refl })
  | inr t ↦ rw t (elim (Bool-cases (b == c.base_addr)) [
    | inl u ↦ rw u (record { pool = refl; queue = refl; stop = inl refl })
    | inr u ↦ rw u (record { pool = refl; queue = refl; stop = inl refl })
  ])
]

snull_change_mtu-Alike : (k : ℕ) (c : Card) → Alike (snull_change_mtu k c).1 c
unfolding snull_change_mtu
snull_change_mtu-Alike k c = elim (Bool-cases (ltb k 68 || ltb 1500 k)) [
  | inl t ↦ rw t (record { pool = refl; queue = refl; stop = inl refl })
  | inr t ↦ rw t (record { pool = refl; queue = refl; stop = inl refl })
]

Sound-Stable : (total : Side → ℕ) → Stable (Sound total)
Sound-Stable total = both-Stable (Kept-Stable total) Awake-Stable

pub happens-Sound :
    (total : Side → ℕ) (m : Params) (e : Event) (s : Side) (n : Net)
    → Sound total n
    → Allowed e s n
    → Ended (Sound total) (happens m e s n)
unfolding happens snull_open snull_release snull_config snull_change_mtu
happens-Sound total m (sends memory skb bytes) s n sound allowed =
    let (p, ps, e) = some_packet (card s n) (on_card s n sound.1) allowed.0 in
    let l = pool_head total s n p ps sound.0 e in
    snull_tx-stable (Sound-Stable total) m memory skb bytes s n p ps sound e
      (omega (arith, allowed.1, l)) (omega (arith, l))
happens-Sound total m (polls news budget) s n sound allowed =
    let (r, e) = snull_poll-ends news s budget n in
    (
      r.net,
      ap poll_result e,
      snull_poll-stable (Sound-Stable total).settling news s budget n r sound e,
    )
happens-Sound total m (times_out memory) s n (kept, awake) allowed =
    let k =
      snull_tx_timeout-stable (Kept-Settling total) (Kept total) s (put_lists total s) m memory n
        kept in
    let w =
      snull_tx_timeout-stable (Stocked-Settling s) Awake s (put_woken s) m memory n
        (awake, allowed) in
    (_, refl, (k, w))
happens-Sound total m opens s n (kept, awake) allowed =
    (_, refl, (put_lists total s n _ kept refl refl, put_woken s n _ (awake, allowed) refl refl))
happens-Sound total m closes s n sound allowed = (
  _,
  refl,
  (Sound-Stable total).settling.put_same s n _ sound
      (record { pool = refl; queue = refl; stop = inr refl }),
)
happens-Sound total m (configures b i) s n sound allowed = (
  _,
  refl,
  (Sound-Stable total).settling.put_same s n _ sound (snull_config-Alike b i (card s n)),
)
happens-Sound total m (sets_mtu k) s n sound allowed = (
  _,
  refl,
  (Sound-Stable total).settling.put_same s n _ sound (snull_change_mtu-Alike k (card s n)),
)
