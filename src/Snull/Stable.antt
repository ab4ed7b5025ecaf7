-- ===== src/Snull/Stable.antt =====
-- Predicates on the state that LinuxDeviceDrivers3Ed/snull/snull.c keeps, as they depend on what moves
-- between the pools and the queues.
use leipocode.Base.{◌≡◌, refl, ◌⊎◌, Bool, true, false, List, ◌∷◌, if◌then◌else◌, length}
use leipocode.Snull.{Side, sn0, sn1, twin, Packet, Card, Net, card, put, Outcome, done}
use leipocode.Snull.Packets.{is_null, snull_release_buffer, snull_enqueue_buf}
use leipocode.Snull.Receive.{snull_rx, tx_over}

-- Nothing that the predicates speak of has changed, or the transmit queue has been stopped.
pub record Alike (c d : Card) : Type 0 where
  pub pool : c.ppool ≡ d.ppool
  pub queue : c.rx_queue ≡ d.rx_queue
  pub stop : (c.stopped ≡ d.stopped) ⊎ (c.stopped ≡ true)

-- The card behind `snull_get_tx_buffer`.
abbrev pub without_buffer : List Packet → Card → Card
without_buffer ps c = record c { ppool = ps; stopped = if is_null ps then true else c.stopped }

-- A state is reached, where the predicate holds.
abbrev pub Ended : (P : Net → Type 0) → Outcome → Type 0
Ended P o = (n : Net) × (o ≡ done n) × P n

-- What a predicate has to be kept by, to be kept by interrupts and polls.
pub record Settling (P : Net → Type 0) : Type 0 where
  -- A card changes, and its packets do not.
  pub put_same : (s : Side) (n : Net) (d : Card) → P n → Alike d (card s n) → P (put s d n)
  -- A packet leaves the queue and goes back to its pool.
  pub put_back :
      (s : Side) (n : Net) (d : Card) (p : Packet) (q : List Packet)
      → P n
      → (card s n).rx_queue ≡ p ∷ q
      → d.ppool ≡ (card s n).ppool
      → d.rx_queue ≡ q
      → (d.stopped ≡ (card s n).stopped) ⊎ (d.stopped ≡ true)
      → P (snull_release_buffer p (put s d n))

-- And to be kept by transmissions.
pub record Stable (P : Net → Type 0) : Type 0 where
  pub settling : Settling P
  -- A packet leaves the pool, is filled, and waits in the queue of the other card.
  pub put_out :
      (s : Side) (n : Net) (p full : Packet) (ps : List Packet)
      → P n
      → (card s n).ppool ≡ p ∷ ps
      → full.dev ≡ p.dev
      → length full.bytes ≡ length p.bytes
      → let taken = put s (without_buffer ps (card s n)) n in
        P (put (twin s) (snull_enqueue_buf full (card (twin s) taken)) taken)

pub card-put : (s : Side) (c : Card) (n : Net) → card s (put s c n) ≡ c
card-put sn0 c n = refl
card-put sn1 c n = refl

-- A change of a card that leaves its packets and its transmit queue alone.
pub record Quiet (f : Card → Card) : Type 0 where
  pub pool : (c : Card) → (f c).ppool ≡ c.ppool
  pub queue : (c : Card) → (f c).rx_queue ≡ c.rx_queue
  pub stop : (c : Card) → (f c).stopped ≡ c.stopped

pub same-Quiet : Quiet (λ c. c)
same-Quiet = record { pool = λ c. refl; queue = λ c. refl; stop = λ c. refl }

pub tx_over-Quiet : Quiet tx_over
tx_over-Quiet = record { pool = λ c. refl; queue = λ c. refl; stop = λ c. refl }

pub snull_rx-Quiet : (memory : Bool) (p : Packet) → Quiet (snull_rx memory p)
unfolding snull_rx
snull_rx-Quiet true p = record { pool = λ c. refl; queue = λ c. refl; stop = λ c. refl }
snull_rx-Quiet false p = record { pool = λ c. refl; queue = λ c. refl; stop = λ c. refl }

pub both-Settling : {P Q : Net → Type 0} → Settling P → Settling Q → Settling (λ n. P n × Q n)
both-Settling p q = record {
  put_same = λ s n d (x, y) a. (p.put_same s n d x a, q.put_same s n d y a);
  put_back =
      λ s n d k l (x, y) h e f g. (p.put_back s n d k l x h e f g, q.put_back s n d k l y h e f g);
}

pub both-Stable : {P Q : Net → Type 0} → Stable P → Stable Q → Stable (λ n. P n × Q n)
both-Stable p q = record {
  settling = both-Settling p.settling q.settling;
  put_out = λ s n k f l (x, y) h e g. (p.put_out s n k f l x h e g, q.put_out s n k f l y h e g);
}
