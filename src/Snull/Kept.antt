-- ===== src/Snull/Kept.antt =====
-- The packets of LinuxDeviceDrivers3Ed/snull/snull.c: none is lost, and each goes back to the pool of
-- its own device.
use leipocode.Base.{ℕ, ◌+◌, ◌≡◌, refl, sym, subst, ◌∙◌, List, [], ◌∷◌, length, arith}
use leipocode.Snull.{Side, sn0, sn1, twin, Packet, Card, Net, card, put, eth_data_len}
use leipocode.Snull.Packets.{snull_release_buffer, snull_enqueue_buf, regained}
use leipocode.Snull.Stable.{Settling, Stable, without_buffer}

abbrev pub AllOf : Side → List Packet → Type 0
AllOf s [] = Unit {0}
AllOf s (p ∷ ps) = ((p.dev ≡ s) × (length p.bytes ≡ eth_data_len)) × AllOf s ps

-- The packets of a device are those in its pool and those in the queue of the other device.
pub record Balanced (total : ℕ) (s : Side) (pool queue : List Packet) : Type 0 where
  pub counted : length pool + length queue ≡ total
  pub pooled : AllOf s pool
  pub queued : AllOf s queue

abbrev pub Kept : (total : Side → ℕ) → Net → Type 0
Kept total n =
    Balanced (total sn0) sn0 n.first.ppool n.second.rx_queue
    × Balanced (total sn1) sn1 n.second.ppool n.first.rx_queue

back :
    {k : ℕ} {s : Side} {pool queue : List Packet} (p : Packet)
    → Balanced k s pool (p ∷ queue)
    → Balanced k s (p ∷ pool) queue
back p b = record {
  counted = omega (arith, b.counted);
  pooled = (b.queued.0, b.pooled);
  queued = b.queued.1;
}

out :
    {k : ℕ} {s : Side} {pool queue : List Packet} (p full : Packet)
    → Balanced k s (p ∷ pool) queue
    → full.dev ≡ p.dev
    → length full.bytes ≡ length p.bytes
    → Balanced k s pool (full ∷ queue)
out p full b dev size = record {
  counted = omega (arith, b.counted);
  pooled = b.pooled.1;
  queued = ((dev ∙ b.pooled.0.0, size ∙ b.pooled.0.1), b.queued);
}

module _ (total : Side → ℕ) where
  -- Cards change, and their packets do not.
  pub put_lists :
      (s : Side) (n : Net) (d : Card)
      → Kept total n
      → d.ppool ≡ (card s n).ppool
      → d.rx_queue ≡ (card s n).rx_queue
      → Kept total (put s d n)
  put_lists sn0 n d (a, b) pool queue = (
    subst (λ l. Balanced (total sn0) sn0 l n.second.rx_queue) (sym pool) a,
    subst (λ l. Balanced (total sn1) sn1 n.second.ppool l) (sym queue) b,
  )
  put_lists sn1 n d (a, b) pool queue = (
    subst (λ l. Balanced (total sn0) sn0 n.first.ppool l) (sym queue) a,
    subst (λ l. Balanced (total sn1) sn1 l n.first.rx_queue) (sym pool) b,
  )

  pub pool_head :
      (s : Side) (n : Net) (p : Packet) (ps : List Packet)
      → Kept total n
      → (card s n).ppool ≡ p ∷ ps
      → length p.bytes ≡ eth_data_len
  pool_head sn0 n p ps (a, b) e = (subst (AllOf sn0) e a.pooled).0.1
  pool_head sn1 n p ps (a, b) e = (subst (AllOf sn1) e b.pooled).0.1

  -- The release goes to the other card.
  released_to :
      (s : Side) (n : Net) (p : Packet)
      → p.dev ≡ s
      → snull_release_buffer p n ≡ put s (regained p (card s n)) n
  unfolding snull_release_buffer
  released_to s n p e =
      subst (λ t. put t (regained p (card t n)) n ≡ put s (regained p (card s n)) n) (sym e) refl

  put_back_lem :
      (s : Side) (n : Net) (d : Card) (p : Packet) (q : List Packet)
      → Kept total n
      → (card s n).rx_queue ≡ p ∷ q
      → d.ppool ≡ (card s n).ppool
      → d.rx_queue ≡ q
      → Kept total (snull_release_buffer p (put s d n))
  put_back_lem sn0 n d p q (a, b) here pool queue =
      let b' : Balanced (total sn1) sn1 n.second.ppool (p ∷ q) =
        subst (λ l. Balanced (total sn1) sn1 n.second.ppool l) here b in
      subst (Kept total) (sym (released_to sn1 (put sn0 d n) p b'.queued.0.0)) (
        subst (λ l. Balanced (total sn0) sn0 l n.second.rx_queue) (sym pool) a,
        subst (λ l. Balanced (total sn1) sn1 (p ∷ n.second.ppool) l) (sym queue) (back p b'),
      )
  put_back_lem sn1 n d p q (a, b) here pool queue =
      let a' : Balanced (total sn0) sn0 n.first.ppool (p ∷ q) =
        subst (λ l. Balanced (total sn0) sn0 n.first.ppool l) here a in
      subst (Kept total) (sym (released_to sn0 (put sn1 d n) p a'.queued.0.0)) (
        subst (λ l. Balanced (total sn0) sn0 (p ∷ n.first.ppool) l) (sym queue) (back p a'),
        subst (λ l. Balanced (total sn1) sn1 l n.first.rx_queue) (sym pool) b,
      )

  put_out_lem :
      (s : Side) (n : Net) (p full : Packet) (ps : List Packet)
      → Kept total n
      → (card s n).ppool ≡ p ∷ ps
      → full.dev ≡ p.dev
      → length full.bytes ≡ length p.bytes
      → let taken = put s (without_buffer ps (card s n)) n in
        Kept total (put (twin s) (snull_enqueue_buf full (card (twin s) taken)) taken)
  unfolding snull_enqueue_buf
  put_out_lem sn0 n p full ps (a, b) here dev size =
      (out p full (subst (λ l. Balanced (total sn0) sn0 l n.second.rx_queue) here a) dev size, b)
  put_out_lem sn1 n p full ps (a, b) here dev size =
      (a, out p full (subst (λ l. Balanced (total sn1) sn1 l n.first.rx_queue) here b) dev size)

  pub Kept-Settling : Settling (Kept total)
  Kept-Settling = record {
    put_same = λ s n d kept alike. put_lists s n d kept alike.pool alike.queue;
    put_back = λ s n d p q kept here pool queue stop. put_back_lem s n d p q kept here pool queue;
  }

  pub Kept-Stable : Stable (Kept total)
  Kept-Stable = record { settling = Kept-Settling; put_out = put_out_lem }
