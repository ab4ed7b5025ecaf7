-- ===== src/Snull/Awake.antt =====
-- The transmit queues of LinuxDeviceDrivers3Ed/snull/snull.c: a queue whose pool is empty is stopped.
use leipocode.Base.{◌≡◌, refl, ◌∙◌, ap, ◌⊎◌, inl, inr, true, false, List, [], ◌∷◌}
use leipocode.Snull.{Side, sn0, sn1, twin, Packet, Card, Net, card, put}
use leipocode.Snull.Packets.{is_null, snull_release_buffer, snull_enqueue_buf, regained}
use leipocode.Snull.Stable.{Settling, Stable, without_buffer}

abbrev pub AwakeCard : Card → Type 0
AwakeCard c = (c.stopped ≡ true) ⊎ (is_null c.ppool ≡ false)

abbrev pub Awake : Net → Type 0
Awake n = AwakeCard n.first × AwakeCard n.second

put_card : (s : Side) (n : Net) (d : Card) → Awake n → AwakeCard d → Awake (put s d n)
put_card sn0 n d (a, b) e = (e, b)
put_card sn1 n d (a, b) e = (a, e)

pub on_card : (s : Side) (n : Net) → Awake n → AwakeCard (card s n)
on_card sn0 n (a, b) = a
on_card sn1 n (a, b) = b

alike_card :
    (c d : Card)
    → AwakeCard c
    → d.ppool ≡ c.ppool
    → (d.stopped ≡ c.stopped) ⊎ (d.stopped ≡ true)
    → AwakeCard d
alike_card c d (inl t) pool (inl s) = inl (s ∙ t)
alike_card c d (inr f) pool s = inr (ap is_null pool ∙ f)
alike_card c d a pool (inr t) = inl t

without_buffer-awake : (ps : List Packet) (c : Card) → AwakeCard (without_buffer ps c)
without_buffer-awake [] c = inl refl
without_buffer-awake (p ∷ ps) c = inr refl

put_back_lem : (p : Packet) (n : Net) → Awake n → Awake (snull_release_buffer p n)
unfolding snull_release_buffer
put_back_lem p n a = put_card p.dev n (regained p (card p.dev n)) a (inr refl)

pub Awake-Settling : Settling Awake
Awake-Settling = record {
  put_same = λ s n d a alike.
      put_card s n d a (alike_card (card s n) d (on_card s n a) alike.pool alike.stop);
  put_back = λ s n d p q a here pool queue stop.
      put_back_lem p (put s d n)
        (put_card s n d a (alike_card (card s n) d (on_card s n a) pool stop));
}

put_out_lem :
    (s : Side) (n : Net) (full : Packet) (ps : List Packet)
    → Awake n
    → let taken = put s (without_buffer ps (card s n)) n in
      Awake (put (twin s) (snull_enqueue_buf full (card (twin s) taken)) taken)
unfolding snull_enqueue_buf
put_out_lem sn0 n full ps (a, b) = (without_buffer-awake ps n.first, b)
put_out_lem sn1 n full ps (a, b) = (a, without_buffer-awake ps n.second)

pub Awake-Stable : Stable Awake
Awake-Stable = record {
  settling = Awake-Settling;
  put_out = λ s n p full ps a here dev size. put_out_lem s n full ps a;
}

-- A pool that has packets keeps one in interrupts.
abbrev pub Stocked : Side → Net → Type 0
Stocked s n = Awake n × (is_null (card s n).ppool ≡ false)

stocked-put :
    (s t : Side) (n : Net) (d : Card)
    → is_null (card s n).ppool ≡ false
    → is_null d.ppool ≡ false ⊎ (d.ppool ≡ (card t n).ppool)
    → is_null (card s (put t d n)).ppool ≡ false
stocked-put sn0 sn0 n d e (inl f) = f
stocked-put sn0 sn0 n d e (inr f) = ap is_null f ∙ e
stocked-put sn0 sn1 n d e f = e
stocked-put sn1 sn1 n d e (inl f) = f
stocked-put sn1 sn1 n d e (inr f) = ap is_null f ∙ e
stocked-put sn1 sn0 n d e f = e

stocked-release :
    (s : Side) (p : Packet) (n : Net)
    → is_null (card s n).ppool ≡ false
    → is_null (card s (snull_release_buffer p n)).ppool ≡ false
unfolding snull_release_buffer
stocked-release s p n e = stocked-put s p.dev n (regained p (card p.dev n)) e (inl refl)

pub Stocked-Settling : (s : Side) → Settling (Stocked s)
Stocked-Settling s = record {
  put_same = λ t n d (a, e) alike.
      (Awake-Settling.put_same t n d a alike, stocked-put s t n d e (inr alike.pool));
  put_back = λ t n d p q (a, e) here pool queue stop. (
    Awake-Settling.put_back t n d p q a here pool queue stop,
    stocked-release s p (put t d n) (stocked-put s t n d e (inr pool)),
  );
}

-- Then the queue may be woken.
pub put_woken :
    (s : Side) (n : Net) (d : Card)
    → Stocked s n
    → d.ppool ≡ (card s n).ppool
    → d.rx_queue ≡ (card s n).rx_queue
    → Awake (put s d n)
put_woken s n d (a, e) pool queue = put_card s n d a (inr (ap is_null pool ∙ e))
