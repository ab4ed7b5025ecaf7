-- ===== src/Snull/Poll.antt =====
-- The poll of LinuxDeviceDrivers3Ed/snull/snull.c: its loop ends, and what it passes on.
use leipocode.Base.{
  ℕ, zero, suc, ◌+◌, ◌-◌, ◌<◌, ◌≡◌, refl, sym, subst, ap, ap₂, ◌∙◌, inl, inr, min, Bool, true,
  false, not, ◌&&◌, some, List, [], ◌∷◌, arith, ltb, lt→ltb, le→ltb, length, take, drop, replicate,
  Bool-cases,
}
use leipocode.Snull.{Side, sn0, sn1, Packet, Card, Net, card, put}
use leipocode.Snull.Packets.{
  is_null, head_of, snull_release_buffer, snull_dequeue_buf, regained, snull_rx_ints,
}
use leipocode.Snull.Receive.{
  snull_rx, has_memory, later, polled, poll_loop, Polled, poll_end, poll_ends, snull_poll,
}
use leipocode.Snull.Stable.{card-put}

abbrev pub tail : List Packet → List Packet
tail [] = []
tail (p ∷ ps) = ps

-- A change of a side that leaves the queues alone.
release-queue :
    (s : Side) (p : Packet) (n : Net)
    → (card s (snull_release_buffer p n)).rx_queue ≡ (card s n).rx_queue
unfolding snull_release_buffer
release-queue s p n = on s p.dev
  where
    on : (s t : Side) → (card s (put t (regained p (card t n)) n)).rx_queue ≡ (card s n).rx_queue
    on sn0 sn0 = refl
    on sn0 sn1 = refl
    on sn1 sn0 = refl
    on sn1 sn1 = refl

release-received :
    (s : Side) (p : Packet) (n : Net)
    → (card s (snull_release_buffer p n)).received ≡ (card s n).received
unfolding snull_release_buffer
release-received s p n = on s p.dev
  where
    on : (s t : Side) → (card s (put t (regained p (card t n)) n)).received ≡ (card s n).received
    on sn0 sn0 = refl
    on sn0 sn1 = refl
    on sn1 sn0 = refl
    on sn1 sn1 = refl

snull_rx-queue : (b : Bool) (p : Packet) (c : Card) → (snull_rx b p c).rx_queue ≡ c.rx_queue
unfolding snull_rx
snull_rx-queue true p c = refl
snull_rx-queue false p c = refl

-- A round takes the head of the queue.
polled-queue :
    (b : Bool) (s : Side) (n : Net)
    → (card s (polled b s (snull_dequeue_buf (card s n)) n)).rx_queue ≡ tail (card s n).rx_queue
unfolding snull_dequeue_buf
polled-queue b s n = of_head (card s n).rx_queue refl
  where
    of_head :
        (q : List Packet)
        → q ≡ (card s n).rx_queue
        → (card s (polled b s (head_of q (card s n)) n)).rx_queue ≡ tail q
    of_head [] e = ap (λ (c : Card). c.rx_queue) (card-put s (card s n) n) ∙ sym e
    of_head (p ∷ q) e =
        let c = record (card s n) { rx_queue = q } in
        release-queue s p (put s (snull_rx b p c) n)
        ∙ ap (λ (c : Card). c.rx_queue) (card-put s (snull_rx b p c) n)
        ∙ snull_rx-queue b p c

polled-received :
    (s : Side) (n : Net) (p : Packet) (q : List Packet)
    → (card s n).rx_queue ≡ p ∷ q
    → (card s (polled true s (snull_dequeue_buf (card s n)) n)).received
      ≡ take p.datalen p.bytes ∷ (card s n).received
unfolding snull_dequeue_buf snull_rx
polled-received s n p q e =
    let by_head = λ (l : List Packet).
      (card s (polled true s (head_of l (card s n)) n)).received
      ≡ take p.datalen p.bytes ∷ (card s n).received in
    let c = snull_rx true p (record (card s n) { rx_queue = q }) in
    subst by_head (sym e)
      (release-received s p (put s c n) ∙ ap (λ (c : Card). c.received) (card-put s c n))

not_null :
    (i quota : ℕ) (l : List Packet) → (ltb i quota && not (is_null l)) ≡ true → is_null l ≡ false
not_null i quota [] e = elim (Bool-cases (ltb i quota)) [
  | inl t ↦ absurd (cc (sym e ∙ ap (λ b. b && false) t))
  | inr t ↦ absurd (cc (sym e ∙ ap (λ b. b && false) t))
]
not_null i quota (p ∷ l) e = refl

length-tail : (l : List Packet) (k : ℕ) → is_null l ≡ false → length l < suc k → length (tail l) < k
length-tail [] k e h = absurd (cc e)
length-tail (p ∷ l) k e h = omega (arith, h)

-- More rounds than packets are enough.
poll_loop-ends :
    (k quota i : ℕ) (news : List Bool) (s : Side) (n : Net)
    → length (card s n).rx_queue < k
    → (r : ℕ × Net) × (poll_loop k quota i news s n ≡ some r)
unfolding poll_loop
poll_loop-ends zero quota i news s n h = absurd (omega arith)
poll_loop-ends (suc k) quota i news s n h =
    let next = polled (has_memory news) s (snull_dequeue_buf (card s n)) n in
    elim (Bool-cases (ltb i quota && not (is_null (card s n).rx_queue))) [
      | inl t ↦
          let more : is_null (card s n).rx_queue ≡ false = not_null i quota (card s n).rx_queue t in
          let fewer : length (card s next).rx_queue < k =
            subst (λ l. length l < k) (sym (polled-queue (has_memory news) s n))
              (length-tail (card s n).rx_queue k more h) in
          rw t (poll_loop-ends k quota _ (later news) s next fewer)
      | inr t ↦ rw t ((i, n), refl)
    ]

-- `snull_poll` always ends, whatever memory there is.
pub snull_poll-ends :
    (news : List Bool) (s : Side) (budget : ℕ) (n : Net)
    → (r : Polled) × (snull_poll news s budget n ≡ some r)
unfolding snull_poll
snull_poll-ends news s budget n =
    let c = card s n in
    let (r, e) =
      poll_loop-ends (suc (length c.rx_queue)) (min c.quota budget) 0 news s n (omega arith) in
    (poll_end s budget r, ap (poll_ends s budget) e)

-- The frames of packets that are passed on one after the other, before what was passed on.
abbrev pub passed_on : List Packet → List (List ℕ) → List (List ℕ)
passed_on [] l = l
passed_on (p ∷ ps) l = passed_on ps (take p.datalen p.bytes ∷ l)

queue_empty : (b : Bool) (l : List Packet) → l ≡ [] → (b && not (is_null l)) ≡ false
queue_empty true l e = ap (λ l. not (is_null l)) e
queue_empty false l e = refl

-- The first `j` packets of the queue are passed on.
pub record Passed (j : ℕ) (s : Side) (n n' : Net) : Type 0 where
  pub queue : (card s n').rx_queue ≡ drop j (card s n).rx_queue
  pub received : (card s n').received ≡ passed_on (take j (card s n).rx_queue) (card s n).received

Passed-none : (s : Side) (n : Net) (j : ℕ) → j ≡ 0 → Passed j s n n
Passed-none s n j e = subst (λ j. Passed j s n n) (sym e) (record { queue = refl; received = refl })

poll_loop-passes :
    (k quota i : ℕ) (s : Side) (n : Net) (q : List Packet)
    → (card s n).rx_queue ≡ q
    → length q < k
    → (r : Net) × (poll_loop k quota i (replicate k true) s n
        ≡ some (i + min (quota - i) (length q), r))
      × Passed (min (quota - i) (length q)) s n r
unfolding poll_loop
poll_loop-passes zero quota i s n q e h = absurd (omega arith)
poll_loop-passes (suc k) quota i s n [] e h =
    let zero_left : min (quota - i) 0 ≡ 0 = omega arith in
    rw (queue_empty (ltb i quota) (card s n).rx_queue e)
      (n, ap (λ j. some (j, n)) (omega arith), Passed-none s n _ zero_left)
poll_loop-passes (suc k) quota i s n (p ∷ q) e h =
    let next = polled true s (snull_dequeue_buf (card s n)) n in
    let queue : (card s next).rx_queue ≡ q = polled-queue true s n ∙ ap tail e in
    let j = min (quota - i) (suc (length q)) in
    elim (Bool-cases (ltb i quota)) [
      | inl t ↦
          let (r, run, passed) =
            poll_loop-passes k quota (i + 1) s next q queue (omega (arith, h)) in
          let j' = min (quota - (i + 1)) (length q) in
          let one_more : j ≡ suc j' = ground (arith, t) in
          let on : (ltb i quota && not (is_null (card s n).rx_queue)) ≡ true =
            ap₂ (λ b l. b && not (is_null l)) t e in
          let passes : Passed j s n r =
            subst (λ j. Passed j s n r) (sym one_more)
              (record {
                queue = passed.queue ∙ ap (drop j') queue ∙ ap (drop (suc j')) (sym e);
                received =
                    passed.received
                    ∙ ap₂ (λ l m. passed_on (take j' l) m) queue (polled-received s n p q e)
                    ∙ ap (λ l. passed_on (take (suc j') l) (card s n).received) (sym e);
              }) in
          rw on (r, run ∙ ap (λ j. some (j, r)) (omega (arith, one_more)), passes)
      | inr t ↦
          let zero_left : j ≡ 0 = ground (arith, t) in
          rw t (n, ap (λ j. some (j, n)) (omega (arith, zero_left)), Passed-none s n _ zero_left)
    ]

null_after : (j : ℕ) (q : List Packet) → is_null (drop j q) ≡ not (ltb j (length q))
null_after zero [] = refl
null_after zero (p ∷ q) = ap not (sym (lt→ltb 0 (suc (length q)) (omega arith)))
null_after (suc j) [] = ap not (sym (le→ltb (suc j) 0 (omega arith)))
null_after (suc j) (p ∷ q) = null_after j q ∙ ground arith

-- What a poll with budget for `j` packets comes to.
pub record PollOf (j : ℕ) (s : Side) (given : ℕ) (n : Net) (r : Polled) : Type 0 where
  pub again : r.again ≡ ltb j (length (card s n).rx_queue)
  pub budget : r.budget ≡ given - j
  pub passed : Passed j s n r.net

poll_end-PollOf :
    (j : ℕ) (s : Side) (budget : ℕ) (n n' : Net)
    → Passed j s n n'
    → PollOf j s budget n (poll_end s budget (j, n'))
unfolding snull_rx_ints
poll_end-PollOf j s budget n n' passed =
    let q = (card s n).rx_queue in
    let left : is_null (card s n').rx_queue ≡ not (ltb j (length q)) =
      ap is_null passed.queue ∙ null_after j q in
    elim (Bool-cases (ltb j (length q))) [
      | inl t ↦
          rw (left ∙ ap not t)
            (record { again = sym t; budget = refl; passed = kept s _ n' refl refl passed })
      | inr t ↦
          rw (left ∙ ap not t)
            (record { again = sym t; budget = refl; passed = kept s _ n' refl refl passed })
    ]
  where
    kept :
        (s : Side) (c : Card) (n' : Net)
        → c.rx_queue ≡ (card s n').rx_queue
        → c.received ≡ (card s n').received
        → Passed j s n n'
        → Passed j s n (put s c n')
    kept s c n' a b passed = record {
      queue = ap (λ (d : Card). d.rx_queue) (card-put s c n') ∙ a ∙ passed.queue;
      received = ap (λ (d : Card). d.received) (card-put s c n') ∙ b ∙ passed.received;
    }

-- `snull_poll` with memory for every packet: it takes as many packets off the queue as it has, but no
-- more than the quota and the budget allow; it passes their frames on in the order of the queue and
-- takes their number off the budget; and it returns 1 just when packets are left.
pub snull_poll-PollOf :
    (s : Side) (budget : ℕ) (n : Net)
    → let q = (card s n).rx_queue in
      (r : Polled) × (snull_poll (replicate (suc (length q)) true) s budget n ≡ some r)
      × PollOf (min (min (card s n).quota budget) (length q)) s budget n r
unfolding snull_poll
snull_poll-PollOf s budget n =
    let c = card s n in
    let k = length c.rx_queue in
    let (r, run, passed) =
      poll_loop-passes (suc k) (min c.quota budget) 0 s n c.rx_queue refl (omega arith) in
    let j = min (min c.quota budget) k in
    let all_of : min (min c.quota budget - 0) k ≡ j = omega arith in
    (
      poll_end s budget (j, r),
      ap (poll_ends s budget) (run ∙ ap (λ i. some (i, r)) (omega arith)),
      poll_end-PollOf j s budget n r (subst (λ i. Passed i s n r) all_of passed),
    )
