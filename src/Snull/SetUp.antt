-- ===== src/Snull/SetUp.antt =====
-- The interfaces of LinuxDeviceDrivers3Ed/snull/snull.c from their set-up on.
use leipocode.Base.{
  ℕ, zero, suc, ◌+◌, ◌<◌, ◌≡◌, refl, sym, subst, ap, ◌∙◌, inr, false, Option, some, List, [], ◌∷◌,
  arith, length,
}
use leipocode.Snull.{
  Side, sn0, sn1, Packet, Net, Params, Outcome, done, null_pointer, overrun, out_of_rounds,
  eth_data_len,
}
use leipocode.Snull.Packets.{is_null, fill_pool, snull_setup_pool, snull_rx_ints}
use leipocode.Snull.Device.{snull_init}
use leipocode.Snull.Stable.{Ended}
use leipocode.Snull.Kept.{AllOf}
use leipocode.Snull.Session.{Event, happens, Allowed, Sound, happens-Sound}

-- States that allowed operations lead to.
pub data Orderly (m : Params) (start : Net) : Net → Type 0 where
  begins : Orderly m start start
  goes_on :
      {n n' : Net} (e : Event) (s : Side)
      → Orderly m start n
      → Allowed e s n
      → happens m e s n ≡ done n'
      → Orderly m start n'

done-injective : {n n' : Net} → done n ≡ done n' → n ≡ n'
done-injective {n} e = ap (λ o. state o) e
  where
    state : Outcome → Net
    state (done k) = k
    state null_pointer = n
    state overrun = n
    state out_of_rounds = n

Orderly-Sound :
    (total : Side → ℕ) (m : Params) (n n' : Net) → Sound total n → Orderly m n n' → Sound total n'
Orderly-Sound total m n n' sound begins = sound
Orderly-Sound total m n n' sound (goes_on e s o allowed run) =
    let (n'', run', sound') =
      happens-Sound total m e s _ (Orderly-Sound total m n _ sound o) allowed in
    subst (Sound total) (done-injective (sym run' ∙ run)) sound'

abbrev pub all_some : List Packet → List (Option Packet)
all_some [] = []
all_some (p ∷ ps) = some p ∷ all_some ps

-- The interfaces as `snull_init` sets them up, where `kmalloc` gives a packet for every place of the
-- pools.
abbrev pub set_up : Params → (cards : Net) (news0 news1 : List Packet) → Net
set_up m n news0 news1 = record {
  first = snull_init m (all_some news0) sn0 n.first;
  second = snull_init m (all_some news1) sn1 n.second;
}

-- So many packets, with room for ETH_DATA_LEN bytes.
abbrev pub AllSized : ℕ → List Packet → Type 0
AllSized zero [] = Unit {0}
AllSized zero (p ∷ ps) = ⊥
AllSized (suc k) [] = ⊥
AllSized (suc k) (p ∷ ps) = (length p.bytes ≡ eth_data_len) × AllSized k ps

filled_lem :
    (k : ℕ) (news : List Packet) (s : Side) (pool : List Packet)
    → AllSized k news
    → AllOf s pool
    → (length (fill_pool k (all_some news) s pool) ≡ k + length pool)
      × AllOf s (fill_pool k (all_some news) s pool)
filled_lem zero [] s pool sized a = (omega arith, a)
filled_lem zero (p ∷ ps) s pool sized a = absurd sized
filled_lem (suc k) [] s pool sized a = absurd sized
filled_lem (suc k) (p ∷ ps) s pool sized a =
    let (l, b) = filled_lem k ps s (record p { dev = s } ∷ pool) sized.1 ((refl, sized.0), a) in
    (omega (arith, l), b)

not_null : (l : List Packet) → 0 < length l → is_null l ≡ false
not_null [] h = absurd (omega arith)
not_null (p ∷ l) h = refl

set_up-Sound :
    (m : Params) (cards : Net) (news0 news1 : List Packet)
    → 0 < m.pool_size
    → AllSized m.pool_size news0
    → AllSized m.pool_size news1
    → Sound (λ s. m.pool_size) (set_up m cards news0 news1)
unfolding snull_init snull_setup_pool snull_rx_ints
set_up-Sound m cards news0 news1 h sized0 sized1 =
    let (l, a) = filled_lem m.pool_size news0 sn0 [] sized0 tt in
    let (k, b) = filled_lem m.pool_size news1 sn1 [] sized1 tt in
    (
      (
        record { counted = omega (arith, l); pooled = a; queued = tt },
        record { counted = omega (arith, k); pooled = b; queued = tt },
      ),
      (inr (not_null _ (omega (arith, l, h))), inr (not_null _ (omega (arith, k, h)))),
    )

-- Interfaces that are set up with pools of at least one packet: after any operations that are allowed
-- (no send on a stopped queue or of more than ETH_DATA_LEN bytes, and no timeout or open on an empty
-- pool), every further allowed operation comes to its end, without following NULL and without leaving
-- a packet; and then each device has its packets, in its own pool or in the queue of the other, and
-- a queue whose pool is empty is stopped.
pub orderly_never_crashes :
    (m : Params) (cards : Net) (news0 news1 : List Packet) (n : Net) (e : Event) (s : Side)
    → 0 < m.pool_size
    → AllSized m.pool_size news0
    → AllSized m.pool_size news1
    → Orderly m (set_up m cards news0 news1) n
    → Allowed e s n
    → Ended (Sound (λ s. m.pool_size)) (happens m e s n)
orderly_never_crashes m cards news0 news1 n e s some_packets sized0 sized1 o allowed =
    let start = set_up-Sound m cards news0 news1 some_packets sized0 sized1 in
    happens-Sound (λ s. m.pool_size) m e s n
      (Orderly-Sound (λ s. m.pool_size) m (set_up m cards news0 news1) n start o) allowed
