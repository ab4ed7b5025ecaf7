-- ===== src/ShortPrint/Faults.antt =====
-- Writes to LinuxDeviceDrivers3Ed/shortprint/shortprint.c that fail after they have begun.
use leipocode.Base.{
  ℕ, ◌+◌, ◌<◌, ◌≤◌, ◌^◌, ◌≡◌, refl, sym, subst, ap, ◌∙◌, min, Bool, false, List, [], ◌∷◌, ◌++◌,
  arith, ne→==, lt→ltb, length, take, drop, replicate, length-take, length-drop,
}
use leipocode.Kernel.{fails, efault, all, stops_after, copied}
use leipocode.ShortPrint.{
  ShortPrint, shortp_out_space, happen, Event, Round, Sent, ends, with_out, accept, write_loop,
  shortp_write,
}
use leipocode.ShortPrint.Stream.{stream, IsValid}
use leipocode.ShortPrint.Events.{happen-Leads}
use leipocode.ShortPrint.Accept.{shortp_out_space_lem, accept-Leads, with_out-Leads}

-- In a valid state, with room for some bytes of a write but not for all: when the first copy succeeds
-- and the second one, in a round with room again, stops, the write fails with EFAULT and the position
-- does not move, but the first bytes were accepted and are on their way, whatever happens beside the
-- write.
pub fault_behind_bytes :
    (events copying₁ moving₁ copying₂ moving₂ : List Event) (signal₁ signal₂ : Bool) (n : ℕ)
    (rounds : List Round) (src : List ℕ) (s : ShortPrint)
    → IsValid s
    → 0 < shortp_out_space s
    → shortp_out_space s < length src
    → 0
      < shortp_out_space (happen events (accept copying₁ moving₁ (take (shortp_out_space s) src) s))
    → let out =
        shortp_write false
          (record {
            events = [];
            signal = signal₁;
            copy = all;
            copying = copying₁;
            moving = moving₁;
          }
            ∷ record {
              events = events;
              signal = signal₂;
              copy = stops_after n;
              copying = copying₂;
              moving = moving₂;
            }
            ∷ rounds)
          src
          s in
      (out.ret ≡ ends (fails efault))
      × (out.moved ≡ 0)
      × (out.accepted ≡ shortp_out_space s)
      × (stream out.state ≡ stream s ++ take (shortp_out_space s) src)
unfolding shortp_write write_loop happen
fault_behind_bytes events copying₁ moving₁ copying₂ moving₂ signal₁ signal₂ n rounds src s v
      some_room too_long again =
    let k = shortp_out_space s in
    let first : Round = record {
      events = [];
      signal = signal₁;
      copy = all;
      copying = copying₁;
      moving = moving₁;
    } in
    let second : Round = record {
      events = events;
      signal = signal₂;
      copy = stops_after n;
      copying = copying₂;
      moving = moving₂;
    } in
    let all_of : min k (length src) ≡ k = omega (arith, too_long) in
    let in_page = (shortp_out_space_lem s v).1 in
    let goes_on : write_loop (first ∷ second ∷ rounds) src 0 s
        ≡ write_loop (second ∷ rounds) (drop k src) (0 + k)
            (accept copying₁ moving₁ (take k src) s) =
      rw
        (
          lt→ltb 0 (length src) (omega (arith, too_long)),
          ne→== k 0 (λ e. omega (arith, e, some_room)),
          lt→ltb (0 + min k (length src)) (2 ^ 31) (omega (arith, all_of, in_page)),
        )
        (ap
          (λ m.
            write_loop (second ∷ rounds) (drop m src) (0 + m)
              (accept copying₁ moving₁ (take m src) s))
          all_of) in
    let t = accept copying₁ moving₁ (take k src) s in
    let room = shortp_out_space (happen events t) in
    let piece = take (min room (length (drop k src))) (drop k src) in
    let left = copied (stops_after n) piece in
    let fault : write_loop (second ∷ rounds) (drop k src) (0 + k) t ≡ record {
      ret = ends (fails efault);
      accepted = 0 + k;
      moved = 0;
      state = with_out (happen events t) left;
    } =
      rw
        (
          lt→ltb 0 (length (drop k src)) (omega (arith, too_long, length-drop k src)),
          ne→== room 0 (λ e. omega (arith, e, again)),
        )
        refl in
    let sized : length (take k src) ≡ k = length-take k src ∙ omega (arith, too_long) in
    let accepted =
      accept-Leads copying₁ moving₁ (take k src) s v (omega (arith, sized, some_room))
        (omega (arith, sized)) in
    let later = happen-Leads events t accepted.valid in
    let shorter : length left ≤ room = omega (
      arith,
      length-take (min room (length (drop k src))) (drop k src),
      length-take (length piece) (take n piece ++ replicate (length piece) 0),
    ) in
    let copy = with_out-Leads left (happen events t) later.valid shorter in
    subst failed (sym (goes_on ∙ fault))
      (refl, refl, omega arith, copy.streamed ∙ later.streamed ∙ accepted.streamed)
  where
    failed : Sent → Type 0
    failed out =
        (out.ret ≡ ends (fails efault))
        × (out.moved ≡ 0)
        × (out.accepted ≡ shortp_out_space s)
        × (stream out.state ≡ stream s ++ take (shortp_out_space s) src)
