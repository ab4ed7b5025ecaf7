-- ===== src/ScullPipe/Fifo.antt =====
-- A read of LinuxDeviceDrivers3Ed/scull/pipe.c takes bytes off the front of what the pipe holds,
-- and a write adds them at the back.
use leipocode.Base.{
  ℕ, ◌+◌, ◌-◌, ◌≤◌, ◌<◌, ◌≡◌, refl, sym, ap, ◌∙◌, ◌≢◌, min, some, List, [], ◌∷◌, ◌++◌, arith, leb,
  ltb, ◌==◌, if◌then◌else◌, length, take, slice, write_at, length-slice, slice-split, ap₂, le→leb,
  lt→leb, slice-grow, length-take, length-write_at, slice-write_at-behind, append_assoc, append-nil,
  eq→==, ne→==, lt→ltb, le→ltb,
}
use native.Mathlib.Decide.{dec_lt}
use leipocode.Kernel.{returns, all}
use leipocode.ScullPipe.{
  ScullPipe, wake_outq, wake_inq, sigio, Outcome, done, up, bytes_of, spacefree, take_bytes,
  put_bytes,
}
use leipocode.ScullPipe.Valid.{IsValid, contents, spacefree_lem}

-- How many bytes lie in one piece at the read pointer.
abbrev pub readable : ScullPipe → ℕ
readable d = if ltb d.rp d.wp then d.wp - d.rp else d.end_off - d.rp

-- The outcome is a return of `n` bytes, the first that the pipe held; it holds the others.
pub record Took (count : ℕ) (d : ScullPipe) (out : Outcome) : Type 0 where
  pub pipe : ScullPipe
  pub bytes : List ℕ
  pub result : out ≡ done (returns (min count (readable d))) bytes (up pipe) (wake_outq ∷ [])
  pub counted : length bytes ≡ min count (readable d)
  pub front : bytes ++ contents pipe ≡ contents d
  pub valid : IsValid pipe
  pub sem_eq : pipe.sem ≡ d.sem

module _ {d : ScullPipe} (count : ℕ) (v : IsValid d) where
  -- The held bytes lie in one piece.
  take_below : d.rp < d.wp → Took count d (take_bytes count all d)
  unfolding take_bytes contents
  take_below h =
      let b = bytes_of d.buffer in
      let n = min count (d.wp - d.rp) in
      record {
        pipe = record d { rp = d.rp + n };
        bytes = slice b d.rp n;
        result = rw (
          lt→ltb d.rp d.wp h,
          le→ltb (length b) (d.rp + n) (omega arith),
          ne→== (d.rp + n) d.end_off (omega arith),
        );
        counted = rw (lt→ltb d.rp d.wp h) (length-slice b d.rp n (omega arith));
        front =
            rw (le→leb (d.rp + n) d.wp (omega arith), le→leb d.rp d.wp (omega arith))
              (ap (λ l. slice b d.rp n ++ slice b (d.rp + n) l) (omega arith)
                ∙ slice-split b d.rp n (d.wp - d.rp) (omega arith));
        valid = omega arith;
        sem_eq = refl;
      }

  -- The held bytes go round the end, and some of the first piece stays.
  take_some : d.wp < d.rp → count < d.end_off - d.rp → Took count d (take_bytes count all d)
  unfolding take_bytes contents
  take_some h k =
      let b = bytes_of d.buffer in
      let n = min count (d.end_off - d.rp) in
      record {
        pipe = record d { rp = d.rp + n };
        bytes = slice b d.rp n;
        result = rw (
          le→ltb d.rp d.wp (omega arith),
          le→ltb (length b) (d.rp + n) (omega arith),
          ne→== (d.rp + n) d.end_off (omega arith),
        );
        counted = rw (le→ltb d.rp d.wp (omega arith)) (length-slice b d.rp n (omega arith));
        front =
            rw (lt→leb (d.rp + n) d.wp (omega arith), lt→leb d.rp d.wp h)
              (sym (
                  append_assoc (slice b d.rp n) (slice b (d.rp + n) (d.end_off - (d.rp + n)))
                    (slice b 0 d.wp))
                ∙ ap (λ l. l ++ slice b 0 d.wp)
                    (ap (λ m. slice b d.rp n ++ slice b (d.rp + n) m) (omega arith)
                      ∙ slice-split b d.rp n (d.end_off - d.rp) (omega arith)));
        valid = omega arith;
        sem_eq = refl;
      }

  -- The first piece is taken whole, and the read pointer wraps.
  take_whole : d.wp < d.rp → d.end_off - d.rp ≤ count → Took count d (take_bytes count all d)
  unfolding take_bytes contents
  take_whole h k =
      let b = bytes_of d.buffer in
      let n = min count (d.end_off - d.rp) in
      record {
        pipe = record d { rp = 0 };
        bytes = slice b d.rp n;
        result = rw (
          le→ltb d.rp d.wp (omega arith),
          le→ltb (length b) (d.rp + n) (omega arith),
          eq→== (d.rp + n) d.end_off (omega arith),
        );
        counted = rw (le→ltb d.rp d.wp (omega arith)) (length-slice b d.rp n (omega arith));
        front =
            rw (le→leb 0 d.wp (omega arith), lt→leb d.rp d.wp h)
              (ap₂ (λ m l. slice b d.rp m ++ slice b 0 l) (omega arith) (omega arith));
        valid = omega arith;
        sem_eq = refl;
      }

  -- The copy of `scull_p_read` from a valid pipe that is not empty: it returns the smaller of the
  -- count and what lies in one piece at the read pointer, takes so many bytes off the front of what
  -- the pipe holds, leaves a valid pipe with the semaphore released, and wakes the writers.
  pub take_bytes_lem : d.rp ≢ d.wp → Took count d (take_bytes count all d)
  take_bytes_lem ne = elim (dec_lt d.rp d.wp) [
    | yes h ↦ take_below h
    | no h ↦ elim (dec_lt count (d.end_off - d.rp)) [
      | yes k ↦ take_some (omega arith) k
      | no k ↦ take_whole (omega arith) (omega arith)
    ]
  ]

-- How many bytes there is space for in one piece at the write pointer.
abbrev pub writable : ScullPipe → ℕ
writable d =
    if leb d.rp d.wp
    then min (spacefree d) (d.end_off - d.wp)
    else min (spacefree d) (d.rp - d.wp - 1)

-- The outcome is a return of as many bytes of `src` as there is space for; the pipe holds them
-- behind what it held.
pub record Put (n : ℕ) (src : List ℕ) (d : ScullPipe) (out : Outcome) : Type 0 where
  pub pipe : ScullPipe
  pub result :
      out
      ≡ done
          (returns n)
          []
          (up pipe)
          (if d.async_queue then wake_inq ∷ sigio ∷ [] else wake_inq ∷ [])
  pub back : contents pipe ≡ contents d ++ take n src
  pub valid : IsValid pipe
  pub sem_eq : pipe.sem ≡ d.sem

-- The memory behind a write of `n` bytes.
abbrev memory : ScullPipe → ℕ → List ℕ → List ℕ
memory d n src = write_at d.wp (take n src) (bytes_of d.buffer)

module _ {d : ScullPipe} (src : List ℕ) (v : IsValid d) where
  module _ (n : ℕ) (within : n ≤ length src) (fits : d.wp + n ≤ d.end_off) where
    length-taken : length (take n src) ≡ n
    length-taken = omega (arith, length-take n src)

    length-memory : length (memory d n src) ≡ length (bytes_of d.buffer)
    length-memory = length-write_at d.wp (take n src) (bytes_of d.buffer)

    grown :
        (i k : ℕ)
        → i ≤ d.wp
        → k ≡ d.wp + n - i
        → slice (memory d n src) i k ≡ slice (bytes_of d.buffer) i (d.wp - i) ++ take n src
    grown i k h e =
        ap (slice (memory d n src) i) (omega (arith, length-taken))
        ∙ slice-grow (bytes_of d.buffer) (take n src) i d.wp h
            (omega (arith, length-taken, v.allocated))

    put_run :
        n ≡ min (length src) (writable d)
        → put_bytes src all d
          ≡ done
              (returns n)
              []
              (up (record d {
                buffer = some (memory d n src);
                wp = if d.wp + n == d.end_off then 0 else d.wp + n;
              }))
              (if d.async_queue then wake_inq ∷ sigio ∷ [] else wake_inq ∷ [])
    unfolding put_bytes
    put_run e =
        let m = min (length src) (spacefree d) in
        let chosen : (if leb d.rp d.wp then min m (d.end_off - d.wp) else min m (d.rp - d.wp - 1))
            ≡ n =
          ground arith in
        rw (chosen, le→ltb (length (bytes_of d.buffer)) (d.wp + n) (omega (arith, v.allocated)))

    IsValid-memory :
        (w : ℕ) → w < d.end_off → IsValid (record d { buffer = some (memory d n src); wp = w })
    IsValid-memory w h = omega (arith, length-memory)

    module _ (e : n ≡ min (length src) (writable d)) where
      -- The write pointer stays in front of the end, behind the read pointer.
      Put-below : d.rp ≤ d.wp → d.wp + n < d.end_off → Put n src d (put_bytes src all d)
      unfolding contents
      Put-below h k = record {
        pipe = record d { buffer = some (memory d n src); wp = d.wp + n };
        result = put_run e ∙ rw (ne→== (d.wp + n) d.end_off (omega arith));
        back =
            rw (le→leb d.rp (d.wp + n) (omega arith), le→leb d.rp d.wp h)
              (grown d.rp (d.wp + n - d.rp) h refl);
        valid = IsValid-memory (d.wp + n) k;
        sem_eq = refl;
      }

      -- The write pointer comes to the end and wraps.
      Put-to_end : d.rp ≤ d.wp → d.wp + n ≡ d.end_off → Put n src d (put_bytes src all d)
      unfolding contents
      Put-to_end h k =
          let free : spacefree d ≡ d.rp + d.buffersize - d.wp - 1 =
            spacefree_lem v ∙ rw (le→leb d.rp d.wp h) in
          let bound : n ≤ spacefree d = ground arith in
          record {
            pipe = record d { buffer = some (memory d n src); wp = 0 };
            result = put_run e ∙ rw (eq→== (d.wp + n) d.end_off k);
            back =
                rw (lt→leb d.rp 0 (omega arith), le→leb d.rp d.wp h)
                  (append-nil _ ∙ grown d.rp (d.end_off - d.rp) h (omega arith));
            valid = IsValid-memory 0 (omega arith);
            sem_eq = refl;
          }

      -- The write pointer follows the read pointer.
      Put-behind : d.wp < d.rp → Put n src d (put_bytes src all d)
      unfolding contents
      Put-behind h =
          let b = bytes_of d.buffer in
          let bound : n ≤ d.rp - d.wp - 1 = ground arith in
          record {
            pipe = record d { buffer = some (memory d n src); wp = d.wp + n };
            result = put_run e ∙ rw (ne→== (d.wp + n) d.end_off (omega arith));
            back =
                rw (lt→leb d.rp (d.wp + n) (omega arith), lt→leb d.rp d.wp h)
                  (ap₂ ◌++◌
                      (slice-write_at-behind b (take n src) d.rp (d.end_off - d.rp) d.wp
                        (omega (arith, length-taken)))
                      (grown 0 (d.wp + n) (omega arith) (omega arith)
                        ∙ ap (λ m. slice b 0 m ++ take n src) (omega arith))
                    ∙ sym (
                        append_assoc (slice b d.rp (d.end_off - d.rp)) (slice b 0 d.wp)
                          (take n src)));
            valid = IsValid-memory (d.wp + n) (omega arith);
            sem_eq = refl;
          }

  -- The copy of `scull_p_write` to a valid pipe: it returns the smaller of the number of bytes given
  -- and the space in one piece at the write pointer, appends so many of the bytes to what the pipe
  -- holds, leaves a valid pipe with the semaphore released, and wakes the readers.
  pub put_bytes_lem : Put (min (length src) (writable d)) src d (put_bytes src all d)
  put_bytes_lem =
      let n = min (length src) (writable d) in
      elim (dec_lt d.wp d.rp) [
        | yes h ↦ Put-behind n (omega arith) (ground arith) refl h
        | no h ↦ elim (dec_lt (d.wp + n) d.end_off) [
          | yes k ↦ Put-below n (omega arith) (omega arith) refl (omega arith) k
          | no k ↦
              let w : writable d ≤ d.end_off - d.wp = ground arith in
              Put-to_end n (omega arith) (omega arith) refl (omega arith) (omega arith)
        ]
      ]
