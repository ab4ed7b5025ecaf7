-- ===== src/ScullPipe/Valid.antt =====
-- The circular buffer of LinuxDeviceDrivers3Ed/scull/pipe.c: what a pipe in use keeps to, and what
-- it holds.
use leipocode.Base.{
  ℕ, ◌+◌, ◌-◌, ◌%◌, ◌^◌, ◌≤◌, ◌<◌, ◌≡◌, List, ◌++◌, arith, leb, if◌then◌else◌, length, slice,
  length-append, length-slice,
}
use native.Mathlib.Nat.{mod-eq_of_lt, mod-eq-sub-mod}
use native.Mathlib.Decide.{dec_lt, ℕ_discrete}
use leipocode.Base.{◌≢◌, eq→==, ne→==}
use leipocode.ScullPipe.{ScullPipe, bytes_of, spacefree}

pub record IsValid (d : ScullPipe) : Type 0 where
  pub allocated : d.end_off ≤ length (bytes_of d.buffer)
  pub end_eq : d.end_off ≡ d.buffersize
  pub small : d.buffersize < 2 ^ 31
  pub rp_in : d.rp < d.buffersize
  pub wp_in : d.wp < d.buffersize

-- The bytes that wait to be read, oldest first.
unfoldable pub contents : ScullPipe → List ℕ
contents d =
    let b = bytes_of d.buffer in
    if leb d.rp d.wp
    then slice b d.rp (d.wp - d.rp)
    else slice b d.rp (d.end_off - d.rp) ++ slice b 0 d.wp

pub length-contents :
    {d : ScullPipe}
    → IsValid d
    → length (contents d) ≡ (if leb d.rp d.wp then d.wp - d.rp else d.end_off - d.rp + d.wp)
unfolding contents
length-contents {d} v =
    let b = bytes_of d.buffer in
    ground (
      arith,
      length-slice b d.rp (d.wp - d.rp),
      length-slice b d.rp (d.end_off - d.rp),
      length-slice b 0 d.wp,
      length-append (slice b d.rp (d.end_off - d.rp)) (slice b 0 d.wp),
    )

-- The remainder in `spacefree` is the way from the write pointer round to the read pointer.
way_round :
    (r w n : ℕ) → r < n → w < n → r ≢ w → (r + n - w) % n ≡ (if leb r w then r + n - w else r - w)
way_round r w n p q ne = elim (dec_lt r w) [
  | yes h ↦ rw (mod-eq_of_lt {n = r + n - w} {m = n} (omega arith)) (ground arith)
  | no h ↦
      rw
        (
          mod-eq-sub-mod {n = r + n - w} {m = n} (omega arith),
          mod-eq_of_lt {n = r + n - w - n} {m = n} (omega arith),
        )
        (ground arith)
]

pub spacefree_lem :
    {d : ScullPipe}
    → IsValid d
    → spacefree d ≡ (if leb d.rp d.wp then d.rp + d.buffersize - d.wp - 1 else d.rp - d.wp - 1)
unfolding spacefree
spacefree_lem {d} v = elim (ℕ_discrete d.rp d.wp) [
  | yes e ↦ rw (eq→== d.rp d.wp e) (ground arith)
  | no ne ↦
      rw (ne→== d.rp d.wp ne, way_round d.rp d.wp d.buffersize v.rp_in v.wp_in ne) (ground arith)
]

-- In a valid pipe what `spacefree` counts and what is held make up one byte less than the buffer.
pub spacefree-add-contents :
    {d : ScullPipe} → IsValid d → spacefree d + length (contents d) + 1 ≡ d.buffersize
spacefree-add-contents {d} v = ground (arith, spacefree_lem v, length-contents v)
