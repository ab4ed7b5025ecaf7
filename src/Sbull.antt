-- ===== src/Sbull.antt =====
-- LinuxDeviceDrivers3Ed/sbull/sbull.c: a disk in memory, its ways to handle requests, and a
-- simulated change of the medium.
pub mod Media
pub mod Setup
pub mod Bounds
pub mod Idle
mod Tests
use leipocode.Base.{
  ℕ, ◌+◌, ◌*◌, ◌/◌, ◌%◌, ◌^◌, Bool, true, false, not, ◌||◌, Option, none, some, List, [], ◌∷◌, ltb,
  if◌then◌else◌, length, take, slice, write_at,
}

-- `struct sbull_dev`; `bytes` is the array `data`, and `timer` says that the timer is armed.
pub record Disk : Type 0 where
  pub size : ℕ
  pub bytes : List ℕ
  pub users : ℕ
  pub media_change : Bool
  pub timer : Bool

abbrev pub kernel_sector_size : ℕ
kernel_sector_size = 512

-- The disk and the buffer; `none` when memory outside of them is touched. The sums of an
-- `unsigned long` wrap. Nothing is moved beyond the end of the disk.
unfoldable pub sbull_transfer :
    Disk → (sector nsect : ℕ) (buffer : List ℕ) (write : Bool) → Option (Disk × List ℕ)
sbull_transfer d sector nsect buffer write =
    let offset = sector * kernel_sector_size % 2 ^ 64 in
    let nbytes = nsect * kernel_sector_size % 2 ^ 64 in
    if ltb d.size ((offset + nbytes) % 2 ^ 64)
    then some (d, buffer)
    else if ltb (length d.bytes) (offset + nbytes) || ltb (length buffer) nbytes
    then none
    else if write
    then some (record d { bytes = write_at offset (take nbytes buffer) d.bytes }, buffer)
    else some (d, write_at 0 (slice d.bytes offset nbytes) buffer)

-- A transfer, and then another on the disk that it leaves.
abbrev pub and_then {ℓ₁ ℓ₂} : {A : Type ℓ₁} {B : Type ℓ₂} → Option A → (A → Option B) → Option B
and_then none f = none
and_then (some a) f = f a

-- The part of `struct request` that is read; `fs` is `blk_fs_request`.
pub record Request : Type 0 where
  pub fs : Bool
  pub sector : ℕ
  pub current_nr_sectors : ℕ
  pub buffer : List ℕ
  pub write : Bool

-- What `end_request` is told, and the buffer.
abbrev pub Answer : Type 0
Answer = Bool × List ℕ

abbrev pub answered : Answer → Option (Disk × List Answer) → Option (Disk × List Answer)
answered a r = and_then r (λ (s : Disk × List Answer). some (s.0, a ∷ s.1))

-- The requests that `elv_next_request` gives, one after the other.
unfoldable pub sbull_request : List Request → Disk → Option (Disk × List Answer)
unfolding sbull_transfer
sbull_request [] d = some (d, [])
sbull_request (r ∷ rs) d =
    if not r.fs
    then answered (false, r.buffer) (sbull_request rs d)
    else and_then (sbull_transfer d r.sector r.current_nr_sectors r.buffer r.write)
        (λ (t : Disk × List ℕ). answered (true, t.1) (sbull_request rs t.0))

-- The part of `struct bio` that is read, with the buffers of its segments.
pub record Bio : Type 0 where
  pub bi_sector : ℕ
  pub bi_size : ℕ
  pub segments : List (List ℕ)
  pub write : Bool

abbrev pub kept : List ℕ → Option (Disk × List (List ℕ)) → Option (Disk × List (List ℕ))
kept b r = and_then r (λ (s : Disk × List (List ℕ)). some (s.0, b ∷ s.1))

-- The loop over the segments.
unfoldable pub xfer_segments :
    (nsect : ℕ) (write : Bool) (sector : ℕ) → List (List ℕ) → Disk → Option (Disk × List (List ℕ))
unfolding sbull_transfer
xfer_segments nsect write sector [] d = some (d, [])
xfer_segments nsect write sector (b ∷ bs) d =
    and_then (sbull_transfer d sector nsect b write) (λ (t : Disk × List ℕ).
      kept t.1 (xfer_segments nsect write ((sector + nsect) % 2 ^ 64) bs t.0))

-- `bio_cur_sectors` is the kernel's: the sectors of the current segment of a bio. The last one is what
-- the function returns.
unfoldable pub sbull_xfer_bio :
    (bio_cur_sectors : Bio → ℕ) → Bio → Disk → Option (Disk × List (List ℕ) × ℕ)
unfolding xfer_segments
sbull_xfer_bio bio_cur_sectors b d =
    and_then (xfer_segments (bio_cur_sectors b) b.write b.bi_sector b.segments d)
      (λ (t : Disk × List (List ℕ)). some (t.0, t.1, 0))

abbrev pub counted :
    ℕ
    → List (List ℕ)
    → Option (ℕ × Disk × List (List (List ℕ)))
    → Option (ℕ × Disk × List (List (List ℕ)))
counted k bs r =
    and_then r (λ (s : ℕ × Disk × List (List (List ℕ))). some ((k + s.0) % 2 ^ 32, s.1, bs ∷ s.2))

-- The number of sectors, the disk, and the buffers.
unfoldable pub sbull_xfer_request :
    (bio_cur_sectors : Bio → ℕ) → List Bio → Disk → Option (ℕ × Disk × List (List (List ℕ)))
unfolding sbull_xfer_bio
sbull_xfer_request cur [] d = some (0, d, [])
sbull_xfer_request cur (b ∷ bs) d =
    and_then (sbull_xfer_bio cur b d) (λ (t : Disk × List (List ℕ) × ℕ).
      counted (b.bi_size / kernel_sector_size) t.1 (sbull_xfer_request cur bs t.0))

-- What `bio_endio` is called with: the bytes that are done, and the status.
pub record BioEnd : Type 0 where
  pub bytes_done : ℕ
  pub error : ℕ

-- The disk, the buffers, and the answer to the bio.
unfoldable pub sbull_make_request :
    (bio_cur_sectors : Bio → ℕ) → Bio → Disk → Option (Disk × List (List ℕ) × BioEnd)
unfolding sbull_xfer_bio
sbull_make_request cur b d = and_then (sbull_xfer_bio cur b d) (λ (t : Disk × List (List ℕ) × ℕ).
    some (t.0, t.1, record { bytes_done = b.bi_size; error = t.2 }))
