-- ===== src/Sbull/Tests.antt =====
-- The disk of LinuxDeviceDrivers3Ed/sbull/sbull.c in small.
use leipocode.Base.{
  ℕ, ◌≡◌, refl, true, false, none, some, Option, List, [], ◌∷◌, arith, if◌then◌else◌, replicate,
  write_at, length-replicate, Bool-cases, inl, inr,
}
use leipocode.Sbull.{
  Disk, Request, Answer, Bio, BioEnd, xfer_segments, sbull_xfer_bio, sbull_transfer, sbull_request,
  sbull_make_request,
}
use leipocode.Sbull.Media.{
  sbull_media_changed, sbull_revalidate, sbull_open, sbull_release, sbull_invalidate,
}
use leipocode.Sbull.Bounds.{Answers, SameDisk, sbull_request-SameDisk}
use leipocode.Sbull.Idle.{Revalidates, opens, closes, Steps, begins, goes_on, fired_then_opened}

abbrev zeros : ℕ → List ℕ
zeros n = replicate n 0

-- Four sectors of zeros.
abbrev disk : Disk
disk = record { size = 2048; bytes = zeros 2048; users = 0; media_change = false; timer = false }

abbrev bio : Bio
bio = record {
  bi_sector = 1;
  bi_size = 1024;
  segments = replicate 512 7 ∷ replicate 512 8 ∷ [];
  write = true;
}

abbrev one_sector : Bio → ℕ
one_sector b = 1

abbrev end_of : Option (Disk × List (List ℕ) × BioEnd) → Option BioEnd
end_of none = none
end_of (some r) = some r.2

-- A bio is answered with all of its bytes and no error.
bio_is_answered :
    end_of (sbull_make_request one_sector bio disk) ≡ some (record { bytes_done = 1024; error = 0 })
unfolding sbull_make_request sbull_xfer_bio xfer_segments sbull_transfer
bio_is_answered = refl

-- A write, a read beyond the end, and a request that is not of a file system.
abbrev three : List Request
three =
    record { fs = true; sector = 1; current_nr_sectors = 1; buffer = replicate 512 7; write = true }
    ∷ record { fs = true; sector = 4; current_nr_sectors = 1; buffer = zeros 512; write = false }
    ∷ record { fs = false; sector = 0; current_nr_sectors = 0; buffer = []; write = false }
    ∷ []

sbull_request-SameDisk_example :
    (e : Disk) × (answers : List Answer) × (sbull_request three disk ≡ some (e, answers))
    × SameDisk disk e
    × Answers three answers
sbull_request-SameDisk_example =
    sbull_request-SameDisk three disk
      (record { sized = length-replicate {A = ℕ} 2048 0; in_int = omega arith })
      (
        (omega arith, omega (arith, length-replicate {A = ℕ} 512 7)),
        (
          (omega arith, omega (arith, length-replicate {A = ℕ} 512 0)),
          ((omega arith, omega arith), tt),
        ),
      )

-- What the kernel does.
abbrev check : Disk → Disk
check d =
    if d.media_change
    then record d { media_change = false; bytes = write_at 0 (replicate d.size 0) d.bytes }
    else d

abbrev written : Disk
written = record disk { bytes = replicate 2048 5 }

abbrev left : Disk
left = record written { timer = true }

used : Steps check written left
unfolding sbull_open sbull_release
used = goes_on (goes_on begins (opens (omega arith))) (closes (omega arith) (omega arith))

check_lem : Revalidates check
unfolding sbull_media_changed sbull_revalidate
check_lem d = elim (Bool-cases d.media_change) [ inl t ↦ rw t refl | inr t ↦ rw t refl ]

fired_then_opened_example :
    ((sbull_invalidate left).media_change ≡ true)
    × ((sbull_open check (sbull_invalidate left)).bytes ≡ replicate 2048 0)
    × ((sbull_open check (sbull_invalidate left)).media_change ≡ false)
    × ((sbull_open check (sbull_invalidate left)).users ≡ 1)
fired_then_opened_example =
    fired_then_opened check check_lem written left refl used refl (length-replicate {A = ℕ} 2048 5)
