-- ===== src/Sbull/Bounds.antt =====
-- Requests of LinuxDeviceDrivers3Ed/sbull/sbull.c stay inside the disk.
use leipocode.Base.{
  ℕ, ◌+◌, ◌*◌, ◌%◌, ◌^◌, ◌≤◌, ◌<◌, ◌≡◌, refl, ◌∙◌, inl, inr, Bool, true, false, some, List, [], ◌∷◌,
  arith, ltb, le→ltb, length, take, write_at, length-write_at, Bool-cases,
}
use native.Mathlib.Nat.{mod-eq_of_lt}
use leipocode.Sbull.{Disk, Request, Answer, kernel_sector_size, sbull_transfer, sbull_request}

-- `size` is an `int`, and the array has so many bytes.
pub record IsValid (d : Disk) : Type 0 where
  pub sized : length d.bytes ≡ d.size
  pub in_int : d.size < 2 ^ 31

-- The buffer has the bytes of the request, and no byte has a number beyond an `unsigned long`.
abbrev pub Fits : Request → Type 0
Fits r =
    ((r.sector + r.current_nr_sectors) * kernel_sector_size < 2 ^ 64)
    × (r.current_nr_sectors * kernel_sector_size ≤ length r.buffer)

abbrev pub AllFit : List Request → Type 0
AllFit [] = Unit {0}
AllFit (r ∷ rs) = Fits r × AllFit rs

-- The disk is valid and as large as before, and the users and the medium are as before.
pub record SameDisk (d e : Disk) : Type 0 where
  pub valid : IsValid e
  pub size : e.size ≡ d.size
  pub users : e.users ≡ d.users
  pub media : e.media_change ≡ d.media_change

sbull_transfer-some :
    (d : Disk) (sector nsect : ℕ) (buffer : List ℕ) (write : Bool)
    → IsValid d
    → (sector + nsect) * kernel_sector_size < 2 ^ 64
    → nsect * kernel_sector_size ≤ length buffer
    → (e : Disk) × (b : List ℕ) × (sbull_transfer d sector nsect buffer write ≡ some (e, b))
      × SameDisk d e
      × (length b ≡ length buffer)
unfolding sbull_transfer
sbull_transfer-some d sector nsect buffer write v small room =
    let offset : sector * 512 % 2 ^ 64 ≡ sector * 512 = mod-eq_of_lt (omega (arith, small)) in
    let nbytes : nsect * 512 % 2 ^ 64 ≡ nsect * 512 = mod-eq_of_lt (omega (arith, small)) in
    let sum : (sector * 512 + nsect * 512) % 2 ^ 64 ≡ sector * 512 + nsect * 512 =
      mod-eq_of_lt (omega (arith, small)) in
    let same : SameDisk d d = record { valid = v; size = refl; users = refl; media = refl } in
    elim (Bool-cases (ltb d.size (sector * 512 + nsect * 512))) [
      | inl t ↦ rw (offset, nbytes, sum, t) (d, buffer, refl, same, refl)
      | inr t ↦
          let inside : sector * 512 + nsect * 512 ≤ length d.bytes = ground (arith, t, v.sized) in
          let free = le→ltb (length d.bytes) (sector * 512 + nsect * 512) inside in
          let full = le→ltb (length buffer) (nsect * 512) room in
          elim (Bool-cases write) [
            | inl w ↦
                let new = write_at (sector * 512) (take (nsect * 512) buffer) d.bytes in
                let l : length new ≡ length d.bytes = length-write_at (sector * 512) _ d.bytes in
                rw (offset, nbytes, sum, t, free, full, w)
                  (
                    record d { bytes = new },
                    buffer,
                    refl,
                    record {
                      valid = record { sized = l ∙ v.sized; in_int = v.in_int };
                      size = refl;
                      users = refl;
                      media = refl;
                    },
                    refl,
                  )
            | inr w ↦
                rw (offset, nbytes, sum, t, free, full, w)
                  (d, _, refl, same, length-write_at 0 _ buffer)
          ]
    ]

-- The buffers of the answers are those of the requests, in length.
abbrev pub Answers : List Request → List Answer → Type 0
Answers [] [] = Unit {0}
Answers [] (a ∷ more) = ⊥
Answers (r ∷ rs) [] = ⊥
Answers (r ∷ rs) (a ∷ more) = ((a.0 ≡ r.fs) × (length a.1 ≡ length r.buffer)) × Answers rs more

-- `sbull_request` on a valid disk, with requests whose buffers have the bytes they ask for and whose
-- sectors have bytes with a number in an `unsigned long`: it never touches memory outside of the disk
-- and the buffers, however far beyond the end the requests are; the disk stays valid and as large as
-- it was; and every request is answered, those of a file system, and only those, with success.
pub sbull_request-SameDisk :
    (rs : List Request) (d : Disk)
    → IsValid d
    → AllFit rs
    → (e : Disk) × (answers : List Answer) × (sbull_request rs d ≡ some (e, answers))
      × SameDisk d e
      × Answers rs answers
unfolding sbull_request
sbull_request-SameDisk [] d v fit =
    (d, [], refl, record { valid = v; size = refl; users = refl; media = refl }, tt)
sbull_request-SameDisk (r ∷ rs) d v fit = elim (Bool-cases r.fs) [
  | inl f ↦
      let (e, b, run, same, l) =
        sbull_transfer-some d r.sector r.current_nr_sectors r.buffer r.write v fit.0.0 fit.0.1 in
      let (e', more, run', same', answers) = sbull_request-SameDisk rs e same.valid fit.1 in
      rw (f, run, run')
        (
          e',
          (true, b) ∷ more,
          refl,
          record {
            valid = same'.valid;
            size = same'.size ∙ same.size;
            users = same'.users ∙ same.users;
            media = same'.media ∙ same.media;
          },
          ((refl, l), answers),
        )
  | inr f ↦
      let (e', more, run', same', answers) = sbull_request-SameDisk rs d v fit.1 in
      rw (f, run') (e', (false, r.buffer) ∷ more, refl, same', ((refl, refl), answers))
]
