-- ===== src/Sbull/Idle.antt =====
-- The timer of LinuxDeviceDrivers3Ed/sbull/sbull.c, which takes the medium away while nobody uses it.
use leipocode.Base.{
  ℕ, zero, suc, ◌+◌, ◌^◌, ◌<◌, ◌≡◌, refl, sym, ap, ◌∙◌, ◌⊎◌, inl, inr, true, false, List, [], ◌∷◌,
  arith, ◌==◌, eq→==, ==→eq, if◌then◌else◌, length, replicate, write_at, Bool-cases,
}
use leipocode.Sbull.{Disk}
use leipocode.Sbull.Media.{
  down16, sbull_media_changed, sbull_revalidate, sbull_open, sbull_release, sbull_invalidate,
}

module _ (check_disk_change : Disk → Disk) where
  -- Opens of fewer than 2 ^ 15 files, releases of open files, and the timer while it is armed.
  pub data Step : Disk → Disk → Type 0 where
    opens : {d : Disk} → d.users + 1 < 2 ^ 15 → Step d (sbull_open check_disk_change d)
    closes : {d : Disk} → 0 < d.users → d.users < 2 ^ 15 → Step d (sbull_release d)
    fires : {d : Disk} → d.timer ≡ true → Step d (sbull_invalidate d)

  pub data Steps (start : Disk) : Disk → Type 0 where
    begins : Steps start start
    goes_on : {d e : Disk} → Steps start d → Step d e → Steps start e

-- The timer is armed only while nobody uses the disk.
abbrev pub Unused : Disk → Type 0
Unused d = (d.timer ≡ false) ⊎ (d.users ≡ 0)

release-Unused : (d : Disk) → Unused d → 0 < d.users → Unused (sbull_release d)
unfolding sbull_release
release-Unused d (inr z) h = absurd (omega (arith, z, h))
release-Unused d (inl f) h = elim (Bool-cases (down16 d.users == 0)) [
  | inl t ↦ inr (==→eq (down16 d.users) 0 t)
  | inr t ↦ rw t (inl f)
]

invalidate-Unused : (d : Disk) → Unused (sbull_invalidate d)
unfolding sbull_invalidate
invalidate-Unused d = elim (Bool-cases (d.users == 0)) [
  | inl t ↦ rw t (inl refl)
  | inr t ↦ rw t (inl refl)
]

-- What the kernel's `check_disk_change` does: a disk whose medium has changed is revalidated.
abbrev pub Revalidates : (check_disk_change : Disk → Disk) → Type 0
Revalidates check_disk_change =
    (d : Disk) → check_disk_change d ≡ (if sbull_media_changed d then sbull_revalidate d else d)

write_all : (k : ℕ) (b : List ℕ) → length b ≡ k → write_at 0 (replicate k 0) b ≡ replicate k 0
write_all zero [] h = refl
write_all zero (x ∷ b) h = absurd (omega (arith, h))
write_all (suc k) [] h = absurd (omega (arith, h))
write_all (suc k) (x ∷ b) h = ap (λ l. 0 ∷ l) (write_all k b (omega (arith, h)))

module _ (check_disk_change : Disk → Disk) (checks : Revalidates check_disk_change) where
  open-timer : (d : Disk) → (sbull_open check_disk_change d).timer ≡ false
  unfolding sbull_open sbull_media_changed sbull_revalidate
  open-timer d = elim (Bool-cases (d.users == 0)) [
    | inl t ↦ elim (Bool-cases d.media_change) [
      | inl m ↦ rw (t, checks, m) refl
      | inr m ↦ rw (t, checks, m) refl
    ]
    | inr t ↦ rw t refl
  ]

  Steps-Unused : (start d : Disk) → Unused start → Steps check_disk_change start d → Unused d
  Steps-Unused start d u begins = u
  Steps-Unused start d u (goes_on s (opens h)) = inl (open-timer _)
  Steps-Unused start d u (goes_on s (closes h k)) = release-Unused _ (Steps-Unused start _ u s) h
  Steps-Unused start d u (goes_on s (fires h)) = invalidate-Unused _

  -- Where `check_disk_change` revalidates a disk whose medium has changed: from a disk whose timer is
  -- not armed, after opens, releases and timers, whenever the timer fires nobody uses the disk, so that
  -- the handler's check holds and the medium is marked as changed; and the next open clears the whole
  -- disk and has one user.
  pub fired_then_opened :
      (start d : Disk)
      → start.timer ≡ false
      → Steps check_disk_change start d
      → d.timer ≡ true
      → length d.bytes ≡ d.size
      → let gone = sbull_invalidate d in
        let back = sbull_open check_disk_change gone in
        (gone.media_change ≡ true)
        × (back.bytes ≡ replicate d.size 0)
        × (back.media_change ≡ false)
        × (back.users ≡ 1)
  unfolding sbull_open sbull_media_changed sbull_revalidate sbull_invalidate
  fired_then_opened start d still steps armed sized =
      let nobody : d.users ≡ 0 = elim (Steps-Unused start d (inl still) steps) [
        | inl f ↦ absurd (cc (sym f ∙ armed))
        | inr z ↦ z
      ] in
      let idle : (d.users == 0) ≡ true = eq→== d.users 0 nobody in
      rw (idle, checks, idle) (refl, write_all d.size d.bytes sized, refl, rw nobody refl)
