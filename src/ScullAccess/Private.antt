-- ===== src/ScullAccess/Private.antt =====
-- scullpriv of LinuxDeviceDrivers3Ed/scull/access.c: one device for each terminal.
use leipocode.Base.{
  ℕ, ◌≡◌, ◌≢◌, refl, sym, subst, ◌∙◌, ap, ◌⊎◌, inl, inr, Bool, true, false, Option, none, some, [],
  ◌∷◌, ◌==◌, Bool-cases, Option-cases, ==→eq, ne→==, eq→==,
}
use mathlib.Core.Option.{some-injective}
use leipocode.Kernel.{Ret, returns, fails, enomem, File}
use leipocode.Scull.{Params, ScullDev}
use leipocode.ScullAccess.{
  Clones, device_of, new_device, opened, change_device, scull_c_lookfor_device, scull_c_open,
}

-- The device that an open finds, or makes.
abbrev pub found_or_new : Params → Option ScullDev → ScullDev
found_or_new p none = new_device p
found_or_new p (some d) = d

device_of-change_device :
    (f : ScullDev → ScullDev) (key : ℕ) (l : Clones) (d : ScullDev)
    → device_of key l ≡ some d
    → device_of key (change_device f key l) ≡ some (f d)
unfolding device_of change_device
device_of-change_device f key [] d e = absurd (cc e)
device_of-change_device f key ((k, c) ∷ l) d e = elim (Bool-cases (k == key)) [
  | inl h ↦ rw (h, h) (ap (λ x. some (f x)) (some-injective _ _ (rw h at e)))
  | inr h ↦ rw (h, h) (device_of-change_device f key l d (rw h at e))
]

device_of-change_device_other :
    (f : ScullDev → ScullDev) (key other : ℕ) (l : Clones)
    → key ≢ other
    → device_of other (change_device f key l) ≡ device_of other l
unfolding device_of change_device
device_of-change_device_other f key other [] ne = refl
device_of-change_device_other f key other ((k, c) ∷ l) ne = elim (Bool-cases (k == key)) [
  | inl h ↦ rw (h, ne→== k other (λ e. ne (sym (==→eq k key h) ∙ e))) refl
  | inr h ↦ elim (Bool-cases (k == other)) [
    | inl e ↦ rw (h, e) refl
    | inr e ↦ rw (h, e) (device_of-change_device_other f key other l ne)
  ]
]

-- The answer of an open from the terminal `key`, and what another terminal then has.
abbrev pub Apart : Params → (memory : Bool) (key other : ℕ) → File → Clones → Ret × Clones → Type 0
Apart p memory key other f l (r, l') =
    (((memory ≡ false) × (device_of key l ≡ none) × (r ≡ fails enomem) × (l' ≡ l))
      ⊎ (((memory ≡ true) ⊎ ((d : ScullDev) × (device_of key l ≡ some d)))
          × (r ≡ returns 0)
          × (device_of key l' ≡ some (opened p f (found_or_new p (device_of key l))))))
    × (device_of other l' ≡ device_of other l)

without_device :
    (p : Params) (memory : Bool) (key other : ℕ) (f : File) (l : Clones)
    → key ≢ other
    → device_of key l ≡ none
    → Apart p memory key other f l (scull_c_open p memory (some key) f l)
unfolding scull_c_open scull_c_lookfor_device device_of change_device
without_device p false key other f l ne h =
    let same : scull_c_open p false (some key) f l ≡ (fails enomem, l) =
      rw (scull_c_open, scull_c_lookfor_device, h) in
    subst (Apart p false key other f l) (sym same) (inl (refl, h, refl, refl), refl)
without_device p true key other f l ne h =
    let start : Clones = (key, new_device p) ∷ l in
    let same : scull_c_open p true (some key) f l
        ≡ (returns 0, change_device (opened p f) key start) =
      rw (scull_c_open, scull_c_lookfor_device, h) in
    let there : device_of key start ≡ some (new_device p) = rw (eq→== key key refl) refl in
    let elsewhere : device_of other start ≡ device_of other l = rw (ne→== key other ne) refl in
    subst (Apart p true key other f l) (sym same) (
      inr (
        inl refl,
        refl,
        rw h (device_of-change_device (opened p f) key start (new_device p) there),
      ),
      device_of-change_device_other (opened p f) key other start ne ∙ elsewhere,
    )

-- An open of scullpriv from a terminal: either there is no device for the terminal and no memory, and
-- it fails with -ENOMEM and changes nothing; or there is one of them, and it returns 0, and the terminal has the device that it had, or a
-- new one, trimmed if it was opened for writing only. The device of any other terminal stays as it
-- is, or absent.
pub scull_c_open-Apart :
    (p : Params) (memory : Bool) (key other : ℕ) (f : File) (l : Clones)
    → key ≢ other
    → Apart p memory key other f l (scull_c_open p memory (some key) f l)
unfolding scull_c_open scull_c_lookfor_device device_of change_device
scull_c_open-Apart p memory key other f l ne = elim (Option-cases (device_of key l)) [
  | inr (d, h) ↦
      let same : scull_c_open p memory (some key) f l
          ≡ (returns 0, change_device (opened p f) key l) =
        rw (scull_c_open, scull_c_lookfor_device, h) in
      subst (Apart p memory key other f l) (sym same) (
        inr (inr (d, h), refl, rw h (device_of-change_device (opened p f) key l d h)),
        device_of-change_device_other (opened p f) key other l ne,
      )
  | inl h ↦ without_device p memory key other f l ne h
]
