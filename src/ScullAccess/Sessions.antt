-- ===== src/ScullAccess/Sessions.antt =====
-- sculluid and scullwuid of LinuxDeviceDrivers3Ed/scull/access.c: one user at a time.
use leipocode.Base.{
  ℕ, zero, suc, ◌+◌, ◌^◌, ◌≤◌, ◌<◌, ◌≡◌, refl, sym, ◌∙◌, ◌⊎◌, inl, inr, Bool, true, false, not,
  List, [], ◌∷◌, arith, ◌==◌, ltb, length, if◌then◌else◌, Bool-cases, ==→eq,
}
use leipocode.Kernel.{Ret, returns, fails, ebusy, eagain, inc}
use leipocode.ScullAccess.{
  Caller, Users, scull_u_open, scull_u_release, scull_w_available, Opening, done, scull_w_open,
}

-- What processes do with the device: one opens it, or the n-th open file is closed.
pub data Event : Type 0 where
  opens : Caller → Event
  closes : ℕ → Event

-- The counts, and who opened each open file.
pub record Session : Type 0 where
  pub users : Users
  pub files : List Caller

abbrev pub without : ℕ → List Caller → List Caller
without n [] = []
without zero (c ∷ cs) = cs
without (suc n) (c ∷ cs) = c ∷ without n cs

abbrev pub admitted : Caller → List Caller → Ret × Users → Session
admitted c cs (returns n, u) = record { users = u; files = c ∷ cs }
admitted c cs (fails e, u) = record { users = u; files = cs }

-- A file that is not open is not closed.
abbrev pub happens : Event → Session → Session
happens (opens c) s = admitted c s.files (scull_u_open c s.users)
happens (closes n) s =
    if ltb n (length s.files)
    then record { users = scull_u_release s.users; files = without n s.files }
    else s

unfoldable pub session : List Event → Session → Session
session [] s = s
session (e ∷ es) s = session es (happens e s)

-- The caller is the owner's, runs with the owner's rights, or may pass over permissions.
abbrev pub Entitled : ℕ → Caller → Type 0
Entitled owner c = (owner ≡ c.uid) ⊎ (owner ≡ c.euid) ⊎ (c.dac_override ≡ true)

abbrev pub AllEntitled : ℕ → List Caller → Type 0
AllEntitled owner [] = Unit {0}
AllEntitled owner (c ∷ cs) = Entitled owner c × AllEntitled owner cs

pub record Guarded (s : Session) : Type 0 where
  pub counted : s.users.count ≡ length s.files
  pub entitled : AllEntitled s.users.owner s.files

AllEntitled-without :
    (owner n : ℕ) (cs : List Caller) → AllEntitled owner cs → AllEntitled owner (without n cs)
AllEntitled-without owner n [] a = tt
AllEntitled-without owner zero (c ∷ cs) a = a.1
AllEntitled-without owner (suc n) (c ∷ cs) a = (a.0, AllEntitled-without owner n cs a.1)

length-without : (n : ℕ) (cs : List Caller) → n < length cs → length (without n cs) + 1 ≡ length cs
length-without n [] h = absurd (omega arith)
length-without zero (c ∷ cs) h = omega arith
length-without (suc n) (c ∷ cs) h = omega (arith, length-without n cs (omega arith))

nothing : (owner : ℕ) (cs : List Caller) → length cs ≡ 0 → AllEntitled owner cs
nothing o [] e = tt
nothing o (c ∷ cs) e = absurd (omega (arith, e))

-- One more file of an entitled caller.
joined :
    {s : Session} (c : Caller)
    → length s.files < 2 ^ 31
    → Guarded s
    → Entitled s.users.owner c
    → Guarded (record {
      users = record { count = inc s.users.count; owner = s.users.owner };
      files = c ∷ s.files;
    })
joined c few g e = record { counted = omega (arith, g.counted); entitled = (e, g.entitled) }

-- Where only the capability is left to let the caller in.
by_capability :
    {s : Session} (c : Caller) (b : Bool)
    → c.dac_override ≡ b
    → length s.files < 2 ^ 31
    → Guarded s
    → Guarded (
        admitted c s.files (
          if not b
          then (fails ebusy, s.users)
          else (returns 0, record { count = inc s.users.count; owner = s.users.owner })))
by_capability {s} c true e few g = joined c few g (inr (inr e))
by_capability c false e few g = g

opens-Guarded :
    (c : Caller) {s : Session} → length s.files < 2 ^ 31 → Guarded s → Guarded (happens (opens c) s)
unfolding scull_u_open
opens-Guarded c {s} few g = elim (Bool-cases (s.users.count == 0)) [
  | inl h ↦
      let empty : length s.files ≡ 0 = sym g.counted ∙ ==→eq s.users.count 0 h in
      rw h (record {
        counted = ground (arith, g.counted);
        entitled = (inl refl, nothing c.uid s.files empty);
      })
  | inr h ↦ elim (Bool-cases (s.users.owner == c.uid)) [
    | inl k ↦ rw (h, k) (joined c few g (inl (==→eq _ _ k)))
    | inr k ↦ elim (Bool-cases (s.users.owner == c.euid)) [
      | inl l ↦ rw (h, k, l) (joined c few g (inr (inl (==→eq _ _ l))))
      | inr l ↦ rw (h, k, l) (by_capability c c.dac_override refl few g)
    ]
  ]
]

closes-Guarded :
    (n : ℕ) {s : Session} → length s.files < 2 ^ 31 → Guarded s → Guarded (happens (closes n) s)
unfolding scull_u_release
closes-Guarded n {s} few g = elim (Bool-cases (ltb n (length s.files))) [
  | inr h ↦ rw h g
  | inl h ↦
      let l = length-without n s.files (ground (arith, h)) in
      rw h (record {
        counted = omega (arith, l, g.counted);
        entitled = AllEntitled-without s.users.owner n s.files g.entitled;
      })
]

-- The answer of sculluid as one of scullwuid: EAGAIN in place of EBUSY.
abbrev pub as_w : Ret × Users → Opening
as_w (returns n, u) = done (returns n) u
as_w (fails e, u) = done (fails eagain) u

-- `scull_w_open` of a file that does not block answers as `scull_u_open` does, with EAGAIN in place
-- of EBUSY, and leaves the same counts.
pub scull_w_open-nonblock :
    (c : Caller) (u : Users) → scull_w_open true [] c u ≡ as_w (scull_u_open c u)
unfolding scull_w_open scull_u_open scull_w_available
scull_w_open-nonblock c u = ground arith

happens-Guarded :
    (e : Event) {s : Session} → length s.files < 2 ^ 31 → Guarded s → Guarded (happens e s)
happens-Guarded (opens c) few g = opens-Guarded c few g
happens-Guarded (closes n) few g = closes-Guarded n few g

length-admitted :
    (c : Caller) (cs : List Caller) (r : Ret × Users)
    → length (admitted c cs r).files ≤ length cs + 1
length-admitted c cs (returns n, u) = omega arith
length-admitted c cs (fails e, u) = omega arith

length-happens : (e : Event) (s : Session) → length (happens e s).files ≤ length s.files + 1
length-happens (opens c) s = length-admitted c s.files (scull_u_open c s.users)
length-happens (closes n) s = elim (Bool-cases (ltb n (length s.files))) [
  | inl h ↦ rw h (omega (arith, length-without n s.files (ground (arith, h))))
  | inr h ↦ rw h (omega arith)
]

-- From a session of sculluid in which the count is the number of open files and each of them was
-- opened by an entitled caller, after any sequence of opens and closes of fewer than 2 ^ 31 files
-- that is so again: whoever has the device open is its owner, runs with the owner's rights, or may
-- pass over permissions.
pub session-Guarded :
    (es : List Event) {s : Session}
    → length s.files + length es < 2 ^ 31
    → Guarded s
    → Guarded (session es s)
unfolding session
session-Guarded [] few g = g
session-Guarded (e ∷ es) {s} few g =
    session-Guarded es (omega (arith, length-happens e s)) (happens-Guarded e (omega arith) g)
