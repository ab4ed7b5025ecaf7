-- ===== src/ShortPrint/Added.antt =====
-- What a write of LinuxDeviceDrivers3Ed/shortprint/shortprint.c adds to the bytes on their way.
use mathlib.Core.Bool.{false≢true}
use leipocode.Base.{
  ℕ, zero, suc, ◌+◌, ◌≤◌, ◌≡◌, sym, ap, ◌∙◌, Bool, true, false, List, [], ◌∷◌, ◌++◌, append_assoc,
  append-nil, arith, length, take, drop, length-drop,
}
use leipocode.Kernel.{returns, fails}
use leipocode.ShortPrint.{Ending, sleeps, ends, overflows, ShortPrint, Sent}
use leipocode.ShortPrint.Stream.{stream, Leads}

take-add : (m n : ℕ) (src : List ℕ) → take (m + n) src ≡ take m src ++ take n (drop m src)
take-add zero n src = ap (λ k. take k src) (omega arith)
take-add (suc m) zero [] = let whole : suc m + 0 ≡ suc m = omega arith in ap (λ k. take k []) whole
take-add (suc m) (suc n) [] =
    let whole : suc m + suc n ≡ suc (m + suc n) = omega arith in ap (λ k. take k []) whole
take-add (suc m) n (x ∷ src) =
    let whole : suc m + n ≡ suc (m + n) = omega arith in
    ap (λ k. take k (x ∷ src)) whole ∙ ap (λ l. x ∷ l) (take-add m n src)

abbrev pub is_overflow : Ending → Bool
is_overflow overflows = true
is_overflow (ends r) = false
is_overflow sleeps = false

-- The first of `src` are on their way; what is returned is how many were accepted.
pub record Added (src : List ℕ) (written : ℕ) (s : ShortPrint) (out : Sent) : Type 0 where
  pub added : ℕ
  pub counted : out.accepted ≡ written + added
  pub within : added ≤ length src
  pub leads : Leads (stream s ++ take added src) out.state
  pub agrees : (k : ℕ) → out.ret ≡ ends (returns k) → (k ≡ out.accepted) × (out.moved ≡ k)
  pub in_int : is_overflow out.ret ≡ false

-- A return or a wait with nothing more accepted.
pub nothing-Added :
    (src : List ℕ) (written moved : ℕ) (s t : ShortPrint) (ret : Ending)
    → Leads (stream s) t
    → ((k : ℕ) → ret ≡ ends (returns k) → (k ≡ written) × (moved ≡ k))
    → is_overflow ret ≡ false
    → Added src written s (record { ret = ret; accepted = written; moved = moved; state = t })
nothing-Added src written moved s t ret l agrees small = record {
  added = 0;
  counted = omega arith;
  within = omega arith;
  leads = record { valid = l.valid; streamed = l.streamed ∙ sym (append-nil (stream s)) };
  agrees = agrees;
  in_int = small;
}

abbrev count_of : Ending → ℕ
count_of (ends (returns k)) = k
count_of (ends (fails e)) = 0
count_of sleeps = 0
count_of overflows = 0

pub returned :
    (written k : ℕ) → ends (returns written) ≡ ends (returns k) → (k ≡ written) × (written ≡ k)
returned written k e = (sym (ap count_of e), ap count_of e)

abbrev pub is_count : Ending → Bool
is_count (ends (returns k)) = true
is_count (ends (fails e)) = false
is_count sleeps = false
is_count overflows = false

pub no_count :
    (ret : Ending) (k : ℕ) {A : Type 0} → is_count ret ≡ false → ret ≡ ends (returns k) → A
no_count ret k n e = absurd (false≢true (sym n ∙ ap is_count e))

-- A round that accepts `n` bytes, and those behind it.
pub then-Added :
    (src : List ℕ) (written n : ℕ) (s t : ShortPrint) (out : Sent)
    → n ≤ length src
    → stream t ≡ stream s ++ take n src
    → Added (drop n src) (written + n) t out
    → Added src written s out
then-Added src written n s t out fits streamed a = record {
  added = n + a.added;
  counted = omega (arith, a.counted);
  within = omega (arith, a.within, length-drop n src, fits);
  leads = record {
    valid = a.leads.valid;
    streamed =
        a.leads.streamed
        ∙ ap (λ l. l ++ take a.added (drop n src)) streamed
        ∙ append_assoc (stream s) (take n src) (take a.added (drop n src))
        ∙ ap (λ l. stream s ++ l) (sym (take-add n a.added src));
  };
  agrees = a.agrees;
  in_int = a.in_int;
}

-- What happens before a round changes nothing of it.
pub later-Added :
    (src : List ℕ) (written : ℕ) (s t : ShortPrint) (out : Sent)
    → stream t ≡ stream s
    → Added src written t out
    → Added src written s out
later-Added src written s t out same a = record {
  added = a.added;
  counted = a.counted;
  within = a.within;
  leads = record {
    valid = a.leads.valid;
    streamed = a.leads.streamed ∙ ap (λ l. l ++ take a.added src) same;
  };
  agrees = a.agrees;
  in_int = a.in_int;
}
