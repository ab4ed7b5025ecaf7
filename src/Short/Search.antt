-- ===== src/Short/Search.antt =====
-- The search for the interrupt line in LinuxDeviceDrivers3Ed/short/short.c: it ends, and the line it
-- finds.
use leipocode.Base.{
  ℕ, suc, ◌+◌, ◌≤◌, ◌<◌, ◌≡◌, refl, sym, ap, subst, ◌∙◌, inl, inr, Bool, true, false, Option, some,
  List, [], ◌∷◌, ltb, leb, ◌==◌, lt→ltb, le→ltb, lt→leb, le→leb, ne→==, eq→==, ==→eq, Bool-cases,
  length, get_elem?, arith,
}
use native.Mathlib.Decide.{dec_lt}
use mathlib.Core.Bool.{true≢false, false≢true}
use mathlib.Core.Option.{some-injective, none-ne-some}
use leipocode.Short.Probe.{
  Irq, line, minus, is_found, reported, short_kernelprobe, short_probing, fired, is_positive,
  selfprobe_loop, short_selfprobe,
}

-- A search that has ended: with a line after at most five counts, or without one when the count is 6.
abbrev Ended : Option (Irq × ℕ) → Type 0
Ended o =
    (irq : Irq) × (count : ℕ) × (o ≡ some (irq, count)) × (count ≤ 6) × (is_found irq ≡ leb count 5)

short_kernelprobe_lem :
    (answers : List Irq) (count : ℕ)
    → count ≤ 5
    → 6 ≤ count + length answers
    → Ended (short_kernelprobe answers count)
unfolding short_kernelprobe
short_kernelprobe_lem [] count h l = absurd (omega arith)
short_kernelprobe_lem (a ∷ answers) count h l = elim (Bool-cases (is_found (reported a))) [
  | inl e ↦ (reported a, count, rw e refl, omega arith, e ∙ sym (le→leb count 5 h))
  | inr e ↦ elim (dec_lt count 5) [
    | yes more ↦
        let goes_on : short_kernelprobe (a ∷ answers) count
            ≡ short_kernelprobe answers (count + 1) =
          rw (e, lt→ltb count 5 more) refl in
        subst Ended (sym goes_on)
          (short_kernelprobe_lem answers (count + 1) (omega arith) (omega (arith, l)))
    | no last ↦ (
      reported a,
      count + 1,
      rw (e, le→ltb count 5 (omega arith)) refl,
      omega arith,
      e ∙ sym (lt→leb (count + 1) 5 (omega arith)),
    )
  ]
]

-- When the kernel answers at least six probes, the search ends, after six probes at most: with a line,
-- or with none and the count 6.
pub six_probes :
    (answers : List Irq)
    → 6 ≤ length answers
    → (irq : Irq) × (count : ℕ) × (short_kernelprobe answers 0 ≡ some (irq, count))
      × (count ≤ 6)
      × (is_found irq ≡ leb count 5)
six_probes answers l = short_kernelprobe_lem answers 0 (omega arith) (omega (arith, l))

-- Only the line `n` is in the list.
abbrev pub Only : ℕ → List ℕ → Type 0
Only n [] = Unit {0}
Only n (irq ∷ irqs) = (irq ≡ n) × Only n irqs

abbrev pub Positive : List ℕ → Type 0
Positive [] = Unit {0}
Positive (irq ∷ irqs) = (0 < irq) × Positive irqs

stays_minus :
    (irqs : List ℕ) (k : ℕ) → 0 < k → Positive irqs → is_positive (fired irqs (minus k)) ≡ false
unfolding short_probing
stays_minus [] k h p = refl
stays_minus (irq ∷ irqs) k h (first, p) =
    let no_zero : (k == 0) ≡ false = ne→== k 0 (λ e. omega (arith, e)) in
    let step : short_probing irq (minus k) ≡ minus irq = rw (no_zero, no_zero) refl in
    ap (λ i. is_positive (fired irqs i)) step ∙ stays_minus irqs irq first p

fired-Only :
    (irqs : List ℕ) (n : ℕ)
    → 0 < n
    → Positive irqs
    → is_positive (fired irqs (line n)) ≡ true
    → (fired irqs (line n) ≡ line n) × Only n irqs
unfolding short_probing
fired-Only [] n h p e = (refl, tt)
fired-Only (irq ∷ irqs) n h (first, p) e =
    let no_zero : (n == 0) ≡ false = ne→== n 0 (λ z. omega (arith, z)) in
    elim (Bool-cases (n == irq)) [
      | inl s ↦
          let step : short_probing irq (line n) ≡ line n = rw (no_zero, s) refl in
          let (same, only) =
            fired-Only irqs n h p (subst (λ i. is_positive (fired irqs i) ≡ true) step e) in
          (ap (fired irqs) step ∙ same, (sym (==→eq n irq s), only))
      | inr d ↦
          let step : short_probing irq (line n) ≡ minus irq = rw (no_zero, d) refl in
          absurd (
            true≢false
              (sym e ∙ ap (λ i. is_positive (fired irqs i)) step ∙ stays_minus irqs irq first p))
    ]

abbrev pub AllPositive : List (List ℕ) → Type 0
AllPositive [] = Unit {0}
AllPositive (irqs ∷ rounds) = Positive irqs × AllPositive rounds

-- The line that was found, and the round.
abbrev Found : List (List ℕ) → Irq → ℕ → Type 0
Found rounds irq i =
    (n : ℕ) × (more : List ℕ) × (irq ≡ line n)
    × (get_elem? rounds i ≡ some (n ∷ more))
    × Only n more

fired-Found :
    (irqs : List ℕ) (rounds : List (List ℕ))
    → Positive irqs
    → is_positive (fired irqs (line 0)) ≡ true
    → Found (irqs ∷ rounds) (fired irqs (line 0)) 0
unfolding short_probing
fired-Found [] rounds p e = absurd (false≢true e)
fired-Found (irq ∷ irqs) rounds (first, p) e =
    let step : short_probing irq (line 0) ≡ line irq = rw (eq→== irq irq refl) refl in
    let (same, only) =
      fired-Only irqs irq first p (subst (λ i. is_positive (fired irqs i) ≡ true) step e) in
    (irq, irqs, ap (fired irqs) step ∙ same, refl, only)

abbrev irq_of : Irq × ℕ → Irq
irq_of found = found.0

abbrev count_of : Irq × ℕ → ℕ
count_of found = found.1

selfprobe_loop-Found :
    (rounds : List (List ℕ)) (count last : ℕ) (irq : Irq)
    → AllPositive rounds
    → is_positive irq ≡ true
    → selfprobe_loop rounds count ≡ some (irq, last)
    → (i : ℕ) × (last ≡ count + i) × Found rounds irq i
unfolding selfprobe_loop
selfprobe_loop-Found [] count last irq p found e = absurd (none-ne-some _ e)
selfprobe_loop-Found (irqs ∷ rounds) count last irq (first, p) found e =
    elim (Bool-cases (is_positive (fired irqs (line 0)))) [
      | inl hit ↦
          let same = some-injective _ _ (rw hit at e) in
          (
            0,
            omega (arith, ap count_of same),
            subst (λ i. Found (irqs ∷ rounds) i 0) (ap irq_of same)
                (fired-Found irqs rounds first hit),
          )
      | inr miss ↦ elim (Bool-cases (ltb count 5)) [
        | inl more ↦
            let (i, at, f) =
              selfprobe_loop-Found rounds (count + 1) last irq p found (rw (miss, more) at e) in
            (suc i, omega (arith, at), (f.0, f.1, f.2, f.3, f.4))
        | inr over ↦
            let same = some-injective _ _ (rw (miss, over) at e) in
            absurd (false≢true (sym miss ∙ ap is_positive (ap irq_of same) ∙ found))
      ]
    ]

-- No line has the number 0: when the self-probing ends with a positive `short_irq` and a count, that
-- is a line which fired in the round with this number, first, and no other line fired in that round.
pub one_line_fired :
    (oks : List Bool) (rounds : List (List ℕ)) (irq : Irq) (count : ℕ)
    → AllPositive rounds
    → is_positive irq ≡ true
    → (short_selfprobe oks rounds).0 ≡ some (irq, count)
    → (n : ℕ) × (more : List ℕ) × (irq ≡ line n)
      × (get_elem? rounds count ≡ some (n ∷ more))
      × Only n more
unfolding short_selfprobe
one_line_fired oks rounds irq count p found e =
    let (i, at, f) = selfprobe_loop-Found rounds 0 count irq p found e in
    subst (Found rounds irq) (sym (omega (arith, at))) f
