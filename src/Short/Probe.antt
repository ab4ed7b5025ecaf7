-- ===== src/Short/Probe.antt =====
-- The search for the interrupt line in LinuxDeviceDrivers3Ed/short/short.c.
use leipocode.Base.{
  ℕ, ◌+◌, Bool, true, false, ◌&&◌, Option, none, some, List, [], ◌∷◌, ltb, ◌==◌, if◌then◌else◌,
}

-- `short_irq`: a line, or the number of a line with a minus sign.
pub data Irq : Type 0 where
  line minus : ℕ → Irq

abbrev pub is_found : Irq → Bool
is_found (line n) = true
is_found (minus n) = n == 0

-- What `probe_irq_off` gives, with -1 for 0.
abbrev pub reported : Irq → Irq
reported (line n) = if n == 0 then minus 1 else line n
reported (minus n) = if n == 0 then minus 1 else minus n

-- The loop; `answers` are those of `probe_irq_off`. `short_irq` and `count` at its end; `none` while
-- it goes on.
unfoldable pub short_kernelprobe : (answers : List Irq) (count : ℕ) → Option (Irq × ℕ)
short_kernelprobe [] count = none
short_kernelprobe (a ∷ answers) count =
    let irq = reported a in
    let rest = short_kernelprobe answers (count + 1) in
    if is_found irq then some (irq, count) else if ltb count 5 then rest else some (irq, count + 1)

abbrev pub same_line : Irq → ℕ → Bool
same_line (line n) irq = n == irq
same_line (minus n) irq = n == 0 && (irq == 0)

abbrev pub is_zero : Irq → Bool
is_zero (line n) = n == 0
is_zero (minus n) = n == 0

-- The handler, which is told the line.
unfoldable pub short_probing : (irq : ℕ) → Irq → Irq
short_probing irq i =
    let found = if is_zero i then line irq else i in
    if same_line found irq then found else minus irq

abbrev pub fired : List ℕ → Irq → Irq
fired [] i = i
fired (irq ∷ irqs) i = fired irqs (short_probing irq i)

abbrev pub is_positive : Irq → Bool
is_positive (line n) = ltb 0 n
is_positive (minus n) = false

-- The loop; `rounds` has the lines that fire in each round.
unfoldable pub selfprobe_loop : (rounds : List (List ℕ)) (count : ℕ) → Option (Irq × ℕ)
unfolding short_probing
selfprobe_loop [] count = none
selfprobe_loop (irqs ∷ rounds) count =
    let irq = fired irqs (line 0) in
    let rest = selfprobe_loop rounds (count + 1) in
    if is_positive irq
    then some (irq, count)
    else if ltb count 5
    then rest
    else some (irq, count + 1)

-- The lines that are tried.
abbrev pub trials : List ℕ
trials = 3 ∷ 5 ∷ 7 ∷ 9 ∷ []

-- The lines that `request_irq` gave.
abbrev pub acquired : List ℕ → List Bool → List ℕ
acquired [] oks = []
acquired (t ∷ ts) [] = []
acquired (t ∷ ts) (ok ∷ oks) = if ok then t ∷ acquired ts oks else acquired ts oks

-- The result of the loop, and the lines that are freed; `oks` says which requests succeed.
unfoldable pub short_selfprobe :
    (oks : List Bool) (rounds : List (List ℕ)) → Option (Irq × ℕ) × List ℕ
unfolding selfprobe_loop
short_selfprobe oks rounds = (selfprobe_loop rounds 0, acquired trials oks)
