-- ===== src/Base/Rings.antt =====
-- Circular buffers: the elements from a read index round to a write index, and how they change when
-- one of the two moves on.
use Prim.Native.Nat.{ℕ, zero, suc, ◌+◌, ◌-◌, ◌≤◌, ◌<◌}
use mathlib.Core.Path.{◌≡◌, refl, sym, ap, ap₂, ◌∙◌}
use mathlib.Core.List.{List, [], ◌∷◌, ◌++◌, append_assoc, append-nil}
use native.Mathlib.Omega.{arith}
use native.Mathlib.Decide.{dec_lt}
use leipocode.Base.Tests.{leb, if◌then◌else◌, le→leb, lt→leb}
use mathlib.Core.Option.{Option, none, some}
use leipocode.Base.Arrays.{get_elem?, length, length-append}
use leipocode.Base.Slices.{
  slice, write_at, length-slice, slice-add, slice-split, slice-write_at-before,
  slice-write_at-behind,
}

-- An index of a buffer of `size`, moved on to the end at most.
abbrev pub next_index : (size i k : ℕ) → ℕ
next_index size i k = if leb size (i + k) then 0 else i + k

-- How many lie in one piece at the read index.
abbrev pub in_one_piece : (size r w : ℕ) → ℕ
in_one_piece size r w = if leb r w then w - r else size - r

-- A place of a buffer that is there.
abbrev pub byte_of : Option ℕ → ℕ
byte_of none = 0
byte_of (some b) = b

pub slice-one : (b : List ℕ) (i : ℕ) → i < length b → slice b i 1 ≡ byte_of (get_elem? b i) ∷ []
slice-one [] i h = absurd (omega arith)
slice-one (x ∷ b) zero h = refl
slice-one (x ∷ b) (suc i) h = slice-one b i (omega (arith, h))

module _ {ℓ} {A : Type ℓ} where
  -- What is held, oldest first; `r` and `w` are the read and the write index.
  unfoldable pub held : (size : ℕ) → List A → (r w : ℕ) → List A
  held size b r w = if leb r w then slice b r (w - r) else slice b r (size - r) ++ slice b 0 w

  pub length-held :
      (size : ℕ) (b : List A) (r w : ℕ)
      → size ≤ length b
      → r < size
      → w < size
      → length (held size b r w) ≡ (if leb r w then w - r else size - r + w)
  unfolding held
  length-held size b r w room rs ws = ground (
    arith,
    length-slice b r (w - r),
    length-slice b r (size - r),
    length-slice b 0 w,
    length-append (slice b r (size - r)) (slice b 0 w),
  )

  -- The oldest `k` go, from one piece.
  pub held-next :
      (size : ℕ) (b : List A) (r w k : ℕ)
      → r < size
      → w < size
      → k ≤ in_one_piece size r w
      → slice b r k ++ held size b (next_index size r k) w ≡ held size b r w
  unfolding held
  held-next size b r w k rs ws piece = elim (dec_lt w r) [
    | no h ↦
        let below : k ≤ w - r = ground (arith, piece) in
        rw
          (
            lt→leb size (r + k) (omega arith),
            le→leb (r + k) w (omega arith),
            le→leb r w (omega arith),
          )
          (ap (λ l. slice b r k ++ slice b (r + k) l) (omega arith)
            ∙ slice-split b r k (w - r) below)
    | yes h ↦
        let below : k ≤ size - r = ground (arith, piece) in
        elim (dec_lt (r + k) size) [
          | yes inside ↦
              rw (lt→leb size (r + k) inside, lt→leb (r + k) w (omega arith), lt→leb r w h)
                (sym (append_assoc (slice b r k) (slice b (r + k) (size - (r + k))) (slice b 0 w))
                  ∙ ap (λ l. l ++ slice b 0 w)
                      (ap (λ m. slice b r k ++ slice b (r + k) m) (omega arith)
                        ∙ slice-split b r k (size - r) below))
          | no all ↦
              rw (le→leb size (r + k) (omega arith), le→leb 0 w (omega arith), lt→leb r w h)
                (ap₂ (λ m l. slice b r m ++ slice b 0 l) (omega arith) (omega arith))
        ]
  ]

  -- What is written first, where more is written behind it.
  slice-write_at-first :
      (b xs ys : List A) (j : ℕ)
      → j + length xs ≤ length b
      → slice (write_at j (xs ++ ys) b) j (length xs) ≡ xs
  slice-write_at-first [] [] ys zero h = refl
  slice-write_at-first [] [] ys (suc j) h = absurd (omega arith)
  slice-write_at-first [] (x ∷ xs) ys j h = absurd (omega arith)
  slice-write_at-first (y ∷ b) [] ys zero h = refl
  slice-write_at-first (y ∷ b) (x ∷ xs) ys zero h =
      ap (λ l. x ∷ l) (slice-write_at-first b xs ys zero (omega arith))
  slice-write_at-first (y ∷ b) xs ys (suc j) h = slice-write_at-first b xs ys j (omega arith)

  slice-grow_by :
      (b xs ys : List A) (i j : ℕ)
      → i ≤ j
      → j + length xs ≤ length b
      → slice (write_at j (xs ++ ys) b) i (j + length xs - i) ≡ slice b i (j - i) ++ xs
  slice-grow_by b xs ys i j h k =
      let c = write_at j (xs ++ ys) b in
      ap (slice c i) (omega arith)
      ∙ slice-add c i (j - i) (length xs)
      ∙ ap₂ ◌++◌ (slice-write_at-before b (xs ++ ys) i (j - i) j (omega arith))
          (ap (λ m. slice c m (length xs)) (omega arith) ∙ slice-write_at-first b xs ys j k)

  -- `xs` are written at the write index, up to the end at most, and `ys` behind them, where nothing is
  -- held; then `xs` are held too.
  pub held-write :
      (size : ℕ) (b xs ys : List A) (r w : ℕ)
      → size ≤ length b
      → r < size
      → w + length xs ≤ size
      → length (held size b r w) + length xs < size
      → 0 < length xs
      → length ys ≤ 1
      → held size (write_at w (xs ++ ys) b) r (next_index size w (length xs))
        ≡ held size b r w ++ xs
  unfolding held
  held-write size b xs ys r w room rs fits free some_xs few =
      let c = write_at w (xs ++ ys) b in
      let n = length xs in
      let l = length-held size b r w room rs (omega arith) in
      let long : length (xs ++ ys) ≡ length xs + length ys = length-append xs ys in
      elim (dec_lt w r) [
        | yes h ↦
            let whole : length (held size b r w) ≡ size - r + w = l ∙ rw (lt→leb r w h) refl in
            let gap : w + n < r = omega (arith, whole, free) in
            rw (lt→leb size (w + n) (omega arith), lt→leb r (w + n) (omega arith), lt→leb r w h)
              (ap₂ ◌++◌ (slice-write_at-behind b (xs ++ ys) r (size - r) w (omega (arith, long))) (
                  ap (slice c 0) (omega arith)
                  ∙ slice-grow_by b xs ys 0 w (omega arith) (omega arith)
                  ∙ ap (λ m. slice b 0 m ++ xs) (omega arith))
                ∙ sym (append_assoc (slice b r (size - r)) (slice b 0 w) xs))
        | no h ↦ elim (dec_lt (w + n) size) [
          | yes inside ↦
              rw
                (
                  lt→leb size (w + n) inside,
                  le→leb r (w + n) (omega arith),
                  le→leb r w (omega arith),
                )
                (slice-grow_by b xs ys r w (omega arith) (omega arith))
          | no all ↦
              let whole : length (held size b r w) ≡ w - r =
                l ∙ rw (le→leb r w (omega arith)) refl in
              let wrapped : 0 < r = omega (arith, whole, free, all) in
              rw (le→leb size (w + n) (omega arith), lt→leb r 0 wrapped, le→leb r w (omega arith))
                (append-nil _
                  ∙ ap (slice c r) (omega arith)
                  ∙ slice-grow_by b xs ys r w (omega arith) (omega arith))
        ]
      ]

  -- What is written where nothing is held changes nothing that is.
  pub held-write_at :
      (size : ℕ) (b xs : List A) (r w : ℕ)
      → r < size
      → (w < r → w + length xs ≤ r)
      → held size (write_at w xs b) r w ≡ held size b r w
  unfolding held
  held-write_at size b xs r w rs free = elim (dec_lt w r) [
    | yes h ↦ rw (lt→leb r w h) (
        ap₂ ◌++◌ (slice-write_at-behind b xs r (size - r) w (free h))
          (slice-write_at-before b xs 0 w w (omega arith)))
    | no h ↦ rw (le→leb r w (omega arith)) (slice-write_at-before b xs r (w - r) w (omega arith))
  ]

  pub held-empty : (size : ℕ) (b : List A) (r w : ℕ) → w ≡ r → held size b r w ≡ []
  unfolding held
  held-empty size b r w e =
      let none_held : w - r ≡ 0 = omega (arith, e) in
      rw (le→leb r w (omega (arith, e))) (ap (slice b r) none_held)
