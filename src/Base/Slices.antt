-- ===== src/Base/Slices.antt =====
-- Parts of an array: what `memcpy` and its like read and write.
use Prim.Native.Nat.{ℕ, zero, suc, ◌+◌, ◌-◌, ◌≤◌}
use mathlib.Core.Path.{◌≡◌, refl, sym, ap, ap₂, ◌∙◌}
use mathlib.Core.List.{List, [], ◌∷◌, ◌++◌}
use native.Mathlib.Nat.{zero-add, suc-add}
use native.Mathlib.Omega.{arith}
use leipocode.Base.Arrays.{length, take, drop, length-take, length-drop}

module _ {ℓ} {A : Type ℓ} where
  -- The `n` elements from index `i` on, as many as there are.
  abbrev pub slice : List A → ℕ → ℕ → List A
  slice b i n = take n (drop i b)

  -- Writes `xs` from index `i` on; what lies out of bounds is not written.
  abbrev pub write_at : ℕ → List A → List A → List A
  write_at i xs [] = []
  write_at zero [] (y ∷ b) = y ∷ b
  write_at zero (x ∷ xs) (y ∷ b) = x ∷ write_at zero xs b
  write_at (suc i) xs (y ∷ b) = y ∷ write_at i xs b

  pub length-write_at : (i : ℕ) (xs b : List A) → length (write_at i xs b) ≡ length b
  length-write_at i xs [] = refl
  length-write_at zero [] (y ∷ b) = refl
  length-write_at zero (x ∷ xs) (y ∷ b) = ap suc (length-write_at zero xs b)
  length-write_at (suc i) xs (y ∷ b) = ap suc (length-write_at i xs b)

  pub length-slice : (b : List A) (i n : ℕ) → i + n ≤ length b → length (slice b i n) ≡ n
  length-slice b i n h = omega (arith, length-take n (drop i b), length-drop i b)

  take_nil : (n : ℕ) → take {A = A} n [] ≡ []
  take_nil zero = refl
  take_nil (suc n) = refl

  drop_nil : (n : ℕ) → drop {A = A} n [] ≡ []
  drop_nil zero = refl
  drop_nil (suc n) = refl

  pub slice-add : (b : List A) (i m n : ℕ) → slice b i (m + n) ≡ slice b i m ++ slice b (i + m) n
  slice-add [] i m n = rw (drop_nil, drop_nil, take_nil, take_nil, take_nil)
  slice-add (y ∷ b) zero zero n = rw zero-add
  slice-add (y ∷ b) zero (suc m) n =
      rw (suc-add, zero-add) (ap (λ l. y ∷ l) (slice-add b zero m n ∙ rw zero-add))
  slice-add (y ∷ b) (suc i) m n = rw suc-add (slice-add b i m n)

  pub slice-split :
      (b : List A) (i m k : ℕ) → m ≤ k → slice b i m ++ slice b (i + m) (k - m) ≡ slice b i k
  slice-split b i m k h = sym (slice-add b i m (k - m)) ∙ ap (slice b i) (omega arith)

  -- Before, at and behind the place that is written.
  pub slice-write_at-before :
      (b xs : List A) (i n j : ℕ) → i + n ≤ j → slice (write_at j xs b) i n ≡ slice b i n
  slice-write_at-before [] xs i n j h = refl
  slice-write_at-before (y ∷ b) xs zero zero j h = refl
  slice-write_at-before (y ∷ b) xs zero (suc n) zero h = absurd (omega arith)
  slice-write_at-before (y ∷ b) xs zero (suc n) (suc j) h =
      ap (λ l. y ∷ l) (slice-write_at-before b xs zero n j (omega arith))
  slice-write_at-before (y ∷ b) xs (suc i) n zero h = absurd (omega arith)
  slice-write_at-before (y ∷ b) xs (suc i) n (suc j) h =
      slice-write_at-before b xs i n j (omega arith)

  pub slice-write_at_self :
      (b xs : List A) (j : ℕ)
      → j + length xs ≤ length b
      → slice (write_at j xs b) j (length xs) ≡ xs
  slice-write_at_self [] [] zero h = refl
  slice-write_at_self [] [] (suc j) h = absurd (omega arith)
  slice-write_at_self [] (x ∷ xs) j h = absurd (omega arith)
  slice-write_at_self (y ∷ b) [] zero h = refl
  slice-write_at_self (y ∷ b) (x ∷ xs) zero h =
      ap (λ l. x ∷ l) (slice-write_at_self b xs zero (omega arith))
  slice-write_at_self (y ∷ b) xs (suc j) h = slice-write_at_self b xs j (omega arith)

  pub slice-write_at-behind :
      (b xs : List A) (i n j : ℕ) → j + length xs ≤ i → slice (write_at j xs b) i n ≡ slice b i n
  slice-write_at-behind [] xs i n j h = refl
  slice-write_at-behind (y ∷ b) [] zero n zero h = refl
  slice-write_at-behind (y ∷ b) (x ∷ xs) zero n zero h = absurd (omega arith)
  slice-write_at-behind (y ∷ b) xs zero n (suc j) h = absurd (omega arith)
  slice-write_at-behind (y ∷ b) [] (suc i) n zero h = refl
  slice-write_at-behind (y ∷ b) (x ∷ xs) (suc i) n zero h =
      slice-write_at-behind b xs i n zero (omega arith)
  slice-write_at-behind (y ∷ b) xs (suc i) n (suc j) h =
      slice-write_at-behind b xs i n j (omega arith)

  -- A part that ends where something is written grows by what is written.
  pub slice-grow :
      (b xs : List A) (i j : ℕ)
      → i ≤ j
      → j + length xs ≤ length b
      → slice (write_at j xs b) i (j + length xs - i) ≡ slice b i (j - i) ++ xs
  slice-grow b xs i j h k =
      let c = write_at j xs b in
      ap (slice c i) (omega arith)
      ∙ slice-add c i (j - i) (length xs)
      ∙ ap₂ ◌++◌ (slice-write_at-before b xs i (j - i) j (omega arith))
          (ap (λ m. slice c m (length xs)) (omega arith) ∙ slice-write_at_self b xs j k)
