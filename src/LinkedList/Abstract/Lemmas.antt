-- ===== src/LinkedList/Abstract/Lemmas.antt =====
-- Laws of the operations on sequences.
use leipocode.Base.{◌≡◌, refl, sym, true, false, List, [], ◌∷◌, ◌++◌, arith, ne→==, eq→==}
use leipocode.LinkedList.Memory.{Ptr}
use leipocode.LinkedList.Chain.{NotIn}
use leipocode.LinkedList.Abstract.{member, insert_after, erase}

pub member-absent : (d : Ptr) (l : List Ptr) → NotIn d l → member d l ≡ false
unfolding member
member-absent d [] out = refl
member-absent d (x ∷ l) out = rw (ne→== x d (λ e. out.0 (sym e))) (member-absent d l out.1)

pub member-middle : (d : Ptr) (xs ys : List Ptr) → member d (xs ++ d ∷ ys) ≡ true
unfolding member
member-middle d [] ys = rw (eq→== d d refl)
member-middle d (x ∷ xs) ys = ground (arith, member-middle d xs ys)

pub insert_after-middle :
    (d r : Ptr) (xs ys : List Ptr) → NotIn r xs → insert_after d r (xs ++ r ∷ ys) ≡ xs ++ r ∷ d ∷ ys
unfolding insert_after
insert_after-middle d r [] ys out = rw (eq→== r r refl)
insert_after-middle d r (x ∷ xs) ys out =
    rw (ne→== x r (λ e. out.0 (sym e)), insert_after-middle d r xs ys out.1)

pub erase-middle : (d : Ptr) (xs ys : List Ptr) → NotIn d xs → erase d (xs ++ d ∷ ys) ≡ xs ++ ys
unfolding erase
erase-middle d [] ys out = rw (eq→== d d refl)
erase-middle d (x ∷ xs) ys out = rw (ne→== x d (λ e. out.0 (sym e)), erase-middle d xs ys out.1)
