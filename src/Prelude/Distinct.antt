-- ===== src/Prelude/Distinct.antt =====
-- Lists of numbers without repetition, and counts of what passes a test.
use mathlib.Core.Path.{◌≡◌, refl, sym, subst}
use mathlib.Core.Logic.{inl, inr}
use mathlib.Core.Bool.{Bool, true, false, not}
use mathlib.Core.List.{List, [], ◌∷◌}
use native.Mathlib.Omega.{arith}
use Prim.Native.Nat.{ℕ, suc, ◌≤◌, ◌<◌}
use reli.Prelude.Tests.{Bool-cases, ◌==◌, ℕ_equals, eq_of_equals}
use reli.Prelude.Lists.{contains, filter, length}
use reli.Prelude.Members.{In, contains-In, In-contains}

abbrev pub IsDistinct : List ℕ → Type 0
IsDistinct [] = Unit
IsDistinct (x ∷ xs) = (contains x xs ≡ false) × IsDistinct xs

contains-without :
    (a x : ℕ) (xs : List ℕ)
    → contains a xs ≡ true
    → (a == x) ≡ false
    → contains a (filter (λ y. not (y == x)) xs) ≡ true
contains-without a x [] h n = absurd (ground (arith, h))
contains-without a x (y ∷ ys) h n = ground (arith, contains-without a x ys, h, n)

length-without_le : (x : ℕ) (xs : List ℕ) → length (filter (λ y. not (y == x)) xs) ≤ length xs
length-without_le x [] = omega arith
length-without_le x (y ∷ ys) = ground (arith, length-without_le x ys)

length-without :
    (x : ℕ) (xs : List ℕ)
    → contains x xs ≡ true
    → suc (length (filter (λ y. not (y == x)) xs)) ≤ length xs
length-without x [] h = absurd (ground (arith, h))
length-without x (y ∷ ys) h = ground (arith, length-without x ys, length-without_le x ys, h)

-- Distinct elements that are all in another list are at most as many.
pub IsDistinct-le :
    (xs ys : List ℕ) → IsDistinct xs → ((a : ℕ) → In a xs → In a ys) → length xs ≤ length ys
IsDistinct-le [] ys d sub = omega arith
IsDistinct-le (x ∷ xs) ys d sub = omega (
  arith,
  length-without x ys (In-contains x ys (sub x (inl refl))),
  IsDistinct-le xs (filter (λ y. not (y == x)) ys) d.1 (λ a m. contains-In a _ (
      contains-without a x ys (In-contains a ys (sub a (inr m))) (elim (Bool-cases (a == x)) [
        | inl e ↦ absurd (
            ground (
              arith,
              subst (λ z. contains z xs ≡ true) (eq_of_equals a x e) (In-contains a xs m),
              d.0,
            ))
        | inr e ↦ e
      ]))),
)

module _ {A : Type 0} (p q : A → Bool) where
  length-filter_mono :
      (xs : List A)
      → ((a : A) → p a ≡ true → q a ≡ true)
      → length (filter p xs) ≤ length (filter q xs)
  length-filter_mono [] h = omega arith
  length-filter_mono (x ∷ xs) h = ground (arith, length-filter_mono xs h, h x)

  -- A weaker test that passes one element more passes more of them.
  pub length-filter-lt :
      (a : A) (xs : List A)
      → ((b : A) → p b ≡ true → q b ≡ true)
      → In a xs
      → p a ≡ false
      → q a ≡ true
      → length (filter p xs) < length (filter q xs)
  length-filter-lt a [] h m f t = absurd m
  length-filter-lt a (x ∷ xs) h (inl e) f t = ground (
    arith,
    length-filter_mono xs h,
    subst (λ y. p y ≡ false) (sym e) f,
    subst (λ y. q y ≡ true) (sym e) t,
  )
  length-filter-lt a (x ∷ xs) h (inr m) f t = ground (arith, length-filter-lt a xs h m f t, h x)
