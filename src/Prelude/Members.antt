-- ===== src/Prelude/Members.antt =====
-- Membership of an element in a list, and what the operations on lists do to it.
use mathlib.Core.Path.{◌≡◌, refl, sym, subst, ap}
use mathlib.Core.Logic.{◌⊎◌, inl, inr}
use mathlib.Core.Bool.{Bool, true}
use mathlib.Core.List.{List, [], ◌∷◌, ◌++◌, map}
use native.Mathlib.Omega.{arith}
use reli.Prelude.Tests.{Bool-cases, HasEquals, ◌==◌, eq_of_equals}
use reli.Prelude.Lists.{any, filter, All, All-filter_passed, contains}
use reli.Prelude.Sort.{sort, insert_sorted, All-sort}

module _ {A : Type 0} where
  abbrev pub In : A → List A → Type 0
  In a [] = ⊥
  In a (x ∷ xs) = (x ≡ a) ⊎ In a xs

  pub In-append_left : (a : A) (xs ys : List A) → In a xs → In a (xs ++ ys)
  In-append_left a [] ys h = absurd h
  In-append_left a (x ∷ xs) ys (inl e) = inl e
  In-append_left a (x ∷ xs) ys (inr h) = inr (In-append_left a xs ys h)

  pub In-append_right : (a : A) (xs ys : List A) → In a ys → In a (xs ++ ys)
  In-append_right a [] ys h = h
  In-append_right a (x ∷ xs) ys h = inr (In-append_right a xs ys h)

  pub In-append : (a : A) (xs ys : List A) → In a (xs ++ ys) → In a xs ⊎ In a ys
  In-append a [] ys h = inr h
  In-append a (x ∷ xs) ys (inl e) = inl (inl e)
  In-append a (x ∷ xs) ys (inr h) = elim (In-append a xs ys h) [
    | inl l ↦ inl (inr l)
    | inr r ↦ inr r
  ]

  pub In-filter : (p : A → Bool) (a : A) (xs : List A) → In a xs → p a ≡ true → In a (filter p xs)
  In-filter p a [] h e = absurd h
  In-filter p a (x ∷ xs) (inl k) e = rw (subst (λ y. p y ≡ true) (sym k) e) (inl k)
  In-filter p a (x ∷ xs) (inr h) e = elim (Bool-cases (p x)) [
    | inl t ↦ rw t (inr (In-filter p a xs h e))
    | inr f ↦ rw f (In-filter p a xs h e)
  ]

  pub In-any : (p : A → Bool) (xs : List A) → any p xs ≡ true → (a : A) × In a xs × (p a ≡ true)
  In-any p [] h = absurd (ground (arith, h))
  In-any p (x ∷ xs) h = elim (Bool-cases (p x)) [
    | inl t ↦ (x, inl refl, t)
    | inr f ↦ let k = In-any p xs (ground (arith, h, f)) in (k.0, inr k.1, k.2)
  ]

  pub any-In : (p : A → Bool) (a : A) (xs : List A) → In a xs → p a ≡ true → any p xs ≡ true
  any-In p a [] h e = absurd h
  any-In p a (x ∷ xs) (inl k) e = rw (subst (λ y. p y ≡ true) (sym k) e)
  any-In p a (x ∷ xs) (inr h) e = ground (arith, any-In p a xs h e)

  pub All-In {κ} : (P : A → Type κ) (xs : List A) → ((a : A) → In a xs → P a) → All P xs
  All-In P [] f = tt
  All-In P (x ∷ xs) f = (f x (inl refl), All-In P xs (λ a h. f a (inr h)))

  pub In-All {κ} : (P : A → Type κ) (a : A) (xs : List A) → All P xs → In a xs → P a
  In-All P a [] k h = absurd h
  In-All P a (x ∷ xs) k (inl e) = subst P e k.0
  In-All P a (x ∷ xs) k (inr h) = In-All P a xs k.1 h

  pub In-insert_sorted :
      (before : A → A → Bool) (a x : A) (xs : List A)
      → In a (x ∷ xs)
      → In a (insert_sorted before x xs)
  unfolding insert_sorted
  In-insert_sorted before a x [] h = h
  In-insert_sorted before a x (y ∷ ys) h = elim (Bool-cases (before x y)) [
    | inl t ↦ rw t h
    | inr f ↦ rw f (elim h [
      | inl e ↦ inr (In-insert_sorted before a x ys (inl e))
      | inr (inl e) ↦ inl e
      | inr (inr k) ↦ inr (In-insert_sorted before a x ys (inr k))
    ])
  ]

  pub In-sort : (before : A → A → Bool) (a : A) (xs : List A) → In a xs → In a (sort before xs)
  unfolding sort
  In-sort before a [] h = h
  In-sort before a (x ∷ xs) h =
      In-insert_sorted before a x (sort before xs)
        (elim h [ inl e ↦ inl e | inr k ↦ inr (In-sort before a xs k) ])

  pub filter-In : (p : A → Bool) (a : A) (xs : List A) → In a (filter p xs) → In a xs × (p a ≡ true)
  filter-In p a xs h =
      In-All _ a _
        (All-filter_passed (λ b. In b xs × (p b ≡ true)) p xs (All-In _ xs (λ b m e. (m, e)))) h

  pub sort-In : (before : A → A → Bool) (a : A) (xs : List A) → In a (sort before xs) → In a xs
  sort-In before a xs h =
      In-All _ a _ (All-sort before (λ b. In b xs) xs (All-In _ xs (λ b m. m))) h

  -- Tests that agree on the elements choose the same ones.
  pub filter-same :
      (p q : A → Bool) (xs : List A) → ((a : A) → In a xs → p a ≡ q a) → filter p xs ≡ filter q xs
  filter-same p q [] h = refl
  filter-same p q (x ∷ xs) h =
      ground (arith, h x (inl refl), filter-same p q xs (λ a m. h a (inr m)))

pub map-In :
    {A B : Type 0} (f : A → B) (b : B) (xs : List A)
    → In b (map f xs)
    → (a : A) × In a xs × (f a ≡ b)
map-In f b [] h = absurd h
map-In f b (x ∷ xs) (inl e) = (x, inl refl, e)
map-In f b (x ∷ xs) (inr h) = let k = map-In f b xs h in (k.0, inr k.1, k.2)

pub In-map : {A B : Type 0} (f : A → B) (a : A) (xs : List A) → In a xs → In (f a) (map f xs)
In-map f a [] h = absurd h
In-map f a (x ∷ xs) (inl e) = inl (ap f e)
In-map f a (x ∷ xs) (inr h) = inr (In-map f a xs h)

module _ {A : Type 0} ⦃e : HasEquals A⦄ where
  pub contains-In : (a : A) (xs : List A) → contains a xs ≡ true → In a xs
  contains-In a [] h = absurd (ground (arith, h))
  contains-In a (x ∷ xs) h = elim (Bool-cases (x == a)) [
    | inl t ↦ inl (eq_of_equals x a t)
    | inr f ↦ inr (contains-In a xs (ground (arith, h, f)))
  ]

  pub In-contains : (a : A) (xs : List A) → In a xs → contains a xs ≡ true
  In-contains a [] h = absurd h
  In-contains a (x ∷ xs) (inl k) = rw ((e.equals_iff x a).1 k) refl
  In-contains a (x ∷ xs) (inr h) = ground (arith, In-contains a xs h)
