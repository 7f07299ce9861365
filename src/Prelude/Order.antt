-- ===== src/Prelude/Order.antt =====
-- A Boolean order that is total and transitive, and what a sort by it is.
use mathlib.Core.Path.{◌≡◌, refl, ap, ◌∙◌}
use mathlib.Core.Logic.{inl, inr}
use mathlib.Core.Bool.{Bool, true, false, ◌||◌}
use mathlib.Core.List.{List, [], ◌∷◌}
use native.Mathlib.Omega.{arith}
use Prim.Native.Nat.{ℕ, zero, suc}
use reli.Prelude.Tests.{Bool-cases}
use reli.Prelude.Lists.{All, All-mono, All-filter, filter, take, All-take}
use reli.Prelude.Sort.{sort, insert_sorted, All-insert_sorted}

module _ {ℓ} {A : Type ℓ} where
  pub record IsPreorder (before : A → A → Bool) : Type ℓ where
    pub total : (a b : A) → (before a b || before b a) ≡ true
    pub trans : (a b c : A) → before a b ≡ true → before b c ≡ true → before a c ≡ true

  -- Every element comes before those that follow it.
  abbrev pub IsOrdered : (A → A → Bool) → List A → Type ℓ
  IsOrdered before [] = Unit
  IsOrdered before (x ∷ xs) = All (λ y. before x y ≡ true) xs × IsOrdered before xs

module _ {ℓ} {A : Type ℓ} (before : A → A → Bool) where
  pub take-IsOrdered : (n : ℕ) (xs : List A) → IsOrdered before xs → IsOrdered before (take n xs)
  take-IsOrdered zero xs h = tt
  take-IsOrdered (suc n) [] h = tt
  take-IsOrdered (suc n) (x ∷ xs) h = (All-take _ n xs h.0, take-IsOrdered n xs h.1)

  module _ (p : IsPreorder before) where
    pub insert_sorted-IsOrdered :
        (x : A) (xs : List A) → IsOrdered before xs → IsOrdered before (insert_sorted before x xs)
    unfolding insert_sorted
    insert_sorted-IsOrdered x [] h = (tt, tt)
    insert_sorted-IsOrdered x (y ∷ ys) h = elim (Bool-cases (before x y)) [
      | inl e ↦ rw e (
        (
          e,
          All-mono (λ z. before y z ≡ true) (λ z. before x z ≡ true) (λ z k. p.trans x y z e k) ys
              h.0,
        ),
        h,
      )
      | inr e ↦ rw e (
        All-insert_sorted before (λ z. before y z ≡ true) x ys (ground (arith, e, p.total x y)) h.0,
        insert_sorted-IsOrdered x ys h.1,
      )
    ]

    pub sort-IsOrdered : (xs : List A) → IsOrdered before (sort before xs)
    unfolding sort
    sort-IsOrdered [] = tt
    sort-IsOrdered (x ∷ xs) = insert_sorted-IsOrdered x (sort before xs) (sort-IsOrdered xs)

    insert_sorted-first :
        (x : A) (xs : List A) → All (λ y. before x y ≡ true) xs → insert_sorted before x xs ≡ x ∷ xs
    unfolding insert_sorted
    insert_sorted-first x [] h = refl
    insert_sorted-first x (y ∷ ys) h = ground (arith, h.0)

    filter-insert_sorted_kept :
        (q : A → Bool) (x : A) (xs : List A)
        → IsOrdered before xs
        → q x ≡ true
        → filter q (insert_sorted before x xs) ≡ insert_sorted before x (filter q xs)
    unfolding insert_sorted
    filter-insert_sorted_kept q x [] o e = ground (arith, e)
    filter-insert_sorted_kept q x (y ∷ ys) o e = elim (Bool-cases (before x y)) [
      | inl t ↦
          let all : All (λ z. before x z ≡ true) (y ∷ ys) = (
            t,
            All-mono (λ z. before y z ≡ true) (λ z. before x z ≡ true) (λ z k. p.trans x y z t k) ys
                o.0,
          ) in
          ground (
            arith,
            t,
            e,
            insert_sorted-first x (filter q (y ∷ ys))
                (All-filter (λ z. before x z ≡ true) q (y ∷ ys) all),
          )
      | inr f ↦ ground (arith, f, e, filter-insert_sorted_kept q x ys o.1 e)
    ]

    filter-insert_sorted_dropped :
        (q : A → Bool) (x : A) (xs : List A)
        → q x ≡ false
        → filter q (insert_sorted before x xs) ≡ filter q xs
    unfolding insert_sorted
    filter-insert_sorted_dropped q x [] e = ground (arith, e)
    filter-insert_sorted_dropped q x (y ∷ ys) e =
        ground (arith, e, filter-insert_sorted_dropped q x ys e)

    -- Sorting and choosing some of the elements commute.
    pub filter-sort :
        (q : A → Bool) (xs : List A) → filter q (sort before xs) ≡ sort before (filter q xs)
    unfolding sort
    filter-sort q [] = refl
    filter-sort q (x ∷ xs) = elim (Bool-cases (q x)) [
      | inl t ↦ rw t (
          filter-insert_sorted_kept q x (sort before xs) (sort-IsOrdered xs) t
          ∙ ap (insert_sorted before x) (filter-sort q xs))
      | inr f ↦ rw f (filter-insert_sorted_dropped q x (sort before xs) f ∙ filter-sort q xs)
    ]
