-- ===== src/Exec/Returns.antt =====
-- What is known of the parts of a sequence that has returned a value.
use mathlib.Core.Path.{◌≡◌, refl}
use mathlib.Core.Bool.{Bool, true, false}
use mathlib.Core.Option.{Option, none, some}
use mathlib.Core.List.{List, [], ◌∷◌}
use native.Mathlib.Omega.{arith}
use mathlib.Core.Logic.{◌⊎◌, inl, inr}
use reli.Prelude.{All, if◌then◌else◌}
use reli.Result.{Result, ok, err}
use reli.Exec.{Exec, gets, pure, guard, or_raise, for_each, ◌>>=◌, ◌>>◌}

module _ {S E A B : Type 0} (m : Exec S E A) (f : A → Exec S E B) (s : S) where
  -- A sequence that returns is two actions that return.
  pub bind-returns :
      (b : B) (u : S)
      → (m >>= f) s ≡ (ok b, u)
      → (a : A) × (t : S) × (m s ≡ (ok a, t)) × (f a t ≡ (ok b, u))
  unfolding ◌>>=◌
  bind-returns b u h = let (r, t) = m s in split r t refl h
    where
      split :
          (r : Result E A) (t : S)
          → m s ≡ (r, t)
          → ((λ _. (r, t)) >>= f) s ≡ (ok b, u)
          → (a : A) × (t : S) × (m s ≡ (ok a, t)) × (f a t ≡ (ok b, u))
      split (ok a) t e h = (a, t, e, h)
      split (err x) t e h = cc

-- The rest of a sequence behind a guard that passed.
pub guarded-returns :
    {S E A : Type 0} (b : Bool) (x : E) (m : Exec S E A) (s : S) (a : A) (t : S)
    → (guard b x >> m) s ≡ (ok a, t)
    → (b ≡ true) × (m s ≡ (ok a, t))
unfolding guard ◌>>=◌
guarded-returns true x m s a t e = (refl, e)
guarded-returns false x m s a t e = cc

-- The rest of a sequence behind a lookup that found something.
pub found-returns :
    {S E A B : Type 0} (o : Option A) (x : E) (f : A → Exec S E B) (s : S) (b : B) (t : S)
    → (or_raise o x >>= f) s ≡ (ok b, t)
    → (a : A) × (o ≡ some a) × (f a s ≡ (ok b, t))
unfolding or_raise ◌>>=◌
found-returns (some a) x f s b t e = (a, refl, e)
found-returns none x f s b t e = absurd cc

-- A loop of guards that passes has done nothing but to check every element.
pub for_each-guard_returns :
    {S E A : Type 0} (b : A → Bool) (x : A → E) (xs : List A) (s t : S)
    → for_each xs (λ a. guard (b a) (x a)) s ≡ (ok tt, t)
    → All (λ a. b a ≡ true) xs × (s ≡ t)
unfolding for_each pure
for_each-guard_returns b x [] s t e = (tt, ground (arith, e))
for_each-guard_returns b x (a ∷ xs) s t e =
    let first = guarded-returns (b a) (x a) (for_each xs (λ a. guard (b a) (x a))) s tt t e in
    let rest = for_each-guard_returns b x xs s t first.1 in ((first.0, rest.0), rest.1)

-- What a reading returns, and that it changes nothing.
pub gets-returns :
    {S E A : Type 0} (f : S → A) (s : S) (a : A) (t : S)
    → gets {E = E} f s ≡ (ok a, t)
    → (a ≡ f s) × (t ≡ s)
unfolding gets
gets-returns f s a t e = (ground (arith, e), ground (arith, e))

pub pure-returns :
    {S E A : Type 0} (x : A) (s : S) (a : A) (t : S)
    → pure {E = E} x s ≡ (ok a, t)
    → (a ≡ x) × (t ≡ s)
unfolding pure
pure-returns x s a t e = (ground (arith, e), ground (arith, e))

-- The branch that returned.
pub if-returns :
    {S E A : Type 0} (b : Bool) (m n : Exec S E A) (s : S) (a : A) (t : S)
    → (if b then m else n) s ≡ (ok a, t)
    → ((b ≡ true) × (m s ≡ (ok a, t))) ⊎ ((b ≡ false) × (n s ≡ (ok a, t)))
if-returns true m n s a t e = inl (refl, e)
if-returns false m n s a t e = inr (refl, e)
