-- ===== src/Exec/Preserves.antt =====
-- What an action keeps of the state it runs in, whether it returns or raises: one rule for each way
-- to build an action.
use mathlib.Core.Path.{◌≡◌, refl}
use mathlib.Core.Bool.{Bool, true, false}
use mathlib.Core.List.{List, [], ◌∷◌}
use mathlib.Core.Option.{Option, none, some}
use reli.Result.{Result, ok, err}
use reli.Exec.{
  Exec, pure, raise, lift, gets, or_raise, modify, guard, ◌>>=◌, for_each, try, map_error,
}
use reli.Prelude.{if◌then◌else◌}

pub record Preserves {S E A : Type 0} (I : S → Type 0) (m : Exec S E A) : Type 0 where
  pub keeps : (s : S) → I s → I (m s).1

module _ {S E A : Type 0} (I : S → Type 0) where
  pub Preserves-pure : (a : A) → Preserves {E = E} I (pure a)
  unfolding pure
  Preserves-pure a = record { keeps = λ s h. h }

  pub Preserves-raise : (e : E) → Preserves {A = A} I (raise e)
  unfolding raise
  Preserves-raise e = record { keeps = λ s h. h }

  pub Preserves-lift : (r : Result E A) → Preserves I (lift r)
  unfolding lift
  Preserves-lift r = record { keeps = λ s h. h }

  pub Preserves-gets : (f : S → A) → Preserves {E = E} I (gets f)
  unfolding gets
  Preserves-gets f = record { keeps = λ s h. h }

  pub Preserves-or_raise : (o : Option A) (e : E) → Preserves I (or_raise o e)
  unfolding or_raise
  Preserves-or_raise none e = record { keeps = λ s h. h }
  Preserves-or_raise (some a) e = record { keeps = λ s h. h }

  pub Preserves-if :
      (b : Bool) (m n : Exec S E A)
      → (b ≡ true → Preserves I m)
      → (b ≡ false → Preserves I n)
      → Preserves I (if b then m else n)
  Preserves-if true m n hm hn = hm refl
  Preserves-if false m n hm hn = hn refl

  pub Preserves-try :
      (m : Exec S E A) (h : E → Exec S E A)
      → Preserves I m
      → ((e : E) → Preserves I (h e))
      → Preserves I (try m h)
  unfolding try
  Preserves-try m h pm ph = record { keeps = λ s i. caught (m s).0 (m s).1 (pm.keeps s i) }
    where
      caught :
          (r : Result E A) (s : S) → I s → I (let t : Result E A × S = (r, s) in try (λ _. t) h s).1
      caught (ok a) s i = i
      caught (err e) s i = (ph e).keeps s i

module _ {S E : Type 0} (I : S → Type 0) where
  pub Preserves-guard : (b : Bool) (e : E) → Preserves I (guard b e)
  unfolding guard
  Preserves-guard true e = record { keeps = λ s h. h }
  Preserves-guard false e = record { keeps = λ s h. h }

  pub Preserves-modify : (f : S → S) → ((s : S) → I s → I (f s)) → Preserves {E = E} I (modify f)
  unfolding modify
  Preserves-modify f h = record { keeps = h }

module _ {S E A B : Type 0} (I : S → Type 0) where
  pub Preserves-lift_bind :
      (r : Result E A) (f : A → Exec S E B)
      → ((a : A) → r ≡ ok a → Preserves I (f a))
      → Preserves I (lift r >>= f)
  unfolding ◌>>=◌
  Preserves-lift_bind (ok a) f hf = hf a refl
  Preserves-lift_bind (err e) f hf = record { keeps = λ s h. h }

  pub Preserves-bind :
      (m : Exec S E A) (f : A → Exec S E B)
      → Preserves I m
      → ((a : A) → Preserves I (f a))
      → Preserves I (m >>= f)
  unfolding ◌>>=◌
  Preserves-bind m f hm hf = record {
    keeps =
        λ s i. let (r, t) = m s in (Preserves-lift_bind r f (λ a _. hf a)).keeps t (hm.keeps s i);
  }

module _ {S E A : Type 0} (I : S → Type 0) where
  pub Preserves-for_each :
      (xs : List A) (body : A → Exec S E (Unit {0}))
      → ((x : A) → Preserves I (body x))
      → Preserves I (for_each xs body)
  unfolding for_each
  Preserves-for_each [] body h = record { keeps = λ s i. i }
  Preserves-for_each (x ∷ xs) body h =
      Preserves-bind I (body x) _ (h x) (λ _. Preserves-for_each xs body h)

module _ {S E F A : Type 0} (I : S → Type 0) where
  pub Preserves-map_error :
      (f : E → F) (m : Exec S E A) → Preserves I m → Preserves I (map_error f m)
  unfolding map_error
  Preserves-map_error f m h = record { keeps = h.keeps }

pub ruleset preserves_rules = (
  Preserves-pure, Preserves-raise, Preserves-lift, Preserves-gets, Preserves-guard,
  Preserves-modify, Preserves-if, Preserves-try, Preserves-bind, Preserves-for_each,
  Preserves-map_error,
)
