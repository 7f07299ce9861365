-- ===== src/Exec.antt =====
-- Code that reads and writes a state and may raise. An exception keeps the state it was raised in:
-- a Python `except` clause, or the end of the request, sees what was written before.
pub mod Preserves
pub mod Leads
pub mod OnRaise
pub mod Returns
use mathlib.Core.Bool.{Bool, true, false}
use mathlib.Core.List.{List, [], ◌∷◌}
use mathlib.Core.Option.{Option, none, some}
use reli.Result.{Result, ok, err}

abbrev pub Exec : Type 0 → Type 0 → Type 0 → Type 0
Exec S E A = S → Result E A × S

module _ {S E A : Type 0} where
  unfoldable pub pure : A → Exec S E A
  pure a s = (ok a, s)

  unfoldable pub raise : E → Exec S E A
  raise e s = (err e, s)

  unfoldable pub lift : Result E A → Exec S E A
  lift r s = (r, s)

  unfoldable pub gets : (S → A) → Exec S E A
  gets f s = (ok (f s), s)

  -- The value, or `raise` where there is none.
  unfoldable pub or_raise : Option A → E → Exec S E A
  or_raise none e s = (err e, s)
  or_raise (some a) e s = (ok a, s)

module _ {S E : Type 0} where
  unfoldable pub modify : (S → S) → Exec S E (Unit {0})
  modify f s = (ok tt, f s)

  -- `if not test: raise e`
  unfoldable pub guard : Bool → E → Exec S E (Unit {0})
  guard true e s = (ok tt, s)
  guard false e s = (err e, s)

module _ {S E A B : Type 0} where
  abbrev pub resume : Result E A → (A → Exec S E B) → Exec S E B
  resume (ok a) f s = f a s
  resume (err e) f s = (err e, s)

  infixl 5 ◌>>=◌ ◌>>◌
  unfoldable pub ◌>>=◌ : Exec S E A → (A → Exec S E B) → Exec S E B
  unfolding pure raise lift gets or_raise modify guard
  ◌>>=◌ m f s = let (r, s') = m s in resume r f s'

  abbrev pub ◌>>◌ : Exec S E A → Exec S E B → Exec S E B
  m >> n = m >>= λ _. n

module _ {S E A : Type 0} where
  -- `for x in xs: body(x)`
  unfoldable pub for_each : List A → (A → Exec S E (Unit {0})) → Exec S E (Unit {0})
  unfolding pure
  for_each [] body = pure tt
  for_each (x ∷ xs) body = body x >> for_each xs body

module _ {S E A : Type 0} where
  abbrev handle : Result E A → (E → Exec S E A) → Exec S E A
  handle (ok a) h s = (ok a, s)
  handle (err e) h s = h e s

  -- `try: m except E as e: h(e)`
  unfoldable pub try : Exec S E A → (E → Exec S E A) → Exec S E A
  try m h s = let (r, s') = m s in handle r h s'

-- `except E as e: raise f(e)`
unfoldable pub map_error : {S E F A : Type 0} → (E → F) → Exec S E A → Exec S F A
map_error f m s = let (r, s') = m s in (elim r [ ok a ↦ ok a | err e ↦ err (f e) ], s')
