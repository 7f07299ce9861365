-- ===== src/Exec/Leads.antt =====
-- What holds of the state after an action, whether it returned or raised, if something held before:
-- for actions whose later part relies on what the earlier part read.
use mathlib.Core.Path.{◌≡◌, refl}
use mathlib.Core.Bool.{Bool, true, false}
use reli.Result.{Result, ok, err}
use reli.Exec.{Exec, lift, gets, guard, ◌>>=◌, ◌>>◌}
use reli.Exec.Preserves.{Preserves}

pub record Leads {S E A : Type 0} (I J : S → Type 0) (m : Exec S E A) : Type 0 where
  pub leads : (s : S) → I s → J (m s).1

module _ {S E A B : Type 0} (I J : S → Type 0) (weaken : (s : S) → I s → J s) where
  -- The first action keeps what the second one needs.
  pub Leads-bind :
      (m : Exec S E A) (f : A → Exec S E B)
      → Preserves I m
      → ((a : A) → Leads I J (f a))
      → Leads I J (m >>= f)
  unfolding ◌>>=◌
  Leads-bind m f hm hf = record { leads = λ s i. let (r, t) = m s in resumed r t (hm.keeps s i) }
    where
      resumed : (r : Result E A) (t : S) → I t → J (((λ _. (r, t)) >>= f) t).1
      resumed (ok a) t i = (hf a).leads t i
      resumed (err e) t i = weaken t i

  -- The second action may use that the check passed.
  pub Leads-lift :
      (r : Result E A) (f : A → Exec S E B)
      → ((a : A) → r ≡ ok a → Leads I J (f a))
      → Leads I J (lift r >>= f)
  unfolding ◌>>=◌
  Leads-lift (ok a) f hf = hf a refl
  Leads-lift (err e) f hf = record { leads = weaken }

module _ {S E B : Type 0} (I J : S → Type 0) (weaken : (s : S) → I s → J s) where
  pub Leads-guard :
      (b : Bool) (e : E) (n : Exec S E B) → (b ≡ true → Leads I J n) → Leads I J (guard b e >> n)
  unfolding ◌>>=◌
  Leads-guard true e n hn = record { leads = λ s i. (hn refl).leads s i }
  Leads-guard false e n hn = record { leads = weaken }

module _ {S E A B : Type 0} (I J : S → Type 0) where
  -- The second action may use what the first one read.
  pub Leads-gets :
      (g : S → A) (f : A → Exec S E B)
      → ((a : A) → Leads (λ s. I s × (g s ≡ a)) J (f a))
      → Leads I J (gets g >>= f)
  unfolding ◌>>=◌
  Leads-gets g f hf = record { leads = λ s i. (hf (g s)).leads s (i, refl) }

  -- The second action keeps what the first one leads to.
  pub Leads-then :
      (m : Exec S E A) (f : A → Exec S E B)
      → Leads I J m
      → ((a : A) → Preserves J (f a))
      → Leads I J (m >>= f)
  unfolding ◌>>=◌
  Leads-then m f hm hf = record { leads = λ s i. let (r, t) = m s in resumed r t (hm.leads s i) }
    where
      resumed : (r : Result E A) (t : S) → J t → J (((λ _. (r, t)) >>= f) t).1
      resumed (ok a) t j = (hf a).keeps t j
      resumed (err e) t j = j

module _ {S E A B : Type 0} (I J K : S → Type 0) (weaken : (s : S) → J s → K s) where
  pub Leads-trans :
      (m : Exec S E A) (f : A → Exec S E B)
      → Leads I J m
      → ((a : A) → Leads J K (f a))
      → Leads I K (m >>= f)
  unfolding ◌>>=◌
  Leads-trans m f hm hf = record { leads = λ s i. let (r, t) = m s in resumed r t (hm.leads s i) }
    where
      resumed : (r : Result E A) (t : S) → J t → K (((λ _. (r, t)) >>= f) t).1
      resumed (ok a) t j = (hf a).leads t j
      resumed (err e) t j = weaken t j

module _ {S E A : Type 0} (I : S → Type 0) where
  pub Leads-Preserves : (m : Exec S E A) → Leads I I m → Preserves I m
  Leads-Preserves m h = record { keeps = h.leads }
