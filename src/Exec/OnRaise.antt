-- ===== src/Exec/OnRaise.antt =====
-- What an action that raises leaves as it was, when what it does before keeps that and only its last
-- part, which does not raise, changes it.
use mathlib.Core.Path.{◌≡◌, refl}
use mathlib.Core.Bool.{Bool, true, false}
use reli.Result.{Result, ok, err}
use reli.Exec.{Exec, ◌>>=◌, try}
use reli.Exec.Preserves.{Preserves}
use reli.Prelude.{if◌then◌else◌}

pub record OnRaise {S E A : Type 0} (I : S → Type 0) (m : Exec S E A) : Type 0 where
  pub left : (s : S) → I s → (e : E) → (m s).0 ≡ err e → I (m s).1

module _ {S E A : Type 0} (I : S → Type 0) where
  pub OnRaise-Preserves : (m : Exec S E A) → Preserves I m → OnRaise I m
  OnRaise-Preserves m h = record { left = λ s i e r. h.keeps s i }

  pub OnRaise-total : (m : Exec S E A) → ((s : S) → (a : A) × ((m s).0 ≡ ok a)) → OnRaise I m
  OnRaise-total m h = record { left = λ s i e r. cc ((h s).1, r) }

  pub OnRaise-if :
      (b : Bool) (m n : Exec S E A) → OnRaise I m → OnRaise I n → OnRaise I (if b then m else n)
  OnRaise-if true m n hm hn = hm
  OnRaise-if false m n hm hn = hn

  pub OnRaise-try :
      (m : Exec S E A) (h : E → Exec S E A)
      → OnRaise I m
      → ((e : E) → OnRaise I (h e))
      → OnRaise I (try m h)
  unfolding try
  OnRaise-try m h hm hh = record { left = λ s i e. let (r, t) = m s in caught r t (hm.left s i) e }
    where
      caught :
          (r : Result E A) (t : S)
          → ((e : E) → r ≡ err e → I t)
          → (e : E) → (try (λ _. (r, t)) h t).0 ≡ err e
          → I (try (λ _. (r, t)) h t).1
      caught (ok a) t i e r = cc
      caught (err x) t i e r = (hh x).left t (i x refl) e r

module _ {S E A B : Type 0} (I : S → Type 0) where
  pub OnRaise-bind :
      (m : Exec S E A) (f : A → Exec S E B)
      → Preserves I m
      → ((a : A) → OnRaise I (f a))
      → OnRaise I (m >>= f)
  unfolding ◌>>=◌
  OnRaise-bind m f hm hf = record {
    left = λ s i e. let (r, t) = m s in resumed r t (hm.keeps s i) e;
  }
    where
      resumed :
          (r : Result E A) (t : S)
          → I t
          → (e : E) → (((λ _. (r, t)) >>= f) t).0 ≡ err e
          → I (((λ _. (r, t)) >>= f) t).1
      resumed (ok a) t i e r = (hf a).left t i e r
      resumed (err x) t i e r = i

pub ruleset on_raise_rules = (OnRaise-try, OnRaise-bind, OnRaise-if)
