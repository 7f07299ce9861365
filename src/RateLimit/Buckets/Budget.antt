-- ===== src/RateLimit/Buckets/Budget.antt =====
-- How many requests of one key are allowed, whatever else is asked in between.
use reli.Prelude.{
  ℕ, ◌+◌, ◌-◌, ◌*◌, ◌≤◌, String, ◌≡◌, refl, sym, subst, Bool, true, false, ◌&&◌, not, is_some, List,
  [], ◌∷◌, ◌==◌, eq_of_equals, &&-cases, String_equals, inl, inr, Bool-cases, All, All-append,
  All-mono, arith,
}
use reli.RateLimit.Buckets.{
  Floats, Key, Bucket, Entry, same_key, find_bucket, drawn_from, take_token, spent, has_token,
}
use reli.RateLimit.Buckets.Entries.{
  find_bucket_mono, drawn_from-cases, drawn_from-IsOther, All-drawn_from,
}
use reli.RateLimit.Buckets.Bounded.{Take}
use reli.RateLimit.Buckets.Covered.{
  count, same_key-≡, elapsed, is_of, call_count, Tracks, allowed_count, full_count, Rising,
  Rising-le, Covered, Covered-later, IsOther-Covered, spent-Covered, pays,
}

module _ {F : Type 0} (f : Floats F) (value : F → ℕ) (unit error : ℕ) where
  -- A step of the budget: what a call leaves is covered by what there was, less the token it took.
  abbrev Spends : String → Key → ℕ → Take F → ℕ → ℕ → Bool → Bool → Bool → List (Entry F) → Type 0
  Spends tier key limit r t c own allowed is_full es =
      (left : ℕ) × All (Covered f value unit error tier key limit left (value r.now)) es
      × (60 * unit * count allowed + left
          ≤ c
            + count is_full * (60 * limit * unit)
            + (value r.now - t) * limit
            + 120 * error * count own)

  others-Spends :
      (tier : String) (key : Key) (limit : ℕ) (r : Take F) (es : List (Entry F)) (t c : ℕ)
      → is_of tier key r ≡ false
      → t ≤ value r.now
      → All (Covered f value unit error tier key limit c t) es
      → Spends tier key limit r t c false false false (take_token f r.tier r.key r.now es).1
  unfolding take_token
  others-Spends tier key limit r es t c other later h = (
    c + (value r.now - t) * limit,
    All-append _ _ _
        (All-drawn_from f _ r.tier r.key r.now es (
          All-mono _ _
            (λ e. Covered-later f value unit error tier key limit c t (value r.now) e later) es h))
        (λ own. absurd (ground (arith, other, own)), tt),
    omega arith,
  )

  module _ (r : Take F) (es : List (Entry F)) (t c : ℕ)
      (k : Tracks f value unit error r.tier.limit) where
    -- A sixtieth of what the bucket of the call may have.
    abbrev most : ℕ
    most =
        c
        + count (not (is_some (find_bucket r.tier.name r.key es))) * (60 * r.tier.limit * unit)
        + (value r.now - t) * r.tier.limit
        + 60 * error

    abbrev IsDrawn : Bucket F → Type 0
    IsDrawn b =
        (value b.updated ≡ value r.now)
        × (value b.tokens ≤ r.tier.limit * unit)
        × (60 * value b.tokens ≤ most)

    -- The bucket that a call draws from is as of its instant, and has at most what there was or a full one.
    drawn_from-IsDrawn :
        t ≤ value r.now
        → All (Covered f value unit error r.tier.name r.key r.tier.limit c t) es
        → IsDrawn (drawn_from f r.tier r.key r.now es).1
    drawn_from-IsDrawn later h = elim (drawn_from-cases f r.tier r.key r.now es) [
      | inl (absent, e) ↦
          subst (λ d. IsDrawn d.1) (sym e) (refl, k.full, rw absent (omega (arith, k.full)))
      | inr (b, there, e) ↦
          let (x, covered, own, same) =
            find_bucket_mono r.tier.name r.key
              (Covered f value unit error r.tier.name r.key r.tier.limit
                (c + (value r.now - t) * r.tier.limit) (value r.now))
              es b
              (All-mono _ _
                (λ x.
                  Covered-later f value unit error r.tier.name r.key r.tier.limit c t (value r.now)
                    x later)
                es h)
              there in
          let got =
            subst
              (λ (x : Bucket F).
                (value x.updated ≤ value r.now)
                × (60 * value x.tokens + (value r.now - value x.updated) * r.tier.limit
                    ≤ c + (value r.now - t) * r.tier.limit))
              same (covered own) in
          subst (λ d. IsDrawn d.1) (sym e)
            (
              refl,
              k.capped _,
              rw there (omega (arith, got.1, k.refills b.tokens b.updated r.now got.0)),
            )
    ]

    own-Spends :
        t ≤ value r.now
        → All (Covered f value unit error r.tier.name r.key r.tier.limit c t) es
        → Spends r.tier.name r.key r.tier.limit r t c true
            (take_token f r.tier r.key r.now es).0.allowed
            (not (is_some (find_bucket r.tier.name r.key es)))
            (take_token f r.tier r.key r.now es).1
    unfolding take_token
    own-Spends later h =
        let d = drawn_from f r.tier r.key r.now es in
        let (at, cap, enough) = drawn_from-IsDrawn later h in
        let (older, left) =
          spent-Covered f value unit error r.tier.name r.key r.tier.limit most d.1 k cap enough in
        let after : Entry F = record { tier = r.tier.name; key = r.key; bucket = spent f d.1 } in
        (
          most + 60 * error - 60 * unit * count (has_token f d.1),
          All-append _ _ _
              (All-mono _ _
                (IsOther-Covered f value unit error r.tier.name r.key r.tier.limit _ (value r.now))
                d.0 (drawn_from-IsOther f r.tier r.key r.now es))
              (
                subst
                    (λ u.
                      Covered f value unit error r.tier.name r.key r.tier.limit
                        (most + 60 * error - 60 * unit * count (has_token f d.1)) u after)
                    at (λ own. (older, left)),
                tt,
              ),
          omega (
            arith,
            pays f value unit error r.tier.name r.key r.tier.limit r.tier most d.1 k cap enough,
          ),
        )

  -- One call, whomever it is for.
  take_token-Spends :
      (tier : String) (key : Key) (limit : ℕ) (r : Take F) (es : List (Entry F)) (t c : ℕ)
      → Tracks f value unit error limit
      → (is_of tier key r ≡ true → r.tier.limit ≡ limit)
      → t ≤ value r.now
      → All (Covered f value unit error tier key limit c t) es
      → Spends tier key limit r t c
          (is_of tier key r)
          (is_of tier key r && (take_token f r.tier r.key r.now es).0.allowed)
          (is_of tier key r && not (is_some (find_bucket tier key es)))
          (take_token f r.tier r.key r.now es).1
  take_token-Spends tier key limit r es t c k same later h = elim (Bool-cases (is_of tier key r)) [
    | inr other ↦
        subst
          (λ b.
            Spends tier key limit r t c b (b && (take_token f r.tier r.key r.now es).0.allowed)
              (b && not (is_some (find_bucket tier key es))) (take_token f r.tier r.key r.now es).1)
          (sym other) (others-Spends tier key limit r es t c other later h)
    | inl own ↦
        let (tiers, keys) = &&-cases (r.tier.name == tier) (same_key r.key key) own in
        subst
          (λ b.
            Spends tier key limit r t c b (b && (take_token f r.tier r.key r.now es).0.allowed)
              (b && not (is_some (find_bucket tier key es))) (take_token f r.tier r.key r.now es).1)
          (sym own)
          (subst {A = String × Key × ℕ}
            (λ q.
              Tracks f value unit error q.2
              → All (Covered f value unit error q.0 q.1 q.2 c t) es
              → Spends q.0 q.1 q.2 r t c true (take_token f r.tier r.key r.now es).0.allowed
                  (not (is_some (find_bucket q.0 q.1 es))) (take_token f r.tier r.key r.now es).1)
            {x = (r.tier.name, r.key, r.tier.limit)} {y = (tier, key, limit)}
            (ground
              (arith, eq_of_equals r.tier.name tier tiers, same_key-≡ r.key key keys, same own))
            (λ k' h'. own-Spends r es t c k' later h') k h)
  ]

module _ {F : Type 0} (f : Floats F) (value : F → ℕ) (unit error : ℕ) (tier : String) (key : Key)
    (limit : ℕ) where
  abbrev pub HasLimit : Take F → Type 0
  HasLimit r = is_of tier key r ≡ true → r.tier.limit ≡ limit

  allowed_within :
      (rs : List (Take F)) (es : List (Entry F)) (t last c : ℕ)
      → Tracks f value unit error limit
      → All HasLimit rs
      → Rising value t rs last
      → All (Covered f value unit error tier key limit c t) es
      → 60 * unit * allowed_count f tier key rs es
        ≤ c
          + full_count f tier key rs es * (60 * limit * unit)
          + (last - t) * limit
          + 120 * error * call_count tier key rs
  unfolding allowed_count full_count
  allowed_within [] es t last c k limits rising h = omega arith
  allowed_within (r ∷ rs) es t last c k limits rising h =
      let (left, covered, step) =
        take_token-Spends f value unit error tier key limit r es t c k limits.0 rising.0 h in
      let rest =
        allowed_within rs (take_token f r.tier r.key r.now es).1 (value r.now) last left k limits.1
          rising.1 covered in
      omega (
        arith,
        step,
        rest,
        elapsed t (value r.now) last limit rising.0
            (Rising-le value (value r.now) rs last rising.1),
      )

  -- Beginning without buckets, with a clock that does not go back, and with floats that are off by at most
  -- `error` for each operation on a bucket: however many calls for other keys stand in between, the calls for a key that are allowed spend, at a
  -- token each, at most `limit` tokens for each call that found no bucket of the key, `limit` tokens for
  -- each minute that passes, and twice the error for each call for the key.
  pub allowed_count-le :
      (rs : List (Take F)) (start last : ℕ)
      → Tracks f value unit error limit
      → All HasLimit rs
      → Rising value start rs last
      → 60 * unit * allowed_count f tier key rs []
        ≤ full_count f tier key rs [] * (60 * limit * unit)
          + (last - start) * limit
          + 120 * error * call_count tier key rs
  allowed_count-le rs start last k limits rising =
      omega (arith, allowed_within rs [] start last 0 k limits rising tt)
