-- ===== src/RateLimit/Buckets/Covered.antt =====
-- What the bucket of one key may have, and what a request takes of it.
use reli.Prelude.{
  ℕ, ◌+◌, ◌-◌, ◌*◌, ◌≤◌, String, ◌≡◌, ap, Bool, true, false, ◌&&◌, not, is_some, List, [], ◌∷◌,
  ◌==◌, eq_of_equals, String_equals, inl, inr, Bool-cases, arith,
}
use reli.RateLimit.Buckets.{
  Floats, Tier, Key, user, addr, Bucket, Entry, is_entry, same_key, find_bucket, take_token, spent,
  verdict, has_token, least,
}
use reli.RateLimit.Buckets.Entries.{IsOther}
use reli.RateLimit.Buckets.Bounded.{Take}

abbrev pub count : Bool → ℕ
count true = 1
count false = 0

pub same_key-≡ : (a b : Key) → same_key a b ≡ true → a ≡ b
same_key-≡ (user a) (user b) h = ap user (eq_of_equals a b h)
same_key-≡ (addr a) (addr b) h = ap addr (eq_of_equals a b h)
same_key-≡ (user a) (addr b) h = absurd (ground (arith, h))
same_key-≡ (addr a) (user b) h = absurd (ground (arith, h))

pub elapsed :
    (t now last l : ℕ) → t ≤ now → now ≤ last → (last - now) * l + (now - t) * l ≡ (last - t) * l
elapsed t now last l h k =
    let e : (last - now) + (now - t) ≡ last - t = omega (arith, h, k) in
    omega (arith, ap (λ x. x * l) e)

module _ {F : Type 0} where
  -- Whether a call is for this bucket.
  abbrev pub is_of : String → Key → Take F → Bool
  is_of tier key r = r.tier.name == tier && same_key r.key key

  -- How many calls are for a bucket.
  abbrev pub call_count : String → Key → List (Take F) → ℕ
  call_count tier key [] = 0
  call_count tier key (r ∷ rs) = count (is_of tier key r) + call_count tier key rs

-- How floats keep to the numbers that they stand for: `value` is in units of which one second, and one token,
-- has `unit`, and an operation on a bucket of this limit is off by at most `error`. For IEEE doubles and `unit` = 2 ^ 1074,
-- which makes every value exact, an `error` of 2 ^ -50 of the limit is enough: each of the four operations of a
-- refill rounds by at most 2 ^ -53 of its result, and what is above the limit is cut off.
pub record Tracks {F : Type 0} (f : Floats F) (value : F → ℕ) (unit error limit : ℕ) : Type 0 where
  pub full : value (f.of_int limit) ≤ limit * unit
  pub spends :
      (t : F)
      → f.at_most (f.of_int 1) t ≡ true
      → value t ≤ limit * unit
      → value (f.sub t (f.of_int 1)) + unit ≤ value t + error
  pub capped : (t : F) → value (least f (f.of_int limit) t) ≤ limit * unit
  pub refills :
      (t updated now : F)
      → value updated ≤ value now
      → 60
          * value (
              least f
                (f.of_int limit)
                (f.add t (f.mul (f.sub now updated) (f.div (f.of_int limit) (f.of_int 60)))))
        ≤ 60 * value t + (value now - value updated) * limit + 60 * error

module _ {F : Type 0} (f : Floats F) where
  -- How many calls for a bucket are allowed, and how many find none.
  unfoldable pub allowed_count : String → Key → List (Take F) → List (Entry F) → ℕ
  allowed_count tier key [] es = 0
  allowed_count tier key (r ∷ rs) es =
      count (is_of tier key r && (take_token f r.tier r.key r.now es).0.allowed)
      + allowed_count tier key rs (take_token f r.tier r.key r.now es).1

  unfoldable pub full_count : String → Key → List (Take F) → List (Entry F) → ℕ
  full_count tier key [] es = 0
  full_count tier key (r ∷ rs) es =
      count (is_of tier key r && not (is_some (find_bucket tier key es)))
      + full_count tier key rs (take_token f r.tier r.key r.now es).1

module _ {F : Type 0} (value : F → ℕ) where
  -- The clock does not go back.
  abbrev pub Rising : ℕ → List (Take F) → ℕ → Type 0
  Rising t [] last = t ≤ last
  Rising t (r ∷ rs) last = (t ≤ value r.now) × Rising (value r.now) rs last

  pub Rising-le : (t : ℕ) (rs : List (Take F)) (last : ℕ) → Rising t rs last → t ≤ last
  Rising-le t [] last h = h
  Rising-le t (r ∷ rs) last h = omega (arith, h.0, Rising-le (value r.now) rs last h.1)

module _ {F : Type 0} (f : Floats F) (value : F → ℕ) (unit error : ℕ) (tier : String) (key : Key)
    (limit : ℕ) where
  -- What the bucket has at `t` is at most `c`, in sixtieths of a unit, and at most the limit.
  abbrev pub Covered : ℕ → ℕ → Entry F → Type 0
  Covered c t e =
      is_entry tier key e ≡ true
      → (value e.bucket.updated ≤ t)
        × (60 * value e.bucket.tokens + (t - value e.bucket.updated) * limit ≤ c)

  pub Covered-later :
      (c t now : ℕ) (e : Entry F) → t ≤ now → Covered c t e → Covered (c + (now - t) * limit) now e
  Covered-later c t now e later h own = (
    omega (arith, (h own).0, later),
    omega (arith, (h own).1, elapsed (value e.bucket.updated) t now limit (h own).0 later),
  )

  pub IsOther-Covered : (c t : ℕ) (e : Entry F) → IsOther tier key e → Covered c t e
  IsOther-Covered c t e other own = absurd (ground (arith, other, own))

  -- A bucket without the token that a request takes, if there is one.
  pub spent-Covered :
      (c : ℕ) (b : Bucket F)
      → Tracks f value unit error limit
      → value b.tokens ≤ limit * unit
      → 60 * value b.tokens ≤ c
      → (value (spent f b).updated ≤ value b.updated)
        × (60 * value (spent f b).tokens + (value b.updated - value (spent f b).updated) * limit
            ≤ c + 60 * error - 60 * unit * count (has_token f b))
  spent-Covered c b k cap h = elim (Bool-cases (has_token f b)) [
    | inl enough ↦ rw enough (grind arith, grind (arith, h, k.spends b.tokens enough cap))
    | inr empty ↦ rw empty (grind arith, grind (arith, h))
  ]

  -- A bucket of at most `c` pays for a request that it allows.
  pub pays :
      (t : Tier) (c : ℕ) (b : Bucket F)
      → Tracks f value unit error limit
      → value b.tokens ≤ limit * unit
      → 60 * value b.tokens ≤ c
      → 60 * unit * count (verdict f t b).allowed
          + (c + 60 * error - 60 * unit * count (has_token f b))
        ≤ c + 60 * error
  pays t c b k cap h = elim (Bool-cases (has_token f b)) [
    | inl enough ↦ rw enough (grind (arith, h, k.spends b.tokens enough cap))
    | inr empty ↦ rw empty (grind (arith, h))
  ]
