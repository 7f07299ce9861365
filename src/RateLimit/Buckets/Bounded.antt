-- ===== src/RateLimit/Buckets/Bounded.antt =====
-- How many buckets are held, through any requests.
use reli.Prelude.{suc, ◌≤◌, sym, subst, List, [], ◌∷◌, length, inl, inr, length-append, arith}
use reli.RateLimit.Buckets.{
  Floats, Tier, Key, Entry, room_for_bucket, drawn_from, take_token, max_buckets, spent,
}
use reli.RateLimit.Buckets.Entries.{length-other_entries, drawn_from-cases}

-- One call of `_take`, at an instant.
pub record Take (F : Type 0) : Type 0 where
  pub tier : Tier
  pub key : Key
  pub now : F

module _ {F : Type 0} where
  length-room_for_bucket :
      (es : List (Entry F))
      → length es ≤ max_buckets
      → suc (length (room_for_bucket es)) ≤ max_buckets
  length-room_for_bucket [] h = ground arith
  length-room_for_bucket (e ∷ es) h = ground (arith, h)

module _ {F : Type 0} (f : Floats F) where
  unfoldable pub takes : List (Take F) → List (Entry F) → List (Entry F)
  takes [] entries = entries
  takes (r ∷ rs) entries = takes rs (take_token f r.tier r.key r.now entries).1

  length-drawn_from :
      (tier : Tier) (key : Key) (now : F) (es : List (Entry F))
      → length es ≤ max_buckets
      → suc (length (drawn_from f tier key now es).0) ≤ max_buckets
  length-drawn_from tier key now es h = elim (drawn_from-cases f tier key now es) [
    | inl (absent, e) ↦
        subst (λ d. suc (length d.0) ≤ max_buckets) (sym e) (length-room_for_bucket es h)
    | inr (b, there, e) ↦
        subst (λ d. suc (length d.0) ≤ max_buckets) (sym e)
          (omega (arith, h, length-other_entries tier.name key es b there))
  ]

  length-take_token :
      (tier : Tier) (key : Key) (now : F) (es : List (Entry F))
      → length es ≤ max_buckets
      → length (take_token f tier key now es).1 ≤ max_buckets
  unfolding take_token
  length-take_token tier key now es h =
      let d = drawn_from f tier key now es in
      omega (
        arith,
        length-append d.0 (record { tier = tier.name; key = key; bucket = spent f d.1 } ∷ []),
        length-drawn_from tier key now es h,
      )

  -- Through any requests, at any instants, at most MAX_BUCKETS buckets are held.
  pub takes-max_buckets :
      (rs : List (Take F)) (es : List (Entry F))
      → length es ≤ max_buckets
      → length (takes rs es) ≤ max_buckets
  unfolding takes
  takes-max_buckets [] es h = h
  takes-max_buckets (r ∷ rs) es h =
      takes-max_buckets rs (take_token f r.tier r.key r.now es).1
        (length-take_token r.tier r.key r.now es h)
