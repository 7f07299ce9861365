-- ===== src/RateLimit/Buckets/Entries.antt =====
-- The entries beside the one that `_take` draws from, and where a bucket is found.
use reli.Prelude.{
  suc, ◌+◌, ◌≤◌, String, ◌≡◌, ◌⊎◌, sym, subst, refl, true, false, not, none, some, List, [], ◌∷◌,
  ◌++◌, length, ltb, inl, inr, Bool-cases, Option-cases, All, All-filter, length-filter-le, arith,
}
use reli.RateLimit.Buckets.{
  Tier, Key, Bucket, Entry, is_entry, find_bucket, other_entries, room_for_bucket, drawn_from,
  Floats, max_buckets, full_bucket, refilled,
}

module _ {F : Type 0} (tier : String) (key : Key) where
  abbrev pub IsOther : Entry F → Type 0
  IsOther e = is_entry tier key e ≡ false

  pub find_bucket-All : (es : List (Entry F)) → find_bucket tier key es ≡ none → All IsOther es
  find_bucket-All [] h = tt
  find_bucket-All (e ∷ es) h = elim (Bool-cases (is_entry tier key e)) [
    | inl there ↦ absurd (ground (arith, h, there))
    | inr other ↦ (other, find_bucket-All es (ground (arith, h, other)))
  ]

  pub other_entries-All : (es : List (Entry F)) → All IsOther (other_entries tier key es)
  other_entries-All [] = tt
  other_entries-All (e ∷ es) = elim (Bool-cases (is_entry tier key e)) [
    | inl there ↦ rw there (other_entries-All es)
    | inr other ↦ rw other (other, other_entries-All es)
  ]

  pub length-other_entries :
      (es : List (Entry F)) (b : Bucket F)
      → find_bucket tier key es ≡ some b
      → suc (length (other_entries tier key es)) ≤ length es
  length-other_entries [] b h = absurd (ground (arith, h))
  length-other_entries (e ∷ es) b h = elim (Bool-cases (is_entry tier key e)) [
    | inl there ↦ ground (arith, there, length-filter-le (λ e. not (is_entry tier key e)) es)
    | inr other ↦ ground (arith, other, length-other_entries es b (ground (arith, h, other)))
  ]

  -- A bucket that is stored last is found when no entry before it has its key.
  pub find_bucket-append :
      (es : List (Entry F)) (e : Entry F)
      → All IsOther es
      → is_entry tier key e ≡ true
      → find_bucket tier key (es ++ e ∷ []) ≡ some e.bucket
  find_bucket-append [] e h own = ground (arith, own)
  find_bucket-append (x ∷ es) e h own = ground (arith, h.0, find_bucket-append es e h.1 own)

  pub find_bucket_mono :
      (P : Entry F → Type 0) (es : List (Entry F)) (b : Bucket F)
      → All P es
      → find_bucket tier key es ≡ some b
      → (e : Entry F) × P e × (is_entry tier key e ≡ true) × (e.bucket ≡ b)
  find_bucket_mono P [] b h found = absurd (ground (arith, found))
  find_bucket_mono P (e ∷ es) b h found = elim (Bool-cases (is_entry tier key e)) [
    | inl there ↦ (e, h.0, there, ground (arith, found, there))
    | inr other ↦ find_bucket_mono P es b h.1 (ground (arith, found, other))
  ]

module _ {F : Type 0} where
  pub All-room_for_bucket :
      (P : Entry F → Type 0) (es : List (Entry F)) → All P es → All P (room_for_bucket es)
  All-room_for_bucket P [] h = tt
  All-room_for_bucket P (e ∷ es) h = elim (Bool-cases (ltb max_buckets (length (e ∷ es) + 1))) [
    | inl full ↦ rw full h.1
    | inr room ↦ rw room h
  ]

module _ {F : Type 0} (f : Floats F) where
  -- A call starts on a full bucket where its key has none, and refills the bucket of its key otherwise.
  pub drawn_from-cases :
      (tier : Tier) (key : Key) (now : F) (es : List (Entry F))
      → ((find_bucket tier.name key es ≡ none)
          × (drawn_from f tier key now es ≡ (room_for_bucket es, full_bucket f tier now)))
        ⊎ ((b : Bucket F) × (find_bucket tier.name key es ≡ some b)
            × (drawn_from f tier key now es
                ≡ (other_entries tier.name key es, refilled f tier now b)))
  drawn_from-cases tier key now es = elim (Option-cases (find_bucket tier.name key es)) [
    | inl absent ↦ inl (absent, rw (drawn_from, absent) refl)
    | inr (b, there) ↦ inr (b, there, rw (drawn_from, there) refl)
  ]

  -- What is beside the entry of a request was there before.
  pub All-drawn_from :
      (P : Entry F → Type 0) (tier : Tier) (key : Key) (now : F) (es : List (Entry F))
      → All P es
      → All P (drawn_from f tier key now es).0
  All-drawn_from P tier key now es h = elim (drawn_from-cases tier key now es) [
    | inl (absent, e) ↦ subst (λ d. All P d.0) (sym e) (All-room_for_bucket P es h)
    | inr (b, there, e) ↦
        subst (λ d. All P d.0) (sym e) (All-filter P (λ e. not (is_entry tier.name key e)) es h)
  ]

  pub drawn_from-IsOther :
      (tier : Tier) (key : Key) (now : F) (es : List (Entry F))
      → All (IsOther tier.name key) (drawn_from f tier key now es).0
  drawn_from-IsOther tier key now es = elim (drawn_from-cases tier key now es) [
    | inl (absent, e) ↦
        subst (λ d. All (IsOther tier.name key) d.0) (sym e)
          (All-room_for_bucket (IsOther tier.name key) es (find_bucket-All tier.name key es absent))
    | inr (b, there, e) ↦
        subst (λ d. All (IsOther tier.name key) d.0) (sym e) (other_entries-All tier.name key es)
  ]
