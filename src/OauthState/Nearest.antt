-- ===== src/OauthState/Nearest.antt =====
-- The rows nearest expiry, which an eviction takes, and the rows that it keeps.
use reli.Prelude.{
  ◌↔◌, ◌≢◌, In, In-filter, filter-In, sort-In, In-map, map-In, In-contains, contains-In, subst,
  eq_of_equals, length-take, length-sort, length, if◌then◌else◌, filter-swap, All-filter_passed, ℕ,
  zero, suc, ◌≤◌, ◌≡◌, String, Bool, true, false, not, List, [], ◌∷◌, All, All-mono,
  All-insert_sorted, insert_sorted, contains, String_equals, Bool-cases, inl, inr, take, sort,
  leb→le, arith,
}
use reli.OauthState.Records.{Row}
use reli.OauthState.Rows.{HasKeyIn, HasKeyIn-row_keys}
use reli.OauthState.Stores.{
  others, has_key, expires_first, nearest_rows, nearest_expiry, delete_keys,
}

module _ {V : Type 0} where
  abbrev ExpiresBy : Row V → Row V → Type 0
  ExpiresBy a b = a.expires_at ≤ b.expires_at

  abbrev IsOrdered : List (Row V) → Type 0
  IsOrdered [] = Unit
  IsOrdered (row ∷ rows) = All (ExpiresBy row) rows × IsOrdered rows

  insert_sorted-IsOrdered :
      (row : Row V) (rows : List (Row V))
      → IsOrdered rows
      → IsOrdered (insert_sorted expires_first row rows)
  unfolding insert_sorted
  insert_sorted-IsOrdered row [] h = (tt, tt)
  insert_sorted-IsOrdered row (r ∷ rows) h = elim (Bool-cases (expires_first row r)) [
    | inl e ↦
        let le = leb→le row.expires_at r.expires_at e in
        rw e
          ((le, All-mono (ExpiresBy r) (ExpiresBy row) (λ q k. omega (arith, le, k)) rows h.0), h)
    | inr e ↦ rw e (
      All-insert_sorted expires_first (ExpiresBy r) row rows (ground (arith, e)) h.0,
      insert_sorted-IsOrdered row rows h.1,
    )
  ]

  sort-IsOrdered : (rows : List (Row V)) → IsOrdered (sort expires_first rows)
  unfolding sort
  sort-IsOrdered [] = tt
  sort-IsOrdered (row ∷ rows) =
      insert_sorted-IsOrdered row (sort expires_first rows) (sort-IsOrdered rows)

  All-insert_sorted_back :
      (P : Row V → Type 0) (row : Row V) (rows : List (Row V))
      → All P (insert_sorted expires_first row rows)
      → P row × All P rows
  unfolding insert_sorted
  All-insert_sorted_back P row [] h = h
  All-insert_sorted_back P row (r ∷ rows) h =
      split (All-insert_sorted_back P row rows) (expires_first row r) h
    where
      split :
          (All P (insert_sorted expires_first row rows) → P row × All P rows)
          → (b : Bool)
          → All P (if b then row ∷ r ∷ rows else r ∷ insert_sorted expires_first row rows)
          → P row × All P (r ∷ rows)
      split rest true k = k
      split rest false k = let tail = rest k.1 in (tail.0, (k.0, tail.1))

  All-sort_back :
      (P : Row V → Type 0) (rows : List (Row V)) → All P (sort expires_first rows) → All P rows
  unfolding sort
  All-sort_back P [] h = tt
  All-sort_back P (row ∷ rows) h =
      let k = All-insert_sorted_back P row (sort expires_first rows) h in
      (k.0, All-sort_back P rows k.1)

  abbrev ExpiresByKept : List String → Row V → Row V → Type 0
  ExpiresByKept keys a b = not (contains b.key keys) ≡ true → ExpiresBy a b

  take-ExpiresByKept :
      (keys : List String) (n : ℕ) (rows : List (Row V))
      → IsOrdered rows
      → All (HasKeyIn keys) (take n rows)
      → All (λ row. All (ExpiresByKept keys row) rows) (take n rows)
  take-ExpiresByKept keys zero rows h k = tt
  take-ExpiresByKept keys (suc n) [] h k = tt
  take-ExpiresByKept keys (suc n) (row ∷ rows) h k = (
    (λ _. omega arith, All-mono (ExpiresBy row) (ExpiresByKept keys row) (λ r le _. le) rows h.0),
    All-mono (λ r. All (ExpiresByKept keys r) rows) (λ r. All (ExpiresByKept keys r) (row ∷ rows))
        (λ r all. (λ e. absurd (ground (arith, e, k.0)), all)) (take n rows)
        (take-ExpiresByKept keys n rows h.1 k.1),
  )

  -- The rows that an eviction of `n` rows keeps, besides the one about to be replaced.
  abbrev pub kept_rows : String → ℕ → List (Row V) → List (Row V)
  kept_rows key n rows = others key (delete_keys (nearest_expiry key n rows) rows)

  pub evicted-ExpiresBy :
      (key : String) (n : ℕ) (rows : List (Row V))
      → All (λ row. All (ExpiresBy row) (kept_rows key n rows)) (nearest_rows key n rows)
  evicted-ExpiresBy key n rows =
      let keys = nearest_expiry key n rows in
      let nearest = nearest_rows key n rows in
      All-mono (λ r. All (ExpiresByKept keys r) (sort expires_first (others key rows)))
        (λ r. All (ExpiresBy r) (kept_rows key n rows))
        (λ r all.
          rw (filter-swap (λ row. not (has_key key row)) (λ row. not (contains row.key keys)) rows)
            (All-filter_passed (ExpiresBy r) (λ row. not (contains row.key keys)) (others key rows)
              (All-sort_back (ExpiresByKept keys r) (others key rows) all)))
        nearest
        (take-ExpiresByKept keys n (sort expires_first (others key rows))
          (sort-IsOrdered (others key rows)) (HasKeyIn-row_keys nearest))

has_key_iff :
    {V : Type 0} (key : String) (row : Row V) → (not (has_key key row) ≡ true) ↔ (row.key ≢ key)
has_key_iff key row = (
  (λ h e. ground (arith, h, (String_equals.equals_iff row.key key).1 e)),
  λ f. elim (Bool-cases (has_key key row)) [
    | inl own ↦ absurd (f (eq_of_equals row.key key own))
    | inr other ↦ ground (arith, other)
  ],
)

others_iff :
    {V : Type 0} (key : String) (rows : List (Row V)) (row : Row V)
    → In row (others key rows) ↔ (In row rows × (row.key ≢ key))
others_iff key rows row = (
  (λ m.
      let (there, other) = filter-In (λ row. not (has_key key row)) row rows m in
      (there, (has_key_iff key row).0 other)),
  λ (there, other).
      In-filter (λ row. not (has_key key row)) row rows there ((has_key_iff key row).1 other),
)

take-In : {A : Type 0} (n : ℕ) (a : A) (xs : List A) → In a (take n xs) → In a xs
take-In zero a xs m = absurd m
take-In (suc n) a [] m = absurd m
take-In (suc n) a (x ∷ xs) (inl e) = inl e
take-In (suc n) a (x ∷ xs) (inr m) = inr (take-In n a xs m)

module _ {V : Type 0} (key : String) (n : ℕ) (live : List (Row V)) where
  pub nearest_rows-In : (row : Row V) → In row (nearest_rows key n live) → In row (others key live)
  nearest_rows-In row m =
      sort-In expires_first row (others key live)
        (take-In n row (sort expires_first (others key live)) m)

  evicted_key_iff :
      (row : Row V)
      → (not (contains row.key (nearest_expiry key n live)) ≡ true)
        ↔ ((gone : Row V) → In gone (nearest_rows key n live) → gone.key ≢ row.key)
  evicted_key_iff row = (
    (λ h gone m same. ground (
      arith,
      h,
      In-contains row.key (nearest_expiry key n live) (
          subst (λ k. In k (nearest_expiry key n live)) same
            (In-map (λ (r : Row V). r.key) gone (nearest_rows key n live) m)),
    )),
    λ f. elim (Bool-cases (contains row.key (nearest_expiry key n live))) [
      | inr other ↦ ground (arith, other)
      | inl there ↦
          let (gone, m, same) =
            map-In (λ (r : Row V). r.key) row.key (nearest_rows key n live)
              (contains-In row.key (nearest_expiry key n live) there) in
          absurd (f gone m same)
    ],
  )

  pub kept_rows_iff :
      (row : Row V)
      → In row (kept_rows key n live) ↔ (
          In row (others key live)
          × ((gone : Row V) → In gone (nearest_rows key n live) → gone.key ≢ row.key))
  kept_rows_iff row = (
    (λ m.
        let (in_rest, other) =
          (others_iff key (delete_keys (nearest_expiry key n live) live) row).0 m in
        let (there, spared) =
          filter-In (λ r. not (contains r.key (nearest_expiry key n live))) row live in_rest in
        ((others_iff key live row).1 (there, other), (evicted_key_iff row).0 spared)),
    λ (held, spared).
        let (there, other) = (others_iff key live row).0 held in
        (others_iff key (delete_keys (nearest_expiry key n live) live) row).1 (
          In-filter (λ r. not (contains r.key (nearest_expiry key n live))) row live there
              ((evicted_key_iff row).1 spared),
          other,
        ),
  )

  pub length-nearest_rows : n ≤ length (others key live) → length (nearest_rows key n live) ≡ n
  length-nearest_rows h = ground (
    arith,
    h,
    length-take n (sort expires_first (others key live)),
    length-sort expires_first (others key live),
  )
