-- ===== src/OauthState/Rows.antt =====
-- Lemmas on lists of rows: which keys they hold, and how many are left.
use reli.Prelude.{
  ℕ, zero, suc, ◌-◌, ◌≤◌, ◌≡◌, refl, ap, filter-swap, String, true, not, some, List, [], ◌∷◌, ◌++◌,
  String_equals, All, All-mono, contains, take, length, sort, length-filter-sort, length-sort,
  arith,
}
use reli.OauthState.Records.{Row}
use reli.OauthState.Stores.{
  has_key, others, find_row, row_keys, expires_first, nearest_expiry, delete_keys, replace_row,
}

module _ {V : Type 0} where
  abbrev pub HasKeyIn : List String → Row V → Type 0
  HasKeyIn keys row = contains row.key keys ≡ true

  pub HasKeyIn-row_keys : (rows : List (Row V)) → All (HasKeyIn (row_keys rows)) rows
  HasKeyIn-row_keys [] = tt
  HasKeyIn-row_keys (row ∷ rows) = (
    ground (arith, String_equals.equals_iff row.key row.key),
    All-mono (HasKeyIn (row_keys rows)) (HasKeyIn (row_keys (row ∷ rows)))
        (λ r h. ground (arith, h)) rows (HasKeyIn-row_keys rows),
  )

  -- Deleting the keys of the first `n` rows leaves at most the others.
  length-delete_keys_le :
      (n : ℕ) (keys : List String) (rows : List (Row V))
      → All (HasKeyIn keys) (take n rows)
      → length (delete_keys keys rows) ≤ length rows - n
  length-delete_keys_le zero keys [] h = omega arith
  length-delete_keys_le zero keys (row ∷ rows) h =
      ground (arith, length-delete_keys_le zero keys rows tt)
  length-delete_keys_le (suc n) keys [] h = omega arith
  length-delete_keys_le (suc n) keys (row ∷ rows) h =
      ground (arith, h.0, length-delete_keys_le n keys rows h.1)

  -- After the eviction of `n` rows, the rows besides `key` are `n` fewer.
  pub others-evicted_le :
      (key : String) (n : ℕ) (rows : List (Row V))
      → length (others key (delete_keys (nearest_expiry key n rows) rows))
        ≤ length (others key rows) - n
  others-evicted_le key n rows =
      let keys = nearest_expiry key n rows in
      let sorted = sort expires_first (others key rows) in
      let bound = length-delete_keys_le n keys sorted (HasKeyIn-row_keys (take n sorted)) in
      let same =
        length-filter-sort expires_first (λ row. not (contains row.key keys)) (others key rows) in
      let swap =
        filter-swap (λ row. not (has_key key row)) (λ row. not (contains row.key keys)) rows in
      omega (arith, bound, same, ap length swap, length-sort expires_first (others key rows))

  find_row-append_others :
      (key : String) (rows tail : List (Row V))
      → find_row key (others key rows ++ tail) ≡ find_row key tail
  find_row-append_others key [] tail = refl
  find_row-append_others key (row ∷ rows) tail =
      ground (arith, find_row-append_others key rows tail)

  -- The new row is the one found under its key.
  pub find_row-replace_row :
      (row : Row V) (rows : List (Row V)) → find_row row.key (replace_row row rows) ≡ some row
  find_row-replace_row row rows = ground (
    arith,
    find_row-append_others row.key rows (row ∷ []),
    String_equals.equals_iff row.key row.key,
  )
