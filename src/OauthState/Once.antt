-- ===== src/OauthState/Once.antt =====
-- What a store hands back: the row it was given, until it expires or is popped.
use reli.Prelude.{
  ℕ, suc, ◌≤◌, ◌<◌, ◌≡◌, refl, ap, String, Bool, true, ◌&&◌, not, none, some, List, [], ◌∷◌, ◌++◌,
  Option-cases, inl, inr, filter, String_equals, arith,
}
use reli.Result.{ok}
use reli.OauthState.Records.{Row, OauthDb}
use reli.OauthState.Stores.{
  Store, stored_key, others, replace_row, has_key, is_live, find_row, take_live, cleanup_and_store,
  cleanup_and_get, cleanup_and_pop,
}
use reli.OauthState.Runs.{
  IsTable, live_rows, room_for, saved, cleanup_and_store-kept, cleanup_and_store-refused,
  cleanup_and_get-run, cleanup_and_pop-run,
}

module _ {V : Type 0} where
  find_row-filter-others :
      (key : String) (p : Row V → Bool) (rows tail : List (Row V))
      → find_row key (filter p (others key rows ++ tail)) ≡ find_row key (filter p tail)
  find_row-filter-others key p [] tail = refl
  find_row-filter-others key p (row ∷ rows) tail =
      ground (arith, find_row-filter-others key p rows tail)

  -- The new row is the one found under its key, if it passes the test.
  pub find_row-filter-replace_row :
      (row : Row V) (p : Row V → Bool) (rows : List (Row V))
      → p row ≡ true
      → find_row row.key (filter p (replace_row row rows)) ≡ some row
  find_row-filter-replace_row row p rows h = ground (
    arith,
    h,
    find_row-filter-others row.key p rows (row ∷ []),
    String_equals.equals_iff row.key row.key,
  )

  filter-filter :
      (p q : Row V → Bool) (rows : List (Row V))
      → filter p (filter q rows) ≡ filter (λ row. q row && p row) rows
  filter-filter p q [] = refl
  filter-filter p q (row ∷ rows) = ground (arith, filter-filter p q rows)

  -- What a pop leaves under its key has expired when the clock is read again.
  take_live-after :
      (key : String) (now later last : ℕ) (rows : List (Row V))
      → now ≤ later
      → take_live key last
          (filter (is_live later) (filter (λ row. not (has_key key row && is_live now row)) rows))
        ≡ none
  take_live-after key now later last [] h = refl
  take_live-after key now later last (row ∷ rows) h =
      ground (arith, h, take_live-after key now later last rows h)

module _ {V : Type 0} (store : Store V) (h : IsTable store) (db : OauthDb) (key : String) where
  abbrev pub stored_row : V → ℕ → Row V
  stored_row values expires_at = record {
    key = stored_key store db key;
    values = values;
    expires_at = expires_at;
  }

  -- A store that returned committed the new row beside others, in the same environment.
  pub stored_result :
      (values : V) (expires_at : ℕ) (t : OauthDb)
      → cleanup_and_store store key values expires_at db ≡ (ok tt, t)
      → (rows : List (Row V)) × (t
          ≡ saved store db (suc db.calls) (replace_row (stored_row values expires_at) rows))
  stored_result values expires_at t e =
      elim (Option-cases (room_for store (stored_key store db key) (live_rows store db))) [
        | inl full ↦
            absurd
              (ground (arith, e, cleanup_and_store-refused store h db key values expires_at full))
        | inr (room, r) ↦ (
          room,
          ground (arith, e, cleanup_and_store-kept store h db key values expires_at room r),
        )
      ]

  -- What was stored under a key, and committed, is what a lookup of the key returns while the clock
  -- reads less than its expiry.
  pub cleanup_and_get-stored :
      (values : V) (expires_at : ℕ) (t : OauthDb)
      → cleanup_and_store store key values expires_at db ≡ (ok tt, t)
      → t.env.times t.calls < expires_at
      → (cleanup_and_get store key t).0 ≡ ok (some (stored_row values expires_at))
  cleanup_and_get-stored values expires_at t e fresh =
      let result = stored_result values expires_at t e in
      let row = stored_row values expires_at in
      let live : is_live (db.env.times (suc db.calls)) row ≡ true =
        ground (arith, result.1, fresh) in
      rw (result.1) (
        rw
          (cleanup_and_get-run store h (saved store db (suc db.calls) (replace_row row result.0))
            key)
          (rw (h.rows-with_rows db.pending (replace_row row result.0))
            (ap ok (find_row-filter-replace_row row _ result.0 live))))

  -- Nothing is popped twice, if the clock does not run back.
  cleanup_and_pop-twice :
      db.env.times (suc db.calls) ≤ db.env.times (suc (suc db.calls))
      → (cleanup_and_pop store key (cleanup_and_pop store key db).1).0 ≡ ok none
  cleanup_and_pop-twice forth =
      let k = stored_key store db key in
      let now = db.env.times (suc db.calls) in
      let left = filter (λ row. not (has_key k row && is_live now row)) (live_rows store db) in
      rw (cleanup_and_pop-run store h db key) (
        rw (cleanup_and_pop-run store h (saved store db (suc (suc db.calls)) left) key) (
          rw (h.rows-with_rows db.pending left)
            (ap ok (take_live-after k now _ _ (live_rows store db) forth))))

module _ {V : Type 0} (store : Store V) (h : IsTable store) (db : OauthDb) (key : String) where
  -- A row that was stored is popped, while the clock reads less than its expiry at both of its
  -- readings.
  pub cleanup_and_pop-stored :
      (values : V) (expires_at : ℕ) (t : OauthDb)
      → cleanup_and_store store key values expires_at db ≡ (ok tt, t)
      → t.env.times t.calls < expires_at
      → t.env.times (suc t.calls) < expires_at
      → (cleanup_and_pop store key t).0 ≡ ok (some (stored_row store h db key values expires_at))
  cleanup_and_pop-stored values expires_at t e fresh still =
      let result = stored_result store h db key values expires_at t e in
      let row = stored_row store h db key values expires_at in
      let live : is_live (db.env.times (suc db.calls)) row
            && is_live (db.env.times (suc (suc db.calls))) row
          ≡ true =
        ground (arith, result.1, fresh, still) in
      rw (result.1) (
        rw
          (cleanup_and_pop-run store h (saved store db (suc db.calls) (replace_row row result.0))
            key)
          (rw (h.rows-with_rows db.pending (replace_row row result.0)) (
            rw
              (filter-filter (is_live (db.env.times (suc (suc db.calls))))
                (is_live (db.env.times (suc db.calls))) (replace_row row result.0))
              (ap ok (find_row-filter-replace_row row _ result.0 live)))))

  -- A row that was stored is popped once: the first pop returns it, while the clock reads less than
  -- its expiry at both readings, and the next returns nothing, if the clock does not run back.
  pub cleanup_and_pop-once :
      (values : V) (expires_at : ℕ) (t : OauthDb)
      → cleanup_and_store store key values expires_at db ≡ (ok tt, t)
      → t.env.times t.calls < expires_at
      → t.env.times (suc t.calls) < expires_at
      → t.env.times (suc t.calls) ≤ t.env.times (suc (suc t.calls))
      → ((cleanup_and_pop store key t).0 ≡ ok (some (stored_row store h db key values expires_at)))
        × ((cleanup_and_pop store key (cleanup_and_pop store key t).1).0 ≡ ok none)
  cleanup_and_pop-once values expires_at t e fresh still forth = (
    cleanup_and_pop-stored values expires_at t e fresh still,
    cleanup_and_pop-twice store h t key forth,
  )
