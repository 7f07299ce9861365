-- ===== src/OauthState/Eviction.antt =====
-- An eviction takes the rows nearest expiry.
use reli.Prelude.{
  filter, ◌==◌, ◌↔◌, ◌≢◌, In, length, ◌<◌, ◌+◌, ◌-◌, ◌++◌, some, ℕ, suc, ◌≤◌, ◌≡◌, refl, String,
  true, not, List, [], ◌∷◌, All, String_equals, arith,
}
use reli.OauthState.Records.{Row, OauthDb}
use reli.Result.{ok}
use reli.OauthState.Runs.{IsTable, live_rows, room_for, saved, cleanup_and_store-kept}
use reli.OauthState.Rows.{others-evicted_le}
use reli.OauthState.Stores.{
  Store, stored_key, replace_row, cleanup_and_store, others, nearest_rows, nearest_expiry,
  delete_keys,
}
use reli.OauthState.Nearest.{
  kept_rows, evicted-ExpiresBy, nearest_rows-In, kept_rows_iff, length-nearest_rows,
}

-- An insert into a full store that evicts: the rows of `held`, which are those under other keys than the new
-- one's, are kept but for the evicted, of which there are as many as it takes to get below the cap.
pub record Evicts {V : Type 0} (store : Store V) (live : List (Row V)) (new : Row V)
    (after : List (Row V)) : Type 0 where
  pub held : List (Row V)
  pub held_rows : held ≡ filter (λ row. not (row.key == new.key)) live
  pub evicted : List (Row V)
  pub kept : List (Row V)
  pub rows : after ≡ kept ++ new ∷ []
  pub made_room : length kept < store.max_entries
  pub nearest : All (λ gone. All (λ row. gone.expires_at ≤ row.expires_at) kept) evicted
  pub evicted_held : (row : Row V) → In row evicted → In row held
  pub evicted_count : length evicted ≡ length held - store.max_entries + 1
  pub kept_iff :
      (row : Row V)
      → In row kept ↔ (In row held × ((gone : Row V) → In gone evicted → gone.key ≢ row.key))

module _ {V : Type 0} (store : Store V) (h : IsTable store) (db : OauthDb) (key : String) where
  -- At its cap, an evicting store whose cap is not 0 does not refuse: it commits the new row beside
  -- the unexpired rows that it held under other keys, but for as many of them as it takes to get below the cap
  -- (and any other row with the key of one of these), and every row it gave up expires no later than any row it
  -- kept.
  pub cleanup_and_store-Evicts :
      (values : V) (expires_at : ℕ)
      → 1 ≤ store.max_entries
      → store.evicts ≡ true
      → store.max_entries ≤ length (others (stored_key store db key) (live_rows store db))
      → (t : OauthDb) × (cleanup_and_store store key values expires_at db ≡ (ok tt, t))
        × Evicts store
            (live_rows store db)
            (record { key = stored_key store db key; values = values; expires_at = expires_at })
            (store.rows t.committed)
  cleanup_and_store-Evicts values expires_at positive evicts full =
      let live = live_rows store db in
      let k = stored_key store db key in
      let n = length (others k live) - store.max_entries + 1 in
      let new : Row V = record { key = k; values = values; expires_at = expires_at } in
      let room = delete_keys (nearest_expiry k n live) live in
      let e : room_for store k live ≡ some room = ground (arith, evicts, full) in
      (
        saved store db (suc db.calls) (replace_row new room),
        cleanup_and_store-kept store h db key values expires_at room e,
        record {
          evicted = nearest_rows k n live;
          kept = kept_rows k n live;
          rows = h.rows-with_rows db.pending (replace_row new room);
          made_room = omega (arith, positive, full, others-evicted_le k n live);
          nearest = evicted-ExpiresBy k n live;
          held = others k live;
          held_rows = refl;
          evicted_held = nearest_rows-In k n live;
          evicted_count = length-nearest_rows k n live (omega (arith, positive, full));
          kept_iff = kept_rows_iff k n live;
        },
      )
