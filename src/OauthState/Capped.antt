-- ===== src/OauthState/Capped.antt =====
-- No store of backend/oauth_state.py outgrows its cap.
use reli.Prelude.{
  ℕ, ◌+◌, ◌-◌, ◌≤◌, ◌≡◌, String, Bool, some, List, [], ◌∷◌, Option-cases, inl, inr, length,
  length-append, length-filter-le, length-map, filter, arith,
}
use reli.OauthState.Records.{Row, OauthDb}
use reli.OauthState.Stores.{
  Action, Store, stored_key, others, replace_row, is_live, extended, cleanup_and_store,
  cleanup_and_get, cleanup_and_pop, extend_expiry,
}
use reli.OauthState.Runs.{
  IsTable, live_rows, room_for, saved, cleanup_and_store-kept, cleanup_and_store-refused,
  cleanup_and_get-run, cleanup_and_pop-run, extend_expiry-run,
}
use reli.OauthState.Rows.{others-evicted_le}

-- One call on a store.
pub data StoreCall (V : Type 0) : Type 0 where
  store_of : String → V → ℕ → StoreCall V
  get_of pop_of : String → StoreCall V
  extend_of : String → ℕ → StoreCall V

-- `with Session(engine)`: what is not committed when it closes is gone.
abbrev pub reopened : OauthDb → OauthDb
reopened db = record db { pending = db.committed }

abbrev pub in_session : {A : Type 0} → Action A → OauthDb → OauthDb
in_session m db = reopened (m (reopened db)).1

module _ {V : Type 0} (store : Store V) where
  abbrev pub store_call : StoreCall V → OauthDb → OauthDb
  store_call (store_of key values expires_at) =
      in_session (cleanup_and_store store key values expires_at)
  store_call (get_of key) = in_session (cleanup_and_get store key)
  store_call (pop_of key) = in_session (cleanup_and_pop store key)
  store_call (extend_of key expires_at) = in_session (extend_expiry store key expires_at)

  abbrev pub store_calls : List (StoreCall V) → OauthDb → OauthDb
  store_calls [] db = db
  store_calls (call ∷ calls) db = store_calls calls (store_call call db)

  abbrev pub IsCapped : OauthDb → Type 0
  IsCapped db = length (store.rows db.committed) ≤ store.max_entries

module _ {V : Type 0} (store : Store V) (positive : 1 ≤ store.max_entries) where
  -- The rows that the new one joins, wherever they came from.
  pub room_for-capped :
      (row : Row V) (rows room : List (Row V))
      → room_for store row.key rows ≡ some room
      → length (replace_row row room) ≤ store.max_entries
  room_for-capped row rows room e =
      let evicted =
        others-evicted_le row.key (length (others row.key rows) - store.max_entries + 1) rows in
      let split = length-append (others row.key room) (row ∷ []) in
      ground (arith, e, evicted, split, positive)

module _ {V : Type 0} (store : Store V) (h : IsTable store) (positive : 1 ≤ store.max_entries) where
  saved-IsCapped :
      (db : OauthDb) (rows : List (Row V))
      → length rows ≤ store.max_entries
      → IsCapped store (reopened (saved store db 0 rows))
  saved-IsCapped db rows k = rw (h.rows-with_rows db.pending rows) k

  -- What a call may keep of the rows it found.
  fewer-IsCapped :
      (db : OauthDb) (keep : Row V → Bool)
      → IsCapped store db
      → length (filter keep (live_rows store (reopened db))) ≤ store.max_entries
  fewer-IsCapped db keep k =
      let live = is_live {V = V} (db.env.times db.calls) in
      omega (
        arith,
        k,
        length-filter-le keep (live_rows store (reopened db)),
        length-filter-le live (store.rows db.committed),
      )

  pub store_call-IsCapped :
      (call : StoreCall V) (db : OauthDb)
      → IsCapped store db
      → IsCapped store (store_call store call db)
  store_call-IsCapped (store_of key values expires_at) db k =
      let live = live_rows store (reopened db) in
      elim (Option-cases (room_for store (stored_key store db key) live)) [
        | inl full ↦
            rw (cleanup_and_store-refused store h (reopened db) key values expires_at full) k
        | inr (room, e) ↦
            rw (cleanup_and_store-kept store h (reopened db) key values expires_at room e)
              (saved-IsCapped (reopened db) _ (room_for-capped store positive _ live room e))
      ]
  store_call-IsCapped (get_of key) db k =
      let live = is_live {V = V} (db.env.times db.calls) in
      rw (cleanup_and_get-run store h (reopened db) key) (
        saved-IsCapped (reopened db) _
          (omega (arith, k, length-filter-le live (store.rows db.committed))))
  store_call-IsCapped (pop_of key) db k =
      rw (cleanup_and_pop-run store h (reopened db) key)
        (saved-IsCapped (reopened db) _ (fewer-IsCapped db _ k))
  store_call-IsCapped (extend_of key expires_at) db k =
      let k' = stored_key store db key in
      rw (extend_expiry-run store h (reopened db) key expires_at) (
        saved-IsCapped (reopened db) _
          (omega (arith, k, length-map (extended k' expires_at) (store.rows db.committed))))

  -- Whatever calls a store serves, each in its session, and whatever keys and expiries they name, it
  -- never commits more rows than its cap, if it held no more when they began and the cap is not 0.
  pub store_calls-IsCapped :
      (calls : List (StoreCall V)) (db : OauthDb)
      → IsCapped store db
      → IsCapped store (store_calls store calls db)
  store_calls-IsCapped [] db k = k
  store_calls-IsCapped (call ∷ calls) db k =
      store_calls-IsCapped calls (store_call store call db) (store_call-IsCapped call db k)
