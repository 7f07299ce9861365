-- ===== src/Auth/Sessions/Later.antt =====
-- What follows a logout: requests that look up or revoke a token, or that do not touch the revocation list.
use reli.Prelude.{
  ℕ, suc, ◌*◌, ◌≤◌, ◌<◌, ◌≡◌, ◌≢◌, inl, inr, refl, sym, ap, subst, ◌∙◌, String, ◌==◌, String_equals,
  eq_of_equals, not, none, some, List, [], ◌∷◌, In, In-filter, In-append_left, In-append_right,
  Bool-cases, Option-cases, arith,
}
use reli.Exec.{pure, map_error, ◌>>=◌}
use reli.OauthState.Records.{Row, OauthDb, Claims, RevokedToken}
use reli.OauthState.Stores.{revoked_tokens, replace_row, others, has_key, is_live}
use reli.OauthState.Runs.{
  live_rows, room_for, saved, cleanup_and_get-run, cleanup_and_store-kept,
  cleanup_and_store-refused, revoked_tokens-IsTable,
}
use reli.OauthState.Capped.{reopened}
use reli.McpOauth.Refusals.{second}
use reli.Auth.Exceptions.{on_db, with_session}
use reli.Auth.Sessions.{is_revoked, revoke}

-- A `jti` names one token: another token that is revoked under it would have to expire when it does.
abbrev pub IsApart : Claims → Claims → Type 0
IsApart claims other = other.jti ≡ claims.jti → other.exp ≡ claims.exp

-- What a request may do to the revocation list after a logout with the token of these claims.
pub data Later (claims : Claims) : OauthDb → OauthDb → Type 0 where
  nothing_more : (db : OauthDb) → Later claims db db
  looked_up :
      (other : Claims) (db u : OauthDb) → Later claims (is_revoked other db).1 u → Later claims db u
  revoked :
      (other : Claims) (db u : OauthDb)
      → IsApart claims other
      → Later claims (revoke other db).1 u
      → Later claims db u
  elsewhere :
      (db t u : OauthDb)
      → t.committed.revoked_tokens ≡ db.committed.revoked_tokens
      → t.env ≡ db.env
      → db.calls ≤ t.calls
      → Later claims t u
      → Later claims db u

-- A row that revokes the token until it expires.
abbrev pub Listed : Claims → OauthDb → Type 0
Listed claims db =
    (row : Row RevokedToken) × In row db.committed.revoked_tokens
    × (row.key ≡ claims.jti)
    × (claims.exp * second ≤ row.expires_at)

pub is_revoked-state :
    (claims : Claims) (db : OauthDb)
    → (is_revoked claims db).1
      ≡ reopened (
          saved revoked_tokens
            (reopened db)
            (suc db.calls)
            (live_rows revoked_tokens (reopened db)))
unfolding is_revoked with_session on_db map_error pure ◌>>=◌
is_revoked-state claims db =
    ground
      (arith, cleanup_and_get-run revoked_tokens revoked_tokens-IsTable (reopened db) claims.jti)

-- The row of a token that was revoked.
abbrev pub revocation : Claims → Row RevokedToken
revocation claims = record {
  key = claims.jti;
  values = record {};
  expires_at = claims.exp * second;
}

revoke-refused :
    (claims : Claims) (db : OauthDb)
    → room_for revoked_tokens claims.jti (live_rows revoked_tokens (reopened db)) ≡ none
    → (revoke claims db).1 ≡ reopened (record db { calls = suc db.calls })
unfolding revoke with_session on_db map_error
revoke-refused claims db full = ground (
  arith,
  cleanup_and_store-refused revoked_tokens revoked_tokens-IsTable (reopened db) claims.jti
      (record {}) (claims.exp * second) full,
)

revoke-kept :
    (claims : Claims) (db : OauthDb) (room : List (Row RevokedToken))
    → room_for revoked_tokens claims.jti (live_rows revoked_tokens (reopened db)) ≡ some room
    → (revoke claims db).1
      ≡ reopened
          (saved revoked_tokens (reopened db) (suc db.calls) (replace_row (revocation claims) room))
unfolding revoke with_session on_db map_error
revoke-kept claims db room e = ground (
  arith,
  cleanup_and_store-kept revoked_tokens revoked_tokens-IsTable (reopened db) claims.jti (record {})
      (claims.exp * second) room e,
)

-- The revocation list does not evict.
room_for-same :
    (key : String) (rows room : List (Row RevokedToken))
    → room_for revoked_tokens key rows ≡ some room
    → room ≡ rows
room_for-same key rows room e = ground (arith, e)

In-replace_row :
    (row new : Row RevokedToken) (rows : List (Row RevokedToken))
    → In row rows
    → row.key ≢ new.key
    → In row (replace_row new rows)
In-replace_row row new rows m other = In-append_left row (others new.key rows) (new ∷ []) (
    In-filter (λ r. not (has_key new.key r)) row rows m
      (elim (Bool-cases (has_key new.key row)) [
        | inl own ↦ absurd (other (eq_of_equals row.key new.key own))
        | inr apart ↦ ground (arith, apart)
      ]))

-- The clock, and the row, on the way through one request.
record Goes (claims : Claims) (db t : OauthDb) : Type 0 where
  same_env : t.env ≡ db.env
  forth : db.calls ≤ t.calls
  listed : (db.env.times db.calls < claims.exp * second) → Listed claims db → Listed claims t

still_live :
    (claims : Claims) (db : OauthDb)
    → (db.env.times db.calls < claims.exp * second)
    → (row : Row RevokedToken) → In row db.committed.revoked_tokens
    → claims.exp * second ≤ row.expires_at
    → In row (live_rows revoked_tokens (reopened db))
still_live claims db fresh row m late =
    In-filter (is_live (db.env.times db.calls)) row db.committed.revoked_tokens m
      (ground (arith, fresh, late))

looked_up-Goes : (claims other : Claims) (db : OauthDb) → Goes claims db (is_revoked other db).1
looked_up-Goes claims other db = subst (Goes claims db) (sym (is_revoked-state other db)) (record {
  same_env = refl;
  forth = omega arith;
  listed = λ fresh (row, m, k, late). (row, still_live claims db fresh row m late, k, late);
})

stored-Goes :
    (claims other : Claims) (db : OauthDb)
    → IsApart claims other
    → Goes claims db (
        reopened (
          saved revoked_tokens
            (reopened db)
            (suc db.calls)
            (replace_row (revocation other) (live_rows revoked_tokens (reopened db)))))
stored-Goes claims other db apart = record {
  same_env = refl;
  forth = omega arith;
  listed = λ fresh (row, m, k, late). elim (Bool-cases (other.jti == claims.jti)) [
    | inl same ↦
        let jti = eq_of_equals other.jti claims.jti same in
        (
          revocation other,
          In-append_right (revocation other)
              (others other.jti (live_rows revoked_tokens (reopened db))) (revocation other ∷ [])
              (inl refl),
          jti,
          omega (arith, ap (λ e. e * second) (apart jti)),
        )
    | inr different ↦ (
      row,
      In-replace_row row (revocation other) (live_rows revoked_tokens (reopened db))
          (still_live claims db fresh row m late)
          (λ e.
            ground
              (arith, different, (String_equals.equals_iff other.jti claims.jti).1 (sym e ∙ k))),
      k,
      late,
    )
  ];
}

revoked-Goes :
    (claims other : Claims) (db : OauthDb)
    → IsApart claims other
    → Goes claims db (revoke other db).1
revoked-Goes claims other db apart =
    let live = live_rows revoked_tokens (reopened db) in
    elim (Option-cases (room_for revoked_tokens other.jti live)) [
      | inl full ↦
          subst (Goes claims db) (sym (revoke-refused other db full))
            (record { same_env = refl; forth = omega arith; listed = λ fresh l. l })
      | inr (room, e) ↦
          subst (Goes claims db)
            (sym (
              revoke-kept other db room e
              ∙ ap
                  (λ rows. reopened (
                    saved revoked_tokens (reopened db) (suc db.calls)
                      (replace_row (revocation other) rows)))
                  (room_for-same other.jti live room e)))
            (stored-Goes claims other db apart)
    ]

-- Nothing that follows takes the row away before the token expires.
pub record Lasts (claims : Claims) (db u : OauthDb) : Type 0 where
  pub same_env : u.env ≡ db.env
  pub forth : db.calls ≤ u.calls
  pub listed :
      ((a b : ℕ) → a ≤ b → db.env.times a ≤ db.env.times b)
      → (db.env.times (suc u.calls) < claims.exp * second)
      → Listed claims db
      → Listed claims u

Goes-Lasts :
    (claims : Claims) (db t u : OauthDb) → Goes claims db t → Lasts claims t u → Lasts claims db u
Goes-Lasts claims db t u g l = record {
  same_env = l.same_env ∙ g.same_env;
  forth = omega (arith, l.forth, g.forth);
  listed = λ clock fresh there.
      l.listed (subst (λ env. (a b : ℕ) → a ≤ b → env.times a ≤ env.times b) (sym g.same_env) clock)
        (subst (λ env. env.times (suc u.calls) < claims.exp * second) (sym g.same_env) fresh)
        (g.listed
          (omega (arith, fresh, clock db.calls (suc u.calls) (omega (arith, l.forth, g.forth))))
          there);
}

pub Later-Lasts : (claims : Claims) (db u : OauthDb) → Later claims db u → Lasts claims db u
Later-Lasts claims _ _ (nothing_more db) = record {
  same_env = refl;
  forth = omega arith;
  listed = λ clock fresh l. l;
}
Later-Lasts claims _ _ (looked_up other db u rest) =
    Goes-Lasts claims db (is_revoked other db).1 u (looked_up-Goes claims other db)
      (Later-Lasts claims (is_revoked other db).1 u rest)
Later-Lasts claims _ _ (revoked other db u apart rest) =
    Goes-Lasts claims db (revoke other db).1 u (revoked-Goes claims other db apart)
      (Later-Lasts claims (revoke other db).1 u rest)
Later-Lasts claims _ _ (elsewhere db t u rows env calls rest) =
    Goes-Lasts claims db t u
      (record {
        same_env = env;
        forth = calls;
        listed = λ fresh l.
            subst
              (λ rows.
                (row : Row RevokedToken) × In row rows
                × (row.key ≡ claims.jti)
                × (claims.exp * second ≤ row.expires_at))
              (sym rows) l;
      })
      (Later-Lasts claims t u rest)
