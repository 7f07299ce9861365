-- ===== src/Auth/Sessions/Revoked.antt =====
-- A session that logout has ended.
use reli.Prelude.{
  ◌≤◌, ◌≢◌, In, In-filter, In-append_right, Bool-cases, [], ◌∷◌, ℕ, suc, ◌*◌, ◌<◌, ◌≡◌, inl, inr,
  refl, sym, ap, subst, ◌∙◌, String, true, false, Option, none, some, List, ◌==◌, String_equals,
  arith,
}
use reli.Result.{Result, Result-split, ok, err}
use reli.Exec.{pure, lift, raise, map_error, try, ◌>>=◌}
use reli.Exec.Returns.{bind-returns, guarded-returns}
use reli.OauthState.Records.{Row, OauthDb, Claims, RevokedToken, StoreFull}
use reli.OauthState.Stores.{
  others, has_key, find_row, revoked_tokens, now_utc, cleanup_and_store, is_live,
}
use reli.OauthState.Runs.{revoked_tokens-IsTable}
use reli.OauthState.Once.{stored_result}
use reli.OauthState.Capped.{reopened}
use reli.McpOauth.Refusals.{Settings, second}
use reli.McpOauth.Authorization.{is_same_origin}
use reli.Auth.Exceptions.{Exception, Jwt, on_db, with_session}
use reli.Auth.Sessions.{
  web_audience, decode_jwt, presented_claims, revoke, revoke_presented, on_full, logout,
  web_session,
}
use reli.Auth.Sessions.Later.{revocation, Listed, Later, Later-Lasts}
use reli.Auth.Sessions.Admitted.{live_revocations, Admitted, read_once, web_session-found}

presented_claims-run :
    (settings : Settings) (jwt : Jwt) (token : String) (db : OauthDb) (claims : Claims)
    → (token == "") ≡ false
    → settings.secret_key_configured ≡ true
    → jwt.decode (db.env.times db.calls) token web_audience settings.base_url ≡ ok claims
    → presented_claims settings jwt token db ≡ (ok (some claims), read_once db)
unfolding presented_claims decode_jwt now_utc on_db map_error lift pure try ◌>>=◌
presented_claims-run settings jwt token db claims there key read = ground (arith, there, key, read)

-- What returned did not raise.
on_full-returns :
    (r : Result StoreFull Unit) (u db t : OauthDb)
    → try (with_session (on_db (λ _. (r, u)))) on_full db ≡ (ok tt, t)
    → (r ≡ ok tt) × (t ≡ reopened u)
unfolding try raise with_session on_db map_error
on_full-returns (ok tt) u db t e = (refl, ground (arith, e))
on_full-returns (err full) u db t e = absurd (ground (arith, e))

-- A revocation that returned has stored the row.
revoke_presented-returns :
    (claims : Claims) (db t : OauthDb)
    → revoke_presented (some claims) db ≡ (ok tt, t)
    → (u : OauthDb) × (cleanup_and_store revoked_tokens claims.jti
          (record {})
          (claims.exp * second)
          (reopened db)
        ≡ (ok tt, u))
      × (t ≡ reopened u)
unfolding revoke_presented revoke with_session on_db map_error try
revoke_presented-returns claims db t e =
    let (r, u) =
      cleanup_and_store revoked_tokens claims.jti (record {}) (claims.exp * second) (reopened db) in
    let same = on_full-returns r u db t e in (u, ap (λ q. (q, u)) same.0, same.1)

both :
    {r : Result Exception (Option Claims) × OauthDb} {a b : Option Claims} {s t : OauthDb}
    → r ≡ (ok a, s)
    → r ≡ (ok b, t)
    → ◌≡◌ {A = Option Claims × OauthDb} (b, t) (a, s)
both h e = ground (arith, sym h ∙ e)

find_row-In :
    (key : String) (rows : List (Row RevokedToken)) (row : Row RevokedToken)
    → find_row key rows ≡ none
    → In row rows
    → row.key ≢ key
find_row-In key [] row h m = absurd m
find_row-In key (r ∷ rows) row h m = elim (Bool-cases (has_key key r)) [
  | inl own ↦ absurd (ground (arith, h, own))
  | inr other ↦ elim m [
    | inl e ↦ λ same.
        ground (arith, other, (String_equals.equals_iff r.key key).1 (ap (λ x. x.key) e ∙ same))
    | inr later ↦ find_row-In key rows row (ground (arith, h, other)) later
  ]
]

module _ (settings : Settings) (jwt : Jwt) (token : String) (claims : Claims) where
  -- Beside a row that revokes it, a token admits nobody before it expires.
  ended :
      (db : OauthDb) (other : Claims)
      → Listed claims db
      → db.env.times (suc db.calls) < claims.exp * second
      → other ≡ claims
      → ¬ Admitted settings jwt token db other
  ended db other (row, m, key, late) fresh same a =
      find_row-In claims.jti (live_revocations db) row
        (subst (λ c. find_row c.jti (live_revocations db) ≡ none) same a.not_revoked)
        (In-filter (is_live (db.env.times (suc db.calls))) row db.committed.revoked_tokens m
          (ground (arith, fresh, late)))
        key

  logout-Listed :
      (origin : Option String) (db t : OauthDb)
      → (token == "") ≡ false
      → settings.secret_key_configured ≡ true
      → jwt.decode (db.env.times db.calls) token web_audience settings.base_url ≡ ok claims
      → logout settings jwt origin token db ≡ (ok tt, t)
      → Listed claims t
  unfolding logout
  logout-Listed origin db t there key read e =
      let g = guarded-returns (is_same_origin settings origin) _ _ db tt t e in
      let (presented, s, p, r) =
        bind-returns (presented_claims settings jwt token) revoke_presented db tt t g.1 in
      let same = both (presented_claims-run settings jwt token db claims there key read) p in
      let (v, stored, shut) = revoke_presented-returns claims (read_once db) t (
        subst (λ q. revoke_presented q.0 q.1 ≡ (ok tt, t)) {x = (presented, s)}
          {y = (some claims, read_once db)} same r) in
      let (rows, kept) =
        stored_result revoked_tokens revoked_tokens-IsTable (reopened (read_once db)) claims.jti
          (record {}) (claims.exp * second) v stored in
      subst (Listed claims) (sym (shut ∙ ap reopened kept)) (
        revocation claims,
        In-append_right (revocation claims) (others claims.jti rows) (revocation claims ∷ [])
            (inl refl),
        refl,
        omega arith,
      )

  -- A token decodes to the same claims at every instant, for every audience and issuer that it decodes for; the
  -- clock does not go back; and every token that is revoked under the `jti` of this one expires when it does.
  -- When a logout with a cookie that decodes has returned, then after any requests that look up or revoke tokens, this
  -- one's too, or leave the revocation list alone, and as long as the clock reads less than the token's `exp`, the
  -- cookie admits nobody: `web_session` raises.
  pub logout-ends_session :
      (origin : Option String) (db t u : OauthDb)
      → ((a b : ℕ) (audience issuer : String) (c d : Claims)
          → jwt.decode a token audience issuer ≡ ok c
          → jwt.decode b token audience issuer ≡ ok d
          → d ≡ c)
      → (token == "") ≡ false
      → settings.secret_key_configured ≡ true
      → jwt.decode (db.env.times db.calls) token web_audience settings.base_url ≡ ok claims
      → logout settings jwt origin token db ≡ (ok tt, t)
      → ((a b : ℕ) → a ≤ b → t.env.times a ≤ t.env.times b)
      → Later claims t u
      → u.env.times (suc u.calls) < claims.exp * second
      → (reason : Exception) × ((web_session settings jwt token u).0 ≡ err reason)
  logout-ends_session origin db t u unchanged there key read e clock later fresh =
      let lasts = Later-Lasts claims t u later in
      let listed =
        lasts.listed clock
          (subst (λ env. env.times (suc u.calls) < claims.exp * second) lasts.same_env fresh)
          (logout-Listed origin db t there key read e) in
      elim (Result-split (web_session settings jwt token u).0) [
        | inr refused ↦ refused
        | inl (found, w) ↦
            let (other, _, a) =
              web_session-found settings jwt token u found (web_session settings jwt token u).1
                there (ap (λ x. (x, (web_session settings jwt token u).1)) w) in
            absurd (
              ended u other listed fresh
                (unchanged (db.env.times db.calls) (u.env.times u.calls) web_audience
                  settings.base_url claims other read a.read)
                a)
      ]
