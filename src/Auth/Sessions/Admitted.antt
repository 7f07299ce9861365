-- ===== src/Auth/Sessions/Admitted.antt =====
-- What stands behind a session cookie that is admitted.
use reli.Prelude.{
  ◌≢◌, ap, suc, ◌≡◌, refl, sym, subst, ◌∙◌, String, Bool, true, false, not, Option, none, some,
  List, ◌==◌, String_equals, Bool-cases, inl, inr, is_some, arith, if◌then◌else◌,
}
use reli.Result.{Result, ok, err}
use reli.Exec.{pure, gets, lift, raise, map_error, try, ◌>>=◌}
use reli.Exec.Returns.{bind-returns, if-returns, guarded-returns, gets-returns, pure-returns}
use reli.OauthState.Records.{Row, OauthDb, Claims, RevokedToken}
use reli.OauthState.Stores.{find_row, revoked_tokens, now_utc}
use reli.OauthState.Runs.{live_rows, cleanup_and_get-run, revoked_tokens-IsTable}
use reli.OauthState.Capped.{reopened}
use reli.McpOauth.Refusals.{Settings, is_allowed}
use reli.Auth.Exceptions.{
  Action, Exception, Jwt, JwtError, expired_signature, invalid_token, on_db, with_session,
}
use reli.Auth.Sessions.{
  web_audience, decoded, decode_jwt, is_revoked, on_unreadable, admitted_claims, web_session,
}

-- The clock has been read once more.
abbrev pub read_once : OauthDb → OauthDb
read_once db = record db { calls = suc db.calls }

-- The revocation list as the look-up sees it.
abbrev pub live_revocations : OauthDb → List (Row RevokedToken)
live_revocations db = live_rows revoked_tokens (reopened (read_once db))

-- A token that admits a request.
pub record Admitted (settings : Settings) (jwt : Jwt) (token : String) (db : OauthDb)
    (claims : Claims) : Type 0 where
  pub configured : settings.secret_key_configured ≡ true
  pub read : jwt.decode (db.env.times db.calls) token web_audience settings.base_url ≡ ok claims
  pub allowed : is_allowed settings db.env claims.email ≡ true
  pub not_revoked : find_row claims.jti (live_revocations db) ≡ none

is_revoked-run :
    (claims : Claims) (db : OauthDb)
    → (is_revoked claims db).0
      ≡ ok (is_some (find_row claims.jti (live_rows revoked_tokens (reopened db))))
unfolding is_revoked with_session on_db map_error pure ◌>>=◌
is_revoked-run claims db =
    ground
      (arith, cleanup_and_get-run revoked_tokens revoked_tokens-IsTable (reopened db) claims.jti)

token_read :
    (settings : Settings) (jwt : Jwt) (token : String) (db : OauthDb) (claims : Claims)
    (t : OauthDb)
    → try (decode_jwt settings jwt token web_audience) on_unreadable db ≡ (ok claims, t)
    → (jwt.decode (db.env.times db.calls) token web_audience settings.base_url ≡ ok claims)
      × (t ≡ read_once db)
unfolding decode_jwt now_utc on_db map_error lift ◌>>=◌ try raise
token_read settings jwt token db claims t e =
    split (jwt.decode (db.env.times db.calls) token web_audience settings.base_url) e
  where
    split :
        (r : Result JwtError Claims)
        → try (λ _. (decoded r, read_once db)) on_unreadable db ≡ (ok claims, t)
        → (r ≡ ok claims) × (t ≡ read_once db)
    split (ok c) h = (ground (arith, h), ground (arith, h))
    split (err expired_signature) h = absurd (ground (arith, h))
    split (err invalid_token) h = absurd (ground (arith, h))

got_value :
    {A : Type 0} {r : Result Exception A × OauthDb} {a b : A} {t : OauthDb}
    → r.0 ≡ ok a
    → r ≡ (ok b, t)
    → b ≡ a
got_value h e = ground (arith, h, e)

found_none :
    (found : Option (Row RevokedToken)) (revoked : Bool)
    → revoked ≡ is_some found
    → not revoked ≡ true
    → found ≡ none
found_none none revoked h k = refl
found_none (some row) revoked h k = absurd (ground (arith, h, k))

-- The check of an account and of the revocation list behind a bearer token, which has passed when its answer is
-- neither of the two refusals.
pub account_checked :
    {A : Type 0} (settings : Settings) (claims : Claims) (barred revoked_answer passed answer : A)
    (db t : OauthDb)
    → answer ≢ barred
    → answer ≢ revoked_answer
    → (do
      allowed ← gets (λ db. is_allowed settings db.env claims.email)
      if allowed
          then (do revoked ← is_revoked claims; pure (if revoked then revoked_answer else passed))
          else pure barred)
        db
      ≡ (ok answer, t)
    → (is_allowed settings db.env claims.email ≡ true)
      × (find_row claims.jti (live_rows revoked_tokens (reopened db)) ≡ none)
      × (answer ≡ passed)
account_checked settings claims barred revoked_answer passed answer db t not_barred not_revoked e =
    let (a, u, got, branch) =
      bind-returns (gets (λ db. is_allowed settings db.env claims.email)) _ db answer t e in
    let there = gets-returns (λ db. is_allowed settings db.env claims.email) db a u got in
    elim (if-returns a _ _ u answer t branch) [
      | inr (_, refused) ↦ absurd (not_barred (pure-returns barred u answer t refused).0)
      | inl (permitted, rest) ↦
          let (b, v, looked, done) = bind-returns (is_revoked claims) _ u answer t rest in
          let same = (pure-returns (if b then revoked_answer else passed) v answer t done).0 in
          elim (Bool-cases b) [
            | inl revoked ↦
                absurd (not_revoked (same ∙ ap (λ r. if r then revoked_answer else passed) revoked))
            | inr live ↦ (
              sym there.0 ∙ permitted,
              subst (λ s. find_row claims.jti (live_rows revoked_tokens (reopened s)) ≡ none)
                  there.1
                  (found_none _ b (got_value (is_revoked-run claims u) looked)
                    (ground (arith, live))),
              same ∙ ap (λ r. if r then revoked_answer else passed) live,
            )
          ]
    ]

admitted_claims-Admitted :
    (settings : Settings) (jwt : Jwt) (token : String) (db : OauthDb) (claims : Claims)
    (t : OauthDb)
    → admitted_claims settings jwt token db ≡ (ok claims, t)
    → Admitted settings jwt token db claims
unfolding admitted_claims
admitted_claims-Admitted settings jwt token db claims t e =
    let g = guarded-returns settings.secret_key_configured _ _ db claims t e in
    let (c, t1, read, e1) =
      bind-returns (try (decode_jwt settings jwt token web_audience) on_unreadable) _ db claims t
        g.1 in
    let r = token_read settings jwt token db c t1 read in
    let (a, t2, got, e2) =
      bind-returns (gets (λ db. is_allowed settings db.env c.email)) _ t1 claims t e1 in
    let g2 = guarded-returns a _ _ t2 claims t e2 in
    let (b, t3, looked, e3) = bind-returns (is_revoked c) _ t2 claims t g2.1 in
    let g3 = guarded-returns (not b) _ _ t3 claims t e3 in
    let looked_up = got_value (is_revoked-run c t2) looked in
    let same = pure-returns c t3 claims t g3.1 in
    let there = gets-returns (λ db. is_allowed settings db.env c.email) t1 a t2 got in
    subst (Admitted settings jwt token db) (sym same.0) (record {
      configured = g.0;
      read = r.0;
      allowed = subst (λ s. is_allowed settings s.env c.email ≡ true) r.1 (sym there.0 ∙ g2.0);
      not_revoked =
          subst (λ s. find_row c.jti (live_rows revoked_tokens (reopened s)) ≡ none) (there.1 ∙ r.1)
            (found_none _ b looked_up g3.0);
    })

no_cookie :
    (empty : Bool) (m : Action (Option Claims)) (db : OauthDb) (claims : Claims) (t : OauthDb)
    → empty ≡ true
    → (if empty then pure none else m) db ≡ (ok (some claims), t)
    → ⊥
unfolding pure
no_cookie true m db claims t h e = ground (arith, e)
no_cookie false m db claims t h e = ground (arith, h)

cookie :
    (empty : Bool) (m : Action (Option Claims)) (db : OauthDb) (found : Option Claims) (t : OauthDb)
    → empty ≡ false
    → (if empty then pure none else m) db ≡ (ok found, t)
    → m db ≡ (ok found, t)
cookie true m db found t h e = absurd (ground (arith, h))
cookie false m db found t h e = e

pub web_session-found :
    (settings : Settings) (jwt : Jwt) (token : String) (db : OauthDb) (found : Option Claims)
    (t : OauthDb)
    → (token == "") ≡ false
    → web_session settings jwt token db ≡ (ok found, t)
    → (claims : Claims) × (found ≡ some claims) × Admitted settings jwt token db claims
unfolding web_session
web_session-found settings jwt token db found t there e =
    let (c, s, admitted, done) =
      bind-returns (admitted_claims settings jwt token) _ db found t
        (cookie (token == "") _ db found t there e) in
    (
      c,
      (pure-returns (some c) s found t done).0,
      admitted_claims-Admitted settings jwt token db c s admitted,
    )

-- When `web_session` returns the claims of a cookie, the key is configured, the token decodes to these
-- claims for the audience `web` and this issuer, the account is in ALLOWED_EMAILS, and no live row of the
-- revocation list has the token's `jti`.
pub web_session-Admitted :
    (settings : Settings) (jwt : Jwt) (token : String) (db : OauthDb) (claims : Claims)
    (t : OauthDb)
    → web_session settings jwt token db ≡ (ok (some claims), t)
    → Admitted settings jwt token db claims
unfolding web_session
web_session-Admitted settings jwt token db claims t e = elim (Bool-cases (token == "")) [
  | inl empty ↦ absurd (no_cookie (token == "") _ db claims t empty e)
  | inr there ↦
      let (c, same, admitted) = web_session-found settings jwt token db (some claims) t there e in
      subst (Admitted settings jwt token db) {y = claims} (ground (arith, same)) admitted
]
