-- ===== src/Guards/Token.antt =====
-- What the bearer check lets pass.
use reli.Prelude.{
  ◌≡◌, ◌⊎◌, inl, inr, sym, ◌∙◌, subst, String, true, none, ◌==◌, String_equals, Bool-cases,
  starts_with, text_drop, arith,
}
use reli.Result.{Result, ok, err}
use reli.Exec.{pure, raise, lift, map_error, try, ◌>>=◌}
use reli.Exec.Returns.{bind-returns, if-returns, pure-returns}
use reli.OauthState.Records.{OauthDb, Claims}
use reli.OauthState.Stores.{find_row, revoked_tokens, now_utc}
use reli.OauthState.Runs.{live_rows}
use reli.OauthState.Capped.{reopened}
use reli.McpOauth.Refusals.{Settings, is_allowed}
use reli.Auth.Exceptions.{expired_signature, invalid_token, JwtError, Jwt, on_db}
use reli.Auth.Sessions.{decoded, mcp_audience, decode_jwt}
use reli.Auth.Sessions.Admitted.{account_checked, read_once}
use reli.RateLimit.Keys.{HttpRequest, authorization}
use reli.RateLimit.Middleware.Earned.{Bearer}
use reli.Guards.{
  goes_on, unauthorized, Reading, holds, unreadable, on_unreadable_bearer, check_claims, provided,
  check_token, check_bearer, not_accepted, bearer_revoked, account_not_allowed, no_bearer_token,
  mcp_closed,
}

reading_holds :
    (settings : Settings) (jwt : Jwt) (token : String) (db : OauthDb) (claims : Claims)
    (t : OauthDb)
    → try
        (do c ← decode_jwt settings jwt token mcp_audience; pure (holds c))
        on_unreadable_bearer
        db
      ≡ (ok (holds claims), t)
    → (jwt.decode (db.env.times db.calls) token mcp_audience settings.base_url ≡ ok claims)
      × (t ≡ read_once db)
unfolding decode_jwt now_utc on_db map_error lift ◌>>=◌ try raise pure
reading_holds settings jwt token db claims t e =
    split (jwt.decode (db.env.times db.calls) token mcp_audience settings.base_url) e
  where
    split :
        (r : Result JwtError Claims)
        → try
            (do c ← (λ s. (lift (decoded r)) (read_once s)); pure (holds c))
            on_unreadable_bearer
            db
          ≡ (ok (holds claims), t)
        → (r ≡ ok claims) × (t ≡ read_once db)
    split (ok c) h = (ground (arith, h), ground (arith, h))
    split (err expired_signature) h = absurd (ground (arith, h))
    split (err invalid_token) h = absurd (ground (arith, h))

check_claims-allowed :
    (settings : Settings) (claims : Claims) (db t : OauthDb)
    → check_claims settings (holds claims) db ≡ (ok goes_on, t)
    → (is_allowed settings db.env claims.email ≡ true)
      × (find_row claims.jti (live_rows revoked_tokens (reopened db)) ≡ none)
unfolding check_claims
check_claims-allowed settings claims db t e =
    let (allowed, live, _) =
      account_checked settings claims (not_accepted account_not_allowed)
        (not_accepted bearer_revoked) goes_on goes_on db t (λ h. ground (arith, h))
        (λ h. ground (arith, h)) e in
    (allowed, live)

read_and_allowed :
    (settings : Settings) (jwt : Jwt) (request : HttpRequest) (reading : Reading) (db u t : OauthDb)
    → starts_with "Bearer " (authorization "" request.headers) ≡ true
    → try
        (do
          c ← decode_jwt settings jwt (text_drop 7 (authorization "" request.headers)) mcp_audience
          pure (holds c))
        on_unreadable_bearer
        db
      ≡ (ok reading, u)
    → check_claims settings reading u ≡ (ok goes_on, t)
    → (claims : Claims) × Bearer settings jwt request db claims
unfolding check_claims
read_and_allowed settings jwt request (unreadable d) db u t presented e h =
    absurd (ground (arith, (pure-returns (not_accepted d) u goes_on t h).0))
read_and_allowed settings jwt request (holds claims) db u t presented e h =
    let r =
      reading_holds settings jwt (text_drop 7 (authorization "" request.headers)) db claims u e in
    let a =
      check_claims-allowed settings claims (read_once db) t
        (subst (λ s. check_claims settings (holds claims) s ≡ (ok goes_on, t)) r.1 h) in
    (claims, record { presented = presented; read = r.0; allowed = a.0; not_revoked = a.1 })

provided-cases :
    (header : String)
    → (provided header ≡ "")
      ⊎ ((starts_with "Bearer " header ≡ true) × (provided header ≡ text_drop 7 header))
provided-cases header = elim (Bool-cases (starts_with "Bearer " header)) [
  | inl there ↦ inr (there, ground (arith, there))
  | inr absent ↦ inl (ground (arith, absent))
]

check_token-Bearer :
    (settings : Settings) (jwt : Jwt) (request : HttpRequest) (db t : OauthDb)
    → check_token settings jwt (provided (authorization "" request.headers)) db ≡ (ok goes_on, t)
    → (claims : Claims) × Bearer settings jwt request db claims
unfolding check_token
check_token-Bearer settings jwt request db t e =
    let header = authorization "" request.headers in
    elim (if-returns (provided header == "") _ _ db goes_on t e) [
      | inl (_, nothing) ↦ absurd (
          ground (arith, (pure-returns (unauthorized no_bearer_token none) db goes_on t nothing).0))
      | inr (there, rest) ↦
          let (reading, u, decoding, checked) =
            bind-returns
              (try (do c ← decode_jwt settings jwt (provided header) mcp_audience; pure (holds c))
                on_unreadable_bearer)
              (check_claims settings) db goes_on t rest in
          elim (provided-cases header) [
            | inl empty ↦ absurd (
                ground (arith, sym there ∙ (String_equals.equals_iff (provided header) "").1 empty))
            | inr (presented, same) ↦
                read_and_allowed settings jwt request reading db u t presented
                  (subst
                    (λ token.
                      try (do c ← decode_jwt settings jwt token mcp_audience; pure (holds c))
                        on_unreadable_bearer db
                      ≡ (ok reading, u))
                    same decoding)
                  checked
          ]
    ]

pub check_bearer-Bearer :
    (settings : Settings) (jwt : Jwt) (request : HttpRequest) (db t : OauthDb)
    → check_bearer settings jwt true request db ≡ (ok goes_on, t)
    → (settings.secret_key_configured ≡ true)
      × (claims : Claims) × Bearer settings jwt request db claims
unfolding check_bearer
check_bearer-Bearer settings jwt request db t e =
    elim (if-returns settings.secret_key_configured _ _ db goes_on t e) [
      | inl (configured, rest) ↦
          let (claims, presented) = check_token-Bearer settings jwt request db t rest in
          (configured, claims, presented)
      | inr (_, closed) ↦
          absurd
            (ground (arith, (pure-returns (unauthorized mcp_closed none) db goes_on t closed).0))
    ]
