-- ===== src/RateLimit/Middleware/Earned.antt =====
-- Which requests are counted by an account.
use reli.Prelude.{
  ◌≡◌, ◌⊎◌, inl, inr, ◌∙◌, ap, subst, String, Bool, true, Option, none, some, ◌==◌, String_equals,
  Option-cases, if◌then◌else◌, starts_with, text_drop, arith,
}
use reli.Result.{Result, ok, err}
use reli.Exec.{pure, raise, lift, map_error, try, ◌>>=◌}
use reli.Exec.Returns.{bind-returns, if-returns, pure-returns}
use reli.OauthState.Records.{OauthDb, Claims}
use reli.OauthState.Stores.{find_row, revoked_tokens, now_utc}
use reli.OauthState.Runs.{live_rows}
use reli.OauthState.Capped.{reopened}
use reli.McpOauth.Refusals.{Settings, is_allowed}
use reli.Auth.Exceptions.{Action, Exception, session_refused, JwtError, Jwt, on_db}
use reli.Auth.Sessions.{decoded, mcp_audience, decode_jwt, web_session}
use reli.Auth.Sessions.Admitted.{
  Admitted, web_session-Admitted, account_checked, read_once, live_revocations,
}
use reli.RateLimit.Buckets.{Tier, user}
use reli.RateLimit.Keys.{
  HttpRequest, authorization, on_no_session, on_no_bearer, subject_of, admit_bearer, bearer_subject,
  subject_or_bearer, user_subject,
}
use reli.RateLimit.Middleware.{key_for, request_key}

-- A bearer token that the MCP server would let in.
pub record Bearer (settings : Settings) (jwt : Jwt) (request : HttpRequest) (db : OauthDb)
    (claims : Claims) : Type 0 where
  pub presented : starts_with "Bearer " (authorization "" request.headers) ≡ true
  pub read :
      jwt.decode
        (db.env.times db.calls)
        (text_drop 7 (authorization "" request.headers))
        mcp_audience
        settings.base_url
      ≡ ok claims
  pub allowed : is_allowed settings db.env claims.email ≡ true
  pub not_revoked : find_row claims.jti (live_revocations db) ≡ none

-- An account's own credential: a session cookie that admits the request, or else a bearer token.
abbrev pub Earned : Settings → Jwt → HttpRequest → OauthDb → String → Type 0
Earned settings jwt request db subject =
    ((claims : Claims) × Admitted settings jwt request.session_cookie db claims
      × (subject ≡ subject_of claims))
    ⊎ ((t : OauthDb) × (claims : Claims) × (try (web_session settings jwt request.session_cookie)
            on_no_session db
          ≡ (ok none, t))
        × Bearer settings jwt request t claims
        × (subject ≡ subject_of claims))

has_session :
    (r : Result Exception (Option Claims)) (u db : OauthDb) (claims : Claims) (t : OauthDb)
    → try (λ _. (r, u)) on_no_session db ≡ (ok (some claims), t)
    → ◌≡◌ {A = Result Exception (Option Claims) × OauthDb} (r, u) (ok (some claims), t)
unfolding try raise pure
has_session (ok o) u db claims t h = h
has_session (err (session_refused detail)) u db claims t h = absurd (ground (arith, h))
has_session (err x) u db claims t h = absurd (ground (arith, h))

on_no_session-passes :
    (m : Action (Option Claims)) (db : OauthDb) (claims : Claims) (t : OauthDb)
    → try m on_no_session db ≡ (ok (some claims), t)
    → m db ≡ (ok (some claims), t)
unfolding try
on_no_session-passes m db claims t e = let (r, u) = m db in has_session r u db claims t e

bearer_read :
    (settings : Settings) (jwt : Jwt) (token : String) (db : OauthDb) (claims : Claims)
    (t : OauthDb)
    → try (do c ← decode_jwt settings jwt token mcp_audience; pure (some c)) on_no_bearer db
      ≡ (ok (some claims), t)
    → (jwt.decode (db.env.times db.calls) token mcp_audience settings.base_url ≡ ok claims)
      × (t ≡ read_once db)
unfolding decode_jwt now_utc on_db map_error lift ◌>>=◌ try raise pure
bearer_read settings jwt token db claims t e =
    split (jwt.decode (db.env.times db.calls) token mcp_audience settings.base_url) e
  where
    split :
        (r : Result JwtError Claims)
        → try (do c ← (λ s. (lift (decoded r)) (read_once s)); pure (some c)) on_no_bearer db
          ≡ (ok (some claims), t)
        → (r ≡ ok claims) × (t ≡ read_once db)
    split (ok c) h = (ground (arith, h), ground (arith, h))
    split (err x) h = absurd (ground (arith, h))

-- Only an allowed account whose token is not revoked is named.
admit_bearer-allowed :
    (settings : Settings) (claims : Claims) (subject : String) (db t : OauthDb)
    → admit_bearer settings (some claims) db ≡ (ok (some subject), t)
    → (is_allowed settings db.env claims.email ≡ true)
      × (find_row claims.jti (live_rows revoked_tokens (reopened db)) ≡ none)
      × (subject ≡ subject_of claims)
unfolding admit_bearer
admit_bearer-allowed settings claims subject db t e =
    let (allowed, live, same) =
      account_checked settings claims none none (some (subject_of claims)) (some subject) db t
        (λ h. ground (arith, h)) (λ h. ground (arith, h)) e in
    (allowed, live, ground (arith, same))

no_bearer :
    (settings : Settings) (subject : String) (db t : OauthDb)
    → admit_bearer settings none db ≡ (ok (some subject), t)
    → ⊥
unfolding admit_bearer
no_bearer settings subject db t e = ground (arith, (pure-returns none db (some subject) t e).0)

bearer_subject-Bearer :
    (settings : Settings) (jwt : Jwt) (request : HttpRequest) (subject : String) (db t : OauthDb)
    → bearer_subject settings jwt request.headers db ≡ (ok (some subject), t)
    → (claims : Claims) × Bearer settings jwt request db claims × (subject ≡ subject_of claims)
unfolding bearer_subject
bearer_subject-Bearer settings jwt request subject db t e =
    let value = authorization "" request.headers in
    elim (if-returns (starts_with "Bearer " value) _ _ db (some subject) t e) [
      | inr (_, nothing) ↦
          absurd (ground (arith, (pure-returns none db (some subject) t nothing).0))
      | inl (presented, rest) ↦
          let (found, u, reading, admission) =
            bind-returns
              (try (do c ← decode_jwt settings jwt (text_drop 7 value) mcp_audience; pure (some c))
                on_no_bearer)
              (admit_bearer settings) db (some subject) t rest in
          elim (Option-cases found) [
            | inl absent ↦ absurd (
                no_bearer settings subject u t (
                  subst (λ f. admit_bearer settings f u ≡ (ok (some subject), t)) absent admission))
            | inr (claims, there) ↦
                let r =
                  bearer_read settings jwt (text_drop 7 value) db claims u
                    (reading ∙ ap (λ f. (ok f, u)) there) in
                let a = admit_bearer-allowed settings claims subject (read_once db) t (
                  subst {A = Option Claims × OauthDb}
                    (λ q. admit_bearer settings q.0 q.1 ≡ (ok (some subject), t)) {x = (found, u)}
                    {y = (some claims, read_once db)} (ground (arith, there, r.1)) admission) in
                (
                  claims,
                  record { presented = presented; read = r.0; allowed = a.0; not_revoked = a.1 },
                  a.2,
                )
          ]
    ]

subject_or_bearer-Earned :
    (settings : Settings) (jwt : Jwt) (request : HttpRequest) (subject : String) (db u t : OauthDb)
    (found : Option Claims)
    → try (web_session settings jwt request.session_cookie) on_no_session db ≡ (ok found, u)
    → subject_or_bearer settings jwt request.headers found u ≡ (ok (some subject), t)
    → Earned settings jwt request db subject
unfolding subject_or_bearer
subject_or_bearer-Earned settings jwt request subject db u t (some claims) session e = inl (
  claims,
  web_session-Admitted settings jwt request.session_cookie db claims u
      (on_no_session-passes (web_session settings jwt request.session_cookie) db claims u session),
  ground (arith, (pure-returns (some (subject_of claims)) u (some subject) t e).0),
)
subject_or_bearer-Earned settings jwt request subject db u t none session e =
    let (claims, bearer, same) = bearer_subject-Bearer settings jwt request subject u t e in
    inr (u, claims, session, bearer, same)

user_subject-Earned :
    (settings : Settings) (jwt : Jwt) (request : HttpRequest) (subject : String) (db t : OauthDb)
    → user_subject settings jwt request db ≡ (ok (some subject), t)
    → (settings.secret_key_configured ≡ true) × Earned settings jwt request db subject
unfolding user_subject
user_subject-Earned settings jwt request subject db t e =
    elim (if-returns settings.secret_key_configured _ _ db (some subject) t e) [
      | inr (_, nothing) ↦
          absurd (ground (arith, (pure-returns none db (some subject) t nothing).0))
      | inl (configured, rest) ↦
          let (found, u, session, named) =
            bind-returns (try (web_session settings jwt request.session_cookie) on_no_session) _ db
              (some subject) t rest in
          (
            configured,
            subject_or_bearer-Earned settings jwt request subject db u t found session named,
          )
    ]

named_user :
    (is_trusted_proxy : String → Bool) (request : HttpRequest) (found : Option String)
    (subject : String)
    → user subject ≡ key_for is_trusted_proxy request found
    → found ≡ some subject
named_user is_trusted_proxy request none subject h = absurd (ground (arith, h))
named_user is_trusted_proxy request (some s) subject h = ground (arith, h)

-- A request is counted by an account only in the tier `api`, and only when the key is configured and the
-- request presents a credential of that account: a session cookie that `web_session` lets in, or else, when it lets
-- none in, a bearer token that decodes for the audience `mcp` and this issuer, of an account in
-- ALLOWED_EMAILS, and without a live row in the revocation list.
pub request_key-Earned :
    (settings : Settings) (jwt : Jwt) (is_trusted_proxy : String → Bool) (tier : Tier)
    (request : HttpRequest) (subject : String) (db t : OauthDb)
    → request_key settings jwt is_trusted_proxy tier request db ≡ (ok (user subject), t)
    → ((tier.name == "api") ≡ true)
      × (settings.secret_key_configured ≡ true)
      × Earned settings jwt request db subject
unfolding request_key
request_key-Earned settings jwt is_trusted_proxy tier request subject db t e =
    let (found, u, looked, done) =
      bind-returns (if tier.name == "api" then user_subject settings jwt request else pure none) _
        db (user subject) t e in
    let named =
      named_user is_trusted_proxy request found subject
        (pure-returns (key_for is_trusted_proxy request found) u (user subject) t done).0 in
    elim (if-returns (tier.name == "api") _ _ db found u looked) [
      | inl (api, by_subject) ↦
          let (configured, earned) =
            user_subject-Earned settings jwt request subject db u
              (by_subject ∙ ap (λ f. (ok f, u)) named) in
          (api, configured, earned)
      | inr (_, nothing) ↦ absurd (ground (arith, named, (pure-returns none db found u nothing).0))
    ]
