-- ===== src/McpOauth/Issuance.antt =====
-- What a token response of backend/mcp_oauth.py is issued for, and what stands behind it.
use reli.Prelude.{
  ◌⊎◌, ap, not, [], ◌∷◌, In, In-append, filter-In, String_equals, ℕ, suc, ◌+◌, ◌/◌, ◌≡◌, refl, sym,
  ◌∙◌, String, true, false, Option, none, some, List, Option-cases, Bool-cases, inl, inr, map,
  arith,
}
use reli.Result.{Result, ok}
use reli.Exec.{pure, gets, raise, or_raise, map_error, ◌>>=◌}
use reli.OauthState.Records.{Row, OauthDb, Claims, McpRefreshToken}
use reli.OauthState.Stores.{
  others, has_key, is_live, find_row, replace_row, extended, now_utc, mcp_registered_clients,
  mcp_refresh_tokens,
}
use reli.OauthState.Consumption.{revoke_refresh_token_family-Revocation}
use reli.OauthState.Rows.{find_row-replace_row}
use reli.OauthState.Runs.{
  live_rows, room_for, room_for-In, saved, cleanup_and_store-kept, cleanup_and_store-refused,
  extend_expiry-run, mcp_registered_clients-IsTable, mcp_refresh_tokens-IsTable,
}
use reli.McpOauth.Refusals.{Refusal, Settings, is_allowed, second, mcp_jwt_expiry_seconds, on_store}
use reli.McpOauth.Tokens.{
  TokenResponse, uuid4, token_urlsafe, mint_access_token, refuse_account, require_allowed,
  issued_token, issue_token_response,
}

-- The account of a grant, and the family and the deadline of the tokens issued for it.
pub record Account : Type 0 where
  pub subject : Option String
  pub email : Option String
  pub client_id : String
  pub scope : String
  pub family_id : String
  pub expires_at : ℕ

-- What stands behind a token response.
pub record Issued (settings : Settings) (account : Account) (db : OauthDb)
    (response : TokenResponse) (t : OauthDb) : Type 0 where
  pub email : String
  pub of_account : account.email ≡ some email
  pub allowed : is_allowed settings db.env email ≡ true
  pub claims : Claims
  pub signed : response.access_token ≡ db.env.jwt_encode claims
  pub same_subject : claims.sub ≡ account.subject
  pub same_email : claims.email ≡ email
  pub audience : claims.aud ≡ "mcp"
  pub lifetime : claims.exp ≡ claims.iat + mcp_jwt_expiry_seconds
  pub codes_kept : t.committed.auth_codes ≡ db.pending.auth_codes
  pub no_other :
      (row : Row McpRefreshToken)
      → In row t.committed.refresh_tokens
      → In row db.pending.refresh_tokens ⊎ (row.key ≡ db.env.digest response.refresh_token)
  pub stored :
      find_row (db.env.digest response.refresh_token) t.committed.refresh_tokens
      ≡ some (record {
        key = db.env.digest response.refresh_token;
        values =
            issued_token account.subject email account.client_id account.scope account.family_id;
        expires_at = account.expires_at;
      })

-- The session once the tokens are drawn.
abbrev drawn : OauthDb → OauthDb
drawn db = record db { calls = suc (suc (suc db.calls)) }

abbrev refresh_key : OauthDb → String
refresh_key db = db.env.digest (db.env.secrets (suc (suc db.calls)))

module _ (settings : Settings) (subject : Option String) (email client_id scope family_id : String)
    (expires_at : ℕ) (db : OauthDb) where
  abbrev minted_claims : Claims
  minted_claims = record {
    iss = settings.base_url;
    sub = subject;
    email = email;
    aud = "mcp";
    iat = db.env.times db.calls / second;
    exp = db.env.times db.calls / second + mcp_jwt_expiry_seconds;
    jti = db.env.uuids (suc db.calls);
  }

  abbrev response : TokenResponse
  response = record {
    access_token = db.env.jwt_encode minted_claims;
    expires_in = mcp_jwt_expiry_seconds;
    refresh_token = db.env.secrets (suc (suc db.calls));
    scope = scope;
  }

  abbrev refresh_row : Row McpRefreshToken
  refresh_row = record {
    key = (refresh_key db);
    values = issued_token subject email client_id scope family_id;
    expires_at = expires_at;
  }

  abbrev refresh_stored : List (Row McpRefreshToken) → OauthDb
  refresh_stored room =
      saved mcp_refresh_tokens (drawn db) (suc (drawn db).calls) (replace_row refresh_row room)

  abbrev promoted : List (Row McpRefreshToken) → OauthDb
  promoted room =
      saved mcp_registered_clients (refresh_stored room) (suc (drawn db).calls)
        (map (extended client_id expires_at) db.pending.registered_clients)

  issue_token_response-run :
      (room : List (Row McpRefreshToken))
      → is_allowed settings db.env email ≡ true
      → room_for mcp_refresh_tokens (refresh_key db) (live_rows mcp_refresh_tokens (drawn db))
        ≡ some room
      → issue_token_response settings subject (some email) client_id scope family_id expires_at db
        ≡ (ok response, promoted room)
  unfolding issue_token_response require_allowed mint_access_token token_urlsafe uuid4 now_utc
      on_store map_error gets or_raise pure ◌>>=◌
  issue_token_response-run room allowed e =
      let kept =
        cleanup_and_store-kept mcp_refresh_tokens mcp_refresh_tokens-IsTable (drawn db)
          (db.env.secrets (suc (suc db.calls)))
          (issued_token subject email client_id scope family_id) expires_at room e in
      let moved =
        extend_expiry-run mcp_registered_clients mcp_registered_clients-IsTable
          (refresh_stored room) client_id expires_at in
      ground (arith, allowed, kept, moved)

  -- No token is issued to an account that is not allowed.
  issue_token_response-barred :
      (response : TokenResponse) (t : OauthDb)
      → is_allowed settings db.env email ≡ false
      → issue_token_response settings subject (some email) client_id scope family_id expires_at db
        ≡ (ok response, t)
      → ⊥
  unfolding issue_token_response require_allowed refuse_account on_store map_error raise gets
      or_raise ◌>>=◌
  issue_token_response-barred response t barred e =
      ground (arith, barred, (revoke_refresh_token_family-Revocation family_id db).2, e)

  -- Nor one that the store has no room for.
  issue_token_response-full :
      (response : TokenResponse) (t : OauthDb)
      → is_allowed settings db.env email ≡ true
      → room_for mcp_refresh_tokens (refresh_key db) (live_rows mcp_refresh_tokens (drawn db))
        ≡ none
      → issue_token_response settings subject (some email) client_id scope family_id expires_at db
        ≡ (ok response, t)
      → ⊥
  unfolding issue_token_response require_allowed mint_access_token token_urlsafe uuid4 now_utc
      on_store map_error gets or_raise pure ◌>>=◌
  issue_token_response-full response t allowed full e =
      let refused =
        cleanup_and_store-refused mcp_refresh_tokens mcp_refresh_tokens-IsTable (drawn db)
          (db.env.secrets (suc (suc db.calls)))
          (issued_token subject email client_id scope family_id) expires_at full in
      ground (arith, allowed, refused, e)

  -- The only new row is that of the new token.
  promoted-In :
      (room : List (Row McpRefreshToken))
      → room_for mcp_refresh_tokens (refresh_key db) (live_rows mcp_refresh_tokens (drawn db))
        ≡ some room
      → (row : Row McpRefreshToken) → In row (replace_row refresh_row room)
      → In row db.pending.refresh_tokens ⊎ (row.key ≡ refresh_key db)
  promoted-In room fits row m =
      elim (In-append row (others (refresh_key db) room) (refresh_row ∷ []) m) [
        | inr (inl e) ↦ inr (ap (λ r. r.key) (sym e))
        | inr (inr x) ↦ absurd x
        | inl old ↦ inl (
            (filter-In (is_live (db.env.times (drawn db).calls)) row db.pending.refresh_tokens (
              room_for-In mcp_refresh_tokens (refresh_key db)
                (live_rows mcp_refresh_tokens (drawn db)) room row fits
                (filter-In (λ r. not (has_key (refresh_key db) r)) row room old).0)).0)
      ]

  promoted-Issued :
      (room : List (Row McpRefreshToken))
      → is_allowed settings db.env email ≡ true
      → room_for mcp_refresh_tokens (refresh_key db) (live_rows mcp_refresh_tokens (drawn db))
        ≡ some room
      → Issued settings
          (record {
            subject = subject;
            email = some email;
            client_id = client_id;
            scope = scope;
            family_id = family_id;
            expires_at = expires_at;
          })
          db
          response
          (promoted room)
  promoted-Issued room allowed fits = record {
    no_other = promoted-In room fits;
    email = email;
    of_account = refl;
    allowed = allowed;
    claims = minted_claims;
    signed = refl;
    same_subject = refl;
    same_email = refl;
    audience = refl;
    lifetime = refl;
    codes_kept = refl;
    stored = find_row-replace_row refresh_row room;
  }

outcome :
    (a b : TokenResponse) (s t : OauthDb)
    → ◌≡◌ {A = Result Refusal TokenResponse × OauthDb} (ok a, s) (ok b, t)
    → (b ≡ a) × (t ≡ s)
outcome a b s t e = ground (arith, e)

-- The same, of an email that is there.
known-Issued :
    (settings : Settings) (account : Account) (email : String) (db : OauthDb)
    (response : TokenResponse) (t : OauthDb)
    → issue_token_response settings account.subject
        (some email)
        account.client_id
        account.scope
        account.family_id
        account.expires_at
        db
      ≡ (ok response, t)
    → Issued settings (record account { email = some email }) db response t
known-Issued settings account email db answer t e =
    let room =
      room_for mcp_refresh_tokens (refresh_key db) (live_rows mcp_refresh_tokens (drawn db)) in
    elim (Bool-cases (is_allowed settings db.env email)) [
      | inr barred ↦ absurd (
          issue_token_response-barred settings account.subject email account.client_id account.scope
            account.family_id account.expires_at db answer t barred e)
      | inl allowed ↦ elim (Option-cases room) [
        | inl full ↦ absurd (
            issue_token_response-full settings account.subject email account.client_id account.scope
              account.family_id account.expires_at db answer t allowed full e)
        | inr (rows, fits) ↦
            let run =
              issue_token_response-run settings account.subject email account.client_id
                account.scope account.family_id account.expires_at db rows allowed fits in
            let issued =
              promoted-Issued settings account.subject email account.client_id account.scope
                account.family_id account.expires_at db rows allowed fits in
            let same =
              outcome
                (response settings account.subject email account.client_id account.scope
                  account.family_id account.expires_at db)
                answer _ t (sym run ∙ e) in
            rw (same.0, same.1) issued
      ]
    ]

-- What `issue_token_response` returns stands on an allowed account and on a stored refresh token.
pub issue_token_response-Issued :
    (settings : Settings) (account : Account) (db : OauthDb) (response : TokenResponse)
    (t : OauthDb)
    → issue_token_response settings account.subject account.email account.client_id account.scope
        account.family_id account.expires_at db
      ≡ (ok response, t)
    → Issued settings account db response t
unfolding issue_token_response or_raise ◌>>=◌
issue_token_response-Issued settings account db response t = go account.email
  where
    go :
        (email : Option String)
        → issue_token_response settings account.subject email account.client_id account.scope
            account.family_id account.expires_at db
          ≡ (ok response, t)
        → Issued settings (record account { email = email }) db response t
    go none e = absurd cc
    go (some email) e = known-Issued settings account email db response t e
