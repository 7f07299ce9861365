-- ===== src/McpOauth/Rotation.antt =====
-- `grant_type=refresh_token` of backend/mcp_oauth.py: what a rotation takes and what it gives.
use reli.Prelude.{suc, In, ◌≡◌, String, String_equals}
use reli.Result.{Result}
use reli.OauthState.Records.{Row, OauthDb, McpRefreshToken}
use reli.OauthState.Stores.{mcp_refresh_tokens}
use reli.OauthState.Consumption.{Consumption, IsPresented}
use reli.McpOauth.Refusals.{Refusal, Settings}
use reli.McpOauth.Tokens.{TokenResponse, issue_token_response}
use reli.McpOauth.Grants.{Granted}
use reli.McpOauth.Issuance.{Account, Issued}

-- The account, family and deadline of a refresh token.
abbrev pub account_of : Row McpRefreshToken → Account
account_of row = record {
  subject = row.values.subject;
  email = row.values.email;
  client_id = row.values.client_id;
  scope = row.values.scope;
  family_id = row.values.family_id;
  expires_at = row.expires_at;
}

module _ (settings : Settings) where
  abbrev issue_for : Row McpRefreshToken → OauthDb → Result Refusal TokenResponse × OauthDb
  issue_for row =
      issue_token_response settings row.values.subject row.values.email row.values.client_id
        row.values.scope row.values.family_id row.expires_at

  -- What is issued once the token is consumed.
  record Replaced (token : String) (read : OauthDb) (response : TokenResponse) (t : OauthDb)
      : Type 0 where
    row : Row McpRefreshToken
    open_db : OauthDb
    consumption : Consumption token read row open_db
    issued : Issued settings (account_of row) open_db response t

  -- What a token response for a refresh token comes from.
  pub record Rotated (token client_id client_secret : String) (db : OauthDb)
      (response : TokenResponse) (t : OauthDb) : Type 0 where
    pub grant : Row McpRefreshToken
    pub read : OauthDb
    pub granted :
        Granted mcp_refresh_tokens (λ v. v.client_id) token client_id client_secret db grant read
    pub row : Row McpRefreshToken
    pub open_db : OauthDb
    pub consumption : Consumption token read row open_db
    pub issued : Issued settings (account_of row) open_db response t
    pub spent :
        (r : Row McpRefreshToken)
        → In r t.committed.refresh_tokens
        → IsPresented (read.env.digest token) (read.env.times (suc read.calls)) r
        → r.key ≡ open_db.env.digest response.refresh_token
