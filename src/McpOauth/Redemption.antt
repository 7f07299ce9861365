-- ===== src/McpOauth/Redemption.antt =====
-- `grant_type=authorization_code` of backend/mcp_oauth.py: what a code is exchanged for, and when.
use reli.Prelude.{ℕ, suc, ◌+◌, ◌≡◌, String, ◌&&◌, not, some, filter}
use reli.OauthState.Records.{Row, OauthDb, McpAuthCode}
use reli.OauthState.Stores.{mcp_auth_codes, take_live, has_key, is_live}
use reli.OauthState.Runs.{live_rows, saved}
use reli.McpOauth.Refusals.{Settings, refresh_token_ttl}
use reli.McpOauth.Tokens.{TokenResponse}
use reli.McpOauth.Grants.{Granted}
use reli.McpOauth.Issuance.{Account, Issued}

-- The account of a code, with the family and the deadline of the tokens that it starts.
abbrev pub account_for : Row McpAuthCode → String → ℕ → Account
account_for row family_id now = record {
  subject = some row.values.subject;
  email = some row.values.email;
  client_id = row.values.client_id;
  scope = row.values.scope;
  family_id = family_id;
  expires_at = now + refresh_token_ttl;
}

-- The verifier answers the challenge that the sign-in began with.
abbrev pub Answers : OauthDb → McpAuthCode → String → Type 0
Answers db code code_verifier =
    code.code_challenge_method ≡ "S256" → db.env.urlsafe_digest code_verifier ≡ code.code_challenge

-- The session once the code is popped: its row is deleted.
abbrev pub without_code : String → OauthDb → OauthDb
without_code code db =
    let now = db.env.times (suc db.calls) in
    saved mcp_auth_codes db (suc (suc db.calls)) (
      filter (λ row. not (has_key (db.env.digest code) row && is_live now row))
        (live_rows mcp_auth_codes db))

module _ (settings : Settings) where
  -- What a token response for an authorization code comes from.
  pub record Redeemed (code redirect_uri client_id client_secret code_verifier : String)
      (db : OauthDb) (response : TokenResponse) (t : OauthDb) : Type 0 where
    pub grant : Row McpAuthCode
    pub read : OauthDb
    pub granted :
        Granted mcp_auth_codes (λ v. v.client_id) code client_id client_secret db grant read
    pub row : Row McpAuthCode
    pub popped :
        take_live
          (read.env.digest code)
          (read.env.times (suc read.calls))
          (live_rows mcp_auth_codes read)
        ≡ some row
    pub redirect : redirect_uri ≡ row.values.redirect_uri
    pub answers : Answers (without_code code read) row.values code_verifier
    pub spent : t.committed.auth_codes ≡ (without_code code read).committed.auth_codes
    pub family_id : String
    pub now : ℕ
    pub open_db : OauthDb
    pub issued : Issued settings (account_for row family_id now) open_db response t
