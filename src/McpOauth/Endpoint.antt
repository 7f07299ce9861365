-- ===== src/McpOauth/Endpoint.antt =====
-- `POST /oauth/token` of backend/mcp_oauth.py as a whole.
use reli.Prelude.{◌≡◌, ◌⊎◌, String_equals}
use reli.Result.{Result}
use reli.OauthState.Records.{OauthDb}
use reli.McpOauth.Refusals.{Settings}
use reli.McpOauth.Tokens.{TokenForm, TokenResponse}
use reli.McpOauth.Rotation.{Rotated}
use reli.McpOauth.Redemption.{Redeemed}

module _ (settings : Settings) (form : TokenForm) where
  -- What a token response is for, by the grant type of the form.
  abbrev pub IsGrounded : OauthDb → TokenResponse → OauthDb → Type 0
  IsGrounded db response t =
      ((form.grant_type ≡ "refresh_token")
        × Rotated settings form.refresh_token form.client_id form.client_secret db response t)
      ⊎ ((form.grant_type ≡ "authorization_code")
          × Redeemed settings form.code form.redirect_uri form.client_id form.client_secret
              form.code_verifier db response t)
