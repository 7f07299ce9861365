-- ===== src/McpOauth/Anonymous/Served.antt =====
-- The requests that `POST /oauth/token` serves, one after another.
use reli.Prelude.{
  ℕ, ◌≡◌, String, Bool, true, false, Option, none, some, List, [], ◌∷◌, All, All-append, All-filter,
  not, arith, if◌then◌else◌,
}
use reli.Result.{Result}
use reli.Exec.Preserves.{Preserves, Preserves-map_error, Preserves-or_raise, preserves_rules}
use reli.OauthState.Records.{Row, OauthDb, McpRefreshToken, McpAuthCode}
use reli.OauthState.Stores.{
  Store, set_rows, has_key, replace_row, cleanup_and_store, now_utc, mcp_refresh_tokens,
  mcp_auth_codes, mcp_registered_clients,
}
use reli.OauthState.Capped.{reopened}
use reli.OauthState.Consumption.{IsAnonymous}
use reli.McpOauth.Refusals.{Refusal, Settings, at_capacity, on_store}
use reli.OauthState.Stores as Stores
use reli.McpOauth.Tokens.{
  TokenForm, TokenResponse, validate_client_secret, mint_access_token, refuse_account,
  require_allowed, issued_token, issue_token_response, authenticated_grant, require_consumed,
  exchange_refresh_token, check_verifier, exchange_authorization_code, exchange, closed,
  oauth_token,
}
use reli.McpOauth.Anonymous.{
  AllAnonymous, KeepsFilters, codes-KeepsFilters, clients-KeepsFilters, tokens-KeepsFilters,
  now_utc-AllAnonymous, uuid4-AllAnonymous, token_urlsafe-AllAnonymous, set_rows-AllAnonymous,
  cleanup_and_get-AllAnonymous, cleanup_and_pop-AllAnonymous, cleanup_and_store-AllAnonymous,
  extend_expiry-AllAnonymous, consume_refresh_token-AllAnonymous,
  revoke_refresh_token_family-AllAnonymous,
}

on_store-AllAnonymous :
    {A : Type 0} (m : Stores.Action A)
    → Preserves AllAnonymous m
    → Preserves AllAnonymous (on_store m)
unfolding on_store
on_store-AllAnonymous m h = Preserves-map_error AllAnonymous at_capacity m h

validate_client_secret-AllAnonymous :
    (client_id client_secret : String)
    → Preserves AllAnonymous (validate_client_secret client_id client_secret)
unfolding validate_client_secret
validate_client_secret-AllAnonymous client_id client_secret =
    let read = cleanup_and_get-AllAnonymous mcp_registered_clients clients-KeepsFilters in
    search (preserves_rules, on_store-AllAnonymous, read, Preserves-or_raise)

mint_access_token-AllAnonymous :
    (settings : Settings) (subject : Option String) (email : String)
    → Preserves AllAnonymous (mint_access_token settings subject email)
unfolding mint_access_token
mint_access_token-AllAnonymous settings subject email =
    search (preserves_rules, on_store-AllAnonymous, now_utc-AllAnonymous, uuid4-AllAnonymous)

require_allowed-AllAnonymous :
    (settings : Settings) (email family_id : String)
    → Preserves AllAnonymous (require_allowed settings email family_id)
unfolding require_allowed refuse_account
require_allowed-AllAnonymous settings email family_id =
    search (preserves_rules, on_store-AllAnonymous, revoke_refresh_token_family-AllAnonymous)

-- A new token names its account, and is not consumed.
issued-IsAnonymous :
    (subject : Option String) (email client_id scope family_id : String) (row : Row McpRefreshToken)
    → row.values ≡ issued_token subject email client_id scope family_id
    → Preserves AllAnonymous (set_rows mcp_refresh_tokens (replace_row row))
issued-IsAnonymous subject email client_id scope family_id row same =
    set_rows-AllAnonymous mcp_refresh_tokens (replace_row row) λ t h.
      All-append IsAnonymous _ (row ∷ [])
        (All-filter IsAnonymous (λ r. not (has_key row.key r)) t.refresh_tokens h)
        ((λ consumed. absurd (ground (arith, consumed, same))), tt)

store_token-AllAnonymous :
    (key : String) (subject : Option String) (email client_id scope family_id : String)
    (expires_at : ℕ)
    → Preserves AllAnonymous (
        cleanup_and_store mcp_refresh_tokens key
          (issued_token subject email client_id scope family_id)
          expires_at)
store_token-AllAnonymous key subject email client_id scope family_id expires_at =
    cleanup_and_store-AllAnonymous mcp_refresh_tokens tokens-KeepsFilters key _ expires_at
      (issued-IsAnonymous subject email client_id scope family_id)

issue_token_response-AllAnonymous :
    (settings : Settings) (subject account : Option String) (client_id scope family_id : String)
    (expires_at : ℕ)
    → Preserves AllAnonymous
        (issue_token_response settings subject account client_id scope family_id expires_at)
unfolding issue_token_response
issue_token_response-AllAnonymous settings subject account client_id scope family_id expires_at =
    search
      (
        preserves_rules, Preserves-or_raise, on_store-AllAnonymous, require_allowed-AllAnonymous,
        mint_access_token-AllAnonymous, token_urlsafe-AllAnonymous, store_token-AllAnonymous,
        extend_expiry-AllAnonymous,
      )
      depth 12

authenticated_grant-AllAnonymous :
    {V : Type 0} (store : Store V) (k : KeepsFilters store) (client_of : V → String)
    (key client_id client_secret gone : String)
    → Preserves AllAnonymous (authenticated_grant store client_of key client_id client_secret gone)
unfolding authenticated_grant
authenticated_grant-AllAnonymous store k client_of key client_id client_secret gone =
    let read = cleanup_and_get-AllAnonymous store k in
    search
      (
        preserves_rules, Preserves-or_raise, on_store-AllAnonymous, read,
        validate_client_secret-AllAnonymous,
      )
      depth 9

require_consumed-AllAnonymous :
    (found : Option (Row McpRefreshToken)) (family_id : String)
    → Preserves AllAnonymous (require_consumed found family_id)
unfolding require_consumed
require_consumed-AllAnonymous (some row) family_id = search preserves_rules
require_consumed-AllAnonymous none family_id =
    search (preserves_rules, on_store-AllAnonymous, revoke_refresh_token_family-AllAnonymous)

exchange_refresh_token-AllAnonymous :
    (settings : Settings) (token client_id client_secret : String)
    → Preserves AllAnonymous (exchange_refresh_token settings token client_id client_secret)
unfolding exchange_refresh_token
exchange_refresh_token-AllAnonymous settings token client_id client_secret =
    let grant =
      authenticated_grant-AllAnonymous mcp_refresh_tokens tokens-KeepsFilters (λ v. v.client_id) in
    search
      (
        preserves_rules, grant, on_store-AllAnonymous, consume_refresh_token-AllAnonymous,
        require_consumed-AllAnonymous, issue_token_response-AllAnonymous,
      )
      depth 12

check_verifier-AllAnonymous :
    (code : McpAuthCode) (code_verifier : String)
    → Preserves AllAnonymous (check_verifier code code_verifier)
unfolding check_verifier
check_verifier-AllAnonymous code code_verifier = search preserves_rules depth 9

exchange_authorization_code-AllAnonymous :
    (settings : Settings) (code redirect_uri client_id client_secret code_verifier : String)
    → Preserves AllAnonymous (
        exchange_authorization_code settings code redirect_uri client_id client_secret
          code_verifier)
unfolding exchange_authorization_code
exchange_authorization_code-AllAnonymous settings code redirect_uri client_id client_secret
      code_verifier =
    let grant =
      authenticated_grant-AllAnonymous mcp_auth_codes codes-KeepsFilters (λ v. v.client_id) in
    let pop = cleanup_and_pop-AllAnonymous mcp_auth_codes codes-KeepsFilters in
    search
      (
        preserves_rules, Preserves-or_raise, grant, pop, on_store-AllAnonymous,
        check_verifier-AllAnonymous, uuid4-AllAnonymous, now_utc-AllAnonymous,
        issue_token_response-AllAnonymous,
      )
      depth 15

exchange-AllAnonymous :
    (settings : Settings) (form : TokenForm) → Preserves AllAnonymous (exchange settings form)
unfolding exchange
exchange-AllAnonymous settings form =
    search (
      preserves_rules, exchange_refresh_token-AllAnonymous,
      exchange_authorization_code-AllAnonymous,
    )

-- Token requests in the order in which they are served.
abbrev pub token_requests : Settings → List TokenForm → OauthDb → OauthDb
token_requests settings [] db = db
token_requests settings (form ∷ forms) db =
    token_requests settings forms (oauth_token settings form db).1

-- Of two answers that commit only tokens that name nobody, either does.
either-IsAnonymous :
    (b : Bool) (r : Result Refusal TokenResponse × OauthDb) (refusal : Result Refusal TokenResponse)
    (db : OauthDb)
    → All IsAnonymous r.1.committed.refresh_tokens
    → All IsAnonymous db.committed.refresh_tokens
    → All IsAnonymous (if b then closed r else (refusal, db)).1.committed.refresh_tokens
either-IsAnonymous true r refusal db h k = h
either-IsAnonymous false r refusal db h k = k

oauth_token-keeps :
    (settings : Settings) (form : TokenForm) (db : OauthDb)
    → All IsAnonymous db.committed.refresh_tokens
    → All IsAnonymous (oauth_token settings form db).1.committed.refresh_tokens
unfolding oauth_token
oauth_token-keeps settings form db h =
    either-IsAnonymous settings.secret_key_configured (exchange settings form (reopened db)) _ db
      ((exchange-AllAnonymous settings form).keeps (reopened db) (h, h)).1 h

-- If no consumed refresh token names the account that it was issued to, that stays so whatever token
-- requests are served, accepted or refused.
pub token_requests-IsAnonymous :
    (settings : Settings) (forms : List TokenForm) (db : OauthDb)
    → All IsAnonymous db.committed.refresh_tokens
    → All IsAnonymous (token_requests settings forms db).committed.refresh_tokens
token_requests-IsAnonymous settings [] db h = h
token_requests-IsAnonymous settings (form ∷ forms) db h =
    token_requests-IsAnonymous settings forms (oauth_token settings form db).1
      (oauth_token-keeps settings form db h)
