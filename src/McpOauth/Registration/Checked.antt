-- ===== src/McpOauth/Registration/Checked.antt =====
-- What a registration that is accepted has passed and stored, and that a sound one is accepted.
use reli.Prelude.{
  ℕ, suc, ◌+◌, ◌/◌, ◌≡◌, String, true, false, not, some, List, All, any, contains, String_equals,
}
use reli.Result.{Result, ok}
use reli.OauthState.Records.{Row, OauthDb, McpRegisteredClient}
use reli.OauthState.Stores.{find_row, replace_row, mcp_registered_clients}
use reli.OauthState.Runs.{saved}
use reli.McpOauth.Refusals.{refresh_token_ttl, second}
use reli.McpOauth.Registration.{
  ClientMetadata, Libraries, RegistrationResponse, unused_client_ttl, token_endpoint_auth_methods,
  within_param_bytes, redirect_uri_is_safe, given_uris, registered_client,
}

-- The registration that a response tells of.
abbrev pub registration :
    ClientMetadata → RegistrationResponse → ℕ → OauthDb → Row McpRegisteredClient
registration metadata response now db = record {
  key = response.client_id;
  values = registered_client metadata (db.env.digest response.client_secret);
  expires_at = now + unused_client_ttl;
}

-- What a registration answers when its draws begin at the session's next one.
abbrev accepted : ClientMetadata → OauthDb → RegistrationResponse
accepted metadata db = record {
  client_id = db.env.uuids db.calls;
  client_secret = db.env.secrets (suc db.calls);
  redirect_uris = given_uris metadata;
  client_name = metadata.client_name;
  grant_types = metadata.grant_types;
  response_types = metadata.response_types;
  token_endpoint_auth_method = metadata.token_endpoint_auth_method;
  scope = metadata.scope;
  client_secret_expires_at = (db.env.times (suc (suc db.calls)) + refresh_token_ttl) / second;
}

abbrev drawn : OauthDb → OauthDb
drawn db = record db { calls = suc (suc (suc db.calls)) }

abbrev accepted_row : ClientMetadata → OauthDb → Row McpRegisteredClient
accepted_row metadata db =
    registration metadata (accepted metadata db) (db.env.times (suc (suc db.calls))) db

abbrev accepted_db : ClientMetadata → OauthDb → List (Row McpRegisteredClient) → OauthDb
accepted_db metadata db room =
    saved mcp_registered_clients (drawn db) (suc (drawn db).calls)
      (replace_row (accepted_row metadata db) room)

-- A registration that was accepted.
pub record Registered (lib : Libraries) (raw : String) (db : OauthDb)
    (response : RegistrationResponse) (t : OauthDb) : Type 0 where
  pub metadata : ClientMetadata
  pub parsed : lib.model_validate_json raw ≡ ok metadata
  pub bounded : any (λ uri. not (within_param_bytes uri)) (given_uris metadata) ≡ false
  pub method : contains metadata.token_endpoint_auth_method token_endpoint_auth_methods ≡ true
  pub safe : All (λ uri. redirect_uri_is_safe lib uri ≡ true) (given_uris metadata)
  pub now : ℕ
  pub stored :
      find_row response.client_id t.committed.registered_clients
      ≡ some (registration metadata response now db)
