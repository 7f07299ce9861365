-- ===== src/McpOauth/Authorization/Checked.antt =====
-- What stands behind a consent page, and behind the redirect that follows it.
use reli.Prelude.{
  ℕ, suc, ◌+◌, ◌≡◌, String, true, not, Option, some, List, ◌==◌, String_equals, Bool-cases,
  Option-cases, inl, inr, contains, arith,
}
use reli.Result.{Result, ok}
use reli.Exec.{guard, or_raise, pure, gets, ◌>>=◌}
use reli.OauthState.Records.{Row, OauthDb, McpOauthSession, McpRegisteredClient}
use reli.OauthState.Stores.{find_row, replace_row, mcp_registered_clients, mcp_oauth_sessions}
use reli.OauthState.Runs.{live_rows, saved, mcp_oauth_sessions-IsTable}
use reli.McpOauth.Refusals.{Settings}
use reli.McpOauth.Grants.{on_store-get}
use reli.McpOauth.Registration.{Libraries, redirect_uri_is_safe}
use reli.McpOauth.Authorization.{
  SignInSettings, AuthorizeQuery, ConsentPage, ConfirmRedirect, session_ttl,
  missing_sign_in_settings, is_empty, session_of, is_same_origin, confirm,
}

module _ (q : AuthorizeQuery) (client_name : String) (db : OauthDb) where
  abbrev page : ConsentPage
  page = record {
    server_state = db.env.secrets db.calls;
    client_name = client_name;
    redirect_uri = q.redirect_uri;
  }

  abbrev drawn : OauthDb
  drawn = record db { calls = suc (suc (suc db.calls)) }

  abbrev session_row : Row McpOauthSession
  session_row = record {
    key = db.env.secrets db.calls;
    values = session_of q (db.env.secrets (suc db.calls));
    expires_at = db.env.times (suc (suc db.calls)) + session_ttl;
  }

  abbrev begun : List (Row McpOauthSession) → OauthDb
  begun room =
      saved mcp_oauth_sessions drawn (suc (suc (suc (suc db.calls)))) (replace_row session_row room)

-- The sign-in that a consent page stands for.
pub record InFlight (q : AuthorizeQuery) (page : ConsentPage) (t : OauthDb) : Type 0 where
  pub code_verifier : String
  pub now : ℕ
  pub same_redirect : page.redirect_uri ≡ q.redirect_uri
  pub stored :
      find_row page.server_state t.committed.oauth_sessions
      ≡ some (record {
        key = page.server_state;
        values = session_of q code_verifier;
        expires_at = now + session_ttl;
      })

-- A request that was shown the consent page.
pub record Authorized (s : SignInSettings) (lib : Libraries) (q : AuthorizeQuery) (db : OauthDb)
    (page : ConsentPage) (t : OauthDb) : Type 0 where
  pub configured : is_empty (missing_sign_in_settings s) ≡ true
  pub pkce : q.code_challenge_method ≡ "S256"
  pub challenged : not (q.code_challenge == "") ≡ true
  pub client : Row McpRegisteredClient
  pub registered : find_row q.client_id (live_rows mcp_registered_clients db) ≡ some client
  pub listed : contains q.redirect_uri client.values.redirect_uris ≡ true
  pub safe : redirect_uri_is_safe lib q.redirect_uri ≡ true
  pub in_flight : InFlight q page t
  pub named : page.client_name ≡ client.values.client_name

-- A redirect to Google.
pub record Confirmed (settings : Settings) (origin : Option String) (server_state : String)
    (db : OauthDb) (redirect : ConfirmRedirect) (t : OauthDb) : Type 0 where
  pub same_origin : is_same_origin settings origin ≡ true
  pub flow : Row McpOauthSession
  pub in_flight : find_row server_state (live_rows mcp_oauth_sessions db) ≡ some flow
  pub state : redirect.state ≡ server_state
  pub challenge : redirect.code_challenge ≡ db.env.urlsafe_digest flow.values.google_code_verifier
  pub cookie : redirect.flow_cookie ≡ server_state
  pub kept : t.committed.oauth_sessions ≡ live_rows mcp_oauth_sessions db

-- The browser is sent to Google only by Reli's own page, for a state whose sign-in is in flight, with
-- the challenge of that sign-in's verifier and with the state in the flow cookie; the sign-in stays in
-- flight for the callback to consume.
pub confirm-Confirmed :
    (settings : Settings) (origin : Option String) (server_state : String) (db : OauthDb)
    (redirect : ConfirmRedirect) (t : OauthDb)
    → confirm settings origin server_state db ≡ (ok redirect, t)
    → Confirmed settings origin server_state db redirect t
unfolding confirm guard or_raise gets pure ◌>>=◌
confirm-Confirmed settings origin server_state db redirect t e =
    let run = on_store-get mcp_oauth_sessions mcp_oauth_sessions-IsTable server_state db in
    elim (Bool-cases (is_same_origin settings origin)) [
      | inr foreign ↦ absurd (ground (arith, e, foreign))
      | inl own ↦ elim (Option-cases (find_row server_state (live_rows mcp_oauth_sessions db))) [
        | inl gone ↦ absurd (ground (arith, e, own, run, gone))
        | inr (flow, found) ↦ record {
          same_origin = own;
          flow = flow;
          in_flight = found;
          state = ground (arith, e, own, run, found);
          challenge = ground (arith, e, own, run, found);
          cookie = ground (arith, e, own, run, found);
          kept = ground (arith, e, own, run, found);
        }
      ]
    ]
