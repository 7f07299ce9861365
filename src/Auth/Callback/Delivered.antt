-- ===== src/Auth/Callback/Delivered.antt =====
-- What the callback answers, in either flow.
use reli.Prelude.{◌≡◌, String, Option, none, some, String_equals, ◌⊎◌}
use reli.Result.{ok}
use reli.OauthState.Records.{Row, OauthDb, McpOauthSession}
use reli.OauthState.Stores.{cleanup_and_pop, web_oauth_sessions, mcp_oauth_sessions}
use reli.OauthState.Runs.{mcp_oauth_sessions-IsTable}
use reli.OauthState.Capped.{reopened}
use reli.McpOauth.Authorization.{SignInSettings}
use reli.Auth.Exceptions.{on_db}
use reli.Auth.GoogleLogin.{Google}
use reli.Auth.Callback.{Redirect}
use reli.Auth.Callback.SignedIn.{in_flight}
use reli.Auth.Callback.Issued.{Issued, Denied}

-- The end of an MCP sign-in: in the browser that approved it, for a flow in flight, and only to its client.
pub record McpSignIn (s : SignInSettings) (google : Google) (cookie : Option String)
    (code state error : String) (answer : Redirect) (db t : OauthDb) : Type 0 where
  pub approved : cookie ≡ some state
  pub flow : Row McpOauthSession
  pub taken_from : OauthDb
  pub no_web_sign_in :
      on_db (cleanup_and_pop web_oauth_sessions state) (reopened db) ≡ (ok none, taken_from)
  pub same_flows : taken_from.pending.oauth_sessions ≡ db.committed.oauth_sessions
  pub taken : in_flight mcp_oauth_sessions mcp_oauth_sessions-IsTable state taken_from ≡ some flow
  pub left : OauthDb
  pub popped : on_db (cleanup_and_pop mcp_oauth_sessions state) taken_from ≡ (ok (some flow), left)
  pub delivered : Denied flow.values answer ⊎ Issued s google flow.values code error left answer t
