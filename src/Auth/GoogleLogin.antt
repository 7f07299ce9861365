-- ===== src/Auth/GoogleLogin.antt =====
-- backend/google_login.py. httpx and jwt are parameters: the answer to a request, by the number of the
-- call, and the claims of an id token at an instant.
use reli.Prelude.{
  ℕ, suc, String, Bool, ◌||◌, Option, none, some, List, [], ◌∷◌, ◌==◌, String_equals, if◌then◌else◌,
  ltb,
}
use reli.Result.{Result, ok, err}
use reli.Exec.{pure, lift, gets, guard, or_raise, ◌>>=◌, ◌>>◌}
use reli.OauthState.Records.{Env}
use reli.OauthState.Stores.{now_utc}
use reli.McpOauth.Authorization.{SignInSettings}
use reli.Auth.Exceptions.{
  Action, Exception, google_sign_in_failed, GoogleFailure, redirect_uri_mismatch, no_id_token,
  unverified_email, refused, refused_status, unacceptable_id_token, JwtError, on_db,
}

pub record TokenRequest : Type 0 where
  pub code : String
  pub client_id : String
  pub client_secret : String
  pub redirect_uri : String
  pub grant_type : String
  pub code_verifier : String

-- `id_token` and `error` of the body; none is a member that is missing or no text.
pub record TokenAnswer : Type 0 where
  pub status_code : ℕ
  pub id_token : Option String
  pub error : Option String

pub record IdClaims : Type 0 where
  pub sub : String
  pub email : String
  pub email_verified : Bool

pub record Google : Type 0 where
  pub post : ℕ → TokenRequest → TokenAnswer
  pub decode_id_token : ℕ → String → String → Result JwtError IdClaims

pub record Identity : Type 0 where
  pub subject : String
  pub email : String

-- The query of the URL that the browser is sent to.
unfoldable pub authorization_url : SignInSettings → Env → String → String → List (String × String)
authorization_url s env state code_verifier =
    ("client_id", s.google_client_id)
    ∷ ("redirect_uri", s.google_auth_redirect_uri)
    ∷ ("response_type", "code")
    ∷ ("scope", "openid email profile")
    ∷ ("state", state)
    ∷ ("code_challenge", env.urlsafe_digest code_verifier)
    ∷ ("code_challenge_method", "S256")
    ∷ ("prompt", "select_account")
    ∷ []

abbrev pub text_or_empty : Option String → String
text_or_empty none = ""
text_or_empty (some text) = text

abbrev pub failure_message : TokenAnswer → GoogleFailure
failure_message answer =
    let error = text_or_empty answer.error in
    if error == "redirect_uri_mismatch"
    then redirect_uri_mismatch
    else if error == "invalid_grant" || error == "invalid_client"
    then refused error
    else refused_status answer.status_code error

abbrev pub token_request : SignInSettings → String → String → TokenRequest
token_request s code code_verifier = record {
  code = code;
  client_id = s.google_client_id;
  client_secret = s.google_client_secret;
  redirect_uri = s.google_auth_redirect_uri;
  grant_type = "authorization_code";
  code_verifier = code_verifier;
}

unfoldable pub post : Google → TokenRequest → Action TokenAnswer
post google request db = (ok (google.post db.calls request), record db { calls = suc db.calls })

-- `not isinstance(id_token, str) or not id_token`
abbrev pub present : Option String → Option String
present none = none
present (some text) = if text == "" then none else some text

abbrev pub acceptable : Result JwtError IdClaims → Result Exception IdClaims
acceptable (ok claims) = ok claims
acceptable (err e) = err (google_sign_in_failed (unacceptable_id_token e))

unfoldable pub exchange_code : SignInSettings → Google → String → String → Action Identity
unfolding post now_utc
exchange_code s google code code_verifier = do
  answer ← post google (token_request s code code_verifier)
  guard (ltb answer.status_code 400) (google_sign_in_failed (failure_message answer))
  id_token ← or_raise (present answer.id_token) (google_sign_in_failed no_id_token)
  now ← on_db now_utc
  claims ← lift (acceptable (google.decode_id_token now id_token s.google_client_id))
  guard claims.email_verified (google_sign_in_failed unverified_email)
  email ← gets (λ db. db.env.lower claims.email)
  pure (record { subject = claims.sub; email = email })
