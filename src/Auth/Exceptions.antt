-- ===== src/Auth/Exceptions.antt =====
-- What backend/auth.py raises, and the sessions of the database that it opens.
use reli.Prelude.{ℕ, String}
use reli.Result.{Result}
use reli.Exec.{Exec, map_error}
use reli.OauthState.Records.{OauthDb, Claims, StoreFull}
use reli.OauthState.Stores
use reli.OauthState.Capped.{reopened}

-- `jwt.ExpiredSignatureError`, and every other `jwt.InvalidTokenError`.
pub data JwtError : Type 0 where
  expired_signature invalid_token : JwtError

-- Why `google_login` did not turn a code into an identity.
pub data GoogleFailure : Type 0 where
  redirect_uri_mismatch no_id_token unverified_email : GoogleFailure
  refused : String → GoogleFailure
  refused_status : ℕ → String → GoogleFailure
  unacceptable_id_token : JwtError → GoogleFailure

pub data Exception : Type 0 where
  session_refused : String → Exception
  jwt_error : JwtError → Exception
  store_full_error : StoreFull → Exception
  google_sign_in_failed : GoogleFailure → Exception
  http_exception : ℕ → String → Exception

abbrev pub Action : Type 0 → Type 0
Action A = Exec OauthDb Exception A

unfoldable pub on_db : {A : Type 0} → Stores.Action A → Action A
on_db m = map_error store_full_error m

abbrev close_session : {A : Type 0} → Result Exception A × OauthDb → Result Exception A × OauthDb
close_session (result, t) = (result, reopened t)

-- `with open_db_session() as session`: what is not committed when the block ends is gone.
unfoldable pub with_session : {A : Type 0} → Action A → Action A
with_session m db = close_session (m (reopened db))

-- `jwt.decode` at an instant, with the server's key, of a token for this audience and issuer.
pub record Jwt : Type 0 where
  pub decode : ℕ → String → String → String → Result JwtError Claims
