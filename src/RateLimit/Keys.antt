-- ===== src/RateLimit/Keys.antt =====
-- `tier_for`, `client_address` and `_user_subject`. A header's value is its latin-1 text; whether an address is
-- in TRUSTED_PROXY_CIDRS is a parameter.
pub mod Addresses
use reli.Prelude.{
  ℕ, String, Bool, true, false, ◌&&◌, ◌||◌, not, Option, none, some, List, [], ◌∷◌, ◌++◌, reverse,
  ◌==◌, String_equals, if◌then◌else◌, filter, map, strip, starts_with, split_commas, text_drop,
}
use reli.Result.{ok, err}
use reli.Exec.{pure, raise, gets, ◌>>=◌, try}
use reli.OauthState.Records.{OauthDb, Claims}
use reli.McpOauth.Refusals.{Settings, is_allowed}
use reli.Auth.Exceptions.{Action, Exception, session_refused, jwt_error, Jwt}
use reli.Auth.Sessions.{mcp_audience, decode_jwt, is_revoked, web_session}
use reli.RateLimit.Buckets.{Tier}

pub record Limits : Type 0 where
  pub registration_per_minute : ℕ
  pub auth_per_minute : ℕ
  pub api_per_minute : ℕ

-- `_under(path, prefix)`, for a prefix and the same with a slash.
abbrev pub under : String → String → String → Bool
under path prefix with_slash = path == prefix || starts_with with_slash path

unfoldable pub tier_for : Limits → String → Option Tier
unfolding starts_with
tier_for limits path =
    if path == "/oauth/register"
    then some (record { name = "registration"; limit = limits.registration_per_minute })
    else if starts_with "/oauth/" path || starts_with "/api/auth/" path
    then some (record { name = "auth"; limit = limits.auth_per_minute })
    else if under path "/api" "/api/"
        || under path "/mcp" "/mcp/"
        || starts_with "/.well-known/" path
    then some (record { name = "api"; limit = limits.api_per_minute })
    else none

abbrev pub Headers : Type 0
Headers = List (String × String)

-- `client` is none where the scope has no client.
pub record HttpRequest : Type 0 where
  pub path : String
  pub client : Option String
  pub headers : Headers
  pub session_cookie : String

-- `hop.strip() … if hop.strip()`
abbrev pub hops_of : List String → List String
hops_of [] = []
hops_of (part ∷ parts) = if strip part == "" then hops_of parts else strip part ∷ hops_of parts

abbrev pub hops : Headers → List String
hops [] = []
hops ((name, value) ∷ headers) =
    let rest = hops headers in
    if name == "x-forwarded-for" then hops_of (split_commas value) ++ rest else rest

-- `for hop in reversed(hops): …`, with `hops[0]` where each of them is trusted.
abbrev pub first_untrusted : (String → Bool) → List String → String → String
first_untrusted is_trusted_proxy [] fallback = fallback
first_untrusted is_trusted_proxy (hop ∷ hops) fallback =
    if is_trusted_proxy hop then first_untrusted is_trusted_proxy hops fallback else hop

abbrev pub peer_of : Option String → String
peer_of none = "unknown"
peer_of (some client) = client

abbrev pub forwarded : (String → Bool) → String → List String → String
forwarded is_trusted_proxy peer [] = peer
forwarded is_trusted_proxy peer (hop ∷ hops) =
    first_untrusted is_trusted_proxy (reverse (hop ∷ hops)) hop

unfoldable pub client_address : (String → Bool) → HttpRequest → String
client_address is_trusted_proxy request =
    let peer = peer_of request.client in
    if is_trusted_proxy peer then forwarded is_trusted_proxy peer (hops request.headers) else peer

-- `dict(headers).get(b"authorization", b"")`: the last one counts.
abbrev pub authorization : String → Headers → String
authorization value [] = value
authorization value ((name, text) ∷ headers) =
    authorization (if name == "authorization" then text else value) headers

abbrev pub on_no_session : Exception → Action (Option Claims)
on_no_session (session_refused detail) = pure none
on_no_session e = raise e

abbrev pub on_no_bearer : Exception → Action (Option Claims)
on_no_bearer (jwt_error e) = pure none
on_no_bearer e = raise e

-- `str(claims["sub"])`
abbrev pub subject_of : Claims → String
subject_of claims = elim claims.sub [ none ↦ "None" | some sub ↦ sub ]

unfoldable pub admit_bearer : Settings → Option Claims → Action (Option String)
unfolding is_revoked
admit_bearer settings none = pure none
admit_bearer settings (some claims) = do
  allowed ← gets (λ db. is_allowed settings db.env claims.email)
  if allowed
      then (do
        revoked ← is_revoked claims
        pure (if revoked then none else some (subject_of claims)))
      else pure none

unfoldable pub bearer_subject : Settings → Jwt → Headers → Action (Option String)
unfolding decode_jwt admit_bearer
bearer_subject settings jwt headers =
    let value = authorization "" headers in
    if starts_with "Bearer " value
    then (do
      claims ←
          try (do c ← decode_jwt settings jwt (text_drop 7 value) mcp_audience; pure (some c))
            on_no_bearer
      admit_bearer settings claims)
    else pure none

unfoldable pub subject_or_bearer : Settings → Jwt → Headers → Option Claims → Action (Option String)
unfolding bearer_subject
subject_or_bearer settings jwt headers (some claims) = pure (some (subject_of claims))
subject_or_bearer settings jwt headers none = bearer_subject settings jwt headers

unfoldable pub user_subject : Settings → Jwt → HttpRequest → Action (Option String)
unfolding web_session subject_or_bearer
user_subject settings jwt request =
    if settings.secret_key_configured
    then (do
      claims ← try (web_session settings jwt request.session_cookie) on_no_session
      subject_or_bearer settings jwt request.headers claims)
    else pure none
