-- ===== src/RateLimit/Middleware.antt =====
-- `RateLimit.__call__`. What it answers is a value; the app behind it and the messages are not modelled.
pub mod Earned
use reli.Prelude.{ℕ, String, Bool, Option, none, some, List, ◌==◌, String_equals, if◌then◌else◌}
use reli.Exec.{pure, ◌>>=◌}
use reli.McpOauth.Refusals.{Settings}
use reli.Auth.Exceptions.{Action, Jwt}
use reli.RateLimit.Buckets.{Floats, Tier, Key, user, addr, Entry, Verdict, take_token}
use reli.RateLimit.Keys.{Limits, HttpRequest, tier_for, client_address, user_subject}

-- The request goes to the app without headers; it is answered with 429; or it goes to the app, and the
-- answer gets the headers.
pub data Handling : Type 0 where
  exempt : Handling
  too_many_requests : (limit remaining retry_after : ℕ) → Handling
  counted : (limit remaining : ℕ) → Handling

abbrev pub key_for : (String → Bool) → HttpRequest → Option String → Key
key_for is_trusted_proxy request (some subject) = user subject
key_for is_trusted_proxy request none = addr (client_address is_trusted_proxy request)

unfoldable pub request_key : Settings → Jwt → (String → Bool) → Tier → HttpRequest → Action Key
unfolding user_subject
request_key settings jwt is_trusted_proxy tier request = do
  subject ← (if tier.name == "api" then user_subject settings jwt request else pure none)
  pure (key_for is_trusted_proxy request subject)

abbrev pub handling : Tier → Verdict → Handling
handling tier v =
    if v.allowed
    then counted tier.limit v.remaining
    else too_many_requests tier.limit v.remaining v.retry_after

-- The key is known before the clock is read, at `now`.
unfoldable pub count_request :
    {F : Type 0}
    → Floats F
    → Settings
    → Jwt
    → (String → Bool)
    → HttpRequest
    → F
    → List (Entry F)
    → Option Tier
    → Action (Handling × List (Entry F))
unfolding request_key take_token
count_request f settings jwt is_trusted_proxy request now entries none = pure (exempt, entries)
count_request f settings jwt is_trusted_proxy request now entries (some tier) = do
  key ← request_key settings jwt is_trusted_proxy tier request
  pure (let (v, left) = take_token f tier key now entries in (handling tier v, left))

-- `is_http`: `scope["type"] == "http"`
unfoldable pub rate_limit :
    {F : Type 0}
    → Floats F
    → Settings
    → Jwt
    → (String → Bool)
    → Limits
    → Bool
    → HttpRequest
    → F
    → List (Entry F)
    → Action (Handling × List (Entry F))
unfolding count_request tier_for
rate_limit f settings jwt is_trusted_proxy limits is_http request now entries =
    count_request f settings jwt is_trusted_proxy request now entries
      (if is_http then tier_for limits request.path else none)
