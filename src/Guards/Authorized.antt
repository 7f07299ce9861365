-- ===== src/Guards/Authorized.antt =====
-- Which requests go on to the graph.
use reli.Prelude.{
  ◌≡◌, ◌⊎◌, inl, inr, refl, ◌∙◌, ap, subst, true, false, ◌||◌, String_equals, Bool-cases, arith,
}
use reli.Result.{ok}
use reli.Exec.Returns.{bind-returns, if-returns, pure-returns}
use reli.OauthState.Records.{OauthDb, Claims}
use reli.McpOauth.Refusals.{Settings}
use reli.Auth.Exceptions.{Jwt}
use reli.Auth.Sessions.Admitted.{Admitted}
use reli.RateLimit.Keys.{HttpRequest}
use reli.RateLimit.Middleware.Earned.{Bearer}
use reli.Guards.{
  Admission, goes_on, unauthorized, is_guarded, check_session, check_bearer, is_mcp, route,
  admit_request,
}
use reli.Guards.Session.{check_session-Admitted, check_session-passed}
use reli.Guards.Token.{check_bearer-Bearer}

-- A credential for the path of a request.
abbrev pub IsAuthorized : Settings → Jwt → HttpRequest → OauthDb → Type 0
IsAuthorized settings jwt request db =
    ((is_guarded request.path ≡ true)
      × (claims : Claims) × Admitted settings jwt request.session_cookie db claims)
    ⊎ ((is_mcp true request.path ≡ true)
        × (claims : Claims) × Bearer settings jwt request db claims)

route-went_on :
    (settings : Settings) (jwt : Jwt) (request : HttpRequest) (session : Admission) (db t : OauthDb)
    → route settings jwt true request session db ≡ (ok goes_on, t)
    → (session ≡ goes_on)
      × ((is_mcp true request.path ≡ false)
          ⊎ (check_bearer settings jwt true request db ≡ (ok goes_on, t)))
unfolding route
route-went_on settings jwt request goes_on db t e =
    elim (if-returns (is_mcp true request.path) _ _ db goes_on t e) [
      | inl (_, rest) ↦ (refl, inr rest)
      | inr (elsewhere, _) ↦ (refl, inl elsewhere)
    ]
route-went_on settings jwt request (unauthorized d x) db t e =
    absurd (ground (arith, (pure-returns (unauthorized d x) db goes_on t e).0))

-- A request over HTTP for `/api`, outside `/api/auth/`, or for `/mcp` goes on only with a credential: for `/api` a
-- session cookie that `web_session` admits, and for `/mcp` a bearer token that decodes for the audience
-- `mcp` and this issuer, of an account in ALLOWED_EMAILS, and without a live row in the revocation list.
pub admit_request-IsAuthorized :
    (settings : Settings) (jwt : Jwt) (request : HttpRequest) (db t : OauthDb)
    → (is_guarded request.path || is_mcp true request.path) ≡ true
    → admit_request settings jwt true request db ≡ (ok goes_on, t)
    → IsAuthorized settings jwt request db
unfolding admit_request
admit_request-IsAuthorized settings jwt request db t graph e =
    let (session, u, checked, routing) =
      bind-returns (check_session settings jwt true request) _ db goes_on t e in
    let (went_on, bearer) = route-went_on settings jwt request session u t routing in
    elim (Bool-cases (is_guarded request.path)) [
      | inl guarded ↦
          let (claims, admitted) =
            check_session-Admitted settings jwt request db u guarded
              (checked ∙ ap (λ a. (ok a, u)) went_on) in
          inl (guarded, claims, admitted)
      | inr outside ↦
          let same = check_session-passed settings jwt request db u session outside checked in
          elim bearer [
            | inl elsewhere ↦ absurd (ground (arith, graph, outside, elsewhere))
            | inr passed ↦
                let (_, claims, presented) = check_bearer-Bearer settings jwt request db t (
                  subst (λ s. check_bearer settings jwt true request s ≡ (ok goes_on, t)) same
                    passed) in
                inr (ground (arith, graph, outside), claims, presented)
          ]
    ]
