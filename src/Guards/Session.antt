-- ===== src/Guards/Session.antt =====
-- What the session check lets pass.
use reli.Prelude.{
  ◌≡◌, inl, inr, refl, ◌∙◌, ap, String, true, false, not, ◌||◌, Option, none, some, String_equals,
  arith,
}
use reli.Result.{Result, ok, err}
use reli.Exec.{pure, raise, try, ◌>>=◌}
use reli.Exec.Returns.{bind-returns, if-returns, pure-returns}
use reli.OauthState.Records.{OauthDb, Claims}
use reli.McpOauth.Refusals.{Settings}
use reli.Auth.Exceptions.{Exception, session_refused, Jwt}
use reli.Auth.Sessions.{web_session}
use reli.Auth.Sessions.Admitted.{Admitted, web_session-Admitted}
use reli.RateLimit.Keys.{HttpRequest}
use reli.Guards.{
  Admission, goes_on, is_guarded, on_refused, no_credential, refusal, admission_of, check_session,
}

-- The session check lets a request pass only with a session.
no_reason :
    (r : Result Exception (Option Claims)) (u db t : OauthDb)
    → try (do found ← (λ _. (r, u)); pure (no_credential found)) on_refused db ≡ (ok none, t)
    → (claims : Claims) × (◌≡◌ {A = Result Exception (Option Claims) × OauthDb}
        (r, u)
        (ok (some claims), t))
unfolding try raise pure ◌>>=◌
no_reason (ok (some claims)) u db t h = (claims, ground (arith, h))
no_reason (ok none) u db t h = absurd (ground (arith, h))
no_reason (err (session_refused detail)) u db t h = absurd (ground (arith, h))
no_reason (err x) u db t h = absurd (ground (arith, h))

refusal-Admitted :
    (settings : Settings) (jwt : Jwt) (request : HttpRequest) (db t : OauthDb)
    → refusal settings jwt request db ≡ (ok none, t)
    → (claims : Claims) × Admitted settings jwt request.session_cookie db claims
unfolding refusal try ◌>>=◌
refusal-Admitted settings jwt request db t e =
    let (r, u) = web_session settings jwt request.session_cookie db in
    let (claims, run) = no_reason r u db t e in
    (claims, web_session-Admitted settings jwt request.session_cookie db claims t run)

reason_none : (reason : Option String) → goes_on ≡ admission_of reason → reason ≡ none
reason_none none h = refl
reason_none (some reason) h = absurd (ground (arith, h))

pub check_session-Admitted :
    (settings : Settings) (jwt : Jwt) (request : HttpRequest) (db t : OauthDb)
    → is_guarded request.path ≡ true
    → check_session settings jwt true request db ≡ (ok goes_on, t)
    → (claims : Claims) × Admitted settings jwt request.session_cookie db claims
unfolding check_session
check_session-Admitted settings jwt request db t guarded e =
    elim (if-returns (not true || not (is_guarded request.path)) _ _ db goes_on t e) [
      | inl (open_to_all, _) ↦ absurd (ground (arith, open_to_all, guarded))
      | inr (_, rest) ↦
          let (reason, u, asked, done) =
            bind-returns (refusal settings jwt request) _ db goes_on t rest in
          let nothing =
            reason_none reason (pure-returns (admission_of reason) u goes_on t done).0 in
          refusal-Admitted settings jwt request db u (asked ∙ ap (λ r. (ok r, u)) nothing)
    ]

-- Outside of it, the session check does nothing.
pub check_session-passed :
    (settings : Settings) (jwt : Jwt) (request : HttpRequest) (db t : OauthDb) (a : Admission)
    → is_guarded request.path ≡ false
    → check_session settings jwt true request db ≡ (ok a, t)
    → t ≡ db
unfolding check_session
check_session-passed settings jwt request db t a outside e =
    elim (if-returns (not true || not (is_guarded request.path)) _ _ db a t e) [
      | inl (_, done) ↦ (pure-returns goes_on db a t done).1
      | inr (guarded, _) ↦ absurd (ground (arith, guarded, outside))
    ]
