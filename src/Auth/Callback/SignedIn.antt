-- ===== src/Auth/Callback/SignedIn.antt =====
-- What stands behind the end of a sign-in: a session cookie, or an authorization code.
use reli.Prelude.{
  ℕ, suc, ◌≡◌, sym, ap, subst, ◌∙◌, String, true, ◌&&◌, not, filter, Option, ◌==◌, String_equals,
  inl, inr, arith,
}
use reli.Result.{Result, ok, err}
use reli.Exec.{gets, raise, map_error, try, ◌>>=◌}
use reli.Exec.Returns.{bind-returns, if-returns, gets-returns, pure-returns}
use reli.OauthState.Records.{Row, OauthDb, WebOauthSession}
use reli.OauthState.Stores.{
  Store, stored_key, has_key, is_live, take_live, cleanup_and_pop, web_oauth_sessions, now_utc,
}
use reli.OauthState.Runs.{
  IsTable, live_rows, saved, cleanup_and_pop-run, web_oauth_sessions-IsTable,
}
use reli.OauthState.Capped.{reopened}
use reli.McpOauth.Refusals.{Settings, is_allowed}
use reli.McpOauth.Authorization.{SignInSettings}
use reli.Auth.Exceptions.{Action, Exception, on_db, with_session, google_sign_in_failed}
use reli.Auth.GoogleLogin.{Google, Identity, exchange_code}
use reli.Auth.Sessions.{new_claims, create_jwt, uuid4, web_audience}
use reli.Auth.Callback.{
  Redirect, sign_in_view, signed_in, on_google_failed, identify, admit_web, finish_web_sign_in,
  finish_flow, take_flow, google_callback,
}

-- The cookie is a token for this account, for the audience `web`.
pub record WebToken (s : SignInSettings) (identity : Identity) (cookie : String) (db : OauthDb)
    : Type 0 where
  pub allowed : is_allowed s.settings db.env identity.email ≡ true
  pub now : ℕ
  pub jti : String
  pub minted :
      cookie
      ≡ db.env.jwt_encode
          (new_claims s.settings identity.subject identity.email web_audience now jti)

create_jwt-minted :
    (settings : Settings) (subject email audience : String) (db : OauthDb) (token : String)
    (t : OauthDb)
    → create_jwt settings subject email audience db ≡ (ok token, t)
    → token
      ≡ db.env.jwt_encode (
          new_claims settings subject email audience
            (db.env.times db.calls)
            (db.env.uuids (suc db.calls)))
unfolding create_jwt now_utc uuid4 on_db map_error gets ◌>>=◌
create_jwt-minted settings subject email audience db token t e = ground (arith, e)

-- Only an allowed account gets a cookie.
admit_web-WebToken :
    (s : SignInSettings) (identity : Identity) (db : OauthDb) (cookie : String) (t : OauthDb)
    → admit_web s identity db ≡ (ok (signed_in cookie), t)
    → WebToken s identity cookie db
unfolding admit_web
admit_web-WebToken s identity db cookie t e =
    let (allowed, u, got, rest) =
      bind-returns (gets (λ db. is_allowed s.settings db.env identity.email)) _ db
        (signed_in cookie) t e in
    let there = gets-returns (λ db. is_allowed s.settings db.env identity.email) db allowed u got in
    elim (if-returns allowed _ _ u (signed_in cookie) t rest) [
      | inr (_, view) ↦ absurd (
          ground (arith, (pure-returns (sign_in_view "invite_only") u (signed_in cookie) t view).0))
      | inl (permitted, minting) ↦
          let (token, v, minted, done) =
            bind-returns (create_jwt s.settings identity.subject identity.email web_audience) _ u
              (signed_in cookie) t minting in
          let same = pure-returns (signed_in token) v (signed_in cookie) t done in
          let made =
            create_jwt-minted s.settings identity.subject identity.email web_audience u token v
              minted in
          subst (λ w. WebToken s identity cookie w) {x = u} {y = db} there.1
            (record {
              allowed =
                  subst (λ w. is_allowed s.settings w.env identity.email ≡ true) (sym there.1)
                    (sym there.0 ∙ permitted);
              now = u.env.times u.calls;
              jti = u.env.uuids (suc u.calls);
              minted =
                  subst
                    (λ c.
                      c
                      ≡ u.env.jwt_encode (
                          new_claims s.settings identity.subject identity.email web_audience
                            (u.env.times u.calls) (u.env.uuids (suc u.calls))))
                    {x = token} {y = cookie} (ground (arith, same.0)) made;
            })
    ]

not_failed :
    (r : Result Exception Identity) (u db : OauthDb) (identity : Identity) (t : OauthDb)
    → try (λ _. (r, u)) on_google_failed db ≡ (ok identity, t)
    → ◌≡◌ {A = Result Exception Identity × OauthDb} (r, u) (ok identity, t)
unfolding try raise
not_failed (ok i) u db identity t h = h
not_failed (err (google_sign_in_failed f)) u db identity t h = absurd (ground (arith, h))
not_failed (err x) u db identity t h = absurd (ground (arith, h))

pub identified :
    (s : SignInSettings) (google : Google) (code verifier : String) (db : OauthDb)
    (identity : Identity) (t : OauthDb)
    → identify s google code verifier db ≡ (ok identity, t)
    → exchange_code s google code verifier db ≡ (ok identity, t)
unfolding identify try
identified s google code verifier db identity t e =
    let (r, u) = exchange_code s google code verifier db in not_failed r u db identity t e

-- A web sign-in that ends with a cookie: the person did not cancel, Google named the identity for the code and
-- the flow's verifier, and the cookie is for that identity, which is allowed.
pub record WebSignIn (s : SignInSettings) (google : Google) (flow : WebOauthSession)
    (code error cookie : String) (before : OauthDb) : Type 0 where
  pub not_cancelled : (error == "") ≡ true
  pub identity : Identity
  pub after : OauthDb
  pub exchanged :
      exchange_code s google code flow.google_code_verifier before ≡ (ok identity, after)
  pub token : WebToken s identity cookie after

pub finish_web_sign_in-WebSignIn :
    (s : SignInSettings) (google : Google) (flow : WebOauthSession) (code error cookie : String)
    (db t : OauthDb)
    → finish_web_sign_in s google flow code error db ≡ (ok (signed_in cookie), t)
    → WebSignIn s google flow code error cookie db
unfolding finish_web_sign_in
finish_web_sign_in-WebSignIn s google flow code error cookie db t e =
    elim (if-returns (not (error == "")) _ _ db (signed_in cookie) t e) [
      | inl (_, view) ↦
          absurd (
            ground
              (arith, (pure-returns (sign_in_view "cancelled") db (signed_in cookie) t view).0))
      | inr (going, rest) ↦
          let (identity, u, found, admission) =
            bind-returns (identify s google code flow.google_code_verifier) (admit_web s) db
              (signed_in cookie) t rest in
          record {
            not_cancelled = ground (arith, going);
            identity = identity;
            after = u;
            exchanged = identified s google code flow.google_code_verifier db identity u found;
            token = admit_web-WebToken s identity u cookie t admission;
          }
    ]

with_session-returns :
    {A : Type 0} (m : Action A) (db : OauthDb) (a : A) (t : OauthDb)
    → with_session m db ≡ (ok a, t)
    → (u : OauthDb) × (m (reopened db) ≡ (ok a, u)) × (t ≡ reopened u)
unfolding with_session
with_session-returns m db a t e =
    let (r, u) = m (reopened db) in (u, ap (λ q. (q, u)) (ground (arith, e)), ground (arith, e))

module _ {V : Type 0} (store : Store V) (h : IsTable store) (key : String) (db : OauthDb) where
  -- The flow in flight that the callback takes.
  abbrev pub in_flight : Option (Row V)
  in_flight = take_live (stored_key store db key) (db.env.times (suc db.calls)) (live_rows store db)

  pub on_db-pop :
      (found : Option (Row V)) (t : OauthDb)
      → on_db (cleanup_and_pop store key) db ≡ (ok found, t)
      → (found ≡ in_flight)
        × (t
            ≡ saved store db (suc (suc db.calls)) (
                filter
                  (λ row. not (
                    has_key (stored_key store db key) row
                    && is_live (db.env.times (suc db.calls)) row))
                  (live_rows store db)))
  unfolding on_db map_error
  on_db-pop found t e = (
    ground (arith, e, cleanup_and_pop-run store h db key),
    ground (arith, e, cleanup_and_pop-run store h db key),
  )

-- What the callback did with the flow that it took.
pub google_callback-returns :
    (s : SignInSettings) (google : Google) (cookie : Option String) (code state error : String)
    (db : OauthDb) (answer : Redirect) (t : OauthDb)
    → google_callback s google cookie code state error db ≡ (ok answer, t)
    → (v : OauthDb) × (u : OauthDb) × (finish_flow s google cookie code state error
          (in_flight web_oauth_sessions web_oauth_sessions-IsTable state (reopened db))
          v
        ≡ (ok answer, u))
      × (t ≡ reopened u)
      × (on_db (cleanup_and_pop web_oauth_sessions state) (reopened db)
          ≡ (ok (in_flight web_oauth_sessions web_oauth_sessions-IsTable state (reopened db)), v))
      × (v.pending.oauth_sessions ≡ db.committed.oauth_sessions)
unfolding google_callback take_flow
google_callback-returns s google cookie code state error db answer t e =
    let (u, run, shut) =
      with_session-returns (take_flow s google cookie code state error) db answer t e in
    let (found, v, popped, rest) =
      bind-returns (on_db (cleanup_and_pop web_oauth_sessions state))
        (finish_flow s google cookie code state error) (reopened db) answer u run in
    (
      v,
      u,
      subst (λ f. finish_flow s google cookie code state error f v ≡ (ok answer, u))
          (on_db-pop web_oauth_sessions web_oauth_sessions-IsTable state (reopened db) found v
            popped).0
          rest,
      shut,
      popped
          ∙ ap (λ f. (ok f, v))
              (on_db-pop web_oauth_sessions web_oauth_sessions-IsTable state (reopened db) found v
                popped).0,
      ap (λ w. w.pending.oauth_sessions)
          (on_db-pop web_oauth_sessions web_oauth_sessions-IsTable state (reopened db) found v
            popped).1,
    )
