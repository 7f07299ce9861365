-- ===== src/Auth/Callback/Issued.antt =====
-- The authorization code that a callback delivers to the client of an MCP sign-in.
use reli.Prelude.{
  ℕ, ◌+◌, ◌≡◌, sym, subst, ◌∙◌, String, true, not, some, [], ◌∷◌, ◌==◌, String_equals, ◌⊎◌, inl,
  inr, arith,
}
use reli.Result.{Result, ok, err}
use reli.Exec.{gets, raise, map_error, try}
use reli.Exec.Returns.{bind-returns, if-returns, gets-returns, pure-returns}
use reli.OauthState.Records.{OauthDb, McpOauthSession, StoreFull}
use reli.OauthState.Stores
use reli.OauthState.Stores.{
  take_live, cleanup_and_pop, cleanup_and_store, web_oauth_sessions, mcp_oauth_sessions,
  mcp_auth_codes, now_utc, find_row, stored_key,
}
use reli.OauthState.Rows.{find_row-replace_row}
use reli.OauthState.Runs.{mcp_auth_codes-IsTable}
use reli.OauthState.Once.{stored_result}
use reli.OauthState.Capped.{reopened}
use reli.McpOauth.Refusals.{is_allowed}
use reli.McpOauth.Authorization.{SignInSettings}
use reli.Auth.Exceptions.{Action, Exception, store_full_error, on_db}
use reli.Auth.GoogleLogin.{Google, Identity, exchange_code}
use reli.Auth.Sessions.{token_urlsafe, invite_only, on_full}
use reli.Auth.Callback.{
  Redirect, redirect_to_client, mcp_auth_code_ttl, auth_code_of, store_code, identify, issue_code,
  admit_mcp, finish_mcp_sign_in,
}
use reli.Auth.Callback.SignedIn.{identified}

-- An authorization code for the client of the flow, stored by its digest for the identity that Google named.
pub record Issued (s : SignInSettings) (google : Google) (flow : McpOauthSession)
    (code error : String) (before : OauthDb) (answer : Redirect) (t : OauthDb) : Type 0 where
  pub not_cancelled : (error == "") ≡ true
  pub identity : Identity
  pub after : OauthDb
  pub exchanged :
      exchange_code s google code flow.google_code_verifier before ≡ (ok identity, after)
  pub allowed : is_allowed s.settings after.env identity.email ≡ true
  pub auth_code : String
  pub delivered : answer ≡ redirect_to_client flow (("code", auth_code) ∷ [])
  pub now : ℕ
  pub stored :
      find_row (t.env.digest auth_code) t.committed.auth_codes
      ≡ some (record {
        key = t.env.digest auth_code;
        values = auth_code_of identity flow;
        expires_at = now + mcp_auth_code_ttl;
      })

-- An error for the client, in place of a code.
abbrev pub Denied : McpOauthSession → Redirect → Type 0
Denied flow answer =
    (description : String) × (answer
      ≡ redirect_to_client flow
          (("error", "access_denied") ∷ ("error_description", description) ∷ []))

not_full :
    (r : Result Exception Unit) (u db t : OauthDb)
    → try (λ _. (r, u)) on_full db ≡ (ok tt, t)
    → ◌≡◌ {A = Result Exception Unit × OauthDb} (r, u) (ok tt, t)
unfolding try raise
not_full (ok tt) u db t h = h
not_full (err (store_full_error f)) u db t h = absurd (ground (arith, h))
not_full (err x) u db t h = absurd (ground (arith, h))

on_full-passes :
    (m : Action Unit) (db t : OauthDb) → try m on_full db ≡ (ok tt, t) → m db ≡ (ok tt, t)
unfolding try
on_full-passes m db t e = let (r, u) = m db in not_full r u db t e

not_mapped :
    {A : Type 0} (r : Result StoreFull A) (u db : OauthDb) (a : A) (t : OauthDb)
    → on_db (λ _. (r, u)) db ≡ (ok a, t)
    → ◌≡◌ {A = Result StoreFull A × OauthDb} (r, u) (ok a, t)
unfolding on_db map_error
not_mapped (ok b) u db a t h = ground (arith, h)
not_mapped (err f) u db a t h = absurd (ground (arith, h))

on_db-returns :
    {A : Type 0} (m : Stores.Action A) (db : OauthDb) (a : A) (t : OauthDb)
    → on_db m db ≡ (ok a, t)
    → m db ≡ (ok a, t)
unfolding on_db map_error
on_db-returns m db a t e = let (r, u) = m db in not_mapped r u db a t e

store_code-stored :
    (identity : Identity) (flow : McpOauthSession) (auth_code : String) (db t : OauthDb)
    → store_code identity flow auth_code db ≡ (ok tt, t)
    → (now : ℕ) × (find_row (t.env.digest auth_code) t.committed.auth_codes
        ≡ some (record {
          key = t.env.digest auth_code;
          values = auth_code_of identity flow;
          expires_at = now + mcp_auth_code_ttl;
        }))
unfolding store_code
store_code-stored identity flow auth_code db t e =
    let (now, u, _, storing) = bind-returns (on_db now_utc) _ db tt t e in
    let (rows, kept) =
      stored_result mcp_auth_codes mcp_auth_codes-IsTable u auth_code (auth_code_of identity flow)
        (now + mcp_auth_code_ttl) t (on_db-returns _ u tt t storing) in
    (
      now,
      subst
          (λ w.
            find_row (w.env.digest auth_code) w.committed.auth_codes
            ≡ some (record {
              key = w.env.digest auth_code;
              values = auth_code_of identity flow;
              expires_at = now + mcp_auth_code_ttl;
            }))
          (sym kept) (find_row-replace_row _ rows),
    )

issue_code-Issued :
    (identity : Identity) (flow : McpOauthSession) (db : OauthDb) (answer : Redirect) (t : OauthDb)
    → issue_code identity flow db ≡ (ok answer, t)
    → (auth_code : String) × (now : ℕ) × (answer
        ≡ redirect_to_client flow (("code", auth_code) ∷ []))
      × (find_row (t.env.digest auth_code) t.committed.auth_codes
          ≡ some (record {
            key = t.env.digest auth_code;
            values = auth_code_of identity flow;
            expires_at = now + mcp_auth_code_ttl;
          }))
unfolding issue_code
issue_code-Issued identity flow db answer t e =
    let (auth_code, u, drawn, rest) = bind-returns token_urlsafe _ db answer t e in
    let (nothing, v, kept, done) =
      bind-returns (try (store_code identity flow auth_code) on_full) _ u answer t rest in
    let (now, stored) = store_code-stored identity flow auth_code u v (on_full-passes _ u v kept) in
    let same = pure-returns (redirect_to_client flow (("code", auth_code) ∷ [])) v answer t done in
    (
      auth_code,
      now,
      same.0,
      subst
          (λ w.
            find_row (w.env.digest auth_code) w.committed.auth_codes
            ≡ some (record {
              key = w.env.digest auth_code;
              values = auth_code_of identity flow;
              expires_at = now + mcp_auth_code_ttl;
            }))
          (sym same.1) stored,
    )

admit_mcp-Issued :
    (s : SignInSettings) (google : Google) (flow : McpOauthSession) (code error : String)
    (identity : Identity) (before db : OauthDb) (answer : Redirect) (t : OauthDb)
    → (error == "") ≡ true
    → exchange_code s google code flow.google_code_verifier before ≡ (ok identity, db)
    → admit_mcp s identity flow db ≡ (ok answer, t)
    → Denied flow answer ⊎ Issued s google flow code error before answer t
unfolding admit_mcp
admit_mcp-Issued s google flow code error identity before db answer t going exchanged e =
    let (allowed, u, got, rest) =
      bind-returns (gets (λ db. is_allowed s.settings db.env identity.email)) _ db answer t e in
    let there = gets-returns (λ db. is_allowed s.settings db.env identity.email) db allowed u got in
    elim (if-returns allowed _ _ u answer t rest) [
      | inr (_, denied) ↦ inl (invite_only, (pure-returns _ u answer t denied).0)
      | inl (permitted, issuing) ↦
          let (auth_code, now, delivered, stored) =
            issue_code-Issued identity flow u answer t issuing in
          inr (record {
            not_cancelled = going;
            identity = identity;
            after = db;
            exchanged = exchanged;
            allowed = sym there.0 ∙ permitted;
            auth_code = auth_code;
            delivered = delivered;
            now = now;
            stored = stored;
          })
    ]

pub finish_mcp_sign_in-Issued :
    (s : SignInSettings) (google : Google) (flow : McpOauthSession) (code error : String)
    (db : OauthDb) (answer : Redirect) (t : OauthDb)
    → finish_mcp_sign_in s google flow code error db ≡ (ok answer, t)
    → Denied flow answer ⊎ Issued s google flow code error db answer t
unfolding finish_mcp_sign_in
finish_mcp_sign_in-Issued s google flow code error db answer t e =
    elim (if-returns (not (error == "")) _ _ db answer t e) [
      | inl (_, cancelled) ↦
          inl ("Google sign-in was cancelled", (pure-returns _ db answer t cancelled).0)
      | inr (going, rest) ↦
          let (identity, u, found, admission) =
            bind-returns (identify s google code flow.google_code_verifier)
              (λ i. admit_mcp s i flow) db answer t rest in
          admit_mcp-Issued s google flow code error identity db u answer t (ground (arith, going))
            (identified s google code flow.google_code_verifier db identity u found) admission
    ]

pub Issued-reopened :
    (s : SignInSettings) (google : Google) (flow : McpOauthSession) (code error : String)
    (before : OauthDb) (answer : Redirect) (t : OauthDb)
    → Issued s google flow code error before answer t
    → Issued s google flow code error before answer (reopened t)
Issued-reopened s google flow code error before answer t i = record {
  not_cancelled = i.not_cancelled;
  identity = i.identity;
  after = i.after;
  exchanged = i.exchanged;
  allowed = i.allowed;
  auth_code = i.auth_code;
  delivered = i.delivered;
  now = i.now;
  stored = i.stored;
}
