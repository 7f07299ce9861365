-- ===== src/McpOauth/Anonymous.antt =====
-- Consumed refresh tokens name nobody, whatever the token endpoint is asked for.
pub mod Served
use reli.Prelude.{
  ℕ, ◌≡◌, refl, sym, String, Bool, true, false, Option, none, some, List, [], ◌∷◌, All, All-filter,
  All-append, subst, filter, not, map, arith,
}
use reli.Result.{Result, ok, err}
use reli.Exec.{Exec, pure, raise, gets, guard, or_raise, modify, map_error, ◌>>=◌, ◌>>◌}
use reli.Exec.Preserves.{
  Preserves, Preserves-bind, Preserves-gets, Preserves-if, Preserves-pure, Preserves-raise,
  preserves_rules, Preserves-or_raise,
}
use reli.OauthState.Records.{Row, OauthDb, Tables, McpRefreshToken, McpRegisteredClient}
use reli.OauthState.Stores.{
  Store, set_rows, is_live, purge_expired, make_room, replace_row, cleanup_and_store,
  cleanup_and_get, cleanup_and_pop, extend_expiry, now_utc, commit, rollback, mcp_refresh_tokens,
  mcp_auth_codes, mcp_registered_clients,
}
use reli.OauthState.Tokens.{consume_refresh_token, consume_row, revoke_refresh_token_family}
use reli.OauthState.Consumption.{IsAnonymous, consume_row-IsAnonymous}
use reli.McpOauth.Refusals.{Refusal, Settings, on_store}
use reli.McpOauth.Tokens.{TokenForm, uuid4, token_urlsafe}

abbrev pub AllAnonymous : OauthDb → Type 0
AllAnonymous db =
    All IsAnonymous db.pending.refresh_tokens × All IsAnonymous db.committed.refresh_tokens

pub now_utc-AllAnonymous : Preserves AllAnonymous now_utc
unfolding now_utc
now_utc-AllAnonymous = record { keeps = λ s h. h }

commit-AllAnonymous : Preserves AllAnonymous commit
unfolding commit
commit-AllAnonymous = record { keeps = λ s h. (h.0, h.0) }

rollback-AllAnonymous : Preserves AllAnonymous rollback
unfolding rollback
rollback-AllAnonymous = record { keeps = λ s h. (h.1, h.1) }

pub uuid4-AllAnonymous : Preserves AllAnonymous uuid4
unfolding uuid4
uuid4-AllAnonymous = record { keeps = λ s h. h }

pub token_urlsafe-AllAnonymous : Preserves AllAnonymous token_urlsafe
unfolding token_urlsafe
token_urlsafe-AllAnonymous = record { keeps = λ s h. h }

-- The writes that a store may make: to its own table, none of whose rows becomes one that names
-- somebody.
abbrev pub Keeps : {V : Type 0} → Store V → (List (Row V) → List (Row V)) → Type 0
Keeps store f =
    (t : Tables)
    → All IsAnonymous t.refresh_tokens
    → All IsAnonymous (store.with_rows t (f (store.rows t))).refresh_tokens

pub set_rows-AllAnonymous :
    {V : Type 0} (store : Store V) (f : List (Row V) → List (Row V))
    → Keeps store f
    → Preserves AllAnonymous (set_rows store f)
unfolding modify
set_rows-AllAnonymous store f k = record { keeps = λ s h. (k s.pending h.0, h.1) }

-- The filters of a store are such writes.
abbrev pub KeepsFilters : {V : Type 0} → Store V → Type 0
KeepsFilters {V} store = (p : Row V → Bool) → Keeps store (filter p)

module _ {V : Type 0} (store : Store V) (k : KeepsFilters store) where
  filter_rows-AllAnonymous : (p : Row V → Bool) → Preserves AllAnonymous (set_rows store (filter p))
  filter_rows-AllAnonymous p = set_rows-AllAnonymous store (filter p) (k p)

  purge_expired-AllAnonymous : Preserves AllAnonymous (purge_expired store)
  unfolding purge_expired
  purge_expired-AllAnonymous =
      Preserves-bind AllAnonymous now_utc _ now_utc-AllAnonymous
        (λ now. filter_rows-AllAnonymous (is_live now))

  make_room-AllAnonymous : (key : String) → Preserves AllAnonymous (make_room store key)
  unfolding make_room
  make_room-AllAnonymous key =
      search (preserves_rules, filter_rows-AllAnonymous, rollback-AllAnonymous)

  pub cleanup_and_get-AllAnonymous :
      (key : String) → Preserves AllAnonymous (cleanup_and_get store key)
  unfolding cleanup_and_get
  cleanup_and_get-AllAnonymous key =
      search (preserves_rules, purge_expired-AllAnonymous, commit-AllAnonymous)

  pub cleanup_and_pop-AllAnonymous :
      (key : String) → Preserves AllAnonymous (cleanup_and_pop store key)
  unfolding cleanup_and_pop
  cleanup_and_pop-AllAnonymous key =
      search
        (
          preserves_rules, purge_expired-AllAnonymous, now_utc-AllAnonymous,
          filter_rows-AllAnonymous, commit-AllAnonymous,
        )
        depth 9

  pub cleanup_and_store-AllAnonymous :
      (key : String) (values : V) (expires_at : ℕ)
      → ((row : Row V)
          → row.values ≡ values
          → Preserves AllAnonymous (set_rows store (replace_row row)))
      → Preserves AllAnonymous (cleanup_and_store store key values expires_at)
  unfolding cleanup_and_store
  cleanup_and_store-AllAnonymous key values expires_at r =
      Preserves-bind AllAnonymous _ _ (Preserves-gets AllAnonymous _) λ key.
        Preserves-bind AllAnonymous _ _ purge_expired-AllAnonymous λ _.
          Preserves-bind AllAnonymous _ _ (make_room-AllAnonymous key) λ _.
            Preserves-bind AllAnonymous _ _
              (r (record { key = key; values = values; expires_at = expires_at }) refl)
              λ _. commit-AllAnonymous

pub codes-KeepsFilters : KeepsFilters mcp_auth_codes
codes-KeepsFilters p t h = h

pub clients-KeepsFilters : KeepsFilters mcp_registered_clients
clients-KeepsFilters p t h = h

pub tokens-KeepsFilters : KeepsFilters mcp_refresh_tokens
tokens-KeepsFilters p t h = All-filter IsAnonymous p t.refresh_tokens h

-- What the exchange does to the registrations and to the refresh tokens.
extended_rows-AllAnonymous :
    (f : List (Row McpRegisteredClient) → List (Row McpRegisteredClient))
    → Preserves AllAnonymous (set_rows mcp_registered_clients f)
extended_rows-AllAnonymous f = set_rows-AllAnonymous mcp_registered_clients f (λ t h. h)

pub extend_expiry-AllAnonymous :
    (key : String) (expires_at : ℕ)
    → Preserves AllAnonymous (extend_expiry mcp_registered_clients key expires_at)
unfolding extend_expiry
extend_expiry-AllAnonymous key expires_at =
    search (preserves_rules, extended_rows-AllAnonymous, commit-AllAnonymous)

consumed_rows-AllAnonymous :
    (key : String) (now : ℕ)
    → Preserves AllAnonymous (set_rows mcp_refresh_tokens (map (consume_row key now)))
consumed_rows-AllAnonymous key now =
    set_rows-AllAnonymous mcp_refresh_tokens (map (consume_row key now))
      (λ t. consume_row-IsAnonymous key now t.refresh_tokens)

refresh_filter-AllAnonymous :
    (p : Row McpRefreshToken → Bool)
    → Preserves AllAnonymous (set_rows mcp_refresh_tokens (filter p))
refresh_filter-AllAnonymous = filter_rows-AllAnonymous mcp_refresh_tokens tokens-KeepsFilters

refresh_purge-AllAnonymous : Preserves AllAnonymous (purge_expired mcp_refresh_tokens)
refresh_purge-AllAnonymous = purge_expired-AllAnonymous mcp_refresh_tokens tokens-KeepsFilters

pub consume_refresh_token-AllAnonymous :
    (token : String) → Preserves AllAnonymous (consume_refresh_token token)
unfolding consume_refresh_token
consume_refresh_token-AllAnonymous token =
    search
      (
        preserves_rules, refresh_purge-AllAnonymous, now_utc-AllAnonymous,
        consumed_rows-AllAnonymous,
      )
      depth 9

pub revoke_refresh_token_family-AllAnonymous :
    (family_id : String) → Preserves AllAnonymous (revoke_refresh_token_family family_id)
unfolding revoke_refresh_token_family
revoke_refresh_token_family-AllAnonymous family_id =
    search (preserves_rules, refresh_filter-AllAnonymous, commit-AllAnonymous)
