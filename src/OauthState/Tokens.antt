-- ===== src/OauthState/Tokens.antt =====
-- The refresh tokens of backend/oauth_state.py: consumed once, revoked by the family.
use reli.Prelude.{
  ℕ, String, Bool, true, false, ◌&&◌, not, Option, none, some, List, ◌==◌, String_equals,
  if◌then◌else◌, filter, map, length,
}
use reli.Exec.{pure, gets, ◌>>=◌, ◌>>◌}
use reli.OauthState.Records.{Row, McpRefreshToken}
use reli.OauthState.Stores.{
  Action, mcp_refresh_tokens, stored_key, stored_rows, set_rows, has_key, is_live, find_row,
  purge_expired, now_utc, commit,
}

abbrev pub is_unconsumed : Row McpRefreshToken → Bool
is_unconsumed row = elim row.values.consumed_at [ none ↦ true | some _ ↦ false ]

-- The row that the UPDATE finds: the key is presented, unconsumed and unexpired.
abbrev pub is_consumable : String → ℕ → Row McpRefreshToken → Bool
is_consumable key now row = has_key key row && is_unconsumed row && is_live now row

-- `values(consumed_at=now, subject=None, email=None)`
abbrev pub consumed : ℕ → Row McpRefreshToken → Row McpRefreshToken
consumed now row = record row {
  values = record row.values { subject = none; email = none; consumed_at = some now };
}

abbrev pub consume_row : String → ℕ → Row McpRefreshToken → Row McpRefreshToken
consume_row key now row = if is_consumable key now row then consumed now row else row

-- `RETURNING`: the columns after the update, but the identity as it stood before.
abbrev pub returned : ℕ → Row McpRefreshToken → Row McpRefreshToken
returned now row = record row { values = record row.values { consumed_at = some now } }

abbrev pub consumable_row : String → ℕ → List (Row McpRefreshToken) → Option (Row McpRefreshToken)
consumable_row key now rows = elim (find_row key (filter (is_consumable key now) rows)) [
  | none ↦ none
  | some row ↦ some (returned now row)
]

-- Not committed: the rotation commits with its replacement.
unfoldable pub consume_refresh_token : String → Action (Option (Row McpRefreshToken))
unfolding purge_expired now_utc
consume_refresh_token token = do
  key ← gets (λ db. stored_key mcp_refresh_tokens db token)
  purge_expired mcp_refresh_tokens
  now ← now_utc
  row ← gets (λ db. consumable_row key now (stored_rows mcp_refresh_tokens db))
  set_rows mcp_refresh_tokens (map (consume_row key now))
  pure row

abbrev pub is_of_family : String → Row McpRefreshToken → Bool
is_of_family family_id row = row.values.family_id == family_id

unfoldable pub revoke_refresh_token_family : String → Action ℕ
unfolding commit
revoke_refresh_token_family family_id = do
  count ← gets (λ db. length (filter (is_of_family family_id) (stored_rows mcp_refresh_tokens db)))
  set_rows mcp_refresh_tokens (filter (λ row. not (is_of_family family_id row)))
  commit
  pure count
