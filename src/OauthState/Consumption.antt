-- ===== src/OauthState/Consumption.antt =====
-- Refresh tokens: consumed once, without the identity that they were issued to, and revoked by the
-- family.
use reli.Prelude.{
  ◌↔◌, ◌⊎◌, ◌∙◌, sym, subst, In, Bool-cases, eq_of_equals, ℕ, suc, ◌+◌, ◌≤◌, ◌<◌, ◌≡◌, refl, ap,
  String, Bool, true, false, ◌&&◌, not, none, some, List, [], ◌∷◌, String_equals, Option-cases, inl,
  inr, All, filter, map, length, ltb→lt, &&-cases, arith,
}
use reli.Result.{ok}
use reli.Exec.{pure, gets, modify, ◌>>=◌}
use reli.OauthState.Records.{Row, McpRefreshToken, OauthDb}
use reli.OauthState.Stores.{
  mcp_refresh_tokens, stored_rows, has_key, is_live, find_row, purge_expired, now_utc, commit,
}
use reli.OauthState.Runs.{live_rows}
use reli.OauthState.Tokens.{
  is_unconsumed, is_consumable, consume_row, returned, consumable_row, consume_refresh_token,
  is_of_family, revoke_refresh_token_family,
}

is_unconsumed-none :
    (row : Row McpRefreshToken) → is_unconsumed row ≡ true → row.values.consumed_at ≡ none
is_unconsumed-none row e = elim (Option-cases row.values.consumed_at) [
  | inl gone ↦ gone
  | inr (at, found) ↦ absurd (ground (arith, e, found))
]

find_row-filter :
    (key : String) (p : Row McpRefreshToken → Bool) (rows : List (Row McpRefreshToken))
    (row : Row McpRefreshToken)
    → find_row key (filter p rows) ≡ some row
    → p row ≡ true
find_row-filter key p [] row e = absurd cc
find_row-filter key p (r ∷ rows) row e = ground (arith, e, find_row-filter key p rows row)

module _ (token : String) (db : OauthDb) where
  abbrev digest : String
  digest = db.env.digest token

  abbrev live : List (Row McpRefreshToken)
  live = live_rows mcp_refresh_tokens db

  abbrev now : ℕ
  now = db.env.times (suc db.calls)

  abbrev after_consume : List (Row McpRefreshToken)
  after_consume = map (consume_row digest now) live

  pub consume_refresh_token-run : consume_refresh_token token db ≡ (
    ok (consumable_row digest now live),
    record db {
      pending = record db.pending { refresh_tokens = after_consume };
      calls = suc (suc db.calls);
    },
  )
  unfolding consume_refresh_token purge_expired now_utc gets modify pure ◌>>=◌
  consume_refresh_token-run = refl

  consumable_row-cases :
      (rows : List (Row McpRefreshToken)) (row : Row McpRefreshToken)
      → consumable_row digest now rows ≡ some row
      → (before : Row McpRefreshToken) × (find_row digest (filter (is_consumable digest now) rows)
          ≡ some before)
        × (row ≡ returned now before)
        × (before.values.consumed_at ≡ none)
        × (now < before.expires_at)
  consumable_row-cases rows row e =
      elim (Option-cases (find_row digest (filter (is_consumable digest now) rows))) [
        | inl gone ↦ absurd (ground (arith, e, gone))
        | inr (before, found) ↦
            let passes = find_row-filter digest (is_consumable digest now) rows before found in
            let parts =
              &&-cases (has_key digest before && is_unconsumed before) (is_live now before)
                passes in
            let unconsumed = (&&-cases (has_key digest before) (is_unconsumed before) parts.0).1 in
            (
              before,
              found,
              ground (arith, e, found),
              is_unconsumed-none before unconsumed,
              ltb→lt now before.expires_at parts.1,
            )
      ]

consumable_row-after :
    (key : String) (at later last : ℕ) (rows : List (Row McpRefreshToken))
    → at ≤ later
    → consumable_row key last (filter (is_live later) (map (consume_row key at) rows)) ≡ none
consumable_row-after key at later last [] h = refl
consumable_row-after key at later last (row ∷ rows) h =
    ground (arith, h, consumable_row-after key at later last rows h)

-- A refresh token is consumed at most once, if the clock does not run back: after it was consumed, or
-- was found to be gone, expired or consumed, the next call returns nothing.
pub consume_refresh_token-once :
    (token : String) (db : OauthDb)
    → db.env.times (suc db.calls) ≤ db.env.times (suc (suc db.calls))
    → (consume_refresh_token token (consume_refresh_token token db).1).0 ≡ ok none
consume_refresh_token-once token db forth =
    let t = record db {
      pending = record db.pending { refresh_tokens = after_consume token db };
      calls = suc (suc db.calls);
    } in
    rw (consume_refresh_token-run token db) (
      rw (consume_refresh_token-run token t)
        (ap ok (consumable_row-after (digest token db) (now token db) _ _ (live token db) forth)))

-- The row that a consumption looks for: under the digest, unconsumed and unexpired.
abbrev pub IsPresented : String → ℕ → Row McpRefreshToken → Type 0
IsPresented key now row = (row.key ≡ key) × (row.values.consumed_at ≡ none) × (now < row.expires_at)

-- A row as it was, consumed, and without its account.
pub record IsSpent (now : ℕ) (before after : Row McpRefreshToken) : Type 0 where
  pub same_key : after.key ≡ before.key
  pub no_subject : after.values.subject ≡ none
  pub no_email : after.values.email ≡ none
  pub marked : after.values.consumed_at ≡ some now
  pub same_client : after.values.client_id ≡ before.values.client_id
  pub same_scope : after.values.scope ≡ before.values.scope
  pub same_family : after.values.family_id ≡ before.values.family_id
  pub same_deadline : after.expires_at ≡ before.expires_at

-- Row by row, in their order: what is looked for is spent, and everything else is as it was.
abbrev pub Spends : String → ℕ → List (Row McpRefreshToken) → List (Row McpRefreshToken) → Type 0
Spends key at [] [] = Unit
Spends key at (x ∷ xs) (y ∷ ys) =
    ((IsPresented key at x × IsSpent at x y) ⊎ ((¬ IsPresented key at x) × (y ≡ x)))
    × Spends key at xs ys
Spends key at _ _ = ⊥

is_consumable_iff :
    (key : String) (now : ℕ) (row : Row McpRefreshToken)
    → (is_consumable key now row ≡ true) ↔ IsPresented key now row
is_consumable_iff key now row = (
  (λ h.
      let parts = &&-cases (has_key key row && is_unconsumed row) (is_live now row) h in
      let first = &&-cases (has_key key row) (is_unconsumed row) parts.0 in
      (
        eq_of_equals row.key key first.0,
        is_unconsumed-none row first.1,
        ltb→lt now row.expires_at parts.1,
      )),
  λ (k, c, l). ground (arith, (String_equals.equals_iff row.key key).1 k, c, l),
)

pub map-Spends :
    (key : String) (now : ℕ) (rows : List (Row McpRefreshToken))
    → Spends key now rows (map (consume_row key now) rows)
map-Spends key now [] = tt
map-Spends key now (row ∷ rows) = elim (Bool-cases (is_consumable key now row)) [
  | inl there ↦ rw there (
    inl (
      (is_consumable_iff key now row).0 there,
      record {
        same_key = refl;
        no_subject = refl;
        no_email = refl;
        marked = refl;
        same_client = refl;
        same_scope = refl;
        same_family = refl;
        same_deadline = refl;
      },
    ),
    map-Spends key now rows,
  )
  | inr other ↦ rw other (
    inr ((λ p. ground (arith, other, (is_consumable_iff key now row).1 p)), refl),
    map-Spends key now rows,
  )
]

-- No row is left that a consumption of the same token would take.
pub Spends-In :
    (key : String) (now : ℕ) (rows after : List (Row McpRefreshToken)) (row : Row McpRefreshToken)
    → Spends key now rows after
    → In row after
    → ¬ IsPresented key now row
Spends-In key now [] [] row h m = absurd m
Spends-In key now [] (y ∷ ys) row h m = absurd h
Spends-In key now (x ∷ xs) [] row h m = absurd m
Spends-In key now (x ∷ xs) (y ∷ ys) row h (inr m) = Spends-In key now xs ys row h.1 m
Spends-In key now (x ∷ xs) (y ∷ ys) row h (inl e) = elim h.0 [
  | inl (_, spent) ↦
      λ p. ground (arith, subst (λ r. r.values.consumed_at ≡ some now) e spent.marked, p.1)
  | inr (not_presented, same) ↦
      λ p. not_presented (subst (IsPresented key now) {x = row} {y = x} (sym e ∙ same) p)
]

-- What a consumption returns and leaves.
pub record Consumption (token : String) (db : OauthDb) (row : Row McpRefreshToken) (t : OauthDb)
    : Type 0 where
  pub before : Row McpRefreshToken
  pub stored : In before (live token db)
  pub presented : IsPresented (db.env.digest token) (now token db) before
  pub same_key : row.key ≡ before.key
  pub same_subject : row.values.subject ≡ before.values.subject
  pub same_email : row.values.email ≡ before.values.email
  pub same_client : row.values.client_id ≡ before.values.client_id
  pub same_scope : row.values.scope ≡ before.values.scope
  pub same_family : row.values.family_id ≡ before.values.family_id
  pub same_deadline : row.expires_at ≡ before.expires_at
  pub left :
      Spends (db.env.digest token) (now token db) (live token db) (stored_rows mcp_refresh_tokens t)
  pub uncommitted : t.committed ≡ db.committed

find_row-filter_In :
    (key : String) (p : Row McpRefreshToken → Bool) (rows : List (Row McpRefreshToken))
    (row : Row McpRefreshToken)
    → find_row key (filter p rows) ≡ some row
    → In row rows
find_row-filter_In key p [] row e = absurd cc
find_row-filter_In key p (r ∷ rows) row e = elim (Bool-cases (p r && has_key key r)) [
  | inl here ↦ inl (ground (arith, e, here))
  | inr other ↦ inr (find_row-filter_In key p rows row (ground (arith, e, other)))
]

-- When a consumption returns a row, that row was stored under the digest of the token, unconsumed and
-- unexpired, and comes with the identity it was issued to; in the open transaction the stored row is
-- consumed and names nobody, every other unexpired row is as it was, and nothing is committed.
pub consume_refresh_token-Consumption :
    (token : String) (db : OauthDb) (row : Row McpRefreshToken) (t : OauthDb)
    → consume_refresh_token token db ≡ (ok (some row), t)
    → Consumption token db row t
consume_refresh_token-Consumption token db row t e =
    let run = consume_refresh_token-run token db in
    let (before, found, identity, _, _) =
      consumable_row-cases token db (live token db) row (ground (arith, e, run)) in
    let key = db.env.digest token in
    let after : stored_rows mcp_refresh_tokens t
        ≡ map (consume_row key (now token db)) (live token db) =
      ground (arith, e, run) in
    record {
      before = before;
      stored =
          find_row-filter_In key (is_consumable key (now token db)) (live token db) before found;
      presented =
          (is_consumable_iff key (now token db) before).0
            (find_row-filter key (is_consumable key (now token db)) (live token db) before found);
      same_key = ap (λ r. r.key) identity;
      same_subject = ap (λ r. r.values.subject) identity;
      same_email = ap (λ r. r.values.email) identity;
      same_client = ap (λ r. r.values.client_id) identity;
      same_scope = ap (λ r. r.values.scope) identity;
      same_family = ap (λ r. r.values.family_id) identity;
      same_deadline = ap (λ r. r.expires_at) identity;
      left =
          subst (Spends key (now token db) (live token db)) (sym after)
            (map-Spends key (now token db) (live token db));
      uncommitted = ground (arith, e, run);
    }

-- A consumed row does not say whose it was.
abbrev pub IsAnonymous : Row McpRefreshToken → Type 0
IsAnonymous row =
    is_unconsumed row ≡ false → (row.values.subject ≡ none) × (row.values.email ≡ none)

pub consume_row-IsAnonymous :
    (key : String) (now : ℕ) (rows : List (Row McpRefreshToken))
    → All IsAnonymous rows
    → All IsAnonymous (map (consume_row key now) rows)
consume_row-IsAnonymous key now [] h = tt
consume_row-IsAnonymous key now (row ∷ rows) h =
    ((λ c. ground (arith, c, h.0)), consume_row-IsAnonymous key now rows h.1)

-- What a revocation of a family leaves of the refresh tokens.
pub record Revocation (family_id : String) (before : List (Row McpRefreshToken)) (count : ℕ)
    (after : List (Row McpRefreshToken)) : Type 0 where
  pub none_left : filter (is_of_family family_id) after ≡ []
  pub others_kept :
      filter (λ row. not (is_of_family family_id row)) after
      ≡ filter (λ row. not (is_of_family family_id row)) before
  pub counted : count + length after ≡ length before

filtered-Revocation :
    (family_id : String) (rows : List (Row McpRefreshToken))
    → Revocation family_id rows
        (length (filter (is_of_family family_id) rows))
        (filter (λ row. not (is_of_family family_id row)) rows)
filtered-Revocation family_id [] = record { none_left = refl; others_kept = refl; counted = refl }
filtered-Revocation family_id (row ∷ rows) =
    let rest = filtered-Revocation family_id rows in
    record {
      none_left = ground (arith, rest.none_left);
      others_kept = ground (arith, rest.others_kept);
      counted = ground (arith, rest.counted);
    }

-- A revocation commits the deletion of every refresh token of the family, consumed or live, and of no
-- other row, and returns how many there were.
pub revoke_refresh_token_family-Revocation :
    (family_id : String) (db : OauthDb)
    → (count : ℕ) × (t : OauthDb) × (revoke_refresh_token_family family_id db ≡ (ok count, t))
      × Revocation family_id (stored_rows mcp_refresh_tokens db) count t.committed.refresh_tokens
unfolding revoke_refresh_token_family commit gets modify pure ◌>>=◌
revoke_refresh_token_family-Revocation family_id db =
    (_, _, refl, filtered-Revocation family_id db.pending.refresh_tokens)
