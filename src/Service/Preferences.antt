-- ===== src/Service/Preferences.antt =====
-- The user model's writes in backend/service.py.
use reli.Prelude.{
  ℕ, String, Bool, true, false, not, Option, none, some, List, [], ◌∷◌, ◌++◌, ◌==◌, ℕ_equals,
  String_equals, if◌then◌else◌, contains, strip,
}
use reli.DbModels.{
  ThingRecord, finite, pos, Actor, related_to, evidence_for, user_anchor_id, user_tag,
  preference_tag, rejected_tag,
}
use reli.Database.Tables.{find_thing, find_edge}
use reli.Database.Session.{
  Error, integrity, duplicate_relationship, no_scope, no_evidence, not_a_preference, commit,
  rollback,
}
use reli.Exec.{pure, raise, lift, gets, guard, or_raise, ◌>>=◌, ◌>>◌, try, for_each}
use reli.Service.Bounds.{check_text, check_thing_fields, no_fields, max_scope_chars}
use reli.Service.Writes.{
  Action, require_thing, NewThing, insert_thing, insert_relationship, check_evidence_source,
}
use reli.Service.Things.{no_update, update_thing}
use reli.Service.Edges.{relate}

-- A Thing with a title and tags, and the other arguments at their defaults.
abbrev pub titled : String → List String → NewThing
titled title tags = record {
  title = title;
  description = none;
  notes = none;
  tags = some tags;
  urls = none;
  checkin_date = none;
  priority = finite (pos 0);
  active = true;
}

abbrev pub user_anchor : NewThing
user_anchor = record (titled "User" (user_tag ∷ [])) {
  description = some "The anchor every preference hangs off.";
}

-- `except IntegrityError`: the row that another writer put there first.
unfoldable pub on_refused_anchor : Error → Action ThingRecord
unfolding rollback
on_refused_anchor (integrity kind) = do
  rollback
  anchor ← gets (λ s. find_thing user_anchor_id s.pending.things)
  or_raise anchor (integrity kind)
on_refused_anchor e = raise e

unfoldable pub create_anchor : Actor → Action ThingRecord
create_anchor actor =
    try (do anchor ← insert_thing actor user_anchor (some user_anchor_id); commit; pure anchor)
      on_refused_anchor

unfoldable pub existing_or_created : Actor → Option ThingRecord → Action ThingRecord
unfolding create_anchor
existing_or_created actor (some anchor) = pure anchor
existing_or_created actor none = create_anchor actor

unfoldable pub get_or_create_user_anchor : Actor → Action ThingRecord
unfolding existing_or_created
get_or_create_user_anchor actor = do
  anchor ← gets (λ s. find_thing user_anchor_id s.pending.things)
  existing_or_created actor anchor

-- `list(dict.fromkeys(ids))`: each id once, where it first stands. `seen` holds the ids before.
abbrev pub from_keys : List ℕ → List ℕ → List ℕ
from_keys seen [] = []
from_keys seen (id ∷ ids) =
    let rest = from_keys (id ∷ seen) ids in if contains id seen then rest else id ∷ rest

unfoldable pub require_evidence : ℕ → Action Unit
require_evidence id = do source ← require_thing id; lift (check_evidence_source source)

abbrev pub new_preference : String → String → NewThing
new_preference title scope = record (titled title (preference_tag ∷ [])) {
  notes = some (("scope", scope) ∷ []);
}

unfoldable pub link_evidence : Actor → ℕ → ℕ → Action Unit
link_evidence actor preference_id evidence_id = do
  insert_relationship actor evidence_id preference_id evidence_for none
  pure tt

-- The writes after the checks: the anchor commits by itself, the rest in one transaction.
unfoldable pub write_preference : Actor → String → String → List ℕ → Action ThingRecord
unfolding get_or_create_user_anchor link_evidence
write_preference actor title scope wanted = do
  anchor ← get_or_create_user_anchor actor
  preference ← insert_thing actor (new_preference title scope) none
  insert_relationship actor anchor.id preference.id related_to none
  for_each wanted (link_evidence actor preference.id)
  commit
  pure preference

abbrev pub is_empty {ℓ} : {A : Type ℓ} → List A → Bool
is_empty [] = true
is_empty (x ∷ xs) = false

unfoldable pub record_preference : Actor → String → String → List ℕ → Action ThingRecord
unfolding write_preference require_evidence
record_preference actor title scope evidence_ids = do
  guard (not (strip scope == "")) no_scope
  lift (check_text "scope" (some (strip scope)) max_scope_chars)
  lift (check_thing_fields (record no_fields { title = some title }))
  guard (not (is_empty (from_keys [] evidence_ids))) no_evidence
  for_each (from_keys [] evidence_ids) require_evidence
  write_preference actor title (strip scope) (from_keys [] evidence_ids)

unfoldable pub require_preference : ℕ → Action ThingRecord
require_preference preference_id = do
  preference ← require_thing preference_id
  guard (contains preference_tag preference.tags) (not_a_preference preference_id)
  pure preference

-- `except DuplicateRelationship: preference = _require_preference(session, preference_id)`
unfoldable pub on_duplicate_evidence : ℕ → Error → Action ThingRecord
unfolding require_preference
on_duplicate_evidence preference_id (duplicate_relationship existing) =
    require_preference preference_id
on_duplicate_evidence preference_id e = raise e

unfoldable pub link_preference : Actor → ThingRecord → ℕ → ℕ → Action ThingRecord
unfolding on_duplicate_evidence
link_preference actor preference preference_id evidence_id =
    try (do relate actor evidence_id preference.id evidence_for none; pure preference)
      (on_duplicate_evidence preference_id)

unfoldable pub add_preference_evidence : Actor → ℕ → ℕ → Action ThingRecord
unfolding link_preference require_preference
add_preference_evidence actor preference_id evidence_id = do
  preference ← require_preference preference_id
  require_thing evidence_id
  linked ← gets (λ s. find_edge evidence_id preference.id evidence_for s.pending.relationships)
  elim linked [
    | some existing ↦ pure preference
    | none ↦ link_preference actor preference preference_id evidence_id
  ]

unfoldable pub reject_preference : Actor → ℕ → Action ThingRecord
unfolding require_preference
reject_preference actor preference_id = do
  preference ← require_preference preference_id
  if contains rejected_tag preference.tags
      then pure preference
      else update_thing actor preference.id
          (record no_update { tags = some (preference.tags ++ rejected_tag ∷ []) })
