-- ===== src/Service/Bounds.antt =====
-- The write bounds of backend/service.py (#1478): what every field a caller can write may hold.
pub mod Exact
use Prim.Native.Char.{code}
use reli.Prelude.{
  ℕ, ◌+◌, String, Bool, true, false, ◌&&◌, ◌||◌, Option, none, some, List, [], ◌∷◌, ltb, leb, ◌==◌,
  ℕ_equals, if◌then◌else◌, length, text_length,
}
use reli.DbModels.{Mapping, Float, finite}
use reli.Database.Session.{Error, field_too_large, priority_not_finite}
use reli.Result.{Result, ok, ◌>>◌, require, each}

abbrev pub max_title_chars : ℕ
max_title_chars = 500

abbrev pub max_description_chars : ℕ
max_description_chars = 100_000

abbrev pub max_mapping_bytes : ℕ
max_mapping_bytes = 100_000

abbrev pub max_tags : ℕ
max_tags = 100

abbrev pub max_tag_chars : ℕ
max_tag_chars = 100

abbrev pub max_context_chars : ℕ
max_context_chars = 2_000

abbrev pub max_scope_chars : ℕ
max_scope_chars = 100

-- The bytes that `json.dumps(…, ensure_ascii=False)` writes for a code point inside a string.
char_json_bytes : ℕ → ℕ
char_json_bytes c =
    if c == 34 || c == 92 || leb 8 c && leb c 10 || leb 12 c && leb c 13
    then 2
    else if ltb c 32
    then 6
    else if ltb c 128
    then 1
    else if ltb c 2048
    then 2
    else if ltb c 65536
    then 3
    else 4

text_json_bytes : String → ℕ
unfolding char_json_bytes
text_json_bytes String.[] = 2
text_json_bytes (String.◌∷◌ c s) = char_json_bytes (code c) + text_json_bytes s

-- The members of an object, each but the first behind `, `.
members_json_bytes : Mapping → ℕ
unfolding text_json_bytes
members_json_bytes [] = 0
members_json_bytes ((k, v) ∷ []) = text_json_bytes k + 2 + text_json_bytes v
members_json_bytes ((k, v) ∷ m ∷ ms) =
    text_json_bytes k + 2 + text_json_bytes v + 2 + members_json_bytes (m ∷ ms)

-- `len(json.dumps(value, ensure_ascii=False).encode("utf-8"))`
unfoldable pub mapping_json_bytes : Mapping → ℕ
unfolding members_json_bytes
mapping_json_bytes m = members_json_bytes m + 2

unfoldable pub check_text : String → Option String → ℕ → Result Error (Unit {0})
check_text name none limit = ok tt
check_text name (some value) limit =
    require (leb (text_length value) limit) (field_too_large name (text_length value))

unfoldable pub check_mapping : String → Option Mapping → Result Error (Unit {0})
check_mapping name none = ok tt
check_mapping name (some value) =
    require (leb (mapping_json_bytes value) max_mapping_bytes)
      (field_too_large name (mapping_json_bytes value))

unfoldable pub check_tags : Option (List String) → Result Error (Unit {0})
unfolding check_text
check_tags none = ok tt
check_tags (some tags) = do
  require (leb (length tags) max_tags) (field_too_large "tags" (length tags))
  each (λ tag. check_text "tag" (some tag) max_tag_chars) tags

-- `math.isfinite`
unfoldable pub is_finite : Float → Bool
is_finite (finite _) = true
is_finite _ = false

unfoldable pub check_priority : Option Float → Result Error (Unit {0})
unfolding is_finite
check_priority none = ok tt
check_priority (some p) = require (is_finite p) priority_not_finite

-- The fields that `_check_thing_fields` takes; `none` means not given.
pub record Fields : Type 0 where
  pub title : Option String
  pub description : Option String
  pub notes : Option Mapping
  pub tags : Option (List String)
  pub urls : Option Mapping
  pub priority : Option Float

abbrev pub no_fields : Fields
no_fields = record {
  title = none;
  description = none;
  notes = none;
  tags = none;
  urls = none;
  priority = none;
}

unfoldable pub check_thing_fields : Fields → Result Error (Unit {0})
check_thing_fields f = do
  check_text "title" f.title max_title_chars
  check_text "description" f.description max_description_chars
  check_mapping "notes" f.notes
  check_mapping "urls" f.urls
  check_tags f.tags
  check_priority f.priority
