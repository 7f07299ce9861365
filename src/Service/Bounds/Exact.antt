-- ===== src/Service/Bounds/Exact.antt =====
-- `_check_thing_fields` accepts exactly the fields that are within the bounds.
use reli.Prelude.{
  ℕ, ◌≤◌, String, ◌≡◌, ◌↔◌, refl, Bool, true, false, Option, none, some, List, [], ◌∷◌, arith, leb,
  leb→le, length, text_length, All,
}
use reli.DbModels.{Mapping, Float}
use reli.Database.Session.{Error}
use reli.Result.{ok, require, each, >>-eq-ok_iff}
use reli.Service.Bounds.{
  Fields, check_text, check_mapping, check_tags, check_priority, check_thing_fields, is_finite,
  mapping_json_bytes,
}

-- A field that is given satisfies `P`.
abbrev pub IfGiven : {A : Type 0} → (A → Type 0) → Option A → Type 0
IfGiven P none = Unit
IfGiven P (some a) = P a

pub record WithinBounds (f : Fields) : Type 0 where
  pub title : IfGiven (λ t. text_length t ≤ 500) f.title
  pub description : IfGiven (λ t. text_length t ≤ 100_000) f.description
  pub notes : IfGiven (λ m. mapping_json_bytes m ≤ 100_000) f.notes
  pub urls : IfGiven (λ m. mapping_json_bytes m ≤ 100_000) f.urls
  pub tags : IfGiven (λ ts. (length ts ≤ 100) × All (λ t. text_length t ≤ 100) ts) f.tags
  pub priority : IfGiven (λ p. is_finite p ≡ true) f.priority

require_iff : (b : Bool) (e : Error) → (require b e ≡ ok tt) ↔ (b ≡ true)
require_iff true e = (λ _. refl, λ _. refl)
require_iff false e = (λ h. cc, λ h. cc)

check_text_iff :
    (name : String) (t : Option String) (limit : ℕ)
    → (check_text name t limit ≡ ok tt) ↔ IfGiven (λ v. text_length v ≤ limit) t
unfolding check_text
check_text_iff name none limit = (λ _. tt, λ _. refl)
check_text_iff name (some v) limit = ground (arith, require_iff (leb (text_length v) limit) _)

check_mapping_iff :
    (name : String) (m : Option Mapping)
    → (check_mapping name m ≡ ok tt) ↔ IfGiven (λ v. mapping_json_bytes v ≤ 100_000) m
unfolding check_mapping
check_mapping_iff name none = (λ _. tt, λ _. refl)
check_mapping_iff name (some v) = ground (arith, require_iff (leb (mapping_json_bytes v) 100_000) _)

check_each_iff :
    (ts : List String)
    → (each (λ t. check_text "tag" (some t) 100) ts ≡ ok tt) ↔ All (λ t. text_length t ≤ 100) ts
check_each_iff [] = (λ _. tt, λ _. refl)
check_each_iff (t ∷ ts) = (
  λ h.
      let both = (>>-eq-ok_iff _ _).0 h in
      ((check_text_iff "tag" (some t) 100).0 both.0, (check_each_iff ts).0 both.1),
  λ h. rw ((check_text_iff "tag" (some t) 100).1 h.0) ((check_each_iff ts).1 h.1),
)

check_tags_iff :
    (ts : Option (List String))
    → (check_tags ts ≡ ok tt)
      ↔ IfGiven (λ v. (length v ≤ 100) × All (λ t. text_length t ≤ 100) v) ts
unfolding check_tags
check_tags_iff none = (λ _. tt, λ _. refl)
check_tags_iff (some ts) = (
  λ h.
      let both = (>>-eq-ok_iff _ _).0 h in
      (leb→le _ _ ((require_iff _ _).0 both.0), (check_each_iff ts).0 both.1),
  λ h. (>>-eq-ok_iff _ _).1 ((require_iff _ _).1 (ground arith), (check_each_iff ts).1 h.1),
)

check_priority_iff :
    (p : Option Float) → (check_priority p ≡ ok tt) ↔ IfGiven (λ v. is_finite v ≡ true) p
unfolding check_priority
check_priority_iff none = (λ _. tt, λ _. refl)
check_priority_iff (some p) = require_iff (is_finite p) _

-- A write's given fields are accepted exactly when each is within its bound: 500 characters of title,
-- 100,000 of description, 100,000 bytes of JSON for the notes and for the urls, 100 tags of at most
-- 100 characters each, and a priority that is a finite number.
pub check_thing_fields_iff : (f : Fields) → (check_thing_fields f ≡ ok tt) ↔ WithinBounds f
unfolding check_thing_fields
check_thing_fields_iff f = (
  λ h.
      let a = (>>-eq-ok_iff _ _).0 h in
      let b = (>>-eq-ok_iff _ _).0 a.1 in
      let c = (>>-eq-ok_iff _ _).0 b.1 in
      let d = (>>-eq-ok_iff _ _).0 c.1 in
      let e = (>>-eq-ok_iff _ _).0 d.1 in
      record {
        title = (check_text_iff "title" f.title 500).0 a.0;
        description = (check_text_iff "description" f.description 100_000).0 b.0;
        notes = (check_mapping_iff "notes" f.notes).0 c.0;
        urls = (check_mapping_iff "urls" f.urls).0 d.0;
        tags = (check_tags_iff f.tags).0 e.0;
        priority = (check_priority_iff f.priority).0 e.1;
      },
  λ w.
      rw
        (
          (check_text_iff "title" f.title 500).1 w.title,
          (check_text_iff "description" f.description 100_000).1 w.description,
          (check_mapping_iff "notes" f.notes).1 w.notes,
          (check_mapping_iff "urls" f.urls).1 w.urls,
          (check_tags_iff f.tags).1 w.tags,
        )
        ((check_priority_iff f.priority).1 w.priority),
)
