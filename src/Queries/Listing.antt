-- ===== src/Queries/Listing.antt =====
-- What an ordered and limited listing returns: `needs_input`, `find_things`, and the standing questions.
pub mod Filtered
pub mod Standing
use reli.Prelude.{
  ℕ, zero, suc, ◌≤◌, ◌≡◌, ◌⊎◌, inl, inr, refl, subst, String, Bool, true, false, ◌&&◌, ◌||◌, not,
  Option, none, some, List, [], ◌∷◌, arith, ◌==◌, ℕ_equals, String_equals, length, length-take,
  All-take, take, filter, any, contains, All, All-filter, All-filter_passed, All-sort, All-mono, In,
  In-filter, In-sort, All-In, In-All, In-any, any-In, leb, ltb, sort, length-sort, Bool-cases,
  IsPreorder, IsOrdered, sort-IsOrdered, take-IsOrdered, leb→le, if◌then◌else◌,
}
use reli.DbModels.{
  ThingRecord, RelationshipRecord, RelationshipType_equals, blocks, Float, finite, infinity,
  negative_infinity, not_a_number, needs_input_tag, internal_tags, ℤ, pos, negsuc,
}
use reli.Database.Tables.{Graph}
use reli.Queries.Order.{
  Collation, int_le, float_le, priority_first, priority_then_title, TagMatch, any_tag, all_tags,
  tagged, has_any, has_all,
}
use reli.Queries.Standing.{
  Filters, passes, find_things, NeedsInput, NeedsInput_truncated, needs_input, waits_for_input,
  due_for_checkin, is_due_for_checkin, stale, is_stale, untouched_first, blocked, holds_up,
  is_active_thing, tags_match,
}

-- The first `limit` of the rows that pass: ordered, as many as there are up to the limit, and ahead of
-- every row that is left out.
pub record IsTop {A : Type 0} (before : A → A → Bool) (p : A → Bool) (limit : ℕ)
    (rows results : List A) : Type 0 where
  pub passed : All (λ a. In a rows × (p a ≡ true)) results
  pub ordered : IsOrdered before results
  pub size :
      length results
      ≡ (if leb (length (filter p rows)) limit then length (filter p rows) else limit)
  pub foremost :
      (a : A) → In a rows → p a ≡ true → In a results ⊎ All (λ r. before r a ≡ true) results

module _ {A : Type 0} where
  -- What is not among the first comes after each of them.
  take-foremost :
      (before : A → A → Bool) (n : ℕ) (a : A) (xs : List A)
      → IsOrdered before xs
      → In a xs
      → In a (take n xs) ⊎ All (λ r. before r a ≡ true) (take n xs)
  take-foremost before zero a xs o h = inr tt
  take-foremost before (suc n) a [] o h = absurd h
  take-foremost before (suc n) a (x ∷ xs) o (inl e) = inl (inl e)
  take-foremost before (suc n) a (x ∷ xs) o (inr h) = elim (take-foremost before n a xs o.1 h) [
    | inl k ↦ inl (inr k)
    | inr k ↦ inr (In-All (λ r. before x r ≡ true) a xs o.0 h, k)
  ]

  pub take-sort-IsTop :
      (before : A → A → Bool) (p : A → Bool) (limit : ℕ) (rows : List A)
      → IsPreorder before
      → IsTop before p limit rows (take limit (sort before (filter p rows)))
  take-sort-IsTop before p limit rows o = record {
    passed =
        All-take _ limit _
          (All-sort before _ _ (All-filter_passed _ p rows (All-In _ rows (λ a m e. (m, e)))));
    ordered = take-IsOrdered before limit _ (sort-IsOrdered before o _);
    size = ground (
      arith,
      length-take limit (sort before (filter p rows)),
      length-sort before (filter p rows),
    );
    foremost = λ a m e.
        take-foremost before limit a _ (sort-IsOrdered before o _)
          (In-sort before a _ (In-filter p a rows m e));
  }

int_le_total : (a b : ℤ) → (int_le a b || int_le b a) ≡ true
int_le_total a b = ground arith

int_le_trans : (a b c : ℤ) → int_le a b ≡ true → int_le b c ≡ true → int_le a c ≡ true
int_le_trans a b c h k = ground (arith, h, k)

float_le_total : (a b : Float) → (float_le a b || float_le b a) ≡ true
float_le_total (finite a) (finite b) = int_le_total a b
float_le_total a b = ground arith

float_le_trans : (a b c : Float) → float_le a b ≡ true → float_le b c ≡ true → float_le a c ≡ true
float_le_trans (finite a) (finite b) (finite c) h k = int_le_trans a b c h k
float_le_trans a b c h k = ground (arith, h, k)

pub priority_first-IsPreorder : IsPreorder priority_first
priority_first-IsPreorder = record {
  total = λ a b. float_le_total b.priority a.priority;
  trans = λ a b c h k. float_le_trans c.priority b.priority a.priority k h;
}

pub priority_then_title-IsPreorder : (c : Collation) → IsPreorder (priority_then_title c)
priority_then_title-IsPreorder c = record {
  total =
      λ a b. ground (arith, float_le_total b.priority a.priority, c.title_total a.title b.title);
  trans = λ x y z h k. ground (
    arith,
    h,
    k,
    float_le_trans z.priority y.priority x.priority,
    float_le_trans x.priority z.priority y.priority,
    float_le_trans y.priority x.priority z.priority,
    c.title_trans x.title y.title z.title,
  );
}

pub untouched_first-IsPreorder : IsPreorder untouched_first
untouched_first-IsPreorder = record {
  total = λ a b. ground arith;
  trans = λ a b c h k. ground (arith, h, k);
}
