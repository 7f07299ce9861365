-- ===== src/Queries/Listing/Standing.antt =====
-- The standing questions: who is in the answer, and in which order.
use reli.Prelude.{
  ℕ, ◌≤◌, ◌≡◌, ◌⊎◌, ◌↔◌, inl, inr, sym, subst, String, Bool, true, ◌&&◌, some, List, arith, ◌==◌,
  ℕ_equals, String_equals, length-take, take-all, filter, any, In, In-filter, filter-In, sort-In,
  In-sort, In-any, any-In, contains-In, In-contains, leb, sort, length-sort, Bool-cases, IsOrdered,
  IsPreorder, sort-IsOrdered,
}
use reli.DbModels.{
  ThingRecord, RelationshipRecord, RelationshipType_equals, same_type_iff, blocks, needs_input_tag,
  internal_tags,
}
use reli.Database.Tables.{Graph}
use reli.Queries.Order.{Collation, priority_first, priority_then_title, any_tag, tagged}
use reli.Queries.Standing.{
  NeedsInput_truncated, needs_input, waits_for_input, due_for_checkin, is_due_for_checkin, blocked,
  holds_up,
}
use reli.Queries.Listing.Filtered.{has_any_iff, dated_iff}
use reli.Queries.Listing.{
  IsTop, take-sort-IsTop, priority_first-IsPreorder, priority_then_title-IsPreorder,
}

module _ {A : Type 0} where
  -- An ordered list of exactly the rows with this property.
  pub record Lists (before : A → A → Bool) (P : A → Type 0) (rows results : List A) : Type 0 where
    pub exact : (a : A) → In a results ↔ (In a rows × P a)
    pub ordered : IsOrdered before results

  sort-filter_iff :
      (before : A → A → Bool) (p : A → Bool) (rows : List A) (a : A)
      → In a (sort before (filter p rows)) ↔ (In a rows × (p a ≡ true))
  sort-filter_iff before p rows a = (
    (λ h. filter-In p a rows (sort-In before a _ h)),
    λ (m, e). In-sort before a _ (In-filter p a rows m e),
  )

  -- A sort of the rows that pass a test, by what the test means.
  pub sort-filter-Lists :
      (before : A → A → Bool) (p : A → Bool) (P : A → Type 0) (rows : List A)
      → IsPreorder before
      → ((a : A) → (p a ≡ true) ↔ P a)
      → Lists before P rows (sort before (filter p rows))
  sort-filter-Lists before p P rows order means = record {
    exact = λ a.
        let h = sort-filter_iff before p rows a in
        ((λ m. let q = h.0 m in (q.0, (means a).0 q.1)), λ (m, d). h.1 (m, (means a).1 d));
    ordered = sort-IsOrdered before order _;
  }

-- The Things due: active, dated no later, and none of Reli's own.
abbrev pub IsDue : ℕ → ThingRecord → Type 0
IsDue as_of row =
    (row.active ≡ true)
    × ((date : ℕ) × (row.checkin_date ≡ some date) × (date ≤ as_of))
    × ((tag : String) → In tag internal_tags → ¬ In tag row.tags)

is_due_for_checkin_iff :
    (as_of : ℕ) (row : ThingRecord) → (is_due_for_checkin as_of row ≡ true) ↔ IsDue as_of row
is_due_for_checkin_iff as_of row =
    let due =
      dated_iff row.checkin_date (λ date. leb date as_of) (λ date. date ≤ as_of)
        (λ e. ground arith) in
    let own = has_any_iff internal_tags row.tags in
    (
      (λ h. (
        ground (arith, h),
        due.0 (ground (arith, h)),
        λ tag m k. absurd (ground (arith, h, own.1 (tag, m, k))),
      )),
      λ (a, d, n). elim (Bool-cases (tagged internal_tags any_tag row)) [
        | inl e ↦ let (tag, m, k) = own.0 e in absurd (n tag m k)
        | inr e ↦ ground (arith, a, due.1 d, e)
      ],
    )

-- For every graph and date, the Things due for a check-in are exactly the active ones whose date has
-- come and that carry none of the internal tags, in the order of descending priority.
pub due_for_checkin_lem :
    (g : Graph) (as_of : ℕ) → Lists priority_first (IsDue as_of) g.things (due_for_checkin g as_of)
unfolding due_for_checkin
due_for_checkin_lem g as_of =
    sort-filter-Lists priority_first (is_due_for_checkin as_of) (IsDue as_of) g.things
      priority_first-IsPreorder (is_due_for_checkin_iff as_of)

-- Held up by this edge, whose target is an active Thing.
abbrev pub IsBlocked : Graph → ThingRecord → Type 0
IsBlocked g row =
    (r : RelationshipRecord) × (blocker : ThingRecord) × In r g.relationships
    × In blocker g.things
    × (r.source_thing_id ≡ row.id)
    × (r.relationship_type ≡ blocks)
    × (r.target_thing_id ≡ blocker.id)
    × (blocker.active ≡ true)

holds_up_iff :
    (g : Graph) (row : ThingRecord)
    → (any (holds_up g.things row) g.relationships ≡ true) ↔ IsBlocked g row
holds_up_iff g row = (
  (λ h.
      let e = In-any (holds_up g.things row) g.relationships h in
      let b =
        In-any (λ t. t.id == e.0.target_thing_id && t.active) g.things (ground (arith, e.2)) in
      (
        e.0,
        b.0,
        e.1,
        b.1,
        ground (arith, e.2),
        (same_type_iff e.0.relationship_type blocks).0 (ground (arith, e.2)),
        ground (arith, b.2),
        ground (arith, b.2),
      )),
  λ (r, b, mr, mb, s, t, i, a). any-In (holds_up g.things row) r g.relationships mr (
      ground (
        arith,
        s,
        i,
        (same_type_iff r.relationship_type blocks).1 t,
        any-In (λ t. t.id == r.target_thing_id && t.active) b g.things mb (ground (arith, i, a)),
      )),
)

-- For every graph, the blocked Things are exactly those from which a Blocks edge runs to an active
-- Thing, in the order of descending priority.
pub blocked_lem : (g : Graph) → Lists priority_first (IsBlocked g) g.things (blocked g)
unfolding blocked
blocked_lem g =
    sort-filter-Lists priority_first (λ row. any (holds_up g.things row) g.relationships)
      (IsBlocked g) g.things priority_first-IsPreorder (holds_up_iff g)

abbrev pub IsWaiting : ThingRecord → Type 0
IsWaiting row = (row.active ≡ true) × In needs_input_tag row.tags

waits_for_input_iff : (row : ThingRecord) → (waits_for_input row ≡ true) ↔ IsWaiting row
waits_for_input_iff row = (
  (λ h. (ground (arith, h), contains-In needs_input_tag row.tags (ground (arith, h)))),
  λ (a, m). ground (arith, a, In-contains needs_input_tag row.tags m),
)

-- For every graph and limit, `needs_input` returns the foremost active Things with the tag #NeedsInput,
-- by priority and then title, as many as there are up to the limit; and it says that it is truncated, or
-- its Things are exactly all of these.
pub needs_input_lem :
    (c : Collation) (g : Graph) (limit : ℕ)
    → IsTop (priority_then_title c) waits_for_input limit g.things (needs_input c g limit).things
      × ((NeedsInput_truncated (needs_input c g limit) ≡ true)
          ⊎ Lists (priority_then_title c) IsWaiting g.things (needs_input c g limit).things)
unfolding needs_input
needs_input_lem c g limit =
    let order = priority_then_title-IsPreorder c in
    let sorted = sort (priority_then_title c) (filter waits_for_input g.things) in
    (
      take-sort-IsTop _ waits_for_input limit g.things order,
      elim (Bool-cases (NeedsInput_truncated (needs_input c g limit))) [
        | inl e ↦ inl e
        | inr e ↦ inr (
            subst (Lists (priority_then_title c) IsWaiting g.things)
              (sym (
                take-all limit sorted (
                  ground (
                    arith,
                    e,
                    length-take limit sorted,
                    length-sort (priority_then_title c) (filter waits_for_input g.things),
                  ))))
              (sort-filter-Lists _ waits_for_input IsWaiting g.things order waits_for_input_iff))
      ],
    )
