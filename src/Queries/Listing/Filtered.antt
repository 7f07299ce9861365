-- ===== src/Queries/Listing/Filtered.antt =====
-- `find_things`: what its filters ask of a Thing, and what it returns.
use reli.Prelude.{
  ℕ, ◌≤◌, ◌≡◌, ◌⊎◌, ◌↔◌, inl, inr, refl, subst, String, Bool, true, false, not, Option, none, some,
  List, [], ◌∷◌, arith, String_equals, any, contains, In, In-any, any-In, contains-In, In-contains,
  leb, Bool-cases,
}
use reli.DbModels.{ThingRecord}
use reli.Database.Tables.{Graph}
use reli.Queries.Order.{
  Collation, float_le, priority_then_title, TagMatch, any_tag, all_tags, tagged, has_any, has_all,
}
use reli.Queries.Standing.{Filters, passes, find_things, given, is_active_as, tags_match}
use reli.Queries.Listing.{IsTop, take-sort-IsTop, priority_then_title-IsPreorder}

abbrev TagsMatch : TagMatch → List String → List String → Type 0
TagsMatch any_tag wanted tags = (wanted ≡ []) ⊎ ((tag : String) × In tag wanted × In tag tags)
TagsMatch all_tags wanted tags = (tag : String) → In tag wanted → In tag tags

-- A condition on the value of a filter, if it is given.
abbrev IfGiven : {A : Type 0} → Option A → (A → Type 0) → Type 0
IfGiven none P = Unit
IfGiven (some a) P = P a

abbrev IsDated : (ℕ → Type 0) → ThingRecord → Type 0
IsDated P row = (date : ℕ) × (row.checkin_date ≡ some date) × P date

-- The filters, as conditions on the row.
pub record Matches (f : Filters) (row : ThingRecord) : Type 0 where
  pub tags : TagsMatch f.match f.tags row.tags
  pub active : IfGiven f.active (λ active. row.active ≡ active)
  pub from : IfGiven f.checkin_from (λ from. IsDated (λ date. from ≤ date) row)
  pub to : IfGiven f.checkin_to (λ to. IsDated (λ date. date ≤ to) row)
  pub least : IfGiven f.priority_min (λ low. float_le low row.priority ≡ true)
  pub greatest : IfGiven f.priority_max (λ high. float_le row.priority high ≡ true)

given_iff :
    {A : Type 0} (o : Option A) (test : A → Bool) (P : A → Type 0)
    → ((a : A) → (test a ≡ true) ↔ P a)
    → (given o test ≡ true) ↔ IfGiven o P
given_iff none test P h = ((λ _. tt), λ _. refl)
given_iff (some a) test P h = h a

pub has_any_iff :
    (wanted tags : List String)
    → (has_any wanted tags ≡ true) ↔ ((tag : String) × In tag wanted × In tag tags)
has_any_iff wanted tags = (
  (λ h. let k = In-any _ wanted h in (k.0, k.1, contains-In k.0 tags k.2)),
  λ (tag, m, k). any-In (λ t. contains t tags) tag wanted m (In-contains tag tags k),
)

has_all_iff :
    (wanted tags : List String)
    → (has_all wanted tags ≡ true) ↔ ((tag : String) → In tag wanted → In tag tags)
has_all_iff wanted tags = (
  (λ h tag m. elim (Bool-cases (contains tag tags)) [
    | inl e ↦ contains-In tag tags e
    | inr e ↦
        absurd
          (ground (arith, h, any-In (λ t. not (contains t tags)) tag wanted m (ground (arith, e))))
  ]),
  λ f. elim (Bool-cases (any (λ t. not (contains t tags)) wanted)) [
    | inl e ↦
        let k = In-any (λ t. not (contains t tags)) wanted e in
        absurd (ground (arith, k.2, In-contains k.0 tags (f k.0 k.1)))
    | inr e ↦ ground (arith, e)
  ],
)

tags_match_iff :
    (f : Filters) (row : ThingRecord)
    → (tags_match f row ≡ true) ↔ TagsMatch f.match f.tags row.tags
tags_match_iff f row = of_match f.match f.tags
  where
    of_match :
        (m : TagMatch) (wanted : List String)
        → ((elim wanted [ [] ↦ true | tag ∷ tags ↦ tagged (tag ∷ tags) m row ]) ≡ true)
          ↔ TagsMatch m wanted row.tags
    of_match any_tag [] = ((λ _. inl refl), λ _. refl)
    of_match all_tags [] = ((λ _ tag m. absurd m), λ _. refl)
    of_match any_tag (tag ∷ tags) = (
      (λ h. inr ((has_any_iff (tag ∷ tags) row.tags).0 h)),
      λ h. elim h [
        | inl e ↦ absurd (ground (arith, e))
        | inr k ↦ (has_any_iff (tag ∷ tags) row.tags).1 k
      ],
    )
    of_match all_tags (tag ∷ tags) = has_all_iff (tag ∷ tags) row.tags

-- A condition on a date, which no null meets.
pub dated_iff :
    (o : Option ℕ) (test : ℕ → Bool) (P : ℕ → Type 0)
    → ((date : ℕ) → (test date ≡ true) ↔ P date)
    → ((elim o [ none ↦ false | some date ↦ test date ]) ≡ true)
      ↔ ((date : ℕ) × (o ≡ some date) × P date)
dated_iff none test P h =
    ((λ e. absurd (ground (arith, e))), λ (date, e, p). absurd (ground (arith, e)))
dated_iff (some d) test P h =
    ((λ e. (d, refl, (h d).0 e)), λ (date, e, p). (h d).1 (subst P {y = d} (ground (arith, e)) p))

is_active_as_iff :
    (row : ThingRecord) (active : Bool) → (is_active_as active row ≡ true) ↔ (row.active ≡ active)
is_active_as_iff row active = ground arith

passes_iff : (f : Filters) (row : ThingRecord) → (passes f row ≡ true) ↔ Matches f row
passes_iff f row =
    let active = given_iff f.active _ _ (is_active_as_iff row) in
    let from =
      given_iff f.checkin_from _ _
        (λ d. dated_iff row.checkin_date (leb d) (λ date. d ≤ date) (λ e. ground arith)) in
    let to = given_iff f.checkin_to _ _ (λ d.
      dated_iff row.checkin_date (λ date. leb date d) (λ date. date ≤ d) (λ e. ground arith)) in
    let least =
      given_iff f.priority_min _ (λ low. float_le low row.priority ≡ true)
        (λ low. (λ e. e, λ e. e)) in
    let greatest =
      given_iff f.priority_max _ (λ high. float_le row.priority high ≡ true)
        (λ high. (λ e. e, λ e. e)) in
    (
      (λ h. record {
        tags = (tags_match_iff f row).0 (ground (arith, h));
        active = active.0 (ground (arith, h));
        from = from.0 (ground (arith, h));
        to = to.0 (ground (arith, h));
        least = least.0 (ground (arith, h));
        greatest = greatest.0 (ground (arith, h));
      }),
      λ m. ground (
        arith,
        (tags_match_iff f row).1 m.tags,
        active.1 m.active,
        from.1 m.from,
        to.1 m.to,
        least.1 m.least,
        greatest.1 m.greatest,
      ),
    )

-- For every graph, filters and limit, `find_things` returns the foremost Things that match every filter
-- that is given, by priority and then title: as many as match up to the limit, each at its place, and
-- none that is left out is ahead of one that is returned.
pub find_things_lem :
    (c : Collation) (g : Graph) (f : Filters) (limit : ℕ)
    → IsTop (priority_then_title c) (passes f) limit g.things (find_things c g f limit)
      × ((row : ThingRecord) → (passes f row ≡ true) ↔ Matches f row)
unfolding find_things
find_things_lem c g f limit =
    (take-sort-IsTop _ (passes f) limit g.things (priority_then_title-IsPreorder c), passes_iff f)
