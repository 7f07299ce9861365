-- ===== src/Spec/Refines/Backfill.antt =====
-- The refinement for `backfill_checkin_dates`: a Thing that it read at its start still stands when it
-- comes to it, because the keys are distinct.
use reli.Prelude.{
  ℕ, suc, ◌+◌, ◌≡◌, refl, Bool, false, some, List, [], ◌∷◌, arith, ◌==◌, ℕ_equals, All, All-filter,
  All-sort, filter, any-sort, any-insert_sorted, insert_sorted, sort, contains-append,
  String_equals,
}
use reli.DbModels.{ThingRecord, claude_scheduled, scheduled_task_tag, new_tag}
use reli.Database.Tables.{Graph, find_thing, has_thing, put_thing}
use reli.Database.Session.{Session}
use reli.Exec.{◌>>=◌}
use reli.Exec.Preserves.{Preserves, Preserves-pure}
use reli.Exec.Leads.{Leads, Leads-trans, Leads-then}
use reli.Service.Writes.{journalled}
use reli.Service.Things.{
  save_journalled, backfilled_row, backfill_each, backfill_checkin_dates, undated_captures,
  captured_before, is_undated,
}
use reli.Spec.Step.{Updates, Steps-trans}
use reli.Spec.Invariants.Keys.{ThingKeys}
use reli.Spec.Invariants.WellFormed.{WellFormed, Steps-WellFormed}
use reli.Spec.Refines.{Traces}
use reli.Spec.Refines.Primitives.{save_journalled-Traces}

-- The Things of a list that stand in the table, each under an id of its own.
abbrev StandingThings : List ThingRecord → List ThingRecord → Type 0
StandingThings table ts = All (λ t. find_thing t.id table ≡ some t) ts × ThingKeys ts

find_thing-put :
    (n : ThingRecord) (i : ℕ) (ts : List ThingRecord)
    → (i == n.id) ≡ false
    → find_thing i (put_thing n ts) ≡ find_thing i ts
find_thing-put n i [] e = refl
find_thing-put n i (t ∷ ts) e = ground (arith, find_thing-put n i ts)

StandingThings-put :
    (table : List ThingRecord) (n : ThingRecord) (ts : List ThingRecord)
    → has_thing n.id ts ≡ false
    → All (λ t. find_thing t.id table ≡ some t) ts
    → All (λ t. find_thing t.id (put_thing n table) ≡ some t) ts
StandingThings-put table n [] e h = tt
StandingThings-put table n (t ∷ ts) e h = (
  ground (arith, find_thing-put n t.id table, h.0),
  StandingThings-put table n ts (ground arith) h.1,
)

StandingThings-cons :
    (x : ThingRecord) (table ts : List ThingRecord)
    → has_thing x.id ts ≡ false
    → All (λ t. find_thing t.id table ≡ some t) ts
    → All (λ t. find_thing t.id (x ∷ table) ≡ some t) ts
StandingThings-cons x table [] n h = tt
StandingThings-cons x table (t ∷ ts) n h =
    (ground (arith, h.0), StandingThings-cons x table ts (ground arith) h.1)

-- In a table of distinct keys, the row found under a row's id is that row.
StandingThings-table :
    (table : List ThingRecord) → ThingKeys table → All (λ t. find_thing t.id table ≡ some t) table
StandingThings-table [] k = tt
StandingThings-table (t ∷ table) k =
    (ground arith, StandingThings-cons t table table k.0 (StandingThings-table table k.1))

has_thing-filter :
    (p : ThingRecord → Bool) (id : ℕ) (ts : List ThingRecord)
    → has_thing id ts ≡ false
    → has_thing id (filter p ts) ≡ false
has_thing-filter p id [] n = n
has_thing-filter p id (t ∷ ts) n = ground (arith, has_thing-filter p id ts)

ThingKeys-filter :
    (p : ThingRecord → Bool) (ts : List ThingRecord) → ThingKeys ts → ThingKeys (filter p ts)
ThingKeys-filter p [] k = tt
ThingKeys-filter p (t ∷ ts) k =
    ground (arith, has_thing-filter p t.id ts k.0, ThingKeys-filter p ts k.1)

ThingKeys-insert_sorted :
    (before : ThingRecord → ThingRecord → Bool) (t : ThingRecord) (ts : List ThingRecord)
    → has_thing t.id ts ≡ false
    → ThingKeys ts
    → ThingKeys (insert_sorted before t ts)
unfolding insert_sorted
ThingKeys-insert_sorted before t [] n k = (refl, tt)
ThingKeys-insert_sorted before t (x ∷ ts) n k = ground (
  arith,
  ThingKeys-insert_sorted before t ts,
  any-insert_sorted before (λ (y : ThingRecord). y.id == x.id) t ts,
)

ThingKeys-sort :
    (before : ThingRecord → ThingRecord → Bool) (ts : List ThingRecord)
    → ThingKeys ts
    → ThingKeys (sort before ts)
unfolding sort
ThingKeys-sort before [] k = tt
ThingKeys-sort before (t ∷ ts) k =
    ThingKeys-insert_sorted before t (sort before ts)
      (rw (any-sort before (λ (y : ThingRecord). y.id == t.id) ts) k.0)
      (ThingKeys-sort before ts k.1)

-- Each capture that is to be dated stands in the table it was read from.
undated_captures-Standing :
    (table : List ThingRecord) → ThingKeys table → StandingThings table (undated_captures table)
undated_captures-Standing table k = (
  All-filter _ _ _
      (All-sort captured_before _ _ (All-filter _ _ table (StandingThings-table table k))),
  ThingKeys-filter _ _ (ThingKeys-sort captured_before _ (ThingKeys-filter is_undated table k)),
)

backfilled_row-Updates :
    (first now position : ℕ) (t : ThingRecord) → Updates t (backfilled_row first now position t)
backfilled_row-Updates first now position t = record {
  same_id = refl;
  same_creation = refl;
  keeps_heartbeat = ground (arith, contains-append scheduled_task_tag t.tags (new_tag ∷ []));
  keeps_active = λ _ a. a;
}

module _ (base : Graph) where
  abbrev Things : List ThingRecord → Session → Type 0
  Things ts s = Traces claude_scheduled base s × StandingThings s.pending.things ts

  save-Things :
      (t n : ThingRecord) (ts : List ThingRecord)
      → Updates t n
      → Leads (Things (t ∷ ts)) (Things ts) (save_journalled claude_scheduled t n)
  unfolding save_journalled journalled ◌>>=◌
  save-Things t n ts u = record {
    leads = λ s h. (
      (save_journalled-Traces claude_scheduled base t n u).leads s (h.0, rw u.same_id h.1.0.0),
      (StandingThings-put s.pending.things n ts (rw u.same_id h.1.1.0) h.1.0.1, h.1.1.1),
    );
  }

  backfill_each-Traces :
      (first now position : ℕ) (ts : List ThingRecord)
      → Leads (Things ts) (Traces claude_scheduled base) (backfill_each first now position ts)
  unfolding backfill_each
  backfill_each-Traces first now position [] = record {
    leads = λ s h. (Preserves-pure (Traces claude_scheduled base) tt).keeps s h.0;
  }
  backfill_each-Traces first now position (t ∷ ts) =
      Leads-trans _ _ _ (λ s h. h.0) _ _
        (save-Things t (backfilled_row first now position t) ts
          (backfilled_row-Updates first now position t))
        λ _. backfill_each-Traces first now (suc position) ts

  pub backfill_checkin_dates-Traces :
      (now : ℕ)
      → WellFormed base
      → Preserves (Traces claude_scheduled base) (backfill_checkin_dates now)
  unfolding backfill_checkin_dates ◌>>=◌
  backfill_checkin_dates-Traces now w = record {
    keeps = λ s h.
        let keys = (Steps-WellFormed (Steps-trans h.0 h.1) w).thing_keys in
        let table = s.pending.things in
        (Leads-then _ _ (backfill_each (s.env.owner_date now + 1) now 0 (undated_captures table)) _
            (backfill_each-Traces (s.env.owner_date now + 1) now 0 (undated_captures table))
            λ _. Preserves-pure _ _).leads
          s (h, undated_captures-Standing table keys);
  }
