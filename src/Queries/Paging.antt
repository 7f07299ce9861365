-- ===== src/Queries/Paging.antt =====
-- Reading the journal in pages, and the window of one entity's history.
pub mod Served
pub mod Window
use reli.Prelude.{
  ℕ, zero, suc, ◌≤◌, ◌≡◌, ◌∙◌, inl, inr, refl, sym, ap, subst, Bool, true, false, Option, List, [],
  ◌∷◌, ◌++◌, arith, ℕ_equals, length, length-append, length-take, take-all, append-nil, take,
  filter, All, All-filter, ltb, sort, insert_sorted, Bool-cases,
}
use reli.DbModels.{JournalRecord, Actor, Actor_equals}
use reli.Database.Tables.{Graph}
use reli.Spec.Sequence.{id_below, IsSequenced}
use reli.Queries.Order.{id_first}
use reli.Queries.JournalWindows.{truncated, journal_since, is_since}

pub filter-IsSequenced :
    (p : JournalRecord → Bool) (es : List JournalRecord)
    → IsSequenced es
    → IsSequenced (filter p es)
filter-IsSequenced p [] h = tt
filter-IsSequenced p (e ∷ es) h = elim (Bool-cases (p e)) [
  | inl t ↦ rw t (All-filter (λ f. id_below e f ≡ true) p es h.0, filter-IsSequenced p es h.1)
  | inr f ↦ rw f (filter-IsSequenced p es h.1)
]

-- Sequenced entries are in the order of their ids.
sort-id_first : (es : List JournalRecord) → IsSequenced es → sort id_first es ≡ es
unfolding sort insert_sorted
sort-id_first [] h = refl
sort-id_first (e ∷ []) h = refl
sort-id_first (e ∷ f ∷ es) h = ground (arith, sort-id_first (f ∷ es) h.1, h.0.0)

-- The last id of a page, which is where the next one starts.
abbrev pub cursor : ℕ → List JournalRecord → ℕ
cursor after [] = after
cursor after (e ∷ es) = cursor e.id es

abbrev Above : ℕ → JournalRecord → Type 0
Above after e = ltb after e.id ≡ true

filter-Above :
    (after : ℕ) (es : List JournalRecord)
    → All (Above after) es
    → filter (λ e. ltb after e.id) es ≡ es
filter-Above after [] h = refl
filter-Above after (e ∷ es) h = ground (arith, filter-Above after es h.1, h.0)

cursor-le :
    (after n : ℕ) (es : List JournalRecord)
    → All (Above after) es
    → IsSequenced es
    → after ≤ cursor after (take n es)
cursor-le after zero es h s = omega arith
cursor-le after (suc n) [] h s = omega arith
cursor-le after (suc n) (e ∷ es) h s = ground (arith, cursor-le e.id n es s.0 s.1, h.0)

-- What a page leaves is what is above its last id.
page-rest :
    (after n : ℕ) (es : List JournalRecord)
    → All (Above after) es
    → IsSequenced es
    → es ≡ take n es ++ filter (λ e. ltb (cursor after (take n es)) e.id) es
page-rest after zero es h s = sym (filter-Above after es h)
page-rest after (suc n) [] h s = refl
page-rest after (suc n) (e ∷ es) h s =
    ground (arith, page-rest e.id n es s.0 s.1, cursor-le e.id n es s.0 s.1)

-- Above a later id: the entries above the earlier one, less those up to it.
is_since-later :
    (after later : ℕ) (actors : Option (List Actor)) (es : List JournalRecord)
    → after ≤ later
    → filter (is_since later actors) es
      ≡ filter (λ e. ltb later e.id) (filter (is_since after actors) es)
is_since-later after later actors [] h = refl
is_since-later after later actors (e ∷ es) h =
    ground (arith, is_since-later after later actors es h, h)

since-Above :
    (after : ℕ) (actors : Option (List Actor)) (es : List JournalRecord)
    → All (Above after) (filter (is_since after actors) es)
since-Above after actors [] = tt
since-Above after actors (e ∷ es) = elim (Bool-cases (is_since after actors e)) [
  | inl t ↦ rw t (ground (arith, t), since-Above after actors es)
  | inr f ↦ rw f (since-Above after actors es)
]

length-zero : (es : List JournalRecord) → length es ≡ 0 → es ≡ []
length-zero [] h = refl
length-zero (e ∷ es) h = absurd (omega (arith, h))

module _ (g : Graph) (actors : Option (List Actor)) (limit : ℕ) where
  abbrev pub matching : ℕ → List JournalRecord
  matching after = filter (is_since after actors) g.journal

  -- A caller that reads a page, and from the last id it saw the next one, while there is more.
  unfoldable pub read_pages : ℕ → ℕ → List JournalRecord
  unfolding journal_since
  read_pages zero after = []
  read_pages (suc pages) after =
      let page = journal_since g after actors limit in
      page.entries
      ++ elim (truncated page) [ true ↦ read_pages pages (cursor after page.entries) | false ↦ [] ]

  module _ (sequenced : IsSequenced g.journal) where
    page_entries :
        (after : ℕ) → (journal_since g after actors limit).entries ≡ take limit (matching after)
    unfolding journal_since
    page_entries after =
        ap (take limit) (sort-id_first (matching after) (filter-IsSequenced _ g.journal sequenced))

    -- The entries that match from the last id of a page on are those that the page leaves.
    matching-rest :
        (after : ℕ)
        → matching after
          ≡ take limit (matching after) ++ matching (cursor after (take limit (matching after)))
    matching-rest after =
        let above = since-Above after actors g.journal in
        let s = filter-IsSequenced (is_since after actors) g.journal sequenced in
        page-rest after limit (matching after) above s
        ∙ ap (λ es. take limit (matching after) ++ es)
            (sym (
              is_since-later after _ actors g.journal
                (cursor-le after limit (matching after) above s)))

    pub read_pages-all :
        (pages after : ℕ)
        → 1 ≤ limit
        → length (matching after) ≤ pages
        → read_pages pages after ≡ matching after
    unfolding read_pages
    read_pages-all zero after l h = ground (arith, length-zero (matching after) (omega (arith, h)))
    read_pages-all (suc pages) after l h =
        let m = matching after in
        let rest = matching-rest after in
        subst
          (λ es.
            es ++ elim (ltb (length es) (length m)) [
              | true ↦ read_pages pages (cursor after es)
              | false ↦ []
            ]
            ≡ m)
          (sym (page_entries after))
          (elim (Bool-cases (ltb (length (take limit m)) (length m))) [
            | inl more ↦ rw more (
                ap (λ es. take limit m ++ es)
                  (read_pages-all pages (cursor after (take limit m)) l (
                    ground (
                      arith,
                      l,
                      h,
                      more,
                      length-take limit m,
                      ap length rest,
                      length-append (take limit m) (matching (cursor after (take limit m))),
                    )))
                ∙ sym rest)
            | inr done ↦ rw done (
                append-nil (take limit m)
                ∙ take-all limit m (ground (arith, done, length-take limit m)))
          ])
