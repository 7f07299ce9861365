-- ===== src/Queries/Paging/Window.antt =====
-- The window of `history`: the newest entries of one entity, oldest first.
use reli.Prelude.{
  ℕ, zero, suc, ◌+◌, ◌≡◌, ◌∙◌, inl, inr, refl, sym, ap, subst, true, List, [], ◌∷◌, ◌++◌, arith,
  length, length-take, length-sort, take, filter, All, All-sort, leb, sort, insert_sorted, reverse,
  reverse_aux, Bool-cases, if◌then◌else◌,
}
use reli.DbModels.{JournalRecord}
use reli.Database.Tables.{Graph}
use reli.Spec.Sequence.{id_below, IsSequenced}
use reli.Queries.Order.{newest_first}
use reli.Queries.JournalWindows.{history, is_of_entity}
use reli.Queries.Paging.{filter-IsSequenced}

-- `es` is a list whose last part is `window`.
abbrev pub EndsIn : List JournalRecord → List JournalRecord → Type 0
EndsIn es window = (older : List JournalRecord) × (es ≡ older ++ window)

reverse_aux-snoc :
    (es more : List JournalRecord) (e : JournalRecord)
    → reverse_aux (es ++ e ∷ []) more ≡ e ∷ reverse_aux es more
reverse_aux-snoc [] more e = refl
reverse_aux-snoc (f ∷ es) more e = reverse_aux-snoc es (f ∷ more) e

length-reverse_aux :
    (es more : List JournalRecord) → length (reverse_aux es more) ≡ length es + length more
length-reverse_aux [] more = omega arith
length-reverse_aux (e ∷ es) more = omega (arith, length-reverse_aux es (e ∷ more))

-- The oldest entry goes to the end.
insert_sorted-last :
    (e : JournalRecord) (es : List JournalRecord)
    → All (λ f. id_below e f ≡ true) es
    → insert_sorted newest_first e es ≡ es ++ e ∷ []
unfolding insert_sorted
insert_sorted-last e [] h = refl
insert_sorted-last e (f ∷ es) h = ground (arith, insert_sorted-last e es h.1, h.0)

take-snoc :
    (n : ℕ) (es : List JournalRecord) (e : JournalRecord)
    → take n (es ++ e ∷ []) ≡ (if leb n (length es) then take n es else es ++ e ∷ [])
take-snoc zero es e = ground arith
take-snoc (suc zero) [] e = refl
take-snoc (suc (suc n)) [] e = ground arith
take-snoc (suc n) (f ∷ es) e = ground (arith, take-snoc n es e)

sort-newest :
    (e : JournalRecord) (es : List JournalRecord)
    → All (λ f. id_below e f ≡ true) es
    → sort newest_first (e ∷ es) ≡ sort newest_first es ++ e ∷ []
unfolding sort
sort-newest e es h = insert_sorted-last e (sort newest_first es) (All-sort newest_first _ es h)

reverse-sort-newest :
    (es : List JournalRecord) → IsSequenced es → reverse (sort newest_first es) ≡ es
unfolding sort
reverse-sort-newest [] h = refl
reverse-sort-newest (e ∷ es) h =
    ap reverse (sort-newest e es h.0)
    ∙ reverse_aux-snoc (sort newest_first es) [] e
    ∙ ap (λ fs. e ∷ fs) (reverse-sort-newest es h.1)

window-EndsIn :
    (n : ℕ) (es : List JournalRecord)
    → IsSequenced es
    → EndsIn es (reverse (take n (sort newest_first es)))
unfolding sort
window-EndsIn zero [] h = ([], refl)
window-EndsIn (suc n) [] h = ([], refl)
window-EndsIn n (e ∷ es) h =
    subst (λ fs. EndsIn (e ∷ es) (reverse (take n fs))) (sym (sort-newest e es h.0))
      (subst (λ fs. EndsIn (e ∷ es) (reverse fs)) (sym (take-snoc n (sort newest_first es) e))
        (elim (Bool-cases (leb n (length (sort newest_first es)))) [
          | inl t ↦ rw t (let k = window-EndsIn n es h.1 in (e ∷ k.0, ap (λ fs. e ∷ fs) k.1))
          | inr f ↦ rw f (
            [],
            sym (
                reverse_aux-snoc (sort newest_first es) [] e
                ∙ ap (λ fs. e ∷ fs) (reverse-sort-newest es h.1)),
          )
        ]))

-- Where the ids grow along the journal: for every entity and limit, the window of `history` is the last
-- part of the entity's entries, in their order, as many as there are up to the limit, and `total` is how
-- many the entity has.
pub history_lem :
    (g : Graph) (entity_id limit : ℕ)
    → IsSequenced g.journal
    → EndsIn (filter (is_of_entity entity_id) g.journal) (history g entity_id limit).entries
      × ((history g entity_id limit).total ≡ length (filter (is_of_entity entity_id) g.journal))
      × (length (history g entity_id limit).entries ≡ (
          if leb (history g entity_id limit).total limit
          then (history g entity_id limit).total
          else limit))
unfolding history
history_lem g id limit h =
    let es = filter (is_of_entity id) g.journal in
    (
      window-EndsIn limit es (filter-IsSequenced _ g.journal h),
      refl,
      ground (
        arith,
        length-reverse_aux (take limit (sort newest_first es)) [],
        length-take limit (sort newest_first es),
        length-sort newest_first es,
      ),
    )
