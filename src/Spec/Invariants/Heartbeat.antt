-- ===== src/Spec/Invariants/Heartbeat.antt =====
-- A missed scheduled run is seen only as a heartbeat Thing left due (#1704), so an active heartbeat
-- must stay one.
use reli.Prelude.{
  ℕ, ◌≡◌, sym, subst, true, some, List, [], ◌∷◌, ◌++◌, arith, ◌==◌, ℕ_equals, if◌then◌else◌,
  Bool-cases, inl, inr, contains, String_equals, eq_of_equals,
}
use reli.DbModels.{ThingRecord, Actor, scheduled_task_tag}
use reli.Database.Tables.{Graph, find_thing, put_thing}
use reli.Database.Session.{Session}
use reli.Service.Requests.{Request, request, serve}
use reli.Spec.Step.{Step, Steps-invariant, Updates, created, updated, related, unrelated}
use reli.Spec.Invariants.WellFormed.{WellFormed, Steps-WellFormed}
use reli.Spec.Requests.{request-Steps}

-- The Thing with this id is there, active, and tagged as a heartbeat.
abbrev pub BeatsIn : ℕ → Graph → Type 0
BeatsIn id g =
    (t : ThingRecord) × (find_thing id g.things ≡ some t)
    × (contains scheduled_task_tag t.tags ≡ true)
    × (t.active ≡ true)

find_thing-append :
    (id : ℕ) (ts us : List ThingRecord) (t : ThingRecord)
    → find_thing id ts ≡ some t
    → find_thing id (ts ++ us) ≡ some t
find_thing-append id [] us t e = cc
find_thing-append id (x ∷ ts) us t e = ground (arith, find_thing-append id ts us t)

find_thing-put :
    (id : ℕ) (n t : ThingRecord) (ts : List ThingRecord)
    → find_thing id ts ≡ some t
    → find_thing id (put_thing n ts) ≡ (if id == n.id then some n else some t)
find_thing-put id n t [] e = cc
find_thing-put id n t (x ∷ ts) e = ground (arith, find_thing-put id n t ts)

BeatsIn-update :
    (id : ℕ) (g : Graph) (before n t : ThingRecord)
    → find_thing n.id g.things ≡ some before
    → Updates before n
    → find_thing id g.things ≡ some t
    → contains scheduled_task_tag t.tags ≡ true
    → t.active ≡ true
    → (t' : ThingRecord) × (find_thing id (put_thing n g.things) ≡ some t')
      × (contains scheduled_task_tag t'.tags ≡ true)
      × (t'.active ≡ true)
BeatsIn-update id g before n t there u found beat active = elim (Bool-cases (id == n.id)) [
  | inl hit ↦
      let same : before ≡ t =
        ground
          (arith, subst (λ i. find_thing i g.things ≡ some t) (eq_of_equals id n.id hit) found) in
      (
        n,
        ground (arith, find_thing-put id n t g.things found),
        u.keeps_heartbeat (
            subst (λ (x : ThingRecord). contains scheduled_task_tag x.tags ≡ true) (sym same) beat),
        u.keeps_active
            (subst (λ (x : ThingRecord). contains scheduled_task_tag x.tags ≡ true) (sym same) beat)
            (subst (λ (x : ThingRecord). x.active ≡ true) (sym same) active),
      )
  | inr miss ↦ (t, ground (arith, find_thing-put id n t g.things found), beat, active)
]

Step-BeatsIn : {actor : Actor} (id : ℕ) (g h : Graph) → Step actor g h → BeatsIn id g → BeatsIn id h
Step-BeatsIn id g h (created _ n e fresh r) (t, found, beat, active) =
    (t, find_thing-append id g.things (n ∷ []) t found, beat, active)
Step-BeatsIn id g h (updated _ b n e there u r) (t, found, beat, active) =
    BeatsIn-update id g b n t there u found beat active
Step-BeatsIn id g h (related _ x e a r) p = p
Step-BeatsIn id g h (unrelated _ x e there r) p = p

-- Once an active heartbeat is committed in a well-formed graph, no requests that follow archive it,
-- delete it or take its tag away.
pub serve-BeatsIn :
    (id : ℕ) (s : Session) (rs : List (Actor × Request))
    → WellFormed s.committed
    → BeatsIn id s.committed
    → BeatsIn id (serve s rs).committed
unfolding serve
serve-BeatsIn id s [] w b = b
serve-BeatsIn id s ((actor, r) ∷ rs) w b =
    let steps = request-Steps s actor r w in
    serve-BeatsIn id (request s actor r) rs (Steps-WellFormed steps w)
      (Steps-invariant (BeatsIn id) (Step-BeatsIn id) steps b)
