-- ===== src/Spec/Requests.antt =====
-- What every request does to the committed graph, and what any sequence of requests leaves.
use reli.Prelude.{◌≡◌, sym, List, [], ◌∷◌, ◌++◌, append_assoc, append-nil}
use reli.DbModels.{Actor, JournalRecord}
use reli.Database.Tables.{Graph}
use reli.Database.Session.{Env, Session}
use reli.Exec.Preserves.{Preserves, Preserves-bind, preserves_rules}
use reli.Service.Requests.{
  Request, create_thing_of, update_thing_of, relate_of, unrelate_of, user_anchor_of,
  record_preference_of, add_evidence_of, reject_preference_of, backfill_of, collapse_of, perform,
  journalled_actor, opened, request, serve, initial,
}
use reli.Spec.Step.{Step, Steps, done, Steps-invariant, created, updated, related, unrelated}
use reli.Spec.Invariants.WellFormed.{WellFormed, empty-WellFormed, Steps-WellFormed}
use reli.Spec.Refines.{Traces}
use reli.Spec.Refines.Primitives.{commit-Traces}
use reli.Spec.Refines.Operations.{
  create_thing-Traces, update_thing-Traces, relate-Traces, unrelate-Traces,
  get_or_create_user_anchor-Traces, record_preference-Traces, add_preference_evidence-Traces,
  reject_preference-Traces,
}
use reli.Spec.Refines.Backfill.{backfill_checkin_dates-Traces}
use reli.Spec.Refines.Collapse.{collapse_duplicate_evidence-Traces}

perform-Traces :
    (base : Graph) (actor : Actor) (r : Request)
    → WellFormed base
    → Preserves (Traces (journalled_actor actor r) base) (perform actor r)
unfolding perform
perform-Traces base actor (create_thing_of new) w = search (preserves_rules, create_thing-Traces)
perform-Traces base actor (update_thing_of id u) w = search (preserves_rules, update_thing-Traces)
perform-Traces base actor (relate_of source target type context) w =
    search (preserves_rules, relate-Traces)
perform-Traces base actor (unrelate_of id) w = unrelate-Traces actor base id
perform-Traces base actor user_anchor_of w =
    search (preserves_rules, get_or_create_user_anchor-Traces)
perform-Traces base actor (record_preference_of title scope ids) w =
    search (preserves_rules, record_preference-Traces)
perform-Traces base actor (add_evidence_of id evidence_id) w =
    search (preserves_rules, add_preference_evidence-Traces)
perform-Traces base actor (reject_preference_of id) w =
    search (preserves_rules, reject_preference-Traces)
perform-Traces base actor (backfill_of now) w =
    Preserves-bind _ _ _ (backfill_checkin_dates-Traces base now w) λ _. commit-Traces _ base
perform-Traces base actor collapse_of w =
    Preserves-bind _ _ _ (collapse_duplicate_evidence-Traces base w) λ _. commit-Traces _ base

-- Whatever a request is and however it ends, the graph that it leaves committed comes from the one
-- that it found, if that is well-formed, by admissible changes of single rows, each with its journal
-- entry: by the actor of the request, or by CLAUDE_SCHEDULED for the two one-off passes.
pub request-Steps :
    (s : Session) (actor : Actor) (r : Request)
    → WellFormed s.committed
    → Steps (journalled_actor actor r) s.committed (request s actor r).committed
request-Steps s actor r w = ((perform-Traces s.committed actor r w).keeps (opened s) (done, done)).0

serve-WellFormed :
    (s : Session) (rs : List (Actor × Request))
    → WellFormed s.committed
    → WellFormed (serve s rs).committed
unfolding serve
serve-WellFormed s [] w = w
serve-WellFormed s ((actor, r) ∷ rs) w =
    serve-WellFormed (request s actor r) rs (Steps-WellFormed (request-Steps s actor r w) w)

-- After any requests on an empty database, in any order and with any outcomes: reading the journal
-- back gives exactly the rows, ids and EvidenceFor pairs are unique, every relationship joins two
-- different Things that exist, and the ChildOf tree has no cycle.
pub serve-initial-WellFormed :
    (env : Env) (rs : List (Actor × Request)) → WellFormed (serve (initial env) rs).committed
serve-initial-WellFormed env rs = serve-WellFormed (initial env) rs empty-WellFormed

-- `ys` is `xs` with more at its end.
abbrev pub Extends : List JournalRecord → List JournalRecord → Type 0
Extends xs ys = (zs : List JournalRecord) × (ys ≡ xs ++ zs)

Step-Extends :
    {actor : Actor} (js : List JournalRecord) (g h : Graph)
    → Step actor g h
    → Extends js g.journal
    → Extends js h.journal
Step-Extends js g h (created _ t e fresh r) (zs, p) = (zs ++ e ∷ [], rw p (append_assoc js zs _))
Step-Extends js g h (updated _ b t e there u r) (zs, p) =
    (zs ++ e ∷ [], rw p (append_assoc js zs _))
Step-Extends js g h (related _ x e a r) (zs, p) = (zs ++ e ∷ [], rw p (append_assoc js zs _))
Step-Extends js g h (unrelated _ x e there r) (zs, p) = (zs ++ e ∷ [], rw p (append_assoc js zs _))

-- The journal is append-only: a request leaves every committed entry in its place.
pub request-Extends :
    (s : Session) (actor : Actor) (r : Request)
    → WellFormed s.committed
    → Extends s.committed.journal (request s actor r).committed.journal
request-Extends s actor r w =
    Steps-invariant (λ g. Extends s.committed.journal g.journal) (Step-Extends s.committed.journal)
      (request-Steps s actor r w) ([], sym (append-nil s.committed.journal))
