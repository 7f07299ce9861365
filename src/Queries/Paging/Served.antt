-- ===== src/Queries/Paging/Served.antt =====
-- The pages of the journal that the service has written.
use reli.Prelude.{ℕ, ◌≤◌, ◌≡◌, Option, List, length}
use reli.DbModels.{Actor}
use reli.Database.Session.{Env}
use reli.Service.Requests.{Request, serve, initial}
use reli.Spec.Sequence.Served.{serve-initial-IsSequenced}
use reli.Queries.Paging.{matching, read_pages, read_pages-all}

-- After any requests on an empty database, for any choice of actors (none: every actor), any positive
-- limit and any id to start after: a caller that pages through `journal_since`, each page from the last
-- id that it has seen, while the page says it is truncated, gets every matching entry exactly once and in
-- order, in at most as many pages as there are matching entries.
pub serve-read_pages :
    (env : Env) (rs : List (Actor × Request)) (actors : Option (List Actor)) (limit pages after : ℕ)
    → 1 ≤ limit
    → length (matching (serve (initial env) rs).committed actors limit after) ≤ pages
    → read_pages (serve (initial env) rs).committed actors limit pages after
      ≡ matching (serve (initial env) rs).committed actors limit after
serve-read_pages env rs actors limit pages after =
    read_pages-all (serve (initial env) rs).committed actors limit
      (serve-initial-IsSequenced env rs) pages after
