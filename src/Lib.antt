-- ===== src/Lib.antt =====
-- Reli keeps a personal knowledge graph: Things, typed relationships between them, and a journal
-- with one entry for every mutation. This library models its write path, its
-- queries and its sign-in, and proves what the graph, the journal and the credentials promise.
--
-- The parts and the files that model them:
--
-- - backend/db_models.py, the rows and constants: DbModels. A UUID is its 128-bit number, a date its
--   day number, an instant its microseconds since the epoch, a float its value in units of 2 ^ -1074
--   or one of the three that are not finite. A snapshot of the journal is the row itself, since
--   `model_dump` writes every column.
-- - The three tables, the constraints that db_models.py declares, and the session of a request
--   (backend/db_engine.py): Database/Tables, Database/Session. A session has the committed graph, the
--   graph as its open transaction has left it, and what the world outside hands the code: the UUIDs
--   that `uuid4` draws, the readings of the clock, and the owner's date at an instant. These three
--   are arbitrary functions, and no theorem assumes anything of them.
-- - backend/service.py, the only write path: Service/Bounds (the write bounds), Service/ChildOf (the
--   recursive query that guards the tree), Service/Writes (the private half that does not commit),
--   Service/Things, Service/Edges and Service/Preferences (the public functions), Service/Requests
--   (each of them in a session of its own, and sequences of them). Functions keep their Python names
--   without the leading underscore. Code that writes and may raise is an action of Exec: the state
--   passes through, and an exception keeps the state it was raised in; Exec/Preserves, Exec/Leads and
--   Exec/OnRaise are the rules for reasoning about actions. Code that only checks returns a Result.
-- - The specification: Spec/Step is a transition relation of admissible, journalled changes of one
--   row, Spec/Journal reads a journal back, Spec/Refines proves that the service's functions are
--   sequences of such changes, Spec/Invariants what such changes keep, Spec/Requests and Spec/Atomic
--   what that means for requests, and Spec/Effects what a call that returned has done.
-- - backend/oauth_state.py, the flow state of the authorization server: OauthState/Records (the six
--   tables and the session), OauthState/Stores (a store and its calls), OauthState/Tokens (the refresh
--   tokens). SHA-256 is an arbitrary function on text. OauthState/Runs says what each call does to a
--   session, and Capped, Once, Nearest, Eviction and Consumption what follows from it.
-- - backend/mcp_oauth.py, the authorization server, and the parts of backend/auth.py that it calls:
--   McpOauth/Registration, McpOauth/Authorization and McpOauth/Tokens are its endpoints over the
--   stores of OauthState, McpOauth/Refusals what they refuse with and the settings. What an accepted
--   request has passed is in the Checked module below each, and for the tokens in Grants, Issuance,
--   Rotation, Redemption, Replays and Endpoint;
--   Anonymous says what every request keeps. `jwt.encode`, `str.lower`, SHA-256 and the random
--   tokens are arbitrary functions of the environment, and pydantic's parsers of a registration and of
--   a URL are arbitrary functions too.
-- - backend/queries.py, the read-only queries over the graph that a session sees: Queries/Order (the orders
--   of ORDER BY, and the tag conditions), Queries/Standing (the standing questions and the listing),
--   Queries/Tree (levels of the ChildOf tree, children, edges), Queries/Related (the recursive walk of
--   `related`, round by round), Queries/JournalWindows (history and journal_since) and Queries/UserModel. The
--   collation of the database and its `lower` are parameters; where the columns of an ORDER BY tie, rows keep
--   the order of their insertion; a DISTINCT join with the edges is the rows that some edge joins. What the
--   queries answer is proved in Queries/Listing, Queries/Tree/Counts, Levels and Reached,
--   Queries/Related/Rounds, Nearest and Answer, Queries/Paging and Queries/UserModel/Evidence, Attached and Scoped;
--   Spec/Sequence proves the order of the journal's ids, on which the pages of the journal stand.
-- - backend/auth.py and backend/google_login.py: Auth/Exceptions (what they raise, and a session of their own
--   for the database), Auth/GoogleLogin (the exchange of a code for an identity), Auth/Sessions (the cookie's
--   token, the revocation list, logout, and the start of a sign-in) and Auth/Callback (the route that ends one).
--   `jwt.decode`, the answers of Google and the decoding of its id token are parameters; the base URL is a
--   setting. What they promise is proved in Auth/Sessions/Admitted, Later and Revoked, and in
--   Auth/Callback/SignedIn, Issued and Delivered.
-- - backend/rate_limit.py: RateLimit/Buckets (`_take` over the buckets, in the order of their last use),
--   RateLimit/Keys (the tier of a path, the client address, the subject of a credential) and
--   RateLimit/Middleware. The arithmetic of Python's floats is a parameter; how far it may be off is a hypothesis of
--   the budget alone. Whether an address is a trusted proxy is a parameter. The proofs are in
--   RateLimit/Buckets/Bounded, Covered and Budget, RateLimit/Keys/Addresses and RateLimit/Middleware/Earned.
-- - backend/web_view_auth.py, backend/mcp_transport.py and their order in backend/main.py: Guards, with Guards/Session,
--   Token and Authorized for what they let pass.
-- - Examples: the results at concrete inputs, and tests.
--
-- Bounds and fuel: the recursive query of the tree's guard runs on fuel, one more than the number of
-- relationships, and Service/ChildOf/Exact proves that its rounds end before; that of `related` runs on
-- its greatest depth, and Queries/Related/Rounds/Walks proves that this is enough. All other loops recur on a list.
--
-- Not modelled: requests run one after another, so the row locks, the advisory lock and the branches
-- that only a concurrent writer reaches are there as code but no interleaving is; lone surrogates in
-- text; the text of messages and logs; the HTML of the consent page, the discovery documents and the
-- bounded reading of a body; the attributes of cookies and the headers of responses; what two requests do to
-- the buckets of one process at the same time; HTTP, MCP and the migrations around these functions.
pub mod Prelude
pub mod Result
pub mod Exec
pub mod DbModels
pub mod Database
pub mod Service
pub mod Spec
pub mod OauthState
pub mod McpOauth
pub mod Queries
pub mod Auth
pub mod RateLimit
pub mod Guards
pub mod Examples
