-- ===== src/Lib.antt =====
-- codex_balancer: a model of the core of codex-balancer, with its proofs.
--
-- The program is a proxy that spreads Codex requests over a pool of accounts. An account carries its
-- stored credentials and settings together with what the server learnt of its quota; routing takes a
-- snapshot of the pool and chooses an account for a request; the registry of route claims keeps
-- requests of one thread or session on one account until a durable owner is recorded; the store is the
-- durable side of the pool; gates bound what is in flight. A relay passes the messages of a client on
-- to the chosen account; a single flight refreshes its tokens; the statistics count turns, sockets,
-- credits and the cost of usage.
--
-- Files and the code that they model (paths from the repository's root, all in internal/app):
--   Prelude      shared types, tests on numbers, lists, the scan for a best element, float64 values
--   Account      account.go, usage.go, and the account's methods in pool.go, client_usage.go and
--                credit_routing.go; Window is `window`, Quota the credits, spend control and banked
--                resets, State the account object, Usage the observations; Cooldown, Adoption, Resets
--                and Cycle prove
--   Routing      Candidate and Select are routingCandidate and selectFreshAccount of pool.go, Route is
--                Pool.route, cooldownRecovery of routing_retry.go and pickAccount of logging.go;
--                Select/Order, Select/Best, Select/Permute, Route/Owners, Route/Safety, Route/Affinity,
--                Route/Recovery and Status prove
--   Claims       route_claims.go: Registry the data and key maps, Select the selections, Lifecycle the
--                other methods; Keys, Invariant, Preservation, Selection, Pinning,
--                Handles, Invalidation, Barriers and Reach prove
--   Pool         Changes are the changes that pool.go makes of the stored accounts, Reconcile is
--                pool_store.go; Changed and Reconciled prove
--   Ledger       credits.go: the routed credits with their running totals; Totals proves
--   Pricing      pricing.go: Usage the token counts and their cost, Tier the service tiers of models.go,
--                Estimate the price snapshot; Matching and
--                Chosen prove
--   Stats        stats.go: Rolling is rollingCounter, Credits the estimate of credits in credits.go,
--                Months monthUsage, Thread threadStats, State, Threads and Usage the operations of
--                Stats, Snapshot what a snapshot changes, Reach their steps; Window, Recent, Sums,
--                Invariant, Reached, AccountCosts, Agreement, Repriced, Kept and Live prove
--   Refresh      Finish is finishRefresh of account.go, Flight refreshOwned of account_refresh.go,
--                Callers its interleavings; Invariant proves
--   Relay        websocket_relay.go: State what it keeps, Downstream the client's messages, Rejection and
--                Upstream the upstream's, with the turns of responses_accounting.go; Writes, Flow,
--                Upheld, Order and Verdict prove
--   Models       models.go: Catalog what is known of the accounts' models; Allowed proves
--   Admin        Login is allowLogin of admin_auth.go, with its proof
--   Server       admission.go, refresh_operations.go, context_mutex.go and active_websockets.go, each
--                with its proofs
--   Examples     the theorems at concrete inputs
--
-- The relay gets the answers of the rest of the server as arguments and keeps its calls as effects.
-- A Go struct is a record, a method that mutates its receiver returns the new record, and a mutex makes
-- a method one step; Step in Claims/Reach, Stats/Reach and Refresh/Callers, Admits in
-- Server/Admission and Runs in Server/Refresh and Relay/Order are the interleavings. A pointer to a
-- claim is the claim's id, one to an operation a number. Maps are association lists or functions.
--
-- Times are natural numbers of nanoseconds since Go's zero time, so that a subtraction that would pass
-- below it stops there. A float64 is a fixed-point number of millionths, NaN or an infinity: rounding
-- is not modelled. Durations in minutes wrap at 64 bits. Ids of claims wrap at 64 bits, and a step that
-- selects assumes that the counter has room. All recursion is structural: no fuel is used.
--
-- What JSON, base64 and SHA-256 compute is the record Tokens, and the calendar of the local zone the
-- record Calendar, both instance arguments; the masking of emails in events is a function. Not
-- modelled: HTTP, websocket connections, the loop and the timers of the relay, the SQL store,
-- rendering, logging, the login flows, the fetching of the catalogues of models and prices, what a
-- snapshot of the statistics copies out, and the exchange of a refresh token. The comparison of
-- client versions in models.go, the fast mode of settings.go, the HTTP side of responses and the log
-- rotation are left out as well.
mod Prelude
pub mod Account
pub mod Routing
pub mod Claims
pub mod Stats
pub mod Refresh
pub mod Relay
pub mod Admin
pub mod Models
pub mod Pool
pub mod Pricing
pub mod Ledger
pub mod Server
mod Examples
