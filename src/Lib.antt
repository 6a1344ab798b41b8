-- ===== src/Lib.antt =====
-- Verification of the backend of a ride platform (api-server): the life of a ride from the search
-- of a driver on, the prepaid credits that drivers pay it with and how they are bought, the money
-- behind them, and signing in.
--
-- The parts. A customer books a ride; the matching engine and the negotiation bring it to an agreed
-- fare, which charges the driver one credit; the trip then runs to its completion or is called off,
-- where a blameless driver gets the credit back and whoever cancels too often is banned. A ride is a
-- row in Postgres, what is live about it is in Redis, and nothing keeps the two together but the code.
--   * Base, Float, Geo: shared notation, the result of a failing call with the state it leaves
--     (Base/Action), the errors of pkg/errors/errors.go, Go's floats as a parameter, pkg/geo/geo.go.
--   * Fare: internal/fare/engine.go (Calculate, isNight, CancellationFee).
--   * Status: internal/ride/statemachine.go, with the runs of its table in Status/Paths.
--   * Packages: internal/packages/ledger.go. Types has the tables, Entries the rows that are written,
--     Ledger grants, deductions and refunds, Service LedgerService with the free trial, Sweep
--     SweepExpired; History has whole sequences of calls.
--   * Ride: internal/ride. World has the row, the tables, the Redis keys and what is taken from
--     outside; Repo the statements of repository.go and idempotency.go; Redis, Credit, Penalty, Cancel,
--     Trip, Completion and Booking the functions of service.go; Lifecycle sequences of calls. A Go
--     method `DoThis` is `do_this`; a part of one has a name of its own and says so.
--   * Negotiation: internal/negotiation (fare_bounds.go, the rounds of repository.go, and Propose,
--     Accept, LockManualFare and Decline of service.go), on top of Ride, whose calls it makes.
--   * Matching: internal/matching/engine.go, on top of Ride. Scene has the candidates and what a search
--     takes from outside, Order sortCandidates, Search searchCandidatesWithRadius and the fallback to
--     PostGIS, Offer offerToDriver, giveUp and the signals of drivers, Loop runLoop. `sent` records who
--     was asked, which the code does not keep.
--   * Journal: internal/ledger/ledger.go (Post, RevenueBetween).
--   * Wallet: internal/wallet; Mutate is `mutate`, Service the operations on top of it.
--   * Purchases: internal/packages/purchase.go, on top of Packages and Journal. Shop has the rows, Offer
--     resolveOffer, Buy Create, proofs and the ways past the gateway, Confirm the settlement of a
--     payment, Reconcile the polling of payments.
--   * Auth: internal/auth. World has the tables, Repo repository.go, and Otp, Tokens and Service the
--     one-time passwords, the sessions and the ways to sign in of service.go.
--
-- How it is modelled. A call takes a state to a result and the state that it leaves; what it wrote
-- before an error stays, but for a database transaction, which is undone. A call of the ledger
-- takes the statements that fail while it runs, one of the service an environment with the
-- settings, the failing statements, whether Redis answers, the pricing table and PostGIS. A float
-- that is written to a DECIMAL column of a ride or of a round is what Postgres gives back for it,
-- which is a field of the environment too. The sweep of expired credits takes failing statements of
-- its own for each row. A failed Redis command does nothing, as the code logs and forgets it; in
-- Auth some end the call. bcrypt, the signer of tokens, fresh ids, the payment gateway and the
-- provider of codes are fields of the environments. Ids are numbers. Times are numbers of seconds
-- in the ledger and of nanoseconds in the service. The balances of ride credits are integers
-- without a bound; a wallet's balance (int64) and the totals of an entry in the journal (uint64
-- arithmetic) wrap around as in Go. The loops run over lists, those of a search over its candidates
-- and over the number of its attempts, so no fuel is needed. A call runs as a whole, except the
-- negotiation timer, whose two halves are calls of their own, and a search, where others may change
-- the state while it waits for a driver and between two attempts.
--
-- Not modelled. Messages, pushes, logs, analytics, HTTP and the SQL text; the expiry of Redis keys,
-- so that a counter or a lock is there until it is deleted; wrap-around of Go's int elsewhere; two
-- database transactions at the same time (the rows are locked). Profiles, incidents, tickets,
-- ratings, bonuses, the catalogue of packages, telephony, finance and the administration are other
-- parts, or input and output.
pub mod Base
pub mod Float
pub mod Geo
pub mod Fare
pub mod Status
pub mod Packages
pub mod Ride
pub mod Negotiation
pub mod Matching
pub mod Journal
pub mod Wallet
pub mod Purchases
pub mod Auth
