-- ===== src/Lib.antt =====
-- Verification of laas, a custodial Lightning service in Rust: the crate `app` holds the service, the
-- crate `api` the HTTP layer, and `src/main.rs` starts both.
--
-- The parts, the files that model them, and the code they model:
--   Btc            app/src/btc.rs: amounts and transactions
--   CashLimits     app/src/cash_limits.rs: `CashLimits::check`
--   Concurrency    app/src/concurrency.rs: `retry_loop`, over a state that the calls share
--   Database       app/src/database/migrations/m0000_init.rs: the tables; Database.Transactions has
--                  transactions, Database.Sums the daily totals, Database.Migrations the runner of
--                  migrations/mod.rs, Database.Seeder seeder.rs
--   Balance        app/src/balance: `Balance` and `Reservation`; Balance.Queries has `get`, `update`,
--                  `upsert_reservation` and `get_reservation`
--   Auth           app/src/auth: tokens, permissions and grants
--   User           app/src/user
--   Deposit        app/src/deposit: `Address` and `Deposit`; Deposit.Queries has the queries,
--                  Deposit.Addresses the calls of the routes, Deposit.Listener the listener,
--                  Deposit.Worker the worker that runs it
--   Payment        app/src/payment: `Payment`; Payment.Rows has the queries, Payment.Service `send`
--                  with its two loops
--   Invoice        app/src/invoice: `Invoice`; Invoice.Rows has the queries, Invoice.Service `create`,
--                  `complete` and the handling of a settled invoice, Invoice.Worker the worker
--   Withdrawal     app/src/withdrawal: `Withdrawal`; Withdrawal.Rows has the queries,
--                  Withdrawal.Service `start`, the sender and the listener,
--                  Withdrawal.Worker the workers that run them
--   Chain          app/src/chain.rs: the worker that shows every output to a listener
--   Worker         app/src/worker.rs: the loop that runs a worker, and `swallow_panic`
--   Ln             app/src/ln: the node; Ln.Payments pays and probes, Ln.Transactions reads and sends
--                  transactions, Ln.Invoices has the status of an invoice and the stream,
--                  Ln.Connection the connection and the verifier of its certificate
--   Lists          `QueryRange` of app/src/lib.rs and the list queries of the services
--   Api            api/src: Api.RateLimit is rate_limit.rs, Api.Access is access.rs and Api.OpenApi
--                  its descriptions, Api.Errors is error.rs, Api.Range is routes/mod.rs;
--                  Api.Payments, Api.Invoices, Api.Withdrawals, Api.Deposits and Api.Users are the
--                  files of routes
--   Server         src/main.rs: the configuration and the start of the server, with api/src/lib.rs and
--                  state.rs
--   Ledger         an abstract description of the funds of all users, no code
--   System         the committed transactions of app/src on one shared database, and that they
--                  implement the ledger; System.Calls has the whole calls of the services
-- Base has the shared helpers, Int the signed integers, Tests the examples.
--
-- How they interact: a route asks a guard (Api.Access) for a grant (Auth), within the rate limit, and
-- calls the service with it. The services keep their entities as rows of the database. All funds of a
-- user are the balance of the row in `users`; it changes by `Balance.Queries.update` only, a
-- compare-and-swap on the amount that was read, which fails with a conflict that `retry_loop` tries
-- again. Payments and withdrawals take funds by a reservation, which is debited or refunded once.
--
-- How the code is modelled:
--   - Ids, times, addresses and transaction ids are numbers that are only compared; times are in
--     microseconds. A text column that holds an address or a transaction id holds the value itself.
--   - `i64` is an integer with the wrap-around of a release build, which the Dockerfile makes; `usize`
--     and `u32` have theirs written out.
--   - A panic is the value `panic` of `Outcome`. What a call has changed in shared memory before a
--     conflict stays; its transaction is rolled back.
--   - Transactions run at the isolation READ COMMITTED. `Surroundings` gives what other transactions
--     commit at up to two places of a call, a fresh id and the time.
--   - In System a transaction may have read any earlier state of the database: other transactions, of
--     any kind, may have been committed between its reads and its writes.
--   - Rows of one time in a list keep the order of their table; PostgreSQL leaves that order open.
--   - LND, its gRPC client and the BOLT11 parser are the record `Lnd`; the SHA-256 digest of a token
--     is the parameter `token_hash`; the text of an id is the parameter `label`; the parsers of ids
--     and of addresses in a request are the parameters `parse_uuid` and `parse_address`. rustls, the
--     files and what the endpoint of LND presents are the record `Tls`; what the program is started in
--     is the record `Machine`.
--   - Of the constraints of the schema, the primary keys and the unique indexes that the code can meet
--     are modelled; foreign keys, the range of `INT` columns and the blocking of row locks are not.
--
-- Bounds: the retry loop makes at most ten calls, and a probe five rounds, as in the code. A run of the
-- chain worker is given a number of turns, and Chain.Termination says how many are enough; the loop of
-- a worker is looked at for a number of rounds. The chain of the node may grow from one turn of the
-- chain worker to the next; within a turn it stands still. The search for a transaction by month runs
-- over at most 500,000 months, more than fit into `i32`, where the code panics.
--
-- Not modelled: the durations of the sleeps, the JSON of the answers and the registration of the
-- routes, the pool of connections to the database and the logging.
pub mod Base
pub mod Int
pub mod Btc
pub mod CashLimits
pub mod Concurrency
pub mod Database
pub mod Balance
pub mod Auth
pub mod User
pub mod Api
pub mod Deposit
pub mod Ledger
pub mod Ln
pub mod Payment
pub mod Invoice
pub mod Withdrawal
pub mod Worker
pub mod Lists
pub mod System
pub mod Server
pub mod Chain
pub mod Tests
