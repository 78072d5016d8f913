-- ===== src/Lib.antt =====
-- ozon-rust-suite: what the code of the suite does, and that it is right.
--
-- The suite sells access to an assistant for Ozon shops. A cloud service (apps/cloud-api) takes
-- orders and payments, sells card keys, and gives entitlements, device activations and leases; a
-- local node runs the shop's tasks through a task engine (crates/task-engine) over the shared data
-- types (crates/domain).
--
-- Domain/Task, Domain/Account   crates/domain/src/lib.rs: records for its structs, data types for its
--   enums, `can_transition_to`, `is_write`, the making of a lease. Domain/Identity is the parsing of
--   e-mail addresses, phone numbers and Nebula identifiers.
-- TaskEngine   crates/task-engine/src/lib.rs: `TaskStore` with its task map, its index of idempotency
--   keys, its audit log, its event channel and what calls have left to do as one record; `create_dry_run`, `approve`, `cancel`,
--   `mark_running`, `mark_succeeded`, `mark_failed` as functions on it; `handle` is one call of any of
--   them. TaskEngine/* holds the theorems: the moves of a task, the invariant of the store,
--   reachability, what the events show.
-- Cloud   apps/cloud-api/src/main.rs and apps/cloud-api/migrations. Cloud/Errors is `ApiError`,
--   Cloud/Columns the text of enumeration columns, Cloud/Database the tables with the constraints that
--   an insert can violate, Cloud/Tx a transaction, Cloud/Access who a
--   request comes from, Cloud/CardKeys, Cloud/Orders, Cloud/Payments,
--   Cloud/Devices, Cloud/TestAccess, Cloud/Accounts and
--   Cloud/Skybridge the handlers of those names; their child modules hold the
--   theorems. Cloud/Service is any run of these calls, and what all of them keep.
-- Secrets   crates/secret-store/src/lib.rs: `SecretStore` as a record of operations and `IsStore`, what
--   its callers rely on; Secrets/Memory, Secrets/File, Secrets/System and Secrets/Layered are the four
--   stores, Secrets/Layered/* the theorems on the layered one.
-- Local   apps/local-node/src/main.rs. Local/Access is the checks of tokens and origins, Local/Tasks
--   the requests for tasks (over TaskEngine), Local/Leases the lease of the cloud on the device (over
--   any store that `IsStore`, and over the device identifiers of Cloud/Devices), Local/Pairing the
--   pairing of OpenClaw, Local/Schedule the schedule of product reads, Local/Video the video jobs and
--   their poller, Local/Models the choice of a model's
--   provider, Local/Matching the match of proposed attributes with Ozon's dictionary, Local/Push the
--   writing of reviewed copy; their child modules hold the theorems.
-- Common   what the source uses of Rust's strings, maps, results and of SQL statements.
--
-- What the model takes for granted. A call of the task engine holds its locks while it changes
-- the maps, so that part is one step. `mark_running`, `mark_succeeded` and `mark_failed` send their
-- events under the lock; `create_dry_run`, `approve` and `cancel` drop it first, so the writing of
-- the audit event and the sending are steps of their own, `resume`, in any order among the other
-- calls. A database transaction locks the rows that it changes, so it is one step on the whole
-- state; a transaction that fails leaves the tables as they were. Failures of the connection itself are not
-- modelled. A time is a natural number of nanoseconds, a UUID a natural number, a string the list of
-- its code points, a HashMap an association list. Where `ORDER BY … LIMIT 1` leaves a tie, the first
-- row is taken. What a clock, a generator of identifiers or a random source returns is an argument
-- (the records named …Draws), and so is the verdict of an authorisation check. Digests, password
-- hashes, UUID texts and the Unicode tables are the record `Libraries`, over whose values every
-- theorem is quantified. The text of a number is computed on fuel one above the number, which is more
-- than it has digits.
--
-- On the local node a handler, a tick of the schedule's worker and a round of the video poller are one
-- step each, but the execution of a task is two, with the pause between them; the poller's rounds let
-- other tasks change the jobs before and during the call of the provider. The loop of the poller is
-- recursion on its 120 rounds. A call of a secret store is given which calls of the file system go
-- through and whether a timeout lets its answer through, so every theorem on it is about every pattern
-- of failures; names and values of secrets are texts. RSA, base64 and JSON are the record `Crypto`,
-- the keyring of the operating system the record `Keyring`.
--
-- Not modelled. Reading a request and writing its answer, signatures and encryption, HTTP calls of
-- Stripe, WeChat Pay, SkyBridge and of the model providers, the issuing of tokens, the configuration,
-- read-only queries, the downloads: most of this is the work of other crates around the handlers. Of
-- the local node, the dialects of the video providers, the posters, the
-- relisting and the exports are left out; the moments between the locks of one handler
-- too. The connector to Ozon (crates/ozon-connector), the command-line tools, the desktop shell and the
-- web pages are programs of their own beside these.
pub mod Common
pub mod Domain
pub mod TaskEngine
pub mod Cloud
pub mod Secrets
pub mod Local
