-- ===== src/Lib.antt =====
-- Verification of the cursor gateway: the life of a run in the database, the pairing of devices, the
-- encrypted history, the state machines of its clients, and the concurrency primitives and the
-- protocol helpers of the csapi facade.
--
-- The gateway queues the prompts of its users as rows of the table `runs` in PostgreSQL. Runners
-- claim the rows under a lease, report progress and finish them; callers cancel, delete and restore
-- them; a sweep expires those of the csapi principal. Plaintext and encrypted runs share the table
-- and the execution budget. Clients poll the runs, and the csapi facade orders its requests.
--
-- The parts, their files here, and the code that they model:
--   Base, Table       shared tests, lists and options; a table as the list of its rows, with
--                     `update ... where`, `order by ... limit 1`, counts and a primary key.
--   Run               the tables and their columns, and in Run/Migrate the updates of `runs` at each
--                     start of the server (apps/server/src/db.ts, `migrate`).
--   Run/Queue         createRun, claimNextRun, approveRun, and in Run/Queue/Recover
--                     recoverStaleRuns (apps/server/src/db.ts).
--   Run/Lease         renewRunLease, updateRunProgress, finishRun (apps/server/src/db.ts).
--   Run/Deadline      cancelRun, expireCsapiRuns (apps/server/src/db.ts) and the decision of
--                     apps/server/src/csapi/runTimeouts.ts.
--   Run/Trash         softDeleteRun, softDeleteConversation, restoreRun, restoreConversation
--                     (apps/server/src/db.ts).
--   E2ee              the encrypted repository, apps/server/src/e2eeDb.ts: E2ee/Submit for
--                     createE2eeRun; E2ee/Submit/Approve for submitE2eeApproval, cancelE2eeRun;
--                     E2ee/Work for claimNextE2eeRun, updateE2eeProgress, renewE2eeLease,
--                     finishE2eeRun, rejectE2eeRun; E2ee/Scrub for scrubLegacyData.
--   Life              the above together: any sequence of them, the invariant of the table, the
--                     status diagram; Life/Events adds the scrubbing and the migration.
--   Polling           createRunPollingLoop (packages/shared/src/runPolling.ts).
--   Flow              transitionFlow and its steps (apps/secure-web/src/flowMachine.ts).
--   Sessions          SessionSerializer and KeyConcurrencyLimiter
--                     (apps/server/src/csapi/concurrency.ts).
--   History           truncateConversationHistory (apps/server/src/history.ts).
--   Text              texts as lists of UTF-16 code units, and the string methods of the source.
--   Facade            apps/server/src/csapi/protocol.ts: Facade/Keys for API keys, Facade/Messages
--                     for messages and session keys, Facade/Prompt for buildPrompt, Facade/Stream
--                     for chunkText and the response and frame builders, Facade/Models for
--                     buildModelsResponse.
--   Pairing           the pairings by mail and the devices (apps/server/src/pairingDb.ts), with the
--                     check of the address in Pairing/Recipient
--                     (apps/server/src/pairingRecipient.ts):
--                     Pairing/Stages and Pairing/Statements up to the completion, Pairing/Register
--                     for the acknowledgement and the devices.
--   Access            waitForStableAccess (apps/secure-web/src/accessRetry.ts).
--   Relay             appendRelayMessage and listRelayMessages
--                     (apps/server/src/csRelayHistory.ts).
--   Waiters           the long-poll waiters (apps/server/src/runWaiter.ts).
--   Tests             concrete runs of the above.
--
-- A repository function is a function from the time and the store to the store and the answer, with
-- the `where` clause of each statement as a Boolean test of a row and its `set` clause as a change
-- of a row. Ids, keys and leases are numbers, which the code only compares; a uuid that the database
-- makes is an argument; timestamps are milliseconds. A call that throws leaves the store as it was.
-- Calls run one at a time, in the order in which they commit, as the advisory lock and the row locks
-- of the source make them, but for the claim of an encrypted run: its one statement takes the lock
-- itself, so that it reads the snapshot from before it waited. The claim has that snapshot for an
-- argument, which may be any store; PostgreSQL checks the locked rows again on their current versions.
-- The rows that `skip locked` passes over are not modelled. All functions are total: most
-- loops are by recursion on a list. `chunks_from` has the length of its text for fuel, the wait for
-- a login one pass more than its attempts, and a client that reads pages one request more than there
-- are messages: each is shown to be enough.
--
-- Not modelled: HTTP routes, cryptography, user interfaces, processes and services; the other pairing
-- repositories; error objects and the text of server-sent events; the random delay of the wait for a
-- login, and a probe that never settles; the keys of the relay history; the automation threads; the
-- scrubbing of memory facts; a unique violation that a restoration raises; callbacks of the poller
-- that call it again or throw. The timeout decision reads the timestamps of the row, which the source
-- has cut to milliseconds.
pub mod Base
pub mod Table
pub mod Run
pub mod E2ee
pub mod Life
pub mod Polling
pub mod Flow
pub mod Sessions
pub mod History
pub mod Text
pub mod Facade
pub mod Pairing
pub mod Access
pub mod Relay
pub mod Waiters
pub mod Tests
