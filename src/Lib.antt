-- ===== src/Lib.antt =====
-- LaunchProof: services are rehearsed against their signed Launch Contract, the result is published
-- as a Passport on a chain, and clients ask a gate whether a Passport may be relied upon.
--
-- Parts, and how they interact. The backend keeps runs, payments and their bindings in a store
-- (backend/src/db/store.ts); a rehearsal compares the outputs of a service with its contract
-- (backend/src/assertions/engine.ts) and ends in gates, a status and a bitmap
-- (backend/src/domain/gates.ts). The package packages/passport-gate turns the proof of a Passport
-- into a decision; its bitmap is the one of the backend. The service of the gate
-- (backend/src/passport-gate/service.ts) builds that proof from a verification on the chain. Writers
-- of the backend act only while a coordinator (backend/src/leadership/leader.ts) holds a lock.
--
-- Shared: text, the Boolean tests, equality as an interface, lists and maps, integers. A text is the
--   list of its UTF-16 code units; a JavaScript `Map` is an association list in insertion order.
-- Domain: backend/src/domain/types.ts and gates.ts, and the shape of a contract of
--   backend/src/launch-contract/schema.ts. `Domain.Gates` has gateBitmap, passportStatus and
--   contractStatus.
-- Assertions: backend/src/assertions/engine.ts, with decimalCents, evaluateAssertions,
--   compareChallenge and overallClassification.
-- Store: `MemoryRepository` of backend/src/db/store.ts. `Store.State` has its maps; `Payments`,
--   `Capacity`, `Lifecycle` and `Queries` its methods, named as in the source in lower case with
--   underscores; `Steps` has a data type with a constructor for every method that changes state,
--   and runs sequences of them. A method that throws returns `err` with the state it leaves behind.
--   Each method is one step. The authorization lock makes it so among the methods that take it;
--   a method that does not take it may run while authorizeRun waits for savePayment, and the run
--   that authorizeRun then writes is the one it read before. Such interleavings are not modelled.
-- PassportGate: packages/passport-gate/src. `Types`, `Primitives`, `Validation`, `Settlement`,
--   `Amounts`, `Engine` and `Evaluation` follow its files; `Evaluation` has one function for each
--   stage of evaluatePassportGate. `Platform` is the record of what the package calls and does not implement.
-- GateService: backend/src/passport-gate/service.ts. `World` has what a check reads from elsewhere,
--   `Proof` proofFromVerification and settlementProof, `Current` the load of the current contract,
--   `Request` the schema of a request and the operational codes, and `Check` the method check, with
--   one function for each stage. `Target` says of the parts of a URL what its normal and its public form are.
-- Patterns and Schema: the regular expressions of the runtime that the program uses, and
--   safeUseClaimsValid of backend/src/launch-contract/schema.ts.
-- Evidence: backend/src/evidence/validate.ts, after the evidence and its contract are parsed.
--   `Recompute` reads the invocations, `Discovery` the declared tool, `Payments` the payments and
--   fixtures, and `Validate` has validateCanonicalEvidence.
-- Registry: backend/src/chain/registry.ts. `Client` has the types and the client of the chain,
--   `Search` firstBlockAtOrAfter and the ranges of getLogsChunked, `Match` the comparisons, `Logs`
--   the lookup of events, `Events` where an event that is found comes from, `Load` the method load with one function for each stage, and `Verify`
--   verifyStrict, verify and readPublishedRun. The two requests of a `Promise.all` are made one after
--   the other, so that of two errors the first request's is taken. `Gate` puts it under the service of the gate.
-- Leadership: backend/src/leadership/leader.ts. `Coordinator` has LeaderCoordinator, with a task for
--   every await and a process of waiting tasks; `Guard` the constant guards.
--
-- Bounds and conventions. Every loop of the modelled code is over a list. The decimal digits of a
-- number n are written on fuel, which is n + 1 and more than they are; a repetition in a regular
-- expression and a replacement run on the length of the text, of which each round takes some. The
-- search of a block runs on the number of blocks, which each round lowers, and the list of ranges
-- too.
-- The clock is read once in each method and is an argument. Timestamps are compared as texts, and
-- `localeCompare` on them is the order of code units. Lower case is that of ASCII letters. Hours are
-- counted in milliseconds, without the rounding of a division. A number of JSON is a decimal.
--
-- Not modelled: the SQL repository, the HTTP and MCP servers, the RPC calls and other I/O, the
-- frontend, the registry contract in Solidity; and, so far, the worker, publishing and
-- indexing on the chain, the payment policies, the schemas of contracts and evidence, and the
-- checks of target addresses. `Digests` and `Loading` stand for the reading of evidence and of a
-- contract by their schemas.
pub mod Shared
pub mod Domain
pub mod Assertions
pub mod Patterns
pub mod Schema
pub mod Leadership
pub mod Store
pub mod PassportGate
pub mod GateService
pub mod Evidence
pub mod Registry
