-- ===== src/Lib.antt =====
-- The core of dsh-runtime-kit, a TypeScript library that locks, starts, drains, stops and recovers
-- instances of a workload and keeps receipts of what it did.
--
-- Parts. The runtime manager (src/manager/lifecycle.ts) owns a store of instances, journals, receipts
-- and reconciliations. A call reads a request of the control protocol (src/manager/contracts.ts),
-- looks its idempotency key up in the journal, checks the instance, asks the trust verifier, probes
-- health, runs the effect handler, and writes a receipt that is chained to the one before it. The
-- composition service (src/composition/index.ts) resolves what is locked; of it canonical JSON, the
-- versions and the version ranges are here.
--
-- Files.
--   Base: Boolean tests, lists, texts, `Check` (a validator that returns or throws a code) and tables
--     (a JavaScript Map in insertion order).
--   Manager/Value, Secrets, States, Codes, Receipts, Failures: the validators and tables of
--     src/manager/contracts.ts. Manager/Protocol and Results: the requests and results that the
--     control protocol admits.
--   Manager/Requests, Store, Chain, Journals, Replays: the parts that the handlers of
--     src/manager/lifecycle.ts share: validateCommonMutation and the functions behind it,
--     createMemoryRuntimeStore, receiptChainValid, receiptHeadValid, replayOrConflict,
--     authorizeTerminalReplay, healthDecision, receipt.
--   Manager/Runs and Mutate (mutate), Lock (lock), Query (status and doctor), Reconcile (reconcile),
--     Calls (the object that createWorkloadManager returns). A handler is a chain of stages, each a
--     function from the store to a reply and a store.
--   Manager/Trust: the documents of src/manager/trust.ts as they were read. Trust/Edge:
--     validateTransitionEdge. Trust/Walk: the loop over the transitions of a page. Trust/Pages and
--     Trust/Refresh: the page loop of refreshCurrent, whose replies of the authority are a list, one
--     for each call of readLineage. Trust/Calls: readCurrent and acceptSignedDocument. Trust/Levels,
--     Keeps, Lineage, Times and CallTimes: proofs.
--   Manager/Soundness, Chain/Walks, Chain/Extend, Chain/Fuel, Mutate/Cases, Mutate/Moves,
--     Mutate/Answers, Replay, Correlate, Harmless and Failed, Soundness/Reports and Status: proofs.
--     Manager/Examples, Tests and Witnesses: data, runs and concrete inputs.
--   Composition/Json: canonicalJson and the counters of its traversal. Json/Limits:
--     assertCanonicalByteLimit. Json/Tokens and Parser: DuplicateSafeJsonParser and
--     parseCanonicalJsonText. Json/Digests: domainSeparatedDigest. Json/Measures, Outcomes, Sorted,
--     Keys, Reordered, Readable, Steps, Loops, Literals, RoundTrip, Shrinks, Termination and the
--     children of Limits and Tokens: proofs.
--   Composition/Versions and Ranges: parseSemver, compareSemver, parseVersionRange,
--     versionSatisfies. Composition/Versions/Order, Transitive and Sets: proofs on the order of
--     versions and of comparators.
--
-- Choices. Identifiers and digests are texts; `text` measures UTF-8 bytes, as Buffer.byteLength does.
-- A request that was parsed is a record; an absent optional field and `null` are both `none` where the
-- code treats them alike. SHA-256, the semantic digest, the validators of composition documents, of
-- seals and of assertions, the trust verifier, health, the effect handlers and the time are fields of
-- `Host`: what one call finds. A sequence of calls may meet another host at each call.
-- A call of the trust verifier carries what the authority answers while it runs; the bootstrap and the
-- check of a signature are the same for all calls. The retained maps of bundles and tombstones, which
-- refreshCurrent updates in place behind its last check, are values.
-- An exception is the reply `thrown`, with the writes that were made before it. The loop along a
-- receipt chain runs on fuel, one more than there are receipts, and a walk sees no receipt twice.
-- A text of JSON is the list of its UTF-16 code units, and a number is the text that JSON.stringify
-- writes for it; Number() is a parameter. A value at depth d has 65 - d levels of room, which the
-- recursion runs on; a loop of the parser runs on one more than the length of the text that is left.
-- SHA-256 is not taken to be injective: where a collision would matter, the condition is that the call
-- has not overwritten a stored receipt by another one of the same digest.
--
-- Not modelled. Promises and the queue of `serialize` (a call is one step), freezing and cloning, the
-- frames of the control protocol, signatures, the validators of trust documents and of the authority's
-- responses (the model begins with documents that were read), and the other parts of the library.
pub mod Base
pub mod Manager
pub mod Composition
