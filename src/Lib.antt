-- ===== src/Lib.antt =====
-- The payment engine of corridor-in-a-box: a library that moves money through a corridor, from a
-- quote of the receiving anchor to the payout that the anchor confirms.
--
-- The program. A corridor is described by a manifest (packages/manifest). `execute` of
-- packages/engine/src/run.ts takes a payment intent through the states of
-- packages/engine/src/state.ts: it is admitted, its key is claimed in the store of runs, an adapter
-- is asked for a quote, a KYC decision and an open transaction, a gate is asked before the money
-- moves, a strategy pays, and the anchor is polled until it has paid out. A run that fails is
-- refunded, held for an operator, or marked as failed, by the manifest's policy; a run that stopped
-- in between is resumed from its stored row. A circuit breaker halts a lane that keeps failing.
--
-- The model. Base has the shared names. Types, Outcome, Anchor and Corridor are the data of
-- packages/types/src/index.ts, packages/adapter-kit/src/index.ts and
-- packages/manifest/src/index.ts. Money is packages/types/src/money.ts, amounts as decimal text
-- (code points) over integers that do not overflow, as BigInt. State is state.ts, Breaker is
-- breaker.ts with the upsert of breaker-pg.ts, Idempotency is idempotency.ts with the upsert of
-- idempotency-pg.ts, Verbs is verbs.ts with the settlement strategies of ports.ts, Compat is
-- compat.ts, all in packages/engine/src. Liveness is packages/manifest/src/liveness.ts. Engine is
-- run.ts: Engine itself has the ports and the monad, Admission the guards of `execute`, Context
-- `createRunContext` and `failRun`, Refunding `refundAndStop` and `finishFailure`, Funding the
-- source deposit, Settling the settle loop, Fresh the rest of a new run, Resume `resumeRun`, and
-- Execute the entry point. Engine.Gate is packages/engine/src/gate.ts with the check of
-- quoteWindow.ts; the engine takes any gate, this one or another.
--
-- Json is the value that `res.json()` gives. AdapterKit has the parts of packages/adapter-kit/src
-- that the adapters share: Http their calls of `fetch`, Sep10 sep10.ts, Sep12 sep12.ts, Quotes the
-- quote providers and Refunds `parseRefunds` of index.ts. Sep31 is packages/sep31/src: Status the
-- vocabularies of both adapters, Records and Adapter the state and the methods of `Sep31Adapter`,
-- Checks the pre-settle checks of index.ts, openedTxCheck.ts and amountRangeCheck.ts. Sep6 is
-- packages/sep6/src/index.ts: Info the reading of /info, Records the state and the reading of a
-- transaction, Quote and Adapter the methods of `Sep6Adapter`. Stellar is
-- packages/stellar/src/index.ts: Facts the verifier of a settled transaction, Payments the listing
-- of payments and `findExisting`, Confirm the polling for a transaction, Submit the submitter and
-- the path of a path payment, Strategies the strategies for path payments and claimable balances,
-- Checks the checks of balance and destination. Router is packages/router/src: adapters.ts, the
-- resolvers of index.ts and registry-resolver.ts. A constructor, a field or a function has the name
-- of the source, in snake case.
--
-- How the code is read. A step of a run is a function from the world to an answer and a world. The
-- world has the stored rows, the run in memory, its trail, and a log of what the run did outside: a
-- payment, a refund, a gate's answer, a write, an audit entry. A port (an adapter, the chain, the
-- clock) is a function of the number of its call, so it may answer every call in its own way, and
-- what concurrent callers do to the store before a claim is any function. A return from the middle
-- of `execute` is the answer `done`; the answer `more` goes on. Times are milliseconds and never
-- negative. An error is its code, its `retryable` flag and its cause, without its prose.
--
-- An adapter's method is a function from a client, which has the requests that were sent and the
-- SEP-10 session, to an outcome and a client; `Net` has what it runs on: `fetch`, the clock, the
-- signer, the claims of a token, and `Date.parse`, each any function. An answer is JSON whose
-- numbers are opaque, upper and lower case are those of ASCII letters, and a quote is read at the
-- type that the code casts it to. What Horizon answers is a parameter in the same way: a page of
-- payments by its number, a poll by its number, the end of a submission, and the re-encoding of a
-- hash memo. A check is a function of what the adapter or the inspector answered.
--
-- The proofs. Engine.Protocol has a view of a run and the steps that it may take in it. A payment
-- is a settle call with any answer but a failure that may be tried again: it went out, or may have,
-- where such a failure is taken to have left nothing on the chain, as the submitter's is proved to.
-- It is a step only in `settling`, behind a gate that passed, and with the row written.
-- Engine.Protocol.Rules has a rule for each operation of the monad, the modules Kept go through the
-- code by these rules, and Engine.Safety puts them together for `execute`.
-- Engine.Protocol.Invariants is by induction on the steps, and Engine.Protocol.Crashes reads off
-- the log what a call that is cut off leaves behind: a crash is a log that stops behind an effect,
-- with the row that was written last.
--
-- Fuel. `settle_loop` has one round more than the policy's retries, the most that `recover` grants.
-- The polling loops take a fuel of their own, one for each poll, and answer `none` if it runs out
-- while they still poll; a run then stops as `out_of_fuel`, with what it has written so far. The
-- polling for a transaction on chain does likewise, and one round for each second of its timeout
-- and one more is enough. The listing of payments recurses on its budget of pages.
--
-- Not modelled. Spans, metrics of transitions, log texts and request scopes of run.ts have no
-- influence on a run. A wake signal only shortens a sleep, which the clock covers. Thrown
-- exceptions are modelled for the resolver and the gate, which the source catches, and for the gate's
-- verdict without a failed check, on which `execute` itself throws and the run ends as `thrown`, and
-- not for the other ports. Hashing, YAML, HTTP and the Stellar SDK are third-party code, reached only through
-- parameters. Signers, the building of transactions and memos, and the lock around a submission of
-- packages/stellar, the attester's client and the event history of the registry, the probe, the
-- service and the command line are not in the model yet; the contracts are in another language. The
-- engine takes any ports; that the submitter and the adapters here are such ports is not stated.
pub mod Base
pub mod Types
pub mod State
pub mod Anchor
pub mod Corridor
pub mod Outcome
pub mod Money
pub mod Breaker
pub mod Idempotency
pub mod Verbs
pub mod Liveness
pub mod Compat
pub mod Engine
mod Tests
pub mod Json
pub mod AdapterKit
pub mod Sep31
pub mod Stellar
pub mod Registry
pub mod Router
pub mod Sep6
