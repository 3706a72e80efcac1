-- ===== src/Lib.antt =====
-- The verification library of Orvex: the authorization core of the backend, which decides whether
-- an AI agent's payment may go ahead, as executable definitions with theorems about them.
--
-- Parts, and the files that model them:
--   Financial (Backend/src/domain/financial/financial.service.ts): budgets and reservations.
--     Financial/Store has the rows of prisma/schema.prisma, Financial/Service one function per
--     method of `FinancialService` (ensureAccount, reserve, commit, release, reconcileRelease,
--     markUnknown), Financial/Calls the service as its clients drive it. Financial/Steps says what
--     each method does on each branch, Financial/Induction lifts a property that the writes keep
--     to every history of calls; Sums, Writes and Balance carry the exactness of the totals, as
--     long as Precision and Columns find that nothing is rounded, Budget the limit, Lifecycle the status machine, Races two overlapping commits.
--   Approval (Backend/src/approval/approval.service.ts): human approvals. Approval/Service has the
--     methods of `ApprovalService` (createRequest, approve, deny, cancel, expireStale,
--     resolveApprovalState), Approval/Branches what they do on each branch, Approval/Induction the
--     histories of calls; Answers and Evidence tie a request to its results, History follows one
--     request, Binding joins the state of an approval to the decision engine.
--   Decision (Backend/src/decision/engine.ts): Decision/Engine is `DecisionEngine.decide`, guard by
--     guard; Ladder compares it with a specification by sets of conditions, Safety says what ALLOW
--     rests on.
--   Gate (Backend/src/execution-gate/transaction-gate.ts): Gate/Contracts has the contracts that
--     the gate reads, Gate/Compare and Gate/Simulation its functions, Gate/Matching the meaning of
--     MATCH.
--   Policy (Backend/src/policy): Policy/Rules has the rules and the context of rules/types.ts,
--     Policy/Evaluators and Policy/Limits the evaluators of rules/evaluators.ts, Policy/Engine
--     `PolicyEngine.evaluate`; Status is about the status of an evaluation, Limited about single
--     rules and rule sets.
--   Versions (Backend/src/policy/policy.service.ts): Versions/Store has the rows
--     and the queries, Versions/Service the methods of `PolicyService` (createDraft, validate,
--     simulate, approve, disable, activate), Writes says how they change the number of active
--     versions, Activation and Calls are about histories.
--   Idempotency (Backend/src/domain/financial/idempotency.service.ts): Idempotency/Service has the
--     methods of `IdempotencyService` (register, complete, fail), with the hash as a parameter;
--     History follows a key.
--   Authority (Backend/src/domain/{companies,agents,constitutions,capabilities}): who may do what.
--     Authority/Store has the rows, Authority/Agents the methods of `CompanyService` and
--     `AgentService`, Authority/Constitutions those of `ConstitutionService`, Authority/Capabilities
--     those of `CapabilityService` (createCapability, getActiveCapabilities, validateCapability,
--     revokeCapability, expireCapabilities), with its checks in Authority/Limits and
--     Authority/Checks. Containment says what the terms of a capability permit, Creation and
--     Creating what a new row has passed, Marks what a change of status leaves, Delegation follows
--     histories of calls, Ancestry chains of parents, Validity is about single capabilities,
--     Activation about the ACTIVE constitution.
--   Execution (Backend/src/execution-gate/final-revalidation.service.ts and
--     execution-result.service.ts): Execution/Store joins the tables of the services into one
--     `World`. Execution/Context, Execution/Derivation and Execution/Revalidation are `revalidate`,
--     step by step: what it reads, what it derives for the decision, and what follows;
--     Authorization says what its ALLOW rests on, Uniqueness is about the requests it makes,
--     Approved about the context hash of an approval. Execution/Results has the methods of
--     `ExecutionResultService` (ingestResult, reconcile, verifyAndFinalize); Calls and Histories
--     are about histories of them, Settlements and its modules about the call of the financial
--     service that each amounts to, Receipts and Payment about the commit of a verified receipt.
--   Trajectory (Backend/src/trajectory/trajectory.service.ts): Trajectory/Service has the methods
--     of `TrajectoryService` (createTrace, appendEvent, getEvents, verifyChain, completeTrace);
--     Chain is about one chain of hashes, Traces and Appends about the writes, History about
--     histories of calls.
--   Chain (Blockchain/src/shared/money.ts): Chain/Money has `toBaseUnits` and `fromBaseUnits` on
--     texts as lists of character codes; Numerals is about texts of decimal digits.
--   Errors (Backend/src/shared/errors): the error codes and what `CoreError.of` derives from them.
--   Shared: Prelude (tests, lists, integers and texts), Outcome (methods that throw, over a
--     database, and transactions that roll back), Table (a table as the list of its rows),
--     Runtime (third-party code as interfaces).
--
-- How they interact: the gate's result, the state of an approval and the policy's status are
-- inputs of the decision engine; the engine's ALLOW is what lets a reservation be made and later
-- committed. Approval/Binding and Policy/Status join approvals and policies to decisions.
-- `revalidate` reads the tables of Authority, Versions and Approval, asks the policy engine, the
-- gate and the decision engine, and on ALLOW calls Idempotency and Financial; the methods of
-- Execution/Results then settle the reservation by calls of Financial.
--
-- State and operations: a method of a service is a function from its arguments and the store to
-- its outcome and the new store; a `CoreError` is the outcome `err (core code)`. A call takes place
-- whole, before the next one. Only the methods of `FinancialService` lock a row, that of the
-- account; for all others, and for what those read before the lock, this takes calls that do not
-- overlap. Financial/Races is about two calls that do, and Idempotency has the insert that another
-- one overtakes. Clocks are arguments. Ids are numbers that are only compared, where the code has uuids; a
-- new row takes the next one. Money is `Decimals`, an interface with the laws of decimal.js on
-- numbers of at most eighteen fractional digits: comparisons are exact, sums and differences are
-- exact where the result has no more than twenty significant digits, the precision that the code
-- leaves at its default, and otherwise any number. Runtime/Whole is an instance on the integers
-- for the examples. Loops are over lists; only the digits of a number are written on fuel, one more
-- than the number, which is enough as every step divides it by ten.
--
-- Not modelled: the texts of messages and reasons (but for those of the policy rules), error
-- details, numbers of more than eighteen fractional digits or more than 38 digits (which a money
-- column rounds or refuses), rule types named like a member that every JavaScript object has (which
-- the lookup of an evaluator would find), sha256Json (contextHash, transactionPayloadHash and the other hashes are parameters),
-- the create race that a unique constraint settles in ensureAccount's catch, columns that are only
-- stored, the answers of the execution client (parameters), and the parts of the backend and of
-- the chain layer that have no file here (audit, ingestion, orchestrator, intake, HTTP, frontend,
-- the rest of the Blockchain folder).
pub mod Prelude
pub mod Errors
pub mod Outcome
pub mod Table
pub mod Runtime
pub mod Financial
pub mod Gate
pub mod Policy
pub mod Versions
pub mod Idempotency
pub mod Authority
pub mod Chain
pub mod Execution
pub mod Trajectory
pub mod Decision
pub mod Approval
