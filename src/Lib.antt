-- ===== src/Lib.antt =====
-- AgentBnB: agents rent capabilities to each other for credits, and delegate access to their
-- resources by signed tokens. This library models the parts that decide who may do what and who is
-- paid: the UCAN tokens (src/auth) and the credit system (src/credit), with the conductor on top
-- (src/conductor), which takes a task apart, checks the parts and has other agents execute them.
--
-- The parts and how they interact. The gateway verifies the token of a request (`verifyUCAN`),
-- which consults the revocation set and the replay cache; tokens are narrowed along a chain
-- (`delegateUCAN`, `validateChain`) by the attenuation of resource patterns. A requester's credits
-- are held in escrow (`holdEscrow`), the escrow is marked while the capability runs, and in the end
-- it is settled to the provider or released to the requester. Every operation on credits first
-- resolves its owners to canonical agent ids, which moves rows between owners. A settlement also
-- numbers the provider, pays the early-provider bonus and counts the hire in the metrics. The
-- conductor validates an untrusted decomposition (`validateAndNormalizeSubtasks`, with Kahn's
-- algorithm against cycles), checks its cost against a budget, sorts the sub-tasks into rounds
-- (`computeWaves`) and executes round after round (`orchestrate`). Two agents can also converse in
-- a session (src/session), whose budget is held in escrow while the messages are charged, and the
-- relay opens and settles escrows for agents on other machines (src/relay). An agent that acts on its
-- own account (src/autonomy) stays below the limits of its owner and above its reserve, and closes
-- the escrows that it opens. The hub (src/hub-agent) calls APIs for its agents or queues jobs for agents
-- that are offline, which the relay hands over and whose responses end the jobs and their
-- escrows. Agents are registered, claimed by operators and vouched for, and sign
-- delegations, revocations and rotations of keys (src/identity).
--
-- Which file models which part:
--   Auth/Resources    src/auth/ucan-resources.ts: parseResource, matchResource, isAttenuation
--   Auth/Replay       src/auth/ucan-replay.ts: checkAndRecordJti and the eviction of entries
--   Auth/Revocation   src/auth/ucan-escrow.ts: states, expiry of bound tokens, UCANRevocationSet
--   Auth/Token        src/auth/ucan.ts: createUCAN, decodeUCAN, verifyUCAN, isExpired
--   Auth/Delegation   src/auth/ucan-delegation.ts: delegateUCAN and validateChain
--   Credit/Types, Credit/Db    the tables of src/credit/ledger.ts and the way code runs on them
--   Credit/Table, Credit/Rows  the SQL statements as functions on lists of rows, with their lemmas
--   Credit/Owner      src/credit/owner-normalization.ts, and resolveCanonicalIdentity of
--                     src/identity/agent-identity.ts
--   Credit/Ledger     src/credit/ledger.ts: grants, vouchers, providers, earnings
--   Credit/History    src/credit/ledger.ts: pages and the archive of the log
--   Credit/Metrics    src/credit/reliability-metrics.ts
--   Credit/Escrow     src/credit/escrow.ts: all operations
--   Credit/Budget     src/credit/budget.ts: the reserve of automatic spending
--   Credit/Remote     src/credit/settlement.ts: settlement between two machines
--   Conductor/Budget  src/conductor/budget-controller.ts: the cost of an orchestration
--   Conductor/Json    what `JSON.parse` returns
--   Conductor/Kahn, Conductor/Validator   src/conductor/decomposition-validator.ts: step 5 of
--                     `_validate`, and the whole of validateAndNormalizeSubtasks
--   Conductor/Waves, Conductor/Orchestrator   src/conductor/pipeline-orchestrator.ts: computeWaves;
--                     orchestrate and executeSingleTask
--   Session/Types, Session/Escrow, Session/Manager   src/session/session-types.ts,
--                     session-escrow.ts and session-manager.ts: the life of a session
--   Relay/Credit, Relay/Price, Relay/Escrow   src/relay/relay-credit.ts and relay-escrow.ts
--   Autonomy/Tiers, Autonomy/Pending, Autonomy/Consumer   src/autonomy/tiers.ts,
--                     pending-requests.ts and consumer-autonomy.ts
--   Autonomy/Scores, Autonomy/Routing, Autonomy/Request   src/autonomy/auto-request.ts: scorePeers;
--                     requestWithAutonomy up to the resolved target, and from there
--   Conductor/Teams   src/conductor/capability-matcher.ts and team-formation.ts
--   Hub/Jobs, Hub/Bridge, Hub/Executor   src/hub-agent/job-queue.ts, relay-bridge.ts and executor.ts
--   Hub/Bridge/Requests   src/relay/websocket-relay.ts: the stages, timers and disconnections of the
--                     requests of jobs
--   Identity/Agents, Identity/Operators, Identity/Guarantors   src/identity/agent-identity.ts,
--                     operators.ts and guarantor.ts
--   Identity/Delegation, Identity/Revocation, Identity/Rotation   src/identity/delegation.ts,
--                     did-revocation.ts and did-rotation.ts, over the signatures of Identity/Signed
--   Registry/FreeTier   src/registry/free-tier.ts: how often a skill was used for free
--   Prelude/Maps, Prelude/Occurrences   JavaScript maps in the order of insertion; lists by counts
--   Credit/Order, Credit/Flow   ORDER BY, and code over the credits that throws and catches
--   Credit/Supply, Credit/Run, Credit/Booked   the sum of all credits, runs that succeed, and the
--                     bookkeeping that each statement keeps
--
-- Conventions. State is passed explicitly: an operation on credits takes the database and returns a
-- result or an error code with the database afterwards, and a transaction restores the database on
-- an error. Ids are strings; URIs and tokens are lists of code units. A time is a number, which ISO
-- texts order alike; the clock and random ids are arguments. Credits are whole and not negative, so
-- that the amounts given to the operations are natural numbers, while the amounts of the log are
-- integers. The fee rate is the default of 5%, written as a division by 20, and the bonus
-- is counted in halves. Recursion is structural but for two loops, which run on fuel: that of
-- Kahn's algorithm, one for each node, and that of computeWaves, one for each sub-task. Each pass
-- dequeues a new node or removes a sub-task, so that this is enough. In JSON, numbers are whole.
--
-- Not under src/, hence parameters: base64url, JSON and Ed25519 from Node (the record `Codec`, with
-- the record `Laws` of what a round trip needs) and the resolver of public keys. The other agents,
-- the clock and the substitution of parameters in an orchestration are the record `Network`. The
-- check of a signature over a relayed escrow is a parameter of Relay/Escrow, that over a claim one of
-- Identity/Operators; those over other records of identities are the record `Scheme`, and the hash of
-- a key an argument of Identity/Rotation. GitHub and the APIs that are called are parameters of
-- Identity/Guarantors and Hub/Executor.
--
-- Under src/ but not modelled, and parameters as well: the search of cards
-- (src/registry/matcher.ts, src/cli/remote-registry.ts), the resolver of targets
-- (src/gateway/resolve-target-capability.ts), the lookup of a peer (src/cli/peers.ts), the calls of
-- peers (src/gateway/client.ts, relay-dispatch.ts) and the minting of a token
-- (mintSelfDelegatedSkillToken of src/auth/ucan.ts), in Autonomy/Request, Autonomy/Routing and
-- Conductor/Teams. The arithmetic on doubles is there the record `Double`, and the quotients of the
-- metrics are a parameter of Credit/Metrics/Rates.
--
-- Not modelled: HTTP, websockets, the command line, the user interface and storage on disk; the
-- caveats `nb` of an attenuation; the full-text search of cards; the trace and latency of an
-- orchestration; the optional package `@agentbnb/core`; the migrations of schemas.
pub mod Prelude
pub mod Auth
pub mod Credit
pub mod Conductor
pub mod Session
pub mod Relay
pub mod Registry
pub mod Autonomy
pub mod Hub
pub mod Identity
