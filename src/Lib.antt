-- ===== src/Lib.antt =====
-- The copy-trading bot for concentrated-liquidity positions on Solana: a model of its core and the
-- theorems that it satisfies.
--
-- The bot follows wallets. Each new transaction of one is put into a queue that runs one operation
-- at a time (src/index.ts, src/executor/queue.ts); the operation reads it into events
-- (src/monitor/parser.ts) and handles them one after another (`handleEvent` of src/index.ts): it
-- opens, changes and closes the bot's own positions, and says so in a log
-- (src/state/activity-log.ts). Which position copies which is kept in a map
-- (src/state/position-map.ts), and tokens that a close brought and that are still to be swapped are
-- kept per mint (src/state/pending-swaps-store.ts, with src/executor/byreal-position.ts). All of
-- them keep their state in memory and persist each change through a chain of writes
-- (src/state/write-chain.ts) to the tables of src/state/repo. Transactions are signed by a process
-- of its own, which checks them against a policy (signer).
--
--   Common        helpers: tests, lists, texts, integers, and dictionaries for `Map` and `Record`.
--   WriteChain    src/state/write-chain.ts. The promise chain is the queue of its writes; `run_write`
--                 is the retry loop, given what the database answers at each attempt, and `drain`
--                 carries out the queue on a table.
--   PositionMap   src/state/position-map.ts with the statements of src/state/repo/positions.ts. The
--                 type of the amounts of SOL, a JavaScript number, is a parameter `S`.
--   PendingSwaps  src/state/pending-swaps-store.ts with src/state/repo/pendingSwaps.ts; Executor has
--                 `addPendingSwap` to `clearPending` of src/executor/byreal-position.ts, with the
--                 wallet's balance and the swap itself as parameters.
--   Queue         src/executor/queue.ts. Each function is the code between two awaits; Queue.Steps has
--                 the turns of the event loop as a step relation.
--   Parser        src/monitor/parser.ts, whole: Balances, Instructions, Memo and Clmm are its shared
--                 readers, Byreal, Pcs, Orca, Meteora, Dammv2 and Swap its parsers, and Transaction is
--                 `parseTransaction`. `bs58.decode` is a parameter, JavaScript's numbers are a record of
--                 the operations that the code uses, and the answers of the RPC node are an argument.
--   OpenedReferers
--                 src/state/opened-referers-store.ts with src/state/repo/openedReferers.ts: the positions
--                 that were copied, by the position that their owner had copied in turn. The policy is
--                 that of src/utils/byreal-allow-same-tick.ts, as src/executor/byreal-position.ts uses it.
--   PumpPending   src/state/pump-pending.ts with src/state/repo/pumpPending.ts: the tokens that wait for
--                 an approval, and the two token lists of src/config.ts that a rejection changes. The
--                 answer of the worker is an argument.
--   TokenLosses   `extractToken`, `isTokenCoolingDown` and `recordTokenPnl` of
--                 src/executor/byreal-position.ts with src/state/token-pnl-store.ts. The type of the
--                 results, a JavaScript number, is a parameter with its zero, its addition and `x < 0`.
--   Handler       `handleEvent` of src/index.ts: a module for each venue, Swap for the swaps on Jupiter,
--                 and Dispatch for the switch and for the loop over the events of a transaction. What
--                 the handler does is a list of effects. The executors are a parameter, `Env`, which
--                 answers each call, or throws, and leaves any state; Shape has the forms that the
--                 effects of one event can take. Outcome proves them, a module for each venue, and
--                 joins them with the parser (Attribution) and the activity log (Log).
--   Intake        the callback that `main` of src/index.ts gives to the monitor: the signatures that
--                 were processed, the filter of spam, and the task that is put into Queue.
--   Opening       `copyOpenPosition` of src/executor/byreal-position.ts: its guards, the lock, the filters
--                 (Filters), the swaps for what is missing and the deposit (Funding), and the attempts
--                 to send the transaction and what is recorded (Copy). What it asks of the chain, of
--                 the SDK and of the price services is a query that a parameter, `Net`, answers, given
--                 all that was asked before; an answer may be an exception. The concentration limit,
--                 an estimate in floating point, is such an answer, and the locked SOL that is read
--                 from the transaction later is left out.
--   ActivityLog   src/state/activity-log.ts with src/state/repo/events.ts and
--                 src/state/repo/swapHistory.ts: the feeds, the look-up of pools and its backfill.
--   Ratios        src/utils/ratio.ts on raw amounts. A ratio is known by its ten thousandths.
--   Signer        signer/policy.ts with signer/alt-resolver.ts (Policy, and Invoked for the logs of a
--                 simulation), and signer/index.ts (Server for a request, Frames for the socket).
--                 The RPC node and web3.js are a record of functions, `Env`; the allowlist is one
--                 field of the configuration. A thrown exception is `none`.
--
-- The names are those of the source in snake case. What a Promise waits for is given as an argument
-- or as a step, a thrown exception as `none` or as an answer, and log messages are left out.
--
-- Loops are recursions on lists, so none needs fuel, but for two: the retry loop of the write chain
-- runs on one attempt more than there are delays, since an attempt with no delay left ends it; the
-- fetch of a transaction has its three attempts. The two attempts to send an opening are written
-- out.
--
-- Not modelled: the executors' other operations, which are for the most part calls of the SDKs of the
-- exchanges, and of which the handler's model assumes nothing; the HTTP server, the notifications, the
-- database connection, and the unlocking of the signer's key.
pub mod ActivityLog
pub mod Common
pub mod Handler
pub mod Intake
pub mod OpenedReferers
pub mod Opening
pub mod Parser
pub mod PendingSwaps
pub mod PositionMap
pub mod PumpPending
pub mod Queue
pub mod Ratios
pub mod Signer
pub mod TokenLosses
pub mod WriteChain
