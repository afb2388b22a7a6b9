-- ===== src/Lib.antt =====
-- EmergentInc lets characters ("qianji") live in bodies ("pixels") on a three-dimensional grid. A run
-- goes round by round: the queue hands out a message, the budget reserves the tokens of a model
-- call, the model's decision is compiled into effects, and the effects transfer energy, create new
-- pixels and send further messages. This library models the rules and the bookkeeping of that
-- cycle and proves what they are for.
--
-- The parts, and the files of the repository that they model:
--   Grid        packages/domain/src/topology/grid.ts: idToCoord is id_to_coord, and so on.
--   Domain      packages/domain/src: validateEnergyTransfer, validateReproduction,
--               validateMessageRouting, the two transition tables, shouldNaturalWake,
--               deriveBirthIdentity, validateQianjiNarrative, and the length tests of
--               packages/protocol/src/unicode.ts.
--   Store       packages/persistence/src/migrations/init_schema.ts: the database is a record of
--               tables, a table the list of its rows; Store.Table has the SQL statements.
--   Budget      packages/persistence/src/repositories/budget_repository.ts: reserve, settle, refund
--               and getAvailableTokenCapacity.
--   Executions  packages/persistence/src/repositories/execution_repository.ts: creation, rounds,
--               tokens, transitions, participants and evidence of an execution.
--   Messages    packages/persistence/src/repositories/message_repository.ts: enqueueMessage,
--               claimNext, commitMessage and the waiting messages.
--   CoreStore   packages/persistence/src/repositories/pixel_repository.ts and ledger_repository.ts,
--               and applyExternalReward and ensureUnlimitedEnergy of
--               packages/persistence/src/core_store.ts.
--   Recovery    resolveRecoveryOperation of packages/persistence/src/core_store.ts, with the
--               updates it makes through the repositories of runs and messages. A cost is the
--               text of its JSON.
--   Model       packages/model/src/parser/json_repair.ts.
--   Runtime     packages/runtime/src/compiler/decision_compiler.ts,
--               packages/runtime/src/feedback/feedback_factory.ts, in Runtime.Effects
--               applyTransferEnergy and applyRouteMessage of
--               packages/runtime/src/effects/effect_runtime.ts with
--               packages/persistence/src/repositories/effect_repository.ts, and in Runtime.ReadLoop
--               detectReadOnlyLoop of packages/runtime/src/scheduler/round_scheduler.ts.
--   Common      numbers, texts, lists and results. Tests holds concrete inputs.
--
-- The state is the record Db. A method of a repository is a function from Db to the new Db, with
-- what it returns; one that may throw gives a Result, and what is thrown in a transaction leaves
-- the database as it was. The repositories share Db: reserve captures the identity of a message,
-- claimNext reads bindings, executions and pixels, and the feedback goes through enqueueMessage. The
-- budget repository's ensureEnergy is a field of its policy; CoreStore.Refill gives the function that
-- the store passes there, so that what is proved for any such callback holds of the store.
--
-- Numbers are exact: the code's integers are below 2^53, and where it tests that (isSafeInteger)
-- the model tests it too. Amounts that the code keeps from falling below 0 are natural numbers,
-- whose subtraction stops at 0 as MAX(0, ...) does. Texts are lists of code points.
--
-- The loop of claimNext runs on fuel, one turn for each claimable row and one more; every turn that
-- goes on abandons such a row, so this is enough. The digits of a number are printed with the
-- number itself as fuel. All other recursion is on lists.
--
-- Parameters: the two callbacks of the budget repository (companyRun and ensureEnergy) and the
-- owner's energy policy, SHA-256, JSON.parse, JSON.stringify and String, which tools only read, and
-- the clock, the UUIDs and the new ids, which are arguments.
--
-- Not modelled: time stamps of updates, prices and JSON payloads of rows; the texts of error
-- messages, except of transfers and routes; the other effects, the world mode and the mirrored
-- state files; the scheduler but for its detector of loops, the model's client and the rest of its
-- parser, the tools, the server's services, the recovery application and the frontend.
pub mod Common
pub mod Grid
pub mod Domain
pub mod Store
pub mod Budget
pub mod Executions
pub mod Messages
pub mod CoreStore
pub mod Model
pub mod Recovery
pub mod Runtime
pub mod Tests
