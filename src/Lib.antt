-- ===== src/Lib.antt =====
-- photobridge: a verification library for the durable core of the migration of photo libraries.
--
-- A migration runs as tasks. The tasks, the attempts at them, the events, and the receipts by which
-- an attempt proves its copy stand in SQLite tables. One repository has every statement on them;
-- executors call its methods under an execution epoch, and `resume` takes a newer epoch, decides by
-- the reconciler's rules what became of each interrupted task, and reports that to the repository.
-- While a migration runs, one thread executes the commands of all executors, which stand in a queue.
-- Before it, a plan is made: every asset gets a path on the target, which promises what it can
-- keep, and the plan has a canonical form, of which its digest is taken, and a text. What the
-- library says of an asset is resolved from candidates, whose provenance is recorded.
--
-- The modules, and what they model:
--   Base            shared helpers: tests, lists, bytes
--   Common.Status   include/photobridge/common/status.h, status_or.h: Status and StatusOr
--   Common.Digest   src/common/digest.cpp: Digest, ToHex, FromHex
--   Model.FileIdentity, Model.Task
--                   include/photobridge/model/file_identity.h and src/model/task.cpp: the records,
--                   ValidateTaskSpec, ValidateTaskRuntime, IsValidTransition
--   Model.RelativePath
--                   src/model/relative_path.cpp: Parse, DisplayString
--   Model.Capability
--                   src/model/capability.cpp: Find, Require, Validate, LocalDirectoryCapabilitiesV1
--   Model.LogicalAsset, Model.PathMapper
--                   include/photobridge/model/logical_asset.h, the record, and
--                   src/model/path_mapper.cpp: MigrationPolicy, Map, MapAll
--   Model.CanonicalPlan
--                   src/model/canonical_plan.cpp: Build, CanonicalPlanPayload
--   Model.PlanArtifact
--                   src/model/plan_artifact.cpp: Base64Encode, Base64Decode, RequiredUint64
--   Model.Metadata  src/model/metadata_candidate.cpp, metadata_rules.cpp, metadata_resolver.cpp and
--                   resolution_record.cpp: ValidateTimeCandidate, MetadataValuesEqual,
--                   ValidateMetadataRuleset, Resolve, ValidateResolutionRecord
--   Model.Provenance
--                   src/model/provenance.cpp: BuildProvenance
--   Model.TaskKey   src/model/task.cpp: TaskKeyFor
--   Model.LossAnalysis
--                   src/model/loss_analysis.cpp: AnalyzeCapabilityLoss
--   Model.DiffEngine
--                   src/model/diff_engine.cpp: DiffFileStates
--   Filesystem.Reconciler
--                   src/filesystem/reconciler.cpp: ValidateIntent, ValidateReceipt, Matches, Decide
--   Runtime.Tables  src/app/sqlite_schema.cpp: the runtime tables as lists of rows
--   Runtime.Store, Runtime.Sql
--                   src/app/task_runtime_repository.cpp: the connection, its transactions, the
--                   statements and helpers that the methods share
--   Runtime.Tasks, Runtime.Claim, Runtime.Attempts, Runtime.Recovery, Runtime.Receipts
--                   the same file: the methods, by name in lower case with underscores
--   Runtime.Dependencies
--                   the same file: AddDependency, with its recursive query
--   Runtime.Identity
--                   the same file: EncodeIdentity, DecodeIdentity
--   Runtime.Laws    the interface of a relation between tables that every statement keeps, and the
--                   rules by which each method keeps it
--   Runtime.Success, Runtime.Rows
--                   what is known of the steps of a method that succeeded, and of an UPDATE that
--                   counted one row
--   Runtime.Calls   every writing method as a call, and histories of calls
--   Runtime.Writer  BeginWriteBatch, CommitWriteBatch and RollbackWriteBatch of the same file, and
--                   ExecuteBatch of src/app/runtime_db_writer.cpp, by which the writer thread runs
--                   a batch of queued commands in one transaction
--   Runtime.Queue   src/app/runtime_db_writer.cpp: Start, Enqueue, Stop, Run and Execute, as steps
--                   of the callers and of the writer thread
--   Tests           runs on a small migration
--
-- Strings are lists of bytes. Numbers are natural numbers; where the source checks a range or
-- narrows a value, so does the model. A method is a function from the state of the repository to
-- its result and the next state. SQLite itself is a parameter: the state lists, for each statement
-- to come, whether it fails and how; the list is any list. One entry stands for the preparing,
-- binding and stepping of a statement together. ROLLBACK, which the source does not check, puts back
-- the tables of the last BEGIN. A std::map is the list of its pairs in the order of keys, or, where
-- it is only asked for keys, the list of them; std::sort is an insertion sort by the same comparator.
-- The floating-point numbers in metadata with their comparison, and the hash function BLAKE3 where
-- the key of a task is made, are parameters.
--
-- Three loops run on fuel: that of Parse on the length of the path and one, since each round takes a
-- separator away, that of std::to_string on the number and one, which is above the number of its
-- digits, and the recursive query on the number of dependencies and one, since each round expands a
-- task that no round before it has. Every other recursion is on a list or a number that gets smaller.
--
-- Not modelled: columns that the repository neither reads nor writes, and the checks for column
-- values that it never wrote; the narrowing of the sizes of bound texts to `int`, for texts of 2^31
-- bytes or more; the joining of the writer's thread, and exceptions in it after the first promise
-- of a batch was set; the digests of plans, which hash with a library; the JSON records of a frozen
-- plan; the association of assets; the scanning, copying, verifying, upload and command-line parts.
pub mod Base
pub mod Common
pub mod Model
pub mod Filesystem
pub mod Runtime
pub mod Tests
