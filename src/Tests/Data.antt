-- ===== src/Tests/Data.antt =====
-- A small migration: its plan, tasks, a receipt, and the file system that recovery sees.
use photobridge.Base.{Bytes, [], codes, false, none, some, suc, true, zero, ℕ, ◌∷◌}
use photobridge.Common.Digest.{Digest}
use photobridge.Model.FileIdentity.{FileIdentity}
use photobridge.Model.RelativePath.{RelativePath}
use photobridge.Model.Task.{TaskRuntime, TaskSpec, TaskState, migrate_file}
use photobridge.Filesystem.Reconciler.{CommitIntent, ObservedFileState, VerifiedReceipt}
use photobridge.Runtime.Tables.{Tables, TaskRow}
use photobridge.Runtime.Store.{Repository}

abbrev pub plan : Bytes
plan = codes "p"

abbrev pub first_id : Bytes
first_id = codes "t1"

abbrev pub second_id : Bytes
second_id = codes "t2"

abbrev pub attempt : Bytes
attempt = codes "a1"

abbrev pub repeat : ℕ → ℕ → Bytes
repeat zero b = []
repeat (suc n) b = b ∷ repeat n b

abbrev pub file_digest : Digest
file_digest = repeat 32 7

abbrev pub file_identity : FileIdentity
file_identity = record {
  device = 1;
  inode = 2;
  size = 300;
  mtime_ns = 4;
  ctime_ns = 5;
  mount_id = some 6;
}

abbrev pub frozen_target : RelativePath
frozen_target = record { raw_bytes = codes "a/b"; components = codes "a" ∷ codes "b" ∷ [] }

abbrev pub spec : Bytes → TaskSpec
spec id = record {
  id = id;
  task_key = id;
  kind = migrate_file;
  asset_id = codes "asset";
  source_asset_id = some (codes "source");
  target_path = frozen_target;
  estimated_bytes = 300;
  expected_digest = none;
}

abbrev pub receipt : VerifiedReceipt
receipt = record {
  task_id = first_id;
  attempt_id = attempt;
  owner_epoch = 1;
  temp_path = codes "tmp";
  final_path = codes "a/b";
  content_size = 300;
  source_digest = some file_digest;
  target_digest = file_digest;
  source_identity = some file_identity;
}

abbrev pub intent : CommitIntent
intent = record {
  task_id = first_id;
  attempt_id = attempt;
  owner_epoch = 1;
  temp_path = codes "tmp";
  final_path = codes "a/b";
}

-- The temporary file is there and whole, and the final path is free.
abbrev pub observed : ObservedFileState
observed = record {
  source_available = true;
  source_changed = false;
  temp_exists = true;
  final_exists = false;
  source_identity = some file_identity;
  temp_identity = none;
  final_identity = none;
  temp_size = 300;
  final_size = 0;
  temp_digest = some file_digest;
  final_digest = none;
}

abbrev pub running_task : TaskRuntime
running_task = record {
  id = first_id;
  state = TaskState.running;
  owner_epoch = 1;
  attempt_id = some attempt;
  attempt_count = 1;
  last_error = none;
}

abbrev pub task_row : Bytes → TaskState → TaskRow
task_row id state = record {
  plan_id = plan;
  task_id = id;
  task_key = id;
  kind = migrate_file;
  state = state;
  owner_epoch = none;
  active_attempt_id = none;
  attempt_count = 0;
  target_path = codes "a/b";
  expected_size = 300;
  expected_digest = none;
  last_error = none;
}

-- Two tasks, the first READY and the second waiting for it.
abbrev pub tables : Tables
tables = record {
  migrations = record { migration_id = codes "m"; current_epoch = 1 } ∷ [];
  plans = record { plan_id = plan; migration_id = codes "m" } ∷ [];
  tasks = task_row first_id TaskState.ready ∷ task_row second_id TaskState.planned ∷ [];
  dependencies = record { plan_id = plan; task_id = second_id; depends_on_task_id = first_id } ∷ [];
  attempts = [];
  events = [];
  receipts = [];
}

abbrev pub store : Repository
store = record { tables = tables; saved = none; batch = none; faults = []; now = 10 }
