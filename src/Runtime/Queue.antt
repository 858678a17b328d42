-- ===== src/Runtime/Queue.antt =====
-- src/app/runtime_db_writer.cpp: the queue of commands, the thread that takes batches from it and
-- executes them, and the callers. The state changes in steps: what a thread does under the mutex is
-- one, and what the writer thread does between is another. A command is known by its number, in the
-- order of acceptance, which stands for its promise; `answers` holds the promises that have values.
pub mod Steps
pub mod Batches
pub mod Numbers
pub mod Answers
use photobridge.Base.{
  Bool, Bytes, List, Option, [], false, if◌then◌else◌, length, list_eq, ltb, nat_eq, none, not,
  option_eq, some, string_eq, suc, true, ℕ, ◌%◌, ◌&&◌, ◌++◌, ◌+◌, ◌==◌, ◌^◌, ◌||◌, ◌∷◌,
}
use photobridge.Common.Status.{Error, Result, Status, err, fail, internal, ok}
use photobridge.Runtime.Store.{Repository}
use photobridge.Runtime.Claim.{ClaimedTask, claim_next_ready}
use photobridge.Runtime.Attempts.{mark_commit_intent, mark_retryable, mark_temp_written}
use photobridge.Runtime.Receipts.{persist_verified_receipt}
use photobridge.Runtime.Writer.{
  Command, claim, commit_intent_command, execute_batch, receipt_command, retryable_command,
  rollback_write_batch, temp_written_command,
}

-- RuntimeDbWriterStats, of which the counts are std::uint64_t
pub record Stats : Type 0 where
  pub accepted_commands : ℕ
  pub commands : ℕ
  pub transaction_groups : ℕ
  pub batched_commands : ℕ
  pub largest_batch : ℕ

-- What a promise is set to.
pub data Answer : Type 0 where
  answer_status : Status → Answer
  answer_claim : Result ClaimedTask → Answer

-- `fatal` is fatal_ where that is not OK; `taken` is the batch that the thread is at; `running` is
-- false once the thread has returned from Run.
pub record Service : Type 0 where
  pub store : Repository
  pub queue : List (ℕ × Command)
  pub taken : List (ℕ × Command)
  pub answers : List (ℕ × Answer)
  pub next_number : ℕ
  pub stopping : Bool
  pub fatal : Option Error
  pub running : Bool
  pub stats : Stats

-- fetch_add on std::uint64_t
abbrev pub add_u64 : ℕ → ℕ → ℕ
add_u64 n k = (n + k) % 2 ^ 64

-- `if (stopping_) return StoppedStatus();` and what follows
unfoldable pub enqueue_unless : Bool → Command → Service → Status × Service
enqueue_unless true c w = (fail internal "runtime DB writer is stopped", w)
enqueue_unless false c w = (
  ok tt,
  record w {
    queue = w.queue ++ (w.next_number, c) ∷ [];
    next_number = suc w.next_number;
    stats = record w.stats { accepted_commands = add_u64 w.stats.accepted_commands 1 };
  },
)

unfoldable pub enqueue_with : Option Error → Command → Service → Status × Service
enqueue_with (some e) c w = (err e, w)
enqueue_with none c w = enqueue_unless w.stopping c w

-- Enqueue
unfoldable pub enqueue_command : Command → Service → Status × Service
enqueue_command c w = enqueue_with w.fatal c w

-- Stop, up to the joining of the thread
abbrev pub stop : Service → Service
stop w = record w { stopping = true }

-- What command_key returns; `kind` is the index of the variant.
pub record Key : Type 0 where
  pub kind : ℕ
  pub plan : Bytes
  pub task : Bytes
  pub epoch : ℕ

abbrev key : ℕ → Bytes → Bytes → ℕ → Key
key kind plan task epoch = record { kind = kind; plan = plan; task = task; epoch = epoch }

unfoldable pub command_key : Command → Option Key
command_key (claim plan epoch) = none
command_key (commit_intent_command plan task epoch attempt) = some (key 1 plan task epoch)
command_key (temp_written_command plan task epoch attempt) = some (key 2 plan task epoch)
command_key (receipt_command plan receipt) = some (key 3 plan receipt.task_id receipt.owner_epoch)
command_key (retryable_command plan task epoch attempt status) = some (key 4 plan task epoch)

abbrev pub has_task : Bytes → List Bytes → Bool
has_task task [] = false
has_task task (t ∷ ts) = t == task || has_task task ts

-- Whether a command with the key joins the batch that has these tasks.
unfoldable pub joins : Key → List Bytes → Option Key → Bool
joins first tasks none = false
joins first tasks (some next) =
    next.kind == first.kind
    && next.plan == first.plan
    && next.epoch == first.epoch
    && not (has_task next.task tasks)

abbrev pub task_of : Option Key → Bytes
task_of none = []
task_of (some k) = k.task

-- The inner loop: what joins a batch of `size` commands, and what is left of the queue.
unfoldable pub extend_batch :
    ℕ → Key → List Bytes → ℕ → List (ℕ × Command) → List (ℕ × Command) × List (ℕ × Command)
extend_batch limit first tasks size [] = ([], [])
extend_batch limit first tasks size ((n, c) ∷ queue) =
    let more = extend_batch limit first (task_of (command_key c) ∷ tasks) (size + 1) queue in
    if ltb size limit && joins first tasks (command_key c)
    then ((n, c) ∷ more.0, more.1)
    else ([], (n, c) ∷ queue)

unfoldable pub fill_batch :
    ℕ → Option Key → List (ℕ × Command) → List (ℕ × Command) × List (ℕ × Command)
fill_batch limit none queue = ([], queue)
fill_batch limit (some first) queue =
    let more = extend_batch limit first (first.task ∷ []) 1 queue in
    if ltb 1 limit then more else ([], queue)

-- The part of Run under the mutex, for a queue that is not empty.
unfoldable pub take_batch : ℕ → ℕ × Command → List (ℕ × Command) → Service → Service
take_batch limit (n, c) queue w =
    let (more, rest) = fill_batch limit (command_key c) queue in
    record w { taken = (n, c) ∷ more; queue = rest }

abbrev pub answered : Status × Repository → Answer × Repository
answered (r, s) = (answer_status r, s)

abbrev pub claim_answered : Result ClaimedTask × Repository → Answer × Repository
claim_answered (r, s) = (answer_claim r, s)

-- Execute
unfoldable pub execute_command : Command → Repository → Answer × Repository
execute_command (claim plan epoch) s = claim_answered (claim_next_ready plan epoch none s)
execute_command (commit_intent_command plan task epoch attempt) s =
    answered (mark_commit_intent plan task epoch attempt s)
execute_command (temp_written_command plan task epoch attempt) s =
    answered (mark_temp_written plan task epoch attempt s)
execute_command (receipt_command plan receipt) s =
    answered (persist_verified_receipt plan receipt s)
execute_command (retryable_command plan task epoch attempt status) s =
    answered (mark_retryable plan task epoch attempt status s)

-- Complete, for each command of a batch
abbrev pub complete_each : List (ℕ × Command) → List Status → List (ℕ × Answer)
complete_each [] rs = []
complete_each (t ∷ ts) [] = []
complete_each ((n, c) ∷ ts) (r ∷ rs) = (n, answer_status r) ∷ complete_each ts rs

abbrev pub commands_of : List (ℕ × Command) → List Command
commands_of [] = []
commands_of ((n, c) ∷ ts) = c ∷ commands_of ts

abbrev pub max : ℕ → ℕ → ℕ
max a b = if ltb a b then b else a

abbrev pub count_single : Stats → Stats
count_single st = record st {
  commands = add_u64 st.commands 1;
  transaction_groups = add_u64 st.transaction_groups 1;
}

abbrev pub count_batch : ℕ → Stats → Stats
count_batch n st = record st {
  commands = add_u64 st.commands n;
  transaction_groups = add_u64 st.transaction_groups 1;
  batched_commands = add_u64 st.batched_commands n;
  largest_batch = max st.largest_batch n;
}

-- The part of Run after the mutex is released, for the batch that was taken.
unfoldable pub execute_taken : ℕ × Command → List (ℕ × Command) → Service → Service
execute_taken (n, c) [] w =
    let (answer, s) = execute_command c w.store in
    record w {
      store = s;
      taken = [];
      answers = w.answers ++ (n, answer) ∷ [];
      stats = count_single w.stats;
    }
execute_taken (n, c) (t ∷ ts) w =
    let (statuses, s) = execute_batch c (commands_of (t ∷ ts)) w.store in
    record w {
      store = s;
      taken = [];
      answers = w.answers ++ complete_each ((n, c) ∷ t ∷ ts) statuses;
      stats = count_batch (length ((n, c) ∷ t ∷ ts)) w.stats;
    }

abbrev pub fail_each : Error → List (ℕ × Command) → List (ℕ × Answer)
fail_each e [] = []
fail_each e ((n, claim plan epoch) ∷ ts) = (n, answer_claim (err e)) ∷ fail_each e ts
fail_each e ((n, c) ∷ ts) = (n, answer_status (err e)) ∷ fail_each e ts

-- The handler of exceptions in Run: an exception was thrown before a promise was set, and left the
-- repository and the counters in some state.
unfoldable pub handle_exception : Error → Repository → Stats → Service → Service
handle_exception failure s counted w = record w {
  store = (rollback_write_batch s).1;
  queue = [];
  taken = [];
  answers = (w.answers ++ fail_each failure w.taken) ++ fail_each failure w.queue;
  stopping = true;
  fatal = some failure;
  running = false;
  stats = counted;
}
