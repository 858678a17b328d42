-- ===== src/Runtime/Queue/Steps.antt =====
-- src/app/runtime_db_writer.cpp: Start, and the steps of the callers and of the writer thread.
use photobridge.Base.{
  List, [], false, if◌then◌else◌, length, list_eq, ltb, nat_eq, none, option_eq, string_eq, true, ℕ,
  ◌==◌, ◌||◌, ◌∷◌, ◌≡◌, ◌⊎◌,
}
use photobridge.Common.Status.{Error, Result, fail, invalid_argument, ok}
use photobridge.Runtime.Store.{Repository}
use photobridge.Runtime.Writer.{Command}
use photobridge.Runtime.Queue.{
  Service, Stats, enqueue_command, execute_taken, handle_exception, max, stop, take_batch,
}

-- One step of the callers or of the writer thread, for a limit of commands in a batch.
pub data Step (limit : ℕ) : Service → Service → Type 0 where
  enqueues : (c : Command) (w : Service) → Step limit w (enqueue_command c w).1
  stops : (w : Service) → Step limit w (stop w)
  takes :
      (w : Service) (t : ℕ × Command) (queue : List (ℕ × Command))
      → w.running ≡ true
      → w.taken ≡ []
      → w.queue ≡ t ∷ queue
      → Step limit w (take_batch limit t queue w)
  executes :
      (w : Service) (t : ℕ × Command) (ts : List (ℕ × Command))
      → w.running ≡ true
      → w.taken ≡ t ∷ ts
      → Step limit w (execute_taken t ts w)
  throws :
      (w : Service) (failure : Error) (s : Repository) (counted : Stats)
      → w.running ≡ true
      → (counted.largest_batch ≡ w.stats.largest_batch)
        ⊎ (counted.largest_batch ≡ max w.stats.largest_batch (length w.taken))
      → Step limit w (handle_exception failure s counted w)
  returns :
      (w : Service)
      → w.running ≡ true
      → w.taken ≡ []
      → w.queue ≡ []
      → w.stopping ≡ true
      → Step limit w (record w { running = false })

-- Any steps, in any order that the threads allow.
pub data Run (limit : ℕ) (w : Service) : Service → Type 0 where
  initial : Run limit w w
  step_after : {u v : Service} → Run limit w u → Step limit u v → Run limit w v

abbrev pub no_stats : Stats
no_stats = record {
  accepted_commands = 0;
  commands = 0;
  transaction_groups = 0;
  batched_commands = 0;
  largest_batch = 0;
}

unfoldable pub new_service : Repository → Service
new_service s = record {
  store = s;
  queue = [];
  taken = [];
  answers = [];
  next_number = 0;
  stopping = false;
  fatal = none;
  running = true;
  stats = no_stats;
}

-- Start, given the repository over the connection that was opened
unfoldable pub start : Repository → ℕ → Result Service
start s max_batch_size =
    if max_batch_size == 0 || ltb 16 max_batch_size
    then fail invalid_argument "runtime DB batch size must be between 1 and 16"
    else ok (new_service s)
