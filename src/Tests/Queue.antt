-- ===== src/Tests/Queue.antt =====
-- The writer's queue on the small migration.
use photobridge.Base.{
  [], false, list_beq, list_eq, nat_eq, option_eq, refl, string_eq, ℕ, ◌∷◌, ◌≡◌, ◌≤◌,
}
use photobridge.Common.Status.{ok}
use photobridge.Runtime.Writer.{Command, claim, commit_intent_command}
use photobridge.Runtime.Queue.{
  Service, command_key, enqueue_command, enqueue_unless, enqueue_with, extend_batch, fill_batch,
  joins, take_batch,
}
use photobridge.Runtime.Queue.Steps.{Run, enqueues, initial, new_service, start, step_after, takes}
use photobridge.Runtime.Queue.Numbers.{numbers, numbers_below}
use photobridge.Runtime.Queue.Answers.{IsServed, start-IsServed}
use photobridge.Tests.Data.{attempt, plan, store}

abbrev intents : ℕ → Command
intents n = commit_intent_command plan (n ∷ []) 1 attempt

abbrev started : Service
started = new_service store

abbrev first_queued : Service
first_queued = (enqueue_command (intents 1) started).1

abbrev second_queued : Service
second_queued = (enqueue_command (intents 2) first_queued).1

abbrev third_queued : Service
third_queued = (enqueue_command (claim plan 1) second_queued).1

abbrev pair_taken : Service
pair_taken = take_batch 8 (0, intents 1) ((1, intents 2) ∷ (2, claim plan 1) ∷ []) third_queued

-- Two commands of one kind are taken together, and the claim stays.
pair_together : (numbers pair_taken.taken ≡ 0 ∷ 1 ∷ []) × (numbers pair_taken.queue ≡ 2 ∷ [])
unfolding take_batch fill_batch extend_batch joins command_key enqueue_command enqueue_with
    enqueue_unless new_service list_beq
pair_together = (refl, refl)

started_ok : start store 8 ≡ ok started
unfolding start
started_ok = refl

pair-Run : Run 8 started pair_taken
unfolding enqueue_command enqueue_with enqueue_unless new_service
pair-Run =
    step_after
      (step_after
        (step_after (step_after initial (enqueues (intents 1) started))
          (enqueues (intents 2) first_queued))
        (enqueues (claim plan 1) second_queued))
      (takes third_queued (0, intents 1) ((1, intents 2) ∷ (2, claim plan 1) ∷ []) refl refl refl)

start-IsServed_example :
    (8 ≤ 16)
    × IsServed 8 pair_taken
    × (pair_taken.running ≡ false
        → numbers pair_taken.answers ≡ numbers_below pair_taken.next_number)
unfolding new_service
start-IsServed_example = start-IsServed store 8 started pair_taken refl refl started_ok pair-Run
