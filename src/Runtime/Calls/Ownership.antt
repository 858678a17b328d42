-- ===== src/Runtime/Calls/Ownership.antt =====
-- src/app/task_runtime_repository.cpp: who owns a task, along a history of calls.
use photobridge.Base.{
  All, All-append, Bool, List, Option, [], arith, false, has_value, if◌then◌else◌, list_eq, nat_eq,
  none, option_eq, refl, string_eq, subst, sym, true, ◌==◌, ◌∷◌, ◌≡◌,
}
use photobridge.Common.Status.{Error}
use photobridge.Model.Task.{
  TaskState, attempt_state_eq, is_valid_transition, task_state_eq, task_type_eq,
}
use photobridge.Runtime.Tables.{Tables, TaskRow, update_where}
use photobridge.Runtime.Store.{Repository}
use photobridge.Runtime.Sql.{add_event, update_attempts, update_epoch}
use photobridge.Runtime.Tasks.{is_ready_candidate, make_ready, new_task_row, update_ready}
use photobridge.Runtime.Claim.{is_claimed_row, make_running, update_claim}
use photobridge.Runtime.Attempts.{is_owned, release, update_released}
use photobridge.Runtime.Laws.{Law}
use photobridge.Runtime.Dependencies.Acyclic.{insert_dependency-tasks}
use photobridge.Runtime.Calls.{Call, history, history-related}
use photobridge.Runtime.Calls.Transitions.{added_tasks, received_tasks, started_tasks}

pub record IsOwnedRight (r : TaskRow) : Type 0 where
  pub epoch_iff : has_value r.owner_epoch ≡ (r.state == TaskState.running)
  pub attempt_iff : has_value r.active_attempt_id ≡ (r.state == TaskState.running)

abbrev Keeps : Tables → Tables → Type 0
Keeps t u = All IsOwnedRight t.tasks → All IsOwnedRight u.tasks

if_right :
    (b : Bool) (r r' : TaskRow)
    → (b ≡ true → IsOwnedRight r')
    → IsOwnedRight r
    → IsOwnedRight (if b then r' else r)
if_right true r r' h k = h refl
if_right false r r' h k = k

All-update_where :
    (test : TaskRow → Bool) (change : TaskRow → TaskRow) (rs : List TaskRow)
    → ((r : TaskRow) → IsOwnedRight (change r))
    → All IsOwnedRight rs
    → All IsOwnedRight (update_where test change rs)
All-update_where test change [] h k = tt
All-update_where test change (r ∷ rs) h k =
    (if_right (test r) r (change r) (λ e. h r) k.0, All-update_where test change rs h k.1)

not_running :
    (next : TaskState)
    → is_valid_transition TaskState.running next ≡ true
    → (next == TaskState.running) ≡ false
unfolding is_valid_transition
not_running TaskState.running v = cc
not_running TaskState.planned v = refl
not_running _ v = refl

released_right :
    (next : TaskState) (error : Option Error) (r : TaskRow)
    → is_valid_transition TaskState.running next ≡ true
    → IsOwnedRight (release next error r)
released_right next error r v = record {
  epoch_iff = sym (not_running next v);
  attempt_iff = sym (not_running next v);
}

kept : (t u : Tables) → u.tasks ≡ t.tasks → Keeps t u
kept t u e h = subst (All IsOwnedRight) (sym e) h

ownership : Law Keeps
unfolding update_epoch update_ready update_claim update_released update_attempts add_event
    new_task_row
ownership = record {
  same = λ t h. h;
  chain = λ t u v h k x. k (h x);
  epoch = λ plan n t h. h;
  added = λ plan task t u a e h. subst (All IsOwnedRight) (sym (added_tasks plan task t u a e)) (
      All-append IsOwnedRight t.tasks (new_task_row plan task ∷ []) h
        (record { epoch_iff = refl; attempt_iff = refl }, tt));
  readied = λ plan task t h.
      All-update_where (is_ready_candidate t plan task) make_ready t.tasks
        (λ r. record { epoch_iff = refl; attempt_iff = refl }) h;
  claimed = λ plan task epoch attempt t h.
      All-update_where (is_claimed_row plan task) (make_running epoch attempt) t.tasks
        (λ r. record { epoch_iff = refl; attempt_iff = refl }) h;
  released = λ plan task epoch attempt next error t v h.
      All-update_where (is_owned plan task epoch attempt) (release next error) t.tasks
        (λ r. released_right next error r v) h;
  started = λ attempt plan task epoch now t u a h.
      kept t u (started_tasks attempt plan task epoch now t u a h);
  progressed = λ plan task attempt epoch now state outcome error finish t h. h;
  logged = λ e t u a h. kept t u (ground arith);
  received = λ plan r t u n h. kept t u (received_tasks plan r t u n h);
  depended = λ plan task depends_on t u n w h.
      kept t u (insert_dependency-tasks plan task depends_on t u n h);
}

-- If exactly the running tasks have an owner's epoch and an active attempt, then so it is after any
-- calls, successful or not, from a state outside every transaction and write batch.
pub history-IsOwnedRight :
    (s : Repository) (cs : List Call)
    → s.saved ≡ none
    → s.batch ≡ none
    → All IsOwnedRight s.tables.tasks
    → All IsOwnedRight (history s cs).tables.tasks
history-IsOwnedRight s cs v b = history-related ownership s cs v b
