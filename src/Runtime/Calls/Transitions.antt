-- ===== src/Runtime/Calls/Transitions.antt =====
-- src/app/task_runtime_repository.cpp against IsValidTransition of src/model/task.cpp: how
-- a task moves along a history of calls.
use mathlib.Core.Option.{some-injective}
use photobridge.Base.{
  Bool, Bytes, List, Option, [], arith, false, if◌then◌else◌, list_eq, nat_eq, none, option_eq,
  refl, some, string_eq, subst, suc, sym, true, zero, ℕ, ◌++◌, ◌==◌, ◌||◌, ◌∙◌, ◌∷◌, ◌≡◌, ◌≤◌,
}
use photobridge.Model.Task.{
  TaskSpec, TaskState, attempt_state_eq, is_valid_transition, task_index_iff, task_state_eq,
  task_type_eq,
}
use photobridge.Runtime.Tables.{Tables, TaskRow, update_where}
use photobridge.Runtime.Sql.{add_event, update_attempts, update_epoch}
use photobridge.Runtime.Tasks.{
  insert_task, is_ready_candidate, make_ready, new_task_row, update_ready,
}
use photobridge.Runtime.Claim.{insert_attempt, is_claimed_row, make_running, update_claim}
use photobridge.Runtime.Attempts.{is_owned, release, update_released}
use photobridge.Runtime.Receipts.{insert_receipt}
use photobridge.Runtime.Laws.{Law}
use photobridge.Runtime.Dependencies.Acyclic.{insert_dependency-tasks}
use photobridge.Common.Status.{Error, ok}
use photobridge.Filesystem.Reconciler.{VerifiedReceipt}
use photobridge.Runtime.Store.{Repository}
use photobridge.Runtime.Calls.{Call, history, history-related}

pub data Reach : TaskState → TaskState → Type 0 where
  stay : {a : TaskState} → Reach a a
  go : {a b c : TaskState} → is_valid_transition a b ≡ true → Reach b c → Reach a c

Reach-trans : {a b c : TaskState} → Reach a b → Reach b c → Reach a c
Reach-trans stay q = q
Reach-trans (go v p) q = go v (Reach-trans p q)

-- A row before and after: the same task, its state further along, its attempts counted up.
pub record Moves (r r' : TaskRow) : Type 0 where
  pub same_plan : r'.plan_id ≡ r.plan_id
  pub same_task : r'.task_id ≡ r.task_id
  pub same_key : r'.task_key ≡ r.task_key
  pub reach : Reach r.state r'.state
  pub counted : r.attempt_count ≤ r'.attempt_count

-- The rows in their order, and behind them rows that are new.
abbrev pub RowsMove : List TaskRow → List TaskRow → Type 0
RowsMove [] rs' = Unit {0}
RowsMove (r ∷ rs) [] = ⊥
RowsMove (r ∷ rs) (r' ∷ rs') = Moves r r' × RowsMove rs rs'

abbrev TasksMove : Tables → Tables → Type 0
TasksMove t u = RowsMove t.tasks u.tasks

Moves-refl : (r : TaskRow) → Moves r r
Moves-refl r = record {
  same_plan = refl;
  same_task = refl;
  same_key = refl;
  reach = stay;
  counted = omega arith;
}

Moves-trans : (a b c : TaskRow) → Moves a b → Moves b c → Moves a c
Moves-trans a b c h k = record {
  same_plan = k.same_plan ∙ h.same_plan;
  same_task = k.same_task ∙ h.same_task;
  same_key = k.same_key ∙ h.same_key;
  reach = Reach-trans h.reach k.reach;
  counted = omega (arith, h.counted, k.counted);
}

RowsMove-refl : (rs : List TaskRow) → RowsMove rs rs
RowsMove-refl [] = tt
RowsMove-refl (r ∷ rs) = (Moves-refl r, RowsMove-refl rs)

RowsMove-trans : (xs ys zs : List TaskRow) → RowsMove xs ys → RowsMove ys zs → RowsMove xs zs
RowsMove-trans [] ys zs h k = tt
RowsMove-trans (x ∷ xs) [] zs h k = absurd h
RowsMove-trans (x ∷ xs) (y ∷ ys) [] h k = absurd k
RowsMove-trans (x ∷ xs) (y ∷ ys) (z ∷ zs) h k =
    (Moves-trans x y z h.0 k.0, RowsMove-trans xs ys zs h.1 k.1)

RowsMove-append : (rs new : List TaskRow) → RowsMove rs (rs ++ new)
RowsMove-append [] new = tt
RowsMove-append (r ∷ rs) new = (Moves-refl r, RowsMove-append rs new)

Moves-if : (b : Bool) (r r' : TaskRow) → (b ≡ true → Moves r r') → Moves r (if b then r' else r)
Moves-if true r r' h = h refl
Moves-if false r r' h = Moves-refl r

RowsMove-update_where :
    (test : TaskRow → Bool) (change : TaskRow → TaskRow) (rs : List TaskRow)
    → ((r : TaskRow) → test r ≡ true → Moves r (change r))
    → RowsMove rs (update_where test change rs)
RowsMove-update_where test change [] h = tt
RowsMove-update_where test change (r ∷ rs) h =
    (Moves-if (test r) r (change r) (h r), RowsMove-update_where test change rs h)

-- A row that an UPDATE selected by its state moves along a transition.
step_from : (a b c : TaskState) → (a == b) ≡ true → is_valid_transition b c ≡ true → Reach a c
step_from a b c e v = subst (λ x. Reach x c) (sym ((task_index_iff a b).0 e)) (go v stay)

readied_row :
    (t : Tables) (plan task : Bytes) (r : TaskRow)
    → is_ready_candidate t plan task r ≡ true
    → Moves r (make_ready r)
unfolding is_ready_candidate is_valid_transition
readied_row t plan task r h = record {
  same_plan = refl;
  same_task = refl;
  same_key = refl;
  reach = reach_ready r.state (ground arith);
  counted = omega arith;
}
  where
    reach_ready :
        (a : TaskState)
        → (a == TaskState.planned || a == TaskState.retryable) ≡ true
        → Reach a TaskState.ready
    reach_ready TaskState.planned e = go refl stay
    reach_ready TaskState.retryable e = go refl stay
    reach_ready _ e = cc

claimed_row :
    (plan task : Bytes) (epoch : ℕ) (attempt : Bytes) (r : TaskRow)
    → is_claimed_row plan task r ≡ true
    → Moves r (make_running epoch attempt r)
unfolding is_claimed_row is_valid_transition
claimed_row plan task epoch attempt r h = record {
  same_plan = refl;
  same_task = refl;
  same_key = refl;
  reach = step_from r.state TaskState.ready TaskState.running (ground arith) refl;
  counted = omega arith;
}

released_row :
    (plan task : Bytes) (epoch : ℕ) (attempt : Bytes) (next : TaskState) (error : Option Error)
    (r : TaskRow)
    → is_valid_transition TaskState.running next ≡ true
    → is_owned plan task epoch attempt r ≡ true
    → Moves r (release next error r)
unfolding is_owned
released_row plan task epoch attempt next error r v h = record {
  same_plan = refl;
  same_task = refl;
  same_key = refl;
  reach = step_from r.state TaskState.running next (ground arith) v;
  counted = omega arith;
}

-- A statement on another table.
same_tasks : (t u : Tables) → u.tasks ≡ t.tasks → TasksMove t u
same_tasks t u e = subst (RowsMove t.tasks) (sym e) (RowsMove-refl t.tasks)

pub started_tasks :
    (attempt plan task : Bytes) (epoch now : ℕ) (t u : Tables) (a : Unit {0})
    → insert_attempt attempt plan task epoch now t ≡ ok (a, u)
    → u.tasks ≡ t.tasks
unfolding insert_attempt
started_tasks attempt plan task epoch now t u a h = ground arith

pub received_tasks :
    (plan : Bytes) (r : VerifiedReceipt) (t u : Tables) (n : ℕ)
    → insert_receipt plan r t ≡ ok (n, u)
    → u.tasks ≡ t.tasks
unfolding insert_receipt
received_tasks plan r t u n h = ground arith

pub added_tasks :
    (plan : Bytes) (task : TaskSpec) (t u : Tables) (a : Unit {0})
    → insert_task plan task t ≡ ok (a, u)
    → u.tasks ≡ t.tasks ++ new_task_row plan task ∷ []
added_tasks plan task t u a h = ground arith

transitions : Law TasksMove
unfolding update_epoch update_ready update_claim update_released update_attempts add_event
transitions = record {
  same = λ t. RowsMove-refl t.tasks;
  chain = λ t u v h k. RowsMove-trans t.tasks u.tasks v.tasks h k;
  epoch = λ plan n t. RowsMove-refl t.tasks;
  added = λ plan task t u a h.
      subst (RowsMove t.tasks) (sym (added_tasks plan task t u a h))
        (RowsMove-append t.tasks (new_task_row plan task ∷ []));
  readied = λ plan task t. RowsMove-update_where _ _ t.tasks (readied_row t plan task);
  claimed = λ plan task epoch attempt t.
      RowsMove-update_where _ _ t.tasks (claimed_row plan task epoch attempt);
  released = λ plan task epoch attempt next error t v.
      RowsMove-update_where _ _ t.tasks (λ r. released_row plan task epoch attempt next error r v);
  started = λ attempt plan task epoch now t u a h.
      same_tasks t u (started_tasks attempt plan task epoch now t u a h);
  progressed = λ plan task attempt epoch now state outcome error finish t. RowsMove-refl t.tasks;
  logged = λ e t u a h. same_tasks t u (ground arith);
  received = λ plan r t u n h. same_tasks t u (received_tasks plan r t u n h);
  depended = λ plan task depends_on t u n w h.
      same_tasks t u (insert_dependency-tasks plan task depends_on t u n h);
}

-- Through any calls, successful or not, from a state outside every transaction and write batch, no
-- task is lost or replaced, each one's state moves along
-- valid transitions only, and its attempts are counted up only.
pub history-RowsMove :
    (s : Repository) (cs : List Call)
    → s.saved ≡ none
    → s.batch ≡ none
    → RowsMove s.tables.tasks (history s cs).tables.tasks
history-RowsMove s cs v b = history-related transitions s cs v b

-- The states that no transition leaves.
abbrev pub is_terminal : TaskState → Bool
is_terminal a =
    a == TaskState.succeeded
    || a == TaskState.failed
    || a == TaskState.needs_review
    || a == TaskState.inconsistent
    || a == TaskState.skipped

no_exit : (a b : TaskState) → is_terminal a ≡ true → is_valid_transition a b ≡ false
unfolding is_valid_transition
no_exit TaskState.succeeded b h = refl
no_exit TaskState.failed b h = refl
no_exit TaskState.needs_review b h = refl
no_exit TaskState.inconsistent b h = refl
no_exit TaskState.skipped b h = refl
no_exit _ b h = cc

Reach-terminal : {a b : TaskState} → Reach a b → is_terminal a ≡ true → b ≡ a
Reach-terminal stay h = refl
Reach-terminal {a} (go {b = b'} v r) h = cc (no_exit a b' h)

unfoldable pub nth_row : List TaskRow → ℕ → Option TaskRow
nth_row [] n = none
nth_row (r ∷ rs) zero = some r
nth_row (r ∷ rs) (suc n) = nth_row rs n

nth-RowsMove :
    (rs rs' : List TaskRow) (n : ℕ) (r : TaskRow)
    → RowsMove rs rs'
    → nth_row rs n ≡ some r
    → (r' : TaskRow) × (nth_row rs' n ≡ some r') × Moves r r'
unfolding nth_row
nth-RowsMove [] rs' n r h e = cc
nth-RowsMove (x ∷ xs) [] n r h e = absurd h
nth-RowsMove (x ∷ xs) (y ∷ ys) zero r h e =
    (y, refl, subst (λ z. Moves z y) (some-injective x r e) h.0)
nth-RowsMove (x ∷ xs) (y ∷ ys) (suc n) r h e = nth-RowsMove xs ys n r h.1 e

-- A task in a terminal state is in that state after any calls, from a state outside every
-- transaction and write batch: a result is never taken back.
pub history-terminal :
    (s : Repository) (cs : List Call) (n : ℕ) (r : TaskRow)
    → s.saved ≡ none
    → s.batch ≡ none
    → nth_row s.tables.tasks n ≡ some r
    → is_terminal r.state ≡ true
    → (r' : TaskRow) × (nth_row (history s cs).tables.tasks n ≡ some r')
      × (r'.task_id ≡ r.task_id)
      × (r'.state ≡ r.state)
history-terminal s cs n r v b e h =
    let (r', e', m) =
      nth-RowsMove s.tables.tasks (history s cs).tables.tasks n r (history-RowsMove s cs v b) e in
    (r', e', m.same_task, Reach-terminal m.reach h)
