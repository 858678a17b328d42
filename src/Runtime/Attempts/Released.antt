-- ===== src/Runtime/Attempts/Released.antt =====
-- src/app/task_runtime_repository.cpp: what the statements of FinishTask and RecoverTask do to the
-- rows of a task and of its attempt.
use photobridge.Base.{
  Bool, Bytes, Option, String, [], ap, arith, list_beq_iff, list_eq, nat_beq_iff, nat_eq, none,
  option_eq, refl, some, string_eq, subst, sym, true, ℕ, ◌!=◌, ◌++◌, ◌∙◌, ◌∷◌, ◌≡◌,
}
use photobridge.Common.Status.{Error, invalid_argument, ok_injective, reject_if}
use photobridge.Model.Task.{
  FileAttemptState, TaskState, attempt_state_eq, task_index_iff, task_state_eq, task_type_eq,
}
use photobridge.Runtime.Tables.{
  AttemptRow, EventDetail, EventRow, Tables, TaskRow, count_where, is_attempt, update_where,
}
use photobridge.Runtime.Store.{M, Repository, lift, write, ◌>>=◌, ◌>>◌}
use photobridge.Runtime.Sql.{
  add_event, append_event, set_attempt, update_attempt_state, update_attempts,
}
use photobridge.Runtime.Attempts.{is_owned, release, update_released}
use photobridge.Runtime.Success.{Runs, check_ok, checked_write_ok, lift_then, then_ok, write_ok}
use photobridge.Runtime.Rows.{
  IsAttemptRow, IsOwnedTask, IsReplaced, column_value, is_attempt-IsAttemptRow,
  update_where-IsOneChanged,
}

pub event_ok :
    (plan task : Bytes) (event : String) (epoch : ℕ) (attempt : Bytes) (detail : EventDetail)
    (s : Repository) {s' : Repository} {u : Unit {0}}
    → Runs (append_event plan task event epoch attempt detail) s u s'
    → s'.tables ≡ record (s.tables) {
      events =
          s.tables.events
          ++ record {
            plan_id = plan;
            task_id = task;
            event_type = event;
            owner_epoch = epoch;
            attempt_id = attempt;
            detail = detail;
            created_at_ns = s.now;
          }
            ∷ [];
    }
unfolding append_event add_event
event_ok plan task event epoch attempt detail s h =
    sym (ap (λ (p : Unit {0} × Tables). p.1) (ok_injective (checked_write_ok _ s h)))

pub attempt_ok :
    (plan task attempt : Bytes) (epoch : ℕ) (state : FileAttemptState) (outcome : Option TaskState)
    (error : Option Error) (finish : Bool) (s : Repository) {s' : Repository} {u : Unit {0}}
    → Runs (update_attempt_state plan task attempt epoch state outcome error finish) s u s'
    → (count_where (is_attempt plan task attempt epoch) s.tables.attempts ≡ 1)
      × (s'.tables ≡ record (s.tables) {
        attempts =
            update_where
              (is_attempt plan task attempt epoch)
              (set_attempt s.now state outcome error finish)
              s.tables.attempts;
      })
unfolding update_attempt_state update_attempts
attempt_ok plan task attempt epoch state outcome error finish s h =
    let (n, s1, w, h1) =
      then_ok
        (write
          (update_attempts plan task attempt epoch (set_attempt s.now state outcome error finish)))
        (λ changes.
          lift (
            reject_if (changes != 1) invalid_argument
              "task attempt was not found for state update"))
        s h in
    let (b, q) = check_ok (n != 1) invalid_argument _ s1 h1 in
    let u = write_ok _ s w in
    (
      ap (λ (p : ℕ × Tables). p.0) u ∙ (nat_beq_iff n 1).0 (ground arith),
      ap (λ (r : Repository). r.tables) q ∙ sym (ap (λ (p : ℕ × Tables). p.1) u),
    )

-- One task's row, RUNNING under `epoch` and `attempt`, is now without an owner and in the state
-- `next`; the attempt's one row is closed with `state`; an event is logged; all else is as it was.
pub record IsReleased (plan task : Bytes) (epoch : ℕ) (attempt : Bytes) (next : TaskState)
    (error : Option Error) (state : FileAttemptState) (event : ℕ → EventRow) (t u : Tables)
    : Type 0 where
  pub now : ℕ
  pub later : ℕ
  pub owned : TaskRow
  pub owned_is : IsOwnedTask plan task epoch attempt owned
  pub released : IsReplaced t.tasks u.tasks owned (record owned {
    state = next;
    owner_epoch = none;
    active_attempt_id = none;
    last_error = error;
  })
  pub tried : AttemptRow
  pub tried_is : IsAttemptRow plan task attempt epoch tried
  pub closed : IsReplaced t.attempts u.attempts tried (record tried {
    file_state = state;
    finished_at_ns = some now;
    result = some next;
    error = error;
  })
  pub logged : u.events ≡ t.events ++ event later ∷ []
  pub same_rest : u ≡ record t { tasks = u.tasks; attempts = u.attempts; events = u.events }

is_owned-IsOwnedTask :
    (plan task : Bytes) (epoch : ℕ) (attempt : Bytes) (r : TaskRow)
    → is_owned plan task epoch attempt r ≡ true
    → IsOwnedTask plan task epoch attempt r
unfolding is_owned
is_owned-IsOwnedTask plan task epoch attempt r h = record {
  of_plan = (list_beq_iff r.plan_id plan).0 (ground arith);
  of_task = (list_beq_iff r.task_id task).0 (ground arith);
  is_running = (task_index_iff r.state TaskState.running).0 (ground arith);
  of_epoch = column_value r.owner_epoch epoch (ground arith);
  of_attempt = column_value r.active_attempt_id attempt (ground arith);
}

-- What the two updates and the event make of the tables.
updates-IsReleased :
    (plan task : Bytes) (epoch : ℕ) (attempt : Bytes) (next : TaskState) (error : Option Error)
    (state : FileAttemptState) (event : ℕ → EventRow) (now later : ℕ) (t : Tables)
    → count_where (is_owned plan task epoch attempt) t.tasks ≡ 1
    → count_where (is_attempt plan task attempt epoch) t.attempts ≡ 1
    → IsReleased plan task epoch attempt next error state event t record t {
      tasks = update_where (is_owned plan task epoch attempt) (release next error) t.tasks;
      attempts =
          update_where
            (is_attempt plan task attempt epoch)
            (set_attempt now state (some next) error true)
            t.attempts;
      events = t.events ++ event later ∷ [];
    }
updates-IsReleased plan task epoch attempt next error state event now later t h k =
    let (r, c) =
      update_where-IsOneChanged (is_owned plan task epoch attempt) (release next error) t.tasks h in
    let (a, d) =
      update_where-IsOneChanged (is_attempt plan task attempt epoch)
        (set_attempt now state (some next) error true) t.attempts k in
    record {
      now = now;
      later = later;
      owned = r;
      owned_is = is_owned-IsOwnedTask plan task epoch attempt r c.passed;
      released = c.replaced;
      tried = a;
      tried_is = is_attempt-IsAttemptRow plan task attempt epoch a d.passed;
      closed = d.replaced;
      logged = refl;
      same_rest = refl;
    }

-- The statements that FinishTask and RecoverTask have in common.
unfoldable pub release_steps :
    Bytes
    → Bytes
    → ℕ
    → Bytes
    → TaskState
    → Option Error
    → FileAttemptState
    → String
    → String
    → ℕ
    → EventDetail
    → M (Unit {0})
release_steps plan task epoch attempt next error state message event under detail = do
  changes ← write (update_released plan task epoch attempt next error)
  lift (reject_if (changes != 1) invalid_argument message)
  update_attempt_state plan task attempt epoch state (some next) error true
  append_event plan task event under attempt detail

abbrev pub event_row : Bytes → Bytes → String → ℕ → Bytes → EventDetail → ℕ → EventRow
event_row plan task event epoch attempt detail now = record {
  plan_id = plan;
  task_id = task;
  event_type = event;
  owner_epoch = epoch;
  attempt_id = attempt;
  detail = detail;
  created_at_ns = now;
}

pub steps-IsReleased :
    (plan task : Bytes) (epoch : ℕ) (attempt : Bytes) (next : TaskState) (error : Option Error)
    (state : FileAttemptState) (message event : String) (under : ℕ) (detail : EventDetail)
    (s : Repository) {s' : Repository} {u : Unit {0}}
    → Runs
        (release_steps plan task epoch attempt next error state message event under detail)
        s
        u
        s'
    → IsReleased plan task epoch attempt next error state
        (event_row plan task event under attempt detail)
        s.tables
        s'.tables
unfolding release_steps update_released
steps-IsReleased plan task epoch attempt next error state message event under detail s h =
    let (n, s1, w, h1) =
      then_ok (write (update_released plan task epoch attempt next error)) _ s h in
    let (_, one, h2) = lift_then (reject_if (n != 1) _ _) _ s1 h1 in
    let (_, s2, a, h3) =
      then_ok (update_attempt_state plan task attempt epoch state (some next) error true)
        (λ _. append_event plan task event under attempt detail) s1 h2 in
    let v = write_ok (update_released plan task epoch attempt next error) s w in
    let (one', b) = attempt_ok plan task attempt epoch state (some next) error true s1 a in
    let e = event_ok plan task event under attempt detail s2 h3 in
    let moved : s1.tables ≡ (update_released plan task epoch attempt next error s.tables).1 =
      sym (ap (λ (p : ℕ × Tables). p.1) v) in
    let one_task : count_where (is_owned plan task epoch attempt) s.tables.tasks ≡ 1 =
      ap (λ (p : ℕ × Tables). p.0) v ∙ (nat_beq_iff n 1).0 (ground arith) in
    let one_attempt : count_where (is_attempt plan task attempt epoch) s.tables.attempts ≡ 1 =
      subst (λ (t : Tables). count_where (is_attempt plan task attempt epoch) t.attempts ≡ 1) moved
        one' in
    let written =
      e
      ∙ ap
          (λ (t : Tables). record t {
            events = t.events ++ event_row plan task event under attempt detail s2.now ∷ [];
          })
          (b
            ∙ ap
                (λ (t : Tables). record t {
                  attempts =
                      update_where (is_attempt plan task attempt epoch)
                        (set_attempt s1.now state (some next) error true) t.attempts;
                })
                moved) in
    subst
      (IsReleased plan task epoch attempt next error state
        (event_row plan task event under attempt detail) s.tables)
      (sym written)
      (updates-IsReleased plan task epoch attempt next error state
        (event_row plan task event under attempt detail) s1.now s2.now s.tables one_task
        one_attempt)

pub moved-IsReleased :
    {plan task : Bytes} {epoch : ℕ} {attempt : Bytes} {next : TaskState} {error : Option Error}
    {state : FileAttemptState} {event : ℕ → EventRow} {t t' u u' : Tables}
    → t' ≡ t
    → u ≡ u'
    → IsReleased plan task epoch attempt next error state event t' u'
    → IsReleased plan task epoch attempt next error state event t u
moved-IsReleased {plan} {task} {epoch} {attempt} {next} {error} {state} {event} {u = u} e f r =
    subst (λ x. IsReleased plan task epoch attempt next error state event x u) e
      (subst (IsReleased plan task epoch attempt next error state event _) (sym f) r)
