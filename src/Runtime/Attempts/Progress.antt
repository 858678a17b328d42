-- ===== src/Runtime/Attempts/Progress.antt =====
-- src/app/task_runtime_repository.cpp: what AdvanceAttempt, behind MarkCommitIntent and
-- MarkTempWritten, has done where it succeeded.
use photobridge.Base.{
  Bool-cases, Bytes, String, [], ap, arith, false, inl, inr, list_eq, nat_eq, none, not, option_eq,
  refl, some, string_eq, subst, sym, true, ℕ, ◌++◌, ◌==◌, ◌∙◌, ◌∷◌, ◌≡◌, ◌⊎◌,
}
use photobridge.Common.Status.{internal, invalid_argument, ok, reject_if}
use photobridge.Model.Task.{
  FileAttemptState, TaskState, attempt_index_iff, attempt_state_eq, is_valid_attempt_transition,
  task_index_iff, task_state_eq, task_type_eq,
}
use photobridge.Runtime.Tables.{
  AttemptRow, Tables, TaskRow, is_attempt, is_task, select_first, text, update_where,
}
use photobridge.Runtime.Store.{Repository, query}
use photobridge.Runtime.Sql.{
  append_event, check_task_ownership, found, owner_matches, set_attempt, unowned,
  update_attempt_state,
}
use photobridge.Runtime.Attempts.{advance_attempt, advance_body, advance_from, change_attempt}
use photobridge.Runtime.Attempts.Released.{attempt_ok, event_ok, event_row}
use photobridge.Runtime.Success.{
  IsFence, Runs, check_ok, fenced_ok, found_ok, lift_ok, lift_then, query_ok, then_ok,
}
use photobridge.Runtime.Rows.{
  IsAttemptRow, IsReplaced, column_value, is_attempt-IsAttemptRow, select_first_passed,
  update_where-IsOneChanged,
}

-- The task's first row is RUNNING under the epoch and the attempt.
abbrev pub IsOwner : Bytes → Bytes → ℕ → Bytes → Tables → Type 0
IsOwner plan task epoch attempt t =
    (r : TaskRow) × (select_first (is_task plan task) t.tasks ≡ some r)
    × (r.state ≡ TaskState.running)
    × (r.owner_epoch ≡ some epoch)
    × (r.active_attempt_id ≡ some attempt)

owner_values :
    (epoch : ℕ) (attempt : Bytes) (r : TaskRow)
    → owner_matches epoch attempt r ≡ true
    → (r.state ≡ TaskState.running)
      × (r.owner_epoch ≡ some epoch)
      × (r.active_attempt_id ≡ some attempt)
owner_values epoch attempt r h = (
  (task_index_iff r.state TaskState.running).0 (ground arith),
  column_value r.owner_epoch epoch (ground arith),
  column_value r.active_attempt_id attempt (ground arith),
)

pub ownership_ok :
    (plan task : Bytes) (epoch : ℕ) (attempt : Bytes) (s : Repository) {s' : Repository}
    {u : Unit {0}}
    → Runs (check_task_ownership plan task epoch attempt) s u s'
    → IsOwner plan task epoch attempt s.tables × (s'.tables ≡ s.tables)
unfolding check_task_ownership
ownership_ok plan task epoch attempt s h =
    let (o, s1, q, h1) = then_ok (query (λ t. select_first (is_task plan task) t.tasks)) _ s h in
    let (row, f, h2) = lift_then (found o "task was not found") _ s1 h1 in
    let (_, g, h3) = lift_then (reject_if (unowned row) internal _) _ s1 h2 in
    let (m, k) = check_ok (not (owner_matches epoch attempt row)) invalid_argument _ s1 h3 in
    let (e, t) = query_ok _ s q in
    let (is_running, of_epoch, of_attempt) = owner_values epoch attempt row (ground arith) in
    (
      (row, e ∙ (found_ok o _ s1 (ap (λ x. (x, s1)) f)).0, is_running, of_epoch, of_attempt),
      ap (λ (r : Repository). r.tables) k ∙ t,
    )

-- The attempt's row `r` had the state already and nothing is changed; or that row has moved to it by
-- a valid transition, the event is logged, and nothing else is changed.
abbrev pub IsAdvance :
    Bytes → Bytes → ℕ → Bytes → FileAttemptState → String → AttemptRow → Tables → Tables → Type 0
IsAdvance plan task epoch attempt next event r t u =
    ((r.file_state ≡ next) × (u ≡ t))
    ⊎ ((is_valid_attempt_transition r.file_state next ≡ true)
        × IsReplaced t.attempts u.attempts r
            (record r { file_state = next; finished_at_ns = none; result = none; error = none })
        × (later : ℕ) × (u.events
            ≡ t.events
              ++ event_row plan task event epoch attempt (text "attempt lifecycle") later ∷ [])
        × (u ≡ record t { attempts = u.attempts; events = u.events }))

change_ok :
    (plan task : Bytes) (epoch : ℕ) (attempt : Bytes) (next : FileAttemptState) (event : String)
    (r : AttemptRow) (s : Repository) {s' : Repository} {u : Unit {0}}
    → select_first (is_attempt plan task attempt epoch) s.tables.attempts ≡ some r
    → Runs (change_attempt plan task epoch attempt next event r.file_state) s u s'
    → IsAdvance plan task epoch attempt next event r s.tables s'.tables
unfolding change_attempt
change_ok plan task epoch attempt next event r s sel h =
    let (_, v, h1) =
      lift_then (reject_if (not (is_valid_attempt_transition r.file_state next)) invalid_argument _)
        _ s h in
    let (_, s1, a, h2) =
      then_ok (update_attempt_state plan task attempt epoch next none none false)
        (λ _. append_event plan task event epoch attempt (text "attempt lifecycle")) s h1 in
    let (one, moved) = attempt_ok plan task attempt epoch next none none false s a in
    let (q, c) =
      update_where-IsOneChanged (is_attempt plan task attempt epoch)
        (set_attempt s.now next none none false) s.tables.attempts one in
    let row : q ≡ r = let both = sym c.selected ∙ sel in cc in
    let written =
      event_ok plan task event epoch attempt (text "attempt lifecycle") s1 h2
      ∙ ap
          (λ (t : Tables). record t {
            events =
                t.events
                ++ event_row plan task event epoch attempt (text "attempt lifecycle") s1.now ∷ [];
          })
          moved in
    subst (IsAdvance plan task epoch attempt next event r s.tables) (sym written) (
      inr (
        ground arith,
        subst
            (λ x.
              IsReplaced s.tables.attempts
                (update_where (is_attempt plan task attempt epoch)
                  (set_attempt s.now next none none false) s.tables.attempts)
                x (set_attempt s.now next none none false x))
            row c.replaced,
        s1.now,
        refl,
        refl,
      ))

from_ok :
    (plan task : Bytes) (epoch : ℕ) (attempt : Bytes) (next : FileAttemptState) (event : String)
    (r : AttemptRow) (s : Repository) {s' : Repository} {u : Unit {0}}
    → select_first (is_attempt plan task attempt epoch) s.tables.attempts ≡ some r
    → Runs (advance_from plan task epoch attempt next event r.file_state) s u s'
    → IsAdvance plan task epoch attempt next event r s.tables s'.tables
unfolding advance_from
from_ok plan task epoch attempt next event r s sel h = elim (Bool-cases (r.file_state == next)) [
  | inl e ↦
      let k = (lift_ok (ok tt) s (rw e at h)).1 in
      inl ((attempt_index_iff r.file_state next).0 e, ap (λ (r : Repository). r.tables) k)
  | inr e ↦ change_ok plan task epoch attempt next event r s sel (rw e at h)
]

-- A successful AdvanceAttempt ran under the batch's epoch or the plan's current one, for the attempt
-- that owned the running task. Either the attempt had the state already and nothing is changed, or
-- its one row has moved to it by a valid transition and the event is logged, and nothing else.
pub advance_attempt-IsAdvance :
    (plan task : Bytes) (epoch : ℕ) (attempt : Bytes) (next : FileAttemptState) (event : String)
    (s s' : Repository)
    → advance_attempt plan task epoch attempt next event s ≡ (ok tt, s')
    → IsFence s.batch plan epoch s.tables
      × IsOwner plan task epoch attempt s.tables
      × (r : AttemptRow) × (select_first (is_attempt plan task attempt epoch) s.tables.attempts
          ≡ some r)
      × IsAttemptRow plan task attempt epoch r
      × IsAdvance plan task epoch attempt next event r s.tables s'.tables
unfolding advance_attempt advance_body
advance_attempt-IsAdvance plan task epoch attempt next event s s' h =
    let (b, f) = fenced_ok plan epoch _ (advance_body plan task epoch attempt next event) s h in
    let (_, s1, c, h1) = then_ok (check_task_ownership plan task epoch attempt) _ b.before b.ran in
    let (owner, t) = ownership_ok plan task epoch attempt b.before c in
    let (o, s2, q, h2) =
      then_ok (query (λ t. select_first (is_attempt plan task attempt epoch) t.attempts)) _ s1 h1 in
    let (row, g, h3) = lift_then (found o "task attempt was not found") _ s2 h2 in
    let (e, t') = query_ok _ s1 q in
    let start : s2.tables ≡ s.tables = t' ∙ t ∙ b.same_before in
    let selected = e ∙ (found_ok o _ s2 (ap (λ x. (x, s2)) g)).0 in
    let chosen =
      subst
        (λ (t : Tables). select_first (is_attempt plan task attempt epoch) t.attempts ≡ some row)
        (t ∙ b.same_before) selected in
    let at_start =
      subst
        (λ (t : Tables). select_first (is_attempt plan task attempt epoch) t.attempts ≡ some row)
        (sym start) chosen in
    (
      f,
      subst (IsOwner plan task epoch attempt) b.same_before owner,
      row,
      chosen,
      is_attempt-IsAttemptRow plan task attempt epoch row
          (select_first_passed (is_attempt plan task attempt epoch) s.tables.attempts chosen),
      subst (λ (x : Tables). IsAdvance plan task epoch attempt next event row x s'.tables) start
          (subst (IsAdvance plan task epoch attempt next event row s2.tables) (sym b.same_after)
            (from_ok plan task epoch attempt next event row s2 at_start h3)),
    )
