-- ===== src/Runtime/Claim/Effect.antt =====
-- src/app/task_runtime_repository.cpp: what a successful ClaimNextReady has done.
use photobridge.Base.{
  Bytes, Option, String, [], ap, arith, codes, exists, false, leb, list_beq_iff, list_eq,
  nat_beq_iff, nat_eq, none, option_eq, some, string_eq, subst, sym, true, ℕ, ◌!=◌, ◌++◌, ◌==◌, ◌∙◌,
  ◌∷◌, ◌≡◌,
}
use photobridge.Common.Status.{ok, ok_injective, reject_if}
use photobridge.Model.Task.{
  FileAttemptState, TaskRuntime, TaskState, attempt_state_eq, task_index_iff, task_state_eq,
  task_type_eq,
}
use photobridge.Runtime.Tables.{
  AttemptRow, EventDetail, Tables, TaskRow, count_where, is_task, select_first, text, update_where,
}
use photobridge.Runtime.Store.{M, Repository, checked_write, pure, query, write, ◌>>=◌, ◌>>◌}
use photobridge.Runtime.Sql.{
  add_event, append_event, check_epoch_attempt, check_ids, current_epoch, found,
  has_unmet_dependency, read_runtime_row, runtime_of, uint32_max,
}
use photobridge.Runtime.Claim.{
  ClaimedTask, attempt_name, claim_next_ready, claim_row, insert_attempt, is_claimable,
  is_claimed_row, least_row, make_running, select_ready, supplied_or, update_claim,
}
use photobridge.Runtime.Claim.Choice.{
  DependenciesDone, IsAmong, NoneBefore, least_row_lem, met-DependenciesDone,
}
use photobridge.Runtime.Success.{
  Runs, checked_write_ok, fence_rest_ok, found_ok, lift_then, query_ok, state_of, then_ok,
  transaction_ok, value_of, write_ok,
}

-- The row of a new attempt.
abbrev pub new_attempt : Bytes → Bytes → Bytes → ℕ → ℕ → AttemptRow
new_attempt attempt plan task epoch now = record {
  attempt_id = attempt;
  plan_id = plan;
  task_id = task;
  owner_epoch = epoch;
  file_state = FileAttemptState.running;
  started_at_ns = now;
  finished_at_ns = none;
  result = none;
  error = none;
}

-- The row that was selected under the plan's current epoch, and what became of it.
pub record IsClaim (plan : Bytes) (epoch : ℕ) (supplied : Option Bytes) (t : Tables)
    (c : ClaimedTask) (u : Tables) (row : TaskRow) : Type 0 where
  pub current : current_epoch plan t ≡ some epoch
  pub among : IsAmong row t.tasks
  pub is_ready : (row.plan_id ≡ plan) × (row.state ≡ TaskState.ready)
  pub dependencies : DependenciesDone t plan row.task_id
  pub first : NoneBefore (is_claimable t plan) row t.tasks
  pub named : c.id ≡ row.task_id
  pub tasks :
      u.tasks
      ≡ update_where
          (is_claimed_row plan row.task_id)
          (make_running epoch (attempt_name supplied plan row))
          t.tasks
  pub only_one : count_where (is_claimed_row plan row.task_id) t.tasks ≡ 1
  pub fresh :
      exists (λ (a : AttemptRow). a.attempt_id == attempt_name supplied plan row) t.attempts ≡ false
  pub attempts :
      (now : ℕ) × (u.attempts
        ≡ t.attempts
          ++ new_attempt (attempt_name supplied plan row) plan row.task_id epoch now ∷ [])
  pub runtime :
      (r : TaskRow) × (select_first (is_task plan row.task_id) u.tasks ≡ some r)
      × (c.runtime ≡ runtime_of r)

claimable_ready :
    (t : Tables) (plan : Bytes) (r : TaskRow)
    → is_claimable t plan r ≡ true
    → (r.plan_id ≡ plan)
      × (r.state ≡ TaskState.ready)
      × (has_unmet_dependency t plan r.task_id ≡ false)
unfolding is_claimable
claimable_ready t plan r h =
    let e : r.plan_id ≡ plan = (list_beq_iff r.plan_id plan).0 (ground arith) in
    (
      e,
      (task_index_iff r.state TaskState.ready).0 (ground arith),
      subst (λ p. has_unmet_dependency t p r.task_id ≡ false) e (ground arith),
    )

select_ready_ok :
    (plan : Bytes) (s : Repository) {s' : Repository} {r : TaskRow}
    → Runs (select_ready plan) s r s'
    → (least_row (is_claimable s.tables plan) s.tables.tasks ≡ some r) × (s'.tables ≡ s.tables)
unfolding select_ready
select_ready_ok plan s h =
    let (o, s1, q, k) = then_ok (query (λ t. least_row (is_claimable t plan) t.tasks)) _ s h in
    let (e, t) = query_ok _ s q in
    let (f, u) = found_ok o _ s1 k in (e ∙ f, ap (λ (x : Repository). x.tables) u ∙ t)

inserted_attempt :
    (attempt plan task : Bytes) (epoch now : ℕ) (t u : Tables) (a : Unit {0})
    → insert_attempt attempt plan task epoch now t ≡ ok (a, u)
    → (exists (λ (r : AttemptRow). r.attempt_id == attempt) t.attempts ≡ false)
      × (u.attempts ≡ t.attempts ++ new_attempt attempt plan task epoch now ∷ [])
      × (u.tasks ≡ t.tasks)
unfolding insert_attempt
inserted_attempt attempt plan task epoch now t u a h = (ground arith, ground arith, ground arith)

event_tables :
    (plan task : Bytes) (event : String) (epoch : ℕ) (attempt : Bytes) (detail : EventDetail)
    (s : Repository) {s' : Repository} {u : Unit {0}}
    → Runs (append_event plan task event epoch attempt detail) s u s'
    → (s'.tables.tasks ≡ s.tables.tasks) × (s'.tables.attempts ≡ s.tables.attempts)
unfolding append_event add_event
event_tables plan task event epoch attempt detail s h =
    let e = checked_write_ok _ s h in (ground arith, ground arith)

runtime_ok :
    (plan task : Bytes) (s : Repository) {s' : Repository} {x : TaskRuntime}
    → Runs (read_runtime_row plan task) s x s'
    → (s'.tables ≡ s.tables)
      × (r : TaskRow) × (select_first (is_task plan task) s.tables.tasks ≡ some r)
      × (x ≡ runtime_of r)
unfolding read_runtime_row
runtime_ok plan task s h =
    let (o, s1, q, k) = then_ok (query (λ t. select_first (is_task plan task) t.tasks)) _ s h in
    let (r, f, m) = lift_then (found o _) _ s1 k in
    let (e, t) = query_ok _ s q in
    (
      ap (λ (x : Repository). x.tables) (state_of m) ∙ t,
      r,
      e ∙ (found_ok o _ s1 (ap (λ x. (x, s1)) f)).0,
      sym (ok_injective (value_of m)),
    )

-- What the claim of a row that was selected has written and read.
record IsClaimRow (plan : Bytes) (epoch : ℕ) (supplied : Option Bytes) (t : Tables)
    (c : ClaimedTask) (u : Tables) (row : TaskRow) : Type 0 where
  pub named : c.id ≡ row.task_id
  pub tasks :
      u.tasks
      ≡ update_where
          (is_claimed_row plan row.task_id)
          (make_running epoch (attempt_name supplied plan row))
          t.tasks
  pub only_one : count_where (is_claimed_row plan row.task_id) t.tasks ≡ 1
  pub fresh :
      exists (λ (a : AttemptRow). a.attempt_id == attempt_name supplied plan row) t.attempts ≡ false
  pub attempts :
      (now : ℕ) × (u.attempts
        ≡ t.attempts
          ++ new_attempt (attempt_name supplied plan row) plan row.task_id epoch now ∷ [])
  pub runtime :
      (r : TaskRow) × (select_first (is_task plan row.task_id) u.tasks ≡ some r)
      × (c.runtime ≡ runtime_of r)

-- The end of a claim: the event, and the row that is read back.
report : Bytes → ℕ → Bytes → TaskRow → M ClaimedTask
report plan epoch attempt row = do
  append_event plan row.task_id "RUNNING" epoch attempt (text "claim")
  runtime ← read_runtime_row plan row.task_id
  pure (record { id = row.task_id; runtime = runtime })

record IsReport (plan : Bytes) (row : TaskRow) (t : Tables) (c : ClaimedTask) (u : Tables)
    : Type 0 where
  pub named : c.id ≡ row.task_id
  pub same_tasks : u.tasks ≡ t.tasks
  pub same_attempts : u.attempts ≡ t.attempts
  pub runtime :
      (r : TaskRow) × (select_first (is_task plan row.task_id) u.tasks ≡ some r)
      × (c.runtime ≡ runtime_of r)

report_ok :
    (plan : Bytes) (epoch : ℕ) (attempt : Bytes) (row : TaskRow) (s : Repository) {s' : Repository}
    {c : ClaimedTask}
    → Runs (report plan epoch attempt row) s c s'
    → IsReport plan row s.tables c s'.tables
unfolding report
report_ok plan epoch attempt row s {s'} {c} h =
    let (_, s1, e, h1) =
      then_ok (append_event plan row.task_id "RUNNING" epoch attempt (text "claim")) _ s h in
    let (x, s2, r, h2) = then_ok (read_runtime_row plan row.task_id) _ s1 h1 in
    let (same, same') = event_tables plan row.task_id "RUNNING" epoch attempt _ s e in
    let (kept, row', selected, reported) = runtime_ok plan row.task_id s1 r in
    let last : s'.tables ≡ s1.tables = ap (λ (z : Repository). z.tables) (state_of h2) ∙ kept in
    record {
      named = sym (ap (λ (z : ClaimedTask). z.id) (ok_injective (value_of h2)));
      same_tasks = ap (λ (t : Tables). t.tasks) last ∙ same;
      same_attempts = ap (λ (t : Tables). t.attempts) last ∙ same';
      runtime = (
        row',
        ap (λ (t : Tables). select_first (is_task plan row.task_id) t.tasks) last ∙ selected,
        sym (ap (λ (z : ClaimedTask). z.runtime) (ok_injective (value_of h2))) ∙ reported,
      );
    }

claim_row_ok :
    (plan : Bytes) (epoch : ℕ) (supplied : Option Bytes) (row : TaskRow) (s : Repository)
    {s' : Repository} {c : ClaimedTask}
    → Runs (claim_row plan epoch supplied row) s c s'
    → IsClaimRow plan epoch supplied s.tables c s'.tables row
unfolding claim_row update_claim report
claim_row_ok plan epoch supplied row s {s'} {c} h =
    let attempt = attempt_name supplied plan row in
    let (_, v, h1) = lift_then (reject_if (leb uint32_max row.attempt_count) _ _) _ s h in
    let (n, s1, w, h2) = then_ok (write (update_claim plan row.task_id epoch attempt)) _ s h1 in
    let (_, one, h3) = lift_then (reject_if (n != 1) _ _) _ s1 h2 in
    let (_, s3, i, h5) =
      then_ok (checked_write (insert_attempt attempt plan row.task_id epoch s1.now))
        (λ _. report plan epoch attempt row) s1 h3 in
    let said = report_ok plan epoch attempt row s3 h5 in
    let written = write_ok (update_claim plan row.task_id epoch attempt) s w in
    let claimed : s1.tables ≡ (update_claim plan row.task_id epoch attempt s.tables).1 =
      sym (ap (λ (p : ℕ × Tables). p.1) written) in
    let (fresh, added, same) =
      inserted_attempt attempt plan row.task_id epoch s1.now s1.tables s3.tables _
        (checked_write_ok (insert_attempt attempt plan row.task_id epoch s1.now) s1 i) in
    record {
      named = said.named;
      tasks = said.same_tasks ∙ same ∙ ap (λ (t : Tables). t.tasks) claimed;
      only_one = ap (λ (p : ℕ × Tables). p.0) written ∙ (nat_beq_iff n 1).0 (ground arith);
      fresh =
          subst
            (λ (t : Tables).
              exists (λ (a : AttemptRow). a.attempt_id == attempt) t.attempts ≡ false)
            claimed fresh;
      attempts = (
        s1.now,
        said.same_attempts
            ∙ added
            ∙ ap
                (λ (t : Tables).
                  t.attempts ++ new_attempt attempt plan row.task_id epoch s1.now ∷ [])
                claimed,
      );
      runtime = said.runtime;
    }

-- A successful ClaimNextReady, under the plan's current epoch, has claimed the first READY task of
-- the plan, in the order of the ids, of which every dependency has succeeded. It has made that one
-- row RUNNING under the epoch and an attempt id that was not in use, has added the attempt, and
-- reports the row that is stored.
pub claim_next_ready-IsClaim :
    (plan : Bytes) (epoch : ℕ) (supplied : Option Bytes) (s s' : Repository) (c : ClaimedTask)
    → claim_next_ready plan epoch supplied s ≡ (ok c, s')
    → (row : TaskRow) × IsClaim plan epoch supplied s.tables c s'.tables row
unfolding claim_next_ready
claim_next_ready-IsClaim plan epoch supplied s s' c h =
    let (_, v, h1) = lift_then (check_ids plan (codes "claim")) _ s h in
    let (_, w, h2) =
      lift_then (check_epoch_attempt epoch (supplied_or supplied (codes "generated"))) _ s h1 in
    let (b, current) =
      fence_rest_ok plan epoch _ (select_ready plan >>= claim_row plan epoch supplied) s
        (transaction_ok _ s h2) in
    let (row, s1, r, k) =
      then_ok (select_ready plan) (claim_row plan epoch supplied) b.before b.ran in
    let (least, same) = select_ready_ok plan b.before r in
    let (test, among, first) = least_row_lem (is_claimable s.tables plan) s.tables.tasks row (
      subst (λ (t : Tables). least_row (is_claimable t plan) t.tasks ≡ some row) b.same_before
        least) in
    let (on_plan, is_free, met) = claimable_ready s.tables plan row test in
    let did =
      subst (λ (t : Tables). IsClaimRow plan epoch supplied t c s'.tables row)
        (same ∙ b.same_before)
        (subst (λ (u : Tables). IsClaimRow plan epoch supplied s1.tables c u row) (sym b.same_after)
          (claim_row_ok plan epoch supplied row s1 k)) in
    (
      row,
      record {
        current = current;
        among = among;
        is_ready = (on_plan, is_free);
        dependencies = met-DependenciesDone s.tables plan row.task_id met;
        first = first;
        named = did.named;
        tasks = did.tasks;
        only_one = did.only_one;
        fresh = did.fresh;
        attempts = did.attempts;
        runtime = did.runtime;
      },
    )
