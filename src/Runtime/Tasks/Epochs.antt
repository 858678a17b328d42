-- ===== src/Runtime/Tasks/Epochs.antt =====
-- src/app/task_runtime_repository.cpp: AcquireNextExecutionEpoch.
use photobridge.Base.{
  Bool, Bool-cases, Bytes, List, Option, [], ap, arith, inl, inr, leb, list_eq, nat_eq, none,
  option_eq, refl, some, string_eq, sym, ℕ, ◌!=◌, ◌+◌, ◌∙◌, ◌∷◌, ◌≡◌, ◌≢◌, ◌≤◌,
}
use photobridge.Common.Status.{ok, ok_injective, reject_if}
use photobridge.Runtime.Tables.{
  MigrationRow, PlanRow, Tables, count_where, select_first, update_where,
}
use photobridge.Runtime.Store.{Repository, write}
use photobridge.Runtime.Sql.{
  current_epoch, epoch_column, int64_max, is_migration, is_plan, read_current_epoch, set_epoch,
  update_epoch,
}
use photobridge.Runtime.Tasks.{acquire_next_execution_epoch, advance_epoch, check_plan_id}
use photobridge.Runtime.Success.{
  lift_then, read_epoch_ok, state_of, then_ok, transaction_ok, value_of, write_ok,
}

epoch_of_updated :
    (test : MigrationRow → Bool) (n : ℕ) (rows : List MigrationRow)
    → ((m : MigrationRow) → test (set_epoch n m) ≡ test m)
    → count_where test rows ≢ 0
    → epoch_column (select_first test (update_where test (set_epoch n) rows)) ≡ some n
epoch_of_updated test n [] k c = absurd (c refl)
epoch_of_updated test n (m ∷ ms) k c = elim (Bool-cases (test m)) [
  | inl e ↦ rw (e, k m, e) refl
  | inr e ↦ rw (e, e) (epoch_of_updated test n ms k (λ z. (rw e at c) (omega (arith, z))))
]

is_migration-set_epoch :
    (o : Option PlanRow) (n : ℕ) (m : MigrationRow)
    → is_migration o (set_epoch n m) ≡ is_migration o m
is_migration-set_epoch none n m = refl
is_migration-set_epoch (some p) n m = refl

current_epoch-update_epoch :
    (plan : Bytes) (n : ℕ) (t : Tables)
    → (update_epoch plan n t).0 ≢ 0
    → current_epoch plan (update_epoch plan n t).1 ≡ some n
unfolding update_epoch current_epoch
current_epoch-update_epoch plan n t c =
    epoch_of_updated (is_migration (select_first (is_plan plan) t.plans)) n t.migrations
      (is_migration-set_epoch (select_first (is_plan plan) t.plans) n) c

-- A successful AcquireNextExecutionEpoch gives the plan's epoch and one, which fits in SQLite's
-- integers, and that is the plan's current epoch afterwards.
pub acquire-increments :
    (plan : Bytes) (s s' : Repository) (n : ℕ)
    → acquire_next_execution_epoch plan s ≡ (ok n, s')
    → (old : ℕ) × (current_epoch plan s.tables ≡ some old)
      × (n ≡ old + 1)
      × (n ≤ int64_max)
      × (current_epoch plan s'.tables ≡ some n)
unfolding acquire_next_execution_epoch advance_epoch
acquire-increments plan s s' n h =
    let (_, c, h1) = lift_then (check_plan_id plan) _ s h in
    let b = transaction_ok (advance_epoch plan) s h1 in
    let (old, s1, r, h2) = then_ok (read_current_epoch plan) _ b.before b.ran in
    let (_, v, h3) = lift_then (reject_if (leb int64_max old) _ _) _ s1 h2 in
    let (k, s2, w, h4) = then_ok (write (update_epoch plan (old + 1))) _ s1 h3 in
    let (_, x, h5) = lift_then (reject_if (k != 1) _ _) _ s2 h4 in
    let (e, t) = read_epoch_ok plan b.before r in
    let q : n ≡ old + 1 = sym (ok_injective (value_of h5)) in
    let u = write_ok (update_epoch plan (old + 1)) s1 w in
    let moved : (update_epoch plan (old + 1) s1.tables).0 ≢ 0 =
      λ z. ground (arith, ap (λ (p : ℕ × Tables). p.0) u) in
    let last : s'.tables ≡ (update_epoch plan (old + 1) s1.tables).1 =
      b.same_after
      ∙ ap (λ (r : Repository). r.tables) (state_of h5)
      ∙ sym (ap (λ (p : ℕ × Tables). p.1) u) in
    (
      old,
      ap (current_epoch plan) (sym b.same_before) ∙ e,
      q,
      ground arith,
      ap (current_epoch plan) last
          ∙ current_epoch-update_epoch plan (old + 1) s1.tables moved
          ∙ ap some (sym q),
    )
