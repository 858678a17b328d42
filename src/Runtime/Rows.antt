-- ===== src/Runtime/Rows.antt =====
-- src/app/task_runtime_repository.cpp: what an UPDATE that counted one row has done to the rows.
use photobridge.Base.{
  Bool, Bool-cases, Bytes, Eq, List, Option, [], ap, arith, false, inl, inr, list_beq_iff, list_eq,
  nat_beq_iff, nat_eq, none, option_eq, refl, some, string_eq, subst, true, ℕ, ◌++◌, ◌∷◌, ◌≡◌,
}
use photobridge.Model.Task.{TaskState, attempt_state_eq, task_state_eq, task_type_eq}
use photobridge.Runtime.Tables.{
  AttemptRow, TaskRow, column_is, count_where, is_attempt, select_first, update_where,
}

-- The rows are the same but for one, which was `r` and is `r'`.
pub record IsReplaced {ℓ} {R : Type ℓ} (rows changed : List R) (r r' : R) : Type ℓ where
  pub front : List R
  pub back : List R
  pub before : rows ≡ front ++ r ∷ back
  pub after : changed ≡ front ++ r' ∷ back

module _ {ℓ} {R : Type ℓ} (test : R → Bool) (change : R → R) where
  none_changed : (rs : List R) → count_where test rs ≡ 0 → update_where test change rs ≡ rs
  none_changed [] h = refl
  none_changed (r ∷ rs) h = elim (Bool-cases (test r)) [
    | inl e ↦ absurd (let h' = rw e at h in omega arith)
    | inr e ↦ rw e (ap (λ xs. r ∷ xs) (none_changed rs (let h' = rw e at h in omega arith)))
  ]

  -- The first row of the condition has changed, and no other.
  pub record IsOneChanged (rs : List R) (r : R) : Type ℓ where
    pub selected : select_first test rs ≡ some r
    pub passed : test r ≡ true
    pub replaced : IsReplaced rs (update_where test change rs) r (change r)

  first_changed :
      (r : R) (rs : List R)
      → test r ≡ true
      → update_where test change rs ≡ rs
      → IsOneChanged (r ∷ rs) r
  first_changed r rs e same = record {
    selected = rw e refl;
    passed = e;
    replaced = record {
      front = [];
      back = rs;
      before = refl;
      after = rw e (ap (λ xs. change r ∷ xs) same);
    };
  }

  later_changed :
      (q r : R) (rs : List R) → test q ≡ false → IsOneChanged rs r → IsOneChanged (q ∷ rs) r
  later_changed q r rs e c = record {
    selected = rw e c.selected;
    passed = c.passed;
    replaced = record {
      front = q ∷ c.replaced.front;
      back = c.replaced.back;
      before = ap (λ xs. q ∷ xs) c.replaced.before;
      after = rw e (ap (λ xs. q ∷ xs) c.replaced.after);
    };
  }

  -- An UPDATE that counted one row has changed one.
  pub update_where-IsOneChanged :
      (rs : List R) → count_where test rs ≡ 1 → (r : R) × IsOneChanged rs r
  update_where-IsOneChanged [] h = absurd (omega arith)
  update_where-IsOneChanged (q ∷ rs) h = elim (Bool-cases (test q)) [
    | inl e ↦ let h' = rw e at h in (q, first_changed q rs e (none_changed rs (omega arith)))
    | inr e ↦
        let h' = rw e at h in
        let (r, c) = update_where-IsOneChanged rs (omega arith) in (r, later_changed q r rs e c)
  ]

pub select_first_passed {ℓ} :
    {R : Type ℓ} (test : R → Bool) (rs : List R) {r : R}
    → select_first test rs ≡ some r
    → test r ≡ true
select_first_passed test [] h = cc
select_first_passed test (q ∷ rs) h = elim (Bool-cases (test q)) [
  | inl e ↦ let h' = rw e at h in let same : q ≡ _ = cc in subst (λ x. test x ≡ true) same e
  | inr e ↦ select_first_passed test rs (rw e at h)
]

-- The task's row is RUNNING under the epoch and the attempt.
pub record IsOwnedTask (plan task : Bytes) (epoch : ℕ) (attempt : Bytes) (r : TaskRow)
    : Type 0 where
  pub of_plan : r.plan_id ≡ plan
  pub of_task : r.task_id ≡ task
  pub is_running : r.state ≡ TaskState.running
  pub of_epoch : r.owner_epoch ≡ some epoch
  pub of_attempt : r.active_attempt_id ≡ some attempt

-- The row is that of the attempt at the task, begun under the epoch.
pub record IsAttemptRow (plan task attempt : Bytes) (epoch : ℕ) (r : AttemptRow) : Type 0 where
  pub of_plan : r.plan_id ≡ plan
  pub of_task : r.task_id ≡ task
  pub named : r.attempt_id ≡ attempt
  pub of_epoch : r.owner_epoch ≡ epoch

pub column_value {ℓ} :
    {A : Type ℓ} ⦃i : Eq A⦄ (o : Option A) (v : A) → column_is o v ≡ true → o ≡ some v
unfolding column_is
column_value ⦃i⦄ none v h = cc
column_value ⦃i⦄ (some c) v h = ap some ((i.beq_iff c v).0 h)

pub is_attempt-IsAttemptRow :
    (plan task attempt : Bytes) (epoch : ℕ) (r : AttemptRow)
    → is_attempt plan task attempt epoch r ≡ true
    → IsAttemptRow plan task attempt epoch r
is_attempt-IsAttemptRow plan task attempt epoch r h = record {
  of_plan = (list_beq_iff r.plan_id plan).0 (ground arith);
  of_task = (list_beq_iff r.task_id task).0 (ground arith);
  named = (list_beq_iff r.attempt_id attempt).0 (ground arith);
  of_epoch = (nat_beq_iff r.owner_epoch epoch).0 (ground arith);
}
