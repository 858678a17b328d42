-- ===== src/Runtime/Claim/Choice.antt =====
-- src/app/task_runtime_repository.cpp: which task ClaimNextReady selects.
use photobridge.Base.{
  All, All-map, Bool, Bool-cases, Bytes, List, Option, [], ap, arith, exists, false, inl, inr,
  list_beq_iff, list_eq, nat_eq, none, option_eq, refl, some, string_eq, subst, sym, text_less,
  true, ◌!=◌, ◌&&◌, ◌++◌, ◌∙◌, ◌∷◌, ◌≡◌,
}
use photobridge.Model.Task.{
  TaskState, attempt_state_eq, task_index_iff, task_state_eq, task_type_eq,
}
use photobridge.Runtime.Tables.{DependencyRow, Tables, TaskRow, is_task}
use photobridge.Runtime.Sql.{has_unmet_dependency, is_unmet}
use photobridge.Runtime.Claim.{least_row, smaller}

less_irreflexive : (a : Bytes) → text_less a a ≡ false
less_irreflexive [] = refl
less_irreflexive (c ∷ a) = ground (arith, less_irreflexive a)

less_asymmetric : (a b : Bytes) → text_less a b ≡ true → text_less b a ≡ false
less_asymmetric [] [] h = cc
less_asymmetric [] (d ∷ b) h = refl
less_asymmetric (c ∷ a) [] h = cc
less_asymmetric (c ∷ a) (d ∷ b) h = ground (arith, less_asymmetric a b)

not_less_trans :
    (a b c : Bytes) → text_less a b ≡ false → text_less b c ≡ false → text_less a c ≡ false
not_less_trans [] [] [] h k = refl
not_less_trans [] [] (z ∷ c) h k = cc
not_less_trans [] (y ∷ b) c h k = cc
not_less_trans (x ∷ a) b [] h k = refl
not_less_trans (x ∷ a) [] (z ∷ c) h k = cc
not_less_trans (x ∷ a) (y ∷ b) (z ∷ c) h k = ground (arith, not_less_trans a b c)

-- No row that passes the test comes before `r` in the order of the ids.
abbrev pub NoneBefore : (TaskRow → Bool) → TaskRow → List TaskRow → Type 0
NoneBefore test r rows = All (λ x. test x ≡ true → text_less x.task_id r.task_id ≡ false) rows

-- `r` is one of the rows.
abbrev pub IsAmong : TaskRow → List TaskRow → Type 0
IsAmong r rows = (xs : List TaskRow) × (ys : List TaskRow) × (rows ≡ xs ++ r ∷ ys)

abbrev IsLeast : (TaskRow → Bool) → List TaskRow → Option TaskRow → Type 0
IsLeast test rows none = All (λ x. test x ≡ false) rows
IsLeast test rows (some r) = (test r ≡ true) × IsAmong r rows × NoneBefore test r rows

IsAmong-cons : (r x : TaskRow) (rows : List TaskRow) → IsAmong r rows → IsAmong r (x ∷ rows)
IsAmong-cons r x rows (xs, ys, e) = (x ∷ xs, ys, ap (λ (l : List TaskRow). x ∷ l) e)

IsLeast-skip :
    (test : TaskRow → Bool) (x : TaskRow) (rows : List TaskRow) (o : Option TaskRow)
    → test x ≡ false
    → IsLeast test rows o
    → IsLeast test (x ∷ rows) o
IsLeast-skip test x rows none e h = (e, h)
IsLeast-skip test x rows (some r) e (t, m, n) = (t, IsAmong-cons r x rows m, ((λ p. cc), n))

IsLeast-smaller :
    (test : TaskRow → Bool) (x : TaskRow) (rows : List TaskRow) (o : Option TaskRow)
    → test x ≡ true
    → IsLeast test rows o
    → IsLeast test (x ∷ rows) (smaller x o)
IsLeast-smaller test x rows none e h =
    (e, ([], rows, refl), ((λ p. less_irreflexive x.task_id), All-map rows (λ y q p. cc) h))
IsLeast-smaller test x rows (some m) e (t, a, n) =
    elim (Bool-cases (text_less m.task_id x.task_id)) [
      | inl k ↦ rw k (t, IsAmong-cons m x rows a, ((λ p. less_asymmetric m.task_id x.task_id k), n))
      | inr k ↦ rw k (
        e,
        ([], rows, refl),
        (
          (λ p. less_irreflexive x.task_id),
          All-map rows (λ y q p. not_less_trans y.task_id m.task_id x.task_id (q p) k) n,
        ),
      )
    ]

least_row-IsLeast :
    (test : TaskRow → Bool) (rows : List TaskRow) → IsLeast test rows (least_row test rows)
unfolding least_row
least_row-IsLeast test [] = tt
least_row-IsLeast test (x ∷ rows) = elim (Bool-cases (test x)) [
  | inl e ↦ rw e (IsLeast-smaller test x rows (least_row test rows) e (least_row-IsLeast test rows))
  | inr e ↦ rw e (IsLeast-skip test x rows (least_row test rows) e (least_row-IsLeast test rows))
]

-- The row that is selected passes the test, and none that passes it comes before.
pub least_row_lem :
    (test : TaskRow → Bool) (rows : List TaskRow) (r : TaskRow)
    → least_row test rows ≡ some r
    → (test r ≡ true) × IsAmong r rows × NoneBefore test r rows
least_row_lem test rows r h = subst (IsLeast test rows) h (least_row-IsLeast test rows)

-- Every task that the given one depends on has succeeded.
abbrev pub DependenciesDone : Tables → Bytes → Bytes → Type 0
DependenciesDone t plan task =
    All
      (λ (d : DependencyRow).
        d.plan_id ≡ plan
        → d.task_id ≡ task
        → All
            (λ (r : TaskRow).
              r.plan_id ≡ plan → r.task_id ≡ d.depends_on_task_id → r.state ≡ TaskState.succeeded)
            t.tasks)
      t.dependencies

All-exists {ℓ} :
    {A : Type ℓ} (test : A → Bool) (xs : List A)
    → exists test xs ≡ false
    → All (λ x. test x ≡ false) xs
All-exists test [] h = tt
All-exists test (x ∷ xs) h = (ground arith, All-exists test xs (ground arith))

pub met-DependenciesDone :
    (t : Tables) (plan task : Bytes)
    → has_unmet_dependency t plan task ≡ false
    → DependenciesDone t plan task
unfolding has_unmet_dependency
met-DependenciesDone t plan task h =
    All-map t.dependencies
      (λ d k p q.
        All-map t.tasks
          (λ r m a b. (task_index_iff r.state TaskState.succeeded).0 (
            ground (
              arith,
              (list_beq_iff r.plan_id d.plan_id).1 (a ∙ sym p),
              (list_beq_iff r.task_id d.depends_on_task_id).1 b,
            )))
          (All-exists
            (λ (r : TaskRow).
              is_task d.plan_id d.depends_on_task_id r && r.state != TaskState.succeeded)
            t.tasks
            (ground (arith, (list_beq_iff d.plan_id plan).1 p, (list_beq_iff d.task_id task).1 q))))
      (All-exists (is_unmet t plan task) t.dependencies h)
