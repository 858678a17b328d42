-- ===== src/Runtime/Dependencies.antt =====
-- src/app/task_runtime_repository.cpp: AddDependency, with its recursive query for cycles.
pub mod Ancestors
pub mod Acyclic
use photobridge.Base.{
  Bool, Bytes, List, [], exists, false, if◌then◌else◌, length, list_eq, nat_eq, not, option_eq,
  string_eq, suc, zero, ℕ, ◌&&◌, ◌++◌, ◌+◌, ◌==◌, ◌||◌, ◌∷◌,
}
use photobridge.Common.Status.{Result, fail, invalid_argument, io_error, not_found, ok, reject_if}
use photobridge.Runtime.Tables.{DependencyRow, Tables, is_task}
use photobridge.Runtime.Store.{M, checked_write, lift, query, ◌>>=◌, ◌>>◌}
use photobridge.Runtime.Sql.{check_ids}

abbrev pub contains : Bytes → List Bytes → Bool
contains x [] = false
contains x (y ∷ ys) = y == x || contains x ys

-- SELECT d.depends_on_task_id FROM task_dependency d WHERE d.task_id = task AND d.plan_id = plan
unfoldable pub parents : List DependencyRow → Bytes → Bytes → List Bytes
parents [] plan task = []
parents (d ∷ ds) plan task =
    let rest = parents ds plan task in
    if d.plan_id == plan && d.task_id == task then d.depends_on_task_id ∷ rest else rest

-- The rows that the recursive query has produced, and those that it has yet to expand.
pub record Search : Type 0 where
  pub rows : List Bytes
  pub queue : List Bytes

-- UNION: a row that was produced before is dropped.
unfoldable pub offer : Bytes → Search → Search
offer x s = if contains x s.rows then s else record { rows = x ∷ s.rows; queue = s.queue ++ x ∷ [] }

unfoldable pub enqueue : List Bytes → Search → Search
enqueue [] s = s
enqueue (x ∷ xs) s = enqueue xs (offer x s)

-- The query expands one queued row at a time until none is left.
unfoldable pub ancestors_loop : List DependencyRow → Bytes → ℕ → Search → Search
ancestors_loop deps plan zero s = s
ancestors_loop deps plan (suc fuel) s = elim s.queue [
  | [] ↦ s
  | x ∷ rest ↦
      ancestors_loop deps plan fuel (enqueue (parents deps plan x) (record s { queue = rest }))
]

-- WITH RECURSIVE ancestors(task_id) AS (SELECT task UNION …). Each round expands a row that was not
-- produced before, and the rows but the first stand in the table: its length and one is enough.
unfoldable pub ancestors : List DependencyRow → Bytes → Bytes → Search
ancestors deps plan task =
    ancestors_loop deps plan (length deps + 1) (record { rows = task ∷ []; queue = task ∷ [] })

-- SELECT 1 FROM ancestors WHERE task_id = task
unfoldable pub would_cycle : Bytes → Bytes → Bytes → Tables → Bool
would_cycle plan task depends_on t = contains task (ancestors t.dependencies plan depends_on).rows

abbrev pub is_dependency : Bytes → Bytes → Bytes → DependencyRow → Bool
is_dependency plan task depends_on d =
    d.plan_id == plan && d.task_id == task && d.depends_on_task_id == depends_on

-- INSERT INTO task_dependency SELECT … WHERE EXISTS(…) AND EXISTS(…), with PRIMARY KEY (plan_id,
-- task_id, depends_on_task_id)
unfoldable pub insert_dependency : Bytes → Bytes → Bytes → Tables → Result (ℕ × Tables)
insert_dependency plan task depends_on t =
    if not (exists (is_task plan task) t.tasks && exists (is_task plan depends_on) t.tasks)
    then ok (0, t)
    else if exists (is_dependency plan task depends_on) t.dependencies
    then fail io_error "insert dependency"
    else ok (
      1,
      record t {
        dependencies =
            t.dependencies
            ++ record { plan_id = plan; task_id = task; depends_on_task_id = depends_on } ∷ [];
      },
    )

-- AddDependency
unfoldable pub add_dependency : Bytes → Bytes → Bytes → M (Unit {0})
add_dependency plan task depends_on = do
  lift (check_ids plan task)
  lift (check_ids plan depends_on)
  lift (
      reject_if (task == depends_on) invalid_argument
        "task graph must not contain a self dependency")
  cycle ← query (would_cycle plan task depends_on)
  lift (reject_if cycle invalid_argument "task graph dependency would create a cycle")
  changes ← checked_write (insert_dependency plan task depends_on)
  lift (reject_if (changes == 0) not_found "dependency references an unknown task")
