-- ===== src/Runtime/Dependencies/Acyclic.antt =====
-- src/app/task_runtime_repository.cpp: AddDependency and the cycles of the dependency table.
use photobridge.Base.{
  Bool-cases, Bytes, List, [], ap, arith, exists, false, inl, inr, list_beq_iff, list_eq, nat_eq,
  option_eq, string_eq, subst, sym, ℕ, ◌&&◌, ◌++◌, ◌||◌, ◌∷◌, ◌≡◌, ◌⊎◌,
}
use photobridge.Common.Status.{ok}
use photobridge.Runtime.Tables.{DependencyRow, Tables, is_task}
use photobridge.Runtime.Dependencies.{insert_dependency, is_dependency, would_cycle}
use photobridge.Runtime.Dependencies.Ancestors.{Edge, Reach, here, step, would_cycle_iff}

-- No task of any plan depends on itself, directly or through others.
unfoldable pub IsAcyclic : List DependencyRow → Type 0
IsAcyclic deps = (plan u v : Bytes) → Edge deps plan u v → ¬ Reach deps plan v u

module _ (plan task depends_on : Bytes) (deps : List DependencyRow) where
  abbrev new_row : DependencyRow
  new_row = record { plan_id = plan; task_id = task; depends_on_task_id = depends_on }

  abbrev IsNew : Bytes → Bytes → Bytes → Type 0
  IsNew p u v = (plan ≡ p) × (task ≡ u) × (depends_on ≡ v)

  exists-append :
      (p u v : Bytes) (ds : List DependencyRow)
      → exists (is_dependency p u v) (ds ++ new_row ∷ [])
        ≡ (exists (is_dependency p u v) ds || is_dependency p u v new_row)
  exists-append p u v [] = ground arith
  exists-append p u v (d ∷ ds) = ground (arith, exists-append p u v ds)

  Edge-cases : (p u v : Bytes) → Edge (deps ++ new_row ∷ []) p u v → Edge deps p u v ⊎ IsNew p u v
  Edge-cases p u v h = elim (Bool-cases (exists (is_dependency p u v) deps)) [
    | inl e ↦ inl e
    | inr e ↦
        let k = exists-append p u v deps in
        inr (
          (list_beq_iff plan p).0 (ground arith),
          (list_beq_iff task u).0 (ground arith),
          (list_beq_iff depends_on v).0 (ground arith),
        )
  ]

  -- A path of the longer table is one of the shorter, or it leads through the new row.
  Through : Bytes → Bytes → Bytes → Type 0
  Through p src v = (plan ≡ p) × Reach deps p src task × Reach deps p depends_on v

  Reach-step :
      (p src u v : Bytes)
      → Reach deps p src u ⊎ Through p src u
      → Edge deps p u v ⊎ IsNew p u v
      → Reach deps p src v ⊎ Through p src v
  unfolding Through
  Reach-step p src u v (inl r) (inl e) = inl (step r e)
  Reach-step p src u v (inr (q, a, b)) (inl e) = inr (q, a, step b e)
  Reach-step p src u v (inl r) (inr (q, x, y)) =
      inr (q, subst (Reach deps p src) (sym x) r, subst (Reach deps p depends_on) y here)
  Reach-step p src u v (inr (q, a, b)) (inr (_, x, y)) =
      inr (q, a, subst (Reach deps p depends_on) y here)

  Reach-cases :
      (p src : Bytes) {v : Bytes}
      → Reach (deps ++ new_row ∷ []) p src v
      → Reach deps p src v ⊎ Through p src v
  Reach-cases p src here = inl here
  Reach-cases p src (step {u} {v} r e) =
      Reach-step p src u v (Reach-cases p src r) (Edge-cases p u v e)

  Reach-trans : (p : Bytes) {u v w : Bytes} → Reach deps p u v → Reach deps p v w → Reach deps p u w
  Reach-trans p r here = r
  Reach-trans p r (step s e) = step (Reach-trans p r s) e

  no_cycle :
      (p u v : Bytes)
      → IsAcyclic deps
      → ¬ Reach deps plan depends_on task
      → Edge deps p u v ⊎ IsNew p u v
      → Reach deps p v u ⊎ Through p v u
      → ⊥
  unfolding IsAcyclic Through
  no_cycle p u v h n (inl e) (inl r) = h p u v e r
  no_cycle p u v h n (inl e) (inr (q, a, b)) =
      n (subst (λ x. Reach deps x depends_on task) (sym q) (Reach-trans p (step b e) a))
  no_cycle p u v h n (inr (q, x, y)) (inl r) = n (
      subst (λ z. Reach deps z depends_on task) (sym q)
        (subst (Reach deps p depends_on) (sym x) (subst (λ z. Reach deps p z u) (sym y) r)))
  no_cycle p u v h n (inr (q, x, y)) (inr (_, a, b)) = n (
      subst (λ z. Reach deps z depends_on task) (sym q)
        (subst (λ z. Reach deps p z task) (sym y) a))

  IsAcyclic-snoc :
      IsAcyclic deps → ¬ Reach deps plan depends_on task → IsAcyclic (deps ++ new_row ∷ [])
  unfolding IsAcyclic
  IsAcyclic-snoc h n p u v e r = no_cycle p u v h n (Edge-cases p u v e) (Reach-cases p v r)

-- The insertion of a dependency for which the query finds no cycle makes none.
pub insert_dependency-IsAcyclic :
    (plan task depends_on : Bytes) (t u : Tables) (n : ℕ)
    → would_cycle plan task depends_on t ≡ false
    → insert_dependency plan task depends_on t ≡ ok (n, u)
    → IsAcyclic t.dependencies
    → IsAcyclic u.dependencies
unfolding insert_dependency
insert_dependency-IsAcyclic plan task depends_on t u n w h k =
    elim (Bool-cases
      (exists (is_task plan task) t.tasks && exists (is_task plan depends_on) t.tasks)) [
        | inr e ↦ subst IsAcyclic (ground arith) k
        | inl e ↦ elim (Bool-cases (exists (is_dependency plan task depends_on) t.dependencies)) [
          | inl f ↦ absurd (ground arith)
          | inr f ↦ subst IsAcyclic (ground arith) (
              IsAcyclic-snoc plan task depends_on t.dependencies k
                λ r. cc ((would_cycle_iff plan task depends_on t).1 r))
        ]
      ]

-- The insertion changes no table but that of the dependencies.
insert_dependency-rest :
    (plan task depends_on : Bytes) (t u : Tables) (n : ℕ)
    → insert_dependency plan task depends_on t ≡ ok (n, u)
    → u ≡ record t { dependencies = u.dependencies }
unfolding insert_dependency
insert_dependency-rest plan task depends_on t u n h =
    elim (Bool-cases
      (exists (is_task plan task) t.tasks && exists (is_task plan depends_on) t.tasks)) [
        | inr e ↦ ground arith
        | inl e ↦ elim (Bool-cases (exists (is_dependency plan task depends_on) t.dependencies)) [
          | inl f ↦ absurd (ground arith)
          | inr f ↦ ground arith
        ]
      ]

module _ (plan task depends_on : Bytes) (t u : Tables) (n : ℕ)
    (h : insert_dependency plan task depends_on t ≡ ok (n, u)) where
  pub insert_dependency-tasks : u.tasks ≡ t.tasks
  insert_dependency-tasks =
      ap (λ (v : Tables). v.tasks) (insert_dependency-rest plan task depends_on t u n h)

  pub insert_dependency-evidence : (u.receipts ≡ t.receipts) × (u.events ≡ t.events)
  insert_dependency-evidence =
      let e = insert_dependency-rest plan task depends_on t u n h in
      (ap (λ (v : Tables). v.receipts) e, ap (λ (v : Tables). v.events) e)
