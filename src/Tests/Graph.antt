-- ===== src/Tests/Graph.antt =====
-- The task graph of the small migration.
use photobridge.Base.{
  Bytes, [], arith, codes, false, list_beq, list_beq_iff, list_eq, nat_eq, option_eq, refl,
  string_eq, subst, sym, true, ◌↔◌, ◌∷◌, ◌≡◌,
}
use photobridge.Common.Status.{fail, is_ok, not_found}
use photobridge.Runtime.Store.{checked_write, next_fault, query, sqlite_call}
use photobridge.Runtime.Sql.{check_ids}
use photobridge.Runtime.Dependencies.{
  add_dependency, ancestors, ancestors_loop, enqueue, insert_dependency, offer, parents,
  would_cycle,
}
use photobridge.Runtime.Dependencies.Ancestors.{Edge, Reach, here, step, would_cycle_iff}
use photobridge.Runtime.Dependencies.Acyclic.{IsAcyclic}
use photobridge.Runtime.Calls.{depends, history}
use photobridge.Runtime.Calls.Graph.{history-IsAcyclic}
use photobridge.Tests.Data.{first_id, plan, second_id, store, tables}

-- The second task waits for the first, so the first must not wait for the second.
cycle_found : would_cycle plan first_id second_id tables ≡ true
unfolding would_cycle ancestors ancestors_loop enqueue offer parents list_beq
cycle_found = refl

refused_cycle : is_ok (add_dependency plan first_id second_id store).0 ≡ false
unfolding add_dependency check_ids query sqlite_call next_fault would_cycle ancestors ancestors_loop
    enqueue offer parents list_beq
refused_cycle = refl

unknown_task :
    (add_dependency plan first_id (codes "t9") store).0
    ≡ fail not_found "dependency references an unknown task"
unfolding add_dependency check_ids query sqlite_call next_fault would_cycle ancestors ancestors_loop
    enqueue offer parents list_beq checked_write insert_dependency
unknown_task = refl

would_cycle_iff_example :
    (would_cycle plan first_id second_id tables ≡ true)
    ↔ Reach tables.dependencies plan second_id first_id
would_cycle_iff_example = would_cycle_iff plan first_id second_id tables

-- From a task that waits for none no other is reached.
stuck : {p v : Bytes} → Reach tables.dependencies p first_id v → first_id ≡ v
unfolding list_beq
stuck here = refl
stuck {p} (step {u} {v} r e) =
    let e' = subst (λ (x : Bytes). Edge tables.dependencies p x v) (sym (stuck r)) e in ground arith

tables-IsAcyclic : IsAcyclic tables.dependencies
unfolding IsAcyclic list_beq
tables-IsAcyclic p u v e r =
    let q : first_id ≡ v = (list_beq_iff first_id v).0 (ground arith) in
    let s : first_id ≡ u =
      stuck (subst (λ (x : Bytes). Reach tables.dependencies p x u) (sym q) r) in
    let e' = subst (λ (x : Bytes). Edge tables.dependencies p x v) (sym s) e in ground arith

history-IsAcyclic_example :
    IsAcyclic
      (history store (
        depends plan first_id second_id ∷ depends plan second_id first_id ∷ [])).tables.dependencies
history-IsAcyclic_example =
    history-IsAcyclic store (depends plan first_id second_id ∷ depends plan second_id first_id ∷ [])
      refl refl tables-IsAcyclic
