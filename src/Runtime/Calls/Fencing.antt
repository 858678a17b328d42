-- ===== src/Runtime/Calls/Fencing.antt =====
-- src/app/task_runtime_repository.cpp: the calls of an executor whose epoch has passed.
use photobridge.Base.{
  Bool-cases, Bytes, Option, String, ap, false, inl, inr, list_eq, nat_beq_iff, nat_eq, none,
  option_eq, refl, some, string_eq, subst, ℕ, ◌==◌, ◌≡◌, ◌≢◌,
}
use photobridge.Common.Status.{Result, Result-cases, err, is_ok, ok}
use photobridge.Model.Task.{attempt_state_eq, task_state_eq, task_type_eq}
use photobridge.Runtime.Tables.{Tables}
use photobridge.Runtime.Store.{
  M, Repository, batched_epoch, begin_immediate, begin_with, commit, continue_with, later_faults,
  lift, next_fault, or_rollback, pure, query, rolled_back, sqlite_call, transaction, ◌>>=◌,
}
use photobridge.Runtime.Sql.{current_epoch, fence, fenced, found, read_current_epoch, within}
use photobridge.Runtime.Claim.{claim_next_ready}
use photobridge.Runtime.Attempts.{
  advance_attempt, finish_task, mark_commit_intent, mark_retryable, mark_succeeded,
  mark_temp_written,
}
use photobridge.Runtime.Recovery.{
  recover, recover_inconsistent, recover_retryable, recover_succeeded, recover_task,
}
use photobridge.Runtime.Receipts.{persist_verified_receipt}
use photobridge.Runtime.Calls.{
  Call, acquires, adds, claims, depends, intends, persists, readies, recovers_inconsistent,
  recovers_retryable, recovers_succeeded, retries, run, succeeds, void, writes_temp,
}
use photobridge.Runtime.Calls.Atomicity.{run-atomic}

-- `m` fails where the plan's current epoch is not this one.
pub record Refuses {A : Type 0} (plan : Bytes) (epoch : ℕ) (m : M A) : Type 0 where
  pub at :
      (s : Repository)
      → s.batch ≡ none
      → current_epoch plan s.tables ≢ some epoch
      → is_ok (m s).0 ≡ false

module _ (plan : Bytes) (epoch : ℕ) where
  continue_fails :
      {A B : Type 0} (r : Result A × Repository) (f : A → M B)
      → is_ok r.0 ≡ false
      → is_ok (continue_with r f).0 ≡ false
  continue_fails (ok a, s) f h = cc
  continue_fails (err e, s) f h = refl

  rolled_fails :
      {A : Type 0} (r : Result A × Repository) → is_ok r.0 ≡ false → is_ok (rolled_back r).0 ≡ false
  rolled_fails (ok a, s) h = cc
  rolled_fails (err e, s) h = refl

  fence_none :
      {A : Type 0} (o : Option ℕ) (message : String) (body : M A) (s : Repository)
      → o ≢ some epoch
      → is_ok
          (continue_with
            (lift (found o "migration plan was not found") s)
            (fence epoch message body)).0
        ≡ false
  fence_none none message body s h = refl
  fence_none (some n) message body s h = elim (Bool-cases (n == epoch)) [
    | inl e ↦ absurd (h (ap some ((nat_beq_iff n epoch).0 e)))
    | inr e ↦ rw e refl
  ]

  fence_fails :
      {A : Type 0} (message : String) (body : M A) (s : Repository)
      → current_epoch plan s.tables ≢ some epoch
      → is_ok ((read_current_epoch plan >>= fence epoch message body) s).0 ≡ false
  unfolding read_current_epoch query sqlite_call
  fence_fails message body s h = elim (Result-cases (next_fault s.faults)) [
    | inl (u, e) ↦ rw e (
        fence_none (current_epoch plan s.tables) message body
          (record s { faults = later_faults s.faults }) h)
    | inr (x, e) ↦ rw e refl
  ]

  begun_fails :
      {A : Type 0} (saved : Option Tables) (message : String) (body : M A) (s : Repository)
      → current_epoch plan s.tables ≢ some epoch
      → is_ok
          (continue_with (begin_with saved s) (λ _.
            or_rollback (read_current_epoch plan >>= fence epoch message body) >>= λ a.
            or_rollback commit >>= λ _. pure a)).0
        ≡ false
  unfolding begin_with or_rollback
  begun_fails none message body s h =
      continue_fails (rolled_back ((read_current_epoch plan >>= fence epoch message body) _)) _
        (rolled_fails _ (fence_fails message body (record s { saved = some s.tables }) h))
  begun_fails (some t) message body s h = refl

  pub Refuses-transaction :
      {A : Type 0} (message : String) (body : M A)
      → Refuses plan epoch (transaction (read_current_epoch plan >>= fence epoch message body))
  unfolding transaction begin_immediate sqlite_call
  Refuses-transaction message body = record {
    at = λ s b h. elim (Result-cases (next_fault s.faults)) [
      | inl (u, e) ↦
          rw e (begun_fails s.saved message body (record s { faults = later_faults s.faults }) h)
      | inr (x, e) ↦ rw e refl
    ];
  }

  unbatched_fails :
      {A : Type 0} (batch : Option (Bytes × ℕ)) (message : String) (body : M A) (s : Repository)
      → batch ≡ none
      → is_ok (transaction (read_current_epoch plan >>= fence epoch message body) s).0 ≡ false
      → is_ok (within (batched_epoch batch plan) plan (fence epoch message body) s).0 ≡ false
  unfolding within batched_epoch
  unbatched_fails none message body s b h = h
  unbatched_fails (some p) message body s b h = cc

  pub Refuses-fenced :
      {A : Type 0} (message : String) (body : M A)
      → Refuses plan epoch (fenced plan epoch message body)
  unfolding fenced
  Refuses-fenced message body = record {
    at = λ s b h.
        unbatched_fails s.batch message body s b ((Refuses-transaction message body).at s b h);
  }

  pub Refuses-lift :
      {A B : Type 0} (r : Result A) (f : A → M B)
      → ((a : A) → Refuses plan epoch (f a))
      → Refuses plan epoch (lift r >>= f)
  Refuses-lift (ok a) f h = record { at = (h a).at }
  Refuses-lift (err e) f h = record { at = λ s b h. refl }

  pub Refuses-void : {A : Type 0} (m : M A) → Refuses plan epoch m → Refuses plan epoch (void m)
  Refuses-void m h = record { at = λ s b k. continue_fails (m s) (λ _. pure tt) (h.at s b k) }

-- The plan and the epoch that the caller of a method claims to execute.
unfoldable pub call_epoch : Call → Option (Bytes × ℕ)
call_epoch (acquires plan) = none
call_epoch (adds plan task) = none
call_epoch (readies plan task) = none
call_epoch (depends plan task depends_on) = none
call_epoch (claims plan epoch supplied) = some (plan, epoch)
call_epoch (intends plan task epoch attempt) = some (plan, epoch)
call_epoch (writes_temp plan task epoch attempt) = some (plan, epoch)
call_epoch (succeeds plan task epoch attempt) = some (plan, epoch)
call_epoch (retries plan task epoch attempt status) = some (plan, epoch)
call_epoch (persists plan receipt) = some (plan, receipt.owner_epoch)
call_epoch (recovers_succeeded plan task epoch old_epoch old reason) = some (plan, epoch)
call_epoch (recovers_retryable plan task epoch old_epoch old reason) = some (plan, epoch)
call_epoch (recovers_inconsistent plan task epoch old_epoch old reason) = some (plan, epoch)

abbrev RefusesAt : Option (Bytes × ℕ) → M (Unit {0}) → Type 0
RefusesAt none m = Unit {0}
RefusesAt (some (plan, epoch)) m = Refuses plan epoch m

Refuses-run : (c : Call) → RefusesAt (call_epoch c) (run c)
unfolding run call_epoch claim_next_ready mark_commit_intent mark_temp_written mark_succeeded
    mark_retryable persist_verified_receipt recover_succeeded recover_retryable recover_inconsistent
    advance_attempt finish_task recover recover_task
Refuses-run (acquires plan) = tt
Refuses-run (adds plan task) = tt
Refuses-run (readies plan task) = tt
Refuses-run (depends plan task depends_on) = tt
Refuses-run _ = search (Refuses-lift, Refuses-void, Refuses-transaction, Refuses-fenced) depth 7

-- Of every writing method that names an epoch, called outside every transaction and write batch:
-- where that is not the plan's current epoch, or the plan is not there, the call fails, and it
-- changes no table.
pub stale_call_refused :
    (c : Call) (plan : Bytes) (epoch : ℕ) (s : Repository)
    → call_epoch c ≡ some (plan, epoch)
    → s.saved ≡ none
    → s.batch ≡ none
    → current_epoch plan s.tables ≢ some epoch
    → (is_ok (run c s).0 ≡ false) × ((run c s).1.tables ≡ s.tables)
stale_call_refused c plan epoch s e v b h =
    let f = (subst (λ o. RefusesAt o (run c)) e (Refuses-run c)).at s b h in
    (f, (run-atomic c s v b).2 f)
