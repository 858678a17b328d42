-- ===== src/Runtime/Writer/Begin.antt =====
-- src/app/task_runtime_repository.cpp: the outcome of BeginWriteBatch.
use photobridge.Base.{Bytes, Option, ap, codes, false, inl, inr, none, refl, some, ℕ, ◌∙◌, ◌≡◌}
use photobridge.Common.Status.{Result-cases, Status, err, ok}
use photobridge.Runtime.Tables.{Tables}
use photobridge.Runtime.Store.{
  M, Repository, begin_immediate, begin_with, continue_with, later_faults, next_fault, or_rollback,
  pure, rollback, rolled_back, sqlite_call, ◌>>=◌,
}
use photobridge.Runtime.Sql.{check_epoch_attempt, check_ids, fence, read_current_epoch}
use photobridge.Runtime.Laws.{Inside-fence}
use photobridge.Runtime.Laws.Rules.{Inside-pure}
use photobridge.Runtime.Calls.Atomicity.{anything}
use photobridge.Runtime.Success.{Runs, fence_ok, read_epoch_ok, state_of, then_ok}
use photobridge.Runtime.Writer.{begin_batch, begin_write_batch, has_batch, set_batch}

-- After BeginWriteBatch: the transaction is open, or nothing has happened.
unfoldable pub IsBegun : Bytes × ℕ → Tables → Status × Repository → Type 0
IsBegun b t (ok u, s) = (s.saved ≡ some t) × (s.batch ≡ some b) × (s.tables ≡ t)
IsBegun b t (err e, s) = (s.saved ≡ none) × (s.batch ≡ none) × (s.tables ≡ t)

fenced_begin :
    (plan : Bytes) (epoch : ℕ) (t : Tables) (r : Status × Repository)
    → r.1.saved ≡ some t
    → r.1.batch ≡ none
    → ((u : Unit {0}) (s : Repository) → r ≡ (ok u, s) → s.tables ≡ t)
    → IsBegun (plan, epoch) t (continue_with (rolled_back r) (λ _. set_batch (some (plan, epoch))))
unfolding IsBegun rollback
fenced_begin plan epoch t (ok u, s) v b e = (v, refl, e u s refl)
fenced_begin plan epoch t (err x, s) v b e = rw v (refl, b, refl)

abbrev check_begin : Bytes → ℕ → M (Unit {0})
check_begin plan epoch =
    read_current_epoch plan
    >>= fence epoch "stale executor epoch cannot start a runtime write batch" (pure tt)

check_begin-keeps :
    (plan : Bytes) (epoch : ℕ) (s s' : Repository) (u : Unit {0})
    → Runs (check_begin plan epoch) s u s'
    → s'.tables ≡ s.tables
check_begin-keeps plan epoch s s' u h =
    let (n, s1, r, k) = then_ok (read_current_epoch plan) (fence epoch _ (pure tt)) s h in
    let (e, t) = read_epoch_ok plan s r in
    let (q, m) = fence_ok epoch n _ (pure tt) s1 k in
    ap (λ (r : Repository). r.tables) (state_of m) ∙ t

opened_begin :
    (plan : Bytes) (epoch : ℕ) (saved : Option Tables) (s : Repository)
    → saved ≡ none
    → s.batch ≡ none
    → IsBegun
        (plan, epoch)
        s.tables
        (continue_with
          (begin_with saved s)
          (λ _. or_rollback (check_begin plan epoch) >>= λ _. set_batch (some (plan, epoch))))
unfolding begin_with or_rollback
opened_begin plan epoch (some t) s v b = cc
opened_begin plan epoch none s v b =
    let begun : Repository = record s { saved = some s.tables } in
    let w = (Inside-fence anything plan epoch _ (pure tt) (Inside-pure anything tt)).at begun in
    fenced_begin plan epoch s.tables (check_begin plan epoch begun) w.saved_kept (w.batch_kept ∙ b)
      (λ u s' h. check_begin-keeps plan epoch begun s' u h)

begin_batch-IsBegun :
    (plan : Bytes) (epoch : ℕ) (s : Repository)
    → s.saved ≡ none
    → s.batch ≡ none
    → IsBegun (plan, epoch) s.tables (begin_batch plan epoch s)
unfolding begin_batch begin_immediate sqlite_call IsBegun
begin_batch-IsBegun plan epoch s v b = elim (Result-cases (check_ids plan (codes "batch"))) [
  | inr (x, e) ↦ rw e (v, b, refl)
  | inl (_, e) ↦ elim (Result-cases (check_epoch_attempt epoch (codes "batch"))) [
    | inr (x, e') ↦ rw (e, e') (v, b, refl)
    | inl (_, e') ↦ elim (Result-cases (next_fault s.faults)) [
      | inr (x, e'') ↦ rw (e, e', e'') (v, b, refl)
      | inl (_, e'') ↦
          rw (e, e', e'')
            (opened_begin plan epoch s.saved (record s { faults = later_faults s.faults }) v b)
    ]
  ]
]

pub begin_write_batch-IsBegun :
    (plan : Bytes) (epoch : ℕ) (s : Repository)
    → s.saved ≡ none
    → s.batch ≡ none
    → IsBegun (plan, epoch) s.tables (begin_write_batch plan epoch s)
unfolding begin_write_batch
begin_write_batch-IsBegun plan epoch s v b =
    let e : has_batch s.batch ≡ false = rw b refl in rw e (begin_batch-IsBegun plan epoch s v b)
