-- ===== src/Runtime/Receipts/Persisted.antt =====
-- src/app/task_runtime_repository.cpp: PersistVerifiedReceipt and then ReadVerifiedReceipt.
use photobridge.Base.{
  Bool, Bool-cases, Bytes, List, Option, String, ap, arith, false, has_nul, inl, inr, is_empty,
  list_eq, nat_eq, not, option_eq, some, string_eq, subst, sym, ℕ, ◌!=◌, ◌==◌, ◌||◌, ◌∙◌, ◌≡◌,
}
use photobridge.Common.Status.{Error, fail, internal, ok, reject_if}
use photobridge.Model.Task.{
  FileAttemptState, TaskState, attempt_state_eq, task_state_eq, task_type_eq,
}
use photobridge.Filesystem.Reconciler.{VerifiedReceipt}
use photobridge.Runtime.Tables.{EventDetail, ReceiptRow, Tables, is_receipt, is_task, select_first}
use photobridge.Runtime.Store.{Repository, checked_write, next_fault, query, sqlite_call, write}
use photobridge.Runtime.Sql.{
  add_event, append_event, check_epoch_attempt, check_ids, check_task_ownership, found, unowned,
  update_attempt_state, update_attempts,
}
use photobridge.Runtime.Receipts.{
  after_insert, check_receipt, confirm_receipt, insert_receipt, persist_body,
  persist_verified_receipt, read_verified_receipt, receipt_of_row, record_durable, row_of_receipt,
  same_verified_receipt,
}
use photobridge.Runtime.Success.{
  Runs, check_ok, checked_write_ok, fenced_ok, found_ok, lift_ok, lift_then, query_ok, state_of,
  then_ok, value_of, write_ok,
}
use photobridge.Runtime.Receipts.RoundTrip.{
  Holds, IsReceipt, insert-Holds, receipt_of_row-row_of_receipt, same_receipt,
}

tables_of : {s s' : Repository} → s' ≡ s → s'.tables ≡ s.tables
tables_of e = ap (λ (r : Repository). r.tables) e

ownership_keeps :
    (plan task : Bytes) (epoch : ℕ) (attempt : Bytes) (s : Repository) {s' : Repository}
    {u : Unit {0}}
    → Runs (check_task_ownership plan task epoch attempt) s u s'
    → s'.tables ≡ s.tables
unfolding check_task_ownership
ownership_keeps plan task epoch attempt s h =
    let (o, s1, q, h1) = then_ok (query (λ t. select_first (is_task plan task) t.tasks)) _ s h in
    let (row, f, h2) = lift_then (found o "task was not found") _ s1 h1 in
    let (_, g, h3) = lift_then (reject_if (unowned row) internal _) _ s1 h2 in
    tables_of (state_of h3) ∙ (query_ok _ s q).1

attempt_keeps :
    (plan task attempt : Bytes) (epoch : ℕ) (state : FileAttemptState) (outcome : Option TaskState)
    (error : Option Error) (finish : Bool) (s : Repository) {s' : Repository} {u : Unit {0}}
    → Runs (update_attempt_state plan task attempt epoch state outcome error finish) s u s'
    → s'.tables.receipts ≡ s.tables.receipts
unfolding update_attempt_state update_attempts
attempt_keeps plan task attempt epoch state outcome error finish s h =
    let (n, s1, w, h1) = then_ok (write _) _ s h in
    ap (λ (t : Tables). t.receipts) (tables_of (state_of h1))
    ∙ sym (ap (λ (p : ℕ × Tables). p.1.receipts) (write_ok _ s w))

event_keeps :
    (plan task : Bytes) (event : String) (epoch : ℕ) (attempt : Bytes) (detail : EventDetail)
    (s : Repository) {s' : Repository} {u : Unit {0}}
    → Runs (append_event plan task event epoch attempt detail) s u s'
    → s'.tables.receipts ≡ s.tables.receipts
unfolding append_event add_event
event_keeps plan task event epoch attempt detail s h =
    let e = checked_write_ok _ s h in ground arith

durable_keeps :
    (plan : Bytes) (r : VerifiedReceipt) (s : Repository) {s' : Repository} {u : Unit {0}}
    → Runs (record_durable plan r) s u s'
    → s'.tables.receipts ≡ s.tables.receipts
unfolding record_durable
durable_keeps plan r s h =
    let (_, s1, a, k) = then_ok (update_attempt_state _ _ _ _ _ _ _ _) _ s h in
    event_keeps _ _ _ _ _ _ s1 k ∙ attempt_keeps _ _ _ _ _ _ _ _ s a

-- What a reader that succeeded has found.
read_ok :
    (plan task attempt : Bytes) (s : Repository) {s' : Repository} {x : VerifiedReceipt}
    → Runs (read_verified_receipt plan task attempt) s x s'
    → (s'.tables ≡ s.tables)
      × (row : ReceiptRow) × (select_first (is_receipt plan task attempt) s.tables.receipts
          ≡ some row)
      × (receipt_of_row row ≡ ok x)
unfolding read_verified_receipt
read_ok plan task attempt s h =
    let (_, c1, h1) = lift_then (check_ids plan task) _ s h in
    let (_, c2, h2) = lift_then (reject_if (is_empty attempt || has_nul attempt) _ _) _ s h1 in
    let (o, s1, q, h3) =
      then_ok (query (λ t. select_first (is_receipt plan task attempt) t.receipts)) _ s h2 in
    let (row, f, h4) = lift_then (found o _) _ s1 h3 in
    let (e, t) = query_ok _ s q in
    (tables_of (state_of h4) ∙ t, row, e ∙ (found_ok o _ s1 (ap (λ x. (x, s1)) f)).0, value_of h4)

confirm-Holds :
    (plan : Bytes) (r : VerifiedReceipt) (s : Repository) {s' : Repository} {u : Unit {0}}
    → Runs (confirm_receipt plan r) s u s'
    → Holds plan r s'.tables.receipts
unfolding confirm_receipt
confirm-Holds plan r s h =
    let (x, s1, m, k) = then_ok (read_verified_receipt plan r.task_id r.attempt_id) _ s h in
    let (t, row, e, y) = read_ok plan r.task_id r.attempt_id s m in
    let (b, q) = check_ok (not (same_verified_receipt x r)) internal _ s1 k in
    record {
      row = row;
      selected =
          ap (λ (v : Tables). select_first (is_receipt plan r.task_id r.attempt_id) v.receipts)
            (tables_of q ∙ t)
          ∙ e;
      reads = y ∙ ap ok (same_receipt x r (ground arith));
    }

moved-Holds :
    (plan : Bytes) (r : VerifiedReceipt) (rows rows' : List ReceiptRow)
    → rows' ≡ rows
    → Holds plan r rows
    → Holds plan r rows'
moved-Holds plan r rows rows' e h = subst (Holds plan r) (sym e) h

after_insert-Holds :
    (plan : Bytes) (r : VerifiedReceipt) (n : ℕ) (s : Repository) {s' : Repository} {u : Unit {0}}
    → (n == 0 ≡ false → Holds plan r s.tables.receipts)
    → Runs (after_insert plan r n) s u s'
    → Holds plan r s'.tables.receipts
unfolding after_insert
after_insert-Holds plan r n s k h = elim (Bool-cases (n == 0)) [
  | inl e ↦ confirm-Holds plan r s (rw e at h)
  | inr e ↦ elim (Bool-cases (n != 1)) [
    | inl f ↦ absurd (let q = (lift_ok (fail internal _) s (rw (e, f) at h)).0 in cc)
    | inr f ↦ moved-Holds plan r _ _ (durable_keeps plan r s (rw (e, f) at h)) (k e)
  ]
]

body-Holds :
    (plan : Bytes) (r : VerifiedReceipt) (s : Repository) {s' : Repository} {u : Unit {0}}
    → receipt_of_row (row_of_receipt plan r) ≡ ok r
    → Runs (persist_body plan r) s u s'
    → Holds plan r s'.tables.receipts
unfolding persist_body
body-Holds plan r s q h =
    let (_, s1, o, h1) =
      then_ok (check_task_ownership plan r.task_id r.owner_epoch r.attempt_id) _ s h in
    let (n, s2, w, h2) = then_ok (checked_write (insert_receipt plan r)) _ s1 h1 in
    after_insert-Holds plan r n s2
      (insert-Holds plan r s1.tables s2.tables n q (checked_write_ok (insert_receipt plan r) s1 w))
      h2

epoch_positive :
    (epoch : ℕ) (attempt : Bytes) {u : Unit {0}}
    → check_epoch_attempt epoch attempt ≡ ok u
    → (epoch == 0 ≡ false) × ((is_empty attempt || has_nul attempt) ≡ false)
unfolding check_epoch_attempt
epoch_positive epoch attempt h = (ground arith, ground arith)

-- A successful PersistVerifiedReceipt of a receipt with fields of their types' sizes, in a write
-- batch or not, leaves tables from which ReadVerifiedReceipt, where its statement does not fail,
-- reads the very receipt that was given.
pub read-persist :
    (plan : Bytes) (r : VerifiedReceipt) (s s' q : Repository)
    → IsReceipt r
    → persist_verified_receipt plan r s ≡ (ok tt, s')
    → q.tables ≡ s'.tables
    → next_fault q.faults ≡ ok tt
    → (read_verified_receipt plan r.task_id r.attempt_id q).0 ≡ ok r
unfolding persist_verified_receipt read_verified_receipt query sqlite_call
read-persist plan r s s' q v h t f =
    let (_, c1, h1) = lift_then (check_ids plan r.task_id) _ s h in
    let (_, c2, h2) = lift_then (check_epoch_attempt r.owner_epoch r.attempt_id) _ s h1 in
    let (_, c3, h3) = lift_then (check_receipt r) _ s h2 in
    let (z, y) = epoch_positive r.owner_epoch r.attempt_id c2 in
    let (b, _) = fenced_ok plan r.owner_epoch _ (persist_body plan r) s h3 in
    let held =
      moved-Holds plan r _ _ (ap (λ (v : Tables). v.receipts) (t ∙ b.same_after))
        (body-Holds plan r b.before (receipt_of_row-row_of_receipt plan r z c3 v) b.ran) in
    rw (c1, y, f, held.selected) held.reads
