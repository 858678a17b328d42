-- ===== src/Runtime/Receipts.antt =====
-- src/app/task_runtime_repository.cpp: the receipts, by which an attempt proves that its temporary
-- file is verified and durable before it is published.
pub mod RoundTrip
pub mod Persisted
use photobridge.Base.{
  Bool, Bytes, Option, [], exists, false, has_nul, has_value, if◌then◌else◌, is_empty, length,
  list_eq, ltb, nat_eq, none, not, option_eq, some, string_eq, ℕ, ◌!=◌, ◌&&◌, ◌++◌, ◌==◌, ◌||◌, ◌∷◌,
}
use photobridge.Common.Status.{
  Result, Status, err, fail, internal, invalid_argument, io_error, ok, reject_if,
}
use photobridge.Common.Digest.{Digest}
use photobridge.Model.FileIdentity.{FileIdentity, identity_eq}
use photobridge.Model.Task.{FileAttemptState, attempt_state_eq, task_state_eq, task_type_eq}
use photobridge.Filesystem.Reconciler.{VerifiedReceipt}
use photobridge.Runtime.Tables.{AttemptRow, ReceiptRow, Tables, is_receipt, select_first, text}
use photobridge.Runtime.Identity.{decode_identity, encode_identity}
use photobridge.Runtime.Store.{M, checked_write, lift, query, ◌>>=◌, ◌>>◌}
use photobridge.Runtime.Sql.{
  append_event, check_epoch_attempt, check_ids, check_task_ownership, fenced, found, int64_max,
  update_attempt_state,
}

-- SameVerifiedReceipt
unfoldable pub same_verified_receipt : VerifiedReceipt → VerifiedReceipt → Bool
same_verified_receipt a b =
    a.task_id == b.task_id
    && a.attempt_id == b.attempt_id
    && a.owner_epoch == b.owner_epoch
    && a.temp_path == b.temp_path
    && a.final_path == b.final_path
    && a.content_size == b.content_size
    && a.source_digest == b.source_digest
    && a.target_digest == b.target_digest
    && a.source_identity == b.source_identity

abbrev pub with_identity : ReceiptRow → Result FileIdentity → Result VerifiedReceipt
with_identity r (err e) = err e
with_identity r (ok identity) = ok (record {
  task_id = r.task_id;
  attempt_id = r.attempt_id;
  owner_epoch = r.owner_epoch;
  temp_path = r.temp_path;
  final_path = r.final_path;
  content_size = r.content_size;
  source_digest = some r.source_digest;
  target_digest = r.target_digest;
  source_identity = some identity;
})

-- A row as it is read: the columns' types are right, since the repository wrote them.
unfoldable pub receipt_of_row : ReceiptRow → Result VerifiedReceipt
receipt_of_row r =
    if r.owner_epoch == 0
    then fail internal "verified receipt has an invalid epoch or content size"
    else if length r.source_digest != 32 || length r.target_digest != 32
    then fail internal "verified receipt has invalid digest"
    else with_identity r (decode_identity r.source_identity)

-- ReadVerifiedReceipt
unfoldable pub read_verified_receipt : Bytes → Bytes → Bytes → M VerifiedReceipt
read_verified_receipt plan task attempt = do
  lift (check_ids plan task)
  lift (
      reject_if (is_empty attempt || has_nul attempt) invalid_argument
        "attempt id must be non-empty and NUL-free")
  o ← query (λ t. select_first (is_receipt plan task attempt) t.receipts)
  row ← lift (found o "verified receipt was not found")
  lift (receipt_of_row row)

-- The fields that must be there.
unfoldable pub check_receipt : VerifiedReceipt → Status
check_receipt r =
    if is_empty r.temp_path
      || is_empty r.final_path
      || not (has_value r.source_digest)
      || not (has_value r.source_identity)
    then fail invalid_argument "verified receipt is missing required fields"
    else reject_if (ltb int64_max r.content_size) invalid_argument
        "verified receipt size exceeds SQLite integer range"

abbrev pub digest_or_empty : Option Digest → Digest
digest_or_empty none = []
digest_or_empty (some d) = d

abbrev pub encoded_identity : Option FileIdentity → Bytes
encoded_identity none = []
encoded_identity (some i) = encode_identity i

unfoldable pub row_of_receipt : Bytes → VerifiedReceipt → ReceiptRow
row_of_receipt plan r = record {
  plan_id = plan;
  task_id = r.task_id;
  attempt_id = r.attempt_id;
  owner_epoch = r.owner_epoch;
  temp_path = r.temp_path;
  final_path = r.final_path;
  content_size = r.content_size;
  source_digest = digest_or_empty r.source_digest;
  target_digest = r.target_digest;
  source_identity = encoded_identity r.source_identity;
}

-- INSERT … ON CONFLICT(plan_id, task_id, attempt_id) DO NOTHING, with the rows that it changed. The
-- attempt's foreign key is what SQLite may refuse; the task's holds where the task is owned.
unfoldable pub insert_receipt : Bytes → VerifiedReceipt → Tables → Result (ℕ × Tables)
unfolding row_of_receipt
insert_receipt plan r t =
    if exists (is_receipt plan r.task_id r.attempt_id) t.receipts
    then ok (0, t)
    else if not (exists (λ (a : AttemptRow). a.attempt_id == r.attempt_id) t.attempts)
    then fail io_error "insert verified receipt"
    else ok (1, record t { receipts = t.receipts ++ row_of_receipt plan r ∷ [] })

unfoldable pub confirm_receipt : Bytes → VerifiedReceipt → M (Unit {0})
confirm_receipt plan r = do
  existing ← read_verified_receipt plan r.task_id r.attempt_id
  lift (
      reject_if (not (same_verified_receipt existing r)) internal
        "verified receipt conflicts with existing evidence")

unfoldable pub record_durable : Bytes → VerifiedReceipt → M (Unit {0})
record_durable plan r = do
  update_attempt_state plan r.task_id r.attempt_id r.owner_epoch FileAttemptState.verified_durable
      none none false
  append_event plan r.task_id "VERIFIED_DURABLE" r.owner_epoch r.attempt_id
      (text "receipt persisted before publish")

unfoldable pub after_insert : Bytes → VerifiedReceipt → ℕ → M (Unit {0})
unfolding confirm_receipt record_durable
after_insert plan r changes =
    if changes == 0
    then confirm_receipt plan r
    else if changes != 1
    then lift (fail internal "verified receipt insert changed an unexpected number of rows")
    else record_durable plan r

unfoldable pub persist_body : Bytes → VerifiedReceipt → M (Unit {0})
unfolding insert_receipt after_insert
persist_body plan r = do
  check_task_ownership plan r.task_id r.owner_epoch r.attempt_id
  changes ← checked_write (insert_receipt plan r)
  after_insert plan r changes

-- PersistVerifiedReceipt
unfoldable pub persist_verified_receipt : Bytes → VerifiedReceipt → M (Unit {0})
unfolding persist_body
persist_verified_receipt plan r = do
  lift (check_ids plan r.task_id)
  lift (check_epoch_attempt r.owner_epoch r.attempt_id)
  lift (check_receipt r)
  fenced plan r.owner_epoch "stale executor epoch cannot persist a verified receipt"
      (persist_body plan r)
