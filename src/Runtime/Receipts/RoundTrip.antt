-- ===== src/Runtime/Receipts/RoundTrip.antt =====
-- src/app/task_runtime_repository.cpp: the row of a receipt, written and read.
use photobridge.Base.{
  Bool, Bool-cases, Bytes, List, Option, [], ap, arith, beq_refl, exists, false, inl, inr, length,
  list_beq_iff, list_eq, nat_eq, none, option_beq_iff, option_eq, refl, some, string_eq, true, ℕ,
  ◌++◌, ◌==◌, ◌∙◌, ◌∷◌, ◌≡◌,
}
use photobridge.Common.Status.{ok}
use photobridge.Common.Digest.{Digest, IsDigest}
use photobridge.Model.FileIdentity.{FileIdentity, identity_eq}
use photobridge.Model.Task.{attempt_state_eq, task_state_eq, task_type_eq}
use photobridge.Filesystem.Reconciler.{VerifiedReceipt}
use photobridge.Runtime.Identity.RoundTrip.{IsIdentity, decode_identity-encode_identity}
use photobridge.Runtime.Receipts.{
  check_receipt, insert_receipt, receipt_of_row, row_of_receipt, same_verified_receipt,
}
use photobridge.Runtime.Tables.{ReceiptRow, Tables, is_receipt, select_first}

abbrev OfSome {ℓ κ} : {A : Type ℓ} → (A → Type κ) → Option A → Type κ
OfSome P none = Unit
OfSome P (some a) = P a

-- The digests have 32 bytes and the identity's fields 64 bits, as their types have in the source.
pub record IsReceipt (r : VerifiedReceipt) : Type 0 where
  pub source : OfSome IsDigest r.source_digest
  pub target : IsDigest r.target_digest
  pub identity : OfSome IsIdentity r.source_identity

row_fields :
    (plan : Bytes) (r : VerifiedReceipt) (d : Digest) (i : FileIdentity)
    → r.owner_epoch == 0 ≡ false
    → length d ≡ 32
    → length r.target_digest ≡ 32
    → IsIdentity i
    → receipt_of_row
        (row_of_receipt plan (record r { source_digest = some d; source_identity = some i }))
      ≡ ok (record r { source_digest = some d; source_identity = some i })
unfolding receipt_of_row row_of_receipt
row_fields plan r d i e l k h = rw (e, l, k, decode_identity-encode_identity i h) refl

row_of_parts :
    (plan : Bytes) (r : VerifiedReceipt) (d : Option Digest) (i : Option FileIdentity)
    → r.owner_epoch == 0 ≡ false
    → check_receipt (record r { source_digest = d; source_identity = i }) ≡ ok tt
    → OfSome IsDigest d
    → IsDigest r.target_digest
    → OfSome IsIdentity i
    → receipt_of_row (row_of_receipt plan (record r { source_digest = d; source_identity = i }))
      ≡ ok (record r { source_digest = d; source_identity = i })
unfolding check_receipt
row_of_parts plan r none i e c hd ht hi = absurd (ground arith)
row_of_parts plan r (some d) none e c hd ht hi = absurd (ground arith)
row_of_parts plan r (some d) (some i) e c hd ht hi = row_fields plan r d i e hd.0 ht.0 hi

-- The row of a valid receipt is read as that receipt.
pub receipt_of_row-row_of_receipt :
    (plan : Bytes) (r : VerifiedReceipt)
    → r.owner_epoch == 0 ≡ false
    → check_receipt r ≡ ok tt
    → IsReceipt r
    → receipt_of_row (row_of_receipt plan r) ≡ ok r
receipt_of_row-row_of_receipt plan r e c h =
    row_of_parts plan r r.source_digest r.source_identity e c h.source h.target h.identity

-- What the receipts' table holds for the receipt reads as it.
pub record Holds (plan : Bytes) (r : VerifiedReceipt) (rows : List ReceiptRow) : Type 0 where
  pub row : ReceiptRow
  pub selected : select_first (is_receipt plan r.task_id r.attempt_id) rows ≡ some row
  pub reads : receipt_of_row row ≡ ok r

module _ {ℓ} {A : Type ℓ} where
  select_first-append :
      (test : A → Bool) (xs : List A) (a : A)
      → exists test xs ≡ false
      → test a ≡ true
      → select_first test (xs ++ a ∷ []) ≡ some a
  select_first-append test [] a h e = rw e refl
  select_first-append test (x ∷ xs) a h e =
      let k : test x ≡ false = ground arith in rw k (select_first-append test xs a (ground arith) e)

row-is_receipt :
    (plan : Bytes) (r : VerifiedReceipt)
    → is_receipt plan r.task_id r.attempt_id (row_of_receipt plan r) ≡ true
unfolding row_of_receipt
row-is_receipt plan r = rw (beq_refl plan, beq_refl r.task_id, beq_refl r.attempt_id) refl

pub insert-Holds :
    (plan : Bytes) (r : VerifiedReceipt) (t u : Tables) (n : ℕ)
    → receipt_of_row (row_of_receipt plan r) ≡ ok r
    → insert_receipt plan r t ≡ ok (n, u)
    → n == 0 ≡ false
    → Holds plan r u.receipts
unfolding insert_receipt
insert-Holds plan r t u n q h z =
    elim (Bool-cases (exists (is_receipt plan r.task_id r.attempt_id) t.receipts)) [
      | inl e ↦ absurd (ground arith)
      | inr e ↦
          let grown : u.receipts ≡ t.receipts ++ row_of_receipt plan r ∷ [] = ground arith in
          record {
            row = row_of_receipt plan r;
            selected =
                ap (select_first (is_receipt plan r.task_id r.attempt_id)) grown
                ∙ select_first-append (is_receipt plan r.task_id r.attempt_id) t.receipts
                    (row_of_receipt plan r) e (row-is_receipt plan r);
            reads = q;
          }
    ]

pub insert_same :
    (plan : Bytes) (r : VerifiedReceipt) (t u : Tables) (n : ℕ)
    → insert_receipt plan r t ≡ ok (n, u)
    → n == 0 ≡ true
    → u.receipts ≡ t.receipts
unfolding insert_receipt
insert_same plan r t u n h z = ground arith

pub same_receipt : (a b : VerifiedReceipt) → same_verified_receipt a b ≡ true → a ≡ b
unfolding same_verified_receipt
same_receipt a b h =
    let e1 : a.task_id ≡ b.task_id = (list_beq_iff a.task_id b.task_id).0 (ground arith) in
    let e2 : a.attempt_id ≡ b.attempt_id =
      (list_beq_iff a.attempt_id b.attempt_id).0 (ground arith) in
    let e3 : a.owner_epoch ≡ b.owner_epoch = ground arith in
    let e4 : a.temp_path ≡ b.temp_path = (list_beq_iff a.temp_path b.temp_path).0 (ground arith) in
    let e5 : a.final_path ≡ b.final_path =
      (list_beq_iff a.final_path b.final_path).0 (ground arith) in
    let e6 : a.content_size ≡ b.content_size = ground arith in
    let e7 : a.source_digest ≡ b.source_digest =
      (option_beq_iff a.source_digest b.source_digest).0 (ground arith) in
    let e8 : a.target_digest ≡ b.target_digest =
      (list_beq_iff a.target_digest b.target_digest).0 (ground arith) in
    let e9 : a.source_identity ≡ b.source_identity =
      (option_beq_iff a.source_identity b.source_identity).0 (ground arith) in
    λ i. record {
      task_id = e1 i;
      attempt_id = e2 i;
      owner_epoch = e3 i;
      temp_path = e4 i;
      final_path = e5 i;
      content_size = e6 i;
      source_digest = e7 i;
      target_digest = e8 i;
      source_identity = e9 i;
    }
