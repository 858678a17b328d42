-- ===== src/Runtime/Calls/Evidence.antt =====
-- src/app/task_runtime_repository.cpp: what recovery and audit rest on, the receipts and
-- the events, along a history of calls.
use photobridge.Base.{
  Bool, Bool-cases, Bytes, List, [], ap, append-nil, append_assoc, arith, exists, inl, inr, none,
  refl, some, sym, ℕ, ◌++◌, ◌∙◌, ◌∷◌, ◌≡◌,
}
use photobridge.Common.Status.{ok}
use photobridge.Filesystem.Reconciler.{VerifiedReceipt}
use photobridge.Runtime.Tables.{EventRow, ReceiptRow, Tables, is_receipt, select_first}
use photobridge.Runtime.Store.{Repository}
use photobridge.Runtime.Sql.{add_event, update_attempts, update_epoch}
use photobridge.Runtime.Tasks.{update_ready}
use photobridge.Runtime.Claim.{insert_attempt, update_claim}
use photobridge.Runtime.Attempts.{update_released}
use photobridge.Runtime.Receipts.{insert_receipt, row_of_receipt}
use photobridge.Runtime.Laws.{Law}
use photobridge.Runtime.Dependencies.Acyclic.{insert_dependency-evidence}
use photobridge.Runtime.Calls.{Call, history, history-related}

-- `ys` is `xs` with rows added at its end.
abbrev pub Extends {ℓ} : {A : Type ℓ} → List A → List A → Type ℓ
Extends {A} xs ys = (more : List A) × (ys ≡ xs ++ more)

-- The receipts and the events are the old ones with new ones behind them.
pub record Grows (t u : Tables) : Type 0 where
  pub receipts_extend : Extends t.receipts u.receipts
  pub events_extend : Extends t.events u.events

Extends-refl {ℓ} : {A : Type ℓ} (xs : List A) → Extends xs xs
Extends-refl xs = ([], sym (append-nil xs))

Extends-trans {ℓ} : {A : Type ℓ} (xs ys zs : List A) → Extends xs ys → Extends ys zs → Extends xs zs
Extends-trans xs ys zs (m, e) (n, f) = (m ++ n, f ∙ ap (λ l. l ++ n) e ∙ append_assoc xs m n)

same_evidence : (t u : Tables) → u.receipts ≡ t.receipts → u.events ≡ t.events → Grows t u
same_evidence t u e f = record {
  receipts_extend = ([], e ∙ sym (append-nil t.receipts));
  events_extend = ([], f ∙ sym (append-nil t.events));
}

received_evidence :
    (plan : Bytes) (r : VerifiedReceipt) (t u : Tables) (n : ℕ)
    → insert_receipt plan r t ≡ ok (n, u)
    → Grows t u
unfolding insert_receipt
received_evidence plan r t u n h =
    elim (Bool-cases (exists (is_receipt plan r.task_id r.attempt_id) t.receipts)) [
      | inl e ↦ same_evidence t u (ground arith) (ground arith)
      | inr e ↦ record {
        receipts_extend = (row_of_receipt plan r ∷ [], ground arith);
        events_extend = ([], ground (arith, append-nil t.events));
      }
    ]

started_evidence :
    (attempt plan task : Bytes) (epoch now : ℕ) (t u : Tables) (a : Unit {0})
    → insert_attempt attempt plan task epoch now t ≡ ok (a, u)
    → Grows t u
unfolding insert_attempt
started_evidence attempt plan task epoch now t u a h =
    same_evidence t u (ground arith) (ground arith)

logged_evidence :
    (e : EventRow) (t u : Tables) (a : Unit {0}) → add_event e t ≡ ok (a, u) → Grows t u
unfolding add_event
logged_evidence e t u a h = record {
  receipts_extend = ([], ground (arith, append-nil t.receipts));
  events_extend = (e ∷ [], ground arith);
}

growth : Law Grows
unfolding update_epoch update_ready update_claim update_released update_attempts
growth = record {
  same = λ t. same_evidence t t refl refl;
  chain = λ t u v h k. record {
    receipts_extend = Extends-trans _ _ _ h.receipts_extend k.receipts_extend;
    events_extend = Extends-trans _ _ _ h.events_extend k.events_extend;
  };
  epoch = λ plan n t. same_evidence _ _ refl refl;
  added = λ plan task t u a h. same_evidence t u (ground arith) (ground arith);
  readied = λ plan task t. same_evidence _ _ refl refl;
  claimed = λ plan task epoch attempt t. same_evidence _ _ refl refl;
  released = λ plan task epoch attempt next error t v. same_evidence _ _ refl refl;
  started =
      λ attempt plan task epoch now t u a h. started_evidence attempt plan task epoch now t u a h;
  progressed =
      λ plan task attempt epoch now state outcome error finish t. same_evidence _ _ refl refl;
  logged = λ e t u a h. logged_evidence e t u a h;
  received = λ plan r t u n h. received_evidence plan r t u n h;
  depended = λ plan task depends_on t u n w h.
      let (e, f) = insert_dependency-evidence plan task depends_on t u n h in same_evidence t u e f;
}

select-append {ℓ} :
    {A : Type ℓ} (test : A → Bool) (xs ys : List A) (a : A)
    → select_first test xs ≡ some a
    → select_first test (xs ++ ys) ≡ some a
select-append test [] ys a h = cc
select-append test (x ∷ xs) ys a h = elim (Bool-cases (test x)) [
  | inl e ↦ rw e (rw e at h)
  | inr e ↦ rw e (select-append test xs ys a (rw e at h))
]

select-Extends {ℓ} :
    {A : Type ℓ} (test : A → Bool) (xs ys : List A) (a : A)
    → Extends xs ys
    → select_first test xs ≡ some a
    → select_first test ys ≡ some a
select-Extends test xs ys a (m, e) h = rw e (select-append test xs m a h)

-- Through any calls, successful or not, from a state outside every transaction and write batch, the
-- event log is only added to, and the receipt that a
-- reader finds for an attempt is found unchanged ever after.
pub history-evidence :
    (s : Repository) (cs : List Call)
    → s.saved ≡ none
    → s.batch ≡ none
    → Extends s.tables.events (history s cs).tables.events
      × ((plan task attempt : Bytes) (r : ReceiptRow)
          → select_first (is_receipt plan task attempt) s.tables.receipts ≡ some r
          → select_first (is_receipt plan task attempt) (history s cs).tables.receipts ≡ some r)
history-evidence s cs v b =
    let g = history-related growth s cs v b in
    (
      g.events_extend,
      λ plan task attempt r h.
          select-Extends (is_receipt plan task attempt) _ _ r g.receipts_extend h,
    )
