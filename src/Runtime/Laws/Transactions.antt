-- ===== src/Runtime/Laws/Transactions.antt =====
-- Rules for the transactions of src/app/task_runtime_repository.cpp: all of the body, or nothing.
use photobridge.Base.{
  Bytes, Option, String, arith, inl, inr, list_eq, nat_eq, none, option_eq, refl, some, string_eq,
  ℕ, ◌==◌, ◌∙◌, ◌≡◌,
}
use photobridge.Common.Status.{Code, Result, Result-cases, err, ok, reject_if}
use photobridge.Runtime.Tables.{Tables}
use photobridge.Runtime.Store.{
  M, Repository, batched_epoch, begin_immediate, begin_with, checked_write, commit, commit_with,
  continue_with, later_faults, lift, next_fault, or_rollback, pure, rollback, rolled_back,
  sqlite_call, store_result, transaction, write, ◌>>=◌,
}
use photobridge.Runtime.Sql.{fence, fenced, read_current_epoch, within}
use photobridge.Runtime.Laws.Rules.{Atomic, Inside, Law, Sound, Within}

module _ {R : Tables → Tables → Type 0} (law : Law R) where
  -- The state after BEGIN.
  abbrev begun : Repository → Repository
  begun s = record s { saved = some s.tables; faults = later_faults s.faults }

  ended :
      {A : Type 0} (s s' : Repository) (a : A)
      → s.batch ≡ none
      → R s.tables s'.tables
      → s'.saved ≡ some s.tables
      → s'.batch ≡ s.batch
      → Sound R s (continue_with (or_rollback commit s') (λ _. pure a))
  unfolding or_rollback commit sqlite_call commit_with rollback
  ended s s' a b r v k = elim (Result-cases (next_fault s'.faults)) [
    | inl (u, e) ↦
        rw (e, v) (record { related = r; closed = refl; unbatched = k ∙ b; unchanged = λ h. cc })
    | inr (x, e) ↦
        rw (e, v)
          (record {
            related = law.same s.tables;
            closed = refl;
            unbatched = k ∙ b;
            unchanged = λ h. refl;
          })
  ]

  finished :
      {A : Type 0} (s : Repository) (r : Result A × Repository)
      → s.batch ≡ none
      → Within R (begun s) r
      → Sound R s (continue_with (rolled_back r) (λ a. or_rollback commit >>= λ _. pure a))
  unfolding rollback
  finished s (ok a, s') b w = ended s s' a b w.related w.saved_kept w.batch_kept
  finished s (err e, s') b w = rw w.saved_kept (record {
    related = law.same s.tables;
    closed = refl;
    unbatched = w.batch_kept ∙ b;
    unchanged = λ h. refl;
  })

  opened :
      {A : Type 0} (s : Repository) (saved : Option Tables) (body : M A)
      → Inside R body
      → saved ≡ none
      → s.batch ≡ none
      → Sound R s (
          continue_with
            (begin_with saved (record s { faults = later_faults s.faults }))
            (λ _. or_rollback body >>= λ a. or_rollback commit >>= λ _. pure a))
  unfolding begin_with or_rollback
  opened s none body h v b = finished s (body (begun s)) b (h.at (begun s))
  opened s (some t) body h v b = cc

  -- A transaction whose body keeps the relation is all or nothing.
  pub Atomic-transaction : {A : Type 0} (body : M A) → Inside R body → Atomic R (transaction body)
  unfolding transaction begin_immediate sqlite_call
  Atomic-transaction body h = record {
    at = λ s v b. elim (Result-cases (next_fault s.faults)) [
      | inl (u, e) ↦ rw e (opened s s.saved body h v b)
      | inr (x, e) ↦
          rw e (record {
            related = law.same s.tables;
            closed = v;
            unbatched = b;
            unchanged = λ h. refl;
          })
    ];
  }

  pub Atomic-lift :
      {A B : Type 0} (r : Result A) (f : A → M B)
      → ((a : A) → Atomic R (f a))
      → Atomic R (lift r >>= f)
  Atomic-lift (ok a) f h = record { at = (h a).at }
  Atomic-lift (err e) f h = record {
    at = λ s v b. record {
      related = law.same s.tables;
      closed = v;
      unbatched = b;
      unchanged = λ h. refl;
    };
  }

  written :
      {A : Type 0} (s : Repository) (r : Result (A × Tables))
      → s.saved ≡ none
      → s.batch ≡ none
      → ((a : A) (t : Tables) → r ≡ ok (a, t) → R s.tables t)
      → Sound R s (store_result r (record s { faults = later_faults s.faults }))
  written s (ok (a, t)) v b h = record {
    related = h a t refl;
    closed = v;
    unbatched = b;
    unchanged = λ h. cc;
  }
  written s (err e) v b h = record {
    related = law.same s.tables;
    closed = v;
    unbatched = b;
    unchanged = λ h. refl;
  }

  pub Atomic-checked_write :
      {A : Type 0} (f : Tables → Result (A × Tables))
      → ((t u : Tables) (a : A) → f t ≡ ok (a, u) → R t u)
      → Atomic R (checked_write f)
  unfolding checked_write sqlite_call
  Atomic-checked_write f h = record {
    at = λ s v b. elim (Result-cases (next_fault s.faults)) [
      | inl (u, e) ↦ rw e (written s (f s.tables) v b (λ a t. h s.tables t a))
      | inr (x, e) ↦
          rw e (record {
            related = law.same s.tables;
            closed = v;
            unbatched = b;
            unchanged = λ h. refl;
          })
    ];
  }

  batch_free :
      {A : Type 0} (batch : Option (Bytes × ℕ)) (plan : Bytes) (body : ℕ → M A) (s : Repository)
      → batch ≡ none
      → Sound R s (transaction (read_current_epoch plan >>= body) s)
      → Sound R s (within (batched_epoch batch plan) plan body s)
  unfolding within batched_epoch
  batch_free none plan body s b h = h
  batch_free (some p) plan body s b h = cc

  -- Outside a write batch a fenced body has its own transaction.
  pub Atomic-fenced :
      {A : Type 0} (plan : Bytes) (epoch : ℕ) (message : String) (body : M A)
      → Inside R (read_current_epoch plan >>= fence epoch message body)
      → Atomic R (fenced plan epoch message body)
  unfolding fenced
  Atomic-fenced plan epoch message body h = record {
    at = λ s v b.
        batch_free s.batch plan (fence epoch message body) s b
          ((Atomic-transaction (read_current_epoch plan >>= fence epoch message body) h).at s v b);
  }

  voided :
      {A : Type 0} (s : Repository) (r : Result A × Repository)
      → Sound R s r
      → Sound R s (continue_with r (λ _. pure tt))
  voided s (ok a, s') h = record {
    related = h.related;
    closed = h.closed;
    unbatched = h.unbatched;
    unchanged = λ e. cc;
  }
  voided s (err x, s') h = record {
    related = h.related;
    closed = h.closed;
    unbatched = h.unbatched;
    unchanged = h.unchanged;
  }

  -- A method of which the value is dropped.
  pub Atomic-void : {A : Type 0} (m : M A) → Atomic R m → Atomic R (m >>= λ _. pure tt)
  Atomic-void m h = record { at = λ s v b. voided s (m s) (h.at s v b) }

  pub counted :
      (s : Repository) (n : ℕ) (t : Tables) (c : Code) (m : String)
      → s.saved ≡ none
      → s.batch ≡ none
      → R s.tables t
      → (n ≡ 0 → t ≡ s.tables)
      → Sound R s
          (lift (reject_if (n == 0) c m) (record s { tables = t; faults = later_faults s.faults }))
  counted s n t c m v b h z = record {
    related = h;
    closed = v;
    unbatched = b;
    unchanged = λ e. z (ground arith);
  }

  -- One UPDATE, refused where it changed no row.
  pub Atomic-update :
      (f : Tables → ℕ × Tables) (c : Code) (m : String)
      → ((t : Tables) → R t (f t).1)
      → ((t : Tables) → (f t).0 ≡ 0 → (f t).1 ≡ t)
      → Atomic R (write f >>= λ n. lift (reject_if (n == 0) c m))
  unfolding write sqlite_call
  Atomic-update f c m h z = record {
    at = λ s v b. elim (Result-cases (next_fault s.faults)) [
      | inl (u, e) ↦
          rw e (counted s (f s.tables).0 (f s.tables).1 c m v b (h s.tables) (z s.tables))
      | inr (x, e) ↦
          rw e (record {
            related = law.same s.tables;
            closed = v;
            unbatched = b;
            unchanged = λ h. refl;
          })
    ];
  }
