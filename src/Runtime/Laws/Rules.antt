-- ===== src/Runtime/Laws/Rules.antt =====
-- Rules for the ways in which src/app/task_runtime_repository.cpp composes SQLite calls.
use photobridge.Base.{Bool, Bytes, Option, false, if◌then◌else◌, none, refl, true, ℕ, ◌∙◌, ◌≡◌}
use photobridge.Common.Status.{Error, Result, err, is_ok, ok}
use photobridge.Model.Task.{FileAttemptState, TaskSpec, TaskState, is_valid_transition}
use photobridge.Filesystem.Reconciler.{VerifiedReceipt}
use photobridge.Runtime.Tables.{EventRow, Tables}
use photobridge.Runtime.Store.{
  M, Repository, checked_write, continue_with, lift, pure, query, sqlite_call, store_result, write,
  ◌>>=◌,
}
use photobridge.Runtime.Sql.{add_event, read_clock, set_attempt, update_attempts, update_epoch}
use photobridge.Runtime.Tasks.{insert_task, update_ready}
use photobridge.Runtime.Claim.{insert_attempt, update_claim}
use photobridge.Runtime.Attempts.{update_released}
use photobridge.Runtime.Receipts.{insert_receipt}
use photobridge.Runtime.Dependencies.{insert_dependency, would_cycle}

-- The interface of a relation between the tables before and after a statement. A task is released
-- only into a state that a running task may take.
pub record Law (R : Tables → Tables → Type 0) : Type 0 where
  pub same : (t : Tables) → R t t
  pub chain : (t u v : Tables) → R t u → R u v → R t v
  pub epoch : (plan : Bytes) (n : ℕ) (t : Tables) → R t (update_epoch plan n t).1
  pub added :
      (plan : Bytes) (task : TaskSpec) (t u : Tables) (a : Unit {0})
      → insert_task plan task t ≡ ok (a, u)
      → R t u
  pub readied : (plan task : Bytes) (t : Tables) → R t (update_ready plan task t).1
  pub claimed :
      (plan task : Bytes) (epoch : ℕ) (attempt : Bytes) (t : Tables)
      → R t (update_claim plan task epoch attempt t).1
  pub released :
      (plan task : Bytes) (epoch : ℕ) (attempt : Bytes) (next : TaskState) (error : Option Error)
      (t : Tables)
      → is_valid_transition TaskState.running next ≡ true
      → R t (update_released plan task epoch attempt next error t).1
  pub started :
      (attempt plan task : Bytes) (epoch now : ℕ) (t u : Tables) (a : Unit {0})
      → insert_attempt attempt plan task epoch now t ≡ ok (a, u)
      → R t u
  pub progressed :
      (plan task attempt : Bytes) (epoch : ℕ) (now : ℕ) (state : FileAttemptState)
      (outcome : Option TaskState) (error : Option Error) (finish : Bool) (t : Tables)
      → R t
          (update_attempts plan task attempt epoch (set_attempt now state outcome error finish) t).1
  pub logged : (e : EventRow) (t u : Tables) (a : Unit {0}) → add_event e t ≡ ok (a, u) → R t u
  pub received :
      (plan : Bytes) (r : VerifiedReceipt) (t u : Tables) (n : ℕ)
      → insert_receipt plan r t ≡ ok (n, u)
      → R t u
  pub depended :
      (plan task depends_on : Bytes) (t u : Tables) (n : ℕ)
      → would_cycle plan task depends_on t ≡ false
      → insert_dependency plan task depends_on t ≡ ok (n, u)
      → R t u

-- What holds after a step of a transaction's body.
pub record Within {A : Type 0} (R : Tables → Tables → Type 0) (s : Repository)
    (r : Result A × Repository) : Type 0 where
  pub related : R s.tables r.1.tables
  pub saved_kept : r.1.saved ≡ s.saved
  pub batch_kept : r.1.batch ≡ s.batch

pub record Inside {A : Type 0} (R : Tables → Tables → Type 0) (m : M A) : Type 0 where
  pub at : (s : Repository) → Within R s (m s)

-- What holds after a method that was called outside every transaction.
pub record Sound {A : Type 0} (R : Tables → Tables → Type 0) (s : Repository)
    (r : Result A × Repository) : Type 0 where
  pub related : R s.tables r.1.tables
  pub closed : r.1.saved ≡ none
  pub unbatched : r.1.batch ≡ none
  pub unchanged : is_ok r.0 ≡ false → r.1.tables ≡ s.tables

pub record Atomic {A : Type 0} (R : Tables → Tables → Type 0) (m : M A) : Type 0 where
  pub at : (s : Repository) → s.saved ≡ none → s.batch ≡ none → Sound R s (m s)

module _ {R : Tables → Tables → Type 0} (law : Law R) where
  pub Inside-lift : {A : Type 0} (r : Result A) → Inside R (lift r)
  Inside-lift r = record {
    at = λ s. record { related = law.same s.tables; saved_kept = refl; batch_kept = refl };
  }

  pub Inside-pure : {A : Type 0} (a : A) → Inside R (pure a)
  Inside-pure a = record {
    at = λ s. record { related = law.same s.tables; saved_kept = refl; batch_kept = refl };
  }

  pub Inside-read_clock : Inside R read_clock
  Inside-read_clock = record {
    at = λ s. record { related = law.same s.tables; saved_kept = refl; batch_kept = refl };
  }

  bind_step :
      {A B : Type 0} (s : Repository) (r : Result A × Repository) (f : A → M B)
      → Within R s r
      → ((a : A) → Inside R (f a))
      → Within R s (continue_with r f)
  bind_step s (ok a, s') f w k =
      let w' = (k a).at s' in
      record {
        related = law.chain s.tables s'.tables (f a s').1.tables w.related w'.related;
        saved_kept = w'.saved_kept ∙ w.saved_kept;
        batch_kept = w'.batch_kept ∙ w.batch_kept;
      }
  bind_step s (err e, s') f w k = record {
    related = w.related;
    saved_kept = w.saved_kept;
    batch_kept = w.batch_kept;
  }

  pub Inside-bind :
      {A B : Type 0} (m : M A) (f : A → M B)
      → Inside R m
      → ((a : A) → Inside R (f a))
      → Inside R (m >>= f)
  Inside-bind m f h k = record { at = λ s. bind_step s (m s) f (h.at s) k }

  pub Inside-if :
      {A : Type 0} (b : Bool) (m n : M A) → Inside R m → Inside R n → Inside R (if b then m else n)
  Inside-if true m n h k = h
  Inside-if false m n h k = k

  Inside-call : Inside R sqlite_call
  unfolding sqlite_call
  Inside-call = record {
    at = λ s. record { related = law.same s.tables; saved_kept = refl; batch_kept = refl };
  }

  pub Inside-query : {A : Type 0} (f : Tables → A) → Inside R (query f)
  unfolding query
  Inside-query f = Inside-bind sqlite_call _ Inside-call λ _. record {
    at = λ s. record { related = law.same s.tables; saved_kept = refl; batch_kept = refl };
  }

  pub Inside-write : (f : Tables → ℕ × Tables) → ((t : Tables) → R t (f t).1) → Inside R (write f)
  unfolding write
  Inside-write f h = Inside-bind sqlite_call _ Inside-call λ _. record {
    at = λ s. record { related = h s.tables; saved_kept = refl; batch_kept = refl };
  }

  stored :
      {A : Type 0} (s : Repository) (r : Result (A × Tables))
      → ((a : A) (u : Tables) → r ≡ ok (a, u) → R s.tables u)
      → Within R s (store_result r s)
  stored s (ok (a, u)) h = record { related = h a u refl; saved_kept = refl; batch_kept = refl }
  stored s (err e) h = record { related = law.same s.tables; saved_kept = refl; batch_kept = refl }

  pub Inside-checked_write :
      {A : Type 0} (f : Tables → Result (A × Tables))
      → ((t u : Tables) (a : A) → f t ≡ ok (a, u) → R t u)
      → Inside R (checked_write f)
  unfolding checked_write
  Inside-checked_write f h =
      Inside-bind sqlite_call _ Inside-call
        λ _. record { at = λ s. stored s (f s.tables) (λ a u. h s.tables u a) }
