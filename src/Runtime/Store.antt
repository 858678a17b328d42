-- ===== src/Runtime/Store.antt =====
-- The state under src/app/task_runtime_repository.cpp: one connection with its tables, and the
-- transactions that the methods run in.
-- SQLite itself is not modelled but by its documented effects: a statement that fails changes
-- nothing, ROLLBACK puts back the tables of the last BEGIN. Whether a statement fails is up to the
-- environment: `faults` has an entry for each statement to come, the error that it reports or
-- `none`. One entry stands for the prepare, bind and step calls of a statement together.
use photobridge.Base.{
  Bytes, List, Option, [], if◌then◌else◌, list_eq, nat_eq, none, option_eq, some, string_eq, ℕ,
  ◌==◌, ◌∷◌,
}
use photobridge.Common.Status.{Error, Result, Status, err, fail, io_error, ok}
use photobridge.Runtime.Tables.{Tables}

-- `saved` holds the tables of the open transaction's BEGIN; `batch` is write_batch_plan_id_ and
-- write_batch_epoch_ while write_batch_active_; `now` is what the clock reads.
pub record Repository : Type 0 where
  pub tables : Tables
  pub saved : Option Tables
  pub batch : Option (Bytes × ℕ)
  pub faults : List (Option Error)
  pub now : ℕ

abbrev pub M : Type 0 → Type 0
M A = Repository → Result A × Repository

abbrev pub continue_with :
    {A B : Type 0} → Result A × Repository → (A → M B) → Result B × Repository
continue_with (ok a, s) f = f a s
continue_with (err e, s) f = (err e, s)

infixl 5 ◌>>=◌ ◌>>◌
abbrev pub ◌>>=◌ : {A B : Type 0} → M A → (A → M B) → M B
◌>>=◌ m f s = continue_with (m s) f

abbrev pub ◌>>◌ : {B : Type 0} → M (Unit {0}) → M B → M B
m >> k = m >>= λ _. k

abbrev pub pure : {A : Type 0} → A → M A
pure a s = (ok a, s)

abbrev pub lift : {A : Type 0} → Result A → M A
lift r s = (r, s)

-- Whether the next SQLite call fails.
unfoldable pub next_fault : List (Option Error) → Status
next_fault [] = ok tt
next_fault (none ∷ fs) = ok tt
next_fault (some e ∷ fs) = err e

abbrev pub later_faults : List (Option Error) → List (Option Error)
later_faults [] = []
later_faults (f ∷ fs) = fs

unfoldable pub sqlite_call : M (Unit {0})
sqlite_call s = (next_fault s.faults, record s { faults = later_faults s.faults })

-- A statement that reads.
unfoldable pub query : {A : Type 0} → (Tables → A) → M A
query f = sqlite_call >>= λ _ s. (ok (f s.tables), s)

-- A statement that writes, with sqlite3_changes.
unfoldable pub write : (Tables → ℕ × Tables) → M ℕ
write f = sqlite_call >>= λ _ s. let (n, t) = f s.tables in (ok n, record s { tables = t })

unfoldable pub begin_with : Option Tables → M (Unit {0})
begin_with none s = (ok tt, record s { saved = some s.tables })
begin_with (some t) s = (fail io_error "cannot start a transaction within a transaction", s)

-- BEGIN IMMEDIATE
unfoldable pub begin_immediate : M (Unit {0})
unfolding begin_with
begin_immediate = sqlite_call >>= λ _ s. begin_with s.saved s

unfoldable pub commit_with : Option Tables → M (Unit {0})
commit_with none s = (fail io_error "cannot commit - no transaction is active", s)
commit_with (some t) s = (ok tt, record s { saved = none })

-- COMMIT; where it fails the transaction stays open
unfoldable pub commit : M (Unit {0})
unfolding commit_with
commit = sqlite_call >>= λ _ s. commit_with s.saved s

abbrev pub restore : Option Tables → Repository → Repository
restore none s = s
restore (some t) s = record s { tables = t; saved = none }

-- ROLLBACK, which the source does not check: with no open transaction it changes nothing.
unfoldable pub rollback : Repository → Repository
rollback s = restore s.saved s

abbrev pub rolled_back : {A : Type 0} → Result A × Repository → Result A × Repository
rolled_back (ok a, s) = (ok a, s)
rolled_back (err e, s) = (err e, rollback s)

-- The body of a method, every error exit of which is `return Rollback(connection, status)`.
unfoldable pub or_rollback : {A : Type 0} → M A → M A
or_rollback m s = rolled_back (m s)

-- From BEGIN to COMMIT, with `if (!status.ok()) Execute("ROLLBACK;")` after the latter.
unfoldable pub transaction : {A : Type 0} → M A → M A
transaction body = do begin_immediate; a ← or_rollback body; or_rollback commit; pure a

-- BatchedEpochFor
unfoldable pub batched_epoch : Option (Bytes × ℕ) → Bytes → Option ℕ
batched_epoch none plan = none
batched_epoch (some (p, e)) plan = if p == plan then some e else none

abbrev pub store_result : {A : Type 0} → Result (A × Tables) → M A
store_result (ok (a, t)) s = (ok a, record s { tables = t })
store_result (err e) s = (err e, s)

-- A statement that SQLite may refuse by a constraint.
unfoldable pub checked_write : {A : Type 0} → (Tables → Result (A × Tables)) → M A
checked_write f = sqlite_call >>= λ _ s. store_result (f s.tables) s
