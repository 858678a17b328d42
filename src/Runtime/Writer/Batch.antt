-- ===== src/Runtime/Writer/Batch.antt =====
-- src/app/runtime_db_writer.cpp: the outcome of a batch of commands.
use photobridge.Base.{
  All, Bool, Bool-cases, Bytes, List, Option, [], ap, arith, false, inl, inr, length, list_eq,
  nat_eq, none, option_eq, refl, some, string_eq, sym, true, ℕ, ◌+◌, ◌==◌, ◌∙◌, ◌∷◌, ◌≡◌, ◌⊎◌,
}
use photobridge.Common.Status.{Error, Result-cases, Status, err, is_ok, ok}
use photobridge.Model.Task.{attempt_state_eq, task_state_eq, task_type_eq}
use photobridge.Runtime.Tables.{Tables}
use photobridge.Runtime.Store.{
  Repository, commit, commit_with, later_faults, next_fault, or_rollback, rollback, rolled_back,
  sqlite_call,
}
use photobridge.Runtime.Writer.{
  Command, batch_identity, commit_write_batch, complete_all, execute_batch, execute_begun,
  execute_operations, failed_from, finish_batch, has_batch, rollback_write_batch, unbatch,
}
use photobridge.Runtime.Writer.Steps.{IsLooped, execute_operations-IsLooped}
use photobridge.Runtime.Writer.Begin.{IsBegun, begin_write_batch-IsBegun}

-- The outcome of a batch on the tables `t`. Either every command is told of success, and the tables
-- are what all of them, one after the other, made of `t`, or none is, and they are `t`.
pub record IsWhole (t : Tables) (b : Bytes × ℕ) (cs : List Command) (r : List Status × Repository)
    : Type 0 where
  pub closed : (r.1.saved ≡ none) × (r.1.batch ≡ none)
  pub answered : length r.0 ≡ length cs
  pub outcome :
      (All (λ x. is_ok x ≡ true) r.0
        × (s : Repository) × (s.tables ≡ t)
        × (s.batch ≡ some b)
        × ((execute_operations cs s).0 ≡ none)
        × (r.1.tables ≡ (execute_operations cs s).1.tables))
      ⊎ (All (λ x. is_ok x ≡ false) r.0 × (r.1.tables ≡ t))

all_answered : (r : Status) (cs : List Command) → length (complete_all r cs) ≡ length cs
all_answered r [] = refl
all_answered r (c ∷ cs) = omega (arith, all_answered r cs)

told_the_same :
    (r : Status) (b : Bool) (cs : List Command)
    → is_ok r ≡ b
    → All (λ x. is_ok x ≡ b) (complete_all r cs)
told_the_same r b [] h = tt
told_the_same r b (c ∷ cs) h = (h, told_the_same r b cs h)

failed_answered :
    (k position : ℕ) (e : Error) (cs : List Command)
    → length (failed_from k position e cs) ≡ length cs
failed_answered k position e [] = refl
failed_answered k position e (c ∷ cs) = omega (arith, failed_answered (k + 1) position e cs)

failed_told :
    (k position : ℕ) (e : Error) (cs : List Command)
    → All (λ x. is_ok x ≡ false) (failed_from k position e cs)
failed_told k position e [] = tt
failed_told k position e (c ∷ cs) = elim (Bool-cases (k == position)) [
  | inl q ↦ rw q (refl, failed_told (k + 1) position e cs)
  | inr q ↦ rw q (refl, failed_told (k + 1) position e cs)
]

-- The end of a batch by COMMIT.
record IsEnded (t : Tables) (s : Repository) (r : Status × Repository) : Type 0 where
  pub closed : (r.1.saved ≡ none) × (r.1.batch ≡ none)
  pub outcome :
      ((is_ok r.0 ≡ true) × (r.1.tables ≡ s.tables)) ⊎ ((is_ok r.0 ≡ false) × (r.1.tables ≡ t))

committed :
    (saved : Option Tables) (s : Repository) (t : Tables)
    → saved ≡ some t
    → s.saved ≡ some t
    → IsEnded t s (unbatch (rolled_back (commit_with saved s)))
unfolding commit_with
committed none s t e v = cc
committed (some x) s t e v = record { closed = (refl, refl); outcome = inl (refl, refl) }

commit_write_batch-IsEnded :
    (s : Repository) (t : Tables) (b : Bytes × ℕ)
    → s.saved ≡ some t
    → s.batch ≡ some b
    → IsEnded t s (commit_write_batch s)
unfolding commit_write_batch or_rollback commit sqlite_call rollback
commit_write_batch-IsEnded s t b v k =
    let e : has_batch s.batch ≡ true = rw k refl in
    elim (Result-cases (next_fault s.faults)) [
      | inl (_, q) ↦
          rw (e, q)
            (let h = committed s.saved (record s { faults = later_faults s.faults }) t v v in
              record { closed = h.closed; outcome = h.outcome })
      | inr (x, q) ↦ rw (e, q, v) (record { closed = (refl, refl); outcome = inr (refl, refl) })
    ]

module _ (t : Tables) (b : Bytes × ℕ) (cs : List Command) (begun : Repository)
    (same : begun.tables ≡ t) (batched : begun.batch ≡ some b) where
  finish-IsWhole :
      (r : Option (ℕ × Error) × Repository)
      → execute_operations cs begun ≡ r
      → IsLooped t (some b) r
      → IsWhole t b cs (finish_batch cs r)
  unfolding finish_batch rollback_write_batch IsLooped
  finish-IsWhole (some (position, x), s) q (k, u, v) =
      let e : has_batch s.batch ≡ true = rw k refl in
      rw e (record {
        closed = (v, refl);
        answered = failed_answered 0 position x cs;
        outcome = inr (failed_told 0 position x cs, u);
      })
  finish-IsWhole (none, s) q (k, v) =
      let h = commit_write_batch-IsEnded s t b v k in
      record {
        closed = h.closed;
        answered = all_answered (commit_write_batch s).0 cs;
        outcome = elim h.outcome [
          | inl (o, e) ↦ inl (
            told_the_same (commit_write_batch s).0 true cs o,
            begun,
            same,
            batched,
            ap (λ (p : Option (ℕ × Error) × Repository). p.0) q,
            e ∙ sym (ap (λ (p : Option (ℕ × Error) × Repository). p.1.tables) q),
          )
          | inr (o, e) ↦ inr (told_the_same (commit_write_batch s).0 false cs o, e)
        ];
      }

begun-IsWhole :
    (t : Tables) (b : Bytes × ℕ) (cs : List Command) (r : Status × Repository)
    → IsBegun b t r
    → IsWhole t b cs (execute_begun cs r)
unfolding execute_begun IsBegun
begun-IsWhole t b cs (err e, s) (v, k, u) = record {
  closed = (v, k);
  answered = all_answered (err e) cs;
  outcome = inr (told_the_same (err e) false cs refl, u);
}
begun-IsWhole t b cs (ok x, s) (v, k, u) =
    finish-IsWhole t b cs s u k (execute_operations cs s) refl
      (execute_operations-IsLooped cs t (some b) s v k)

-- Of a batch of commands on a store outside every transaction and batch, whatever statements fail
-- under it: every command gets an answer, the store ends outside transactions and batches, and
-- either every command is told of success and the tables are what all of them made of those before,
-- or none is and the tables are those before.
pub execute_batch-IsWhole :
    (c : Command) (cs : List Command) (s : Repository)
    → s.saved ≡ none
    → s.batch ≡ none
    → IsWhole s.tables (batch_identity c) (c ∷ cs) (execute_batch c cs s)
unfolding execute_batch
execute_batch-IsWhole c cs s v b =
    begun-IsWhole s.tables (batch_identity c) (c ∷ cs) _
      (begin_write_batch-IsBegun (batch_identity c).0 (batch_identity c).1 s v b)
