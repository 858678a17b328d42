-- ===== src/Runtime/Laws/Guarded.antt =====
-- src/app/task_runtime_repository.cpp: AddDependency, where a query guards an insertion that stands
-- in no transaction with it.
use photobridge.Base.{
  Bool-cases, Bytes, String, arith, exists, inl, inr, list_eq, nat_eq, none, option_eq, refl,
  string_eq, true, ℕ, ◌&&◌, ◌==◌, ◌≡◌,
}
use photobridge.Common.Status.{
  Code, Error, Result, Result-cases, Status, err, invalid_argument, is_ok, ok, reject_if,
}
use photobridge.Runtime.Tables.{Tables, is_task}
use photobridge.Runtime.Store.{
  M, Repository, checked_write, continue_with, later_faults, lift, next_fault, query, sqlite_call,
  store_result, ◌>>=◌, ◌>>◌,
}
use photobridge.Runtime.Sql.{check_ids}
use photobridge.Runtime.Dependencies.{add_dependency, insert_dependency, is_dependency, would_cycle}
use photobridge.Runtime.Laws.Rules.{Atomic, Law, Sound}
use photobridge.Runtime.Laws.Transactions.{Atomic-lift, counted}

abbrev advanced : Repository → Repository
advanced s = record s { faults = later_faults s.faults }

module _ {R : Tables → Tables → Type 0} (law : Law R) where
  failed_call :
      {A : Type 0} (s : Repository) (e : Error)
      → s.saved ≡ none
      → s.batch ≡ none
      → Sound {A = A} R s (err e, advanced s)
  failed_call s e v b = record {
    related = law.same s.tables;
    closed = v;
    unbatched = b;
    unchanged = λ h. refl;
  }

  rebased :
      {A : Type 0} (s : Repository) (r : Result A × Repository)
      → Sound R (advanced s) r
      → Sound R s r
  rebased s r h = record {
    related = h.related;
    closed = h.closed;
    unbatched = h.unbatched;
    unchanged = h.unchanged;
  }

  Sound-query :
      {A B : Type 0} (f : Tables → A) (g : A → M B) (s : Repository)
      → s.saved ≡ none
      → s.batch ≡ none
      → Sound R (advanced s) (g (f s.tables) (advanced s))
      → Sound R s ((query f >>= g) s)
  unfolding query sqlite_call
  Sound-query f g s v b h = elim (Result-cases (next_fault s.faults)) [
    | inl (u, e) ↦ rw e (rebased s _ h)
    | inr (x, e) ↦ rw e (failed_call s x v b)
  ]

  Sound-lift :
      {A : Type 0} (r : Status) (m : M A) (s : Repository)
      → s.saved ≡ none
      → s.batch ≡ none
      → (is_ok r ≡ true → Sound R s (m s))
      → Sound R s ((lift r >> m) s)
  Sound-lift (ok u) m s v b h = h refl
  Sound-lift (err e) m s v b h = record {
    related = law.same s.tables;
    closed = v;
    unbatched = b;
    unchanged = λ h. refl;
  }

  stored_count :
      (s : Repository) (r : Result (ℕ × Tables)) (c : Code) (m : String)
      → s.saved ≡ none
      → s.batch ≡ none
      → ((n : ℕ) (u : Tables) → r ≡ ok (n, u) → R s.tables u × (n ≡ 0 → u ≡ s.tables))
      → Sound R s (continue_with (store_result r (advanced s)) (λ n. lift (reject_if (n == 0) c m)))
  stored_count s (ok (n, u)) c m v b h = counted law s n u c m v b (h n u refl).0 (h n u refl).1
  stored_count s (err e) c m v b h = failed_call s e v b

  -- One INSERT, refused where it inserted no row.
  Sound-insert :
      (f : Tables → Result (ℕ × Tables)) (c : Code) (m : String) (s : Repository)
      → s.saved ≡ none
      → s.batch ≡ none
      → ((n : ℕ) (u : Tables) → f s.tables ≡ ok (n, u) → R s.tables u × (n ≡ 0 → u ≡ s.tables))
      → Sound R s ((checked_write f >>= λ n. lift (reject_if (n == 0) c m)) s)
  unfolding checked_write sqlite_call
  Sound-insert f c m s v b h = elim (Result-cases (next_fault s.faults)) [
    | inl (u, e) ↦ rw e (stored_count s (f s.tables) c m v b h)
    | inr (x, e) ↦ rw e (failed_call s x v b)
  ]

  insert_dependency-none :
      (plan task depends_on : Bytes) (t u : Tables) (n : ℕ)
      → insert_dependency plan task depends_on t ≡ ok (n, u)
      → n ≡ 0
      → u ≡ t
  unfolding insert_dependency
  insert_dependency-none plan task depends_on t u n h z =
      elim (Bool-cases
        (exists (is_task plan task) t.tasks && exists (is_task plan depends_on) t.tasks)) [
          | inr e ↦ ground arith
          | inl e ↦ elim (Bool-cases (exists (is_dependency plan task depends_on) t.dependencies)) [
            | inl k ↦ absurd (ground arith)
            | inr k ↦ absurd (ground arith)
          ]
        ]

  guarded :
      (plan task depends_on : Bytes) (s : Repository)
      → s.saved ≡ none
      → s.batch ≡ none
      → is_ok (
          reject_if
            (would_cycle plan task depends_on s.tables)
            invalid_argument
            "task graph dependency would create a cycle")
        ≡ true
      → (n : ℕ) (u : Tables) → insert_dependency plan task depends_on s.tables ≡ ok (n, u)
      → R s.tables u × (n ≡ 0 → u ≡ s.tables)
  guarded plan task depends_on s v b h n u e = (
    law.depended plan task depends_on s.tables u n (ground arith) e,
    insert_dependency-none plan task depends_on s.tables u n e,
  )

  pub Atomic-add_dependency :
      (plan task depends_on : Bytes) → Atomic R (add_dependency plan task depends_on)
  unfolding add_dependency
  Atomic-add_dependency plan task depends_on = Atomic-lift law (check_ids plan task) _ λ _.
      Atomic-lift law (check_ids plan depends_on) _ λ _.
        Atomic-lift law (reject_if (task == depends_on) _ _) _ λ _. record {
          at = λ s v b. Sound-query (would_cycle plan task depends_on) _ s v b (
              Sound-lift _ _ (advanced s) v b λ h.
                Sound-insert (insert_dependency plan task depends_on) _ _ (advanced s) v b
                  (guarded plan task depends_on (advanced s) v b h));
        }
