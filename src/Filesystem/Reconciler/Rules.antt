-- ===== src/Filesystem/Reconciler/Rules.antt =====
-- src/filesystem/reconciler.cpp: what calls for each action, where a receipt was persisted and where not.
use photobridge.Base.{
  Bool, Bool-cases, Option, String, arith, exists, false, inl, inr, list_eq, nat_eq, none,
  option_eq, refl, some, string_eq, subst, sym, true, ℕ, ◌==◌, ◌≡◌, ◌≢◌, ◌⊎◌,
}
use photobridge.Common.Status.{Result, ok}
use photobridge.Common.Digest.{Digest}
use photobridge.Model.Task.{
  TaskRuntime, TaskState, attempt_state_eq, task_index_iff, task_state_eq, task_type_eq,
}
use photobridge.Filesystem.Reconciler.{
  ObservedFileState, ReconcileAction, ReconcileDecision, VerifiedReceipt, adopt_final,
  adopt_final_and_cleanup_temp, decide_with_receipt, inconsistent_action, matches,
  resume_commit_from_temp, retry_task, reverify_committed, target_conflict,
}
use photobridge.Filesystem.Reconciler.Safety.{Proven, matches_iff}

-- What calls for an action on an unchanged source where no receipt was persisted.
abbrev pub WithoutReceipt : ReconcileAction → ObservedFileState → Type 0
WithoutReceipt target_conflict o = o.final_exists ≡ true
WithoutReceipt retry_task o = o.final_exists ≡ false
WithoutReceipt _ o = ⊥

-- What calls for an action on an unchanged source, by the files that have the receipt's content.
module _ (runtime : TaskRuntime) (r : VerifiedReceipt) (o : ObservedFileState) where
  abbrev pub FinalProven : Type 0
  FinalProven = Proven o.final_exists o.final_size o.final_digest r

  abbrev pub TempProven : Type 0
  TempProven = Proven o.temp_exists o.temp_size o.temp_digest r

  abbrev pub IsUnfinished : Type 0
  IsUnfinished = runtime.state ≢ TaskState.succeeded

  abbrev pub WithReceipt : ReconcileAction → Type 0
  WithReceipt target_conflict = (o.final_exists ≡ true) × (¬ FinalProven)
  WithReceipt reverify_committed = (runtime.state ≡ TaskState.succeeded) × FinalProven
  WithReceipt adopt_final_and_cleanup_temp = IsUnfinished × FinalProven × TempProven
  WithReceipt adopt_final = IsUnfinished × FinalProven × (¬ TempProven)
  WithReceipt resume_commit_from_temp = IsUnfinished × (o.final_exists ≡ false) × TempProven
  WithReceipt retry_task =
      IsUnfinished
      × (o.final_exists ≡ false)
      × (o.temp_exists ≡ false)
      × (o.source_available ≡ true)
  WithReceipt inconsistent_action =
      (o.final_exists ≡ false)
      × ((runtime.state ≡ TaskState.succeeded)
          ⊎ (IsUnfinished
              × (¬ TempProven)
              × ((o.temp_exists ≡ true) ⊎ (o.source_available ≡ false))))

abbrev pub OnReceipt :
    ReconcileAction → TaskRuntime → Option VerifiedReceipt → ObservedFileState → Type 0
OnReceipt a runtime none o = WithoutReceipt a o
OnReceipt a runtime (some r) o = WithReceipt runtime r o a

-- What calls for an action.
abbrev pub CallsFor :
    ReconcileAction → TaskRuntime → Option VerifiedReceipt → ObservedFileState → Type 0
CallsFor a runtime receipt o =
    ((o.source_changed ≡ true) × (a ≡ inconsistent_action))
    ⊎ ((o.source_changed ≡ false) × OnReceipt a runtime receipt o)

-- The result is the action, for some reason.
abbrev pub Decides : ReconcileAction → Result ReconcileDecision → Type 0
Decides a result = (reason : String) × (result ≡ ok (record { action = a; reason = reason }))

not_matched :
    (exists : Bool) (size : ℕ) (digest : Option Digest) (r : VerifiedReceipt)
    → (¬ Proven exists size digest r)
    → matches exists size digest r ≡ false
not_matched exists size digest r h = elim (Bool-cases (matches exists size digest r)) [
  | inl e ↦ absurd (h ((matches_iff exists size digest r).0 e))
  | inr e ↦ e
]

not_proven :
    (exists : Bool) (size : ℕ) (digest : Option Digest) (r : VerifiedReceipt)
    → matches exists size digest r ≡ false
    → (¬ Proven exists size digest r)
not_proven exists size digest r h p =
    let k = (matches_iff exists size digest r).1 p in absurd (ground arith)

missing_matches :
    (size : ℕ) (digest : Option Digest) (r : VerifiedReceipt) → matches false size digest r ≡ false
unfolding matches
missing_matches size none r = refl
missing_matches size (some d) r = refl

module _ (runtime : TaskRuntime) (r : VerifiedReceipt) (o : ObservedFileState) where
  unfinished : IsUnfinished runtime r o → (runtime.state == TaskState.succeeded) ≡ false
  unfinished h = elim (Bool-cases (runtime.state == TaskState.succeeded)) [
    | inl e ↦ absurd (h ((task_index_iff runtime.state TaskState.succeeded).0 e))
    | inr e ↦ e
  ]

  finished : runtime.state ≡ TaskState.succeeded → (runtime.state == TaskState.succeeded) ≡ true
  finished h = (task_index_iff runtime.state TaskState.succeeded).1 h

  missing_final :
      o.final_exists ≡ false → matches o.final_exists o.final_size o.final_digest r ≡ false
  missing_final h =
      subst (λ b. matches b o.final_size o.final_digest r ≡ false) (sym h)
        (missing_matches o.final_size o.final_digest r)

  missing_temp : o.temp_exists ≡ false → matches o.temp_exists o.temp_size o.temp_digest r ≡ false
  missing_temp h =
      subst (λ b. matches b o.temp_size o.temp_digest r ≡ false) (sym h)
        (missing_matches o.temp_size o.temp_digest r)

  final_matched :
      FinalProven runtime r o → matches o.final_exists o.final_size o.final_digest r ≡ true
  final_matched p = (matches_iff o.final_exists o.final_size o.final_digest r).1 p

  temp_matched : TempProven runtime r o → matches o.temp_exists o.temp_size o.temp_digest r ≡ true
  temp_matched p = (matches_iff o.temp_exists o.temp_size o.temp_digest r).1 p

  final_other :
      (¬ FinalProven runtime r o) → matches o.final_exists o.final_size o.final_digest r ≡ false
  final_other h = not_matched o.final_exists o.final_size o.final_digest r h

  temp_other :
      (¬ TempProven runtime r o) → matches o.temp_exists o.temp_size o.temp_digest r ≡ false
  temp_other h = not_matched o.temp_exists o.temp_size o.temp_digest r h

  is_done : (runtime.state == TaskState.succeeded) ≡ true → runtime.state ≡ TaskState.succeeded
  is_done h = (task_index_iff runtime.state TaskState.succeeded).0 h

  is_open : (runtime.state == TaskState.succeeded) ≡ false → IsUnfinished runtime r o
  is_open h e = let k = finished e in absurd (ground arith)

  final_is : matches o.final_exists o.final_size o.final_digest r ≡ true → FinalProven runtime r o
  final_is h = (matches_iff o.final_exists o.final_size o.final_digest r).0 h

  temp_is : matches o.temp_exists o.temp_size o.temp_digest r ≡ true → TempProven runtime r o
  temp_is h = (matches_iff o.temp_exists o.temp_size o.temp_digest r).0 h

  not_final :
      matches o.final_exists o.final_size o.final_digest r ≡ false → (¬ FinalProven runtime r o)
  not_final h = not_proven o.final_exists o.final_size o.final_digest r h

  not_temp : matches o.temp_exists o.temp_size o.temp_digest r ≡ false → (¬ TempProven runtime r o)
  not_temp h = not_proven o.temp_exists o.temp_size o.temp_digest r h

  pub receipt_complete :
      (a : ReconcileAction)
      → WithReceipt runtime r o a
      → Decides a (decide_with_receipt runtime r o)
  unfolding decide_with_receipt
  receipt_complete target_conflict (e, p) =
      ("final exists but does not match the verified receipt", rw (final_other p, e) refl)
  receipt_complete reverify_committed (d, p) =
      ("committed task final matches receipt", rw (final_matched p, p.0, finished d) refl)
  receipt_complete adopt_final_and_cleanup_temp (d, p, q) = (
    "matching final and temp are durable evidence; clean owned temp after commit",
    rw (final_matched p, p.0, unfinished d, temp_matched q) refl,
  )
  receipt_complete adopt_final (d, p, q) = (
    "matching final can be adopted from durable receipt",
    rw (final_matched p, p.0, unfinished d, temp_other q) refl,
  )
  receipt_complete resume_commit_from_temp (d, e, q) = (
    "matching temp can be re-synced and published under a new epoch",
    rw (missing_final e, e, unfinished d, temp_matched q) refl,
  )
  receipt_complete retry_task (d, e, t, s) = (
    "receipt exists but files are absent; source can be rechecked",
    rw (missing_final e, e, unfinished d, missing_temp t, t, s) refl,
  )
  receipt_complete inconsistent_action (e, inl d) =
      ("committed task final is missing or unverifiable", rw (missing_final e, e, finished d) refl)
  receipt_complete inconsistent_action (e, inr (d, q, c)) = elim (Bool-cases o.temp_exists) [
    | inl t ↦ (
      "observed temp is missing or does not match the verified receipt",
      rw (missing_final e, e, unfinished d, temp_other q, t) refl,
    )
    | inr t ↦ (
      "receipt exists but files and source are unavailable",
      rw (missing_final e, e, unfinished d, temp_other q, t, no_source t c) refl,
    )
  ]
    where
      no_source :
          o.temp_exists ≡ false
          → (o.temp_exists ≡ true) ⊎ (o.source_available ≡ false)
          → o.source_available ≡ false
      no_source t (inl u) = cc
      no_source t (inr s) = s

  pub receipt_sound :
      (a : ReconcileAction)
      → Decides a (decide_with_receipt runtime r o)
      → WithReceipt runtime r o a
  unfolding decide_with_receipt
  receipt_sound target_conflict (_, h) = (ground arith, not_final (ground arith))
  receipt_sound reverify_committed (_, h) = (is_done (ground arith), final_is (ground arith))
  receipt_sound adopt_final_and_cleanup_temp (_, h) =
      (is_open (ground arith), final_is (ground arith), temp_is (ground arith))
  receipt_sound adopt_final (_, h) =
      (is_open (ground arith), final_is (ground arith), not_temp (ground arith))
  receipt_sound resume_commit_from_temp (_, h) =
      (is_open (ground arith), ground arith, temp_is (ground arith))
  receipt_sound retry_task (_, h) =
      (is_open (ground arith), ground arith, ground arith, ground arith)
  receipt_sound inconsistent_action (_, h) = (
    ground arith,
    elim (Bool-cases (runtime.state == TaskState.succeeded)) [
      | inl d ↦ inl (is_done d)
      | inr d ↦ inr (
        is_open d,
        not_temp (ground arith),
        elim (Bool-cases o.temp_exists) [ inl t ↦ inl t | inr t ↦ inr (ground arith) ],
      )
    ],
  )
