-- ===== src/Runtime/Queue/Batches.antt =====
-- src/app/runtime_db_writer.cpp: what a batch is that the thread takes from the queue.
use photobridge.Base.{
  All, All-map, Bool-cases, Bytes, IsDistinct, List, Option, Option-cases, [], ap, arith, false,
  inl, inr, length, list_beq_iff, list_eq, ltb, nat_eq, none, option_eq, refl, some, string_eq,
  subst, sym, true, ℕ, ◌++◌, ◌+◌, ◌∙◌, ◌∷◌, ◌≡◌, ◌≢◌, ◌≤◌, ◌⊎◌,
}
use photobridge.Runtime.Writer.{Command}
use photobridge.Runtime.Queue.{Key, command_key, extend_batch, fill_batch, has_task, joins, task_of}

abbrev pub task_at : ℕ × Command → Bytes
task_at (n, c) = task_of (command_key c)

-- A command of the kind, the plan and the epoch of the key.
pub record Matches (first : Key) (t : ℕ × Command) : Type 0 where
  pub own : Key
  pub has_key : command_key t.1 ≡ some own
  pub same_kind : own.kind ≡ first.kind
  pub same_plan : own.plan ≡ first.plan
  pub same_epoch : own.epoch ≡ first.epoch

-- A command alone, or commands of one kind, plan and epoch on different tasks.
abbrev pub IsUniform : List (ℕ × Command) → Type 0
IsUniform ts = (length ts ≤ 1) ⊎ ((first : Key) × All (Matches first) ts × IsDistinct task_at ts)

joins-Matches :
    (first : Key) (tasks : List Bytes) (t : ℕ × Command)
    → joins first tasks (command_key t.1) ≡ true
    → Matches first t × (has_task (task_at t) tasks ≡ false)
unfolding joins
joins-Matches first tasks (n, c) h = elim (Option-cases (command_key c)) [
  | inl e ↦ absurd (let f = ap (joins first tasks) e in cc)
  | inr (k, e) ↦
      let f : joins first tasks (some k) ≡ true = ap (joins first tasks) (sym e) ∙ h in
      (
        record {
          own = k;
          has_key = e;
          same_kind = ground arith;
          same_plan = (list_beq_iff k.plan first.plan).0 (ground arith);
          same_epoch = ground arith;
        },
        subst (λ o. has_task (task_of o) tasks ≡ false) (sym e) (ground arith),
      )
]

-- What a part of the queue gives to a batch of `size` commands on the tasks.
record Extends (limit : ℕ) (first : Key) (tasks : List Bytes) (size : ℕ)
    (queue : List (ℕ × Command)) (r : List (ℕ × Command) × List (ℕ × Command)) : Type 0 where
  fits : size ≤ limit → size + length r.0 ≤ limit
  matching : All (Matches first) r.0
  fresh : All (λ t. has_task (task_at t) tasks ≡ false) r.0
  distinct : IsDistinct task_at r.0
  whole : r.0 ++ r.1 ≡ queue

nothing_taken :
    (limit : ℕ) (first : Key) (tasks : List Bytes) (size : ℕ) (queue : List (ℕ × Command))
    → Extends limit first tasks size queue ([], queue)
nothing_taken limit first tasks size queue = record {
  fits = λ l. omega arith;
  matching = tt;
  fresh = tt;
  distinct = tt;
  whole = refl;
}

fresh_differs :
    (t u : ℕ × Command) (tasks : List Bytes)
    → has_task (task_at u) (task_at t ∷ tasks) ≡ false
    → task_at t ≢ task_at u
fresh_differs t u tasks h e = let b = (list_beq_iff (task_at t) (task_at u)).1 e in ground arith

fresh_later :
    (t u : ℕ × Command) (tasks : List Bytes)
    → has_task (task_at u) (task_at t ∷ tasks) ≡ false
    → has_task (task_at u) tasks ≡ false
fresh_later t u tasks h = ground arith

extend_batch-Extends :
    (limit : ℕ) (first : Key) (tasks : List Bytes) (size : ℕ) (queue : List (ℕ × Command))
    → Extends limit first tasks size queue (extend_batch limit first tasks size queue)
unfolding extend_batch
extend_batch-Extends limit first tasks size [] = nothing_taken limit first tasks size []
extend_batch-Extends limit first tasks size ((n, c) ∷ queue) =
    let more = extend_batch-Extends limit first (task_at (n, c) ∷ tasks) (size + 1) queue in
    elim (Bool-cases (ltb size limit)) [
      | inr e ↦ rw e (nothing_taken limit first tasks size ((n, c) ∷ queue))
      | inl e ↦ elim (Bool-cases (joins first tasks (command_key c))) [
        | inr f ↦ rw (e, f) (nothing_taken limit first tasks size ((n, c) ∷ queue))
        | inl f ↦
            let (m, new) = joins-Matches first tasks (n, c) f in
            rw (e, f)
              (record {
                fits = λ l. omega (arith, more.fits (ground arith));
                matching = (m, more.matching);
                fresh = (new, All-map _ (λ u h. fresh_later (n, c) u tasks h) more.fresh);
                distinct =
                    (All-map _ (λ u h. fresh_differs (n, c) u tasks h) more.fresh, more.distinct);
                whole = ap (λ (ts : List (ℕ × Command)). (n, c) ∷ ts) more.whole;
              })
      ]
    ]

-- The batch that is taken from a queue, and what is left of it.
pub record IsTaken (limit : ℕ) (t : ℕ × Command) (queue : List (ℕ × Command))
    (r : List (ℕ × Command) × List (ℕ × Command)) : Type 0 where
  pub sized : 1 ≤ limit → length (t ∷ r.0) ≤ limit
  pub uniform : IsUniform (t ∷ r.0)
  pub in_order : r.0 ++ r.1 ≡ queue

IsTaken-alone :
    (limit : ℕ) (t : ℕ × Command) (queue : List (ℕ × Command)) → IsTaken limit t queue ([], queue)
IsTaken-alone limit t queue = record {
  sized = λ l. omega arith;
  uniform = inl (omega arith);
  in_order = refl;
}

pub fill_batch-IsTaken :
    (limit : ℕ) (t : ℕ × Command) (queue : List (ℕ × Command)) (o : Option Key)
    → command_key t.1 ≡ o
    → IsTaken limit t queue (fill_batch limit o queue)
unfolding fill_batch
fill_batch-IsTaken limit t queue none e = IsTaken-alone limit t queue
fill_batch-IsTaken limit t queue (some first) e = elim (Bool-cases (ltb 1 limit)) [
  | inr f ↦ rw f (IsTaken-alone limit t queue)
  | inl f ↦
      let more = extend_batch-Extends limit first (first.task ∷ []) 1 queue in
      let same : task_at t ≡ first.task = ap task_of e in
      rw f (record {
        sized = λ l. omega (arith, more.fits l);
        uniform = inr (
          first,
          (
            record {
              own = first;
              has_key = e;
              same_kind = refl;
              same_plan = refl;
              same_epoch = refl;
            },
            more.matching,
          ),
          (
            All-map _
                (λ u h.
                  fresh_differs t u []
                    (subst (λ (x : Bytes). has_task (task_at u) (x ∷ []) ≡ false) (sym same) h))
                more.fresh,
            more.distinct,
          ),
        );
        in_order = more.whole;
      })
]
